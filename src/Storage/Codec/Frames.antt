-- ===== src/Storage/Codec/Frames.antt =====
-- The frames of records one after another, as a log and a table hold them.
use shardlands.Prelude.{
  ℕ, ◌≡◌, ◌<◌, ◌≤◌, refl, sym, ap, ◌∙◌, List, [], ◌∷◌, ◌++◌, arith, length, length-append,
  append_assoc,
}
use shardlands.Storage.Bytes.{Bytes}
use shardlands.Storage.Memtable.{Rec}
use shardlands.Storage.Codec.{le32, payload_of, encode_rec, uvarint}
use shardlands.Storage.Codec.Uvarint.{uvarint_not_empty}

module _ (crc : Bytes → ℕ) where
  unfoldable pub bytes_of : List Rec → Bytes
  bytes_of [] = []
  bytes_of (r ∷ rs) = encode_rec crc r ++ bytes_of rs

  pub bytes_of-append : (xs ys : List Rec) → bytes_of (xs ++ ys) ≡ bytes_of xs ++ bytes_of ys
  unfolding bytes_of
  bytes_of-append [] ys = refl
  bytes_of-append (x ∷ xs) ys =
      ap (λ t. encode_rec crc x ++ t) (bytes_of-append xs ys)
      ∙ sym (append_assoc (encode_rec crc x) (bytes_of xs) (bytes_of ys))

  frame_not_empty : (r : Rec) → 0 < length (encode_rec crc r)
  unfolding encode_rec
  frame_not_empty r =
      let l = length (payload_of r) in
      omega (
        arith,
        uvarint_not_empty l,
        length-append {0} (uvarint l) (le32 (crc (payload_of r)) ++ payload_of r),
      )

  pub length-bytes_of : (rs : List Rec) → length rs ≤ length (bytes_of rs)
  unfolding bytes_of
  length-bytes_of [] = omega arith
  length-bytes_of (r ∷ rs) = omega (
    arith,
    length-append {0} (encode_rec crc r) (bytes_of rs),
    frame_not_empty r,
    length-bytes_of rs,
  )
