-- ===== src/Storage/Codec/RoundTrip.antt =====
-- decodeRec reads back what encodeRec of pkg/storage/codec.go writes, and a frame that was cut is
-- torn.
use shardlands.Prelude.{
  ℕ, ◌+◌, ◌-◌, ◌%◌, ◌≤◌, ◌<◌, ◌≡◌, refl, ap, ◌∙◌, inl, inr, Bool, true, false, ◌||◌, [], ◌∷◌, ◌++◌,
  arith, ltb, ◌==◌, u64, length, drop, Bool-cases, length-append, length-drop, take_exact,
  drop_exact, append_assoc,
}
use shardlands.Storage.Bytes.{Bytes}
use shardlands.Storage.Memtable.{Rec}
use shardlands.Storage.Codec.{
  max_rec_bytes, uvarint, number, read_uvarint, le32, of_le32, flag_of, payload_of, got, torn,
  on_klen, encode_rec, on_frame, on_plen, decode_rec,
}
use shardlands.Storage.Codec.Uvarint.{read_uvarint-uvarint, read_uvarint-front}

of_le32-le32 : (c : ℕ) (rest : Bytes) → c < 4294967296 → of_le32 (le32 c ++ rest) ≡ c
unfolding of_le32 le32
of_le32-le32 c rest h = omega arith

-- A record whose payload is not above the limit of decodeRec.
abbrev pub IsSmall : Rec → Type 0
IsSmall r = length (payload_of r) ≤ max_rec_bytes

length-payload_of :
    (r : Rec)
    → length (payload_of r) ≡ length (uvarint (length r.key)) + (length r.key + (1 + length r.val))
unfolding payload_of
length-payload_of r = omega (
  arith,
  length-append {0} (uvarint (length r.key)) (r.key ++ (flag_of r.tomb ∷ r.val)),
  length-append {0} r.key (flag_of r.tomb ∷ r.val),
)

flag_lem : (b : Bool) → (flag_of b % 2 == 1) ≡ b
flag_lem true = refl
flag_lem false = refl

on_klen_lem :
    (r : Rec) (rest : Bytes)
    → IsSmall r
    → on_klen (payload_of r) rest (read_uvarint (payload_of r)) ≡ got r rest
on_klen_lem r rest h =
    let after = r.key ++ (flag_of r.tomb ∷ r.val) in
    let size = length-payload_of r in
    let tail = length-append {0} r.key (flag_of r.tomb ∷ r.val) in
    let read : read_uvarint (payload_of r) ≡ number (length r.key) after =
      unfold payload_of in (read_uvarint-uvarint (length r.key) after (omega (arith, size))) in
    let inside : ltb (length (payload_of r))
          (u64 (length (payload_of r) - length after + length r.key + 1))
        ≡ false =
      ground (arith, size, tail) in
    let enough : ltb (length after) (length r.key) ≡ false = ground (arith, tail) in
    rw read (
      rw inside (
        rw enough (
          rw (take_exact r.key (flag_of r.tomb ∷ r.val))
            (rw (drop_exact r.key (flag_of r.tomb ∷ r.val)) (rw (flag_lem r.tomb) refl)))))

drop_four : (c : ℕ) (bs : Bytes) → drop 4 (le32 c ++ bs) ≡ bs
unfolding le32
drop_four c bs = refl

length-le32 : (c : ℕ) (bs : Bytes) → length (le32 c ++ bs) ≡ 4 + length bs
unfolding le32
length-le32 c bs = omega arith

module _ (crc : Bytes → ℕ) where
  on_frame_lem :
      (r : Rec) (rest : Bytes)
      → IsSmall r
      → crc (payload_of r) < 4294967296
      → on_frame crc (length (payload_of r)) (le32 (crc (payload_of r)) ++ (payload_of r ++ rest))
        ≡ got r rest
  on_frame_lem r rest h c =
      let p = payload_of r in
      let head : ltb (length (le32 (crc p) ++ (p ++ rest))) 4 ≡ false =
        ground (arith, length-le32 (crc p) (p ++ rest)) in
      let full : ltb (length (p ++ rest)) (length p) ≡ false =
        ground (arith, length-append {0} p rest) in
      let sum : (crc p == crc p) ≡ true = ground arith in
      rw head (
        rw (drop_four (crc p) (p ++ rest)) (
          rw full (
            rw (take_exact p rest) (
              rw (drop_exact p rest)
                (rw (of_le32-le32 (crc p) (p ++ rest) c) (rw sum (on_klen_lem r rest h)))))))

  -- The frame of a record whose payload is at most maxRecBytes is read back, and what follows it
  -- is left. A CRC has 32 bits.
  pub decode_rec-encode_rec :
      (r : Rec) (rest : Bytes)
      → IsSmall r
      → crc (payload_of r) < 4294967296
      → decode_rec crc (encode_rec crc r ++ rest) ≡ got r rest
  unfolding decode_rec encode_rec
  decode_rec-encode_rec r rest h c =
      let p = payload_of r in
      let l = length p in
      let shape : (uvarint l ++ (le32 (crc p) ++ p)) ++ rest
          ≡ uvarint l ++ (le32 (crc p) ++ (p ++ rest)) =
        append_assoc (uvarint l) (le32 (crc p) ++ p) rest
        ∙ ap (λ t. uvarint l ++ t) (append_assoc (le32 (crc p)) p rest) in
      let some_bytes : ((l == 0) || ltb max_rec_bytes l) ≡ false =
        ground (arith, length-payload_of r) in
      ap (λ bs. on_plen crc (read_uvarint bs)) shape
      ∙ ap (on_plen crc) (read_uvarint-uvarint l (le32 (crc p) ++ (p ++ rest)) (omega arith))
      ∙ rw some_bytes (on_frame_lem r rest h c)

  -- A frame whose bytes are cut off after its length.
  on_frame_torn : (l : ℕ) (bs : Bytes) → length bs < 4 + l → on_frame crc l bs ≡ torn
  on_frame_torn l bs h = elim (Bool-cases (ltb (length bs) 4)) [
    | inl head ↦ rw head refl
    | inr body ↦
        let missing : ltb (length (drop 4 bs)) l ≡ true = ground (arith, length-drop 4 bs) in
        rw body (rw missing refl)
  ]

-- Where a front of two lists ends.
data Cut (xs ys front : Bytes) : Type 0 where
  inside : (x : ℕ) (back : Bytes) → xs ≡ front ++ (x ∷ back) → Cut xs ys front
  beyond :
      (more back : Bytes) (x : ℕ) → front ≡ xs ++ more → ys ≡ more ++ (x ∷ back) → Cut xs ys front

Cut-split :
    (xs ys front : Bytes) (x : ℕ) (back : Bytes) → xs ++ ys ≡ front ++ (x ∷ back) → Cut xs ys front
Cut-split [] ys front x back e = beyond front back x refl e
Cut-split (a ∷ xs) ys [] x back e = inside a xs refl
Cut-split (a ∷ xs) ys (b ∷ front) x back e =
    let first : a ≡ b = cc in
    let rest : xs ++ ys ≡ front ++ (x ∷ back) = cc in
    elim (Cut-split xs ys front x back rest) [
      | inside y t p ↦ inside y t (rw first (ap (λ l. b ∷ l) p))
      | beyond more t y p q ↦ beyond more t y (rw first (ap (λ l. b ∷ l) p)) q
    ]

module _ (crc : Bytes → ℕ) where
  -- A frame that was cut anywhere is torn.
  pub decode_rec-front :
      (r : Rec) (b x : ℕ) (front back : Bytes)
      → IsSmall r
      → encode_rec crc r ≡ (b ∷ front) ++ (x ∷ back)
      → decode_rec crc (b ∷ front) ≡ torn
  unfolding decode_rec encode_rec
  decode_rec-front r b x front back h e =
      let p = payload_of r in
      let l = length p in
      elim (Cut-split (uvarint l) (le32 (crc p) ++ p) (b ∷ front) x back e) [
        | inside y t cut ↦ rw (read_uvarint-front l b y front t cut) refl
        | beyond more t y whole rest ↦
            let some_bytes : ((l == 0) || ltb max_rec_bytes l) ≡ false =
              ground (arith, length-payload_of r) in
            let few : length more < 4 + l =
              omega
                (arith, ap length rest, length-le32 (crc p) p, length-append {0} more (y ∷ t)) in
            ap (λ bs. on_plen crc (read_uvarint bs)) whole
            ∙ ap (on_plen crc) (read_uvarint-uvarint l more (omega arith))
            ∙ rw some_bytes (on_frame_torn crc l more few)
      ]
