-- ===== src/Storage/Codec.antt =====
-- The frames of pkg/storage/codec.go. A byte is a number; CRC-32 is a parameter. Uvarints are
-- those of encoding/binary.
pub mod Frames
pub mod Uvarint
pub mod RoundTrip
use shardlands.Prelude.{
  ℕ, zero, suc, ◌+◌, ◌-◌, ◌*◌, ◌/◌, ◌%◌, Bool, true, false, not, ◌&&◌, ◌||◌, List, [], ◌∷◌, ◌++◌,
  Option, none, some, ltb, leb, ◌==◌, u64, if◌then◌else◌, length, take, drop,
}
use shardlands.Storage.Bytes.{Bytes}
use shardlands.Storage.Memtable.{Rec}

abbrev pub max_rec_bytes : ℕ
max_rec_bytes = 268435456

-- binary.AppendUvarint, for numbers of at most k + 1 groups of seven bits; a uint64 has ten.
unfoldable pub groups : ℕ → ℕ → Bytes
groups zero v = v ∷ []
groups (suc k) v =
    let rest = groups k (v / 128) in if ltb v 128 then v ∷ [] else (v % 128 + 128) ∷ rest

abbrev pub uvarint : ℕ → Bytes
uvarint v = groups 9 v

-- A uvarint that was read; `ended` is no byte at all.
pub data Read : Type 0 where
  number : ℕ → Bytes → Read
  ended short overflow : Read

-- The loop of binary.ReadUvarint and binary.Uvarint, with `left` bytes to go.
unfoldable pub read_groups : ℕ → ℕ → ℕ → Bytes → Read
read_groups zero acc scale bs = overflow
read_groups (suc left) acc scale [] = short
read_groups (suc left) acc scale (b ∷ bs) =
    let more = read_groups left (acc + (b - 128) * scale) (scale * 128) bs in
    if ltb b 128
    then (if (left == 0) && ltb 1 b then overflow else number (acc + b * scale) bs)
    else more

unfoldable pub read_uvarint : Bytes → Read
read_uvarint [] = ended
read_uvarint (b ∷ bs) = read_groups 10 0 1 (b ∷ bs)

-- binary.LittleEndian.AppendUint32 and Uint32
unfoldable pub le32 : ℕ → Bytes
le32 c = (c % 256) ∷ (c / 256 % 256) ∷ (c / 65536 % 256) ∷ (c / 16777216 % 256) ∷ []

unfoldable pub of_le32 : Bytes → ℕ
of_le32 (a ∷ b ∷ c ∷ d ∷ _) = a + b * 256 + c * 65536 + d * 16777216
of_le32 _ = 0

abbrev pub flag_of : Bool → ℕ
flag_of true = 1
flag_of false = 0

-- The payload of encodeRec.
unfoldable pub payload_of : Rec → Bytes
payload_of r = uvarint (length r.key) ++ (r.key ++ (flag_of r.tomb ∷ r.val))

-- What decodeRec comes to; a slice out of range panics.
pub data Decoded : Type 0 where
  got : Rec → Bytes → Decoded
  eof torn corrupt varint_overflow panics : Decoded

abbrev pub rec_of : Bytes → Bytes → Bytes → Decoded
rec_of key [] rest = panics
rec_of key (flags ∷ val) rest = got (record { key = key; val = val; tomb = flags % 2 == 1 }) rest

-- payload[n:n+klen], payload[n+klen] and payload[n+klen+1:]; the sum may wrap round.
abbrev pub split_payload : ℕ → Bytes → Bytes → Decoded
split_payload klen after rest =
    if ltb (length after) klen then panics else rec_of (take klen after) (drop klen after) rest

-- The length of the key, in a payload whose checksum is right; `n` is len(payload) less what is
-- after the length.
abbrev pub on_klen : Bytes → Bytes → Read → Decoded
on_klen payload rest (number klen after) =
    if ltb (length payload) (u64 (length payload - length after + klen + 1))
    then corrupt
    else split_payload klen after rest
on_klen payload rest _ = corrupt

module _ (crc : Bytes → ℕ) where
  -- encodeRec: what it appends.
  unfoldable pub encode_rec : Rec → Bytes
  encode_rec r = let p = payload_of r in uvarint (length p) ++ (le32 (crc p) ++ p)

  -- The reads of io.ReadFull and the checks.
  abbrev pub on_frame : ℕ → Bytes → Decoded
  on_frame plen bs =
      if ltb (length bs) 4
      then torn
      else if ltb (length (drop 4 bs)) plen
      then torn
      else let payload = take plen (drop 4 bs) in
        if not (crc payload == of_le32 bs)
        then corrupt
        else on_klen payload (drop plen (drop 4 bs)) (read_uvarint payload)

  abbrev pub on_plen : Read → Decoded
  on_plen ended = eof
  on_plen short = torn
  on_plen overflow = varint_overflow
  on_plen (number plen bs) =
      if (plen == 0) || ltb max_rec_bytes plen then corrupt else on_frame plen bs

  -- decodeRec
  unfoldable pub decode_rec : Bytes → Decoded
  decode_rec bs = on_plen (read_uvarint bs)
