-- ===== src/Storage/Codec/Uvarint.antt =====
-- Uvarints of encoding/binary, as pkg/storage/codec.go uses them.
use shardlands.Prelude.{
  ℕ, zero, suc, ◌+◌, ◌-◌, ◌*◌, ◌/◌, ◌%◌, ◌<◌, ◌≡◌, refl, ap, ◌∙◌, inl, inr, false, [], ◌∷◌, ◌++◌,
  arith, ltb, length, Bool-cases, length-append,
}
use native.Mathlib.Nat.{div-add-mod}
use shardlands.Storage.Bytes.{Bytes}
use shardlands.Storage.Codec.{groups, uvarint, number, short, read_groups, read_uvarint}

-- A number of at most k + 1 groups.
abbrev pub Fits : ℕ → ℕ → Type 0
Fits zero v = v < 128
Fits (suc k) v = Fits k (v / 128)

split_scale : (v acc scale : ℕ) → acc + v % 128 * scale + v / 128 * (scale * 128) ≡ acc + v * scale
split_scale v acc scale = omega (arith, ap (λ (t : ℕ). t * scale) (div-add-mod v 128))

read_groups_lem :
    (k left v acc scale : ℕ) (rest : Bytes)
    → suc k < left
    → Fits k v
    → read_groups left acc scale (groups k v ++ rest) ≡ number (acc + v * scale) rest
unfolding read_groups groups
read_groups_lem zero zero v acc scale rest l f = absurd (omega arith)
read_groups_lem zero (suc left) v acc scale rest l f = ground arith
read_groups_lem (suc k) zero v acc scale rest l f = absurd (omega arith)
read_groups_lem (suc k) (suc left) v acc scale rest l f = elim (Bool-cases (ltb v 128)) [
  | inl low ↦ rw low (ground arith)
  | inr high ↦
      let ih =
        read_groups_lem k left (v / 128) (acc + v % 128 * scale) (scale * 128) rest (omega arith)
          f in
      let big : ltb (v % 128 + 128) 128 ≡ false = ground arith in
      let low : v % 128 + 128 - 128 ≡ v % 128 = omega arith in
      rw (high, big, low) (ih ∙ ap (λ n. number n rest) (split_scale v acc scale))
]

groups_fewer : (k v : ℕ) → Fits k v → groups (suc k) v ≡ groups k v
unfolding groups
groups_fewer zero v f = ground arith
groups_fewer (suc k) v f = elim (Bool-cases (ltb v 128)) [
  | inl low ↦ rw low refl
  | inr high ↦ rw high (ap (λ t. (v % 128 + 128) ∷ t) (groups_fewer k (v / 128) f))
]

pub uvarint_not_empty : (v : ℕ) → 0 < length (uvarint v)
unfolding groups
uvarint_not_empty v = ground arith

-- What is written is read back, with what follows it.
pub read_uvarint-uvarint :
    (v : ℕ) (rest : Bytes)
    → v < 9223372036854775808
    → read_uvarint (uvarint v ++ rest) ≡ number v rest
read_uvarint-uvarint v rest h = starts (uvarint v) (uvarint_not_empty v) (
    ap (λ g. read_groups 10 0 1 (g ++ rest)) (groups_fewer 8 v (omega arith))
    ∙ read_groups_lem 8 10 v 0 1 rest (omega arith) (omega arith)
    ∙ ap (λ n. number n rest) (omega arith))
  where
    starts :
        (bs : Bytes)
        → 0 < length bs
        → read_groups 10 0 1 (bs ++ rest) ≡ number v rest
        → read_uvarint (bs ++ rest) ≡ number v rest
    starts [] p e = absurd (omega arith)
    starts (b ∷ bs) p e = unfold read_uvarint in e

-- Every byte before the last is marked, so a front of what is written is too short.
short_front :
    (k left v acc scale x : ℕ) (front back : Bytes)
    → k < left
    → groups k v ≡ front ++ (x ∷ back)
    → read_groups left acc scale front ≡ short
unfolding read_groups groups
short_front k zero v acc scale x front back l e = absurd (omega arith)
short_front k (suc left) v acc scale x [] back l e = refl
short_front zero (suc left) v acc scale x (b ∷ front) back l e =
    absurd (omega (arith, ap length e, length-append {0} front (x ∷ back)))
short_front (suc k) (suc left) v acc scale x (b ∷ front) back l e = elim (Bool-cases (ltb v 128)) [
  | inl low ↦
      let one : v ∷ [] ≡ b ∷ (front ++ (x ∷ back)) = rw low at e in
      absurd (omega (arith, ap length one, length-append {0} front (x ∷ back)))
  | inr high ↦
      let cut : (v % 128 + 128) ∷ groups k (v / 128) ≡ b ∷ (front ++ (x ∷ back)) = rw high at e in
      let first : b ≡ v % 128 + 128 = cc in
      let rest : groups k (v / 128) ≡ front ++ (x ∷ back) = cc in
      let marked : ltb b 128 ≡ false = ground arith in
      rw marked (
        short_front k left (v / 128) (acc + (b - 128) * scale) (scale * 128) x front back
          (omega arith) rest)
]

-- A front of a uvarint, not empty and not all of it, is too short.
pub read_uvarint-front :
    (v b x : ℕ) (front back : Bytes)
    → uvarint v ≡ (b ∷ front) ++ (x ∷ back)
    → read_uvarint (b ∷ front) ≡ short
unfolding read_uvarint
read_uvarint-front v b x front back e = short_front 9 10 v 0 1 x (b ∷ front) back (omega arith) e
