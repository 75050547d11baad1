-- ===== src/Storage/Bloom/Members.antt =====
-- The filter of pkg/storage/bloom.go has no false negatives.
use shardlands.Prelude.{
  ℕ, zero, suc, ◌<◌, ◌≡◌, ◌⊎◌, refl, ap, subst, ◌==◌, ◌∙◌, inl, inr, Bool, true, List, [], ◌∷◌,
  arith, length, get_elem?, Bool-cases,
}
use shardlands.Storage.Bloom.{
  u32, set_at, probe, set_probes, set_hashes, zeros, clamp_k, bits_for, new_bloom, is_set, all_set,
  may_contain,
}

-- A hash is one of the list.
abbrev pub IsIn : ℕ → List ℕ → Type 0
IsIn h [] = ⊥
IsIn h (x ∷ xs) = (x ≡ h) ⊎ IsIn h xs

length-set_at : (i : ℕ) (bits : List Bool) → length (set_at i bits) ≡ length bits
length-set_at i [] = refl
length-set_at zero (b ∷ bs) = refl
length-set_at (suc i) (b ∷ bs) = ap suc (length-set_at i bs)

length-set_probes : (h n k : ℕ) (bits : List Bool) → length (set_probes h n k bits) ≡ length bits
unfolding set_probes
length-set_probes h n zero bits = refl
length-set_probes h n (suc k) bits =
    length-set_at (probe h n k) (set_probes h n k bits) ∙ length-set_probes h n k bits

length-set_hashes :
    (k n : ℕ) (hs : List ℕ) (bits : List Bool) → length (set_hashes k n hs bits) ≡ length bits
unfolding set_hashes
length-set_hashes k n [] bits = refl
length-set_hashes k n (h ∷ hs) bits =
    length-set_hashes k n hs (set_probes h n k bits) ∙ length-set_probes h n k bits

length-zeros : (n : ℕ) → length (zeros n) ≡ n
length-zeros zero = refl
length-zeros (suc n) = ap suc (length-zeros n)

abbrev IsOn : ℕ → List Bool → Type 0
IsOn i bits = is_set (get_elem? bits i) ≡ true

set_at-IsOn : (i : ℕ) (bits : List Bool) → i < length bits → IsOn i (set_at i bits)
set_at-IsOn i [] l = absurd (omega arith)
set_at-IsOn zero (b ∷ bs) l = refl
set_at-IsOn (suc i) (b ∷ bs) l = set_at-IsOn i bs (omega arith)

set_at-keeps : (i j : ℕ) (bits : List Bool) → IsOn j bits → IsOn j (set_at i bits)
set_at-keeps i j [] on = on
set_at-keeps zero zero (b ∷ bs) on = refl
set_at-keeps zero (suc j) (b ∷ bs) on = on
set_at-keeps (suc i) zero (b ∷ bs) on = on
set_at-keeps (suc i) (suc j) (b ∷ bs) on = set_at-keeps i j bs on

set_probes-keeps : (h n k j : ℕ) (bits : List Bool) → IsOn j bits → IsOn j (set_probes h n k bits)
unfolding set_probes
set_probes-keeps h n zero j bits on = on
set_probes-keeps h n (suc k) j bits on =
    set_at-keeps (probe h n k) j (set_probes h n k bits) (set_probes-keeps h n k j bits on)

set_hashes-keeps :
    (k n j : ℕ) (hs : List ℕ) (bits : List Bool) → IsOn j bits → IsOn j (set_hashes k n hs bits)
unfolding set_hashes
set_hashes-keeps k n j [] bits on = on
set_hashes-keeps k n j (h ∷ hs) bits on =
    set_hashes-keeps k n j hs (set_probes h n k bits) (set_probes-keeps h n k j bits on)

probe-lt : (h n i : ℕ) → 0 < u32 n → probe h n i < n
unfolding probe
probe-lt h n i p = grind arith

set_probes-IsOn :
    (h n k i : ℕ) (bits : List Bool)
    → 0 < u32 n
    → length bits ≡ n
    → i < k
    → IsOn (probe h n i) (set_probes h n k bits)
unfolding set_probes
set_probes-IsOn h n zero i bits p e l = absurd (omega arith)
set_probes-IsOn h n (suc k) i bits p e l = elim (Bool-cases (i == k)) [
  | inl last ↦
      let q : k ≡ i = ground arith in
      let inside : probe h n k < length (set_probes h n k bits) =
        omega (arith, length-set_probes h n k bits, probe-lt h n k p) in
      subst (λ j. IsOn (probe h n j) (set_at (probe h n k) (set_probes h n k bits))) q
        (set_at-IsOn (probe h n k) (set_probes h n k bits) inside)
  | inr before ↦
      set_at-keeps (probe h n k) (probe h n i) (set_probes h n k bits)
        (set_probes-IsOn h n k i bits p e (ground arith))
]

all_set_lem :
    (h k : ℕ) (bits : List Bool)
    → ((i : ℕ) → i < k → IsOn (probe h (length bits) i) bits)
    → all_set h bits k ≡ true
unfolding all_set
all_set_lem h zero bits f = refl
all_set_lem h (suc k) bits f =
    rw (f k (omega arith)) (all_set_lem h k bits (λ i l. f i (omega arith)))

set_hashes-IsOn :
    (k n h i : ℕ) (hs : List ℕ) (bits : List Bool)
    → 0 < u32 n
    → length bits ≡ n
    → i < k
    → IsIn h hs
    → IsOn (probe h n i) (set_hashes k n hs bits)
unfolding set_hashes
set_hashes-IsOn k n h i [] bits p e l m = absurd m
set_hashes-IsOn k n h i (x ∷ hs) bits p e l (inl same_) =
    set_hashes-keeps k n (probe h n i) hs (set_probes x n k bits)
      (rw (← same_) (set_probes-IsOn x n k i bits p e l))
set_hashes-IsOn k n h i (x ∷ hs) bits p e l (inr m) =
    set_hashes-IsOn k n h i hs (set_probes x n k bits) p (length-set_probes x n k bits ∙ e) l m

-- No false negatives: a filter made of some hashes says of each of them that it may be there. Its
-- number of bits, as a uint32, is not 0.
pub may_contain-new_bloom :
    (optimal : ℕ → ℕ) (hashes : List ℕ) (bits_per_key h : ℕ)
    → 0 < u32 (bits_for (length hashes) bits_per_key)
    → IsIn h hashes
    → may_contain (new_bloom optimal hashes bits_per_key) h ≡ true
unfolding may_contain new_bloom
may_contain-new_bloom optimal hashes bits_per_key h fits m =
    let n = bits_for (length hashes) bits_per_key in
    let k = clamp_k (optimal bits_per_key) in
    let size = length-set_hashes k n hashes (zeros n) ∙ length-zeros n in
    all_set_lem h k (set_hashes k n hashes (zeros n))
      (λ i l. rw size (set_hashes-IsOn k n h i hashes (zeros n) fits (length-zeros n) l m))
