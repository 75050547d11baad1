-- ===== src/Storage/Bytes.antt =====
-- Keys of pkg/storage and their order: bytes.Compare and bytes.Equal.
use shardlands.Prelude.{
  ℕ, ◌≡◌, refl, Bool, true, false, ◌&&◌, List, [], ◌∷◌, arith, ltb, ◌==◌, if◌then◌else◌,
}

abbrev pub Bytes : Type 0
Bytes = List ℕ

-- bytes.Compare(a, b) < 0
unfoldable pub less : Bytes → Bytes → Bool
less [] [] = false
less [] (y ∷ ys) = true
less (x ∷ xs) [] = false
less (x ∷ xs) (y ∷ ys) = if ltb x y then true else (x == y) && less xs ys

-- bytes.Equal
unfoldable pub same : Bytes → Bytes → Bool
same [] [] = true
same [] (y ∷ ys) = false
same (x ∷ xs) [] = false
same (x ∷ xs) (y ∷ ys) = (x == y) && same xs ys

pub same_refl : (a : Bytes) → same a a ≡ true
unfolding same
same_refl [] = refl
same_refl (x ∷ xs) = ground (arith, same_refl xs)

pub same_eq : (a b : Bytes) → same a b ≡ true → a ≡ b
unfolding same
same_eq [] [] h = refl
same_eq [] (y ∷ ys) h = cc
same_eq (x ∷ xs) [] h = cc
same_eq (x ∷ xs) (y ∷ ys) h = ground (arith, same_eq xs ys)

pub same_sym : (a b : Bytes) → same a b ≡ same b a
unfolding same
same_sym [] [] = refl
same_sym [] (y ∷ ys) = refl
same_sym (x ∷ xs) [] = refl
same_sym (x ∷ xs) (y ∷ ys) = ground (arith, same_sym xs ys)

pub less_irrefl : (a : Bytes) → less a a ≡ false
unfolding less
less_irrefl [] = refl
less_irrefl (x ∷ xs) = ground (arith, less_irrefl xs)

pub less_trans : (a b c : Bytes) → less a b ≡ true → less b c ≡ true → less a c ≡ true
unfolding less
less_trans [] [] c h g = cc
less_trans [] (y ∷ ys) [] h g = cc
less_trans [] (y ∷ ys) (z ∷ zs) h g = refl
less_trans (x ∷ xs) [] c h g = cc
less_trans (x ∷ xs) (y ∷ ys) [] h g = cc
less_trans (x ∷ xs) (y ∷ ys) (z ∷ zs) h g = ground (arith, less_trans xs ys zs)

pub less_not_same : (a b : Bytes) → less a b ≡ true → same a b ≡ false
unfolding less same
less_not_same [] [] h = cc
less_not_same [] (y ∷ ys) h = refl
less_not_same (x ∷ xs) [] h = cc
less_not_same (x ∷ xs) (y ∷ ys) h = ground (arith, less_not_same xs ys)

-- Neither less nor equal: greater.
pub less_total : (a b : Bytes) → less a b ≡ false → same a b ≡ false → less b a ≡ true
unfolding less same
less_total [] [] h g = cc
less_total [] (y ∷ ys) h g = cc
less_total (x ∷ xs) [] h g = refl
less_total (x ∷ xs) (y ∷ ys) h g = ground (arith, less_total xs ys)

pub less_asym : (a b : Bytes) → less a b ≡ true → less b a ≡ false
unfolding less
less_asym [] [] h = cc
less_asym [] (y ∷ ys) h = refl
less_asym (x ∷ xs) [] h = cc
less_asym (x ∷ xs) (y ∷ ys) h = ground (arith, less_asym xs ys)

-- No key is below the empty one.
pub less_empty : (k : Bytes) → less k [] ≡ false
unfolding less
less_empty [] = refl
less_empty (b ∷ bs) = refl
