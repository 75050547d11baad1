-- ===== src/Es/Starts.antt =====
-- batchStartFor of pkg/es/es.go when a batch is put at the end.
use shardlands.Prelude.{
  ℕ, zero, suc, ◌+◌, ◌-◌, ◌≡◌, ◌≤◌, ◌<◌, inl, inr, refl, sym, ap, ◌∙◌, false, List, [], ◌∷◌, ◌++◌,
  arith, ltb, ◌==◌, length, get_elem?, get_elem?-append_left, get_elem?-append_right, Bool-cases,
  All,
}
use shardlands.Es.Store.{or_zero, search_after, batch_start_for}

search_after-le : (g : ℕ) (l : List ℕ) → search_after g l ≤ length l
unfolding search_after
search_after-le g [] = omega arith
search_after-le g (b ∷ bs) = ground (arith, search_after-le g bs)

search_after-append :
    (n g : ℕ) (l : List ℕ) → g ≤ n → search_after g (l ++ ((n + 1) ∷ [])) ≡ search_after g l
unfolding search_after
search_after-append n g [] h = ground arith
search_after-append n g (b ∷ bs) h = rw (search_after-append n g bs h) refl

search_after_new :
    (n : ℕ) (l : List ℕ)
    → All (λ b. b ≤ n) l
    → search_after (n + 1) (l ++ ((n + 1) ∷ [])) ≡ suc (length l)
unfolding search_after
search_after_new n [] h = ground arith
search_after_new n (b ∷ bs) h =
    let below : b ≤ n = h.0 in
    let low : ltb (n + 1) b ≡ false = ground arith in rw low (ap suc (search_after_new n bs h.1))

batch_start_for_lem :
    (g : ℕ) (l : List ℕ) → batch_start_for g l ≡ or_zero (get_elem? l (search_after g l - 1))
unfolding batch_start_for
batch_start_for_lem g l = elim (Bool-cases (search_after g l == 0)) [
  | inl first ↦ let q : search_after g l - 1 ≡ 0 = ground arith in rw (first, q) refl
  | inr later ↦ rw later refl
]

get_elem?-le : (n i : ℕ) (l : List ℕ) → All (λ b. b ≤ n) l → or_zero (get_elem? l i) ≤ n
get_elem?-le n i [] h = omega arith
get_elem?-le n zero (b ∷ bs) h = h.0
get_elem?-le n (suc i) (b ∷ bs) h = get_elem?-le n i bs h.1

pub batch_start_for-le : (n g : ℕ) (l : List ℕ) → All (λ b. b ≤ n) l → batch_start_for g l ≤ n
batch_start_for-le n g l h =
    rw (batch_start_for_lem g l) (get_elem?-le n (search_after g l - 1) l h)

pub batch_start_for-append :
    (n g : ℕ) (l : List ℕ)
    → g ≤ n
    → 0 < length l
    → batch_start_for g (l ++ ((n + 1) ∷ [])) ≡ batch_start_for g l
batch_start_for-append n g l h some_start =
    let i = search_after g l - 1 in
    let inside : i < length l = omega (arith, search_after-le g l) in
    batch_start_for_lem g (l ++ ((n + 1) ∷ []))
    ∙ ap (λ j. or_zero (get_elem? (l ++ ((n + 1) ∷ [])) (j - 1))) (search_after-append n g l h)
    ∙ ap or_zero (get_elem?-append_left l ((n + 1) ∷ []) i inside)
    ∙ sym (batch_start_for_lem g l)

pub batch_start_for_new :
    (n : ℕ) (l : List ℕ)
    → All (λ b. b ≤ n) l
    → batch_start_for (n + 1) (l ++ ((n + 1) ∷ [])) ≡ n + 1
batch_start_for_new n l h =
    let place : suc (length l) - 1 ≡ length l + 0 = omega arith in
    batch_start_for_lem (n + 1) (l ++ ((n + 1) ∷ []))
    ∙ ap (λ j. or_zero (get_elem? (l ++ ((n + 1) ∷ [])) (j - 1))) (search_after_new n l h)
    ∙ ap (λ j. or_zero (get_elem? (l ++ ((n + 1) ∷ [])) j)) place
    ∙ ap or_zero (get_elem?-append_right l ((n + 1) ∷ []) 0)
