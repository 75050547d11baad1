-- ===== src/Hashring/Owners.antt =====
-- Get of pkg/hashring/hashring.go gives every key to a registered node.
use shardlands.Prelude.{
  ℕ, ◌≡◌, ◌≢◌, inl, inr, refl, sym, ap, ◌∙◌, true, List, [], ◌∷◌, none, some, String, arith,
  Option-cases,
}
use mathlib.Core.Bool.{false≢true}
use shardlands.Hashring.Ring.{Ring, is_member, is_taken, or_empty, get}
use shardlands.Hashring.Invariant.{holds, IsPlaced, IsRing}
use shardlands.Hashring.Moves.{place_of, place_of-some, first_from, get_elem?-wrap}

holds-first_from : (h x : ℕ) (xs : List ℕ) → first_from h xs ≡ some x → holds x xs ≡ true
holds-first_from h x [] e = cc
holds-first_from h x (y ∷ xs) e = ground (arith, holds-first_from h x xs)

holds-place_of : (h x : ℕ) (xs : List ℕ) → place_of h xs ≡ some x → holds x xs ≡ true
holds-place_of h x [] e = cc
holds-place_of h x (y ∷ xs) e = elim (Option-cases (first_from h (y ∷ xs))) [
  | inl past ↦ let same : some y ≡ some x = rw past at e in ground arith
  | inr (z, at) ↦
      let same : some z ≡ some x = rw at at e in holds-first_from h x (y ∷ xs) (at ∙ same)
]

registered-owner :
    (r : Ring) (x : ℕ)
    → IsPlaced r
    → holds x r.ring ≡ true
    → is_member (or_empty (r.owner x)) r.nodes ≡ true
registered-owner r x p h = elim (Option-cases (r.owner x)) [
  | inl free ↦ absurd (false≢true (sym (ap is_taken free) ∙ sym (p.owned x) ∙ h))
  | inr (m, at) ↦ rw at (p.registered x m at)
]

module _ (checksum : String → ℕ) where
  -- On a ring with a position, every key belongs to a registered node.
  pub get-registered :
      (key : String) (r : Ring)
      → IsRing r
      → r.ring ≢ []
      → is_member (get checksum key r) r.nodes ≡ true
  unfolding get
  get-registered key r i some_ =
      let h = checksum key in
      let at = get_elem?-wrap h r.ring in
      elim (Option-cases (place_of h r.ring)) [
        | inl nowhere ↦ absurd (some_ (empty h r.ring nowhere))
        | inr (x, there) ↦
            rw (at ∙ there) (registered-owner r x i.placed (holds-place_of h x r.ring there))
      ]
    where
      empty : (h : ℕ) (xs : List ℕ) → place_of h xs ≡ none → xs ≡ []
      empty h [] e = refl
      empty h (y ∷ xs) e =
          let (x, there) = place_of-some h y xs in let clash : some x ≡ none = sym there ∙ e in cc
