-- ===== src/Hashring/Moves.antt =====
-- Which keys of pkg/hashring/hashring.go move when a node leaves.
use shardlands.Prelude.{
  ℕ, ◌≤◌, ◌<◌, ◌≡◌, ◌≢◌, inl, inr, refl, sym, ap, ◌∙◌, true, false, List, [], ◌∷◌, Option, none,
  some, String, arith, str_eq, str_eq_iff, ◌==◌, leb, if◌then◌else◌, Bool-cases, Option-cases,
  length, get_elem?,
}
use shardlands.Hashring.Ring.{
  Ring, is_member, or_empty, disown, remove_loop, remove, search, owner_at, wrap, get,
}

-- The first position from h on.
abbrev pub first_from : ℕ → List ℕ → Option ℕ
first_from h [] = none
first_from h (x ∷ xs) = if leb h x then some x else first_from h xs

abbrev pub or_else : Option ℕ → Option ℕ → Option ℕ
or_else none o = o
or_else (some x) o = some x

search-le : (h : ℕ) (xs : List ℕ) → search h xs ≤ length xs
search-le h [] = omega arith
search-le h (x ∷ xs) = ground (arith, search-le h xs)

get_elem?-search : (h : ℕ) (xs : List ℕ) → get_elem? xs (search h xs) ≡ first_from h xs
get_elem?-search h [] = refl
get_elem?-search h (x ∷ xs) = elim (Bool-cases (leb h x)) [
  | inl b ↦ rw b refl
  | inr b ↦ rw b (get_elem?-search h xs)
]

first_from-none : (h : ℕ) (xs : List ℕ) → search h xs ≡ length xs → first_from h xs ≡ none
first_from-none h [] e = refl
first_from-none h (x ∷ xs) e = ground (arith, first_from-none h xs)

first_from-some :
    (h : ℕ) (xs : List ℕ) → search h xs < length xs → (x : ℕ) × (first_from h xs ≡ some x)
first_from-some h [] e = absurd (omega arith)
first_from-some h (x ∷ xs) e = elim (Bool-cases (leb h x)) [
  | inl b ↦ (x, rw b refl)
  | inr b ↦ let (y, at) = first_from-some h xs (ground arith) in (y, rw b at)
]

abbrev pub place_of : ℕ → List ℕ → Option ℕ
place_of h xs = or_else (first_from h xs) (get_elem? xs 0)

pub place_of-some : (h y : ℕ) (xs : List ℕ) → (x : ℕ) × (place_of h (y ∷ xs) ≡ some x)
place_of-some h y xs = elim (Option-cases (first_from h (y ∷ xs))) [
  | inl e ↦ (y, rw e refl)
  | inr (x, e) ↦ (x, rw e refl)
]

-- The position that Get reads: the first one from the key's hash on, or else the first of all.
pub get_elem?-wrap : (h : ℕ) (xs : List ℕ) → get_elem? xs (wrap (search h xs) xs) ≡ place_of h xs
get_elem?-wrap h xs = elim (Bool-cases (search h xs == length xs)) [
  | inl e ↦ rw e (rw (first_from-none h xs (ground arith)) refl)
  | inr e ↦
      let (x, at) = first_from-some h xs (ground (arith, search-le h xs)) in
      rw e (rw (get_elem?-search h xs) (rw at refl))
]

module _ (node : String) where
  disown-other :
      (owner : ℕ → Option String) (h k : ℕ)
      → str_eq (or_empty (owner h)) node ≡ true
      → or_empty (owner k) ≢ node
      → disown h owner k ≡ owner k
  disown-other owner h k own other = elim (Bool-cases (k == h)) [
    | inl same ↦
        let e : owner k ≡ owner h = ap owner (ground arith) in
        absurd (other (ap or_empty e ∙ (str_eq_iff (or_empty (owner h)) node).0 own))
    | inr apart ↦ rw apart refl
  ]

  -- The owners of positions that are not the node's.
  owner-remove_loop :
      (hs : List ℕ) (owner : ℕ → Option String) (k : ℕ)
      → or_empty (owner k) ≢ node
      → (remove_loop node hs owner).1 k ≡ owner k
  unfolding remove_loop
  owner-remove_loop [] owner k other = refl
  owner-remove_loop (h ∷ hs) owner k other = elim (Bool-cases (str_eq (or_empty (owner h)) node)) [
    | inl own ↦
        let e = disown-other owner h k own other in
        rw own
          (owner-remove_loop hs (disown h owner) k (λ bad. other (sym (ap or_empty e) ∙ bad)) ∙ e)
    | inr apart ↦ rw apart (owner-remove_loop hs owner k other)
  ]

  first_from-remove_loop :
      (hs : List ℕ) (owner : ℕ → Option String) (h x : ℕ)
      → first_from h hs ≡ some x
      → or_empty (owner x) ≢ node
      → first_from h (remove_loop node hs owner).0 ≡ some x
  unfolding remove_loop
  first_from-remove_loop [] owner h x at other = at
  first_from-remove_loop (y ∷ hs) owner h x at other =
      elim (Bool-cases (str_eq (or_empty (owner y)) node)) [
        | inl own ↦
            let e = disown-other owner y x own other in
            let past : leb h y ≡ false = ground (arith, str_eq_iff (or_empty (owner y)) node) in
            rw own (
              first_from-remove_loop hs (disown y owner) h x (ground arith)
                (λ bad. other (sym (ap or_empty e) ∙ bad)))
        | inr apart ↦ let ih = first_from-remove_loop hs owner h x in ground arith
      ]

  none-remove_loop :
      (hs : List ℕ) (owner : ℕ → Option String) (h : ℕ)
      → first_from h hs ≡ none
      → first_from h (remove_loop node hs owner).0 ≡ none
  unfolding remove_loop
  none-remove_loop [] owner h at = at
  none-remove_loop (y ∷ hs) owner h at =
      ground (arith, none-remove_loop hs owner h, none-remove_loop hs (disown y owner) h)

  head-remove_loop :
      (hs : List ℕ) (owner : ℕ → Option String) (x : ℕ)
      → get_elem? hs 0 ≡ some x
      → or_empty (owner x) ≢ node
      → get_elem? (remove_loop node hs owner).0 0 ≡ some x
  unfolding remove_loop
  head-remove_loop [] owner x at other = at
  head-remove_loop (y ∷ hs) owner x at other = ground (arith, str_eq_iff (or_empty (owner y)) node)

  place_of-remove_loop :
      (h x : ℕ) (hs : List ℕ) (owner : ℕ → Option String)
      → place_of h hs ≡ some x
      → or_empty (owner x) ≢ node
      → place_of h (remove_loop node hs owner).0 ≡ some x
  place_of-remove_loop h x hs owner at other = elim (Option-cases (first_from h hs)) [
    | inl e ↦ rw (none-remove_loop hs owner h e) (head-remove_loop hs owner x (rw e at at) other)
    | inr (y, e) ↦
        let same : some y ≡ some x = rw e at at in
        rw (first_from-remove_loop hs owner h x (e ∙ same) other) refl
  ]

  owner_at-remove_loop :
      (h : ℕ) (hs : List ℕ) (owner : ℕ → Option String)
      → owner_at (place_of h hs) owner ≢ node
      → owner_at (place_of h (remove_loop node hs owner).0) (remove_loop node hs owner).1
        ≡ owner_at (place_of h hs) owner
  unfolding remove_loop
  owner_at-remove_loop h [] owner other = refl
  owner_at-remove_loop h (y ∷ hs) owner other =
      let (x, at) = place_of-some h y hs in
      let own : or_empty (owner x) ≢ node = rw at at other in
      rw at (
        rw (place_of-remove_loop h x (y ∷ hs) owner at own)
          (ap or_empty (owner-remove_loop (y ∷ hs) owner x own)))

module _ (checksum : String → ℕ) where
  -- Consistent hashing: when a node leaves, a key of another node stays where it is.
  pub get-remove :
      (key node : String) (r : Ring)
      → get checksum key r ≢ node
      → get checksum key (remove node r) ≡ get checksum key r
  unfolding get remove
  get-remove key node r other =
      let h = checksum key in
      let now = ap (λ p. owner_at p r.owner) (get_elem?-wrap h r.ring) in
      let kept = remove_loop node r.ring r.owner in
      elim (Bool-cases (is_member node r.nodes)) [
        | inl known ↦ rw known (
            ap (λ p. owner_at p kept.1) (get_elem?-wrap h kept.0)
            ∙ owner_at-remove_loop node h r.ring r.owner (λ bad. other (now ∙ bad))
            ∙ sym now)
        | inr unknown ↦ rw unknown refl
      ]
