-- ===== src/Hashring/Invariant.antt =====
-- What holds of every ring of pkg/hashring/hashring.go that Add and Remove build.
use shardlands.Prelude.{
  ℕ, zero, suc, ◌+◌, ◌≤◌, ◌≡◌, inl, inr, refl, sym, ap, ◌∙◌, subst, Bool, true, false, ◌||◌, List,
  [], ◌∷◌, ◌++◌, some, String, arith, str_eq, str_eq_refl, ◌==◌, leb, Bool-cases, Option-cases,
}
use shardlands.Hashring.Ring.{
  Ring, new_ring, is_member, is_taken, insert_sorted, sort, place, place_all, add_loop, add,
  vnode_key,
}

abbrev pub holds : ℕ → List ℕ → Bool
holds k [] = false
holds k (x ∷ xs) = (x == k) || holds k xs

abbrev pub Distinct : List ℕ → Type 0
Distinct [] = Unit
Distinct (x ∷ xs) = (holds x xs ≡ false) × Distinct xs

abbrev pub Sorted : List ℕ → Type 0
Sorted [] = Unit
Sorted (x ∷ xs) = ((k : ℕ) → holds k xs ≡ true → x ≤ k) × Sorted xs

-- The ring has each position that has an owner, once; owners are registered, and no node is "".
pub record IsPlaced (r : Ring) : Type 0 where
  pub once : Distinct r.ring
  pub owned : (k : ℕ) → holds k r.ring ≡ is_taken (r.owner k)
  pub registered : (k : ℕ) (m : String) → r.owner k ≡ some m → is_member m r.nodes ≡ true
  pub named : is_member "" r.nodes ≡ false

pub record IsRing (r : Ring) : Type 0 where
  pub placed : IsPlaced r
  pub sorted : Sorted r.ring

holds-append : (k h : ℕ) (xs : List ℕ) → holds k (xs ++ (h ∷ [])) ≡ (holds k xs || (h == k))
holds-append k h [] = ground arith
holds-append k h (x ∷ xs) = ground (arith, holds-append k h xs)

append-Distinct :
    (h : ℕ) (xs : List ℕ) → holds h xs ≡ false → Distinct xs → Distinct (xs ++ (h ∷ []))
append-Distinct h [] new d = (refl, tt)
append-Distinct h (x ∷ xs) new d =
    (ground (arith, holds-append x h xs), append-Distinct h xs (ground arith) d.1)

holds-insert_sorted :
    (k h : ℕ) (xs : List ℕ) → holds k (insert_sorted h xs) ≡ ((h == k) || holds k xs)
holds-insert_sorted k h [] = refl
holds-insert_sorted k h (x ∷ xs) = ground (arith, holds-insert_sorted k h xs)

holds-sort : (k : ℕ) (xs : List ℕ) → holds k (sort xs) ≡ holds k xs
unfolding sort
holds-sort k [] = refl
holds-sort k (x ∷ xs) = ground (arith, holds-insert_sorted k x (sort xs), holds-sort k xs)

insert_sorted-Distinct :
    (h : ℕ) (xs : List ℕ) → holds h xs ≡ false → Distinct xs → Distinct (insert_sorted h xs)
insert_sorted-Distinct h [] new d = (refl, tt)
insert_sorted-Distinct h (x ∷ xs) new d = elim (Bool-cases (leb h x)) [
  | inl low ↦ rw low (new, d)
  | inr high ↦
      rw high
        (ground (arith, holds-insert_sorted x h xs), insert_sorted-Distinct h xs (ground arith) d.1)
]

sort-Distinct : (xs : List ℕ) → Distinct xs → Distinct (sort xs)
unfolding sort
sort-Distinct [] d = d
sort-Distinct (x ∷ xs) d =
    insert_sorted-Distinct x (sort xs) (holds-sort x xs ∙ d.0) (sort-Distinct xs d.1)

insert_sorted-Sorted : (h : ℕ) (xs : List ℕ) → Sorted xs → Sorted (insert_sorted h xs)
insert_sorted-Sorted h [] s = ((λ k e. ground arith), tt)
insert_sorted-Sorted h (x ∷ xs) s = elim (Bool-cases (leb h x)) [
  | inl low ↦ rw low ((λ k e. ground (arith, s.0 k)), s)
  | inr high ↦
      rw high
        ((λ k e. ground (arith, holds-insert_sorted k h xs, s.0 k)), insert_sorted-Sorted h xs s.1)
]

sort-Sorted : (xs : List ℕ) → Sorted (sort xs)
unfolding sort
sort-Sorted [] = tt
sort-Sorted (x ∷ xs) = insert_sorted-Sorted x (sort xs) (sort-Sorted xs)

place-IsPlaced :
    (h : ℕ) (node : String) (r : Ring)
    → is_member node r.nodes ≡ true
    → IsPlaced r
    → IsPlaced (place h node r)
unfolding place
place-IsPlaced h node r known p = elim (Option-cases (r.owner h)) [
  | inl free ↦ rw free (record {
    once = append-Distinct h r.ring (p.owned h ∙ ap is_taken free) p.once;
    owned = λ k. ground (arith, holds-append k h r.ring, p.owned k);
    registered = λ k m e. elim (Bool-cases (k == h)) [
      | inl same ↦
          let e' : some node ≡ some m = rw same at e in
          subst (λ n. is_member n r.nodes ≡ true) (ground arith) known
      | inr apart ↦ p.registered k m (rw apart at e)
    ];
    named = p.named;
  })
  | inr (m, at) ↦ rw at p
]

pub new_ring-IsRing : (replicas : ℕ) → IsRing (new_ring replicas)
unfolding new_ring
new_ring-IsRing replicas = record {
  placed = record { once = tt; owned = λ k. refl; registered = λ k m e. cc; named = refl };
  sorted = tt;
}

module _ (checksum : String → ℕ) where
  nodes-place : (h : ℕ) (node : String) (r : Ring) → (place h node r).nodes ≡ r.nodes
  unfolding place
  nodes-place h node r = ground arith

  place_all-IsPlaced :
      (left i : ℕ) (node : String) (r : Ring)
      → is_member node r.nodes ≡ true
      → IsPlaced r
      → IsPlaced (place_all checksum left i node r)
  unfolding place_all
  place_all-IsPlaced zero i node r known p = p
  place_all-IsPlaced (suc left) i node r known p =
      let h = checksum (vnode_key node i) in
      place_all-IsPlaced left (i + 1) node (place h node r)
        (ap (is_member node) (nodes-place h node r) ∙ known) (place-IsPlaced h node r known p)

  register-IsPlaced :
      (node : String) (r : Ring)
      → str_eq node "" ≡ false
      → IsPlaced r
      → IsPlaced (record r { nodes = node ∷ r.nodes })
  register-IsPlaced node r named p = record {
    once = p.once;
    owned = p.owned;
    registered = λ k m e. ground (arith, p.registered k m e);
    named = ground (arith, p.named);
  }

  add_loop-IsPlaced :
      (nodes : List String) (changed : Bool) (r : Ring)
      → IsPlaced r
      → IsPlaced (add_loop checksum nodes changed r).1
  unfolding add_loop
  add_loop-IsPlaced [] changed r p = p
  add_loop-IsPlaced (node ∷ nodes) changed r p =
      elim (Bool-cases (str_eq node "" || is_member node r.nodes)) [
        | inl skip ↦ rw skip (add_loop-IsPlaced nodes changed r p)
        | inr fresh ↦
            let named : str_eq node "" ≡ false = ground arith in
            rw fresh (
              add_loop-IsPlaced nodes true
                (place_all checksum r.replicas 0 node (record r { nodes = node ∷ r.nodes }))
                (place_all-IsPlaced r.replicas 0 node (record r { nodes = node ∷ r.nodes })
                  (rw (str_eq_refl node) refl) (register-IsPlaced node r named p)))
      ]

  add_loop-true : (nodes : List String) (r : Ring) → (add_loop checksum nodes true r).0 ≡ true
  unfolding add_loop
  add_loop-true [] r = refl
  add_loop-true (node ∷ nodes) r =
      let placed = place_all checksum r.replicas 0 node (record r { nodes = node ∷ r.nodes }) in
      ground (arith, add_loop-true nodes r, add_loop-true nodes placed)

  add_loop_same :
      (nodes : List String) (r : Ring)
      → (add_loop checksum nodes false r).0 ≡ false
      → (add_loop checksum nodes false r).1 ≡ r
  unfolding add_loop
  add_loop_same [] r e = refl
  add_loop_same (node ∷ nodes) r e = ground (
    arith,
    add_loop_same nodes r,
    add_loop-true nodes
        (place_all checksum r.replicas 0 node (record r { nodes = node ∷ r.nodes })),
  )

  -- Add keeps a ring a ring, whatever nodes it is given.
  pub add-IsRing : (nodes : List String) (r : Ring) → IsRing r → IsRing (add checksum nodes r)
  unfolding add
  add-IsRing nodes r i =
      let p = add_loop-IsPlaced nodes false r i.placed in
      elim (Bool-cases (add_loop checksum nodes false r).0) [
        | inl changed ↦
            let ring = (add_loop checksum nodes false r).1.ring in
            rw changed (record {
              placed = record {
                once = sort-Distinct ring p.once;
                owned = λ k. holds-sort k ring ∙ p.owned k;
                registered = p.registered;
                named = p.named;
              };
              sorted = sort-Sorted ring;
            })
        | inr same ↦ rw same (subst IsRing (sym (add_loop_same nodes r same)) i)
      ]
