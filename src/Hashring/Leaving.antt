-- ===== src/Hashring/Leaving.antt =====
-- Remove of pkg/hashring/hashring.go: the ring without a node.
use shardlands.Prelude.{
  ℕ, ◌≡◌, ◌≢◌, inl, inr, refl, sym, subst, Bool, true, false, not, ◌&&◌, List, [], ◌∷◌, Option,
  none, some, String, arith, str_eq, str_eq_iff, str_eq_refl, ◌==◌, if◌then◌else◌, Bool-cases,
  Option-cases, get_elem?,
}
use shardlands.Hashring.Ring.{
  Ring, is_member, or_empty, disown, remove_loop, remove, unregister, owner_at, wrap, search, get,
}
use shardlands.Hashring.Invariant.{holds, Distinct, Sorted, IsPlaced, IsRing}

module _ (node : String) where
  abbrev owns : Option String → Bool
  owns o = str_eq (or_empty o) node

  holds-remove_loop :
      (hs : List ℕ) (owner : ℕ → Option String) (k : ℕ)
      → Distinct hs
      → holds k (remove_loop node hs owner).0 ≡ (holds k hs && not (owns (owner k)))
  unfolding remove_loop
  holds-remove_loop [] owner k d = refl
  holds-remove_loop (h ∷ hs) owner k d = elim (Bool-cases (owns (owner h))) [
    | inl own ↦ elim (Bool-cases (h == k)) [
      | inl same ↦
          let e : h ≡ k = ground arith in
          let gone = subst (λ x. holds x hs ≡ false) e d.0 in
          let here : owns (owner k) ≡ true = subst (λ x. owns (owner x) ≡ true) e own in
          rw own (ground (arith, holds-remove_loop hs (disown h owner) k d.1))
      | inr other ↦
          let away : (k == h) ≡ false = ground arith in
          let dis : disown h owner k ≡ owner k = rw away refl in
          rw own (ground (arith, holds-remove_loop hs (disown h owner) k d.1))
    ]
    | inr apart ↦ elim (Bool-cases (h == k)) [
      | inl same ↦
          let e : h ≡ k = ground arith in
          let gone = subst (λ x. holds x hs ≡ false) e d.0 in
          let here : owns (owner k) ≡ false = subst (λ x. owns (owner x) ≡ false) e apart in
          rw apart (ground (arith, holds-remove_loop hs owner k d.1))
      | inr other ↦ rw apart (ground (arith, holds-remove_loop hs owner k d.1))
    ]
  ]

  owner-remove_loop_lem :
      (hs : List ℕ) (owner : ℕ → Option String) (k : ℕ)
      → Distinct hs
      → (remove_loop node hs owner).1 k ≡ (if holds k hs && owns (owner k) then none else owner k)
  unfolding remove_loop
  owner-remove_loop_lem [] owner k d = refl
  owner-remove_loop_lem (h ∷ hs) owner k d = elim (Bool-cases (owns (owner h))) [
    | inl own ↦ elim (Bool-cases (h == k)) [
      | inl same ↦
          let e : h ≡ k = ground arith in
          let gone = subst (λ x. holds x hs ≡ false) e d.0 in
          let here : owns (owner k) ≡ true = subst (λ x. owns (owner x) ≡ true) e own in
          rw own (ground (arith, owner-remove_loop_lem hs (disown h owner) k d.1))
      | inr other ↦
          let away : (k == h) ≡ false = ground arith in
          let dis : disown h owner k ≡ owner k = rw away refl in
          rw own (ground (arith, owner-remove_loop_lem hs (disown h owner) k d.1))
    ]
    | inr apart ↦ elim (Bool-cases (h == k)) [
      | inl same ↦
          let e : h ≡ k = ground arith in
          let gone = subst (λ x. holds x hs ≡ false) e d.0 in
          let here : owns (owner k) ≡ false = subst (λ x. owns (owner x) ≡ false) e apart in
          rw apart (ground (arith, owner-remove_loop_lem hs owner k d.1))
      | inr other ↦ rw apart (ground (arith, owner-remove_loop_lem hs owner k d.1))
    ]
  ]

  remove_loop-Distinct :
      (hs : List ℕ) (owner : ℕ → Option String)
      → Distinct hs
      → Distinct (remove_loop node hs owner).0
  unfolding remove_loop
  remove_loop-Distinct [] owner d = tt
  remove_loop-Distinct (h ∷ hs) owner d = elim (Bool-cases (owns (owner h))) [
    | inl own ↦ rw own (remove_loop-Distinct hs (disown h owner) d.1)
    | inr apart ↦
        rw apart
          (ground (arith, holds-remove_loop hs owner h d.1, d.0), remove_loop-Distinct hs owner d.1)
  ]

  remove_loop-Sorted :
      (hs : List ℕ) (owner : ℕ → Option String)
      → Distinct hs
      → Sorted hs
      → Sorted (remove_loop node hs owner).0
  unfolding remove_loop
  remove_loop-Sorted [] owner d s = tt
  remove_loop-Sorted (h ∷ hs) owner d s = elim (Bool-cases (owns (owner h))) [
    | inl own ↦ rw own (remove_loop-Sorted hs (disown h owner) d.1 s.1)
    | inr apart ↦ rw apart (
      (λ k e. s.0 k (ground (arith, holds-remove_loop hs owner k d.1))),
      remove_loop-Sorted hs owner d.1 s.1,
    )
  ]

  is_member-unregister :
      (m : String) (xs : List String)
      → is_member m (unregister node xs) ≡ (is_member m xs && not (str_eq m node))
  is_member-unregister m [] = refl
  is_member-unregister m (x ∷ xs) =
      ground
        (arith, is_member-unregister m xs, str_eq_iff x node, str_eq_iff x m, str_eq_iff m node)

  registered-remove_loop :
      (r : Ring) (k : ℕ) (m : String)
      → IsPlaced r
      → (remove_loop node r.ring r.owner).1 k ≡ some m
      → is_member m (unregister node r.nodes) ≡ true
  registered-remove_loop r k m p e = ground (
    arith,
    owner-remove_loop_lem r.ring r.owner k p.once,
    p.owned k,
    p.registered k m,
    is_member-unregister m r.nodes,
  )

  -- Remove keeps a ring a ring.
  pub remove-IsRing : (r : Ring) → IsRing r → IsRing (remove node r)
  unfolding remove
  remove-IsRing r i =
      let p = i.placed in
      elim (Bool-cases (is_member node r.nodes)) [
        | inl known ↦ rw known (record {
          placed = record {
            once = remove_loop-Distinct r.ring r.owner p.once;
            owned = λ k. ground (
              arith,
              holds-remove_loop r.ring r.owner k p.once,
              owner-remove_loop_lem r.ring r.owner k p.once,
              p.owned k,
            );
            registered = λ k m e. registered-remove_loop r k m p e;
            named = ground (arith, is_member-unregister "" r.nodes, p.named);
          };
          sorted = remove_loop-Sorted r.ring r.owner p.once i.sorted;
        })
        | inr unknown ↦ rw unknown i
      ]

  not_member-remove : (r : Ring) → is_member node (remove node r).nodes ≡ false
  unfolding remove
  not_member-remove r = ground (arith, is_member-unregister node r.nodes, str_eq_refl node)

  owner_at-other :
      (r : Ring) (o : Option ℕ)
      → IsPlaced r
      → is_member node r.nodes ≡ false
      → node ≢ ""
      → owner_at o r.owner ≢ node
  owner_at-other r none p gone named e = named (sym e)
  owner_at-other r (some k) p gone named e = elim (Option-cases (r.owner k)) [
    | inl free ↦ named (sym (rw free at e))
    | inr (m, at) ↦
        let same : m ≡ node = rw at at e in
        let reg : is_member node r.nodes ≡ true =
          subst (λ x. is_member x r.nodes ≡ true) same (p.registered k m at) in
        ground arith
  ]

  -- On a ring, a node that has left gets no key any more.
  pub get-remove_gone :
      (checksum : String → ℕ) (key : String) (r : Ring)
      → IsRing r
      → node ≢ ""
      → get checksum key (remove node r) ≢ node
  unfolding get
  get-remove_gone checksum key r i named =
      let left = remove node r in
      owner_at-other left (get_elem? left.ring (wrap (search (checksum key) left.ring) left.ring))
        (remove-IsRing r i).placed (not_member-remove r) named
