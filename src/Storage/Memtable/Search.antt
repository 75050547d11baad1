-- ===== src/Storage/Memtable/Search.antt =====
-- The skip list of pkg/storage/memtable.go behaves as a sorted list.
use shardlands.Prelude.{
  ℕ, zero, suc, ◌-◌, ◌≤◌, ◌<◌, ◌≡◌, refl, sym, ap, subst, ◌∙◌, inl, inr, true, List, [], ◌∷◌, ◌++◌,
  arith, ltb, if◌then◌else◌, length, Bool-cases,
}
use shardlands.Storage.Bytes.{Bytes, less, same, less_trans, less_not_same, less_total}
use shardlands.Storage.Records.{find, find-Above, Above, Above-trans, Ascending, put_sorted}
use shardlands.Storage.Memtable.{
  Rec, SkipNode, Memtable, advance, descend, seek, match_head, get, before, put_at, put, items,
  random_height,
}

abbrev pub HasHeights : List SkipNode → Type 0
HasHeights [] = Unit
HasHeights (x ∷ xs) = (0 < x.height) × HasHeights xs

pub record IsSkipList (m : Memtable) : Type 0 where
  pub ascending : Ascending (items m.nodes)
  pub heights : HasHeights m.nodes
  pub counted : m.n ≡ length m.nodes

-- The nodes from the first key that is not less.
unfoldable pub drop_less : Bytes → List SkipNode → List SkipNode
drop_less k [] = []
drop_less k (x ∷ xs) = let rest = drop_less k xs in if less x.item.key k then rest else x ∷ xs

-- A node that is less than the key: so are all before it.
drop_less-append :
    (k : Bytes) (pre : List SkipNode) (x : SkipNode) (rest : List SkipNode)
    → Ascending (items (pre ++ (x ∷ rest)))
    → less x.item.key k ≡ true
    → drop_less k (pre ++ (x ∷ rest)) ≡ drop_less k rest
unfolding drop_less
drop_less-append k [] x rest s h = rw h refl
drop_less-append k (y ∷ pre) x rest s h =
    let first = less_trans y.item.key x.item.key k (Above-at y.item.key pre s.0) h in
    rw first (drop_less-append k pre x rest s.1 h)
  where
    Above-at :
        (a : Bytes) (ps : List SkipNode)
        → Above a (items (ps ++ (x ∷ rest)))
        → less a x.item.key ≡ true
    Above-at a [] g = g.0
    Above-at a (p ∷ ps) g = Above-at a ps g.1

Ascending-append :
    (pre : List SkipNode) (xs : List SkipNode)
    → Ascending (items (pre ++ xs))
    → Ascending (items xs)
Ascending-append [] xs s = s
Ascending-append (y ∷ pre) xs s = Ascending-append pre xs s.1

drop_less-advance :
    (lvl : ℕ) (k : Bytes) (pre rest cur : List SkipNode)
    → cur ≡ pre ++ rest
    → Ascending (items cur)
    → (drop_less k (advance lvl k cur rest) ≡ drop_less k cur)
      × Ascending (items (advance lvl k cur rest))
unfolding advance
drop_less-advance lvl k pre [] cur e s = (refl, s)
drop_less-advance lvl k pre (x ∷ rest) cur e s = elim (Bool-cases (ltb lvl x.height)) [
  | inl high ↦ elim (Bool-cases (less x.item.key k)) [
    | inl low ↦
        let sorted : Ascending (items (pre ++ (x ∷ rest))) = subst (λ c. Ascending (items c)) e s in
        let (ih, keep) =
          drop_less-advance lvl k [] rest rest refl (Ascending-append pre (x ∷ rest) sorted).1 in
        rw (high, low)
          (ih ∙ sym (drop_less-append k pre x rest sorted low) ∙ sym (ap (drop_less k) e), keep)
    | inr stop ↦ rw (high, stop) (refl, s)
  ]
  | inr below ↦
      rw below
        (drop_less-advance lvl k (pre ++ (x ∷ [])) rest cur (e ∙ sym (append-one pre x rest)) s)
]
  where
    append-one :
        (ps : List SkipNode) (y : SkipNode) (zs : List SkipNode)
        → (ps ++ (y ∷ [])) ++ zs ≡ ps ++ (y ∷ zs)
    append-one [] y zs = refl
    append-one (p ∷ ps) y zs = ap (λ t. p ∷ t) (append-one ps y zs)

advance-HasHeights :
    (lvl : ℕ) (k : Bytes) (cur rest : List SkipNode)
    → HasHeights cur
    → HasHeights rest
    → HasHeights (advance lvl k cur rest)
unfolding advance
advance-HasHeights lvl k cur [] h g = h
advance-HasHeights lvl k cur (x ∷ rest) h g =
    let on = advance-HasHeights lvl k rest rest g.1 g.1 in
    let past = advance-HasHeights lvl k cur rest h g.1 in
    elim (Bool-cases (ltb lvl x.height)) [
      | inl high ↦ elim (Bool-cases (less x.item.key k)) [
        | inl low ↦ rw (high, low) on
        | inr stop ↦ rw (high, stop) h
      ]
      | inr below ↦ rw below past
    ]

advance_all : (k : Bytes) (c : List SkipNode) → HasHeights c → advance 0 k c c ≡ drop_less k c
unfolding advance drop_less
advance_all k [] h = refl
advance_all k (x ∷ xs) h =
    let on : ltb 0 x.height ≡ true = ground arith in rw (on, advance_all k xs h.1) refl

-- The search from any level comes out at the first key that is not less.
drop_less-descend :
    (lvl : ℕ) (k : Bytes) (cur : List SkipNode)
    → Ascending (items cur)
    → HasHeights cur
    → descend (suc lvl) k cur ≡ drop_less k cur
unfolding descend
drop_less-descend zero k cur s h = advance_all k cur h
drop_less-descend (suc lvl) k cur s h =
    let (same_rest, sorted) = drop_less-advance (suc lvl) k [] cur cur refl s in
    drop_less-descend lvl k (advance (suc lvl) k cur cur) sorted
      (advance-HasHeights (suc lvl) k cur cur h h)
    ∙ same_rest

pub seek_lem : (k : Bytes) (m : Memtable) → IsSkipList m → seek k m.nodes ≡ drop_less k m.nodes
unfolding seek
seek_lem k m i = drop_less-descend 11 k m.nodes i.ascending i.heights

match_head-drop_less :
    (k : Bytes) (xs : List SkipNode)
    → Ascending (items xs)
    → match_head k (drop_less k xs) ≡ find k (items xs)
unfolding drop_less find
match_head-drop_less k [] s = refl
match_head-drop_less k (x ∷ xs) s = elim (Bool-cases (less x.item.key k)) [
  | inl low ↦ rw (low, less_not_same x.item.key k low) (match_head-drop_less k xs s.1)
  | inr high ↦ elim (Bool-cases (same x.item.key k)) [
    | inl here ↦ rw (high, here) refl
    | inr apart ↦
        let under = less_total x.item.key k high apart in
        rw (high, apart)
          (sym (find-Above k (items xs) (Above-trans k x.item.key (items xs) under s.0)))
  ]
]

-- A skip list finds what the sorted list of its records has.
pub get-find : (k : Bytes) (m : Memtable) → IsSkipList m → get k m ≡ find k (items m.nodes)
unfolding get
get-find k m i = rw (seek_lem k m i) (match_head-drop_less k m.nodes i.ascending)

-- The nodes before the place.
take_less : Bytes → List SkipNode → List SkipNode
take_less k [] = []
take_less k (x ∷ xs) = let rest = take_less k xs in if less x.item.key k then x ∷ rest else []

pub length-drop_less : (k : Bytes) (xs : List SkipNode) → length (drop_less k xs) ≤ length xs
unfolding drop_less
length-drop_less k [] = omega arith
length-drop_less k (x ∷ xs) = ground (arith, length-drop_less k xs)

before-drop_less : (k : Bytes) (xs : List SkipNode) → before xs (drop_less k xs) ≡ take_less k xs
unfolding drop_less take_less
before-drop_less k [] = refl
before-drop_less k (x ∷ xs) = elim (Bool-cases (less x.item.key k)) [
  | inl low ↦
      let one : suc (length xs) - length (drop_less k xs)
          ≡ suc (length xs - length (drop_less k xs)) =
        omega (arith, length-drop_less k xs) in
      rw (low, one) (ap (λ t. x ∷ t) (before-drop_less k xs))
  | inr high ↦
      let none_left : suc (length xs) - suc (length xs) ≡ 0 = omega arith in
      rw (high, none_left) refl
]

items-append : (xs ys : List SkipNode) → items (xs ++ ys) ≡ items xs ++ items ys
items-append [] ys = refl
items-append (x ∷ xs) ys = ap (λ t. x.item ∷ t) (items-append xs ys)

-- What put makes of the records from its place on.
abbrev place : Rec → List SkipNode → List Rec
place r [] = r ∷ []
place r (c ∷ cs) =
    if same c.item.key r.key
    then record c.item { val = r.val; tomb = r.tomb } ∷ items cs
    else r ∷ c.item ∷ items cs

-- Putting at the place that the search finds is putting into the sorted list.
place_lem :
    (r : Rec) (xs : List SkipNode)
    → put_sorted r (items xs) ≡ items (take_less r.key xs) ++ place r (drop_less r.key xs)
unfolding drop_less take_less put_sorted
place_lem r [] = refl
place_lem r (x ∷ xs) = elim (Bool-cases (less x.item.key r.key)) [
  | inl low ↦ rw low (ap (λ t. x.item ∷ t) (place_lem r xs))
  | inr high ↦ rw high refl
]

-- The node list that put leaves.
nodes-put :
    (r : Rec) (m : Memtable) (found : List SkipNode)
    → items (put_at r found m).nodes ≡ items (before m.nodes found) ++ place r found
nodes-put r m [] =
    items-append (before m.nodes [])
      (record { item = r; height = (random_height 1 11 m.rng).0 } ∷ [])
nodes-put r m (c ∷ cs) = elim (Bool-cases (same c.item.key r.key)) [
  | inl eq ↦ rw eq (
      items-append (before m.nodes (c ∷ cs))
        (record c { item = record c.item { val = r.val; tomb = r.tomb } } ∷ cs))
  | inr new ↦ rw new (
      items-append (before m.nodes (c ∷ cs))
        (record { item = r; height = (random_height 1 11 m.rng).0 } ∷ c ∷ cs))
]

pub items-put :
    (r : Rec) (m : Memtable) → IsSkipList m → items (put r m).nodes ≡ put_sorted r (items m.nodes)
unfolding put
items-put r m i = rw (seek_lem r.key m i) (
    nodes-put r m (drop_less r.key m.nodes)
    ∙ ap (λ t. items t ++ place r (drop_less r.key m.nodes)) (before-drop_less r.key m.nodes)
    ∙ sym (place_lem r m.nodes))
