-- ===== src/Storage/Memtable/Laws.antt =====
-- The operations of pkg/storage/memtable.go as operations on what is found under a key.
use shardlands.Prelude.{
  ℕ, zero, suc, ◌+◌, ◌-◌, ◌≤◌, ◌<◌, ◌≡◌, refl, sym, ap, subst, ◌∙◌, inl, inr, List, [], ◌∷◌, ◌++◌,
  some, arith, if◌then◌else◌, length, take, Bool-cases, length-append, length-take,
}
use shardlands.Storage.Bytes.{less_empty, Bytes, less, same}
use shardlands.Storage.Records.{find, Ascending, put_sorted-Ascending, find-put_sorted}
use shardlands.Storage.Memtable.{
  Rec, SkipNode, Memtable, get, before, put_at, put, items, iter_from, random_height, new_memtable,
}
use shardlands.Storage.Memtable.Search.{
  IsSkipList, HasHeights, drop_less, seek_lem, get-find, length-drop_less, items-put,
}

random_height_pos : (h left : ℕ) (rng : List ℕ) → 0 < h → 0 < (random_height h left rng).0
unfolding random_height
random_height_pos h zero rng p = p
random_height_pos h (suc left) [] p = p
random_height_pos h (suc left) (d ∷ rng) p = ground (arith, random_height_pos (h + 1) left rng)

HasHeights-append : (xs ys : List SkipNode) → HasHeights xs → HasHeights ys → HasHeights (xs ++ ys)
HasHeights-append [] ys h g = g
HasHeights-append (x ∷ xs) ys h g = (h.0, HasHeights-append xs ys h.1 g)

HasHeights-take : (n : ℕ) (xs : List SkipNode) → HasHeights xs → HasHeights (take n xs)
HasHeights-take zero xs h = tt
HasHeights-take (suc n) [] h = tt
HasHeights-take (suc n) (x ∷ xs) h = (h.0, HasHeights-take n xs h.1)

HasHeights-drop_less :
    (k : Bytes) (xs : List SkipNode) → HasHeights xs → HasHeights (drop_less k xs)
unfolding drop_less
HasHeights-drop_less k [] h = tt
HasHeights-drop_less k (x ∷ xs) h = elim (Bool-cases (less x.item.key k)) [
  | inl low ↦ rw low (HasHeights-drop_less k xs h.1)
  | inr high ↦ rw high h
]

-- Putting before what was found keeps the heights and the count.
put_at-counts :
    (r : Rec) (m : Memtable) (found : List SkipNode)
    → IsSkipList m
    → HasHeights found
    → length found ≤ length m.nodes
    → HasHeights (put_at r found m).nodes × ((put_at r found m).n ≡ length (put_at r found m).nodes)
put_at-counts r m [] i h l =
    let high = random_height_pos 1 11 m.rng (omega arith) in
    let pre = before m.nodes [] in
    let fresh : SkipNode = record { item = r; height = (random_height 1 11 m.rng).0 } in
    (
      HasHeights-append pre (fresh ∷ []) (HasHeights-take (length m.nodes - 0) m.nodes i.heights)
          (high, tt),
      omega (
        arith,
        i.counted,
        length-append {0} pre (fresh ∷ []),
        length-take {0} (length m.nodes - 0) m.nodes,
      ),
    )
put_at-counts r m (c ∷ cs) i h l =
    let high = random_height_pos 1 11 m.rng (omega arith) in
    let pre = before m.nodes (c ∷ cs) in
    let fresh : SkipNode = record { item = r; height = (random_height 1 11 m.rng).0 } in
    let old : SkipNode = record c { item = record c.item { val = r.val; tomb = r.tomb } } in
    let kept = HasHeights-take (length m.nodes - length (c ∷ cs)) m.nodes i.heights in
    let size = length-take {0} (length m.nodes - length (c ∷ cs)) m.nodes in
    elim (Bool-cases (same c.item.key r.key)) [
      | inl eq ↦ rw eq (
        HasHeights-append pre (old ∷ cs) kept (h.0, h.1),
        omega (arith, i.counted, size, length-append {0} pre (old ∷ cs)),
      )
      | inr new ↦ rw new (
        HasHeights-append pre (fresh ∷ c ∷ cs) kept (high, h),
        omega (arith, i.counted, size, length-append {0} pre (fresh ∷ c ∷ cs)),
      )
    ]

pub new_memtable-IsSkipList : (rng : List ℕ) → IsSkipList (new_memtable rng)
unfolding new_memtable
new_memtable-IsSkipList rng = record { ascending = tt; heights = tt; counted = refl }

pub put-IsSkipList : (r : Rec) (m : Memtable) → IsSkipList m → IsSkipList (put r m)
put-IsSkipList r m i =
    let (heights, counted) = counts in
    record {
      ascending =
          subst Ascending (sym (items-put r m i))
            (put_sorted-Ascending r (items m.nodes) i.ascending);
      heights = heights;
      counted = counted;
    }
  where
    counts : HasHeights (put r m).nodes × ((put r m).n ≡ length (put r m).nodes)
    counts =
        unfold put in
        (rw (seek_lem r.key m i) (
          put_at-counts r m (drop_less r.key m.nodes) i
            (HasHeights-drop_less r.key m.nodes i.heights) (length-drop_less r.key m.nodes)))

-- The skip list is a map. After any put, whatever the random heights, a get finds the new record
-- under its key, a deletion's marker included, and under every other key what it found before.
pub get-put :
    (k : Bytes) (r : Rec) (m : Memtable)
    → IsSkipList m
    → get k (put r m) ≡ (if same r.key k then some r else get k m)
get-put k r m i =
    get-find k (put r m) (put-IsSkipList r m i)
    ∙ ap (find k) (items-put r m i)
    ∙ find-put_sorted k r (items m.nodes)
    ∙ sym (ap (λ x. if same r.key k then some r else x) (get-find k m i))

drop_less_empty : (xs : List SkipNode) → drop_less [] xs ≡ xs
unfolding drop_less
drop_less_empty [] = refl
drop_less_empty (x ∷ xs) = rw (less_empty x.item.key) refl

pub iter_from_empty : (m : Memtable) → IsSkipList m → iter_from [] m ≡ items m.nodes
unfolding iter_from
iter_from_empty m i = ap items (seek_lem [] m i ∙ drop_less_empty m.nodes)
