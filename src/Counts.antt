-- ===== src/Counts.antt =====
-- Maps of counters, one for each node, as the counters of pkg/crdt and the vectors of pkg/clock
-- keep them: a missing node counts 0.
use shardlands.Prelude.{
  ℕ, ◌+◌, ◌≡◌, refl, sym, subst, ap, ◌∙◌, max, Bool, true, false, none, [], ◌∷◌, inl, inr, String,
  str_eq, str_eq_iff, str_eq_refl, Bool-cases, arith, ltb, if◌then◌else◌, Dict, lookup, insert,
  delete, count_of, lookup-insert, lookup-delete,
}

-- No key stands twice, as in any Go map.
abbrev pub IsMap : Dict ℕ → Type 0
IsMap [] = Unit
IsMap ((k, v) ∷ m) = (lookup k m ≡ none) × IsMap m

-- `for node, c := range other { if c > mine[node] { mine[node] = c } }`
unfoldable pub merge_counts : Dict ℕ → Dict ℕ → Dict ℕ
merge_counts mine [] = mine
merge_counts mine ((node, c) ∷ other) =
    merge_counts (if ltb (count_of node mine) c then insert node c mine else mine) other

-- Two maps of the same counts.
abbrev pub Same : Dict ℕ → Dict ℕ → Type 0
Same a b = (node : String) → count_of node a ≡ count_of node b

pub count_of-insert :
    (k j : String) (v : ℕ) (m : Dict ℕ)
    → count_of j (insert k v m) ≡ (if str_eq k j then v else count_of j m)
count_of-insert k j v m = ground (arith, lookup-insert k j v m)

pub IsMap-insert : (k : String) (v : ℕ) (m : Dict ℕ) → IsMap m → IsMap (insert k v m)
unfolding insert
IsMap-insert k v [] h = unfold lookup in (refl, tt)
IsMap-insert k v ((j, w) ∷ m) h = elim (Bool-cases (str_eq j k)) [
  | inl same ↦ rw same (subst (λ x. lookup x m ≡ none) ((str_eq_iff j k).0 same) h.0, h.1)
  | inr other ↦ rw other (
    ground (arith, lookup-insert k j v m, str_eq_iff k j, str_eq_iff j k),
    IsMap-insert k v m h.1,
  )
]

count_of-merge_one :
    (j node : String) (c : ℕ) (mine : Dict ℕ)
    → count_of j (if ltb (count_of node mine) c then insert node c mine else mine)
      ≡ (if str_eq node j then max (count_of j mine) c else count_of j mine)
count_of-merge_one j node c mine = ground (arith, count_of-insert node j c mine, str_eq_iff node j)

larger :
    (j node : String) (c : ℕ) (mine other : Dict ℕ)
    → lookup node other ≡ none
    → max
        (count_of j (if ltb (count_of node mine) c then insert node c mine else mine))
        (count_of j other)
      ≡ max (count_of j mine) (count_of j ((node, c) ∷ other))
unfolding lookup
larger j node c mine other h =
    rw (count_of-merge_one j node c mine) (ground (arith, str_eq_iff node j))

-- Merging takes the larger count of each node.
pub count_of-merge_counts :
    (j : String) (mine other : Dict ℕ)
    → IsMap other
    → count_of j (merge_counts mine other) ≡ max (count_of j mine) (count_of j other)
unfolding merge_counts lookup
count_of-merge_counts j mine [] h = ground arith
count_of-merge_counts j mine ((node, c) ∷ other) h =
    count_of-merge_counts j (if ltb (count_of node mine) c then insert node c mine else mine) other
      h.1
    ∙ larger j node c mine other h.0

pub merge_counts-IsMap : (mine other : Dict ℕ) → IsMap mine → IsMap (merge_counts mine other)
unfolding merge_counts
merge_counts-IsMap mine [] h = h
merge_counts-IsMap mine ((node, c) ∷ other) h =
    merge_counts-IsMap (if ltb (count_of node mine) c then insert node c mine else mine) other
      (if_IsMap (ltb (count_of node mine) c))
  where
    if_IsMap : (b : Bool) → IsMap (if b then insert node c mine else mine)
    if_IsMap true = IsMap-insert node c mine h
    if_IsMap false = h

-- The sum of all counts, before any wrap-around.
unfoldable pub total : Dict ℕ → ℕ
total [] = 0
total ((node, c) ∷ m) = c + total m

delete-IsMap : (k : String) (m : Dict ℕ) → IsMap m → IsMap (delete k m)
unfolding delete
delete-IsMap k [] h = tt
delete-IsMap k ((j, c) ∷ m) h = elim (Bool-cases (str_eq j k)) [
  | inl same ↦ rw same (delete-IsMap k m h.1)
  | inr other ↦ rw other (ground (arith, lookup-delete {V = ℕ} k j m), delete-IsMap k m h.1)
]

delete_absent : (k : String) (m : Dict ℕ) → lookup k m ≡ none → delete k m ≡ m
unfolding delete lookup
delete_absent k [] h = refl
delete_absent k ((j, c) ∷ m) h = ground (arith, delete_absent k m)

-- A node's count and the rest.
total-delete : (k : String) (m : Dict ℕ) → IsMap m → total m ≡ count_of k m + total (delete k m)
unfolding total delete lookup
total-delete k [] h = omega arith
total-delete k ((j, c) ∷ m) h = elim (Bool-cases (str_eq j k)) [
  | inl same ↦ rw same (
      ap (λ t. c + total t)
        (sym (delete_absent k m (subst (λ x. lookup x m ≡ none) ((str_eq_iff j k).0 same) h.0))))
  | inr other ↦ rw other (omega (arith, total-delete k m h.1))
]

pub count_of-head : (k : String) (c : ℕ) (m : Dict ℕ) → count_of k ((k, c) ∷ m) ≡ c
unfolding lookup
count_of-head k c m = rw (str_eq_refl k)

pub count_of-tail :
    (k j : String) (c : ℕ) (m : Dict ℕ)
    → lookup k m ≡ none
    → count_of j m ≡ (if str_eq k j then 0 else count_of j ((k, c) ∷ m))
unfolding lookup
count_of-tail k j c m h = ground (arith, str_eq_iff k j)

count_of-delete :
    (k j : String) (m : Dict ℕ) → count_of j (delete k m) ≡ (if str_eq k j then 0 else count_of j m)
count_of-delete k j m = ground (arith, lookup-delete {V = ℕ} k j m)

total_zero : (m : Dict ℕ) → IsMap m → Same [] m → total m ≡ 0
unfolding total lookup
total_zero [] h same = refl
total_zero ((k, c) ∷ m) h same = omega (
  arith,
  same k,
  count_of-head k c m,
  total_zero m h.1 (λ j. ground (arith, count_of-tail k j c m h.0, same j)),
)

-- The total depends on the counts alone, not on the order of the map.
pub total-Same : (a b : Dict ℕ) → IsMap a → IsMap b → Same a b → total a ≡ total b
unfolding total
total-Same [] b ha hb same = sym (total_zero b hb same)
total-Same ((k, c) ∷ a) b ha hb same =
    let rest =
      total-Same a (delete k b) ha.1 (delete-IsMap k b hb)
        (λ j. ground (arith, count_of-tail k j c a ha.0, same j, count_of-delete k j b)) in
    omega (arith, rest, same k, count_of-head k c a, total-delete k b hb)
