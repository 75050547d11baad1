-- ===== src/Crdt/Convergence.antt =====
-- Replicas of a grow-only counter, pkg/crdt/gcounter.go, converge.
use shardlands.Prelude.{
  ℕ, zero, suc, ◌≤◌, ◌≡◌, refl, ap, List, [], ◌∷◌, some, String, arith, count_of, get_elem?, u64,
}
use shardlands.Counts.{IsMap, Same, count_of-merge_counts, merge_counts-IsMap, total-Same}
use shardlands.Crdt.Counters.{GCounter, merge, value}

abbrev pub IsState : GCounter → Type 0
IsState g = IsMap g.counts

-- A replica takes in the states that it receives, one after another.
unfoldable pub merge_all : GCounter → List GCounter → GCounter
merge_all g [] = g
merge_all g (o ∷ os) = merge_all (merge g o) os

abbrev pub AllStates : List GCounter → Type 0
AllStates [] = Unit
AllStates (o ∷ os) = IsState o × AllStates os

merge_all-IsState : (g : GCounter) (os : List GCounter) → IsState g → IsState (merge_all g os)
unfolding merge_all merge
merge_all-IsState g [] h = h
merge_all-IsState g (o ∷ os) h =
    merge_all-IsState (merge g o) os (merge_counts-IsMap g.counts o.counts h)

-- Received states, in whatever order and however often: each of `xs` is one of `ys`.
abbrev pub Covers : List GCounter → List GCounter → Type 0
Covers ys xs =
    (i : ℕ) (o : GCounter) → get_elem? xs i ≡ some o → (j : ℕ) × (get_elem? ys j ≡ some o)

module _ (node : String) where
  merge-le :
      (g o : GCounter) (N : ℕ)
      → IsState o
      → count_of node g.counts ≤ N
      → count_of node o.counts ≤ N
      → count_of node (merge g o).counts ≤ N
  unfolding merge
  merge-le g o N h a b = omega (arith, count_of-merge_counts node g.counts o.counts h)

  le-merge :
      (g o : GCounter)
      → IsState o
      → (count_of node g.counts ≤ count_of node (merge g o).counts)
        × (count_of node o.counts ≤ count_of node (merge g o).counts)
  unfolding merge
  le-merge g o h = omega (arith, count_of-merge_counts node g.counts o.counts h)

  -- The result is no larger than any bound of the replica's own count and the received ones.
  merge_all-le :
      (g : GCounter) (os : List GCounter) (N : ℕ)
      → AllStates os
      → count_of node g.counts ≤ N
      → ((i : ℕ) (o : GCounter) → get_elem? os i ≡ some o → count_of node o.counts ≤ N)
      → count_of node (merge_all g os).counts ≤ N
  unfolding merge_all
  merge_all-le g [] N h a b = a
  merge_all-le g (o ∷ os) N h a b =
      merge_all-le (merge g o) os N h.1 (merge-le g o N h.0 a (b 0 o refl)) (λ i x e. b (suc i) x e)

  le-merge_all :
      (g : GCounter) (os : List GCounter)
      → AllStates os
      → count_of node g.counts ≤ count_of node (merge_all g os).counts
  unfolding merge_all
  le-merge_all g [] h = omega arith
  le-merge_all g (o ∷ os) h = omega (arith, le-merge_all (merge g o) os h.1, le-merge g o h.0)

  received-le :
      (g : GCounter) (os : List GCounter) (i : ℕ) (o : GCounter)
      → AllStates os
      → get_elem? os i ≡ some o
      → count_of node o.counts ≤ count_of node (merge_all g os).counts
  unfolding merge_all
  received-le g [] i o h e = cc
  received-le g (x ∷ os) zero o h e =
      let same : count_of node x.counts ≡ count_of node o.counts = cc in
      omega (arith, same, le-merge g x h.0, le-merge_all (merge g x) os h.1)
  received-le g (x ∷ os) (suc i) o h e = received-le (merge g x) os i o h.1 e

  covered-le :
      (g : GCounter) (xs ys : List GCounter)
      → AllStates xs
      → AllStates ys
      → Covers ys xs
      → count_of node (merge_all g xs).counts ≤ count_of node (merge_all g ys).counts
  covered-le g xs ys hx hy c =
      merge_all-le g xs (count_of node (merge_all g ys).counts) hx (le-merge_all g ys hy)
        (λ i o e. let (j, at) = c i o e in received-le g ys j o hy at)

-- Strong convergence: two replicas of one state that have received the same states of others,
-- each in any order and any number of times, count the same for every node and have the same
-- value.
pub merge_all_converges :
    (g : GCounter) (xs ys : List GCounter)
    → IsState g
    → AllStates xs
    → AllStates ys
    → Covers ys xs
    → Covers xs ys
    → Same (merge_all g xs).counts (merge_all g ys).counts
      × (value (merge_all g xs) ≡ value (merge_all g ys))
unfolding value
merge_all_converges g xs ys h hx hy c d =
    let same : Same (merge_all g xs).counts (merge_all g ys).counts =
      λ node. omega (arith, covered-le node g xs ys hx hy c, covered-le node g ys xs hy hx d) in
    (
      same,
      ap u64 (
          total-Same (merge_all g xs).counts (merge_all g ys).counts (merge_all-IsState g xs h)
            (merge_all-IsState g ys h) same),
    )
