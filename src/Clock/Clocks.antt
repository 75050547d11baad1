-- ===== src/Clock/Clocks.antt =====
-- Lamport and vector clocks, pkg/clock/clock.go. An atomic read or write of a Lamport clock is
-- one step; a vector clock belongs to one process.
use shardlands.Prelude.{
  ℕ, ◌+◌, Bool, true, false, ◌&&◌, ◌||◌, Option, none, some, [], ◌∷◌, String, Dict, lookup, insert,
  count_of, u64, ltb, ◌==◌, if◌then◌else◌,
}
use shardlands.Counts.{merge_counts}

-- Lamport.Tick: the new clock is the stamp.
unfoldable pub lamport_tick : ℕ → ℕ
lamport_tick c = u64 (c + 1)

-- The value that Observe computes from what it loaded.
unfoldable pub observed : ℕ → ℕ → ℕ
observed cur remote = u64 ((if ltb cur remote then remote else cur) + 1)

-- One round of Observe: the compare-and-swap fails if another goroutine moved the clock since
-- `cur` was loaded, and the loop loads again.
unfoldable pub observe_round : ℕ → ℕ → ℕ → Option ℕ × ℕ
observe_round cur remote clock =
    if clock == cur then (some (observed cur remote), observed cur remote) else (none, clock)

pub data Ordering : Type 0 where
  equal before after concurrent : Ordering

unfoldable pub ordering_name : Ordering → String
ordering_name before = "before"
ordering_name after = "after"
ordering_name concurrent = "concurrent"
ordering_name equal = "equal"

abbrev pub Vector : Type 0
Vector = Dict ℕ

-- Vector.Tick
unfoldable pub tick : String → Vector → Vector
tick id v = insert id (u64 (count_of id v + 1)) v

-- Vector.Merge
unfoldable pub merge : Vector → Vector → Vector
merge v o = merge_counts v o

-- The first loop of Compare: is some entry of `v` less than, or greater than, `o`'s?
unfoldable pub some_less : Vector → Vector → Bool
some_less [] o = false
some_less ((id, vc) ∷ v) o = ltb vc (count_of id o) || some_less v o

unfoldable pub some_greater : Vector → Vector → Bool
some_greater [] o = false
some_greater ((id, vc) ∷ v) o = ltb (count_of id o) vc || some_greater v o

abbrev pub is_unseen : Option ℕ → Bool
is_unseen none = true
is_unseen (some _) = false

-- The second loop: does `o` count a node that `v` has not seen?
unfoldable pub some_unseen : Vector → Vector → Bool
some_unseen v [] = false
some_unseen v ((id, oc) ∷ o) = (is_unseen (lookup id v) && ltb 0 oc) || some_unseen v o

-- Compare
unfoldable pub compare_vectors : Vector → Vector → Ordering
compare_vectors v o =
    let less = some_less v o || some_unseen v o in
    let greater = some_greater v o in
    if less && greater
    then concurrent
    else if less
    then before
    else if greater
    then after
    else equal
