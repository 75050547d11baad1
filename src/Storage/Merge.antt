-- ===== src/Storage/Merge.antt =====
-- The merge of sorted sources, pkg/storage/merge.go. A source is what its iterator still gives,
-- and whether it then fails. The loops over an iterator run on fuel.
pub mod Lanes
pub mod Least
pub mod Newest
use shardlands.Prelude.{
  ℕ, zero, suc, ◌+◌, Bool, true, false, not, ◌&&◌, List, [], ◌∷◌, Option, none, some, if◌then◌else◌,
  length,
}
use shardlands.Storage.Bytes.{Bytes, less, same}
use shardlands.Storage.Memtable.{Rec}

pub record Source : Type 0 where
  pub recs : List Rec
  pub broken : Bool

-- What iterator.next returns.
pub data Pull : Type 0 where
  failed ended : Pull
  pulled : Rec → Source → Pull

abbrev pub pull_from : List Rec → Bool → Pull
pull_from [] true = failed
pull_from [] false = ended
pull_from (r ∷ rs) broken = pulled r (record { recs = rs; broken = broken })

abbrev pub pull : Source → Pull
pull s = pull_from s.recs s.broken

-- mergeIter: srcs[i], heads[i] and done[i].
pub record Lane : Type 0 where
  pub src : Source
  pub head : Option Rec
  pub finished : Bool

-- newMergeIter
unfoldable pub new_merge : List Source → List Lane
new_merge [] = []
new_merge (s ∷ ss) = record { src = s; head = none; finished = false } ∷ new_merge ss

abbrev pub is_empty : Option Rec → Bool
is_empty none = true
is_empty (some r) = false

abbrev pub filled : Pull → Lane → Option Lane
filled failed l = none
filled ended l = some (record l { finished = true })
filled (pulled r s) l = some (record { src = s; head = some r; finished = l.finished })

abbrev pub fill_one : Lane → Option Lane
fill_one l = if is_empty l.head && not l.finished then filled (pull l.src) l else some l

abbrev pub cons? : Option Lane → Option (List Lane) → Option (List Lane)
cons? none ls = none
cons? (some l) none = none
cons? (some l) (some ls) = some (l ∷ ls)

-- The first loop of next; `none` is an error.
unfoldable pub fill : List Lane → Option (List Lane)
fill [] = some []
fill (l ∷ ls) = cons? (fill_one l) (fill ls)

-- The second loop: the first of the least heads.
abbrev pub better : Option Rec → Option Rec → Option Rec
better best none = best
better none (some h) = some h
better (some b) (some h) = if less h.key b.key then some h else some b

unfoldable pub best_head : Option Rec → List Lane → Option Rec
best_head best [] = best
best_head best (l ∷ ls) = best_head (better best l.head) ls

-- The third loop: every head of the key is used up.
abbrev pub cleared : Bytes → Option Rec → Option Rec
cleared key none = none
cleared key (some h) = if same h.key key then none else some h

unfoldable pub clear : Bytes → List Lane → List Lane
clear key [] = []
clear key (l ∷ ls) = record l { head = cleared key l.head } ∷ clear key ls

abbrev pub emit : Option Rec → List Lane → Option Rec × List Lane
emit none ls = (none, ls)
emit (some out) ls = (some out, clear out.key ls)

abbrev pub emit_filled : Option (List Lane) → Option (Option Rec × List Lane)
emit_filled none = none
emit_filled (some ls) = some (emit (best_head none ls) ls)

-- mergeIter.next
unfoldable pub merge_next : List Lane → Option (Option Rec × List Lane)
merge_next ls = emit_filled (fill ls)

abbrev pub prepend : Rec → Option (List Rec) → Option (List Rec)
prepend r none = none
prepend r (some rs) = some (r ∷ rs)

abbrev pub gather :
    (List Lane → Option (List Rec)) → Option (Option Rec × List Lane) → Option (List Rec)
gather rest none = none
gather rest (some (none, ls)) = some []
gather rest (some (some r, ls)) = prepend r (rest ls)

-- A loop that takes all of a merge; `none` is an error, or no fuel.
unfoldable pub collect : ℕ → List Lane → Option (List Rec)
collect zero ls = none
collect (suc fuel) ls = gather (collect fuel) (merge_next ls)

-- dropTombIter, as the records that it lets through.
unfoldable pub live : List Rec → List Rec
live [] = []
live (r ∷ rs) = if r.tomb then live rs else r ∷ live rs
