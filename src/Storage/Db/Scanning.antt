-- ===== src/Storage/Db/Scanning.antt =====
-- ScanFrom of pkg/storage/db.go; Scan is ScanFrom from the empty key. The function that is called
-- with each record says whether to go on.
pub mod Skips
pub mod Covers
use shardlands.Prelude.{
  ℕ, zero, suc, ◌+◌, ◌≡◌, ◌<◌, ◌≤◌, refl, sym, ap, subst, ◌∙◌, inl, inr, Bool, true, false, List,
  [], ◌∷◌, Option, none, some, arith, if◌then◌else◌, Bool-cases, length, All,
}
use shardlands.Storage.Bytes.{Bytes, less, same, same_eq, less_trans}
use shardlands.Storage.Memtable
use shardlands.Storage.Memtable.{Rec, SkipNode, Memtable, items}
use shardlands.Storage.Memtable.Search.{IsSkipList, drop_less, seek_lem}
use shardlands.Storage.Records.{
  find, find-same, find-apart, find-Above, Above, Ascending, Above-trans,
}
use shardlands.Storage.Merge.{Source, live, collect, new_merge, Lane, merge_next}
use shardlands.Storage.Merge.Least.{less_le_trans, or_else, layered, AllAscending, total_length}
use shardlands.Storage.Merge.Newest.{recs_of, AllWhole, merge_newest}
use shardlands.Storage.Table
use shardlands.Storage.Table.{Table, skip_below}
use shardlands.Storage.Db.{Db, Got, absent, total}
use shardlands.Storage.Db.View.{got_of, IsTables}
use shardlands.Storage.Db.Merged.{total_lem, live-Ascending, got_of-live, live_dead, live_alive}
use shardlands.Storage.Db.Invariant.{IsDb, Represents}

-- What ScanFrom comes to: ErrClosed, or the records that the function was called with, and whether
-- an error ended the scan.
pub data Scanned : Type 0 where
  is_closed : Scanned
  handed : List Rec → Bool → Scanned

-- A record that the merge gave: dropTombIter skips a tombstone, and the function may stop the scan.
abbrev pub hand_rec : (Rec → Bool) → Rec → List Rec × Bool → List Rec × Bool
hand_rec more r (rest, failed) =
    if r.tomb then (rest, failed) else if more r then (r ∷ rest, failed) else (r ∷ [], false)

abbrev pub hand_next :
    (Rec → Bool) → (List Lane → List Rec × Bool) → Option (Option Rec × List Lane) → List Rec × Bool
hand_next more rest none = ([], true)
hand_next more rest (some (none, ls)) = ([], false)
hand_next more rest (some (some r, ls)) = hand_rec more r (rest ls)

-- The loop of ScanFrom over the merge.
unfoldable pub scan_loop : (Rec → Bool) → ℕ → List Lane → List Rec × Bool
scan_loop more zero ls = ([], true)
scan_loop more (suc fuel) ls = hand_next more (scan_loop more fuel) (merge_next ls)

abbrev pub scanned : List Rec × Bool → Scanned
scanned (rs, failed) = handed rs failed

module _ (crc : Bytes → ℕ) (optimal : ℕ → ℕ) (draws : List ℕ) where
  unfoldable pub sources_from : Bytes → List (ℕ × Table) → List Source
  sources_from from [] = []
  sources_from from (t ∷ ts) =
      let (rs, broken_) = Table.iter_from crc from t.1 in
      record { recs = rs; broken = broken_ } ∷ sources_from from ts

  abbrev pub all_sources : Bytes → Db → List Source
  all_sources from db =
      record { recs = Memtable.iter_from from db.mem; broken = false } ∷ sources_from from db.tables

  -- ScanFrom
  unfoldable pub scan_from : Bytes → (Rec → Bool) → Db → Scanned
  scan_from from more db =
      let ss = all_sources from db in
      if db.closed
      then is_closed
      else scanned (scan_loop more (total crc optimal draws ss + 1) (new_merge ss))

  -- TableCount
  abbrev pub table_count : Db → ℕ
  table_count db = length db.tables
