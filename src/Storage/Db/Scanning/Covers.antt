-- ===== src/Storage/Db/Scanning/Covers.antt =====
-- ScanFrom of pkg/storage/db.go goes through what Get reads.
use shardlands.Prelude.{
  ℕ, ◌+◌, ◌≡◌, ◌<◌, refl, sym, ap, subst, ◌∙◌, inl, inr, Bool, true, false, List, [], ◌∷◌, none,
  arith, if◌then◌else◌, Bool-cases, All, zero, suc, some, Option,
}
use shardlands.Storage.Bytes.{Bytes, less}
use shardlands.Storage.Memtable
use shardlands.Storage.Memtable.{Rec, SkipNode, Memtable, items}
use shardlands.Storage.Memtable.Search.{seek_lem}
use shardlands.Storage.Records.{find, Ascending}
use shardlands.Storage.Merge.{live, collect, new_merge, Lane, gather, prepend, merge_next}
use shardlands.Storage.Merge.Least.{layered, AllAscending, total_length}
use shardlands.Storage.Merge.Newest.{recs_of, AllWhole, merge_newest}
use shardlands.Storage.Table.{Table, skip_below}
use shardlands.Storage.Db.{Db, Got, absent, total}
use shardlands.Storage.Db.View.{got_of, IsTables}
use shardlands.Storage.Db.Merged.{total_lem, live-Ascending, got_of-live, live_dead, live_alive}
use shardlands.Storage.Db.Invariant.{IsDb, Represents}
use shardlands.Storage.Db.Scanning.{
  is_closed, handed, hand_rec, hand_next, scan_loop, scanned, sources_from, all_sources, scan_from,
}
use shardlands.Storage.Db.Scanning.Skips.{
  items-drop_less, skip_all, skip_all-AllAscending, layered-skip_all,
}

-- The records up to the first of which the function says no, and that one.
unfoldable pub hand_on : (Rec → Bool) → List Rec → List Rec
hand_on more [] = []
hand_on more (r ∷ rs) = let rest = hand_on more rs in r ∷ (if more r then rest else [])

hand_rec-live :
    (more : Rec → Bool) (r : Rec) (rs : List Rec)
    → hand_rec more r (hand_on more (live rs), false) ≡ (hand_on more (live (r ∷ rs)), false)
unfolding hand_on
hand_rec-live more r rs = elim (Bool-cases r.tomb) [
  | inl dead ↦
      ap
        (λ b.
          if b
          then (hand_on more (live rs), false)
          else if more r
          then (r ∷ hand_on more (live rs), false)
          else (r ∷ [], false))
        dead
      ∙ ap (λ l. (hand_on more l, false)) (sym (live_dead r rs dead))
  | inr alive ↦
      ap
        (λ b.
          if b
          then (hand_on more (live rs), false)
          else if more r
          then (r ∷ hand_on more (live rs), false)
          else (r ∷ [], false))
        alive
      ∙ either (more r)
      ∙ ap (λ l. (hand_on more l, false)) (sym (live_alive r rs alive))
]
  where
    either :
        (b : Bool)
        → ◌≡◌ {A = List Rec × Bool}
            (if b then (r ∷ hand_on more (live rs), false) else (r ∷ [], false))
            (r ∷ (if b then hand_on more (live rs) else []), false)
    either true = refl
    either false = refl

-- Where all of the merge is there, a scan is the merge up to where the function stops it.
scan_loop-collect :
    (more : Rec → Bool) (fuel : ℕ) (ls : List Lane) (out : List Rec)
    → collect fuel ls ≡ some out
    → scan_loop more fuel ls ≡ (hand_on more (live out), false)
unfolding collect scan_loop
scan_loop-collect more zero ls out e = absurd cc
scan_loop-collect more (suc fuel) ls out e = by_next (merge_next ls) (scan_loop-collect more fuel) e
  where
    by_next :
        (o : Option (Option Rec × List Lane))
        → ((ls : List Lane) (out : List Rec)
            → collect fuel ls ≡ some out
            → scan_loop more fuel ls ≡ (hand_on more (live out), false))
        → gather (collect fuel) o ≡ some out
        → hand_next more (scan_loop more fuel) o ≡ (hand_on more (live out), false)
    by_next none f e = absurd cc
    by_next (some (none, ls)) f e = let q : out ≡ [] = cc in rw q (unfold live hand_on in refl)
    by_next (some (some r, ls)) f e = by_rest (collect fuel ls) refl e
      where
        by_rest :
            (o : Option (List Rec))
            → collect fuel ls ≡ o
            → prepend r o ≡ some out
            → hand_rec more r (scan_loop more fuel ls) ≡ (hand_on more (live out), false)
        by_rest none g e = absurd cc
        by_rest (some rest) g e =
            let q : out ≡ r ∷ rest = cc in rw (f ls rest g, q) (hand_rec-live more r rest)

module _ (crc : Bytes → ℕ) (crc_fits : (bs : Bytes) → crc bs < 4294967296) (optimal : ℕ → ℕ)
    (draws : List ℕ) where
  recs_of-sources_from :
      (from : Bytes) (ts : List (ℕ × Table)) (ls : List (List Rec))
      → IsTables crc crc_fits ts ls
      → (recs_of (sources_from crc optimal draws from ts) ≡ skip_all crc from ls)
        × AllWhole (sources_from crc optimal draws from ts)
        × AllAscending ls
  unfolding sources_from
  recs_of-sources_from from [] [] h = (refl, tt, tt)
  recs_of-sources_from from [] (l ∷ ls) h = absurd h
  recs_of-sources_from from (t ∷ ts) [] h = absurd h
  recs_of-sources_from from (t ∷ ts) (l ∷ ls) h =
      let (older, whole, sorted) = recs_of-sources_from from ts ls h.1 in
      rw (h.0.scans from)
        (ap (λ x. skip_below crc from l ∷ x) older, (refl, whole), (h.0.ascending, sorted))

  recs_of-all_sources :
      (from : Bytes) (db : Db) (ls : List (List Rec)) (c : Bytes → Got)
      → IsDb crc crc_fits db ls c
      → (recs_of (all_sources crc optimal draws from db)
          ≡ skip_all crc from (items db.mem.nodes ∷ ls))
        × AllWhole (all_sources crc optimal draws from db)
        × AllAscending (items db.mem.nodes ∷ ls)
  recs_of-all_sources from db ls c i =
      let (older, whole, sorted) = recs_of-sources_from from db.tables ls i.live.are_tables in
      let first : Memtable.iter_from from db.mem ≡ skip_below crc from (items db.mem.nodes) =
        unfold Memtable.iter_from in
        (ap items (seek_lem from db.mem i.live.skips) ∙ items-drop_less crc from db.mem.nodes) in
      (
        ap (λ l. l ∷ recs_of (sources_from crc optimal draws from db.tables)) first
            ∙ ap (λ x. skip_below crc from (items db.mem.nodes) ∷ x) older,
        (refl, whole),
        (i.live.skips.ascending, sorted),
      )

  AllLive_live : (xs : List Rec) → All (λ r. r.tomb ≡ false) (live xs)
  AllLive_live [] = unfold live in tt
  AllLive_live (x ∷ xs) = elim (Bool-cases x.tomb) [
    | inl dead ↦ rw (live_dead x xs dead) (AllLive_live xs)
    | inr alive ↦ rw (live_alive x xs alive) (alive, AllLive_live xs)
  ]

  -- What a scan hands on is the map from `from` on.
  pub record IsScan (from : Bytes) (c : Bytes → Got) (out : List Rec) : Type 0 where
    ascending : Ascending out
    alive : All (λ r. r.tomb ≡ false) out
    same_as_get : (k : Bytes) → less k from ≡ false → got_of (find k out) ≡ c k
    none_below : (k : Bytes) → less k from ≡ true → got_of (find k out) ≡ absent

  all_sources-total :
      (from : Bytes) (db : Db)
      → total crc optimal draws (all_sources crc optimal draws from db)
        ≡ total_length (recs_of (all_sources crc optimal draws from db))
  all_sources-total from db =
      total_lem crc crc_fits optimal draws (all_sources crc optimal draws from db)

  scan_open :
      (from : Bytes) (more : Rec → Bool) (db : Db)
      → db.closed ≡ false
      → scan_from crc optimal draws from more db
        ≡ scanned (
            scan_loop more
              (total crc optimal draws (all_sources crc optimal draws from db) + 1)
              (new_merge (all_sources crc optimal draws from db)))
  unfolding scan_from
  scan_open from more db e =
      ap
        (λ b.
          if b
          then is_closed
          else scanned (
              scan_loop more (total crc optimal draws (all_sources crc optimal draws from db) + 1)
                (new_merge (all_sources crc optimal draws from db))))
        e

  -- A scan of an open engine goes through exactly the live keys from its first key on, in order,
  -- each once and with the value that Get returns, until the function says no, and without an
  -- error. The state stands for a map.
  pub scan_from_lem :
      (from : Bytes) (more : Rec → Bool) (db : Db) (c : Bytes → Got)
      → db.closed ≡ false
      → Represents crc crc_fits db c
      → (out : List Rec) × (scan_from crc optimal draws from more db
          ≡ handed (hand_on more out) false)
        × IsScan from c out
  scan_from_lem from more db c open_ (ls, i) =
      let ss = all_sources crc optimal draws from db in
      let mem = items db.mem.nodes in
      let (recs, whole, sorted) = recs_of-all_sources from db ls c i in
      let (out, made, ascending, newest) =
        merge_newest ss (total crc optimal draws ss + 1) whole
          (subst AllAscending (sym recs) (skip_all-AllAscending crc from (mem ∷ ls) sorted))
          (omega (arith, all_sources-total from db)) in
      let seen : (k : Bytes)
          → got_of (find k (live out))
            ≡ got_of (if less k from then none else layered k (mem ∷ ls)) =
        λ k.
          got_of-live k out ascending
          ∙ ap got_of
              (newest k ∙ ap (layered k) recs ∙ layered-skip_all crc k from (mem ∷ ls) sorted) in
      (
        live out,
        scan_open from more db open_
            ∙ ap scanned
                (scan_loop-collect more (total crc optimal draws ss + 1) (new_merge ss) out made),
        record {
          ascending = live-Ascending out ascending;
          alive = AllLive_live out;
          same_as_get = λ k above. seen k ∙ rw above (unfold layered in (i.live.shows k));
          none_below = λ k below. seen k ∙ rw below refl;
        },
      )
