-- ===== src/Storage/Db/Background.antt =====
-- Flushes and compactions of pkg/storage/db.go do not change what is read, whatever step of them
-- fails.
use shardlands.Prelude.{
  ℕ, ◌≡◌, ◌<◌, refl, sym, ap, subst, ◌==◌, ◌∙◌, inl, inr, Bool, true, false, List, [], ◌∷◌, none,
  some, ltb, if◌then◌else◌, Bool-cases, length,
}
use shardlands.Storage.Bytes.{Bytes}
use shardlands.Storage.Memtable.{Rec, new_memtable, items}
use shardlands.Storage.Memtable.Laws.{new_memtable-IsSkipList, iter_from_empty}
use shardlands.Storage.Records.{find}
use shardlands.Storage.Merge.Least.{or_else, layered}
use shardlands.Storage.Wal.{Wal, reset}
use shardlands.Storage.Table.{Table, write_table}
use shardlands.Storage.Table.Scans.{IsTableOf, write_table-decides}
use shardlands.Storage.Db.{
  Db, Fault, no_fault, at_table, at_open, at_manifest, at_reset, at_removals, Got, ids_of, on_reset,
  with_table, write_manifest, flushed, flush_locked, replaced, compacted, compact_locked,
}
use shardlands.Storage.Db.Opening.{load_tables}
use shardlands.Storage.Db.View.{
  got_of, got_of-or_else, or_else_twice, or_else-none, AllBelow, load_tables_only,
}
use shardlands.Storage.Db.Merged.{merged-decides}
use shardlands.Storage.Db.Invariant.{
  IsDb, Represents, keep_files, no_log, with_table_lem, write_manifest_lem,
}

abbrev reset_to : Bool → Wal → Bool × Wal
reset_to b w =
    if b
    then (true, record w { file = []; failed = false })
    else (false, record w { failed = true; closed = true })

reset_gone : (opens : Bool) (w : Wal) → w.closed ≡ true → reset opens w ≡ (false, w)
unfolding reset
reset_gone opens w e = ap (λ b. if b then (false, w) else reset_to opens w) e

reset_here : (opens : Bool) (w : Wal) → w.closed ≡ false → reset opens w ≡ reset_to opens w
unfolding reset
reset_here opens w e = ap (λ b. if b then (false, w) else reset_to opens w) e

module _ (crc : Bytes → ℕ) (crc_fits : (bs : Bytes) → crc bs < 4294967296) where
  module _ (optimal : ℕ → ℕ) (draws : List ℕ) where
    on_reset_lem :
        (opens : Bool) (db : Db) (ls : List (List Rec)) (c : Bytes → Got)
        → IsDb crc crc_fits db ls c
        → ((k : Bytes) → got_of (layered k ls) ≡ c k)
        → db.manifest ≡ ids_of db.tables
        → Represents crc crc_fits (on_reset crc optimal draws (reset opens db.wal) db).1 c
    on_reset_lem opens db ls c i covered named = elim (Bool-cases db.wal.closed) [
      | inl gone ↦
          subst (λ p. Represents crc crc_fits (on_reset crc optimal draws p db).1 c)
            (sym (reset_gone opens db.wal gone))
            (ls, record { live = i.live; kept = i.kept; stored = i.stored; logged = i.logged })
      | inr here ↦
          subst (λ p. Represents crc crc_fits (on_reset crc optimal draws p db).1 c)
            (sym (reset_here opens db.wal here)) (by_opens opens)
    ]
      where
        by_opens :
            (b : Bool)
            → Represents crc crc_fits
                (on_reset crc optimal draws
                  (if b
                    then (true, record db.wal { file = []; failed = false })
                    else (false, record db.wal { failed = true; closed = true }))
                  db).1
                c
        by_opens true = (
          ls,
          record {
            live = record {
              skips = new_memtable-IsSkipList draws;
              small = unfold new_memtable in tt;
              are_tables = i.live.are_tables;
              shows = unfold new_memtable find in covered;
            };
            kept = i.kept;
            stored = record {
              tables = db.tables;
              recs = ls;
              are_tables = i.live.are_tables;
              loads = ap (λ ids. load_tables ids db.files) named ∙ i.kept.loads;
              fresh = subst (AllBelow db.next_id) (sym named) i.kept.fresh;
              shows = unfold new_memtable find in covered;
            };
            logged = no_log crc crc_fits (new_memtable draws) db.wal (unfold new_memtable in refl);
          },
        )
        by_opens false = (
          ls,
          record {
            live = i.live;
            kept = i.kept;
            stored = i.stored;
            logged = record {
              recs = i.logged.recs;
              log = record {
                front = i.logged.log.front;
                shape = i.logged.log.shape;
                cut = i.logged.log.cut;
                clean = λ e. absurd cc;
                small = i.logged.log.small;
              };
              replays = i.logged.replays;
            };
          },
        )

    flushed_lem :
        (f : Fault) (t : Table) (db : Db) (ls : List (List Rec)) (c : Bytes → Got)
        → IsTableOf crc crc_fits (items db.mem.nodes) t
        → IsDb crc crc_fits db ls c
        → Represents crc crc_fits (flushed crc optimal draws f (some t) db).1 c
    flushed_lem f t db ls c is_table i = by_fault f
      where
        l : List Rec
        l = items db.mem.nodes

        twice : (k : Bytes) → got_of (or_else (find k l) (or_else (find k l) (layered k ls))) ≡ c k
        twice k = ap got_of (or_else_twice (find k l) (layered k ls)) ∙ i.live.shows k

        next : IsDb crc crc_fits (with_table crc optimal draws t db.tables db) (l ∷ ls) c
        next =
            with_table_lem crc crc_fits optimal draws t l db.tables ls db ls c i is_table
              i.live.are_tables i.kept twice

        named :
            IsDb crc crc_fits
              (write_manifest crc optimal draws (with_table crc optimal draws t db.tables db))
              (l ∷ ls)
              c
        named =
            write_manifest_lem crc crc_fits optimal draws
              (with_table crc optimal draws t db.tables db) (l ∷ ls) c next

        by_reset :
            (b : Bool)
            → Represents crc crc_fits
                (on_reset crc optimal draws (reset b db.wal) (
                  write_manifest crc optimal draws (with_table crc optimal draws t db.tables db))).1
                c
        by_reset b =
            on_reset_lem b
              (write_manifest crc optimal draws (with_table crc optimal draws t db.tables db))
              (l ∷ ls) c named (unfold layered in i.live.shows) refl

        by_fault :
            (f : Fault) → Represents crc crc_fits (flushed crc optimal draws f (some t) db).1 c
        by_fault no_fault = by_reset true
        by_fault (at_removals goes) = by_reset true
        by_fault at_reset = by_reset false
        by_fault at_table = (ls, keep_files crc crc_fits none db ls c i)
        by_fault at_open = (ls, keep_files crc crc_fits (some t) db ls c i)
        by_fault at_manifest = (l ∷ ls, next)

    pub flush_locked-Represents :
        (f : Fault) (db : Db) (c : Bytes → Got)
        → Represents crc crc_fits db c
        → Represents crc crc_fits (flush_locked crc optimal draws f db).1 c
    unfolding flush_locked
    flush_locked-Represents f db c (ls, i) = elim (Bool-cases (db.mem.n == 0)) [
      | inl empty ↦ rw empty (ls, i)
      | inr full ↦
          let read =
            ap (write_table crc optimal db.opts.bloom_bits_per_key)
              (iter_from_empty db.mem i.live.skips) in
          elim (write_table-decides crc crc_fits optimal db.opts.bloom_bits_per_key
            (items db.mem.nodes) i.live.small i.live.skips.ascending) [
              | inl gone ↦ rw (full, read ∙ gone) (ls, keep_files crc crc_fits none db ls c i)
              | inr (t, written, is_table) ↦
                  rw (full, read ∙ written) (flushed_lem f t db ls c is_table i)
            ]
    ]

    compacted_lem :
        (f : Fault) (t : Table) (out : List Rec) (db : Db) (ls : List (List Rec)) (c : Bytes → Got)
        → IsTableOf crc crc_fits out t
        → ((k : Bytes) → got_of (find k out) ≡ got_of (layered k ls))
        → IsDb crc crc_fits db ls c
        → Represents crc crc_fits (compacted crc optimal draws f (some t) db).1 c
    compacted_lem f t out db ls c is_table reads i = by_fault f
      where
        alike :
            (k : Bytes)
            → got_of (or_else (find k (items db.mem.nodes)) (or_else (find k out) (layered k [])))
              ≡ c k
        alike k =
            unfold layered in
            (got_of-or_else (find k (items db.mem.nodes)) (or_else (find k out) none) (layered k ls)
                (ap got_of (or_else-none (find k out)) ∙ reads k)
              ∙ i.live.shows k)

        next : IsDb crc crc_fits (with_table crc optimal draws t [] db) (out ∷ []) c
        next =
            with_table_lem crc crc_fits optimal draws t out [] [] db ls c i is_table tt
              (record { loads = unfold load_tables in refl; fresh = tt }) alike

        done :
            (goes : ℕ → Bool)
            → Represents crc crc_fits
                (replaced crc optimal draws goes db (with_table crc optimal draws t [] db)).1
                c
        done goes =
            let only =
              load_tables_only goes db.next_id t (ids_of db.tables) db.files i.kept.fresh in
            (
              out ∷ [],
              record {
                live = next.live;
                kept = record { loads = only; fresh = next.kept.fresh };
                stored = record {
                  tables = (db.next_id, t) ∷ [];
                  recs = out ∷ [];
                  are_tables = (is_table, tt);
                  loads = only;
                  fresh = next.kept.fresh;
                  shows = next.live.shows;
                };
                logged = next.logged;
              },
            )

        by_fault :
            (f : Fault) → Represents crc crc_fits (compacted crc optimal draws f (some t) db).1 c
        by_fault no_fault = done (λ i. true)
        by_fault at_reset = done (λ i. true)
        by_fault (at_removals goes) = done goes
        by_fault at_table = (ls, keep_files crc crc_fits none db ls c i)
        by_fault at_open = (ls, keep_files crc crc_fits (some t) db ls c i)
        by_fault at_manifest = (out ∷ [], next)

    pub compact_locked-Represents :
        (f : Fault) (db : Db) (c : Bytes → Got)
        → Represents crc crc_fits db c
        → Represents crc crc_fits (compact_locked crc optimal draws f db).1 c
    unfolding compact_locked
    compact_locked-Represents f db c (ls, i) = elim (Bool-cases (ltb (length db.tables) 2)) [
      | inl few ↦ rw few (ls, i)
      | inr many ↦
          elim (merged-decides crc crc_fits optimal draws db.opts.bloom_bits_per_key db.tables ls
            i.live.are_tables) [
              | inl gone ↦ rw (many, gone) (ls, keep_files crc crc_fits none db ls c i)
              | inr (t, made, (out, is_table, reads)) ↦
                  rw (many, made) (compacted_lem f t out db ls c is_table reads i)
            ]
    ]
