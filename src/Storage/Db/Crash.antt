-- ===== src/Storage/Db/Crash.antt =====
-- Open of pkg/storage/db.go after the process is gone.
use shardlands.Prelude.{
  ℕ, ◌+◌, ◌≡◌, ◌<◌, refl, sym, ap, subst, ◌∙◌, false, List, [], arith, length, length-append, All,
}
use shardlands.Storage.Bytes.{Bytes}
use shardlands.Storage.Memtable.{Rec, Memtable, new_memtable, items}
use shardlands.Storage.Memtable.Laws.{new_memtable-IsSkipList}
use shardlands.Storage.Codec.Frames.{bytes_of, length-bytes_of}
use shardlands.Storage.Wal.{Wal, open_wal}
use shardlands.Storage.Wal.Recovery.{IsLog, replay-IsLog}
use shardlands.Storage.Table.{Table}
use shardlands.Storage.Db.{Options, with_defaults, Db, Got, absent}
use shardlands.Storage.Db.Opening.{
  empty_disk, Disk, disk_of, load_tables, past_all, sweep, put_all, opened, on_replay, on_tables,
  open_db,
}
use shardlands.Storage.Db.View.{AllBelow, AllBelow-le, got_of}
use shardlands.Storage.Merge.Least.{or_else, layered}
use shardlands.Storage.Records.{find}
use shardlands.Storage.Codec.RoundTrip.{IsSmall}
use shardlands.Storage.Wal.Recovery.{nothing}
use shardlands.Storage.Db.Invariant.{sorted_from, IsLive, IsStored, IsLogged, IsDb, Represents}
use shardlands.Storage.Db.Sweep.{
  past_all-AllBelow, sweep-le, AllLive-self, load_tables-sweep, ids_of-load_tables,
  put_all-IsSkipList, items-put_all,
}

module _ (crc : Bytes → ℕ) (crc_fits : (bs : Bytes) → crc bs < 4294967296) (optimal : ℕ → ℕ)
    (draws : List ℕ) where
  -- The engine that Open makes of a disk.
  abbrev reopened : Options → Disk → List (ℕ × Table) → List Rec → Db
  reopened opts d ts rs =
      let swept = sweep d.manifest d.files (past_all d.manifest 1) in
      record {
        opts = with_defaults opts;
        mem = put_all rs (new_memtable draws);
        wal = open_wal d.log (with_defaults opts).sync_writes;
        tables = ts;
        next_id = swept.1;
        closed = false;
        manifest = d.manifest;
        files = swept.0;
      }

  log_fuel : (rs : List Rec) (w : Wal) → IsLog crc crc_fits rs w → length rs < length w.file + 1
  log_fuel rs w l = omega (
    arith,
    ap length l.shape,
    length-append {0} (bytes_of crc rs) l.front,
    length-bytes_of crc rs,
  )

  open_lem :
      (opts : Options) (db : Db) (c : Bytes → Got)
      → (s : IsStored crc crc_fits db.mem db.manifest db.files db.next_id c)
      → (l : IsLogged crc crc_fits db.mem db.wal)
      → open_db crc draws opts (disk_of db) ≡ opened (reopened opts (disk_of db) s.tables l.recs)
  unfolding open_db
  open_lem opts db c s l =
      ap (on_tables crc draws (with_defaults opts) (disk_of db)) s.loads
      ∙ ap
          (on_replay crc draws (with_defaults opts) (disk_of db) s.tables
            (sweep db.manifest db.files (past_all db.manifest 1)))
          (replay-IsLog crc crc_fits l.recs db.wal (length db.wal.file + 1) l.log
            (log_fuel l.recs db.wal l.log))

  same_items :
      (mem : Memtable) (wal : Wal) (l : IsLogged crc crc_fits mem wal)
      → items (put_all l.recs (new_memtable draws)).nodes ≡ items mem.nodes
  same_items mem wal l =
      items-put_all l.recs (new_memtable draws) (new_memtable-IsSkipList draws)
      ∙ unfold new_memtable in (sym l.replays)

  -- The engine that was opened reads the map from what was stored.
  reopened-IsLive :
      (opts : Options) (db : Db) (c : Bytes → Got)
      → (s : IsStored crc crc_fits db.mem db.manifest db.files db.next_id c)
      → (l : IsLogged crc crc_fits db.mem db.wal) → All IsSmall (items db.mem.nodes)
      → IsLive crc crc_fits (put_all l.recs (new_memtable draws)) s.tables s.recs c
  reopened-IsLive opts db c s l small =
      let same = same_items db.mem db.wal l in
      record {
        skips = put_all-IsSkipList l.recs (new_memtable draws) (new_memtable-IsSkipList draws);
        small = subst (All IsSmall) (sym same) small;
        are_tables = s.are_tables;
        shows = λ k. ap (λ xs. got_of (or_else (find k xs) (layered k s.recs))) same ∙ s.shows k;
      }

  reopened-Represents :
      (opts : Options) (db : Db) (ls : List (List Rec)) (c : Bytes → Got)
      → (i : IsDb crc crc_fits db ls c) → db.wal.failed ≡ false
      → Represents crc crc_fits (reopened opts (disk_of db) i.stored.tables i.logged.recs) c
  reopened-Represents opts db ls c i e =
      let s = i.stored in
      let live = reopened-IsLive opts db c s i.logged i.live.small in
      let named = ids_of-load_tables db.manifest db.files s.tables s.loads in
      let next = past_all db.manifest 1 in
      let loads =
        load_tables-sweep db.manifest db.manifest db.files next (AllLive-self db.manifest)
        ∙ s.loads in
      let below =
        AllBelow-le next (sweep db.manifest db.files next).1 db.manifest
          (sweep-le db.manifest db.files next) (past_all-AllBelow db.manifest 1) in
      (
        s.recs,
        record {
          live = live;
          kept = record {
            loads = ap (λ ids. load_tables ids (sweep db.manifest db.files next).0) named ∙ loads;
            fresh = subst (AllBelow (sweep db.manifest db.files next).1) (sym named) below;
          };
          stored = record {
            tables = s.tables;
            recs = s.recs;
            are_tables = s.are_tables;
            loads = loads;
            fresh = below;
            shows = live.shows;
          };
          logged = record {
            recs = i.logged.recs;
            log =
                unfold open_wal in
                (record {
                  front = i.logged.log.front;
                  shape = i.logged.log.shape;
                  cut = i.logged.log.cut;
                  clean = λ q. i.logged.log.clean e;
                  small = i.logged.log.small;
                });
            replays = same_items db.mem db.wal i.logged ∙ i.logged.replays;
          };
        },
      )

  -- An engine on an empty directory.
  abbrev pub fresh_db : Options → Db
  fresh_db opts = record {
    opts = opts;
    mem = new_memtable draws;
    wal = open_wal [] false;
    tables = [];
    next_id = 1;
    closed = false;
    manifest = [];
    files = [];
  }

  pub fresh_db-IsDb : (opts : Options) → IsDb crc crc_fits (fresh_db opts) [] (λ k. absent)
  fresh_db-IsDb opts = record {
    live = record {
      skips = new_memtable-IsSkipList draws;
      small = unfold new_memtable in tt;
      are_tables = tt;
      shows = unfold new_memtable find layered in (λ k. refl);
    };
    kept = record { loads = unfold load_tables in refl; fresh = tt };
    stored = record {
      tables = [];
      recs = [];
      are_tables = tt;
      loads = unfold load_tables in refl;
      fresh = tt;
      shows = unfold new_memtable find layered in (λ k. refl);
    };
    logged = record {
      recs = [];
      log =
          unfold open_wal bytes_of in
          (record { front = []; shape = refl; cut = nothing; clean = λ e. refl; small = tt });
      replays = unfold new_memtable sorted_from in refl;
    };
  }

  -- Open of an empty directory gives an open engine that stands for the empty map.
  pub open_empty-Represents :
      (opts : Options)
      → (db : Db) × (open_db crc draws opts empty_disk ≡ opened db)
        × (db.closed ≡ false)
        × Represents crc crc_fits db (λ k. absent)
  open_empty-Represents opts =
      let i = fresh_db-IsDb opts in
      (
        reopened opts (disk_of (fresh_db opts)) i.stored.tables i.logged.recs,
        ap (open_db crc draws opts) same_disk
            ∙ open_lem opts (fresh_db opts) (λ k. absent) i.stored i.logged,
        refl,
        reopened-Represents opts (fresh_db opts) [] (λ k. absent) i (unfold open_wal in refl),
      )
    where
      same_disk : ◌≡◌ {A = Disk} empty_disk (disk_of (fresh_db opts))
      same_disk = unfold open_wal in refl
