-- ===== src/Storage/Db/Invariant.antt =====
-- The invariant of the engine of pkg/storage/db.go: the map that a state stands for.
use shardlands.Prelude.{
  ℕ, ◌+◌, ◌≡◌, ◌<◌, ◌≤◌, refl, ◌∙◌, false, List, [], ◌∷◌, Option, some, arith, All,
}
use shardlands.Storage.Bytes.{Bytes}
use shardlands.Storage.Memtable.{Rec, Memtable, items}
use shardlands.Storage.Memtable.Search.{IsSkipList}
use shardlands.Storage.Records.{find, put_sorted}
use shardlands.Storage.Merge.Least.{or_else, layered}
use shardlands.Storage.Codec.Frames.{bytes_of}
use shardlands.Storage.Codec.RoundTrip.{IsSmall}
use shardlands.Storage.Wal.{Wal}
use shardlands.Storage.Wal.Recovery.{IsLog, nothing}
use shardlands.Storage.Table.{Table}
use shardlands.Storage.Table.Scans.{IsTableOf}
use shardlands.Storage.Db.{Db, Files, Got, ids_of, write_file, with_table, write_manifest}
use shardlands.Storage.Db.Opening.{load_tables}
use shardlands.Storage.Db.View.{
  got_of, IsTables, AllBelow, AllBelow-le, load_tables-write_file, load_tables_first,
}

-- The records of a log as the memtable has them.
unfoldable pub sorted_from : List Rec → List Rec → List Rec
sorted_from xs [] = xs
sorted_from xs (r ∷ rs) = sorted_from (put_sorted r xs) rs

module _ (crc : Bytes → ℕ) (crc_fits : (bs : Bytes) → crc bs < 4294967296) where
  -- Get reads the map `c` from the memtable and the tables, whose records are `ls`.
  pub record IsLive (mem : Memtable) (tables : List (ℕ × Table)) (ls : List (List Rec))
      (c : Bytes → Got) : Type 0 where
    pub skips : IsSkipList mem
    pub small : All IsSmall (items mem.nodes)
    pub are_tables : IsTables crc crc_fits tables ls
    pub shows : (k : Bytes) → got_of (or_else (find k (items mem.nodes)) (layered k ls)) ≡ c k

  -- The files of the open tables are there, and no new table takes their numbers.
  pub record IsKept (tables : List (ℕ × Table)) (files : Files) (next : ℕ) : Type 0 where
    pub loads : load_tables (ids_of tables) files ≡ some tables
    pub fresh : AllBelow next (ids_of tables)

  -- With the memtable, the tables that the manifest names read as the map.
  pub record IsStored (mem : Memtable) (manifest : List ℕ) (files : Files) (next : ℕ)
      (c : Bytes → Got) : Type 0 where
    pub tables : List (ℕ × Table)
    pub recs : List (List Rec)
    pub are_tables : IsTables crc crc_fits tables recs
    pub loads : load_tables manifest files ≡ some tables
    pub fresh : AllBelow next manifest
    pub shows : (k : Bytes) → got_of (or_else (find k (items mem.nodes)) (layered k recs)) ≡ c k

  -- The memtable is what the log replays to.
  pub record IsLogged (mem : Memtable) (wal : Wal) : Type 0 where
    pub recs : List Rec
    pub log : IsLog crc crc_fits recs wal
    pub replays : items mem.nodes ≡ sorted_from [] recs

  -- The state stands for the map `c`, for Get as for the next Open.
  pub record IsDb (db : Db) (ls : List (List Rec)) (c : Bytes → Got) : Type 0 where
    pub live : IsLive db.mem db.tables ls c
    pub kept : IsKept db.tables db.files db.next_id
    pub stored : IsStored db.mem db.manifest db.files db.next_id c
    pub logged : IsLogged db.mem db.wal

  abbrev pub Represents : Db → (Bytes → Got) → Type 0
  Represents db c = (ls : List (List Rec)) × IsDb db ls c

  IsStored-write_file :
      (x : Option Table) (m n : ℕ) (mem : Memtable) (manifest : List ℕ) (files : Files)
      (c : Bytes → Got)
      → n ≤ m
      → IsStored mem manifest files n c
      → IsStored mem manifest (write_file n x files) m c
  IsStored-write_file x m n mem manifest files c l i = record {
    tables = i.tables;
    recs = i.recs;
    are_tables = i.are_tables;
    loads = load_tables-write_file n x manifest files i.fresh ∙ i.loads;
    fresh = AllBelow-le n m manifest l i.fresh;
    shows = i.shows;
  }

  pub keep_files :
      (x : Option Table) (db : Db) (ls : List (List Rec)) (c : Bytes → Got)
      → IsDb db ls c
      → IsDb (record db { files = write_file db.next_id x db.files }) ls c
  keep_files x db ls c i = record {
    live = i.live;
    kept = record {
      loads =
          load_tables-write_file db.next_id x (ids_of db.tables) db.files i.kept.fresh
          ∙ i.kept.loads;
      fresh = i.kept.fresh;
    };
    stored =
        IsStored-write_file x db.next_id db.next_id db.mem db.manifest db.files c (omega arith)
          i.stored;
    logged = i.logged;
  }

  pub no_log :
      (mem : Memtable) (w : Wal)
      → items mem.nodes ≡ []
      → IsLogged mem (record w { file = []; failed = false })
  no_log mem w e = record {
    recs = [];
    log = record {
      front = [];
      shape = unfold bytes_of in refl;
      cut = nothing;
      clean = λ e. refl;
      small = tt;
    };
    replays = unfold sorted_from in e;
  }

  module _ (optimal : ℕ → ℕ) (draws : List ℕ) where
    pub with_table_lem :
        (t : Table) (l : List Rec) (older : List (ℕ × Table)) (older_recs : List (List Rec))
        (db : Db) (ls : List (List Rec)) (c : Bytes → Got)
        → IsDb db ls c
        → IsTableOf crc crc_fits l t
        → IsTables crc crc_fits older older_recs
        → IsKept older db.files db.next_id
        → ((k : Bytes)
            → got_of
                (or_else (find k (items db.mem.nodes)) (or_else (find k l) (layered k older_recs)))
              ≡ c k)
        → IsDb (with_table crc optimal draws t older db) (l ∷ older_recs) c
    with_table_lem t l older older_recs db ls c i is_table are_tables kept shows = record {
      live = record {
        skips = i.live.skips;
        small = i.live.small;
        are_tables = (is_table, are_tables);
        shows = unfold layered in shows;
      };
      kept = record {
        loads = load_tables_first db.next_id t (ids_of older) older db.files kept.fresh kept.loads;
        fresh = (
          omega arith,
          AllBelow-le db.next_id (db.next_id + 1) (ids_of older) (omega arith) kept.fresh,
        );
      };
      stored =
          IsStored-write_file (some t) (db.next_id + 1) db.next_id db.mem db.manifest db.files c
            (omega arith) i.stored;
      logged = i.logged;
    }

    pub saved :
        (db : Db) (ls : List (List Rec)) (c : Bytes → Got)
        → IsDb db ls c
        → IsStored db.mem (ids_of db.tables) db.files db.next_id c
    saved db ls c i = record {
      tables = db.tables;
      recs = ls;
      are_tables = i.live.are_tables;
      loads = i.kept.loads;
      fresh = i.kept.fresh;
      shows = i.live.shows;
    }

    pub write_manifest_lem :
        (db : Db) (ls : List (List Rec)) (c : Bytes → Got)
        → IsDb db ls c
        → IsDb (write_manifest crc optimal draws db) ls c
    write_manifest_lem db ls c i = record {
      live = i.live;
      kept = i.kept;
      stored = saved db ls c i;
      logged = i.logged;
    }
