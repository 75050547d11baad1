-- ===== src/Storage/Db.antt =====
-- The engine of pkg/storage/db.go. The files of the directory stand beside the state of the
-- process: a table's file is known by its number, and is `none` while it is not whole. The locks
-- are left out, so an operation is one step. An option is a natural number: one below 0 counts as 0.
pub mod Opening
pub mod View
pub mod Merged
pub mod Invariant
pub mod Background
pub mod Writes
pub mod Runs
pub mod Refines
pub mod Sweep
pub mod Crash
pub mod Scanning
use shardlands.Prelude.{
  ℕ, zero, suc, ◌+◌, Bool, true, false, not, ◌||◌, List, [], ◌∷◌, Option, none, some, ltb, leb,
  ◌==◌, if◌then◌else◌, length,
}
use shardlands.Prelude.Int.{ℤ, pos, negsuc}
use shardlands.Storage.Bytes.{Bytes}
use shardlands.Storage.Memtable
use shardlands.Storage.Memtable.{Rec, Memtable, new_memtable}
use shardlands.Storage.Merge.{Source, new_merge, collect, live}
use shardlands.Storage.Wal.{
  Wal, Io, open_wal, append, reset, End, finished, failed_, crashed, no_fuel, replay_loop,
}
use shardlands.Storage.Table
use shardlands.Storage.Table.{Table, Lookup, found, missing, bad, write_table, iter_from}

pub record Options : Type 0 where
  pub memtable_bytes : ℕ
  pub compact_at : ℕ
  pub sync_writes : Bool
  pub bloom_bits_per_key : ℕ

-- withDefaults
unfoldable pub with_defaults : Options → Options
with_defaults o = record o {
  memtable_bytes = if o.memtable_bytes == 0 then 4194304 else o.memtable_bytes;
  compact_at = if o.compact_at == 0 then 4 else o.compact_at;
  bloom_bits_per_key = if o.bloom_bits_per_key == 0 then 10 else o.bloom_bits_per_key;
}

abbrev pub Files : Type 0
Files = List (ℕ × Option Table)

unfoldable pub file_at : ℕ → Files → Option Table
file_at i [] = none
file_at i ((j, t) ∷ fs) = if j == i then t else file_at i fs

unfoldable pub remove_file : ℕ → Files → Files
remove_file i [] = []
remove_file i ((j, t) ∷ fs) = let rest = remove_file i fs in if j == i then rest else (j, t) ∷ rest

-- os.Create: what was there is gone.
abbrev pub write_file : ℕ → Option Table → Files → Files
write_file i t fs = (i, t) ∷ remove_file i fs

-- The loop over the old tables, with the removals that go through.
unfoldable pub remove_all : (ℕ → Bool) → List ℕ → Files → Files
remove_all goes [] fs = fs
remove_all goes (i ∷ is) fs = remove_all goes is (if goes i then remove_file i fs else fs)

pub record Db : Type 0 where
  pub opts : Options
  pub mem : Memtable
  pub wal : Wal
  pub tables : List (ℕ × Table)
  pub next_id : ℕ
  pub closed : Bool
  pub manifest : List ℕ
  pub files : Files

-- The step of a flush or of a compaction that the system does not let through, or before which the
-- process is gone. os.Remove's errors are ignored: `at_removals` says which of a compaction's
-- removals go through, and the rest fail or are not reached. A flush removes nothing, and a
-- compaction resets no log.
pub data Fault : Type 0 where
  no_fault at_table at_open at_manifest at_reset : Fault
  at_removals : (ℕ → Bool) → Fault

abbrev pub ids_of : List (ℕ × Table) → List ℕ
ids_of [] = []
ids_of (t ∷ ts) = t.0 ∷ ids_of ts

abbrev pub reaches : ℤ → ℕ → Bool
reaches (pos a) b = leb b a
reaches (negsuc a) b = false

-- What Get returns: a value, ErrNotFound, or another error.
pub data Got : Type 0 where
  value : Bytes → Got
  absent failed : Got

abbrev pub got_rec : Rec → Got
got_rec r = if r.tomb then absent else value r.val

module _ (crc : Bytes → ℕ) (optimal : ℕ → ℕ) (draws : List ℕ) where
  abbrev pub in_table : Lookup → Got → Got
  in_table (found r) older = got_rec r
  in_table missing older = older
  in_table bad older = failed

  unfoldable pub get_tables : Bytes → List (ℕ × Table) → Got
  get_tables key [] = absent
  get_tables key (t ∷ ts) = in_table (Table.get crc key t.1) (get_tables key ts)

  abbrev pub in_mem : Option Rec → Got → Got
  in_mem (some r) older = got_rec r
  in_mem none older = older

  -- Get
  unfoldable pub get : Bytes → Db → Got
  get key db =
      if db.closed then failed else in_mem (Memtable.get key db.mem) (get_tables key db.tables)

  -- The end of flushLocked, once the log is reset or not.
  abbrev pub on_reset : Bool × Wal → Db → Bool × Db
  on_reset (true, w) db = (true, record db { wal = w; mem = new_memtable draws })
  on_reset (false, w) db = (false, record db { wal = w })

  -- The state once the new table is open.
  abbrev pub with_table : Table → List (ℕ × Table) → Db → Db
  with_table t older db = record db {
    files = write_file db.next_id (some t) db.files;
    next_id = db.next_id + 1;
    tables = (db.next_id, t) ∷ older;
  }

  -- writeManifestLocked
  abbrev pub write_manifest : Db → Db
  write_manifest db = record db { manifest = ids_of db.tables }

  abbrev pub flushed : Fault → Option Table → Db → Bool × Db
  flushed f none db = (false, record db { files = write_file db.next_id none db.files })
  flushed at_table (some t) db = (false, record db { files = write_file db.next_id none db.files })
  flushed at_open (some t) db =
      (false, record db { files = write_file db.next_id (some t) db.files })
  flushed at_manifest (some t) db = (false, with_table t db.tables db)
  flushed at_reset (some t) db =
      on_reset (reset false db.wal) (write_manifest (with_table t db.tables db))
  flushed no_fault (some t) db =
      on_reset (reset true db.wal) (write_manifest (with_table t db.tables db))
  flushed (at_removals goes) (some t) db =
      on_reset (reset true db.wal) (write_manifest (with_table t db.tables db))

  unfoldable pub flush_locked : Fault → Db → Bool × Db
  flush_locked f db =
      if db.mem.n == 0
      then (true, db)
      else flushed f
          (write_table crc optimal db.opts.bloom_bits_per_key (Memtable.iter_from [] db.mem)) db

  unfoldable pub sources : List (ℕ × Table) → List Source
  sources [] = []
  sources (t ∷ ts) =
      let (rs, broken) = Table.iter_from crc [] t.1 in
      record { recs = rs; broken = broken } ∷ sources ts

  unfoldable pub total : List Source → ℕ
  total [] = 0
  total (s ∷ ss) = length s.recs + total ss

  abbrev pub write_live : ℕ → Option (List Rec) → Option Table
  write_live bits none = none
  write_live bits (some rs) = write_table crc optimal bits (live rs)

  -- writeTable of the merged tables; the merge gives at most as many records as its sources have.
  unfoldable pub merged : ℕ → List (ℕ × Table) → Option Table
  merged bits ts = write_live bits (collect (total (sources ts) + 1) (new_merge (sources ts)))

  abbrev pub replaced : (ℕ → Bool) → Db → Db → Bool × Db
  replaced goes old db = (
    true,
    record db { manifest = ids_of db.tables; files = remove_all goes (ids_of old.tables) db.files },
  )

  abbrev pub compacted : Fault → Option Table → Db → Bool × Db
  compacted f none db = (false, record db { files = write_file db.next_id none db.files })
  compacted at_table (some t) db =
      (false, record db { files = write_file db.next_id none db.files })
  compacted at_open (some t) db =
      (false, record db { files = write_file db.next_id (some t) db.files })
  compacted at_manifest (some t) db = (false, with_table t [] db)
  compacted at_reset (some t) db = replaced (λ i. true) db (with_table t [] db)
  compacted no_fault (some t) db = replaced (λ i. true) db (with_table t [] db)
  compacted (at_removals goes) (some t) db = replaced goes db (with_table t [] db)

  unfoldable pub compact_locked : Fault → Db → Bool × Db
  compact_locked f db =
      if ltb (length db.tables) 2
      then (true, db)
      else compacted f (merged db.opts.bloom_bits_per_key db.tables) db

  abbrev pub then_compact : Fault → Bool × Db → Bool × Db
  then_compact g (false, db) = (false, db)
  then_compact g (true, db) =
      if leb db.opts.compact_at (length db.tables) then compact_locked g db else (true, db)

  abbrev pub on_append : Fault → Fault → Rec → Db → Bool × Wal → Bool × Db
  on_append f g r db (false, w) = (false, record db { wal = w })
  on_append f g r db (true, w) =
      let next : Db = record db { wal = w; mem = Memtable.put r db.mem } in
      if reaches next.mem.size db.opts.memtable_bytes
      then then_compact g (flush_locked f next)
      else (true, next)

  -- write; `true` is no error.
  unfoldable pub write : Io → Fault → Fault → Rec → Db → Bool × Db
  write io f g r db =
      if db.closed
      then (false, db)
      else if length r.key == 0
      then (false, db)
      else on_append f g r db (append crc io r db.wal)

  -- Put and Delete
  abbrev pub put : Io → Fault → Fault → Bytes → Bytes → Db → Bool × Db
  put io f g key val db = write io f g (record { key = key; val = val; tomb = false }) db

  abbrev pub delete : Io → Fault → Fault → Bytes → Db → Bool × Db
  delete io f g key db = write io f g (record { key = key; val = []; tomb = true }) db

  -- Flush and Compact
  unfoldable pub flush : Fault → Db → Bool × Db
  flush f db = if db.closed then (false, db) else flush_locked f db

  unfoldable pub compact : Fault → Db → Bool × Db
  compact f db = if db.closed then (false, db) else compact_locked f db
