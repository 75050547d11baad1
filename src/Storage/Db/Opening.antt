-- ===== src/Storage/Db/Opening.antt =====
-- Open and Close of pkg/storage/db.go. A table's file opens if it is whole.
use shardlands.Prelude.{
  ℕ, ◌+◌, Bool, true, false, ◌||◌, List, [], ◌∷◌, Option, none, some, leb, ◌==◌, if◌then◌else◌,
  length,
}
use shardlands.Storage.Bytes.{Bytes}
use shardlands.Storage.Memtable
use shardlands.Storage.Memtable.{Rec, Memtable, new_memtable}
use shardlands.Storage.Wal.{open_wal, End, finished, failed_, crashed, no_fuel, replay_loop}
use shardlands.Storage.Table.{Table}
use shardlands.Storage.Db.{Options, with_defaults, Files, file_at, Db, Fault, flush_locked}

-- What is on the disk when the process is gone.
pub record Disk : Type 0 where
  pub manifest : List ℕ
  pub files : Files
  pub log : Bytes

abbrev pub disk_of : Db → Disk
disk_of db = record { manifest = db.manifest; files = db.files; log = db.wal.file }

abbrev pub with_first : ℕ → Option Table → Option (List (ℕ × Table)) → Option (List (ℕ × Table))
with_first i none ts = none
with_first i (some t) none = none
with_first i (some t) (some ts) = some ((i, t) ∷ ts)

-- The tables that the manifest names; `none` is the error of a table that does not open.
unfoldable pub load_tables : List ℕ → Files → Option (List (ℕ × Table))
load_tables [] fs = some []
load_tables (i ∷ is) fs = with_first i (file_at i fs) (load_tables is fs)

unfoldable pub is_live : ℕ → List ℕ → Bool
is_live i [] = false
is_live i (j ∷ js) = (j == i) || is_live i js

-- nextID after a table's number was seen
abbrev pub past : ℕ → ℕ → ℕ
past id next = if leb next id then id + 1 else next

unfoldable pub past_all : List ℕ → ℕ → ℕ
past_all [] next = next
past_all (i ∷ is) next = past_all is (past i next)

-- The loop over the directory: the files that the manifest does not name are removed, and their
-- numbers are not used again.
unfoldable pub sweep : List ℕ → Files → ℕ → Files × ℕ
sweep live [] next = ([], next)
sweep live ((i, t) ∷ fs) next =
    let here = is_live i live in
    let (kept, last) = sweep live fs (if here then next else past i next) in
    (if here then (i, t) ∷ kept else kept, last)

unfoldable pub put_all : List Rec → Memtable → Memtable
put_all [] m = m
put_all (r ∷ rs) m = put_all rs (Memtable.put r m)

-- What Open comes to.
pub data Opened : Type 0 where
  opened : Db → Opened
  refused panicked : Opened

module _ (crc : Bytes → ℕ) (draws : List ℕ) where
  abbrev pub on_replay : Options → Disk → List (ℕ × Table) → Files × ℕ → List Rec × End → Opened
  on_replay opts d ts (files, next) (rs, finished) = opened (record {
    opts = opts;
    mem = put_all rs (new_memtable draws);
    wal = open_wal d.log opts.sync_writes;
    tables = ts;
    next_id = next;
    closed = false;
    manifest = d.manifest;
    files = files;
  })
  on_replay opts d ts swept (rs, failed_) = refused
  on_replay opts d ts swept (rs, crashed) = panicked
  on_replay opts d ts swept (rs, no_fuel) = refused

  abbrev pub on_tables : Options → Disk → Option (List (ℕ × Table)) → Opened
  on_tables opts d none = refused
  on_tables opts d (some ts) =
      on_replay opts d ts (sweep d.manifest d.files (past_all d.manifest 1))
        (replay_loop crc (length d.log + 1) d.log)

  -- Open; a directory that is not there is an empty disk.
  unfoldable pub open_db : Options → Disk → Opened
  open_db opts d = on_tables (with_defaults opts) d (load_tables d.manifest d.files)

  -- Close
  unfoldable pub close : (ℕ → ℕ) → Fault → Db → Bool × Db
  close optimal f db =
      if db.closed
      then (true, db)
      else flush_locked crc optimal draws f (record db { closed = true })

abbrev pub empty_disk : Disk
empty_disk = record { manifest = []; files = []; log = [] }
