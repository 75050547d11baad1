-- ===== src/Storage/Db/Runs.antt =====
-- Runs of the operations of pkg/storage/db.go refine a map of keys.
use shardlands.Prelude.{
  ℕ, ◌≡◌, refl, ◌==◌, ◌∙◌, Bool, true, false, List, [], ◌∷◌, Option, none, some, leb, if◌then◌else◌,
  length,
}
use shardlands.Storage.Bytes.{Bytes}
use shardlands.Storage.Memtable
use shardlands.Storage.Memtable.{Rec}
use shardlands.Storage.Table.{Table}
use shardlands.Storage.Wal.{Wal, Io, append, reset}
use shardlands.Storage.Db.{
  Db, Fault, no_fault, at_table, at_open, at_manifest, at_reset, at_removals, Got, on_reset,
  with_table, write_manifest, flushed, flush_locked, compacted, compact_locked, then_compact,
  on_append, write, flush, compact,
}
use shardlands.Storage.Db.Writes.{updated}

-- An operation, with what the system makes of it.
pub data Op : Type 0 where
  write_op : Io → Fault → Fault → Rec → Op
  flush_op compact_op : Fault → Op

module _ (crc : Bytes → ℕ) (optimal : ℕ → ℕ) (draws : List ℕ) where
  -- Whether a write is logged, and so seen from then on.
  unfoldable pub accepted : Io → Rec → Db → Bool
  accepted io r db =
      if db.closed then false else if length r.key == 0 then false else (append crc io r db.wal).0

  abbrev pub map_after : Bool → Rec → (Bytes → Got) → Bytes → Got
  map_after true r c = updated r c
  map_after false r c = c

  abbrev pub step : Op → Db → Db
  step (write_op io f g r) db = (write crc optimal draws io f g r db).1
  step (flush_op f) db = (flush crc optimal draws f db).1
  step (compact_op f) db = (compact crc optimal draws f db).1

  unfoldable pub run : List Op → Db → Db
  run [] db = db
  run (o ∷ os) db = run os (step o db)

  -- The specification: a map, which only a write that is logged changes.
  abbrev pub spec_step : Op → Db → (Bytes → Got) → Bytes → Got
  spec_step (write_op io f g r) db c = map_after (accepted io r db) r c
  spec_step (flush_op f) db c = c
  spec_step (compact_op f) db c = c

  unfoldable pub run_spec : List Op → Db → (Bytes → Got) → Bytes → Got
  run_spec [] db c = c
  run_spec (o ∷ os) db c = run_spec os (step o db) (spec_step o db c)

  -- Which operations stay open.
  if_closed :
      (b : Bool) (x y : Bool × Db) (v : Bool)
      → x.1.closed ≡ v
      → y.1.closed ≡ v
      → (if b then x else y).1.closed ≡ v
  if_closed true x y v p q = p
  if_closed false x y v p q = q

  on_reset_closed :
      (p : Bool × Wal) (db : Db) → (on_reset crc optimal draws p db).1.closed ≡ db.closed
  on_reset_closed (true, w) db = refl
  on_reset_closed (false, w) db = refl

  flushed_closed :
      (f : Fault) (o : Option Table) (db : Db)
      → (flushed crc optimal draws f o db).1.closed ≡ db.closed
  flushed_closed f none db = refl
  flushed_closed at_table (some t) db = refl
  flushed_closed at_open (some t) db = refl
  flushed_closed at_manifest (some t) db = refl
  flushed_closed at_reset (some t) db =
      on_reset_closed (reset false db.wal)
        (write_manifest crc optimal draws (with_table crc optimal draws t db.tables db))
  flushed_closed no_fault (some t) db =
      on_reset_closed (reset true db.wal)
        (write_manifest crc optimal draws (with_table crc optimal draws t db.tables db))
  flushed_closed (at_removals goes) (some t) db =
      on_reset_closed (reset true db.wal)
        (write_manifest crc optimal draws (with_table crc optimal draws t db.tables db))

  flush_locked_closed :
      (f : Fault) (db : Db) → (flush_locked crc optimal draws f db).1.closed ≡ db.closed
  unfolding flush_locked
  flush_locked_closed f db =
      if_closed (db.mem.n == 0) (true, db) (flushed crc optimal draws f _ db) db.closed refl
        (flushed_closed f _ db)

  compacted_closed :
      (f : Fault) (o : Option Table) (db : Db)
      → (compacted crc optimal draws f o db).1.closed ≡ db.closed
  compacted_closed f none db = refl
  compacted_closed at_table (some t) db = refl
  compacted_closed at_open (some t) db = refl
  compacted_closed at_manifest (some t) db = refl
  compacted_closed at_reset (some t) db = refl
  compacted_closed no_fault (some t) db = refl
  compacted_closed (at_removals goes) (some t) db = refl

  compact_locked_closed :
      (f : Fault) (db : Db) → (compact_locked crc optimal draws f db).1.closed ≡ db.closed
  unfolding compact_locked
  compact_locked_closed f db =
      if_closed _ (true, db) (compacted crc optimal draws f _ db) db.closed refl
        (compacted_closed f _ db)

  then_compact_closed :
      (g : Fault) (p : Bool × Db) → (then_compact crc optimal draws g p).1.closed ≡ p.1.closed
  then_compact_closed g (false, db) = refl
  then_compact_closed g (true, db) =
      if_closed (leb db.opts.compact_at (length db.tables)) (compact_locked crc optimal draws g db)
        (true, db) db.closed (compact_locked_closed g db) refl

  on_append_closed :
      (f g : Fault) (r : Rec) (db : Db) (p : Bool × Wal)
      → (on_append crc optimal draws f g r db p).1.closed ≡ db.closed
  on_append_closed f g r db (false, w) = refl
  on_append_closed f g r db (true, w) =
      let next : Db = record db { wal = w; mem = Memtable.put r db.mem } in
      if_closed _ (then_compact crc optimal draws g (flush_locked crc optimal draws f next))
        (true, next) db.closed
        (then_compact_closed g (flush_locked crc optimal draws f next) ∙ flush_locked_closed f next)
        refl

  pub step_closed : (o : Op) (db : Db) → (step o db).closed ≡ db.closed
  step_closed (write_op io f g r) db =
      unfold write in
      (if_closed db.closed (false, db) _ db.closed refl
        (if_closed (length r.key == 0) (false, db) _ db.closed refl
          (on_append_closed f g r db (append crc io r db.wal))))
  step_closed (flush_op f) db =
      unfold flush in (if_closed db.closed (false, db) _ db.closed refl (flush_locked_closed f db))
  step_closed (compact_op f) db =
      unfold compact in
      (if_closed db.closed (false, db) _ db.closed refl (compact_locked_closed f db))
