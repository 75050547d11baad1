-- ===== src/Storage/Db/Refines.antt =====
-- The engine of pkg/storage/db.go refines a map of keys.
use shardlands.Prelude.{
  ℕ, ◌≡◌, ◌<◌, ◌⊎◌, refl, ◌==◌, ◌∙◌, inl, inr, Bool, true, false, List, [], ◌∷◌, ◌++◌, leb,
  if◌then◌else◌, length,
}
use shardlands.Storage.Bytes.{Bytes}
use shardlands.Storage.Memtable
use shardlands.Storage.Memtable.{Rec}
use shardlands.Storage.Codec.RoundTrip.{IsSmall}
use shardlands.Storage.Wal.{Wal, Io, append}
use shardlands.Storage.Wal.Recovery.{IsLog}
use shardlands.Storage.Db.{
  Db, Fault, Got, reaches, get, flush_locked, compact_locked, then_compact, on_append, write, flush,
  compact,
}
use shardlands.Storage.Db.View.{get_lem}
use shardlands.Storage.Db.Invariant.{IsDb, Represents}
use shardlands.Storage.Db.Background.{flush_locked-Represents, compact_locked-Represents}
use shardlands.Storage.Db.Writes.{updated, IsWhole, append_lem, put_lem, with_wal}
use shardlands.Storage.Db.Runs.{
  accepted, map_after, Op, write_op, flush_op, compact_op, step, run, run_spec, spec_step,
  step_closed,
}

-- Either branch will do.
if_both : {A : Type 0} (P : A → Type 0) (b : Bool) (x y : A) → P x → P y → P (if b then x else y)
if_both P true x y p q = p
if_both P false x y p q = q

module _ (crc : Bytes → ℕ) (crc_fits : (bs : Bytes) → crc bs < 4294967296) (optimal : ℕ → ℕ)
    (draws : List ℕ) where
  abbrev RepresentsAfter : (Bytes → Got) → Bool × Db → Type 0
  RepresentsAfter c p = Represents crc crc_fits p.1 c

  then_compact-Represents :
      (g : Fault) (c : Bytes → Got) (p : Bool × Db)
      → RepresentsAfter c p
      → RepresentsAfter c (then_compact crc optimal draws g p)
  then_compact-Represents g c (false, db) h = h
  then_compact-Represents g c (true, db) h =
      if_both (RepresentsAfter c) (leb db.opts.compact_at (length db.tables))
        (compact_locked crc optimal draws g db) (true, db)
        (compact_locked-Represents crc crc_fits optimal draws g db c h) h

  on_append-Represents :
      (f g : Fault) (r : Rec) (db : Db) (ls : List (List Rec)) (c : Bytes → Got) (p : Bool × Wal)
      → IsSmall r
      → (i : IsDb crc crc_fits db ls c)
      → (p.0 ≡ false) × IsLog crc crc_fits i.logged.recs p.1
        ⊎ (p.0 ≡ true) × IsLog crc crc_fits (i.logged.recs ++ (r ∷ [])) p.1
      → RepresentsAfter
          (map_after crc optimal draws p.0 r c)
          (on_append crc optimal draws f g r db p)
  on_append-Represents f g r db ls c (true, w) s i (inl (e, l)) = absurd cc
  on_append-Represents f g r db ls c (false, w) s i (inl (e, l)) =
      (ls, with_wal crc crc_fits w db ls c i l)
  on_append-Represents f g r db ls c (false, w) s i (inr (e, l)) = absurd cc
  on_append-Represents f g r db ls c (true, w) s i (inr (e, l)) =
      let next : Db = record db { wal = w; mem = Memtable.put r db.mem } in
      let put_ : Represents crc crc_fits next (updated r c) =
        (ls, put_lem crc crc_fits r w db ls c s i l) in
      if_both (RepresentsAfter (updated r c)) (reaches next.mem.size db.opts.memtable_bytes)
        (then_compact crc optimal draws g (flush_locked crc optimal draws f next)) (true, next)
        (then_compact-Represents g (updated r c) (flush_locked crc optimal draws f next)
          (flush_locked-Represents crc crc_fits optimal draws f next (updated r c) put_))
        put_

  write-Represents :
      (io : Io) (f g : Fault) (r : Rec) (db : Db) (c : Bytes → Got)
      → IsSmall r
      → IsWhole crc crc_fits io r
      → Represents crc crc_fits db c
      → RepresentsAfter
          (map_after crc optimal draws (accepted crc optimal draws io r db) r c)
          (write crc optimal draws io f g r db)
  unfolding write accepted
  write-Represents io f g r db c s p (ls, i) =
      guarded db.closed _ _ (ls, i)
        (guarded (length r.key == 0) _ _ (ls, i)
          (on_append-Represents f g r db ls c (append crc io r db.wal) s i
            (append_lem crc crc_fits io r i.logged.recs db.wal s p i.logged.log)))
    where
      guarded :
          (b a : Bool) (x : Bool × Db)
          → Represents crc crc_fits db c
          → RepresentsAfter (map_after crc optimal draws a r c) x
          → RepresentsAfter
              (map_after crc optimal draws (if b then false else a) r c)
              (if b then (false, db) else x)
      guarded true a x h k = h
      guarded false a x h k = k

  -- What an operation needs: the payload of a record is not above the limit of the reader, and a
  -- write to the log goes through or is cut off.
  abbrev pub IsOp : Op → Type 0
  IsOp (write_op io f g r) = IsSmall r × IsWhole crc crc_fits io r
  IsOp (flush_op f) = Unit
  IsOp (compact_op f) = Unit

  abbrev pub AllOp : List Op → Type 0
  AllOp [] = Unit
  AllOp (o ∷ os) = IsOp o × AllOp os

  step-Represents :
      (o : Op) (db : Db) (c : Bytes → Got)
      → IsOp o
      → Represents crc crc_fits db c
      → Represents crc crc_fits (step crc optimal draws o db) (spec_step crc optimal draws o db c)
  step-Represents (write_op io f g r) db c h i = write-Represents io f g r db c h.0 h.1 i
  step-Represents (flush_op f) db c h i =
      unfold flush in
      (if_both (RepresentsAfter c) db.closed (false, db) (flush_locked crc optimal draws f db) i
        (flush_locked-Represents crc crc_fits optimal draws f db c i))
  step-Represents (compact_op f) db c h i =
      unfold compact in
      (if_both (RepresentsAfter c) db.closed (false, db) (compact_locked crc optimal draws f db) i
        (compact_locked-Represents crc crc_fits optimal draws f db c i))

  pub run-Represents :
      (os : List Op) (db : Db) (c : Bytes → Got)
      → AllOp os
      → Represents crc crc_fits db c
      → Represents crc crc_fits (run crc optimal draws os db) (run_spec crc optimal draws os db c)
  unfolding run run_spec
  run-Represents [] db c h i = i
  run-Represents (o ∷ os) db c h i =
      run-Represents os (step crc optimal draws o db) (spec_step crc optimal draws o db c) h.1
        (step-Represents o db c h.0 i)

  pub run_closed : (os : List Op) (db : Db) → (run crc optimal draws os db).closed ≡ db.closed
  unfolding run
  run_closed [] db = refl
  run_closed (o ∷ os) db =
      run_closed os (step crc optimal draws o db) ∙ step_closed crc optimal draws o db

  -- After any run of writes, deletes, flushes and compactions, with any of their steps failing,
  -- Get returns of an open engine what the map says that is changed by the logged writes alone.
  -- The run starts from a state that stands for a map, its records are within the reader's limit,
  -- and no sync of the log fails.
  pub get-run :
      (os : List Op) (db : Db) (c : Bytes → Got) (k : Bytes)
      → AllOp os
      → Represents crc crc_fits db c
      → db.closed ≡ false
      → get crc optimal draws k (run crc optimal draws os db) ≡ run_spec crc optimal draws os db c k
  get-run os db c k h i e =
      let (ls, after) = run-Represents os db c h i in
      get_lem crc crc_fits optimal draws k (run crc optimal draws os db) ls (run_closed os db ∙ e)
        after.live.skips after.live.are_tables
      ∙ after.live.shows k
