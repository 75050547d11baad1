-- ===== src/Storage/Db/Writes.antt =====
-- What a write of pkg/storage/db.go does to the log and to the memtable.
use shardlands.Prelude.{
  ℕ, ◌≡◌, ◌<◌, ◌⊎◌, refl, sym, ap, subst, ◌∙◌, inl, inr, Bool, true, false, List, [], ◌∷◌, ◌++◌,
  Option, if◌then◌else◌, Bool-cases, length, All,
}
use shardlands.Storage.Bytes.{Bytes, less, same, same_eq}
use shardlands.Storage.Memtable
use shardlands.Storage.Memtable.{Rec, Memtable, items}
use shardlands.Storage.Memtable.Search.{items-put}
use shardlands.Storage.Memtable.Laws.{put-IsSkipList}
use shardlands.Storage.Records.{find, put_sorted, find-put_sorted}
use shardlands.Storage.Merge.Least.{or_else, layered}
use shardlands.Storage.Codec.{encode_rec}
use shardlands.Storage.Codec.RoundTrip.{IsSmall}
use shardlands.Storage.Wal.{Wal, Io, fine, sync_fails, cut_at, write_frame, append}
use shardlands.Storage.Wal.Recovery.{IsLog, IsIo, logged, append-IsLog}
use shardlands.Storage.Db.{Db, Got, got_rec}
use shardlands.Storage.Db.View.{got_of}
use shardlands.Storage.Db.Invariant.{sorted_from, IsDb}

-- The map after a write.
abbrev pub updated : Rec → (Bytes → Got) → Bytes → Got
updated r c k = if same r.key k then got_rec r else c k

put_sorted-All :
    (r : Rec) (xs : List Rec) → IsSmall r → All IsSmall xs → All IsSmall (put_sorted r xs)
unfolding put_sorted
put_sorted-All r [] s h = (s, tt)
put_sorted-All r (x ∷ xs) s h = elim (Bool-cases (less x.key r.key)) [
  | inl low ↦ rw low (h.0, put_sorted-All r xs s h.1)
  | inr high ↦ elim (Bool-cases (same x.key r.key)) [
    | inl eq ↦
        let new : ◌≡◌ {A = Rec} r (record x { val = r.val; tomb = r.tomb }) =
          ap (λ key. record r { key = key }) (sym (same_eq x.key r.key eq)) in
        rw (high, eq) (subst IsSmall new s, h.1)
    | inr apart ↦ rw (high, apart) (s, h)
  ]
]

sorted_from-snoc :
    (xs rs : List Rec) (r : Rec)
    → sorted_from xs (rs ++ (r ∷ [])) ≡ put_sorted r (sorted_from xs rs)
unfolding sorted_from
sorted_from-snoc xs [] r = refl
sorted_from-snoc xs (x ∷ rs) r = sorted_from-snoc (put_sorted x xs) rs r

module _ (crc : Bytes → ℕ) (crc_fits : (bs : Bytes) → crc bs < 4294967296) where
  -- A write to the log that goes through, or is cut off.
  abbrev pub IsWhole : Io → Rec → Type 0
  IsWhole fine r = Unit
  IsWhole sync_fails r = ⊥
  IsWhole (cut_at n) r = n < length (encode_rec crc r)

  -- An append that fails leaves the records of the log, and one that does not adds its own.
  pub append_lem :
      (io : Io) (r : Rec) (rs : List Rec) (w : Wal)
      → IsSmall r
      → IsWhole io r
      → IsLog crc crc_fits rs w
      → ((append crc io r w).0 ≡ false) × IsLog crc crc_fits rs (append crc io r w).1
        ⊎ ((append crc io r w).0 ≡ true) × IsLog crc crc_fits (rs ++ (r ∷ [])) (append crc io r w).1
  append_lem io r rs w s p i = by_failed w.failed refl io p
    where
      flag :
          (b : Bool)
          → w.failed ≡ b
          → (io : Io)
          → (append crc io r w).0 ≡ (if b then false else (write_frame io (encode_rec crc r) w).0)
      flag b e io =
          unfold append in
          (ap (λ b. (if b then (false, w) else write_frame io (encode_rec crc r) w).0) e ∙ by b)
        where
          by :
              (b : Bool)
              → (if b then (false, w) else write_frame io (encode_rec crc r) w).0
                ≡ (if b then false else (write_frame io (encode_rec crc r) w).0)
          by true = refl
          by false = refl

      at :
          (io : Io)
          → IsIo crc crc_fits io r
          → (b : Bool) → w.failed ≡ b
          → IsLog crc crc_fits (logged crc crc_fits io r b rs) (append crc io r w).1
      at io q b e =
          subst (λ b. IsLog crc crc_fits (logged crc crc_fits io r b rs) (append crc io r w).1) e
            (append-IsLog crc crc_fits io r rs w s q i)

      by_failed :
          (b : Bool)
          → w.failed ≡ b
          → (io : Io) → IsWhole io r
          → ((append crc io r w).0 ≡ false) × IsLog crc crc_fits rs (append crc io r w).1
            ⊎ ((append crc io r w).0 ≡ true)
              × IsLog crc crc_fits (rs ++ (r ∷ [])) (append crc io r w).1
      by_failed true e fine p = inl (flag true e fine, at fine tt true e)
      by_failed false e fine p = inr (flag false e fine, at fine tt false e)
      by_failed b e sync_fails p = absurd p
      by_failed true e (cut_at n) p = inl (flag true e (cut_at n), at (cut_at n) p true e)
      by_failed false e (cut_at n) p = inl (flag false e (cut_at n), at (cut_at n) p false e)

  pub put_lem :
      (r : Rec) (w : Wal) (db : Db) (ls : List (List Rec)) (c : Bytes → Got)
      → IsSmall r
      → (i : IsDb crc crc_fits db ls c) → IsLog crc crc_fits (i.logged.recs ++ (r ∷ [])) w
      → IsDb crc crc_fits (record db { wal = w; mem = Memtable.put r db.mem }) ls (updated r c)
  put_lem r w db ls c s i l = record {
    live = record {
      skips = put-IsSkipList r db.mem i.live.skips;
      small =
          subst (All IsSmall) (sym same_items)
            (put_sorted-All r (items db.mem.nodes) s i.live.small);
      are_tables = i.live.are_tables;
      shows = λ k. now k (layered k ls) (i.live.shows k);
    };
    kept = i.kept;
    stored = record {
      tables = i.stored.tables;
      recs = i.stored.recs;
      are_tables = i.stored.are_tables;
      loads = i.stored.loads;
      fresh = i.stored.fresh;
      shows = λ k. now k (layered k i.stored.recs) (i.stored.shows k);
    };
    logged = record {
      recs = i.logged.recs ++ (r ∷ []);
      log = l;
      replays =
          same_items
          ∙ ap (put_sorted r) i.logged.replays
          ∙ sym (sorted_from-snoc [] i.logged.recs r);
    };
  }
    where
      same_items : items (Memtable.put r db.mem).nodes ≡ put_sorted r (items db.mem.nodes)
      same_items = items-put r db.mem i.live.skips

      now :
          (k : Bytes) (older : Option Rec)
          → got_of (or_else (find k (items db.mem.nodes)) older) ≡ c k
          → got_of (or_else (find k (items (Memtable.put r db.mem).nodes)) older) ≡ updated r c k
      now k older h =
          ap (λ o. got_of (or_else o older))
            (ap (find k) same_items ∙ find-put_sorted k r (items db.mem.nodes))
          ∙ elim (Bool-cases (same r.key k)) [ inl here ↦ rw here refl | inr apart ↦ rw apart h ]

  pub with_wal :
      (w : Wal) (db : Db) (ls : List (List Rec)) (c : Bytes → Got)
      → (i : IsDb crc crc_fits db ls c) → IsLog crc crc_fits i.logged.recs w
      → IsDb crc crc_fits (record db { wal = w }) ls c
  with_wal w db ls c i l = record {
    live = i.live;
    kept = i.kept;
    stored = i.stored;
    logged = record { recs = i.logged.recs; log = l; replays = i.logged.replays };
  }
