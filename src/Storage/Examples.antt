-- ===== src/Storage/Examples.antt =====
-- Runs of the storage engine on small inputs, with a checksum that counts bytes.
use shardlands.Storage.Bloom.{bits_for}
use shardlands.Prelude.{
  ℕ, zero, suc, ◌≡◌, ◌≢◌, ◌+◌, ◌<◌, ◌≤◌, ◌%◌, refl, inl, inr, Bool, true, false, List, [], ◌∷◌,
  ◌++◌, Option, none, some, arith, if◌then◌else◌, length, All,
}
use shardlands.Storage.Bytes.{Bytes, less, same}
use shardlands.Storage.Memtable
use shardlands.Storage.Memtable.{Rec, Memtable, new_memtable}
use shardlands.Storage.Memtable.Laws.{new_memtable-IsSkipList, put-IsSkipList, get-put}
use shardlands.Storage.Codec.{
  payload_of, encode_rec, decode_rec, got, groups, le32, of_le32, read_uvarint, read_groups,
}
use shardlands.Storage.Codec.RoundTrip.{IsSmall, decode_rec-encode_rec}
use shardlands.Storage.Merge.{Source, new_merge, collect}
use shardlands.Storage.Merge.Least.{layered, total_length}
use shardlands.Storage.Merge.Newest.{recs_of, merge_newest}
use shardlands.Storage.Records.{find, Ascending}
use shardlands.Storage.Wal.{
  Io, fine, sync_fails, cut_at, open_wal, finished, no_fuel, append, replay_loop,
}
use shardlands.Storage.Wal.Recovery.{append_all, logged_all, AllIo, replay-append_all}
use shardlands.Storage.Wal.Ends.{replay_ends}
use shardlands.Storage.Table.{Table, write_table}
use shardlands.Storage.Table.Scans.{IsTableOf, write_table_lem}
use shardlands.Storage.Db.{
  Options, Db, no_fault, at_reset, at_manifest, get, get_tables, write, Got, absent, value,
  with_defaults,
}
use shardlands.Storage.Db.Opening.{disk_of, Opened, opened, open_db}
use shardlands.Storage.Db.Invariant.{Represents}
use shardlands.Storage.Db.Runs.{Op, write_op, flush_op, compact_op, run, run_spec}
use shardlands.Storage.Db.Refines.{run_closed, run-Represents, AllOp, get-run}
use shardlands.Storage.Db.Scanning.{scan_from, handed}
use shardlands.Storage.Db.Scanning.Covers.{IsScan, scan_from_lem, hand_on}
use shardlands.Storage.Db.Crash.{fresh_db, fresh_db-IsDb}

abbrev count_of : Bytes → ℕ
count_of bs = length bs % 4294967296

count_of_fits : (bs : Bytes) → count_of bs < 4294967296
count_of_fits bs = omega arith

abbrev gold : Rec
gold = record { key = 1 ∷ 2 ∷ []; val = 7 ∷ []; tomb = false }

abbrev silver : Rec
silver = record { key = 3 ∷ []; val = 8 ∷ 9 ∷ []; tomb = false }

abbrev no_gold : Rec
no_gold = record { key = 1 ∷ 2 ∷ []; val = []; tomb = true }

gold-IsSmall : IsSmall gold
gold-IsSmall = unfold payload_of groups in (omega arith)

silver-IsSmall : IsSmall silver
silver-IsSmall = unfold payload_of groups in (omega arith)

no_gold-IsSmall : IsSmall no_gold
no_gold-IsSmall = unfold payload_of groups in (omega arith)

abbrev start : Memtable
start = Memtable.put gold (new_memtable (0 ∷ 2 ∷ []))

get-put_example :
    Memtable.get gold.key (Memtable.put no_gold start)
    ≡ (if same no_gold.key gold.key then some no_gold else Memtable.get gold.key start)
get-put_example =
    get-put gold.key no_gold start
      (put-IsSkipList gold (new_memtable (0 ∷ 2 ∷ [])) (new_memtable-IsSkipList (0 ∷ 2 ∷ [])))

decode_rec-encode_rec_example :
    decode_rec count_of (encode_rec count_of gold ++ (5 ∷ [])) ≡ got gold (5 ∷ [])
decode_rec-encode_rec_example =
    decode_rec-encode_rec count_of gold (5 ∷ []) gold-IsSmall (count_of_fits (payload_of gold))

abbrev newer : List Source
newer =
    record { recs = no_gold ∷ []; broken = false }
    ∷ record { recs = gold ∷ silver ∷ []; broken = false }
    ∷ []

two-Ascending : Ascending (gold ∷ silver ∷ [])
two-Ascending = unfold less in ((refl, tt), (tt, tt))

merge_newest_example :
    (out : List Rec) × (collect 4 (new_merge newer) ≡ some out)
    × Ascending out
    × ((k : Bytes) → find k out ≡ layered k (recs_of newer))
merge_newest_example =
    merge_newest newer 4 (refl, (refl, tt)) ((tt, tt), (two-Ascending, tt))
      (unfold total_length in (omega arith))

abbrev appends : List (Io × Rec)
appends = (fine, gold) ∷ (sync_fails, silver) ∷ (cut_at 3, no_gold) ∷ []

appends-AllIo : AllIo count_of count_of_fits appends
appends-AllIo = (
  gold-IsSmall,
  tt,
  (
    silver-IsSmall,
    tt,
    (no_gold-IsSmall, unfold encode_rec groups le32 payload_of in (omega arith), tt),
  ),
)

replay-append_all_example :
    replay_loop count_of 9 (append_all count_of count_of_fits appends (open_wal [] true)).file
    ≡ (logged_all count_of count_of_fits appends (open_wal [] true) [], finished)
replay-append_all_example =
    replay-append_all count_of count_of_fits appends true 9 appends-AllIo few
  where
    few : length (logged_all count_of count_of_fits appends (open_wal [] true) []) < 9
    few = unfold logged_all append open_wal encode_rec groups le32 payload_of in (omega arith)

abbrev torn_log : Bytes
torn_log = 1 ∷ 0 ∷ 5 ∷ []

replay_ends_example : (replay_loop count_of (length torn_log + 1) torn_log).1 ≢ no_fuel
replay_ends_example = replay_ends count_of torn_log

write_table_example :
    (t : Table) × (write_table count_of (λ bits. 7) 10 (gold ∷ silver ∷ []) ≡ some t)
    × IsTableOf count_of count_of_fits (gold ∷ silver ∷ []) t
write_table_example =
    write_table_lem count_of count_of_fits (λ bits. 7) 10 (gold ∷ silver ∷ [])
      (gold-IsSmall, (silver-IsSmall, tt)) two-Ascending (unfold bits_for in (omega arith))

abbrev small_options : Options
small_options = record {
  memtable_bytes = 20;
  compact_at = 2;
  sync_writes = true;
  bloom_bits_per_key = 10;
}

abbrev first_db : Db
first_db = fresh_db count_of count_of_fits (λ bits. 7) [] small_options

abbrev operations : List Op
operations =
    write_op fine no_fault no_fault gold
    ∷ flush_op at_manifest
    ∷ write_op fine no_fault at_reset no_gold
    ∷ compact_op no_fault
    ∷ write_op (cut_at 3) no_fault no_fault silver
    ∷ []

operations-AllOp : AllOp count_of count_of_fits (λ bits. 7) [] operations
operations-AllOp = (
  (gold-IsSmall, tt),
  (
    tt,
    (
      (no_gold-IsSmall, tt),
      (tt, ((silver-IsSmall, unfold encode_rec groups le32 payload_of in (omega arith)), tt)),
    ),
  ),
)

first_db-Represents : Represents count_of count_of_fits first_db (λ k. absent)
first_db-Represents = ([], fresh_db-IsDb count_of count_of_fits (λ bits. 7) [] small_options)

get-run_example :
    get count_of (λ bits. 7) [] gold.key (run count_of (λ bits. 7) [] operations first_db)
    ≡ run_spec count_of (λ bits. 7) [] operations first_db (λ k. absent) gold.key
get-run_example =
    get-run count_of count_of_fits (λ bits. 7) [] operations first_db (λ k. absent) gold.key
      operations-AllOp first_db-Represents refl

abbrev two_writes : List Op
two_writes = write_op fine no_fault no_fault gold ∷ write_op fine no_fault no_fault silver ∷ []

abbrev later_db : Db
later_db = run count_of (λ bits. 7) [] two_writes first_db

two_writes-AllOp : AllOp count_of count_of_fits (λ bits. 7) [] two_writes
two_writes-AllOp = ((gold-IsSmall, tt), ((silver-IsSmall, tt), tt))

scan_from_example :
    (out : List Rec) × (scan_from count_of (λ bits. 7) [] (2 ∷ []) (λ r. false) later_db
      ≡ handed (hand_on (λ r. false) out) false)
    × IsScan count_of count_of_fits
        (λ bits. 7)
        []
        (2 ∷ [])
        (run_spec count_of (λ bits. 7) [] two_writes first_db (λ k. absent))
        out
scan_from_example =
    scan_from_lem count_of count_of_fits (λ bits. 7) [] (2 ∷ []) (λ r. false) later_db
      (run_spec count_of (λ bits. 7) [] two_writes first_db (λ k. absent))
      (run_closed count_of count_of_fits (λ bits. 7) [] two_writes first_db)
      (run-Represents count_of count_of_fits (λ bits. 7) [] two_writes first_db (λ k. absent)
        two_writes-AllOp first_db-Represents)

-- A log that was cut off is not cut back by Open, so what is appended to it later is not
-- replayed: a write that returned no error, and could be read, is gone after the next crash.
abbrev big_options : Options
big_options = record {
  memtable_bytes = 1000;
  compact_at = 2;
  sync_writes = true;
  bloom_bits_per_key = 10;
}

abbrev db_of : Opened → Db
db_of (opened db) = db
db_of _ = first_db

abbrev open_again : Db → Db
open_again db = db_of (open_db count_of [] big_options (disk_of db))

abbrev torn_db : Db
torn_db =
    (write count_of (λ bits. 7) [] (cut_at 2) no_fault no_fault gold
      (fresh_db count_of count_of_fits (λ bits. 7) [] big_options)).1

abbrev written_after : Bool × Db
written_after = write count_of (λ bits. 7) [] fine no_fault no_fault silver (open_again torn_db)

lost_write :
    (written_after.0 ≡ true)
    × (get count_of (λ bits. 7) [] silver.key written_after.1 ≡ value silver.val)
    × (get count_of (λ bits. 7) [] silver.key (open_again written_after.1) ≡ absent)
unfolding replay_loop decode_rec read_uvarint encode_rec groups le32 payload_of of_le32 read_groups
    write open_db shardlands.Storage.Db.Opening.load_tables append open_wal Memtable.put
    Memtable.seek Memtable.descend Memtable.advance shardlands.Storage.Db.Opening.put_all
    new_memtable shardlands.Prelude.Int.◌+ℤ◌ with_defaults get Memtable.get Memtable.random_height
    less same get_tables shardlands.Storage.Db.Opening.is_live
    shardlands.Storage.Db.Opening.past_all shardlands.Storage.Db.Opening.sweep
lost_write = (refl, refl, refl)
