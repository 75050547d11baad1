-- ===== src/Storage/Wal.antt =====
-- The write-ahead log of pkg/storage/wal.go. A file is its bytes; what an operation on it comes to
-- is an argument. A bufio.Writer that has failed once fails from then on.
pub mod Recovery
pub mod Ends
use shardlands.Prelude.{ℕ, zero, suc, Bool, true, false, List, [], ◌∷◌, ◌++◌, take, if◌then◌else◌}
use shardlands.Storage.Bytes.{Bytes}
use shardlands.Storage.Memtable.{Rec}
use shardlands.Storage.Codec.{
  Decoded, got, eof, torn, corrupt, varint_overflow, panics, encode_rec, decode_rec,
}

pub record Wal : Type 0 where
  pub file : Bytes
  pub failed : Bool
  pub sync : Bool
  pub closed : Bool

-- What the system makes of one append: all is written, only the first bytes of the frame are, or
-- all is written and the Sync after it fails.
pub data Io : Type 0 where
  fine sync_fails : Io
  cut_at : ℕ → Io

-- openWAL on a file that is there, or is created empty.
unfoldable pub open_wal : Bytes → Bool → Wal
open_wal file sync = record { file = file; failed = false; sync = sync; closed = false }

abbrev pub write_frame : Io → Bytes → Wal → Bool × Wal
write_frame fine frame w = (true, record w { file = w.file ++ frame })
write_frame sync_fails frame w =
    (if w.sync then false else true, record w { file = w.file ++ frame })
write_frame (cut_at n) frame w = (false, record w { file = w.file ++ take n frame; failed = true })

module _ (crc : Bytes → ℕ) where
  -- append; `true` is no error.
  unfoldable pub append : Io → Rec → Wal → Bool × Wal
  append io r w = if w.failed then (false, w) else write_frame io (encode_rec crc r) w

-- reset: the file is closed, and opened again and cut to nothing. If that is not possible, it stays
-- closed, and every later write to it fails. `true` is no error.
unfoldable pub reset : Bool → Wal → Bool × Wal
reset opens w =
    if w.closed
    then (false, w)
    else if opens
    then (true, record w { file = []; failed = false })
    else (false, record w { failed = true; closed = true })

-- How replayWAL ends: at the end of the log, with an error, or by a panic.
pub data End : Type 0 where
  finished failed_ crashed no_fuel : End

abbrev pub replayed : Decoded → (Bytes → List Rec × End) → List Rec × End
replayed (got r rest) next = let (rs, e) = next rest in (r ∷ rs, e)
replayed eof next = ([], finished)
replayed torn next = ([], finished)
replayed corrupt next = ([], finished)
replayed varint_overflow next = ([], failed_)
replayed panics next = ([], crashed)

-- The loop of replayWAL: the records that it hands on, and how it ends.
unfoldable pub replay_loop : (Bytes → ℕ) → ℕ → Bytes → List Rec × End
replay_loop crc zero bs = ([], no_fuel)
replay_loop crc (suc fuel) bs = replayed (decode_rec crc bs) (replay_loop crc fuel)
