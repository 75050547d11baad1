-- ===== src/Storage/Wal/Recovery.antt =====
-- Replaying the log of pkg/storage/wal.go gives back what was written to it.
use shardlands.Prelude.{
  ℕ, zero, suc, ◌<◌, ◌≡◌, refl, sym, ap, ◌∙◌, Bool, true, false, List, [], ◌∷◌, ◌++◌, arith,
  if◌then◌else◌, length, take, drop, length-drop, take-append-drop, append_assoc, append_nil, All,
}
use shardlands.Storage.Bytes.{Bytes}
use shardlands.Storage.Memtable.{Rec}
use shardlands.Storage.Codec.{payload_of, encode_rec, decode_rec, read_uvarint}
use shardlands.Storage.Codec.Frames.{bytes_of, bytes_of-append}
use shardlands.Storage.Codec.RoundTrip.{IsSmall, decode_rec-encode_rec, decode_rec-front}
use shardlands.Storage.Wal.{
  Wal, Io, fine, sync_fails, cut_at, open_wal, write_frame, append, finished, replay_loop,
}

module _ (crc : Bytes → ℕ) (crc_fits : (bs : Bytes) → crc bs < 4294967296) where
  -- What a write that was cut off left: a front of a frame, not all of it.
  pub data IsFront : Bytes → Type 0 where
    nothing : IsFront []
    part :
        (r : Rec) (b x : ℕ) (front back : Bytes)
        → IsSmall r
        → encode_rec crc r ≡ (b ∷ front) ++ (x ∷ back)
        → IsFront (b ∷ front)

  replay-front :
      (fuel : ℕ) (front : Bytes) → IsFront front → replay_loop crc (suc fuel) front ≡ ([], finished)
  replay-front fuel front nothing = unfold replay_loop decode_rec read_uvarint in refl
  replay-front fuel front (part r b x f back h e) =
      unfold replay_loop in (rw (decode_rec-front crc r b x f back h e) refl)

  -- A log that was cut off anywhere replays to the records that were written whole, in order.
  pub replay-bytes_of :
      (fuel : ℕ) (rs : List Rec) (front : Bytes)
      → length rs < fuel
      → All IsSmall rs
      → IsFront front
      → replay_loop crc fuel (bytes_of crc rs ++ front) ≡ (rs, finished)
  unfolding replay_loop bytes_of
  replay-bytes_of zero rs front l h f = absurd (omega arith)
  replay-bytes_of (suc fuel) [] front l h f = replay-front fuel front f
  replay-bytes_of (suc fuel) (r ∷ rs) front l h f =
      rw (append_assoc (encode_rec crc r) (bytes_of crc rs) front) (
        rw (decode_rec-encode_rec crc r (bytes_of crc rs ++ front) h.0 (crc_fits (payload_of r)))
          (rw (replay-bytes_of fuel rs front (omega arith) h.1 f) refl))

  bytes_of-snoc :
      (rs : List Rec) (r : Rec)
      → bytes_of crc (rs ++ (r ∷ [])) ≡ bytes_of crc rs ++ encode_rec crc r
  bytes_of-snoc rs r =
      bytes_of-append crc rs (r ∷ [])
      ∙ ap (λ t. bytes_of crc rs ++ t) (unfold bytes_of in (append_nil (encode_rec crc r)))

  -- The log holds the records, and the front of one more if a write was cut off.
  pub record IsLog (rs : List Rec) (w : Wal) : Type 0 where
    pub front : Bytes
    pub shape : w.file ≡ bytes_of crc rs ++ front
    pub cut : IsFront front
    pub clean : w.failed ≡ false → front ≡ []
    pub small : All IsSmall rs

  -- What the system may make of an append: a cut leaves some of the frame out.
  abbrev pub IsIo : Io → Rec → Type 0
  IsIo fine r = Unit
  IsIo sync_fails r = Unit
  IsIo (cut_at n) r = n < length (encode_rec crc r)

  -- The records of the log after an append.
  abbrev pub logged : Io → Rec → Bool → List Rec → List Rec
  logged io r true rs = rs
  logged (cut_at n) r false rs = rs
  logged fine r false rs = rs ++ (r ∷ [])
  logged sync_fails r false rs = rs ++ (r ∷ [])

  All-append : (rs : List Rec) (r : Rec) → All IsSmall rs → IsSmall r → All IsSmall (rs ++ (r ∷ []))
  All-append [] r h s = (s, tt)
  All-append (x ∷ rs) r h s = (h.0, All-append rs r h.1 s)

  whole_frame :
      (rs : List Rec) (r : Rec) (w : Wal)
      → IsSmall r
      → w.failed ≡ false
      → IsLog rs w
      → IsLog (rs ++ (r ∷ [])) (record w { file = w.file ++ encode_rec crc r })
  whole_frame rs r w s ok_ i = record {
    front = [];
    shape =
        ap (λ t. t ++ encode_rec crc r)
          (i.shape ∙ ap (λ t. bytes_of crc rs ++ t) (i.clean ok_) ∙ append_nil (bytes_of crc rs))
        ∙ sym (bytes_of-snoc rs r)
        ∙ sym (append_nil (bytes_of crc (rs ++ (r ∷ []))));
    cut = nothing;
    clean = λ e. refl;
    small = All-append rs r i.small s;
  }

  IsFront-take :
      (r : Rec) (n : ℕ)
      → IsSmall r
      → n < length (encode_rec crc r)
      → IsFront (take n (encode_rec crc r))
  IsFront-take r n s l =
      from (take n (encode_rec crc r)) (drop n (encode_rec crc r))
        (sym (take-append-drop n (encode_rec crc r)))
        (omega (arith, length-drop {0} n (encode_rec crc r)))
    where
      from : (f d : Bytes) → encode_rec crc r ≡ f ++ d → 0 < length d → IsFront f
      from f [] e p = absurd (omega arith)
      from [] (x ∷ d) e p = nothing
      from (b ∷ f) (x ∷ d) e p = part r b x f d s e

  pub append-IsLog :
      (io : Io) (r : Rec) (rs : List Rec) (w : Wal)
      → IsSmall r
      → IsIo io r
      → IsLog rs w
      → IsLog (logged io r w.failed rs) (append crc io r w).1
  unfolding append
  append-IsLog io r rs w s p i = by_failed w.failed refl
    where
      by_io :
          (io : Io)
          → w.failed ≡ false
          → IsIo io r
          → IsLog (logged io r false rs) (write_frame io (encode_rec crc r) w).1
      by_io fine e p = whole_frame rs r w s e i
      by_io sync_fails e p = whole_frame rs r w s e i
      by_io (cut_at n) e p = record {
        front = take n (encode_rec crc r);
        shape =
            ap (λ t. t ++ take n (encode_rec crc r))
              (i.shape ∙ ap (λ t. bytes_of crc rs ++ t) (i.clean e) ∙ append_nil (bytes_of crc rs));
        cut = IsFront-take r n s p;
        clean = λ q. cc;
        small = i.small;
      }

      kept : (io : Io) → IsLog (logged io r true rs) w
      kept fine = i
      kept sync_fails = i
      kept (cut_at n) = i

      by_failed :
          (b : Bool)
          → w.failed ≡ b
          → IsLog
              (logged io r b rs)
              (if b then (false, w) else write_frame io (encode_rec crc r) w).1
      by_failed true e = kept io
      by_failed false e = by_io io e p

  -- Appends one after another, each with what the system makes of it, and the records that stand
  -- in the log after them.
  unfoldable pub append_all : List (Io × Rec) → Wal → Wal
  append_all [] w = w
  append_all ((io, r) ∷ rest) w = append_all rest (append crc io r w).1

  unfoldable pub logged_all : List (Io × Rec) → Wal → List Rec → List Rec
  logged_all [] w rs = rs
  logged_all ((io, r) ∷ rest) w rs = logged_all rest (append crc io r w).1 (logged io r w.failed rs)

  abbrev pub AllIo : List (Io × Rec) → Type 0
  AllIo [] = Unit
  AllIo ((io, r) ∷ rest) = IsSmall r × IsIo io r × AllIo rest

  append_all-IsLog :
      (ops : List (Io × Rec)) (rs : List Rec) (w : Wal)
      → AllIo ops
      → IsLog rs w
      → IsLog (logged_all ops w rs) (append_all ops w)
  unfolding append_all logged_all
  append_all-IsLog [] rs w a i = i
  append_all-IsLog ((io, r) ∷ rest) rs w (s, p, a) i =
      append_all-IsLog rest (logged io r w.failed rs) (append crc io r w).1 a
        (append-IsLog io r rs w s p i)

  pub replay-IsLog :
      (rs : List Rec) (w : Wal) (fuel : ℕ)
      → IsLog rs w
      → length rs < fuel
      → replay_loop crc fuel w.file ≡ (rs, finished)
  replay-IsLog rs w fuel i l =
      ap (replay_loop crc fuel) i.shape ∙ replay-bytes_of fuel rs i.front l i.small i.cut

  -- Whatever the system makes of the appends to a new log, with writes that fail half way and
  -- syncs that fail, a replay of the file ends without an error and gives the records whose
  -- frames were written whole, in order. Every record has a payload of at most maxRecBytes, the
  -- limit of the reader; a larger one would end the replay.
  pub replay-append_all :
      (ops : List (Io × Rec)) (sync : Bool) (fuel : ℕ)
      → AllIo ops
      → length (logged_all ops (open_wal [] sync) []) < fuel
      → replay_loop crc fuel (append_all ops (open_wal [] sync)).file
        ≡ (logged_all ops (open_wal [] sync) [], finished)
  replay-append_all ops sync fuel a l =
      replay-IsLog (logged_all ops (open_wal [] sync) []) (append_all ops (open_wal [] sync)) fuel
        (append_all-IsLog ops [] (open_wal [] sync) a (empty_log sync)) l
    where
      empty_log : (sync : Bool) → IsLog [] (open_wal [] sync)
      empty_log sync =
          unfold open_wal bytes_of in
          (record { front = []; shape = refl; cut = nothing; clean = λ e. refl; small = tt })
