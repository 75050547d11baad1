-- ===== src/Storage/Wal/Ends.antt =====
-- replayWAL of pkg/storage/wal.go ends on every file, whatever bytes it holds.
use shardlands.Prelude.{
  ℕ, zero, suc, ◌+◌, ◌-◌, ◌*◌, ◌≤◌, ◌<◌, ◌≡◌, ◌≢◌, refl, ap, [], ◌∷◌, arith, length, take, drop,
  length-drop,
}
use shardlands.Storage.Bytes.{Bytes}
use shardlands.Storage.Memtable.{Rec}
use shardlands.Storage.Codec.{
  Read, number, ended, short, overflow, read_groups, read_uvarint, Decoded, got, eof, torn, corrupt,
  varint_overflow, panics, rec_of, on_klen, on_frame, on_plen, decode_rec,
}
use shardlands.Storage.Wal.{no_fuel, replayed, replay_loop}

read_groups_takes :
    (left acc scale : ℕ) (bs : Bytes) (v : ℕ) (rest : Bytes)
    → read_groups left acc scale bs ≡ number v rest
    → length rest < length bs
unfolding read_groups
read_groups_takes zero acc scale bs v rest e = cc
read_groups_takes (suc left) acc scale [] v rest e = cc
read_groups_takes (suc left) acc scale (b ∷ bs) v rest e =
    ground (arith, read_groups_takes left (acc + (b - 128) * scale) (scale * 128) bs v rest)

rec_of_rest :
    (key bs rest : Bytes) (r : Rec) (out : Bytes)
    → rec_of key bs rest ≡ got r out
    → length out ≡ length rest
rec_of_rest key [] rest r out e = cc
rec_of_rest key (f ∷ val) rest r out e = let q : out ≡ rest = cc in ap length q

on_klen_rest :
    (payload rest : Bytes) (k : Read) (r : Rec) (out : Bytes)
    → on_klen payload rest k ≡ got r out
    → length out ≡ length rest
on_klen_rest payload rest (number klen after) r out e =
    ground (arith, rec_of_rest (take klen after) (drop klen after) rest r out)
on_klen_rest payload rest ended r out e = cc
on_klen_rest payload rest short r out e = cc
on_klen_rest payload rest overflow r out e = cc

module _ (crc : Bytes → ℕ) where
  on_frame_takes :
      (plen : ℕ) (bs : Bytes) (r : Rec) (out : Bytes)
      → on_frame crc plen bs ≡ got r out
      → length out ≤ length bs
  on_frame_takes plen bs r out e =
      let payload = take plen (drop 4 bs) in
      let rest = drop plen (drop 4 bs) in
      ground (
        arith,
        on_klen_rest payload rest (read_uvarint payload) r out,
        length-drop plen (drop 4 bs),
        length-drop 4 bs,
      )

  -- A record that was read took bytes.
  decode_rec_takes :
      (bs : Bytes) (r : Rec) (out : Bytes) → decode_rec crc bs ≡ got r out → length out < length bs
  unfolding decode_rec read_uvarint
  decode_rec_takes [] r out e = cc
  decode_rec_takes (b ∷ bs) r out e = by_read (read_groups 10 0 1 (b ∷ bs)) refl e
    where
      by_read :
          (u : Read)
          → read_groups 10 0 1 (b ∷ bs) ≡ u
          → on_plen crc u ≡ got r out
          → length out < length (b ∷ bs)
      by_read (number plen rest) q e =
          ground
            (arith, on_frame_takes plen rest r out, read_groups_takes 10 0 1 (b ∷ bs) plen rest q)
      by_read ended q e = cc
      by_read short q e = cc
      by_read overflow q e = cc

  replay_loop_ends :
      (fuel : ℕ) (bs : Bytes) → length bs < fuel → (replay_loop crc fuel bs).1 ≢ no_fuel
  unfolding replay_loop
  replay_loop_ends zero bs h = absurd (omega arith)
  replay_loop_ends (suc fuel) bs h =
      by_decoded (decode_rec crc bs) refl (λ rest. replay_loop_ends fuel rest)
    where
      by_decoded :
          (d : Decoded)
          → decode_rec crc bs ≡ d
          → ((rest : Bytes) → length rest < fuel → (replay_loop crc fuel rest).1 ≢ no_fuel)
          → (replayed d (replay_loop crc fuel)).1 ≢ no_fuel
      by_decoded (got r rest) e ih = ih rest (omega (arith, decode_rec_takes bs r rest e))
      by_decoded eof e ih = λ q. cc
      by_decoded torn e ih = λ q. cc
      by_decoded corrupt e ih = λ q. cc
      by_decoded varint_overflow e ih = λ q. cc
      by_decoded panics e ih = λ q. cc

  -- A replay comes to an end on every file: one round more than the file has bytes is enough.
  pub replay_ends : (bs : Bytes) → (replay_loop crc (length bs + 1) bs).1 ≢ no_fuel
  replay_ends bs = replay_loop_ends (length bs + 1) bs (omega arith)
