-- ===== src/Storage/Table/Build.antt =====
-- What writeTable of pkg/storage/sstable.go makes of records that ascend.
use shardlands.Prelude.{
  suc, true, ℕ, ◌+◌, ◌%◌, ◌≡◌, ◌<◌, refl, sym, ap, ◌∙◌, inl, inr, false, List, [], ◌∷◌, ◌++◌,
  Option, none, some, ◌==◌, if◌then◌else◌, length, Bool-cases, arith, length-append, append_assoc,
  append_nil,
}
use shardlands.Storage.Bytes.{Bytes}
use shardlands.Storage.Memtable.{Rec}
use shardlands.Storage.Records.{Above, Ascending}
use shardlands.Storage.Codec.{encode_rec}
use shardlands.Storage.Codec.Frames.{bytes_of}
use shardlands.Storage.Bloom.{u32, bits_for, bloom_hash}
use shardlands.Storage.Table.{
  index_interval, IndexEntry, Builder, new_builder, Table, out_of_order, add, add_all, finish,
  write_table,
}

abbrev pub hashes_of : List Rec → List ℕ
hashes_of [] = []
hashes_of (r ∷ rs) = bloom_hash r.key ∷ hashes_of rs

pub length-hashes_of : (rs : List Rec) → length (hashes_of rs) ≡ length rs
length-hashes_of [] = refl
length-hashes_of (r ∷ rs) = ap suc (length-hashes_of rs)

-- The keys are after the last one.
abbrev After : Option Bytes → List Rec → Type 0
After none rs = Unit
After (some k) rs = Above k rs

in_order :
    (last : Option Bytes) (r : Rec) (rs : List Rec)
    → After last (r ∷ rs)
    → out_of_order last r.key ≡ false
in_order none r rs h = refl
in_order (some k) r rs h = rw h.0 refl

abbrev last_of : Option Bytes → List Rec → Option Bytes
last_of last [] = last
last_of last (r ∷ rs) = last_of (some r.key) rs

module _ (crc : Bytes → ℕ) where
  -- The index of records, the first of them the n-th of its table, at an offset.
  unfoldable pub index_of : ℕ → ℕ → List Rec → List IndexEntry
  index_of n off [] = []
  index_of n off (r ∷ rs) =
      let rest = index_of (n + 1) (off + length (encode_rec crc r)) rs in
      if n % index_interval == 0 then record { key = r.key; off = off } ∷ rest else rest

  abbrev built : List Rec → Builder → Builder
  built rs b = record {
    written = b.written ++ bytes_of crc rs;
    off = b.off + length (bytes_of crc rs);
    index = b.index ++ index_of b.n b.off rs;
    hashes = b.hashes ++ hashes_of rs;
    n = b.n + length rs;
    last_key = last_of b.last_key rs;
  }

  abbrev added : Rec → Builder → Builder
  added r b = record {
    written = b.written ++ encode_rec crc r;
    off = b.off + length (encode_rec crc r);
    index =
        if b.n % index_interval == 0
        then b.index ++ (record { key = r.key; off = b.off } ∷ [])
        else b.index;
    hashes = b.hashes ++ (bloom_hash r.key ∷ []);
    n = b.n + 1;
    last_key = some r.key;
  }

  added_index :
      (r : Rec) (rs : List Rec) (b : Builder)
      → (added r b).index ++ index_of (b.n + 1) (b.off + length (encode_rec crc r)) rs
        ≡ b.index ++ index_of b.n b.off (r ∷ rs)
  unfolding index_of
  added_index r rs b = elim (Bool-cases (b.n % index_interval == 0)) [
    | inl new ↦ rw new (
        append_assoc b.index (record { key = r.key; off = b.off } ∷ [])
          (index_of (b.n + 1) (b.off + length (encode_rec crc r)) rs))
    | inr old ↦ rw old refl
  ]

  built_ext :
      (last : Option Bytes) {w1 w2 : Bytes} {o1 o2 : ℕ} {i1 i2 : List IndexEntry} {h1 h2 : List ℕ}
      {n1 n2 : ℕ}
      → w1 ≡ w2
      → o1 ≡ o2
      → i1 ≡ i2
      → h1 ≡ h2
      → n1 ≡ n2
      → ◌≡◌ {A = Builder}
          (record { written = w1; off = o1; index = i1; hashes = h1; n = n1; last_key = last })
          (record { written = w2; off = o2; index = i2; hashes = h2; n = n2; last_key = last })
  built_ext last w o i h n = rw (w, o, i, h, n) refl

  built-added : (r : Rec) (rs : List Rec) (b : Builder) → built rs (added r b) ≡ built (r ∷ rs) b
  unfolding bytes_of
  built-added r rs b =
      built_ext (last_of (some r.key) rs)
        (append_assoc b.written (encode_rec crc r) (bytes_of crc rs))
        (omega (arith, length-append {0} (encode_rec crc r) (bytes_of crc rs))) (added_index r rs b)
        (append_assoc b.hashes (bloom_hash r.key ∷ []) (hashes_of rs)) (omega arith)

  add_all_lem :
      (rs : List Rec) (b : Builder)
      → Ascending rs
      → After b.last_key rs
      → add_all crc rs b ≡ some (built rs b)
  unfolding add_all add bytes_of index_of
  add_all_lem [] b a h = ap some (
      built_ext b.last_key (sym (append_nil b.written)) (omega arith) (sym (append_nil b.index))
        (sym (append_nil b.hashes)) (omega arith))
  add_all_lem (r ∷ rs) b a h =
      rw (in_order b.last_key r rs h)
        (add_all_lem rs (added r b) a.1 a.0 ∙ ap some (built-added r rs b))

  abbrev pub table_of : (ℕ → ℕ) → ℕ → List Rec → Table
  table_of optimal bits rs = finish crc optimal bits (built rs new_builder)

  pub write_table-Ascending :
      (optimal : ℕ → ℕ) (bits : ℕ) (rs : List Rec)
      → Ascending rs
      → 0 < u32 (bits_for (length rs) bits)
      → write_table crc optimal bits rs ≡ some (table_of optimal bits rs)
  unfolding write_table
  write_table-Ascending optimal bits rs a fits =
      let count = length-hashes_of rs in
      let enough : (u32 (bits_for (length (hashes_of rs)) bits) == 0) ≡ false =
        rw count (ground arith) in
      rw (add_all_lem rs new_builder a tt) (rw enough refl)

  pub write_table_panic :
      (optimal : ℕ → ℕ) (bits : ℕ) (rs : List Rec)
      → Ascending rs
      → u32 (bits_for (length rs) bits) ≡ 0
      → write_table crc optimal bits rs ≡ none
  unfolding write_table
  write_table_panic optimal bits rs a gone =
      let count = length-hashes_of rs in
      let zero_bits : (u32 (bits_for (length (hashes_of rs)) bits) == 0) ≡ true =
        rw (count, gone) (ground arith) in
      rw (add_all_lem rs new_builder a tt) (rw zero_bits refl)
