-- ===== src/Storage/Table.antt =====
-- The sorted tables of pkg/storage/sstable.go. A table is the bytes of its records, as in the
-- file, with its index and its filter: the layout of these two sections and of the footer is left
-- out. CRC-32 and the number of probes of the filter are parameters.
pub mod Build
pub mod Reads
pub mod Scans
use shardlands.Prelude.{
  ℕ, zero, suc, ◌+◌, ◌-◌, ◌%◌, Bool, true, false, not, List, [], ◌∷◌, ◌++◌, Option, none, some,
  ◌==◌, if◌then◌else◌, length, drop, get_elem?,
}
use shardlands.Storage.Bytes.{Bytes, less, same}
use shardlands.Storage.Memtable.{Rec}
use shardlands.Storage.Codec.{
  Decoded, got, eof, torn, corrupt, varint_overflow, panics, encode_rec, decode_rec,
}
use shardlands.Storage.Bloom.{u32, bits_for, Bloom, bloom_hash, new_bloom, may_contain}

abbrev pub index_interval : ℕ
index_interval = 16

pub record IndexEntry : Type 0 where
  pub key : Bytes
  pub off : ℕ

-- tableBuilder; `written` is what its writer has been given.
pub record Builder : Type 0 where
  pub written : Bytes
  pub off : ℕ
  pub index : List IndexEntry
  pub hashes : List ℕ
  pub n : ℕ
  pub last_key : Option Bytes

abbrev pub new_builder : Builder
new_builder = record { written = []; off = 0; index = []; hashes = []; n = 0; last_key = none }

pub record Table : Type 0 where
  pub body : Bytes
  pub count : ℕ
  pub index : List IndexEntry
  pub filter : Bloom

abbrev pub out_of_order : Option Bytes → Bytes → Bool
out_of_order none key = false
out_of_order (some last) key = not (less last key)

-- What a read of a table comes to.
pub data Lookup : Type 0 where
  found : Rec → Lookup
  missing bad : Lookup

module _ (crc : Bytes → ℕ) where
  -- tableBuilder.add; `none` is the error of a key out of order.
  unfoldable pub add : Rec → Builder → Option Builder
  add r b =
      let frame = encode_rec crc r in
      if out_of_order b.last_key r.key
      then none
      else some (record {
        written = b.written ++ frame;
        off = b.off + length frame;
        index =
            if b.n % index_interval == 0
            then b.index ++ (record { key = r.key; off = b.off } ∷ [])
            else b.index;
        hashes = b.hashes ++ (bloom_hash r.key ∷ []);
        n = b.n + 1;
        last_key = some r.key;
      })

  abbrev pub and_add : Option Builder → (Builder → Option Builder) → Option Builder
  and_add none next = none
  and_add (some b) next = next b

  -- The loop of writeTable.
  unfoldable pub add_all : List Rec → Builder → Option Builder
  add_all [] b = some b
  add_all (r ∷ rs) b = and_add (add r b) (add_all rs)

  -- finish, and openTable on the file
  abbrev pub finish : (ℕ → ℕ) → ℕ → Builder → Table
  finish optimal bits_per_key b = record {
    body = b.written;
    count = b.n;
    index = b.index;
    filter = new_bloom optimal b.hashes bits_per_key;
  }

  abbrev pub finish_all : (ℕ → ℕ) → ℕ → Option Builder → Option Table
  finish_all optimal bits_per_key none = none
  finish_all optimal bits_per_key (some b) =
      if u32 (bits_for (length b.hashes) bits_per_key) == 0
      then none
      else some (finish optimal bits_per_key b)

  -- writeTable, and openTable on the file; `none` is an error, or the panic of newBloom where its
  -- number of bits is 0 as a uint32.
  unfoldable pub write_table : (ℕ → ℕ) → ℕ → List Rec → Option Table
  write_table optimal bits_per_key rs = finish_all optimal bits_per_key (add_all rs new_builder)

  abbrev pub compared : Bytes → Decoded → (Bytes → Lookup) → Lookup
  compared key (got r rest) next =
      if same r.key key then found r else if less key r.key then missing else next rest
  compared key eof next = missing
  compared key torn next = bad
  compared key corrupt next = bad
  compared key varint_overflow next = bad
  compared key panics next = bad

  -- The loop of sstable.get; it has a round for each byte that is left, and one more.
  unfoldable pub scan_block : ℕ → Bytes → Bytes → Lookup
  scan_block zero key bs = bad
  scan_block (suc fuel) key bs = compared key (decode_rec crc bs) (scan_block fuel key)

  -- sort.Search for the first entry above the key
  unfoldable pub search_above : Bytes → List IndexEntry → ℕ
  search_above key [] = 0
  search_above key (e ∷ es) =
      let rest = search_above key es in if less key e.key then 0 else suc rest

  abbrev pub scan_from : Bytes → Bytes → Option IndexEntry → Lookup
  scan_from body key none = bad
  scan_from body key (some e) = scan_block (length body + 1) key (drop e.off body)

  -- sstable.get
  unfoldable pub get : Bytes → Table → Lookup
  get key t =
      let i = search_above key t.index in
      if not (may_contain t.filter (bloom_hash key))
      then missing
      else if i == 0
      then missing
      else scan_from t.body key (get_elem? t.index (i - 1))

  -- What tableIter goes through after its start: the records, and whether it fails.
  abbrev pub read_on : Decoded → (Bytes → List Rec × Bool) → List Rec × Bool
  read_on (got r rest) next = let (rs, broken) = next rest in (r ∷ rs, broken)
  read_on eof next = ([], false)
  read_on torn next = ([], true)
  read_on corrupt next = ([], true)
  read_on varint_overflow next = ([], true)
  read_on panics next = ([], true)

  unfoldable pub read_all : ℕ → Bytes → List Rec × Bool
  read_all zero bs = ([], true)
  read_all (suc fuel) bs = read_on (decode_rec crc bs) (read_all fuel)

  -- The records that tableIter.next passes over, below `from`.
  unfoldable pub skip_below : Bytes → List Rec → List Rec
  skip_below from [] = []
  skip_below from (r ∷ rs) =
      let rest = skip_below from rs in if less r.key from then rest else r ∷ rs

  abbrev pub off_of : Option IndexEntry → ℕ
  off_of none = 0
  off_of (some e) = e.off

  -- The offset at which iterFrom starts.
  unfoldable pub start_off : Bytes → Table → ℕ
  start_off from t =
      let i = search_above from t.index in
      if length from == 0 then 0 else if i == 0 then 0 else off_of (get_elem? t.index (i - 1))

  -- iterFrom; iter is from the empty key.
  unfoldable pub iter_from : Bytes → Table → List Rec × Bool
  iter_from from t =
      let (rs, broken) = read_all (length t.body + 1) (drop (start_off from t) t.body) in
      (skip_below from rs, broken)
