-- ===== src/Storage/Table/Scans.antt =====
-- What tableIter of pkg/storage/sstable.go goes through, and writeTable and reads put together.
use shardlands.Prelude.{
  none, ℕ, suc, ◌+◌, ◌-◌, ◌≡◌, ◌⊎◌, ◌<◌, refl, ap, subst, ◌==◌, ◌∙◌, inl, inr, true, false, List,
  [], ◌∷◌, ◌++◌, some, arith, if◌then◌else◌, length, drop, get_elem?, drop_exact, Bool-cases,
  length-append, All,
}
use shardlands.Storage.Bytes.{Bytes, less, same, same_eq, less_trans, less_total}
use shardlands.Storage.Memtable.{Rec}
use shardlands.Storage.Bloom.{u32, bits_for}
use shardlands.Storage.Records.{find, Ascending}
use shardlands.Storage.Codec.Frames.{bytes_of, bytes_of-append, length-bytes_of}
use shardlands.Storage.Codec.RoundTrip.{IsSmall}
use shardlands.Storage.Table.{
  Table, search_above, get, read_all, iter_from, skip_below, off_of, start_off, write_table,
}
use shardlands.Storage.Table.Build.{
  length-hashes_of, write_table_panic, index_of, table_of, write_table-Ascending,
}
use shardlands.Storage.Table.Reads.{
  looked_up, IsSeek, at_start, within, search_above-IsSeek, read_all-bytes_of, get_lem, All-after,
  Above-append,
}

-- A record before one whose key is not above `from` is below it.
below_from :
    (from : Bytes) (y x : Rec)
    → less y.key x.key ≡ true
    → less from x.key ≡ false
    → less y.key from ≡ true
below_from from y x h low = elim (Bool-cases (same x.key from)) [
  | inl eq ↦ subst (λ b. less y.key b ≡ true) (same_eq x.key from eq) h
  | inr apart ↦ elim (Bool-cases (less x.key from)) [
    | inl before ↦ less_trans y.key x.key from h before
    | inr after ↦ let q = less_total x.key from after apart in absurd cc
  ]
]

module _ (crc : Bytes → ℕ) (crc_fits : (bs : Bytes) → crc bs < 4294967296) where
  skip_below-append :
      (from : Bytes) (pre : List Rec) (x : Rec) (post : List Rec)
      → Ascending (pre ++ (x ∷ post))
      → less from x.key ≡ false
      → skip_below crc from (pre ++ (x ∷ post)) ≡ skip_below crc from (x ∷ post)
  unfolding skip_below
  skip_below-append from [] x post a low = refl
  skip_below-append from (y ∷ pre) x post a low =
      rw (below_from from y x (Above-append y.key pre x post a.0) low)
        (skip_below-append from pre x post a.1 low)

  read_from :
      (from : Bytes) (rs : List Rec) (off : ℕ) (pre post : List Rec)
      → All IsSmall rs
      → off ≡ length (bytes_of crc pre)
      → rs ≡ pre ++ post
      → All IsSmall post
      → read_all crc (length (bytes_of crc rs) + 1) (drop off (bytes_of crc rs)) ≡ (post, false)
  read_from from rs off pre post s place shape small =
      let parts = ap (bytes_of crc) shape ∙ bytes_of-append crc pre post in
      let tail : drop off (bytes_of crc rs) ≡ bytes_of crc post =
        ap (λ n. drop n (bytes_of crc rs)) place
        ∙ ap (drop (length (bytes_of crc pre))) parts
        ∙ drop_exact (bytes_of crc pre) (bytes_of crc post) in
      let fuel : length post < length (bytes_of crc rs) + 1 = omega (
        arith,
        ap length parts,
        length-append {0} (bytes_of crc pre) (bytes_of crc post),
        length-bytes_of crc post,
      ) in
      ap (read_all crc (length (bytes_of crc rs) + 1)) tail
      ∙ read_all-bytes_of crc crc_fits (length (bytes_of crc rs) + 1) post fuel small

  -- The records after the place where an iteration starts.
  data IsStart (from : Bytes) (rs : List Rec) (off : ℕ) : Type 0 where
    start :
        (pre post : List Rec)
        → off ≡ length (bytes_of crc pre)
        → rs ≡ pre ++ post
        → All IsSmall post
        → skip_below crc from rs ≡ skip_below crc from post
        → IsStart from rs off

  start_off-IsStart :
      (optimal : ℕ → ℕ) (bits : ℕ) (from : Bytes) (rs : List Rec)
      → All IsSmall rs
      → Ascending rs
      → IsStart from rs (start_off crc from (table_of crc optimal bits rs))
  unfolding start_off
  start_off-IsStart optimal bits from rs s a = elim (Bool-cases (length from == 0)) [
    | inl all ↦ rw all whole
    | inr part ↦ rw part (
        by_index (search_above crc from (index_of crc 0 0 rs))
          (search_above-IsSeek crc from 0 0 rs))
  ]
    where
      whole : IsStart from rs 0
      whole = start [] rs (unfold bytes_of in (omega arith)) refl s refl

      by_index :
          (i : ℕ)
          → IsSeek crc from 0 rs (index_of crc 0 0 rs) i
          → IsStart from rs
              (if i == 0 then 0 else off_of crc (get_elem? (index_of crc 0 0 rs) (i - 1)))
      by_index _ at_start = whole
      by_index _ (within i e pre x post at shape place low) =
          let positive : (suc i == 0) ≡ false = ground arith in
          let last : suc i - 1 ≡ i = omega arith in
          rw (positive, last)
            (rw at (
              start pre (x ∷ post) (omega (arith, place)) shape
                (All-after pre x post (subst (All IsSmall) shape s))
                (ap (skip_below crc from) shape
                  ∙ skip_below-append from pre x post (subst Ascending shape a) low)))

  iter_from_lem :
      (optimal : ℕ → ℕ) (bits : ℕ) (from : Bytes) (rs : List Rec)
      → All IsSmall rs
      → Ascending rs
      → iter_from crc from (table_of crc optimal bits rs) ≡ (skip_below crc from rs, false)
  unfolding iter_from
  iter_from_lem optimal bits from rs s a = by_start (start_off-IsStart optimal bits from rs s a)
    where
      by_start :
          IsStart from rs (start_off crc from (table_of crc optimal bits rs))
          → iter_from crc from (table_of crc optimal bits rs) ≡ (skip_below crc from rs, false)
      by_start (start pre post place shape small skipped) =
          rw
            (read_from from rs (start_off crc from (table_of crc optimal bits rs)) pre post s place
              shape small)
            (rw skipped refl)

  -- What is written of a table of small records that ascend.
  pub record IsTableOf (rs : List Rec) (t : Table) : Type 0 where
    pub small : All IsSmall rs
    pub ascending : Ascending rs
    pub looks_up : (key : Bytes) → get crc key t ≡ looked_up (find key rs)
    pub scans : (from : Bytes) → iter_from crc from t ≡ (skip_below crc from rs, false)

  -- Records that ascend, each with a payload of at most maxRecBytes, are written without an error
  -- if the number of bits of their filter is not 0 as a uint32 (where newBloom would panic),
  -- and the table reads back: for every key it has the record of that key, or says that there
  -- is none, with no error; an iteration from a key goes through the records from that key on.
  pub write_table_lem :
      (optimal : ℕ → ℕ) (bits : ℕ) (rs : List Rec)
      → All IsSmall rs
      → Ascending rs
      → 0 < u32 (bits_for (length rs) bits)
      → (t : Table) × (write_table crc optimal bits rs ≡ some t) × IsTableOf rs t
  write_table_lem optimal bits rs s a fits = (
    table_of crc optimal bits rs,
    write_table-Ascending crc optimal bits rs a fits,
    record {
      small = s;
      ascending = a;
      looks_up =
          λ key. get_lem crc crc_fits optimal bits key rs s a (rw (length-hashes_of rs) fits);
      scans = λ from. iter_from_lem optimal bits from rs s a;
    },
  )

  pub write_table-decides :
      (optimal : ℕ → ℕ) (bits : ℕ) (rs : List Rec)
      → All IsSmall rs
      → Ascending rs
      → (write_table crc optimal bits rs ≡ none)
        ⊎ ((t : Table) × (write_table crc optimal bits rs ≡ some t) × IsTableOf rs t)
  write_table-decides optimal bits rs s a =
      elim (Bool-cases (u32 (bits_for (length rs) bits) == 0)) [
        | inl gone ↦ inl (write_table_panic crc optimal bits rs a (ground arith))
        | inr fits ↦ inr (write_table_lem optimal bits rs s a (ground arith))
      ]
