-- ===== src/Storage/Table/Reads.antt =====
-- What sstable.get and tableIter of pkg/storage/sstable.go read back from a table.
use shardlands.Prelude.{
  ℕ, zero, suc, ◌+◌, ◌-◌, ◌%◌, ◌≡◌, ◌<◌, refl, sym, ap, subst, ◌==◌, ◌∙◌, inl, inr, true, false,
  List, [], ◌∷◌, ◌++◌, Option, none, some, arith, if◌then◌else◌, length, drop, get_elem?,
  drop_exact, Bool-cases, length-append, All,
}
use shardlands.Storage.Bytes.{Bytes, less, same, same_eq}
use shardlands.Storage.Memtable.{Rec}
use shardlands.Storage.Records.{find, find-apart, find-Above, Above, Ascending, Above-trans}
use shardlands.Storage.Codec.{payload_of, encode_rec, decode_rec, read_uvarint}
use shardlands.Storage.Codec.Frames.{bytes_of, bytes_of-append, length-bytes_of}
use shardlands.Storage.Codec.RoundTrip.{IsSmall, decode_rec-encode_rec}
use shardlands.Storage.Bloom.{u32, bits_for, bloom_hash, may_contain, new_bloom}
use shardlands.Storage.Bloom.Members.{IsIn, may_contain-new_bloom}
use shardlands.Storage.Table.{
  index_interval, IndexEntry, Lookup, found, missing, search_above, scan_block, scan_from, get,
  read_all,
}
use shardlands.Storage.Table.Build.{index_of, hashes_of, table_of}

abbrev pub looked_up : Option Rec → Lookup
looked_up none = missing
looked_up (some r) = found r

pub Above-append :
    (k : Bytes) (pre : List Rec) (x : Rec) (post : List Rec)
    → Above k (pre ++ (x ∷ post))
    → less k x.key ≡ true
Above-append k [] x post h = h.0
Above-append k (y ∷ pre) x post h = Above-append k pre x post h.1

-- A key that is not below some record's is not among the ones before that record.
find-append :
    (k : Bytes) (pre : List Rec) (x : Rec) (post : List Rec)
    → Ascending (pre ++ (x ∷ post))
    → less k x.key ≡ false
    → find k (pre ++ (x ∷ post)) ≡ find k (x ∷ post)
find-append k [] x post a h = refl
find-append k (y ∷ pre) x post a h = elim (Bool-cases (same y.key k)) [
  | inl eq ↦
      let low : less k x.key ≡ true =
        subst (λ b. less b x.key ≡ true) (same_eq y.key k eq) (Above-append y.key pre x post a.0) in
      absurd cc
  | inr apart ↦ find-apart k y (pre ++ (x ∷ post)) apart ∙ find-append k pre x post a.1 h
]

Ascending-after :
    (pre : List Rec) (x : Rec) (post : List Rec)
    → Ascending (pre ++ (x ∷ post))
    → Ascending (x ∷ post)
Ascending-after [] x post a = a
Ascending-after (y ∷ pre) x post a = Ascending-after pre x post a.1

pub All-after :
    (pre : List Rec) (x : Rec) (post : List Rec)
    → All IsSmall (pre ++ (x ∷ post))
    → All IsSmall (x ∷ post)
All-after [] x post a = a
All-after (y ∷ pre) x post a = All-after pre x post a.1

find-IsIn :
    (k : Bytes) (x : Rec) (rs : List Rec) → find k rs ≡ some x → IsIn (bloom_hash k) (hashes_of rs)
unfolding find
find-IsIn k x [] e = absurd cc
find-IsIn k x (r ∷ rs) e = elim (Bool-cases (same r.key k)) [
  | inl eq ↦ inl (ap bloom_hash (same_eq r.key k eq))
  | inr apart ↦ inr (find-IsIn k x rs (sym (find-apart k r rs apart) ∙ e))
]

module _ (crc : Bytes → ℕ) where
  -- Where the search of the index leads.
  pub data IsSeek (key : Bytes) (off : ℕ) (rs : List Rec) (index : List IndexEntry)
      : ℕ → Type 0 where
    at_start : IsSeek key off rs index 0
    within :
        (i : ℕ) (e : IndexEntry) (pre : List Rec) (x : Rec) (post : List Rec)
        → get_elem? index i ≡ some e
        → rs ≡ pre ++ (x ∷ post)
        → e.off ≡ off + length (bytes_of crc pre)
        → less key x.key ≡ false
        → IsSeek key off rs index (suc i)

  later_block :
      (key : Bytes) (off : ℕ) (r : Rec) (rs : List Rec) (index : List IndexEntry) (i : ℕ)
      → IsSeek key (off + length (encode_rec crc r)) rs index i
      → IsSeek key off (r ∷ rs) index i
  later_block key off r rs index _ at_start = at_start
  later_block key off r rs index _ (within i e pre x post at shape place low) =
      within i e (r ∷ pre) x post at (ap (λ l. r ∷ l) shape)
        (unfold bytes_of in
          (omega (arith, place, length-append (encode_rec crc r) (bytes_of crc pre))))
        low

  first_block :
      (key : Bytes) (off : ℕ) (r : Rec) (rs : List Rec) (index : List IndexEntry) (i : ℕ)
      → less key r.key ≡ false
      → IsSeek key (off + length (encode_rec crc r)) rs index i
      → IsSeek key off (r ∷ rs) (record { key = r.key; off = off } ∷ index) (suc i)
  first_block key off r rs index _ low at_start =
      within 0 (record { key = r.key; off = off }) [] r rs refl refl
        (unfold bytes_of in (omega arith)) low
  first_block key off r rs index _ low (within i e pre x post at shape place low_) =
      within (suc i) e (r ∷ pre) x post at (ap (λ l. r ∷ l) shape)
        (unfold bytes_of in
          (omega (arith, place, length-append (encode_rec crc r) (bytes_of crc pre))))
        low_

  pub search_above-IsSeek :
      (key : Bytes) (n off : ℕ) (rs : List Rec)
      → IsSeek key off rs (index_of crc n off rs) (search_above crc key (index_of crc n off rs))
  unfolding search_above index_of
  search_above-IsSeek key n off [] = at_start
  search_above-IsSeek key n off (r ∷ rs) =
      let ih = search_above-IsSeek key (n + 1) (off + length (encode_rec crc r)) rs in
      let rest = index_of crc (n + 1) (off + length (encode_rec crc r)) rs in
      elim (Bool-cases (n % index_interval == 0)) [
        | inl new ↦ elim (Bool-cases (less key r.key)) [
          | inl high ↦ rw new (rw high at_start)
          | inr low ↦
              rw new (rw low (first_block key off r rs rest (search_above crc key rest) low ih))
        ]
        | inr old ↦ rw old (later_block key off r rs rest (search_above crc key rest) ih)
      ]

  module _ (crc_fits : (bs : Bytes) → crc bs < 4294967296) where
    scan_block-bytes_of :
        (fuel : ℕ) (key : Bytes) (rs : List Rec)
        → length rs < fuel
        → All IsSmall rs
        → Ascending rs
        → scan_block crc fuel key (bytes_of crc rs) ≡ looked_up (find key rs)
    unfolding scan_block bytes_of find
    scan_block-bytes_of zero key rs l s a = absurd (omega arith)
    scan_block-bytes_of (suc fuel) key [] l s a = unfold decode_rec read_uvarint in refl
    scan_block-bytes_of (suc fuel) key (r ∷ rs) l s a =
        rw (decode_rec-encode_rec crc r (bytes_of crc rs) s.0 (crc_fits (payload_of r)))
          (elim (Bool-cases (same r.key key)) [
            | inl here ↦ rw here refl
            | inr apart ↦ elim (Bool-cases (less key r.key)) [
              | inl past ↦
                  rw (apart, past) (rw (find-Above key rs (Above-trans key r.key rs past a.0)) refl)
              | inr before ↦
                  rw (apart, before) (scan_block-bytes_of fuel key rs (omega arith) s.1 a.1)
            ]
          ])

    pub read_all-bytes_of :
        (fuel : ℕ) (rs : List Rec)
        → length rs < fuel
        → All IsSmall rs
        → read_all crc fuel (bytes_of crc rs) ≡ (rs, false)
    unfolding read_all bytes_of
    read_all-bytes_of zero rs l s = absurd (omega arith)
    read_all-bytes_of (suc fuel) [] l s = unfold decode_rec read_uvarint in refl
    read_all-bytes_of (suc fuel) (r ∷ rs) l s =
        rw (decode_rec-encode_rec crc r (bytes_of crc rs) s.0 (crc_fits (payload_of r)))
          (rw (read_all-bytes_of fuel rs (omega arith) s.1) refl)

    before_all :
        (key : Bytes) (rs : List Rec)
        → Ascending rs
        → search_above crc key (index_of crc 0 0 rs) ≡ 0
        → find key rs ≡ none
    unfolding search_above index_of
    before_all key [] a e = find-Above key [] tt
    before_all key (r ∷ rs) a e = elim (Bool-cases (less key r.key)) [
      | inl low ↦ find-Above key (r ∷ rs) (low, Above-trans key r.key rs low a.0)
      | inr high ↦
          let q : ◌≡◌ {A = ℕ}
              (suc (search_above crc key (index_of crc (0 + 1) (0 + length (encode_rec crc r)) rs)))
              0 =
            rw high at e in
          absurd (omega (arith, q))
    ]

    scan_from-within :
        (key : Bytes) (rs : List Rec) (i : ℕ)
        → All IsSmall rs
        → Ascending rs
        → IsSeek key 0 rs (index_of crc 0 0 rs) (suc i)
        → scan_from crc (bytes_of crc rs) key (get_elem? (index_of crc 0 0 rs) i)
          ≡ looked_up (find key rs)
    scan_from-within key rs i s a (within _ e pre x post at shape place low) =
        let parts = ap (bytes_of crc) shape ∙ bytes_of-append crc pre (x ∷ post) in
        let tail : drop e.off (bytes_of crc rs) ≡ bytes_of crc (x ∷ post) =
          ap (λ n. drop n (bytes_of crc rs)) (place ∙ omega arith)
          ∙ ap (drop (length (bytes_of crc pre))) parts
          ∙ drop_exact (bytes_of crc pre) (bytes_of crc (x ∷ post)) in
        let fuel : length (x ∷ post) < length (bytes_of crc rs) + 1 = omega (
          arith,
          ap length parts,
          length-append {0} (bytes_of crc pre) (bytes_of crc (x ∷ post)),
          length-bytes_of crc (x ∷ post),
        ) in
        ap (scan_from crc (bytes_of crc rs) key) at
        ∙ ap (scan_block crc (length (bytes_of crc rs) + 1) key) tail
        ∙ scan_block-bytes_of (length (bytes_of crc rs) + 1) key (x ∷ post) fuel
            (All-after pre x post (subst (All IsSmall) shape s))
            (Ascending-after pre x post (subst Ascending shape a))
        ∙ ap looked_up
            (sym (ap (find key) shape ∙ find-append key pre x post (subst Ascending shape a) low))

    filtered :
        (optimal : ℕ → ℕ) (bits : ℕ) (key : Bytes) (rs : List Rec)
        → 0 < u32 (bits_for (length (hashes_of rs)) bits)
        → may_contain (new_bloom optimal (hashes_of rs) bits) (bloom_hash key) ≡ false
        → find key rs ≡ none
    filtered optimal bits key rs fits without = by_found (find key rs) refl
      where
        by_found : (o : Option Rec) → find key rs ≡ o → find key rs ≡ none
        by_found none e = e
        by_found (some x) e =
            let yes =
              may_contain-new_bloom optimal (hashes_of rs) bits (bloom_hash key) fits
                (find-IsIn key x rs e) in
            absurd cc

    -- What a table says of a key is what its records say.
    pub get_lem :
        (optimal : ℕ → ℕ) (bits : ℕ) (key : Bytes) (rs : List Rec)
        → All IsSmall rs
        → Ascending rs
        → 0 < u32 (bits_for (length (hashes_of rs)) bits)
        → get crc key (table_of crc optimal bits rs) ≡ looked_up (find key rs)
    unfolding get
    get_lem optimal bits key rs s a fits =
        elim (Bool-cases (may_contain (new_bloom optimal (hashes_of rs) bits) (bloom_hash key))) [
          | inl maybe ↦ rw maybe (
              by_index (search_above crc key (index_of crc 0 0 rs)) refl
                (search_above-IsSeek key 0 0 rs))
          | inr without ↦
              rw without (ap looked_up (sym (filtered optimal bits key rs fits without)))
        ]
      where
        by_index :
            (i : ℕ)
            → search_above crc key (index_of crc 0 0 rs) ≡ i
            → IsSeek key 0 rs (index_of crc 0 0 rs) i
            → (if i == 0
                then missing
                else scan_from crc (bytes_of crc rs) key (get_elem? (index_of crc 0 0 rs) (i - 1)))
              ≡ looked_up (find key rs)
        by_index zero e k = ap looked_up (sym (before_all key rs a e))
        by_index (suc i) e k =
            let positive : (suc i == 0) ≡ false = ground arith in
            let last : suc i - 1 ≡ i = omega arith in
            rw (positive, last) (scan_from-within key rs i s a k)
