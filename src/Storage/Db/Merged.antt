-- ===== src/Storage/Db/Merged.antt =====
-- The table that compactLocked of pkg/storage/db.go writes, and the one of flushLocked.
use shardlands.Prelude.{
  ℕ, ◌+◌, ◌≡◌, ◌⊎◌, ◌<◌, refl, sym, ap, subst, ◌∙◌, inl, inr, true, false, List, [], ◌∷◌, Option,
  none, some, arith, if◌then◌else◌, Bool-cases, All,
}
use shardlands.Storage.Bytes.{Bytes, same, same_eq, same_refl, less_empty}
use shardlands.Storage.Memtable.{Rec}
use shardlands.Storage.Records.{find, find-same, find-apart, find-Above, Above, Ascending}
use shardlands.Storage.Merge.{Source, live}
use shardlands.Storage.Merge.Least.{or_else, layered, AllAscending, total_length}
use shardlands.Storage.Merge.Newest.{recs_of, AllWhole, merge_newest}
use shardlands.Storage.Codec.RoundTrip.{IsSmall}
use shardlands.Storage.Table
use shardlands.Storage.Table.{Table, skip_below, write_table}
use shardlands.Storage.Table.Scans.{IsTableOf, write_table-decides}
use shardlands.Storage.Db.{absent, got_rec, sources, total, write_live, merged}
use shardlands.Storage.Db.View.{got_of, IsTables}

pub live_dead : (x : Rec) (xs : List Rec) → x.tomb ≡ true → live (x ∷ xs) ≡ live xs
unfolding live
live_dead x xs e = ap (λ b. if b then live xs else x ∷ live xs) e

pub live_alive : (x : Rec) (xs : List Rec) → x.tomb ≡ false → live (x ∷ xs) ≡ x ∷ live xs
unfolding live
live_alive x xs e = ap (λ b. if b then live xs else x ∷ live xs) e

live-Above : (k : Bytes) (xs : List Rec) → Above k xs → Above k (live xs)
unfolding live
live-Above k [] h = tt
live-Above k (x ∷ xs) h = elim (Bool-cases x.tomb) [
  | inl dead ↦ rw dead (live-Above k xs h.1)
  | inr alive ↦ rw alive (h.0, live-Above k xs h.1)
]

pub live-Ascending : (xs : List Rec) → Ascending xs → Ascending (live xs)
unfolding live
live-Ascending [] h = tt
live-Ascending (x ∷ xs) h = elim (Bool-cases x.tomb) [
  | inl dead ↦ rw dead (live-Ascending xs h.1)
  | inr alive ↦ rw alive (live-Above x.key xs h.0, live-Ascending xs h.1)
]

-- Without the tombstones a deleted key is an absent one.
pub got_of-live :
    (k : Bytes) (xs : List Rec) → Ascending xs → got_of (find k (live xs)) ≡ got_of (find k xs)
got_of-live k [] h = unfold live in refl
got_of-live k (x ∷ xs) h = elim (Bool-cases (same x.key k)) [
  | inl here ↦ elim (Bool-cases x.tomb) [
    | inl dead ↦
        let gone =
          find-Above k (live xs)
            (live-Above k xs (subst (λ b. Above b xs) (same_eq x.key k here) h.0)) in
        let absent_ : got_rec x ≡ absent = rw dead refl in
        ap (λ l. got_of (find k l)) (live_dead x xs dead)
        ∙ ap got_of gone
        ∙ sym absent_
        ∙ ap got_of (sym (find-same k x xs here))
    | inr alive ↦
        ap (λ l. got_of (find k l)) (live_alive x xs alive)
        ∙ ap got_of (find-same k x (live xs) here ∙ sym (find-same k x xs here))
  ]
  | inr apart ↦
      let rest : got_of (find k xs) ≡ got_of (find k (x ∷ xs)) =
        ap got_of (sym (find-apart k x xs apart)) in
      elim (Bool-cases x.tomb) [
        | inl dead ↦ ap (λ l. got_of (find k l)) (live_dead x xs dead) ∙ got_of-live k xs h.1 ∙ rest
        | inr alive ↦
            ap (λ l. got_of (find k l)) (live_alive x xs alive)
            ∙ ap got_of (find-apart k x (live xs) apart)
            ∙ got_of-live k xs h.1
            ∙ rest
      ]
]

live-All : (xs : List Rec) → All IsSmall xs → All IsSmall (live xs)
live-All [] h = unfold live in tt
live-All (x ∷ xs) h = elim (Bool-cases x.tomb) [
  | inl dead ↦ rw (live_dead x xs dead) (live-All xs h.1)
  | inr alive ↦ rw (live_alive x xs alive) (h.0, live-All xs h.1)
]

find-All : (k : Bytes) (x : Rec) (xs : List Rec) → All IsSmall xs → find k xs ≡ some x → IsSmall x
unfolding find
find-All k x [] h e = absurd cc
find-All k x (y ∷ xs) h e = elim (Bool-cases (same y.key k)) [
  | inl here ↦
      let q : ◌≡◌ {A = Option Rec} (some y) (some x) = sym (find-same k y xs here) ∙ e in
      let eq : y ≡ x = cc in subst IsSmall eq h.0
  | inr apart ↦ find-All k x xs h.1 (sym (find-apart k y xs apart) ∙ e)
]

abbrev AllAll : List (List Rec) → Type 0
AllAll [] = Unit
AllAll (l ∷ ls) = All IsSmall l × AllAll ls

layered-AllAll :
    (k : Bytes) (x : Rec) (ls : List (List Rec)) → AllAll ls → layered k ls ≡ some x → IsSmall x
unfolding layered
layered-AllAll k x [] h e = absurd cc
layered-AllAll k x (l ∷ ls) h e = by_found (layered-AllAll k x ls h.1) (find k l) refl e
  where
    by_found :
        (layered k ls ≡ some x → IsSmall x)
        → (o : Option Rec) → find k l ≡ o
        → or_else o (layered k ls) ≡ some x
        → IsSmall x
    by_found older none f e = older e
    by_found older (some y) f e = find-All k x l h.0 (f ∙ e)

-- What holds of every record that can be found holds of all.
All_found :
    (xs : List Rec)
    → Ascending xs
    → ((k : Bytes) (x : Rec) → find k xs ≡ some x → IsSmall x)
    → All IsSmall xs
All_found [] a f = tt
All_found (x ∷ xs) a f =
    (f x.key x (find-same x.key x xs (same_refl x.key)), All_found xs a.1 older)
  where
    older : (k : Bytes) (y : Rec) → find k xs ≡ some y → IsSmall y
    older k y e = elim (Bool-cases (same x.key k)) [
      | inl here ↦
          let gone = find-Above k xs (subst (λ b. Above b xs) (same_eq x.key k here) a.0) in
          absurd cc
      | inr apart ↦ f k y (find-apart k x xs apart ∙ e)
    ]

module _ (crc : Bytes → ℕ) (crc_fits : (bs : Bytes) → crc bs < 4294967296) where
  skip_below_none : (xs : List Rec) → skip_below crc [] xs ≡ xs
  unfolding skip_below
  skip_below_none [] = refl
  skip_below_none (x ∷ xs) = rw (less_empty x.key) refl

  whole_table :
      (l : List Rec) (t : Table)
      → IsTableOf crc crc_fits l t
      → Table.iter_from crc [] t ≡ (l, false)
  whole_table l t h = h.scans [] ∙ ap (λ rs. (rs, false)) (skip_below_none l)

  module _ (optimal : ℕ → ℕ) (draws : List ℕ) where
    recs_of-sources :
        (ts : List (ℕ × Table)) (ls : List (List Rec))
        → IsTables crc crc_fits ts ls
        → (recs_of (sources crc optimal draws ts) ≡ ls) × AllWhole (sources crc optimal draws ts)
    unfolding sources
    recs_of-sources [] [] h = (refl, tt)
    recs_of-sources [] (l ∷ ls) h = absurd h
    recs_of-sources (t ∷ ts) [] h = absurd h
    recs_of-sources (t ∷ ts) (l ∷ ls) h =
        let (older, whole) = recs_of-sources ts ls h.1 in
        rw (whole_table l t.1 h.0) (ap (λ x. l ∷ x) older, (refl, whole))

    pub total_lem : (ss : List Source) → total crc optimal draws ss ≡ total_length (recs_of ss)
    unfolding total total_length
    total_lem [] = refl
    total_lem (s ∷ ss) = rw (total_lem ss) refl

  tables-AllAscending :
      (ts : List (ℕ × Table)) (ls : List (List Rec))
      → IsTables crc crc_fits ts ls
      → AllAscending ls × AllAll ls
  tables-AllAscending [] [] h = (tt, tt)
  tables-AllAscending [] (l ∷ ls) h = absurd h
  tables-AllAscending (t ∷ ts) [] h = absurd h
  tables-AllAscending (t ∷ ts) (l ∷ ls) h =
      let (a, s) = tables-AllAscending ts ls h.1 in ((h.0.ascending, a), (h.0.small, s))

  -- A table that reads like some tables.
  abbrev pub IsMergeOf : List (List Rec) → Table → Type 0
  IsMergeOf ls t =
      (out : List Rec) × IsTableOf crc crc_fits out t
      × ((k : Bytes) → got_of (find k out) ≡ got_of (layered k ls))

  -- A compaction writes a table that reads like the tables it is made of, or newBloom panics.
  pub merged-decides :
      (optimal : ℕ → ℕ) (draws : List ℕ) (bits : ℕ) (ts : List (ℕ × Table)) (ls : List (List Rec))
      → IsTables crc crc_fits ts ls
      → (merged crc optimal draws bits ts ≡ none)
        ⊎ ((t : Table) × (merged crc optimal draws bits ts ≡ some t) × IsMergeOf ls t)
  unfolding merged
  merged-decides optimal draws bits ts ls h =
      let ss = sources crc optimal draws ts in
      let (recs, whole) = recs_of-sources optimal draws ts ls h in
      let (sorted, small) = tables-AllAscending ts ls h in
      let (out, made, ascending, newest) =
        merge_newest ss (total crc optimal draws ss + 1) whole
          (subst AllAscending (sym recs) sorted) (omega (arith, total_lem optimal draws ss)) in
      let write = ap (write_live crc optimal draws bits) made in
      elim (write_table-decides crc crc_fits optimal bits (live out)
        (live-All out (
          All_found out ascending (λ k x e.
            layered-AllAll k x ls small (ap (layered k) (sym recs) ∙ sym (newest k) ∙ e))))
        (live-Ascending out ascending)) [
          | inl gone ↦ inl (write ∙ gone)
          | inr (t, written, is_table) ↦ inr (
            t,
            write ∙ written,
            (
              live out,
              is_table,
              λ k. got_of-live k out ascending ∙ ap got_of (newest k ∙ ap (layered k) recs),
            ),
          )
        ]
