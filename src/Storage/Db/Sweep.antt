-- ===== src/Storage/Db/Sweep.antt =====
-- The parts of Open of pkg/storage/db.go: the numbers of the tables, the sweep of the directory and
-- the memtable that the log is replayed to.
use shardlands.Prelude.{
  ℕ, ◌≡◌, ◌<◌, ◌≤◌, refl, ap, ◌==◌, ◌||◌, ◌∙◌, inl, inr, Bool, true, false, List, [], ◌∷◌, Option,
  none, some, arith, if◌then◌else◌, Bool-cases,
}
use shardlands.Storage.Memtable
use shardlands.Storage.Memtable.{Rec, Memtable, new_memtable, items}
use shardlands.Storage.Memtable.Search.{IsSkipList, items-put}
use shardlands.Storage.Memtable.Laws.{put-IsSkipList}
use shardlands.Storage.Table.{Table}
use shardlands.Storage.Db.{Files, file_at, ids_of}
use shardlands.Storage.Db.Opening.{with_first, load_tables, is_live, past, past_all, sweep, put_all}
use shardlands.Storage.Db.View.{AllBelow}
use shardlands.Storage.Db.Invariant.{sorted_from}

past-le : (id next : ℕ) → next ≤ past id next
past-le id next = ground arith

past-lt : (id next : ℕ) → id < past id next
past-lt id next = ground arith

past_all-le : (is : List ℕ) (next : ℕ) → next ≤ past_all is next
unfolding past_all
past_all-le [] next = omega arith
past_all-le (i ∷ is) next = omega (arith, past_all-le is (past i next), past-le i next)

pub past_all-AllBelow : (is : List ℕ) (next : ℕ) → AllBelow (past_all is next) is
unfolding past_all
past_all-AllBelow [] next = tt
past_all-AllBelow (i ∷ is) next = (
  omega (arith, past-lt i next, past_all-le is (past i next)),
  past_all-AllBelow is (past i next),
)

pub sweep-le : (live : List ℕ) (fs : Files) (next : ℕ) → next ≤ (sweep live fs next).1
unfolding sweep
sweep-le live [] next = omega arith
sweep-le live ((i, t) ∷ fs) next =
    let chosen : next ≤ (if is_live i live then next else past i next) = by_live (is_live i live) in
    omega (arith, chosen, sweep-le live fs (if is_live i live then next else past i next))
  where
    by_live : (b : Bool) → next ≤ (if b then next else past i next)
    by_live true = omega arith
    by_live false = past-le i next

-- The sweep leaves the files that the manifest names.
file_at-sweep :
    (i : ℕ) (live : List ℕ) (fs : Files) (next : ℕ)
    → is_live i live ≡ true
    → file_at i (sweep live fs next).0 ≡ file_at i fs
unfolding sweep file_at
file_at-sweep i live [] next h = refl
file_at-sweep i live ((j, t) ∷ fs) next h = by_live (is_live j live) refl (file_at-sweep i live fs)
  where
    by_live :
        (b : Bool)
        → is_live j live ≡ b
        → ((n : ℕ) → is_live i live ≡ true → file_at i (sweep live fs n).0 ≡ file_at i fs)
        → file_at i (
            if b
            then (j, t) ∷ (sweep live fs (if b then next else past j next)).0
            else (sweep live fs (if b then next else past j next)).0)
          ≡ (if j == i then t else file_at i fs)
    by_live true e f = rw (f next h) refl
    by_live false e f = elim (Bool-cases (j == i)) [
      | inl eq ↦
          let q : j ≡ i = ground arith in
          let seen : is_live j live ≡ true = ap (λ x. is_live x live) q ∙ h in absurd cc
      | inr apart ↦ rw (apart, f (past j next) h) refl
    ]

abbrev pub AllLive : List ℕ → List ℕ → Type 0
AllLive [] live = Unit
AllLive (i ∷ is) live = (is_live i live ≡ true) × AllLive is live

AllLive-cons : (j : ℕ) (is live : List ℕ) → AllLive is live → AllLive is (j ∷ live)
AllLive-cons j [] live h = tt
AllLive-cons j (i ∷ is) live h = (unfold is_live in (later (j == i)), AllLive-cons j is live h.1)
  where
    later : (b : Bool) → (b || is_live i live) ≡ true
    later true = refl
    later false = h.0

pub AllLive-self : (is : List ℕ) → AllLive is is
AllLive-self [] = tt
AllLive-self (i ∷ is) =
    let here : (i == i) ≡ true = ground arith in
    (unfold is_live in (rw here refl), AllLive-cons i is is (AllLive-self is))

pub load_tables-sweep :
    (is live : List ℕ) (fs : Files) (next : ℕ)
    → AllLive is live
    → load_tables is (sweep live fs next).0 ≡ load_tables is fs
unfolding load_tables
load_tables-sweep [] live fs next h = refl
load_tables-sweep (i ∷ is) live fs next h =
    rw (file_at-sweep i live fs next h.0, load_tables-sweep is live fs next h.1) refl

pub ids_of-load_tables :
    (is : List ℕ) (fs : Files) (ts : List (ℕ × Table))
    → load_tables is fs ≡ some ts
    → ids_of ts ≡ is
unfolding load_tables
ids_of-load_tables [] fs ts e = let q : ts ≡ [] = cc in rw q refl
ids_of-load_tables (i ∷ is) fs ts e =
    by_file (file_at i fs) (load_tables is fs) (ids_of-load_tables is fs) refl e
  where
    by_file :
        (o : Option Table) (os : Option (List (ℕ × Table)))
        → ((ts : List (ℕ × Table)) → load_tables is fs ≡ some ts → ids_of ts ≡ is)
        → load_tables is fs ≡ os
        → with_first i o os ≡ some ts
        → ids_of ts ≡ i ∷ is
    by_file none os f l e = absurd cc
    by_file (some t) none f l e = absurd cc
    by_file (some t) (some rest) f l e =
        let q : ts ≡ (i, t) ∷ rest = cc in rw q (ap (λ x. i ∷ x) (f rest l))

pub put_all-IsSkipList : (rs : List Rec) (m : Memtable) → IsSkipList m → IsSkipList (put_all rs m)
unfolding put_all
put_all-IsSkipList [] m i = i
put_all-IsSkipList (r ∷ rs) m i = put_all-IsSkipList rs (Memtable.put r m) (put-IsSkipList r m i)

pub items-put_all :
    (rs : List Rec) (m : Memtable)
    → IsSkipList m
    → items (put_all rs m).nodes ≡ sorted_from (items m.nodes) rs
unfolding put_all sorted_from
items-put_all [] m i = refl
items-put_all (r ∷ rs) m i =
    items-put_all rs (Memtable.put r m) (put-IsSkipList r m i)
    ∙ ap (λ xs. sorted_from xs rs) (items-put r m i)
