-- ===== src/Storage/Db/View.antt =====
-- What Get of pkg/storage/db.go reads, in terms of the records of the memtable and of the tables.
use shardlands.Prelude.{
  Bool, true, false, ℕ, ◌≡◌, ◌<◌, ◌≤◌, refl, ◌∙◌, inl, inr, List, [], ◌∷◌, Option, none, some,
  arith, ◌==◌, Bool-cases, if◌then◌else◌,
}
use shardlands.Storage.Bytes.{Bytes}
use shardlands.Storage.Memtable.{Rec, items}
use shardlands.Storage.Memtable.Search.{IsSkipList, get-find}
use shardlands.Storage.Records.{find}
use shardlands.Storage.Merge.Least.{or_else, layered}
use shardlands.Storage.Table.{Table}
use shardlands.Storage.Table.Reads.{looked_up}
use shardlands.Storage.Table.Scans.{IsTableOf}
use shardlands.Storage.Db.{
  Files, file_at, remove_file, write_file, remove_all, Db, Got, absent, got_rec, in_table,
  get_tables, in_mem, get,
}
use shardlands.Storage.Db.Opening.{load_tables}

abbrev pub got_of : Option Rec → Got
got_of none = absent
got_of (some r) = got_rec r

-- An older record shows only where there is no newer one.
pub got_of-or_else :
    (o a b : Option Rec) → got_of a ≡ got_of b → got_of (or_else o a) ≡ got_of (or_else o b)
got_of-or_else none a b e = e
got_of-or_else (some r) a b e = refl

pub or_else_twice : (o a : Option Rec) → or_else o (or_else o a) ≡ or_else o a
or_else_twice none a = refl
or_else_twice (some r) a = refl

pub or_else-none : (o : Option Rec) → or_else o none ≡ o
or_else-none none = refl
or_else-none (some r) = refl

module _ (crc : Bytes → ℕ) (crc_fits : (bs : Bytes) → crc bs < 4294967296) where
  -- The tables hold these records, one list for each.
  abbrev pub IsTables : List (ℕ × Table) → List (List Rec) → Type 0
  IsTables [] [] = Unit
  IsTables [] (l ∷ ls) = ⊥
  IsTables (t ∷ ts) [] = ⊥
  IsTables (t ∷ ts) (l ∷ ls) = IsTableOf crc crc_fits l t.1 × IsTables ts ls

  pub get_tables_lem :
      (optimal : ℕ → ℕ) (draws : List ℕ) (k : Bytes) (ts : List (ℕ × Table)) (ls : List (List Rec))
      → IsTables ts ls
      → get_tables crc optimal draws k ts ≡ got_of (layered k ls)
  unfolding get_tables layered
  get_tables_lem optimal draws k [] [] h = refl
  get_tables_lem optimal draws k [] (l ∷ ls) h = absurd h
  get_tables_lem optimal draws k (t ∷ ts) [] h = absurd h
  get_tables_lem optimal draws k (t ∷ ts) (l ∷ ls) h =
      rw (h.0.looks_up k, get_tables_lem optimal draws k ts ls h.1) (by_found (find k l))
    where
      by_found :
          (o : Option Rec)
          → in_table crc optimal draws (looked_up o) (got_of (layered k ls))
            ≡ got_of (or_else o (layered k ls))
      by_found none = refl
      by_found (some r) = refl

  -- Get reads the newest record of the key.
  pub get_lem :
      (optimal : ℕ → ℕ) (draws : List ℕ) (k : Bytes) (db : Db) (ls : List (List Rec))
      → db.closed ≡ false
      → IsSkipList db.mem
      → IsTables db.tables ls
      → get crc optimal draws k db ≡ got_of (or_else (find k (items db.mem.nodes)) (layered k ls))
  unfolding get
  get_lem optimal draws k db ls open_ m h =
      rw (open_, get-find k db.mem m, get_tables_lem optimal draws k db.tables ls h)
        (by_found (find k (items db.mem.nodes)))
    where
      by_found :
          (o : Option Rec)
          → in_mem crc optimal draws o (got_of (layered k ls)) ≡ got_of (or_else o (layered k ls))
      by_found none = refl
      by_found (some r) = refl

-- Every number is below another.
abbrev pub AllBelow : ℕ → List ℕ → Type 0
AllBelow n [] = Unit
AllBelow n (i ∷ is) = (i < n) × AllBelow n is

pub AllBelow-le : (m n : ℕ) (is : List ℕ) → m ≤ n → AllBelow m is → AllBelow n is
AllBelow-le m n [] l h = tt
AllBelow-le m n (i ∷ is) l h = (omega (arith, h.0, l), AllBelow-le m n is l h.1)

file_at-remove_file :
    (i j : ℕ) (fs : Files) → (j == i) ≡ false → file_at i (remove_file j fs) ≡ file_at i fs
unfolding file_at remove_file
file_at-remove_file i j [] e = refl
file_at-remove_file i j ((k, t) ∷ fs) e = elim (Bool-cases (k == j)) [
  | inl gone ↦
      let other : (k == i) ≡ false = ground arith in rw (gone, other) (file_at-remove_file i j fs e)
  | inr stays ↦ rw stays (elim (Bool-cases (k == i)) [
    | inl here ↦ rw here refl
    | inr there ↦ rw there (file_at-remove_file i j fs e)
  ])
]

file_at-write_file :
    (i j : ℕ) (t : Option Table) (fs : Files) → i < j → file_at i (write_file j t fs) ≡ file_at i fs
unfolding file_at
file_at-write_file i j t fs l =
    let other : (j == i) ≡ false = ground arith in rw other (file_at-remove_file i j fs other)

file_at_written : (j : ℕ) (t : Option Table) (fs : Files) → file_at j (write_file j t fs) ≡ t
unfolding file_at
file_at_written j t fs = let same_ : (j == j) ≡ true = ground arith in rw same_ refl

file_at-remove_all :
    (goes : ℕ → Bool) (n : ℕ) (is : List ℕ) (fs : Files)
    → AllBelow n is
    → file_at n (remove_all goes is fs) ≡ file_at n fs
unfolding remove_all
file_at-remove_all goes n [] fs h = refl
file_at-remove_all goes n (i ∷ is) fs h =
    file_at-remove_all goes n is (if goes i then remove_file i fs else fs) h.1 ∙ either (goes i)
  where
    either : (b : Bool) → file_at n (if b then remove_file i fs else fs) ≡ file_at n fs
    either true =
        let below : i < n = h.0 in
        let other : (i == n) ≡ false = ground arith in file_at-remove_file n i fs other
    either false = refl

-- A file with a new number does not touch the tables of older numbers.
pub load_tables-write_file :
    (n : ℕ) (t : Option Table) (is : List ℕ) (fs : Files)
    → AllBelow n is
    → load_tables is (write_file n t fs) ≡ load_tables is fs
unfolding load_tables
load_tables-write_file n t [] fs h = refl
load_tables-write_file n t (i ∷ is) fs h =
    rw (file_at-write_file i n t fs h.0, load_tables-write_file n t is fs h.1) refl

pub load_tables_first :
    (n : ℕ) (t : Table) (is : List ℕ) (ts : List (ℕ × Table)) (fs : Files)
    → AllBelow n is
    → load_tables is fs ≡ some ts
    → load_tables (n ∷ is) (write_file n (some t) fs) ≡ some ((n, t) ∷ ts)
unfolding load_tables
load_tables_first n t is ts fs h e =
    rw (file_at_written n (some t) fs, load_tables-write_file n (some t) is fs h, e) refl

pub load_tables_only :
    (goes : ℕ → Bool) (n : ℕ) (t : Table) (old : List ℕ) (fs : Files)
    → AllBelow n old
    → load_tables (n ∷ []) (remove_all goes old (write_file n (some t) fs)) ≡ some ((n, t) ∷ [])
unfolding load_tables
load_tables_only goes n t old fs h =
    rw (file_at-remove_all goes n old (write_file n (some t) fs) h, file_at_written n (some t) fs)
      refl
