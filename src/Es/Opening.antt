-- ===== src/Es/Opening.antt =====
-- Open of pkg/es/es.go, the scan that builds the index, and runs of Appends.
use shardlands.Prelude.{
  ℕ, ◌+◌, ◌≡◌, refl, ap, ◌∙◌, inl, inr, Bool, true, false, ◌&&◌, List, [], ◌∷◌, ◌++◌, String, arith,
  insert, ◌==◌, str_eq, if◌then◌else◌, Bool-cases,
}
use shardlands.Prelude.Int.{ℤ, pos, negsuc}
use shardlands.Es.Store.{
  Batch, Event, Store, Answer, ok, err, empty_store, version, idx_of, count_in, with_batch, write,
  at_version, is_empty, append,
}

-- The arguments of an Append, and whether its Put goes through
pub record Call (E : Type 0) : Type 0 where
  pub put_ok : Bool
  pub stream : String
  pub expected : ℤ
  pub events : List E

module _ {E : Type 0} where
  -- Open's test for a gap
  abbrev pub is_next : Batch E → Store E → Bool
  is_next b s = (b.first_global == s.global + 1) && (b.first_seq == version b.stream s + 1)

  -- The function that Open hands to Scan, at a batch that follows.
  abbrev pub load : Batch E → Store E → Store E
  load b s =
      count_in b.stream b.events
        (record s { batch_starts = s.batch_starts ++ (b.first_global ∷ []) })

  -- The scan; whether it came to the end. At a gap it stops, and the error is lost: Open assigns
  -- the scan's own result, which is none, to the same variable.
  unfoldable pub scan_batches : List (Batch E) → Store E → Bool × Store E
  scan_batches [] s = (true, s)
  scan_batches (b ∷ bs) s =
      let rest = scan_batches bs (load b s) in if is_next b s then rest else (false, s)

  -- The batches in the order of their keys: each Append puts one above those that are there.
  unfoldable pub in_order : List (ℕ × Batch E) → List (Batch E)
  in_order [] = []
  in_order ((g, b) ∷ db) = in_order db ++ (b ∷ [])

  -- Open, on an engine with these batches
  abbrev pub open_store : List (ℕ × Batch E) → Store E
  open_store db = record (scan_batches (in_order db) empty_store).1 { db = db }

  abbrev pub after : Store E → Answer (List (Event E) × Store E) → Store E
  after s (ok (added, s')) = s'
  after s (err x) = s

  abbrev pub step : Call E → Store E → Store E
  step c s = after s (append c.put_ok c.stream c.expected c.events s)

  unfoldable pub run : List (Call E) → Store E → Store E
  run [] s = s
  run (c ∷ cs) s = run cs (step c s)

  abbrev IsLoaded : Store E → Type 0
  IsLoaded s = scan_batches (in_order s.db) empty_store ≡ (true, record s { db = [] })

  scan_batches-append :
      (l : List (Batch E)) (b : Batch E) (s x : Store E)
      → scan_batches l s ≡ (true, x)
      → scan_batches (l ++ (b ∷ [])) s ≡ scan_batches (b ∷ []) x
  unfolding scan_batches
  scan_batches-append [] b s x h = ap (λ r. scan_batches (b ∷ []) r.1) h
  scan_batches-append (a ∷ l) b s x h = elim (Bool-cases (is_next a s)) [
    | inl follows ↦ rw follows (scan_batches-append l b (load a s) x (rw follows at h))
    | inr gap ↦ let no : false ≡ true = ap (λ r. r.0) (rw gap at h) in cc
  ]

  count_in-db :
      (stream : String) (es : List E) (s : Store E) (db : List (ℕ × Batch E))
      → count_in stream es (record s { db = db }) ≡ record (count_in stream es s) { db = db }
  unfolding count_in
  count_in-db stream [] s db = refl
  count_in-db stream (e ∷ es) s db =
      let g = s.global + 1 in
      count_in-db stream es
        (record s {
          global = g;
          versions = insert stream (version stream s + 1) s.versions;
          stream_idx = insert stream (idx_of stream s ++ (g ∷ [])) s.stream_idx;
        })
        db

  count_in_db : (stream : String) (es : List E) (s : Store E) → (count_in stream es s).db ≡ s.db
  count_in_db stream es s = ap (λ x. x.db) (count_in-db stream es s s.db)

  -- The batch that with_batch puts.
  abbrev batch_of : String → List E → Store E → Batch E
  batch_of stream es s = record {
    stream = stream;
    first_seq = version stream s + 1;
    first_global = s.global + 1;
    events = es;
  }

  written-IsLoaded :
      (stream : String) (es : List E) (s : Store E)
      → IsLoaded s
      → IsLoaded (count_in stream es (with_batch stream es s))
  unfolding in_order scan_batches
  written-IsLoaded stream es s i =
      let b = batch_of stream es s in
      let bare : Store E = record s { db = [] } in
      let same_g : (s.global + 1 == s.global + 1) ≡ true = ground arith in
      let same_v : (version stream s + 1 == version stream s + 1) ≡ true = ground arith in
      let follows : is_next b bare ≡ true = rw (same_g, same_v) refl in
      ap (λ db. scan_batches (in_order db) empty_store)
        (count_in_db stream es (with_batch stream es s))
      ∙ scan_batches-append (in_order s.db) b empty_store bare i
      ∙ rw follows refl
      ∙ ap (λ x. (true, x)) (count_in-db stream es (with_batch stream es s) [])

  write-IsLoaded :
      (put_ok : Bool) (stream : String) (es : List E) (s : Store E)
      → IsLoaded s
      → IsLoaded (after s (write put_ok stream es s))
  write-IsLoaded false stream es s i = i
  write-IsLoaded true stream es s i = written-IsLoaded stream es s i

  at_version-IsLoaded :
      (expected : ℤ) (current : ℕ) (next : Answer (List (Event E) × Store E)) (s : Store E)
      → IsLoaded s
      → IsLoaded (after s next)
      → IsLoaded (after s (at_version expected current next))
  at_version-IsLoaded (negsuc n) current next s i j = j
  at_version-IsLoaded (pos n) current next s i j = elim (Bool-cases (n == current)) [
    | inl same ↦ rw same j
    | inr other ↦ rw other i
  ]

  step-IsLoaded : (c : Call E) (s : Store E) → IsLoaded s → IsLoaded (step c s)
  unfolding append
  step-IsLoaded c s i = elim (Bool-cases (str_eq c.stream "")) [
    | inl unnamed ↦ rw unnamed i
    | inr named ↦ rw named (elim (Bool-cases (is_empty c.events)) [
      | inl none_given ↦ rw none_given i
      | inr given ↦ rw given (
          at_version-IsLoaded c.expected (version c.stream s) (write c.put_ok c.stream c.events s) s
            i (write-IsLoaded c.put_ok c.stream c.events s i))
    ])
  ]

  run-IsLoaded : (cs : List (Call E)) (s : Store E) → IsLoaded s → IsLoaded (run cs s)
  unfolding run
  run-IsLoaded [] s i = i
  run-IsLoaded (c ∷ cs) s i = run-IsLoaded cs (step c s) (step-IsLoaded c s i)

  -- After any run of Appends on a new store, whatever they answer, Open of what the engine then
  -- holds gives the store back as it was, its versions, its index and its last number. A Put that
  -- returns an error has written nothing.
  pub open_store-run :
      (cs : List (Call E)) → open_store (run cs empty_store).db ≡ run cs empty_store
  unfolding scan_batches in_order
  open_store-run cs =
      let s = run cs empty_store in
      ap (λ r. record r.1 { db = s.db }) (run-IsLoaded cs empty_store refl)
