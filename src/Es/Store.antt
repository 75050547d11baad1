-- ===== src/Es/Store.antt =====
-- The event store of pkg/es/es.go over the storage engine. The engine is the map from the first
-- number of a batch to the batch: Storage.Db.Refines.get-run shows that it is one, for records
-- within the reader's limit, and gkey gives different numbers different keys. JSON, which writes
-- a batch, reads it back. Whether a Put goes through is an argument. The payload of an event is a
-- parameter, and the time is left out. Numbers stay below 2^64: they count events.
use shardlands.Prelude.{
  ℕ, suc, ◌+◌, ◌-◌, Bool, true, false, List, [], ◌∷◌, ◌++◌, Option, none, some, String, ltb, ◌==◌,
  str_eq, if◌then◌else◌, length, take, drop, get_elem?, Dict, lookup, insert,
}
use shardlands.Prelude.Int.{ℤ, pos, negsuc}

-- batchRecord
pub record Batch (E : Type 0) : Type 0 where
  pub stream : String
  pub first_seq : ℕ
  pub first_global : ℕ
  pub events : List E

-- Event
pub record Event (E : Type 0) : Type 0 where
  pub global : ℕ
  pub stream : String
  pub seq : ℕ
  pub data_of : E

-- Store; `db` is the engine's map.
pub record Store (E : Type 0) : Type 0 where
  pub db : List (ℕ × Batch E)
  pub global : ℕ
  pub versions : Dict ℕ
  pub stream_idx : Dict (List ℕ)
  pub batch_starts : List ℕ

pub data Failure : Type 0 where
  no_name no_events version_conflict put_failed no_batch panicked : Failure

pub data Answer (A : Type 0) : Type 0 where
  ok : A → Answer A
  err : Failure → Answer A

abbrev pub or_zero : Option ℕ → ℕ
or_zero none = 0
or_zero (some n) = n

abbrev pub or_none : Option (List ℕ) → List ℕ
or_none none = []
or_none (some l) = l

-- sort.Search for the first start after a number
unfoldable pub search_after : ℕ → List ℕ → ℕ
search_after g [] = 0
search_after g (b ∷ bs) = let rest = search_after g bs in if ltb g b then 0 else suc rest

-- batchStartFor: the start before it; 0 if there is no batch
unfoldable pub batch_start_for : ℕ → List ℕ → ℕ
batch_start_for g starts =
    let i = search_after g starts in
    if i == 0 then or_zero (get_elem? starts 0) else or_zero (get_elem? starts (i - 1))

abbrev pub limited : ℕ → List ℕ → List ℕ
limited limit gs = if limit == 0 then gs else take limit gs

module _ {E : Type 0} where
  -- A store on an empty directory.
  abbrev pub empty_store : Store E
  empty_store = record { db = []; global = 0; versions = []; stream_idx = []; batch_starts = [] }

  -- Version
  abbrev pub version : String → Store E → ℕ
  version stream s = or_zero (lookup stream s.versions)

  -- LastGlobal
  abbrev pub last_global : Store E → ℕ
  last_global s = s.global

  abbrev pub idx_of : String → Store E → List ℕ
  idx_of stream s = or_none (lookup stream s.stream_idx)

  -- db.Get and json.Unmarshal
  unfoldable pub get_batch : ℕ → List (ℕ × Batch E) → Option (Batch E)
  get_batch g [] = none
  get_batch g ((h, b) ∷ bs) = if h == g then some b else get_batch g bs

  -- The loop of Append over the events, after the Put.
  unfoldable pub count_in : String → List E → Store E → Store E
  count_in stream [] s = s
  count_in stream (e ∷ es) s =
      let g = s.global + 1 in
      count_in stream es (record s {
        global = g;
        versions = insert stream (version stream s + 1) s.versions;
        stream_idx = insert stream (idx_of stream s ++ (g ∷ [])) s.stream_idx;
      })

  unfoldable pub numbered : String → ℕ → ℕ → List E → List (Event E)
  numbered stream g seq [] = []
  numbered stream g seq (e ∷ es) =
      record { global = g; stream = stream; seq = seq; data_of = e }
      ∷ numbered stream (g + 1) (seq + 1) es

  -- The store once a batch is put.
  abbrev pub with_batch : String → List E → Store E → Store E
  with_batch stream es s =
      let first = s.global + 1 in
      record s {
        db =
            (
              first,
              record {
                stream = stream;
                first_seq = version stream s + 1;
                first_global = first;
                events = es;
              },
            )
            ∷ s.db;
        batch_starts = s.batch_starts ++ (first ∷ []);
      }

  abbrev pub write : Bool → String → List E → Store E → Answer (List (Event E) × Store E)
  write false stream es s = err put_failed
  write true stream es s = ok (
    numbered stream (s.global + 1) (version stream s + 1) es,
    count_in stream es (with_batch stream es s),
  )

  -- A negative expected version is AnyVersion.
  abbrev pub at_version :
      ℤ → ℕ → Answer (List (Event E) × Store E) → Answer (List (Event E) × Store E)
  at_version (pos n) current next = if n == current then next else err version_conflict
  at_version (negsuc n) current next = next

  abbrev pub is_empty : List E → Bool
  is_empty [] = true
  is_empty (e ∷ es) = false

  -- Append
  unfoldable pub append : Bool → String → ℤ → List E → Store E → Answer (List (Event E) × Store E)
  append put_ok stream expected es s =
      if str_eq stream ""
      then err no_name
      else if is_empty es
      then err no_events
      else at_version expected (version stream s) (write put_ok stream es s)

  -- The loop of ReadStream; `start` and `cached` are the batch that was read last.
  abbrev pub prepend : Event E → Answer (List (Event E)) → Answer (List (Event E))
  prepend e (ok es) = ok (e ∷ es)
  prepend e (err x) = err x

  abbrev pub take_event :
      String → ℕ → ℕ → Option E → Answer (List (Event E)) → Answer (List (Event E))
  take_event stream g seq none rest = err panicked
  take_event stream g seq (some e) rest =
      prepend (record { global = g; stream = stream; seq = seq; data_of = e }) rest

  abbrev pub from_batch :
      String
      → ℕ
      → ℕ
      → Option (Batch E)
      → (Batch E → Answer (List (Event E)))
      → Answer (List (Event E))
  from_batch stream g seq none rest = err no_batch
  from_batch stream g seq (some b) rest =
      if ltb g b.first_global
      then err panicked
      else take_event stream g seq (get_elem? b.events (g - b.first_global)) (rest b)

  unfoldable pub read_loop : String → ℕ → ℕ → Batch E → List ℕ → Store E → Answer (List (Event E))
  read_loop stream seq start cached [] s = ok []
  read_loop stream seq start cached (g ∷ gs) s =
      let next = batch_start_for g s.batch_starts in
      from_batch stream g seq (if next == start then some cached else get_batch next s.db)
        (λ b. read_loop stream (seq + 1) next b gs s)

  abbrev pub no_batch_yet : Batch E
  no_batch_yet = record { stream = ""; first_seq = 0; first_global = 0; events = [] }

  -- ReadStream; a limit of 0 is none.
  unfoldable pub read_stream : String → ℕ → ℕ → Store E → Answer (List (Event E))
  read_stream stream from limit s =
      let first = if from == 0 then 1 else from in
      let idx = idx_of stream s in
      if ltb (length idx) first
      then ok []
      else read_loop stream first 0 no_batch_yet (limited limit (drop (first - 1) idx)) s
