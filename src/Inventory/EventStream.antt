-- ===== src/Inventory/EventStream.antt =====
-- The event store of pkg/es/es.go as the store of services/inventory: the interface that
-- Inventory.Ops takes, filled by Append of one event and ReadStream of a whole stream.
use shardlands.Prelude.{
  suc, ◌+◌, subst, ℕ, ◌≡◌, ◌≢◌, refl, sym, ap, ◌∙◌, Bool, false, List, [], ◌∷◌, ◌++◌, String, arith,
  str_eq, str_eq_iff, str_eq_refl, length, map,
}
use shardlands.Prelude.Int.{ℤ, pos}
use shardlands.Inventory.Balance.{Event}
use shardlands.Inventory.Ops.{Error, Result, EventStore}
use shardlands.Inventory.Ops
use shardlands.Es.Store
use shardlands.Es.Growing.{IsStore, newest}
use shardlands.Es.Keeping.{empty_store-IsStore, grown-IsStore}
use shardlands.Es.Appending.{
  append-grown, append-version, read_stream-append, read_stream-grown_other, read_stream-length,
}

-- A store as Append makes it.
pub record Kept : Type 0 where
  pub store : Store.Store Event
  pub is_store : IsStore store

abbrev pub empty_kept : Kept
empty_kept = record { store = Store.empty_store; is_store = empty_store-IsStore }

ok-injective : {A : Type 0} {x y : A} → Ops.ok x ≡ Ops.ok y → x ≡ y
ok-injective h = cc

abbrev pub error_of : Store.Failure → Error
error_of Store.no_name = Ops.store_failed
error_of Store.no_events = Ops.store_failed
error_of Store.version_conflict = Ops.version_conflict
error_of Store.put_failed = Ops.store_failed
error_of Store.no_batch = Ops.store_failed
error_of Store.panicked = Ops.store_failed

-- What the service reads of the answers.
abbrev pub data_in : Store.Event Event → Event
data_in x = x.data_of

abbrev pub events_of : Store.Answer (List (Store.Event Event)) → Result (List Event)
events_of (Store.ok es) = Ops.ok (map data_in es)
events_of (Store.err x) = Ops.err (error_of x)

abbrev pub kept_by :
    (a : Store.Answer (List (Store.Event Event) × Store.Store Event))
    → ((added : List (Store.Event Event)) (s : Store.Store Event)
        → a ≡ Store.ok (added, s)
        → IsStore s)
    → Result Kept
kept_by (Store.ok (added, s)) i = Ops.ok (record { store = s; is_store = i added s refl })
kept_by (Store.err x) i = Ops.err (error_of x)

pub append-IsStore :
    (put_ok : Bool) (stream : String) (expected : ℤ) (e : Event) (s s' : Store.Store Event)
    (added : List (Store.Event Event))
    → IsStore s
    → Store.append put_ok stream expected (e ∷ []) s ≡ Store.ok (added, s')
    → IsStore s'
append-IsStore put_ok stream expected e s s' added i a =
    let did = append-grown put_ok stream expected e s s' added a in
    subst IsStore (sym did.1) (grown-IsStore stream e s i)

-- `goes` says whether the engine's Put goes through.
abbrev pub append_kept : (Kept → Bool) → String → ℤ → Event → Kept → Result Kept
append_kept goes stream expected e k =
    kept_by (Store.append (goes k) stream expected (e ∷ []) k.store)
      (λ added s. append-IsStore (goes k) stream expected e k.store s added k.is_store)

abbrev pub read_kept : String → Kept → Result (List Event)
read_kept stream k = events_of (Store.read_stream stream 0 0 k.store)

kept_by-ok :
    (a : Store.Answer (List (Store.Event Event) × Store.Store Event))
    (i : (added : List (Store.Event Event)) (s : Store.Store Event)
      → a ≡ Store.ok (added, s)
      → IsStore s)
    (k : Kept)
    → kept_by a i ≡ Ops.ok k
    → (added : List (Store.Event Event)) × (a ≡ Store.ok (added, k.store))
kept_by-ok (Store.ok (added, s)) i k h =
    let same = ok-injective h in (added, ap (λ (x : Kept). Store.ok (added, x.store)) same)
kept_by-ok (Store.err x) i k h = cc

events_of-ok :
    (a : Store.Answer (List (Store.Event Event))) (es : List Event)
    → events_of a ≡ Ops.ok es
    → (read : List (Store.Event Event)) × (a ≡ Store.ok read) × (es ≡ map data_in read)
events_of-ok (Store.ok read) es h = (read, refl, sym (ok-injective h))
events_of-ok (Store.err x) es h = cc

length-map_data : (l : List (Store.Event Event)) → length (map data_in l) ≡ length l
length-map_data [] = refl
length-map_data (x ∷ l) = ap suc (length-map_data l)

map_data-append :
    (l : List (Store.Event Event)) (x : Store.Event Event)
    → map data_in (l ++ (x ∷ [])) ≡ map data_in l ++ (x.data_of ∷ [])
map_data-append [] x = refl
map_data-append (y ∷ l) x = ap (λ t. y.data_of ∷ t) (map_data-append l x)

pub appended :
    (goes : Kept → Bool) (stream : String) (expected : ℤ) (e : Event) (k k' : Kept)
    → append_kept goes stream expected e k ≡ Ops.ok k'
    → (added : List (Store.Event Event)) × (Store.append (goes k) stream expected (e ∷ []) k.store
        ≡ Store.ok (added, k'.store))
appended goes stream expected e k k' a =
    kept_by-ok (Store.append (goes k) stream expected (e ∷ []) k.store)
      (λ added s. append-IsStore (goes k) stream expected e k.store s added k.is_store) k' a

pub reads :
    (put_ok : Bool) (stream : String) (expected : ℤ) (e : Event) (k k' : Kept) (es : List Event)
    → ((added : List (Store.Event Event)) × (Store.append put_ok stream expected (e ∷ []) k.store
          ≡ Store.ok (added, k'.store)))
    → read_kept stream k ≡ Ops.ok es
    → read_kept stream k' ≡ Ops.ok (es ++ (e ∷ []))
reads put_ok stream expected e k k' es (added, a) read =
    let (before, r, q) = events_of-ok (Store.read_stream stream 0 0 k.store) es read in
    let x = newest stream (Store.version stream k.store + 1) e k.store in
    let did = append-grown put_ok stream expected e k.store k'.store added a in
    let grew : Store.read_stream stream 0 0 k'.store ≡ Store.ok (before ++ added) =
      read_stream-append put_ok stream stream expected e k.store k'.store added before k.is_store a
        r
      ∙ rw (str_eq_refl stream) refl in
    ap events_of grew
    ∙ ap (λ l. Ops.ok (map data_in (before ++ l))) did.0
    ∙ ap Ops.ok (map_data-append before x ∙ ap (λ l. l ++ (e ∷ [])) (sym q))

pub version_read :
    (put_ok : Bool) (stream : String) (n : ℕ) (e : Event) (k k' : Kept) (es : List Event)
    → ((added : List (Store.Event Event)) × (Store.append put_ok stream (pos n) (e ∷ []) k.store
          ≡ Store.ok (added, k'.store)))
    → read_kept stream k ≡ Ops.ok es
    → length es ≡ n
version_read put_ok stream n e k k' es (added, a) read =
    let (before, r, q) = events_of-ok (Store.read_stream stream 0 0 k.store) es read in
    ap length q
    ∙ length-map_data before
    ∙ read_stream-length stream k.store before k.is_store r
    ∙ sym (append-version put_ok stream n e k.store (added, k'.store) a)

pub others_read :
    (put_ok : Bool) (stream other : String) (expected : ℤ) (e : Event) (k k' : Kept)
    → ((added : List (Store.Event Event)) × (Store.append put_ok stream expected (e ∷ []) k.store
          ≡ Store.ok (added, k'.store)))
    → stream ≢ other
    → read_kept other k' ≡ read_kept other k
others_read put_ok stream other expected e k k' (added, a) apart =
    let no : str_eq stream other ≡ false = ground (arith, str_eq_iff stream other) in
    let did = append-grown put_ok stream expected e k.store k'.store added a in
    ap (λ s. events_of (Store.read_stream other 0 0 s)) did.1
    ∙ ap events_of (read_stream-grown_other stream other e k.store k.is_store no)

abbrev pub event_store : (Kept → Bool) → EventStore Kept
event_store goes = record {
  read_stream = read_kept;
  append = append_kept goes;
  append-reads = λ stream expected e k k' es a read.
      reads (goes k) stream expected e k k' es (appended goes stream expected e k k' a) read;
  append-version = λ stream n e k k' es a read.
      version_read (goes k) stream n e k k' es (appended goes stream (pos n) e k k' a) read;
  append-others = λ stream other expected e k k' a apart.
      others_read (goes k) stream other expected e k k' (appended goes stream expected e k k' a)
        apart;
}
