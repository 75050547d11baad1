-- ===== src/Dlock/Lease.antt =====
-- What a command of pkg/dlock/dlock.go does to each lock, and that a live lease belongs to its
-- owner.
use shardlands.Prelude.{
  ℕ, ◌+◌, ◌<◌, ◌≡◌, ◌≢◌, refl, Bool, true, false, ◌&&◌, ◌||◌, Option, none, some, [], ◌∷◌, String,
  str_eq, str_eq_iff, arith, leb, ltb, if◌then◌else◌, Dict, lookup, lookup-insert, lookup-delete,
}
use shardlands.Dlock.Replica.{
  Command, Entry, Replica, Log, apply_acquire, apply_renew, apply_release, apply_command, apply,
  get, apply_all,
}

-- A lock that a client may take: it is free, its lease has run out, or it is the client's own.
abbrev pub may_take : String → ℕ → Option Entry → Bool
may_take owner now none = true
may_take owner now (some e) = leb e.expires now || str_eq e.owner owner

abbrev pub is_live_own : String → ℕ → Option Entry → Bool
is_live_own owner now none = false
is_live_own owner now (some e) = ltb now e.expires && str_eq e.owner owner

abbrev pub is_own : String → Option Entry → Bool
is_own owner none = false
is_own owner (some e) = str_eq e.owner owner

abbrev pub extend : ℕ → Option Entry → Option Entry
extend until none = none
extend until (some e) = some (record e { expires = until })

-- One lock under a command, as its contract has it.
unfoldable pub transition : ℕ → Command → Option Entry → Option Entry
transition index c lock =
    if str_eq c.op "acquire"
    then (if may_take c.owner c.now lock
        then some (record { owner = c.owner; expires = c.now + c.ttl; token = index })
        else lock)
    else if str_eq c.op "renew"
    then (if is_live_own c.owner c.now lock then extend (c.now + c.ttl) lock else lock)
    else if str_eq c.op "release"
    then (if is_own c.owner lock then none else lock)
    else lock

module _ (c : Command) (key : String) (locks : Dict Entry) where
  lookup-acquire :
      (index : ℕ) (cur : Option Entry)
      → lookup c.key locks ≡ cur
      → lookup key (apply_acquire index c cur locks) ≡ (
          if str_eq c.key key
          then (if may_take c.owner c.now cur
              then some (record { owner = c.owner; expires = c.now + c.ttl; token = index })
              else cur)
          else lookup key locks)
  unfolding apply_acquire
  lookup-acquire index none h = lookup-insert c.key key _ locks
  lookup-acquire index (some e) h = ground (
    arith,
    str_eq_iff c.key key,
    lookup-insert c.key key (record { owner = c.owner; expires = c.now + c.ttl; token = index })
        locks,
  )

  lookup-renew :
      (cur : Option Entry)
      → lookup c.key locks ≡ cur
      → lookup key (apply_renew c cur locks) ≡ (
          if str_eq c.key key
          then (if is_live_own c.owner c.now cur then extend (c.now + c.ttl) cur else cur)
          else lookup key locks)
  unfolding apply_renew
  lookup-renew none h = ground (arith, str_eq_iff c.key key)
  lookup-renew (some e) h = ground (
    arith,
    str_eq_iff c.key key,
    lookup-insert c.key key (record e { expires = c.now + c.ttl }) locks,
  )

  lookup-release :
      (cur : Option Entry)
      → lookup c.key locks ≡ cur
      → lookup key (apply_release c cur locks) ≡ (
          if str_eq c.key key then (if is_own c.owner cur then none else cur) else lookup key locks)
  unfolding apply_release
  lookup-release none h = ground (arith, str_eq_iff c.key key)
  lookup-release (some e) h =
      ground (arith, str_eq_iff c.key key, lookup-delete {V = Entry} c.key key locks)

-- Applying a command to the table of locks is the transition of the lock that it names, and
-- changes no other lock.
pub lookup-apply_command :
    (index : ℕ) (c : Command) (locks : Dict Entry) (key : String)
    → lookup key (apply_command index c locks)
      ≡ (if str_eq c.key key then transition index c (lookup key locks) else lookup key locks)
unfolding apply_command transition
lookup-apply_command index c locks key = ground (
  arith,
  str_eq_iff c.key key,
  lookup-acquire c key locks index (lookup c.key locks) refl,
  lookup-renew c key locks (lookup c.key locks) refl,
  lookup-release c key locks (lookup c.key locks) refl,
)

-- The commands of a log come before the lease ends, and none is its owner's.
abbrev pub AllForeign : String → ℕ → Log → Type 0
AllForeign owner expires [] = Unit
AllForeign owner expires ((index, none) ∷ log) = AllForeign owner expires log
AllForeign owner expires ((index, some c) ∷ log) =
    ((c.now < expires) × (c.owner ≢ owner)) × AllForeign owner expires log

transition-foreign :
    (index : ℕ) (c : Command) (e : Entry)
    → c.now < e.expires
    → c.owner ≢ e.owner
    → transition index c (some e) ≡ some e
unfolding transition
transition-foreign index c e live other = ground (arith, str_eq_iff e.owner c.owner)

apply-foreign :
    (index : ℕ) (c : Command) (r : Replica) (key : String) (e : Entry)
    → get key r ≡ some e
    → c.now < e.expires
    → c.owner ≢ e.owner
    → get key (apply index (some c) r) ≡ some e
unfolding get apply
apply-foreign index c r key e held live other =
    ground
      (arith, lookup-apply_command index c r.locks key, transition-foreign index c e live other)

-- Mutual exclusion. While a lease lasts by the clocks in the log, no sequence of commands of
-- other clients, whatever their kind and the locks they name, takes the lock, ends it or changes
-- its lease or its token.
pub get-live_lease :
    (log : Log) (r : Replica) (key : String) (e : Entry)
    → get key r ≡ some e
    → AllForeign e.owner e.expires log
    → get key (apply_all log r) ≡ some e
unfolding apply_all
get-live_lease [] r key e held foreign = held
get-live_lease ((index, none) ∷ log) r key e held foreign =
    get-live_lease log (apply index none r) key e (unfold apply get in held) foreign
get-live_lease ((index, some c) ∷ log) r key e held foreign =
    get-live_lease log (apply index (some c) r) key e
      (apply-foreign index c r key e held foreign.0.0 foreign.0.1) foreign.1
