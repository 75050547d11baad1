-- ===== src/Dlock/Replica.antt =====
-- The replicated state machine of pkg/dlock/dlock.go. Clock readings and lease lengths are
-- milliseconds, and not negative.
use shardlands.Prelude.{
  ℕ, ◌+◌, Bool, not, ◌&&◌, ◌||◌, Option, none, some, List, [], ◌∷◌, String, str_eq, leb,
  if◌then◌else◌, Dict, lookup, insert, delete,
}

-- The command in the log; `now` is the leader's clock.
pub record Command : Type 0 where
  pub op : String
  pub key : String
  pub owner : String
  pub ttl : ℕ
  pub now : ℕ

-- The state of a lock; the token is the log index of its acquire.
pub record Entry : Type 0 where
  pub owner : String
  pub expires : ℕ
  pub token : ℕ

pub record Replica : Type 0 where
  pub locks : Dict Entry
  pub applied : ℕ

unfoldable pub new_replica : Replica
new_replica = record { locks = []; applied = 0 }

-- `held && c.NowMs >= cur.ExpiresMs`
abbrev pub expired : Command → Entry → Bool
expired c e = leb e.expires c.now

-- The three cases of apply's switch, on the map entry found under the key.
unfoldable pub apply_acquire : ℕ → Command → Option Entry → Dict Entry → Dict Entry
apply_acquire index c none locks =
    insert c.key (record { owner = c.owner; expires = c.now + c.ttl; token = index }) locks
apply_acquire index c (some cur) locks =
    if expired c cur || str_eq cur.owner c.owner
    then insert c.key (record { owner = c.owner; expires = c.now + c.ttl; token = index }) locks
    else locks

unfoldable pub apply_renew : Command → Option Entry → Dict Entry → Dict Entry
apply_renew c none locks = locks
apply_renew c (some cur) locks =
    if not (expired c cur) && str_eq cur.owner c.owner
    then insert c.key (record cur { expires = c.now + c.ttl }) locks
    else locks

unfoldable pub apply_release : Command → Option Entry → Dict Entry → Dict Entry
apply_release c none locks = locks
apply_release c (some cur) locks = if str_eq cur.owner c.owner then delete c.key locks else locks

unfoldable pub apply_command : ℕ → Command → Dict Entry → Dict Entry
unfolding apply_acquire apply_renew apply_release
apply_command index c locks =
    let cur = lookup c.key locks in
    if str_eq c.op "acquire"
    then apply_acquire index c cur locks
    else if str_eq c.op "renew"
    then apply_renew c cur locks
    else if str_eq c.op "release"
    then apply_release c cur locks
    else locks

-- apply, on the index of the message and the command that its bytes decode to. Bytes that do not
-- decode, such as a new leader's empty entry, only move the applied index.
unfoldable pub apply : ℕ → Option Command → Replica → Replica
apply index none r = record r { applied = index }
apply index (some c) r = record { locks = apply_command index c r.locks; applied = index }

-- get
unfoldable pub get : String → Replica → Option Entry
get key r = lookup key r.locks

-- A log in the order in which the node delivers it.
abbrev pub Log : Type 0
Log = List (ℕ × Option Command)

unfoldable pub apply_all : Log → Replica → Replica
apply_all [] r = r
apply_all ((index, c) ∷ log) r = apply_all log (apply index c r)
