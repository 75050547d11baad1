-- ===== src/Dlock/Manager.antt =====
-- The clients' side of pkg/dlock/dlock.go. What a call sees of the cluster comes in as
-- arguments: the members, the replica as waitApplied polls it, and the clock when the call
-- decides. JSON is a parameter.
pub mod Answers
use shardlands.Prelude.{
  ℕ, ◌+◌, ◌<◌, ◌≤◌, ◌*◌, ◌≡◌, ◌≢◌, refl, ◌∙◌, sym, Bool, true, false, not, ◌&&◌, ◌||◌, Option, none,
  some, List, [], ◌∷◌, map, String, str_eq, str_eq_iff, str_eq_refl, arith, leb, ltb, if◌then◌else◌,
  Dict, lookup, Bool-cases,
}
use shardlands.Raft.Node
use shardlands.Raft.Node.{Node, Env, quorum_active}
use shardlands.Raft.Replication
use shardlands.Raft.Replication.{propose}
use shardlands.Dlock.Replica.{Command, Entry, Replica, Log, apply_command, apply, get, apply_all}
use shardlands.Dlock.Lease.{transition, may_take, lookup-apply_command}

pub data Error : Type 0 where
  no_quorum timeout : Error

pub data Result (A : Type 0) : Type 0 where
  ok : A → Result A
  err : Error → Result A

abbrev pub quorum_window : ℕ
quorum_window = 200

-- Options.withDefaults, in milliseconds
pub record Options : Type 0 where
  pub replicas : ℕ
  pub election_min : ℕ
  pub election_max : ℕ
  pub heartbeat : ℕ
  pub tick : ℕ
  pub commit_timeout : ℕ

unfoldable pub with_defaults : Options → Options
with_defaults o =
    let lo = if leb o.election_min 0 then 150 else o.election_min in
    record {
      replicas = if leb o.replicas 0 then 3 else o.replicas;
      election_min = lo;
      election_max = if leb o.election_max lo then 2 * lo else o.election_max;
      heartbeat = if leb o.heartbeat 0 then 50 else o.heartbeat;
      tick = if leb o.tick 0 then 10 else o.tick;
      commit_timeout = if leb o.commit_timeout 0 then 3000 else o.commit_timeout;
    }

-- A member of the cluster: its Raft node and its own state machine.
pub record Member : Type 0 where
  pub id : String
  pub node : Node
  pub replica : Replica

-- leader: the first member that leads with a majority in touch.
unfoldable pub leader : ℕ → List Member → Option Member
leader now [] = none
leader now (m ∷ ms) =
    let rest = leader now ms in if quorum_active now quorum_window m.node then some m else rest

-- waitApplied, over the states of the replica as they are polled until the deadline.
unfoldable pub wait_applied : ℕ → List Replica → Result Replica
wait_applied index [] = err timeout
wait_applied index (r ∷ polls) =
    let rest = wait_applied index polls in if ltb r.applied index then rest else ok r

-- What a call reads of the world: the members and the clock when it proposes, the polls of the
-- leader's replica, and the clock when it decides.
pub record World : Type 0 where
  pub members : List Member
  pub env : Env
  pub polls : List Replica
  pub later : ℕ

abbrev pub and_wait : List Replica → ℕ × ℕ × Bool → Result Replica
and_wait polls (index, term, accepted) =
    if accepted then wait_applied index polls else err no_quorum

abbrev pub propose_to : World → List ℕ → Option Member → Result Replica
propose_to w bytes none = err no_quorum
propose_to w bytes (some m) = and_wait w.polls (propose w.env bytes m.node).0

-- `held && e.Owner == owner && now < e.ExpiresMs`
abbrev pub owns : String → ℕ → Option Entry → Bool
owns owner now none = false
owns owner now (some e) = str_eq e.owner owner && ltb now e.expires

abbrev pub token_of : Option Entry → ℕ
token_of none = 0
token_of (some e) = e.token

abbrev pub command : String → World → String → String → ℕ → Command
command op w key owner ttl = record {
  op = op;
  key = key;
  owner = owner;
  ttl = ttl;
  now = w.env.now;
}

abbrev pub granted : String → ℕ → Option Entry → ℕ × Bool
granted owner now e = if owns owner now e then (token_of e, true) else (0, false)

-- What Acquire, Renew and Release make of the outcome of their proposal.
abbrev pub acquire_answer : String → String → ℕ → Result Replica → Result (ℕ × Bool)
acquire_answer key owner now (err e) = err e
acquire_answer key owner now (ok lead) = ok (granted owner now (get key lead))

abbrev pub renew_answer : String → String → ℕ → Result Replica → Result Bool
renew_answer key owner now (err e) = err e
renew_answer key owner now (ok lead) = ok (owns owner now (get key lead))

abbrev pub release_answer : Result Replica → Option Error
release_answer (err e) = some e
release_answer (ok lead) = none

module _ (encode : Command → List ℕ) where
  -- propose
  unfoldable pub propose_command : World → Command → Result Replica
  unfolding leader wait_applied
  propose_command w c = propose_to w (encode c) (leader w.env.now w.members)

  -- Acquire: the token, and whether the lock was taken.
  unfoldable pub acquire : World → String → String → ℕ → Result (ℕ × Bool)
  acquire w key owner ttl =
      acquire_answer key owner w.later (propose_command w (command "acquire" w key owner ttl))

  -- Renew
  unfoldable pub renew : World → String → String → ℕ → Result Bool
  renew w key owner ttl =
      renew_answer key owner w.later (propose_command w (command "renew" w key owner ttl))

  -- Release: `none` is success.
  unfoldable pub release : World → String → String → Option Error
  release w key owner = release_answer (propose_command w (command "release" w key owner 0))

-- Holder: the owner and the token, of a lock whose lease lasts.
abbrev pub live_entry : ℕ → Option Entry → Option (String × ℕ)
live_entry now none = none
live_entry now (some e) = if leb e.expires now then none else some (e.owner, e.token)

abbrev pub holder_at : ℕ → String → Option Member → Option (String × ℕ)
holder_at now key none = none
holder_at now key (some m) = live_entry now (get key m.replica)

unfoldable pub holder : ℕ → List Member → String → Option (String × ℕ)
holder now members key = holder_at now key (leader now members)

-- ReplicaView
unfoldable pub replica_view : String → String → List Member → Option Entry
replica_view id key [] = none
replica_view id key (m ∷ ms) = if str_eq m.id id then get key m.replica else replica_view id key ms

-- IDs
unfoldable pub ids : List Member → List String
ids members = map (λ m. m.id) members
