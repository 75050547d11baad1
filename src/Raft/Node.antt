-- ===== src/Raft/Node.antt =====
-- A Raft node, pkg/raft/node.go, its messages, pkg/raft/raft.go, and the storage of
-- pkg/raft/storage.go. Each method takes the node and returns it; `Env` carries the clock and the
-- random number that one call reads. What is shared by all methods under the lock is the node.
use shardlands.Prelude.{
  ℕ, ◌+◌, ◌-◌, ◌*◌, Bool, true, false, not, ◌||◌, Option, none, some, List, [], ◌∷◌, String, str_eq,
  ltb, leb, if◌then◌else◌, length, Dict, lookup,
}
use shardlands.Raft.Log.{Entry}

pub data State : Type 0 where
  follower candidate leader : State

unfoldable pub state_name : State → String
state_name leader = "leader"
state_name candidate = "candidate"
state_name follower = "follower"

abbrev pub is_leader : State → Bool
is_leader leader = true
is_leader _ = false

abbrev pub is_candidate : State → Bool
is_candidate candidate = true
is_candidate _ = false

-- What must survive a crash.
pub record HardState : Type 0 where
  pub term : ℕ
  pub voted_for : String
  pub log : List Entry

pub record ApplyMsg : Type 0 where
  pub index : ℕ
  pub term : ℕ
  pub cmd : List ℕ

pub record RequestVoteReq : Type 0 where
  pub term : ℕ
  pub candidate_id : String
  pub last_log_index : ℕ
  pub last_log_term : ℕ

pub record RequestVoteResp : Type 0 where
  pub term : ℕ
  pub granted : Bool

pub record AppendEntriesReq : Type 0 where
  pub term : ℕ
  pub leader_id : String
  pub prev_log_index : ℕ
  pub prev_log_term : ℕ
  pub entries : List Entry
  pub leader_commit : ℕ

pub record AppendEntriesResp : Type 0 where
  pub term : ℕ
  pub success : Bool

-- Identity and timing; the transport and the apply callback are the caller's. Times are in
-- milliseconds.
pub record Config : Type 0 where
  pub id : String
  pub peers : List String
  pub election_timeout_min : ℕ
  pub election_timeout_max : ℕ
  pub heartbeat_interval : ℕ
  pub tick_interval : ℕ

-- Config.withDefaults, its four durations
unfoldable pub with_defaults : Config → Config
with_defaults c =
    let lo = if leb c.election_timeout_min 0 then 150 else c.election_timeout_min in
    record c {
      election_timeout_min = lo;
      election_timeout_max =
          if leb c.election_timeout_max lo then 2 * lo else c.election_timeout_max;
      heartbeat_interval = if leb c.heartbeat_interval 0 then 50 else c.heartbeat_interval;
      tick_interval = if leb c.tick_interval 0 then 10 else c.tick_interval;
    }

-- The state under the lock, and the storage that it is saved to.
pub record Node : Type 0 where
  pub cfg : Config
  pub state : State
  pub term : ℕ
  pub voted_for : String
  pub log : List Entry
  pub commit_index : ℕ
  pub last_applied : ℕ
  pub next_index : Dict ℕ
  pub match_index : Dict ℕ
  pub last_ack : Dict ℕ
  pub election_reset : ℕ
  pub election_timeout : ℕ
  pub last_heartbeat : ℕ
  pub stopped : Bool
  pub storage : HardState

-- What one call reads from outside: time.Now() and rng.Int63n(span + 1).
pub record Env : Type 0 where
  pub now : ℕ
  pub jitter : ℕ

-- MemoryStorage.Save and Load. Lists are values, so the copies that the source makes are the
-- lists themselves.
unfoldable pub save : HardState → HardState → HardState
save old hs = record { term = hs.term; voted_for = hs.voted_for; log = hs.log }

unfoldable pub load : HardState → HardState
load hs = record { term = hs.term; voted_for = hs.voted_for; log = hs.log }

-- persistLocked
unfoldable pub persist : Node → Node
unfolding save
persist n = record n {
  storage = save n.storage (record { term = n.term; voted_for = n.voted_for; log = n.log });
}

-- `if changed { n.persistLocked() }`
abbrev pub persist_if : Bool → Node → Node
persist_if true n = persist n
persist_if false n = n

-- resetElectionTimerLocked
unfoldable pub reset_election_timer : Env → Node → Node
reset_election_timer env n = record n {
  election_reset = env.now;
  election_timeout = n.cfg.election_timeout_min + env.jitter;
}

-- stepDownLocked
unfoldable pub step_down : Env → ℕ → Node → Node
unfolding reset_election_timer
step_down env term n =
    let n' = if ltb n.term term then record n { term = term; voted_for = "" } else n in
    reset_election_timer env (record n' { state = follower })

-- NewNode from a storage; the caller starts the loops. An empty id is refused, as is a missing
-- transport, which this model always has.
unfoldable pub new_node : Env → Config → HardState → Option Node
unfolding with_defaults load reset_election_timer
new_node env config disk =
    let cfg = with_defaults config in
    let hs = load disk in
    if str_eq config.id ""
    then none
    else some (
        reset_election_timer env (record {
          cfg = cfg;
          state = follower;
          term = hs.term;
          voted_for = hs.voted_for;
          log = hs.log;
          commit_index = 0;
          last_applied = 0;
          next_index = [];
          match_index = [];
          last_ack = [];
          election_reset = 0;
          election_timeout = 0;
          last_heartbeat = 0;
          stopped = false;
          storage = disk;
        }))

-- Stop
unfoldable pub stop : Node → Node
stop n = if n.stopped then n else record n { stopped = true }

-- Status
unfoldable pub status : Node → ℕ × Bool
status n = (n.term, is_leader n.state)

-- `votes*2 > len(peers)+1`
abbrev pub is_majority : ℕ → List String → Bool
is_majority votes peers = ltb (length peers + 1) (votes * 2)

-- The peers that answered within the window, as the loop of QuorumActive counts them.
abbrev pub is_recent : ℕ → ℕ → Option ℕ → Bool
is_recent now window none = false
is_recent now window (some t) = leb (now - t) window

unfoldable pub count_recent : ℕ → ℕ → Dict ℕ → List String → ℕ
count_recent now window acks [] = 0
count_recent now window acks (p ∷ ps) =
    (if is_recent now window (lookup p acks) then 1 else 0) + count_recent now window acks ps

-- QuorumActive
unfoldable pub quorum_active : ℕ → ℕ → Node → Bool
unfolding count_recent
quorum_active now window n =
    if n.stopped || not (is_leader n.state)
    then false
    else is_majority (1 + count_recent now window n.last_ack n.cfg.peers) n.cfg.peers
