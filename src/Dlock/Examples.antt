-- ===== src/Dlock/Examples.antt =====
-- The locks of pkg/dlock on small logs, and the theorems at them.
use shardlands.Prelude.{
  ℕ, ◌<◌, ◌≡◌, ◌≢◌, refl, true, false, Option, none, some, List, [], ◌∷◌, String, str_eq_iff, arith,
  lookup, insert,
}
use mathlib.Core.Bool.{false≢true}
use shardlands.Dlock.Replica.{
  Command, Entry, Replica, Log, new_replica, apply_command, apply, get, apply_all,
}
use shardlands.Raft.Node.{Node, leader, quorum_active}
use shardlands.Raft.Replication.{propose}
use shardlands.Dlock.Manager.{ok, World, propose_command, acquire, renew}
use shardlands.Dlock.Manager.Answers.{acquire-decides, renew-decides}
use shardlands.Dlock.Lease.{get-live_lease}
use shardlands.Dlock.Fencing.{IsLogAfter, fencing}

abbrev cmd : String → String → ℕ → Option Command
cmd op owner now = some (record { op = op; key = "k"; owner = owner; ttl = 10; now = now })

abbrev first : Log
first = (1, none) ∷ (2, cmd "acquire" "ann" 100) ∷ []

abbrev entry : String → ℕ → ℕ → Entry
entry owner expires token = record { owner = owner; expires = expires; token = token }

ann_holds : get "k" (apply_all first new_replica) ≡ some (entry "ann" 110 2)
unfolding get apply_all apply apply_command new_replica lookup insert
ann_holds = refl

-- Bob fails to take the lock, to renew it and to release it.
abbrev attempts : Log
attempts =
    (3, cmd "acquire" "bob" 105) ∷ (4, cmd "renew" "bob" 106) ∷ (5, cmd "release" "bob" 109) ∷ []

bob_not_ann : ◌≢◌ {A = String} "bob" "ann"
bob_not_ann e = false≢true ((str_eq_iff "bob" "ann").1 e)

get-live_lease_example :
    get "k" (apply_all attempts (apply_all first new_replica)) ≡ some (entry "ann" 110 2)
get-live_lease_example =
    get-live_lease attempts (apply_all first new_replica) "k" (entry "ann" 110 2) ann_holds
      ((omega arith, bob_not_ann), ((omega arith, bob_not_ann), ((omega arith, bob_not_ann), tt)))

-- After the lease Bob has the lock, with a larger token.
abbrev takeover : Log
takeover = (3, cmd "acquire" "bob" 105) ∷ (7, cmd "acquire" "bob" 110) ∷ []

bob_holds : get "k" (apply_all takeover (apply_all first new_replica)) ≡ some (entry "bob" 120 7)
unfolding get apply_all apply apply_command new_replica lookup insert
bob_holds = refl

log_after : IsLogAfter (apply_all first new_replica).applied takeover
unfolding apply_all apply new_replica
log_after = omega arith

fencing_example : 2 < 7
fencing_example =
    fencing first takeover "k" {e = entry "ann" 110 2} {e' = entry "bob" 120 7} (omega arith)
      log_after ann_holds bob_holds bob_not_ann

-- A cluster of one member, which leads, and whose replica is polled once the command is applied.
abbrev lone : Node
lone = record {
  cfg = record {
    id = "l0";
    peers = [];
    election_timeout_min = 150;
    election_timeout_max = 300;
    heartbeat_interval = 50;
    tick_interval = 10;
  };
  state = leader;
  term = 1;
  voted_for = "l0";
  log = record { term = 1; cmd = [] } ∷ [];
  commit_index = 1;
  last_applied = 1;
  next_index = [];
  match_index = [];
  last_ack = [];
  election_reset = 0;
  election_timeout = 150;
  last_heartbeat = 0;
  stopped = false;
  storage = record { term = 1; voted_for = "l0"; log = record { term = 1; cmd = [] } ∷ [] };
}

abbrev no_bytes : Command → List ℕ
no_bytes c = []

abbrev request : String → Command
request op = record { op = op; key = "k"; owner = "ann"; ttl = 10; now = 100 }

abbrev world : String → Replica → World
world op r = record {
  members = record { id = "l0"; node = lone; replica = r } ∷ [];
  env = record { now = 100; jitter = 0 };
  polls = r ∷ apply 2 (some (request op)) r ∷ [];
  later = 104;
}

abbrev idle : Replica
idle = record { locks = []; applied = 1 }

proposed :
    propose_command no_bytes (world "acquire" idle) (request "acquire")
    ≡ ok (apply 2 (some (request "acquire")) idle)
unfolding propose_command propose quorum_active apply apply_command
proposed = refl

acquire-decides_example : acquire no_bytes (world "acquire" idle) "k" "ann" 10 ≡ ok (2, true)
unfolding get lookup
acquire-decides_example =
    acquire-decides no_bytes (world "acquire" idle) "k" "ann" 10 2 idle proposed

renew_proposed :
    propose_command no_bytes (world "renew" idle) (request "renew")
    ≡ ok (apply 2 (some (request "renew")) idle)
unfolding propose_command propose quorum_active apply apply_command
renew_proposed = refl

renew-decides_example : renew no_bytes (world "renew" idle) "k" "ann" 10 ≡ ok false
unfolding get lookup
renew-decides_example =
    renew-decides no_bytes (world "renew" idle) "k" "ann" 10 2 idle (omega arith) renew_proposed
