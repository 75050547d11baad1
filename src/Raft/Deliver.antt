-- ===== src/Raft/Deliver.antt =====
-- The timer and the apply loop, pkg/raft/node.go: one round of ticker and of applier.
use shardlands.Prelude.{
  ℕ, zero, suc, ◌-◌, Option, none, some, List, [], ◌∷◌, leb, if◌then◌else◌, get_elem?,
}
use shardlands.Raft.Log.{Entry}
use shardlands.Raft.Node.{Node, Env, ApplyMsg, is_leader}

-- What a tick starts once the lock is released.
pub data Action : Type 0 where
  quit replicate elect wait : Action

-- One round of ticker.
unfoldable pub tick : Env → Node → Action × Node
tick env n =
    if n.stopped
    then (quit, n)
    else if is_leader n.state
    then (if leb n.cfg.heartbeat_interval (env.now - n.last_heartbeat)
        then (replicate, record n { last_heartbeat = env.now })
        else (wait, n))
    else if leb n.election_timeout (env.now - n.election_reset)
    then (elect, n)
    else (wait, n)

-- The message for index i; `none` is a read past the end of the log, which panics.
abbrev pub message_of : ℕ → Option Entry → Option ApplyMsg
message_of i none = none
message_of i (some e) = some (record { index = i; term = e.term; cmd = e.cmd })

abbrev pub cons? : Option ApplyMsg → Option (List ApplyMsg) → Option (List ApplyMsg)
cons? none _ = none
cons? (some m) none = none
cons? (some m) (some ms) = some (m ∷ ms)

-- The messages for `count` indices after `done`: index i is `log[i - 1]`.
unfoldable pub messages : List Entry → ℕ → ℕ → Option (List ApplyMsg)
messages log done zero = some []
messages log done (suc count) =
    cons? (message_of (suc done) (get_elem? log done)) (messages log (suc done) count)

-- One round of applier: what it delivers, and the node. It waits, and delivers nothing, while
-- there is nothing new or the node is stopped.
unfoldable pub deliver : Node → Option (List ApplyMsg) × Node
unfolding messages
deliver n =
    if n.stopped
    then (some [], n)
    else if leb n.commit_index n.last_applied
    then (some [], n)
    else (
      messages n.log n.last_applied (n.commit_index - n.last_applied),
      record n { last_applied = n.commit_index },
    )
