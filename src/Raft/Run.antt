-- ===== src/Raft/Run.antt =====
-- The life of one node: any sequence of calls, answers, timer rounds, crashes and restarts, as
-- pkg/raft/node.go serialises them under its lock.
pub mod Progress
pub mod Ballots
use shardlands.Prelude.{
  ℕ, ◌+◌, ◌<◌, ◌≡◌, ◌≢◌, Bool, ◌||◌, Option, none, some, List, [], ◌∷◌, String, if◌then◌else◌,
}
use shardlands.Raft.Log.{Entry}
use shardlands.Raft.Node.{
  Node, Env, RequestVoteReq, RequestVoteResp, AppendEntriesReq, AppendEntriesResp, is_leader,
  new_node, stop,
}
use shardlands.Raft.Election.{Round, start_election, on_vote_resp, handle_request_vote}
use shardlands.Raft.Replication.{propose, on_append_resp, handle_append_entries}
use shardlands.Raft.Deliver.{tick, deliver}

pub data Event : Type 0 where
  ask_vote : Env → RequestVoteReq → Event
  ask_append : Env → AppendEntriesReq → Event
  elect : Env → Event
  vote_answer : Env → Round → Option RequestVoteResp → Event
  append_answer : Env → String → AppendEntriesReq → Option AppendEntriesResp → Event
  command : Env → List ℕ → Event
  timer : Env → Event
  apply : Event
  halt : Event
  -- the process ends; a new node starts from the same storage
  restart : Env → Event

-- A vote that leaves the node: its own when it stands, or one that it grants.
pub record Ballot : Type 0 where
  pub term : ℕ
  pub candidate : String

abbrev pub granted_ballot : RequestVoteReq → Option RequestVoteResp → Option Ballot
granted_ballot req none = none
granted_ballot req (some r) =
    if r.granted then some (record { term = r.term; candidate = req.candidate_id }) else none

abbrev pub or_same : Node → Option Node → Node
or_same n none = n
or_same n (some m) = m

unfoldable pub step : Event → Node → Node × Option Ballot
step (ask_vote env req) n =
    let (resp, n') = handle_request_vote env req n in (n', granted_ballot req resp)
step (ask_append env req) n = ((handle_append_entries env req n).1, none)
step (elect env) n =
    let n' = (start_election env n).0 in
    (
      n',
      if n.stopped || is_leader n.state
          then none
          else some (record { term = n'.term; candidate = n.cfg.id }),
    )
step (vote_answer env round resp) n = ((on_vote_resp env round resp n).0, none)
step (append_answer env peer req resp) n = ((on_append_resp env peer req resp n).0, none)
step (command env cmd) n = ((propose env cmd n).1, none)
step (timer env) n = ((tick env n).1, none)
step apply n = ((deliver n).1, none)
step halt n = (stop n, none)
step (restart env) n = (or_same n (new_node env n.cfg n.storage), none)

abbrev pub add_ballot : Option Ballot → List Ballot → List Ballot
add_ballot none bs = bs
add_ballot (some b) bs = b ∷ bs

-- The node after the events, and the votes that left it, the last one first.
unfoldable pub run : List Event → Node → List Ballot → Node × List Ballot
run [] n bs = (n, bs)
run (e ∷ es) n bs = let (n', b) = step e n in run es n' (add_ballot b bs)

-- Candidates have a name, as NewNode demands, and the term has room for one more election.
abbrev pub IsProper : Event → Node → Type 0
IsProper (ask_vote env req) n = req.candidate_id ≢ ""
IsProper (elect env) n = n.term + 1 < 18446744073709551616
IsProper _ n = Unit

abbrev pub AllProper : List Event → Node → Type 0
AllProper [] n = Unit
AllProper (e ∷ es) n = IsProper e n × AllProper es (step e n).0
