-- ===== src/Raft/Run/Progress.antt =====
-- What each event keeps of a node, pkg/raft/node.go: its storage, its term and its vote.
use shardlands.Prelude.{
  ◌+◌, ◌≤◌, ◌<◌, ◌≡◌, ◌≢◌, ◌⊎◌, refl, Option, none, some, arith, String, str_eq_iff,
}
use shardlands.Raft.Log.Agreement.{append_loop-unwritten}
use shardlands.Raft.Node.{
  Node, Env, RequestVoteReq, RequestVoteResp, AppendEntriesReq, AppendEntriesResp, persist,
  reset_election_timer, step_down, new_node, stop,
}
use shardlands.Raft.Election.{
  Round, start_election, on_vote_resp, handle_request_vote, cast_vote, become_leader, stand,
}
use shardlands.Raft.Replication.{
  propose, on_append_resp, handle_append_entries, accept_entries, advance_commit,
}
use shardlands.Raft.Deliver.{tick, deliver}
use shardlands.Raft.Run.{
  Event, Ballot, step, IsProper, granted_ballot, ask_vote, ask_append, elect, vote_answer,
  append_answer, command, timer, apply, halt, restart,
}

-- The storage holds the node's hard state.
pub record IsSaved (n : Node) : Type 0 where
  pub term : n.storage.term ≡ n.term
  pub voted_for : n.storage.voted_for ≡ n.voted_for
  pub log : n.storage.log ≡ n.log
  pub named : n.cfg.id ≢ ""

-- From n to n' the term has not gone back, and within one term a vote has not been taken back.
pub record Goes (n n' : Node) : Type 0 where
  pub saved : IsSaved n'
  pub forward : n.term ≤ n'.term
  pub faithful : n.term ≡ n'.term → (n.voted_for ≡ "") ⊎ (n'.voted_for ≡ n.voted_for)

abbrev pub Cast : Node → Option Ballot → Type 0
Cast n none = Unit
Cast n (some b) = (b.term ≡ n.term) × (b.candidate ≡ n.voted_for) × (b.candidate ≢ "")

request_vote-Goes :
    (env : Env) (req : RequestVoteReq) (n : Node)
    → IsSaved n
    → Goes n (handle_request_vote env req n).1
unfolding handle_request_vote cast_vote step_down persist reset_election_timer
request_vote-Goes env req n s =
    ground (arith, str_eq_iff n.voted_for "", str_eq_iff n.voted_for req.candidate_id)

request_vote-Cast :
    (env : Env) (req : RequestVoteReq) (n : Node)
    → req.candidate_id ≢ ""
    → Cast (handle_request_vote env req n).1 (granted_ballot req (handle_request_vote env req n).0)
unfolding handle_request_vote cast_vote step_down persist reset_election_timer
request_vote-Cast env req n named = ground arith

append-Goes :
    (env : Env) (req : AppendEntriesReq) (n : Node)
    → IsSaved n
    → Goes n (handle_append_entries env req n).1
unfolding handle_append_entries accept_entries step_down persist reset_election_timer
append-Goes env req n s =
    ground (arith, append_loop-unwritten n.log (req.prev_log_index + 1) req.entries)

-- A new leader adds its empty entry and saves it.
become_leader-same :
    (env : Env) (n : Node)
    → n.cfg.id ≢ ""
    → IsSaved (become_leader env n)
      × ((become_leader env n).term ≡ n.term)
      × ((become_leader env n).voted_for ≡ n.voted_for)
unfolding become_leader persist
become_leader-same env n named =
    (record { term = refl; voted_for = refl; log = refl; named = named }, refl, refl)

stand-new :
    (env : Env) (n : Node)
    → n.cfg.id ≢ ""
    → n.term + 1 < 18446744073709551616
    → IsSaved (stand env n)
      × ((stand env n).term ≡ n.term + 1)
      × ((stand env n).voted_for ≡ n.cfg.id)
      × ((stand env n).cfg ≡ n.cfg)
unfolding stand persist reset_election_timer
stand-new env n named small = ground arith

elect-Goes :
    (env : Env) (n : Node)
    → IsSaved n
    → n.term + 1 < 18446744073709551616
    → Goes n (start_election env n).0
unfolding start_election
elect-Goes env n s small =
    ground (arith, stand-new env n s.named small, become_leader-same env (stand env n))

elect-Cast :
    (env : Env) (n : Node)
    → IsSaved n
    → n.term + 1 < 18446744073709551616
    → Cast (step (elect env) n).0 (step (elect env) n).1
unfolding step start_election
elect-Cast env n s small =
    ground (arith, stand-new env n s.named small, become_leader-same env (stand env n))

vote_answer-Goes :
    (env : Env) (round : Round) (resp : Option RequestVoteResp) (n : Node)
    → IsSaved n
    → Goes n (on_vote_resp env round resp n).0
unfolding on_vote_resp step_down persist reset_election_timer
vote_answer-Goes env round none n s = ground arith
vote_answer-Goes env round (some r) n s = ground (arith, become_leader-same env n s.named)

append_answer-Goes :
    (env : Env) (peer : String) (req : AppendEntriesReq) (resp : Option AppendEntriesResp)
    (n : Node)
    → IsSaved n
    → Goes n (on_append_resp env peer req resp n).0
unfolding on_append_resp step_down persist reset_election_timer advance_commit
append_answer-Goes env peer req none n s = ground arith
append_answer-Goes env peer req (some r) n s = ground arith

restart-Goes : (env : Env) (n : Node) → IsSaved n → Goes n (step (restart env) n).0
unfolding step new_node
restart-Goes env n s = ground (arith, str_eq_iff n.cfg.id "")

pub step-Goes : (e : Event) (n : Node) → IsSaved n → IsProper e n → Goes n (step e n).0
unfolding step
step-Goes (ask_vote env req) n s p = request_vote-Goes env req n s
step-Goes (ask_append env req) n s p = append-Goes env req n s
step-Goes (elect env) n s p = elect-Goes env n s p
step-Goes (vote_answer env round resp) n s p = vote_answer-Goes env round resp n s
step-Goes (append_answer env peer req resp) n s p = append_answer-Goes env peer req resp n s
step-Goes (command env cmd) n s p = unfold propose persist in ground arith
step-Goes (timer env) n s p = unfold tick in ground arith
step-Goes apply n s p = unfold deliver in ground arith
step-Goes halt n s p = unfold stop in ground arith
step-Goes (restart env) n s p = restart-Goes env n s

pub step-Cast : (e : Event) (n : Node) → IsSaved n → IsProper e n → Cast (step e n).0 (step e n).1
step-Cast (ask_vote env req) n s p = unfold step in request_vote-Cast env req n p
step-Cast (elect env) n s p = elect-Cast env n s p
step-Cast (ask_append env req) n s p = unfold step in tt
step-Cast (vote_answer env round resp) n s p = unfold step in tt
step-Cast (append_answer env peer req resp) n s p = unfold step in tt
step-Cast (command env cmd) n s p = unfold step in tt
step-Cast (timer env) n s p = unfold step in tt
step-Cast apply n s p = unfold step in tt
step-Cast halt n s p = unfold step in tt
step-Cast (restart env) n s p = unfold step in tt
