-- ===== src/Raft/Election.antt =====
-- Elections, pkg/raft/node.go: startElection with the handling of one answer, becomeLeaderLocked
-- and HandleRequestVote.
use shardlands.Prelude.{
  ℕ, ◌+◌, Bool, true, false, not, ◌&&◌, ◌||◌, Option, none, some, List, [], ◌∷◌, ◌++◌, String,
  str_eq, ltb, leb, ◌==◌, if◌then◌else◌, Dict, insert, u64,
}
use shardlands.Raft.Log.{Entry, term_at, last_log_index}
use shardlands.Raft.Node.{
  candidate, leader, Node, Env, RequestVoteReq, RequestVoteResp, is_leader, is_candidate,
  is_majority, persist, persist_if, reset_election_timer, step_down,
}

-- The loop of becomeLeaderLocked over the peers.
unfoldable pub reset_peers : ℕ → List String → Dict ℕ → Dict ℕ → Dict ℕ × Dict ℕ
reset_peers last [] next matched = (next, matched)
reset_peers last (p ∷ ps) next matched =
    reset_peers last ps (insert p (u64 (last + 1)) next) (insert p 0 matched)

-- becomeLeaderLocked
unfoldable pub become_leader : Env → Node → Node
become_leader env n =
    let n' = record n {
      state = leader;
      log = n.log ++ (record { term = n.term; cmd = [] } ∷ []);
    } in
    let saved = persist n' in
    let (next, matched) =
      reset_peers (last_log_index saved.log) saved.cfg.peers saved.next_index saved.match_index in
    record saved { next_index = next; match_index = matched; last_heartbeat = env.now }

-- One round of startElection: the request that it sends to the peers, if any, and the votes so far.
pub record Round : Type 0 where
  pub req : RequestVoteReq
  pub votes : ℕ

-- The node as startElection makes it a candidate: in a new term, with its own vote, saved, and
-- with its timer restarted.
unfoldable pub stand : Env → Node → Node
stand env n =
    reset_election_timer env
      (persist (record n { state = candidate; term = u64 (n.term + 1); voted_for = n.cfg.id }))

-- startElection up to the sending of the requests. `none` is a return before any request is
-- made; a single node has its majority at once and asks nobody.
unfoldable pub start_election : Env → Node → Node × Option Round
start_election env n =
    if n.stopped || is_leader n.state
    then (n, none)
    else let n' = stand env n in
      let req : RequestVoteReq = record {
        term = n'.term;
        candidate_id = n'.cfg.id;
        last_log_index = last_log_index n'.log;
        last_log_term = term_at n'.log (last_log_index n'.log);
      } in
      if is_majority 1 n'.cfg.peers
      then (become_leader env n', none)
      else (n', some (record { req = req; votes = 1 }))

-- What startElection does with the answer of one peer, `none` if the peer was not reached.
unfoldable pub on_vote_resp : Env → Round → Option RequestVoteResp → Node → Node × Round
on_vote_resp env round none n = (n, round)
on_vote_resp env round (some resp) n =
    if ltb n.term resp.term
    then (persist (step_down env resp.term n), round)
    else if not (is_candidate n.state) || not (n.term == round.req.term) || not resp.granted
    then (n, round)
    else let round' = record round { votes = round.votes + 1 } in
      if is_majority round'.votes n.cfg.peers then (become_leader env n, round') else (n, round')

-- The candidate's log is at least as up to date as the voter's.
abbrev pub up_to_date : RequestVoteReq → List Entry → Bool
up_to_date req log =
    let last_idx = last_log_index log in
    let last_term = term_at log last_idx in
    ltb last_term req.last_log_term
    || ((req.last_log_term == last_term) && leb last_idx req.last_log_index)

-- HandleRequestVote from the test of the request's term on; `changed` is the source's flag.
unfoldable pub cast_vote : Env → RequestVoteReq → Node → Bool → Option RequestVoteResp × Node
cast_vote env req n changed =
    if ltb req.term n.term
    then (some (record { term = n.term; granted = false }), persist_if changed n)
    else if (str_eq n.voted_for "" || str_eq n.voted_for req.candidate_id) && up_to_date req n.log
    then (
      some (record { term = n.term; granted = true }),
      persist (reset_election_timer env (record n { voted_for = req.candidate_id })),
    )
    else (some (record { term = n.term; granted = false }), persist_if changed n)

-- HandleRequestVote. `none` is ErrUnreachable.
unfoldable pub handle_request_vote : Env → RequestVoteReq → Node → Option RequestVoteResp × Node
handle_request_vote env req n =
    if n.stopped
    then (none, n)
    else if ltb n.term req.term
    then cast_vote env req (step_down env req.term n) true
    else cast_vote env req n false
