-- ===== src/Raft/Replication.antt =====
-- Replication, pkg/raft/node.go: Propose, replicateTo in its two halves, advanceCommitLocked and
-- HandleAppendEntries.
use shardlands.Prelude.{
  ℕ, zero, suc, ◌+◌, ◌-◌, Bool, true, false, not, ◌||◌, Option, none, some, List, [], ◌∷◌, ◌++◌,
  String, min, ltb, leb, ◌==◌, if◌then◌else◌, length, drop, Dict, insert, count_of, u64,
}
use shardlands.Raft.Log.{Entry, term_at, last_log_index, append_loop}
use shardlands.Raft.Node.{
  follower, Node, Env, AppendEntriesReq, AppendEntriesResp, is_leader, is_majority, persist,
  persist_if, reset_election_timer, step_down,
}

-- Propose: (index, term, isLeader). Sending to the peers is `replicate_to` for each of them.
unfoldable pub propose : Env → List ℕ → Node → (ℕ × ℕ × Bool) × Node
propose env cmd n =
    if n.stopped || not (is_leader n.state)
    then ((0, 0, false), n)
    else let n' = record n { log = n.log ++ (record { term = n.term; cmd = cmd } ∷ []) } in
      ((last_log_index n'.log, n'.term, true), record (persist n') { last_heartbeat = env.now })

-- What replicateTo does before it sends.
pub data Outgoing : Type 0 where
  idle : Outgoing
  panic : Outgoing
  send : AppendEntriesReq → Outgoing

-- replicateTo up to the request. `n.log[next-1:]` panics unless 1 ≤ next ≤ len + 1.
unfoldable pub replicate_to : String → Node → Outgoing
replicate_to peer n =
    let next = count_of peer n.next_index in
    if n.stopped || not (is_leader n.state)
    then idle
    else if (next == 0) || ltb (length n.log + 1) next
    then panic
    else send (record {
      term = n.term;
      leader_id = n.cfg.id;
      prev_log_index = next - 1;
      prev_log_term = term_at n.log (next - 1);
      entries = drop (next - 1) n.log;
      leader_commit = n.commit_index;
    })

-- How many peers hold index N.
unfoldable pub count_matching : ℕ → Dict ℕ → List String → ℕ
count_matching N matched [] = 0
count_matching N matched (p ∷ ps) =
    (if leb N (count_of p matched) then 1 else 0) + count_matching N matched ps

-- The loop of advanceCommitLocked, from N down to the commit index; the result is the new one.
unfoldable pub commit_loop : ℕ → Node → ℕ
commit_loop zero n = n.commit_index
commit_loop (suc m) n =
    let N = suc m in
    let rest = commit_loop m n in
    if leb N n.commit_index
    then n.commit_index
    else if not (term_at n.log N == n.term)
    then n.commit_index
    else if is_majority (1 + count_matching N n.match_index n.cfg.peers) n.cfg.peers
    then N
    else rest

-- advanceCommitLocked
unfoldable pub advance_commit : Node → Node
advance_commit n = record n { commit_index = commit_loop (last_log_index n.log) n }

-- What replicateTo does with the answer to `req`, `none` if the peer was not reached. The answer
-- also says whether the source starts another replicateTo at once.
unfoldable pub on_append_resp :
    Env → String → AppendEntriesReq → Option AppendEntriesResp → Node → Node × Bool
on_append_resp env peer req none n = (n, false)
on_append_resp env peer req (some resp) n =
    if ltb n.term resp.term
    then (persist (step_down env resp.term n), false)
    else if not (is_leader n.state) || not (n.term == req.term)
    then (n, false)
    else let n1 = record n { last_ack = insert peer env.now n.last_ack } in
      let m = u64 (req.prev_log_index + length req.entries) in
      let matched =
        if ltb (count_of peer n1.match_index) m
        then insert peer m n1.match_index
        else n1.match_index in
      if resp.success
      then (
        advance_commit (record n1 {
          match_index = matched;
          next_index = insert peer (u64 (count_of peer matched + 1)) n1.next_index;
        }),
        false,
      )
      else (
        record n1 {
          next_index =
              if ltb 1 (count_of peer n1.next_index)
              then insert peer (count_of peer n1.next_index - 1) n1.next_index
              else n1.next_index;
        },
        true,
      )

-- `if req.LeaderCommit > n.commitIndex { ... }`
abbrev pub follow_commit : AppendEntriesReq → ℕ → ℕ
follow_commit req commit =
    if ltb commit req.leader_commit
    then min req.leader_commit (u64 (req.prev_log_index + length req.entries))
    else commit

-- The log does not hold `prev` as the leader's does.
abbrev pub inconsistent : AppendEntriesReq → List Entry → Bool
inconsistent req log =
    ltb (last_log_index log) req.prev_log_index
    || not (term_at log req.prev_log_index == req.prev_log_term)

-- HandleAppendEntries from the test of the request's term on.
unfoldable pub accept_entries :
    Env → AppendEntriesReq → Node → Bool → Option AppendEntriesResp × Node
accept_entries env req n changed =
    if ltb req.term n.term
    then (some (record { term = n.term; success = false }), persist_if changed n)
    else let n1 = reset_election_timer env (record n { state = follower }) in
      if inconsistent req n1.log
      then (some (record { term = n1.term; success = false }), persist_if changed n1)
      else let (log', wrote) = append_loop n1.log (req.prev_log_index + 1) req.entries in
        (
          some (record { term = n1.term; success = true }),
          persist_if (changed || wrote)
              (record n1 { log = log'; commit_index = follow_commit req n1.commit_index }),
        )

-- HandleAppendEntries. `none` is ErrUnreachable.
unfoldable pub handle_append_entries :
    Env → AppendEntriesReq → Node → Option AppendEntriesResp × Node
handle_append_entries env req n =
    if n.stopped
    then (none, n)
    else if ltb n.term req.term
    then accept_entries env req (step_down env req.term n) true
    else accept_entries env req n false
