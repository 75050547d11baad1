-- ===== src/Raft/Follower/Commits.antt =====
-- What HandleAppendEntries, pkg/raft/node.go, does to the entries that a follower has committed,
-- and the requests of replicateTo that make it safe.
use shardlands.Prelude.{
  ℕ, ◌+◌, ◌-◌, ◌≤◌, ◌<◌, ◌≡◌, ap, true, Option, none, some, List, ◌++◌, inl, inr, arith, String,
  length, get_elem?, take, drop, length-take, length-drop, count_of, take-append-drop,
}
use shardlands.Raft.Log.{Entry, term_of, term_at, append_loop}
use shardlands.Raft.Log.Agreement.{append_loop-keeps, length-append_loop}
use shardlands.Raft.Node.{Node, Env, AppendEntriesReq, AppendEntriesResp, is_leader}
use shardlands.Raft.Replication.{send, follow_commit, handle_append_entries, replicate_to}
use shardlands.Raft.Follower.{Outcome, Accepted, Refused, handle_append_entries_lem}

-- The request carries the entries that the follower has committed, as far as the two overlap.
abbrev pub CarriesCommitted : AppendEntriesReq → Node → Type 0
CarriesCommitted req n =
    (i : ℕ) (e : Entry)
    → get_elem? req.entries i ≡ some e
    → req.prev_log_index + i < n.commit_index
    → term_of (get_elem? n.log (req.prev_log_index + i)) ≡ e.term

-- The commit index lies in the log and has not moved back, and what was committed is unchanged.
pub record KeepsCommitted (n n' : Node) : Type 0 where
  pub inside : n'.commit_index ≤ length n'.log
  pub forward : n.commit_index ≤ n'.commit_index
  pub unchanged : take n.commit_index n'.log ≡ take n.commit_index n.log

length_of_take :
    {A : Type 0} (c : ℕ) (xs ys : List A) → take c ys ≡ take c xs → c ≤ length xs → c ≤ length ys
length_of_take c xs ys e h = omega (arith, length-take c xs, length-take c ys, ap length e)

commit_bounds :
    (req : AppendEntriesReq) (commit len : ℕ)
    → req.leader_commit ≤ req.prev_log_index + length req.entries
    → req.prev_log_index + length req.entries < 18446744073709551616
    → req.prev_log_index + length req.entries ≤ len
    → commit ≤ len
    → (commit ≤ follow_commit req commit) × (follow_commit req commit ≤ len)
commit_bounds req commit len reach small below inside = ground arith

module _ (req : AppendEntriesReq) (n : Node) (inside : n.commit_index ≤ length n.log) where
  Refused-KeepsCommitted : (n' : Node) → Refused n n' → KeepsCommitted n n'
  Refused-KeepsCommitted n' r = record {
    inside = rw (r.log, r.commit) inside;
    forward = omega (arith, r.commit);
    unchanged = rw r.log;
  }

  Accepted-KeepsCommitted :
      (n' : Node)
      → req.leader_commit ≤ req.prev_log_index + length req.entries
      → req.prev_log_index + length req.entries < 18446744073709551616
      → CarriesCommitted req n
      → Accepted req n n'
      → KeepsCommitted n n'
  Accepted-KeepsCommitted n' reach small carries a =
      let same =
        append_loop-keeps n.log (req.prev_log_index + 1) req.prev_log_index n.commit_index
          req.entries (omega arith) a.prev_in_log inside carries in
      let log' = (append_loop n.log (req.prev_log_index + 1) req.entries).0 in
      let (up, low) =
        commit_bounds req n.commit_index (length log') reach small
          (length-append_loop n.log (req.prev_log_index + 1) req.prev_log_index req.entries
            (omega arith) a.prev_in_log)
          (length_of_take n.commit_index n.log log' same inside) in
      record {
        inside = rw (a.commit, a.log) low;
        forward = rw a.commit up;
        unchanged = rw a.log same;
      }

-- Whatever HandleAppendEntries answers to a request that reaches the leader's commit index and
-- carries the follower's committed entries, no committed entry is cut or replaced, the commit
-- index does not move back, and it stays inside the log.
pub handle_append_entries-KeepsCommitted :
    (env : Env) (req : AppendEntriesReq) (n : Node)
    → n.commit_index ≤ length n.log
    → req.leader_commit ≤ req.prev_log_index + length req.entries
    → req.prev_log_index + length req.entries < 18446744073709551616
    → CarriesCommitted req n
    → KeepsCommitted n (handle_append_entries env req n).1
handle_append_entries-KeepsCommitted env req n inside reach small carries =
    by_outcome (handle_append_entries env req n) (handle_append_entries_lem env req n)
  where
    by_outcome : (r : Option AppendEntriesResp × Node) → Outcome req n r → KeepsCommitted n r.1
    by_outcome (none, n') r = Refused-KeepsCommitted req n inside n' r
    by_outcome (some a, n') (inl (_, t)) =
        Accepted-KeepsCommitted req n inside n' reach small carries t
    by_outcome (some a, n') (inr (_, r)) = Refused-KeepsCommitted req n inside n' r

replicate_to_request :
    (peer : String) (n : Node) {req : AppendEntriesReq}
    → replicate_to peer n ≡ send req
    → (is_leader n.state ≡ true)
      × (0 < count_of peer n.next_index)
      × (count_of peer n.next_index ≤ length n.log + 1)
      × (req.term ≡ n.term)
      × (req.prev_log_index ≡ count_of peer n.next_index - 1)
      × (req.prev_log_term ≡ term_at n.log (count_of peer n.next_index - 1))
      × (req.entries ≡ drop (count_of peer n.next_index - 1) n.log)
      × (req.leader_commit ≡ n.commit_index)
unfolding replicate_to
replicate_to_request peer n h = ground arith

-- A request that replicateTo sends comes from a leader, is in its term, splits the leader's log
-- in two at the entry before the request's, and so reaches the leader's commit index wherever
-- that lies in the log.
pub replicate_to-reaches :
    (peer : String) (n : Node) {req : AppendEntriesReq}
    → replicate_to peer n ≡ send req
    → (is_leader n.state ≡ true)
      × (req.term ≡ n.term)
      × (take req.prev_log_index n.log ++ req.entries ≡ n.log)
      × (req.prev_log_term ≡ term_at n.log req.prev_log_index)
      × (req.prev_log_index + length req.entries ≡ length n.log)
      × (n.commit_index ≤ length n.log
          → req.leader_commit ≤ req.prev_log_index + length req.entries)
replicate_to-reaches peer n {req} h =
    let (lead, low, high, term, prev, prev_term, entries, commit) = replicate_to_request peer n h in
    (
      lead,
      term,
      rw (prev, entries) (take-append-drop (count_of peer n.next_index - 1) n.log),
      rw prev prev_term,
      rw (prev, entries) (omega (arith, length-drop (count_of peer n.next_index - 1) n.log)),
      λ inside.
          rw (prev, entries, commit)
            (omega (arith, length-drop (count_of peer n.next_index - 1) n.log)),
    )
