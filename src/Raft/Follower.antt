-- ===== src/Raft/Follower.antt =====
-- HandleAppendEntries, pkg/raft/node.go, as the leader and the log see it.
pub mod Commits
use shardlands.Prelude.{
  ℕ, zero, suc, ◌+◌, ◌-◌, ◌≤◌, ◌<◌, ◌≡◌, ◌≢◌, ◌⊎◌, refl, sym, subst, ap, ◌∙◌, Bool, true, false,
  Option, none, some, List, [], ◌∷◌, inl, inr, arith, min, ltb, ◌==◌, ◌||◌, Bool-cases, length,
  get_elem?, take, u64,
}
use mathlib.Core.Bool.{false≢true}
use shardlands.Raft.Log.{Entry, term_of, term_at, append_loop}
use shardlands.Raft.Log.Agreement.{
  Holds, take-append_loop, length-append_loop, append_loop-agrees, append_loop-held,
  append_loop-keeps, term_at-suc, term_at-append_loop,
}
use shardlands.Raft.Node.{
  follower, Node, Env, AppendEntriesReq, AppendEntriesResp, persist, persist_if, step_down,
  reset_election_timer,
}
use shardlands.Raft.Replication.{follow_commit, inconsistent, accept_entries, handle_append_entries}

-- The request was taken: the node is a follower in the request's term, its log held the entry
-- before the request's, and the request's entries went into it.
pub record Accepted (req : AppendEntriesReq) (n n' : Node) : Type 0 where
  pub state : n'.state ≡ follower
  pub term : n'.term ≡ req.term
  pub prev_in_log : req.prev_log_index ≤ length n.log
  pub prev_term : term_at n.log req.prev_log_index ≡ req.prev_log_term
  pub log : n'.log ≡ (append_loop n.log (req.prev_log_index + 1) req.entries).0
  pub commit : n'.commit_index ≡ follow_commit req n.commit_index
  pub stopped : n'.stopped ≡ n.stopped

-- The request was refused: what the log holds and what is committed stay.
pub record Refused (n n' : Node) : Type 0 where
  pub log : n'.log ≡ n.log
  pub commit : n'.commit_index ≡ n.commit_index

-- Writing the node to its storage, as the last act of a handler, is no part of the outcome.
persist_if-Refused :
    (changed : Bool) {n n' : Node} → Refused n n' → Refused n (persist_if changed n')
unfolding persist
persist_if-Refused true r = record { log = r.log; commit = r.commit }
persist_if-Refused false r = r

persist_if-Accepted :
    (req : AppendEntriesReq) (changed : Bool) {n n' : Node}
    → Accepted req n n'
    → Accepted req n (persist_if changed n')
unfolding persist
persist_if-Accepted req true a = record {
  state = a.state;
  term = a.term;
  prev_in_log = a.prev_in_log;
  prev_term = a.prev_term;
  log = a.log;
  commit = a.commit;
  stopped = a.stopped;
}
persist_if-Accepted req false a = a

-- What the answer tells of the node after the call.
abbrev pub Outcome : AppendEntriesReq → Node → Option AppendEntriesResp × Node → Type 0
Outcome req n (none, n') = Refused n n'
Outcome req n (some r, n') =
    ((r.success ≡ true) × Accepted req n n') ⊎ ((r.success ≡ false) × Refused n n')

accept_entries_lem :
    (env : Env) (req : AppendEntriesReq) (n : Node) (changed : Bool)
    → req.term ≤ n.term
    → Outcome req n (accept_entries env req n changed)
unfolding accept_entries reset_election_timer
accept_entries_lem env req n changed h = elim (Bool-cases (ltb req.term n.term)) [
  | inl low ↦ rw low (inr (refl, persist_if-Refused changed (record { log = refl; commit = refl })))
  | inr high ↦ elim (Bool-cases (inconsistent req n.log)) [
    | inl bad ↦
        rw (high, bad)
          (inr (refl, persist_if-Refused changed (record { log = refl; commit = refl })))
    | inr good ↦
        rw (high, good)
          (inl (
            refl,
            persist_if-Accepted req
                (changed || (append_loop n.log (req.prev_log_index + 1) req.entries).1)
                (record {
                  state = refl;
                  term = ground arith;
                  prev_in_log = ground arith;
                  prev_term = ground arith;
                  log = refl;
                  commit = refl;
                  stopped = refl;
                }),
          ))
  ]
]

Refused-step_down :
    (env : Env) (term : ℕ) (n n' : Node) → Refused (step_down env term n) n' → Refused n n'
unfolding step_down
Refused-step_down env term n n' r = ground (arith, r.log, r.commit)

-- Stepping down keeps the log, the commit index and whether the node runs.
Accepted-step_down :
    (env : Env) (req : AppendEntriesReq) (term : ℕ) (n n' : Node)
    → Accepted req (step_down env term n) n'
    → Accepted req n n'
unfolding step_down
Accepted-step_down env req term n n' a =
    ground (arith, a.state, a.term, a.prev_in_log, a.prev_term, a.log, a.commit, a.stopped)

-- Stepping down first changes neither the log nor the commit index.
Outcome-step_down :
    (env : Env) (req : AppendEntriesReq) (n : Node) (r : Option AppendEntriesResp × Node)
    → Outcome req (step_down env req.term n) r
    → Outcome req n r
Outcome-step_down env req n (none, n') r = Refused-step_down env req.term n n' r
Outcome-step_down env req n (some a, n') (inl (taken, acc)) =
    inl (taken, Accepted-step_down env req req.term n n' acc)
Outcome-step_down env req n (some a, n') (inr (refused, r)) =
    inr (refused, Refused-step_down env req.term n n' r)

term-step_down : (env : Env) (term : ℕ) (n : Node) → term ≤ (step_down env term n).term
unfolding step_down
term-step_down env term n = ground arith

handle_cases :
    (env : Env) (req : AppendEntriesReq) (n : Node)
    → (handle_append_entries env req n ≡ (none, n))
      ⊎ (handle_append_entries env req n ≡ accept_entries env req (step_down env req.term n) true)
      ⊎ ((handle_append_entries env req n ≡ accept_entries env req n false) × (req.term ≤ n.term))
unfolding handle_append_entries
handle_cases env req n = elim (Bool-cases n.stopped) [
  | inl dead ↦ inl (rw (dead, handle_append_entries))
  | inr live ↦ elim (Bool-cases (ltb n.term req.term)) [
    | inl newer ↦ inr (inl (ground arith))
    | inr older ↦ inr (inr (ground arith, ground arith))
  ]
]

-- What the answer of HandleAppendEntries tells of the node: a success means that the request was
-- taken, and any other answer that the log and the commit index are as they were.
pub handle_append_entries_lem :
    (env : Env) (req : AppendEntriesReq) (n : Node)
    → Outcome req n (handle_append_entries env req n)
handle_append_entries_lem env req n = elim (handle_cases env req n) [
  | inl dead ↦ rw dead (record { log = refl; commit = refl })
  | inr (inl newer) ↦ rw newer (
      Outcome-step_down env req n (accept_entries env req (step_down env req.term n) true) (
        accept_entries_lem env req (step_down env req.term n) true (term-step_down env req.term n)))
  | inr (inr (older, h)) ↦ rw older (accept_entries_lem env req n false h)
]

-- A node that holds the request already only restarts its election timer.
handle_again :
    (env : Env) (req : AppendEntriesReq) (n : Node)
    → n.state ≡ follower
    → n.term ≡ req.term
    → n.stopped ≡ false
    → req.prev_log_index ≤ length n.log
    → term_at n.log req.prev_log_index ≡ req.prev_log_term
    → append_loop n.log (req.prev_log_index + 1) req.entries ≡ (n.log, false)
    → follow_commit req n.commit_index ≡ n.commit_index
    → handle_append_entries env req n
      ≡ (some (record { term = n.term; success = true }), reset_election_timer env n)
unfolding handle_append_entries accept_entries reset_election_timer
handle_again env req n state term live inside prev held commit = ground arith

follow_commit_twice :
    (req : AppendEntriesReq) (before after : ℕ)
    → after ≡ follow_commit req before
    → follow_commit req after ≡ after
follow_commit_twice req before after e = ground arith

module _ (env : Env) (req : AppendEntriesReq) (n : Node) {r : AppendEntriesResp} {n' : Node}
    (answer : handle_append_entries env req n ≡ (some r, n')) (success : r.success ≡ true) where
  pub accepted : Accepted req n n'
  accepted = elim (subst (Outcome req n) answer (handle_append_entries_lem env req n)) [
    | inl (_, a) ↦ a
    | inr (failed, _) ↦ absurd (false≢true (sym failed ∙ success))
  ]

  -- A successful HandleAppendEntries leaves a follower in the request's term whose log is the old
  -- one up to the entry before the request's, an entry that the old log held in the term that the
  -- request names, and holds from there on, to the request's end at least, entries of the terms
  -- of the request's.
  pub handle_append_entries-matches :
      (n'.state ≡ follower)
      × (n'.term ≡ req.term)
      × (req.prev_log_index ≤ length n.log)
      × (term_at n.log req.prev_log_index ≡ req.prev_log_term)
      × (take req.prev_log_index n'.log ≡ take req.prev_log_index n.log)
      × (req.prev_log_index + length req.entries ≤ length n'.log)
      × Holds n'.log req.prev_log_index req.entries
  handle_append_entries-matches =
      let a = accepted in
      (
        a.state,
        a.term,
        a.prev_in_log,
        a.prev_term,
        rw a.log
            (take-append_loop n.log _ req.prev_log_index req.entries (omega arith) a.prev_in_log),
        rw a.log
            (length-append_loop n.log _ req.prev_log_index req.entries (omega arith) a.prev_in_log),
        λ i e g. rw a.log (
            append_loop-agrees n.log _ req.prev_log_index req.entries i e (omega arith)
              a.prev_in_log g),
      )

  -- A request that was taken may be delivered again: the second delivery succeeds too, and the
  -- node it leaves differs from the first one's in nothing but the election timer.
  pub handle_append_entries-idempotent :
      (env' : Env)
      → n.stopped ≡ false
      → handle_append_entries env' req n'
        ≡ (some (record { term = n'.term; success = true }), reset_election_timer env' n')
  handle_append_entries-idempotent env' live =
      let a = accepted in
      let (_, _, inside, prev, _, long, holds) = handle_append_entries-matches in
      handle_again env' req n' a.state a.term (a.stopped ∙ live) (omega arith)
        (ap (λ log. term_at log req.prev_log_index) a.log
          ∙ term_at-append_loop n.log _ req.prev_log_index req.entries (omega arith) inside
          ∙ prev)
        (append_loop-held n'.log _ req.prev_log_index req.entries (omega arith) long holds)
        (follow_commit_twice req n.commit_index n'.commit_index a.commit)
