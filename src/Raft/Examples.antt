-- ===== src/Raft/Examples.antt =====
-- Runs of pkg/raft on small inputs, and the theorems at them.
use shardlands.Prelude.{
  ℕ, ◌+◌, ◌≤◌, ◌<◌, ◌≡◌, ◌⊎◌, refl, true, false, some, List, [], ◌∷◌, ◌++◌, String, arith,
  str_eq_iff, length, take, lookup,
}
use mathlib.Core.Bool.{false≢true}
use shardlands.Raft.Log.{Entry, term_at, append_loop}
use shardlands.Raft.Log.Agreement.{Holds}
use shardlands.Raft.Node
use shardlands.Raft.Node.{
  Node, Config, HardState, ApplyMsg, Env, RequestVoteReq, AppendEntriesReq, AppendEntriesResp,
  follower, candidate, leader, is_leader, save, persist, reset_election_timer, step_down,
  count_recent, quorum_active,
}
use shardlands.Raft.Election.{cast_vote, handle_request_vote, start_election, stand}
use shardlands.Raft.Replication.{
  accept_entries, handle_append_entries, replicate_to, send, advance_commit, count_matching,
}
use shardlands.Raft.Deliver.{deliver}
use shardlands.Raft.Commit.{
  Committable, advance_commit_sound, advance_commit_complete, Delivers, deliver_lem,
}
use shardlands.Raft.Follower.{handle_append_entries-matches, handle_append_entries-idempotent}
use shardlands.Raft.Follower.Commits.{
  CarriesCommitted, KeepsCommitted, handle_append_entries-KeepsCommitted, replicate_to-reaches,
}
use shardlands.Raft.Run.{Event, Ballot, ask_vote, elect, restart, step, run, AllProper}
use shardlands.Raft.Run.Progress.{IsSaved}
use shardlands.Raft.Run.Ballots.{one_vote_per_term, run-IsSaved}

abbrev entry : ℕ → Entry
entry t = record { term = t; cmd = [] }

abbrev config : Config
config = record {
  id = "a";
  peers = "b" ∷ "c" ∷ [];
  election_timeout_min = 150;
  election_timeout_max = 300;
  heartbeat_interval = 50;
  tick_interval = 10;
}

abbrev disk : List Entry → HardState
disk log = record { term = 2; voted_for = ""; log = log }

-- A node in term 2 with a log of terms 1, 1, 2.
abbrev node : Node
node = record {
  cfg = config;
  state = follower;
  term = 2;
  voted_for = "";
  log = entry 1 ∷ entry 1 ∷ entry 2 ∷ [];
  commit_index = 1;
  last_applied = 0;
  next_index = ("b", 3) ∷ ("c", 4) ∷ [];
  match_index = ("b", 3) ∷ ("c", 0) ∷ [];
  last_ack = [];
  election_reset = 0;
  election_timeout = 150;
  last_heartbeat = 0;
  stopped = false;
  storage = disk (entry 1 ∷ entry 1 ∷ entry 2 ∷ []);
}

abbrev at_noon : Env
at_noon = record { now = 720; jitter = 7 }

-- Its third entry conflicts with the log's.
abbrev request : AppendEntriesReq
request = record {
  term = 3;
  leader_id = "b";
  prev_log_index = 1;
  prev_log_term = 1;
  entries = entry 1 ∷ entry 3 ∷ [];
  leader_commit = 2;
}

abbrev after : Node
after = (handle_append_entries at_noon request node).1

after_log : after.log ≡ entry 1 ∷ entry 1 ∷ entry 3 ∷ []
unfolding handle_append_entries accept_entries append_loop term_at step_down persist
    reset_election_timer
after_log = refl

answered :
    handle_append_entries at_noon request node ≡ (some (record { term = 3; success = true }), after)
unfolding handle_append_entries accept_entries append_loop term_at step_down persist
    reset_election_timer
answered = refl

handle_append_entries-matches_example :
    (after.state ≡ follower)
    × (after.term ≡ 3)
    × (1 ≤ 3)
    × (term_at node.log 1 ≡ 1)
    × (take 1 after.log ≡ take 1 node.log)
    × (3 ≤ length after.log)
    × Holds after.log 1 (entry 1 ∷ entry 3 ∷ [])
handle_append_entries-matches_example =
    handle_append_entries-matches at_noon request node answered refl

handle_append_entries-idempotent_example :
    handle_append_entries at_noon request after
    ≡ (some (record { term = after.term; success = true }), reset_election_timer at_noon after)
handle_append_entries-idempotent_example =
    handle_append_entries-idempotent at_noon request node answered refl at_noon refl

carries : CarriesCommitted request node
carries i e g h = absurd (omega arith)

handle_append_entries-KeepsCommitted_example : KeepsCommitted node after
handle_append_entries-KeepsCommitted_example =
    handle_append_entries-KeepsCommitted at_noon request node (omega arith) (omega arith)
      (omega arith) carries

abbrev chief : Node
chief = record node { state = leader }

abbrev to_b : AppendEntriesReq
to_b = record {
  term = 2;
  leader_id = "a";
  prev_log_index = 2;
  prev_log_term = 1;
  entries = entry 2 ∷ [];
  leader_commit = 1;
}

sent_to_b : replicate_to "b" chief ≡ send to_b
unfolding replicate_to lookup term_at
sent_to_b = refl

replicate_to-reaches_example :
    (is_leader chief.state ≡ true)
    × (to_b.term ≡ 2)
    × (take 2 chief.log ++ to_b.entries ≡ chief.log)
    × (to_b.prev_log_term ≡ term_at chief.log 2)
    × (to_b.prev_log_index + length to_b.entries ≡ length chief.log)
    × (chief.commit_index ≤ length chief.log
        → to_b.leader_commit ≤ to_b.prev_log_index + length to_b.entries)
replicate_to-reaches_example = replicate_to-reaches "b" chief sent_to_b

advance_commit_sound_example :
    (advance_commit chief ≡ record chief { commit_index = (advance_commit chief).commit_index })
    × (((advance_commit chief).commit_index ≡ 1)
        ⊎ ((1 < (advance_commit chief).commit_index)
            × ((advance_commit chief).commit_index ≤ 3)
            × Committable chief (advance_commit chief).commit_index))
advance_commit_sound_example = advance_commit_sound chief

committable : Committable chief 3
unfolding term_at count_matching lookup
committable = record { own_term = refl; majority = refl }

own_terms : (k : ℕ) → 3 ≤ k → k ≤ 3 → term_at chief.log k ≡ 2
unfolding term_at
own_terms k low high = let e : k ≡ 3 = omega arith in rw e

advance_commit_complete_example : 3 ≤ (advance_commit chief).commit_index
advance_commit_complete_example =
    advance_commit_complete chief 3 (omega arith) own_terms committable

deliver_example :
    (ms : List ApplyMsg) × ((deliver node).0 ≡ some ms)
    × (length ms ≡ 1)
    × Delivers node.log 0 1 ms
    × ((deliver node).1.last_applied ≡ 1)
    × (deliver (deliver node).1 ≡ (some [], (deliver node).1))
deliver_example = deliver_lem node refl (omega arith) (omega arith)

-- A vote for "b", a crash, a request of "c" in the same term, and an election of its own.
abbrev ask : String → Event
ask name =
    ask_vote at_noon
      (record { term = 5; candidate_id = name; last_log_index = 9; last_log_term = 4 })

abbrev life : List Event
life = ask "b" ∷ restart at_noon ∷ ask "c" ∷ ask "b" ∷ elect at_noon ∷ []

abbrev ballot : ℕ → String → Ballot
ballot t c = record { term = t; candidate = c }

life_ballots : (run life node []).1 ≡ ballot 6 "a" ∷ ballot 5 "b" ∷ ballot 5 "b" ∷ []
unfolding run step handle_request_vote cast_vote start_election stand Node.new_node step_down
    persist reset_election_timer term_at
life_ballots = refl

saved : IsSaved node
saved = record {
  term = refl;
  voted_for = refl;
  log = refl;
  named = λ e. false≢true ((str_eq_iff "a" "").1 e);
}

life_proper : AllProper life node
unfolding step handle_request_vote cast_vote Node.new_node step_down persist reset_election_timer
    term_at
life_proper = (
  λ e. false≢true ((str_eq_iff "b" "").1 e),
  (
    tt,
    (
      λ e. false≢true ((str_eq_iff "c" "").1 e),
      (λ e. false≢true ((str_eq_iff "b" "").1 e), (omega arith, tt)),
    ),
  ),
)

one_vote_per_term_example : ◌≡◌ {A = String} "b" "b"
one_vote_per_term_example =
    one_vote_per_term life node 1 2 {b = ballot 5 "b"} {c = ballot 5 "b"} saved life_proper
      (rw life_ballots) (rw life_ballots) refl

run-IsSaved_example : IsSaved (run life node []).0 × (2 ≤ (run life node []).0.term)
run-IsSaved_example = run-IsSaved life node saved life_proper
