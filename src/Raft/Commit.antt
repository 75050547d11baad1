-- ===== src/Raft/Commit.antt =====
-- advanceCommitLocked and applier, pkg/raft/node.go: what becomes committed and is delivered.
use shardlands.Prelude.{
  ℕ, zero, suc, ◌+◌, ◌-◌, ◌≤◌, ◌<◌, ◌≡◌, ◌≢◌, ◌⊎◌, refl, sym, subst, ap, ◌∙◌, true, false, some,
  List, [], ◌∷◌, inl, inr, arith, leb, ◌==◌, Bool-cases, length, get_elem?, get_elem?-some,
}
use mathlib.Core.Bool.{false≢true}
use native.Mathlib.Decide.{dec_lt, ℕ_discrete}
use shardlands.Raft.Log.{Entry, term_at}
use shardlands.Raft.Node.{Node, ApplyMsg, is_majority}
use shardlands.Raft.Replication.{count_matching, commit_loop, advance_commit}
use shardlands.Raft.Deliver.{message_of, messages, deliver}

-- Index N may be committed by counting: it is an entry of the node's own term, and a majority of
-- the cluster, the node included, holds it.
pub record Committable (n : Node) (N : ℕ) : Type 0 where
  pub own_term : term_at n.log N ≡ n.term
  pub majority : is_majority (1 + count_matching N n.match_index n.cfg.peers) n.cfg.peers ≡ true

-- One round of the loop: it stops, commits N, or goes down.
data Round (m : ℕ) (n : Node) : Type 0 where
  stop :
      commit_loop (suc m) n ≡ n.commit_index
      → (n.commit_index < suc m → term_at n.log (suc m) ≢ n.term)
      → Round m n
  commit :
      n.commit_index < suc m → commit_loop (suc m) n ≡ suc m → Committable n (suc m) → Round m n
  down :
      n.commit_index < suc m
      → ¬ Committable n (suc m)
      → commit_loop (suc m) n ≡ commit_loop m n
      → Round m n

commit_round : (m : ℕ) (n : Node) → Round m n
unfolding commit_loop
commit_round m n = elim (Bool-cases (leb (suc m) n.commit_index)) [
  | inl low ↦ stop (rw low) (λ h. absurd (ground arith))
  | inr high ↦ elim (Bool-cases (term_at n.log (suc m) == n.term)) [
    | inr old ↦ stop (rw (high, old)) (λ h e. ground arith)
    | inl own ↦
        elim (Bool-cases
          (is_majority (1 + count_matching (suc m) n.match_index n.cfg.peers) n.cfg.peers)) [
            | inl most ↦
                commit (ground arith) (rw (high, own, most))
                  (record { own_term = ground arith; majority = most })
            | inr few ↦
                down (ground arith) (λ c. false≢true (sym few ∙ c.majority)) (rw (high, own, few))
          ]
  ]
]

commit_loop_sound :
    (m : ℕ) (n : Node)
    → (commit_loop m n ≡ n.commit_index)
      ⊎ ((n.commit_index < commit_loop m n)
          × (commit_loop m n ≤ m)
          × Committable n (commit_loop m n))
commit_loop_sound zero n = inl (unfold commit_loop in refl)
commit_loop_sound (suc m) n = elim (commit_round m n) [
  | stop e _ ↦ inl e
  | commit h e c ↦ inr (rw e h, rw e (omega arith), rw e c)
  | down h _ e ↦ elim (commit_loop_sound m n) [
    | inl same ↦ inl (e ∙ same)
    | inr (above, below, c) ↦ inr (rw e above, rw e (omega arith), rw e c)
  ]
]

commit_loop-ge : (m : ℕ) (n : Node) → n.commit_index ≤ commit_loop m n
commit_loop-ge m n = elim (commit_loop_sound m n) [
  | inl same ↦ omega arith
  | inr (above, _, _) ↦ omega arith
]

-- If every entry from N to m is of the node's term and N may be committed, the loop gets to N.
commit_loop_complete :
    (m : ℕ) (n : Node) (N : ℕ)
    → N ≤ m
    → ((k : ℕ) → N ≤ k → k ≤ m → term_at n.log k ≡ n.term)
    → Committable n N
    → N ≤ commit_loop m n
commit_loop_complete zero n N below own c = omega arith
commit_loop_complete (suc m) n N below own c = elim (commit_round m n) [
  | stop e differs ↦ elim (dec_lt n.commit_index (suc m)) [
    | yes h ↦ absurd (differs h (own (suc m) below (omega arith)))
    | no h ↦ rw e (omega arith)
  ]
  | commit _ e _ ↦ rw e below
  | down h not_ok e ↦ elim (ℕ_discrete N (suc m)) [
    | yes top ↦ absurd (not_ok (subst (Committable n) top c))
    | no lower ↦ rw e (commit_loop_complete m n N (omega arith) (λ k a b. own k a (omega arith)) c)
  ]
]

-- advanceCommitLocked changes nothing but the commit index, never moves it back, and moves it
-- only to an index of the log whose entry is of the node's own term and is held by a majority of
-- the cluster, the node included.
pub advance_commit_sound :
    (n : Node)
    → (advance_commit n ≡ record n { commit_index = (advance_commit n).commit_index })
      × (((advance_commit n).commit_index ≡ n.commit_index)
          ⊎ ((n.commit_index < (advance_commit n).commit_index)
              × ((advance_commit n).commit_index ≤ length n.log)
              × Committable n (advance_commit n).commit_index))
unfolding advance_commit
advance_commit_sound n = (refl, commit_loop_sound (length n.log) n)

-- advanceCommitLocked reaches every index of the log whose entry is of the node's own term and is
-- held by a majority, where the entries from there to the end of the log are of that term too.
pub advance_commit_complete :
    (n : Node) (N : ℕ)
    → N ≤ length n.log
    → ((k : ℕ) → N ≤ k → k ≤ length n.log → term_at n.log k ≡ n.term)
    → Committable n N
    → N ≤ (advance_commit n).commit_index
unfolding advance_commit
advance_commit_complete n N = commit_loop_complete (length n.log) n N

-- `ms` are the messages for the `count` entries of the log after the first `done`.
abbrev pub Delivers : List Entry → ℕ → ℕ → List ApplyMsg → Type 0
Delivers log done count ms =
    (i : ℕ) → i < count → get_elem? ms i ≡ message_of (suc done + i) (get_elem? log (done + i))

message_at :
    (log : List Entry) {i j p q : ℕ}
    → i ≡ j
    → p ≡ q
    → message_of i (get_elem? log p) ≡ message_of j (get_elem? log q)
message_at log {i} {j} {p} {q} e f =
    ap (λ k. message_of k (get_elem? log p)) e ∙ ap (λ k. message_of j (get_elem? log k)) f

Delivers-cons :
    (log : List Entry) (done count : ℕ) (m : ApplyMsg) (ms : List ApplyMsg)
    → message_of (suc done) (get_elem? log done) ≡ some m
    → Delivers log (suc done) count ms
    → Delivers log done (suc count) (m ∷ ms)
Delivers-cons log done count m ms first rest zero b =
    sym first ∙ message_at log (omega arith) (omega arith)
Delivers-cons log done count m ms first rest (suc i) b =
    rest i (omega arith) ∙ message_at log (omega arith) (omega arith)

messages_lem :
    (log : List Entry) (done count : ℕ)
    → done + count ≤ length log
    → (ms : List ApplyMsg) × (messages log done count ≡ some ms)
      × (length ms ≡ count)
      × Delivers log done count ms
unfolding messages
messages_lem log done zero h = ([], refl, refl, λ i b. absurd (omega arith))
messages_lem log done (suc count) h =
    let (e, found) = get_elem?-some log done (omega arith) in
    let (ms, eq, len, reads) = messages_lem log (suc done) count (omega arith) in
    let first : ApplyMsg = record { index = suc done; term = e.term; cmd = e.cmd } in
    (
      first ∷ ms,
      rw (found, eq),
      omega arith,
      Delivers-cons log done count first ms (rw found) reads,
    )

deliver_idle :
    (n : Node)
    → n.stopped ≡ false
    → leb n.commit_index n.last_applied ≡ true
    → deliver n ≡ (some [], n)
unfolding deliver
deliver_idle n live idle = ground arith

deliver_busy :
    (n : Node)
    → n.stopped ≡ false
    → leb n.commit_index n.last_applied ≡ false
    → deliver n ≡ (
      messages n.log n.last_applied (n.commit_index - n.last_applied),
      record n { last_applied = n.commit_index },
    )
unfolding deliver
deliver_busy n live busy = ground arith

-- If the commit index lies in the log, applier delivers exactly the entries after the last
-- applied one up to the commit index, each once, in order and with its index, and then nothing
-- until the commit index moves again.
pub deliver_lem :
    (n : Node)
    → n.stopped ≡ false
    → n.last_applied ≤ n.commit_index
    → n.commit_index ≤ length n.log
    → (ms : List ApplyMsg) × ((deliver n).0 ≡ some ms)
      × (length ms ≡ n.commit_index - n.last_applied)
      × Delivers n.log n.last_applied (n.commit_index - n.last_applied) ms
      × ((deliver n).1.last_applied ≡ n.commit_index)
      × (deliver (deliver n).1 ≡ (some [], (deliver n).1))
deliver_lem n live a b = elim (Bool-cases (leb n.commit_index n.last_applied)) [
  | inl idle ↦
      rw (deliver_idle n live idle) (
        [],
        refl,
        ground arith,
        λ i k. absurd (ground arith),
        ground arith,
        deliver_idle n live idle,
      )
  | inr busy ↦
      let (ms, eq, len, reads) =
        messages_lem n.log n.last_applied (n.commit_index - n.last_applied) (omega arith) in
      rw (deliver_busy n live busy) (
        ms,
        eq,
        len,
        reads,
        refl,
        deliver_idle (record n { last_applied = n.commit_index }) live (ground arith),
      )
]
