-- ===== src/Raft/Run/Ballots.antt =====
-- Votes and terms over the life of a node, pkg/raft/node.go.
use shardlands.Prelude.{
  ℕ, zero, suc, ◌≤◌, ◌≡◌, ◌≢◌, sym, ◌∙◌, Option, none, some, List, [], ◌∷◌, arith, All, get_elem?,
}
use shardlands.Raft.Node.{Node}
use shardlands.Raft.Run.Progress.{IsSaved, Goes, Cast, step-Goes, step-Cast}
use shardlands.Raft.Run.{Event, Ballot, step, run, AllProper, add_ballot}

-- A vote cast before belongs to an older term, or is the vote that the node holds.
abbrev Past : Node → Ballot → Type 0
Past n b = (b.term ≤ n.term) × (b.term ≡ n.term → b.candidate ≡ n.voted_for) × (b.candidate ≢ "")

Past-Goes : {n n' : Node} (b : Ballot) → Goes n n' → Past n b → Past n' b
Past-Goes b g (low, held, named) =
    (omega (arith, g.forward), λ e. ground (arith, g.forward, g.faithful, held), named)

All-Past : {n n' : Node} (bs : List Ballot) → Goes n n' → All (Past n) bs → All (Past n') bs
All-Past [] g h = tt
All-Past (b ∷ bs) g h = (Past-Goes b g h.0, All-Past bs g h.1)

-- Votes of the term that `b` is of are for the candidate that `b` is for.
abbrev SameTerm : Ballot → Ballot → Type 0
SameTerm b c = c.term ≡ b.term → c.candidate ≡ b.candidate

abbrev Single : List Ballot → Type 0
Single [] = Unit
Single (b ∷ bs) = All (SameTerm b) bs × Single bs

All-SameTerm :
    (n : Node) (b : Ballot) (bs : List Ballot)
    → Cast n (some b)
    → All (Past n) bs
    → All (SameTerm b) bs
All-SameTerm n b [] c h = tt
All-SameTerm n b (x ∷ bs) c h = (λ e. h.0.1 (e ∙ c.0) ∙ sym c.1, All-SameTerm n b bs c h.1)

-- What a run keeps of a node and the votes that left it.
record Books (n : Node) (bs : List Ballot) : Type 0 where
  saved : IsSaved n
  past : All (Past n) bs
  single : Single bs

Books-add :
    (n : Node) (o : Option Ballot) (bs : List Ballot)
    → IsSaved n
    → Cast n o
    → All (Past n) bs
    → Single bs
    → Books n (add_ballot o bs)
Books-add n none bs s c past single = record { saved = s; past = past; single = single }
Books-add n (some b) bs s c past single = record {
  saved = s;
  past = ((omega (arith, c.0), λ e. c.1, c.2), past);
  single = (All-SameTerm n b bs c past, single);
}

run-Books :
    (es : List Event) (n : Node) (bs : List Ballot)
    → AllProper es n
    → Books n bs
    → Books (run es n bs).0 (run es n bs).1
unfolding run
run-Books [] n bs p h = h
run-Books (e ∷ es) n bs p h =
    let g = step-Goes e n h.saved p.0 in
    run-Books es (step e n).0 (add_ballot (step e n).1 bs) p.1 (
      Books-add (step e n).0 (step e n).1 bs g.saved (step-Cast e n h.saved p.0)
        (All-Past bs g h.past) h.single)

All-SameTerm_at :
    (b : Ballot) (bs : List Ballot) (i : ℕ) {c : Ballot}
    → All (SameTerm b) bs
    → get_elem? bs i ≡ some c
    → SameTerm b c
All-SameTerm_at b [] i h g = cc
All-SameTerm_at b (x ∷ bs) zero h g = ground (arith, h.0)
All-SameTerm_at b (x ∷ bs) (suc i) h g = All-SameTerm_at b bs i h.1 g

Single-at :
    (bs : List Ballot) (i j : ℕ) {b c : Ballot}
    → Single bs
    → get_elem? bs i ≡ some b
    → get_elem? bs j ≡ some c
    → SameTerm b c
Single-at [] i j h g k = cc
Single-at (x ∷ bs) zero zero h g k = ground arith
Single-at (x ∷ bs) zero (suc j) h g k = ground (arith, All-SameTerm_at x bs j h.0 k)
Single-at (x ∷ bs) (suc i) zero h g k = ground (arith, All-SameTerm_at x bs i h.0 g)
Single-at (x ∷ bs) (suc i) (suc j) h g k = Single-at bs i j h.1 g k

-- Whatever requests, answers, elections, crashes and restarts a node goes through, from a state
-- that its storage holds, it never votes for two candidates in one term: any two votes that left
-- it in one term are for the same candidate. Candidates have a name, and the term does not reach
-- 2^64 - 1 before an election.
pub one_vote_per_term :
    (es : List Event) (n : Node) (i j : ℕ) {b c : Ballot}
    → IsSaved n
    → AllProper es n
    → get_elem? (run es n []).1 i ≡ some b
    → get_elem? (run es n []).1 j ≡ some c
    → c.term ≡ b.term
    → c.candidate ≡ b.candidate
one_vote_per_term es n i j s p g k =
    Single-at (run es n []).1 i j
      (run-Books es n [] p (record { saved = s; past = tt; single = tt })).single g k

run-Goes :
    (es : List Event) (n : Node) (bs : List Ballot)
    → IsSaved n
    → AllProper es n
    → IsSaved (run es n bs).0 × (n.term ≤ (run es n bs).0.term)
unfolding run
run-Goes [] n bs s p = (s, omega arith)
run-Goes (e ∷ es) n bs s p =
    let g = step-Goes e n s p.0 in
    let (s', up) = run-Goes es (step e n).0 (add_ballot (step e n).1 bs) g.saved p.1 in
    (s', omega (arith, g.forward))

-- From a state that its storage holds, after every event the storage holds the node's term, vote
-- and log, so a crash loses none of them, and the term has not gone back. Every election starts
-- at a term below 2^64 - 1, and every request for a vote names its candidate.
pub run-IsSaved :
    (es : List Event) (n : Node)
    → IsSaved n
    → AllProper es n
    → IsSaved (run es n []).0 × (n.term ≤ (run es n []).0.term)
run-IsSaved es n = run-Goes es n []
