-- ===== src/Raft/Log/Agreement.antt =====
-- What the loop of HandleAppendEntries, pkg/raft/node.go, does to the log.
use shardlands.Prelude.{
  ℕ, zero, suc, ◌+◌, ◌≤◌, ◌<◌, ◌≡◌, refl, sym, ap, ◌∙◌, true, false, some, List, [], ◌∷◌, ◌++◌, ◌⊎◌,
  ◌≢◌, inl, inr, arith, ltb, ◌==◌, Bool-cases, length, get_elem?, take, length-append, length-take,
  get_elem?-append_right, get_elem?-take, get_elem?-none, take-take, take-append, take_all,
}
use native.Mathlib.Nat.{add-zero}
use native.Mathlib.Decide.{dec_lt}
use shardlands.Raft.Log.{Entry, term_of, term_at, append_loop}

pub term_at-suc : (log : List Entry) (i : ℕ) → term_at log (suc i) ≡ term_of (get_elem? log i)
unfolding term_at
term_at-suc log i = elim (Bool-cases (ltb (length log) (suc i))) [
  | inl past ↦ ground (arith, get_elem?-none log i)
  | inr inside ↦ ground arith
]

-- Reads of a log made of the first `p` entries of `log` and of `es`.
get_elem?-splice :
    (log es : List Entry) (p i : ℕ)
    → p ≤ length log
    → get_elem? (take p log ++ es) (p + i) ≡ get_elem? es i
get_elem?-splice log es p i h =
    let e : length (take p log) ≡ p = omega (arith, length-take p log) in
    ap (λ t. get_elem? (take p log ++ es) (t + i)) (sym e)
    ∙ get_elem?-append_right (take p log) es i

-- One round of the loop: it writes the rest of the request from here on and ends, or finds an
-- entry of the same term in place and goes on.
append_step :
    (log : List Entry) (at p : ℕ) (x : Entry) (es : List Entry)
    → at ≡ suc p
    → p ≤ length log
    → ((append_loop log at (x ∷ es) ≡ (take p log ++ x ∷ es, true))
        × (p < length log → term_of (get_elem? log p) ≢ x.term))
      ⊎ ((p < length log)
          × (term_of (get_elem? log p) ≡ x.term)
          × (append_loop log at (x ∷ es) ≡ append_loop log (at + 1) es))
unfolding append_loop
append_step log at p x es e h = elim (Bool-cases (ltb (length log) at)) [
  | inl past ↦ inl (
    rw past (ap (λ t. (t ++ x ∷ es, true)) (sym (take_all p log (ground arith)))),
    λ k. absurd (ground arith),
  )
  | inr inside ↦ elim (Bool-cases (term_at log at == x.term)) [
    | inl same ↦ inr (ground arith, ground (arith, term_at-suc log p), rw (inside, same))
    | inr other ↦ inl (
      rw (inside, other) (ap (λ k. (take k log ++ x ∷ es, true)) (omega arith)),
      λ k. ground (arith, term_at-suc log p),
    )
  ]
]

-- Indices before the request's are left alone.
pub take-append_loop :
    (log : List Entry) (at p : ℕ) (es : List Entry)
    → at ≡ suc p
    → p ≤ length log
    → take p (append_loop log at es).0 ≡ take p log
take-append_loop log at p [] e h = unfold append_loop in refl
take-append_loop log at p (x ∷ es) e h = elim (append_step log at p x es e h) [
  | inl (wrote, _) ↦ rw wrote (
      take-append p (take p log) (x ∷ es) (omega (arith, length-take p log))
      ∙ take-take p p log (omega arith))
  | inr (below, same, next) ↦ rw next (
      sym (take-take p (suc p) (append_loop log (at + 1) es).0 (omega arith))
      ∙ ap (take p) (take-append_loop log (at + 1) (suc p) es (omega arith) (omega arith))
      ∙ take-take p (suc p) log (omega arith))
]

-- The new log reaches the end of the request.
pub length-append_loop :
    (log : List Entry) (at p : ℕ) (es : List Entry)
    → at ≡ suc p
    → p ≤ length log
    → p + length es ≤ length (append_loop log at es).0
length-append_loop log at p [] e h = unfold append_loop in omega arith
length-append_loop log at p (x ∷ es) e h = elim (append_step log at p x es e h) [
  | inl (wrote, _) ↦
      rw wrote (omega (arith, length-append (take p log) (x ∷ es), length-take p log))
  | inr (below, same, next) ↦
      rw next
        (omega (arith, length-append_loop log (at + 1) (suc p) es (omega arith) (omega arith)))
]

get_elem?-append_loop :
    (log : List Entry) (at p j : ℕ) (es : List Entry)
    → at ≡ suc p
    → p ≤ length log
    → j < p
    → get_elem? (append_loop log at es).0 j ≡ get_elem? log j
get_elem?-append_loop log at p j es e h k =
    sym (get_elem?-take p (append_loop log at es).0 j k)
    ∙ ap (λ t. get_elem? t j) (take-append_loop log at p es e h)
    ∙ get_elem?-take p log j k

-- The new log holds, at every index of the request, an entry of the request's term.
pub append_loop-agrees :
    (log : List Entry) (at p : ℕ) (es : List Entry) (i : ℕ) (e : Entry)
    → at ≡ suc p
    → p ≤ length log
    → get_elem? es i ≡ some e
    → term_of (get_elem? (append_loop log at es).0 (p + i)) ≡ e.term
append_loop-agrees log at p [] i e q h g = cc
append_loop-agrees log at p (x ∷ es) zero e q h g = elim (append_step log at p x es q h) [
  | inl (wrote, _) ↦ rw wrote (ap term_of (get_elem?-splice log (x ∷ es) p 0 h ∙ g))
  | inr (below, same, next) ↦ rw next (
      cc (
        get_elem?-append_loop log (at + 1) (suc p) p es (omega arith) (omega arith) (omega arith),
        same,
        g,
        add-zero p,
      ))
]
append_loop-agrees log at p (x ∷ es) (suc i) e q h g = elim (append_step log at p x es q h) [
  | inl (wrote, _) ↦ rw wrote (ap term_of (get_elem?-splice log (x ∷ es) p (suc i) h ∙ g))
  | inr (below, same, next) ↦ rw next (
      ap (λ k. term_of (get_elem? (append_loop log (at + 1) es).0 k)) {x = p + suc i} (omega arith)
      ∙ append_loop-agrees log (at + 1) (suc p) es i e (omega arith) (omega arith) g)
]

-- `log` holds entries of the same terms as `es` from its entry `p` on.
abbrev pub Holds : List Entry → ℕ → List Entry → Type 0
Holds log p es =
    (i : ℕ) (e : Entry) → get_elem? es i ≡ some e → term_of (get_elem? log (p + i)) ≡ e.term

Holds-tail :
    (log : List Entry) (p : ℕ) (x : Entry) (es : List Entry)
    → Holds log p (x ∷ es)
    → Holds log (suc p) es
Holds-tail log p x es held i e g =
    ap (λ k. term_of (get_elem? log k)) {x = suc p + i} (omega arith) ∙ held (suc i) e g

-- A request that the log already holds changes nothing.
pub append_loop-held :
    (log : List Entry) (at p : ℕ) (es : List Entry)
    → at ≡ suc p
    → p + length es ≤ length log
    → Holds log p es
    → append_loop log at es ≡ (log, false)
append_loop-held log at p [] q h held = unfold append_loop in refl
append_loop-held log at p (x ∷ es) q h held = elim (append_step log at p x es q (omega arith)) [
  | inl (wrote, differs) ↦ absurd (differs (omega arith) (cc (held 0 x refl, add-zero p)))
  | inr (below, same, next) ↦
      next
      ∙ append_loop-held log (at + 1) (suc p) es (omega arith) (omega arith)
          (Holds-tail log p x es held)
]

-- The first `c` entries stay as they are if the request agrees with them.
pub append_loop-keeps :
    (log : List Entry) (at p c : ℕ) (es : List Entry)
    → at ≡ suc p
    → p ≤ length log
    → c ≤ length log
    → ((i : ℕ) (e : Entry)
        → get_elem? es i ≡ some e
        → p + i < c
        → term_of (get_elem? log (p + i)) ≡ e.term)
    → take c (append_loop log at es).0 ≡ take c log
append_loop-keeps log at p c [] q h k agrees = unfold append_loop in refl
append_loop-keeps log at p c (x ∷ es) q h k agrees = elim (append_step log at p x es q h) [
  | inl (wrote, differs) ↦ elim (dec_lt p c) [
    | yes below ↦ absurd (differs (omega arith) (cc (agrees 0 x refl (omega arith), add-zero p)))
    | no above ↦ rw wrote (
        take-append c (take p log) (x ∷ es) (omega (arith, length-take p log))
        ∙ take-take c p log (omega arith))
  ]
  | inr (below, same, next) ↦ rw next (
      append_loop-keeps log (at + 1) (suc p) c es (omega arith) (omega arith) k (λ i e g b.
        ap (λ j. term_of (get_elem? log j)) {x = suc p + i} (omega arith)
        ∙ agrees (suc i) e g (omega arith)))
]

-- The entry before the request's keeps its term.
pub term_at-append_loop :
    (log : List Entry) (at p : ℕ) (es : List Entry)
    → at ≡ suc p
    → p ≤ length log
    → term_at (append_loop log at es).0 p ≡ term_at log p
term_at-append_loop log at zero es q h = unfold term_at in refl
term_at-append_loop log at (suc p) es q h =
    term_at-suc (append_loop log at es).0 p
    ∙ ap term_of (get_elem?-append_loop log at (suc p) p es q h (omega arith))
    ∙ sym (term_at-suc log p)

-- The loop reports no change only where there is none.
pub append_loop-unwritten :
    (log : List Entry) (at : ℕ) (es : List Entry)
    → (append_loop log at es).1 ≡ false
    → (append_loop log at es).0 ≡ log
unfolding append_loop
append_loop-unwritten log at [] h = refl
append_loop-unwritten log at (x ∷ es) h = ground (arith, append_loop-unwritten log (at + 1) es)
