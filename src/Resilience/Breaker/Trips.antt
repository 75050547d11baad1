-- ===== src/Resilience/Breaker/Trips.antt =====
-- When the breaker of pkg/resilience/breaker.go opens, refuses and lets trials pass.
use shardlands.Prelude.{
  ℕ, zero, suc, ◌+◌, ◌-◌, ◌≤◌, ◌<◌, ◌≡◌, ◌⊎◌, ◌↔◌, inl, inr, refl, sym, subst, ◌∙◌, if◌then◌else◌,
  Bool, true, false, List, [], ◌∷◌, arith, leb,
}
use mathlib.Core.Bool.{false≢true}
use shardlands.Prelude.Int.{pos}
use shardlands.Resilience.Breaker.{Breaker, closed, open_, half_open, acquire, report}

-- The outcomes of calls, with the time of each: `true` is a failure.
abbrev pub Outcomes : Type 0
Outcomes = List (ℕ × Bool)

unfoldable pub report_all : Outcomes → Breaker → Breaker
report_all [] b = b
report_all ((now, failed) ∷ os) b = report_all os (report now failed b)

-- The first n outcomes are failures.
abbrev pub Starts : ℕ → Outcomes → Type 0
Starts zero os = Unit
Starts (suc n) [] = ⊥
Starts (suc n) ((now, failed) ∷ os) = (failed ≡ true) × Starts n os

-- Somewhere n failures follow one another.
abbrev pub HasStreak : ℕ → Outcomes → Type 0
HasStreak n [] = ⊥
HasStreak n (o ∷ os) = Starts n (o ∷ os) ⊎ HasStreak n os

report_open : (now : ℕ) (failed : Bool) (b : Breaker) → b.state ≡ open_ → report now failed b ≡ b
unfolding report
report_open now failed b h = ground arith

report_all_open : (os : Outcomes) (b : Breaker) → b.state ≡ open_ → (report_all os b).state ≡ open_
unfolding report_all
report_all_open [] b h = h
report_all_open ((now, failed) ∷ os) b h =
    subst (λ x. (report_all os x).state ≡ open_) (sym (report_open now failed b h))
      (report_all_open os b h)

-- A closed breaker that m more failures in a row would open.
record Needs (m : ℕ) (b : Breaker) : Type 0 where
  is_closed : b.state ≡ closed
  count : b.failures + m ≡ b.opts.failure_threshold

report_success :
    (now m : ℕ) (b : Breaker) → Needs m b → Needs b.opts.failure_threshold (report now false b)
unfolding report
report_success now m b n = ground arith

report_failure :
    (now m : ℕ) (b : Breaker) → Needs (suc (suc m)) b → Needs (suc m) (report now true b)
unfolding report
report_failure now m b n = ground arith

report_last_failure : (now : ℕ) (b : Breaker) → Needs 1 b → (report now true b).state ≡ open_
unfolding report
report_last_failure now b n = ground arith

threshold-report :
    (now : ℕ) (failed : Bool) (b : Breaker)
    → (report now failed b).opts.failure_threshold ≡ b.opts.failure_threshold
unfolding report
threshold-report now failed b = ground arith

Starts-le : (m n : ℕ) (os : Outcomes) → m ≤ n → Starts n os → Starts m os
Starts-le zero n os h s = tt
Starts-le (suc m) zero os h s = absurd (omega arith)
Starts-le (suc m) (suc n) [] h s = s
Starts-le (suc m) (suc n) ((now, failed) ∷ os) h s = (s.0, Starts-le m n os (omega arith) s.1)

HasStreak-Starts : (n : ℕ) (os : Outcomes) → Starts (suc n) os → HasStreak (suc n) os
HasStreak-Starts n [] s = s
HasStreak-Starts n (o ∷ os) s = inl s

-- A streak that a breaker needs, or a whole one later.
abbrev Due : ℕ → ℕ → Outcomes → Type 0
Due t m os = Starts m os ⊎ HasStreak (suc t) os

Due-failure : (t m now : ℕ) (os : Outcomes) → m ≤ t → Due t (suc m) ((now, true) ∷ os) → Due t m os
Due-failure t m now os h (inl s) = inl s.1
Due-failure t m now os h (inr (inl s)) = inl (Starts-le m t os h s.1)
Due-failure t m now os h (inr (inr s)) = inr s

Due-success :
    (t m now : ℕ) (os : Outcomes) → Due t (suc m) ((now, false) ∷ os) → HasStreak (suc t) os
Due-success t m now os (inl s) = absurd (false≢true s.0)
Due-success t m now os (inr (inl s)) = absurd (false≢true s.0)
Due-success t m now os (inr (inr s)) = s

Due-later : (t m now : ℕ) (os : Outcomes) → Due t (suc t) os → Due t (suc m) ((now, false) ∷ os)
Due-later t m now os (inl s) = inr (inr (HasStreak-Starts t os s))
Due-later t m now os (inr s) = inr (inr s)

module _ (t : ℕ) where
  Needs-success :
      (now m : ℕ) (b : Breaker)
      → b.opts.failure_threshold ≡ suc t
      → Needs (suc m) b
      → Needs (suc t) (report now false b)
  Needs-success now m b e n =
      subst (λ k. Needs k (report now false b)) e (report_success now (suc m) b n)

  opens_by_streak :
      (os : Outcomes) (b : Breaker) (m : ℕ)
      → b.opts.failure_threshold ≡ suc t
      → Needs (suc m) b
      → Due t (suc m) os
      → (report_all os b).state ≡ open_
  unfolding report_all
  opens_by_streak [] b m e n (inl s) = absurd s
  opens_by_streak [] b m e n (inr s) = absurd s
  opens_by_streak ((now, true) ∷ os) b zero e n s =
      report_all_open os (report now true b) (report_last_failure now b n)
  opens_by_streak ((now, true) ∷ os) b (suc m) e n s =
      opens_by_streak os (report now true b) m (threshold-report now true b ∙ e)
        (report_failure now m b n) (Due-failure t (suc m) now os (omega (arith, n.count)) s)
  opens_by_streak ((now, false) ∷ os) b m e n s =
      opens_by_streak os (report now false b) t (threshold-report now false b ∙ e)
        (Needs-success now m b e n) (inr (Due-success t m now os s))

  streak_by_open :
      (os : Outcomes) (b : Breaker) (m : ℕ)
      → b.opts.failure_threshold ≡ suc t
      → Needs (suc m) b
      → (report_all os b).state ≡ open_
      → Due t (suc m) os
  unfolding report_all
  streak_by_open [] b m e n h = cc n.is_closed
  streak_by_open ((now, true) ∷ os) b zero e n h = inl (refl, tt)
  streak_by_open ((now, true) ∷ os) b (suc m) e n h =
      elim (streak_by_open os (report now true b) m (threshold-report now true b ∙ e)
        (report_failure now m b n) h) [ inl s ↦ inl (refl, s) | inr s ↦ inr (inr s) ]
  streak_by_open ((now, false) ∷ os) b m e n h = Due-later t m now os (
      streak_by_open os (report now false b) t (threshold-report now false b ∙ e)
        (Needs-success now m b e n) h)

-- The outcomes of calls that were all admitted while the breaker was closed, and are reported one
-- after another, with no acquire or State in between that could end an open phase: a closed
-- breaker that has counted no failure is open after them exactly if somewhere in them as many
-- failures as the threshold, which is positive, follow one another.
pub opens_exactly :
    (os : Outcomes) (b : Breaker)
    → b.state ≡ closed
    → b.failures ≡ 0
    → 0 < b.opts.failure_threshold
    → ((report_all os b).state ≡ open_) ↔ HasStreak b.opts.failure_threshold os
opens_exactly os b c z positive =
    let t = b.opts.failure_threshold - 1 in
    let e : b.opts.failure_threshold ≡ suc t = omega arith in
    let n : Needs (suc t) b = record { is_closed = c; count = omega arith } in
    (
      λ h.
          rw e
            (elim (streak_by_open t os b t e n h) [ inl s ↦ HasStreak-Starts t os s | inr s ↦ s ]),
      λ s. opens_by_streak t os b t e n (inr (rw e at s)),
    )

-- An open breaker refuses every call and stays as it is until its open duration is over, and
-- then takes the first call as a trial.
pub acquire-open :
    (now : ℕ) (b : Breaker)
    → b.state ≡ open_
    → 0 < b.opts.half_open_max
    → acquire now b ≡ (
        if leb b.opts.open_duration (now - b.opened_at)
        then (true, record b { state = half_open; half_open_busy = pos 1; half_open_ok = 0 })
        else (false, b))
unfolding acquire
acquire-open now b h room = ground arith
