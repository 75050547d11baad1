-- ===== src/Resilience/Examples.antt =====
-- The theorems on pkg/resilience at a breaker and a bulkhead with calls.
use shardlands.Prelude.{
  ℕ, Bool, ◌≡◌, ◌≢◌, ◌↔◌, refl, inl, inr, true, false, some, List, [], ◌∷◌, arith,
}
use shardlands.Prelude.Int.{pos}
use shardlands.Resilience.Breaker.{
  Breaker, Options, State, closed, open_, acquire, report, report_closed, report_trial, trip,
}
use shardlands.Resilience.Breaker.Trips.{Outcomes, HasStreak, report_all, opens_exactly}
use shardlands.Resilience.Bulkhead.{
  Bulkhead, Guard, Call, send, timer, done, err_full, err_context, pending, guard_do,
}
use shardlands.Resilience.Bulkhead.Calls.{
  Event, begin, finish, Inside, IsBounded, run, run-IsBounded, guard_spares_breaker,
}

abbrev options : Options
options = record {
  failure_threshold = 2;
  open_duration = 100;
  half_open_max = 1;
  half_open_successes = 2;
}

abbrev breaker : State → ℕ → Breaker
breaker st busy = record {
  opts = options;
  state = st;
  failures = 0;
  opened_at = 50;
  half_open_busy = pos busy;
  half_open_ok = 0;
}

-- A success between two failures, then two failures.
abbrev outcomes : Outcomes
outcomes = (1, true) ∷ (2, false) ∷ (3, true) ∷ (4, true) ∷ []

opens_exactly_example :
    ((report_all outcomes (breaker closed 0)).state ≡ open_) ↔ HasStreak 2 outcomes
opens_exactly_example = opens_exactly outcomes (breaker closed 0) refl refl (omega arith)

trips : (report_all outcomes (breaker closed 0)).state ≡ open_
trips = opens_exactly_example.1 (inr (inr (inl (refl, (refl, tt)))))

-- A call that is admitted while the breaker is closed, and reports late: `tripped` is the breaker
-- after the failures of two others, `trying` after a first trial was admitted. The success of the
-- early call then lets a second trial in beside the first, although half_open_max is 1.
abbrev tripped : Breaker
tripped = report 20 true (report 10 true (acquire 5 (breaker closed 0)).1)

abbrev trying : Bool × Breaker
trying = acquire 120 tripped

late_report_admits :
    ((acquire 5 (breaker closed 0)).0 ≡ true)
    × (trying.0 ≡ true)
    × ((acquire 125 trying.1).0 ≡ false)
    × ((acquire 130 (report 128 false trying.1)).0 ≡ true)
unfolding acquire report report_closed report_trial trip
late_report_admits = (refl, refl, refl, refl)

abbrev small : Bulkhead
small = record { in_flight = 0; capacity = 1; wait = 0 }

abbrev events : List Event
events = begin false send ∷ begin false timer ∷ finish ∷ begin true done ∷ []

abbrev nobody : Inside
nobody = record { bulkhead = small; calls = 0 }

run-IsBounded_example : IsBounded (run events nobody)
run-IsBounded_example = run-IsBounded events nobody (record { exact = refl; bounded = omega arith })

abbrev guard : Guard
guard = record {
  breaker = some (breaker closed 0);
  bulkhead = some (record small { in_flight = 1 });
}

abbrev call : Call
call = record { start = 60; end = 70; fails = true; ctx_done = false; pick = send }

guard_spares_breaker_example :
    ((guard_do call guard).0 ≡ err_full → (guard_do call guard).1 ≡ guard)
    × ((guard_do call guard).0 ≡ err_context → (guard_do call guard).1 ≡ guard)
    × ((guard_do call guard).0 ≢ pending → (guard_do call guard).1.bulkhead ≡ guard.bulkhead)
guard_spares_breaker_example = guard_spares_breaker call guard
