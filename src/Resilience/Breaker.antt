-- ===== src/Resilience/Breaker.antt =====
-- The circuit breaker, pkg/resilience/breaker.go. Times are nanoseconds of one clock, and a
-- breaker is used after withDefaults, so its thresholds and its open duration are positive.
pub mod Trips
use shardlands.Prelude.{
  ℕ, ◌+◌, ◌-◌, Bool, true, false, ◌&&◌, Option, none, some, String, leb, if◌then◌else◌,
}
use shardlands.Prelude.Int.{ℤ, pos, ◌-ℤ◌, ◌+ℤ◌, leb_ℤ}

pub data State : Type 0 where
  closed open_ half_open : State

unfoldable pub state_name : State → String
state_name open_ = "open"
state_name half_open = "half-open"
state_name closed = "closed"

pub record Options : Type 0 where
  pub failure_threshold : ℕ
  pub open_duration : ℕ
  pub half_open_max : ℕ
  pub half_open_successes : ℕ

-- BreakerOptions.withDefaults
unfoldable pub with_defaults : Options → Options
with_defaults o = record {
  failure_threshold = if leb o.failure_threshold 0 then 5 else o.failure_threshold;
  open_duration = if leb o.open_duration 0 then 5000000000 else o.open_duration;
  half_open_max = if leb o.half_open_max 0 then 1 else o.half_open_max;
  half_open_successes = if leb o.half_open_successes 0 then 1 else o.half_open_successes;
}

pub record Breaker : Type 0 where
  pub opts : Options
  pub state : State
  pub failures : ℕ
  pub opened_at : ℕ
  pub half_open_busy : ℤ
  pub half_open_ok : ℕ

-- NewBreaker
unfoldable pub new_breaker : Options → Breaker
unfolding with_defaults
new_breaker o = record {
  opts = with_defaults o;
  state = closed;
  failures = 0;
  opened_at = 0;
  half_open_busy = pos 0;
  half_open_ok = 0;
}

abbrev pub is_open : State → Bool
is_open open_ = true
is_open _ = false

-- maybeHalfOpenLocked
unfoldable pub maybe_half_open : ℕ → Breaker → Breaker
maybe_half_open now b =
    if is_open b.state && leb b.opts.open_duration (now - b.opened_at)
    then record b { state = half_open; half_open_busy = pos 0; half_open_ok = 0 }
    else b

-- State
unfoldable pub current_state : ℕ → Breaker → State × Breaker
unfolding maybe_half_open
current_state now b = let b' = maybe_half_open now b in (b'.state, b')

-- The switch of acquire; `true` is an admitted call, `false` is ErrOpen.
abbrev pub admit : State → Breaker → Bool × Breaker
admit open_ b = (false, b)
admit half_open b =
    if leb_ℤ (pos b.opts.half_open_max) b.half_open_busy
    then (false, b)
    else (true, record b { half_open_busy = b.half_open_busy +ℤ pos 1 })
admit closed b = (true, b)

-- acquire
unfoldable pub acquire : ℕ → Breaker → Bool × Breaker
unfolding maybe_half_open ◌+ℤ◌
acquire now b = let b' = maybe_half_open now b in admit b'.state b'

-- trip
unfoldable pub trip : ℕ → Breaker → Breaker
trip now b = record b {
  state = open_;
  opened_at = now;
  failures = 0;
  half_open_busy = pos 0;
  half_open_ok = 0;
}

-- The cases of report's switch, on whether the call failed.
unfoldable pub report_trial : ℕ → Bool → Breaker → Breaker
unfolding trip ◌-ℤ◌
report_trial now failed b =
    let b1 = record b { half_open_busy = b.half_open_busy -ℤ pos 1 } in
    if failed
    then trip now b1
    else let b2 = record b1 { half_open_ok = b1.half_open_ok + 1 } in
      if leb b2.opts.half_open_successes b2.half_open_ok
      then record b2 { state = closed; failures = 0; half_open_ok = 0 }
      else b2

unfoldable pub report_closed : ℕ → Bool → Breaker → Breaker
unfolding trip
report_closed now failed b =
    if failed
    then (let b' = record b { failures = b.failures + 1 } in
        if leb b'.opts.failure_threshold b'.failures then trip now b' else b')
    else record b { failures = 0 }

abbrev pub report_in : State → ℕ → Bool → Breaker → Breaker
report_in half_open now failed b = report_trial now failed b
report_in closed now failed b = report_closed now failed b
report_in open_ now failed b = b

-- report
unfoldable pub report : ℕ → Bool → Breaker → Breaker
unfolding report_trial report_closed
report now failed b = report_in b.state now failed b
