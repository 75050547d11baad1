-- ===== src/Resilience/Bulkhead.antt =====
-- The bulkhead and the guard, pkg/resilience/bulkhead.go. The channel of a bulkhead holds one
-- unit for each call in flight. Which case a select takes comes in as an argument.
pub mod Calls
use shardlands.Prelude.{ℕ, ◌+◌, ◌-◌, Bool, true, false, Option, none, some, ltb, leb, if◌then◌else◌}
use shardlands.Resilience.Breaker.{Breaker, acquire, report}

pub record Bulkhead : Type 0 where
  pub in_flight : ℕ
  pub capacity : ℕ
  pub wait : ℕ

-- NewBulkhead
unfoldable pub new_bulkhead : ℕ → ℕ → Bulkhead
new_bulkhead limit wait = record {
  in_flight = 0;
  capacity = if leb limit 0 then 1 else limit;
  wait = wait;
}

-- What acquire comes to: a slot, ErrFull, or the context's error; or it is still blocked.
pub data Admission : Type 0 where
  slot full cancelled blocked : Admission

-- A case of a select: the send to the channel, the context, or the timer.
pub data Choice : Type 0 where
  send done timer : Choice

-- A send to the channel is ready while it has room.
abbrev pub has_room : Bulkhead → Bool
has_room b = ltb b.in_flight b.capacity

-- The select with a default: the runtime picks a ready case, `ctx_done` being the second's.
abbrev pub try_now : Bool → Bool → Choice → Admission
try_now true true done = cancelled
try_now true _ _ = slot
try_now false true _ = cancelled
try_now false false _ = full

-- The select with a timer, woken on one of its cases.
abbrev pub try_wait : Bool → Choice → Admission
try_wait true send = slot
try_wait false send = blocked
try_wait _ timer = full
try_wait _ done = cancelled

abbrev pub take_slot : Admission → Bulkhead → Bulkhead
take_slot slot b = record b { in_flight = b.in_flight + 1 }
take_slot _ b = b

-- acquire
unfoldable pub enter : Bool → Choice → Bulkhead → Admission × Bulkhead
enter ctx_done pick b =
    let a =
      if leb b.wait 0 then try_now (has_room b) ctx_done pick else try_wait (has_room b) pick in
    (a, take_slot a b)

-- The deferred receive of Do, which runs on a panic too.
unfoldable pub leave : Bulkhead → Bulkhead
leave b = record b { in_flight = b.in_flight - 1 }

-- InFlight and Capacity
unfoldable pub in_flight_of : Bulkhead → ℕ
in_flight_of b = b.in_flight

unfoldable pub capacity_of : Bulkhead → ℕ
capacity_of b = b.capacity

-- What a guarded call returns: an error of a guard, or the result of `fn`, which failed or not.
pub data Outcome : Type 0 where
  err_full err_context err_open pending : Outcome
  ran : Bool → Outcome

-- Guard: either part may be nil.
pub record Guard : Type 0 where
  pub breaker : Option Breaker
  pub bulkhead : Option Bulkhead

-- What one call meets: the clock before and after `fn`, whether `fn` fails, and the select.
pub record Call : Type 0 where
  pub start : ℕ
  pub end : ℕ
  pub fails : Bool
  pub ctx_done : Bool
  pub pick : Choice

-- Breaker.Do
unfoldable pub breaker_do : Call → Breaker → Outcome × Breaker
breaker_do c b =
    let (admitted, b') = acquire c.start b in
    if admitted then (ran c.fails, report c.end c.fails b') else (err_open, b')

-- The `run` that Guard.Do builds.
abbrev pub run_inner : Call → Option Breaker → Outcome × Option Breaker
run_inner c none = (ran c.fails, none)
run_inner c (some b) = let (o, b') = breaker_do c b in (o, some b')

-- Bulkhead.Do round it, once the select has decided.
abbrev pub in_bulkhead : Call → Option Breaker → Admission × Bulkhead → Outcome × Guard
in_bulkhead c br (slot, bh) =
    let (o, br') = run_inner c br in (o, record { breaker = br'; bulkhead = some (leave bh) })
in_bulkhead c br (full, bh) = (err_full, record { breaker = br; bulkhead = some bh })
in_bulkhead c br (cancelled, bh) = (err_context, record { breaker = br; bulkhead = some bh })
in_bulkhead c br (blocked, bh) = (pending, record { breaker = br; bulkhead = some bh })

-- The two shapes of Guard.Do: with a bulkhead and without.
abbrev pub guard_by : Call → Option Breaker → Option Bulkhead → Outcome × Guard
guard_by c br none = let (o, br') = run_inner c br in (o, record { breaker = br'; bulkhead = none })
guard_by c br (some bh) = in_bulkhead c br (enter c.ctx_done c.pick bh)

-- Guard.Do
unfoldable pub guard_do : Call → Guard → Outcome × Guard
guard_do c g = guard_by c g.breaker g.bulkhead
