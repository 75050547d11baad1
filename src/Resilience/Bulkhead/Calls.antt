-- ===== src/Resilience/Bulkhead/Calls.antt =====
-- How many calls a bulkhead of pkg/resilience/bulkhead.go lets in, and what a guard's errors
-- leave alone.
use shardlands.Prelude.{ℕ, zero, suc, ◌+◌, ◌≤◌, ◌≡◌, ◌≢◌, Bool, List, [], ◌∷◌, arith}
use shardlands.Resilience.Bulkhead.{
  Bulkhead, Admission, slot, Choice, enter, leave, err_full, err_context, pending, Guard, Call,
  breaker_do, guard_do,
}

-- Calls of concurrent goroutines: one enters, or one that is inside leaves.
pub data Event : Type 0 where
  begin : Bool → Choice → Event
  finish : Event

-- A bulkhead, and the calls that are inside by the program's own account.
pub record Inside : Type 0 where
  pub bulkhead : Bulkhead
  pub calls : ℕ

abbrev pub count_slot : Admission → ℕ → ℕ
count_slot slot n = n + 1
count_slot _ n = n

abbrev pub finish_one : ℕ → Inside → Inside
finish_one zero s = s
finish_one (suc k) s = record { bulkhead = leave s.bulkhead; calls = k }

unfoldable pub step : Event → Inside → Inside
step (begin ctx_done pick) s =
    let (a, b) = enter ctx_done pick s.bulkhead in
    record { bulkhead = b; calls = count_slot a s.calls }
step finish s = finish_one s.calls s

unfoldable pub run : List Event → Inside → Inside
run [] s = s
run (e ∷ es) s = run es (step e s)

-- The channel counts the calls inside, and they are no more than its capacity.
pub record IsBounded (s : Inside) : Type 0 where
  pub exact : s.bulkhead.in_flight ≡ s.calls
  pub bounded : s.calls ≤ s.bulkhead.capacity

step-IsBounded : (e : Event) (s : Inside) → IsBounded s → IsBounded (step e s)
unfolding step enter leave
step-IsBounded (begin ctx_done pick) s h = ground arith
step-IsBounded finish s h = ground arith

-- Whatever calls begin and finish, in whatever order and whatever their selects take, no more
-- calls are inside than the bulkhead has slots, and its channel counts them.
pub run-IsBounded : (es : List Event) (s : Inside) → IsBounded s → IsBounded (run es s)
unfolding run
run-IsBounded [] s h = h
run-IsBounded (e ∷ es) s h = run-IsBounded es (step e s) (step-IsBounded e s h)

-- The guard's order. A call that the bulkhead turns away, because it is full or because the
-- context is done, leaves the breaker as it was; and every call that returns gives its slot back.
pub guard_spares_breaker :
    (c : Call) (g : Guard)
    → ((guard_do c g).0 ≡ err_full → (guard_do c g).1 ≡ g)
      × ((guard_do c g).0 ≡ err_context → (guard_do c g).1 ≡ g)
      × ((guard_do c g).0 ≢ pending → (guard_do c g).1.bulkhead ≡ g.bulkhead)
unfolding guard_do enter leave breaker_do
guard_spares_breaker c g = ground arith
