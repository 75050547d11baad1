-- ===== src/Outbox/Consumer.antt =====
-- The handler that Consume of services/outbox/consume.go subscribes. The bus calls it with one
-- message at a time (MaxInFlight is 1), so its two critical sections are one step. The decoder of
-- a message, the read model's `apply` and its state are parameters.
use shardlands.Prelude.{
  ℕ, Bool, true, false, List, Option, none, some, String, str_eq, leb, ltb, if◌then◌else◌,
}

-- The handler's error, or Consume's own.
pub data Error : Type 0 where
  bad_message no_name apply_failed : Error

-- What is decoded of a message: the global number, and the event, which only `apply` reads.
pub record Envelope (E : Type 0) : Type 0 where
  pub global : ℕ
  pub event : E

-- `lastApplied`, and the read model that `apply` keeps.
pub record Consumer (S : Type 0) : Type 0 where
  pub last_applied : ℕ
  pub view : S

-- Consume: nothing is applied before the first message.
unfoldable pub consume : {S : Type 0} → String → S → Option Error × Option (Consumer S)
consume name init =
    if str_eq name ""
    then (some no_name, none)
    else (none, some (record { last_applied = 0; view = init }))

module _ {E S : Type 0} (decode : List ℕ → Option (Envelope E)) (apply : ℕ → E → S → Bool × S) where
  -- After `apply`; `true` is no error.
  abbrev pub mark : ℕ → ℕ → Bool × S → Option Error × Consumer S
  mark global last (false, s) = (some apply_failed, record { last_applied = last; view = s })
  mark global last (true, s) =
      (none, record { last_applied = if ltb last global then global else last; view = s })

  abbrev pub on_envelope : ℕ → Option (Envelope E) → Consumer S → Option Error × Consumer S
  on_envelope t none c = (some bad_message, c)
  on_envelope t (some env) c =
      if leb env.global c.last_applied
      then (none, c)
      else mark env.global c.last_applied (apply t env.event c.view)

  -- The handler at the time t.
  unfoldable pub handle : ℕ → List ℕ → Consumer S → Option Error × Consumer S
  handle t data_ c = on_envelope t (decode data_) c
