-- ===== src/Outbox/Examples.antt =====
-- A read model that sums numbers, over messages that fail and come again.
use shardlands.Prelude.{
  ℕ, ◌+◌, ◌≡◌, ◌<◌, length, inl, inr, refl, Bool, true, false, List, [], ◌∷◌, Option, none, some,
  arith, ◌==◌, if◌then◌else◌, Bool-cases,
}
use shardlands.Outbox.Consumer.{Envelope, Consumer, handle}
use shardlands.Outbox.Once.{apply_all, IsAtomic, IsCaughtUp, handle_all, handle_all-IsCaughtUp}
use shardlands.Outbox.Relay.{
  Stored, done, refused, answer_lost, Op, round_op, crash_op, open_relay, run, round, publish_loop,
}
use shardlands.Outbox.Delivery.{AllInTurn, AllRead, IsGiven, run-delivers}
use shardlands.Outbox.CatchUp.{good_rounds, good_rounds-reach}

abbrev log : List ℕ
log = 7 ∷ 5 ∷ []

abbrev decode : List ℕ → Option (Envelope ℕ)
decode (n ∷ e ∷ []) = some (record { global = n; event = e })
decode _ = none

abbrev add : ℕ → ℕ → ℕ
add e s = s + e

-- The first attempt fails.
abbrev apply : ℕ → ℕ → ℕ → Bool × ℕ
apply t e s = if t == 0 then (false, s) else (true, s + e)

apply-IsAtomic : IsAtomic decode apply add
apply-IsAtomic t e s = elim (Bool-cases (t == 0)) [
  | inl first ↦ inr (rw first refl)
  | inr later ↦ inl (rw later refl)
]

abbrev messages : List (List ℕ)
messages = (1 ∷ 7 ∷ []) ∷ (1 ∷ 7 ∷ []) ∷ [] ∷ (1 ∷ 7 ∷ []) ∷ (2 ∷ 5 ∷ []) ∷ (1 ∷ 7 ∷ []) ∷ []

abbrev start : Consumer ℕ
start = record { last_applied = 0; view = 0 }

handle_all-IsCaughtUp_example :
    IsCaughtUp decode apply add log 0 (handle_all decode apply add 0 messages start)
unfolding handle apply_all
handle_all-IsCaughtUp_example =
    handle_all-IsCaughtUp decode apply add log 0 0 messages start apply-IsAtomic
      (
        (0, refl, refl, omega arith),
        (
          (0, refl, refl, omega arith),
          (
            tt,
            (
              (0, refl, refl, omega arith),
              ((1, refl, refl, omega arith), ((0, refl, refl, omega arith), tt)),
            ),
          ),
        ),
      )
      refl

abbrev first_event : Stored ℕ
first_event = record { global = 1; event = 7 }

abbrev second_event : Stored ℕ
second_event = record { global = 2; event = 5 }

-- The second publication fails, the process is gone, and both events come again.
abbrev rounds : List (Op ℕ)
rounds =
    round_op (some (first_event ∷ second_event ∷ [])) (done ∷ refused ∷ []) done
    ∷ crash_op
    ∷ round_op (some (first_event ∷ second_event ∷ [])) (done ∷ done ∷ []) answer_lost
    ∷ []

rounds-AllRead : AllRead log rounds (open_relay 0 [])
unfolding round publish_loop
rounds-AllRead = ((refl, refl, (refl, refl, tt)), ((refl, refl, (refl, refl, tt)), tt))

run-delivers_example :
    AllInTurn log 0 (run rounds (open_relay 0 [])).out
    × ((j : ℕ)
        → j < (run rounds (open_relay 0 [])).checkpoint
        → IsGiven j (run rounds (open_relay 0 [])).out)
    × ((j : ℕ)
        → j < (run rounds (open_relay 0 [])).saved
        → IsGiven j (run rounds (open_relay 0 [])).out)
run-delivers_example = run-delivers log rounds rounds-AllRead

good_rounds-reach_example : (good_rounds 2 1 log (open_relay 0 [])).checkpoint ≡ length log
good_rounds-reach_example =
    good_rounds-reach 2 1 log (open_relay 0 []) (omega arith) (omega arith) (omega arith)
