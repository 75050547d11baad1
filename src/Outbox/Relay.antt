-- ===== src/Outbox/Relay.antt =====
-- The relay of services/outbox/outbox.go, from the event store to the bus. What ReadAll returns is
-- an argument of a round, and so is what becomes of each publication and of the save of the
-- checkpoint. An answer may be lost: the call then fails although it has had its effect.
use shardlands.Prelude.{ℕ, Bool, true, false, List, [], ◌∷◌, ◌++◌, Option, none, some}

-- An event of the store, with its global number; the message of the bus carries both, and its id
-- is the number.
pub record Stored (E : Type 0) : Type 0 where
  pub global : ℕ
  pub event : E

-- What becomes of a call of the bus or of the checkpoint's database.
pub data Outcome : Type 0 where
  done refused answer_lost : Outcome

-- The checkpoint in memory, the one that is saved, and what the bus was given, in order.
pub record Relay (E : Type 0) : Type 0 where
  pub checkpoint : ℕ
  pub saved : ℕ
  pub out : List (Stored E)

-- The loop of publishBatch: what the bus is given, and whether there was no error. Where the
-- outcomes end, the process does.
unfoldable pub publish_loop : {E : Type 0} → List Outcome → List (Stored E) → List (Stored E) × Bool
publish_loop os [] = ([], true)
publish_loop [] (e ∷ es) = ([], false)
publish_loop (done ∷ os) (e ∷ es) = let (sent, all) = publish_loop os es in (e ∷ sent, all)
publish_loop (refused ∷ os) (e ∷ es) = ([], false)
publish_loop (answer_lost ∷ os) (e ∷ es) = (e ∷ [], false)

-- saveCheckpoint, and the checkpoint in memory after it
abbrev pub save : {E : Type 0} → Outcome → ℕ → Relay E → Relay E
save done last r = record r { checkpoint = last; saved = last }
save refused last r = r
save answer_lost last r = record r { saved = last }

abbrev pub last_global : {E : Type 0} → Stored E → List (Stored E) → ℕ
last_global e [] = e.global
last_global e (x ∷ xs) = last_global x xs

abbrev pub finish : {E : Type 0} → Outcome → ℕ → List (Stored E) × Bool → Relay E → Relay E
finish o last (sent, true) r = save o last (record r { out = r.out ++ sent })
finish o last (sent, false) r = record r { out = r.out ++ sent }

-- A round of run: publishBatch, if anything was read.
unfoldable pub round :
    {E : Type 0} → Option (List (Stored E)) → List Outcome → Outcome → Relay E → Relay E
round none os o r = r
round (some []) os o r = r
round (some (e ∷ es)) os o r = finish o (last_global e es) (publish_loop os (e ∷ es)) r

-- What Open finds under the checkpoint's key: its 8 bytes, another length, nothing, or an error.
pub data Found : Type 0 where
  number : ℕ → Found
  other_length not_found failed : Found

abbrev pub checkpoint_of : Found → Option ℕ
checkpoint_of (number n) = some n
checkpoint_of other_length = some 0
checkpoint_of not_found = some 0
checkpoint_of failed = none

-- A relay from a checkpoint. `saved` is what is under the key, 0 if nothing was ever saved.
abbrev pub open_relay : {E : Type 0} → ℕ → List (Stored E) → Relay E
open_relay saved out = record { checkpoint = saved; saved = saved; out = out }

-- Open; `none` is its error.
abbrev pub opened : {E : Type 0} → Option ℕ → List (Stored E) → Option (Relay E)
opened none out = none
opened (some n) out = some (open_relay n out)

-- The relay after an Open; one that fails leaves things as they are, for the next.
abbrev pub after_open : {E : Type 0} → Relay E → Option (Relay E) → Relay E
after_open r none = r
after_open r (some r') = r'

-- A round, or a crash and the next Open.
pub data Op (E : Type 0) : Type 0 where
  round_op : Option (List (Stored E)) → List Outcome → Outcome → Op E
  crash_op : Op E

abbrev pub step : {E : Type 0} → Op E → Relay E → Relay E
step (round_op evs os o) r = round evs os o r
step crash_op r = after_open r (opened (checkpoint_of (number r.saved)) r.out)

unfoldable pub run : {E : Type 0} → List (Op E) → Relay E → Relay E
run [] r = r
run (o ∷ os) r = run os (step o r)
