-- ===== src/Outbox/Delivery.antt =====
-- The relay of services/outbox/outbox.go delivers every event at least once, and in order.
use shardlands.Prelude.{
  ℕ, suc, ◌≡◌, ◌≤◌, ◌<◌, ◌⊎◌, ◌==◌, inl, inr, refl, ap, ◌∙◌, Bool, true, false, List, [], ◌∷◌, ◌++◌,
  Option, none, some, arith, if◌then◌else◌, Bool-cases, get_elem?,
}
use shardlands.Outbox.Relay.{
  Stored, Outcome, done, refused, answer_lost, Relay, publish_loop, last_global, finish, round,
  open_relay, Op, round_op, crash_op, step, run,
}

module _ {E : Type 0} where
  -- How far the bus has come: the number of the last event before the first that it was not given.
  unfoldable pub seen : ℕ → List (Stored E) → ℕ
  seen p [] = p
  seen p (e ∷ es) = seen (if e.global == suc p then suc p else p) es

  -- Each message is an event of the log, and none before it in the log is left out.
  abbrev pub AllInTurn : List E → ℕ → List (Stored E) → Type 0
  AllInTurn log p [] = Unit
  AllInTurn log p (e ∷ es) =
      ((j : ℕ) × (e.global ≡ suc j) × (get_elem? log j ≡ some e.event) × (j ≤ p))
      × AllInTurn log (if e.global == suc p then suc p else p) es

  -- The events of the log from a number on.
  abbrev pub IsPart : List E → ℕ → List (Stored E) → Type 0
  IsPart log k [] = Unit
  IsPart log k (e ∷ es) =
      (e.global ≡ suc k) × (get_elem? log k ≡ some e.event) × IsPart log (suc k) es

  seen-append : (p : ℕ) (xs ys : List (Stored E)) → seen p (xs ++ ys) ≡ seen (seen p xs) ys
  unfolding seen
  seen-append p [] ys = refl
  seen-append p (x ∷ xs) ys = seen-append (if x.global == suc p then suc p else p) xs ys

  AllInTurn-append :
      (log : List E) (p : ℕ) (xs ys : List (Stored E))
      → AllInTurn log p xs
      → AllInTurn log (seen p xs) ys
      → AllInTurn log p (xs ++ ys)
  unfolding seen
  AllInTurn-append log p [] ys a b = b
  AllInTurn-append log p (x ∷ xs) ys a b =
      (a.0, AllInTurn-append log (if x.global == suc p then suc p else p) xs ys a.1 b)

  abbrev moved : Stored E → ℕ → ℕ
  moved e p = if e.global == suc p then suc p else p

  moved-le : (e : Stored E) (p : ℕ) → p ≤ moved e p
  moved-le e p = ground arith

  moved-on : (e : Stored E) (k p : ℕ) → e.global ≡ suc k → k ≤ p → suc k ≤ moved e p
  moved-on e k p g l = ground arith

  seen-le : (p : ℕ) (xs : List (Stored E)) → p ≤ seen p xs
  unfolding seen
  seen-le p [] = omega arith
  seen-le p (x ∷ xs) = omega (arith, moved-le x p, seen-le (moved x p) xs)

  -- A part of the log that starts at or before where the bus has come is in turn.
  IsPart-AllInTurn :
      (log : List E) (k p : ℕ) (es : List (Stored E)) → k ≤ p → IsPart log k es → AllInTurn log p es
  IsPart-AllInTurn log k p [] l h = tt
  IsPart-AllInTurn log k p (e ∷ es) l h =
      ((k, h.0, h.1, l), IsPart-AllInTurn log (suc k) (moved e p) es (moved-on e k p h.0 l) h.2)

  -- What the loop gives to the bus is a part too, and all of it if there was no error.
  publish_loop-IsPart :
      (log : List E) (k : ℕ) (os : List Outcome) (es : List (Stored E))
      → IsPart log k es
      → IsPart log k (publish_loop os es).0
  unfolding publish_loop
  publish_loop-IsPart log k os [] h = tt
  publish_loop-IsPart log k [] (e ∷ es) h = tt
  publish_loop-IsPart log k (done ∷ os) (e ∷ es) h =
      (h.0, h.1, publish_loop-IsPart log (suc k) os es h.2)
  publish_loop-IsPart log k (refused ∷ os) (e ∷ es) h = tt
  publish_loop-IsPart log k (answer_lost ∷ os) (e ∷ es) h = (h.0, h.1, tt)

  publish_loop-all :
      (os : List Outcome) (es : List (Stored E))
      → (publish_loop os es).1 ≡ true
      → (publish_loop os es).0 ≡ es
  unfolding publish_loop
  publish_loop-all os [] h = refl
  publish_loop-all [] (e ∷ es) h = absurd cc
  publish_loop-all (done ∷ os) (e ∷ es) h = ap (λ l. e ∷ l) (publish_loop-all os es h)
  publish_loop-all (refused ∷ os) (e ∷ es) h = absurd cc
  publish_loop-all (answer_lost ∷ os) (e ∷ es) h = absurd cc

  last_global-seen :
      (log : List E) (k p : ℕ) (e : Stored E) (es : List (Stored E))
      → k ≤ p
      → IsPart log k (e ∷ es)
      → last_global e es ≤ seen p (e ∷ es)
  unfolding seen
  last_global-seen log k p e [] l h = omega (arith, h.0, moved-on e k p h.0 l)
  last_global-seen log k p e (x ∷ es) l h =
      last_global-seen log (suc k) (moved e p) x es (moved-on e k p h.0 l) h.2

  -- The bus was given events of the log in turn, as far as the checkpoints say.
  pub record IsDelivered (log : List E) (r : Relay E) : Type 0 where
    pub in_turn : AllInTurn log 0 r.out
    pub reached : r.checkpoint ≤ seen 0 r.out
    pub reached_saved : r.saved ≤ seen 0 r.out

  more_out :
      (log : List E) (r : Relay E) (sent : List (Stored E))
      → IsPart log r.checkpoint sent
      → IsDelivered log r
      → IsDelivered log (record r { out = r.out ++ sent })
  more_out log r sent h i =
      let further = seen-append 0 r.out sent in
      let later = seen-le (seen 0 r.out) sent in
      record {
        in_turn =
            AllInTurn-append log 0 r.out sent i.in_turn
              (IsPart-AllInTurn log r.checkpoint (seen 0 r.out) sent i.reached h);
        reached = omega (arith, further, later, i.reached);
        reached_saved = omega (arith, further, later, i.reached_saved);
      }

  finish-IsDelivered :
      (log : List E) (o : Outcome) (os : List Outcome) (e : Stored E) (es : List (Stored E))
      (r : Relay E)
      → IsPart log r.checkpoint (e ∷ es)
      → IsDelivered log r
      → IsDelivered log (finish o (last_global e es) (publish_loop os (e ∷ es)) r)
  finish-IsDelivered log o os e es r h i = by_all (publish_loop os (e ∷ es)).1 refl o
    where
      sent : List (Stored E)
      sent = (publish_loop os (e ∷ es)).0

      given : IsDelivered log (record r { out = r.out ++ sent })
      given = more_out log r sent (publish_loop-IsPart log r.checkpoint os (e ∷ es) h) i

      last_reached : (publish_loop os (e ∷ es)).1 ≡ true → last_global e es ≤ seen 0 (r.out ++ sent)
      last_reached all =
          let whole = publish_loop-all os (e ∷ es) all in
          let up_to = last_global-seen log r.checkpoint (seen 0 r.out) e es i.reached h in
          omega (arith, seen-append 0 r.out sent ∙ ap (seen (seen 0 r.out)) whole, up_to)

      by_all :
          (b : Bool)
          → (publish_loop os (e ∷ es)).1 ≡ b
          → (o : Outcome) → IsDelivered log (finish o (last_global e es) (sent, b) r)
      by_all false q o = given
      by_all true q done = record {
        in_turn = given.in_turn;
        reached = last_reached q;
        reached_saved = last_reached q;
      }
      by_all true q refused = given
      by_all true q answer_lost = record {
        in_turn = given.in_turn;
        reached = given.reached;
        reached_saved = last_reached q;
      }

  -- What ReadAll may return after a checkpoint: an error, or events of the log from there on.
  abbrev pub IsRead : List E → ℕ → Option (List (Stored E)) → Type 0
  IsRead log k none = Unit
  IsRead log k (some es) = IsPart log k es

  abbrev pub AllRead : List E → List (Op E) → Relay E → Type 0
  AllRead log [] r = Unit
  AllRead log (round_op read os o ∷ ops) r =
      IsRead log r.checkpoint read × AllRead log ops (step (round_op read os o) r)
  AllRead log (crash_op ∷ ops) r = AllRead log ops (step crash_op r)

  round-IsDelivered :
      (log : List E) (read : Option (List (Stored E))) (os : List Outcome) (o : Outcome)
      (r : Relay E)
      → IsRead log r.checkpoint read
      → IsDelivered log r
      → IsDelivered log (round read os o r)
  unfolding round
  round-IsDelivered log none os o r h i = i
  round-IsDelivered log (some []) os o r h i = i
  round-IsDelivered log (some (e ∷ es)) os o r h i = finish-IsDelivered log o os e es r h i

  run-IsDelivered :
      (log : List E) (ops : List (Op E)) (r : Relay E)
      → AllRead log ops r
      → IsDelivered log r
      → IsDelivered log (run ops r)
  unfolding run
  run-IsDelivered log [] r h i = i
  run-IsDelivered log (round_op read os o ∷ ops) r h i =
      run-IsDelivered log ops (round read os o r) h.1 (round-IsDelivered log read os o r h.0 i)
  run-IsDelivered log (crash_op ∷ ops) r h i =
      run-IsDelivered log ops (open_relay r.saved r.out) h
        (record { in_turn = i.in_turn; reached = i.reached_saved; reached_saved = i.reached_saved })

  -- The bus was given the event after the first j.
  abbrev pub IsGiven : ℕ → List (Stored E) → Type 0
  IsGiven j [] = ⊥
  IsGiven j (e ∷ es) = (e.global ≡ suc j) ⊎ IsGiven j es

  seen-IsGiven : (p j : ℕ) (out : List (Stored E)) → p ≤ j → j < seen p out → IsGiven j out
  unfolding seen
  seen-IsGiven p j [] l h = absurd (omega arith)
  seen-IsGiven p j (e ∷ es) l h = elim (Bool-cases (e.global == suc j)) [
    | inl this ↦ inl (ground arith)
    | inr other ↦ inr (seen-IsGiven (moved e p) j es (ground arith) h)
  ]

  -- At least once, and in order. The relay starts with nothing published. Over any run of rounds
  -- and crashes, whatever publications and saves of the checkpoint fail or lose their answer,
  -- every event up to the relay's checkpoint, and up to the one that is saved, has been given to
  -- the bus; and each message given to the bus is an event of the log that no earlier event still
  -- waited for. What ReadAll returns is an error or a part of the log after the checkpoint.
  pub run-delivers :
      (log : List E) (ops : List (Op E))
      → AllRead log ops (open_relay 0 [])
      → AllInTurn log 0 (run ops (open_relay 0 [])).out
        × ((j : ℕ)
            → j < (run ops (open_relay 0 [])).checkpoint
            → IsGiven j (run ops (open_relay 0 [])).out)
        × ((j : ℕ)
            → j < (run ops (open_relay 0 [])).saved
            → IsGiven j (run ops (open_relay 0 [])).out)
  run-delivers log ops h =
      let last = run ops (open_relay 0 []) in
      let start : IsDelivered log (open_relay 0 []) = record {
        in_turn = tt;
        reached = omega arith;
        reached_saved = omega arith;
      } in
      let i = run-IsDelivered log ops (open_relay 0 []) h start in
      (
        i.in_turn,
        λ j l. seen-IsGiven 0 j last.out (omega arith) (omega (arith, l, i.reached)),
        λ j l. seen-IsGiven 0 j last.out (omega arith) (omega (arith, l, i.reached_saved)),
      )
