-- ===== src/Outbox/Once.antt =====
-- A read model fed through services/outbox/consume.go has taken in each event once.
use shardlands.Prelude.{
  ℕ, zero, suc, ◌≤◌, ◌≡◌, ◌⊎◌, inl, inr, sym, ap, ◌∙◌, subst, Bool, true, false, List, [], ◌∷◌,
  Option, none, some, arith, leb, ltb, Bool-cases, take, get_elem?,
}
use shardlands.Outbox.Consumer.{Envelope, Consumer, on_envelope, handle}

-- The read model after some events.
unfoldable pub apply_all : {E S : Type 0} → (E → S → S) → List E → S → S
apply_all f [] s = s
apply_all f (e ∷ es) s = apply_all f es (f e s)

apply_all-take :
    {E S : Type 0} (f : E → S → S) (es : List E) (n : ℕ) (e : E) (s : S)
    → get_elem? es n ≡ some e
    → apply_all f (take (suc n) es) s ≡ f e (apply_all f (take n es) s)
unfolding apply_all
apply_all-take f [] n e s at = cc
apply_all-take f (x ∷ es) zero e s at = cc
apply_all-take f (x ∷ es) (suc n) e s at = apply_all-take f es n e (f x s) at

module _ {E S : Type 0} (decode : List ℕ → Option (Envelope E)) (apply : ℕ → E → S → Bool × S)
    (f : E → S → S) where
  -- `apply` takes the event in, or fails and leaves the read model as it was.
  abbrev pub IsAtomic : Type 0
  IsAtomic = (t : ℕ) (e : E) (s : S) → (apply t e s ≡ (true, f e s)) ⊎ (apply t e s ≡ (false, s))

  -- The read model has taken in the first `last_applied` events of the log, each once.
  abbrev pub IsCaughtUp : List E → S → Consumer S → Type 0
  IsCaughtUp log init c = c.view ≡ apply_all f (take c.last_applied log) init

  -- What the bus may deliver: a message that does not decode, or the message of an event of the
  -- log, in order: not before those ahead of it were handled without error, but any number of
  -- times.
  abbrev pub IsInOrder : List E → Consumer S → Option (Envelope E) → Type 0
  IsInOrder log c none = Unit
  IsInOrder log c (some env) =
      (j : ℕ) × (env.global ≡ suc j) × (get_elem? log j ≡ some env.event) × (j ≤ c.last_applied)

  -- The handler over a sequence of messages, from the time t.
  unfoldable pub handle_all : ℕ → List (List ℕ) → Consumer S → Consumer S
  handle_all t [] c = c
  handle_all t (m ∷ ms) c = handle_all (suc t) ms (handle decode apply t m c).1

  abbrev pub AllInOrder : List E → ℕ → List (List ℕ) → Consumer S → Type 0
  AllInOrder log t [] c = Unit
  AllInOrder log t (m ∷ ms) c =
      IsInOrder log c (decode m) × AllInOrder log (suc t) ms (handle decode apply t m c).1

  on_envelope-IsCaughtUp :
      (log : List E) (init : S) (t : ℕ) (o : Option (Envelope E)) (c : Consumer S)
      → IsAtomic
      → IsInOrder log c o
      → IsCaughtUp log init c
      → IsCaughtUp log init (on_envelope decode apply t o c).1
  on_envelope-IsCaughtUp log init t none c a i h = h
  on_envelope-IsCaughtUp log init t (some env) c a (j, number, at, ahead) h =
      elim (Bool-cases (leb env.global c.last_applied)) [
        | inl old ↦ rw old h
        | inr new ↦ elim (a t env.event c.view) [
          | inl done ↦
              let next : j ≡ c.last_applied = ground arith in
              let higher : ltb c.last_applied env.global ≡ true = ground arith in
              let last : env.global ≡ suc c.last_applied = number ∙ ap suc next in
              let here : get_elem? log c.last_applied ≡ some env.event =
                subst (λ n. get_elem? log n ≡ some env.event) next at in
              let one = apply_all-take f log c.last_applied env.event init here in
              rw new (rw done (rw higher (rw last (ap (f env.event) h ∙ sym one))))
          | inr failed ↦ rw new (rw failed h)
        ]
      ]

  -- Exactly once, as long as the bus gives up on no message: it may deliver a message any number
  -- of times, and bad ones among them, but the message of an event only after those of all events
  -- before it in the log were handled without an error. (After MaxDeliver failures the bus gives
  -- up, and the next event would be applied over a gap.) If `apply` either takes an event in or
  -- fails and leaves the read model as it was, then the read model is always the one that has
  -- taken in the first `last_applied` events of the log, each exactly once, in order.
  pub handle_all-IsCaughtUp :
      (log : List E) (init : S) (t : ℕ) (ms : List (List ℕ)) (c : Consumer S)
      → IsAtomic
      → AllInOrder log t ms c
      → IsCaughtUp log init c
      → IsCaughtUp log init (handle_all t ms c)
  unfolding handle_all handle
  handle_all-IsCaughtUp log init t [] c a i h = h
  handle_all-IsCaughtUp log init t (m ∷ ms) c a (i, rest) h =
      handle_all-IsCaughtUp log init (suc t) ms (handle decode apply t m c).1 a rest
        (on_envelope-IsCaughtUp log init t (decode m) c a i h)
