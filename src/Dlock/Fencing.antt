-- ===== src/Dlock/Fencing.antt =====
-- Fencing tokens of pkg/dlock/dlock.go: a token is the log index of its acquire.
use shardlands.Prelude.{
  ℕ, ◌≤◌, ◌<◌, ◌≡◌, ◌≢◌, ◌⊎◌, inl, inr, refl, ◌∙◌, true, false, Option, none, some, [], ◌∷◌, String,
  str_eq, arith, Bool-cases, sym, subst, if◌then◌else◌, lookup,
}
use native.Mathlib.Nat.{le_trans}
use shardlands.Dlock.Replica.{Command, Entry, Replica, Log, new_replica, apply, get, apply_all}
use shardlands.Dlock.Lease.{transition, lookup-apply_command}

-- The indices of a log, in order, all above `applied`.
abbrev pub IsLogAfter : ℕ → Log → Type 0
IsLogAfter applied [] = Unit
IsLogAfter applied ((index, c) ∷ log) = (applied < index) × IsLogAfter index log

-- Every token is the index of a command that was applied.
pub record TokensApplied (r : Replica) : Type 0 where
  pub at_key : (key : String) (e : Entry) → get key r ≡ some e → e.token ≤ r.applied

-- The entry continues the tenure of `e`, or its tenure began after `applied`.
abbrev pub Follows : ℕ → Entry → Entry → Type 0
Follows applied e e' = ((e'.owner ≡ e.owner) × (e'.token ≡ e.token)) ⊎ (applied < e'.token)

transition-token :
    (index : ℕ) (c : Command) (lock : Option Entry) {e' : Entry}
    → transition index c lock ≡ some e'
    → (e'.token ≡ index)
      ⊎ ((e : Entry) × (lock ≡ some e) × (e'.owner ≡ e.owner) × (e'.token ≡ e.token))
unfolding transition
transition-token index c none h = ground arith
transition-token index c (some e) h = ground arith

get-apply :
    (index : ℕ) (c : Command) (r : Replica) (key : String) {e' : Entry}
    → get key (apply index (some c) r) ≡ some e'
    → (e'.token ≡ index)
      ⊎ ((e : Entry) × (get key r ≡ some e) × (e'.owner ≡ e.owner) × (e'.token ≡ e.token))
unfolding get apply
get-apply index c r key {e'} h = elim (Bool-cases (str_eq c.key key)) [
  | inl same ↦
      transition-token index c (lookup key r.locks)
        (sym (lookup-apply_command index c r.locks key ∙ pick same) ∙ h)
  | inr other ↦
      inr (e', sym (lookup-apply_command index c r.locks key ∙ skip other) ∙ h, refl, refl)
]
  where
    pick :
        str_eq c.key key ≡ true
        → (if str_eq c.key key then transition index c (lookup key r.locks) else lookup key r.locks)
          ≡ transition index c (lookup key r.locks)
    pick e = rw e

    skip :
        str_eq c.key key ≡ false
        → (if str_eq c.key key then transition index c (lookup key r.locks) else lookup key r.locks)
          ≡ lookup key r.locks
    skip e = rw e

module _ (key : String) (base : ℕ) (e : Entry) where
  -- Where the lock is held, its entry follows `e`.
  abbrev Descends : Replica → Type 0
  Descends r = (e' : Entry) → get key r ≡ some e' → Follows base e e'

  apply-Descends :
      (index : ℕ) (c : Command) (r : Replica)
      → base ≤ r.applied
      → r.applied < index
      → Descends r
      → Descends (apply index (some c) r)
  apply-Descends index c r low above follows e' h = elim (get-apply index c r key h) [
    | inl new ↦ inr (omega arith)
    | inr (e0, held, owner, token) ↦ elim (follows e0 held) [
      | inl (same_owner, same_token) ↦ inl (owner ∙ same_owner, token ∙ same_token)
      | inr later ↦ inr (omega arith)
    ]
  ]

  apply_all-Descends :
      (log : Log) (r : Replica)
      → base ≤ r.applied
      → IsLogAfter r.applied log
      → Descends r
      → Descends (apply_all log r)
  unfolding apply_all
  apply_all-Descends [] r low after follows = follows
  apply_all-Descends ((index, none) ∷ log) r low after follows =
      apply_all-Descends log (apply index none r) (unfold apply in omega arith)
        (unfold apply in after.1) (λ e' h. follows e' (unfold apply get in h))
  apply_all-Descends ((index, some c) ∷ log) r low after follows =
      apply_all-Descends log (apply index (some c) r) (unfold apply in omega arith)
        (unfold apply in after.1) (apply-Descends index c r low after.0 follows)

apply-TokensApplied :
    (index : ℕ) (c : Option Command) (r : Replica)
    → r.applied < index
    → TokensApplied r
    → TokensApplied (apply index c r)
unfolding apply
apply-TokensApplied index none r above t = record {
  at_key = λ key e h. le_trans (t.at_key key e (unfold get in h)) (omega arith);
}
apply-TokensApplied index (some c) r above t = record {
  at_key = λ key e h. elim (get-apply index c r key h) [
    | inl new ↦ omega arith
    | inr (e0, held, _, token) ↦ omega (arith, t.at_key key e0 held)
  ];
}

applied-apply : (index : ℕ) (c : Option Command) (r : Replica) → (apply index c r).applied ≡ index
unfolding apply
applied-apply index none r = refl
applied-apply index (some c) r = refl

same_entry : {base : ℕ} {e e0 : Entry} → some e0 ≡ some e → Follows base e e0
same_entry h = inl (cc, cc)

apply_all-TokensApplied :
    (log : Log) (r : Replica)
    → IsLogAfter r.applied log
    → TokensApplied r
    → TokensApplied (apply_all log r)
unfolding apply_all
apply_all-TokensApplied [] r after t = t
apply_all-TokensApplied ((index, c) ∷ log) r after t =
    apply_all-TokensApplied log (apply index c r)
      (subst (λ k. IsLogAfter k log) (sym (applied-apply index c r)) after.1)
      (apply-TokensApplied index c r after.0 t)

new_replica-TokensApplied : TokensApplied new_replica
unfolding new_replica get lookup
new_replica-TokensApplied = record { at_key = λ key e h. cc }

-- Fencing. Take the replica after any log and after any further log: if a lock is held at both
-- points, by different owners, the later token is larger. Log indices grow, as the node delivers
-- them.
pub fencing :
    (log more : Log) (key : String) {e e' : Entry}
    → IsLogAfter 0 log
    → IsLogAfter (apply_all log new_replica).applied more
    → get key (apply_all log new_replica) ≡ some e
    → get key (apply_all more (apply_all log new_replica)) ≡ some e'
    → e'.owner ≢ e.owner
    → e.token < e'.token
fencing log more key {e} {e'} after further held held' differ =
    let r = apply_all log new_replica in
    let t =
      apply_all-TokensApplied log new_replica (unfold new_replica in after)
        new_replica-TokensApplied in
    elim (apply_all-Descends key r.applied e more r (omega arith) further
      (λ e0 h. same_entry (sym h ∙ held)) e' held') [
        | inl (same, _) ↦ absurd (differ same)
        | inr later ↦ omega (arith, t.at_key key e held)
      ]
