-- ===== src/Dlock/Manager/Answers.antt =====
-- What the answers of Acquire and Renew, pkg/dlock/dlock.go, say of the lock.
use shardlands.Prelude.{
  ℕ, ◌+◌, ◌≤◌, ◌≡◌, refl, ap, ◌∙◌, true, false, ◌&&◌, Option, none, some, List, String, str_eq_iff,
  str_eq_refl, arith, ltb, if◌then◌else◌,
}
use shardlands.Dlock.Replica.{Command, Entry, Replica, apply, get}
use shardlands.Dlock.Lease.{transition, may_take, is_live_own, lookup-apply_command}
use shardlands.Dlock.Manager.{
  ok, World, command, granted, owns, acquire_answer, renew_answer, propose_command, acquire, renew,
}

get-apply_self :
    (index : ℕ) (c : Command) (r : Replica)
    → get c.key (apply index (some c) r) ≡ transition index c (get c.key r)
unfolding get apply
get-apply_self index c r = lookup-apply_command index c r.locks c.key ∙ rw (str_eq_refl c.key)

granted-transition :
    (owner : String) (now ttl later index : ℕ) (key : String) (lock : Option Entry)
    → granted owner later (
        transition index
          (record { op = "acquire"; key = key; owner = owner; ttl = ttl; now = now })
          lock)
      ≡ (if may_take owner now lock && ltb later (now + ttl) then (index, true) else (0, false))
unfolding transition
granted-transition owner now ttl later index key none = ground (arith, str_eq_refl owner)
granted-transition owner now ttl later index key (some e) =
    ground (arith, str_eq_refl owner, str_eq_iff e.owner owner)

owns-transition :
    (owner : String) (now ttl later index : ℕ) (key : String) (lock : Option Entry)
    → now ≤ later
    → owns owner later (
        transition index
          (record { op = "renew"; key = key; owner = owner; ttl = ttl; now = now })
          lock)
      ≡ (is_live_own owner now lock && ltb later (now + ttl))
unfolding transition
owns-transition owner now ttl later index key none h = refl
owns-transition owner now ttl later index key (some e) h = ground (arith, str_eq_iff e.owner owner)

module _ (encode : Command → List ℕ) (w : World) (key owner : String) (ttl index : ℕ)
    (r : Replica) where
  -- Acquire, where the leader's replica is read right after it applied this call's command: it
  -- answers with the index of the command as the token if the lock was free, had run out by the
  -- leader's clock or was the client's own, and the new lease still lasts when the answer is
  -- made, and otherwise that the lock was not taken.
  pub acquire-decides :
      propose_command encode w (command "acquire" w key owner ttl)
        ≡ ok (apply index (some (command "acquire" w key owner ttl)) r)
      → acquire encode w key owner ttl
        ≡ ok (
            if may_take owner w.env.now (get key r) && ltb w.later (w.env.now + ttl)
            then (index, true)
            else (0, false))
  unfolding acquire
  acquire-decides h =
      ap (acquire_answer key owner w.later) h
      ∙ ap (λ e. ok (granted owner w.later e))
          (get-apply_self index (command "acquire" w key owner ttl) r)
      ∙ ap ok (granted-transition owner w.env.now ttl w.later index key (get key r))

  -- Renew, where the leader's replica is read right after it applied this call's command and the
  -- clock has not gone back: it succeeds exactly if the client held a live lease and the extended
  -- one still lasts when the answer is made.
  pub renew-decides :
      w.env.now ≤ w.later
      → propose_command encode w (command "renew" w key owner ttl)
        ≡ ok (apply index (some (command "renew" w key owner ttl)) r)
      → renew encode w key owner ttl
        ≡ ok (is_live_own owner w.env.now (get key r) && ltb w.later (w.env.now + ttl))
  unfolding renew
  renew-decides later h =
      ap (renew_answer key owner w.later) h
      ∙ ap (λ e. ok (owns owner w.later e))
          (get-apply_self index (command "renew" w key owner ttl) r)
      ∙ ap ok (owns-transition owner w.env.now ttl w.later index key (get key r) later)
