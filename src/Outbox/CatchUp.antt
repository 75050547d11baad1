-- ===== src/Outbox/CatchUp.antt =====
-- Once nothing fails any more, the relay of services/outbox/outbox.go catches up with the log.
use shardlands.Prelude.{
  ℕ, zero, suc, ◌+◌, ◌-◌, ◌≡◌, ◌≤◌, ◌<◌, refl, ap, ◌∙◌, true, List, [], ◌∷◌, some, arith, length,
  take, drop, length-take, length-drop, min,
}
use shardlands.Outbox.Relay.{Stored, Outcome, done, Relay, publish_loop, last_global, finish, round}

module _ {E : Type 0} where
  -- The events after the first k, with their numbers.
  abbrev pub numbered : ℕ → List E → List (Stored E)
  numbered k [] = []
  numbered k (e ∷ es) = record { global = suc k; event = e } ∷ numbered (suc k) es

  -- What ReadAll returns of a log after a checkpoint: at most `limit` events.
  abbrev pub read_after : ℕ → List E → ℕ → List (Stored E)
  read_after limit log k = numbered k (take limit (drop k log))

  abbrev pub all_done : List E → List Outcome
  all_done [] = []
  all_done (e ∷ es) = done ∷ all_done es

  -- Rounds in which nothing fails.
  unfoldable pub good_rounds : ℕ → ℕ → List E → Relay E → Relay E
  good_rounds zero limit log r = r
  good_rounds (suc n) limit log r = good_rounds n limit log (
      round (some (read_after limit log r.checkpoint))
        (all_done (take limit (drop r.checkpoint log))) done r)

  publish_loop-all_done :
      (k : ℕ) (es : List E) → publish_loop (all_done es) (numbered k es) ≡ (numbered k es, true)
  unfolding publish_loop
  publish_loop-all_done k [] = refl
  publish_loop-all_done k (e ∷ es) = rw (publish_loop-all_done (suc k) es) refl

  last_global-numbered :
      (k : ℕ) (e : E) (es : List E)
      → last_global (record { global = suc k; event = e }) (numbered (suc k) es)
        ≡ k + length (e ∷ es)
  last_global-numbered k e [] = omega arith
  last_global-numbered k e (x ∷ es) = omega (arith, last_global-numbered (suc k) x es)

  round_checkpoint :
      (es : List E) (r : Relay E)
      → (round (some (numbered r.checkpoint es)) (all_done es) done r).checkpoint
        ≡ r.checkpoint + length es
  unfolding round
  round_checkpoint [] r = omega arith
  round_checkpoint (e ∷ es) r =
      let k = r.checkpoint in
      ap
        (λ p.
          (finish done (last_global (record { global = suc k; event = e }) (numbered (suc k) es)) p
            r).checkpoint)
        (publish_loop-all_done k (e ∷ es))
      ∙ last_global-numbered k e es

  -- After as many rounds without a failure as the log has events beyond the checkpoint, the
  -- checkpoint is at the end of the log. A round reads at least one event, if there is one.
  pub good_rounds-reach :
      (n limit : ℕ) (log : List E) (r : Relay E)
      → 0 < limit
      → r.checkpoint ≤ length log
      → length log ≤ r.checkpoint + n
      → (good_rounds n limit log r).checkpoint ≡ length log
  unfolding good_rounds
  good_rounds-reach zero limit log r p l h = omega arith
  good_rounds-reach (suc n) limit log r p l h =
      let es = take limit (drop r.checkpoint log) in
      let next = round (some (read_after limit log r.checkpoint)) (all_done es) done r in
      let moved = round_checkpoint es r in
      let size : length es ≡ min limit (length log - r.checkpoint) =
        length-take limit (drop r.checkpoint log) ∙ ap (min limit) (length-drop r.checkpoint log) in
      good_rounds-reach n limit log next p (omega (arith, moved, size)) (omega (arith, moved, size))
