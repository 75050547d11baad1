-- ===== src/Inventory/Growth.antt =====
-- The operations of services/inventory/ops.go only append to the store.
use shardlands.Prelude.{
  ℕ, zero, suc, ◌+◌, ◌≡◌, ◌≢◌, inl, inr, refl, sym, ap, ◌∙◌, subst, List, [], ◌∷◌, ◌++◌, Option,
  String, arith, str_eq, str_eq_iff, length, Bool-cases,
}
use shardlands.Prelude.Int.{ℤ, pos, negsuc, ltb_ℤ, leb_ℤ}
use shardlands.Inventory.Balance.{Event, Move, Codec, fold, amount_of, event_reserved}
use shardlands.Inventory.Ops.{
  Error, version_conflict, bad_amount, insufficient, exhausted, store_failed, Result, ok, err,
  EventStore, stream_of, max_reserve_retries, has_move, move_event, append_move, end_round, round,
  reserve_loop, reserve, end_move, move_once, idempotent_move,
}

append_nil : (es : List Event) → es ++ [] ≡ es
append_nil [] = refl
append_nil (e ∷ es) = ap (λ t. e ∷ t) (append_nil es)

append_assoc : (es fs gs : List Event) → (es ++ fs) ++ gs ≡ es ++ (fs ++ gs)
append_assoc [] fs gs = refl
append_assoc (e ∷ es) fs gs = ap (λ t. e ∷ t) (append_assoc es fs gs)

module _ {S : Type 0} (store : EventStore S) where
  -- Each stream of the second store goes on from that of the first.
  abbrev pub Grows : S → S → Type 0
  Grows s s' =
      (stream : String) (es : List Event)
      → store.read_stream stream s ≡ ok es
      → (more : List Event) × (store.read_stream stream s' ≡ ok (es ++ more))

  pub Grows-refl : (s : S) → Grows s s
  Grows-refl s stream es read = ([], rw (append_nil es) read)

  pub Grows-trans : (a b c : S) → Grows a b → Grows b c → Grows a c
  Grows-trans a b c ab bc stream es read =
      let (more, r1) = ab stream es read in
      let (rest, r2) = bc stream (es ++ more) r1 in
      (more ++ rest, r2 ∙ ap ok (append_assoc es more rest))

  pub append-Grows :
      (stream : String) (expected : ℤ) (e : Event) (s s' : S)
      → store.append stream expected e s ≡ ok s'
      → Grows s s'
  append-Grows stream expected e s s' a other es read = elim (Bool-cases (str_eq stream other)) [
    | inl same ↦
        let eq = (str_eq_iff stream other).0 same in
        let there = subst (λ x. store.read_stream x s ≡ ok es) (sym eq) read in
        (
          e ∷ [],
          subst (λ x. store.read_stream x s' ≡ ok (es ++ (e ∷ []))) eq
              (store.append-reads stream expected e s s' es a there),
        )
    | inr apart ↦
        let distinct : stream ≢ other = λ q. ground (arith, str_eq_iff stream other) in
        (
          [],
          rw (append_nil es) (store.append-others stream other expected e s s' a distinct ∙ read),
        )
  ]

  module _ (codec : Codec) (others : ℕ → S → S)
      (grow : (t : ℕ) (s : S) → Grows s (others t s)) where
    end_move-Grows :
        (m : Move) (typ : String) (s : S) (r : Result S)
        → append_move store codec m typ (negsuc 0) s ≡ r
        → Grows s (end_move store codec others r s).1
    unfolding append_move
    end_move-Grows m typ s (ok s') a =
        append-Grows (stream_of m.player_id) (negsuc 0) (move_event codec m typ) s s' a
    end_move-Grows m typ s (err e) a = Grows-refl s

    move_once-Grows :
        (m : Move) (typ : String) (r : Result (List Event)) (s1 s2 : S)
        → Grows s1 s2
        → Grows s1 (move_once store codec others m typ r s1 s2).1
    move_once-Grows m typ (err e) s1 s2 g = Grows-refl s1
    move_once-Grows m typ (ok es) s1 s2 g = elim (Bool-cases (has_move codec es m.trade_id typ)) [
      | inl held ↦ rw held (Grows-refl s1)
      | inr new ↦
          let r = append_move store codec m typ (negsuc 0) s2 in
          rw new (
            Grows-trans s1 s2 (end_move store codec others r s2).1 g
              (end_move-Grows m typ s2 r refl))
    ]

    pub idempotent_move-Grows :
        (m : Move) (typ : String) (s : S) → Grows s (idempotent_move store codec others m typ s).1
    unfolding idempotent_move
    idempotent_move-Grows m typ s =
        let s1 = others 0 s in
        let s2 = others 1 s1 in
        let read = store.read_stream (stream_of m.player_id) s1 in
        Grows-trans s s1 (move_once store codec others m typ read s1 s2).1 (grow 0 s)
          (move_once-Grows m typ read s1 s2 (grow 1 s1))

    end_round-Grows :
        (m : Move) (n : ℕ) (s1 s2 : S) (r : Result S) (retry : Option Error × S)
        → append_move store codec m event_reserved (pos n) s2 ≡ r
        → Grows s1 s2
        → Grows s1 retry.1
        → Grows s1 (end_round store codec r s2 retry).1
    unfolding append_move
    end_round-Grows m n s1 s2 (ok s') retry a g h =
        Grows-trans s1 s2 s' g
          (append-Grows (stream_of m.player_id) (pos n) (move_event codec m event_reserved) s2 s' a)
    end_round-Grows m n s1 s2 (err version_conflict) retry a g h = h
    end_round-Grows m n s1 s2 (err bad_amount) retry a g h = g
    end_round-Grows m n s1 s2 (err insufficient) retry a g h = g
    end_round-Grows m n s1 s2 (err exhausted) retry a g h = g
    end_round-Grows m n s1 s2 (err store_failed) retry a g h = g

    round-Grows :
        (m : Move) (r : Result (List Event)) (s1 s2 : S) (retry : Option Error × S)
        → Grows s1 s2
        → Grows s1 retry.1
        → Grows s1 (round store codec m r s1 s2 retry).1
    round-Grows m (err e) s1 s2 retry g h = Grows-refl s1
    round-Grows m (ok es) s1 s2 retry g h =
        elim (Bool-cases (has_move codec es m.trade_id event_reserved)) [
          | inl held ↦ rw held (Grows-refl s1)
          | inr new ↦
              elim (Bool-cases (ltb_ℤ (amount_of m.kind (fold codec es).available) m.amount)) [
                | inl short ↦ rw new (rw short (Grows-refl s1))
                | inr enough ↦ rw new (
                    rw enough (
                      end_round-Grows m (length es) s1 s2
                        (append_move store codec m event_reserved (pos (length es)) s2) retry refl g
                        h))
              ]
        ]

    reserve_loop-Grows :
        (m : Move) (left t : ℕ) (s : S) → Grows s (reserve_loop store codec others m left t s).1
    unfolding reserve_loop
    reserve_loop-Grows m zero t s = Grows-refl s
    reserve_loop-Grows m (suc left) t s =
        let s1 = others t s in
        let s2 = others (t + 1) s1 in
        let retry = reserve_loop store codec others m left (t + 2) s2 in
        let read = store.read_stream (stream_of m.player_id) s1 in
        Grows-trans s s1 (round store codec m read s1 s2 retry).1 (grow t s) (
          round-Grows m read s1 s2 retry (grow (t + 1) s1)
            (Grows-trans s1 s2 retry.1 (grow (t + 1) s1) (reserve_loop-Grows m left (t + 2) s2)))

    pub reserve-Grows : (m : Move) (s : S) → Grows s (reserve store codec others m s).1
    unfolding reserve
    reserve-Grows m s = elim (Bool-cases (leb_ℤ m.amount (pos 0))) [
      | inl bad ↦ rw bad (Grows-refl s)
      | inr good ↦ rw good (reserve_loop-Grows m max_reserve_retries 0 s)
    ]
