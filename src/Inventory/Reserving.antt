-- ===== src/Inventory/Reserving.antt =====
-- Reserve of services/inventory/ops.go never gives out more than there is, whatever the rest of
-- the program appends meanwhile.
use shardlands.Prelude.{
  Bool, String, str_eq, if◌then◌else◌, ℕ, zero, suc, ◌+◌, ◌≡◌, ◌⊎◌, inl, inr, refl, sym, ap, ◌∙◌,
  subst, true, false, List, [], ◌∷◌, ◌++◌, Option, some, arith, length, Bool-cases,
}
use shardlands.Prelude.Int.{ℤ, pos, ltb_ℤ, leb_ℤ, ◌≤ℤ◌, ◌+ℤ◌, ◌-ℤ◌}
use shardlands.Inventory.Balance.{
  Event, Move, Codec, Balance, fold, fold-append, amount_of, amount_of-adj, adj, neg, apply_to,
  apply_reserved, event_reserved,
}
use shardlands.Inventory.Ops.{
  Error, version_conflict, bad_amount, insufficient, exhausted, store_failed, Result, ok, err,
  EventStore, stream_of, max_reserve_retries, has_move, move_event, append_move, end_round, round,
  reserve_loop, reserve,
}

apply_to-reserved :
    (codec : Codec) (m : Move) (b : Balance)
    → codec.decode_move (codec.encode_move m) ≡ some m
    → apply_to codec (move_event codec m event_reserved) b ≡ record {
      available = adj m.kind (neg m.amount) b.available;
      reserved = adj m.kind m.amount b.reserved;
    }
unfolding apply_to apply_reserved
apply_to-reserved codec m b h = ap (λ o. apply_reserved o b) h

fits : (a b : ℤ) → ltb_ℤ a b ≡ false → pos 0 ≤ℤ (a +ℤ neg b)
unfolding ◌+ℤ◌ ◌-ℤ◌
fits a b h = ground arith

ok-injective : {A : Type 0} {a b : A} → ok a ≡ ok b → a ≡ b
ok-injective e = cc

append_nothing : (es more : List Event) → length (es ++ more) ≡ length es → (es ++ more) ≡ es
append_nothing [] [] h = refl
append_nothing [] (x ∷ more) h = absurd (omega arith)
append_nothing (e ∷ es) more h = ap (λ t. e ∷ t) (append_nothing es more (omega arith))

pub Result-cases :
    {A : Type 0} (r : Result A) → ((a : A) × (r ≡ ok a)) ⊎ ((e : Error) × (r ≡ err e))
Result-cases (ok a) = inl (a, refl)
Result-cases (err e) = inr (e, refl)

module _ {S : Type 0} (store : EventStore S) (codec : Codec) (m : Move) where
  abbrev pub Reads : S → List Event → Type 0
  Reads s es = store.read_stream (stream_of m.player_id) s ≡ ok es

  -- The rest of the program only appends to the player's stream.
  abbrev pub Appends : (ℕ → S → S) → Type 0
  Appends others =
      (t : ℕ) (s : S) (es : List Event)
      → Reads s es
      → (more : List Event) × Reads (others t s) (es ++ more)

  -- Every balance of the player's that the stream gives is at least 0.
  abbrev pub IsCovered : S → Type 0
  IsCovered s =
      (es : List Event) (kind : String)
      → Reads s es
      → pos 0 ≤ℤ amount_of kind (fold codec es).available

  covered-after :
      (es : List Event) (kind : String)
      → codec.decode_move (codec.encode_move m) ≡ some m
      → ltb_ℤ (amount_of m.kind (fold codec es).available) m.amount ≡ false
      → pos 0 ≤ℤ amount_of kind (fold codec es).available
      → pos 0
        ≤ℤ amount_of kind (fold codec (es ++ (move_event codec m event_reserved ∷ []))).available
  covered-after es kind h enough old =
      let ev = move_event codec m event_reserved in
      let b = fold codec es in
      let after : amount_of kind (fold codec (es ++ (ev ∷ []))).available ≡ (
          if str_eq m.kind kind
          then amount_of m.kind b.available +ℤ neg m.amount
          else amount_of kind b.available) =
        ap (λ x. amount_of kind x.available)
          (fold-append codec es ev ∙ apply_to-reserved codec m b h)
        ∙ amount_of-adj m.kind kind (neg m.amount) b.available in
      subst (λ z. pos 0 ≤ℤ z) (sym after) (pick (str_eq m.kind kind))
    where
      pick :
          (b : Bool)
          → pos 0 ≤ℤ (
              if b
              then amount_of m.kind (fold codec es).available +ℤ neg m.amount
              else amount_of kind (fold codec es).available)
      pick true = fits (amount_of m.kind (fold codec es).available) m.amount enough
      pick false = old

  end_round-IsCovered :
      (es more : List Event) (s1 s2 : S) (r : Result S) (retry : Option Error × S)
      → append_move store codec m event_reserved (pos (length es)) s2 ≡ r
      → codec.decode_move (codec.encode_move m) ≡ some m
      → Reads s1 es
      → Reads s2 (es ++ more)
      → ltb_ℤ (amount_of m.kind (fold codec es).available) m.amount ≡ false
      → IsCovered s1
      → IsCovered s2
      → IsCovered retry.1
      → IsCovered (end_round store codec r s2 retry).1
  unfolding append_move
  end_round-IsCovered es more s1 s2 (ok s') retry a h read1 read enough c1 c2 c = λ now kind there.
      let ev = move_event codec m event_reserved in
      let n =
        store.append-version (stream_of m.player_id) (length es) ev s2 s' (es ++ more) a read in
      let same = append_nothing es more n in
      let after : Reads s' (es ++ (ev ∷ [])) =
        subst (λ x. Reads s' (x ++ (ev ∷ []))) same
          (store.append-reads (stream_of m.player_id) (pos (length es)) ev s2 s' (es ++ more) a
            read) in
      subst (λ x. pos 0 ≤ℤ amount_of kind (fold codec x).available)
        (ok-injective (sym after ∙ there)) (covered-after es kind h enough (c1 es kind read1))
  end_round-IsCovered es more s1 s2 (err version_conflict) retry a h read1 read enough c1 c2 c = c
  end_round-IsCovered es more s1 s2 (err store_failed) retry a h read1 read enough c1 c2 c = c2
  end_round-IsCovered es more s1 s2 (err bad_amount) retry a h read1 read enough c1 c2 c = c2
  end_round-IsCovered es more s1 s2 (err insufficient) retry a h read1 read enough c1 c2 c = c2
  end_round-IsCovered es more s1 s2 (err exhausted) retry a h read1 read enough c1 c2 c = c2

  round-IsCovered :
      (es more : List Event) (s1 s2 : S) (retry : Option Error × S)
      → codec.decode_move (codec.encode_move m) ≡ some m
      → Reads s1 es
      → Reads s2 (es ++ more)
      → IsCovered s1
      → IsCovered s2
      → IsCovered retry.1
      → IsCovered (round store codec m (ok es) s1 s2 retry).1
  round-IsCovered es more s1 s2 retry h r1 r2 c1 c2 c =
      elim (Bool-cases (has_move codec es m.trade_id event_reserved)) [
        | inl held ↦ rw held c1
        | inr new ↦
            elim (Bool-cases (ltb_ℤ (amount_of m.kind (fold codec es).available) m.amount)) [
              | inl short ↦ rw new (rw short c1)
              | inr enough ↦ rw new (
                  rw enough (
                    end_round-IsCovered es more s1 s2
                      (append_move store codec m event_reserved (pos (length es)) s2) retry refl h
                      r1 r2 enough c1 c2 c))
            ]
      ]

  abbrev pub KeepsCovered : (ℕ → S → S) → Type 0
  KeepsCovered others = (t : ℕ) (s : S) → IsCovered s → IsCovered (others t s)

  reserve_loop-IsCovered :
      (others : ℕ → S → S) (left t : ℕ) (s : S)
      → Appends others
      → KeepsCovered others
      → codec.decode_move (codec.encode_move m) ≡ some m
      → IsCovered s
      → IsCovered (reserve_loop store codec others m left t s).1
  unfolding reserve_loop
  reserve_loop-IsCovered others zero t s h keep trips c = c
  reserve_loop-IsCovered others (suc left) t s h keep trips c =
      let s1 = others t s in
      let s2 = others (t + 1) s1 in
      let c1 = keep t s c in
      let c2 = keep (t + 1) s1 c1 in
      let retry = reserve_loop store codec others m left (t + 2) s2 in
      elim (Result-cases (store.read_stream (stream_of m.player_id) s1)) [
        | inl (es, read) ↦
            let (more, later) = h (t + 1) s1 es read in
            rw read (
              round-IsCovered es more s1 s2 retry trips read later c1 c2
                (reserve_loop-IsCovered others left (t + 2) s2 h keep trips c2))
        | inr (e, failed) ↦ rw failed c1
      ]

  -- Reserve never takes a balance below 0: if before it every available balance that the
  -- player's stream gives is at least 0, so it is after it, whatever Reserve answers and whatever
  -- the rest of the program appends to the stream between its reads and its appends, as long as
  -- that keeps the balances at 0 or above. JSON reads the move back that it wrote.
  pub reserve-IsCovered :
      (others : ℕ → S → S) (s : S)
      → Appends others
      → KeepsCovered others
      → codec.decode_move (codec.encode_move m) ≡ some m
      → IsCovered s
      → IsCovered (reserve store codec others m s).1
  unfolding reserve
  reserve-IsCovered others s h keep trips c = elim (Bool-cases (leb_ℤ m.amount (pos 0))) [
    | inl bad ↦ rw bad c
    | inr good ↦ rw good (reserve_loop-IsCovered others max_reserve_retries 0 s h keep trips c)
  ]
