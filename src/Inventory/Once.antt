-- ===== src/Inventory/Once.antt =====
-- Release, Commit and Receive of services/inventory/ops.go take effect once.
use shardlands.Prelude.{
  ℕ, ◌≡◌, inl, inr, refl, true, List, [], ◌∷◌, ◌++◌, Option, none, some, String, arith, str_eq_refl,
  Bool-cases,
}
use shardlands.Prelude.Int.{negsuc}
use shardlands.Inventory.Balance.{Event, Move, Codec}
use shardlands.Inventory.Ops.{
  Error, Result, ok, err, EventStore, stream_of, has_move, move_event, append_move, end_move,
  move_once, idempotent_move,
}
use shardlands.Inventory.Reserving.{Reads, Appends, Result-cases}

module _ (codec : Codec) (m : Move) (typ : String) where
  pub has_move-append :
      (es more : List Event)
      → has_move codec es m.trade_id typ ≡ true
      → has_move codec (es ++ more) m.trade_id typ ≡ true
  unfolding has_move
  has_move-append [] more h = cc
  has_move-append (e ∷ es) more h = ground (arith, has_move-append es more)

  has_move-new :
      (es : List Event)
      → codec.decode_move (codec.encode_move m) ≡ some m
      → has_move codec (es ++ (move_event codec m typ ∷ [])) m.trade_id typ ≡ true
  unfolding has_move
  has_move-new [] h = rw (str_eq_refl typ) (rw h (rw (str_eq_refl m.trade_id) refl))
  has_move-new (e ∷ es) h = ground (arith, has_move-new es h)

  module _ {S : Type 0} (store : EventStore S) (others : ℕ → S → S) where
    abbrev pub Stands : S → Type 0
    Stands s =
        (es : List Event) × Reads store codec m s es × (has_move codec es m.trade_id typ ≡ true)

    end_move-Stands :
        (es : List Event) (s : S) (r : Result S)
        → append_move store codec m typ (negsuc 0) s ≡ r
        → Reads store codec m s es
        → codec.decode_move (codec.encode_move m) ≡ some m
        → (end_move store codec others r s).0 ≡ none
        → Stands (end_move store codec others r s).1
    unfolding append_move
    end_move-Stands es s (ok s') a read h e = (
      es ++ (move_event codec m typ ∷ []),
      store.append-reads (stream_of m.player_id) (negsuc 0) (move_event codec m typ) s s' es a read,
      has_move-new es h,
    )
    end_move-Stands es s (err x) a read h e = cc

    move_once-Stands :
        (es : List Event) (s1 s2 : S)
        → Reads store codec m s1 es
        → (more : List Event) × Reads store codec m s2 (es ++ more)
        → codec.decode_move (codec.encode_move m) ≡ some m
        → (move_once store codec others m typ (ok es) s1 s2).0 ≡ none
        → Stands (move_once store codec others m typ (ok es) s1 s2).1
    move_once-Stands es s1 s2 r1 (more, r2) h e =
        elim (Bool-cases (has_move codec es m.trade_id typ)) [
          | inl held ↦ rw held (es, r1, held)
          | inr new ↦ rw new (
              end_move-Stands (es ++ more) s2 (append_move store codec m typ (negsuc 0) s2) refl r2
                h (rw new at e))
        ]

    pub idempotent_move-Stands :
        (s : S)
        → Appends store codec m others
        → codec.decode_move (codec.encode_move m) ≡ some m
        → (idempotent_move store codec others m typ s).0 ≡ none
        → Stands (idempotent_move store codec others m typ s).1
    unfolding idempotent_move
    idempotent_move-Stands s h round_trip e =
        let s1 = others 0 s in
        elim (Result-cases (store.read_stream (stream_of m.player_id) s1)) [
          | inl (es, read) ↦
              rw read (
                move_once-Stands es s1 (others 1 s1) read (h 1 s1 es read) round_trip
                  (rw read at e))
          | inr (x, failed) ↦ let no : ◌≡◌ {A = Option Error} (some x) none = rw failed at e in cc
        ]

    -- If a Release, Commit or Receive returns no error, the player's stream reads without an
    -- error and has an event of its kind and trade, and the same call again returns no error and
    -- appends nothing: the store is then what the rest of the program made of it. The rest of the
    -- program only appends to the player's stream, and JSON reads the move back that it wrote.
    pub idempotent_move-once :
        (s : S)
        → Appends store codec m others
        → codec.decode_move (codec.encode_move m) ≡ some m
        → (idempotent_move store codec others m typ s).0 ≡ none
        → Stands (idempotent_move store codec others m typ s).1
          × (idempotent_move store codec others m typ (idempotent_move store codec others m typ s).1
              ≡ (none, others 0 (idempotent_move store codec others m typ s).1))
    idempotent_move-once s h round_trip e =
        let done = (idempotent_move store codec others m typ s).1 in
        let (es, read, held) = idempotent_move-Stands s h round_trip e in
        let (more, later) = h 0 done es read in
        ((es, read, held), again done (es ++ more) later (has_move-append es more held))
      where
        again :
            (x : S) (es : List Event)
            → Reads store codec m (others 0 x) es
            → has_move codec es m.trade_id typ ≡ true
            → idempotent_move store codec others m typ x ≡ (none, others 0 x)
        again x es read held = unfold idempotent_move in (rw read (rw held refl))
