-- ===== src/Inventory/Ops.antt =====
-- The operations of services/inventory/ops.go over an event store. The store, pkg/es, is an
-- interface, which Inventory.EventStream fills with the store of Es.Store. Other goroutines may
-- append between any two calls.
use Prim.Native.String.{◌++◌ as cat}
use shardlands.Prelude.{
  ℕ, zero, suc, ◌+◌, ◌≡◌, ◌≢◌, Bool, false, ◌&&◌, ◌||◌, List, [], ◌∷◌, ◌++◌, Option, none, some,
  String, str_eq, if◌then◌else◌, length,
}
use shardlands.Prelude.Int.{ℤ, pos, negsuc, ltb_ℤ, leb_ℤ}
use shardlands.Inventory.Balance.{
  Event, Move, Codec, fold, amount_of, event_reserved, event_released, event_committed,
  event_received,
}

pub data Error : Type 0 where
  bad_amount insufficient exhausted version_conflict store_failed : Error

pub data Result {ℓ} (A : Type ℓ) : Type ℓ where
  ok : A → Result A
  err : Error → Result A

-- pkg/es as the service uses it: ReadStream of a whole stream, and Append of one event, where a
-- negative expected version is AnyVersion.
pub record EventStore (S : Type 0) : Type 0 where
  pub read_stream : String → S → Result (List Event)
  pub append : String → ℤ → Event → S → Result S
  -- An append that succeeds adds the event at the end of the stream.
  pub append-reads :
      (stream : String) (expected : ℤ) (e : Event) (s s' : S) (es : List Event)
      → append stream expected e s ≡ ok s'
      → read_stream stream s ≡ ok es
      → read_stream stream s' ≡ ok (es ++ (e ∷ []))
  -- It succeeds at an expected version only at that version.
  pub append-version :
      (stream : String) (n : ℕ) (e : Event) (s s' : S) (es : List Event)
      → append stream (pos n) e s ≡ ok s'
      → read_stream stream s ≡ ok es
      → length es ≡ n
  -- It leaves the other streams alone.
  pub append-others :
      (stream other : String) (expected : ℤ) (e : Event) (s s' : S)
      → append stream expected e s ≡ ok s'
      → stream ≢ other
      → read_stream other s' ≡ read_stream other s

-- Stream
abbrev pub stream_of : String → String
stream_of player = cat "inv-" player

abbrev pub max_reserve_retries : ℕ
max_reserve_retries = 8

abbrev pub is_move_of : String → Option Move → Bool
is_move_of trade_id none = false
is_move_of trade_id (some m) = str_eq m.trade_id trade_id

-- hasMove
unfoldable pub has_move : Codec → List Event → String → String → Bool
has_move codec [] trade_id typ = false
has_move codec (e ∷ es) trade_id typ =
    (str_eq e.kind_of typ && is_move_of trade_id (codec.decode_move e.data_of))
    || has_move codec es trade_id typ

-- The event that appendMove appends.
abbrev pub move_event : Codec → Move → String → Event
move_event codec m typ = record { kind_of = typ; data_of = codec.encode_move m }

abbrev pub move_of : String → String → String → ℤ → Move
move_of player trade_id kind amount = record {
  player_id = player;
  trade_id = trade_id;
  kind = kind;
  amount = amount;
}

module _ {S : Type 0} (store : EventStore S) (codec : Codec) where
  -- appendMove
  unfoldable pub append_move : Move → String → ℤ → S → Result S
  append_move m typ expected s =
      store.append (stream_of m.player_id) expected (move_event codec m typ) s

  -- The end of a round of Reserve's loop; `retry` is what the next rounds return.
  abbrev pub end_round : Result S → S → Option Error × S → Option Error × S
  end_round (ok s') s retry = (none, s')
  end_round (err version_conflict) s retry = retry
  end_round (err e) s retry = (some e, s)

  -- A round of Reserve's loop: what was read from `s1`, and the store `s2` that Append meets.
  abbrev pub round : Move → Result (List Event) → S → S → Option Error × S → Option Error × S
  round m (err e) s1 s2 retry = (some e, s1)
  round m (ok es) s1 s2 retry =
      if has_move codec es m.trade_id event_reserved
      then (none, s1)
      else if ltb_ℤ (amount_of m.kind (fold codec es).available) m.amount
      then (some insufficient, s1)
      else end_round (append_move m event_reserved (pos (length es)) s2) s2 retry

  module _ (others : ℕ → S → S) where
    -- Reserve's loop, with `left` attempts to go; `others t` is what the rest of the program has
    -- done to the store by the time t.
    unfoldable pub reserve_loop : Move → ℕ → ℕ → S → Option Error × S
    reserve_loop m zero t s = (some exhausted, s)
    reserve_loop m (suc left) t s =
        let s1 = others t s in
        let s2 = others (t + 1) s1 in
        let retry = reserve_loop m left (t + 2) s2 in
        round m (store.read_stream (stream_of m.player_id) s1) s1 s2 retry

    -- Reserve
    unfoldable pub reserve : Move → S → Option Error × S
    reserve m s =
        if leb_ℤ m.amount (pos 0)
        then (some bad_amount, s)
        else reserve_loop m max_reserve_retries 0 s

    abbrev pub end_move : Result S → S → Option Error × S
    end_move (ok s') s = (none, s')
    end_move (err e) s = (some e, s)

    abbrev pub move_once : Move → String → Result (List Event) → S → S → Option Error × S
    move_once m typ (err e) s1 s2 = (some e, s1)
    move_once m typ (ok es) s1 s2 =
        if has_move codec es m.trade_id typ
        then (none, s1)
        else end_move (append_move m typ (negsuc 0) s2) s2

    -- idempotentMove
    unfoldable pub idempotent_move : Move → String → S → Option Error × S
    idempotent_move m typ s =
        let s1 = others 0 s in
        move_once m typ (store.read_stream (stream_of m.player_id) s1) s1 (others 1 s1)

    unfoldable pub release : Move → S → Option Error × S
    release m s = idempotent_move m event_released s

    unfoldable pub commit : Move → S → Option Error × S
    commit m s = idempotent_move m event_committed s

    unfoldable pub receive : Move → S → Option Error × S
    receive m s = idempotent_move m event_received s
