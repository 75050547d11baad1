-- ===== src/Inventory/Examples.antt =====
-- The theorems on services/inventory at a player with 5 pieces of wood, over the event store of
-- pkg/es.
use shardlands.Prelude.{
  ℕ, ◌≡◌, refl, sym, ap, ◌∙◌, subst, Bool, true, false, List, [], ◌∷◌, ◌++◌, none, some, arith,
  String, str_eq, if◌then◌else◌, lookup, insert, delete,
}
use shardlands.Prelude.Int.{pos, negsuc, ◌+ℤ◌, ◌-ℤ◌, ◌≤ℤ◌}
use shardlands.Inventory.Balance.{
  Event, Gathered, Move, Codec, event_gathered, event_received, fold, fold_from, apply_to, gather,
  apply_reserved, adj, amount_of, amount_of-adj,
}
use shardlands.Inventory.Ops.{
  Result, ok, err, move_of, reserve, reserve_loop, append_move, has_move, idempotent_move,
}
use shardlands.Es.Store.{
  append, count_in, numbered, read_stream, read_loop, search_after, batch_start_for, get_batch,
}
use shardlands.Inventory.EventStream.{Kept, empty_kept, append_kept, read_kept, event_store}
use shardlands.Inventory.Reserving.{Appends, IsCovered, reserve-IsCovered}
use shardlands.Inventory.Once.{Stands, idempotent_move-once}

abbrev wood : Move
wood = move_of "ann" "t1" "wood" (pos 3)

abbrev found : Gathered
found = record { player_id = "ann"; name = "Ann"; node_id = "n"; kind = "wood"; amount = pos 5 }

-- One payload of each kind.
abbrev codec : Codec
codec = record {
  decode_gathered = λ data_. some found;
  decode_move = λ data_. some wood;
  encode_move = λ m. [];
}

abbrev goes : Kept → Bool
goes k = true

abbrev or_before : Kept → Result Kept → Kept
or_before k (ok k') = k'
or_before k (err e) = k

abbrev gathered : Event
gathered = record { kind_of = event_gathered; data_of = [] }

abbrev streams : Kept
streams = or_before empty_kept (append_kept goes "inv-ann" (negsuc 0) gathered empty_kept)

abbrev alone : ℕ → Kept → Kept
alone t k = k

append_nil : (es : List Event) → es ≡ es ++ []
append_nil [] = refl
append_nil (e ∷ es) = ap (λ t. e ∷ t) (append_nil es)

alone-Appends : Appends (event_store goes) codec wood alone
alone-Appends t k es read = ([], read ∙ ap ok (append_nil es))

streams_read : read_kept "inv-ann" streams ≡ ok (gathered ∷ [])
unfolding append count_in numbered read_stream read_loop search_after batch_start_for get_batch
    lookup insert
streams_read = refl

ok-injective : {a b : List Event} → ok a ≡ ok b → a ≡ b
ok-injective h = cc

gathered_amount : (kind : String) → pos 0 ≤ℤ amount_of kind (fold codec (gathered ∷ [])).available
unfolding fold fold_from apply_to gather amount_of lookup ◌+ℤ◌
gathered_amount kind =
    subst (λ z. pos 0 ≤ℤ z) (sym (amount_of-adj "wood" kind (pos 5) [])) (pick (str_eq "wood" kind))
  where
    pick : (b : Bool) → pos 0 ≤ℤ (if b then amount_of "wood" [] +ℤ pos 5 else amount_of kind [])
    pick true = ground arith
    pick false = ground arith

streams-IsCovered : IsCovered (event_store goes) codec wood streams
streams-IsCovered es kind read =
    subst (λ l. pos 0 ≤ℤ amount_of kind (fold codec l).available)
      (ok-injective (sym streams_read ∙ read)) (gathered_amount kind)

reserved : (reserve (event_store goes) codec alone wood streams).0 ≡ none
unfolding reserve reserve_loop append_move has_move fold fold_from apply_to gather apply_reserved
    adj amount_of lookup insert delete ◌+ℤ◌ ◌-ℤ◌ append count_in numbered read_stream read_loop
    search_after batch_start_for get_batch
reserved = refl

reserve-IsCovered_example :
    IsCovered (event_store goes) codec wood (reserve (event_store goes) codec alone wood streams).1
reserve-IsCovered_example =
    reserve-IsCovered (event_store goes) codec wood alone streams alone-Appends (λ t s h. h) refl
      streams-IsCovered

received : (idempotent_move (event_store goes) codec alone wood event_received streams).0 ≡ none
unfolding idempotent_move append_move has_move lookup insert append count_in numbered read_stream
    read_loop search_after batch_start_for get_batch
received = refl

idempotent_move-once_example :
    Stands codec wood event_received
      (event_store goes)
      alone
      (idempotent_move (event_store goes) codec alone wood event_received streams).1
    × (idempotent_move
          (event_store goes)
          codec
          alone
          wood
          event_received
          (idempotent_move (event_store goes) codec alone wood event_received streams).1
        ≡ (none, (idempotent_move (event_store goes) codec alone wood event_received streams).1))
idempotent_move-once_example =
    idempotent_move-once codec wood event_received (event_store goes) alone streams alone-Appends
      refl received
