-- ===== src/Trade/Examples.antt =====
-- A trade of services/trade that settles.
use shardlands.Prelude.{
  ℕ, ◌≡◌, refl, Bool, true, false, List, [], ◌∷◌, Option, none, some, String, get_elem?, str_eq,
  if◌then◌else◌, lookup, insert, delete,
}
use shardlands.Prelude.Int.{pos, negsuc, ◌+ℤ◌, ◌-ℤ◌}
use shardlands.Inventory.Balance.{
  Gathered, Move, Codec, event_gathered, fold, fold_from, apply_to, gather, apply_reserved, adj,
  amount_of,
}
use shardlands.Inventory.Ops.{
  Error, Result, ok, err, reserve, reserve_loop, append_move, has_move, idempotent_move, commit,
  receive,
}
use shardlands.Es.Store.{
  append, count_in, numbered, read_stream, read_loop, search_after, batch_start_for, get_batch,
}
use shardlands.Inventory.EventStream.{Kept, empty_kept, append_kept, event_store}
use shardlands.Trade.Offers.{Offer, TradeCodec, Phase, settled}
use shardlands.Trade.Orchestrator.{
  Answer, answered, accept, Outcome, returned, refused, given, wanted, given_to, wanted_by,
  append_trade, append_phase, append_proposed, reserve_proposer, reserve_counterparty,
  cross_transfer, execute,
}

abbrev offer : Offer
offer = record {
  id = "t1";
  proposer = "ann";
  counterparty = "bob";
  give = record { kind = "wood"; amount = pos 3 };
  want = record { kind = "iron"; amount = pos 1 };
}

-- The four moves of the offer under their numbers.
abbrev moves : List Move
moves = given offer ∷ wanted offer ∷ given_to offer ∷ wanted_by offer ∷ []

abbrev number_of : Move → ℕ
number_of m =
    if str_eq m.player_id "ann"
    then (if str_eq m.kind "wood" then 0 else 3)
    else (if str_eq m.kind "iron" then 1 else 2)

abbrev first_of : List ℕ → ℕ
first_of [] = 4
first_of (n ∷ ns) = n

abbrev gathered_by : List ℕ → Gathered
gathered_by data_ = record {
  player_id = "";
  name = "";
  node_id = "n";
  kind = if_iron data_;
  amount = pos 5;
}
  where
    if_iron : List ℕ → String
    if_iron [] = "wood"
    if_iron (n ∷ ns) = "iron"

abbrev codec : Codec
codec = record {
  decode_gathered = λ data_. some (gathered_by data_);
  decode_move = λ data_. get_elem? moves (first_of data_);
  encode_move = λ m. number_of m ∷ [];
}

abbrev json : TradeCodec
json = record {
  decode_offer = λ data_ o. offer;
  decode_reason = λ data_. none;
  encode_offer = λ o. [];
  encode_reason = λ text. [];
  error_text = λ e. "error";
}

abbrev goes : Kept → Bool
goes k = true

abbrev or_before : Kept → Result Kept → Kept
or_before k (ok k') = k'
or_before k (err e) = k

abbrev gather_for : String → List ℕ → Kept → Kept
gather_for stream data_ k =
    or_before k
      (append_kept goes stream (negsuc 0) (record { kind_of = event_gathered; data_of = data_ }) k)

abbrev streams : Kept
streams = gather_for "inv-bob" (1 ∷ []) (gather_for "inv-ann" [] empty_kept)

abbrev alone : ℕ → ℕ → Kept → Kept
alone k t s = s

abbrev settle : Offer → Kept → Option Error × Kept
settle = cross_transfer (event_store goes) codec json alone

abbrev yes : Offer → Answer
yes o = answered accept

abbrev is_settled_phase : Phase → Bool
is_settled_phase settled = true
is_settled_phase _ = false

abbrev is_settled : Outcome → Bool
is_settled (returned st) = is_settled_phase st.phase
is_settled (refused e) = false

settles : is_settled (execute (event_store goes) codec json alone settle yes offer streams).0 ≡ true
unfolding execute cross_transfer append_trade append_phase append_proposed reserve_proposer
    reserve_counterparty commit receive idempotent_move reserve reserve_loop append_move has_move
    fold fold_from apply_to gather apply_reserved adj amount_of lookup insert delete ◌+ℤ◌ ◌-ℤ◌
    append count_in numbered read_stream read_loop search_after batch_start_for get_batch
settles = refl
