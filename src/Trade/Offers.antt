-- ===== src/Trade/Offers.antt =====
-- The data of a trade and the fold over its stream, services/trade/trade.go.
use Prim.Native.String.{◌++◌ as cat}
use shardlands.Prelude.{
  ℕ, Bool, true, false, List, [], ◌∷◌, Option, none, some, String, str_eq, if◌then◌else◌,
}
use shardlands.Prelude.Int.{ℤ, pos}
use shardlands.Inventory.Balance.{Event}
use shardlands.Inventory.Ops.{Error, EventStore, Result, ok, err}

pub record Item : Type 0 where
  pub kind : String
  pub amount : ℤ

pub record Offer : Type 0 where
  pub id : String
  pub proposer : String
  pub counterparty : String
  pub give : Item
  pub want : Item

abbrev pub no_offer : Offer
no_offer = record {
  id = "";
  proposer = "";
  counterparty = "";
  give = record { kind = ""; amount = pos 0 };
  want = record { kind = ""; amount = pos 0 };
}

abbrev pub event_proposed : String
event_proposed = "TradeProposed"

abbrev pub event_proposer_reserved : String
event_proposer_reserved = "TradeProposerReserved"

abbrev pub event_counterparty_reserved : String
event_counterparty_reserved = "TradeCounterpartyReserved"

abbrev pub event_settled : String
event_settled = "TradeSettled"

abbrev pub event_cancelled : String
event_cancelled = "TradeCancelled"

-- Stream
abbrev pub trade_stream : String → String
trade_stream id = cat "trade-" id

pub data Phase : Type 0 where
  no_trade proposed proposer_reserved counterparty_reserved settled cancelled : Phase

-- Terminal
unfoldable pub is_terminal : Phase → Bool
is_terminal settled = true
is_terminal cancelled = true
is_terminal _ = false

unfoldable pub phase_name : Phase → String
phase_name proposed = "proposed"
phase_name proposer_reserved = "proposer-reserved"
phase_name counterparty_reserved = "counterparty-reserved"
phase_name settled = "settled"
phase_name cancelled = "cancelled"
phase_name no_trade = "none"

pub record TradeState : Type 0 where
  pub offer : Offer
  pub phase : Phase
  pub reason : String

abbrev pub no_state : TradeState
no_state = record { offer = no_offer; phase = no_trade; reason = "" }

-- JSON, which is not the repository's: what Unmarshal leaves in an offer, the reason that it
-- reads, what Marshal writes; and the text of an error.
pub record TradeCodec : Type 0 where
  pub decode_offer : List ℕ → Offer → Offer
  pub decode_reason : List ℕ → Option String
  pub encode_offer : Offer → List ℕ
  pub encode_reason : String → List ℕ
  pub error_text : Error → String

abbrev pub with_reason : Option String → TradeState → TradeState
with_reason none st = st
with_reason (some r) st = record st { reason = r }

-- The switch of Fold.
unfoldable pub fold_one : TradeCodec → Event → TradeState → TradeState
fold_one json e st =
    if str_eq e.kind_of event_proposed
    then record st { offer = json.decode_offer e.data_of st.offer; phase = proposed }
    else if str_eq e.kind_of event_proposer_reserved
    then record st { phase = proposer_reserved }
    else if str_eq e.kind_of event_counterparty_reserved
    then record st { phase = counterparty_reserved }
    else if str_eq e.kind_of event_settled
    then record st { phase = settled }
    else if str_eq e.kind_of event_cancelled
    then with_reason (json.decode_reason e.data_of) (record st { phase = cancelled })
    else st

unfoldable pub fold_trade_from : TradeCodec → List Event → TradeState → TradeState
fold_trade_from json [] st = st
fold_trade_from json (e ∷ es) st = fold_trade_from json es (fold_one json e st)

-- Fold
unfoldable pub fold_trade : TradeCodec → List Event → TradeState
fold_trade json es = fold_trade_from json es no_state

abbrev folded : TradeCodec → Result (List Event) → Result TradeState
folded json (ok es) = ok (fold_trade json es)
folded json (err e) = err e

-- Status
unfoldable pub status_of : {S : Type 0} → EventStore S → TradeCodec → String → S → Result TradeState
status_of store json id s = folded json (store.read_stream (trade_stream id) s)
