-- ===== src/Trade/Orchestrator.antt =====
-- The engine of services/trade/steps.go and the orchestrator of services/trade/orchestrator.go.
use Prim.Native.String.{◌++◌ as cat}
use shardlands.Prelude.{ℕ, List, [], Option, none, some, String}
use shardlands.Prelude.Int.{negsuc}
use shardlands.Inventory.Balance.{Move, Codec}
use shardlands.Inventory.Ops.{
  Error, EventStore, Result, ok, err, move_of, reserve, release, commit, receive,
}
use shardlands.Trade.Offers.{
  Offer, TradeState, TradeCodec, trade_stream, settled, cancelled, event_proposed,
  event_proposer_reserved, event_counterparty_reserved, event_settled, event_cancelled,
}

pub data Decision : Type 0 where
  accept reject timeout : Decision

-- What a Decider returns: a decision or the text of its error.
pub data Answer : Type 0 where
  answered : Decision → Answer
  failed : String → Answer

-- What Execute returns: a state or an error.
pub data Outcome : Type 0 where
  returned : TradeState → Outcome
  refused : Error → Outcome

abbrev pub given : Offer → Move
given o = move_of o.proposer o.id o.give.kind o.give.amount

abbrev pub wanted : Offer → Move
wanted o = move_of o.counterparty o.id o.want.kind o.want.amount

-- What the counterparty and the proposer receive.
abbrev pub given_to : Offer → Move
given_to o = move_of o.counterparty o.id o.give.kind o.give.amount

abbrev pub wanted_by : Offer → Move
wanted_by o = move_of o.proposer o.id o.want.kind o.want.amount

-- `if err := ...; err != nil { return err }` and then the rest.
abbrev pub and_then : {S : Type 0} → Option Error × S → (S → Option Error × S) → Option Error × S
and_then (none, s) rest = rest s
and_then (some e, s) rest = (some e, s)

abbrev pub appended : {S : Type 0} → Result S → S → Option Error × S
appended (ok s') s = (none, s')
appended (err e) s = (some e, s)

-- `others k` is what the rest of the program does to the store during the k-th call.
module _ {S : Type 0} (store : EventStore S) (codec : Codec) (json : TradeCodec)
    (others : ℕ → ℕ → S → S) where
  unfoldable pub append_trade : String → String → List ℕ → S → Option Error × S
  append_trade id typ data_ s =
      appended
        (store.append (trade_stream id) (negsuc 0) (record { kind_of = typ; data_of = data_ }) s) s

  unfoldable pub append_phase : String → String → S → Option Error × S
  append_phase id typ s = append_trade id typ [] s

  unfoldable pub append_proposed : Offer → S → Option Error × S
  append_proposed o s = append_trade o.id event_proposed (json.encode_offer o) s

  unfoldable pub append_cancelled : String → String → S → Option Error × S
  append_cancelled id reason s = append_trade id event_cancelled (json.encode_reason reason) s

  unfoldable pub reserve_proposer : Offer → S → Option Error × S
  reserve_proposer o s = reserve store codec (others 0) (given o) s

  unfoldable pub reserve_counterparty : Offer → S → Option Error × S
  reserve_counterparty o s = reserve store codec (others 1) (wanted o) s

  -- crossTransfer
  unfoldable pub cross_transfer : Offer → S → Option Error × S
  cross_transfer o s = and_then (commit store codec (others 2) (given o) s) (λ s1.
      and_then (receive store codec (others 3) (given_to o) s1) (λ s2.
        and_then (commit store codec (others 4) (wanted o) s2)
          (λ s3. receive store codec (others 5) (wanted_by o) s3)))

  unfoldable pub release_proposer : Offer → S → Option Error × S
  release_proposer o s = release store codec (others 6) (given o) s

  unfoldable pub release_counterparty : Offer → S → Option Error × S
  release_counterparty o s = release store codec (others 7) (wanted o) s

  abbrev pub end_cancel : Offer → String → Option Error × S → Outcome × S
  end_cancel o reason (some e, s) = (refused e, s)
  end_cancel o reason (none, s) =
      (returned (record { offer = o; phase = cancelled; reason = reason }), s)

  -- cancel
  unfoldable pub cancel : Offer → String → S → Outcome × S
  cancel o reason s = end_cancel o reason (append_cancelled o.id reason s)

  -- The steps of Execute from the last to the first, each on what the call before it returned.
  -- The engine's `settle` and the Decider are arguments.
  module _ (settle : Offer → S → Option Error × S) (decide : Offer → Answer) where
    abbrev pub on_settled : Offer → Option Error × S → Outcome × S
    on_settled o (some e, s) = (refused e, s)
    on_settled o (none, s) = (returned (record { offer = o; phase = settled; reason = "" }), s)

    abbrev pub on_settle : Offer → Option Error × S → Outcome × S
    on_settle o (none, s) = on_settled o (append_phase o.id event_settled s)
    on_settle o (some e, s) =
        let s1 = (release_proposer o s).1 in
        cancel o (cat "settle: " (json.error_text e)) (release_counterparty o s1).1

    abbrev pub on_both_reserved : Offer → Option Error × S → Outcome × S
    on_both_reserved o (some e, s) = (refused e, s)
    on_both_reserved o (none, s) = on_settle o (settle o s)

    abbrev pub on_counterparty : Offer → Option Error × S → Outcome × S
    on_counterparty o (none, s) =
        on_both_reserved o (append_phase o.id event_counterparty_reserved s)
    on_counterparty o (some e, s) =
        cancel o (cat "counterparty reserve: " (json.error_text e)) (release_proposer o s).1

    abbrev pub on_answer : Offer → Answer → S → Outcome × S
    on_answer o (failed text) s = cancel o (cat "decider error: " text) (release_proposer o s).1
    on_answer o (answered reject) s = cancel o "rejected by counterparty" (release_proposer o s).1
    on_answer o (answered timeout) s =
        cancel o "timed out awaiting counterparty" (release_proposer o s).1
    on_answer o (answered accept) s = on_counterparty o (reserve_counterparty o s)

    abbrev pub on_proposer_reserved : Offer → Option Error × S → Outcome × S
    on_proposer_reserved o (some e, s) = (refused e, s)
    on_proposer_reserved o (none, s) = on_answer o (decide o) s

    abbrev pub on_proposer : Offer → Option Error × S → Outcome × S
    on_proposer o (none, s) = on_proposer_reserved o (append_phase o.id event_proposer_reserved s)
    on_proposer o (some e, s) = cancel o (cat "proposer reserve: " (json.error_text e)) s

    abbrev pub on_proposed : Offer → Option Error × S → Outcome × S
    on_proposed o (some e, s) = (refused e, s)
    on_proposed o (none, s) = on_proposer o (reserve_proposer o s)

    -- Execute
    unfoldable pub execute : Offer → S → Outcome × S
    execute o s = on_proposed o (append_proposed o s)
