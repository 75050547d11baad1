-- ===== src/Inventory/Balance.antt =====
-- The balances of services/inventory/events.go: a fold over a player's events. JSON is not the
-- repository's: its decoders are parameters. Amounts do not overflow Go's int.
use shardlands.Prelude.{
  ℕ, ◌≡◌, refl, ap, ◌∙◌, Bool, true, false, List, [], ◌∷◌, ◌++◌, Option, none, some, String, arith,
  str_eq, str_eq_refl, inl, inr, Bool-cases, ◌==◌, if◌then◌else◌, Dict, lookup, insert, delete,
  lookup-insert, lookup-delete,
}
use shardlands.Prelude.Int.{ℤ, pos, negsuc, ◌+ℤ◌, ◌-ℤ◌}

-- What the service reads of an event of pkg/es.
pub record Event : Type 0 where
  pub kind_of : String
  pub data_of : List ℕ

pub record Gathered : Type 0 where
  pub player_id : String
  pub name : String
  pub node_id : String
  pub kind : String
  pub amount : ℤ

pub record Move : Type 0 where
  pub player_id : String
  pub trade_id : String
  pub kind : String
  pub amount : ℤ

pub record Balance : Type 0 where
  pub available : Dict ℤ
  pub reserved : Dict ℤ

abbrev pub new_balance : Balance
new_balance = record { available = []; reserved = [] }

abbrev pub event_gathered : String
event_gathered = "ResourceGathered"

abbrev pub event_reserved : String
event_reserved = "ResourceReserved"

abbrev pub event_released : String
event_released = "ResourceReleased"

abbrev pub event_committed : String
event_committed = "ResourceCommitted"

abbrev pub event_received : String
event_received = "ResourceReceived"

abbrev or_zero_ℤ : Option ℤ → ℤ
or_zero_ℤ none = pos 0
or_zero_ℤ (some z) = z

-- m[kind]
unfoldable pub amount_of : String → Dict ℤ → ℤ
amount_of kind m = or_zero_ℤ (lookup kind m)

abbrev pub is_zero : ℤ → Bool
is_zero (pos n) = n == 0
is_zero (negsuc n) = false

-- adj
unfoldable pub adj : String → ℤ → Dict ℤ → Dict ℤ
adj kind delta m =
    let m' = insert kind (amount_of kind m +ℤ delta) m in
    if is_zero (amount_of kind m') then delete kind m' else m'

abbrev pub neg : ℤ → ℤ
neg z = pos 0 -ℤ z

-- JSON's decoders of the two kinds of payload.
pub record Codec : Type 0 where
  pub decode_gathered : List ℕ → Option Gathered
  pub decode_move : List ℕ → Option Move
  pub encode_move : Move → List ℕ

-- The five cases of applyTo on a decoded payload.
unfoldable pub gather : Option Gathered → Balance → Balance
gather none b = b
gather (some g) b = record b { available = adj g.kind g.amount b.available }

unfoldable pub apply_reserved : Option Move → Balance → Balance
apply_reserved none b = b
apply_reserved (some m) b = record {
  available = adj m.kind (neg m.amount) b.available;
  reserved = adj m.kind m.amount b.reserved;
}

unfoldable pub apply_released : Option Move → Balance → Balance
apply_released none b = b
apply_released (some m) b = record {
  available = adj m.kind m.amount b.available;
  reserved = adj m.kind (neg m.amount) b.reserved;
}

unfoldable pub apply_committed : Option Move → Balance → Balance
apply_committed none b = b
apply_committed (some m) b = record b { reserved = adj m.kind (neg m.amount) b.reserved }

unfoldable pub apply_received : Option Move → Balance → Balance
apply_received none b = b
apply_received (some m) b = record b { available = adj m.kind m.amount b.available }

-- applyTo
unfoldable pub apply_to : Codec → Event → Balance → Balance
apply_to codec e b =
    if str_eq e.kind_of event_gathered
    then gather (codec.decode_gathered e.data_of) b
    else if str_eq e.kind_of event_reserved
    then apply_reserved (codec.decode_move e.data_of) b
    else if str_eq e.kind_of event_released
    then apply_released (codec.decode_move e.data_of) b
    else if str_eq e.kind_of event_committed
    then apply_committed (codec.decode_move e.data_of) b
    else if str_eq e.kind_of event_received
    then apply_received (codec.decode_move e.data_of) b
    else b

unfoldable pub fold_from : Codec → List Event → Balance → Balance
fold_from codec [] b = b
fold_from codec (e ∷ es) b = fold_from codec es (apply_to codec e b)

-- Fold
unfoldable pub fold : Codec → List Event → Balance
fold codec es = fold_from codec es new_balance

fold_from-append :
    (codec : Codec) (es : List Event) (e : Event) (b : Balance)
    → fold_from codec (es ++ (e ∷ [])) b ≡ apply_to codec e (fold_from codec es b)
unfolding fold_from
fold_from-append codec [] e b = refl
fold_from-append codec (x ∷ es) e b = fold_from-append codec es e (apply_to codec x b)

pub fold-append :
    (codec : Codec) (es : List Event) (e : Event)
    → fold codec (es ++ (e ∷ [])) ≡ apply_to codec e (fold codec es)
unfolding fold
fold-append codec es e = fold_from-append codec es e new_balance

zero_amount : (z : ℤ) → is_zero z ≡ true → z ≡ pos 0
zero_amount (pos n) h = ap pos (ground arith)
zero_amount (negsuc n) h = cc

pub amount_of-insert :
    (kind asked : String) (z : ℤ) (m : Dict ℤ)
    → amount_of asked (insert kind z m) ≡ (if str_eq kind asked then z else amount_of asked m)
unfolding amount_of
amount_of-insert kind asked z m = ground (arith, lookup-insert {V = ℤ} kind asked z m)

amount_of-delete :
    (kind asked : String) (m : Dict ℤ)
    → amount_of asked (delete kind m) ≡ (if str_eq kind asked then pos 0 else amount_of asked m)
unfolding amount_of
amount_of-delete kind asked m = ground (arith, lookup-delete {V = ℤ} kind asked m)

-- An adjustment counts for its kind alone; a kind that comes to 0 leaves the map.
pub amount_of-adj :
    (kind asked : String) (delta : ℤ) (m : Dict ℤ)
    → amount_of asked (adj kind delta m)
      ≡ (if str_eq kind asked then amount_of kind m +ℤ delta else amount_of asked m)
unfolding adj
amount_of-adj kind asked delta m =
    let new = amount_of kind m +ℤ delta in
    let stored : amount_of kind (insert kind new m) ≡ new =
      amount_of-insert kind kind new m ∙ rw (str_eq_refl kind) refl in
    elim (Bool-cases (is_zero (amount_of kind (insert kind new m)))) [
      | inl zeroed ↦
          let nothing : new ≡ pos 0 = zero_amount new (rw stored at zeroed) in
          rw zeroed (
            amount_of-delete kind asked (insert kind new m)
            ∙ ground (arith, amount_of-insert kind asked new m))
      | inr kept ↦ rw kept (amount_of-insert kind asked new m)
    ]
