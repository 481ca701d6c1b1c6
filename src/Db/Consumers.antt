-- ===== src/Db/Consumers.antt =====
-- db/record_fill_consumer.go, db/record_spend_consumer.go, db/cancellation_consumer.go and
-- db/index_consumer.go: the consumers that bring records and orders to the indexer. A message is what
-- encoding/json or rlp made of it. The semaphore only bounds how many run at a time.
pub mod Funded
use openrelay.Prelude.{
  ℕ, Bool, true, false, List, [], ◌∷◌, Option, none, some, Bytes, ℤ, Outcome, ok, err, panic, ◌>>=◌,
}
use openrelay.Types.Order
use openrelay.Types.Text.{Str, int_string_to_uint256}
use openrelay.Types.AssetData.{hex_to_address, hex_to_asset_data}
use openrelay.Types.Signature.{Crypto}
use openrelay.Db.Order.{DbOrder, status_open, status_unfunded, status_cancelled}
use openrelay.Db.Indexer.{
  FillRecord, Cancellation, index, record_fill, record_spend, record_cancellation,
}

pub record SpendRecord : Type 0 where
  pub token_address : Str
  pub asset_data : Str
  pub spender_address : Str
  pub zrx_token : Str
  pub balance : Str

-- How a message is settled; a panic of the goroutine ends the process.
pub data Settled : Type 0 where
  acked : Settled
  rejected : Settled
  crashed : Settled

-- The table afterwards; an error leaves it alone.
abbrev pub settle : List DbOrder → Outcome (List DbOrder) → List DbOrder × Settled
settle table (ok after) = (after, acked)
settle table (err e) = (table, rejected)
settle table panic = (table, crashed)

module _ (c : Crypto) (u256 : ℤ → Bytes) (quo : ℕ → ℕ → ℕ) where
  -- RecordFillConsumer.Consume; the error of the parser is not looked at.
  unfoldable pub record_fill_consume : FillRecord → List DbOrder → List DbOrder × Settled
  record_fill_consume r table = settle table (record_fill c u256 quo r table)

  abbrev pub indexed : ℕ → List DbOrder → Outcome Order.Order → List DbOrder × Settled
  indexed status table (ok o) = settle table (index c u256 quo status o table)
  indexed status table (err e) = (table, rejected)
  indexed status table panic = (table, crashed)

  -- IndexConsumer.Consume, given what OrderFromBytes returns.
  unfoldable pub index_consume : ℕ → Outcome Order.Order → List DbOrder → List DbOrder × Settled
  index_consume status parsed table = indexed status table parsed

-- CancellationConsumer.Consume.
unfoldable pub record_cancellation_consume :
    Option Cancellation
    → List Cancellation
    → List DbOrder
    → (List Cancellation × List DbOrder) × Settled
record_cancellation_consume none epochs table = ((epochs, table), rejected)
record_cancellation_consume (some c) epochs table =
    (record_cancellation status_cancelled c epochs table, acked)

-- A balance that is no number is handed on as a nil pointer; `nil_spend` is what gorm does with that.
abbrev pub spend_of :
    (List DbOrder → Outcome (List DbOrder))
    → Bytes
    → Bytes
    → Bytes
    → Bytes
    → Outcome Bytes
    → List DbOrder
    → Outcome (List DbOrder)
spend_of nil_spend spender token zrx asset (ok balance) table =
    ok (record_spend status_unfunded spender token zrx asset balance table)
spend_of nil_spend spender token zrx asset (err e) table = nil_spend table
spend_of nil_spend spender token zrx asset panic table = panic

module _ (u256 : ℤ → Bytes) (nil_spend : List DbOrder → Outcome (List DbOrder)) where
  abbrev pub spend : SpendRecord → List DbOrder → Outcome (List DbOrder)
  unfolding hex_to_address hex_to_asset_data int_string_to_uint256
  spend r table = do
    spender ← hex_to_address r.spender_address
    token ← hex_to_address r.token_address
    asset ← hex_to_asset_data r.asset_data
    zrx ← hex_to_address r.zrx_token
    spend_of nil_spend spender token zrx asset (int_string_to_uint256 u256 r.balance) table

  -- RecordSpendConsumer.Consume.
  unfoldable pub record_spend_consume : Option SpendRecord → List DbOrder → List DbOrder × Settled
  unfolding spend
  record_spend_consume none table = (table, rejected)
  record_spend_consume (some r) table = settle table (spend r table)
