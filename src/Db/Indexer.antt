-- ===== src/Db/Indexer.antt =====
-- db/indexer.go, db/cancellations.go: how fills, token transfers and cancellations reach the rows of
-- the table of orders. The columns are compared as bytes, as the database compares them.

pub mod Status
pub mod Fill
use openrelay.Prelude.{
  ℕ, Bool, true, false, ◌&&◌, ◌||◌, List, [], ◌∷◌, Option, none, some, map, Bytes, bytes_eq,
  bytes_lt, copy, zeros, big, length, ◌==◌, if◌then◌else◌, ℤ, pos, ◌+ℤ◌, Outcome, ok, err, or_err,
  ◌>>=◌,
}
use openrelay.Types.Order
use openrelay.Types.Text.{Str, hex_decode, trim_prefix, hex_prefix, set_string}
use openrelay.Types.Signature.{Crypto}
use openrelay.Db.Order.{DbOrder, find_row, save, status_open}

pub record FillRecord : Type 0 where
  pub order_hash : Str
  pub filled_taker_asset_amount : Str
  pub cancel : Bool

pub record Cancellation : Type 0 where
  pub maker : Bytes
  pub sender : Bytes
  pub epoch : Bytes

-- A row that no table holds yet: the zero values of the columns.
abbrev pub new_row : Order.Order → DbOrder
new_row o = record {
  order = o;
  order_hash = [];
  status = status_open;
  price = 0;
  fee_rate = 0;
  maker_asset_remaining = zeros 32;
  maker_fee_remaining = zeros 32;
}

abbrev pub amount_text : Str → Str
amount_text [] = 48 ∷ []
amount_text (x ∷ xs) = x ∷ xs

-- The order found, with the fill added to it.
unfoldable pub fill : (ℤ → Bytes) → ℤ → Bool → DbOrder → DbOrder
unfolding ◌+ℤ◌ copy
fill u256 amount cancel row = record row {
  order = record row.order {
    taker_asset_amount_filled =
        copy row.order.taker_asset_amount_filled
          (u256 (pos (big row.order.taker_asset_amount_filled) +ℤ amount));
    cancelled = row.order.cancelled || cancel;
  };
}

abbrev pub same_pair : Bytes → Bytes → Cancellation → Bool
same_pair maker sender c = bytes_eq c.maker maker && bytes_eq c.sender sender

-- FirstOrCreate with Assign: the first row of the maker and sender takes the epoch.
unfoldable pub save_cancellation : Cancellation → List Cancellation → List Cancellation
save_cancellation c [] = c ∷ []
save_cancellation c (row ∷ rows) =
    let rest = save_cancellation c rows in
    if same_pair c.maker c.sender row then record row { epoch = c.epoch } ∷ rows else row ∷ rest

unfoldable pub get_cancellation_epoch : Bytes → Bytes → List Cancellation → Bytes
get_cancellation_epoch maker sender [] = zeros 32
get_cancellation_epoch maker sender (row ∷ rows) =
    let rest = get_cancellation_epoch maker sender rows in
    if same_pair maker sender row then row.epoch else rest

-- UPDATE orders SET status = ? WHERE …
unfoldable pub update_status : ℕ → (DbOrder → Bool) → List DbOrder → List DbOrder
update_status status matches [] = []
update_status status matches (row ∷ rows) =
    (if matches row then record row { status = status } else row)
    ∷ update_status status matches rows

-- The rows that a transfer reaches, by the maker's asset or, for the fee token, by the maker's fee.
unfoldable pub asset_spent : Bytes → Bytes → Bytes → Bytes → DbOrder → Bool
asset_spent maker token asset_data balance row =
    (row.status == status_open)
    && ((if length asset_data == 0
          then bytes_eq row.order.maker_asset_address token
          else bytes_eq row.order.maker_asset_data asset_data)
        && (bytes_eq row.order.maker maker && bytes_lt balance row.maker_asset_remaining))

unfoldable pub spent : Bytes → Bytes → Bytes → Bytes → Bytes → DbOrder → Bool
unfolding asset_spent
spent maker token fee_token asset_data balance row =
    asset_spent maker token asset_data balance row
    || (bytes_eq token fee_token
        && (bytes_eq row.order.maker maker && bytes_lt balance row.maker_fee_remaining))

-- The rows that a cancellation reaches.
unfoldable pub cancelled_by : Cancellation → DbOrder → Bool
cancelled_by c row =
    (row.status == status_open)
    && (bytes_eq row.order.maker c.maker
        && (bytes_eq row.order.sender_address c.sender && bytes_lt row.order.salt c.epoch))

unfoldable pub record_spend :
    ℕ → Bytes → Bytes → Bytes → Bytes → Bytes → List DbOrder → List DbOrder
unfolding update_status spent
record_spend status maker token fee_token asset_data balance table =
    update_status status (spent maker token fee_token asset_data balance) table

unfoldable pub record_cancellation :
    ℕ → Cancellation → List Cancellation → List DbOrder → List Cancellation × List DbOrder
unfolding save_cancellation update_status cancelled_by
record_cancellation status c epochs table =
    (save_cancellation c epochs, update_status status (cancelled_by c) table)

module _ (c : Crypto) (u256 : ℤ → Bytes) (quo : ℕ → ℕ → ℕ) where
  unfoldable pub index : ℕ → Order.Order → List DbOrder → Outcome (List DbOrder)
  index status o table = save c u256 quo (new_row o) status table

  abbrev pub fill_found : List DbOrder → ℤ → Bool → Option DbOrder → Outcome (List DbOrder)
  unfolding fill
  fill_found table amount cancel none = ok table
  fill_found table amount cancel (some row) =
      save c u256 quo (fill u256 amount cancel row) row.status table

  unfoldable pub record_fill : FillRecord → List DbOrder → Outcome (List DbOrder)
  unfolding fill_found
  record_fill r table = do
    hash ← or_err "encoding/hex: invalid" (hex_decode (trim_prefix r.order_hash hex_prefix))
    amount ←
        or_err "could not be parsed as intger"
          (set_string (amount_text r.filled_taker_asset_amount))
    fill_found table amount r.cancel (find_row hash table)
