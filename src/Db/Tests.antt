-- ===== src/Db/Tests.antt =====
-- Tests of the database: a table with one open order, 30 of whose 150 units are filled.
use openrelay.Prelude.{
  ◌≡◌, ◌≢◌, ◌<◌, ◌*◌, ◌/◌, ◌-◌, ◌+◌, ◌^◌, refl, false, List, [], ◌∷◌, some, Bytes, replicate, codes,
  pos, ok, big, All, arith, bytes_eq, leb, ap, get_or, if◌then◌else◌,
}
use openrelay.Types.Samples.{order, amount, word, word_law, maker_token}
use openrelay.Types.Text.{hex_decode, set_string, trim_prefix}
use openrelay.Types.Signature.{verify, verify_by_type}
use openrelay.Types.Order
use openrelay.Types.Text.{sprint_hex, dec_string}
use openrelay.Db.Consumers.{record_spend_consume, acked}
use openrelay.Db.Consumers.Funded.{Funded, record_spend_consume-Funded}
use openrelay.Db.Samples.{crypto, quo, row}
use openrelay.Db.Order.{
  DbOrder, threshold, populated_status, share_left, find_row, save, upsert, populate, populated,
  default_status, status_open, status_filled, status_cancelled, status_unfunded,
}
use openrelay.Db.Order.Populate.{populated_status_lem, share_left_lem}
use openrelay.Db.Order.Save.{Saved, save_lem}
use openrelay.Db.Indexer.{FillRecord, fill, record_fill, record_spend}
use openrelay.Db.Indexer.Status.{record_spend-closed, record_spend-fee_token}
use openrelay.Db.Indexer.Fill.{Filled, record_fill_lem}

abbrev filled_row : DbOrder
filled_row = record row { status = status_filled }

populated_status_example : populated_status order status_open ≡ (
    if leb (threshold order.taker_asset_amount) (big order.taker_asset_amount_filled)
    then status_filled
    else if order.cancelled
    then status_cancelled
    else status_open)
populated_status_example = populated_status_lem order status_open

share_left_example :
    big (share_left word order (amount 200))
    ≡ big (amount 200)
      * (big order.taker_asset_amount - big order.taker_asset_amount_filled)
      / big order.taker_asset_amount
unfolding big
share_left_example =
    share_left_lem word order (amount 200) word_law (omega arith) (omega arith) (omega arith)

abbrev saved : DbOrder → List DbOrder → List DbOrder
saved d table = upsert (default_status status_unfunded (populated crypto word quo d)) table

save-row :
    save crypto word quo row status_unfunded (filled_row ∷ []) ≡ ok (saved row (filled_row ∷ []))
unfolding save verify verify_by_type populate big
save-row = refl

save_example :
    Saved crypto word quo row status_unfunded (filled_row ∷ []) (saved row (filled_row ∷ []))
save_example =
    save_lem crypto word quo row status_unfunded (filled_row ∷ []) (saved row (filled_row ∷ []))
      save-row

abbrev fill_record : FillRecord
fill_record = record {
  order_hash = codes "0x07";
  filled_taker_asset_amount = codes "60";
  cancel = false;
}

abbrev filled : List DbOrder
filled =
    upsert (default_status status_open (populated crypto word quo (fill word (pos 60) false row)))
      (row ∷ [])

hash-fill_record : hex_decode (trim_prefix fill_record.order_hash (codes "0x")) ≡ some (7 ∷ [])
unfolding hex_decode trim_prefix
hash-fill_record = refl

amount-fill_record : set_string fill_record.filled_taker_asset_amount ≡ some (pos 60)
unfolding set_string
amount-fill_record = refl

find_row-row : find_row (7 ∷ []) (row ∷ []) ≡ some row
unfolding find_row bytes_eq
find_row-row = refl

find_row-filled_row : find_row (7 ∷ []) (filled_row ∷ []) ≡ some filled_row
unfolding find_row bytes_eq
find_row-filled_row = refl

key-row : row.order_hash ≡ Order.hash crypto.keccak256 row.order
unfolding Order.hash
key-row = refl

record_fill-filled : record_fill crypto word quo fill_record (row ∷ []) ≡ ok filled
unfolding record_fill find_row save verify verify_by_type populate big hex_decode trim_prefix
    set_string
record_fill-filled = refl

bound-row : big row.order.taker_asset_amount_filled + 60 < 256 ^ 32
unfolding big
bound-row = omega arith

record_fill_example :
    (row' : DbOrder) × (find_row (7 ∷ []) filled ≡ some row')
    × Filled crypto word quo word_law 60 false row row'
    × ((k : Bytes) → bytes_eq (7 ∷ []) k ≡ false → find_row k filled ≡ find_row k (row ∷ []))
record_fill_example =
    record_fill_lem crypto word quo word_law fill_record (7 ∷ []) 60 (row ∷ []) filled row
      hash-fill_record amount-fill_record find_row-row key-row (omega arith) bound-row
      record_fill-filled

tokens_differ : maker_token ≢ replicate 20 2
tokens_differ e = omega (arith, ap (λ b. get_or b 0 0) e)

record_spend-closed_example :
    find_row (7 ∷ []) (
      record_spend status_unfunded order.maker maker_token
        (replicate 20 2)
        []
        (amount 3)
        (filled_row ∷ []))
    ≡ some filled_row
record_spend-closed_example =
    record_spend-closed status_unfunded order.maker maker_token (replicate 20 2) [] (amount 3)
      (7 ∷ []) (filled_row ∷ []) filled_row tokens_differ find_row-filled_row (omega arith)

-- A filled order is given the status of an unfunded one.
record_spend-fee_token_example :
    find_row (7 ∷ []) (
      record_spend status_unfunded order.maker maker_token maker_token []
        (amount 3)
        (filled_row ∷ []))
    ≡ some (record filled_row { status = status_unfunded })
unfolding big
record_spend-fee_token_example =
    record_spend-fee_token status_unfunded order.maker maker_token [] (amount 3) (7 ∷ [])
      (filled_row ∷ []) filled_row (omega arith) (omega arith) find_row-filled_row refl
      (omega arith)

-- The spender keeps 3 units of the token.
record_spend_consume_example :
    ((record_spend_consume word
        (λ t. ok t)
        (some (record {
          token_address = sprint_hex maker_token;
          asset_data = sprint_hex order.maker_asset_data;
          spender_address = sprint_hex order.maker;
          zrx_token = sprint_hex (replicate 20 2);
          balance = dec_string 3;
        }))
        (row ∷ [])).1
      ≡ acked)
    × All
        (Funded order.maker order.maker_asset_data maker_token 3)
        (record_spend_consume word
          (λ t. ok t)
          (some (record {
            token_address = sprint_hex maker_token;
            asset_data = sprint_hex order.maker_asset_data;
            spender_address = sprint_hex order.maker;
            zrx_token = sprint_hex (replicate 20 2);
            balance = dec_string 3;
          }))
          (row ∷ [])).0
record_spend_consume_example =
    record_spend_consume-Funded word (λ t. ok t) order.maker maker_token (replicate 20 2)
      order.maker_asset_data 3 (row ∷ []) word_law (omega arith) (omega arith) (omega arith)
      (omega arith) (omega arith) (omega arith)
