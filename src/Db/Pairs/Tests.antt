-- ===== src/Db/Pairs/Tests.antt =====
-- Tests of the pairs of assets.
use openrelay.Prelude.{◌≡◌, refl, List, [], ◌∷◌, pos, ◌⊎◌, bytes_eq, bytes_lt}
use openrelay.Types.Samples.{order}
use openrelay.Db.Samples.{row}
use openrelay.Db.Order.{DbOrder}
use openrelay.Db.Exchange.{Exchange, on_network}
use openrelay.Db.Pairs.{
  get_token_ab_pairs, pairs_where, distinct, ordered, traded, has_address, network_addresses,
  has_pair, same_pair, least, greatest,
}
use openrelay.Db.Pairs.Single.{pair_of, get_token_ab_pairs-one}

abbrev exchanges : List Exchange
exchanges = record { address = order.exchange_address; network = 1 } ∷ []

-- Two orders of the same assets, in both directions.
abbrev rows : List DbOrder
rows =
    row
    ∷ record row {
      order = record (row.order) {
        maker_asset_data = row.order.taker_asset_data;
        taker_asset_data = row.order.maker_asset_data;
      };
    }
    ∷ []

get_token_ab_pairs-rows :
    get_token_ab_pairs exchanges rows row.order.taker_asset_data row.order.maker_asset_data (pos 1)
    ≡ (pair_of row.order.maker_asset_data row.order.taker_asset_data ∷ [], 1)
unfolding get_token_ab_pairs pairs_where distinct ordered traded has_address network_addresses
    has_pair same_pair least greatest on_network bytes_eq bytes_lt
get_token_ab_pairs-rows = refl

get_token_ab_pairs_example :
    (get_token_ab_pairs exchanges rows row.order.taker_asset_data row.order.maker_asset_data (pos 1)
      ≡ ([], 0))
    ⊎ (get_token_ab_pairs exchanges rows row.order.taker_asset_data row.order.maker_asset_data
          (pos 1)
        ≡ (pair_of row.order.taker_asset_data row.order.maker_asset_data ∷ [], 1))
get_token_ab_pairs_example =
    get_token_ab_pairs-one exchanges rows row.order.taker_asset_data row.order.maker_asset_data
      (pos 1)
