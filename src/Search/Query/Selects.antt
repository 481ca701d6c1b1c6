-- ===== src/Search/Query/Selects.antt =====
-- search/search.go: QueryFilter selects what the request asks for.
use openrelay.Prelude.{ℕ, ◌≡◌, ◌↔◌, refl, true, List, [], some, ==_iff, All, ok, get_elem?}
use openrelay.Types.Text.{set_string}
use openrelay.Db.Order.{DbOrder, status_open}
use openrelay.Ingest.{ValidationError}
use openrelay.Search.Query.{
  Values, Query, Clause, where_, meets, Library, hex_bytes, hex_to_bytes, to_uint256,
  uint256_filter, get_exp_time, filters, apply_all, is_open, expires_after, query_filter,
  starts_with_filter,
}
use openrelay.Search.Query.Meets.{
  Holds, Wanted, is_Holds, one_Holds, like_Holds, where_iff, apply_all_iff, fee_iff, All-at,
}

module _ (lib : Library) (vs : Values) (row : DbOrder) where
  HoldsAll : Type 0
  HoldsAll = All (λ p. Holds p.0 row) (filters lib vs)

  at :
      {p : Clause × ValidationError} (i : ℕ)
      → HoldsAll
      → get_elem? (filters lib vs) i ≡ some p
      → Holds p.0 row
  unfolding HoldsAll
  at {p} i h e = All-at (λ p. Holds p.0 row) (filters lib vs) i p h e

  fee_clause : Clause
  unfolding uint256_filter
  fee_clause = uint256_filter lib vs "_takerFee" (λ r. r.order.taker_fee)

  wanted_of :
      row.status ≡ status_open
      → expires_after lib (get_exp_time lib vs) row ≡ true
      → Holds fee_clause row
      → HoldsAll
      → Wanted lib vs row
  unfolding fee_clause uint256_filter starts_with_filter
  wanted_of o t f h = record {
    open_order = o;
    unexpired = t;
    exchange =
        (is_Holds vs "exchangeContractAddress" hex_to_bytes (λ r. r.order.exchange_address) row).0
          (at 0 h refl);
    maker_token =
        (is_Holds vs "makerAssetAddress" hex_to_bytes (λ r. r.order.maker_asset_address) row).0
          (at 1 h refl);
    taker_token =
        (is_Holds vs "takerAssetAddress" hex_to_bytes (λ r. r.order.taker_asset_address) row).0
          (at 2 h refl);
    maker_asset =
        (is_Holds vs "makerAssetData" hex_bytes (λ r. r.order.maker_asset_data) row).0
          (at 3 h refl);
    taker_asset =
        (is_Holds vs "takerAssetData" hex_bytes (λ r. r.order.taker_asset_data) row).0
          (at 4 h refl);
    maker = (is_Holds vs "makerAddress" hex_to_bytes (λ r. r.order.maker) row).0 (at 5 h refl);
    taker = (is_Holds vs "takerAddress" hex_to_bytes (λ r. r.order.taker) row).0 (at 6 h refl);
    fee_recipient =
        (is_Holds vs "feeRecipient" hex_to_bytes (λ r. r.order.fee_recipient) row).0 (at 7 h refl);
    maker_proxy =
        (like_Holds lib vs "makerAssetProxyId" (λ r. r.order.maker_asset_data) row).0 (at 8 h refl);
    taker_proxy =
        (like_Holds lib vs "takerAssetProxyId" (λ r. r.order.taker_asset_data) row).0 (at 9 h refl);
    token =
        (one_Holds vs "assetAddress" hex_to_bytes (λ r. r.order.maker_asset_address)
            (λ r. r.order.taker_asset_address) row).0
          (at 10 h refl);
    asset =
        (one_Holds vs "assetData" hex_bytes (λ r. r.order.maker_asset_data)
            (λ r. r.order.taker_asset_data) row).0
          (at 11 h refl);
    trader =
        (one_Holds vs "traderAddress" hex_to_bytes (λ r. r.order.maker) (λ r. r.order.taker) row).0
          (at 12 h refl);
    pool = (is_Holds vs "_poolId" hex_bytes (λ r. r.order.pool_id) row).0 (at 13 h refl);
    pool_name =
        (is_Holds vs "_poolName" (λ s. some (lib.keccak256 s)) (λ r. r.order.pool_id) row).0
          (at 14 h refl);
    taker_fee =
        (is_Holds vs "_takerFee" (λ s. to_uint256 lib (set_string s)) (λ r. r.order.taker_fee)
            row).0
          f;
  }

  holds_of : Wanted lib vs row → HoldsAll
  unfolding HoldsAll starts_with_filter
  holds_of w = (
    (is_Holds vs "exchangeContractAddress" hex_to_bytes (λ r. r.order.exchange_address) row).1
        w.exchange,
    (
      (is_Holds vs "makerAssetAddress" hex_to_bytes (λ r. r.order.maker_asset_address) row).1
          w.maker_token,
      (
        (is_Holds vs "takerAssetAddress" hex_to_bytes (λ r. r.order.taker_asset_address) row).1
            w.taker_token,
        (
          (is_Holds vs "makerAssetData" hex_bytes (λ r. r.order.maker_asset_data) row).1
              w.maker_asset,
          (
            (is_Holds vs "takerAssetData" hex_bytes (λ r. r.order.taker_asset_data) row).1
                w.taker_asset,
            (
              (is_Holds vs "makerAddress" hex_to_bytes (λ r. r.order.maker) row).1 w.maker,
              (
                (is_Holds vs "takerAddress" hex_to_bytes (λ r. r.order.taker) row).1 w.taker,
                (
                  (is_Holds vs "feeRecipient" hex_to_bytes (λ r. r.order.fee_recipient) row).1
                      w.fee_recipient,
                  (
                    (like_Holds lib vs "makerAssetProxyId" (λ r. r.order.maker_asset_data) row).1
                        w.maker_proxy,
                    (
                      (like_Holds lib vs "takerAssetProxyId" (λ r. r.order.taker_asset_data) row).1
                          w.taker_proxy,
                      (
                        (one_Holds vs "assetAddress" hex_to_bytes (λ r. r.order.maker_asset_address)
                              (λ r. r.order.taker_asset_address) row).1
                            w.token,
                        (
                          (one_Holds vs "assetData" hex_bytes (λ r. r.order.maker_asset_data)
                                (λ r. r.order.taker_asset_data) row).1
                              w.asset,
                          (
                            (one_Holds vs "traderAddress" hex_to_bytes (λ r. r.order.maker)
                                  (λ r. r.order.taker) row).1
                                w.trader,
                            (
                              (is_Holds vs "_poolId" hex_bytes (λ r. r.order.pool_id) row).1 w.pool,
                              (
                                (is_Holds vs "_poolName" (λ s. some (lib.keccak256 s))
                                      (λ r. r.order.pool_id) row).1
                                    w.pool_name,
                                tt,
                              ),
                            ),
                          ),
                        ),
                      ),
                    ),
                  ),
                ),
              ),
            ),
          ),
        ),
      ),
    ),
  )

  fee_of : Wanted lib vs row → Holds fee_clause row
  unfolding fee_clause uint256_filter
  fee_of w =
      (is_Holds vs "_takerFee" (λ s. to_uint256 lib (set_string s)) (λ r. r.order.taker_fee) row).1
        w.taker_fee

  -- If QueryFilter does not panic, then the query that it gives selects a row exactly when the query
  -- before did, the order is open and not expired, and every field of the request that is set and can be
  -- parsed is met: an address, asset or fee by the column of its name, assetAddress, assetData and
  -- traderAddress by one of their two columns, a proxy id by LIKE with the prefix, and _poolName by its
  -- hash.
  pub query_filter-Wanted :
      (q : Query) (r : Query × List ValidationError)
      → query_filter lib q vs ≡ ok r
      → (meets r.0 row ≡ true) ↔ ((meets q row ≡ true) × Wanted lib vs row)
  unfolding query_filter HoldsAll fee_clause uint256_filter
  query_filter-Wanted q r e =
      let fee =
        fee_iff lib fee_clause (expires_after lib (get_exp_time lib vs))
          (apply_all lib (filters lib vs) (where_ q (is_open lib), [])) r row e in
      let all = apply_all_iff lib (filters lib vs) (where_ q (is_open lib), []) row in
      let first = where_iff q (is_open lib) row in
      (
        λ h.
            let a = all.0 (fee.0 h).0 in
            (
              (first.0 a.0).1,
              wanted_of ((==_iff row.status status_open).0 (first.0 a.0).0) (fee.0 h).1.0
                  (fee.0 h).1.1 a.1,
            ),
        λ h. fee.1 (
          all.1 (first.1 ((==_iff row.status status_open).1 h.1.open_order, h.0), holds_of h.1),
          (h.1.unexpired, fee_of h.1),
        ),
      )
