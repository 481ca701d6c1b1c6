-- ===== src/Search/Book.antt =====
-- search/orderbook.go and search/order.go: the order book of a pair of assets, and single orders.
use openrelay.Prelude.{
  ℕ, Bool, ◌&&◌, List, [], ◌++◌, Option, none, some, map, Bytes, bytes_eq, ◌==◌, if◌then◌else◌,
  length, ℤ, pos, ltb_ℤ, Outcome, ok, err, panic, codes, ◌||◌,
}
use openrelay.Types.Text.{Str, hex_decode}
use openrelay.Db.Order.{DbOrder, find_row}
use openrelay.Ingest.{ValidationError}
use openrelay.Search.Query.{
  Values, get, Query, where_, hex_bytes, get_exp_time, is_open, expires_after,
}
use openrelay.Search.Pages.{get_pages, offset_of, FormattedOrder, get_formatted_order, PagedResult}
use openrelay.Search.Handlers.{Database, empty_query, selected, pool_filter, failing}
use Prim.Native.String.{String}

pub record OrderBook : Type 0 where
  pub asks : PagedResult FormattedOrder
  pub bids : PagedResult FormattedOrder

pub data BookAnswer : Type 0 where
  book : OrderBook → BookAnswer
  invalid : List ValidationError → BookAnswer
  refused : ℕ → BookAnswer
  panicked : BookAnswer

module _ (d : Database) where
  -- The orders that give one asset for the other.
  abbrev pub gives : Bytes → Bytes → DbOrder → Bool
  gives maker taker row =
      bytes_eq row.order.maker_asset_data maker && bytes_eq row.order.taker_asset_data taker

  abbrev pub side_query : Query → Bytes → Bytes → Query
  side_query q maker taker = where_ q (gives maker taker)

  -- One side of the book: counted, and listed by price, fee rate and expiration if the page lies
  -- within the count.
  unfoldable pub side : Query → Bytes → Bytes → ℤ → ℤ → List DbOrder → PagedResult FormattedOrder
  unfolding selected offset_of get_formatted_order
  side q maker taker n per_page table =
      let rows = selected (side_query q maker taker) table in
      record {
        total = length rows;
        page = n;
        per_page = per_page;
        records = map get_formatted_order (
            if ltb_ℤ (offset_of n per_page) (pos (length rows))
            then d.slice_rows (offset_of n per_page) per_page (d.sorted rows)
            else []);
      }

  -- Open orders that have not expired.
  unfoldable pub live_query : Values → Query
  unfolding get_exp_time
  live_query vs =
      where_ (where_ empty_query (is_open d.library))
        (expires_after d.library (get_exp_time d.library vs))

  abbrev pub error_if_none : {A : Type 0} → Option A → String → List ValidationError
  error_if_none none field = failing d 1001 field
  error_if_none (some a) field = []

  unfoldable pub book_of :
      List DbOrder
      → Option (ℤ × ℤ)
      → Option Bytes
      → Option Bytes
      → Option Query
      → List ValidationError
      → BookAnswer
  unfolding side
  book_of table (some (n, per_page)) (some base) (some quote) (some q) [] = book (record {
    asks = side q base quote n per_page table;
    bids = side q quote base n per_page table;
  })
  book_of table pages base quote q errs = invalid errs

  unfoldable pub with_pool :
      Values → List DbOrder → Option Bytes → Option Bytes → Outcome (Option Query) → BookAnswer
  unfolding book_of get_pages
  with_pool vs table base quote (err e) = panicked
  with_pool vs table base quote panic = panicked
  with_pool vs table base quote (ok q) = book_of table (get_pages vs) base quote q (
      error_if_none (get_pages vs) "page"
      ++ (error_if_none base "baseAssetData"
          ++ (error_if_none quote "quoteAssetData" ++ error_if_none q "pool")))

  -- OrderBookHandler
  unfoldable pub order_book_handler : Str → Values → List DbOrder → BookAnswer
  unfolding with_pool live_query pool_filter hex_bytes get
  order_book_handler search_terms vs table =
      let base = get vs (codes "baseAssetData") in
      let quote = get vs (codes "quoteAssetData") in
      if (length base == 0) || (length quote == 0)
      then refused 404
      else with_pool vs table (hex_bytes base) (hex_bytes quote)
          (pool_filter d (live_query vs) search_terms)

pub data OrderAnswer : Type 0 where
  found : FormattedOrder → OrderAnswer
  no_order : ℕ → OrderAnswer

unfoldable pub found_or_404 : Option DbOrder → OrderAnswer
unfolding get_formatted_order
found_or_404 none = no_order 404
found_or_404 (some row) = found (get_formatted_order row)

unfoldable pub decoded_or_400 : List DbOrder → Option Bytes → OrderAnswer
unfolding find_row
decoded_or_400 table none = no_order 400
decoded_or_400 table (some hash) = found_or_404 (find_row hash table)

-- OrderHandler in JSON; the regular expression of the path gives the digits of the hash, or nothing.
unfoldable pub order_handler : Option Str → List DbOrder → OrderAnswer
unfolding hex_decode decoded_or_400
order_handler none table = no_order 404
order_handler (some digits) table = decoded_or_400 table (hex_decode digits)
