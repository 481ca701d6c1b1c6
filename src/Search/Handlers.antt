-- ===== src/Search/Handlers.antt =====
-- search/search.go, search/orderbook.go, search/order.go and Filter of pool/pool.go: the handlers that
-- answer requests about orders. The table is the list of its rows; Offset and Limit, the order that the
-- database yields rows in, the parser of a pool's terms and the lookup of exchanges are parameters, and
-- statements succeed unless a placeholder is missing. Headers and links are not modelled.
pub mod Sound
pub mod Listed
use openrelay.Prelude.{
  ℕ, Bool, true, false, ◌&&◌, List, [], ◌∷◌, ◌++◌, Option, none, some, map, Bytes, bytes_eq, ◌==◌,
  if◌then◌else◌, length, ℤ, pos, ltb_ℤ, Outcome, ok, err, panic, codes, ◌>>=◌,
}
use openrelay.Types.Text.{Str, hex_decode}
use openrelay.Db.Order.{DbOrder, find_row}
use openrelay.Ingest.{ValidationError}
use openrelay.Search.Query.{
  Values, get, Query, where_, meets, Library, hex_bytes, get_exp_time, is_open, expires_after,
  query_filter,
}
use openrelay.Search.Pages.{
  atoi, get_pages, offset_of, FormattedOrder, get_formatted_order, PagedResult, Answer, page,
  octets, invalid, refused, panicked,
}
use Prim.Native.String.{String}

pub record Database : Type 0 where
  pub library : Library
  pub slice_rows : ℤ → ℤ → List DbOrder → List DbOrder
  pub sorted : List DbOrder → List DbOrder
  pub parse_query : Str → Option Values
  pub exchanges_by_network : ℤ → Option (List Bytes)
  pub order_bytes : DbOrder → Bytes

abbrev pub empty_query : Query
empty_query = record { conditions = []; broken = false }

-- The rows that the database finds for the query.
unfoldable pub selected : Query → List DbOrder → List DbOrder
unfolding meets
selected q [] = []
selected q (row ∷ rows) = let rest = selected q rows in if meets q row then row ∷ rest else rest

abbrev pub join : (DbOrder → Bytes) → List DbOrder → Bytes
join f [] = []
join f (x ∷ xs) = f x ++ join f xs

module _ (d : Database) where
  -- The errors of a pool's terms are counted, not passed on; `none` is an error.
  abbrev pub no_errors : Query × List ValidationError → Option Query
  no_errors (q, []) = some q
  no_errors (q, e ∷ es) = none

  unfoldable pub filtered_by : Query → Option Values → Outcome (Option Query)
  unfolding query_filter
  filtered_by q none = ok none
  filtered_by q (some terms) = query_filter d.library q terms >>= λ r. ok (no_errors r)

  -- Pool.Filter
  unfoldable pub pool_filter : Query → Str → Outcome (Option Query)
  unfolding filtered_by
  pool_filter q search_terms = filtered_by q (d.parse_query search_terms)

  abbrev pub network_or_main : Option ℤ → ℤ
  network_or_main none = pos 1
  network_or_main (some n) = n

  abbrev pub failing : ℕ → String → List ValidationError
  failing code field = record { field = field; code = code } ∷ []

  -- One exchange gives a condition, more of them a query with a placeholder too many.
  abbrev pub on_exchanges : Query → Option (List Bytes) → Query × List ValidationError
  on_exchanges q none = (q, failing 1006 "networkId")
  on_exchanges q (some []) = (q, failing 1006 "networkId")
  on_exchanges q (some (a ∷ [])) = (where_ q (λ row. bytes_eq row.order.exchange_address a), [])
  on_exchanges q (some (a ∷ b ∷ rest)) = (record q { broken = true }, [])

  unfoldable pub filter_by_network_id : Query → Values → Query × List ValidationError
  unfolding get atoi
  filter_by_network_id q vs =
      on_exchanges q (d.exchanges_by_network (network_or_main (atoi (get vs (codes "networkId")))))

  -- Count, whose error is not looked at: it leaves 0.
  unfoldable pub count : Query → List DbOrder → ℕ
  unfolding selected
  count q table = if q.broken then 0 else length (selected q table)

  -- Find with Offset and Limit; `none` is an error. The query is not asked if the page lies beyond the
  -- end.
  unfoldable pub find_page : Query → ℤ → ℤ → List DbOrder → Option (List DbOrder)
  unfolding selected count offset_of
  find_page q n per_page table =
      if ltb_ℤ (offset_of n per_page) (pos (count q table))
      then (if q.broken
          then none
          else some (d.slice_rows (offset_of n per_page) per_page (selected q table)))
      else some []

  -- FormatResponse
  unfoldable pub format_response : List DbOrder → Bool → ℕ → ℤ → ℤ → Answer FormattedOrder
  unfolding get_formatted_order
  format_response orders octet_stream total n per_page =
      if octet_stream
      then octets (join d.order_bytes orders)
      else page (record {
        total = total;
        page = n;
        per_page = per_page;
        records = map get_formatted_order orders;
      })

  unfoldable pub answered : Bool → ℕ → ℤ → ℤ → Option (List DbOrder) → Answer FormattedOrder
  unfolding format_response
  answered octet_stream total n per_page none = refused 500
  answered octet_stream total n per_page (some orders) =
      format_response orders octet_stream total n per_page

  -- The end of SearchHandler, from the errors collected and the pages.
  unfoldable pub run_query :
      Bool → List DbOrder → Query → List ValidationError → Option (ℤ × ℤ) → Answer FormattedOrder
  unfolding answered find_page count
  run_query octet_stream table q errs none = invalid (errs ++ failing 1001 "page")
  run_query octet_stream table q (e ∷ es) (some (n, per_page)) = invalid (e ∷ es)
  run_query octet_stream table q [] (some (n, per_page)) =
      answered octet_stream (count q table) n per_page (find_page q n per_page table)

  unfoldable pub in_pool :
      Values
      → Bool
      → List DbOrder
      → List ValidationError
      → Outcome (Option Query)
      → Answer FormattedOrder
  unfolding run_query filter_by_network_id get_pages
  in_pool vs octet_stream table errs (ok (some q)) =
      run_query octet_stream table (filter_by_network_id q vs).0
        (errs ++ (filter_by_network_id q vs).1) (get_pages vs)
  in_pool vs octet_stream table errs (ok none) = refused 404
  in_pool vs octet_stream table errs (err e) = panicked
  in_pool vs octet_stream table errs panic = panicked

  unfoldable pub in_query :
      Str
      → Values
      → Bool
      → List DbOrder
      → Outcome (Query × List ValidationError)
      → Answer FormattedOrder
  unfolding in_pool pool_filter
  in_query search_terms vs octet_stream table (ok (q, errs)) =
      in_pool vs octet_stream table errs (pool_filter q search_terms)
  in_query search_terms vs octet_stream table (err e) = panicked
  in_query search_terms vs octet_stream table panic = panicked

  -- SearchHandler, for a pool with the given terms and a request with or without the header that asks
  -- for octets.
  unfoldable pub search_handler : Str → Values → Bool → List DbOrder → Answer FormattedOrder
  unfolding in_query query_filter
  search_handler search_terms vs octet_stream table =
      in_query search_terms vs octet_stream table (query_filter d.library empty_query vs)
