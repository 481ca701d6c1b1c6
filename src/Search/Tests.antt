-- ===== src/Search/Tests.antt =====
-- Tests of the search: a table with one open order, and a request for its maker.
use openrelay.Prelude.{
  ◌≡◌, ◌↔◌, ◌*◌, refl, true, false, [], ◌∷◌, some, replicate, codes, zeros, take, ok, pos, arith,
  bytes_eq, bytes_lt, copy, to_bytes,
}
use openrelay.Types.Text.{hex_decode, trim_prefix, set_string}
use openrelay.Types.Samples.{word}
use openrelay.Db.Samples.{row}
use openrelay.Search.Query.{
  where_, starts_with_filter, uint256_filter, to_address, to_uint256, is, is_open, expires_after,
  get_exp_time, Values, get, Library, Query, meets, query_filter, apply_all, hex_to_bytes,
  hex_bytes,
}
use openrelay.Search.Query.Meets.{Wanted}
use openrelay.Search.Query.Selects.{query_filter-Wanted}
use openrelay.Search.Pages.{
  PagedResult, FormattedOrder, get_formatted_order, page, offset_of, get_pages, atoi, if_fits,
}
use openrelay.Search.Pages.Parts.{joined, affiliates_page-joined}
use openrelay.Search.Handlers.{
  Database, empty_query, search_handler, pool_filter, filter_by_network_id, count, find_page,
  format_response, selected, filtered_by, run_query, in_pool, in_query, answered,
}
use openrelay.Search.Handlers.Sound.{SliceLaw}
use openrelay.Search.Handlers.Listed.{Listed, search_handler-Listed}
use mathlib.Core.List.{Memᴰ}

abbrev library : Library
library = record { like = λ b p. true; keccak256 = λ b. zeros 32; u256 = word; now = 70 }

-- The maker of the order.
abbrev request : Values
request = (codes "makerAddress", codes "0x0101010101010101010101010101010101010101") ∷ []

abbrev database : Database
database = record {
  library = library;
  slice_rows = λ o l rows. rows;
  sorted = λ rows. rows;
  parse_query = λ s. some [];
  exchanges_by_network = λ n. some (replicate 20 4 ∷ []);
  order_bytes = λ r. [];
}

database_law : SliceLaw database
database_law o l rows r m = m

affiliates_page_example :
    joined (zeros 1 ∷ zeros 2 ∷ zeros 3 ∷ []) 2 2 ≡ take (2 * 2) (zeros 1 ∷ zeros 2 ∷ zeros 3 ∷ [])
affiliates_page_example =
    affiliates_page-joined (zeros 1 ∷ zeros 2 ∷ zeros 3 ∷ []) 2 2 (omega arith) (omega arith)

abbrev query : Query
unfolding get_exp_time
query =
    where_
      (where_ (where_ empty_query (is_open library)) (is (λ r. r.order.maker) (replicate 20 1)))
      (expires_after library (get_exp_time library request))

query_filter-request : query_filter library empty_query request ≡ ok (query, [])
unfolding query_filter query apply_all get bytes_eq hex_to_bytes hex_bytes hex_decode trim_prefix
    copy starts_with_filter uint256_filter to_address to_uint256 get_exp_time
query_filter-request = refl

query_filter_example :
    (meets query row ≡ true) ↔ ((meets empty_query row ≡ true) × Wanted library request row)
query_filter_example =
    query_filter-Wanted library request row empty_query (query, []) query_filter-request

abbrev answer : PagedResult FormattedOrder
answer = record {
  total = 1;
  page = pos 1;
  per_page = pos 20;
  records = get_formatted_order row ∷ [];
}

search_handler-request : search_handler database [] request false (row ∷ []) ≡ page answer
unfolding search_handler query_filter apply_all get bytes_eq hex_to_bytes hex_bytes hex_decode
    trim_prefix copy pool_filter filter_by_network_id count find_page format_response selected meets
    get_pages atoi offset_of get_exp_time bytes_lt set_string to_bytes starts_with_filter
    uint256_filter to_address to_uint256 filtered_by run_query in_pool in_query answered if_fits
search_handler-request = refl

search_handler_example : Listed database [] request (row ∷ []) (get_formatted_order row)
search_handler_example =
    search_handler-Listed database [] request (row ∷ []) answer (get_formatted_order row)
      database_law search_handler-request (Memᴰ.head refl)
