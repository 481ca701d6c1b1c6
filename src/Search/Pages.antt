-- ===== src/Search/Pages.antt =====
-- search/search.go (getPages), search/formatting.go and search/fee_recipients.go: pages. An int has 64
-- bits and wraps around.
pub mod Parts
use openrelay.Prelude.{
  ℕ, ◌+◌, ◌-◌, ◌*◌, ◌%◌, ◌^◌, Bool, true, false, ◌&&◌, not, List, [], ◌∷◌, ◌++◌, Option, none, some,
  Bytes, ltb, leb, if◌then◌else◌, length, take, drop, ℤ, pos, negsuc, pos_part, neg_part, sub_ℕ,
  ◌-ℤ◌, ltb_ℤ, codes, big,
}
use openrelay.Types.Text.{Str, set_string, sprint_hex, int_string}
use openrelay.Types.Order
use openrelay.Db.Order.{DbOrder}
use openrelay.Ingest.{ValidationError}
use openrelay.Search.Query.{Values, get}

abbrev pub times : ℤ → ℤ → ℤ
times a b =
    sub_ℕ (pos_part a * pos_part b + neg_part a * neg_part b)
      (pos_part a * neg_part b + neg_part a * pos_part b)

-- The int that 64 bits of an integer stand for.
abbrev pub from_bits : ℕ → ℤ
from_bits u = if ltb u (2 ^ 63) then pos u else negsuc (2 ^ 64 - 1 - u)

abbrev pub wrap_int : ℤ → ℤ
wrap_int (pos n) = from_bits (n % 2 ^ 64)
wrap_int (negsuc n) = from_bits (2 ^ 64 - 1 - n % 2 ^ 64)

unfoldable pub fits_int : ℤ → Bool
fits_int (pos n) = ltb n (2 ^ 63)
fits_int (negsuc n) = ltb n (2 ^ 63)

unfoldable pub if_fits : Option ℤ → Option ℤ
unfolding fits_int
if_fits none = none
if_fits (some z) = if fits_int z then some z else none

-- strconv.Atoi: SetString(s, 10) in the range of an int.
unfoldable pub atoi : Str → Option ℤ
unfolding if_fits set_string
atoi s = if_fits (set_string s)

abbrev pub or_default : Str → Str → Str
or_default [] d = d
or_default (c ∷ cs) d = c ∷ cs

abbrev pub both : Option ℤ → Option ℤ → Option (ℤ × ℤ)
both none b = none
both (some a) none = none
both (some a) (some b) = some (a, b)

-- The page and how many there are on one; `none` is an error.
unfoldable pub get_pages : Values → Option (ℤ × ℤ)
unfolding get atoi
get_pages vs =
    both (atoi (or_default (get vs (codes "page")) (codes "1")))
      (atoi (or_default (get vs (codes "per_page")) (codes "20")))

pub record PagedResult (A : Type 0) : Type 0 where
  pub total : ℕ
  pub page : ℤ
  pub per_page : ℤ
  pub records : List A

pub record OrderMetadata : Type 0 where
  pub hash : Str
  pub fee_rate : ℕ
  pub status : ℕ
  pub taker_asset_amount_remaining : Str

pub record FormattedOrder : Type 0 where
  pub order : Order.Order
  pub metadata : OrderMetadata

unfoldable pub get_formatted_order : DbOrder → FormattedOrder
unfolding int_string ◌-ℤ◌
get_formatted_order d = record {
  order = d.order;
  metadata = record {
    hash = sprint_hex d.order_hash;
    fee_rate = d.fee_rate;
    status = d.status;
    taker_asset_amount_remaining =
        int_string
          (pos (big d.order.taker_asset_amount) -ℤ pos (big d.order.taker_asset_amount_filled));
  };
}

-- How a handler answers: a page of records, records in their binary form, a list of validation errors
-- with status 400, an error with its status, a redirection, or a panic.
pub data Answer (A : Type 0) : Type 0 where
  page : PagedResult A → Answer A
  octets : Bytes → Answer A
  invalid : List ValidationError → Answer A
  refused : ℕ → Answer A
  panicked : Answer A

-- (page - 1) * perPage
unfoldable pub offset_of : ℤ → ℤ → ℤ
unfolding ◌-ℤ◌
offset_of n per_page = wrap_int (times (wrap_int (n -ℤ pos 1)) per_page)

unfoldable pub end_of : ℤ → ℤ → ℤ
end_of n per_page = wrap_int (times n per_page)

abbrev pub at_most : ℤ → ℕ → ℤ
at_most z n = if ltb_ℤ (pos n) z then pos n else z

-- A slice expression on a list, which panics out of range.
unfoldable pub slice_list : {A : Type 0} → ℤ → ℤ → List A → Option (List A)
slice_list (pos i) (pos j) xs =
    if leb i j && leb j (length xs) then some (take (j - i) (drop i xs)) else none
slice_list (pos i) (negsuc j) xs = none
slice_list (negsuc i) z xs = none

abbrev pub page_answer : {A : Type 0} → ℕ → ℤ → ℤ → Option (List A) → Answer A
page_answer total n per_page none = panicked
page_answer total n per_page (some xs) =
    page (record { total = total; page = n; per_page = per_page; records = xs })

unfoldable pub affiliates_page : List Bytes → ℤ → ℤ → Answer Bytes
unfolding slice_list offset_of end_of
affiliates_page affiliates n per_page = page_answer (length affiliates) n per_page (
    slice_list (at_most (offset_of n per_page) (length affiliates))
      (at_most (end_of n per_page) (length affiliates)) affiliates)

unfoldable pub affiliates_answer : Option (ℤ × ℤ) → Option (List Bytes) → Answer Bytes
unfolding affiliates_page
affiliates_answer pages none = refused 500
affiliates_answer none (some affiliates) = invalid (record { field = "page"; code = 1001 } ∷ [])
affiliates_answer (some (n, per_page)) (some affiliates) = affiliates_page affiliates n per_page

-- FeeRecipientHandler; the service's list is `none` if it fails.
unfoldable pub fee_recipient_handler : Values → Option (List Bytes) → Answer Bytes
unfolding affiliates_answer get_pages
fee_recipient_handler vs affiliates = affiliates_answer (get_pages vs) affiliates
