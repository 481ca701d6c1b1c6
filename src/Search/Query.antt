-- ===== src/Search/Query.antt =====
-- search/search.go and search/util.go: from a query string to the condition on the rows. What gorm
-- makes of the calls of Where is the list of their conditions, which a row meets together. LIKE, the
-- hash of sha3 and abi.U256 are parameters. Of a validation error the code and the field are modelled.
pub mod Meets
pub mod Selects
use openrelay.Prelude.{
  ℕ, Bool, true, false, ◌&&◌, ◌||◌, List, [], ◌∷◌, ◌++◌, Option, none, some, Bytes, bytes_eq,
  bytes_lt, ◌==◌, if◌then◌else◌, length, ℤ, pos, Outcome, ok, panic, copy, zeros, codes, all_by,
}
use openrelay.Types.Text.{Str, hex_decode, trim_prefix, hex_prefix, set_string}
use openrelay.Db.Order.{DbOrder, status_open}
use openrelay.Ingest.{ValidationError}
use Prim.Native.String.{String}

-- url.Values with the first value of each key.
abbrev pub Values : Type 0
Values = List (Str × Str)

unfoldable pub get : Values → Str → Str
unfolding bytes_eq
get [] key = []
get ((k, v) ∷ rest) key = let later = get rest key in if bytes_eq k key then v else later

-- A gorm query on the table of orders; `broken` is one whose placeholders do not fit its arguments.
pub record Query : Type 0 where
  pub conditions : List (DbOrder → Bool)
  pub broken : Bool

-- Where, the new condition first.
abbrev pub where_ : Query → (DbOrder → Bool) → Query
where_ q c = record q { conditions = c ∷ q.conditions }

-- The rows that a query selects.
unfoldable pub meets : Query → DbOrder → Bool
meets q row = all_by (λ c. c row) q.conditions

pub record Library : Type 0 where
  pub like : Bytes → Bytes → Bool
  pub keccak256 : Bytes → Bytes
  pub u256 : ℤ → Bytes
  pub now : ℕ

-- What a filter does to the query: nothing for an empty field, a condition, or an error.
pub data Clause : Type 0 where
  unset : Clause
  condition : (DbOrder → Bool) → Clause
  malformed : Clause

abbrev pub clause_of : Option Bytes → (Bytes → DbOrder → Bool) → Clause
clause_of none test = malformed
clause_of (some b) test = condition (test b)

abbrev pub if_set : Str → (Str → Option Bytes) → (Bytes → DbOrder → Bool) → Clause
if_set [] parse test = unset
if_set (c ∷ cs) parse test = clause_of (parse (c ∷ cs)) test

unfoldable pub hex_bytes : Str → Option Bytes
hex_bytes s = hex_decode (trim_prefix s hex_prefix)

unfoldable pub to_address : Option Bytes → Option Bytes
unfolding copy
to_address none = none
to_address (some b) = some (copy (zeros 20) b)

-- HexToBytes, which takes no more than twenty bytes and fills up with zeros.
unfoldable pub hex_to_bytes : Str → Option Bytes
unfolding to_address hex_bytes
hex_to_bytes s = to_address (hex_bytes s)

abbrev pub Column : Type 0
Column = DbOrder → Bytes

abbrev pub is : Column → Bytes → DbOrder → Bool
is column b row = bytes_eq (column row) b

abbrev pub is_one : Column → Column → Bytes → DbOrder → Bool
is_one column1 column2 b row = bytes_eq (column1 row) b || bytes_eq (column2 row) b

abbrev pub address_filter : Values → String → Column → Clause
address_filter vs field column = if_set (get vs (codes field)) hex_to_bytes (is column)

abbrev pub asset_data_filter : Values → String → Column → Clause
asset_data_filter vs field column = if_set (get vs (codes field)) hex_bytes (is column)

abbrev pub asset_data_or_filter : Values → String → Column → Column → Clause
asset_data_or_filter vs field column1 column2 =
    if_set (get vs (codes field)) hex_bytes (is_one column1 column2)

abbrev pub or_filter : Values → String → Column → Column → Clause
or_filter vs field column1 column2 =
    if_set (get vs (codes field)) hex_to_bytes (is_one column1 column2)

abbrev pub bytes_filter : Values → String → Column → Clause
bytes_filter vs field column = if_set (get vs (codes field)) hex_bytes (is column)

-- bytes.Replace of every `c` by a backslash and `c`.
unfoldable pub replace : ℕ → Bytes → Bytes
replace c [] = []
replace c (x ∷ xs) = let rest = replace c xs in if x == c then 92 ∷ x ∷ rest else x ∷ rest

unfoldable pub escape : Bytes → Bytes
unfolding replace
escape b = replace b'_' (replace b'?' b)

module _ (lib : Library) where
  unfoldable pub starts_with_filter : Values → String → Column → Clause
  unfolding escape
  starts_with_filter vs field column =
      if_set (get vs (codes field)) hex_bytes
        (λ b row. lib.like (column row) (escape b ++ (b'%' ∷ [])))

  abbrev pub hash_filter : Values → String → Column → Clause
  hash_filter vs field column =
      if_set (get vs (codes field)) (λ s. some (lib.keccak256 s)) (is column)

  unfoldable pub to_uint256 : Option ℤ → Option Bytes
  unfolding copy
  to_uint256 none = none
  to_uint256 (some z) = some (copy (zeros 32) (lib.u256 z))

  unfoldable pub uint256_filter : Values → String → Column → Clause
  unfolding to_uint256 set_string
  uint256_filter vs field column =
      if_set (get vs (codes field)) (λ s. to_uint256 (set_string s)) (is column)

  abbrev pub time_or_now : Option ℤ → ℤ
  time_or_now none = pos lib.now
  time_or_now (some z) = z

  -- getExpTime; an empty text is no number, as one that cannot be parsed is not.
  unfoldable pub get_exp_time : Values → Bytes
  unfolding copy set_string
  get_exp_time vs =
      copy (zeros 32) (lib.u256 (time_or_now (set_string (get vs (codes "_expTime")))))

  abbrev pub refused : ℕ → String → ValidationError
  refused code field = record { field = field; code = code }

  -- The filters of QueryFilter in their order, each with the error that it can add; the fee comes last.
  abbrev pub filters : Values → List (Clause × ValidationError)
  filters vs =
      (
        address_filter vs "exchangeContractAddress" (λ r. r.order.exchange_address),
        refused 1003 "exchangeContractAddress",
      )
      ∷ (
        address_filter vs "makerAssetAddress" (λ r. r.order.maker_asset_address),
        refused 1003 "makerAssetAddress",
      )
      ∷ (
        address_filter vs "takerAssetAddress" (λ r. r.order.taker_asset_address),
        refused 1003 "takerAssetAddress",
      )
      ∷ (
        asset_data_filter vs "makerAssetData" (λ r. r.order.maker_asset_data),
        refused 1003 "makerAssetData",
      )
      ∷ (
        asset_data_filter vs "takerAssetData" (λ r. r.order.taker_asset_data),
        refused 1003 "takerAssetData",
      )
      ∷ (address_filter vs "makerAddress" (λ r. r.order.maker), refused 1003 "maker")
      ∷ (address_filter vs "takerAddress" (λ r. r.order.taker), refused 1003 "taker")
      ∷ (address_filter vs "feeRecipient" (λ r. r.order.fee_recipient), refused 1003 "feeRecipient")
      ∷ (
        starts_with_filter vs "makerAssetProxyId" (λ r. r.order.maker_asset_data),
        refused 1003 "makerAssetProxyId",
      )
      ∷ (
        starts_with_filter vs "takerAssetProxyId" (λ r. r.order.taker_asset_data),
        refused 1003 "takerAssetProxyId",
      )
      ∷ (
        or_filter vs "assetAddress" (λ r. r.order.maker_asset_address)
            (λ r. r.order.taker_asset_address),
        refused 1003 "assetAddress",
      )
      ∷ (
        asset_data_or_filter vs "assetData" (λ r. r.order.maker_asset_data)
            (λ r. r.order.taker_asset_data),
        refused 1001 "assetData",
      )
      ∷ (
        or_filter vs "traderAddress" (λ r. r.order.maker) (λ r. r.order.taker),
        refused 1003 "traderAddress",
      )
      ∷ (bytes_filter vs "_poolId" (λ r. r.order.pool_id), refused 1003 "_poolId")
      ∷ (hash_filter vs "_poolName" (λ r. r.order.pool_id), refused 1003 "_poolName")
      ∷ []

  abbrev pub apply_clause :
      Clause → ValidationError → Query × List ValidationError → Query × List ValidationError
  apply_clause unset e (q, errs) = (q, errs)
  apply_clause (condition c) e (q, errs) = (where_ q c, errs)
  apply_clause malformed e (q, errs) = (q, errs ++ (e ∷ []))

  unfoldable pub apply_all :
      List (Clause × ValidationError) → Query × List ValidationError → Query × List ValidationError
  apply_all [] s = s
  apply_all ((c, e) ∷ rest) s = apply_all rest (apply_clause c e s)

  -- A bad fee gives a nil query, on which the last Where panics.
  abbrev pub with_fee :
      Clause
      → (DbOrder → Bool)
      → Query × List ValidationError
      → Outcome (Query × List ValidationError)
  with_fee unset expires (q, errs) = ok (where_ q expires, errs)
  with_fee (condition c) expires (q, errs) = ok (where_ (where_ q c) expires, errs)
  with_fee malformed expires s = panic

  abbrev pub is_open : DbOrder → Bool
  is_open row = row.status == status_open

  abbrev pub expires_after : Bytes → DbOrder → Bool
  expires_after time row = bytes_lt time row.order.expiration_timestamp_in_sec

  unfoldable pub query_filter : Query → Values → Outcome (Query × List ValidationError)
  unfolding apply_all uint256_filter get_exp_time
  query_filter q vs =
      with_fee (uint256_filter vs "_takerFee" (λ r. r.order.taker_fee))
        (expires_after (get_exp_time vs)) (apply_all (filters vs) (where_ q is_open, []))
