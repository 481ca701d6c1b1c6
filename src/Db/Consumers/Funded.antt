-- ===== src/Db/Consumers/Funded.antt =====
-- db/record_spend_consumer.go with db/indexer.go: after a spend no open order offers more than is there.
use openrelay.Prelude.{
  ℕ, suc, ◌≡◌, ◌≢◌, ◌≤◌, ◌<◌, ◌^◌, refl, sym, ap, ◌∙◌, subst, Bool, true, false, ◌&&◌, ◌||◌, List,
  [], ◌∷◌, some, Bytes, IsBytes, big, bytes_eq, bytes_eq_iff, bytes_lt, copy, copy_full, zeros,
  length, ◌==◌, ==_iff, if◌then◌else◌, arith, All, ℤ, Outcome, ok, to_bytes, to_bytes-IsBytes,
  big-to_bytes, length-to_bytes,
}
use openrelay.Types.Text.{sprint_hex, dec_string, int_string_to_uint256, int_string_to_bytes}
use openrelay.Types.Text.RoundTrip.{hex_decode-sprint_hex, set_string-dec_string}
use openrelay.Types.AssetData.{hex_to_address, hex_to_asset_data}
use openrelay.Types.Order.Json.{U256Law}
use openrelay.Db.Order.{DbOrder, status_open, status_unfunded}
use openrelay.Db.Indexer.{asset_spent, spent, record_spend}
use openrelay.Db.Indexer.Status.{All-update_status, not_less, false_of_and}
use openrelay.Db.Consumers.{acked, spend, record_spend_consume}

hex_to_address-sprint_hex : (b : Bytes) → IsBytes 20 b → hex_to_address (sprint_hex b) ≡ ok b
unfolding hex_to_address
hex_to_address-sprint_hex b h =
    rw (hex_decode-sprint_hex b h.1) (ap ok (copy_full (zeros 20) b (sym h.0)))

hex_to_asset_data-sprint_hex :
    (b : Bytes) → All (λ x. x < 256) b → hex_to_asset_data (sprint_hex b) ≡ ok b
unfolding hex_to_asset_data
hex_to_asset_data-sprint_hex b h = rw (hex_decode-sprint_hex b h) refl

int_string_to_uint256-dec_string :
    (u256 : ℤ → Bytes) (n : ℕ)
    → U256Law u256
    → n < 256 ^ 32
    → int_string_to_uint256 u256 (dec_string n) ≡ ok (to_bytes 32 n)
unfolding int_string_to_uint256 int_string_to_bytes
int_string_to_uint256-dec_string u256 n law h = rw (set_string-dec_string n) (
    ap ok (
      ap (λ b. copy (zeros 32) b) (law n h)
      ∙ copy_full (zeros 32) (to_bytes 32 n) (sym (length-to_bytes 32 n))))

suc_positive : (n : ℕ) → (suc n == 0) ≡ false
suc_positive n = ground arith

unfunded-open : status_unfunded ≢ status_open
unfunded-open = omega arith

-- The order offers what was moved: the asset that is named, or any of the token if none is.
abbrev pub Offers : Bytes → Bytes → DbOrder → Type 0
Offers [] token row = row.order.maker_asset_address ≡ token
Offers (x ∷ xs) token row = row.order.maker_asset_data ≡ x ∷ xs

offered :
    (asset token : Bytes) (row : DbOrder)
    → Offers asset token row
    → (if length asset == 0
        then bytes_eq row.order.maker_asset_address token
        else bytes_eq row.order.maker_asset_data asset)
      ≡ true
offered [] token row h = (bytes_eq_iff row.order.maker_asset_address token).1 h
offered (x ∷ xs) token row h =
    rw (suc_positive (length xs)) ((bytes_eq_iff row.order.maker_asset_data (x ∷ xs)).1 h)

or_left : (a b : Bool) → (a || b) ≡ false → a ≡ false
or_left true b e = e
or_left false b e = refl

-- No open order of the spender offers more of what was moved than the balance.
abbrev pub Funded : Bytes → Bytes → Bytes → ℕ → DbOrder → Type 0
Funded spender asset token n row =
    row.status ≡ status_open
    → row.order.maker ≡ spender
    → Offers asset token row
    → big row.maker_asset_remaining ≤ n

record_spend-Funded :
    (spender token zrx asset : Bytes) (n : ℕ) (table : List DbOrder)
    → n < 256 ^ 32
    → All (λ row. IsBytes 32 row.maker_asset_remaining) table
    → All
        (Funded spender asset token n)
        (record_spend status_unfunded spender token zrx asset (to_bytes 32 n) table)
unfolding record_spend spent asset_spent
record_spend-Funded spender token zrx asset n table h sizes =
    All-update_status (λ row. IsBytes 32 row.maker_asset_remaining) (Funded spender asset token n)
      status_unfunded (spent spender token zrx asset (to_bytes 32 n)) table
      (λ row size e is_open maker offers.
        subst (λ (k : ℕ). big row.maker_asset_remaining ≤ k) (big-to_bytes 32 n h)
          (not_less (to_bytes 32 n) row.maker_asset_remaining (to_bytes-IsBytes 32 n) size (
            false_of_and (row.status == status_open)
              (if length asset == 0
                then bytes_eq row.order.maker_asset_address token
                else bytes_eq row.order.maker_asset_data asset)
              (bytes_eq row.order.maker spender)
              (bytes_lt (to_bytes 32 n) row.maker_asset_remaining)
              ((==_iff row.status status_open).1 is_open) (offered asset token row offers)
              ((bytes_eq_iff row.order.maker spender).1 maker)
              (or_left (asset_spent spender token asset (to_bytes 32 n) row)
                (bytes_eq token zrx
                  && (bytes_eq row.order.maker spender
                      && bytes_lt (to_bytes 32 n) row.maker_fee_remaining))
                e))))
      (λ row is_open. absurd (unfunded-open is_open)) sizes

-- A record of a spend with its addresses and asset in hex and its balance in decimal, as the monitors
-- publish them, is acknowledged. Afterwards no open order of the spender offers more of the named asset,
-- or of the token if no asset is named, than the balance.
pub record_spend_consume-Funded :
    (u256 : ℤ → Bytes) (nil_spend : List DbOrder → Outcome (List DbOrder))
    (spender token zrx asset : Bytes) (n : ℕ) (table : List DbOrder)
    → U256Law u256
    → IsBytes 20 spender
    → IsBytes 20 token
    → IsBytes 20 zrx
    → All (λ x. x < 256) asset
    → n < 256 ^ 32
    → All (λ row. IsBytes 32 row.maker_asset_remaining) table
    → ((record_spend_consume u256 nil_spend
          (some (record {
            token_address = sprint_hex token;
            asset_data = sprint_hex asset;
            spender_address = sprint_hex spender;
            zrx_token = sprint_hex zrx;
            balance = dec_string n;
          }))
          table).1
        ≡ acked)
      × All
          (Funded spender asset token n)
          (record_spend_consume u256 nil_spend
            (some (record {
              token_address = sprint_hex token;
              asset_data = sprint_hex asset;
              spender_address = sprint_hex spender;
              zrx_token = sprint_hex zrx;
              balance = dec_string n;
            }))
            table).0
unfolding record_spend_consume spend
record_spend_consume-Funded u256 nil_spend spender token zrx asset n table law hs ht hz ha h sizes =
    rw
      (
        hex_to_address-sprint_hex spender hs,
        hex_to_address-sprint_hex token ht,
        hex_to_address-sprint_hex zrx hz,
        hex_to_asset_data-sprint_hex asset ha,
        int_string_to_uint256-dec_string u256 n law h,
      )
      (refl, record_spend-Funded spender token zrx asset n table h sizes)
