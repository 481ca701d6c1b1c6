-- ===== src/Types/AssetData.antt =====
-- types/asset_data.go, and the constructors of asset data in common/util.go. Slicing past the end
-- of the data is a Go panic, and is one here.
pub mod Laws
use openrelay.Prelude.{
  ℕ, ◌-◌, Bool, true, false, Option, none, some, [], ◌∷◌, ◌++◌, Bytes, leb, if◌then◌else◌, length,
  take, drop, Outcome, ok, or_panic, or_err, ◌>>=◌, bytes_eq, copy, zeros, ◌||◌, ◌&&◌, codes,
}
use openrelay.Types.Text.{Str, trim_prefix, hex_prefix, hex_decode}

abbrev pub erc20_proxy_id : Bytes
erc20_proxy_id = 244 ∷ 114 ∷ 97 ∷ 176 ∷ []

abbrev pub erc721_proxy_id : Bytes
erc721_proxy_id = 2 ∷ 87 ∷ 23 ∷ 146 ∷ []

abbrev pub robo_dex_proxy_id : Bytes
robo_dex_proxy_id = 14 ∷ 32 ∷ 66 ∷ 216 ∷ []

-- data[i:j]
unfoldable pub slice : ℕ → ℕ → Bytes → Outcome Bytes
slice i j d =
    or_panic (if leb j (length d) && leb i j then some (take (j - i) (drop i d)) else none)

unfoldable pub proxy_id : Bytes → Outcome Bytes
unfolding slice copy
proxy_id d = do s ← slice 0 4 d; ok (copy (zeros 4) s)

unfoldable pub is_type : Bytes → Bytes → Outcome Bool
unfolding slice bytes_eq
is_type d id = do s ← slice 0 4 d; ok (bytes_eq s id)

-- The three tests are joined by ||, which stops at the first that holds.
unfoldable pub supported_type : Bytes → Outcome Bool
unfolding is_type
supported_type d = do
  erc20 ← is_type d erc20_proxy_id
  erc721 ← if erc20 then ok true else is_type d erc721_proxy_id
  if erc721 then ok true else is_type d robo_dex_proxy_id

unfoldable pub address : Bytes → Outcome Bytes
unfolding supported_type slice copy
address d = do
  supported ← supported_type d
  if supported then (slice 16 36 d >>= λ s. ok (copy (zeros 20) s)) else ok (zeros 20)

unfoldable pub token_id : Bytes → Outcome Bytes
unfolding is_type slice copy
token_id d = do
  erc721 ← is_type d erc721_proxy_id
  if erc721 then (slice 36 (length d) d >>= λ s. ok (copy (zeros 32) s)) else ok (zeros 32)

-- ToERC20AssetData: make(36), then copies into data[0:4] and data[16:].
unfoldable pub to_erc20_asset_data : Bytes → Bytes
unfolding copy
to_erc20_asset_data addr = copy (zeros 4) erc20_proxy_id ++ (zeros 12 ++ copy (zeros 20) addr)

-- ToERC721AssetData: make(68), then copies into data[0:4], data[16:36] and data[36:68].
unfoldable pub to_erc721_asset_data : Bytes → Bytes → Bytes
unfolding copy
to_erc721_asset_data addr token =
    copy (zeros 4) erc721_proxy_id ++ (zeros 12 ++ (copy (zeros 20) addr ++ copy (zeros 32) token))

unfoldable pub hex_to_asset_data : Str → Outcome Bytes
unfolding trim_prefix hex_decode
hex_to_asset_data s = or_err "encoding/hex" (hex_decode (trim_prefix s hex_prefix))

unfoldable pub hex_to_address : Str → Outcome Bytes
unfolding trim_prefix hex_decode copy
hex_to_address s = do
  b ← or_err "encoding/hex" (hex_decode (trim_prefix s hex_prefix))
  ok (copy (zeros 20) b)
