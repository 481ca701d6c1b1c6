-- ===== src/Types/AssetData/Laws.antt =====
-- types/asset_data.go: which asset data panics, and the round trips of the constructors.
use openrelay.Prelude.{
  ◌-◌, ◌≤◌, ◌≡◌, Bool, [], ◌++◌, Bytes, arith, ltb, length, take, drop, ok, panic, zeros, copy,
  copy_full, bytes_eq, take_all, drop_all, take-length, length-take, length-drop, ◌||◌, not,
  if◌then◌else◌, sym, length-append, append-nil,
}
use openrelay.Types.AssetData.{
  slice, is_type, supported_type, address, token_id, to_erc20_asset_data, to_erc721_asset_data,
  erc20_proxy_id, erc721_proxy_id, robo_dex_proxy_id,
}

-- Whether the first four bytes name a proxy that the relay knows.
abbrev pub is_known : Bytes → Bool
is_known d =
    bytes_eq (take 4 d) erc20_proxy_id
    || (bytes_eq (take 4 d) erc721_proxy_id || bytes_eq (take 4 d) robo_dex_proxy_id)

-- SupportedType says whether the first four bytes name a known proxy; with fewer than four it panics.
pub supported_type_lem :
    (d : Bytes) → supported_type d ≡ (if ltb (length d) 4 then panic else ok (is_known d))
unfolding supported_type is_type slice
supported_type_lem d = ground arith

copy_slice :
    (d : Bytes) → 36 ≤ length d → copy (zeros 20) (take 20 (drop 16 d)) ≡ take 20 (drop 16 d)
copy_slice d h =
    copy_full (zeros 20) (take 20 (drop 16 d))
      (omega (arith, length-take 20 (drop 16 d), length-drop 16 d))

-- Address on every input: it panics on fewer than four bytes and on data of a known proxy that ends
-- before byte 36; else it is bytes 16 to 36 for a known proxy, and the zero address for any other.
pub address_lem :
    (d : Bytes)
    → address d ≡ (
        if ltb (length d) 4
        then panic
        else if not (is_known d)
        then ok (zeros 20)
        else if ltb (length d) 36
        then panic
        else ok (take 20 (drop 16 d)))
unfolding address slice
address_lem d = rw supported_type_lem (ground (arith, copy_slice d))

abbrev erc20_parts : Bytes → Bytes
erc20_parts a = erc20_proxy_id ++ (zeros 12 ++ a)

to_erc20_parts : (a : Bytes) → length a ≡ 20 → to_erc20_asset_data a ≡ erc20_parts a
unfolding to_erc20_asset_data
to_erc20_parts a h = rw (copy_full (zeros 20) a (sym h))

-- The address that ToERC20AssetData packs is the one that Address reads.
pub address-to_erc20_asset_data :
    (a : Bytes) → length a ≡ 20 → address (to_erc20_asset_data a) ≡ ok a
unfolding bytes_eq
address-to_erc20_asset_data a h =
    rw (to_erc20_parts a h, address_lem) (ground (arith, take_all 20 a [] h, append-nil a))

abbrev erc721_parts : Bytes → Bytes → Bytes
erc721_parts a t = erc721_proxy_id ++ (zeros 12 ++ (a ++ t))

to_erc721_parts :
    (a t : Bytes) → length a ≡ 20 → length t ≡ 32 → to_erc721_asset_data a t ≡ erc721_parts a t
unfolding to_erc721_asset_data
to_erc721_parts a t h k = rw (copy_full (zeros 20) a (sym h), copy_full (zeros 32) t (sym k))

-- TokenID on every input: it panics where Address does, reads the bytes after the address on ERC721
-- data, at most 32 of them, and is zero on any other data.
pub token_id_lem :
    (d : Bytes)
    → token_id d ≡ (
        if ltb (length d) 4
        then panic
        else if not (bytes_eq (take 4 d) erc721_proxy_id)
        then ok (zeros 32)
        else if ltb (length d) 36
        then panic
        else ok (copy (zeros 32) (drop 36 d)))
unfolding token_id is_type slice
token_id_lem d = ground (arith, take-length (length d - 36) (drop 36 d), length-drop 36 d)

-- The address and the token that ToERC721AssetData packs are those that Address and TokenID read.
pub token_id-to_erc721_asset_data :
    (a t : Bytes)
    → length a ≡ 20
    → length t ≡ 32
    → (address (to_erc721_asset_data a t) ≡ ok a) × (token_id (to_erc721_asset_data a t) ≡ ok t)
unfolding bytes_eq
token_id-to_erc721_asset_data a t h k =
    rw (to_erc721_parts a t h k, address_lem, token_id_lem)
      (
        ground (arith, take_all 20 a t h, length-append a t),
        ground (arith, drop_all 20 a t h, length-append a t, copy_full (zeros 32) t (sym k)),
      )
