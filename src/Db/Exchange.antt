-- ===== src/Db/Exchange.antt =====
-- db/exchange.go: which network an exchange is on, and which exchanges a network has, with the two
-- caches in front of the table. The maps are association lists, the latest entry first; a call is given
-- whether the database fails it.
pub mod Cached
mod Tests
use openrelay.Prelude.{
  ℕ, Bool, true, false, List, [], ◌∷◌, Option, none, some, Bytes, bytes_eq, ◌==◌, if◌then◌else◌,
}

pub record Exchange : Type 0 where
  pub address : Bytes
  pub network : ℕ

pub record ExchangeLookup : Type 0 where
  pub by_address_cache : List (Bytes × ℕ)
  pub by_network_cache : List (ℕ × List Bytes)

abbrev pub new_exchange_lookup : ExchangeLookup
new_exchange_lookup = record { by_address_cache = []; by_network_cache = [] }

unfoldable pub cached_network : Bytes → List (Bytes × ℕ) → Option ℕ
cached_network a [] = none
cached_network a ((b, n) ∷ es) =
    let rest = cached_network a es in if bytes_eq b a then some n else rest

unfoldable pub cached_addresses : ℕ → List (ℕ × List Bytes) → Option (List Bytes)
cached_addresses n [] = none
cached_addresses n ((m, found) ∷ es) =
    let rest = cached_addresses n es in if m == n then some found else rest

-- Find: the addresses of the rows of a network.
unfoldable pub on_network : ℕ → List Exchange → List Bytes
on_network n [] = []
on_network n (e ∷ es) =
    let rest = on_network n es in if e.network == n then e.address ∷ rest else rest

-- First: the network of the row with an address, which is the primary key.
unfoldable pub network_of : Bytes → List Exchange → Option ℕ
network_of a [] = none
network_of a (e ∷ es) =
    let rest = network_of a es in if bytes_eq e.address a then some e.network else rest

module _ (table : List Exchange) where
  unfoldable pub remember_addresses :
      Bool → ℕ → ExchangeLookup → Option (List Bytes) × ExchangeLookup
  unfolding on_network
  remember_addresses true network l = (none, l)
  remember_addresses false network l = (
    some (on_network network table),
    record l { by_network_cache = (network, on_network network table) ∷ l.by_network_cache },
  )

  unfoldable pub get_exchanges_by_network :
      Bool → ℕ → ExchangeLookup → Option (List Bytes) × ExchangeLookup
  unfolding cached_addresses remember_addresses
  get_exchanges_by_network fails network l = elim (cached_addresses network l.by_network_cache) [
    | some found ↦ (some found, l)
    | none ↦ remember_addresses fails network l
  ]

  unfoldable pub remember_network : Bytes → ExchangeLookup → Option ℕ → Option ℕ × ExchangeLookup
  remember_network a l none = (none, l)
  remember_network a l (some n) =
      (some n, record l { by_address_cache = (a, n) ∷ l.by_address_cache })

  unfoldable pub get_network_by_exchange : Bool → Bytes → ExchangeLookup → Option ℕ × ExchangeLookup
  unfolding cached_network network_of remember_network
  get_network_by_exchange fails a l = elim (cached_network a l.by_address_cache) [
    | some n ↦ (some n, l)
    | none ↦ remember_network a l (if fails then none else network_of a table)
  ]

  abbrev pub or_zero : Option ℕ × ExchangeLookup → ℕ × ExchangeLookup
  or_zero (none, l) = (0, l)
  or_zero (some n, l) = (n, l)

  -- What ExchangeIsKnown sends: 0 on an error.
  unfoldable pub exchange_is_known : Bool → Bytes → ExchangeLookup → ℕ × ExchangeLookup
  unfolding get_network_by_exchange
  exchange_is_known fails a l = or_zero (get_network_by_exchange fails a l)
