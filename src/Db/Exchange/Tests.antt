-- ===== src/Db/Exchange/Tests.antt =====
-- Tests of the lookups of exchanges.
use openrelay.Prelude.{◌≡◌, refl, true, false, List, [], ◌∷◌, All, Bytes, bytes_eq, replicate, some}
use openrelay.Db.Exchange.{
  Exchange, new_exchange_lookup, cached_network, cached_addresses, on_network, network_of,
  remember_addresses, get_exchanges_by_network, remember_network, get_network_by_exchange,
  exchange_is_known,
}
use openrelay.Db.Exchange.Cached.{
  Call, exchanges_of, is_known, addresses, network, Right, run, run-Right,
}

abbrev main_exchange : Bytes
main_exchange = replicate 20 7

abbrev rows : List Exchange
rows = record { address = main_exchange; network = 1 } ∷ []

abbrev calls : List Call
calls =
    is_known true main_exchange
    ∷ is_known false main_exchange
    ∷ is_known true main_exchange
    ∷ exchanges_of false 1
    ∷ exchanges_of true 1
    ∷ []

-- An answer that is cached does not need the database.
run-calls :
    run rows calls new_exchange_lookup
    ≡ (is_known true main_exchange, network 0)
      ∷ (is_known false main_exchange, network 1)
      ∷ (is_known true main_exchange, network 1)
      ∷ (exchanges_of false 1, addresses (some (main_exchange ∷ [])))
      ∷ (exchanges_of true 1, addresses (some (main_exchange ∷ [])))
      ∷ []
unfolding exchange_is_known get_network_by_exchange remember_network cached_network network_of
    get_exchanges_by_network remember_addresses cached_addresses on_network bytes_eq
run-calls = refl

run_example : All (λ x. Right rows x.0 x.1) (run rows calls new_exchange_lookup)
run_example = run-Right rows calls
