-- ===== src/Db/Pairs.antt =====
-- db/pairs.go: the pairs of assets that are traded on a network. The SQL is read on the rows of the
-- tables, whose statements succeed; the order of the rows that DISTINCT yields, with Offset and Limit,
-- is a parameter.
pub mod Single
mod Tests
use openrelay.Prelude.{
  ℕ, Bool, true, false, ◌&&◌, ◌||◌, List, [], ◌∷◌, Bytes, bytes_eq, bytes_lt, if◌then◌else◌, length,
  ℤ, pos, negsuc,
}
use openrelay.Db.Order.{DbOrder}
use openrelay.Db.Exchange.{Exchange, on_network}

pub record Pair : Type 0 where
  pub token_a : Bytes
  pub token_b : Bytes

unfoldable pub least : Bytes → Bytes → Bytes
least a b = if bytes_lt b a then b else a

unfoldable pub greatest : Bytes → Bytes → Bytes
greatest a b = if bytes_lt b a then a else b

unfoldable pub same_pair : Pair → Pair → Bool
same_pair p q = bytes_eq p.token_a q.token_a && bytes_eq p.token_b q.token_b

unfoldable pub has_pair : Pair → List Pair → Bool
unfolding same_pair
has_pair p [] = false
has_pair p (q ∷ qs) = same_pair q p || has_pair p qs

-- SELECT DISTINCT
unfoldable pub distinct : List Pair → List Pair
unfolding has_pair
distinct [] = []
distinct (p ∷ ps) = let rest = distinct ps in if has_pair p rest then rest else p ∷ rest

unfoldable pub has_address : Bytes → List Bytes → Bool
has_address a [] = false
has_address a (b ∷ bs) = bytes_eq b a || has_address a bs

-- The addresses of a network; it is an int, and no exchange has a negative one.
unfoldable pub network_addresses : ℤ → List Exchange → List Bytes
unfolding on_network
network_addresses (pos n) exchanges = on_network n exchanges
network_addresses (negsuc n) exchanges = []

-- The inner SELECT: maker and taker assets of the orders on the exchanges.
unfoldable pub traded : List Bytes → List DbOrder → List Pair
unfolding has_address
traded addresses [] = []
traded addresses (r ∷ rs) =
    let rest = traded addresses rs in
    if has_address r.order.exchange_address addresses
    then record { token_a = r.order.maker_asset_data; token_b = r.order.taker_asset_data } ∷ rest
    else rest

-- The outer SELECT, with its WHERE.
unfoldable pub ordered : (Pair → Bool) → List Pair → List Pair
unfolding least greatest
ordered test [] = []
ordered test (x ∷ xs) =
    let rest = ordered test xs in
    if test x
    then record { token_a = least x.token_a x.token_b; token_b = greatest x.token_a x.token_b }
      ∷ rest
    else rest

-- WHERE of GetTokenAPairs and of GetTokenABPairs; `x` has the maker's asset first.
abbrev pub has_token : Bytes → Pair → Bool
has_token a x = bytes_eq x.token_b a || bytes_eq x.token_a a

abbrev pub has_tokens : Bytes → Bytes → Pair → Bool
has_tokens a b x =
    (bytes_eq x.token_b a && bytes_eq x.token_a b) || (bytes_eq x.token_a a && bytes_eq x.token_b b)

module _ (exchanges : List Exchange) (rows : List DbOrder) where
  unfoldable pub pairs_where : (Pair → Bool) → ℤ → List Pair
  unfolding distinct traded ordered network_addresses
  pairs_where test network =
      distinct (ordered test (distinct (traded (network_addresses network exchanges) rows)))

  unfoldable pub get_token_ab_pairs : Bytes → Bytes → ℤ → List Pair × ℕ
  unfolding pairs_where
  get_token_ab_pairs a b network =
      (pairs_where (has_tokens a b) network, length (pairs_where (has_tokens a b) network))

  module _ (window : ℤ → ℤ → List Pair → List Pair) where
    unfoldable pub get_all_token_pairs : ℤ → ℤ → ℤ → List Pair × ℕ
    unfolding pairs_where
    get_all_token_pairs offset count network = (
      window offset count (pairs_where (λ x. true) network),
      length (pairs_where (λ x. true) network),
    )

    unfoldable pub get_token_a_pairs : Bytes → ℤ → ℤ → ℤ → List Pair × ℕ
    unfolding pairs_where
    get_token_a_pairs a offset count network = (
      window offset count (pairs_where (has_token a) network),
      length (pairs_where (has_token a) network),
    )
