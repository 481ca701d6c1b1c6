-- ===== src/Ingest/Accepted.antt =====
-- ingest/ingest.go: which orders the handler publishes.
use openrelay.Prelude.{
  ℕ, ◌≡◌, ◌≢◌, ◌≤◌, ◌<◌, ◌+◌, refl, sym, Bool, true, false, not, Option, none, some, big, ltb, ◌==◌,
  arith, All, List, [], ◌∷◌, ℤ, pos, pos_part, neg_part, ◌-ℤ◌, ◌≤ℤ◌, ltb_ℤ, Outcome, ok, err, panic,
  ok-injective,
}
use openrelay.Types.Order
use openrelay.Types.AssetData.{supported_type}
use openrelay.Types.Signature.{verify}
use openrelay.Ingest.{
  Handled, go, replied, panicked, ◌>>=◌, run_checks, Reply, invalid, fee_too_low, Relay, Pool,
  Request, discount, pool_fee, right_sender, read_body, order_checks, signed_terms, pool_open,
  party_checks, fee_covered, check_fee, accepted, handle,
}

pub go-injective {ℓ} : {A : Type ℓ} (a b : A) → go a ≡ go b → a ≡ b
go-injective a b e = cc

pub replied-go {ℓ} : {A : Type ℓ} (r : Reply) (a : A) → replied r ≢ go a
replied-go r a e = cc

pub panicked-go {ℓ} : {A : Type ℓ} (a : A) → panicked ≢ go a
panicked-go a e = cc

ge_of_not : (a b : ℕ) → not (ltb a b) ≡ true → b ≤ a
ge_of_not a b e = ground arith

positive_of_not' : (a : ℕ) → not (a == 0) ≡ true → 0 < a
positive_of_not' a e = ground arith

not_ltb_ℤ : (a b : ℤ) → not (ltb_ℤ a b) ≡ true → b ≤ℤ a
not_ltb_ℤ a b e = ge_of_not (pos_part a + neg_part b) (pos_part b + neg_part a) e

positive_of_not : (a : ℕ) → not (0 == a) ≡ true → 0 < a
positive_of_not a e = ground arith

-- A handler that goes on to the end went on after its first part.
pub bind-go {ℓ κ} :
    {A : Type ℓ} {B : Type κ} (m : Handled A) (f : A → Handled B) (b : B)
    → (m >>= f) ≡ go b
    → (a : A) × (m ≡ go a) × (f a ≡ go b)
bind-go (go a) f b e = (a, refl, e)
bind-go (replied r) f b e = absurd (replied-go r b e)
bind-go panicked f b e = absurd (panicked-go b e)

run_checks-go :
    (cs : List (Outcome Bool × Reply)) (b : Bool)
    → run_checks cs ≡ go b
    → All (λ c. c.0 ≡ ok true) cs
unfolding run_checks
run_checks-go [] b e = tt
run_checks-go ((ok true, r) ∷ rest) b e = (refl, run_checks-go rest b e)
run_checks-go ((ok false, r) ∷ rest) b e = absurd (replied-go r b e)
run_checks-go ((err s, r) ∷ rest) b e = absurd (panicked-go b e)
run_checks-go ((panic, r) ∷ rest) b e = absurd (panicked-go b e)

at_most : (a b : ℕ) → ok (not (ltb a b)) ≡ ok true → b ≤ a
at_most a b e = ge_of_not a b (ok-injective (not (ltb a b)) true e)

positive : (a : ℕ) → ok (not (0 == a)) ≡ ok true → 0 < a
positive a e = positive_of_not a (ok-injective (not (0 == a)) true e)

positive' : (a : ℕ) → ok (not (a == 0)) ≡ ok true → 0 < a
positive' a e = positive_of_not' a (ok-injective (not (a == 0)) true e)

module _ (s : Relay) where
  -- What an order has to be before it is published in a pool.
  pub record Acceptable (p : Pool) (o : Order.Order) : Type 0 where
    pub maker_asset : supported_type o.maker_asset_data ≡ ok true
    pub taker_asset : supported_type o.taker_asset_data ≡ ok true
    pub signed : verify s.crypto o.signature o.maker (Order.hash s.crypto.keccak256 o) ≡ ok true
    pub not_expired : s.now ≤ big o.expiration_timestamp_in_sec
    pub not_distant : big o.expiration_timestamp_in_sec ≤ s.now + 31536000000
    pub taker_amount : 0 < big o.taker_asset_amount
    pub maker_amount : 0 < big o.maker_asset_amount
    pub terms : signed_terms s o ≡ true
    pub exchange : 0 < s.exchange_is_known o.exchange_address
    pub sender : right_sender p (s.exchange_is_known o.exchange_address) o.sender_address ≡ ok true
    pub pool_expiration : pool_open s p ≡ true
    pub affiliate : s.get_affiliate o.fee_recipient ≡ true
    pub fee : ℤ
    pub fee_known : pool_fee p ≡ some fee
    pub fee_paid :
        fee -ℤ discount s.now (s.get_account o.maker) ≤ℤ pos (big o.maker_fee + big o.taker_fee)

  covered :
      (o : Order.Order) (fee : ℤ)
      → fee_covered s o fee ≡ true
      → fee -ℤ discount s.now (s.get_account o.maker) ≤ℤ pos (big o.maker_fee + big o.taker_fee)
  unfolding fee_covered
  covered o fee e =
      not_ltb_ℤ (pos (big o.maker_fee + big o.taker_fee))
        (fee -ℤ discount s.now (s.get_account o.maker)) e

  check_fee-go :
      (o : Order.Order) (f : Option ℤ) (b : Bool)
      → check_fee s o f ≡ go b
      → (fee : ℤ) × (f ≡ some fee)
        × (fee -ℤ discount s.now (s.get_account o.maker) ≤ℤ pos (big o.maker_fee + big o.taker_fee))
  unfolding check_fee
  check_fee-go o none b e = absurd (replied-go (invalid "pool" 1002 500) b e)
  check_fee-go o (some fee) b e =
      let paid = run_checks-go ((ok (fee_covered s o fee), fee_too_low) ∷ []) b e in
      (fee, refl, covered o fee (ok-injective (fee_covered s o fee) true paid.0))

  after_parties : Pool → Order.Order → Handled (Option Order.Order)
  after_parties p o = check_fee s o (pool_fee p) >>= (λ c. go (accepted s p o))

  after_order : Pool → Order.Order → Handled (Option Order.Order)
  unfolding after_parties
  after_order p o = run_checks (party_checks s p o) >>= (λ b. after_parties p o)

  after_read : Pool → Order.Order → Handled (Option Order.Order)
  unfolding after_order
  after_read p o = run_checks (order_checks s o) >>= (λ a. after_order p o)

  -- The handler goes on to answer 202 only for an order that it has read from the request and that is
  -- acceptable in the pool; it publishes that order with the pool's id unless its maker is blacklisted,
  -- and then nothing.
  pub handle-Acceptable :
      (p : Pool) (r : Request) (published : Option Order.Order)
      → handle s p r ≡ go published
      → (o : Order.Order) × (read_body s r.content_type r.body ≡ go o)
        × Acceptable p o
        × (published ≡ accepted s p o)
  unfolding handle after_read after_order after_parties
  handle-Acceptable p r published e =
      let (o, read, e1) = bind-go (read_body s r.content_type r.body) (after_read p) published e in
      let (a, orders, e2) =
        bind-go (run_checks (order_checks s o)) (λ a. after_order p o) published e1 in
      let (b, parties, e3) =
        bind-go (run_checks (party_checks s p o)) (λ b. after_parties p o) published e2 in
      let (c, fees, e4) =
        bind-go (check_fee s o (pool_fee p)) (λ c. go (accepted s p o)) published e3 in
      let x = run_checks-go (order_checks s o) a orders in
      let y = run_checks-go (party_checks s p o) b parties in
      let z = check_fee-go o (pool_fee p) c fees in
      (
        o,
        read,
        record {
          maker_asset = x.0;
          taker_asset = x.1.0;
          signed = x.1.1.1.0;
          not_expired = at_most (big o.expiration_timestamp_in_sec) s.now x.1.1.1.1.0;
          not_distant =
              at_most (s.now + 31536000000) (big o.expiration_timestamp_in_sec) x.1.1.1.1.1.0;
          taker_amount = positive (big o.taker_asset_amount) x.1.1.1.1.1.1.0;
          maker_amount = positive (big o.maker_asset_amount) x.1.1.1.1.1.1.1.0;
          terms = ok-injective (signed_terms s o) true y.0;
          exchange = positive' (s.exchange_is_known o.exchange_address) y.1.0;
          sender = y.1.1.0;
          pool_expiration = ok-injective (pool_open s p) true y.1.1.1.0;
          affiliate = ok-injective (s.get_affiliate o.fee_recipient) true y.1.1.1.1.0;
          fee = z.0;
          fee_known = z.1;
          fee_paid = z.2;
        },
        sym (go-injective (accepted s p o) published e4),
      )
