-- ===== src/Ingest/FeeInfo/Quoted.antt =====
-- ingest/fee_info.go with ingest/ingest.go: an order that carries the quoted fee is not refused for it.
use openrelay.Prelude.{
  ℕ, ◌+◌, ◌≡◌, ◌≤◌, refl, sym, ap, ◌∙◌, true, false, not, Option, none, some, Bytes, ℤ, pos, negsuc,
  big, ltb_ℤ, copy, zeros, arith, ok, ◌-ℤ◌,
}
use openrelay.Types.Order
use openrelay.Types.Text.{Str, hex_string_to_bytes, dec_string, int_string, set_string}
use openrelay.Types.Text.RoundTrip.{set_string-dec_string}
use openrelay.Ingest.{go, Pool, Relay, pool_fee, discount, fee_covered, check_fee, run_checks}
use openrelay.Ingest.Accepted.{bind-go, go-injective}
use openrelay.Ingest.FeeInfo.{
  payload, FeeInputPayload, FeeResponse, reported, known_affiliate, known_fee, min_fee, quote,
  fee_handler, recipient_of,
}

known_fee-some : (o : Option ℤ) (fee : ℤ) → known_fee o ≡ go fee → o ≡ some fee
known_fee-some none fee e = absurd (cc)
known_fee-some (some f) fee e = ap some (go-injective f fee e)

dec_string-injective : (a b : ℕ) → dec_string a ≡ dec_string b → a ≡ b
dec_string-injective a b e =
    some_pos a b (sym (set_string-dec_string a) ∙ ap set_string e ∙ set_string-dec_string b)
  where
    some_pos : (x y : ℕ) → some (pos x) ≡ some (pos y) → x ≡ y
    some_pos x y p = cc

-- A sum that is at least the number that is printed is not below the integer.
not_below : (z : ℤ) (n m : ℕ) → int_string z ≡ dec_string n → n ≤ m → ltb_ℤ (pos m) z ≡ false
unfolding int_string
not_below (pos k) n m e h = ground (arith, dec_string-injective k n e)
not_below (negsuc k) n m e h = ground arith

module _ (s : Relay) (default_fee_recipient : Bytes) (partial : Str → Bytes) where
  covered :
      (o : Order.Order) (fee : ℤ) (n : ℕ)
      → int_string (min_fee s default_fee_recipient partial o.maker fee) ≡ dec_string n
      → n ≤ big o.maker_fee + big o.taker_fee
      → fee_covered s o fee ≡ true
  unfolding fee_covered min_fee
  covered o fee n e h = ap not (
      not_below (fee -ℤ discount s.now (s.get_account o.maker)) n
        (big o.maker_fee + big o.taker_fee) e h)

  checked :
      (o : Order.Order) (fee : ℤ) → fee_covered s o fee ≡ true → check_fee s o (some fee) ≡ go true
  unfolding check_fee run_checks
  checked o fee e = rw e refl

  -- If FeeHandler answers a request that names a maker, then every order of that maker whose two fees
  -- together are at least the number that is quoted passes ingest's check of the fee, in the same pool
  -- and with the same accounts and time.
  pub fee_handler-check_fee :
      (p : Pool) (i : FeeInputPayload) (maker : Bytes) (r : FeeResponse) (o : Order.Order) (n : ℕ)
      → fee_handler s default_fee_recipient partial p (payload i) ≡ go r
      → hex_string_to_bytes i.maker ≡ ok maker
      → r.maker_fee ≡ dec_string n
      → o.maker ≡ copy (zeros 20) maker
      → n ≤ big o.maker_fee + big o.taker_fee
      → check_fee s o (pool_fee p) ≡ go true
  unfolding fee_handler
  fee_handler-check_fee p i maker r o n e decoded quoted same enough =
      let a =
        bind-go (reported i.maker "maker" (partial i.maker) (hex_string_to_bytes i.maker)) _ r e in
      let b =
        bind-go
          (reported i.fee_recipient "feeRecipient" (partial i.fee_recipient)
            (hex_string_to_bytes i.fee_recipient))
          _ r a.2 in
      let c =
        bind-go
          (reported i.fee_recipient "exchangeAddress" (partial i.exchange)
            (hex_string_to_bytes i.exchange))
          _ r b.2 in
      let k =
        bind-go
          (known_affiliate
            (s.get_affiliate (recipient_of s default_fee_recipient partial i.fee_recipient b.0)))
          _ r c.2 in
      let d = bind-go (known_fee (pool_fee p)) _ r k.2 in
      let fee = known_fee-some (pool_fee p) d.0 d.1 in
      let the_maker : a.0 ≡ maker =
        go-injective a.0 maker
          (sym a.1 ∙ ap (reported i.maker "maker" (partial i.maker)) decoded) in
      ap (check_fee s o) fee
      ∙ checked o d.0 (
          covered o d.0 n
            (ap (λ (m : Bytes). int_string (min_fee s default_fee_recipient partial m d.0))
                (same ∙ ap (λ (m : Bytes). copy (zeros 20) m) (sym the_maker))
              ∙ ap (λ (x : FeeResponse). x.maker_fee)
                  (go-injective
                    (quote s default_fee_recipient partial p i a.0 c.0
                      (recipient_of s default_fee_recipient partial i.fee_recipient b.0) d.0)
                    r d.2)
              ∙ quoted)
            enough)
