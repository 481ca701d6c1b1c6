-- ===== src/Types/Order/Binding.antt =====
-- types/order.go: the hash determines the signed fields.
use openrelay.Prelude.{
  ◌≡◌, ◌≢◌, ◌⊎◌, inl, inr, refl, sym, ap, ◌∙◌, List, [], ◌∷◌, ◌++◌, Bytes, arith, length, take,
  drop, take_all, drop_all, bytes_eq, bytes_eq_iff, Bool-cases, writes,
}
use openrelay.Types.Order.{
  Order, hash, domain_bytes, order_bytes, hash_parts, domain_parts, order_parts,
}

-- The arrays of an order have their Go sizes.
pub record Sized (o : Order) : Type 0 where
  pub exchange_address : length o.exchange_address ≡ 20
  pub maker : length o.maker ≡ 20
  pub taker : length o.taker ≡ 20
  pub fee_recipient : length o.fee_recipient ≡ 20
  pub sender_address : length o.sender_address ≡ 20
  pub maker_asset_amount : length o.maker_asset_amount ≡ 32
  pub taker_asset_amount : length o.taker_asset_amount ≡ 32
  pub maker_fee : length o.maker_fee ≡ 32
  pub taker_fee : length o.taker_fee ≡ 32
  pub expiration_timestamp_in_sec : length o.expiration_timestamp_in_sec ≡ 32
  pub salt : length o.salt ≡ 32

-- Two orders ask for the same trade on the same exchange.
pub record SameTrade (o p : Order) : Type 0 where
  pub exchange_address : o.exchange_address ≡ p.exchange_address
  pub maker : o.maker ≡ p.maker
  pub taker : o.taker ≡ p.taker
  pub fee_recipient : o.fee_recipient ≡ p.fee_recipient
  pub sender_address : o.sender_address ≡ p.sender_address
  pub maker_asset_amount : o.maker_asset_amount ≡ p.maker_asset_amount
  pub taker_asset_amount : o.taker_asset_amount ≡ p.taker_asset_amount
  pub maker_fee : o.maker_fee ≡ p.maker_fee
  pub taker_fee : o.taker_fee ≡ p.taker_fee
  pub expiration_timestamp_in_sec : o.expiration_timestamp_in_sec ≡ p.expiration_timestamp_in_sec
  pub salt : o.salt ≡ p.salt
  pub maker_asset_data : o.maker_asset_data ≡ p.maker_asset_data
  pub taker_asset_data : o.taker_asset_data ≡ p.taker_asset_data

-- Byte strings that begin with parts of one length are equal only if the parts are.
split : (x y xs ys : Bytes) → length x ≡ length y → x ++ xs ≡ y ++ ys → (x ≡ y) × (xs ≡ ys)
split x y xs ys l e = (
  sym (take_all (length x) x xs refl) ∙ (ap (take (length x)) e ∙ take_all (length x) y ys (sym l)),
  sym (drop_all (length x) x xs refl) ∙ (ap (drop (length x)) e ∙ drop_all (length x) y ys (sym l)),
)

-- Two rows of parts of the same sizes, and two equal rows.
abbrev SameSizes : List Bytes → List Bytes → Type 0
SameSizes [] [] = Unit {0}
SameSizes [] (y ∷ ys) = ⊥
SameSizes (x ∷ xs) [] = ⊥
SameSizes (x ∷ xs) (y ∷ ys) = (length x ≡ length y) × SameSizes xs ys

abbrev SameParts : List Bytes → List Bytes → Type 0
SameParts [] [] = Unit {0}
SameParts [] (y ∷ ys) = ⊥
SameParts (x ∷ xs) [] = ⊥
SameParts (x ∷ xs) (y ∷ ys) = (x ≡ y) × SameParts xs ys

writes-injective : (xs ys : List Bytes) → SameSizes xs ys → writes xs ≡ writes ys → SameParts xs ys
writes-injective [] [] s e = tt
writes-injective [] (y ∷ ys) s e = s
writes-injective (x ∷ xs) [] s e = s
writes-injective (x ∷ xs) (y ∷ ys) s e =
    let q = split x y (writes xs) (writes ys) s.0 e in (q.0, writes-injective xs ys s.1 q.1)

module _ (keccak256 : Bytes → Bytes) where
  -- Two inputs of Keccak256 with one digest.
  abbrev pub Collides : Bytes → Bytes → Type 0
  Collides x y = (x ≢ y) × (keccak256 x ≡ keccak256 y)

  -- The inputs that the hashes of two orders give to Keccak256 hold two with one digest.
  pub data Collision (o p : Order) : Type 0 where
    in_digest :
        Collides (writes (hash_parts keccak256 o)) (writes (hash_parts keccak256 p)) → Collision o p
    in_domain : Collides (domain_bytes keccak256 o) (domain_bytes keccak256 p) → Collision o p
    in_order : Collides (order_bytes keccak256 o) (order_bytes keccak256 p) → Collision o p
    in_maker_asset : Collides o.maker_asset_data p.maker_asset_data → Collision o p
    in_taker_asset : Collides o.taker_asset_data p.taker_asset_data → Collision o p

  same_or_collision : (x y : Bytes) → keccak256 x ≡ keccak256 y → (x ≡ y) ⊎ Collides x y
  same_or_collision x y e = elim (Bool-cases (bytes_eq x y)) [
    | inl t ↦ inl ((bytes_eq_iff x y).0 t)
    | inr f ↦ inr ((λ q. ground (arith, (bytes_eq_iff x y).1 q)), e)
  ]

  module _ (size : (x : Bytes) → length (keccak256 x) ≡ 32) where
    same_size : (x y : Bytes) → length (keccak256 x) ≡ length (keccak256 y)
    same_size x y = size x ∙ sym (size y)

    parts_of_hash :
        (o p : Order)
        → hash keccak256 o ≡ hash keccak256 p
        → ((domain_bytes keccak256 o ≡ domain_bytes keccak256 p)
            × (order_bytes keccak256 o ≡ order_bytes keccak256 p))
          ⊎ Collision o p
    unfolding hash
    parts_of_hash o p e = elim (same_or_collision _ _ e) [
      | inr c ↦ inr (in_digest c)
      | inl outer ↦
          let q =
            writes-injective (hash_parts keccak256 o) (hash_parts keccak256 p) (omega (arith, size))
              outer in
          elim (same_or_collision _ _ q.1.0) [
            | inr c ↦ inr (in_domain c)
            | inl d ↦ elim (same_or_collision _ _ q.1.1.0) [
              | inr c ↦ inr (in_order c)
              | inl b ↦ inl (d, b)
            ]
          ]
    ]

    exchange_of_domain :
        (o p : Order)
        → Sized o
        → Sized p
        → domain_bytes keccak256 o ≡ domain_bytes keccak256 p
        → o.exchange_address ≡ p.exchange_address
    unfolding domain_bytes
    exchange_of_domain o p so sp e =
        (writes-injective (domain_parts keccak256 o) (domain_parts keccak256 p)
          (omega (arith, size)) e).1.1.1.1.0

    trade_of_order_bytes :
        (o p : Order)
        → Sized o
        → Sized p
        → o.exchange_address ≡ p.exchange_address
        → order_bytes keccak256 o ≡ order_bytes keccak256 p
        → SameTrade o p ⊎ Collision o p
    unfolding order_bytes
    trade_of_order_bytes o p so sp x e =
        let q =
          writes-injective (order_parts keccak256 o) (order_parts keccak256 p) (omega (arith, size))
            e in
        let m =
          same_or_collision o.maker_asset_data p.maker_asset_data
            q.1.1.1.1.1.1.1.1.1.1.1.1.1.1.1.0 in
        let t =
          same_or_collision o.taker_asset_data p.taker_asset_data
            q.1.1.1.1.1.1.1.1.1.1.1.1.1.1.1.1.0 in
        elim m [
          | inr c ↦ inr (in_maker_asset c)
          | inl em ↦ elim t [
            | inr c ↦ inr (in_taker_asset c)
            | inl et ↦ inl (record {
              exchange_address = x;
              maker = q.1.1.0;
              taker = q.1.1.1.1.0;
              fee_recipient = q.1.1.1.1.1.1.0;
              sender_address = q.1.1.1.1.1.1.1.1.0;
              maker_asset_amount = q.1.1.1.1.1.1.1.1.1.0;
              taker_asset_amount = q.1.1.1.1.1.1.1.1.1.1.0;
              maker_fee = q.1.1.1.1.1.1.1.1.1.1.1.0;
              taker_fee = q.1.1.1.1.1.1.1.1.1.1.1.1.0;
              expiration_timestamp_in_sec = q.1.1.1.1.1.1.1.1.1.1.1.1.1.0;
              salt = q.1.1.1.1.1.1.1.1.1.1.1.1.1.1.0;
              maker_asset_data = em;
              taker_asset_data = et;
            })
          ]
        ]

    -- Orders with one hash are the same trade on the same exchange, or two of the inputs that
    -- their hashes give to Keccak256 collide. Keccak256 is taken to return 32 bytes.
    pub hash_binds :
        (o p : Order)
        → Sized o
        → Sized p
        → hash keccak256 o ≡ hash keccak256 p
        → SameTrade o p ⊎ Collision o p
    hash_binds o p so sp e = elim (parts_of_hash o p e) [
      | inr c ↦ inr c
      | inl (d, b) ↦ trade_of_order_bytes o p so sp (exchange_of_domain o p so sp d) b
    ]
