-- ===== src/Types/Signature/Laws.antt =====
-- types/signature.go: Verify never panics, and accepts exactly the two signed forms.
use openrelay.Prelude.{
  ℕ, ◌-◌, ◌≤◌, ◌≡◌, refl, ◌⊎◌, ◌↔◌, Bool, true, some, [], ◌∷◌, ◌++◌, Bytes, arith, length, take,
  drop, get_or, ok, panic, bytes_eq_iff, Bool-cases, Option-cases, inl, inr, if◌then◌else◌,
  get_elem?-eq-get_or, ◌||◌, ◌==◌, ◌&&◌,
}
use openrelay.Types.Signature.{
  Crypto, sig_type, supported, recovers, eth_sign_digest, verify, verify_by_type,
}

-- Supported panics on the empty signature, and else says whether the last byte is 2 or 3.
pub supported_lem :
    (sig : Bytes)
    → supported sig ≡ (
        if length sig == 0
        then panic
        else ok (get_or sig (length sig - 1) 0 == 2 || get_or sig (length sig - 1) 0 == 3))
unfolding supported sig_type
supported_lem sig = ground (arith, get_elem?-eq-get_or sig (length sig - 1) 0)

module _ (c : Crypto) where
  -- What a good signature is: 66 bytes, v of 27 or more, and a key recovered from the digest that
  -- belongs to the address.
  pub record SignedBy (sig addr digest : Bytes) : Type 0 where
    pub size : length sig ≡ 66
    pub recovery : 27 ≤ get_or sig 0 0
    pub key : Bytes
    pub recovered :
        c.ecrecover digest
          (take 32 (drop 1 sig) ++ (take 32 (drop 33 sig) ++ ((get_or sig 0 0 - 27) ∷ [])))
        ≡ some key
    pub owner : addr ≡ c.bytes_to_address (drop 12 (c.keccak256 (drop 1 key)))

  rsv : Bytes → Bytes
  rsv sig = take 32 (drop 1 sig) ++ (take 32 (drop 33 sig) ++ ((get_or sig 0 0 - 27) ∷ []))

  owner_of : Bytes → Bytes
  owner_of key = c.bytes_to_address (drop 12 (c.keccak256 (drop 1 key)))

  recovers-SignedBy :
      (sig addr digest : Bytes) → recovers c sig addr digest ≡ true → SignedBy sig addr digest
  unfolding recovers rsv owner_of
  recovers-SignedBy sig addr digest h = elim (Option-cases (c.ecrecover digest (rsv sig))) [
    | inl e ↦ absurd (ground arith)
    | inr (k, e) ↦ record {
      size = ground arith;
      recovery = ground arith;
      key = k;
      recovered = e;
      owner = (bytes_eq_iff addr (owner_of k)).0 (ground arith);
    }
  ]

  SignedBy-recovers :
      (sig addr digest : Bytes) → SignedBy sig addr digest → recovers c sig addr digest ≡ true
  unfolding recovers owner_of
  SignedBy-recovers sig addr digest s =
      ground (arith, s.recovered, (bytes_eq_iff addr (owner_of s.key)).1 s.owner)

  last : Bytes → ℕ
  last sig = get_or sig (length sig - 1) 0

  -- What Verify returns, on every signature.
  accepts : Bytes → Bytes → Bytes → Bool
  accepts sig addr hash =
      (last sig == 2 && recovers c sig addr hash)
      || (last sig == 3 && recovers c sig addr (eth_sign_digest c hash))

  verify_by_type_lem :
      (t : ℕ) (sig addr hash : Bytes)
      → verify_by_type c t sig addr hash
        ≡ (t == 2 && recovers c sig addr hash)
          || (t == 3 && recovers c sig addr (eth_sign_digest c hash))
  unfolding verify_by_type
  verify_by_type_lem t sig addr hash = ground arith

  verify-accepts : (sig addr hash : Bytes) → verify c sig addr hash ≡ ok (accepts sig addr hash)
  unfolding verify accepts last
  verify-accepts [] addr hash = refl
  verify-accepts (x ∷ xs) addr hash =
      let s : Bytes = x ∷ xs in
      rw (get_elem?-eq-get_or s (length s - 1) 0 (omega arith))
        (ground (arith, verify_by_type_lem (get_or s (length s - 1) 0) s addr hash))

  -- Verify returns on every signature. It accepts exactly if the last byte is 2 and the order hash is
  -- signed by the address, or the last byte is 3 and the eth_sign digest of the hash is.
  pub verify_iff :
      (sig addr hash : Bytes)
      → (b : Bool) × (verify c sig addr hash ≡ ok b)
        × ((b ≡ true) ↔ (
            ((get_or sig (length sig - 1) 0 ≡ 2) × SignedBy sig addr hash)
            ⊎ ((get_or sig (length sig - 1) 0 ≡ 3) × SignedBy sig addr (eth_sign_digest c hash))))
  unfolding accepts last
  verify_iff sig addr hash = (
    accepts sig addr hash,
    verify-accepts sig addr hash,
    (
      λ h. accepts_split h,
      λ h. elim h [
        | inl (e, s) ↦ ground (arith, SignedBy-recovers sig addr hash s)
        | inr (e, s) ↦ ground (arith, SignedBy-recovers sig addr (eth_sign_digest c hash) s)
      ],
    ),
  )
    where
      accepts_split :
          accepts sig addr hash ≡ true
          → (((get_or sig (length sig - 1) 0 ≡ 2) × SignedBy sig addr hash)
              ⊎ ((get_or sig (length sig - 1) 0 ≡ 3) × SignedBy sig addr (eth_sign_digest c hash)))
      accepts_split h = elim (Bool-cases (get_or sig (length sig - 1) 0 == 2)) [
        | inl e ↦ inl (ground arith, recovers-SignedBy sig addr hash (ground arith))
        | inr e ↦
            inr (ground arith, recovers-SignedBy sig addr (eth_sign_digest c hash) (ground arith))
      ]
