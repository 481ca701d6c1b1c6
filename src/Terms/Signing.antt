-- ===== src/Terms/Signing.antt =====
-- db/terms.go: which signatures are saved.
use openrelay.Prelude.{
  ℕ, ◌≡◌, refl, sym, ap, ◌∙◌, Bool, true, false, not, List, [], ◌∷◌, ◌++◌, Option, none, some,
  Bytes, if◌then◌else◌, Outcome, ok, err, or_err, ◌>>=◌, bind-ok, ok-injective, err-ok, big,
}
use openrelay.Types.Text.{Str}
use openrelay.Types.Signature.{Crypto, verify}
use openrelay.Terms.{
  Terms, TermsSig, check_mask, signed_message, first, check_sig, new_sig, save_sig,
}
use openrelay.Terms.Mask.{bit, check_mask_iff}

pub or_err-ok {ℓ} : {A : Type ℓ} (e : _) (o : Option A) (a : A) → or_err e o ≡ ok a → o ≡ some a
or_err-ok e none a q = absurd (err-ok e a q)
or_err-ok e (some x) a q = ap some (ok-injective x a q)

module _ (c : Crypto) where
  -- A signature that is saved: of the first terms of the table, by the signer, with a nonce whose hash
  -- has every bit of the mask.
  pub record Signed (table : List Terms) (sig address : Bytes) (timestamp ip : Str)
      (nonce mask : Bytes) (sigs after : List TermsSig) : Type 0 where
    pub terms : Terms
    pub of_table : first table ≡ some terms
    pub masked :
        (i : ℕ)
        → bit (big mask) i ≡ 1
        → bit (big (c.keccak256 (signed_message terms timestamp nonce))) i ≡ 1
    pub verified : verify c sig address (signed_message terms timestamp nonce) ≡ ok true
    pub appended : after ≡ sigs ++ (new_sig c terms sig address timestamp ip nonce ∷ [])

  check_sig-true :
      (t : Terms) (sig address : Bytes) (timestamp : Str) (nonce mask : Bytes) (b : Bool)
      → check_sig c t sig address timestamp nonce mask ≡ ok b
      → (check_mask mask (c.keccak256 (signed_message t timestamp nonce)) ≡ true)
        × (verify c sig address (signed_message t timestamp nonce) ≡ ok b)
  unfolding check_sig
  check_sig-true t sig address timestamp nonce mask b e =
      split (check_mask mask (c.keccak256 (signed_message t timestamp nonce))) refl e
    where
      split :
          (m : Bool)
          → check_mask mask (c.keccak256 (signed_message t timestamp nonce)) ≡ m
          → (if not m
              then err "Hash must match mask"
              else verify c sig address (signed_message t timestamp nonce))
            ≡ ok b
          → (check_mask mask (c.keccak256 (signed_message t timestamp nonce)) ≡ true)
            × (verify c sig address (signed_message t timestamp nonce) ≡ ok b)
      split true q e' = (q, e')
      split false q e' = absurd (err-ok "Hash must match mask" b e')

  saved :
      (t : Terms) (sig address : Bytes) (timestamp ip : Str) (nonce : Bytes)
      (sigs after : List TermsSig) (good : Bool)
      → (if good
          then ok (sigs ++ (new_sig c t sig address timestamp ip nonce ∷ []))
          else err "Signature invalid")
        ≡ ok after
      → (good ≡ true) × (after ≡ sigs ++ (new_sig c t sig address timestamp ip nonce ∷ []))
  saved t sig address timestamp ip nonce sigs after true e =
      (refl, sym (ok-injective (sigs ++ (new_sig c t sig address timestamp ip nonce ∷ [])) after e))
  saved t sig address timestamp ip nonce sigs after false e =
      absurd (err-ok "Signature invalid" after e)

  -- SaveSig appends a signature only if it is the signer's, of the first terms in the table with the
  -- time and the nonce, and the hash of that message has every bit that the mask has.
  pub save_sig-Signed :
      (id : ℕ) (table : List Terms) (sig address : Bytes) (timestamp ip : Str) (nonce mask : Bytes)
      (sigs after : List TermsSig)
      → save_sig c id table sig address timestamp ip nonce mask sigs ≡ ok after
      → Signed table sig address timestamp ip nonce mask sigs after
  unfolding save_sig
  save_sig-Signed id table sig address timestamp ip nonce mask sigs after e =
      let (t, (known, e1)) =
        bind-ok (or_err "record not found" (first table)) (λ t. after_terms t) after e in
      let (good, (checked, e2)) =
        bind-ok (check_sig c t sig address timestamp nonce mask) (λ good. after_check t good) after
          e1 in
      let (is_good, appended) = saved t sig address timestamp ip nonce sigs after good e2 in
      let (m, v) = check_sig-true t sig address timestamp nonce mask good checked in
      record {
        terms = t;
        of_table = or_err-ok "record not found" (first table) t known;
        masked = (check_mask_iff mask (c.keccak256 (signed_message t timestamp nonce))).0 m;
        verified = v ∙ ap ok is_good;
        appended = appended;
      }
    where
      after_check : Terms → Bool → Outcome (List TermsSig)
      after_check t good =
          if good
          then ok (sigs ++ (new_sig c t sig address timestamp ip nonce ∷ []))
          else err "Signature invalid"

      after_terms : Terms → Outcome (List TermsSig)
      after_terms t =
          check_sig c t sig address timestamp nonce mask >>= (λ good. after_check t good)
