-- ===== src/Terms/Handlers/Accepted.antt =====
-- terms/terms.go: which signatures TermsHandler accepts.
use openrelay.Prelude.{
  ℕ, ◌≤◌, ◌≢◌, ltb, ◌≡◌, refl, List, Option, none, some, Bytes, codes, bytes_eq, if◌then◌else◌,
  true, false, ℤ, ltb_ℤ, ◌≤ℤ◌, ◌+ℤ◌, Bool, Outcome, ok, err, panic, or_err, bind-ok, err-ok, arith,
}
use openrelay.Types.Text.{Str, trim_prefix, hex_decode, hex_prefix}
use openrelay.Types.Signature.{Crypto}
use openrelay.Search.Pages.{atoi}
use openrelay.Terms.{Terms, TermsSig}
use openrelay.Terms.Signing.{Signed, save_sig-Signed, or_err-ok}
use openrelay.Terms.Handlers.{
  HashMask, get_hash_mask_by_id, TermsSigPayload, Body, unreadable, malformed, null, payload,
  Request, Reply, accepted, refused, nanoseconds, five_minutes, check_time, ip_address, accept,
  settle, post_handler, get_handler, served, right_aligned, found, unchanged, terms_handler,
}

-- A test that is not to hold, in front of a call.
guarded {ℓ} :
    {A : Type ℓ} (b : Bool) (e : _) (m : Outcome A) (a : A)
    → (if b then err e else m) ≡ ok a
    → (b ≡ false) × (m ≡ ok a)
guarded true e m a q = absurd (err-ok e a q)
guarded false e m a q = (refl, q)

not_less : (a b : ℕ) → ltb a b ≡ false → b ≤ a
not_less a b e = ground arith

check_time-ok :
    (now s s' : ℤ)
    → check_time now s ≡ ok s'
    → (nanoseconds s ≤ℤ now) × (now ≤ℤ nanoseconds s +ℤ five_minutes)
unfolding check_time
check_time-ok now s s' e =
    let stale : Outcome ℤ =
      if ltb_ℤ (nanoseconds s +ℤ five_minutes) now then err "Timestamp stale" else ok s in
    let (past, e1) = guarded (ltb_ℤ now (nanoseconds s)) "Timestamp in the future" stale s' e in
    let (fresh, _) =
      guarded (ltb_ℤ (nanoseconds s +ℤ five_minutes) now) "Timestamp stale" (ok s) s' e1 in
    (not_less _ _ past, not_less _ _ fresh)

settle-ok :
    (sigs after : List TermsSig) (m : Outcome (List TermsSig))
    → settle sigs m ≡ ok (accepted, after)
    → m ≡ ok after
settle-ok sigs after (ok x) e = cc
settle-ok sigs after (err x) e = cc
settle-ok sigs after panic e = cc

unchanged-ok :
    (sigs after : List TermsSig) (m : Outcome Reply) (x : Reply)
    → unchanged sigs m ≡ ok (x, after)
    → m ≡ ok x
unchanged-ok sigs after (ok y) x e = cc
unchanged-ok sigs after (err y) x e = cc
unchanged-ok sigs after panic x e = cc

served-refuses : (t : Terms) (o : Option (Bytes × ℕ)) → served t o ≢ ok accepted
unfolding served
served-refuses t none e = cc
served-refuses t (some (mask, id)) e =
    let (m, (_, e1)) = bind-ok (right_aligned mask) _ accepted e in cc

found-refuses :
    (new_hash_mask : Terms → Option (Bytes × ℕ)) (o : Option Terms)
    → found new_hash_mask o ≢ ok accepted
unfolding found
found-refuses f none e = cc
found-refuses f (some t) e = served-refuses t (f t) e

module _ (c : Crypto) (now : ℤ) (table : List Terms) (masks : List HashMask) where
  -- A signature that is accepted: with a mask of the table, a time in the last five minutes, a nonce in
  -- hex, and saved as Signing.Signed has it.
  pub record Accepted (p : TermsSigPayload) (ip : Str) (sigs after : List TermsSig) : Type 0 where
    pub mask : Bytes
    pub known : get_hash_mask_by_id p.mask_id masks ≡ some mask
    pub seconds : ℤ
    pub parsed : atoi p.timestamp ≡ some seconds
    pub recent : (nanoseconds seconds ≤ℤ now) × (now ≤ℤ nanoseconds seconds +ℤ five_minutes)
    pub nonce : Bytes
    pub decoded : hex_decode (trim_prefix p.nonce hex_prefix) ≡ some nonce
    pub signed : Signed c table p.signature p.address p.timestamp ip nonce mask sigs after

  accept-Accepted :
      (p : TermsSigPayload) (ip : Str) (sigs after : List TermsSig)
      → accept c now table masks p ip sigs ≡ ok after
      → Accepted p ip sigs after
  unfolding accept
  accept-Accepted p ip sigs after e =
      let (mask, (known, e1)) =
        bind-ok (or_err "Invalid HashMask ID" (get_hash_mask_by_id p.mask_id masks)) _ after e in
      let (s, (parsed, e2)) = bind-ok (or_err "Invalid Timestamp" (atoi p.timestamp)) _ after e1 in
      let (s', (timely, e3)) = bind-ok (check_time now s) _ after e2 in
      let (nonce, (decoded, e4)) =
        bind-ok (or_err "Malformed Nonce" (hex_decode (trim_prefix p.nonce hex_prefix))) _ after
          e3 in
      record {
        mask = mask;
        known = or_err-ok "Invalid HashMask ID" _ mask known;
        seconds = s;
        parsed = or_err-ok "Invalid Timestamp" _ s parsed;
        recent = check_time-ok now s s' timely;
        nonce = nonce;
        decoded = or_err-ok "Malformed Nonce" _ nonce decoded;
        signed =
            save_sig-Signed c p.terms_id table p.signature p.address p.timestamp ip nonce mask sigs
              after e4;
      }

  post_handler-ok :
      (b : Body) (ip : Str) (sigs after : List TermsSig)
      → post_handler c now table masks b ip sigs ≡ ok (accepted, after)
      → (p : TermsSigPayload) × ((b ≡ payload p) × Accepted p ip sigs after)
  unfolding post_handler
  post_handler-ok unreadable ip sigs after e = cc
  post_handler-ok malformed ip sigs after e = cc
  post_handler-ok null ip sigs after e = cc
  post_handler-ok (payload p) ip sigs after e = (
    p,
    (
      refl,
      accept-Accepted p ip sigs after (settle-ok sigs after (accept c now table masks p ip sigs) e),
    ),
  )

  -- A request that TermsHandler answers with 202 has a decoded body, and its signature was accepted:
  -- the mask is one of the table, the time is in the last five minutes, the nonce is hex, and the
  -- signature is appended to those saved, being the signer's of the first terms in the table, with a
  -- hash that has every bit of the mask.
  pub terms_handler-Accepted :
      (new_hash_mask : Terms → Option (Bytes × ℕ)) (r : Request) (sigs after : List TermsSig)
      → terms_handler c now table masks new_hash_mask r sigs ≡ ok (accepted, after)
      → (p : TermsSigPayload) × ((r.body ≡ payload p) × Accepted p (ip_address r) sigs after)
  unfolding terms_handler get_handler
  terms_handler-Accepted f r sigs after e =
      by_method (bytes_eq r.method (codes "GET")) (bytes_eq r.method (codes "POST")) e
    where
      by_method :
          (get post : Bool)
          → (if get
              then unchanged sigs (get_handler f table r.lang)
              else if post
              then post_handler c now table masks r.body (ip_address r) sigs
              else ok (refused 405, sigs))
            ≡ ok (accepted, after)
          → (p : TermsSigPayload) × ((r.body ≡ payload p) × Accepted p (ip_address r) sigs after)
      by_method true post e' =
          absurd
            (found-refuses f _ (unchanged-ok sigs after (get_handler f table r.lang) accepted e'))
      by_method false true e' = post_handler-ok r.body (ip_address r) sigs after e'
      by_method false false e' = cc
