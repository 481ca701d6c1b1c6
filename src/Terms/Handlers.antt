-- ===== src/Terms/Handlers.antt =====
-- terms/terms.go: TermsHandler, which serves the terms and takes their signatures. A request's JSON is
-- given as it is decoded; a body without an address or with the signature null is not modelled, and
-- neither are the headers and texts of the replies. A time is its nanoseconds since 1970.
pub mod Accepted
use openrelay.Prelude.{
  ℕ, ◌+◌, ◌-◌, ◌*◌, ◌^◌, Bool, true, false, ltb, leb, List, [], ◌∷◌, Option, none, some, Bytes,
  bytes_eq, ◌==◌, ◌++◌, if◌then◌else◌, length, take, copy, zeros, drop, codes, ℤ, pos, ltb_ℤ, ◌+ℤ◌,
  pos_part, neg_part, ◌-ℤ◌, Outcome, ok, err, panic, or_err, ◌>>=◌,
}
use openrelay.Types.Text.{Str, trim_prefix, hex_decode, hex_prefix}
use openrelay.Types.Signature.{Crypto}
use openrelay.Search.Pages.{atoi, or_default}
use openrelay.Terms.{Terms, TermsSig, get_terms, save_sig}

pub record HashMask : Type 0 where
  pub id : ℕ
  pub mask : Bytes

unfoldable pub get_hash_mask_by_id : ℕ → List HashMask → Option Bytes
get_hash_mask_by_id id [] = none
get_hash_mask_by_id id (m ∷ ms) =
    let rest = get_hash_mask_by_id id ms in if m.id == id then some m.mask else rest

pub record TermsSigPayload : Type 0 where
  pub terms_id : ℕ
  pub mask_id : ℕ
  pub signature : Bytes
  pub address : Bytes
  pub timestamp : Str
  pub nonce : Str

-- The first read of the body and Unmarshal of it; the text `null` resets the pointer.
pub data Body : Type 0 where
  unreadable : Body
  malformed : Body
  null : Body
  payload : TermsSigPayload → Body

pub record Request : Type 0 where
  pub method : Str
  pub lang : Str
  pub body : Body
  pub forwarded_for : Str
  pub remote_addr : Str

pub record TermsFormat : Type 0 where
  pub text : Str
  pub id : ℕ
  pub mask : Bytes
  pub mask_id : ℕ

pub data Reply : Type 0 where
  terms : TermsFormat → Reply
  accepted : Reply
  refused : ℕ → Reply

abbrev pub nanoseconds : ℤ → ℤ
nanoseconds s = pos (pos_part s * 10 ^ 9) -ℤ pos (neg_part s * 10 ^ 9)

abbrev pub five_minutes : ℤ
five_minutes = pos (300 * 10 ^ 9)

-- The two tests of the timestamp.
unfoldable pub check_time : ℤ → ℤ → Outcome ℤ
check_time now s =
    if ltb_ℤ now (nanoseconds s)
    then err "Timestamp in the future"
    else if ltb_ℤ (nanoseconds s +ℤ five_minutes) now
    then err "Timestamp stale"
    else ok s

abbrev pub ip_address : Request → Str
ip_address r = or_default r.forwarded_for r.remote_addr

-- copy(tf.Mask[32 - len(mask):], mask): a mask of more than 32 bytes panics.
unfoldable pub right_aligned : Bytes → Outcome Bytes
right_aligned mask = if leb (length mask) 32 then ok (zeros (32 - length mask) ++ mask) else panic

unfoldable pub served : Terms → Option (Bytes × ℕ) → Outcome Reply
unfolding right_aligned
served t none = ok (refused 500)
served t (some (mask, id)) = do
  m ← right_aligned mask
  ok (terms (record { text = t.text; id = t.id; mask = m; mask_id = id }))

abbrev pub settle : List TermsSig → Outcome (List TermsSig) → Outcome (Reply × List TermsSig)
settle sigs (ok after) = ok (accepted, after)
settle sigs (err e) = ok (refused 400, sigs)
settle sigs panic = panic

abbrev pub unchanged : List TermsSig → Outcome Reply → Outcome (Reply × List TermsSig)
unchanged sigs r = r >>= (λ x. ok (x, sigs))

-- GetNewHashMask is given: it draws at random.
module _ (new_hash_mask : Terms → Option (Bytes × ℕ)) where
  unfoldable pub found : Option Terms → Outcome Reply
  unfolding served
  found none = ok (refused 404)
  found (some t) = served t (new_hash_mask t)

  unfoldable pub get_handler : List Terms → Str → Outcome Reply
  unfolding found get_terms
  get_handler table lang = found (get_terms (or_default lang (codes "en")) table)

module _ (c : Crypto) (now : ℤ) (table : List Terms) (masks : List HashMask) where
  -- A signature from the decoded body on. Every error of it is answered with 400.
  unfoldable pub accept : TermsSigPayload → Str → List TermsSig → Outcome (List TermsSig)
  unfolding get_hash_mask_by_id atoi check_time save_sig
  accept p ip sigs = do
    mask ← or_err "Invalid HashMask ID" (get_hash_mask_by_id p.mask_id masks)
    seconds ← or_err "Invalid Timestamp" (atoi p.timestamp)
    s ← check_time now seconds
    nonce ← or_err "Malformed Nonce" (hex_decode (trim_prefix p.nonce hex_prefix))
    save_sig c p.terms_id table p.signature p.address p.timestamp ip nonce mask sigs

  unfoldable pub post_handler : Body → Str → List TermsSig → Outcome (Reply × List TermsSig)
  unfolding accept
  post_handler unreadable ip sigs = ok (refused 500, sigs)
  post_handler malformed ip sigs = ok (refused 400, sigs)
  post_handler null ip sigs = panic
  post_handler (payload p) ip sigs = settle sigs (accept p ip sigs)

  unfoldable pub terms_handler :
      (Terms → Option (Bytes × ℕ)) → Request → List TermsSig → Outcome (Reply × List TermsSig)
  unfolding get_handler post_handler
  terms_handler new_hash_mask r sigs =
      if bytes_eq r.method (codes "GET")
      then unchanged sigs (get_handler new_hash_mask table r.lang)
      else if bytes_eq r.method (codes "POST")
      then post_handler r.body (ip_address r) sigs
      else ok (refused 405, sigs)
