-- ===== src/Terms/Tests.antt =====
-- Tests of the terms of service.
use openrelay.Prelude.{
  ℕ, ◌≡◌, ◌↔◌, refl, true, false, List, [], ◌∷◌, some, ok, ℤ, pos, ◌-ℤ◌, ◌+ℤ◌, ◌*◌, ◌^◌, ◌++◌,
  zeros, Outcome, Option, none, big, codes, replicate, arith, Bytes, bytes_eq,
}
use openrelay.Types.Text.{sprint_hex, trim_prefix, starts_with, hex_decode, hex_value, set_string}
use openrelay.Types.Samples.{signature, crypto}
use openrelay.Types.Signature.{verify, verify_by_type}
use openrelay.Search.Pages.{atoi, if_fits}
use openrelay.Terms.{
  Terms, TermsSig, check_mask, check_sig, save_sig, new_sig, get_terms, retire, retired, old_terms,
  update_terms, ones_count,
}
use openrelay.Terms.Mask.{bit, check_mask_iff}
use openrelay.Terms.Handlers.{
  HashMask, TermsSigPayload, payload, Request, Reply, accepted, terms, get_hash_mask_by_id,
  check_time, accept, post_handler, terms_handler, get_handler, served, found, right_aligned,
  ip_address,
}
use openrelay.Terms.Handlers.Accepted.{Accepted, terms_handler-Accepted}
use openrelay.Terms.Update.{working, Updated, update_terms-current}

abbrev english : Terms
english = record {
  id = 1;
  current = true;
  lang = codes "en";
  text = codes "T";
  valid = true;
  difficulty = 4;
}

abbrev signer : Bytes
signer = replicate 20 1

check_mask_example :
    (check_mask (5 ∷ []) (7 ∷ []) ≡ true)
    ↔ ((i : ℕ) → bit (big (5 ∷ [])) i ≡ 1 → bit (big (7 ∷ [])) i ≡ 1)
check_mask_example = check_mask_iff (5 ∷ []) (7 ∷ [])

ones_count-mask : ones_count (255 ∷ 5 ∷ []) ≡ 10
unfolding ones_count
ones_count-mask = refl

abbrev mask_seven : HashMask
mask_seven = record { id = 7; mask = 1 ∷ [] }

abbrev signing : TermsSigPayload
signing = record {
  terms_id = 1;
  mask_id = 7;
  signature = signature;
  address = signer;
  timestamp = codes "1000";
  nonce = codes "0x09";
}

abbrev posted : Request
posted = record {
  method = codes "POST";
  lang = [];
  body = payload signing;
  forwarded_for = [];
  remote_addr = codes "ip";
}

-- A second after the time that was signed.
abbrev now : ℤ
now = pos (1001 * 10 ^ 9)

abbrev draw : Terms → Option (Bytes × ℕ)
draw t = some (1 ∷ [], 7)

abbrev after : List TermsSig
after = new_sig crypto english signature signer (codes "1000") (codes "ip") (9 ∷ []) ∷ []

abbrev answered : Request → Outcome (Reply × List TermsSig)
answered r = terms_handler crypto now (english ∷ []) (mask_seven ∷ []) draw r []

post-english : answered posted ≡ ok (accepted, after)
unfolding terms_handler post_handler accept get_hash_mask_by_id atoi if_fits set_string check_time
    ◌-ℤ◌ ◌+ℤ◌ trim_prefix starts_with hex_decode hex_value save_sig check_sig check_mask verify
    verify_by_type big sprint_hex bytes_eq
post-english = refl

get-english :
    answered (record posted { method = codes "GET" })
    ≡ ok (terms (record { text = codes "T"; id = 1; mask = zeros 31 ++ (1 ∷ []); mask_id = 7 }), [])
unfolding terms_handler get_handler get_terms bytes_eq served right_aligned found
get-english = refl

terms_handler_example :
    (p : TermsSigPayload) × ((posted.body ≡ payload p)
      × Accepted crypto now (english ∷ []) (mask_seven ∷ []) p (ip_address posted) [] after)
terms_handler_example =
    terms_handler-Accepted crypto now (english ∷ []) (mask_seven ∷ []) draw posted [] after
      post-english

abbrev new_english : Terms
new_english = record {
  id = 2;
  current = true;
  lang = codes "en";
  text = codes "U";
  valid = true;
  difficulty = 4;
}

abbrev updated : List Terms
updated = record english { current = false } ∷ new_english ∷ []

update_terms-english :
    update_terms false (working none) 2 (codes "en") (codes "U") (english ∷ []) ≡ ok updated
unfolding update_terms old_terms retired get_terms retire bytes_eq
update_terms-english = refl

-- A query that fails for another reason than a missing row leaves two current rows.
update_terms-unread :
    update_terms false (working (some "timeout")) 2 (codes "en") (codes "U") (english ∷ [])
    ≡ ok (english ∷ record new_english { difficulty = 3 } ∷ [])
unfolding update_terms old_terms retired
update_terms-unread = refl

get_terms-english : get_terms (codes "en") (english ∷ []) ≡ some english
unfolding get_terms bytes_eq
get_terms-english = refl

update_terms_example :
    (after : List Terms) × (update_terms false
        (working none)
        2
        (codes "en")
        (codes "U")
        (english ∷ [])
      ≡ ok after)
    × Updated none 2 (codes "en") (codes "U") (english ∷ []) after
unfolding bytes_eq
update_terms_example =
    update_terms-current false none 2 (codes "en") (codes "U") (english ∷ []) (omega arith)
