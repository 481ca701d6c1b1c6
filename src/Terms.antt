-- ===== src/Terms.antt =====
-- db/terms.go: the terms of service, their hash masks and their signatures. The tables are lists of
-- rows, oldest first; the statements of UpdateTerms may fail, the others are taken to succeed. The random draws that make a
-- mask or a nonce, the expiry of masks and their cache are not modelled.
pub mod Mask
pub mod Handlers
pub mod Signing
pub mod Update
mod Tests
use openrelay.Prelude.{
  ℕ, zero, suc, ◌+◌, ◌*◌, ◌/◌, ◌%◌, ◌^◌, Bool, true, false, not, ◌&&◌, List, [], ◌∷◌, ◌++◌, Option,
  none, some, Bytes, bytes_eq, ltb, ◌==◌, if◌then◌else◌, big, Outcome, ok, err, panic, or_err,
  ◌>>=◌,
}
use openrelay.Types.Text.{Str, sprint_hex}
use openrelay.Types.Signature.{Crypto, verify}
use Prim.Native.String.{String}

pub record Terms : Type 0 where
  pub id : ℕ
  pub current : Bool
  pub lang : Str
  pub text : Str
  pub valid : Bool
  pub difficulty : ℕ

pub record TermsSig : Type 0 where
  pub signer : Bytes
  pub timestamp : Str
  pub ip : Str
  pub nonce : Bytes
  pub banned : Bool
  pub signature : Bytes
  pub terms_id : ℕ

-- The ones among the lowest `n` bits of a byte, from bit `j` on.
abbrev pub byte_ones : ℕ → ℕ → ℕ → ℕ
byte_ones b zero j = 0
byte_ones b (suc n) j = (if b / 2 ^ j % 2 == 0 then 0 else 1) + byte_ones b n (suc j)

unfoldable pub ones_count : Bytes → ℕ
ones_count [] = 0
ones_count (b ∷ bs) = byte_ones b 8 0 + ones_count bs

-- The lowest `n` bits of big.Int.And.
and_bits : ℕ → ℕ → ℕ → ℕ
and_bits zero a b = 0
and_bits (suc n) a b = a % 2 * (b % 2) + and_bits n (a / 2) (b / 2) * 2

-- No bit of a conjunction is above the second number's, so as many bits as its value do.
unfoldable pub check_mask : Bytes → Bytes → Bool
unfolding and_bits
check_mask mask hash = and_bits (big mask) (big hash) (big mask) == big mask

-- The signed message: the terms' text, the time and the nonce.
abbrev pub signed_message : Terms → Str → Bytes → Bytes
signed_message t timestamp nonce = t.text ++ (10 ∷ (timestamp ++ (10 ∷ sprint_hex nonce)))

-- First(terms): the row with the lowest id.
abbrev pub first : List Terms → Option Terms
first [] = none
first (t ∷ ts) = some t

module _ (c : Crypto) where
  unfoldable pub check_sig : Terms → Bytes → Bytes → Str → Bytes → Bytes → Outcome Bool
  unfolding check_mask
  check_sig t sig address timestamp nonce mask =
      if not (check_mask mask (c.keccak256 (signed_message t timestamp nonce)))
      then err "Hash must match mask"
      else verify c sig address (signed_message t timestamp nonce)

  -- CheckTerms takes an id and does not use it.
  unfoldable pub check_terms : ℕ → List Terms → Bytes → Bytes → Str → Bytes → Bytes → Outcome Bool
  unfolding check_sig
  check_terms id table sig address timestamp nonce mask = do
    t ← or_err "record not found" (first table)
    check_sig t sig address timestamp nonce mask

  abbrev pub new_sig : Terms → Bytes → Bytes → Str → Str → Bytes → TermsSig
  new_sig t sig address timestamp ip nonce = record {
    signer = address;
    timestamp = timestamp;
    ip = ip;
    nonce = nonce;
    banned = false;
    signature = sig;
    terms_id = t.id;
  }

  -- SaveSig returns the table of signatures that it leaves. It takes an id too, and does not use it.
  unfoldable pub save_sig :
      ℕ
      → List Terms
      → Bytes
      → Bytes
      → Str
      → Str
      → Bytes
      → Bytes
      → List TermsSig
      → Outcome (List TermsSig)
  unfolding check_sig
  save_sig id table sig address timestamp ip nonce mask sigs = do
    t ← or_err "record not found" (first table)
    good ← check_sig t sig address timestamp nonce mask
    if good
        then ok (sigs ++ (new_sig t sig address timestamp ip nonce ∷ []))
        else err "Signature invalid"

abbrev pub is_current : Str → Terms → Bool
is_current lang t = bytes_eq t.lang lang && t.current

-- GetTerms: the first current row of a language.
unfoldable pub get_terms : Str → List Terms → Option Terms
get_terms lang [] = none
get_terms lang (t ∷ ts) = if is_current lang t then some t else get_terms lang ts

-- Saving the old terms with Current reset: the first current row of the language.
unfoldable pub retire : Str → List Terms → List Terms
retire lang [] = []
retire lang (t ∷ ts) =
    if is_current lang t then record t { current = false } ∷ ts else t ∷ retire lang ts

abbrev pub default_difficulty : Option Terms → ℕ
default_difficulty none = 3
default_difficulty (some t) = t.difficulty

-- The errors of the statements of UpdateTerms, `none` where one succeeds: `query` is GetTerms', which may
-- fail for other reasons than a missing row, and `begin` that of Begin or of a transaction that is given.
pub record Statements : Type 0 where
  pub query : Option String
  pub begin : Option String
  pub save : Option String
  pub create : Option String
  pub commit : Option String

abbrev pub ran : Option String → Outcome (Unit {0})
ran none = ok tt
ran (some e) = err e

-- The current terms, if the query gives them.
unfoldable pub old_terms : Option String → Str → List Terms → Option Terms
unfolding get_terms
old_terms none lang table = get_terms lang table
old_terms (some e) lang table = none

unfoldable pub retired : Statements → Str → List Terms → Option Terms → Outcome (List Terms)
unfolding retire
retired s lang table none = ok table
retired s lang table (some t) = do saved ← ran s.save; ok (retire lang table)

abbrev pub new_terms : ℕ → Str → Str → ℕ → Terms
new_terms id lang text difficulty = record {
  id = id;
  current = true;
  lang = lang;
  text = text;
  valid = true;
  difficulty = difficulty;
}

-- UpdateTerms, in a transaction of its own or in one that is given; an error rolls it back, and leaves
-- the table as it was before the transaction. The id of the new row is the database's.
unfoldable pub update_terms : Bool → Statements → ℕ → Str → Str → List Terms → Outcome (List Terms)
unfolding old_terms retired
update_terms is_tx s id lang text table = do
  begun ← ran s.begin
  kept ← retired s lang table (old_terms s.query lang table)
  created ← ran s.create
  committed ← if is_tx then ok tt else ran s.commit
  ok (kept ++ (new_terms id lang text (default_difficulty (old_terms s.query lang table)) ∷ []))
