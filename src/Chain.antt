-- ===== src/Chain.antt =====
-- What the monitors see of the chain: blocks, logs, and the node that is asked for logs. The node is a
-- parameter; its documented behaviour is stated here and assumed where a theorem needs it.
use openrelay.Prelude.{
  ℕ, ◌≡◌, ◌≤◌, Bool, true, false, ◌&&◌, ◌||◌, List, [], ◌∷◌, Option, none, some, Bytes, bytes_eq, ℤ,
  pos, All,
}
use openrelay.Types.Text.{Str}
use mathlib.Core.List.{Memᴰ}

-- A log of go-ethereum, with its field Data as `payload`; a topic is 32 bytes.
pub record Log : Type 0 where
  pub address : Bytes
  pub topics : List Bytes
  pub payload : Bytes

-- MiniBlock as json.Unmarshal leaves it: after an error the number can be a nil pointer.
pub record Block : Type 0 where
  pub hash : Bytes
  pub number : Option ℕ
  pub bloom : Bytes

-- ethereum.FilterQuery; an empty list of addresses, or of topics at a position, is any.
pub record FilterQuery : Type 0 where
  pub from_block : Option ℤ
  pub to_block : Option ℤ
  pub addresses : List Bytes
  pub topics : List (List Bytes)

-- The node and the functions of go-ethereum: BloomLookup on the bytes that it hashes, FilterLogs, with
-- `none` for its error, BigToAddress, BigToHash and the lower case of Address.String.
pub record Node : Type 0 where
  pub bloom_lookup : Bytes → Bytes → Bool
  pub filter_logs : FilterQuery → Option (List Log)
  pub big_to_address : ℕ → Bytes
  pub big_to_hash : ℕ → Bytes
  pub lower_address : Bytes → Str

-- The number of a block in a query; a nil pointer asks for the newest.
abbrev pub block_number : Option ℕ → Option ℤ
block_number none = none
block_number (some n) = some (pos n)

unfoldable pub one_of : List Bytes → Bytes → Bool
unfolding bytes_eq
one_of [] b = false
one_of (x ∷ xs) b = bytes_eq b x || one_of xs b

abbrev pub any_or_one_of : List Bytes → Bytes → Bool
unfolding one_of
any_or_one_of [] b = true
any_or_one_of (x ∷ xs) b = one_of (x ∷ xs) b

-- A log with fewer topics than the query has positions does not match.
unfoldable pub topics_match : List (List Bytes) → List Bytes → Bool
unfolding any_or_one_of
topics_match [] ts = true
topics_match (p ∷ ps) [] = false
topics_match (p ∷ ps) (t ∷ ts) = any_or_one_of p t && topics_match ps ts

unfoldable pub log_matches : FilterQuery → Log → Bool
unfolding any_or_one_of topics_match
log_matches q l = any_or_one_of q.addresses l.address && topics_match q.topics l.topics

-- FilterLogs gives only logs that match the query.
abbrev pub OnlyMatching : Node → Type 0
OnlyMatching node =
    (q : FilterQuery) (logs : List Log)
    → node.filter_logs q ≡ some logs
    → All (λ l. log_matches q l ≡ true) logs

-- FilterLogs gives every matching log of the blocks in the query's range; `logs_of` are the logs of a
-- block.
abbrev pub AllMatching : Node → (ℕ → List Log) → Type 0
AllMatching node logs_of =
    (q : FilterQuery) (a b n : ℕ) (l : Log) (logs : List Log)
    → q.from_block ≡ some (pos a)
    → q.to_block ≡ some (pos b)
    → a ≤ n
    → n ≤ b
    → Memᴰ l (logs_of n)
    → log_matches q l ≡ true
    → node.filter_logs q ≡ some logs
    → Memᴰ l logs
