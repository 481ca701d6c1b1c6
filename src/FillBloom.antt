-- ===== src/FillBloom.antt =====
-- fillbloom/fillbloom.go: the bloom filter of the hashes of orders that were ever filled or cancelled.
-- The filter of the bloom package is an interface, with the law of a bloom filter; the lock is not
-- modelled. An int64 is its two's complement, a number below 2 ^ 64.
mod Int64
pub mod Covers
pub mod Finishes
mod Tests
use openrelay.Prelude.{
  ℕ, zero, suc, ◌+◌, ◌-◌, ◌%◌, ◌^◌, Bool, true, false, List, [], ◌∷◌, Option, none, some, Bytes,
  length, drop, ltb, if◌then◌else◌, ℤ, pos, negsuc, Outcome, ok, err, panic,
}
use openrelay.Chain.{Log, Node, FilterQuery}

pub record Filter (B : Type 0) : Type 0 where
  pub add : B → Bytes → B
  pub test : B → Bytes → Bool

-- What the stored object holds: Reader fails, or ReadFrom fails, or it holds a filter.
pub data Stored (B : Type 0) : Type 0 where
  absent : Stored B
  unreadable : Stored B
  holds : B → Stored B

pub record FillBloom (B : Type 0) : Type 0 where
  pub b : B
  pub store : Stored B
  pub initialized : Bool

abbrev pub lt_int64 : ℕ → ℕ → Bool
lt_int64 a b = ltb ((a + 2 ^ 63) % 2 ^ 64) ((b + 2 ^ 63) % 2 ^ 64)

abbrev pub add_int64 : ℕ → ℕ → ℕ
add_int64 a b = (a + b) % 2 ^ 64

abbrev pub min_int64 : ℕ → ℕ → ℕ
min_int64 a b = if lt_int64 a b then a else b

-- big.NewInt
abbrev pub new_int : ℕ → ℤ
new_int a = if ltb a (2 ^ 63) then pos a else negsuc (2 ^ 64 - 1 - a)

abbrev pub fill_topic_v1 : ℕ
fill_topic_v1 = 5900520831108021860761879224965081492556347501579253559080077339061780057267

abbrev pub cancel_topic_v1 : ℕ
cancel_topic_v1 = 46967095364143553433195681890159592867447529324085431703278499279738173419825

-- The last 32 bytes of a log's data.
abbrev pub order_hash_of : Log → Bytes
order_hash_of l = drop (length l.payload - 32) l.payload

-- How Initialize ends: with nil, with an error, or by a panic; `unfinished` is a loop that still runs.
pub data Initialized (B : Type 0) : Type 0 where
  ready : FillBloom B → Initialized B
  failed : FillBloom B → Initialized B
  crashed : Initialized B
  unfinished : Initialized B

module _ {B : Type 0} (f : Filter B) where
  unfoldable pub add : FillBloom B → Bytes → FillBloom B
  add fb x = record fb { b = f.add fb.b x }

  abbrev pub test : FillBloom B → Bytes → Bool
  test fb x = f.test fb.b x

  -- Save: the writer may fail, which leaves the store as it is.
  abbrev pub save : Bool → FillBloom B → FillBloom B
  save writes fb = if writes then record fb { store = holds fb.b } else fb

  -- Each log's hash is added; data of less than 32 bytes panics.
  unfoldable pub add_logs : List Log → FillBloom B → Outcome (FillBloom B)
  unfolding add
  add_logs [] fb = ok fb
  add_logs (l ∷ ls) fb =
      if ltb (length l.payload) 32 then panic else add_logs ls (add fb (order_hash_of l))

  -- The node's answer to one query, and the loop after it.
  abbrev pub populated :
      (FillBloom B → Initialized B) → FillBloom B → Option (Outcome (FillBloom B)) → Initialized B
  populated rest fb none = failed fb
  populated rest fb (some (ok fb')) = rest fb'
  populated rest fb (some (err e)) = crashed
  populated rest fb (some panic) = crashed

  abbrev pub logs_added : FillBloom B → Option (List Log) → Option (Outcome (FillBloom B))
  unfolding add_logs
  logs_added fb none = none
  logs_added fb (some logs) = some (add_logs logs fb)

  abbrev pub finished : FillBloom B → Initialized B
  finished fb = ready (record fb { initialized = true })

  module _ (node : Node) (chunk end_block : ℕ) (exchange_addresses : List Bytes) where
    abbrev pub chunk_query : ℕ → FilterQuery
    chunk_query last_block = record {
      from_block = some (new_int last_block);
      to_block = some (new_int (min_int64 (add_int64 last_block chunk) end_block));
      addresses = exchange_addresses;
      topics =
          (node.big_to_hash fill_topic_v1 ∷ node.big_to_hash cancel_topic_v1 ∷ []) ∷ [] ∷ [] ∷ [];
    }

    -- The loop of Initialize from `last_block`, with the rounds that are left.
    unfoldable pub populate_from : ℕ → ℕ → FillBloom B → Initialized B
    unfolding logs_added
    populate_from zero last_block fb =
        if lt_int64 last_block end_block then unfinished else finished fb
    populate_from (suc n) last_block fb =
        let rest = λ (fb' : FillBloom B). populate_from n (add_int64 last_block chunk) fb' in
        if lt_int64 last_block end_block
        then populated rest fb (logs_added fb (node.filter_logs (chunk_query last_block)))
        else finished fb

    abbrev pub loaded : FillBloom B → Stored B → ℕ → Initialized B
    unfolding populate_from
    loaded fb absent fuel = populate_from fuel 0 fb
    loaded fb unreadable fuel = failed fb
    loaded fb (holds b) fuel = finished (record fb { b = b })

    -- Initialize; end_block rounds are enough for a positive chunk.
    unfoldable pub initialize : FillBloom B → Initialized B
    unfolding loaded
    initialize fb = loaded fb fb.store end_block

-- FillBloom.Consume: the record's hash is added, also after a parse error has rejected the message.
-- Returned are the filter and whether the message was rejected; it is acknowledged in both cases.
unfoldable pub consume :
    {B : Type 0} → Filter B → (Bytes → Bytes) → FillBloom B → Bytes × Bool → FillBloom B × Bool
unfolding add
consume f hex_to_hash fb (order_hash, parsed) =
    (add f fb (hex_to_hash order_hash), if parsed then false else true)
