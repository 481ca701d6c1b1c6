-- ===== src/Blocks/Ring.antt =====
-- monitor/blocks/block_ring_buffer.go: the last blocks that the monitor has seen, newest first.
pub mod Refine
use openrelay.Prelude.{
  ℕ, zero, suc, ◌+◌, ◌-◌, ◌%◌, Bool, true, false, Option, none, some, List, Bytes, ltb, ◌==◌,
  if◌then◌else◌, length, get_elem?, set, replicate, Outcome, ok, panic, or_panic, ◌>>=◌, bytes_eq,
}

pub record MiniBlock : Type 0 where
  pub hash : Bytes
  pub number : ℕ
  pub bloom : Bytes

pub record BlockRingBuffer : Type 0 where
  pub blocks : List (Option MiniBlock)
  pub size : ℕ
  pub head : ℕ

unfoldable pub new_block_ring_buffer : ℕ → BlockRingBuffer
new_block_ring_buffer size = record { blocks = replicate size none; size = size; head = 0 }

-- A ring of size 0 divides by zero, and a write out of range panics.
unfoldable pub add : BlockRingBuffer → MiniBlock → Outcome BlockRingBuffer
add r mb =
    if r.size == 0
    then panic
    else let h = (r.head + 1) % r.size in
      if ltb h (length r.blocks)
      then ok (record r { blocks = set r.blocks h (some mb); head = h })
      else panic

-- The index `head - count` is an int, to which the size is added once if it is negative.
unfoldable pub get : BlockRingBuffer → ℕ → Outcome (Option MiniBlock)
get r count =
    if ltb r.head count
    then (if ltb (r.head + r.size) count
        then panic
        else or_panic (get_elem? r.blocks (r.head + r.size - count)))
    else or_panic (get_elem? r.blocks (r.head - count))

unfoldable pub has_hash : Bytes → Option MiniBlock → Bool
unfolding bytes_eq
has_hash h none = false
has_hash h (some b) = bytes_eq b.hash h

-- The loop of HashIndex from `i`, with the number of rounds that are left.
hash_index_from : BlockRingBuffer → Bytes → ℕ → ℕ → Outcome (Option ℕ)
hash_index_from r h zero i = ok none
hash_index_from r h (suc n) i =
    let rest = hash_index_from r h n (i + 1) in
    (get r i >>= λ b. if has_hash h b then ok (some i) else rest)

-- `none` stands for -1.
unfoldable pub hash_index : BlockRingBuffer → Bytes → Outcome (Option ℕ)
unfolding hash_index_from
hash_index r h = hash_index_from r h r.size 0
