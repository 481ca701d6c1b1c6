-- ===== src/Blocks/Ring/Refine.antt =====
-- monitor/blocks/block_ring_buffer.go against the list of all blocks that were added, newest first.
use openrelay.Prelude.{
  ℕ, zero, suc, ◌+◌, ◌-◌, ◌%◌, ◌<◌, ◌≡◌, refl, ◌≢◌, Option, none, some, List, [], ◌∷◌, Bytes, ltb,
  ◌==◌, if◌then◌else◌, length, get_elem?, set, ok, or_panic, arith, length-set, length-replicate,
  get_elem?-set_self, get_elem?-set_ne, get_elem?-replicate, ap, ◌∙◌, sym,
}
use native.Mathlib.Nat.{mod-eq_of_lt, mod-eq-sub-mod}
use openrelay.Blocks.Ring.{
  MiniBlock, BlockRingBuffer, new_block_ring_buffer, add, get, has_hash, hash_index,
  hash_index_from,
}

-- The ring stands for a history if it has room for a block and the block added `i` calls ago is at
-- count `i`, for every count below the size.
pub record Holds (r : BlockRingBuffer) (history : List MiniBlock) : Type 0 where
  pub room : 0 < r.size
  pub storage : length r.blocks ≡ r.size
  pub head_in : r.head < r.size
  pub reads : (i : ℕ) → i < r.size → get r i ≡ ok (get_elem? history i)

-- The index that Get reads at a count below the size.
slot : BlockRingBuffer → ℕ → ℕ
slot r i = if ltb r.head i then r.head + r.size - i else r.head - i

get-slot :
    (r : BlockRingBuffer) (i : ℕ) → i < r.size → get r i ≡ or_panic (get_elem? r.blocks (slot r i))
unfolding get slot
get-slot r i h = ground arith

-- A new ring of a size above zero holds the empty history.
pub new-Holds : (size : ℕ) → 0 < size → Holds (new_block_ring_buffer size) []
unfolding new_block_ring_buffer
new-Holds size h = record {
  room = h;
  storage = length-replicate size none;
  head_in = h;
  reads = λ i k. rw (
    get-slot (new_block_ring_buffer size) i k,
    get_elem?-replicate {A = Option MiniBlock} size (slot (new_block_ring_buffer size) i) none
        (below i k),
  );
}
  where
    below : (i : ℕ) → i < size → slot (new_block_ring_buffer size) i < size
    below i k = unfold slot in ground arith

next_head : (h s : ℕ) → h < s → (h + 1) % s ≡ (if h + 1 == s then 0 else h + 1)
next_head h s k = grind (arith, mod-eq_of_lt, mod-eq-sub-mod)

-- The ring that Add makes of one with room.
added : BlockRingBuffer → MiniBlock → BlockRingBuffer
added r mb =
    let h = if r.head + 1 == r.size then 0 else r.head + 1 in
    record r { blocks = set r.blocks h (some mb); head = h }

-- One block later a count is one more, at the same index, which is not the one that was written.
slot-added :
    (r : BlockRingBuffer) (mb : MiniBlock) (k : ℕ)
    → r.head < r.size
    → suc k < r.size
    → (slot (added r mb) (suc k) ≡ slot r k) × ((added r mb).head ≢ slot r k)
unfolding slot added
slot-added r mb k h l = ground arith

reads_added :
    (r : BlockRingBuffer) (history : List MiniBlock) (mb : MiniBlock) (i : ℕ)
    → Holds r history
    → i < r.size
    → get (added r mb) i ≡ ok (get_elem? (mb ∷ history) i)
unfolding added
reads_added r history mb zero h l = rw (get-slot (added r mb) 0 l) (
    unfold added slot in
    (ground (
      arith,
      get_elem?-set_self r.blocks 0 (some mb),
      get_elem?-set_self r.blocks (r.head + 1) (some mb),
    )))
reads_added r history mb (suc k) h l =
    let s = slot-added r mb k h.head_in l in
    rw (get-slot (added r mb) (suc k) l, s.0)
      (unfold added in
        (ap or_panic (get_elem?-set_ne r.blocks (added r mb).head (slot r k) (some mb) s.1)
          ∙ (sym (get-slot r k (omega arith)) ∙ h.reads k (omega arith))))

-- Add never panics on a ring that stands for a history, and then it stands for the history with the
-- new block in front, at the same size.
pub add-Holds :
    (r : BlockRingBuffer) (history : List MiniBlock) (mb : MiniBlock)
    → Holds r history
    → (r' : BlockRingBuffer) × (add r mb ≡ ok r') × (r'.size ≡ r.size) × Holds r' (mb ∷ history)
unfolding add added
add-Holds r history mb h = (
  added r mb,
  ground (arith, next_head r.head r.size),
  refl,
  record {
    room = h.room;
    storage = ground (arith, length-set r.blocks (added r mb).head (some mb));
    head_in = ground arith;
    reads = λ i l. reads_added r history mb i h l;
  },
)

-- The first position, counted from `i`, of a block with the hash.
abbrev pub position_from : Bytes → List MiniBlock → ℕ → ℕ → Option ℕ
position_from h history zero i = none
position_from h history (suc n) i =
    if has_hash h (get_elem? history i) then some i else position_from h history n (i + 1)

hash_index_from-position_from :
    (r : BlockRingBuffer) (history : List MiniBlock) (h : Bytes) (n i : ℕ)
    → Holds r history
    → i + n ≡ r.size
    → hash_index_from r h n i ≡ ok (position_from h history n i)
unfolding hash_index_from
hash_index_from-position_from r history h zero i v e = refl
hash_index_from-position_from r history h (suc n) i v e =
    rw
      (v.reads i (omega arith), hash_index_from-position_from r history h n (i + 1) v (omega arith))
      (ground arith)

-- HashIndex never panics on a ring that stands for a history: it is the first position of the hash
-- among the last `size` blocks of the history.
pub hash_index_lem :
    (r : BlockRingBuffer) (history : List MiniBlock) (h : Bytes)
    → Holds r history
    → hash_index r h ≡ ok (position_from h history r.size 0)
unfolding hash_index
hash_index_lem r history h v = hash_index_from-position_from r history h r.size 0 v (omega arith)
