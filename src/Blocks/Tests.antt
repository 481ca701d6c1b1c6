-- ===== src/Blocks/Tests.antt =====
-- Tests of the block monitor: a ring of three places, and a node with the blocks up to 20.
use openrelay.Prelude.{
  ℕ, zero, suc, ◌≡◌, ◌<◌, ◌-◌, refl, true, Option, some, none, List, [], ◌∷◌, Bytes, ok, get_elem?,
  arith,
}
use openrelay.Blocks.Ring.{MiniBlock, BlockRingBuffer, add, get, hash_index, new_block_ring_buffer}
use openrelay.Blocks.Ring.Refine.{Holds, new-Holds, add-Holds, position_from, hash_index_lem}
use openrelay.Blocks.Monitor.{
  Header, World, BlockMonitor, found, not_found, mini_block, process, round, wind_back,
  new_block_monitor, after_parent, ended, panicked,
}
use openrelay.Blocks.Monitor.WindBack.{WindsBack, wind_back-WindsBack}
use openrelay.Blocks.Monitor.Rounds.{After, round-After}
use openrelay.Blocks.Monitor.Runs.{GoesOn, process-GoesOn}

abbrev header : ℕ → Header
header n = record { hash = n ∷ []; parent_hash = (n - 1) ∷ []; number = n; bloom = [] }

abbrev by_number : Option ℕ → Header
by_number none = header 20
by_number (some n) = header n

abbrev by_hash : Bytes → Header
by_hash [] = header 0
by_hash (n ∷ _) = header n

abbrev world : World
world = record {
  header_by_number = λ calls n. found (by_number n);
  header_by_hash = λ calls hash. found (by_hash hash);
  publish_succeeds = λ calls. true;
  record_succeeds = λ calls. true;
}

abbrev block : ℕ → MiniBlock
block n = mini_block (header n)

abbrev ring : BlockRingBuffer
ring = record { blocks = none ∷ some (block 10) ∷ some (block 11) ∷ []; size = 3; head = 2 }

abbrev history : List MiniBlock
history = block 11 ∷ block 10 ∷ []

abbrev monitor : BlockMonitor
monitor = record { brb = ring; calls = 5; published = history; recorded = some 11 }

ring-reads : (i : ℕ) → i < 3 → get ring i ≡ ok (get_elem? history i)
unfolding get
ring-reads zero h = refl
ring-reads (suc zero) h = refl
ring-reads (suc (suc zero)) h = refl
ring-reads (suc (suc (suc i))) h = absurd (omega arith)

ring-Holds : Holds ring history
ring-Holds = record {
  room = omega arith;
  storage = refl;
  head_in = omega arith;
  reads = ring-reads;
}

process-GoesOn_example : GoesOn world 3 (process world 5 (new_block_monitor 3 (some 10)))
process-GoesOn_example = process-GoesOn world 5 3 (some 10) (omega arith)

round-After_example : After world monitor (block 11) history (round world monitor)
round-After_example = round-After world monitor (block 11) (block 10 ∷ []) ring-Holds

wind_back-WindsBack_example :
    WindsBack world monitor history 3 (header 13) 6 (wind_back world 3 monitor (header 13) 6)
wind_back-WindsBack_example = wind_back-WindsBack world 3 monitor history (header 13) 6 ring-Holds

new-Holds_example : Holds (new_block_ring_buffer 3) []
new-Holds_example = new-Holds 3 (omega arith)

add-Holds_example :
    (r' : BlockRingBuffer) × (add ring (block 12) ≡ ok r')
    × (r'.size ≡ 3)
    × Holds r' (block 12 ∷ block 11 ∷ block 10 ∷ [])
add-Holds_example = add-Holds ring history (block 12) ring-Holds

hash_index_example : hash_index ring (10 ∷ []) ≡ ok (position_from (10 ∷ []) history 3 0)
hash_index_example = hash_index_lem ring history (10 ∷ []) ring-Holds

-- A node whose NotFound comes with a nil header.
missing_parent : after_parent (λ parent. ended panicked) monitor (not_found none) ≡ ended panicked
unfolding after_parent
missing_parent = refl
