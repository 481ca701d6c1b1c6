-- ===== src/Blocks/Monitor.antt =====
-- monitor/blocks/blocks.go: BlockMonitor. The node behind the HeaderGetter, the Publisher and the
-- BlockRecorder are parameters; what they answer may change with each call, so each is asked with
-- the number of calls that were made before. Waiting between polls is not modelled, nor is the text
-- that encoding/json makes of a block.
pub mod WindBack
pub mod Rounds
pub mod Runs
use openrelay.Prelude.{
  ℕ, zero, suc, ◌+◌, ◌%◌, ◌^◌, Bool, true, false, Option, none, some, List, [], ◌∷◌, Bytes, ◌==◌,
  if◌then◌else◌, Outcome, ok, err, panic, or_panic, ◌>>=◌, not,
}
use openrelay.Blocks.Ring.{MiniBlock, BlockRingBuffer, new_block_ring_buffer, add, get, hash_index}
use Prim.Native.String.{String}

pub record Header : Type 0 where
  pub hash : Bytes
  pub parent_hash : Bytes
  pub number : ℕ
  pub bloom : Bytes

-- What a HeaderGetter answers: a header, ethereum.NotFound, or another error. Beside NotFound it also
-- returns a header pointer, nil (`none`) in the case of ethclient.
pub data Fetched : Type 0 where
  found : Header → Fetched
  not_found : Option Header → Fetched
  failed : String → Fetched

-- The outside world; the first argument counts the calls made so far. HeaderByNumber(nil), the
-- newest header, is `none`.
pub record World : Type 0 where
  pub header_by_number : ℕ → Option ℕ → Fetched
  pub header_by_hash : ℕ → Bytes → Fetched
  pub publish_succeeds : ℕ → Bool
  pub record_succeeds : ℕ → Bool

-- `published` is what the publisher took, newest first; `recorded` is what the recorder holds.
pub record BlockMonitor : Type 0 where
  pub brb : BlockRingBuffer
  pub calls : ℕ
  pub published : List MiniBlock
  pub recorded : Option ℕ

abbrev pub mini_block : Header → MiniBlock
mini_block h = record { hash = h.hash; number = h.number; bloom = h.bloom }

-- How a part of Process ends: with the monitor's next state, by `continue MAIN_PROCESSING`, by
-- returning an error, by log.Fatalf, or by a panic.
pub data Round : Type 0 where
  next : BlockMonitor → Round
  returned : String → BlockMonitor → Round
  fatal : Round
  panicked : Round

-- header.Number.Int64() == 0 reads the low 64 bits.
abbrev pub int64_is_zero : ℕ → Bool
int64_is_zero n = n % 2 ^ 64 == 0

-- The inner loop: the header at which it stops, or the way that the round ends.
pub data Wound : Type 0 where
  stopped_at : Header → ℕ → Wound
  ended : Round → Wound

-- What the inner loop does with the answer for a parent. On NotFound it logs header.ParentHash of the
-- header that it was just given, which panics if that is nil.
unfoldable pub after_parent : (Header → Wound) → BlockMonitor → Fetched → Wound
after_parent go m (found parent) = go parent
after_parent go m (not_found none) = ended panicked
after_parent go m (not_found (some header)) = ended (next m)
after_parent go m (failed e) = ended (returned e m)

unfoldable pub then_go : (BlockMonitor → Round) → Round → Round
then_go go (next m) = go m
then_go go (returned e m) = returned e m
then_go go fatal = fatal
then_go go panicked = panicked

module _ (w : World) where
  unfoldable pub publish : BlockMonitor → MiniBlock → Round
  publish m b =
      if not (w.publish_succeeds m.calls)
      then returned "Failed to publish block" (record m { calls = m.calls + 1 })
      else let p = record m { calls = m.calls + 2; published = b ∷ m.published } in
        if w.record_succeeds (m.calls + 1)
        then next (record p { recorded = some b.number })
        else returned "record" p

  -- Adds the block of a header to the ring and publishes what the ring then reads at 0.
  unfoldable pub add_and_publish : BlockMonitor → Header → Round
  unfolding publish
  add_and_publish m h = elim (add m.brb (mini_block h)) [
    | ok r ↦ elim (get r 0) [ ok (some b) ↦ publish (record m { brb = r }) b | _ ↦ panicked ]
    | _ ↦ panicked
  ]

  -- `left` is size - counter, and `calls` the calls made so far.
  unfoldable pub wind_back : ℕ → BlockMonitor → Header → ℕ → Wound
  unfolding after_parent
  wind_back zero m h calls = stopped_at h calls
  wind_back (suc left) m h calls = elim (hash_index m.brb h.parent_hash) [
    | ok none ↦
        if int64_is_zero h.number
        then stopped_at h calls
        else after_parent (λ parent. wind_back left m parent (calls + 1))
            (record m { calls = calls + 1 }) (w.header_by_hash calls h.parent_hash)
    | ok (some i) ↦ stopped_at h calls
    | _ ↦ ended panicked
  ]

  -- What follows the inner loop: a known hash is fatal, any other block is added and published.
  unfoldable pub finish_round : BlockMonitor → Wound → Round
  unfolding add_and_publish
  finish_round m (ended r) = r
  finish_round m (stopped_at h calls) = elim (hash_index m.brb h.hash) [
    | ok none ↦ add_and_publish (record m { calls = calls }) h
    | ok (some i) ↦ fatal
    | _ ↦ panicked
  ]

  unfoldable pub after_header : BlockMonitor → Fetched → Round
  unfolding wind_back finish_round
  after_header m (found h) = finish_round m (wind_back m.brb.size m h (m.calls + 1))
  after_header m (not_found _) = next (record m { calls = m.calls + 1 })
  after_header m (failed e) = returned e (record m { calls = m.calls + 1 })

  -- One round of MAIN_PROCESSING after the test of the quit signal.
  unfoldable pub round : BlockMonitor → Round
  unfolding after_header
  round m = elim (get m.brb 0) [
    | ok (some last) ↦ after_header m (w.header_by_number m.calls (some (last.number + 1)))
    | _ ↦ panicked
  ]

  -- What Process does with the first header; the block is published if it is block 0.
  unfoldable pub after_first : BlockMonitor → Fetched → Round
  unfolding publish
  after_first m (found h) = elim (add m.brb (mini_block h)) [
    | ok r ↦
        let m' = record m { brb = r; calls = m.calls + 1 } in
        if int64_is_zero h.number
        then elim (get r 0) [ ok (some b) ↦ publish m' b | _ ↦ panicked ]
        else next m'
    | _ ↦ panicked
  ]
  after_first m (not_found _) = returned "not found" (record m { calls = m.calls + 1 })
  after_first m (failed e) = returned e (record m { calls = m.calls + 1 })

  -- The part of Process before its loop. An error of the recorder leaves the number nil.
  unfoldable pub begin : BlockMonitor → Round
  unfolding after_first
  begin m = after_first m (w.header_by_number m.calls m.recorded)

  -- The loop until the quit signal, which comes after `n` rounds.
  unfoldable pub run_rounds : ℕ → BlockMonitor → Round
  unfolding then_go
  run_rounds zero m = next m
  run_rounds (suc n) m = then_go (λ m'. run_rounds n m') (round m)

  unfoldable pub process : ℕ → BlockMonitor → Round
  unfolding begin run_rounds then_go
  process n m = then_go (run_rounds n) (begin m)

unfoldable pub new_block_monitor : ℕ → Option ℕ → BlockMonitor
unfolding new_block_ring_buffer
new_block_monitor brb_size recorded = record {
  brb = new_block_ring_buffer brb_size;
  calls = 0;
  published = [];
  recorded = recorded;
}
