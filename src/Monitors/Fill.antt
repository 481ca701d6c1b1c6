-- ===== src/Monitors/Fill.antt =====
-- monitor/fill/fill.go: fills and cancellations of orders, published and put into the bloom filter.
pub mod Recorded
pub mod Filtered
pub mod LookedUp
use openrelay.Prelude.{
  ℕ, ◌-◌, ◌%◌, ◌^◌, Bool, true, false, ◌&&◌, ◌||◌, not, List, [], ◌∷◌, Option, none, some, Bytes,
  big, big_bytes, ltb, ◌==◌, if◌then◌else◌, length, take, drop, get_elem?, codes,
}
use openrelay.Chain.{Log, Block, FilterQuery, Node, block_number}
use openrelay.Types.Text.{sprint_hex, dec_string}
use openrelay.Db.Indexer.{FillRecord}
use openrelay.FillBloom
use openrelay.FillBloom.{Filter, FillBloom, Initialized, ready, failed, crashed, unfinished}
use openrelay.Monitors.{
  Step, skip, emit, crash, Consumed, Ending, acked, fatal, panicked, stop, scan,
}

pub record FillMonitor : Type 0 where
  pub exchange_address : ℕ
  pub fill_topic : ℕ
  pub cancel_topic : ℕ

-- NewFillBlockConsumer, apart from the services.
abbrev pub new_fill_block_consumer : ℕ → FillMonitor
new_fill_block_consumer exchange_address = record {
  exchange_address = exchange_address;
  fill_topic = 5336406751434975800601095877039374813956314034626108520903084076148836471081;
  cancel_topic = 99635510864118597934076637327546249770987759988551723746474570966483996126455;
}

-- Data[32*3:32*4], as a number.
abbrev pub taker_token_filled : Bytes → ℕ
taker_token_filled payload = big (take 32 (drop 96 payload))

abbrev pub fill_record_of : FillMonitor → Bytes → Bytes → Bytes → FillRecord
fill_record_of m topic hash payload =
    if big topic == m.fill_topic
    then record {
      order_hash = sprint_hex hash;
      filled_taker_asset_amount = dec_string (taker_token_filled payload);
      cancel = false;
    }
    else record {
      order_hash = sprint_hex hash;
      filled_taker_asset_amount = codes "0";
      cancel = true;
    }

module _ {B : Type 0} (f : Filter B) where
  -- Topics[0] decides between fill and cancellation; Topics[3] is the hash, and is read in both.
  abbrev pub recorded :
      FillMonitor
      → FillBloom B
      → Bytes
      → Option Bytes
      → Option Bytes
      → FillBloom B × Step FillRecord
  recorded m fb payload none hash = (fb, crash)
  recorded m fb payload (some topic) none = (fb, crash)
  recorded m fb payload (some topic) (some hash) =
      (FillBloom.add f fb hash, emit (fill_record_of m topic hash payload))

  unfoldable pub fill_step : FillMonitor → FillBloom B → Log → FillBloom B × Step FillRecord
  fill_step m fb l =
      if ltb (length l.payload) 256
      then (fb, skip)
      else recorded m fb l.payload (get_elem? l.topics 0) (get_elem? l.topics 3)

  module _ (node : Node) (m : FillMonitor) where
    unfoldable pub may_have_fills : Block → Bool
    may_have_fills block =
        (node.bloom_lookup block.bloom (big_bytes m.fill_topic)
          || node.bloom_lookup block.bloom (big_bytes m.cancel_topic))
        && node.bloom_lookup block.bloom (big_bytes m.exchange_address)

    abbrev pub fill_query : Option ℕ → FilterQuery
    fill_query number = record {
      from_block = block_number number;
      to_block = block_number number;
      addresses = node.big_to_address m.exchange_address ∷ [];
      topics =
          (node.big_to_hash m.fill_topic ∷ node.big_to_hash m.cancel_topic ∷ []) ∷ [] ∷ [] ∷ [];
    }

    -- The filter is saved after the loop, and an error of that is only logged.
    abbrev pub saved : Bool → Consumed (FillBloom B) FillRecord → Consumed (FillBloom B) FillRecord
    saved writes r = elim r.ending [
      | acked ↦ record r { state = FillBloom.save f writes r.state }
      | _ ↦ r
    ]

    -- Consume once the filter is initialized.
    unfoldable pub consume_initialized :
        Bool → Block → FillBloom B → Consumed (FillBloom B) FillRecord
    consume_initialized writes block fb =
        if may_have_fills block
        then saved writes (scan node (fill_query block.number) (fill_step m) fb)
        else stop fb acked

    abbrev pub with_filter :
        Bool → Block → FillBloom B → Initialized B → Consumed (FillBloom B) FillRecord
    with_filter writes block fb (ready fb') = consume_initialized writes block fb'
    with_filter writes block fb (failed fb') = stop fb' fatal
    with_filter writes block fb crashed = stop fb panicked
    with_filter writes block fb unfinished = stop fb panicked

    -- Initialize up to the block's number, as an int64, if that was not done yet.
    abbrev pub initialized_at :
        Bool → ℕ → Block → FillBloom B → Option ℕ → Consumed (FillBloom B) FillRecord
    initialized_at writes chunk block fb none = stop fb panicked
    initialized_at writes chunk block fb (some n) = with_filter writes block fb (
        FillBloom.initialize f node chunk (n % 2 ^ 64) (node.big_to_address m.exchange_address ∷ [])
          fb)

    unfoldable pub fill_consume : Bool → ℕ → Block → FillBloom B → Consumed (FillBloom B) FillRecord
    unfolding consume_initialized
    fill_consume writes chunk block fb =
        if fb.initialized
        then consume_initialized writes block fb
        else initialized_at writes chunk block fb block.number
