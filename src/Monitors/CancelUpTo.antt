-- ===== src/Monitors/CancelUpTo.antt =====
-- monitor/cancelupto/cancelupto.go: the cancellation of all orders below an epoch.
pub mod Recorded
use openrelay.Prelude.{
  ℕ, Bool, true, ◌&&◌, ◌||◌, not, List, [], ◌∷◌, Option, none, some, Bytes, big_bytes, ltb, ◌==◌,
  if◌then◌else◌, length, drop, get_elem?, copy, zeros,
}
use openrelay.Chain.{Log, Block, FilterQuery, Node, block_number}
use openrelay.Db.Indexer.{Cancellation}
use openrelay.Monitors.{Step, skip, emit, crash, Consumed, acked, stop, scan}

pub record CancelMonitor : Type 0 where
  pub exchange_address : ℕ
  pub cancel_up_to_topic : ℕ

abbrev pub new_cancel_up_to_block_consumer : ℕ → CancelMonitor
new_cancel_up_to_block_consumer exchange_address = record {
  exchange_address = exchange_address;
  cancel_up_to_topic =
      59110555854029060918434341837477523490921025400878155525389515482748591101168;
}

abbrev pub cancellation_of : Option Bytes → Option Bytes → Bytes → Step Cancellation
unfolding copy
cancellation_of none sender epoch = crash
cancellation_of (some maker) none epoch = crash
cancellation_of (some maker) (some sender) epoch = emit (record {
  maker = copy (zeros 20) (drop 12 maker);
  sender = copy (zeros 20) (drop 12 sender);
  epoch = copy (zeros 32) epoch;
})

unfoldable pub cancel_step : Log → Step Cancellation
unfolding cancellation_of
cancel_step l =
    if ltb (length l.topics) 3 || not (length l.payload == 32)
    then skip
    else cancellation_of (get_elem? l.topics 1) (get_elem? l.topics 2) l.payload

module _ (node : Node) (m : CancelMonitor) where
  abbrev pub cancel_query : Option ℕ → FilterQuery
  cancel_query number = record {
    from_block = block_number number;
    to_block = block_number number;
    addresses = node.big_to_address m.exchange_address ∷ [];
    topics = (node.big_to_hash m.cancel_up_to_topic ∷ []) ∷ [] ∷ [] ∷ [];
  }

  unfoldable pub cancel_consume : Block → Consumed Bool Cancellation
  cancel_consume block =
      if node.bloom_lookup block.bloom (big_bytes m.cancel_up_to_topic)
        && node.bloom_lookup block.bloom (big_bytes m.exchange_address)
      then scan node (cancel_query block.number) (λ s l. (s, cancel_step l)) true
      else stop true acked
