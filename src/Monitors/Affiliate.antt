-- ===== src/Monitors/Affiliate.antt =====
-- monitor/affiliate/affiliate.go and monitor/multisig/multisig.go: sign-ups of affiliates, and the watch
-- over the contract that may admit exchanges.
use openrelay.Prelude.{
  ℕ, Bool, true, false, ◌&&◌, List, [], ◌∷◌, Option, none, some, Bytes, big_bytes, ltb,
  if◌then◌else◌, length, take, drop, copy, zeros,
}
use openrelay.Chain.{Log, Block, FilterQuery, Node, block_number}
use openrelay.Monitors.{Step, emit, abort, crash, Consumed, Ending, acked, returned, stop, scan}

abbrev pub affiliate_topic : ℕ
affiliate_topic = 43808647354232874534935823048717212403086254261781844072503410425913078710763

-- The affiliate at Data[12:32] is set; `set` is AffiliateService.Set, which fails with `false`.
unfoldable pub affiliate_step : (Bytes → Bool) → Log → Step Bytes
unfolding copy
affiliate_step set l =
    if ltb (length l.payload) 32
    then crash
    else let affiliate = copy (zeros 20) (take 20 (drop 12 l.payload)) in
      if set affiliate then emit affiliate else abort

module _ (node : Node) where
  abbrev pub affiliate_query : ℕ → Option ℕ → FilterQuery
  affiliate_query signup number = record {
    from_block = block_number number;
    to_block = block_number number;
    addresses = node.big_to_address signup ∷ [];
    topics = (node.big_to_hash affiliate_topic ∷ []) ∷ [];
  }

  -- What counts as published are the addresses set, each with a new affiliate of fee 100.
  unfoldable pub affiliate_consume : (Bytes → Bool) → ℕ → Block → Consumed Bool Bytes
  unfolding affiliate_step
  affiliate_consume set signup block =
      if node.bloom_lookup block.bloom (big_bytes signup)
        && node.bloom_lookup block.bloom (big_bytes affiliate_topic)
      then scan node (affiliate_query signup block.number) (λ s l. (s, affiliate_step set l)) true
      else stop true acked

  abbrev pub multisig_query : ℕ → Option ℕ → FilterQuery
  multisig_query multisig number = record {
    from_block = block_number number;
    to_block = block_number number;
    addresses = node.big_to_address multisig ∷ [];
    topics = [] ∷ [] ∷ [] ∷ [];
  }

  -- Whether the alert is logged, and how Consume ends.
  abbrev pub alerted : Option (List Log) → Bool × Ending
  alerted none = (false, returned)
  alerted (some logs) = (ltb 0 (length logs), acked)

  unfoldable pub multisig_consume : ℕ → Block → Bool × Ending
  multisig_consume multisig block =
      if node.bloom_lookup block.bloom (big_bytes multisig)
      then alerted (node.filter_logs (multisig_query multisig block.number))
      else (false, acked)
