-- ===== src/Monitors/Allowance.antt =====
-- monitor/allowance/allowance.go: new allowances for the token proxies. The record that it and its
-- sisters publish is SpendRecord of db/record_spend_consumer.go.
use openrelay.Prelude.{
  ℕ, Bool, true, ◌&&◌, ◌||◌, not, [], ◌∷◌, Option, none, some, Bytes, big, big_bytes, ltb, ◌==◌,
  if◌then◌else◌, length, drop, get_elem?,
}
use openrelay.Chain.{Log, Block, FilterQuery, Node, block_number}
use openrelay.Types.Text.{Str, sprint_hex, dec_string}
use openrelay.Db.Consumers.{SpendRecord}
use openrelay.Monitors.{Step, skip, emit, crash, Consumed, acked, stop, scan}

pub record AllowanceMonitor : Type 0 where
  pub robo_dex_proxy_address : ℕ
  pub token_proxy_address : ℕ
  pub approval_topic : ℕ
  pub fee_token_address : Str

abbrev pub approval_topic : ℕ
approval_topic = 63486140976153616755203102783360879283472101686154884697241723088393386309925

abbrev pub new_allowance_block_consumer : ℕ → ℕ → Str → AllowanceMonitor
new_allowance_block_consumer bdp tp fee_token = record {
  robo_dex_proxy_address = bdp;
  token_proxy_address = tp;
  approval_topic = approval_topic;
  fee_token_address = fee_token;
}

-- hexutil.Encode of twenty bytes prints them as Sprintf("%#x") does.
abbrev pub approval_record : Str → Str → Option Bytes → Bytes → Step SpendRecord
approval_record token fee none payload = crash
approval_record token fee (some spender) payload = emit (record {
  token_address = token;
  asset_data = [];
  spender_address = sprint_hex (drop 12 spender);
  zrx_token = fee;
  balance = dec_string (big payload);
})

module _ (node : Node) (m : AllowanceMonitor) where
  unfoldable pub approval_step : Log → Step SpendRecord
  approval_step l =
      if ltb (length l.topics) 2 || not (length l.payload == 32)
      then skip
      else approval_record (node.lower_address l.address) m.fee_token_address (get_elem? l.topics 1)
          l.payload

  abbrev pub approval_query : ℕ → Option ℕ → FilterQuery
  approval_query proxy number = record {
    from_block = block_number number;
    to_block = block_number number;
    addresses = [];
    topics = (node.big_to_hash m.approval_topic ∷ []) ∷ [] ∷ (node.big_to_hash proxy ∷ []) ∷ [];
  }

  abbrev pub approvals_of : ℕ → Block → Consumed Bool SpendRecord
  unfolding approval_step
  approvals_of proxy block =
      scan node (approval_query proxy block.number) (λ s l. (s, approval_step l)) true

  unfoldable pub bloom_has_approval : ℕ → Block → Bool
  bloom_has_approval proxy block =
      node.bloom_lookup block.bloom (big_bytes m.approval_topic)
      && node.bloom_lookup block.bloom (node.big_to_hash proxy)

  -- The second proxy is only looked at if the bloom filter has nothing for the first.
  unfoldable pub allowance_consume : Block → Consumed Bool SpendRecord
  unfolding bloom_has_approval
  allowance_consume block =
      if bloom_has_approval m.token_proxy_address block
      then approvals_of m.token_proxy_address block
      else if bloom_has_approval m.robo_dex_proxy_address block
      then approvals_of m.robo_dex_proxy_address block
      else stop true acked
