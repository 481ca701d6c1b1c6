-- ===== src/Monitors/Approvals.antt =====
-- monitor/erc721approvals/approval.go: approvals of single tokens, and of all tokens of an owner.
pub mod Reached
use openrelay.Prelude.{
  ℕ, Bool, true, ◌&&◌, ◌||◌, not, List, [], ◌∷◌, Option, none, some, Bytes, big, big_bytes, ◌==◌,
  if◌then◌else◌, length, drop, get_elem?, codes,
}
use openrelay.Chain.{Log, Block, FilterQuery, Node, block_number}
use openrelay.Types.Text.{Str, sprint_hex}
use openrelay.Types.AssetData.{to_erc721_asset_data}
use openrelay.Monitors.{Step, skip, emit, crash, Consumed, acked, stop, scan}
use openrelay.Monitors.Allowance.{approval_topic}
use openrelay.Db.Consumers.{SpendRecord}

pub record ApprovalMonitor : Type 0 where
  pub token_proxy_address : ℕ
  pub approval_topic : ℕ
  pub approve_all_topic : ℕ
  pub fee_token_address : Str

abbrev pub new_approval_block_consumer : ℕ → Str → ApprovalMonitor
new_approval_block_consumer tp fee_token = record {
  token_proxy_address = tp;
  approval_topic = approval_topic;
  approve_all_topic = 10488878412788366941768124514102328501031624832915735463117339209566108871729;
  fee_token_address = fee_token;
}

-- A record that gives the spender no balance of the token, or of the one asset that is named.
abbrev pub no_balance : Str → Str → Str → Bytes → Step SpendRecord
no_balance fee token asset_data spender = emit (record {
  token_address = token;
  asset_data = asset_data;
  spender_address = sprint_hex (drop 12 spender);
  zrx_token = fee;
  balance = codes "0";
})

module _ (node : Node) (m : ApprovalMonitor) where
  -- Approval of one token; it is of no interest if the token proxy is who is approved.
  abbrev pub approved : Log → List Bytes → Step SpendRecord
  unfolding to_erc721_asset_data sprint_hex
  approved l (t0 ∷ owner ∷ operator ∷ token ∷ []) =
      if big operator == m.token_proxy_address
      then skip
      else no_balance m.fee_token_address (node.lower_address l.address)
          (sprint_hex (to_erc721_asset_data l.address token)) owner
  approved l other = skip

  -- ApprovalForAll; only its withdrawal from the token proxy is of interest.
  abbrev pub approved_for_all : Log → List Bytes → Step SpendRecord
  approved_for_all l (t0 ∷ owner ∷ operator ∷ []) =
      if (big operator == m.token_proxy_address) && (big l.payload == 0)
      then no_balance m.fee_token_address (node.lower_address l.address) [] owner
      else skip
  approved_for_all l other = skip

  abbrev pub by_topic : Log → Option Bytes → Step SpendRecord
  by_topic l none = crash
  by_topic l (some topic) =
      if big topic == m.approval_topic then approved l l.topics else approved_for_all l l.topics

  unfoldable pub approvals_step : Log → Step SpendRecord
  approvals_step l = by_topic l (get_elem? l.topics 0)

  abbrev pub approvals_query : Option ℕ → FilterQuery
  approvals_query number = record {
    from_block = block_number number;
    to_block = block_number number;
    addresses = [];
    topics =
        (node.big_to_hash m.approval_topic ∷ node.big_to_hash m.approve_all_topic ∷ [])
        ∷ []
        ∷ []
        ∷ []
        ∷ [];
  }

  unfoldable pub approvals_consume : Block → Consumed Bool SpendRecord
  unfolding approvals_step
  approvals_consume block =
      if node.bloom_lookup block.bloom (big_bytes m.approval_topic)
        || (node.bloom_lookup block.bloom (big_bytes m.approve_all_topic)
            && node.bloom_lookup block.bloom (big_bytes m.token_proxy_address))
      then scan node (approvals_query block.number) (λ s l. (s, approvals_step l)) true
      else stop true acked
