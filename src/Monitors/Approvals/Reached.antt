-- ===== src/Monitors/Approvals/Reached.antt =====
-- monitor/erc721approvals/approval.go: what the query lets through.
use openrelay.Prelude.{
  ◌≡◌, ◌≢◌, sym, ap, true, false, ◌&&◌, List, [], ◌∷◌, none, Bytes, big, big_bytes, ◌||◌, ◌==◌, All,
  Bool-cases, inl, inr, true-false, and_right, length, arith, copy,
}
use openrelay.Chain.{Log, Block, Node, OnlyMatching, log_matches, topics_match}
use openrelay.Types.Text.{sprint_hex}
use openrelay.Types.AssetData.{to_erc721_asset_data}
use openrelay.Monitors.{panicked}
use openrelay.Monitors.Walk.{Emits, scan-Emits, acked-panicked}
use openrelay.Db.Consumers.{SpendRecord}
use openrelay.Monitors.Approvals.{
  ApprovalMonitor, approved, approvals_step, approvals_query, approvals_consume,
}

NamesAsset : SpendRecord → Type 0
NamesAsset r = r.asset_data ≢ []

sprint_hex-erc721 : (a t : Bytes) → sprint_hex (to_erc721_asset_data a t) ≢ []
unfolding sprint_hex to_erc721_asset_data copy
sprint_hex-erc721 a t e = omega (arith, ap length e)

module _ (node : Node) (m : ApprovalMonitor) where
  approved-Emits : (l : Log) (topics : List Bytes) → Emits NamesAsset (approved node m l topics)
  unfolding approved NamesAsset
  approved-Emits l [] = tt
  approved-Emits l (a ∷ []) = tt
  approved-Emits l (a ∷ b ∷ []) = tt
  approved-Emits l (a ∷ b ∷ c ∷ []) = tt
  approved-Emits l (a ∷ b ∷ c ∷ d ∷ []) = elim (Bool-cases (big c == m.token_proxy_address)) [
    | inl e ↦ rw e tt
    | inr e ↦ rw e (sprint_hex-erc721 l.address d)
  ]
  approved-Emits l (a ∷ b ∷ c ∷ d ∷ e ∷ rest) = tt

  reached :
      (address : Bytes) (topics : List Bytes) (payload : Bytes)
      → topics_match (approvals_query node m none).topics topics ≡ true
      → Emits NamesAsset
          (approvals_step node m (record { address = address; topics = topics; payload = payload }))
  unfolding topics_match approvals_step
  reached address [] payload e = absurd (true-false (sym e))
  reached address (a ∷ []) payload e = absurd (true-false (sym (and_right _ false e)))
  reached address (a ∷ b ∷ []) payload e = absurd (true-false (sym (and_right _ false e)))
  reached address (a ∷ b ∷ c ∷ []) payload e = absurd (true-false (sym (and_right _ false e)))
  reached address (a ∷ b ∷ c ∷ d ∷ rest) payload e = elim (Bool-cases (big a == m.approval_topic)) [
    | inl eq ↦ rw eq (
        approved-Emits
          (record { address = address; topics = a ∷ b ∷ c ∷ d ∷ rest; payload = payload })
          (a ∷ b ∷ c ∷ d ∷ rest))
    | inr eq ↦ rw eq tt
  ]

  -- If FilterLogs gives only logs that match the query, then every record that is published names a
  -- single asset, and the consumer does not panic. So a withdrawn ApprovalForAll, whose record names
  -- none, is never published: its log has three topics, and the query asks for four.
  pub approvals_consume-names_asset :
      (block : Block)
      → OnlyMatching node
      → All (λ r. r.asset_data ≢ []) (approvals_consume node m block).published
        × ((approvals_consume node m block).ending ≢ panicked)
  unfolding approvals_consume NamesAsset log_matches
  approvals_consume-names_asset block only =
      elim (Bool-cases (
        node.bloom_lookup block.bloom (big_bytes m.approval_topic)
        || (node.bloom_lookup block.bloom (big_bytes m.approve_all_topic)
            && node.bloom_lookup block.bloom (big_bytes m.token_proxy_address)))) [
              | inl e ↦ rw e (
                  scan-Emits NamesAsset node (approvals_query node m block.number)
                    (λ s l. (s, approvals_step node m l)) true only
                    (λ s l matches. reached l.address l.topics l.payload matches))
              | inr e ↦ rw e (tt, acked-panicked)
            ]
