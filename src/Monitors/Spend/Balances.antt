-- ===== src/Monitors/Spend/Balances.antt =====
-- monitor/spend/spend.go: the balances that are published.
use openrelay.Prelude.{
  ℕ, ◌≡◌, ◌≢◌, ◌⊎◌, refl, sym, ◌∙◌, true, false, List, [], ◌∷◌, Option, none, some, Bytes,
  big_bytes, ◌==◌, ==_iff, if◌then◌else◌, ltb, All, Bool-cases, inl, inr, true-false, and_right,
  arith, min, copy, zeros, drop, get_elem?,
}
use openrelay.Chain.{Log, Block, Node, OnlyMatching, log_matches, topics_match}
use openrelay.Types.Text.{sprint_hex, dec_string}
use openrelay.Types.AssetData.{to_erc20_asset_data, to_erc721_asset_data}
use openrelay.Monitors.{panicked}
use openrelay.Monitors.Walk.{Emits, scan-Emits, acked-panicked}
use openrelay.Db.Consumers.{SpendRecord}
use openrelay.Monitors.Spend.{
  BalanceChecker, SpendMonitor, Traded, or_zero, balance_with, balance_of, spendable, spend_record,
  traded, transferred, transfer_of, asset_asked, spend_step, spend_query, spend_consume,
}

module _ (bc : BalanceChecker) (m : SpendMonitor) where
  -- What the sender can spend of an asset through the token proxy: nothing without an allowance, else
  -- the smaller of allowance and balance, where the errors that stand for none count as 0.
  abbrev pub Spendable : Bytes → Bytes → ℕ → Type 0
  Spendable asset sender n =
      (a : ℕ) × (or_zero (bc.get_allowance asset sender m.token_proxy_address) ≡ some a)
      × (((a ≡ 0) × (n ≡ 0))
          ⊎ ((b : ℕ) × (or_zero (bc.get_balance asset sender) ≡ some b) × (n ≡ min a b)))

  smaller : (a b : ℕ) → (if ltb a b then a else b) ≡ min a b
  smaller a b = ground arith

  some-injective : (a b : ℕ) → some a ≡ some b → a ≡ b
  some-injective a b e = cc

  nothing-some : (a : ℕ) → ◌≢◌ {A = Option ℕ} none (some a)
  nothing-some a e = cc

  spendable_inv :
      (a n : ℕ) (o : Option ℕ) → spendable a o ≡ some n → (b : ℕ) × (o ≡ some b) × (n ≡ min a b)
  spendable_inv a n none e = absurd (nothing-some n e)
  spendable_inv a n (some b) e =
      (b, refl, sym (some-injective (if ltb a b then a else b) n e) ∙ smaller a b)

  balance_with_inv :
      (asset sender : Bytes) (n : ℕ) (o : Option ℕ)
      → balance_with bc m asset sender o ≡ some n
      → (a : ℕ) × (o ≡ some a)
        × (((a ≡ 0) × (n ≡ 0))
            ⊎ ((b : ℕ) × (or_zero (bc.get_balance asset sender) ≡ some b) × (n ≡ min a b)))
  balance_with_inv asset sender n none e = absurd (nothing-some n e)
  balance_with_inv asset sender n (some a) e = elim (Bool-cases (a == 0)) [
    | inl eq ↦
        let zero_a = (==_iff a 0).0 eq in
        (a, refl, inl (zero_a, sym (some-injective a n (sym (rw eq refl) ∙ e)) ∙ zero_a))
    | inr ne ↦ (
      a,
      refl,
      inr (spendable_inv a n (or_zero (bc.get_balance asset sender)) (sym (rw ne refl) ∙ e)),
    )
  ]

  balance_of-Spendable :
      (asset sender : Bytes) (n : ℕ)
      → balance_of bc m asset sender ≡ some n
      → Spendable asset sender n
  unfolding balance_of
  balance_of-Spendable asset sender n e =
      balance_with_inv asset sender n
        (or_zero (bc.get_allowance asset sender m.token_proxy_address)) e

  -- A record of the balance that its spender has of its asset.
  abbrev pub Reports : SpendRecord → Type 0
  Reports r =
      (asset : Bytes) × (spender : Bytes) × (n : ℕ) × (r.asset_data ≡ sprint_hex asset)
      × (r.spender_address ≡ sprint_hex spender)
      × (r.balance ≡ dec_string n)
      × Spendable asset (copy (zeros 20) spender) n

  record-Reports :
      (token asset t1 : Bytes) (o : Option ℕ)
      → balance_of bc m asset (copy (zeros 20) (drop 12 t1)) ≡ o
      → Emits Reports (spend_record bc m token asset (some t1) o)
  record-Reports token asset t1 none e = tt
  record-Reports token asset t1 (some n) e = (
    asset,
    drop 12 t1,
    n,
    refl,
    refl,
    refl,
    balance_of-Spendable asset (copy (zeros 20) (drop 12 t1)) n e,
  )

  module _ (node : Node) where
    sent-Reports :
        (seen : Traded) (l : Log) (token t1 asset : Bytes)
        → get_elem? l.topics 1 ≡ some t1
        → Emits Reports
            (transferred bc m node l token seen (some (copy (zeros 20) (drop 12 t1), asset))).1
    unfolding transferred
    sent-Reports seen l token t1 asset e =
        elim (Bool-cases (traded (copy (zeros 20) (drop 12 t1)) token seen)) [
          | inl met ↦ rw met tt
          | inr unmet ↦
              let sender = copy (zeros 20) (drop 12 t1) in
              let asked = asset_asked bc m token l.payload sender asset in
              rw (unmet, e)
                (record-Reports (node.lower_address l.address) asked t1
                  (balance_of bc m asked sender) refl)
        ]

    step-Reports :
        (seen : Traded) (address : Bytes) (topics : List Bytes) (payload : Bytes)
        → topics_match (spend_query bc m node none).topics topics ≡ true
        → Emits Reports
            (spend_step bc m node seen
              (record { address = address; topics = topics; payload = payload })).1
    unfolding topics_match spend_step transfer_of
    step-Reports seen address [] payload e = absurd (true-false (sym e))
    step-Reports seen address (a ∷ []) payload e = absurd (true-false (sym (and_right _ false e)))
    step-Reports seen address (a ∷ b ∷ []) payload e =
        absurd (true-false (sym (and_right _ false e)))
    step-Reports seen address (a ∷ b ∷ c ∷ []) payload e =
        sent-Reports seen (record { address = address; topics = a ∷ b ∷ c ∷ []; payload = payload })
          (copy (zeros 20) address) b (to_erc20_asset_data (copy (zeros 20) address)) refl
    step-Reports seen address (a ∷ b ∷ c ∷ d ∷ []) payload e =
        sent-Reports seen
          (record { address = address; topics = a ∷ b ∷ c ∷ d ∷ []; payload = payload })
          (copy (zeros 20) address) b
          (to_erc721_asset_data (copy (zeros 20) address) (copy (zeros 32) d)) refl
    step-Reports seen address (a ∷ b ∷ c ∷ d ∷ f ∷ rest) payload e = tt

    -- If FilterLogs gives only logs that match the query, then the consumer does not panic, and every
    -- record that is published has the balance that its spender can spend of its asset: 0 without an
    -- allowance for the token proxy, else the smaller of allowance and balance.
    pub spend_consume-Reports :
        (block : Block)
        → OnlyMatching node
        → All Reports (spend_consume bc m node block).published
          × ((spend_consume bc m node block).ending ≢ panicked)
    unfolding spend_consume log_matches
    spend_consume-Reports block only =
        elim (Bool-cases (node.bloom_lookup block.bloom (big_bytes m.spend_topic))) [
          | inl e ↦ rw e (
              scan-Emits Reports node (spend_query bc m node block.number) (spend_step bc m node) []
                only (λ seen l matches. step-Reports seen l.address l.topics l.payload matches))
          | inr e ↦ rw e (tt, acked-panicked)
        ]
