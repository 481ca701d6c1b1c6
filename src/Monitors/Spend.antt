-- ===== src/Monitors/Spend.antt =====
-- monitor/spend/spend.go: transfers of tokens. What the sender can still spend is asked of the balance
-- checker and published.
pub mod Balances
use openrelay.Prelude.{
  ℕ, Bool, true, false, ◌&&◌, ◌||◌, not, List, [], ◌∷◌, Option, none, some, Bytes, bytes_eq,
  big_bytes, ltb, leb, ◌==◌, ◌-◌, if◌then◌else◌, length, take, drop, get_elem?, copy, zeros,
}
use openrelay.Chain.{Log, Block, FilterQuery, Node, block_number}
use openrelay.Types.Text.{Str, sprint_hex, dec_string}
use openrelay.Types.AssetData.{to_erc20_asset_data, to_erc721_asset_data}
use openrelay.Monitors.{Step, skip, emit, abort, crash, Consumed, acked, stop, scan}
use openrelay.Db.Consumers.{SpendRecord}

-- What the balance checker answers: a number, or an error: the revert of the contract, one of the two
-- others that stand for no balance ("abi: unmarshalling empty output", "no contract code at given
-- address"), or any other.
pub data Checked : Type 0 where
  amount : ℕ → Checked
  reverted : Checked
  no_contract : Checked
  failed : Checked

pub record BalanceChecker : Type 0 where
  pub get_allowance : Bytes → Bytes → Bytes → Checked
  pub get_balance : Bytes → Bytes → Checked

pub record SpendMonitor : Type 0 where
  pub token_proxy_address : Bytes
  pub spend_topic : ℕ
  pub fee_token_address : Str

abbrev pub new_spend_block_consumer : Bytes → Str → SpendMonitor
new_spend_block_consumer tp fee_token = record {
  token_proxy_address = tp;
  spend_topic = 100389287136786176327247604509743168900146139575972864366142685224231313322991;
  fee_token_address = fee_token;
}

-- Who sent, and the asset.
abbrev pub Transfer : Type 0
Transfer = Bytes × Bytes

abbrev pub sender_of : Bytes → Bytes
unfolding copy
sender_of topic = copy (zeros 20) (drop 12 topic)

-- The three kinds of transfer by the number of topics; `none` skips the log. A log without topics is
-- one of CryptoKitties.
unfoldable pub transfer_of : Bytes → List Bytes → Bytes → Option Transfer
unfolding sender_of to_erc20_asset_data to_erc721_asset_data copy
transfer_of token [] payload =
    if leb 96 (length payload)
    then some (
      copy (zeros 20) (take 20 (drop 12 payload)),
      to_erc721_asset_data token (copy (zeros 32) (drop (length payload - 32) payload)),
    )
    else none
transfer_of token (t0 ∷ from ∷ to ∷ []) payload = some (sender_of from, to_erc20_asset_data token)
transfer_of token (t0 ∷ from ∷ to ∷ id ∷ []) payload =
    some (sender_of from, to_erc721_asset_data token (copy (zeros 32) id))
transfer_of token other payload = none

-- A pair of sender and token that was met in the block; pairKey is such a pair as a text.
abbrev pub Traded : Type 0
Traded = List (Bytes × Bytes)

unfoldable pub traded : Bytes → Bytes → Traded → Bool
unfolding bytes_eq
traded sender token [] = false
traded sender token ((s, t) ∷ rest) =
    (bytes_eq s sender && bytes_eq t token) || traded sender token rest

-- An error that stands for no balance counts as 0; another ends the consumer.
abbrev pub or_zero : Checked → Option ℕ
or_zero (amount n) = some n
or_zero reverted = some 0
or_zero no_contract = some 0
or_zero failed = none

abbrev pub is_reverted : Checked → Bool
is_reverted reverted = true
is_reverted (amount n) = false
is_reverted no_contract = false
is_reverted failed = false

-- The smaller of allowance and balance.
abbrev pub spendable : ℕ → Option ℕ → Option ℕ
spendable allowance none = none
spendable allowance (some balance) = some (if ltb allowance balance then allowance else balance)

module _ (bc : BalanceChecker) (m : SpendMonitor) where
  -- A token that reverts is asked for again as an ERC721 one, whose id is the log's data.
  unfoldable pub asset_asked : Bytes → Bytes → Bytes → Bytes → Bytes
  unfolding to_erc721_asset_data copy
  asset_asked token payload sender asset =
      if is_reverted (bc.get_allowance asset sender m.token_proxy_address)
      then to_erc721_asset_data token (copy (zeros 32) payload)
      else asset

  abbrev pub balance_with : Bytes → Bytes → Option ℕ → Option ℕ
  balance_with asset sender none = none
  balance_with asset sender (some allowance) =
      if allowance == 0
      then some allowance
      else spendable allowance (or_zero (bc.get_balance asset sender))

  -- The balance to publish, for the asset that was asked for; `none` ends the consumer.
  unfoldable pub balance_of : Bytes → Bytes → Option ℕ
  balance_of asset sender =
      balance_with asset sender (or_zero (bc.get_allowance asset sender m.token_proxy_address))

  -- The spender is read from Topics[1], which a log without topics lacks.
  abbrev pub spend_record : Str → Bytes → Option Bytes → Option ℕ → Step SpendRecord
  spend_record token asset spender none = abort
  spend_record token asset none (some balance) = crash
  spend_record token asset (some spender) (some balance) = emit (record {
    token_address = token;
    asset_data = sprint_hex asset;
    spender_address = sprint_hex (drop 12 spender);
    zrx_token = m.fee_token_address;
    balance = dec_string balance;
  })

  module _ (node : Node) where
    abbrev pub transferred : Log → Bytes → Traded → Option Transfer → Traded × Step SpendRecord
    unfolding traded asset_asked balance_of
    transferred l token seen none = (seen, skip)
    transferred l token seen (some (sender, asset)) =
        if traded sender token seen then (seen, skip) else (
          (sender, token) ∷ seen,
          spend_record (node.lower_address l.address) (asset_asked token l.payload sender asset)
              (get_elem? l.topics 1) (balance_of (asset_asked token l.payload sender asset) sender),
        )

    unfoldable pub spend_step : Traded → Log → Traded × Step SpendRecord
    unfolding transferred transfer_of copy
    spend_step seen l =
        transferred l (copy (zeros 20) l.address) seen
          (transfer_of (copy (zeros 20) l.address) l.topics l.payload)

    abbrev pub spend_query : Option ℕ → FilterQuery
    spend_query number = record {
      from_block = block_number number;
      to_block = block_number number;
      addresses = [];
      topics = (node.big_to_hash m.spend_topic ∷ []) ∷ [] ∷ [] ∷ [];
    }

    unfoldable pub spend_consume : Block → Consumed Traded SpendRecord
    unfolding spend_step
    spend_consume block =
        if node.bloom_lookup block.bloom (big_bytes m.spend_topic)
        then scan node (spend_query block.number) spend_step []
        else stop [] acked
