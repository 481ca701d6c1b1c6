-- ===== src/Monitors/Tests.antt =====
-- Tests of the monitors: a node that answers a query with the logs of one block that match it.
use openrelay.Prelude.{
  ◌≡◌, ◌≢◌, ◌≤◌, ◌<◌, ◌+◌, ◌^◌, refl, subst, Bool, true, false, List, [], ◌∷◌, ◌++◌, some, Bytes,
  bytes_eq, replicate, to_bytes, ok, arith, Bool-cases, inl, inr, zeros, All, if◌then◌else◌, codes,
  big, drop, copy, take,
}
use openrelay.Types.Text.{sprint_hex, hex_encode, dec_string}
use openrelay.Types.Order
use openrelay.Types.Samples.{amount, word, word_law}
use openrelay.Types.Signature.{verify, verify_by_type}
use openrelay.Chain.{Log, Node, FilterQuery, Block, OnlyMatching, log_matches}
use openrelay.Db.Samples.{crypto, quo, row}
use openrelay.Db.Order.{DbOrder, find_row, status_open, status_cancelled}
use openrelay.Db.Indexer.{
  FillRecord, Cancellation, record_fill, record_cancellation, get_cancellation_epoch,
}
use openrelay.Db.Indexer.Fill.{Filled}
use openrelay.FillBloom
use openrelay.FillBloom.{Filter, FillBloom, absent, holds}
use openrelay.FillBloom.Covers.{FilterLaw}
use openrelay.Monitors.{Consumed, acked, scan, each, emit, panicked}
use openrelay.Monitors.Fill.{
  new_fill_block_consumer, fill_step, fill_consume, consume_initialized, may_have_fills,
}
use openrelay.Monitors.Fill.Recorded.{fill_step-record_fill}
use openrelay.Monitors.Fill.LookedUp.{Seen, fill_consume-Seen}
use openrelay.Monitors.CancelUpTo.{cancel_step}
use openrelay.Monitors.CancelUpTo.Recorded.{cancel_step-record_cancellation}
use openrelay.Monitors.Approvals.{new_approval_block_consumer, approvals_consume}
use openrelay.Monitors.Approvals.Reached.{approvals_consume-names_asset}
use openrelay.Monitors.Spend.{new_spend_block_consumer, spend_consume, BalanceChecker, Checked}
use openrelay.Monitors.Spend.Balances.{Reports, spend_consume-Reports}

-- A filter that holds everything.
abbrev full : Filter Bool
full = record { add = λ b x. b; test = λ b x. true }

full_law : FilterLaw full
full_law = record { added = λ b x. refl; kept = λ b x y h. refl }

matching : FilterQuery → List Log → List Log
matching q [] = []
matching q (l ∷ ls) = let rest = matching q ls in if log_matches q l then l ∷ rest else rest

matching-All :
    (q : FilterQuery) (logs : List Log) → All (λ l. log_matches q l ≡ true) (matching q logs)
unfolding matching
matching-All q [] = tt
matching-All q (l ∷ ls) = elim (Bool-cases (log_matches q l)) [
  | inl e ↦ rw e (e, matching-All q ls)
  | inr e ↦ rw e (matching-All q ls)
]

some-injective : (a b : List Log) → some a ≡ some b → a ≡ b
some-injective a b e = cc

abbrev transfer : Log
transfer = record {
  address = replicate 20 9;
  topics =
      to_bytes 32 (new_spend_block_consumer [] []).spend_topic
      ∷ (zeros 12 ++ replicate 20 1)
      ∷ zeros 32
      ∷ [];
  payload = amount 5;
}

abbrev approval : Log
approval = record {
  address = replicate 20 9;
  topics =
      to_bytes 32 (new_approval_block_consumer 3 []).approval_topic
      ∷ (zeros 12 ++ replicate 20 1)
      ∷ zeros 32
      ∷ amount 8
      ∷ [];
  payload = [];
}

abbrev fill_topic : Bytes
fill_topic = to_bytes 32 (new_fill_block_consumer 4).fill_topic

abbrev fill_data : Bytes
fill_data = zeros 96 ++ (amount 60 ++ zeros 128)

abbrev filled_log : Log
filled_log = record {
  address = to_bytes 20 4;
  topics = fill_topic ∷ zeros 32 ∷ zeros 32 ∷ (7 ∷ []) ∷ [];
  payload = fill_data;
}

abbrev node : Node
unfolding matching
node = record {
  bloom_lookup = λ b x. true;
  filter_logs = λ q. some (matching q (transfer ∷ approval ∷ filled_log ∷ []));
  big_to_address = λ n. to_bytes 20 n;
  big_to_hash = λ n. to_bytes 32 n;
  lower_address = sprint_hex;
}

node_matches : OnlyMatching node
unfolding node
node_matches q logs e =
    subst (λ (ls : List Log). All (λ l. log_matches q l ≡ true) ls)
      (some-injective (matching q (transfer ∷ approval ∷ filled_log ∷ [])) logs e)
      (matching-All q (transfer ∷ approval ∷ filled_log ∷ []))

abbrev block : Block
block = record { hash = []; number = some 7; bloom = [] }

-- The spender has 50 units of the token, and an allowance for 20.
abbrev balances : BalanceChecker
balances = record {
  get_allowance = λ asset user proxy. Checked.amount 20;
  get_balance = λ asset user. Checked.amount 50;
}

spend_consume_example :
    All
      (Reports balances (new_spend_block_consumer (replicate 20 3) []))
      (spend_consume balances (new_spend_block_consumer (replicate 20 3) []) node block).published
    × ((spend_consume balances (new_spend_block_consumer (replicate 20 3) []) node block).ending
        ≢ panicked)
spend_consume_example =
    spend_consume-Reports balances (new_spend_block_consumer (replicate 20 3) []) node block
      node_matches

approvals_consume_example :
    All
      (λ r. r.asset_data ≢ [])
      (approvals_consume node (new_approval_block_consumer 3 []) block).published
    × ((approvals_consume node (new_approval_block_consumer 3 []) block).ending ≢ panicked)
approvals_consume_example =
    approvals_consume-names_asset node (new_approval_block_consumer 3 []) block node_matches

abbrev fresh : FillBloom Bool
fresh = record { b = false; store = absent; initialized = true }

abbrev consumed : Consumed (FillBloom Bool) FillRecord
consumed = fill_consume full node (new_fill_block_consumer 4) true 10000 block fresh

abbrev seven : FillRecord
seven = record { order_hash = codes "0x07"; filled_taker_asset_amount = codes "60"; cancel = false }

consumed-published : consumed.published ≡ seven ∷ []
unfolding fill_consume consume_initialized may_have_fills scan each matching log_matches fill_step
    node big to_bytes sprint_hex hex_encode dec_string bytes_eq
consumed-published = refl

consumed-acked : consumed.ending ≡ acked
unfolding fill_consume consume_initialized may_have_fills scan each matching log_matches fill_step
    node big to_bytes bytes_eq
consumed-acked = refl

consumed-store : holds false ≡ consumed.state.store
unfolding fill_consume consume_initialized may_have_fills scan each matching log_matches fill_step
    node big to_bytes bytes_eq FillBloom.add
consumed-store = refl

fill_consume-Seen_example :
    All
      (Seen full full_law node 10000 9 []
        (record { b = false; store = holds false; initialized = false }))
      consumed.published
fill_consume-Seen_example =
    fill_consume-Seen full full_law node (new_fill_block_consumer 4) 10000 block fresh 10000 9 []
      (record { b = false; store = holds false; initialized = false }) consumed-acked consumed-store

fill_topic_value : big fill_topic ≡ (new_fill_block_consumer 4).fill_topic
unfolding big to_bytes
fill_topic_value = refl

found-row : find_row (7 ∷ []) (row ∷ []) ≡ some row
unfolding find_row bytes_eq
found-row = refl

key-row : row.order_hash ≡ Order.hash crypto.keccak256 row.order
unfolding Order.hash
key-row = refl

bound-row : big row.order.taker_asset_amount_filled + big (take 32 (drop 96 fill_data)) < 256 ^ 32
unfolding big
bound-row = omega arith

signed-row : verify crypto row.order.signature row.order.maker row.order_hash ≡ ok true
unfolding verify verify_by_type
signed-row = refl

fill_step_example :
    (r : FillRecord) × (after : List DbOrder) × (row' : DbOrder) × (fill_step full
        (new_fill_block_consumer 4)
        fresh
        (record {
          address = [];
          topics = fill_topic ∷ [] ∷ [] ∷ (7 ∷ []) ∷ [];
          payload = fill_data;
        })
      ≡ (FillBloom.add full fresh (7 ∷ []), emit r))
    × (record_fill crypto word quo r (row ∷ []) ≡ ok after)
    × (find_row (7 ∷ []) after ≡ some row')
    × Filled crypto word quo word_law (big (take 32 (drop 96 fill_data))) false row row'
    × ((k : Bytes) → bytes_eq (7 ∷ []) k ≡ false → find_row k after ≡ find_row k (row ∷ []))
unfolding big
fill_step_example =
    fill_step-record_fill full (new_fill_block_consumer 4) crypto word quo word_law fresh []
      fill_topic [] [] (7 ∷ []) [] fill_data (row ∷ []) row fill_topic_value (omega arith)
      (omega arith) found-row key-row signed-row (omega arith) (omega arith) bound-row

abbrev maker_word : Bytes
maker_word = zeros 12 ++ replicate 20 1

abbrev sender_word : Bytes
sender_word = zeros 12 ++ replicate 20 6

abbrev cancellation : Cancellation
cancellation = record { maker = replicate 20 1; sender = replicate 20 6; epoch = amount 50 }

step-cancellation :
    cancel_step
      (record { address = []; topics = [] ∷ maker_word ∷ sender_word ∷ []; payload = amount 50 })
    ≡ emit cancellation
unfolding cancel_step copy
step-cancellation = refl

cancel_step_example :
    (c : Cancellation) × (cancel_step
        (record { address = []; topics = [] ∷ maker_word ∷ sender_word ∷ []; payload = amount 50 })
      ≡ emit c)
    × All
        (λ r.
          r.status ≡ status_open
          → r.order.maker ≡ drop 12 maker_word
          → r.order.sender_address ≡ drop 12 sender_word
          → big (amount 50) ≤ big r.order.salt)
        (record_cancellation status_cancelled c [] (row ∷ [])).1
    × (get_cancellation_epoch
          (drop 12 maker_word)
          (drop 12 sender_word)
          (record_cancellation status_cancelled c [] (row ∷ [])).0
        ≡ amount 50)
cancel_step_example =
    cancel_step-record_cancellation [] [] maker_word sender_word [] (amount 50) [] (row ∷ []) refl
      refl (omega arith) (omega arith)
