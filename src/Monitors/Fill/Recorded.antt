-- ===== src/Monitors/Fill/Recorded.antt =====
-- monitor/fill/fill.go with db/indexer.go: from the log of a fill to the order's row, and to the bloom
-- filter.
use openrelay.Prelude.{
  ◌≢◌, take, drop, ℕ, ◌≡◌, ◌≤◌, arith, ◌<◌, ◌+◌, ◌^◌, refl, true, false, List, [], ◌∷◌, none, some,
  Option, Bytes, IsBytes, big, bytes_eq, length, ltb, ==_iff, All, ok, ℤ, pos,
}
use openrelay.Types.Order
use openrelay.Types.Order.Json.{U256Law}
use openrelay.Types.Signature.{Crypto, verify}
use openrelay.Types.Text.{sprint_hex, dec_string, set_string}
use openrelay.Types.Text.RoundTrip.{hex_decode-sprint_hex, set_string-dec_string}
use openrelay.Db.Order.{DbOrder, find_row}
use openrelay.Db.Indexer.{FillRecord, record_fill, amount_text}
use openrelay.Db.Indexer.Fill.{Filled, record_fill_lem, record_fill-succeeds}
use openrelay.FillBloom
use openrelay.FillBloom.{Filter, FillBloom}
use openrelay.Monitors.{emit}
use openrelay.Monitors.Fill.{FillMonitor, fill_step}

nothing-some : (z : ℤ) → ◌≢◌ {A = Option ℤ} none (some z)
nothing-some z e = cc

amount_same : (s : Bytes) (z : ℤ) → set_string s ≡ some z → set_string (amount_text s) ≡ some z
unfolding set_string
amount_same [] z e = absurd (nothing-some z e)
amount_same (x ∷ xs) z e = e

guard_passes : (n : ℕ) → 256 ≤ n → ltb n 256 ≡ false
guard_passes n h = ground arith

-- The record of a fill: the order's hash, and the fourth word of the data.
abbrev filled_by : Bytes → Bytes → FillRecord
filled_by hash payload = record {
  order_hash = sprint_hex hash;
  filled_taker_asset_amount = dec_string (big (take 32 (drop 96 payload)));
  cancel = false;
}

module _ {B : Type 0} (f : Filter B) (m : FillMonitor) where
  fill_step-emits :
      (fb : FillBloom B) (address topic t1 t2 hash : Bytes) (rest : List Bytes) (payload : Bytes)
      → big topic ≡ m.fill_topic
      → 256 ≤ length payload
      → fill_step f m fb
          (record { address = address; topics = topic ∷ t1 ∷ t2 ∷ hash ∷ rest; payload = payload })
        ≡ (FillBloom.add f fb hash, emit (filled_by hash payload))
  unfolding fill_step
  fill_step-emits fb address topic t1 t2 hash rest payload is_fill long =
      rw (guard_passes (length payload) long, (==_iff (big topic) m.fill_topic).1 is_fill) refl

  -- The log of a fill, with the order's hash as its fourth topic and at least 256 bytes of data, puts
  -- the hash into the bloom filter and is turned into a record. RecordFill of that record succeeds on a
  -- table that has the order under the hash, signed by its maker and of a taker amount that is not 0,
  -- and adds exactly the log's amount, the fourth word of its data, to the order's row, while the sum
  -- fits in 256 bits; the row's status follows, it is marked as cancelled by nothing new, and what is
  -- found under another hash stays.
  pub fill_step-record_fill :
      (c : Crypto) (u256 : ℤ → Bytes) (quo : ℕ → ℕ → ℕ) (law : U256Law u256) (fb : FillBloom B)
      (address topic t1 t2 hash : Bytes) (rest : List Bytes) (payload : Bytes)
      (table : List DbOrder) (row : DbOrder)
      → big topic ≡ m.fill_topic
      → 256 ≤ length payload
      → All (λ x. x < 256) hash
      → find_row hash table ≡ some row
      → row.order_hash ≡ Order.hash c.keccak256 row.order
      → verify c row.order.signature row.order.maker row.order_hash ≡ ok true
      → big row.order.taker_asset_amount ≢ 0
      → IsBytes 32 row.order.taker_asset_amount_filled
      → big row.order.taker_asset_amount_filled + big (take 32 (drop 96 payload)) < 256 ^ 32
      → (r : FillRecord) × (after : List DbOrder) × (row' : DbOrder) × (fill_step f m fb (record {
        address = address;
        topics = topic ∷ t1 ∷ t2 ∷ hash ∷ rest;
        payload = payload;
      })
          ≡ (FillBloom.add f fb hash, emit r))
        × (record_fill c u256 quo r table ≡ ok after)
        × (find_row hash after ≡ some row')
        × Filled c u256 quo law (big (take 32 (drop 96 payload))) false row row'
        × ((k : Bytes) → bytes_eq hash k ≡ false → find_row k after ≡ find_row k table)
  fill_step-record_fill c u256 quo law fb address topic t1 t2 hash rest payload table row is_fill
        long bytes found key signed positive size bound =
      let n = big (take 32 (drop 96 payload)) in
      let hex = hex_decode-sprint_hex hash bytes in
      let amount = amount_same (dec_string n) (pos n) (set_string-dec_string n) in
      let (after, done) =
        record_fill-succeeds c u256 quo law (filled_by hash payload) hash (pos n) table row hex
          amount found key signed positive in
      let (row', there, filled, elsewhere) =
        record_fill_lem c u256 quo law (filled_by hash payload) hash n table after row hex amount
          found key size bound done in
      (
        filled_by hash payload,
        after,
        row',
        fill_step-emits fb address topic t1 t2 hash rest payload is_fill long,
        done,
        there,
        filled,
        elsewhere,
      )
