-- ===== src/Funds/Consumers.antt =====
-- funds/filled_consumer.go, funds/cancellation_consumer.go, funds/filled_update.go and
-- funds/cancellation_update.go: an order that passes through has its fills and its cancellation looked
-- up again, and is published. The contracts, the bloom filter and rlp are parameters; the
-- table of cancellations is that of Db/Indexer. The payload that is published is the order itself.
pub mod Laws
use openrelay.Prelude.{
  ℕ, Bool, true, false, not, ◌&&◌, ◌||◌, List, [], ◌∷◌, Option, none, some, Bytes, bytes_eq,
  bytes_lt, if◌then◌else◌, copy, zeros, length, take, ◌-◌, ◌++◌, replicate, Outcome, ok, err, panic,
  ◌>>=◌,
}
use openrelay.Types.Order
use openrelay.Db.Indexer.{Cancellation}
use Prim.Native.String.{String}

-- What a consumer did with a message: the orders published as changed and to all, and how the message
-- was settled.
pub data Settled : Type 0 where
  acked : Settled
  rejected : Settled

pub record Effects : Type 0 where
  pub changed : List Order.Order
  pub all : List Order.Order
  pub settled : List Settled

-- doLookup and doLookupBoolean, where `none` is an error of the lookup: the value that is used, and whether it changed.
abbrev pub do_lookup : Bytes → Option Bytes → Bytes × Bool
do_lookup old (some value) = (value, not (bytes_eq value old))
do_lookup old none = (old, not (bytes_eq old old))

abbrev pub bool_eq : Bool → Bool → Bool
bool_eq true b = b
bool_eq false b = not b

abbrev pub do_lookup_boolean : Bool → Option Bool → Bool × Bool
do_lookup_boolean old (some value) = (value, not (bool_eq value old))
do_lookup_boolean old none = (old, not (bool_eq old old))

-- The two receives from `changes`, which hold the answers in the order in which the lookups sent them.
abbrev pub any_change : Bool → Bool → Bool → Bool
any_change filled_first cancelled_changed filled_changed =
    if filled_first
    then filled_changed || cancelled_changed
    else cancelled_changed || filled_changed

abbrev pub with_lookups : Order.Order → Bool × Bool → Bytes × Bool → Order.Order
with_lookups o cancelled filled = record o {
  cancelled = cancelled.0 || o.cancelled;
  taker_asset_amount_filled = filled.0;
}

abbrev pub published_if : Bool → Order.Order → List Order.Order
published_if true o = o ∷ []
published_if false o = []

-- FillConsumer.Consume after the message is parsed. `settled` is what was done with it before.
unfoldable pub consume_parsed :
    Bool → Bool → List Settled → Order.Order → Option Bool → Option Bytes → Effects
consume_parsed has_change_publisher filled_first settled o cancelled filled =
    let c = do_lookup_boolean o.cancelled cancelled in
    let f = do_lookup o.taker_asset_amount_filled filled in
    record {
      changed =
          published_if (any_change filled_first c.1 f.1 && has_change_publisher)
            (with_lookups o c f);
      all = with_lookups o c f ∷ [];
      settled = acked ∷ settled;
    }

-- After a parse error the message is rejected, and the order as far as it was parsed is consumed all
-- the same.
unfoldable pub fill_consume :
    Bool
    → Bool
    → Order.Order × Bool
    → (Order.Order → Option Bool)
    → (Order.Order → Option Bytes)
    → Effects
unfolding consume_parsed
fill_consume has_change_publisher filled_first parsed get_cancelled get_amount_filled =
    consume_parsed has_change_publisher filled_first (if parsed.1 then [] else rejected ∷ [])
      parsed.0 (get_cancelled parsed.0) (get_amount_filled parsed.0)

-- What the contract of the order's exchange answers; `none` is an error.
pub record Contract : Type 0 where
  pub new_exchange : Bytes → Bool
  pub cancelled : Bytes → Option Bool
  pub filled : Bytes → Option Bytes

-- The bloom filter, if there is one and it is initialised, says that the hash was never seen.
unfoldable pub bloom_misses : Option (Bool × (Bytes → Bool)) → Bytes → Bool
bloom_misses none h = false
bloom_misses (some (initialized, test)) h = initialized && not (test h)

module _ (keccak256 : Bytes → Bytes) (bloom : Option (Bool × (Bytes → Bool))) (c : Contract) where
  unfoldable pub get_cancelled : Order.Order → Option Bool
  unfolding bloom_misses
  get_cancelled o =
      if bloom_misses bloom (Order.hash keccak256 o)
      then some false
      else if not (c.new_exchange o.exchange_address)
      then none
      else (c.cancelled (copy (zeros 32) (Order.hash keccak256 o)))

  -- common.LeftPadBytes of at most 32 bytes.
  abbrev pub left_pad : Bytes → Bytes
  left_pad b = replicate (32 - length b) 0 ++ b

  abbrev pub padded : Option Bytes → Option Bytes
  padded none = none
  padded (some b) = some (copy (zeros 32) (left_pad b))

  unfoldable pub get_amount_filled : Order.Order → Option Bytes
  unfolding bloom_misses
  get_amount_filled o =
      if bloom_misses bloom (Order.hash keccak256 o)
      then some (zeros 32)
      else if not (c.new_exchange o.exchange_address)
      then none
      else padded (c.filled (copy (zeros 32) (Order.hash keccak256 o)))

-- What the query of GetCancelled answers: the row's epoch, which may be NULL, no row, or an error.
pub data EpochQuery : Type 0 where
  epoch : Option Bytes → EpochQuery
  not_found : EpochQuery
  failed : String → EpochQuery

-- Where(maker = ? AND sender = ?).First on the rows that Db.Indexer.save_cancellation writes, which have
-- an epoch; the query's error is given.
unfoldable pub cancellation_query : Option String → Bytes → Bytes → List Cancellation → EpochQuery
cancellation_query (some e) maker sender rows = failed e
cancellation_query none maker sender [] = not_found
cancellation_query none maker sender (row ∷ rows) =
    let rest = cancellation_query none maker sender rows in
    if bytes_eq row.maker maker && bytes_eq row.sender sender then epoch (some row.epoch) else rest

unfoldable pub below_epoch : EpochQuery → Bytes → Bool × Bool
unfolding bytes_lt
below_epoch (epoch none) salt = (false, true)
below_epoch (epoch (some e)) salt = (bytes_lt salt e, true)
below_epoch not_found salt = (false, true)
below_epoch (failed e) salt = (true, false)

-- dbCancellationLookup.GetCancelled.
unfoldable pub db_get_cancelled : Option String → List Cancellation → Order.Order → Bool × Bool
unfolding below_epoch cancellation_query
db_get_cancelled fails rows o =
    if o.cancelled
    then (true, true)
    else below_epoch (cancellation_query fails o.maker o.sender_address rows) o.salt

-- CancellationConsumer.Consume; the second component of an answer says that there was no error.
unfoldable pub cancellation_consume :
    Bool → Option Order.Order → (Order.Order → Bool × Bool) → Effects
cancellation_consume has_change_publisher none lookup = record {
  changed = [];
  all = [];
  settled = rejected ∷ [];
}
cancellation_consume has_change_publisher (some o) lookup =
    if not (lookup o).1
    then record { changed = []; all = []; settled = rejected ∷ [] }
    else record {
      changed =
          published_if (not (bool_eq o.cancelled (lookup o).0) && has_change_publisher)
            (record o { cancelled = (lookup o).0 });
      all = record o { cancelled = (lookup o).0 } ∷ [];
      settled = acked ∷ [];
    }
