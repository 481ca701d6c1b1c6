-- ===== src/Monitors/CancelUpTo/Recorded.antt =====
-- monitor/cancelupto/cancelupto.go with db/indexer.go: from the log of a cancellation to the orders.
use openrelay.Prelude.{
  ℕ, ◌≡◌, ◌≤◌, refl, List, ◌∷◌, some, Bytes, IsBytes, big, copy, copy_full, zeros, length, drop,
  suc, ltb, false, length-drop, All, arith,
}
use openrelay.Db.Order.{DbOrder, status_open, status_cancelled}
use openrelay.Db.Indexer.{Cancellation, record_cancellation, get_cancellation_epoch}
use openrelay.Db.Indexer.Status.{record_cancellation-open_salt, save_cancellation-get}
use openrelay.Monitors.{emit}
use openrelay.Monitors.CancelUpTo.{cancel_step, cancellation_of}

-- The cancellation that a log with two addresses and an epoch stands for.
abbrev pub meant : Bytes → Bytes → Bytes → Cancellation
meant maker sender epoch = record { maker = drop 12 maker; sender = drop 12 sender; epoch = epoch }

word_address : (t : Bytes) → length t ≡ 32 → copy (zeros 20) (drop 12 t) ≡ drop 12 t
word_address t h = copy_full (zeros 20) (drop 12 t) (omega (arith, length-drop 12 t))

full_record :
    (maker sender epoch : Bytes)
    → length maker ≡ 32
    → length sender ≡ 32
    → length epoch ≡ 32
    → cancellation_of (some maker) (some sender) epoch ≡ emit (meant maker sender epoch)
unfolding cancellation_of
full_record maker sender epoch hm hs he =
    rw (word_address maker hm, word_address sender hs, copy_full (zeros 32) epoch (omega arith))
      refl

enough_topics : (n : ℕ) → ltb (suc (suc (suc n))) 3 ≡ false
enough_topics n = ground arith

cancel_step-emits :
    (address t0 maker sender : Bytes) (rest : List Bytes) (epoch : Bytes)
    → length maker ≡ 32
    → length sender ≡ 32
    → length epoch ≡ 32
    → cancel_step
        (record { address = address; topics = t0 ∷ maker ∷ sender ∷ rest; payload = epoch })
      ≡ emit (meant maker sender epoch)
unfolding cancel_step
cancel_step-emits address t0 maker sender rest epoch hm hs he =
    rw (he, enough_topics (length rest)) (full_record maker sender epoch hm hs he)

-- The log of a cancelOrdersUpTo, with its maker and sender as topics and the epoch as data, is turned
-- into a cancellation. Once that is recorded, no open order of the maker and sender has a salt below
-- the log's epoch, and the epoch is the one that is looked up for the two.
pub cancel_step-record_cancellation :
    (address t0 maker sender : Bytes) (rest : List Bytes) (epoch : Bytes)
    (epochs : List Cancellation) (table : List DbOrder)
    → length maker ≡ 32
    → length sender ≡ 32
    → IsBytes 32 epoch
    → All (λ row. IsBytes 32 row.order.salt) table
    → (c : Cancellation) × (cancel_step
          (record { address = address; topics = t0 ∷ maker ∷ sender ∷ rest; payload = epoch })
        ≡ emit c)
      × All
          (λ row.
            row.status ≡ status_open
            → row.order.maker ≡ drop 12 maker
            → row.order.sender_address ≡ drop 12 sender
            → big epoch ≤ big row.order.salt)
          (record_cancellation status_cancelled c epochs table).1
      × (get_cancellation_epoch
            (drop 12 maker)
            (drop 12 sender)
            (record_cancellation status_cancelled c epochs table).0
          ≡ epoch)
unfolding record_cancellation
cancel_step-record_cancellation address t0 maker sender rest epoch epochs table hm hs he sizes = (
  meant maker sender epoch,
  cancel_step-emits address t0 maker sender rest epoch hm hs he.0,
  record_cancellation-open_salt status_cancelled (meant maker sender epoch) epochs table
      (omega arith) he sizes,
  save_cancellation-get (meant maker sender epoch) epochs,
)
