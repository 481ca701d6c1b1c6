-- ===== src/Channels.antt =====
-- channels/queue_consumer.go, channels/delivery.go, channels/publisher.go and channels/relay.go: queues
-- of messages in Redis lists. The commands of Redis are an interface with the laws that its
-- documentation gives them; they are taken to succeed. Goroutines are the steps they run.
pub mod Returned
pub mod Delay
pub mod Ordered
mod Tests
use openrelay.Prelude.{
  ℕ, zero, suc, ◌+◌, ◌-◌, ◌≡◌, Bool, true, false, not, ◌&&◌, List, [], ◌∷◌, ◌++◌, Option, none,
  some, ltb, ◌==◌, if◌then◌else◌, length, Bytes, bytes_eq, take,
}
use openrelay.Types.Text.{Str}

-- A Redis list, head first: LPush, RPush, LRem with count 1, the pop of RPopLPush, and LTrim(key, 0, -1-n).
pub record RedisLists (L : Type 0) : Type 0 where
  pub elems : L → List Str
  pub push_left : L → Str → L
  pub push_right : L → Str → L
  pub remove_first : L → Str → L × ℕ
  pub pop_right : L → Option (Str × L)
  pub trim_right : L → ℕ → L

pub record Queue (L : Type 0) : Type 0 where
  pub ready : L
  pub unacked : L
  pub rejected : L

abbrev pub purge_batch_size : ℕ
purge_batch_size = 100

module _ {L : Type 0} (r : RedisLists L) where
  -- redisQueuePublisher.Publish: an empty message is skipped.
  unfoldable pub publish : Queue L → Str → Queue L × Bool
  publish q payload =
      if length payload == 0
      then (q, false)
      else (record q { ready = r.push_left q.ready payload }, true)

  -- MultiPublisher.Publish: after a failure no more publishers are called.
  abbrev pub publish_all : {S : Type 0} → List (S → Str → S × Bool) → S → Str → Bool → S × Bool
  publish_all [] s payload success = (s, success)
  publish_all (p ∷ ps) s payload true = publish_all ps (p s payload).0 payload (p s payload).1
  publish_all (p ∷ ps) s payload false = publish_all ps s payload false

  abbrev pub deliver : Queue L → Option (Str × L) → Queue L × Option Str
  deliver q none = (q, none)
  deliver q (some (x, rest)) =
      (record q { ready = rest; unacked = r.push_left q.unacked x }, some x)

  -- One BRPopLPush of consume: the message to deliver, if one came.
  unfoldable pub consume : Queue L → Queue L × Option Str
  consume q = deliver q (r.pop_right q.ready)

  unfoldable pub ack : Queue L → Str → Queue L × Bool
  ack q payload = (
    record q { unacked = (r.remove_first q.unacked payload).0 },
    (r.remove_first q.unacked payload).1 == 1,
  )

  unfoldable pub reject : Queue L → Str → Queue L × Bool
  reject q payload = (
    record q {
      rejected = r.push_left q.rejected payload;
      unacked = (r.remove_first q.unacked payload).0;
    },
    true,
  )

  unfoldable pub return_to_queue : Queue L → Str → Queue L × Bool
  return_to_queue q payload = (
    record q {
      ready = r.push_right q.ready payload;
      unacked = (r.remove_first q.unacked payload).0;
    },
    true,
  )

  abbrev pub returned_one : (Queue L → Queue L × ℕ) → Queue L → ℕ → Option (Str × L) → Queue L × ℕ
  returned_one go q i none = (q, i)
  returned_one go q i (some (x, rest)) =
      go (record q { unacked = rest; ready = r.push_left q.ready x })

  -- The loop of ReturnAllUnacked from `i`, with the rounds that are left.
  return_from : ℕ → ℕ → Queue L → Queue L × ℕ
  return_from zero i q = (q, i)
  return_from (suc n) i q =
      returned_one (λ q'. return_from n (suc i) q') q i (r.pop_right q.unacked)

  unfoldable pub return_all_unacked : Queue L → Queue L × ℕ
  unfolding return_from
  return_all_unacked q = return_from (length (r.elems q.unacked)) 0 q

  -- The loop of deleteRedisList: `todo` falls by a batch in each round, so as many rounds do.
  delete_from : ℕ → ℕ → L → L
  delete_from zero todo l = l
  delete_from (suc n) todo l =
      let batch : ℕ = if ltb todo purge_batch_size then todo else purge_batch_size in
      let rest = delete_from n (todo - purge_batch_size) (r.trim_right l batch) in
      if todo == 0 then l else rest

  unfoldable pub purge_rejected : Queue L → Queue L × ℕ
  unfolding delete_from
  purge_rejected q =
      let total = length (r.elems q.rejected) in
      if total == 0
      then (q, 0)
      else (record q { rejected = delete_from total total q.rejected }, total)

-- RelayConsumer.Consume after the semaphore: a message that the filter lets through is published to
-- every publisher, and the message is acknowledged in either case.
abbrev pub relay_all : {S : Type 0} → List (S → Str → S × Bool) → S → Str → S
relay_all [] s payload = s
relay_all (p ∷ ps) s payload = relay_all ps (p s payload).0 payload

unfoldable pub relay_consume :
    {S : Type 0} → (Str → Bool) → List (S → Str → S × Bool) → (S → Str → S × Bool) → S → Str → S
relay_consume filter publishers ack_delivery s payload =
    (ack_delivery (if filter payload then relay_all publishers s payload else s) payload).0
