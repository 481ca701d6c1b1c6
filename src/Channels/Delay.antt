-- ===== src/Channels/Delay.antt =====
-- channels/delay_relay.go: a relay that holds its messages back until it is flushed. The source queue is
-- first in, first out, and the relay takes one message at a time. The consumer and a caller of Flush are
-- goroutines, whose steps are interleaved; what they do between two steps is not seen by the other.
-- Acknowledgements are left to the queue.
pub mod Flushes
pub mod Reached
use openrelay.Prelude.{
  ℕ, zero, suc, Bool, true, false, ◌&&◌, List, [], ◌∷◌, ◌++◌, Bytes, bytes_eq, if◌then◌else◌,
}
use openrelay.Types.Text.{Str}

-- The queue from its oldest message, what was relayed from the first, whether the consumer waits for
-- delayChan in Filter, and whether a Flush has published its sentinel and waits to send on delayChan.
pub record DelayRelay : Type 0 where
  pub queue : List Str
  pub relayed : List Str
  pub waiting : Bool
  pub flushing : Bool

module _ (sentinel : Str) where
  unfoldable pub is_sentinel : Str → Bool
  unfolding bytes_eq
  is_sentinel m = bytes_eq m sentinel

  -- NewDelayRelay publishes the sentinel.
  abbrev pub new_delay_relay : DelayRelay
  new_delay_relay = record {
    queue = sentinel ∷ [];
    relayed = [];
    waiting = false;
    flushing = false;
  }

  -- The source publisher.
  abbrev pub publish : Str → DelayRelay → DelayRelay
  publish m s = record s { queue = s.queue ++ (m ∷ []) }

  -- Flush up to its send; `once` lets one caller through at a time.
  unfoldable pub flush : DelayRelay → DelayRelay
  flush s =
      if s.flushing then s else record s { queue = s.queue ++ (sentinel ∷ []); flushing = true }

  -- The consumer takes a message: the filter keeps the sentinel and waits, another message is relayed.
  abbrev pub taken : List Str → DelayRelay → DelayRelay
  unfolding is_sentinel
  taken [] s = s
  taken (m ∷ rest) s =
      if is_sentinel m
      then record s { queue = rest; waiting = true }
      else record s { queue = rest; relayed = s.relayed ++ (m ∷ []) }

  -- The next step of the relay: the send and the receive on delayChan meet, or the consumer takes a
  -- message. A consumer that waits alone, or an empty queue, leaves things as they are.
  unfoldable pub tick : DelayRelay → DelayRelay
  unfolding taken
  tick s =
      if s.waiting
      then (if s.flushing then record s { waiting = false; flushing = false } else s)
      else taken s.queue s

  unfoldable pub run : ℕ → DelayRelay → DelayRelay
  unfolding tick
  run zero s = s
  run (suc n) s = run n (tick s)
