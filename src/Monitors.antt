-- ===== src/Monitors.antt =====
-- The monitors of monitor/: each consumes blocks from a queue, asks the node for the logs it watches and
-- publishes a record for each. The parts they share are here: what a log is turned into, and how a
-- Consume ends. Parse errors of a block are only logged by the code, so that a block as far as it was
-- parsed is the input; json.Marshal succeeds on the records, and the results of Publish are not used.
pub mod Walk
pub mod Fill
pub mod CancelUpTo
pub mod Allowance
pub mod Approvals
pub mod Spend
pub mod Affiliate
mod Tests
use openrelay.Prelude.{List, [], ◌∷◌, Option, none, some}
use openrelay.Chain.{Log, Node, FilterQuery}

-- What a log leads to: nothing, a record that is published, a Return of the block with log.Fatalf, or a
-- panic.
pub data Step {ℓ} (A : Type ℓ) : Type ℓ where
  skip : Step A
  emit : A → Step A
  abort : Step A
  crash : Step A

-- How Consume ends: the block is acknowledged, returned to the queue before log.Fatalf, left alone by
-- log.Fatalf, or left alone by a panic.
pub data Ending : Type 0 where
  acked : Ending
  returned : Ending
  fatal : Ending
  panicked : Ending

-- The records published, in order, and the state and the ending of a Consume.
pub record Consumed {ℓ} (S A : Type ℓ) : Type ℓ where
  pub state : S
  pub published : List A
  pub ending : Ending

abbrev pub stop {ℓ} : {S A : Type ℓ} → S → Ending → Consumed S A
stop s e = record { state = s; published = []; ending = e }

-- The rest of the logs is only looked at if the log before did not end the consumer.
abbrev pub before {ℓ} : {S A : Type ℓ} → S → Step A → Consumed S A → Consumed S A
before s skip rest = rest
before s (emit a) rest = record rest { published = a ∷ rest.published }
before s abort rest = stop s returned
before s crash rest = stop s panicked

-- The loop over the logs, with the state that the consumer carries through it.
unfoldable pub each {ℓ} : {S A : Type ℓ} → (S → Log → S × Step A) → S → List Log → Consumed S A
each step s [] = stop s acked
each step s (l ∷ ls) = before (step s l).0 (step s l).1 (each step (step s l).0 ls)

abbrev pub each_found {ℓ} :
    {S A : Type ℓ} → (S → Log → S × Step A) → S → Option (List Log) → Consumed S A
unfolding each
each_found step s none = stop s returned
each_found step s (some logs) = each step s logs

-- FilterLogs and the loop over what it gives; its error returns the block.
unfoldable pub scan {ℓ} :
    {S A : Type ℓ} → Node → FilterQuery → (S → Log → S × Step A) → S → Consumed S A
unfolding each_found
scan node q step s = each_found step s (node.filter_logs q)
