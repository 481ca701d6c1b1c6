-- ===== src/Monitors/Walk.antt =====
-- The loop over the logs of a block: what holds of everything that is published, and when no log ends
-- the consumer early.
use openrelay.Prelude.{◌≡◌, ◌≢◌, refl, true, List, [], ◌∷◌, some, All, Option-cases, inl, inr}
use openrelay.Chain.{Log, Node, FilterQuery, OnlyMatching, log_matches}
use openrelay.Monitors.{
  Step, skip, emit, abort, crash, Consumed, acked, returned, panicked, before, each, scan,
}

-- A log ends no consumer, and what it publishes has P.
abbrev pub Good : {A : Type 0} → (A → Type 0) → Step A → Type 0
Good P skip = Unit
Good P (emit a) = P a
Good P abort = ⊥
Good P crash = ⊥

-- A log does not panic, and what it publishes has P.
abbrev pub Emits : {A : Type 0} → (A → Type 0) → Step A → Type 0
Emits P skip = Unit
Emits P (emit a) = P a
Emits P abort = Unit
Emits P crash = ⊥

pub acked-panicked : acked ≢ panicked
acked-panicked e = cc

returned-panicked : returned ≢ panicked
returned-panicked e = cc

module _ {S A : Type 0} where
  before-Emits :
      (P : A → Type 0) (s : S) (r : Step A) (rest : Consumed S A)
      → Emits P r
      → All P rest.published × (rest.ending ≢ panicked)
      → All P (before s r rest).published × ((before s r rest).ending ≢ panicked)
  before-Emits P s skip rest h k = k
  before-Emits P s (emit a) rest h k = ((h, k.0), k.1)
  before-Emits P s abort rest h k = (tt, returned-panicked)
  before-Emits P s crash rest h k = absurd h

  before-Good :
      (P : A → Type 0) (s : S) (r : Step A) (rest : Consumed S A)
      → Good P r
      → All P rest.published × (rest.ending ≡ acked)
      → All P (before s r rest).published × ((before s r rest).ending ≡ acked)
  before-Good P s skip rest h k = k
  before-Good P s (emit a) rest h k = ((h, k.0), k.1)
  before-Good P s abort rest h k = absurd h
  before-Good P s crash rest h k = absurd h

  pub each-Emits :
      (P : A → Type 0) (Q : Log → Type 0) (step : S → Log → S × Step A)
      → ((s : S) (l : Log) → Q l → Emits P (step s l).1)
      → (s : S) (logs : List Log) → All Q logs
      → All P (each step s logs).published × ((each step s logs).ending ≢ panicked)
  unfolding each
  each-Emits P Q step h s [] k = (tt, acked-panicked)
  each-Emits P Q step h s (l ∷ ls) k =
      before-Emits P (step s l).0 (step s l).1 (each step (step s l).0 ls) (h s l k.0)
        (each-Emits P Q step h (step s l).0 ls k.1)

  pub each-Good :
      (P : A → Type 0) (Q : Log → Type 0) (step : S → Log → S × Step A)
      → ((s : S) (l : Log) → Q l → Good P (step s l).1)
      → (s : S) (logs : List Log) → All Q logs
      → All P (each step s logs).published × ((each step s logs).ending ≡ acked)
  unfolding each
  each-Good P Q step h s [] k = (tt, refl)
  each-Good P Q step h s (l ∷ ls) k =
      before-Good P (step s l).0 (step s l).1 (each step (step s l).0 ls) (h s l k.0)
        (each-Good P Q step h (step s l).0 ls k.1)

  -- A consumer that panics on no matching log does not panic, and what it publishes has P.
  pub scan-Emits :
      (P : A → Type 0) (node : Node) (q : FilterQuery) (step : S → Log → S × Step A) (s : S)
      → OnlyMatching node
      → ((s : S) (l : Log) → log_matches q l ≡ true → Emits P (step s l).1)
      → All P (scan node q step s).published × ((scan node q step s).ending ≢ panicked)
  unfolding scan
  scan-Emits P node q step s only h = elim (Option-cases (node.filter_logs q)) [
    | inl e ↦ rw e (tt, returned-panicked)
    | inr (logs, e) ↦
        rw e (each-Emits P (λ l. log_matches q l ≡ true) step h s logs (only q logs e))
  ]

  -- If the node answers, then no matching log ends the consumer, and what is published has P.
  pub scan-Good :
      (P : A → Type 0) (node : Node) (q : FilterQuery) (step : S → Log → S × Step A) (s : S)
      (logs : List Log)
      → OnlyMatching node
      → node.filter_logs q ≡ some logs
      → ((s : S) (l : Log) → log_matches q l ≡ true → Good P (step s l).1)
      → All P (scan node q step s).published × ((scan node q step s).ending ≡ acked)
  unfolding scan
  scan-Good P node q step s logs only e h =
      rw e (each-Good P (λ l. log_matches q l ≡ true) step h s logs (only q logs e))
