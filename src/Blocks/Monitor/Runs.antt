-- ===== src/Blocks/Monitor/Runs.antt =====
-- monitor/blocks/blocks.go: what a whole run has published.
use openrelay.Prelude.{
  ℕ, zero, suc, ◌+◌, ◌<◌, ◌≡◌, ◌⊎◌, inl, inr, refl, Option, none, some, List, [], ◌∷◌, ◌++◌, Bytes,
  ok, Bool-cases, if◌then◌else◌, ap, ◌∙◌, sym, subst,
}
use openrelay.Blocks.Ring.{has_hash, MiniBlock, BlockRingBuffer, add, get}
use openrelay.Blocks.Ring.Refine.{Holds, add-Holds, new-Holds, position_from}
use openrelay.Blocks.Monitor.{
  Header, Fetched, found, not_found, failed, World, BlockMonitor, mini_block, Round, next, returned,
  fatal, panicked, int64_is_zero, publish, round, begin, run_rounds, then_go, after_first, process,
  new_block_monitor,
}
use openrelay.Blocks.Monitor.Rounds.{After, Quiet, Advanced, round-After}

-- No block of the list is among the `size` blocks behind it.
abbrev pub NoRepeats : ℕ → List MiniBlock → Type 0
NoRepeats size [] = Unit {0}
NoRepeats size (b ∷ bs) = (position_from b.hash bs size 0 ≡ none) × NoRepeats size bs

-- The log of published blocks is the history of the ring, or all of it but the block where the
-- monitor started.
abbrev pub Logged : List MiniBlock → List MiniBlock → Type 0
Logged published history =
    (published ≡ history) ⊎ ((start : MiniBlock) × (history ≡ published ++ (start ∷ [])))

-- The ring stands for a history of at least one block, without repeats, that has been published.
pub record Running (size : ℕ) (m : BlockMonitor) : Type 0 where
  pub last : MiniBlock
  pub earlier : List MiniBlock
  pub holds : Holds m.brb (last ∷ earlier)
  pub capacity : m.brb.size ≡ size
  pub no_repeats : NoRepeats size (last ∷ earlier)
  pub logged : Logged m.published (last ∷ earlier)

Logged-cons :
    (b : MiniBlock) (published history : List MiniBlock)
    → Logged published history
    → Logged (b ∷ published) (b ∷ history)
Logged-cons b published history (inl e) = inl (ap (λ t. b ∷ t) e)
Logged-cons b published history (inr (s, e)) = inr (s, ap (λ t. b ∷ t) e)

Running-step :
    (w : World) (size : ℕ) (m m' : BlockMonitor) (r : Running size m)
    → Quiet w m r.last (r.last ∷ r.earlier) m' ⊎ Advanced w m r.last (r.last ∷ r.earlier) m'
    → Running size m'
Running-step w size m m' r (inl (same, log, why)) = record {
  last = r.last;
  earlier = r.earlier;
  holds = rw same r.holds;
  capacity = ap (λ (b : BlockRingBuffer). b.size) same ∙ r.capacity;
  no_repeats = r.no_repeats;
  logged = rw log r.logged;
}
Running-step w size m m' r (inr (c, log, v, s, fresh, rec)) = record {
  last = mini_block c.header;
  earlier = r.last ∷ r.earlier;
  holds = v;
  capacity = s ∙ r.capacity;
  no_repeats = (rw r.capacity at fresh, r.no_repeats);
  logged = rw log (Logged-cons (mini_block c.header) m.published (r.last ∷ r.earlier) r.logged);
}

position_from-nil : (h : Bytes) (n i : ℕ) → position_from h [] n i ≡ none
unfolding has_hash
position_from-nil h zero i = refl
position_from-nil h (suc n) i = position_from-nil h n (i + 1)

module _ (w : World) where
  -- A parent that the node does not have, with no header beside the error.
  abbrev pub MissingParent : Type 0
  MissingParent = (calls : ℕ) × (hash : Bytes) × (w.header_by_hash calls hash ≡ not_found none)

  -- What is known of the monitor when Process comes out of its loop or goes on.
  abbrev pub GoesOn : ℕ → Round → Type 0
  GoesOn size (next m) = Running size m
  GoesOn size (returned e m) = Unit {0}
  GoesOn size fatal = Unit {0}
  GoesOn size panicked = MissingParent

  then_go-GoesOn :
      (size : ℕ) (go : BlockMonitor → Round) (m : BlockMonitor) (r : Running size m) (x : Round)
      → ((m' : BlockMonitor) → Running size m' → GoesOn size (go m'))
      → After w m r.last (r.last ∷ r.earlier) x
      → GoesOn size (then_go go x)
  unfolding then_go
  then_go-GoesOn size go m r (next m') ih a = ih m' (Running-step w size m m' r a)
  then_go-GoesOn size go m r (returned e m') ih a = tt
  then_go-GoesOn size go m r fatal ih a = tt
  then_go-GoesOn size go m r panicked ih (start, e, a) = (a.calls, a.header.parent_hash, a.answered)

  run_rounds-GoesOn :
      (n size : ℕ) (m : BlockMonitor) → Running size m → GoesOn size (run_rounds w n m)
  unfolding run_rounds
  run_rounds-GoesOn zero size m r = r
  run_rounds-GoesOn (suc n) size m r =
      then_go-GoesOn size (λ m'. run_rounds w n m') m r (round w m)
        (λ m' r'. run_rounds-GoesOn n size m' r') (round-After w m r.last r.earlier r.holds)

  -- The first block alone, in the ring and perhaps in the log.
  first_Running :
      (m : BlockMonitor) (b : MiniBlock)
      → Holds m.brb (b ∷ [])
      → (m.published ≡ []) ⊎ (m.published ≡ b ∷ [])
      → Running m.brb.size m
  first_Running m b v p = record {
    last = b;
    earlier = [];
    holds = v;
    capacity = refl;
    no_repeats = (position_from-nil b.hash m.brb.size 0, tt);
    logged = elim p [ inl e ↦ inr (b, rw e) | inr e ↦ inl e ];
  }

  publish_first :
      (m : BlockMonitor) (b : MiniBlock)
      → Holds m.brb (b ∷ [])
      → m.published ≡ []
      → GoesOn m.brb.size (publish w m b)
  unfolding publish
  publish_first m b v e = elim (Bool-cases (w.publish_succeeds m.calls)) [
    | inr f ↦ rw f tt
    | inl t ↦ rw t (elim (Bool-cases (w.record_succeeds (m.calls + 1))) [
      | inr f ↦ rw f tt
      | inl t' ↦ rw t' (first_Running _ b v (inr (ap (λ t. b ∷ t) e)))
    ])
  ]

  first_eq :
      (m : BlockMonitor) (h : Header) (r : BlockRingBuffer) (b : MiniBlock)
      → add m.brb (mini_block h) ≡ ok r
      → get r 0 ≡ ok (some b)
      → after_first w m (found h) ≡ (
          if int64_is_zero h.number
          then publish w (record m { brb = r; calls = m.calls + 1 }) b
          else next (record m { brb = r; calls = m.calls + 1 }))
  unfolding after_first
  first_eq m h r b e g = rw (e, after_first, g)

  after_first-GoesOn :
      (m : BlockMonitor) (f : Fetched)
      → Holds m.brb []
      → m.published ≡ []
      → GoesOn m.brb.size (after_first w m f)
  unfolding after_first
  after_first-GoesOn m (found h) v e =
      let a = add-Holds m.brb [] (mini_block h) v in
      subst (λ (s : ℕ). GoesOn s (after_first w m (found h))) a.2
        (subst (GoesOn a.0.size) (sym (first_eq m h a.0 (mini_block h) a.1 (a.3.reads 0 a.3.room)))
          (elim (Bool-cases (int64_is_zero h.number)) [
            | inl z ↦
                rw z
                  (publish_first (record m { brb = a.0; calls = m.calls + 1 }) (mini_block h) a.3 e)
            | inr z ↦ rw z (
                first_Running (record m { brb = a.0; calls = m.calls + 1 }) (mini_block h) a.3
                  (inl e))
          ]))
  after_first-GoesOn m (not_found x) v e = tt
  after_first-GoesOn m (failed x) v e = tt

  then_go-first :
      (size : ℕ) (go : BlockMonitor → Round) (x : Round)
      → ((m : BlockMonitor) → Running size m → GoesOn size (go m))
      → GoesOn size x
      → GoesOn size (then_go go x)
  unfolding then_go
  then_go-first size go (next m) ih g = ih m g
  then_go-first size go (returned e m) ih g = tt
  then_go-first size go fatal ih g = tt
  then_go-first size go panicked ih g = g

  -- After any number of rounds of a monitor with room for a block, if Process has neither returned nor
  -- stopped, the ring holds the blocks that were published, with at most the starting block besides,
  -- in order, and none repeats a block among the `size` before it. It panics only at a parent that the
  -- node does not have.
  pub process-GoesOn :
      (n size : ℕ) (recorded : Option ℕ)
      → 0 < size
      → GoesOn size (process w n (new_block_monitor size recorded))
  unfolding process begin new_block_monitor
  process-GoesOn n size recorded h =
      then_go-first size (run_rounds w n) (begin w (new_block_monitor size recorded))
        (λ m r. run_rounds-GoesOn n size m r)
        (after_first-GoesOn (new_block_monitor size recorded) (w.header_by_number 0 recorded)
          (new-Holds size h) refl)
