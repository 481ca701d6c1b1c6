-- ===== src/Blocks/Monitor/Rounds.antt =====
-- monitor/blocks/blocks.go: what a round publishes.
use openrelay.Prelude.{
  ℕ, ◌+◌, ◌≡◌, ◌⊎◌, inl, inr, refl, none, some, List, ◌∷◌, ok, false, Bool-cases, Option,
  Option-cases, ap, ◌∙◌, sym, subst,
}
use openrelay.Blocks.Ring.{MiniBlock, BlockRingBuffer, add, get, hash_index}
use openrelay.Blocks.Ring.Refine.{Holds, add-Holds, position_from, hash_index_lem}
use openrelay.Blocks.Monitor.{
  Header, Fetched, found, not_found, failed, World, BlockMonitor, mini_block, Round, next, returned,
  fatal, panicked, Wound, stopped_at, ended, publish, add_and_publish, wind_back, finish_round,
  after_header, round,
}
use openrelay.Blocks.Monitor.WindBack.{Found, LastAnswer, WindsBack, wind_back-WindsBack}
use Prim.Native.String.{String}

module _ (w : World) where
  add_and_publish_eq :
      (m : BlockMonitor) (h : Header) (r : BlockRingBuffer) (b : MiniBlock)
      → add m.brb (mini_block h) ≡ ok r
      → get r 0 ≡ ok (some b)
      → add_and_publish w m h ≡ publish w (record m { brb = r }) b
  unfolding add_and_publish
  add_and_publish_eq m h r b e g = rw (e, add_and_publish, g)

  finish_known :
      (m : BlockMonitor) (h : Header) (calls i : ℕ)
      → hash_index m.brb h.hash ≡ ok (some i)
      → finish_round w m (stopped_at h calls) ≡ fatal
  unfolding finish_round
  finish_known m h calls i e = rw (e, finish_round)

  finish_fresh :
      (m : BlockMonitor) (h : Header) (calls : ℕ)
      → hash_index m.brb h.hash ≡ ok none
      → finish_round w m (stopped_at h calls) ≡ add_and_publish w (record m { calls = calls }) h
  unfolding finish_round
  finish_fresh m h calls e = rw (e, finish_round)

  round_eq :
      (m : BlockMonitor) (last : MiniBlock)
      → get m.brb 0 ≡ ok (some last)
      → round w m ≡ after_header w m (w.header_by_number m.calls (some (last.number + 1)))
  unfolding round
  round_eq m last e = rw (e, round)

module _ (w : World) (m : BlockMonitor) (last : MiniBlock) (history : List MiniBlock) where
  -- The header at which a round stops its search, which began at the block after the last one.
  pub record Candidate : Type 0 where
    pub start : Header
    pub fetched : w.header_by_number m.calls (some (last.number + 1)) ≡ found start
    pub header : Header
    pub calls : ℕ
    pub search : Found w m history m.brb.size start (m.calls + 1) header calls

  -- The search asks for a parent and gets `answer`.
  abbrev pub Missing : Fetched → Type 0
  Missing answer =
      (start : Header) × (w.header_by_number m.calls (some (last.number + 1)) ≡ found start)
      × LastAnswer w m history m.brb.size start (m.calls + 1) answer

  -- A round that changed nothing, since the next block or a parent is not there yet.
  abbrev pub Quiet : BlockMonitor → Type 0
  Quiet m' =
      (m'.brb ≡ m.brb)
      × (m'.published ≡ m.published)
      × (((h : Option Header) × (w.header_by_number m.calls (some (last.number + 1)) ≡ not_found h))
          ⊎ ((h : Header) × Missing (not_found (some h))))

  -- A round that added and published the candidate, which is none of the blocks in the ring.
  abbrev pub Advanced : BlockMonitor → Type 0
  Advanced m' =
      (c : Candidate) × (m'.published ≡ mini_block c.header ∷ m.published)
      × Holds m'.brb (mini_block c.header ∷ history)
      × (m'.brb.size ≡ m.brb.size)
      × (position_from c.header.hash history m.brb.size 0 ≡ none)
      × (m'.recorded ≡ some c.header.number)

  -- A round that returns an error of the node, of the publisher, or of the recorder, in which case the
  -- candidate has been published.
  abbrev pub Failed : String → BlockMonitor → Type 0
  Failed e m' =
      ((m'.published ≡ m.published)
        × ((w.header_by_number m.calls (some (last.number + 1)) ≡ failed e) ⊎ Missing (failed e)))
      ⊎ ((c : Candidate) × (position_from c.header.hash history m.brb.size 0 ≡ none)
          × (((m'.published ≡ m.published) × (w.publish_succeeds c.calls ≡ false))
              ⊎ ((m'.published ≡ mini_block c.header ∷ m.published)
                  × (w.record_succeeds (c.calls + 1) ≡ false))))

  -- How a round can end that began at a ring which stands for a history.
  abbrev pub After : Round → Type 0
  After (next m') = Quiet m' ⊎ Advanced m'
  After (returned e m') = Failed e m'
  After fatal =
      (c : Candidate) × (i : ℕ) × (position_from c.header.hash history m.brb.size 0 ≡ some i)
  After panicked = Missing (not_found none)

  publish-After :
      (r : BlockRingBuffer) (c : Candidate)
      → Holds r (mini_block c.header ∷ history)
      → r.size ≡ m.brb.size
      → position_from c.header.hash history m.brb.size 0 ≡ none
      → After (publish w (record m { brb = r; calls = c.calls }) (mini_block c.header))
  unfolding publish
  publish-After r c v s fresh = elim (Bool-cases (w.publish_succeeds c.calls)) [
    | inr f ↦ rw f (inr (c, fresh, inl (refl, f)))
    | inl t ↦ rw t (elim (Bool-cases (w.record_succeeds (c.calls + 1))) [
      | inr f ↦ rw f (inr (c, fresh, inr (refl, f)))
      | inl t' ↦ rw t' (inr (c, refl, v, s, fresh, refl))
    ])
  ]

  finish_round-After :
      (start : Header) (x : Wound)
      → w.header_by_number m.calls (some (last.number + 1)) ≡ found start
      → Holds m.brb history
      → WindsBack w m history m.brb.size start (m.calls + 1) x
      → After (finish_round w m x)
  unfolding finish_round
  finish_round-After start (ended (next m')) e v (same, log, (h, a)) =
      inl (same, log, inr (h, (start, e, a)))
  finish_round-After start (ended (returned t m')) e v (same, log, a) = inl (log, inr (start, e, a))
  finish_round-After start (ended fatal) e v p = absurd p
  finish_round-After start (ended panicked) e v p = (start, e, p)
  finish_round-After start (stopped_at h calls) e v p =
      let c : Candidate = record {
        start = start;
        fetched = e;
        header = h;
        calls = calls;
        search = p;
      } in
      elim (Option-cases (position_from h.hash history m.brb.size 0)) [
        | inr (i, q) ↦
            subst After
              (sym (finish_known w m h calls i (hash_index_lem m.brb history h.hash v ∙ ap ok q)))
              (c, i, q)
        | inl q ↦
            let a = add-Holds m.brb history (mini_block h) v in
            subst After
              (sym (
                finish_fresh w m h calls (hash_index_lem m.brb history h.hash v ∙ ap ok q)
                ∙ add_and_publish_eq w (record m { calls = calls }) h a.0 (mini_block h) a.1
                    (a.3.reads 0 a.3.room)))
              (publish-After a.0 c a.3 a.2 q)
      ]

  after_header-After :
      (f : Fetched)
      → w.header_by_number m.calls (some (last.number + 1)) ≡ f
      → Holds m.brb history
      → After (after_header w m f)
  unfolding after_header
  after_header-After (found h) e v =
      finish_round-After h (wind_back w m.brb.size m h (m.calls + 1)) e v
        (wind_back-WindsBack w m.brb.size m history h (m.calls + 1) v)
  after_header-After (not_found x) e v = inl (refl, refl, inl (x, e))
  after_header-After (failed x) e v = inl (refl, inl e)

-- A round that begins at a ring which stands for a history, with at least one block in it, asks for the
-- block after the last one and goes back from it to the header at which the search stops. It does one of
-- these: it changes neither ring nor log, since the block or a parent on the way is not found; it adds
-- that header's block to both and records its number, and the block is none of those in the ring; it
-- returns the node's error, or that of the publisher or the recorder, the latter with the block
-- published; it stops the process if that header is in the ring; it panics if the node lacks a parent
-- on the way and has no header beside the error.
pub round-After :
    (w : World) (m : BlockMonitor) (last : MiniBlock) (history : List MiniBlock)
    → Holds m.brb (last ∷ history)
    → After w m last (last ∷ history) (round w m)
round-After w m last history v =
    subst (After w m last (last ∷ history)) (sym (round_eq w m last (v.reads 0 v.room))) (
      after_header-After w m last (last ∷ history)
        (w.header_by_number m.calls (some (last.number + 1))) refl v)
