-- ===== src/Blocks/Monitor/WindBack.antt =====
-- monitor/blocks/blocks.go: where the search for a known parent ends.
use openrelay.Prelude.{
  ℕ, zero, suc, ◌+◌, ◌≤◌, ◌<◌, ◌≡◌, false, ◌⊎◌, inl, inr, refl, true, none, some, List, arith, ok,
  Bool-cases, Option-cases, if◌then◌else◌, ap, ◌∙◌, sym, subst,
}
use openrelay.Blocks.Ring.{MiniBlock, hash_index}
use openrelay.Blocks.Ring.Refine.{Holds, position_from, hash_index_lem}
use openrelay.Blocks.Monitor.{
  Header, Fetched, found, not_found, failed, World, BlockMonitor, next, returned, fatal, panicked,
  int64_is_zero, Wound, stopped_at, ended, after_parent, wind_back,
}

module _ (w : World) (m : BlockMonitor) (history : List MiniBlock) where
  -- A header from which the search goes on: its parent is none of the blocks in the ring, and it is not
  -- block 0.
  abbrev pub Searches : Header → Type 0
  Searches h =
      (position_from h.parent_hash history m.brb.size 0 ≡ none) × (int64_is_zero h.number ≡ false)

  -- The header that is reached from another by fetching parent after parent; the index counts them, and
  -- with each header stands the number of calls made before.
  pub data Reaches : ℕ → Header → ℕ → Header → ℕ → Type 0 where
    here : (h : Header) (calls : ℕ) → Reaches 0 h calls h calls
    up :
        (k : ℕ) (h p h' : Header) (calls calls' : ℕ)
        → Searches h
        → w.header_by_hash calls h.parent_hash ≡ found p
        → Reaches k p (calls + 1) h' calls'
        → Reaches (suc k) h calls h' calls'

  -- Why the search stops at a header after `k` parents: its parent is in the ring, or it is block 0, or
  -- as many parents were fetched as it was given.
  abbrev pub Stops : ℕ → Header → ℕ → Type 0
  Stops left h k =
      ((i : ℕ) × (position_from h.parent_hash history m.brb.size 0 ≡ some i))
      ⊎ ((int64_is_zero h.number ≡ true) ⊎ (k ≡ left))

  -- The search from `start` stops at `header`.
  pub record Found (left : ℕ) (start : Header) (before : ℕ) (header : Header) (calls : ℕ)
      : Type 0 where
    pub parents : ℕ
    pub within : parents ≤ left
    pub reached : Reaches parents start before header calls
    pub stops : Stops left header parents

  -- The search from `start` asks for a parent and gets an answer that is not a header.
  pub record LastAnswer (left : ℕ) (start : Header) (before : ℕ) (answer : Fetched) : Type 0 where
    pub header : Header
    pub calls : ℕ
    pub parents : ℕ
    pub within : parents < left
    pub reached : Reaches parents start before header calls
    pub searches : Searches header
    pub answered : w.header_by_hash calls header.parent_hash ≡ answer

  -- How the inner loop can end, with `left` parents to fetch.
  abbrev pub WindsBack : ℕ → Header → ℕ → Wound → Type 0
  WindsBack left start before (stopped_at h calls) = Found left start before h calls
  WindsBack left start before (ended (next m')) =
      (m'.brb ≡ m.brb)
      × (m'.published ≡ m.published)
      × ((h : Header) × LastAnswer left start before (not_found (some h)))
  WindsBack left start before (ended (returned e m')) =
      (m'.brb ≡ m.brb) × (m'.published ≡ m.published) × LastAnswer left start before (failed e)
  WindsBack left start before (ended fatal) = ⊥
  WindsBack left start before (ended panicked) = LastAnswer left start before (not_found none)

  Stops-suc : (left k : ℕ) (h : Header) → Stops left h k → Stops (suc left) h (suc k)
  Stops-suc left k h (inl i) = inl i
  Stops-suc left k h (inr (inl z)) = inr (inl z)
  Stops-suc left k h (inr (inr e)) = inr (inr (omega arith))

  LastAnswer-up :
      (left calls : ℕ) (h p : Header) (f : Fetched)
      → Searches h
      → w.header_by_hash calls h.parent_hash ≡ found p
      → LastAnswer left p (calls + 1) f
      → LastAnswer (suc left) h calls f
  LastAnswer-up left calls h p f s e a = record {
    header = a.header;
    calls = a.calls;
    parents = suc a.parents;
    within = omega (arith, a.within);
    reached = up a.parents h p a.header calls a.calls s e a.reached;
    searches = a.searches;
    answered = a.answered;
  }

  WindsBack-up :
      (left calls : ℕ) (h p : Header) (x : Wound)
      → Searches h
      → w.header_by_hash calls h.parent_hash ≡ found p
      → WindsBack left p (calls + 1) x
      → WindsBack (suc left) h calls x
  WindsBack-up left calls h p (stopped_at h' calls') s e a = record {
    parents = suc a.parents;
    within = omega (arith, a.within);
    reached = up a.parents h p h' calls calls' s e a.reached;
    stops = Stops-suc left a.parents h' a.stops;
  }
  WindsBack-up left calls h p (ended (next m')) s e (b, l, (x, a)) =
      (b, l, (x, LastAnswer-up left calls h p (not_found (some x)) s e a))
  WindsBack-up left calls h p (ended (returned t m')) s e (b, l, a) =
      (b, l, LastAnswer-up left calls h p (failed t) s e a)
  WindsBack-up left calls h p (ended fatal) s e a = a
  WindsBack-up left calls h p (ended panicked) s e a =
      LastAnswer-up left calls h p (not_found none) s e a

  answered_here :
      (left calls : ℕ) (h : Header) (f : Fetched)
      → Searches h
      → w.header_by_hash calls h.parent_hash ≡ f
      → LastAnswer (suc left) h calls f
  answered_here left calls h f s e = record {
    header = h;
    calls = calls;
    parents = 0;
    within = omega arith;
    reached = here h calls;
    searches = s;
    answered = e;
  }

  after_parent-WindsBack :
      (left calls : ℕ) (h : Header) (go : Header → Wound) (f : Fetched)
      → Searches h
      → ((p : Header) → WindsBack left p (calls + 1) (go p))
      → w.header_by_hash calls h.parent_hash ≡ f
      → WindsBack (suc left) h calls (after_parent go (record m { calls = calls + 1 }) f)
  unfolding after_parent
  after_parent-WindsBack left calls h go (found p) s deeper e =
      WindsBack-up left calls h p (go p) s e (deeper p)
  after_parent-WindsBack left calls h go (not_found none) s deeper e =
      answered_here left calls h (not_found none) s e
  after_parent-WindsBack left calls h go (not_found (some x)) s deeper e =
      (refl, refl, (x, answered_here left calls h (not_found (some x)) s e))
  after_parent-WindsBack left calls h go (failed x) s deeper e =
      (refl, refl, answered_here left calls h (failed x) s e)

  no_step :
      (left calls : ℕ) (h : Header) → Stops left h 0 → WindsBack left h calls (stopped_at h calls)
  no_step left calls h s = record {
    parents = 0;
    within = omega arith;
    reached = here h calls;
    stops = s;
  }

module _ (w : World) where
  wind_back_known :
      (left i : ℕ) (m : BlockMonitor) (h : Header) (calls : ℕ)
      → hash_index m.brb h.parent_hash ≡ ok (some i)
      → wind_back w (suc left) m h calls ≡ stopped_at h calls
  unfolding wind_back
  wind_back_known left i m h calls e = rw (e, wind_back)

  wind_back_unknown :
      (left : ℕ) (m : BlockMonitor) (h : Header) (calls : ℕ)
      → hash_index m.brb h.parent_hash ≡ ok none
      → wind_back w (suc left) m h calls ≡ (
          if int64_is_zero h.number
          then stopped_at h calls
          else after_parent
              (λ parent. wind_back w left m parent (calls + 1))
              (record m { calls = calls + 1 })
              (w.header_by_hash calls h.parent_hash))
  unfolding wind_back
  wind_back_unknown left m h calls e = rw (e, wind_back)

  -- The inner loop follows the parents, one call each, from a header while the parent is none of the
  -- blocks in the ring and the header is not block 0. It ends at a header whose parent is in the ring, at
  -- block 0, or after as many parents as it was given, or with the first answer for a parent that is no
  -- header; then nothing is added and nothing published, and it panics exactly where the node lacks a
  -- parent and has no header beside the error.
  pub wind_back-WindsBack :
      (left : ℕ) (m : BlockMonitor) (history : List MiniBlock) (h : Header) (calls : ℕ)
      → Holds m.brb history
      → WindsBack w m history left h calls (wind_back w left m h calls)
  unfolding wind_back
  wind_back-WindsBack zero m history h calls v = no_step w m history 0 calls h (inr (inr refl))
  wind_back-WindsBack (suc left) m history h calls v =
      elim (Option-cases (position_from h.parent_hash history m.brb.size 0)) [
        | inr (i, e) ↦
            let known = hash_index_lem m.brb history h.parent_hash v ∙ ap ok e in
            subst (WindsBack w m history (suc left) h calls)
              (sym (wind_back_known left i m h calls known))
              (no_step w m history (suc left) calls h (inl (i, e)))
        | inl e ↦
            let unknown = hash_index_lem m.brb history h.parent_hash v ∙ ap ok e in
            subst (WindsBack w m history (suc left) h calls)
              (sym (wind_back_unknown left m h calls unknown))
              (elim (Bool-cases (int64_is_zero h.number)) [
                | inl z ↦ rw z (no_step w m history (suc left) calls h (inr (inl z)))
                | inr z ↦ rw z (
                    after_parent-WindsBack w m history left calls h
                      (λ parent. wind_back w left m parent (calls + 1))
                      (w.header_by_hash calls h.parent_hash) (e, z)
                      (λ p. wind_back-WindsBack left m history p (calls + 1) v) refl)
              ])
      ]
