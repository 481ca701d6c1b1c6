-- ===== src/Monitors/Fill/Filtered.antt =====
-- monitor/fill/fill.go: what is published is in the bloom filter.
use openrelay.Prelude.{
  ℕ, ◌≡◌, refl, Bool, true, false, List, [], ◌∷◌, none, some, Option, Bytes, length, ltb, big, ◌==◌,
  if◌then◌else◌, All, Bool-cases, inl, inr, get_elem?, ◌%◌, ◌^◌,
}
use openrelay.Chain.{Log, Block, Node}
use openrelay.Types.Text.{sprint_hex}
use openrelay.Db.Indexer.{FillRecord}
use openrelay.FillBloom
use openrelay.FillBloom.{Filter, FillBloom, Initialized, ready, failed, crashed, unfinished}
use openrelay.FillBloom.Covers.{FilterLaw}
use openrelay.Monitors.{
  Step, skip, emit, crash, abort, Consumed, Ending, acked, returned, fatal, panicked, before, each,
  each_found, scan,
}
use openrelay.Monitors.Fill.{
  FillMonitor, fill_record_of, recorded, fill_step, fill_consume, fill_query, may_have_fills,
  consume_initialized, saved, with_filter, initialized_at,
}

module _ {B : Type 0} (f : Filter B) (law : FilterLaw f) where
  -- The record's hash tests positive.
  abbrev pub InFilter : FillBloom B → FillRecord → Type 0
  InFilter fb r = (h : Bytes) × (r.order_hash ≡ sprint_hex h) × (f.test fb.b h ≡ true)

  abbrev Keeps : FillBloom B → FillBloom B → Type 0
  Keeps fb fb' = (y : Bytes) → f.test fb.b y ≡ true → f.test fb'.b y ≡ true

  abbrev Adds : FillBloom B → Step FillRecord → Type 0
  Adds fb (emit r) = InFilter fb r
  Adds fb skip = Unit
  Adds fb abort = Unit
  Adds fb crash = Unit

  abbrev Filtered : FillBloom B → Consumed (FillBloom B) FillRecord → Type 0
  Filtered fb r = Keeps fb r.state × All (InFilter r.state) r.published

  before-Filtered :
      (fb fb' : FillBloom B) (r : Step FillRecord) (rest : Consumed (FillBloom B) FillRecord)
      → Keeps fb fb'
      → Adds fb' r
      → Filtered fb' rest
      → Filtered fb (before fb' r rest)
  before-Filtered fb fb' skip rest k a h = (λ y t. h.0 y (k y t), h.1)
  before-Filtered fb fb' (emit r) rest k a h =
      (λ y t. h.0 y (k y t), ((a.0, a.1, h.0 a.0 a.2), h.1))
  before-Filtered fb fb' abort rest k a h = (k, tt)
  before-Filtered fb fb' crash rest k a h = (k, tt)

  record_hash :
      (m : FillMonitor) (topic hash payload : Bytes)
      → (fill_record_of m topic hash payload).order_hash ≡ sprint_hex hash
  record_hash m topic hash payload = elim (Bool-cases (big topic == m.fill_topic)) [
    | inl e ↦ rw e refl
    | inr e ↦ rw e refl
  ]

  recorded-Adds :
      (m : FillMonitor) (fb : FillBloom B) (payload : Bytes) (topic hash : Option Bytes)
      → Keeps fb (recorded f m fb payload topic hash).0
        × Adds (recorded f m fb payload topic hash).0 (recorded f m fb payload topic hash).1
  unfolding FillBloom.add
  recorded-Adds m fb payload none hash = (λ y t. t, tt)
  recorded-Adds m fb payload (some topic) none = (λ y t. t, tt)
  recorded-Adds m fb payload (some topic) (some hash) =
      (λ y t. law.kept fb.b hash y t, (hash, record_hash m topic hash payload, law.added fb.b hash))

  fill_step-Adds :
      (m : FillMonitor) (fb : FillBloom B) (l : Log)
      → Keeps fb (fill_step f m fb l).0 × Adds (fill_step f m fb l).0 (fill_step f m fb l).1
  unfolding fill_step
  fill_step-Adds m fb l = elim (Bool-cases (ltb (length l.payload) 256)) [
    | inl e ↦ rw e (λ y t. t, tt)
    | inr e ↦ rw e (recorded-Adds m fb l.payload (get_elem? l.topics 0) (get_elem? l.topics 3))
  ]

  each-Filtered :
      (m : FillMonitor) (logs : List Log) (fb : FillBloom B)
      → Filtered fb (each (fill_step f m) fb logs)
  unfolding each
  each-Filtered m [] fb = (λ y t. t, tt)
  each-Filtered m (l ∷ ls) fb =
      let a = fill_step-Adds m fb l in
      before-Filtered fb (fill_step f m fb l).0 (fill_step f m fb l).1
        (each (fill_step f m) (fill_step f m fb l).0 ls) a.0 a.1
        (each-Filtered m ls (fill_step f m fb l).0)

  found-Filtered :
      (m : FillMonitor) (fb : FillBloom B) (o : Option (List Log))
      → Filtered fb (each_found (fill_step f m) fb o)
  unfolding each_found
  found-Filtered m fb none = (λ y t. t, tt)
  found-Filtered m fb (some logs) = each-Filtered m logs fb

  module _ (node : Node) (m : FillMonitor) (writes : Bool) where
    saved-Filtered :
        (fb : FillBloom B) (r : Consumed (FillBloom B) FillRecord)
        → Filtered fb r
        → Filtered fb (saved f node m writes r)
    saved-Filtered fb r h = ending_cases r.state r.published r.ending h
      where
        ending_cases :
            (s : FillBloom B) (p : List FillRecord) (e : Ending)
            → Filtered fb (record { state = s; published = p; ending = e })
            → Filtered fb (saved f node m writes (record { state = s; published = p; ending = e }))
        ending_cases s p acked k = elim (Bool-cases writes) [ inl w ↦ rw w k | inr w ↦ rw w k ]
        ending_cases s p returned k = k
        ending_cases s p fatal k = k
        ending_cases s p panicked k = k

    consume_initialized-Filtered :
        (block : Block) (fb : FillBloom B)
        → Filtered fb (consume_initialized f node m writes block fb)
    unfolding consume_initialized scan
    consume_initialized-Filtered block fb = elim (Bool-cases (may_have_fills f node m block)) [
      | inl e ↦ rw e (
          saved-Filtered fb
            (each_found (fill_step f m) fb (node.filter_logs (fill_query f node m block.number)))
            (found-Filtered m fb (node.filter_logs (fill_query f node m block.number))))
      | inr e ↦ rw e (λ y t. t, tt)
    ]

    Covered : Consumed (FillBloom B) FillRecord → Type 0
    Covered r = All (InFilter r.state) r.published

    either-Covered :
        (t : Bool) (x y : Consumed (FillBloom B) FillRecord)
        → Covered x
        → Covered y
        → Covered (if t then x else y)
    either-Covered true x y h k = h
    either-Covered false x y h k = k

    with_filter-Covered :
        (block : Block) (fb : FillBloom B) (i : Initialized B)
        → Covered (with_filter f node m writes block fb i)
    unfolding Covered
    with_filter-Covered block fb (ready fb') = (consume_initialized-Filtered block fb').1
    with_filter-Covered block fb (failed fb') = tt
    with_filter-Covered block fb crashed = tt
    with_filter-Covered block fb unfinished = tt

    initialized_at-Covered :
        (chunk : ℕ) (block : Block) (fb : FillBloom B) (o : Option ℕ)
        → Covered (initialized_at f node m writes chunk block fb o)
    unfolding Covered
    initialized_at-Covered chunk block fb none = tt
    initialized_at-Covered chunk block fb (some n) = with_filter-Covered block fb (
        FillBloom.initialize f node chunk (n % 2 ^ 64) (node.big_to_address m.exchange_address ∷ [])
          fb)

    -- Whatever the block, the node's answers and the state of the filter before: every record that a
    -- Consume publishes is of a hash that the filter it leaves tests positive.
    pub fill_consume-InFilter :
        (chunk : ℕ) (block : Block) (fb : FillBloom B)
        → All
            (InFilter (fill_consume f node m writes chunk block fb).state)
            (fill_consume f node m writes chunk block fb).published
    unfolding fill_consume Covered
    fill_consume-InFilter chunk block fb =
        either-Covered fb.initialized (consume_initialized f node m writes block fb)
          (initialized_at f node m writes chunk block fb block.number)
          (consume_initialized-Filtered block fb).1
          (initialized_at-Covered chunk block fb block.number)
