-- ===== src/Monitors/Fill/LookedUp.antt =====
-- monitor/fill/fill.go with fillbloom/fillbloom.go and funds/filled_update.go: from the monitor to the
-- lookups of another process, by way of the stored filter.
use openrelay.Prelude.{
  ℕ, ◌≡◌, ◌≢◌, ◌⊎◌, inl, inr, refl, sym, ◌∙◌, subst, Bool, true, false, List, [], ◌∷◌, Option, none,
  some, Bytes, All, if◌then◌else◌, ◌%◌, ◌^◌,
}
use openrelay.Chain.{Block, Node}
use openrelay.Types.Text.{sprint_hex}
use openrelay.Db.Indexer.{FillRecord}
use openrelay.FillBloom
use openrelay.FillBloom.{
  Filter, FillBloom, Initialized, ready, failed, crashed, unfinished, holds, initialize,
}
use openrelay.FillBloom.Covers.{FilterLaw}
use openrelay.Funds.Consumers.{bloom_misses}
use openrelay.Monitors.{Consumed, Ending, acked, returned, fatal, panicked, scan}
use openrelay.Monitors.Fill.{
  FillMonitor, fill_step, fill_consume, fill_query, may_have_fills, consume_initialized, saved,
  with_filter, initialized_at,
}
use openrelay.Monitors.Fill.Filtered.{InFilter, fill_consume-InFilter}

returned-acked : returned ≢ acked
returned-acked e = cc

fatal-acked : fatal ≢ acked
fatal-acked e = cc

panicked-acked : panicked ≢ acked
panicked-acked e = cc

All-implies :
    {A : Type 0} (P Q : A → Type 0) (xs : List A) → ((x : A) → P x → Q x) → All P xs → All Q xs
All-implies P Q [] f h = tt
All-implies P Q (x ∷ xs) f h = (f x h.0, All-implies P Q xs f h.1)

module _ {B : Type 0} (f : Filter B) (node : Node) (m : FillMonitor) where
  -- Nothing was published, or the store holds the filter.
  abbrev Stored : Consumed (FillBloom B) FillRecord → Type 0
  Stored r = (r.published ≡ []) ⊎ (r.state.store ≡ holds r.state.b)

  saved-Stored :
      (r : Consumed (FillBloom B) FillRecord)
      → (saved f node m true r).ending ≡ acked
      → Stored (saved f node m true r)
  saved-Stored r e = ending_cases r.state r.published r.ending e
    where
      ending_cases :
          (s : FillBloom B) (p : List FillRecord) (x : Ending)
          → (saved f node m true (record { state = s; published = p; ending = x })).ending ≡ acked
          → Stored (saved f node m true (record { state = s; published = p; ending = x }))
      ending_cases s p acked q = inr refl
      ending_cases s p returned q = absurd (returned-acked q)
      ending_cases s p fatal q = absurd (fatal-acked q)
      ending_cases s p panicked q = absurd (panicked-acked q)

  either-Stored :
      (t : Bool) (x y : Consumed (FillBloom B) FillRecord)
      → (x.ending ≡ acked → Stored x)
      → (y.ending ≡ acked → Stored y)
      → (if t then x else y).ending ≡ acked
      → Stored (if t then x else y)
  either-Stored true x y hx hy = hx
  either-Stored false x y hx hy = hy

  consume_initialized-Stored :
      (block : Block) (fb : FillBloom B)
      → (consume_initialized f node m true block fb).ending ≡ acked
      → Stored (consume_initialized f node m true block fb)
  unfolding consume_initialized
  consume_initialized-Stored block fb =
      either-Stored (may_have_fills f node m block) _ _
        (saved-Stored (scan node (fill_query f node m block.number) (fill_step f m) fb))
        (λ e. inl refl)

  with_filter-Stored :
      (block : Block) (fb : FillBloom B) (i : Initialized B)
      → (with_filter f node m true block fb i).ending ≡ acked
      → Stored (with_filter f node m true block fb i)
  with_filter-Stored block fb (ready fb') = consume_initialized-Stored block fb'
  with_filter-Stored block fb (failed fb') = λ e. inl refl
  with_filter-Stored block fb crashed = λ e. inl refl
  with_filter-Stored block fb unfinished = λ e. inl refl

  initialized_at-Stored :
      (chunk : ℕ) (block : Block) (fb : FillBloom B) (o : Option ℕ)
      → (initialized_at f node m true chunk block fb o).ending ≡ acked
      → Stored (initialized_at f node m true chunk block fb o)
  initialized_at-Stored chunk block fb none = λ e. inl refl
  initialized_at-Stored chunk block fb (some n) = with_filter-Stored block fb (
      FillBloom.initialize f node chunk (n % 2 ^ 64) (node.big_to_address m.exchange_address ∷ [])
        fb)

  fill_consume-Stored :
      (chunk : ℕ) (block : Block) (fb : FillBloom B)
      → (fill_consume f node m true chunk block fb).ending ≡ acked
      → Stored (fill_consume f node m true chunk block fb)
  unfolding fill_consume
  fill_consume-Stored chunk block fb =
      either-Stored fb.initialized _ _ (consume_initialized-Stored block fb)
        (initialized_at-Stored chunk block fb block.number)

module _ {B : Type 0} (f : Filter B) (law : FilterLaw f) (node : Node) where
  -- The record's order is not one that a filter, initialized from a store, has never seen.
  abbrev pub Seen : ℕ → ℕ → List Bytes → FillBloom B → FillRecord → Type 0
  Seen chunk end_block addresses other r =
      (h : Bytes) × (fb : FillBloom B) × (r.order_hash ≡ sprint_hex h)
      × (initialize f node chunk end_block addresses other ≡ ready fb)
      × (bloom_misses (some (fb.initialized, FillBloom.test f fb)) h ≡ false)

  initialize-Seen :
      (chunk end_block : ℕ) (addresses : List Bytes) (other fb : FillBloom B) (r : FillRecord)
      → other.store ≡ holds fb.b
      → InFilter f law fb r
      → Seen chunk end_block addresses other r
  unfolding initialize bloom_misses
  initialize-Seen chunk end_block addresses other fb r stored (h, hash, tested) =
      (h, record other { b = fb.b; initialized = true }, hash, rw stored refl, rw tested refl)

  -- A Consume of the monitor that acknowledges its block and whose Save succeeds: for every record that
  -- it publishes, a filter of any process that is initialized from the store as it is then does not
  -- miss the record's hash, so that GetCancelled and GetAmountFilled do not take the order for one that
  -- was never filled.
  pub fill_consume-Seen :
      (m : FillMonitor) (chunk : ℕ) (block : Block) (fb : FillBloom B) (chunk' end_block : ℕ)
      (addresses : List Bytes) (other : FillBloom B)
      → (fill_consume f node m true chunk block fb).ending ≡ acked
      → other.store ≡ (fill_consume f node m true chunk block fb).state.store
      → All
          (Seen chunk' end_block addresses other)
          (fill_consume f node m true chunk block fb).published
  fill_consume-Seen m chunk block fb chunk' end_block addresses other done same =
      let after = fill_consume f node m true chunk block fb in
      elim (fill_consume-Stored f node m chunk block fb done) [
        | inl none_published ↦
            subst (All (Seen chunk' end_block addresses other)) (sym none_published) tt
        | inr stored ↦
            All-implies (InFilter f law after.state) (Seen chunk' end_block addresses other)
              after.published
              (λ r. initialize-Seen chunk' end_block addresses other after.state r (same ∙ stored))
              (fill_consume-InFilter f law node m true chunk block fb)
      ]
