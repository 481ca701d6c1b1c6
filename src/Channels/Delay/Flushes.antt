-- ===== src/Channels/Delay/Flushes.antt =====
-- channels/delay_relay.go: what a flush lets through.
use openrelay.Prelude.{
  ℕ, suc, ◌+◌, ◌≡◌, refl, sym, ap, ap₂, ◌∙◌, Bool, true, false, List, [], ◌∷◌, ◌++◌, append_assoc,
  append-nil, bytes_eq_refl, length, Bool-cases, inl, inr, arith,
}
use openrelay.Types.Text.{Str}
use openrelay.Channels.Delay.{DelayRelay, is_sentinel, flush, taken, tick, run}

abbrev pub one_if : Bool → ℕ
one_if true = 1
one_if false = 0

abbrev pub state : List Str → List Str → Bool → Bool → DelayRelay
state q r w f = record { queue = q; relayed = r; waiting = w; flushing = f }

two_more : (n : ℕ) → n + 2 ≡ suc (suc n)
two_more n = omega arith

module _ (sentinel : Str) where
  abbrev pub counted : Bool → ℕ → ℕ
  counted true n = suc n
  counted false n = n

  abbrev pub kept : Bool → Str → List Str → List Str
  kept true m rest = rest
  kept false m rest = m ∷ rest

  -- How many sentinels there are among the messages, and the others.
  unfoldable pub sentinels : List Str → ℕ
  unfolding is_sentinel
  sentinels [] = 0
  sentinels (m ∷ rest) = counted (is_sentinel sentinel m) (sentinels rest)

  unfoldable pub messages : List Str → List Str
  unfolding is_sentinel
  messages [] = []
  messages (m ∷ rest) = kept (is_sentinel sentinel m) m (messages rest)

  -- There is one sentinel more than flushes under way, one of them with the consumer if that waits.
  unfoldable pub Balanced : DelayRelay → Type 0
  unfolding sentinels
  Balanced s = sentinels s.queue + one_if s.waiting ≡ 1 + one_if s.flushing

  pub sentinels-append : (a b : List Str) → sentinels (a ++ b) ≡ sentinels a + sentinels b
  unfolding sentinels
  sentinels-append [] b = omega arith
  sentinels-append (m ∷ rest) b =
      let ih = sentinels-append rest b in
      elim (Bool-cases (is_sentinel sentinel m)) [
        | inl e ↦ rw e (omega (arith, ih))
        | inr e ↦ rw e ih
      ]

  pub self : is_sentinel sentinel sentinel ≡ true
  unfolding is_sentinel
  self = bytes_eq_refl sentinel

  pub tick-sentinel :
      (m : Str) (q r : List Str) (f : Bool)
      → is_sentinel sentinel m ≡ true
      → tick sentinel (state (m ∷ q) r false f) ≡ state q r true f
  unfolding tick taken
  tick-sentinel m q r f e = rw e refl

  pub tick-message :
      (m : Str) (q r : List Str) (f : Bool)
      → is_sentinel sentinel m ≡ false
      → tick sentinel (state (m ∷ q) r false f) ≡ state q (r ++ (m ∷ [])) false f
  unfolding tick taken
  tick-message m q r f e = rw e refl

  tick-meets : (q r : List Str) → tick sentinel (state q r true true) ≡ state q r false false
  unfolding tick
  tick-meets q r = refl

  pub messages-kept :
      (m : Str) (rest r : List Str)
      → is_sentinel sentinel m ≡ false
      → (r ++ (m ∷ [])) ++ messages rest ≡ r ++ messages (m ∷ rest)
  unfolding messages
  messages-kept m rest r e =
      append_assoc r (m ∷ []) (messages rest) ∙ ap (λ t. r ++ t) (sym (rw e refl))

  pub messages-dropped :
      (m : Str) (rest : List Str)
      → is_sentinel sentinel m ≡ true
      → messages (m ∷ rest) ≡ messages rest
  unfolding messages
  messages-dropped m rest e = rw e refl

  pub sentinels-kept :
      (m : Str) (rest : List Str)
      → is_sentinel sentinel m ≡ false
      → sentinels (m ∷ rest) ≡ sentinels rest
  unfolding sentinels
  sentinels-kept m rest e = rw e refl

  pub sentinels-dropped :
      (m : Str) (rest : List Str)
      → is_sentinel sentinel m ≡ true
      → sentinels (m ∷ rest) ≡ suc (sentinels rest)
  unfolding sentinels
  sentinels-dropped m rest e = rw e refl

  -- With nothing under way and no sentinel before the last place, a run relays all and waits.
  run-plain :
      (q r : List Str)
      → sentinels q ≡ 0
      → run sentinel (suc (length q)) (state (q ++ (sentinel ∷ [])) r false false)
        ≡ state [] (r ++ messages q) true false
  unfolding run messages
  run-plain [] r e =
      tick-sentinel sentinel [] r false self ∙ ap (λ t. state [] t true false) (sym (append-nil r))
  run-plain (m ∷ rest) r e = elim (Bool-cases (is_sentinel sentinel m)) [
    | inl eq ↦ absurd (omega (arith, e, sentinels-dropped m rest eq))
    | inr eq ↦
        ap (run sentinel (suc (length rest))) (tick-message m (rest ++ (sentinel ∷ [])) r false eq)
        ∙ run-plain rest (r ++ (m ∷ [])) (sym (sentinels-kept m rest eq) ∙ e)
        ∙ ap (λ t. state [] t true false) (messages-kept m rest r eq)
  ]

  -- The same with a flush under way, whose sentinel comes after the one that it meets.
  none_in_empty : sentinels [] ≡ 1 → ◌≡◌ {A = ℕ} 0 1
  unfolding sentinels
  none_in_empty e = e

  run-flush :
      (q r : List Str)
      → sentinels q ≡ 1
      → run sentinel (suc (suc (length q))) (state (q ++ (sentinel ∷ [])) r false true)
        ≡ state [] (r ++ messages q) true false
  unfolding run
  run-flush [] r e = absurd (omega (arith, none_in_empty e))
  run-flush (m ∷ rest) r e = elim (Bool-cases (is_sentinel sentinel m)) [
    | inl eq ↦
        ap (λ s. run sentinel (suc (length rest)) (tick sentinel s))
          (tick-sentinel m (rest ++ (sentinel ∷ [])) r true eq)
        ∙ ap (run sentinel (suc (length rest))) (tick-meets (rest ++ (sentinel ∷ [])) r)
        ∙ run-plain rest r (omega (arith, e, sentinels-dropped m rest eq))
        ∙ ap (λ t. state [] (r ++ t) true false) (sym (messages-dropped m rest eq))
    | inr eq ↦
        ap (run sentinel (suc (suc (length rest))))
          (tick-message m (rest ++ (sentinel ∷ [])) r true eq)
        ∙ run-flush rest (r ++ (m ∷ [])) (sym (sentinels-kept m rest eq) ∙ e)
        ∙ ap (λ t. state [] t true false) (messages-kept m rest r eq)
  ]

  run-waiting :
      (q r : List Str)
      → sentinels q ≡ 0
      → run sentinel (suc (suc (length q))) (state (q ++ (sentinel ∷ [])) r true true)
        ≡ state [] (r ++ messages q) true false
  unfolding run
  run-waiting q r e =
      ap (run sentinel (suc (length q))) (tick-meets (q ++ (sentinel ∷ [])) r) ∙ run-plain q r e

  flushed :
      (q r : List Str) (w : Bool)
      → sentinels q + one_if w ≡ 1
      → run sentinel (suc (suc (length q))) (state (q ++ (sentinel ∷ [])) r w true)
        ≡ state [] (r ++ messages q) true false
  flushed q r true e = run-waiting q r (omega (arith, e))
  flushed q r false e = run-flush q r (omega (arith, e))

  flush_begun :
      (s : DelayRelay)
      → s.flushing ≡ false
      → flush sentinel s ≡ state (s.queue ++ (sentinel ∷ [])) s.relayed s.waiting true
  unfolding flush
  flush_begun s e = simp e refl

  at_rest :
      (s : DelayRelay) → Balanced s → s.flushing ≡ false → sentinels s.queue + one_if s.waiting ≡ 1
  unfolding Balanced
  at_rest s b e = b ∙ ap (λ f. 1 + one_if f) e

  -- Once a Flush is called with none under way, the relay comes to an end of its work by itself, in
  -- two steps more than there are messages in the queue: it has then relayed every message that was in
  -- the queue when Flush was called, in order and without the sentinels, the Flush has returned, and
  -- the relay waits for the next.
  pub run-flushes :
      (s : DelayRelay)
      → Balanced s
      → s.flushing ≡ false
      → run sentinel (length s.queue + 2) (flush sentinel s) ≡ record {
        queue = [];
        relayed = s.relayed ++ messages s.queue;
        waiting = true;
        flushing = false;
      }
  unfolding flush
  run-flushes s b e =
      ap₂ (λ (n : ℕ) (t : DelayRelay). run sentinel n t) (two_more (length s.queue))
        (flush_begun s e)
      ∙ flushed s.queue s.relayed s.waiting (at_rest s b e)
