-- ===== src/Channels/Delay/Reached.antt =====
-- channels/delay_relay.go: the states that publishing, flushing and relaying lead to.
use openrelay.Prelude.{
  ◌+◌, ◌≡◌, refl, sym, ap, ap₂, subst, ◌∙◌, Bool, true, false, List, [], ◌∷◌, ◌++◌, append_assoc,
  append-nil, Bool-cases, inl, inr, arith,
}
use openrelay.Types.Text.{Str}
use openrelay.Channels.Delay.{DelayRelay, is_sentinel, new_delay_relay, publish, flush, taken, tick}
use openrelay.Channels.Delay.Flushes.{
  state, messages, Balanced, sentinels-append, self, sentinels-kept, sentinels-dropped,
  messages-dropped, messages-kept, tick-sentinel, tick-message,
}

-- A state that is reached after the given messages were published, none of them the sentinel, with
-- flushes and steps of the relay in between.
pub data Reached (sentinel : Str) : List Str → DelayRelay → Type 0 where
  begun : Reached sentinel [] (new_delay_relay sentinel)
  published :
      (sent : List Str) (s : DelayRelay) (m : Str)
      → is_sentinel sentinel m ≡ false
      → Reached sentinel sent s
      → Reached sentinel (sent ++ (m ∷ [])) (publish sentinel m s)
  flushed :
      (sent : List Str) (s : DelayRelay)
      → Reached sentinel sent s
      → Reached sentinel sent (flush sentinel s)
  ticked :
      (sent : List Str) (s : DelayRelay)
      → Reached sentinel sent s
      → Reached sentinel sent (tick sentinel s)

module _ (sentinel : Str) where
  -- The relay has lost nothing, and its sentinels fit the flushes under way.
  pub record Holds (sent : List Str) (s : DelayRelay) : Type 0 where
    pub all : s.relayed ++ messages sentinel s.queue ≡ sent
    pub balanced : Balanced sentinel s

  messages-append :
      (a b : List Str) → messages sentinel (a ++ b) ≡ messages sentinel a ++ messages sentinel b
  unfolding messages
  messages-append [] b = refl
  messages-append (m ∷ rest) b =
      let ih = messages-append rest b in
      elim (Bool-cases (is_sentinel sentinel m)) [
        | inl e ↦ rw e ih
        | inr e ↦ rw e (ap (λ t. m ∷ t) ih)
      ]

  begun-Holds : Holds [] (new_delay_relay sentinel)
  unfolding Balanced messages
  begun-Holds = record {
    all = messages-dropped sentinel sentinel [] (self sentinel);
    balanced = ap (λ n. n + 0) (sentinels-dropped sentinel sentinel [] (self sentinel));
  }

  published-Holds :
      (sent : List Str) (s : DelayRelay) (m : Str)
      → is_sentinel sentinel m ≡ false
      → Holds sent s
      → Holds (sent ++ (m ∷ [])) (publish sentinel m s)
  unfolding Balanced messages
  published-Holds sent s m e h = record {
    all =
        ap (λ t. s.relayed ++ t) (messages-append s.queue (m ∷ []))
        ∙ sym (append_assoc s.relayed (messages sentinel s.queue) (messages sentinel (m ∷ [])))
        ∙ ap₂ ◌++◌ h.all (sym (messages-kept sentinel m [] [] e));
    balanced = omega (
      arith,
      sentinels-append sentinel s.queue (m ∷ []),
      sentinels-kept sentinel m [] e,
      h.balanced,
    );
  }

  flush-Holds : (sent : List Str) (s : DelayRelay) → Holds sent s → Holds sent (flush sentinel s)
  unfolding flush Balanced messages
  flush-Holds sent s h = flush_cases s.queue s.relayed s.waiting s.flushing h
    where
      flush_cases :
          (q r : List Str) (w f : Bool)
          → Holds sent (state q r w f)
          → Holds sent (flush sentinel (state q r w f))
      flush_cases q r w true k = k
      flush_cases q r w false k = record {
        all =
            ap (λ t. r ++ t)
              (messages-append q (sentinel ∷ [])
                ∙ ap (λ t. messages sentinel q ++ t)
                    (messages-dropped sentinel sentinel [] (self sentinel))
                ∙ append-nil (messages sentinel q))
            ∙ k.all;
        balanced = omega (
          arith,
          sentinels-append sentinel q (sentinel ∷ []),
          sentinels-dropped sentinel sentinel [] (self sentinel),
          k.balanced,
        );
      }

  taken-Holds :
      (sent q r : List Str) (f : Bool)
      → Holds sent (state q r false f)
      → Holds sent (tick sentinel (state q r false f))
  unfolding Balanced tick taken
  taken-Holds sent [] r f h = h
  taken-Holds sent (m ∷ q) r f h = elim (Bool-cases (is_sentinel sentinel m)) [
    | inl e ↦ subst (Holds sent) (sym (tick-sentinel sentinel m q r f e)) (record {
      all = ap (λ t. r ++ t) (sym (messages-dropped sentinel m q e)) ∙ h.all;
      balanced = omega (arith, sentinels-dropped sentinel m q e, h.balanced);
    })
    | inr e ↦ subst (Holds sent) (sym (tick-message sentinel m q r f e)) (record {
      all = messages-kept sentinel m q r e ∙ h.all;
      balanced = omega (arith, sentinels-kept sentinel m q e, h.balanced);
    })
  ]

  meets-Holds :
      (sent q r : List Str) (f : Bool)
      → Holds sent (state q r true f)
      → Holds sent (tick sentinel (state q r true f))
  unfolding Balanced tick
  meets-Holds sent q r true h = record { all = h.all; balanced = omega (arith, h.balanced) }
  meets-Holds sent q r false h = h

  tick-Holds : (sent : List Str) (s : DelayRelay) → Holds sent s → Holds sent (tick sentinel s)
  tick-Holds sent s h = tick_cases s.queue s.relayed s.waiting s.flushing h
    where
      tick_cases :
          (q r : List Str) (w f : Bool)
          → Holds sent (state q r w f)
          → Holds sent (tick sentinel (state q r w f))
      tick_cases q r false f k = taken-Holds sent q r f k
      tick_cases q r true f k = meets-Holds sent q r f k

  -- In every state that is reached, the messages relayed so far and those that wait in the queue are
  -- together the messages published, in their order: none is lost, doubled or overtaken. The sentinels
  -- are one more than the flushes under way.
  pub Reached-Holds : (sent : List Str) (s : DelayRelay) → Reached sentinel sent s → Holds sent s
  Reached-Holds sent s begun = begun-Holds
  Reached-Holds sent s (published sent' s' m e r) =
      published-Holds sent' s' m e (Reached-Holds sent' s' r)
  Reached-Holds sent s (flushed sent' s' r) = flush-Holds sent' s' (Reached-Holds sent' s' r)
  Reached-Holds sent s (ticked sent' s' r) = tick-Holds sent' s' (Reached-Holds sent' s' r)
