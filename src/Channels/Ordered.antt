-- ===== src/Channels/Ordered.antt =====
-- channels/queue_consumer.go, channels/publisher.go: the order in which messages are delivered.
use openrelay.Prelude.{
  ℕ, zero, suc, ◌≡◌, ◌≢◌, refl, sym, ap, ◌∙◌, false, List, [], ◌∷◌, ◌++◌, Option, none, some,
  length, append_assoc, arith, ◌==◌, All, Option-cases, inl, inr, subst,
}
use openrelay.Types.Text.{Str}
use openrelay.Channels.{RedisLists, Queue, publish, consume, return_all_unacked}
use openrelay.Channels.Returned.{RedisLaws, return_all_unacked-elems}

abbrev pub reversed : List Str → List Str
reversed [] = []
reversed (x ∷ xs) = reversed xs ++ (x ∷ [])

abbrev pub with_message : Option Str → List Str → List Str
with_message none xs = xs
with_message (some x) xs = x ∷ xs

nil-snoc : (xs : List Str) (x : Str) → [] ≢ xs ++ (x ∷ [])
nil-snoc [] x e = cc
nil-snoc (y ∷ ys) x e = cc

-- Two lists with a last element that are the same have the same last element and the same rest.
snoc-injective :
    (xs ys : List Str) (x y : Str) → xs ++ (x ∷ []) ≡ ys ++ (y ∷ []) → (xs ≡ ys) × (x ≡ y)
snoc-injective [] [] x y e = (refl, cc)
snoc-injective [] (z ∷ ys) x y e = let nil : [] ≡ ys ++ (y ∷ []) = cc in absurd (nil-snoc ys y nil)
snoc-injective (z ∷ xs) [] x y e = let nil : [] ≡ xs ++ (x ∷ []) = cc in absurd (nil-snoc xs x nil)
snoc-injective (z ∷ xs) (u ∷ ys) x y e =
    let tails : xs ++ (x ∷ []) ≡ ys ++ (y ∷ []) = cc in
    let same = snoc-injective xs ys x y tails in let xs_same = same.0 in (cc, same.1)

not_empty : (n : ℕ) → n ≢ 0 → (n == 0) ≡ false
not_empty n h = ground arith

module _ {L : Type 0} (r : RedisLists L) where
  -- Publishing messages one after the other.
  abbrev pub publish_each : List Str → Queue L → Queue L
  publish_each [] q = q
  publish_each (x ∷ xs) q = publish_each xs (publish r q x).0

  -- Rounds of consume, with the messages that they deliver, in this order.
  abbrev pub drain : ℕ → Queue L → Queue L × List Str
  drain zero q = (q, [])
  drain (suc n) q =
      let next = consume r q in let rest = drain n next.0 in (rest.0, with_message next.1 rest.1)

  module _ (law : RedisLaws r) where
    publish_some :
        (q : Queue L) (x : Str)
        → length x ≢ 0
        → (publish r q x).0 ≡ record q { ready = r.push_left q.ready x }
    unfolding publish
    publish_some q x h = rw (not_empty (length x) h) refl

    abbrev Published : List Str → Queue L → Queue L → Type 0
    Published xs q after =
        (r.elems after.ready ≡ reversed xs ++ r.elems q.ready)
        × (after.unacked ≡ q.unacked)
        × (after.rejected ≡ q.rejected)

    publish_each-Published :
        (xs : List Str) (q : Queue L)
        → All (λ x. length x ≢ 0) xs
        → Published xs q (publish_each xs q)
    publish_each-Published [] q h = (refl, refl, refl)
    publish_each-Published (x ∷ xs) q h =
        let ih = publish_each-Published xs (record q { ready = r.push_left q.ready x }) h.1 in
        subst (λ p. Published (x ∷ xs) q (publish_each xs p)) (sym (publish_some q x h.0))
          (
            ih.0
                ∙ ap (λ t. reversed xs ++ t) (law.pushed_left q.ready x)
                ∙ sym (append_assoc (reversed xs) (x ∷ []) (r.elems q.ready)),
            ih.1,
            ih.2,
          )

    -- One round takes the last message of the ready list.
    consume-last :
        (q : Queue L) (xs : List Str) (x : Str)
        → r.elems q.ready ≡ xs ++ (x ∷ [])
        → ((consume r q).1 ≡ some x)
          × (r.elems (consume r q).0.ready ≡ xs)
          × (r.elems (consume r q).0.unacked ≡ x ∷ r.elems q.unacked)
          × ((consume r q).0.rejected ≡ q.rejected)
    unfolding consume
    consume-last q xs x h = elim (Option-cases (r.pop_right q.ready)) [
      | inl e ↦ absurd (nil-snoc xs x (sym (law.empty q.ready e) ∙ h))
      | inr ((y, rest), e) ↦
          let same = snoc-injective xs (r.elems rest) x y (sym h ∙ law.popped q.ready rest y e) in
          rw e (
            ap some (sym same.1),
            sym same.0,
            law.pushed_left q.unacked y ∙ ap (λ t. t ∷ r.elems q.unacked) (sym same.1),
            refl,
          )
    ]

    abbrev Drained : List Str → Queue L → Queue L × List Str → Type 0
    Drained xs q after =
        (after.1 ≡ xs)
        × (r.elems after.0.ready ≡ [])
        × (r.elems after.0.unacked ≡ reversed xs ++ r.elems q.unacked)
        × (after.0.rejected ≡ q.rejected)

    drain-Drained :
        (xs : List Str) (q : Queue L)
        → r.elems q.ready ≡ reversed xs
        → Drained xs q (drain (length xs) q)
    drain-Drained [] q h = (refl, h, refl, refl)
    drain-Drained (x ∷ xs) q h =
        let one = consume-last q (reversed xs) x h in
        let ih = drain-Drained xs (consume r q).0 one.1 in
        (
          ap (λ o. with_message o (drain (length xs) (consume r q).0).1) one.0
              ∙ ap (λ t. x ∷ t) ih.0,
          ih.1,
          ih.2
              ∙ ap (λ t. reversed xs ++ t) one.2
              ∙ sym (append_assoc (reversed xs) (x ∷ []) (r.elems q.unacked)),
          ih.3 ∙ one.3,
        )

    append_nil : (xs : List Str) → xs ++ [] ≡ xs
    append_nil [] = refl
    append_nil (x ∷ xs) = ap (λ t. x ∷ t) (append_nil xs)

    -- Messages that are not empty, published one after the other to a queue with nothing ready: as many
    -- rounds of consume deliver exactly these, in the order in which they were published, leave nothing
    -- ready and every one of them unacknowledged, and do not touch the rejected ones. If
    -- ReturnAllUnacked then runs, before any was acknowledged, and no message was unacknowledged at
    -- first, as many rounds deliver them again, in the same order.
    pub drain-publish_each :
        (xs : List Str) (q : Queue L)
        → All (λ x. length x ≢ 0) xs
        → r.elems q.ready ≡ []
        → r.elems q.unacked ≡ []
        → let first = drain (length xs) (publish_each xs q) in
          let again = drain (length xs) (return_all_unacked r first.0).0 in
          (first.1 ≡ xs)
          × (r.elems first.0.ready ≡ [])
          × (r.elems first.0.unacked ≡ reversed xs)
          × (first.0.rejected ≡ q.rejected)
          × (again.1 ≡ xs)
          × (r.elems again.0.unacked ≡ reversed xs)
    drain-publish_each xs q h ready unacked =
        let p = publish_each-Published xs q h in
        let first = drain (length xs) (publish_each xs q) in
        let d =
          drain-Drained xs (publish_each xs q)
            (p.0 ∙ ap (λ t. reversed xs ++ t) ready ∙ append_nil (reversed xs)) in
        let all_unacked : r.elems first.0.unacked ≡ reversed xs =
          d.2
          ∙ ap (λ u. reversed xs ++ r.elems u) p.1
          ∙ ap (λ t. reversed xs ++ t) unacked
          ∙ append_nil (reversed xs) in
        let back = return_all_unacked-elems r law first.0 in
        let again = drain-Drained xs (return_all_unacked r first.0).0 (
          back.0
          ∙ ap (λ t. t ++ r.elems first.0.ready) all_unacked
          ∙ ap (λ t. reversed xs ++ t) d.1
          ∙ append_nil (reversed xs)) in
        (
          d.0,
          d.1,
          all_unacked,
          d.3 ∙ p.2,
          again.0,
          again.2 ∙ ap (λ t. reversed xs ++ t) back.1 ∙ append_nil (reversed xs),
        )
