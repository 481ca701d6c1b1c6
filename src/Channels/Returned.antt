-- ===== src/Channels/Returned.antt =====
-- channels/queue_consumer.go, channels/delivery.go: no message is lost on its way between the lists.
use openrelay.Prelude.{
  subst, ℕ, zero, suc, ◌+◌, ◌≡◌, refl, sym, ap, ◌∙◌, ◌≢◌, true, List, [], ◌∷◌, ◌++◌, none, some,
  length, length-append, append_assoc, arith, bytes_eq, if◌then◌else◌, inl, inr, Option-cases,
}
use openrelay.Types.Text.{Str}
use openrelay.Channels.{
  RedisLists, Queue, consume, deliver, return_from, returned_one, return_all_unacked, ack, reject,
  return_to_queue,
}

-- How often a message is in a list.
abbrev pub count : Str → List Str → ℕ
count x [] = 0
count x (y ∷ ys) = (if bytes_eq y x then 1 else 0) + count x ys

count-append : (x : Str) (xs ys : List Str) → count x (xs ++ ys) ≡ count x xs + count x ys
count-append x [] ys = omega arith
count-append x (y ∷ xs) ys = omega (arith, count-append x xs ys)

-- What the documentation of Redis says of the commands.
pub record RedisLaws {L : Type 0} (r : RedisLists L) : Type 0 where
  pub pushed_left : (l : L) (x : Str) → r.elems (r.push_left l x) ≡ x ∷ r.elems l
  pub pushed_right : (l : L) (x : Str) → r.elems (r.push_right l x) ≡ r.elems l ++ (x ∷ [])
  pub popped :
      (l rest : L) (x : Str) → r.pop_right l ≡ some (x, rest) → r.elems l ≡ r.elems rest ++ (x ∷ [])
  pub empty : (l : L) → r.pop_right l ≡ none → r.elems l ≡ []
  pub removed :
      (l : L) (x y : Str)
      → count y (r.elems (r.remove_first l x).0)
          + (if bytes_eq x y then (r.remove_first l x).1 else 0)
        ≡ count y (r.elems l)
  pub removed_one : (l : L) (x : Str) → count x (r.elems l) ≢ 0 → (r.remove_first l x).1 ≡ 1

nil_of_length : (xs : List Str) → length xs ≡ 0 → xs ≡ []
nil_of_length [] h = refl
nil_of_length (x ∷ xs) h = absurd (omega arith)

module _ {L : Type 0} (r : RedisLists L) (law : RedisLaws r) where
  -- What the loop has done with `n` messages left.
  abbrev Moved : Queue L → ℕ → Queue L × ℕ → Type 0
  Moved q total after =
      (r.elems after.0.ready ≡ r.elems q.unacked ++ r.elems q.ready)
      × (r.elems after.0.unacked ≡ [])
      × (after.0.rejected ≡ q.rejected)
      × (after.1 ≡ total)

  rest-length :
      (l rest : L) (x : Str) (n : ℕ)
      → r.pop_right l ≡ some (x, rest)
      → length (r.elems l) ≡ suc n
      → length (r.elems rest) ≡ n
  rest-length l rest x n e h =
      omega (arith, ap length (law.popped l rest x e), length-append (r.elems rest) (x ∷ []))

  one_more :
      (q : Queue L) (rest ready : L) (x : Str)
      → r.pop_right q.unacked ≡ some (x, rest)
      → r.elems ready ≡ r.elems rest ++ r.elems (r.push_left q.ready x)
      → r.elems ready ≡ r.elems q.unacked ++ r.elems q.ready
  one_more q rest ready x e h =
      h
      ∙ ap (λ t. r.elems rest ++ t) (law.pushed_left q.ready x)
      ∙ sym (append_assoc (r.elems rest) (x ∷ []) (r.elems q.ready))
      ∙ ap (λ t. t ++ r.elems q.ready) (sym (law.popped q.unacked rest x e))

  return_from-elems :
      (n i : ℕ) (q : Queue L)
      → length (r.elems q.unacked) ≡ n
      → Moved q (i + n) (return_from r n i q)
  unfolding return_from
  return_from-elems zero i q h =
      let nil = nil_of_length (r.elems q.unacked) h in
      (ap (λ t. t ++ r.elems q.ready) (sym nil), nil, refl, omega arith)
  return_from-elems (suc n) i q h = elim (Option-cases (r.pop_right q.unacked)) [
    | inl e ↦ absurd (omega (arith, ap length (law.empty q.unacked e)))
    | inr ((x, rest), e) ↦
        let q' : Queue L = record q { unacked = rest; ready = r.push_left q.ready x } in
        let ih = return_from-elems n (suc i) q' (rest-length q.unacked rest x n e h) in
        subst (λ o. Moved q (i + suc n) (returned_one r (λ q'. return_from r n (suc i) q') q i o))
          (sym e)
          (
            one_more q rest (return_from r n (suc i) q').0.ready x e ih.0,
            ih.1,
            ih.2,
            omega (arith, ih.3),
          )
  ]

  -- ReturnAllUnacked puts all unacknowledged messages, in their order, at the head of the ready list,
  -- leaves none unacknowledged, does not touch the rejected ones, and returns how many there were.
  pub return_all_unacked-elems :
      (q : Queue L)
      → (r.elems (return_all_unacked r q).0.ready ≡ r.elems q.unacked ++ r.elems q.ready)
        × (r.elems (return_all_unacked r q).0.unacked ≡ [])
        × ((return_all_unacked r q).0.rejected ≡ q.rejected)
        × ((return_all_unacked r q).1 ≡ length (r.elems q.unacked))
  unfolding return_all_unacked
  return_all_unacked-elems q =
      let m = return_from-elems (length (r.elems q.unacked)) 0 q refl in
      (m.0, m.1, m.2, omega (arith, m.3))

  -- How often a message is in the three lists together.
  abbrev pub total : Str → Queue L → ℕ
  total x q = count x (r.elems q.ready) + count x (r.elems q.unacked) + count x (r.elems q.rejected)

  -- A message that is settled while it is unacknowledged: Reject and Return lose and double no message,
  -- and Ack takes out exactly that one.
  pub settled-total :
      (q : Queue L) (payload x : Str)
      → count payload (r.elems q.unacked) ≢ 0
      → (total x (reject r q payload).0 ≡ total x q)
        × (total x (return_to_queue r q payload).0 ≡ total x q)
        × (total x (ack r q payload).0 + (if bytes_eq payload x then 1 else 0) ≡ total x q)
        × ((ack r q payload).1 ≡ true)
  unfolding reject return_to_queue ack
  settled-total q payload x h =
      let out = law.removed q.unacked payload x in
      let one = law.removed_one q.unacked payload h in
      let left = ap (count x) (law.pushed_left q.rejected payload) in
      let right =
        ap (count x) (law.pushed_right q.ready payload)
        ∙ count-append x (r.elems q.ready) (payload ∷ []) in
      (
        grind (arith, out, one, left),
        grind (arith, out, one, right),
        grind (arith, out, one),
        grind (arith, one),
      )

  -- A round of consume moves a message and neither loses nor doubles any.
  pub consume-total : (q : Queue L) (x : Str) → total x (consume r q).0 ≡ total x q
  unfolding consume
  consume-total q x = elim (Option-cases (r.pop_right q.ready)) [
    | inl e ↦ ap (λ o. total x (deliver r q o).0) e
    | inr ((y, rest), e) ↦
        ap (λ o. total x (deliver r q o).0) e
        ∙ omega (
          arith,
          ap (count x) (law.popped q.ready rest y e),
          count-append x (r.elems rest) (y ∷ []),
          ap (count x) (law.pushed_left q.unacked y),
        )
  ]
