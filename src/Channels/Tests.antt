-- ===== src/Channels/Tests.antt =====
-- Tests of the queues, on lists that follow the laws of the Redis commands.
use openrelay.Prelude.{
  Option-cases, ℕ, ◌+◌, ◌≡◌, ◌≢◌, refl, sym, ap, ◌∙◌, Bool, true, false, List, [], ◌∷◌, ◌++◌,
  Option, none, some, length, take, ◌-◌, bytes_eq, bytes_eq_iff, if◌then◌else◌, arith, Bool-cases,
  inl, inr, codes,
}
use openrelay.Types.Text.{Str}
use openrelay.Channels.Delay
use openrelay.Channels.Delay.{DelayRelay, is_sentinel, new_delay_relay, flush, tick, run}
use openrelay.Channels.Delay.Flushes.{sentinels, messages, Balanced, run-flushes}
use openrelay.Channels.Delay.Reached.{Reached, begun, published, ticked, Holds, Reached-Holds}
use openrelay.Channels.{RedisLists, Queue, return_all_unacked, ack, reject, return_to_queue}
use openrelay.Channels.Ordered.{reversed, publish_each, drain, drain-publish_each}
use openrelay.Channels.Returned.{RedisLaws, count, total, return_all_unacked-elems, settled-total}

abbrev one_if : Bool → ℕ
one_if b = if b then 1 else 0

abbrev one_if_same : Str → Str → ℕ
one_if_same y t = one_if (bytes_eq t y)

abbrev keep_first : Str → Option (Str × List Str) → Option (Str × List Str)
keep_first x none = some (x, [])
keep_first x (some (y, rest)) = some (y, x ∷ rest)

abbrev pop_last : List Str → Option (Str × List Str)
pop_last [] = none
pop_last (x ∷ xs) = keep_first x (pop_last xs)

abbrev skip_first : Str → Bool → List Str → List Str × ℕ → List Str × ℕ
skip_first y true ys rest = (ys, 1)
skip_first y false ys rest = (y ∷ rest.0, rest.1)

abbrev remove_one : List Str → Str → List Str × ℕ
remove_one [] x = ([], 0)
remove_one (y ∷ ys) x = skip_first y (bytes_eq y x) ys (remove_one ys x)

abbrev lists : RedisLists (List Str)
lists = record {
  elems = λ l. l;
  push_left = λ l x. x ∷ l;
  push_right = λ l x. l ++ (x ∷ []);
  remove_first = remove_one;
  pop_right = pop_last;
  trim_right = λ l n. take (length l - n) l;
}

keep_first-some : (x : Str) (o : Option (Str × List Str)) → keep_first x o ≢ none
keep_first-some x none e = cc
keep_first-some x (some p) e = cc

empty : (l : List Str) → pop_last l ≡ none → l ≡ []
empty [] e = refl
empty (x ∷ xs) e = absurd (keep_first-some x (pop_last xs) e)

none-some : (p : Str × List Str) → none ≢ some p
none-some p e = cc

some-injective : (p q : Str × List Str) → some p ≡ some q → p ≡ q
some-injective p q e = cc

pair-injective : (p q : Str × List Str) → some p ≡ some q → (p.0 ≡ q.0) × (p.1 ≡ q.1)
pair-injective p q e = (ap (λ t. t.0) (some-injective p q e), ap (λ t. t.1) (some-injective p q e))

popped : (l rest : List Str) (x : Str) → pop_last l ≡ some (x, rest) → l ≡ rest ++ (x ∷ [])
popped [] rest x e = absurd (none-some (x, rest) e)
popped (z ∷ l) rest x e = elim (Option-cases (pop_last l)) [
  | inl n ↦
      let q = pair-injective (z, []) (x, rest) (sym (ap (keep_first z) n) ∙ e) in
      ap (λ t. z ∷ t) (empty l n) ∙ ap (λ t. t ∷ []) q.0 ∙ ap (λ t. t ++ (x ∷ [])) q.1
  | inr ((y, r), n) ↦
      let q = pair-injective (y, z ∷ r) (x, rest) (sym (ap (keep_first z) n) ∙ e) in
      ap (λ t. z ∷ t) (popped l r y n)
      ∙ ap (λ t. z ∷ (r ++ (t ∷ []))) q.0
      ∙ ap (λ t. t ++ (x ∷ [])) q.1
]

removed :
    (l : List Str) (x y : Str)
    → count y (remove_one l x).0 + (if bytes_eq x y then (remove_one l x).1 else 0) ≡ count y l
removed [] x y = elim (Bool-cases (bytes_eq x y)) [
  | inl e ↦ rw e (omega arith)
  | inr e ↦ rw e (omega arith)
]
removed (z ∷ l) x y = elim (Bool-cases (bytes_eq z x)) [
  | inl e ↦ rw e (omega (arith, ap (one_if_same y) ((bytes_eq_iff z x).0 e)))
  | inr e ↦ rw e (omega (arith, removed l x y))
]

removed_one : (l : List Str) (x : Str) → count x l ≢ 0 → (remove_one l x).1 ≡ 1
removed_one [] x h = absurd (h refl)
removed_one (z ∷ l) x h = elim (Bool-cases (bytes_eq z x)) [
  | inl e ↦ rw e refl
  | inr e ↦ rw e (removed_one l x (λ q. h (omega (arith, q, ap one_if e))))
]

lists-RedisLaws : RedisLaws lists
lists-RedisLaws = record {
  pushed_left = λ l x. refl;
  pushed_right = λ l x. refl;
  popped = popped;
  empty = empty;
  removed = removed;
  removed_one = removed_one;
}

abbrev queue : Queue (List Str)
queue = record { ready = codes "c" ∷ []; unacked = codes "b" ∷ codes "a" ∷ []; rejected = [] }

return_all_unacked_example :
    ((return_all_unacked lists queue).0.ready ≡ codes "b" ∷ codes "a" ∷ codes "c" ∷ [])
    × ((return_all_unacked lists queue).0.unacked ≡ [])
    × ((return_all_unacked lists queue).0.rejected ≡ [])
    × ((return_all_unacked lists queue).1 ≡ 2)
return_all_unacked_example = return_all_unacked-elems lists lists-RedisLaws queue

abbrev idle : Queue (List Str)
idle = record { ready = []; unacked = []; rejected = codes "r" ∷ [] }

abbrev messages_ab : List Str
messages_ab = codes "a" ∷ codes "b" ∷ []

drain_example :
    let first = drain lists 2 (publish_each lists messages_ab idle) in
    let again = drain lists 2 (return_all_unacked lists first.0).0 in
    (first.1 ≡ messages_ab)
    × (first.0.ready ≡ [])
    × (first.0.unacked ≡ reversed messages_ab)
    × (first.0.rejected ≡ idle.rejected)
    × (again.1 ≡ messages_ab)
    × (again.0.unacked ≡ reversed messages_ab)
drain_example =
    drain-publish_each lists lists-RedisLaws messages_ab idle (omega arith, (omega arith, tt)) refl
      refl

count-a : count (codes "a") queue.unacked ≢ 0
unfolding bytes_eq
count-a = omega arith

settled_example :
    (total lists lists-RedisLaws (codes "b") (reject lists queue (codes "a")).0
      ≡ total lists lists-RedisLaws (codes "b") queue)
    × (total lists lists-RedisLaws (codes "b") (return_to_queue lists queue (codes "a")).0
        ≡ total lists lists-RedisLaws (codes "b") queue)
    × (total lists lists-RedisLaws (codes "b") (ack lists queue (codes "a")).0
          + (if bytes_eq (codes "a") (codes "b") then 1 else 0)
        ≡ total lists lists-RedisLaws (codes "b") queue)
    × ((ack lists queue (codes "a")).1 ≡ true)
settled_example = settled-total lists lists-RedisLaws queue (codes "a") (codes "b") count-a

-- One message waits behind the first sentinel, before a second is relayed.
abbrev held : DelayRelay
held = record {
  queue = codes "a" ∷ codes "s" ∷ codes "b" ∷ [];
  relayed = [];
  waiting = false;
  flushing = false;
}

held-Balanced : Balanced (codes "s") held
unfolding Balanced sentinels is_sentinel bytes_eq
held-Balanced = refl

run-flushes_example : run (codes "s") (length held.queue + 2) (flush (codes "s") held) ≡ record {
  queue = [];
  relayed = held.relayed ++ messages (codes "s") held.queue;
  waiting = true;
  flushing = false;
}
run-flushes_example = run-flushes (codes "s") held held-Balanced refl

a_sent : is_sentinel (codes "s") (codes "a") ≡ false
unfolding is_sentinel bytes_eq
a_sent = refl

Reached-two :
    Reached
      (codes "s")
      (codes "a" ∷ [])
      (tick (codes "s") (Delay.publish (codes "s") (codes "a") (new_delay_relay (codes "s"))))
Reached-two =
    ticked (codes "a" ∷ []) (Delay.publish (codes "s") (codes "a") (new_delay_relay (codes "s")))
      (published [] (new_delay_relay (codes "s")) (codes "a") a_sent begun)

Reached_example :
    Holds
      (codes "s")
      (codes "a" ∷ [])
      (tick (codes "s") (Delay.publish (codes "s") (codes "a") (new_delay_relay (codes "s"))))
Reached_example =
    Reached-Holds (codes "s") (codes "a" ∷ [])
      (tick (codes "s") (Delay.publish (codes "s") (codes "a") (new_delay_relay (codes "s"))))
      Reached-two
