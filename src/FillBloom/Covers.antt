-- ===== src/FillBloom/Covers.antt =====
-- fillbloom/fillbloom.go: Initialize asks for every block.
use openrelay.Prelude.{
  ℕ, zero, suc, ◌+◌, ◌^◌, ◌≡◌, ◌≢◌, ◌≤◌, ◌<◌, refl, sym, ap, ◌∙◌, true, false, List, [], ◌∷◌,
  Option, none, some, Bytes, length, ltb, ltb→lt, lt→ltb, Outcome, ok, err, panic, panic-ok,
  ok-injective, arith, subst, Bool-cases, inl, inr, true-false,
}
use openrelay.Chain.{Log, Node, AllMatching, log_matches}
use openrelay.FillBloom.Int64.{
  lt_int64_lem, add_int64_lem, min_int64_lem, min_int64-lt, new_int_lem,
}
use openrelay.FillBloom.{
  Filter, absent, FillBloom, Initialized, ready, failed, crashed, unfinished, add_int64, min_int64,
  order_hash_of, add, add_logs, populated, logs_added, finished, chunk_query, populate_from, loaded,
  initialize,
}
use mathlib.Core.List.{Memᴰ}
use mathlib.Core.List.Memᴰ

-- A bloom filter has no false negatives.
pub record FilterLaw {B : Type 0} (f : Filter B) : Type 0 where
  pub added : (b : B) (x : Bytes) → f.test (f.add b x) x ≡ true
  pub kept : (b : B) (x y : Bytes) → f.test b y ≡ true → f.test (f.add b x) y ≡ true

ready-injective : {B : Type 0} (a b : FillBloom B) → ready a ≡ ready b → a ≡ b
ready-injective a b e = cc

failed-ready : {B : Type 0} (a b : FillBloom B) → failed a ≢ ready b
failed-ready a b e = cc

crashed-ready : {B : Type 0} (b : FillBloom B) → crashed ≢ ready b
crashed-ready b e = cc

nothing-some : {A : Type 0} (a : A) → none ≢ some a
nothing-some a e = cc

unfinished-ready : {B : Type 0} (b : FillBloom B) → unfinished ≢ ready b
unfinished-ready b e = cc

module _ {B : Type 0} (f : Filter B) (law : FilterLaw f) where
  Keeps : FillBloom B → FillBloom B → Type 0
  Keeps fb fb' = (y : Bytes) → f.test fb.b y ≡ true → f.test fb'.b y ≡ true

  add_logs-covers :
      (logs : List Log) (fb fb' : FillBloom B)
      → add_logs f logs fb ≡ ok fb'
      → Keeps fb fb' × ((l : Log) → Memᴰ l logs → f.test fb'.b (order_hash_of l) ≡ true)
  unfolding add_logs add Keeps
  add_logs-covers [] fb fb' e = (
    λ y h. subst (λ (x : FillBloom B). f.test x.b y ≡ true) (ok-injective fb fb' e) h,
    λ l m. absurd (Memᴰ.not-nil m),
  )
  add_logs-covers (x ∷ xs) fb fb' e = elim (Bool-cases (ltb (length x.payload) 32)) [
    | inl short ↦ absurd (panic-ok fb' (sym (rw short refl) ∙ e))
    | inr long ↦
        let r = add_logs-covers xs (add f fb (order_hash_of x)) fb' (sym (rw long refl) ∙ e) in
        (
          λ y h. r.0 y (law.kept fb.b (order_hash_of x) y h),
          λ l m. elim (Memᴰ.cases_cons m) [
            | inl same ↦
                subst (λ (z : Log). f.test fb'.b (order_hash_of z) ≡ true) (sym same)
                  (r.0 (order_hash_of x) (law.added fb.b (order_hash_of x)))
            | inr later ↦ r.1 l later
          ],
        )
  ]

  populated-ready :
      (rest : FillBloom B → Initialized B) (fb : FillBloom B) (o : Option (Outcome (FillBloom B)))
      (fb' : FillBloom B)
      → populated f rest fb o ≡ ready fb'
      → (mid : FillBloom B) × (o ≡ some (ok mid)) × (rest mid ≡ ready fb')
  populated-ready rest fb none fb' e = absurd (failed-ready fb fb' e)
  populated-ready rest fb (some (ok mid)) fb' e = (mid, refl, e)
  populated-ready rest fb (some (err s)) fb' e = absurd (crashed-ready fb' e)
  populated-ready rest fb (some panic) fb' e = absurd (crashed-ready fb' e)

  logs_added-ok :
      (fb mid : FillBloom B) (o : Option (List Log))
      → logs_added f fb o ≡ some (ok mid)
      → (logs : List Log) × (o ≡ some logs) × (add_logs f logs fb ≡ ok mid)
  unfolding logs_added
  logs_added-ok fb mid none e = absurd (nothing-some (ok mid) e)
  logs_added-ok fb mid (some logs) e = (logs, refl, cc)

  module _ (node : Node) (chunk end_block : ℕ) (addresses : List Bytes)
      (logs_of : ℕ → List Log) where
    -- A log of the events that Initialize asks for, at one of the addresses.
    abbrev pub Asked : Log → Type 0
    unfolding log_matches
    Asked l = log_matches (chunk_query f node chunk end_block addresses 0) l ≡ true

    module _ (complete : AllMatching node logs_of) (small : end_block + chunk < 2 ^ 63) where
      -- From `last_block` on, the loop keeps what the filter has and adds the logs up to the end.
      Added : ℕ → FillBloom B → FillBloom B → Type 0
      Added last_block fb fb' =
          Keeps fb fb'
          × (last_block < end_block
              → (n : ℕ) (l : Log) → last_block ≤ n
              → n ≤ end_block
              → Memᴰ l (logs_of n)
              → Asked l
              → f.test fb'.b (order_hash_of l) ≡ true)

      finished-Added :
          (last_block : ℕ) (fb fb' : FillBloom B)
          → ltb last_block end_block ≡ false
          → finished f fb ≡ ready fb'
          → Added last_block fb fb'
      unfolding Added Keeps
      finished-Added last_block fb fb' over e = (
        λ y h.
            subst (λ (x : FillBloom B). f.test x.b y ≡ true)
              (ready-injective (record fb { initialized = true }) fb' e) h,
        λ lt n l lo hi m a. absurd (true-false (sym (lt→ltb last_block end_block lt) ∙ over)),
      )

      -- The logs of one query are those of its chunk.
      chunk-Added :
          (last_block : ℕ) (fb mid fb' : FillBloom B) (logs : List Log)
          → last_block < end_block
          → node.filter_logs (chunk_query f node chunk end_block addresses last_block) ≡ some logs
          → add_logs f logs fb ≡ ok mid
          → Added (last_block + chunk) mid fb'
          → Added last_block fb fb'
      unfolding Added Keeps log_matches
      chunk-Added last_block fb mid fb' logs lt answered added rest =
          let r = add_logs-covers logs fb mid added in
          let next : ℕ = min_int64 (add_int64 last_block chunk) end_block in
          (
            λ y h. rest.0 y (r.0 y h),
            λ lt' n l lo hi m a. elim (Bool-cases (ltb (last_block + chunk) n)) [
              | inl beyond ↦
                  rest.1 (omega (arith, ltb→lt (last_block + chunk) n beyond)) n l
                    (omega (arith, ltb→lt (last_block + chunk) n beyond)) hi m a
              | inr within ↦ rest.0 (order_hash_of l) (
                  r.1 l (
                    complete (chunk_query f node chunk end_block addresses last_block) last_block
                      next n l logs (ap some (new_int_lem last_block (omega arith)))
                      (ap some (
                        new_int_lem next (
                          min_int64-lt (add_int64 last_block chunk) end_block
                            (omega (arith, add_int64_lem last_block chunk (omega arith)))
                            (omega arith))))
                      lo
                      (min_int64_lem (add_int64 last_block chunk) end_block n
                        (omega (arith, add_int64_lem last_block chunk (omega arith))) (omega arith)
                        hi (ground (arith, add_int64_lem last_block chunk (omega arith))))
                      m a answered))
            ],
          )

      populate_from-Added :
          (rounds last_block : ℕ) (fb fb' : FillBloom B)
          → last_block < 2 ^ 63
          → populate_from f node chunk end_block addresses rounds last_block fb ≡ ready fb'
          → Added last_block fb fb'
      unfolding populate_from
      populate_from-Added zero last_block fb fb' b e =
          elim (Bool-cases (ltb last_block end_block)) [
            | inl lt ↦ absurd (
                unfinished-ready fb'
                  (sym (rw (lt_int64_lem last_block end_block b (omega arith)) (rw lt refl)) ∙ e))
            | inr over ↦
                finished-Added last_block fb fb' over
                  (sym (rw (lt_int64_lem last_block end_block b (omega arith)) (rw over refl)) ∙ e)
          ]
      populate_from-Added (suc rounds) last_block fb fb' b e =
          let rest = populate_from-Added rounds (add_int64 last_block chunk) in
          elim (Bool-cases (ltb last_block end_block)) [
            | inl lt ↦
                let next =
                  add_int64_lem last_block chunk (omega (arith, ltb→lt last_block end_block lt)) in
                let p =
                  populated-ready
                    (populate_from f node chunk end_block addresses rounds
                      (add_int64 last_block chunk))
                    fb
                    (logs_added f fb
                      (node.filter_logs (chunk_query f node chunk end_block addresses last_block)))
                    fb'
                    (sym (rw (lt_int64_lem last_block end_block b (omega arith)) (rw lt refl))
                      ∙ e) in
                let q =
                  logs_added-ok fb p.0
                    (node.filter_logs (chunk_query f node chunk end_block addresses last_block))
                    p.1 in
                chunk-Added last_block fb p.0 fb' q.0 (ltb→lt last_block end_block lt) q.1 q.2 (
                  subst (λ (k : ℕ). Added k p.0 fb') next
                    (rest p.0 fb' (omega (arith, next, ltb→lt last_block end_block lt)) p.2))
            | inr over ↦
                finished-Added last_block fb fb' over
                  (sym (rw (lt_int64_lem last_block end_block b (omega arith)) (rw over refl)) ∙ e)
          ]

      -- If the stored filter cannot be read, then Initialize, when it succeeds, has asked for every block
      -- from 0 to a positive end block: the last 32 bytes of every log there that matches its query test
      -- positive, and so does all that did before. The block numbers stay within an int64.
      pub initialize-covers :
          (fb fb' : FillBloom B)
          → fb.store ≡ absent
          → 0 < end_block
          → initialize f node chunk end_block addresses fb ≡ ready fb'
          → ((n : ℕ) (l : Log)
              → n ≤ end_block
              → Memᴰ l (logs_of n)
              → Asked l
              → f.test fb'.b (order_hash_of l) ≡ true)
            × ((y : Bytes) → f.test fb.b y ≡ true → f.test fb'.b y ≡ true)
      unfolding initialize Added Keeps
      initialize-covers fb fb' missing positive e =
          let r =
            populate_from-Added end_block 0 fb fb' (omega arith) (
              sym (ap (λ s. loaded f node chunk end_block addresses fb s end_block) missing) ∙ e) in
          (λ n l hi m a. r.1 positive n l (omega arith) hi m a, r.0)
