-- ===== src/FillBloom/Finishes.antt =====
-- fillbloom/fillbloom.go: Initialize comes to an end.
use openrelay.Prelude.{
  ℕ, zero, suc, ◌+◌, ◌^◌, ◌≢◌, ◌≤◌, ◌<◌, List, Option, none, some, Bytes, ltb, ltb→lt, Outcome, ok,
  err, panic, arith, Bool-cases, inl, inr,
}
use openrelay.Chain.{Node}
use openrelay.FillBloom.Int64.{lt_int64_lem, add_int64_lem}
use openrelay.FillBloom.{
  Filter, Stored, absent, FillBloom, Initialized, failed, crashed, unfinished, add_int64, populated,
  logs_added, finished, chunk_query, populate_from, loaded, initialize, unreadable, holds,
}

module _ {B : Type 0} (f : Filter B) (node : Node) (chunk end_block : ℕ) (addresses : List Bytes)
    (positive : 0 < chunk) (small : end_block + chunk < 2 ^ 63) where
  failed-unfinished : (fb : FillBloom B) → failed fb ≢ unfinished
  failed-unfinished fb e = cc

  finished-unfinished : (fb : FillBloom B) → finished f fb ≢ unfinished
  finished-unfinished fb e = cc

  crashed-unfinished : ◌≢◌ {A = Initialized B} crashed unfinished
  crashed-unfinished e = cc

  populated-unfinished :
      (rest : FillBloom B → Initialized B) (fb : FillBloom B) (o : Option (Outcome (FillBloom B)))
      → ((mid : FillBloom B) → rest mid ≢ unfinished)
      → populated f rest fb o ≢ unfinished
  populated-unfinished rest fb none h = failed-unfinished fb
  populated-unfinished rest fb (some (ok mid)) h = h mid
  populated-unfinished rest fb (some (err s)) h = crashed-unfinished
  populated-unfinished rest fb (some panic) h = crashed-unfinished

  populate_from-finishes :
      (rounds last_block : ℕ) (fb : FillBloom B)
      → last_block < 2 ^ 63
      → end_block ≤ last_block + rounds
      → populate_from f node chunk end_block addresses rounds last_block fb ≢ unfinished
  unfolding populate_from
  populate_from-finishes zero last_block fb b enough =
      rw (lt_int64_lem last_block end_block b (omega arith))
        (elim (Bool-cases (ltb last_block end_block)) [
          | inl lt ↦ absurd (omega (arith, ltb→lt last_block end_block lt))
          | inr over ↦ rw over (finished-unfinished fb)
        ])
  populate_from-finishes (suc rounds) last_block fb b enough =
      let rest = populate_from-finishes rounds (add_int64 last_block chunk) in
      rw (lt_int64_lem last_block end_block b (omega arith))
        (elim (Bool-cases (ltb last_block end_block)) [
          | inl lt ↦
              let next =
                add_int64_lem last_block chunk (omega (arith, ltb→lt last_block end_block lt)) in
              rw lt (
                populated-unfinished
                  (populate_from f node chunk end_block addresses rounds
                    (add_int64 last_block chunk))
                  fb
                  (logs_added f fb
                    (node.filter_logs (chunk_query f node chunk end_block addresses last_block)))
                  (λ mid.
                    rest mid (omega (arith, next, ltb→lt last_block end_block lt))
                      (omega (arith, next))))
          | inr over ↦ rw over (finished-unfinished fb)
        ])

  loaded-finishes :
      (fb : FillBloom B) (store : Stored B)
      → loaded f node chunk end_block addresses fb store end_block ≢ unfinished
  unfolding loaded
  loaded-finishes fb absent = populate_from-finishes end_block 0 fb (omega arith) (omega arith)
  loaded-finishes fb unreadable = failed-unfinished fb
  loaded-finishes fb (holds b) = finished-unfinished (record fb { b = b })

  -- With a positive chunk Initialize comes to an end, whatever the node answers, after at most as many
  -- rounds as the number of the end block. The block numbers stay within an int64.
  pub initialize-finishes :
      (fb : FillBloom B) → initialize f node chunk end_block addresses fb ≢ unfinished
  unfolding initialize
  initialize-finishes fb = loaded-finishes fb fb.store
