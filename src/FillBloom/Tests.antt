-- ===== src/FillBloom/Tests.antt =====
-- Tests of the bloom filter: a filter that keeps the hashes in a list, and a chain with one log.
use openrelay.Prelude.{
  ℕ, ◌≡◌, ◌≢◌, ◌≤◌, refl, subst, Bool, true, false, ◌||◌, List, [], ◌∷◌, some, Bytes, bytes_eq,
  bytes_eq_refl, replicate, to_bytes, arith, zeros, ◌++◌,
}
use openrelay.Types.Text.{sprint_hex}
use openrelay.Chain.{Log, Node, AllMatching, log_matches, one_of, topics_match}
use openrelay.FillBloom.{
  Filter, FillBloom, ready, unfinished, absent, initialize, populate_from, add_logs, logs_added,
  add, order_hash_of, fill_topic_v1,
}
use openrelay.FillBloom.Covers.{FilterLaw, Asked, initialize-covers}
use openrelay.FillBloom.Finishes.{initialize-finishes}
use mathlib.Core.List.{Memᴰ}

one_of_list : List Bytes → Bytes → Bool
one_of_list [] b = false
one_of_list (x ∷ xs) b = bytes_eq x b || one_of_list xs b

abbrev exact : Filter (List Bytes)
unfolding one_of_list
exact = record { add = λ b x. x ∷ b; test = one_of_list }

or_right : (a b : Bool) → b ≡ true → (a || b) ≡ true
or_right true b e = refl
or_right false b e = e

left_or : (a b : Bool) → a ≡ true → (a || b) ≡ true
left_or true b e = refl
left_or false b e = absurd (cc)

exact_law : FilterLaw exact
unfolding exact one_of_list
exact_law = record {
  added = λ b x. left_or (bytes_eq x x) (one_of_list b x) (bytes_eq_refl x);
  kept = λ b x y h. or_right (bytes_eq x y) (one_of_list b y) h;
}

abbrev hash : Bytes
hash = replicate 32 7

abbrev log : Log
log = record {
  address = to_bytes 20 4;
  topics = to_bytes 32 fill_topic_v1 ∷ zeros 32 ∷ zeros 32 ∷ [];
  payload = zeros 32 ++ hash;
}

-- Every block has the log, and the node answers every query with it.
abbrev node : Node
node = record {
  bloom_lookup = λ b x. true;
  filter_logs = λ q. some (log ∷ []);
  big_to_address = λ n. to_bytes 20 n;
  big_to_hash = λ n. to_bytes 32 n;
  lower_address = sprint_hex;
}

some-injective : (a b : List Log) → some a ≡ some b → a ≡ b
some-injective a b e = cc

node_complete : AllMatching node (λ n. log ∷ [])
node_complete q a b n l logs x y lo hi m matches e =
    subst (Memᴰ l) (some-injective (log ∷ []) logs e) m

abbrev fresh : FillBloom (List Bytes)
fresh = record { b = []; store = absent; initialized = false }

abbrev filled : FillBloom (List Bytes)
filled = record { b = hash ∷ hash ∷ []; store = absent; initialized = true }

initialize-fresh : initialize exact node 2 3 (to_bytes 20 4 ∷ []) fresh ≡ ready filled
unfolding initialize populate_from add_logs logs_added add exact
initialize-fresh = refl

initialize-covers_example :
    ((n : ℕ) (l : Log)
      → n ≤ 3
      → Memᴰ l (log ∷ [])
      → Asked exact exact_law node 2 3 (to_bytes 20 4 ∷ []) (λ n. log ∷ []) l
      → exact.test filled.b (order_hash_of l) ≡ true)
    × ((y : Bytes) → exact.test fresh.b y ≡ true → exact.test filled.b y ≡ true)
initialize-covers_example =
    initialize-covers exact exact_law node 2 3 (to_bytes 20 4 ∷ []) (λ n. log ∷ []) node_complete
      (omega arith) fresh filled refl (omega arith) initialize-fresh

initialize-finishes_example : initialize exact node 2 3 (to_bytes 20 4 ∷ []) fresh ≢ unfinished
initialize-finishes_example =
    initialize-finishes exact node 2 3 (to_bytes 20 4 ∷ []) (omega arith) (omega arith) fresh

-- A log that matches is there, so that the first of the two says something.
log-Asked : Asked exact exact_law node 2 3 (to_bytes 20 4 ∷ []) (λ n. log ∷ []) log
unfolding log_matches one_of topics_match bytes_eq to_bytes
log-Asked = refl
