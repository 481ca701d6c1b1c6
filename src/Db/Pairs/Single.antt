-- ===== src/Db/Pairs/Single.antt =====
-- db/pairs.go: two assets are one pair.
use openrelay.Prelude.{
  ℕ, ◌≡◌, refl, sym, ap, true-false, ◌∙◌, Bool, true, false, List, [], ◌∷◌, Bytes, bytes_eq,
  bytes_eq_iff, bytes_lt, ltb, ◌==◌, if◌then◌else◌, length, ℤ, All, arith, ◌||◌, ◌&&◌, ◌⊎◌, inl,
  inr,
}
use openrelay.Db.Order.{DbOrder}
use openrelay.Db.Exchange.{Exchange}
use openrelay.Db.Pairs.{
  Pair, least, greatest, same_pair, has_pair, distinct, ordered, has_tokens, pairs_where,
  get_token_ab_pairs, network_addresses, traded,
}

heads :
    (x y : ℕ) (p q : Bool)
    → (ltb x y || (x == y && p)) ≡ false
    → (ltb y x || (y == x && q)) ≡ false
    → (x ≡ y) × ((p ≡ false) × (q ≡ false))
heads x y p q e f = ground arith

heads_asym :
    (x y : ℕ) (p q : Bool)
    → (ltb x y || (x == y && p)) ≡ true
    → (p ≡ true → q ≡ false)
    → (ltb y x || (y == x && q)) ≡ false
heads_asym x y p q e f = ground arith

or_cases :
    (p q r s : Bool)
    → (p && q || (r && s)) ≡ true
    → ((p ≡ true) × (q ≡ true)) ⊎ ((r ≡ true) × (s ≡ true))
or_cases p q r s e = ground arith

or_left : (p q : Bool) → p ≡ true → (p || q) ≡ true
or_left p q e = ground arith

and_both : (p q : Bool) → p ≡ true → q ≡ true → (p && q) ≡ true
and_both p q e f = ground arith

less_total : (a b : Bytes) → bytes_lt a b ≡ false → bytes_lt b a ≡ false → a ≡ b
unfolding bytes_lt
less_total [] [] e f = refl
less_total [] (y ∷ ys) e f = cc
less_total (x ∷ xs) [] e f = cc
less_total (x ∷ xs) (y ∷ ys) e f =
    let (same, (e1, f1)) = heads x y (bytes_lt xs ys) (bytes_lt ys xs) e f in
    let tails = less_total xs ys e1 f1 in cc

less_asym : (a b : Bytes) → bytes_lt a b ≡ true → bytes_lt b a ≡ false
unfolding bytes_lt
less_asym [] [] e = cc
less_asym [] (y ∷ ys) e = refl
less_asym (x ∷ xs) [] e = cc
less_asym (x ∷ xs) (y ∷ ys) e =
    heads_asym x y (bytes_lt xs ys) (bytes_lt ys xs) e (λ h. less_asym xs ys h)

abbrev pair : Bytes → Bytes → Pair
pair a b = record { token_a = a; token_b = b }

-- The pair that two assets make.
abbrev pub pair_of : Bytes → Bytes → Pair
pair_of a b = pair (least a b) (greatest a b)

pair_of_comm : (a b : Bytes) → pair_of b a ≡ pair_of a b
unfolding least greatest
pair_of_comm a b = by_order (bytes_lt a b) (bytes_lt b a) refl refl
  where
    by_order :
        (p q : Bool)
        → bytes_lt a b ≡ p
        → bytes_lt b a ≡ q
        → pair (if p then a else b) (if p then b else a)
          ≡ pair (if q then b else a) (if q then a else b)
    by_order true true e f = absurd (true-false (sym f ∙ less_asym a b e))
    by_order true false e f = refl
    by_order false true e f = refl
    by_order false false e f = let same = less_total a b e f in cc

tokens_pair :
    (a b : Bytes) (x : Pair) → has_tokens a b x ≡ true → pair_of x.token_a x.token_b ≡ pair_of a b
tokens_pair a b x e =
    by_row (bytes_eq x.token_b a) (bytes_eq x.token_a b) (bytes_eq x.token_a a)
      (bytes_eq x.token_b b) refl refl refl refl e
  where
    by_row :
        (p q r s : Bool)
        → bytes_eq x.token_b a ≡ p
        → bytes_eq x.token_a b ≡ q
        → bytes_eq x.token_a a ≡ r
        → bytes_eq x.token_b b ≡ s
        → (p && q || (r && s)) ≡ true
        → pair_of x.token_a x.token_b ≡ pair_of a b
    by_row p q r s ep eq er es h = elim (or_cases p q r s h) [
      | inl (tp, tq) ↦
          let u = (bytes_eq_iff x.token_b a).0 (ep ∙ tp) in
          let v = (bytes_eq_iff x.token_a b).0 (eq ∙ tq) in
          ap (λ y. pair_of y x.token_b) v ∙ ap (λ y. pair_of b y) u ∙ pair_of_comm a b
      | inr (tr, ts) ↦
          let u = (bytes_eq_iff x.token_a a).0 (er ∙ tr) in
          let v = (bytes_eq_iff x.token_b b).0 (es ∙ ts) in
          ap (λ y. pair_of y x.token_b) u ∙ ap (λ y. pair_of a y) v
    ]

-- The rows that pass a test are ordered into one pair, if the test says so.
ordered-All :
    (t : Pair) (test : Pair → Bool) (xs : List Pair)
    → ((x : Pair) → test x ≡ true → pair_of x.token_a x.token_b ≡ t)
    → All (λ p. p ≡ t) (ordered test xs)
unfolding ordered
ordered-All t test [] h = tt
ordered-All t test (x ∷ xs) h = by_test (test x) refl (ordered-All t test xs h)
  where
    by_test :
        (b : Bool)
        → test x ≡ b
        → All (λ p. p ≡ t) (ordered test xs)
        → All
            (λ p. p ≡ t)
            (if b then pair_of x.token_a x.token_b ∷ ordered test xs else ordered test xs)
    by_test true e rest = (h x e, rest)
    by_test false e rest = rest

has_pair-head : (p : Pair) (qs : List Pair) → has_pair p (p ∷ qs) ≡ true
unfolding has_pair same_pair
has_pair-head p qs = or_left _ _ (
    and_both _ _ ((bytes_eq_iff p.token_a p.token_a).1 refl)
      ((bytes_eq_iff p.token_b p.token_b).1 refl))

abbrev put : Pair → List Pair → List Pair
put p r = if has_pair p r then r else p ∷ r

-- One pair at most, and it is the one that all are.
distinct-one :
    (t : Pair) (ps : List Pair) → All (λ p. p ≡ t) ps → (distinct ps ≡ []) ⊎ (distinct ps ≡ t ∷ [])
unfolding distinct has_pair
distinct-one t [] h = inl refl
distinct-one t (p ∷ ps) h = elim (distinct-one t ps h.1) [
  | inl none_yet ↦ inr (ap (λ r. put p r) none_yet ∙ ap (λ x. x ∷ []) h.0)
  | inr there ↦ inr (
      ap (λ r. put p r) there
      ∙ ap (λ b. if b then t ∷ [] else p ∷ t ∷ [])
          (ap (λ y. has_pair p (y ∷ [])) (sym h.0) ∙ has_pair-head p []))
]

module _ (exchanges : List Exchange) (rows : List DbOrder) where
  -- GetTokenABPairs finds no pair, or one: the lesser asset and the greater one, in whichever order the
  -- request and the orders have them, and the count it returns is the number of pairs.
  pub get_token_ab_pairs-one :
      (a b : Bytes) (network : ℤ)
      → (get_token_ab_pairs exchanges rows a b network ≡ ([], 0))
        ⊎ (get_token_ab_pairs exchanges rows a b network ≡ (pair_of a b ∷ [], 1))
  unfolding get_token_ab_pairs pairs_where
  get_token_ab_pairs-one a b network =
      elim (distinct-one (pair_of a b) _ (
        ordered-All (pair_of a b) (has_tokens a b)
          (distinct (traded (network_addresses network exchanges) rows)) (tokens_pair a b))) [
            | inl e ↦ inl (ap (λ ps. (ps, length ps)) e)
            | inr e ↦ inr (ap (λ ps. (ps, length ps)) e)
          ]
