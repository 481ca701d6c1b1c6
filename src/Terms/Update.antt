-- ===== src/Terms/Update.antt =====
-- db/terms.go: which terms are current after an update.
use openrelay.Prelude.{
  ℕ, ◌+◌, ◌-◌, ◌≤◌, ◌≡◌, ◌≢◌, refl, sym, ap, ◌∙◌, true, false, List, [], ◌∷◌, ◌++◌, Bool, Option,
  none, some, Option-cases, bytes_eq, bytes_eq_refl, if◌then◌else◌, ok, Bool-cases, inl, inr, arith,
}
use openrelay.Types.Text.{Str}
use openrelay.Terms.{
  Terms, is_current, get_terms, retire, default_difficulty, Statements, ran, old_terms, retired,
  new_terms, update_terms,
}
use Prim.Native.String.{String}

-- How many rows of a language are current.
abbrev pub count_current : Str → List Terms → ℕ
count_current lang [] = 0
count_current lang (t ∷ ts) = (if is_current lang t then 1 else 0) + count_current lang ts

not_current : (lang : Str) (t : Terms) → is_current lang (record t { current = false }) ≡ false
not_current lang t = elim (Bool-cases (bytes_eq t.lang lang)) [
  | inl e ↦ rw e refl
  | inr e ↦ rw e refl
]

count-yes :
    (lang : Str) (t : Terms) (ts : List Terms)
    → is_current lang t ≡ true
    → count_current lang (t ∷ ts) ≡ 1 + count_current lang ts
count-yes lang t ts e = rw e refl

count-no :
    (lang : Str) (t : Terms) (ts : List Terms)
    → is_current lang t ≡ false
    → count_current lang (t ∷ ts) ≡ count_current lang ts
count-no lang t ts e = rw e (omega arith)

retire-yes :
    (lang : Str) (t : Terms) (ts : List Terms)
    → is_current lang t ≡ true
    → retire lang (t ∷ ts) ≡ record t { current = false } ∷ ts
unfolding retire
retire-yes lang t ts e = rw e refl

retire-no :
    (lang : Str) (t : Terms) (ts : List Terms)
    → is_current lang t ≡ false
    → retire lang (t ∷ ts) ≡ t ∷ retire lang ts
unfolding retire
retire-no lang t ts e = rw e refl

count-retire :
    (lang : Str) (table : List Terms)
    → count_current lang (retire lang table) ≡ count_current lang table - 1
unfolding retire
count-retire lang [] = omega arith
count-retire lang (t ∷ ts) = elim (Bool-cases (is_current lang t)) [
  | inl e ↦ omega (
    arith,
    ap (count_current lang) (retire-yes lang t ts e),
    count-no lang (record t { current = false }) ts (not_current lang t),
    count-yes lang t ts e,
  )
  | inr e ↦ omega (
    arith,
    ap (count_current lang) (retire-no lang t ts e),
    count-no lang t (retire lang ts) e,
    count-no lang t ts e,
    count-retire lang ts,
  )
]

count-append :
    (lang : Str) (xs : List Terms) (t : Terms)
    → count_current lang (xs ++ (t ∷ [])) ≡ count_current lang xs + count_current lang (t ∷ [])
count-append lang [] t = omega arith
count-append lang (x ∷ xs) t = omega (arith, count-append lang xs t)

get_terms-here :
    (lang : Str) (t : Terms) (ts : List Terms)
    → is_current lang t ≡ true
    → get_terms lang (t ∷ ts) ≡ some t
unfolding get_terms
get_terms-here lang t ts e = rw e refl

get_terms-there :
    (lang : Str) (t : Terms) (ts : List Terms)
    → is_current lang t ≡ false
    → get_terms lang (t ∷ ts) ≡ get_terms lang ts
unfolding get_terms
get_terms-there lang t ts e = rw e refl

none-some : (t : Terms) → none ≢ some t
none-some t e = cc

-- Where no row is current, a current row that is appended is the one that is found.
get_terms-append :
    (lang : Str) (xs : List Terms) (t : Terms)
    → count_current lang xs ≡ 0
    → is_current lang t ≡ true
    → get_terms lang (xs ++ (t ∷ [])) ≡ some t
unfolding get_terms
get_terms-append lang [] t z e = get_terms-here lang t [] e
get_terms-append lang (x ∷ xs) t z e = elim (Bool-cases (is_current lang x)) [
  | inl c ↦ absurd (omega (arith, count-yes lang x xs c))
  | inr c ↦ rw c (get_terms-append lang xs t (omega (arith, count-no lang x xs c)) e)
]

retire-none :
    (lang : Str) (table : List Terms) → get_terms lang table ≡ none → retire lang table ≡ table
unfolding retire get_terms
retire-none lang [] e = refl
retire-none lang (t ∷ ts) e = elim (Bool-cases (is_current lang t)) [
  | inl c ↦ absurd (none-some t (sym e ∙ get_terms-here lang t ts c))
  | inr c ↦ rw c (ap (λ x. t ∷ x) (retire-none lang ts (sym (get_terms-there lang t ts c) ∙ e)))
]

-- No statement fails, but perhaps the query.
abbrev pub working : Option String → Statements
working query = record { query = query; begin = none; save = none; create = none; commit = none }

retired-working :
    (query : Option String) (lang : Str) (table : List Terms)
    → retired (working query) lang table (get_terms lang table) ≡ ok (retire lang table)
unfolding retired
retired-working query lang table = elim (Option-cases (get_terms lang table)) [
  | inl e ↦ ap (retired (working query) lang table) e ∙ ap ok (sym (retire-none lang table e))
  | inr (t, e) ↦ ap (retired (working query) lang table) e
]

-- The table after an update: exactly one current row, which GetTerms finds; or, if the query failed, the
-- new row beside all rows of before.
abbrev pub Updated : Option String → ℕ → Str → Str → List Terms → List Terms → Type 0
Updated none id lang text table after =
    (count_current lang after ≡ 1)
    × (get_terms lang after
        ≡ some (new_terms id lang text (default_difficulty (get_terms lang table))))
Updated (some e) id lang text table after =
    (count_current lang after ≡ count_current lang table + 1)
    × (after ≡ table ++ (new_terms id lang text 3 ∷ []))

new_terms-is_current :
    (id : ℕ) (lang text : Str) (difficulty : ℕ)
    → count_current lang (new_terms id lang text difficulty ∷ []) ≡ 1
new_terms-is_current id lang text difficulty = rw (bytes_eq_refl lang) refl

committed : (is_tx : Bool) → (if is_tx then ok tt else ran none) ≡ ok tt
committed true = refl
committed false = refl

updates :
    (is_tx : Bool) (query : Option String) (id : ℕ) (lang text : Str) (table kept : List Terms)
    → retired (working query) lang table (old_terms query lang table) ≡ ok kept
    → update_terms is_tx (working query) id lang text table
      ≡ ok (kept ++ (new_terms id lang text (default_difficulty (old_terms query lang table)) ∷ []))
unfolding update_terms
updates is_tx query id lang text table kept e = rw (e, committed is_tx) refl

-- An update of the terms of a language that has at most one current row succeeds if Begin, Save, Create
-- and Commit do. If the query of the old terms succeeds or finds no row, then exactly one row is current
-- after it, which GetTerms finds: the new text, at the difficulty of the terms before, or 3 if there
-- were none. If the query fails otherwise, the new row is added at difficulty 3 and none is retired, so
-- that a language with current terms has two current rows.
pub update_terms-current :
    (is_tx : Bool) (query : Option String) (id : ℕ) (lang text : Str) (table : List Terms)
    → count_current lang table ≤ 1
    → (after : List Terms) × (update_terms is_tx (working query) id lang text table ≡ ok after)
      × Updated query id lang text table after
unfolding old_terms retired
update_terms-current is_tx none id lang text table one =
    let new = new_terms id lang text (default_difficulty (get_terms lang table)) in
    let none_left : count_current lang (retire lang table) ≡ 0 =
      omega (arith, count-retire lang table) in
    (
      retire lang table ++ (new ∷ []),
      updates is_tx none id lang text table (retire lang table) (retired-working none lang table),
      (
        omega (
          arith,
          count-append lang (retire lang table) new,
          new_terms-is_current id lang text new.difficulty,
        ),
        get_terms-append lang (retire lang table) new none_left (rw (bytes_eq_refl lang) refl),
      ),
    )
update_terms-current is_tx (some e) id lang text table one = (
  table ++ (new_terms id lang text 3 ∷ []),
  updates is_tx (some e) id lang text table table refl,
  (
    omega (
      arith,
      count-append lang table (new_terms id lang text 3),
      new_terms-is_current id lang text 3,
    ),
    refl,
  ),
)
