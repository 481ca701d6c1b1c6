-- ===== src/Search/Handlers/Sound.antt =====
-- search/search.go: what SearchHandler lists.
use openrelay.Prelude.{
  ℕ, ◌≡◌, ◌≢◌, refl, sym, ap, ◌∙◌, subst, true, false, List, [], ◌∷◌, ◌++◌, Option, none, some, map,
  ℤ, pos, ltb_ℤ, Bool-cases, inl, inr,
}
use openrelay.Db.Order.{DbOrder}
use openrelay.Ingest.{ValidationError}
use openrelay.Search.Query.{Query, meets}
use openrelay.Search.Pages.{
  offset_of, FormattedOrder, get_formatted_order, PagedResult, page, invalid, refused, panicked,
}
use openrelay.Search.Handlers.{
  Database, selected, failing, count, find_page, format_response, answered, run_query,
}
use mathlib.Core.List.{Memᴰ}
use mathlib.Core.List.Memᴰ

-- Offset and Limit give rows of the query.
abbrev pub SliceLaw : Database → Type 0
SliceLaw d =
    (o l : ℤ) (rows : List DbOrder) (row : DbOrder)
    → Memᴰ row (d.slice_rows o l rows)
    → Memᴰ row rows

pub page-injective : {A : Type 0} (p r : PagedResult A) → page p ≡ page r → p ≡ r
page-injective p r e = cc

pub refused-page : {A : Type 0} (s : ℕ) (p : PagedResult A) → refused s ≢ page p
refused-page s p e = cc

pub invalid-page :
    {A : Type 0} (es : List ValidationError) (p : PagedResult A) → invalid es ≢ page p
invalid-page es p e = cc

pub panicked-page : {A : Type 0} (p : PagedResult A) → panicked ≢ page p
panicked-page p e = cc

pub some-injective : {A : Type 0} (a b : A) → some a ≡ some b → a ≡ b
some-injective a b e = cc

pub none-some : {A : Type 0} (a : A) → none ≢ some a
none-some a e = cc

pub append-empty : (a b : List ValidationError) → a ++ b ≡ [] → (a ≡ []) × (b ≡ [])
append-empty [] b e = (refl, e)
append-empty (x ∷ xs) b e = absurd (cc)

selected-yes :
    (q : Query) (r : DbOrder) (rs : List DbOrder)
    → meets q r ≡ true
    → selected q (r ∷ rs) ≡ r ∷ selected q rs
unfolding selected
selected-yes q r rs e = rw e refl

selected-no :
    (q : Query) (r : DbOrder) (rs : List DbOrder)
    → meets q r ≡ false
    → selected q (r ∷ rs) ≡ selected q rs
unfolding selected
selected-no q r rs e = rw e refl

selected_row :
    (q : Query) (table : List DbOrder) (row : DbOrder)
    → Memᴰ row (selected q table)
    → Memᴰ row table × (meets q row ≡ true)
unfolding selected
selected_row q [] row m = absurd (Memᴰ.not-nil m)
selected_row q (r ∷ rs) row m =
    let below = selected_row q rs row in
    elim (Bool-cases (meets q r)) [
      | inl e ↦ elim (Memᴰ.cases_cons (subst (Memᴰ row) (selected-yes q r rs e) m)) [
        | inl same ↦ (Memᴰ.head same, ap (λ x. meets q x) same ∙ e)
        | inr later ↦ let t = below later in (Memᴰ.tail t.0, t.1)
      ]
      | inr e ↦ let t = below (subst (Memᴰ row) (selected-no q r rs e) m) in (Memᴰ.tail t.0, t.1)
    ]

mapped_row :
    (x : FormattedOrder) (rows : List DbOrder)
    → Memᴰ x (map get_formatted_order rows)
    → (row : DbOrder) × (x ≡ get_formatted_order row) × Memᴰ row rows
mapped_row x [] m = absurd (Memᴰ.not-nil m)
mapped_row x (r ∷ rs) m = elim (Memᴰ.cases_cons m) [
  | inl same ↦ (r, same, Memᴰ.head refl)
  | inr later ↦ let t = mapped_row x rs later in (t.0, t.1, Memᴰ.tail t.2)
]

module _ (d : Database) (law : SliceLaw d) where
  -- A page has rows of the table that meet the query.
  found_row :
      (q : Query) (n per_page : ℤ) (table rows : List DbOrder) (row : DbOrder)
      → find_page d q n per_page table ≡ some rows
      → Memᴰ row rows
      → Memᴰ row table × ((meets q row ≡ true) × (q.broken ≡ false))
  unfolding find_page
  found_row q n per_page table rows row e m =
      elim (Bool-cases (ltb_ℤ (offset_of n per_page) (pos (count d q table)))) [
        | inl inside ↦ elim (Bool-cases q.broken) [
          | inl bad ↦ absurd (none-some rows (sym (rw inside (rw bad refl)) ∙ e))
          | inr good ↦
              let t = selected_row q table row (
                law (offset_of n per_page) per_page (selected q table) row (
                  subst (Memᴰ row)
                    (sym (
                      some-injective
                        (d.slice_rows (offset_of n per_page) per_page (selected q table)) rows
                        (sym (rw inside (rw good refl)) ∙ e)))
                    m)) in
              (t.0, (t.1, good))
        ]
        | inr beyond ↦ absurd (
            Memᴰ.not-nil
              (subst (Memᴰ row) (sym (some-injective [] rows (sym (rw beyond refl) ∙ e))) m))
      ]

  answered_page :
      (total : ℕ) (n per_page : ℤ) (o : Option (List DbOrder)) (p : PagedResult FormattedOrder)
      → answered d false total n per_page o ≡ page p
      → (rows : List DbOrder) × (o ≡ some rows) × (p.records ≡ map get_formatted_order rows)
  unfolding answered format_response
  answered_page total n per_page none p e = absurd (refused-page 500 p e)
  answered_page total n per_page (some rows) p e = (
    rows,
    refl,
    ap (λ (x : PagedResult FormattedOrder). x.records)
        (sym (
          page-injective
            (record {
              total = total;
              page = n;
              per_page = per_page;
              records = map get_formatted_order rows;
            })
            p e)),
  )

  pub run_query_page :
      (table : List DbOrder) (q : Query) (errs : List ValidationError) (pages : Option (ℤ × ℤ))
      (p : PagedResult FormattedOrder) (x : FormattedOrder)
      → run_query d false table q errs pages ≡ page p
      → Memᴰ x p.records
      → (errs ≡ [])
        × ((row : DbOrder) × (x ≡ get_formatted_order row)
            × Memᴰ row table
            × ((meets q row ≡ true) × (q.broken ≡ false)))
  unfolding run_query
  run_query_page table q errs none p x e m =
      absurd (invalid-page (errs ++ failing d 1001 "page") p e)
  run_query_page table q (f ∷ fs) (some (n, per_page)) p x e m = absurd (invalid-page (f ∷ fs) p e)
  run_query_page table q [] (some (n, per_page)) p x e m =
      let a = answered_page (count d q table) n per_page (find_page d q n per_page table) p e in
      let t = mapped_row x a.0 (subst (Memᴰ x) a.2 m) in
      let u = found_row q n per_page table a.0 t.0 a.1 t.2 in (refl, (t.0, t.1, u.0, u.1))
