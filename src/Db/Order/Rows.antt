-- ===== src/Db/Order/Rows.antt =====
-- db/order.go: what is found in the table of orders after a row is updated or created.
use openrelay.Prelude.{
  ◌≡◌, ◌≢◌, refl, sym, ap, ◌∙◌, true, false, Bytes, bytes_eq, bytes_eq_iff, bytes_eq_refl, List, [],
  ◌∷◌, ◌++◌, map, Option, none, some, true-false, Bool-cases, inl, inr, Option-cases,
}
use openrelay.Db.Order.{DbOrder, find_row, upsert, update_row, upserted}

-- The row that Save leaves in place of the one it found.
abbrev pub written : DbOrder → Option DbOrder → DbOrder
written d none = d
written d (some row) = update_row d row

-- An update keeps the hash and the mark of cancellation.
pub update_row_keeps :
    (d row : DbOrder)
    → ((update_row d row).order_hash ≡ row.order_hash)
      × ((update_row d row).order.cancelled ≡ row.order.cancelled)
update_row_keeps d row = elim (Bool-cases (bytes_eq row.order_hash d.order_hash)) [
  | inl e ↦ rw e (refl, refl)
  | inr e ↦ rw e (refl, refl)
]

pub find_row-here :
    (h : Bytes) (row : DbOrder) (rows : List DbOrder)
    → bytes_eq row.order_hash h ≡ true
    → find_row h (row ∷ rows) ≡ some row
unfolding find_row
find_row-here h row rows e = rw e refl

pub find_row-there :
    (h : Bytes) (row : DbOrder) (rows : List DbOrder)
    → bytes_eq row.order_hash h ≡ false
    → find_row h (row ∷ rows) ≡ find_row h rows
unfolding find_row
find_row-there h row rows e = rw e refl

pub some-injective : (a b : DbOrder) → some a ≡ some b → a ≡ b
some-injective a b e = cc

none-some : (a : DbOrder) → none ≢ some a
none-some a e = cc

-- The row that is found for a hash has that hash.
pub find_row-order_hash :
    (h : Bytes) (table : List DbOrder) (row : DbOrder)
    → find_row h table ≡ some row
    → row.order_hash ≡ h
unfolding find_row
find_row-order_hash h [] row e = absurd (none-some row e)
find_row-order_hash h (r ∷ rows) row e = elim (Bool-cases (bytes_eq r.order_hash h)) [
  | inl eq ↦
      let same = some-injective r row (sym (find_row-here h r rows eq) ∙ e) in
      ap (λ x. x.order_hash) (sym same) ∙ (bytes_eq_iff r.order_hash h).0 eq
  | inr eq ↦ find_row-order_hash h rows row (sym (find_row-there h r rows eq) ∙ e)
]

abbrev pub found : (DbOrder → DbOrder) → Option DbOrder → Option DbOrder
found f none = none
found f (some row) = some (f row)

find_row-map :
    (h : Bytes) (d : DbOrder) (table : List DbOrder)
    → find_row h (map (update_row d) table) ≡ found (update_row d) (find_row h table)
unfolding find_row
find_row-map h d [] = refl
find_row-map h d (r ∷ rows) =
    let rest = find_row-map h d rows in
    let same = (update_row_keeps d r).0 in
    elim (Bool-cases (bytes_eq r.order_hash h)) [
      | inl e ↦
          find_row-here h (update_row d r) (map (update_row d) rows)
            (ap (λ x. bytes_eq x h) same ∙ e)
          ∙ ap (found (update_row d)) (sym (find_row-here h r rows e))
      | inr e ↦
          find_row-there h (update_row d r) (map (update_row d) rows)
            (ap (λ x. bytes_eq x h) same ∙ e)
          ∙ rest
          ∙ ap (found (update_row d)) (sym (find_row-there h r rows e))
    ]

-- A new row is found under its hash if there was none, and is not seen under another.
find_row-append_self :
    (d : DbOrder) (table : List DbOrder)
    → find_row d.order_hash table ≡ none
    → find_row d.order_hash (table ++ (d ∷ [])) ≡ some d
unfolding find_row
find_row-append_self d [] e = find_row-here d.order_hash d [] (bytes_eq_refl d.order_hash)
find_row-append_self d (r ∷ rows) e = elim (Bool-cases (bytes_eq r.order_hash d.order_hash)) [
  | inl eq ↦ absurd (none-some r (sym e ∙ find_row-here d.order_hash r rows eq))
  | inr eq ↦
      find_row-there d.order_hash r (rows ++ (d ∷ [])) eq
      ∙ find_row-append_self d rows (sym (find_row-there d.order_hash r rows eq) ∙ e)
]

find_row-append_ne :
    (h : Bytes) (d : DbOrder) (table : List DbOrder)
    → bytes_eq d.order_hash h ≡ false
    → find_row h (table ++ (d ∷ [])) ≡ find_row h table
unfolding find_row
find_row-append_ne h d [] ne = find_row-there h d [] ne
find_row-append_ne h d (r ∷ rows) ne = rw (find_row-append_ne h d rows ne) refl

update_row_ne :
    (d row : DbOrder) → bytes_eq row.order_hash d.order_hash ≡ false → update_row d row ≡ row
update_row_ne d row e = rw e refl

bytes_eq_comm : (a b : Bytes) → bytes_eq a b ≡ false → bytes_eq b a ≡ false
bytes_eq_comm a b e = elim (Bool-cases (bytes_eq b a)) [
  | inl eq ↦ absurd (true-false (sym ((bytes_eq_iff a b).1 (sym ((bytes_eq_iff b a).0 eq))) ∙ e))
  | inr ne ↦ ne
]

found_ne :
    (h : Bytes) (d : DbOrder) (table : List DbOrder)
    → bytes_eq d.order_hash h ≡ false
    → found (update_row d) (find_row h table) ≡ find_row h table
found_ne h d table ne = elim (Option-cases (find_row h table)) [
  | inl e ↦ rw e refl
  | inr (row, e) ↦
      ap (found (update_row d)) e
      ∙ ap some (
          update_row_ne d row (
            ap (λ x. bytes_eq x d.order_hash) (find_row-order_hash h table row e)
            ∙ bytes_eq_comm d.order_hash h ne))
      ∙ sym e
]

-- Saving a row changes what is found under its hash, and nothing else.
pub upsert-find_row_self :
    (d : DbOrder) (table : List DbOrder)
    → find_row d.order_hash (upsert d table) ≡ some (written d (find_row d.order_hash table))
unfolding upsert
upsert-find_row_self d table = elim (Option-cases (find_row d.order_hash table)) [
  | inl e ↦
      ap (λ o. find_row d.order_hash (upserted d table o)) e
      ∙ find_row-append_self d table e
      ∙ ap (λ o. some (written d o)) (sym e)
  | inr (row, e) ↦
      ap (λ o. find_row d.order_hash (upserted d table o)) e
      ∙ find_row-map d.order_hash d table
      ∙ ap (found (update_row d)) e
      ∙ ap (λ o. some (written d o)) (sym e)
]

pub upsert-find_row_ne :
    (h : Bytes) (d : DbOrder) (table : List DbOrder)
    → bytes_eq d.order_hash h ≡ false
    → find_row h (upsert d table) ≡ find_row h table
unfolding upsert
upsert-find_row_ne h d table ne = elim (Option-cases (find_row d.order_hash table)) [
  | inl e ↦ ap (λ o. find_row h (upserted d table o)) e ∙ find_row-append_ne h d table ne
  | inr (row, e) ↦
      ap (λ o. find_row h (upserted d table o)) e ∙ find_row-map h d table ∙ found_ne h d table ne
]
