-- ===== src/Db/Indexer/Status.antt =====
-- db/indexer.go: which rows RecordSpend and RecordCancellation close, and which they leave.
use openrelay.Prelude.{
  ℕ, ◌≡◌, ◌≢◌, ◌≤◌, ◌<◌, refl, sym, ap, ◌∙◌, Bool, true, false, ◌&&◌, ◌||◌, Bytes, IsBytes, big,
  bytes_eq, bytes_eq_iff, bytes_eq_refl, bytes_lt, bytes_lt-big, List, [], ◌∷◌, some, All, ◌==◌,
  ==_iff, if◌then◌else◌, Bool-cases, inl, inr, arith, true-false, ltb, ltb→lt, subst,
}
use openrelay.Db.Order.{DbOrder, find_row, status_open}
use openrelay.Db.Order.Rows.{found, find_row-here, find_row-there}
use openrelay.Db.Indexer.{
  Cancellation, update_status, asset_spent, spent, cancelled_by, record_spend, record_cancellation,
  get_cancellation_epoch, save_cancellation, same_pair,
}

abbrev marked : ℕ → (DbOrder → Bool) → DbOrder → DbOrder
marked status matches row = if matches row then record row { status = status } else row

ge_of_ltb : (a b : ℕ) → ltb a b ≡ false → b ≤ a
ge_of_ltb a b h = ground arith

==_false : (a b : ℕ) → a ≢ b → (a == b) ≡ false
==_false a b h = ground arith

bytes_eq-ne : (a b : Bytes) → a ≢ b → bytes_eq a b ≡ false
bytes_eq-ne a b h = elim (Bool-cases (bytes_eq a b)) [
  | inl e ↦ absurd (h ((bytes_eq_iff a b).0 e))
  | inr e ↦ e
]

pub or_true : (a : Bool) {b : Bool} → b ≡ true → (a || b) ≡ true
or_true true e = refl
or_true false e = e

marked-order_hash :
    (status : ℕ) (m : DbOrder → Bool) (row : DbOrder)
    → (marked status m row).order_hash ≡ row.order_hash
marked-order_hash status m row = elim (Bool-cases (m row)) [ inl e ↦ rw e refl | inr e ↦ rw e refl ]

find_row-update_status :
    (h : Bytes) (status : ℕ) (m : DbOrder → Bool) (table : List DbOrder)
    → find_row h (update_status status m table) ≡ found (marked status m) (find_row h table)
unfolding find_row update_status
find_row-update_status h status m [] = refl
find_row-update_status h status m (r ∷ rows) =
    let rest = find_row-update_status h status m rows in
    let same = marked-order_hash status m r in
    elim (Bool-cases (bytes_eq r.order_hash h)) [
      | inl e ↦
          find_row-here h (marked status m r) (update_status status m rows)
            (ap (λ x. bytes_eq x h) same ∙ e)
          ∙ ap (found (marked status m)) (sym (find_row-here h r rows e))
      | inr e ↦
          find_row-there h (marked status m r) (update_status status m rows)
            (ap (λ x. bytes_eq x h) same ∙ e)
          ∙ rest
          ∙ ap (found (marked status m)) (sym (find_row-there h r rows e))
    ]

marked-matches :
    (status : ℕ) (m : DbOrder → Bool) (row : DbOrder)
    → m row ≡ true
    → marked status m row ≡ record row { status = status }
marked-matches status m row e = rw e refl

marked-other :
    (status : ℕ) (m : DbOrder → Bool) (row : DbOrder) → m row ≡ false → marked status m row ≡ row
marked-other status m row e = rw e refl

-- If each row that does not match has P, and each one with the new status, then so does every row
-- after the update.
pub All-update_status :
    (Q P : DbOrder → Type 0) (status : ℕ) (m : DbOrder → Bool) (table : List DbOrder)
    → ((row : DbOrder) → Q row → m row ≡ false → P row)
    → ((row : DbOrder) → P (record row { status = status }))
    → All Q table
    → All P (update_status status m table)
unfolding update_status
All-update_status Q P status m [] stays changes h = h
All-update_status Q P status m (r ∷ rows) stays changes h = (
  elim (Bool-cases (m r)) [
    | inl e ↦ subst P (sym (marked-matches status m r e)) (changes r)
    | inr e ↦ subst P (sym (marked-other status m r e)) (stays r h.0 e)
  ],
  All-update_status Q P status m rows stays changes h.1,
)

-- A byte comparison that fails, as one of integers.
pub not_less : (x y : Bytes) → IsBytes 32 x → IsBytes 32 y → bytes_lt x y ≡ false → big y ≤ big x
not_less x y hx hy e = elim (Bool-cases (ltb (big x) (big y))) [
  | inl lt ↦
      absurd (true-false (sym ((bytes_lt-big 32 x y hx hy).1 (ltb→lt (big x) (big y) lt)) ∙ e))
  | inr ge ↦ ge_of_ltb (big x) (big y) ge
]

pub false_of_and :
    (a b c d : Bool) → a ≡ true → b ≡ true → c ≡ true → (a && (b && (c && d))) ≡ false → d ≡ false
false_of_and a b c true x y z e = absurd (true-false (sym (rw (x, y, z) refl) ∙ e))
false_of_and a b c false x y z e = refl

-- After a cancellation is recorded with a status that closes, no open order of the maker and sender
-- has a salt below the epoch.
pub record_cancellation-open_salt :
    (status : ℕ) (c : Cancellation) (epochs : List Cancellation) (table : List DbOrder)
    → status ≢ status_open
    → IsBytes 32 c.epoch
    → All (λ row. IsBytes 32 row.order.salt) table
    → All
        (λ row.
          row.status ≡ status_open
          → row.order.maker ≡ c.maker
          → row.order.sender_address ≡ c.sender
          → big c.epoch ≤ big row.order.salt)
        (record_cancellation status c epochs table).1
unfolding record_cancellation cancelled_by
record_cancellation-open_salt status c epochs table closes size sizes =
    All-update_status (λ row. IsBytes 32 row.order.salt)
      (λ row.
        row.status ≡ status_open
        → row.order.maker ≡ c.maker
        → row.order.sender_address ≡ c.sender
        → big c.epoch ≤ big row.order.salt)
      status (cancelled_by c) table
      (λ row salt e is_open maker sender. not_less row.order.salt c.epoch salt size (
        false_of_and (row.status == status_open) (bytes_eq row.order.maker c.maker)
          (bytes_eq row.order.sender_address c.sender) (bytes_lt row.order.salt c.epoch)
          ((==_iff row.status status_open).1 is_open)
          ((bytes_eq_iff row.order.maker c.maker).1 maker)
          ((bytes_eq_iff row.order.sender_address c.sender).1 sender) e))
      (λ row is_open maker sender. absurd (closes is_open)) sizes

-- The epoch that a cancellation records is the one that is looked up for its maker and sender.
pub save_cancellation-get :
    (c : Cancellation) (epochs : List Cancellation)
    → get_cancellation_epoch c.maker c.sender (save_cancellation c epochs) ≡ c.epoch
unfolding save_cancellation get_cancellation_epoch
save_cancellation-get c [] = rw (bytes_eq_refl c.maker, bytes_eq_refl c.sender) refl
save_cancellation-get c (row ∷ rows) =
    let rest = save_cancellation-get c rows in
    elim (Bool-cases (same_pair c.maker c.sender row)) [
      | inl e ↦ rw e (rw e refl)
      | inr e ↦ rw e (rw e rest)
    ]

-- A row that is found stays unless it matches; a matching one takes the new status.
pub find_row-updated :
    (h : Bytes) (status : ℕ) (m : DbOrder → Bool) (table : List DbOrder) (row : DbOrder) (b : Bool)
    → find_row h table ≡ some row
    → m row ≡ b
    → find_row h (update_status status m table)
      ≡ some (if b then record row { status = status } else row)
find_row-updated h status m table row b e matches =
    find_row-update_status h status m table
    ∙ ap (found (marked status m)) e
    ∙ ap (λ x. some (if x then record row { status = status } else row)) matches

-- A transfer of a token that is not the fee token leaves every closed order as it is.
pub record_spend-closed :
    (status : ℕ) (maker token fee_token asset_data balance h : Bytes) (table : List DbOrder)
    (row : DbOrder)
    → token ≢ fee_token
    → find_row h table ≡ some row
    → row.status ≢ status_open
    → find_row h (record_spend status maker token fee_token asset_data balance table) ≡ some row
unfolding record_spend spent asset_spent
record_spend-closed status maker token fee_token asset_data balance h table row ne e closed =
    find_row-updated h status (spent maker token fee_token asset_data balance) table row false e
      (rw (==_false row.status status_open closed, bytes_eq-ne token fee_token ne) refl)

-- A transfer of the fee token gives the new status to every order of the maker whose remaining fee is
-- above the balance, whatever its status was: a filled or cancelled order too.
pub record_spend-fee_token :
    (status : ℕ) (maker fee_token asset_data balance h : Bytes) (table : List DbOrder)
    (row : DbOrder)
    → IsBytes 32 balance
    → IsBytes 32 row.maker_fee_remaining
    → find_row h table ≡ some row
    → row.order.maker ≡ maker
    → big balance < big row.maker_fee_remaining
    → find_row h (record_spend status maker fee_token fee_token asset_data balance table)
      ≡ some (record row { status = status })
unfolding record_spend spent
record_spend-fee_token status maker fee_token asset_data balance h table row sb sr e m lt =
    find_row-updated h status (spent maker fee_token fee_token asset_data balance) table row true e
      (or_true (asset_spent maker fee_token asset_data balance row) (
        rw
          (
            bytes_eq_refl fee_token,
            (bytes_eq_iff row.order.maker maker).1 m,
            (bytes_lt-big 32 balance row.maker_fee_remaining sb sr).1 lt,
          )
          refl))
