-- ===== src/Funds/Consumers/Laws.antt =====
-- funds/filled_consumer.go, funds/cancellation_update.go: what is published of an order.
use openrelay.Prelude.{
  ◌≡◌, ◌≢◌, ◌<◌, ◌↔◌, ◌⊎◌, inl, inr, refl, sym, ◌∙◌, Bool, true, false, not, true-false, ◌&&◌, ◌||◌,
  List, [], ◌∷◌, Option, none, some, Bytes, IsBytes, big, bytes_eq, bytes_eq_iff, bytes_eq_refl,
  bytes_lt, bytes_lt-big, arith, if◌then◌else◌, Bool-cases,
}
use openrelay.Types.Order
use openrelay.Db.Indexer.{Cancellation, save_cancellation, same_pair}
use openrelay.Funds.Consumers.{
  Effects, acked, do_lookup, do_lookup_boolean, bool_eq, any_change, with_lookups, published_if,
  fill_consume, epoch, cancellation_query, below_epoch, db_get_cancelled, cancellation_consume,
}
use Prim.Native.String.{String}

-- The answers may arrive in either order.
any_change_comm : (first c f : Bool) → any_change first c f ≡ c || f
any_change_comm first c f = ground arith

published_any :
    (first c f : Bool) (o : Order.Order)
    → published_if (any_change first c f && true) o ≡ (if c || f then o ∷ [] else [])
published_any first true f o = rw (any_change_comm first true f) refl
published_any first false true o = rw (any_change_comm first false true) refl
published_any first false false o = rw (any_change_comm first false false) refl

same_bool : (a b : Bool) → (not (bool_eq a b) ≡ true) ↔ (a ≢ b)
same_bool true true = ((λ e. cc), (λ h. absurd (h refl)))
same_bool true false = ((λ e h. cc), (λ h. refl))
same_bool false true = ((λ e h. cc), (λ h. refl))
same_bool false false = ((λ e. cc), (λ h. absurd (h refl)))

same_bytes : (a b : Bytes) → (not (bytes_eq a b) ≡ true) ↔ (a ≢ b)
same_bytes a b = by_test (bytes_eq a b) (bytes_eq_iff a b)
  where
    by_test : (t : Bool) → (t ≡ true) ↔ (a ≡ b) → (not t ≡ true) ↔ (a ≢ b)
    by_test true h = ((λ e. cc), (λ n. absurd (n (h.0 refl))))
    by_test false h = ((λ e q. absurd (true-false (sym (h.1 q)))), (λ n. refl))

-- The lookup found another value than the order has.
abbrev pub Differs : {A : Type 0} → A → Option A → Type 0
Differs {A} old answer = (value : A) × (answer ≡ some value) × (value ≢ old)

some-injective : {A : Type 0} (a b : A) → some a ≡ some b → a ≡ b
some-injective a b e = cc

none-some : {A : Type 0} (a : A) → ◌≢◌ {A = Option A} none (some a)
none-some a e = cc

differs_iff : {A : Type 0} (old value : A) → (value ≢ old) ↔ Differs old (some value)
differs_iff old value =
    ((λ h. (value, refl, h)), (λ d e. d.2 (sym (some-injective value d.0 d.1) ∙ e)))

do_lookup_boolean_iff :
    (old : Bool) (answer : Option Bool)
    → ((do_lookup_boolean old answer).1 ≡ true) ↔ Differs old answer
do_lookup_boolean_iff old (some b) = (
  (λ e. (differs_iff old b).0 ((same_bool b old).0 e)),
  (λ d. (same_bool b old).1 ((differs_iff old b).1 d)),
)
do_lookup_boolean_iff old none =
    ((λ e. absurd ((same_bool old old).0 e refl)), (λ d. absurd (none-some d.0 d.1)))

do_lookup_iff :
    (old : Bytes) (answer : Option Bytes) → ((do_lookup old answer).1 ≡ true) ↔ Differs old answer
do_lookup_iff old (some b) = (
  (λ e. (differs_iff old b).0 ((same_bytes b old).0 e)),
  (λ d. (same_bytes b old).1 ((differs_iff old b).1 d)),
)
do_lookup_iff old none =
    ((λ e. absurd ((same_bytes old old).0 e refl)), (λ d. absurd (none-some d.0 d.1)))

either_iff :
    {P Q : Type 0} (p q : Bool) → (p ≡ true) ↔ P → (q ≡ true) ↔ Q → ((p || q) ≡ true) ↔ (P ⊎ Q)
either_iff true q hp hq = ((λ e. inl (hp.0 refl)), (λ d. refl))
either_iff false true hp hq = ((λ e. inr (hq.0 refl)), (λ d. refl))
either_iff false false hp hq = (
  (λ e. cc),
  (λ d. absurd (elim d [ inl x ↦ true-false (sym (hp.1 x)) | inr x ↦ true-false (sym (hq.1 x)) ])),
)

nil-cons : (o : Order.Order) → ◌≢◌ {A = List Order.Order} [] (o ∷ [])
nil-cons o e = cc

published_iff :
    {P : Type 0} (b : Bool) (o : Order.Order)
    → (b ≡ true) ↔ P
    → (((if b then o ∷ [] else []) ≡ o ∷ []) ↔ P) × (((if b then o ∷ [] else []) ≡ []) ↔ (P → ⊥))
published_iff true o h = (
  ((λ e. h.0 refl), (λ p. refl)),
  ((λ e. absurd (nil-cons o (sym e))), (λ n. absurd (n (h.0 refl)))),
)
published_iff false o h = (
  ((λ e. absurd (nil-cons o e)), (λ p. absurd (true-false (sym (h.1 p))))),
  ((λ e p. true-false (sym (h.1 p))), (λ n. refl)),
)

cancelled_before_or_now :
    (old : Bool) (answer : Option Bool)
    → (((do_lookup_boolean old answer).0 || old) ≡ true) ↔ ((old ≡ true) ⊎ (answer ≡ some true))
cancelled_before_or_now true (some true) = ((λ e. inl refl), (λ d. refl))
cancelled_before_or_now true (some false) = ((λ e. inl refl), (λ d. refl))
cancelled_before_or_now true none = ((λ e. inl refl), (λ d. refl))
cancelled_before_or_now false (some true) = ((λ e. inr refl), (λ d. refl))
cancelled_before_or_now false (some false) =
    ((λ e. cc), (λ d. elim d [ inl x ↦ x | inr x ↦ some-injective false true x ]))
cancelled_before_or_now false none =
    ((λ e. cc), (λ d. elim d [ inl x ↦ x | inr x ↦ absurd (none-some true x) ]))

abbrev pub or_old : Bytes → Option Bytes → Bytes
or_old old none = old
or_old old (some value) = value

do_lookup_value :
    (old : Bytes) (answer : Option Bytes) → (do_lookup old answer).0 ≡ or_old old answer
do_lookup_value old none = refl
do_lookup_value old (some value) = refl

-- What becomes of an order, by the answers of the two lookups, where `none` is an error.
pub record Passed (o : Order.Order) (cancelled : Option Bool) (filled : Option Bytes) (e : Effects)
    : Type 0 where
  pub order : Order.Order
  pub published : e.all ≡ order ∷ []
  pub is_cancelled : (order.cancelled ≡ true) ↔ ((o.cancelled ≡ true) ⊎ (cancelled ≡ some true))
  pub amount_filled : order.taker_asset_amount_filled ≡ or_old o.taker_asset_amount_filled filled
  pub same_otherwise : order ≡ record o {
    cancelled = order.cancelled;
    taker_asset_amount_filled = order.taker_asset_amount_filled;
  }
  pub changed :
      (e.changed ≡ order ∷ [])
      ↔ (Differs o.cancelled cancelled ⊎ Differs o.taker_asset_amount_filled filled)
  pub unchanged :
      (e.changed ≡ [])
      ↔ ((Differs o.cancelled cancelled ⊎ Differs o.taker_asset_amount_filled filled) → ⊥)
  pub settled_once : e.settled ≡ acked ∷ []

-- What FillConsumer does with an order that it parsed, whichever lookup answers first: the order is
-- published to all, cancelled exactly if it was before or the lookup says so, with the filled amount
-- that was found or, where the lookup failed, the old one, and else as it was; it is published as
-- changed exactly if a lookup found another value than the order had, and else not; and the message is
-- acknowledged once.
pub fill_consume-Passed :
    (filled_first : Bool) (o : Order.Order) (get_cancelled : Order.Order → Option Bool)
    (get_amount_filled : Order.Order → Option Bytes)
    → Passed o
        (get_cancelled o)
        (get_amount_filled o)
        (fill_consume true filled_first (o, true) get_cancelled get_amount_filled)
unfolding fill_consume
fill_consume-Passed filled_first o get_cancelled get_amount_filled =
    let c = do_lookup_boolean o.cancelled (get_cancelled o) in
    let f = do_lookup o.taker_asset_amount_filled (get_amount_filled o) in
    let iffs = published_iff (c.1 || f.1) (with_lookups o c f) (
      either_iff c.1 f.1 (do_lookup_boolean_iff o.cancelled (get_cancelled o))
        (do_lookup_iff o.taker_asset_amount_filled (get_amount_filled o))) in
    let any = published_any filled_first c.1 f.1 (with_lookups o c f) in
    record {
      order = with_lookups o c f;
      published = refl;
      is_cancelled = cancelled_before_or_now o.cancelled (get_cancelled o);
      amount_filled = do_lookup_value o.taker_asset_amount_filled (get_amount_filled o);
      same_otherwise = refl;
      changed = ((λ e. iffs.0.0 (sym any ∙ e)), (λ d. any ∙ iffs.0.1 d));
      unchanged = ((λ e. iffs.1.0 (sym any ∙ e)), (λ d. any ∙ iffs.1.1 d));
      settled_once = refl;
    }

-- The epoch that is found is the one that was saved for the maker and sender.
cancellation_query-save_cancellation :
    (c : Cancellation) (rows : List Cancellation)
    → cancellation_query none c.maker c.sender (save_cancellation c rows) ≡ epoch (some c.epoch)
unfolding cancellation_query save_cancellation
cancellation_query-save_cancellation c [] = rw (bytes_eq_refl c.maker, bytes_eq_refl c.sender) refl
cancellation_query-save_cancellation c (row ∷ rows) =
    let rest = cancellation_query-save_cancellation c rows in
    elim (Bool-cases (same_pair c.maker c.sender row)) [
      | inl e ↦ rw e (rw e refl)
      | inr e ↦ rw e (rw e rest)
    ]

looked_up :
    (c : Cancellation) (rows : List Cancellation) (o : Order.Order)
    → o.maker ≡ c.maker
    → o.sender_address ≡ c.sender
    → o.cancelled ≡ false
    → db_get_cancelled none (save_cancellation c rows) o ≡ (bytes_lt o.salt c.epoch, true)
unfolding db_get_cancelled below_epoch
looked_up c rows o maker sender open_order =
    rw (open_order, maker, sender, cancellation_query-save_cancellation c rows) refl

consumed :
    (lookup : Order.Order → Bool × Bool) (o : Order.Order) (b : Bool)
    → o.cancelled ≡ false
    → lookup o ≡ (b, true)
    → cancellation_consume true (some o) lookup ≡ record {
      changed = if b then record o { cancelled = b } ∷ [] else [];
      all = record o { cancelled = b } ∷ [];
      settled = acked ∷ [];
    }
unfolding cancellation_consume
consumed lookup o true e l = rw (l, e) refl
consumed lookup o false e l = rw (l, e) refl

-- Once a cancellation is saved, an order of its maker and sender that was not cancelled passes through
-- CancellationConsumer: it is published to all as cancelled exactly if its salt, as a number, is below
-- the saved epoch, published as changed exactly then, and acknowledged.
pub cancellation_consume-save_cancellation :
    (c : Cancellation) (rows : List Cancellation) (o : Order.Order)
    → o.maker ≡ c.maker
    → o.sender_address ≡ c.sender
    → o.cancelled ≡ false
    → IsBytes 32 o.salt
    → IsBytes 32 c.epoch
    → (b : Bool) × ((b ≡ true) ↔ (big o.salt < big c.epoch))
      × (cancellation_consume true (some o) (db_get_cancelled none (save_cancellation c rows))
          ≡ record {
            changed = if b then record o { cancelled = b } ∷ [] else [];
            all = record o { cancelled = b } ∷ [];
            settled = acked ∷ [];
          })
cancellation_consume-save_cancellation c rows o maker sender open_order salt size = (
  bytes_lt o.salt c.epoch,
  bytes_lt-big 32 o.salt c.epoch salt size,
  consumed (db_get_cancelled none (save_cancellation c rows)) o (bytes_lt o.salt c.epoch) open_order
      (looked_up c rows o maker sender open_order),
)

-- A cancelled order stays cancelled, is not published as changed, and is acknowledged.
pub cancellation_consume-cancelled :
    (fails : Option String) (rows : List Cancellation) (o : Order.Order)
    → o.cancelled ≡ true
    → let e = cancellation_consume true (some o) (db_get_cancelled fails rows) in
      (e.changed ≡ []) × (e.all ≡ record o { cancelled = true } ∷ []) × (e.settled ≡ acked ∷ [])
unfolding cancellation_consume db_get_cancelled
cancellation_consume-cancelled fails rows o c = rw c (refl, refl, refl)
