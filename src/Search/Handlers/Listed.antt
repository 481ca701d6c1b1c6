-- ===== src/Search/Handlers/Listed.antt =====
-- search/search.go with Filter of pool/pool.go: every order that SearchHandler lists is one that the
-- request, the pool and the network ask for.
use openrelay.Prelude.{
  ◌≡◌, ◌≢◌, refl, ap, ◌∙◌, true, false, List, [], ◌∷◌, ◌++◌, Option, none, some, Bytes, bytes_eq,
  bytes_eq_iff, Outcome, ok, err, panic, true-false, ok-injective, err-ok, panic-ok, ◌>>=◌, codes,
}
use openrelay.Types.Text.{Str}
use openrelay.Db.Order.{DbOrder}
use openrelay.Ingest.{ValidationError}
use openrelay.Search.Query.{Values, get, Query, meets, query_filter}
use openrelay.Search.Query.Meets.{Wanted, where_iff}
use openrelay.Search.Query.Selects.{query_filter-Wanted}
use openrelay.Search.Pages.{atoi, FormattedOrder, get_formatted_order, PagedResult, page, get_pages}
use openrelay.Search.Handlers.{
  Database, empty_query, no_errors, filtered_by, pool_filter, network_or_main, on_exchanges,
  filter_by_network_id, in_pool, in_query, search_handler,
}
use openrelay.Search.Handlers.Sound.{
  SliceLaw, append-empty, refused-page, panicked-page, none-some, some-injective, run_query_page,
}
use mathlib.Core.List.{Memᴰ}

cons-empty : (e : ValidationError) (es : List ValidationError) → (e ∷ es) ≢ []
cons-empty e es p = cc

none-ok : (q : Query) → ok none ≡ ok (some q) → none ≡ some q
none-ok q e = cc

module _ (d : Database) where
  -- The exchange of the row is the one of the network.
  abbrev pub OnNetwork : Option (List Bytes) → DbOrder → Type 0
  OnNetwork exchanges row =
      (a : Bytes) × (exchanges ≡ some (a ∷ [])) × (row.order.exchange_address ≡ a)

  on_exchanges_row :
      (q : Query) (o : Option (List Bytes)) (row : DbOrder)
      → (on_exchanges d q o).1 ≡ []
      → (on_exchanges d q o).0.broken ≡ false
      → meets (on_exchanges d q o).0 row ≡ true
      → (meets q row ≡ true) × OnNetwork o row
  on_exchanges_row q none row e b m =
      absurd (cons-empty (record { field = "networkId"; code = 1006 }) [] e)
  on_exchanges_row q (some []) row e b m =
      absurd (cons-empty (record { field = "networkId"; code = 1006 }) [] e)
  on_exchanges_row q (some (a ∷ [])) row e b m =
      let t = (where_iff q (λ r. bytes_eq r.order.exchange_address a) row).0 m in
      (t.1, (a, refl, (bytes_eq_iff row.order.exchange_address a).0 t.0))
  on_exchanges_row q (some (a ∷ c ∷ rest)) row e b m = absurd (true-false b)

  no_errors-some : (r : Query × List ValidationError) (q : Query) → no_errors d r ≡ some q → r.0 ≡ q
  no_errors-some (q', []) q e = some-injective q' q e
  no_errors-some (q', f ∷ fs) q e = absurd (none-some q e)

  filtered_ok :
      (o : Outcome (Query × List ValidationError)) (q' : Query)
      → (o >>= λ r. ok (no_errors d r)) ≡ ok (some q')
      → (r : Query × List ValidationError) × (o ≡ ok r) × (r.0 ≡ q')
  filtered_ok (ok r) q' e =
      (r, refl, no_errors-some r q' (ok-injective (no_errors d r) (some q') e))
  filtered_ok (err s) q' e = absurd (err-ok s (some q') e)
  filtered_ok panic q' e = absurd (panic-ok (some q') e)

  filtered_row :
      (q q' : Query) (o : Option Values) (row : DbOrder)
      → filtered_by d q o ≡ ok (some q')
      → meets q' row ≡ true
      → (meets q row ≡ true) × ((terms : Values) × (o ≡ some terms) × Wanted d.library terms row)
  unfolding filtered_by
  filtered_row q q' none row e m = absurd (none-some q' (none-ok q' e))
  filtered_row q q' (some terms) row e m =
      let r = filtered_ok (query_filter d.library q terms) q' e in
      let w =
        (query_filter-Wanted d.library terms row q r.0 r.1).0
          (ap (λ (x : Query). meets x row) r.2 ∙ m) in
      (w.0, (terms, refl, w.1))

  -- What holds of an order that is listed.
  pub record Listed (search_terms : Str) (vs : Values) (table : List DbOrder) (x : FormattedOrder)
      : Type 0 where
    pub row : DbOrder
    pub shown : x ≡ get_formatted_order row
    pub stored : Memᴰ row table
    pub requested : Wanted d.library vs row
    pub pool_terms : Values
    pub parsed : d.parse_query search_terms ≡ some pool_terms
    pub in_pool : Wanted d.library pool_terms row
    pub on_network :
        OnNetwork
          (d.exchanges_by_network (network_or_main d (atoi (get vs (codes "networkId")))))
          row

  in_pool_page :
      (search_terms : Str) (vs : Values) (table : List DbOrder) (errs : List ValidationError)
      (q : Query) (o : Outcome (Option Query)) (p : PagedResult FormattedOrder) (x : FormattedOrder)
      → SliceLaw d
      → pool_filter d q search_terms ≡ o
      → in_pool d vs false table errs o ≡ page p
      → Memᴰ x p.records
      → ((row : DbOrder) → meets q row ≡ true → Wanted d.library vs row)
      → Listed search_terms vs table x
  unfolding in_pool filter_by_network_id pool_filter
  in_pool_page search_terms vs table errs q (err s) p x law f e m w = absurd (panicked-page p e)
  in_pool_page search_terms vs table errs q panic p x law f e m w = absurd (panicked-page p e)
  in_pool_page search_terms vs table errs q (ok none) p x law f e m w =
      absurd (refused-page 404 p e)
  in_pool_page search_terms vs table errs q (ok (some q')) p x law f e m w =
      let exchanges =
        d.exchanges_by_network (network_or_main d (atoi (get vs (codes "networkId")))) in
      let t =
        run_query_page d law table (on_exchanges d q' exchanges).0
          (errs ++ (on_exchanges d q' exchanges).1) (get_pages vs) p x e m in
      let u =
        on_exchanges_row q' exchanges t.1.0
          (append-empty errs (on_exchanges d q' exchanges).1 t.0).1 t.1.3.1 t.1.3.0 in
      let v = filtered_row q q' (d.parse_query search_terms) t.1.0 f u.0 in
      record {
        row = t.1.0;
        shown = t.1.1;
        stored = t.1.2;
        requested = w t.1.0 v.0;
        pool_terms = v.1.0;
        parsed = v.1.1;
        in_pool = v.1.2;
        on_network = u.1;
      }

  in_query_page :
      (search_terms : Str) (vs : Values) (table : List DbOrder)
      (o : Outcome (Query × List ValidationError)) (p : PagedResult FormattedOrder)
      (x : FormattedOrder)
      → SliceLaw d
      → query_filter d.library empty_query vs ≡ o
      → in_query d search_terms vs false table o ≡ page p
      → Memᴰ x p.records
      → Listed search_terms vs table x
  unfolding in_query
  in_query_page search_terms vs table (err s) p x law f e m = absurd (panicked-page p e)
  in_query_page search_terms vs table panic p x law f e m = absurd (panicked-page p e)
  in_query_page search_terms vs table (ok (q, errs)) p x law f e m =
      in_pool_page search_terms vs table errs q (pool_filter d q search_terms) p x law refl e m
        (λ row h. ((query_filter-Wanted d.library vs row empty_query (q, errs) f).0 h).1)

  -- If SearchHandler answers a request with a page, then every order on it is a row of the table that
  -- is open, not expired and meets every field of the request, that meets the search terms of the pool
  -- in the same way, and whose exchange is the only one of the request's network. Offset and Limit are
  -- taken to give rows of the query.
  pub search_handler-Listed :
      (search_terms : Str) (vs : Values) (table : List DbOrder) (p : PagedResult FormattedOrder)
      (x : FormattedOrder)
      → SliceLaw d
      → search_handler d search_terms vs false table ≡ page p
      → Memᴰ x p.records
      → Listed search_terms vs table x
  unfolding search_handler
  search_handler-Listed search_terms vs table p x law e m =
      in_query_page search_terms vs table (query_filter d.library empty_query vs) p x law refl e m
