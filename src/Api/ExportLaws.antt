-- ===== src/Api/ExportLaws.antt =====
-- What the exports and pages of internal/api/api.go promise.
use logfort.Prelude.{
  ℕ, ◌≤◌, String, ◌≡◌, refl, ap, ◌∙◌, inr, Bool, true, false, List, [], ◌∷◌, arith, length,
  count_where, All, All-mono, ℤ, pos,
}
use Prim.Native.Char.{code}
use logfort.Store.Rows.{SqliteStore, EventRow, ok, fails, later}
use logfort.Store.Events.{EventQuery, list_events, build_event_where, effective_limit}
use logfort.Store.Listing.{list_events_lem}
use logfort.Api.Queries.{
  event_query_from_request, starts_formula, capped_limit, parse_int_query, EventsPage,
  handle_events,
}
use logfort.Api.QueryLaws.{Meets, build_event_where-Meets, same-test, count_where-same}

-- Nothing that a spreadsheet reads as a formula.
abbrev pub Inert : String → Type 0
Inert String.[] = Unit {0}
Inert (String.◌∷◌ c s) = starts_formula (code c) ≡ false

-- A row of the export of events has inert cells where an attacker chose the text.
abbrev pub Safe : List String → Type 0
Safe
      (ts ∷ ip ∷ kind ∷ user ∷ valid ∷ auth ∷ port ∷ source ∷ country ∷ city ∷ lat ∷ lon ∷ asn
        ∷ detail ∷ threat ∷ []) =
    Inert user × Inert country × Inert city × Inert asn × Inert detail × Inert threat
Safe _ = ⊥

effective_limit-capped_limit :
    (def max : ℕ) (n : ℤ)
    → 1 ≤ def
    → def ≤ max
    → effective_limit (capped_limit (pos def) (pos max) n) ≤ max
effective_limit-capped_limit def max n h k = ground (arith, h, k)

-- The rows of a query of a request: those that meet its filters, no more than the maximum.
abbrev Found : ℕ → EventQuery → List EventRow → Type 0
Found max q rows = All (λ r. build_event_where q r ≡ true) rows × (length rows ≤ max)

found :
    (def max : ℕ) (params : List (String × String)) (s : SqliteStore)
    → 1 ≤ def
    → def ≤ max
    → fails s.faults ≡ false
    → fails (later s.faults) ≡ false
    → let q = event_query_from_request (pos def) (pos max) params in
      (rows : List EventRow) × ((list_events q s).0
        ≡ ok (rows, count_where (build_event_where q) s.events))
      × Found max q rows
unfolding event_query_from_request
found def max params s h k f g =
    let q = event_query_from_request (pos def) (pos max) params in
    let (rows, total, e, all, len, c) = list_events_lem q s f g in
    let bound =
      effective_limit-capped_limit def max (parse_int_query params "limit" (pos def)) h k in
    (rows, e ∙ ap (λ n. ok (rows, n)) c, (all, omega (arith, len, bound)))

-- The page of a request, where both statements succeed, and for any test that holds of exactly the rows that
-- meet what the request asks by its parameters type, ip, country, user, since and until: every row of the page meets
-- that, there are at most 1000 rows whatever limit is asked for, and the total counts the rows of the
-- whole table that meet it.
pub handle_events_lem :
    (params : List (String × String)) (s : SqliteStore) (test : EventRow → Bool)
    → fails s.faults ≡ false
    → fails (later s.faults) ≡ false
    → ((r : EventRow) → (test r ≡ true → Meets params r) × (Meets params r → test r ≡ true))
    → (page : EventsPage) × ((handle_events params s).0 ≡ inr page)
      × All (Meets params) page.events
      × (length page.events ≤ 1000)
      × (page.total ≡ count_where test s.events)
unfolding handle_events
handle_events_lem params s test f g h =
    let (rows, e, (all, bound)) = found 100 1000 params s (omega arith) (omega arith) f g in
    let q = event_query_from_request (pos 100) (pos 1000) params in
    let meant = build_event_where-Meets (pos 100) (pos 1000) params in
    (
      record {
        events = rows;
        total = count_where (build_event_where q) s.events;
        limit = q.limit;
        offset = q.offset;
      },
      rw e refl,
      All-mono (λ r. build_event_where q r ≡ true) (Meets params) rows (λ r k. (meant r).0 k) all,
      bound,
      count_where-same (build_event_where q) test s.events
          (λ r. same-test (build_event_where q r) (test r) (meant r).0 (meant r).1 (h r).0 (h r).1),
    )
