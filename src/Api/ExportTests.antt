-- ===== src/Api/ExportTests.antt =====
-- Queries and exports of a table with two events.
use logfort.Prelude.{
  Bool, ℕ, ◌+◌, ◌≤◌, String, ◌≡◌, refl, inr, true, none, some, List, [], ◌∷◌, length, count_where,
  All, ℤ, pos,
}
use logfort.Prelude.Assoc.{lookup}
use logfort.Go.Strconv.{parse_int}
use logfort.Store.Rows.{SqliteStore, EventRow}
use logfort.Store.Events.{build_event_where}
use logfort.Api.StatsCache.{StatsRequest, handle_window, cache_after}
use logfort.Api.StatsCacheLaws.{Served, handle_window-Served}
use logfort.Api.Queries.{event_query_from_request, EventsPage, handle_events, csv_cell}
use logfort.Api.QueryLaws.{Meets, build_event_where-Meets}
use logfort.Api.ExportLaws.{handle_events_lem}

abbrev row : ℕ → String → EventRow
row n user = record {
  id = n;
  ts = 100 + n;
  ip = "1.2.3.4";
  event_type = "failed_password";
  username = some user;
  user_valid = some true;
  auth_method = some "password";
  port = some 22;
  source = "sshd";
  country = none;
  city = none;
  lat = none;
  lon = none;
  asn = none;
  detail = none;
  threat = none;
  raw = none;
}

abbrev table : SqliteStore
table = record { events = row 1 "root" ∷ row 2 "=1+1" ∷ []; bans = []; settings = []; faults = [] }

abbrev asked : List (String × String)
asked = ("limit", "5000") ∷ ("type", "failed_password") ∷ ("since", "50") ∷ []

abbrev test : EventRow → Bool
test = build_event_where (event_query_from_request (pos 100) (pos 1000) asked)

handle_events_example :
    (page : EventsPage) × ((handle_events asked table).0 ≡ inr page)
    × All (Meets asked) page.events
    × (length page.events ≤ 1000)
    × (page.total ≡ count_where test table.events)
handle_events_example =
    handle_events_lem asked table test refl refl
      (build_event_where-Meets (pos 100) (pos 1000) asked)

abbrev date : ℕ → String
date n = "2024-01-01T00:00:00Z"

abbrev degrees : ℤ → String
degrees n = "0.0000"

limit_capped : (event_query_from_request (pos 100) (pos 1000) asked).limit ≡ pos 1000
unfolding event_query_from_request parse_int lookup logfort.Api.Queries.parse_int_query
limit_capped = refl

quoted : csv_cell "=1+1" ≡ "'=1+1"
unfolding csv_cell
quoted = refl

abbrev weekly : ℕ → ℕ → StatsRequest ℕ
weekly now visits = record { now = now; window = "7d"; answer = some visits; answered = now }

handle_window-Served_example :
    Served "stats:"
      (weekly 0 5 ∷ [])
      (weekly 50 6)
      (handle_window "stats:" (weekly 50 6) (cache_after "stats:" (weekly 0 5 ∷ []))).0
handle_window-Served_example = handle_window-Served "stats:" (weekly 0 5 ∷ []) (weekly 50 6)

-- Fifty nanoseconds later the page is the old one.
served_from_cache :
    (handle_window "stats:" (weekly 50 6) (cache_after "stats:" (weekly 0 5 ∷ []))).0 ≡ inr 5
unfolding handle_window cache_after logfort.Api.StatsCache.cached_payload
    logfort.Api.StatsCache.is_valid_window logfort.Api.StatsCache.cache_ttl_for_window lookup
    logfort.Prelude.Assoc.insert logfort.Prelude.Assoc.erase
served_from_cache = refl
