-- ===== src/Api/Queries.antt =====
-- The queries and exports of internal/api/api.go: parseIntQuery, eventQueryFromRequest, handleEvents, csvCell and
-- the rows of handleEventsCSV. A query is the list of its keys and values.
use logfort.Prelude.{
  ℕ, String, ◌⊎◌, inl, inr, Bool, ◌||◌, List, eqb, if◌then◌else◌, or_default, ℤ, pos, ltb_ℤ,
}
use Prim.Native.Char.{code}
use logfort.Go.Strconv.{parse_int}
use logfort.Config.Overlay.{setting}
use logfort.Store.Rows.{SqliteStore, EventRow, Result, ok, err}
use logfort.Store.Events.{EventQuery, list_events}
use logfort.Api.Server.{Reply, reply}

unfoldable pub parse_int_query : List (String × String) → String → ℤ → ℤ
parse_int_query params key def = or_default (parse_int (setting key params)) def

-- A limit below one is the default, and one above the maximum is the maximum.
abbrev pub capped_limit : ℤ → ℤ → ℤ → ℤ
capped_limit def max n =
    let n' = if ltb_ℤ n (pos 1) then def else n in if ltb_ℤ max n' then max else n'

unfoldable pub event_query_from_request : ℤ → ℤ → List (String × String) → EventQuery
unfolding parse_int_query
event_query_from_request def max params =
    let offset = parse_int_query params "offset" (pos 0) in
    record {
      limit = capped_limit def max (parse_int_query params "limit" def);
      offset = (if ltb_ℤ offset (pos 0) then pos 0 else offset);
      event_type = setting "type" params;
      ip = setting "ip" params;
      country = setting "country" params;
      username = setting "user" params;
      since = parse_int (setting "since" params);
      until = parse_int (setting "until" params);
    }

-- The answer of handleEvents: the rows, the total, and the limit and offset in force.
pub record EventsPage : Type 0 where
  pub events : List EventRow
  pub total : ℕ
  pub limit : ℤ
  pub offset : ℤ

abbrev paged : EventQuery → Result (List EventRow × ℕ) → Reply ⊎ EventsPage
paged q (err e) = inl (reply 500 "internal error")
paged q (ok (rows, total)) =
    inr (record { events = rows; total = total; limit = q.limit; offset = q.offset })

unfoldable pub handle_events :
    List (String × String) → SqliteStore → (Reply ⊎ EventsPage) × SqliteStore
unfolding event_query_from_request
handle_events params s =
    let q = event_query_from_request (pos 100) (pos 1000) params in
    let (r, s') = list_events q s in (paged q r, s')

-- A first character with which a spreadsheet may read the cell as a formula.
abbrev pub starts_formula : ℕ → Bool
starts_formula c =
    eqb c b'=' || (eqb c b'+' || (eqb c b'-' || (eqb c b'@' || (eqb c 9 || eqb c 13))))

unfoldable pub csv_cell : String → String
csv_cell String.[] = ""
csv_cell (String.◌∷◌ c s) =
    if starts_formula (code c) then String.◌∷◌ "'" (String.◌∷◌ c s) else String.◌∷◌ c s
