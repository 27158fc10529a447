-- ===== src/Api/Exports.antt =====
-- The exports of internal/api/api.go: handleEventsCSV and handleBansCSV, as far as the cells that package csv
-- writes. `date` is Format(time.RFC3339) and `degrees` FormatFloat(x, 'f', 4, 64).
use logfort.Prelude.{
  ℕ, String, ◌⊎◌, inl, inr, Bool, true, false, not, Option, none, some, List, [], ◌∷◌, map, ◌==◌,
  eqb, if◌then◌else◌, or_default, ℤ, pos,
}
use logfort.Go.Format.{format_int}
use logfort.Store.Rows.{SqliteStore, EventRow, BanRow, Result, ok, err}
use logfort.Store.Events.{list_events}
use logfort.Store.Bans.{list_bans}
use logfort.Config.Overlay.{setting}
use logfort.Api.Server.{Reply, reply}
use logfort.Api.Queries.{event_query_from_request, csv_cell}

abbrev show : Bool → String
show true = "true"
show false = "false"

abbrev pub optional {ℓ} : {A : Type ℓ} → (A → String) → Option A → String
optional f none = ""
optional f (some x) = f x

abbrev text : Option String → String
text o = or_default o ""

abbrev pub event_header : List String
event_header =
    "ts" ∷ "ip" ∷ "event_type" ∷ "username" ∷ "user_valid" ∷ "auth_method" ∷ "port" ∷ "source"
    ∷ "country" ∷ "city" ∷ "lat" ∷ "lon" ∷ "asn" ∷ "detail" ∷ "threat" ∷ []

abbrev pub ban_header : List String
ban_header =
    "ip" ∷ "jail" ∷ "banned_at" ∷ "unbanned_at" ∷ "expires_at" ∷ "active" ∷ "source" ∷ "reason" ∷ []

module _ (date : ℕ → String) (degrees : ℤ → String) where
  -- A port of 0 is none.
  abbrev shown_port : ℕ → String
  shown_port p = if eqb p 0 then "" else format_int (pos p)

  unfoldable pub event_cells : EventRow → List String
  event_cells e =
      date e.ts
      ∷ e.ip
      ∷ e.event_type
      ∷ csv_cell (text e.username)
      ∷ optional show e.user_valid
      ∷ text e.auth_method
      ∷ optional shown_port e.port
      ∷ e.source
      ∷ csv_cell (text e.country)
      ∷ csv_cell (text e.city)
      ∷ optional degrees e.lat
      ∷ optional degrees e.lon
      ∷ csv_cell (text e.asn)
      ∷ csv_cell (text e.detail)
      ∷ csv_cell (text e.threat)
      ∷ []

  abbrev exported_events : Result (List EventRow × ℕ) → Reply ⊎ List (List String)
  exported_events (err e) = inl (reply 500 "internal error")
  exported_events (ok (rows, total)) = inr (event_header ∷ map event_cells rows)

  unfoldable pub handle_events_csv :
      List (String × String) → SqliteStore → (Reply ⊎ List (List String)) × SqliteStore
  handle_events_csv params s =
      let (r, s') = list_events (event_query_from_request (pos 10000) (pos 10000) params) s in
      (exported_events r, s')

  unfoldable pub ban_cells : BanRow → List String
  ban_cells b =
      b.ip
      ∷ csv_cell (text b.jail)
      ∷ date b.banned_at
      ∷ optional date b.unbanned_at
      ∷ optional date b.expires_at
      ∷ show b.active
      ∷ b.source
      ∷ csv_cell (text b.reason)
      ∷ []

  abbrev pub exported_bans : Result (List BanRow) → Reply ⊎ List (List String)
  exported_bans (err e) = inl (reply 500 "internal error")
  exported_bans (ok rows) = inr (ban_header ∷ map ban_cells rows)

  unfoldable pub handle_bans_csv :
      List (String × String) → SqliteStore → (Reply ⊎ List (List String)) × SqliteStore
  handle_bans_csv params s =
      let (r, s') = list_bans (not (setting "active" params == "false")) s in (exported_bans r, s')
