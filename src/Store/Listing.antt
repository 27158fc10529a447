-- ===== src/Store/Listing.antt =====
-- The queries of internal/store/sqlite.go: ListEvents and ListExpiredBans return
-- exactly the rows that they promise.
use logfort.Prelude.{
  ℕ, ◌-◌, ◌≡◌, refl, ap, ◌∙◌, Bool, true, false, ◌&&◌, List, arith, leb, or_default, length, select,
  count_where, All, All-select, pos_part, count_where-of_select, length-select, All-take, All-drop,
  length-take, length-drop, min,
}
use logfort.Prelude.Sort.{
  sort_by, IsOrdered, sort_by-IsOrdered, All-sort_by, count_where-sort_by, length-sort_by,
}
use logfort.Store.Rows.{BanRow, EventRow, SqliteStore, ok, fails, later}
use logfort.Store.Bans.{has_expired, list_expired_bans}
use logfort.Store.Events.{
  EventQuery, build_event_where, effective_limit, page, list_events, newest_first,
}

abbrev pub by_expiry : BanRow → BanRow → Bool
by_expiry a b = leb (or_default a.expires_at 0) (or_default b.expires_at 0)

-- The sweeper's rows: where the statement succeeds they are the active rows whose time has come, each
-- as often as the table has it, the earliest expiry first; no permanent ban is among them.
pub list_expired_bans_lem :
    (now : ℕ) (s : SqliteStore)
    → fails s.faults ≡ false
    → (rows : List BanRow) × ((list_expired_bans now s).0 ≡ ok rows)
      × All (λ b. (b.active && has_expired now b) ≡ true) rows
      × ((p : BanRow → Bool)
          → count_where p rows ≡ count_where (λ b. (b.active && has_expired now b) && p b) s.bans)
      × IsOrdered by_expiry rows
unfolding list_expired_bans
list_expired_bans_lem now s h = (
  rows,
  rw h refl,
  All-sort_by _ by_expiry _ (All-select _ expired s.bans (λ b e. e)),
  (λ p. count_where-sort_by p by_expiry _ ∙ count_where-of_select p expired s.bans),
  sort_by-IsOrdered by_expiry (λ a b e. ground arith) (select expired s.bans),
)
  where
    expired : BanRow → Bool
    expired b = b.active && has_expired now b

    rows : List BanRow
    rows = sort_by by_expiry (select expired s.bans)

All-page :
    (P : EventRow → Type 0) (q : EventQuery) (rows : List EventRow)
    → All P rows
    → All P (page q rows)
unfolding page
All-page P q rows h =
    All-take P (effective_limit q.limit) _
      (All-drop P (pos_part q.offset) _ (All-sort_by P newest_first rows h))

length-page :
    (q : EventQuery) (rows : List EventRow)
    → length (page q rows) ≡ min (effective_limit q.limit) (length rows - pos_part q.offset)
unfolding page
length-page q rows = rw (length-take, length-drop, length-sort_by)

-- A page of ListEvents: where both statements succeed, each row meets the query's filters, the page
-- is no longer than the limit (100 where the query gives none), and the total counts all the rows
-- that meet them, so a first page within the limit is the whole of them.
pub list_events_lem :
    (q : EventQuery) (s : SqliteStore)
    → fails s.faults ≡ false
    → fails (later s.faults) ≡ false
    → (rows : List EventRow) × (total : ℕ) × ((list_events q s).0 ≡ ok (rows, total))
      × All (λ r. build_event_where q r ≡ true) rows
      × (length rows ≡ min (effective_limit q.limit) (total - pos_part q.offset))
      × (total ≡ count_where (build_event_where q) s.events)
unfolding list_events
list_events_lem q s f g = (
  page q found,
  count_where (build_event_where q) s.events,
  rw (f, g) refl,
  All-page (λ r. build_event_where q r ≡ true) q found (All-select _ _ s.events (λ r e. e)),
  length-page q found
      ∙ ap (λ n. min (effective_limit q.limit) (n - pos_part q.offset))
          (length-select (build_event_where q) s.events),
  refl,
)
  where
    found : List EventRow
    found = select (build_event_where q) s.events

abbrev pub is_active : BanRow → Bool
is_active b = b.active
