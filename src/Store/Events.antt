-- ===== src/Store/Events.antt =====
-- The events table of internal/store/sqlite.go: InsertEvent with its deduplication and its mirror into
-- the bans table, ListEvents with its filters, CountIPEvents, DeleteOldEvents.
use logfort.Prelude.{
  ℕ, ◌+◌, String, Bool, true, false, not, ◌&&◌, ◌||◌, Option, none, some, List, [], ◌∷◌, ◌==◌, ltb,
  leb, eqb, if◌then◌else◌, or_default, take, drop, select, count_where, any_where, ℤ, pos, pos_part,
  ltb_ℤ, eqb_ℤ,
}
use logfort.Prelude.Sort.{sort_by}
use logfort.Go.Strconv.{neg}
use logfort.Store.Rows.{
  EventRow, SqliteStore, StoreError, db_error, duplicate, Result, ok, err, fails, query, spend,
  null_str, null_int,
}
use logfort.Store.Bans.{mirror_ban, mirror_unban}
use logfort.Parse.Event.{Event, GeoInfo}

pub next_event_id : List EventRow → ℕ
next_event_id [] = 1
next_event_id (r ∷ rs) = let n = next_event_id rs in if leb n r.id then r.id + 1 else n

abbrev located : GeoInfo → Bool
located g = not (eqb_ℤ g.lat (pos 0)) || not (eqb_ℤ g.lon (pos 0))

-- The values that InsertEvent binds.
unfoldable pub row_of : ℕ → Event → EventRow
row_of id e = record {
  id = id;
  ts = e.ts;
  ip = e.ip;
  event_type = e.event_type;
  username = null_str e.username;
  user_valid = e.user_valid;
  auth_method = null_str e.auth_method;
  port = null_int e.port;
  source = e.source;
  country = null_str e.geo.country;
  city = null_str e.geo.city;
  lat = (if located e.geo then some e.geo.lat else none);
  lon = (if located e.geo then some e.geo.lon else none);
  asn = null_str e.geo.asn;
  detail = null_str e.detail;
  threat = null_str e.threat;
  raw = null_str e.raw;
}

-- COALESCE(port, -1) of two rows.
abbrev pub same_port : Option ℕ → Option ℕ → Bool
same_port none none = true
same_port (some a) (some b) = eqb a b
same_port _ _ = false

-- The key of the unique index idx_events_dedup (008_dedup_audit.sql).
unfoldable pub same_key : EventRow → EventRow → Bool
same_key a b =
    eqb a.ts b.ts
    && (a.ip == b.ip
        && (same_port a.port b.port
            && (a.event_type == b.event_type
                && (or_default a.username "" == or_default b.username ""
                    && or_default a.detail "" == or_default b.detail ""))))

-- INSERT OR IGNORE: `err duplicate` where no row was written.
unfoldable pub insert_row : Event → SqliteStore → Option StoreError × SqliteStore
insert_row e s =
    let row = row_of (next_event_id s.events) e in
    if fails s.faults
    then (some db_error, spend s)
    else if any_where (same_key row) s.events
    then (some duplicate, spend s)
    else (none, record (spend s) { events = row ∷ s.events })

-- The `switch` on the event type.
unfoldable pub mirror : Event → SqliteStore → Option StoreError × SqliteStore
mirror e s =
    if e.event_type == "ban"
    then mirror_ban e s
    else if e.event_type == "unban"
    then mirror_unban e s
    else (none, s)

abbrev and_then :
    Option StoreError × SqliteStore
    → (SqliteStore → Option StoreError × SqliteStore)
    → Option StoreError × SqliteStore
and_then (some e, s) f = (some e, s)
and_then (none, s) f = f s

unfoldable pub insert_event : Event → SqliteStore → Option StoreError × SqliteStore
insert_event e s = and_then (insert_row e s) (mirror e)

-- Limit and Offset are Go's `int`; an empty text and a nil time are no filter.
pub record EventQuery : Type 0 where
  pub limit : ℤ
  pub offset : ℤ
  pub event_type : String
  pub ip : String
  pub country : String
  pub username : String
  pub since : Option ℤ
  pub until : Option ℤ

abbrev pub text_filter : String → Option String → Bool
text_filter wanted value = wanted == "" || elim value [ none ↦ false | some v ↦ v == wanted ]

abbrev pub since_filter : Option ℤ → ℕ → Bool
since_filter none ts = true
since_filter (some t) ts = not (ltb_ℤ (pos ts) t)

abbrev pub until_filter : Option ℤ → ℕ → Bool
until_filter none ts = true
until_filter (some t) ts = not (ltb_ℤ t (pos ts))

-- The condition that buildEventWhere writes, on a row.
unfoldable pub build_event_where : EventQuery → EventRow → Bool
build_event_where q r =
    text_filter q.event_type (some r.event_type)
    && (text_filter q.ip (some r.ip)
        && (text_filter q.country r.country
            && (text_filter q.username r.username
                && (since_filter q.since r.ts && until_filter q.until r.ts))))

abbrev pub effective_limit : ℤ → ℕ
effective_limit l = if ltb_ℤ (pos 0) l then pos_part l else 100

-- ORDER BY ts DESC, id DESC.
abbrev pub newest_first : EventRow → EventRow → Bool
newest_first a b = ltb b.ts a.ts || (eqb a.ts b.ts && leb b.id a.id)

-- LIMIT and OFFSET; SQLite reads a negative offset as 0.
unfoldable pub page : EventQuery → List EventRow → List EventRow
page q rows = take (effective_limit q.limit) (drop (pos_part q.offset) (sort_by newest_first rows))

unfoldable pub list_events : EventQuery → SqliteStore → Result (List EventRow × ℕ) × SqliteStore
unfolding build_event_where page
list_events q s =
    let s₁ = spend s in
    if fails s.faults
    then (err db_error, s₁)
    else if fails s₁.faults
    then (err db_error, spend s₁)
    else (
      ok (
        page q (select (build_event_where q) s.events),
        count_where (build_event_where q) s.events,
      ),
      spend s₁,
    )

-- IN ('failed_password','http_auth_fail','mail_auth_fail','max_auth').
unfoldable pub is_primary : String → Bool
is_primary t =
    t == "failed_password" || (t == "http_auth_fail" || (t == "mail_auth_fail" || t == "max_auth"))

abbrev pub attempt_of : String → ℤ → EventRow → Bool
attempt_of ip since r = r.ip == ip && (not (ltb_ℤ (pos r.ts) since) && is_primary r.event_type)

-- `since` can lie before 1970, as Go's time arithmetic allows.
unfoldable pub count_ip_events : String → ℤ → SqliteStore → Result ℕ × SqliteStore
count_ip_events ip since = query λ s. count_where (attempt_of ip since) s.events

-- time.Now().AddDate(0, 0, -days).Unix(). `add_date` is how package time moves a time by days: in the local
-- zone, whose days may have 23 or 25 hours, and with a Unix time that wraps around.
abbrev pub cutoff : (ℕ → ℤ → ℤ) → ℕ → ℕ → ℤ
cutoff add_date now days = add_date now (neg days)

abbrev pub older : ℤ → ℕ → Bool
older limit ts = ltb_ℤ (pos ts) limit

-- The bans are pruned only after the events were; the result counts the deleted events.
unfoldable pub delete_old_events : (ℕ → ℤ → ℤ) → ℕ → ℕ → SqliteStore → Result ℕ × SqliteStore
delete_old_events add_date now days s =
    let limit = cutoff add_date now days in
    if fails s.faults
    then (err db_error, spend s)
    else (let s₁ = record (spend s) { events = select (λ r. not (older limit r.ts)) s.events } in
        if fails s₁.faults then (err db_error, spend s₁) else (
          ok (count_where (λ r. older limit r.ts) s.events),
          record (spend s₁) {
            bans = select (λ b. b.active || not (older limit b.banned_at)) s.bans;
          },
        ))
