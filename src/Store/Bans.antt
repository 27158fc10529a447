-- ===== src/Store/Bans.antt =====
-- The bans table of internal/store/sqlite.go: BanIP, UnbanIP, ListBans, ListExpiredBans, the mirror of
-- ban and unban events, and the pruning of old rows.
use logfort.Prelude.{
  ℕ, ◌+◌, String, Bool, true, false, ◌&&◌, Option, none, some, List, [], ◌∷◌, ◌==◌, leb,
  if◌then◌else◌, or_default, select, count_where, any_where, update_where,
}
use logfort.Store.Rows.{
  BanRow, SqliteStore, StoreError, Result, query, statement, null_str, null_int,
}
use logfort.Parse.Event.{Event}
use logfort.Prelude.Sort.{sort_by}

-- INTEGER PRIMARY KEY: one more than the largest id.
pub next_ban_id : List BanRow → ℕ
next_ban_id [] = 1
next_ban_id (b ∷ bs) = let n = next_ban_id bs in if leb n b.id then b.id + 1 else n

-- `ip=? AND active=1`.
abbrev pub active_for : String → BanRow → Bool
active_for ip b = b.ip == ip && b.active

-- INSERT INTO bans … WHERE NOT EXISTS (an active row of the address).
unfoldable pub insert_if_inactive : BanRow → List BanRow → List BanRow
insert_if_inactive b bs = if any_where (active_for b.ip) bs then bs else b ∷ bs

-- UPDATE bans SET active=0, unbanned_at=? WHERE …
abbrev pub deactivate : ℕ → BanRow → BanRow
deactivate now b = record b { active = false; unbanned_at = some now }

unfoldable pub ban_ip :
    ℕ → String → String → String → ℕ → SqliteStore → Option StoreError × SqliteStore
unfolding insert_if_inactive
ban_ip now ip source reason expires_at = statement λ s. record s {
  bans =
      insert_if_inactive
        (record {
          id = next_ban_id s.bans;
          ip = ip;
          jail = none;
          banned_at = now;
          unbanned_at = none;
          expires_at = null_int expires_at;
          active = true;
          source = source;
          reason = null_str reason;
        })
        s.bans;
}

unfoldable pub unban_ip : ℕ → String → SqliteStore → Option StoreError × SqliteStore
unban_ip now ip =
    statement λ s. record s { bans = update_where (active_for ip) (deactivate now) s.bans }

-- The mirror of a "ban" event: an active row of source fail2ban, unless the address has one.
unfoldable pub mirror_ban : Event → SqliteStore → Option StoreError × SqliteStore
unfolding insert_if_inactive
mirror_ban e = statement λ s. record s {
  bans =
      insert_if_inactive
        (record {
          id = next_ban_id s.bans;
          ip = e.ip;
          jail = null_str e.username;
          banned_at = e.ts;
          unbanned_at = none;
          expires_at = none;
          active = true;
          source = "fail2ban";
          reason = null_str "";
        })
        s.bans;
}

abbrev pub fail2ban_active_for : String → BanRow → Bool
fail2ban_active_for ip b = active_for ip b && b.source == "fail2ban"

-- The mirror of an "unban" event: it lifts the rows that fail2ban.log brought.
unfoldable pub mirror_unban : Event → SqliteStore → Option StoreError × SqliteStore
mirror_unban e =
    statement
      λ s. record s { bans = update_where (fail2ban_active_for e.ip) (deactivate e.ts) s.bans }

-- ORDER BY banned_at DESC.
unfoldable pub list_bans : Bool → SqliteStore → Result (List BanRow) × SqliteStore
list_bans active_only = query λ s.
    let rows = (if active_only then select (λ b. b.active) s.bans else s.bans) in
    sort_by (λ a b. leb b.banned_at a.banned_at) rows

-- `expires_at IS NOT NULL AND expires_at <= ?`.
abbrev pub has_expired : ℕ → BanRow → Bool
has_expired now b = elim b.expires_at [ none ↦ false | some t ↦ leb t now ]

-- ORDER BY expires_at.
unfoldable pub list_expired_bans : ℕ → SqliteStore → Result (List BanRow) × SqliteStore
list_expired_bans now = query λ s.
    sort_by (λ a b. leb (or_default a.expires_at 0) (or_default b.expires_at 0))
      (select (λ b. b.active && has_expired now b) s.bans)

-- How many rows of the address are active.
abbrev pub active_count : String → List BanRow → ℕ
active_count ip = count_where (active_for ip)

-- The address has an active row.
abbrev pub is_banned : String → SqliteStore → Bool
is_banned ip s = any_where (active_for ip) s.bans
