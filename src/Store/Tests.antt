-- ===== src/Store/Tests.antt =====
-- Runs of the store's properties on small tables.
use logfort.Prelude.{
  String, ◌≡◌, refl, ◌≢◌, ◌⊎◌, true, false, none, some, List, [], ◌∷◌, map, arith, eq_iff, pos,
}
use logfort.Store.Rows.{SqliteStore, db_error, duplicate}
use logfort.Store.Bans.{ban_ip, unban_ip, is_banned, active_count}
use logfort.Store.Events.{insert_event, EventQuery, insert_row, mirror}
use logfort.Parse.Event.{Event, event_of}
use logfort.Store.OneBan.{OneBan, Write, insert, ban, unban, prune, writes, writes-OneBan}
use logfort.Store.BanLaws.{ban_ip_lem, unban_ip_lem}
use logfort.Store.Dedup.{insert_again, AllDistinct, lost_ban, recorded}

abbrev fresh : SqliteStore
fresh = record { events = []; bans = []; settings = []; faults = [] }

abbrev attempt : Event
attempt = event_of 100 "8.8.8.8" "failed_password" "sshd"

abbrev banned_event : Event
banned_event = event_of 200 "8.8.8.8" "ban" "fail2ban"

-- One event, one permanent ban and one that ends at 500.
abbrev stocked : SqliteStore
stocked =
    (ban_ip 250 "9.9.9.9" "nftables" "" 500
      (ban_ip 200 "8.8.8.8" "nftables" "scan" 0 (insert_event attempt fresh).1).1).1

stocked_bans : map (λ b. b.banned_at) stocked.bans ≡ 250 ∷ 200 ∷ []
unfolding ban_ip insert_event insert_row mirror
stocked_bans = refl

fresh-OneBan : OneBan fresh
unfolding OneBan
fresh-OneBan ip = omega arith

abbrev busy : List Write
busy =
    ban 1 "8.8.8.8" "api" "" 0
    ∷ insert banned_event
    ∷ ban 2 "8.8.8.8" "api" "" 9
    ∷ unban 3 "8.8.8.8"
    ∷ prune (λ now days. days) 4 90
    ∷ []

writes-OneBan_example : OneBan (writes busy fresh)
writes-OneBan_example = writes-OneBan busy fresh fresh-OneBan

ban_ip_example :
    let r = ban_ip 600 "8.8.8.8" "nftables" "" 0 stocked in
    ((r.0 ≡ some db_error) × (r.1.bans ≡ stocked.bans))
    ⊎ ((r.0 ≡ none)
        × (is_banned "8.8.8.8" r.1 ≡ true)
        × (is_banned "8.8.8.8" stocked ≡ true → r.1.bans ≡ stocked.bans)
        × ((j : String) → "8.8.8.8" ≢ j → active_count j r.1.bans ≡ active_count j stocked.bans))
ban_ip_example = ban_ip_lem 600 "8.8.8.8" "nftables" "" 0 stocked

unban_ip_example :
    let r = unban_ip 600 "8.8.8.8" stocked in
    ((r.0 ≡ some db_error) × (r.1.bans ≡ stocked.bans))
    ⊎ ((r.0 ≡ none)
        × (is_banned "8.8.8.8" r.1 ≡ false)
        × ((j : String) → "8.8.8.8" ≢ j → active_count j r.1.bans ≡ active_count j stocked.bans))
unban_ip_example = unban_ip_lem 600 "8.8.8.8" stocked

attempt_no_unban : attempt.event_type ≢ "unban"
attempt_no_unban = ground (arith, eq_iff "failed_password" "unban")

stocked-banned : is_banned "8.8.8.8" stocked ≡ true
unfolding ban_ip insert_event insert_row mirror
stocked-banned = refl

stocked-AllDistinct : AllDistinct stocked.events
unfolding AllDistinct ban_ip insert_event insert_row mirror
stocked-AllDistinct = (refl, tt)

-- The second statement will fail.
abbrev shaky : SqliteStore
shaky = record fresh { faults = false ∷ true ∷ [] }

lost_ban_example :
    let t = insert_event banned_event shaky in
    let u = insert_again 3 banned_event t.1 in
    (t.0 ≡ some db_error)
    × (recorded banned_event t.1 ≡ true)
    × ((insert_event banned_event u).0 ≡ some duplicate)
    × (is_banned "8.8.8.8" u ≡ false)
lost_ban_example = lost_ban banned_event shaky 3 refl refl refl refl

abbrev first_page : EventQuery
first_page = record {
  limit = pos 1;
  offset = pos 0;
  event_type = "failed_password";
  ip = "";
  country = "";
  username = "";
  since = some (pos 50);
  until = none;
}
