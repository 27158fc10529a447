-- ===== src/Api/Orphans.antt =====
-- How a ban of internal/api/api.go meets the bans that fail2ban.log brought.
use logfort.Prelude.{
  ℕ, String, ◌≡◌, refl, ◌∙◌, true, false, not, ◌&&◌, none, List, [], ◌∷◌, arith, ◌==◌, eq_iff,
  count_where, any_where, update_where,
}
use logfort.Api.Server.{Server, unix, record_and_ban}
use logfort.Store.Rows.{spend, BanRow, SqliteStore}
use logfort.Store.Bans.{
  ban_ip, is_banned, active_for, fail2ban_active_for, deactivate, mirror_unban, insert_if_inactive,
}
use logfort.Store.Events.{insert_event, insert_row, mirror, next_event_id}
use logfort.Store.Dedup.{recorded, same_key_id}
use logfort.Parse.Event.{Event}
use logfort.Responder.Firewall.{Responder}

-- The active rows of the address that are not fail2ban's.
abbrev pub own_rows : String → List BanRow → ℕ
own_rows ip = count_where (λ b. active_for ip b && not (b.source == "fail2ban"))

all_lifted :
    (ip : String) (now : ℕ) (bs : List BanRow)
    → own_rows ip bs ≡ 0
    → any_where (active_for ip) (update_where (fail2ban_active_for ip) (deactivate now) bs) ≡ false
all_lifted ip now [] h = refl
all_lifted ip now (b ∷ bs) h = ground (arith, all_lifted ip now bs)

ban_ip-of_banned :
    (now : ℕ) (ip source reason : String) (expires_at : ℕ) (s : SqliteStore)
    → s.faults ≡ []
    → is_banned ip s ≡ true
    → ban_ip now ip source reason expires_at s ≡ (none, spend s)
unfolding ban_ip insert_if_inactive
ban_ip-of_banned now ip source reason expires_at s q b = rw (q, b) refl

unban_event-lifts :
    (e : Event) (s : SqliteStore)
    → e.event_type ≡ "unban"
    → s.faults ≡ []
    → recorded e s ≡ false
    → own_rows e.ip s.bans ≡ 0
    → is_banned e.ip (insert_event e s).1 ≡ false
unfolding insert_event insert_row mirror mirror_unban
unban_event-lifts e s u q new own =
    rw (q, same_key_id (next_event_id s.events) 0 e s.events ∙ new, no_ban, is_unban)
      (all_lifted e.ip e.ts s.bans own)
  where
    is_unban : (e.event_type == "unban") ≡ true
    is_unban = ground (arith, eq_iff e.event_type "unban")

    no_ban : (e.event_type == "ban") ≡ false
    no_ban = rw u refl

-- A ban of an address that fail2ban has banned adds no row. When fail2ban lifts its own ban later, the
-- address has no active row any more, although the firewall was asked to block it: that block is
-- neither listed nor does it expire.
pub orphaned :
    {F : Type 0} (resp : Responder F) (now : ℕ) (reason : String) (expires_at : ℕ) (e : Event)
    (s : Server F)
    → e.event_type ≡ "unban"
    → s.store.faults ≡ []
    → recorded e s.store ≡ false
    → is_banned e.ip s.store ≡ true
    → own_rows e.ip s.store.bans ≡ 0
    → (resp.ban e.ip s.firewall).0 ≡ true
    → let r = record_and_ban resp now e.ip reason expires_at s in
      let after = (insert_event e r.1.store).1 in
      (r.0 ≡ none) × (r.1.firewall ≡ (resp.ban e.ip s.firewall).1) × (is_banned e.ip after ≡ false)
unfolding record_and_ban
orphaned resp now reason expires_at e s u q new b own ok =
    rw (ban_ip-of_banned (unix now) e.ip resp.name reason expires_at s.store q b, ok)
      (refl, refl, unban_event-lifts e (spend s.store) u (rw q refl) new own)
