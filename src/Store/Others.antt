-- ===== src/Store/Others.antt =====
-- What BanIP, UnbanIP and InsertEvent of internal/store/sqlite.go leave alone: the bans of other addresses.
use logfort.Prelude.{
  ℕ, ◌≤◌, String, ◌≡◌, ◌≢◌, inl, inr, true, List, arith, eq_iff, Bool-cases, any_where,
  update_where, count_where-of_none, count_where-of_any, count_where-update,
  count_where-update_same,
}
use logfort.Store.Rows.{BanRow, SqliteStore}
use logfort.Store.Bans.{
  ban_ip, unban_ip, is_banned, active_count, active_for, mirror_ban, mirror_unban,
  insert_if_inactive, fail2ban_active_for, deactivate,
}
use logfort.Store.BanLaws.{ban_ip_lem, unban_ip_lem, text-cases}
use logfort.Store.Events.{insert_event, insert_row, mirror}
use logfort.Parse.Event.{Event}

pub fail2ban_lifted :
    (ip : String) (now : ℕ) (bs : List BanRow) (j : String)
    → (active_count j (update_where (fail2ban_active_for ip) (deactivate now) bs)
        ≤ active_count j bs)
      × (ip ≢ j
          → active_count j (update_where (fail2ban_active_for ip) (deactivate now) bs)
            ≡ active_count j bs)
fail2ban_lifted ip now bs j = (
  count_where-update (active_for j) (fail2ban_active_for ip) (deactivate now) bs
      (λ b h k. ground arith),
  λ h.
      count_where-update_same (active_for j) (fail2ban_active_for ip) (deactivate now) bs
        (λ b k. ground (arith, eq_iff b.ip ip, eq_iff b.ip j)),
)

-- An address with the same number of active rows is as banned as before.
pub banned-of_count :
    (j : String) (bs cs : List BanRow)
    → active_count j bs ≡ active_count j cs
    → any_where (active_for j) cs ≡ true
    → any_where (active_for j) bs ≡ true
banned-of_count j bs cs e h = elim (Bool-cases (any_where (active_for j) bs)) [
  | inl b ↦ b
  | inr b ↦
      let n = count_where-of_none (active_for j) bs b in
      let m = count_where-of_any (active_for j) cs h in absurd (omega arith)
]

-- An event lifts no ban of another address.
pub insert_event-other :
    (e : Event) (j : String) (s : SqliteStore)
    → e.ip ≢ j
    → is_banned j s ≡ true
    → is_banned j (insert_event e s).1 ≡ true
unfolding insert_event insert_row mirror mirror_ban mirror_unban insert_if_inactive
insert_event-other e j s h k =
    ground (arith, banned-of_count j _ s.bans ((fail2ban_lifted e.ip e.ts s.bans j).1 h) k)

pub ban_ip-keeps :
    (now : ℕ) (ip source reason : String) (expires_at : ℕ) (s : SqliteStore) (j : String)
    → is_banned j s ≡ true
    → is_banned j (ban_ip now ip source reason expires_at s).1 ≡ true
ban_ip-keeps now ip source reason expires_at s j h =
    elim (ban_ip_lem now ip source reason expires_at s) [
      | inl (e, same) ↦ rw same h
      | inr (e, banned, kept, others) ↦ elim (text-cases ip j) [
        | inl p ↦ rw (← p) banned
        | inr p ↦ banned-of_count j _ s.bans (others j p) h
      ]
    ]

pub unban_ip-other :
    (now : ℕ) (ip : String) (s : SqliteStore) (j : String)
    → ip ≢ j
    → is_banned j s ≡ true
    → is_banned j (unban_ip now ip s).1 ≡ true
unban_ip-other now ip s j p h = elim (unban_ip_lem now ip s) [
  | inl (e, same) ↦ rw same h
  | inr (e, free, others) ↦ banned-of_count j _ s.bans (others j p) h
]
