-- ===== src/Store/OneBan.antt =====
-- The bans table keeps at most one active row for each address, whatever the store does.
use logfort.Prelude.{
  ℤ, ℕ, ◌≤◌, String, ◌≡◌, refl, inl, inr, Bool, List, [], ◌∷◌, arith, ◌==◌, eq_iff, Bool-cases,
  Option-cases, select, update_where, count_where-of_none, count_where-update, count_where-select,
}
use logfort.Parse.Event.{Event}
use logfort.Store.Rows.{BanRow, SqliteStore, fails, later}
use logfort.Store.Bans.{
  active_for, fail2ban_active_for, deactivate, insert_if_inactive, ban_ip, unban_ip, mirror_ban,
  mirror_unban, active_count,
}
use logfort.Store.Events.{insert_row, mirror, insert_event, delete_old_events}

unfoldable pub OneBan : SqliteStore → Type 0
OneBan s = (ip : String) → active_count ip s.bans ≤ 1

-- The writes that the program makes.
pub data Write : Type 0 where
  insert : Event → Write
  ban : ℕ → String → String → String → ℕ → Write
  unban : ℕ → String → Write
  prune : (ℕ → ℤ → ℤ) → ℕ → ℕ → Write

unfoldable pub write : Write → SqliteStore → SqliteStore
write (insert e) s = (insert_event e s).1
write (ban now ip source reason expires_at) s = (ban_ip now ip source reason expires_at s).1
write (unban now ip) s = (unban_ip now ip s).1
write (prune add_date now days) s = (delete_old_events add_date now days s).1

unfoldable pub writes : List Write → SqliteStore → SqliteStore
writes [] s = s
writes (w ∷ ws) s = writes ws (write w s)

-- How a statement can change the bans table.
data Change (bs bs' : List BanRow) : Type 0 where
  kept : bs' ≡ bs → Change bs bs'
  inserted : (b : BanRow) → bs' ≡ insert_if_inactive b bs → Change bs bs'
  lifted : (p : BanRow → Bool) (now : ℕ) → bs' ≡ update_where p (deactivate now) bs → Change bs bs'
  pruned : (p : BanRow → Bool) → bs' ≡ select p bs → Change bs bs'

ban_ip-Change :
    (now : ℕ) (ip source reason : String) (expires_at : ℕ) (s : SqliteStore)
    → Change s.bans (ban_ip now ip source reason expires_at s).1.bans
unfolding ban_ip
ban_ip-Change now ip source reason expires_at s = elim (Bool-cases (fails s.faults)) [
  | inl e ↦ rw e (kept refl)
  | inr e ↦ rw e (inserted _ refl)
]

unban_ip-Change :
    (now : ℕ) (ip : String) (s : SqliteStore) → Change s.bans (unban_ip now ip s).1.bans
unfolding unban_ip
unban_ip-Change now ip s = elim (Bool-cases (fails s.faults)) [
  | inl e ↦ rw e (kept refl)
  | inr e ↦ rw e (lifted (active_for ip) now refl)
]

mirror-Change : (e : Event) (s : SqliteStore) → Change s.bans (mirror e s).1.bans
unfolding mirror mirror_ban mirror_unban
mirror-Change e s = elim (Bool-cases (fails s.faults)) [
  | inl f ↦ elim (Bool-cases (e.event_type == "ban")) [
    | inl b ↦ rw (b, f) (kept refl)
    | inr b ↦ elim (Bool-cases (e.event_type == "unban")) [
      | inl u ↦ rw (b, u, f) (kept refl)
      | inr u ↦ rw (b, u) (kept refl)
    ]
  ]
  | inr f ↦ elim (Bool-cases (e.event_type == "ban")) [
    | inl b ↦ rw (b, f) (inserted _ refl)
    | inr b ↦ elim (Bool-cases (e.event_type == "unban")) [
      | inl u ↦ rw (b, u, f) (lifted (fail2ban_active_for e.ip) e.ts refl)
      | inr u ↦ rw (b, u) (kept refl)
    ]
  ]
]

insert_row-bans : (e : Event) (s : SqliteStore) → (insert_row e s).1.bans ≡ s.bans
unfolding insert_row
insert_row-bans e s = ground arith

insert_event-Change : (e : Event) (s : SqliteStore) → Change s.bans (insert_event e s).1.bans
unfolding insert_event
insert_event-Change e s = elim (Option-cases (insert_row e s).0) [
  | inl f ↦ rw (f, insert_event) (rw (insert_row-bans e s) at (mirror-Change e (insert_row e s).1))
  | inr (x, f) ↦ rw (f, insert_event) (kept (insert_row-bans e s))
]

delete_old_events-Change :
    (add_date : ℕ → ℤ → ℤ) (now days : ℕ) (s : SqliteStore)
    → Change s.bans (delete_old_events add_date now days s).1.bans
unfolding delete_old_events
delete_old_events-Change add_date now days s = elim (Bool-cases (fails s.faults)) [
  | inl f ↦ rw f (kept refl)
  | inr f ↦ elim (Bool-cases (fails (later s.faults))) [
    | inl g ↦ rw (f, g) (kept refl)
    | inr g ↦ rw (f, g) (pruned _ refl)
  ]
]

write-Change : (w : Write) (s : SqliteStore) → Change s.bans (write w s).bans
unfolding write
write-Change (insert e) s = insert_event-Change e s
write-Change (ban now ip source reason expires_at) s =
    ban_ip-Change now ip source reason expires_at s
write-Change (unban now ip) s = unban_ip-Change now ip s
write-Change (prune add_date now days) s = delete_old_events-Change add_date now days s

active_count-insert :
    (b : BanRow) (bs : List BanRow) (ip : String)
    → active_count ip bs ≤ 1
    → active_count ip (insert_if_inactive b bs) ≤ 1
unfolding insert_if_inactive
active_count-insert b bs ip h =
    ground (arith, eq_iff b.ip ip, count_where-of_none (active_for b.ip) bs)

active_count-deactivate :
    (p : BanRow → Bool) (now : ℕ) (bs : List BanRow) (ip : String)
    → active_count ip (update_where p (deactivate now) bs) ≤ active_count ip bs
active_count-deactivate p now bs ip =
    count_where-update (active_for ip) p (deactivate now) bs (λ b h k. ground arith)

Change-OneBan :
    {bs bs' : List BanRow}
    → Change bs bs'
    → (ip : String) → active_count ip bs ≤ 1
    → active_count ip bs' ≤ 1
Change-OneBan (kept e) ip h = rw e h
Change-OneBan {bs} (inserted b e) ip h = rw e (active_count-insert b bs ip h)
Change-OneBan {bs} (lifted p now e) ip h = rw e (omega (arith, active_count-deactivate p now bs ip))
Change-OneBan {bs} (pruned p e) ip h = rw e (omega (arith, count_where-select (active_for ip) p bs))

write-OneBan : (w : Write) (s : SqliteStore) → OneBan s → OneBan (write w s)
unfolding OneBan
write-OneBan w s h ip = Change-OneBan (write-Change w s) ip (h ip)

-- No sequence of writes, with any of its statements failing, gives an address two active bans.
pub writes-OneBan : (ws : List Write) (s : SqliteStore) → OneBan s → OneBan (writes ws s)
unfolding writes
writes-OneBan [] s h = h
writes-OneBan (w ∷ ws) s h = writes-OneBan ws (write w s) (write-OneBan w s h)
