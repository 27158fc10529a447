-- ===== src/Store/BanLaws.antt =====
-- What the statements of BanIP, UnbanIP and the mirrored events of sqlite.go promise of the bans of an
-- address, errors included.
use logfort.Prelude.{
  ◌==◌, ℕ, String, ◌≡◌, refl, ◌≢◌, ◌⊎◌, inl, inr, true, false, none, some, List, [], ◌∷◌, arith,
  eq_iff, eq_refl, ne→==, Bool-cases, any_where, update_where, count_where-update_same,
}
use logfort.Parse.Event.{Event}
use logfort.Store.Events.{insert_event, insert_row, mirror}
use logfort.Store.Rows.{BanRow, SqliteStore, db_error, fails}
use logfort.Store.Bans.{
  mirror_ban, mirror_unban, active_for, deactivate, insert_if_inactive, ban_ip, unban_ip,
  active_count, is_banned,
}

insert_if_inactive-any :
    (b : BanRow) (bs : List BanRow)
    → b.active ≡ true
    → any_where (active_for b.ip) (insert_if_inactive b bs) ≡ true
unfolding insert_if_inactive
insert_if_inactive-any b bs h = ground (arith, eq_refl b.ip)

insert_if_inactive-other :
    (b : BanRow) (bs : List BanRow) (ip : String)
    → b.ip ≢ ip
    → active_count ip (insert_if_inactive b bs) ≡ active_count ip bs
unfolding insert_if_inactive
insert_if_inactive-other b bs ip h = ground (arith, ne→== b.ip ip)

any_where-deactivated :
    (now : ℕ) (ip : String) (bs : List BanRow)
    → any_where (active_for ip) (update_where (active_for ip) (deactivate now) bs) ≡ false
any_where-deactivated now ip [] = refl
any_where-deactivated now ip (b ∷ bs) = ground (arith, any_where-deactivated now ip bs)

deactivated-other :
    (now : ℕ) (ip j : String) (bs : List BanRow)
    → ip ≢ j
    → active_count j (update_where (active_for ip) (deactivate now) bs) ≡ active_count j bs
deactivated-other now ip j bs h =
    count_where-update_same (active_for j) (active_for ip) (deactivate now) bs
      (λ b k. ground (arith, eq_iff b.ip ip, eq_iff b.ip j))

-- BanIP fails and leaves the tables alone, or the address is banned afterwards; a table in which
-- it was banned already is not changed, and no other address gains or loses a ban.
pub ban_ip_lem :
    (now : ℕ) (ip source reason : String) (expires_at : ℕ) (s : SqliteStore)
    → let r = ban_ip now ip source reason expires_at s in
      ((r.0 ≡ some db_error) × (r.1.bans ≡ s.bans))
      ⊎ ((r.0 ≡ none)
          × (is_banned ip r.1 ≡ true)
          × (is_banned ip s ≡ true → r.1.bans ≡ s.bans)
          × ((j : String) → ip ≢ j → active_count j r.1.bans ≡ active_count j s.bans))
unfolding ban_ip
ban_ip_lem now ip source reason expires_at s = elim (Bool-cases (fails s.faults)) [
  | inl f ↦ rw f (inl (refl, refl))
  | inr f ↦ rw f (
      inr (
        refl,
        insert_if_inactive-any _ s.bans refl,
        (λ h. unfold insert_if_inactive in rw h),
        λ j h. insert_if_inactive-other _ s.bans j h,
      ))
]

-- UnbanIP fails and leaves the tables alone, or no row of the address is active afterwards and every
-- other address keeps its bans.
pub unban_ip_lem :
    (now : ℕ) (ip : String) (s : SqliteStore)
    → let r = unban_ip now ip s in
      ((r.0 ≡ some db_error) × (r.1.bans ≡ s.bans))
      ⊎ ((r.0 ≡ none)
          × (is_banned ip r.1 ≡ false)
          × ((j : String) → ip ≢ j → active_count j r.1.bans ≡ active_count j s.bans))
unfolding unban_ip
unban_ip_lem now ip s = elim (Bool-cases (fails s.faults)) [
  | inl f ↦ rw f (inl (refl, refl))
  | inr f ↦
      rw f (
        inr (refl, any_where-deactivated now ip s.bans, λ j h. deactivated-other now ip j s.bans h))
]

-- An event that is no "unban" lifts no ban of any address.
pub insert_event-keeps :
    (e : Event) (ip : String) (s : SqliteStore)
    → e.event_type ≢ "unban"
    → is_banned ip s ≡ true
    → is_banned ip (insert_event e s).1 ≡ true
unfolding insert_event insert_row mirror mirror_ban mirror_unban insert_if_inactive
insert_event-keeps e ip s h k = ground (arith, eq_iff e.event_type "unban")

-- Where no statement fails.
pub ban_ip-quiet :
    (now : ℕ) (ip source reason : String) (expires_at : ℕ) (s : SqliteStore)
    → s.faults ≡ []
    → let r = ban_ip now ip source reason expires_at s in
      (r.0 ≡ none)
      × (r.1.faults ≡ [])
      × (r.1.events ≡ s.events)
      × ((j : String) → ip ≢ j → active_count j r.1.bans ≡ active_count j s.bans)
unfolding ban_ip
ban_ip-quiet now ip source reason expires_at s h =
    rw h (refl, refl, refl, λ j k. insert_if_inactive-other _ s.bans j k)

-- Two addresses are told apart, or are one.
pub text-cases : (s t : String) → (s ≡ t) ⊎ (s ≢ t)
text-cases s t = elim (Bool-cases (s == t)) [
  | inl e ↦ inl ((eq_iff s t).0 e)
  | inr e ↦ inr (λ p. ground (arith, (eq_iff s t).1 p))
]

pub unban_ip-quiet :
    (now : ℕ) (ip : String) (s : SqliteStore)
    → s.faults ≡ []
    → let r = unban_ip now ip s in
      (r.0 ≡ none)
      × (is_banned ip r.1 ≡ false)
      × (r.1.faults ≡ [])
      × (r.1.events ≡ s.events)
      × ((j : String) → ip ≢ j → active_count j r.1.bans ≡ active_count j s.bans)
unfolding unban_ip
unban_ip-quiet now ip s h = rw h (
  refl,
  any_where-deactivated now ip s.bans,
  refl,
  refl,
  λ j k. deactivated-other now ip j s.bans k,
)
