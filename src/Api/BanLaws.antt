-- ===== src/Api/BanLaws.antt =====
-- What a request for a ban does: which one is granted, what a granted one leaves behind, and what the
-- rollback of a failed one does.
use logfort.Store.Rows.{SqliteStore}
use logfort.Store.Bans.{ban_ip, unban_ip, is_banned, active_count}
use logfort.Parse.Event.{event_of}
use logfort.Responder.Allowlist.{is_private, is_valid}
use logfort.Responder.Firewall.{Responder}
use logfort.Go.Strings.{trim_space}
use logfort.Api.RateLimiter.{allow}
use logfort.Go.Net.{Net}
use logfort.Api.Bans.{BanBody, Request, ban_refusal, expiry, ban_checked, handle_ban_post}
use logfort.Prelude.{
  ℕ, String, ◌≡◌, refl, sym, ap, ◌∙◌, ◌≢◌, inl, inr, true, false, Option, none, some, [], ◌∷◌,
  arith, eq_iff, Bool-cases, Option-cases, count_where-of_none, ℤ, pos, ◌≤ℤ◌,
}
use logfort.Api.Server.{
  Server, Reply, unix, max_ban_duration_secs, publish_event, notify_event, record_event,
  allowlisted, normalize_ip, client_ip, BanFailure, not_blocked, record_and_ban,
}
use logfort.Store.BanLaws.{text-cases, ban_ip_lem, ban_ip-quiet, unban_ip-quiet, insert_event-keeps}

module _ {F : Type 0} (resp : Responder F) (now : ℕ) (ip reason : String) (expires_at : ℕ)
    (s : Server F) where
  -- Where the firewall refuses the address, a ban that stood in the store before is lifted there by
  -- the rollback, although BanIP had added no row.
  pub failed_reban_lifts :
      is_banned ip s.store ≡ true
      → s.store.faults ≡ []
      → (resp.ban ip s.firewall).0 ≡ false
      → let r = record_and_ban resp now ip reason expires_at s in
        (r.0 ≡ some not_blocked) × (is_banned ip r.1.store ≡ false)
  unfolding record_and_ban
  failed_reban_lifts banned quiet refused =
      let (done, calm, _, _) =
        ban_ip-quiet (unix now) ip resp.name reason expires_at s.store quiet in
      let gone =
        unban_ip-quiet (unix now) ip (ban_ip (unix now) ip resp.name reason expires_at s.store).1
          calm in
      rw (done, refused) (refl, gone.1)

  -- A ban that succeeds is in the firewall and in the store.
  pub record_and_ban_ok :
      let r = record_and_ban resp now ip reason expires_at s in
      r.0 ≡ none
      → ((resp.ban ip s.firewall).0 ≡ true)
        × (r.1.firewall ≡ (resp.ban ip s.firewall).1)
        × (is_banned ip r.1.store ≡ true)
        × ((j : String) → ip ≢ j → active_count j r.1.store.bans ≡ active_count j s.store.bans)
  unfolding record_and_ban
  record_and_ban_ok h = elim (ban_ip_lem (unix now) ip resp.name reason expires_at s.store) [
    | inl (e, same) ↦ ground arith
    | inr (e, banned, kept, others) ↦ elim (Bool-cases (resp.ban ip s.firewall).0) [
      | inl b ↦ rw (e, b) (refl, refl, banned, others)
      | inr b ↦ ground arith
    ]
  ]

  pub record_and_ban_streams :
      let r = record_and_ban resp now ip reason expires_at s in
      (r.1.published ≡ s.published) × (r.1.notified ≡ s.notified)
  unfolding record_and_ban
  record_and_ban_streams = ground arith

  active_count-of_free : (st : SqliteStore) → is_banned ip st ≡ false → active_count ip st.bans ≡ 0
  active_count-of_free st h = count_where-of_none _ st.bans h

  -- Of an address that had no active ban, the rollback restores what every address has.
  pub failed_ban_rolls_back :
      is_banned ip s.store ≡ false
      → s.store.faults ≡ []
      → (resp.ban ip s.firewall).0 ≡ false
      → let r = record_and_ban resp now ip reason expires_at s in
        (r.0 ≡ some not_blocked)
        × (r.1.store.events ≡ s.store.events)
        × ((j : String) → active_count j r.1.store.bans ≡ active_count j s.store.bans)
  unfolding record_and_ban
  failed_ban_rolls_back free quiet refused =
      let r = ban_ip (unix now) ip resp.name reason expires_at s.store in
      let (done, calm, same, kept) =
        ban_ip-quiet (unix now) ip resp.name reason expires_at s.store quiet in
      let (_, gone, _, same', others) = unban_ip-quiet (unix now) ip r.1 calm in
      rw (done, refused)
        (
          refl,
          same' ∙ same,
          λ j. elim (text-cases ip j) [
            | inl p ↦ rw (← p) (
                active_count-of_free (unban_ip (unix now) ip r.1).1 gone
                ∙ sym (active_count-of_free s.store free))
            | inr p ↦ others j p ∙ kept j p
          ],
        )

module _ {F : Type 0} (net : Net) (remote_ip ip : String) (duration : ℤ) (s : Server F) where
  -- What the checks of handleBanPost let pass.
  pub record Bannable : Type 0 where
    pub valid : is_valid net ip ≡ true
    pub lasting : pos 0 ≤ℤ duration
    pub bounded : duration ≤ℤ pos max_ban_duration_secs
    pub foreign : remote_ip ≢ normalize_ip net ip
    pub public : is_private net ip ≡ false
    pub not_allowlisted : allowlisted net ip s ≡ false

  ban_refusal-Bannable : ban_refusal net remote_ip ip duration s ≡ none → Bannable
  unfolding ban_refusal
  ban_refusal-Bannable h = ground (arith, eq_iff remote_ip (normalize_ip net ip))

ban-ne-unban : ◌≢◌ {A = String} "ban" "unban"
ban-ne-unban = ground (arith, eq_iff "ban" "unban")

module _ {F : Type 0} (resp : Responder F) (now : ℕ) (ip reason : String) (duration : ℤ)
    (s : Server F) where
  abbrev checked : Reply × Server F
  checked = ban_checked resp now ip reason duration s

  abbrev recorded : Option BanFailure × Server F
  recorded = record_and_ban resp now ip reason (expiry now duration) s

  ban_checked_ok :
      checked.0.status ≡ 200
      → ((resp.ban ip s.firewall).0 ≡ true)
        × (checked.1.firewall ≡ (resp.ban ip s.firewall).1)
        × (is_banned ip checked.1.store ≡ true)
        × (checked.1.published ≡ event_of (unix now) ip "ban" "manual" ∷ s.published)
        × (checked.1.notified ≡ event_of (unix now) ip "ban" "manual" ∷ s.notified)
  unfolding ban_checked publish_event notify_event record_event
  ban_checked_ok h = elim (Option-cases recorded.0) [
    | inr (f, e) ↦ ground arith
    | inl e ↦
        let still = record_and_ban_streams resp now ip reason (expiry now duration) s in
        let (blocked, firewall, banned, _) =
          record_and_ban_ok resp now ip reason (expiry now duration) s e in
        rw (e, ban_checked)
          (
            blocked,
            firewall,
            insert_event-keeps _ ip recorded.1.store ban-ne-unban banned,
            ap (λ l. event_of (unix now) ip "ban" "manual" ∷ l) still.0,
            ap (λ l. event_of (unix now) ip "ban" "manual" ∷ l) still.1,
          )
  ]

module _ {F : Type 0} (net : Net) (resp : Responder F) (now : ℕ) (r : Request BanBody)
    (s : Server F) where
  abbrev after : Reply × Server F
  after = handle_ban_post net resp now r s

  abbrev limited : Server F
  limited = record s { ban_lim = (allow now s.ban_lim).1 }

  after-checked :
      (b : BanBody)
      → r.body ≡ some b
      → after.0.status ≡ 200
      → (s.responder_enabled ≡ true)
        × (ban_refusal net
              (client_ip net r.remote_addr r.xff)
              (trim_space b.ip)
              b.duration_secs
              limited
            ≡ none)
        × ((allow now s.ban_lim).0 ≡ true)
        × (after
            ≡ ban_checked resp now (trim_space b.ip) (trim_space b.reason) b.duration_secs limited)
  unfolding handle_ban_post
  after-checked b e h = ground arith

  no_body : r.body ≡ none → after.0.status ≢ 200
  unfolding handle_ban_post
  no_body e h = ground arith

  -- A request for a ban that is answered 200 passed every check, the rate limiter's included, and leaves the address banned in the
  -- firewall and in the store, with a "ban" event given to the hub and to the notifications.
  pub granted :
      after.0.status ≡ 200
      → (b : BanBody) × (r.body ≡ some b)
        × (s.responder_enabled ≡ true)
        × ((allow now s.ban_lim).0 ≡ true)
        × Bannable net (client_ip net r.remote_addr r.xff) (trim_space b.ip) b.duration_secs s
        × ((resp.ban (trim_space b.ip) s.firewall).0 ≡ true)
        × (after.1.firewall ≡ (resp.ban (trim_space b.ip) s.firewall).1)
        × (is_banned (trim_space b.ip) after.1.store ≡ true)
        × (after.1.published ≡ event_of (unix now) (trim_space b.ip) "ban" "manual" ∷ s.published)
        × (after.1.notified ≡ event_of (unix now) (trim_space b.ip) "ban" "manual" ∷ s.notified)
  unfolding allowlisted
  granted h = elim (Option-cases r.body) [
    | inl e ↦ absurd (no_body e h)
    | inr (b, e) ↦
        let (enabled, unrefused, passed, same) = after-checked b e h in
        let (blocked, firewall, banned, published, notified) =
          ban_checked_ok resp now (trim_space b.ip) (trim_space b.reason) b.duration_secs limited
            (ap (λ (t : Reply × Server F). t.0.status) (sym same) ∙ h) in
        let fit =
          ban_refusal-Bannable net (client_ip net r.remote_addr r.xff) (trim_space b.ip)
            b.duration_secs limited unrefused in
        rw same (
          b,
          e,
          enabled,
          passed,
          record {
            valid = fit.valid;
            lasting = fit.lasting;
            bounded = fit.bounded;
            foreign = fit.foreign;
            public = fit.public;
            not_allowlisted = fit.not_allowlisted;
          },
          blocked,
          firewall,
          banned,
          published,
          notified,
        )
  ]

  -- Any other answer than 200 and 500 leaves everything but the rate limiter as it was.
  pub refused_changes_nothing :
      after.0.status ≢ 200 → after.0.status ≢ 500 → after.1 ≡ record s { ban_lim = after.1.ban_lim }
  unfolding handle_ban_post ban_checked
  refused_changes_nothing h k = ground arith
