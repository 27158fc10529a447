-- ===== src/Main/TickLaws.antt =====
-- What the publish hook of cmd/logfort/main.go promises.
use logfort.Prelude.{
  ℕ, ◌+◌, ◌≤◌, String, ◌≡◌, refl, sym, ◌∙◌, false, Option, none, some, ◌∷◌, arith, length, All, ℤ,
}
use logfort.Go.Net.{Net}
use logfort.Parse.Event.{Event}
use logfort.Api.Server.{allowlisted, Server, publish_event, notify_event}
use logfort.Api.AutoBan.{Job, auto_ban_event, threat_ban_event, exempt, sem_capacity}
use logfort.Api.AutoBanLaws.{Starts, auto_ban_event-Starts, threat_ban_event-Starts, job_ip}
use logfort.Main.Ticks.{publish_hook, jobs_of}

module _ {F : Type 0} (net : Net) where
  auto_ban_event-rest :
      (parse_duration : String → Option ℤ) (now : ℕ) (ev : Event) (s : Server F)
      → let r = auto_ban_event net parse_duration now ev s in
        (r.1.notified ≡ s.notified) × (r.1.store ≡ s.store)
  unfolding auto_ban_event
  auto_ban_event-rest parse_duration now ev s = (ground arith, ground arith)

  threat_ban_event-rest :
      (now : ℕ) (ev : Event) (s : Server F)
      → let r = threat_ban_event net now ev s in (r.1.notified ≡ s.notified) × (r.1.store ≡ s.store)
  unfolding threat_ban_event
  threat_ban_event-rest now ev s = (ground arith, ground arith)

  exempt-of_allowlist :
      (ip : String) (s t : Server F) → t.allowlist ≡ s.allowlist → exempt net ip t ≡ exempt net ip s
  unfolding exempt allowlisted
  exempt-of_allowlist ip s t e = rw e refl

  -- Two starts in a row.
  both :
      (s : Server F) (a b : Option Job × Server F)
      → Starts net s a
      → Starts net a.1 b
      → s.auto_ban_sem ≤ sem_capacity
      → (b.1.auto_ban_sem ≡ s.auto_ban_sem + length (jobs_of a.0 b.0))
        × (b.1.auto_ban_sem ≤ sem_capacity)
        × All (λ j. exempt net (job_ip j) s ≡ false) (jobs_of a.0 b.0)
  both s (none, s') (none, t) (f, p, al, q, m) (f', p', al', q', m') h =
      let e = q refl in let e' = q' refl in (omega arith, omega arith, tt)
  both s (none, s') (some k, t) (f, p, al, q, m) (f', p', al', q', m') h =
      let e = q refl in
      let (safe, room, more) = m' k refl in
      (omega arith, omega arith, (sym (exempt-of_allowlist (job_ip k) s s' al) ∙ safe, tt))
  both s (some j, s') (none, t) (f, p, al, q, m) (f', p', al', q', m') h =
      let e' = q' refl in
      let (safe, room, more) = m j refl in (omega arith, omega arith, (safe, tt))
  both s (some j, s') (some k, t) (f, p, al, q, m) (f', p', al', q', m') h =
      let (safe, room, more) = m j refl in
      let (safe', room', more') = m' k refl in
      (omega arith, omega arith, (sym (exempt-of_allowlist (job_ip k) s s' al) ∙ safe', (safe, tt)))

length-jobs_of : (a b : Option Job) → length (jobs_of a b) ≤ 2
length-jobs_of none none = omega arith
length-jobs_of none (some k) = omega arith
length-jobs_of (some j) none = omega arith
length-jobs_of (some j) (some k) = omega arith

-- The hook of a stored event publishes it and notifies of it once each and starts two jobs at most, each
-- for an address that is neither empty nor private nor allowlisted, each with one of the 100
-- slots; it leaves the store and the firewall alone.
pub publish_hook_lem :
    {F : Type 0} (net : Net) (parse_duration : String → Option ℤ) (now : ℕ) (ev : Event)
    (s : Server F)
    → s.auto_ban_sem ≤ sem_capacity
    → let r = publish_hook net parse_duration now ev s in
      (r.1.published ≡ ev ∷ s.published)
      × (r.1.notified ≡ ev ∷ s.notified)
      × (r.1.firewall ≡ s.firewall)
      × (r.1.store ≡ s.store)
      × (length r.0 ≤ 2)
      × (r.1.auto_ban_sem ≡ s.auto_ban_sem + length r.0)
      × (r.1.auto_ban_sem ≤ sem_capacity)
      × All (λ j. exempt net (job_ip j) s ≡ false) r.0
unfolding publish_hook publish_event notify_event exempt allowlisted
publish_hook_lem net parse_duration now ev s h =
    let s' = notify_event ev (publish_event ev s) in
    let a = auto_ban_event net parse_duration now ev s' in
    let b = threat_ban_event net now ev a.1 in
    let first = auto_ban_event-Starts net parse_duration now ev s' in
    let second = threat_ban_event-Starts net now ev a.1 in
    let (notified, kept) = auto_ban_event-rest net parse_duration now ev s' in
    let (notified', kept') = threat_ban_event-rest net now ev a.1 in
    let (slots, room, safe) = both net s' a b first second h in
    (
      second.1 ∙ first.1,
      notified' ∙ notified,
      second.0 ∙ first.0,
      kept' ∙ kept,
      length-jobs_of a.0 b.0,
      slots,
      room,
      safe,
    )
