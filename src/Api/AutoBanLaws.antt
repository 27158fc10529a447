-- ===== src/Api/AutoBanLaws.antt =====
-- What each half of an automatic ban can do (AutoBanEvent, ThreatBanEvent and their background parts
-- in internal/api/api.go).
use logfort.Prelude.{
  ℕ, ◌+◌, ◌-◌, ◌<◌, String, ◌≡◌, refl, inl, inr, true, false, Option, none, some, ◌∷◌, arith,
  if◌then◌else◌, Bool-cases, Option-cases, is_some, ℤ, pos, ltb_ℤ,
}
use logfort.Go.Net.{Net}
use logfort.Store.Rows.{Result, SqliteStore, SqliteStore, Result, ok, err}
use logfort.Store.Bans.{ban_ip, unban_ip}
use logfort.Store.Events.{count_ip_events, count_ip_events}
use logfort.Parse.Event.{Event}
use logfort.Responder.Firewall.{Responder}
use logfort.Api.Server.{Server, unix, publish_event, notify_event, record_event, record_and_ban}
use logfort.Api.AutoBan.{
  sem_capacity, Job, auto_job, threat_job, exempt, auto_ban_event, threat_ban_event,
  auto_ban_background, threat_ban_background, run_job, announce, auto_ban_counted, auto_ban_decided,
  uncool_auto, uncool_threat, before, unix_ℤ,
}
use logfort.Api.Bans.{expiry}

abbrev pub job_ip : Job → String
job_ip (auto_job ip threshold dur ban_time claimed_at) = ip
job_ip (threat_job ip reason ban_time) = ip

module _ {F : Type 0} (net : Net) where
  -- What the first half of an automatic ban can do: nothing that the rest of the server sees, and one
  -- job at most, for an address that is not exempt, within the capacity of the semaphore.
  abbrev pub Starts : Server F → Option Job × Server F → Type 0
  Starts s r =
      (r.1.firewall ≡ s.firewall)
      × (r.1.published ≡ s.published)
      × (r.1.allowlist ≡ s.allowlist)
      × (r.0 ≡ none → r.1.auto_ban_sem ≡ s.auto_ban_sem)
      × ((j : Job)
          → r.0 ≡ some j
          → (exempt net (job_ip j) s ≡ false)
            × (s.auto_ban_sem < sem_capacity)
            × (r.1.auto_ban_sem ≡ s.auto_ban_sem + 1))

  pub auto_ban_event-Starts :
      (parse_duration : String → Option ℤ) (now : ℕ) (ev : Event) (s : Server F)
      → Starts s (auto_ban_event net parse_duration now ev s)
  unfolding auto_ban_event
  auto_ban_event-Starts parse_duration now ev s =
      (ground arith, ground arith, ground arith, (λ e. ground arith), λ j e. ground arith)

  pub threat_ban_event-Starts :
      (now : ℕ) (ev : Event) (s : Server F) → Starts s (threat_ban_event net now ev s)
  unfolding threat_ban_event
  threat_ban_event-Starts now ev s =
      (ground arith, ground arith, ground arith, (λ e. ground arith), λ j e. ground arith)

-- What the running of a job does to the firewall and to the hub: nothing, or the firewall is asked to
-- ban the job's address, and where it does, one event of that address is published.
pub data Effect {F : Type 0} (resp : Responder F) (ip : String) (s s' : Server F) : Type 0 where
  untouched : s'.firewall ≡ s.firewall → s'.published ≡ s.published → Effect resp ip s s'
  refused :
      s'.firewall ≡ (resp.ban ip s.firewall).1 → s'.published ≡ s.published → Effect resp ip s s'
  banned :
      (e : Event)
      → e.ip ≡ ip
      → (resp.ban ip s.firewall).0 ≡ true
      → s'.firewall ≡ (resp.ban ip s.firewall).1
      → s'.published ≡ e ∷ s.published
      → Effect resp ip s s'

module _ {F : Type 0} {resp : Responder F} {ip : String} {s s' : Server F} where
  Effect-of_sem : {n : ℕ} → Effect resp ip s s' → Effect resp ip s (record s' { auto_ban_sem = n })
  Effect-of_sem (untouched f p) = untouched f p
  Effect-of_sem (refused f p) = refused f p
  Effect-of_sem (banned e i b f p) = banned e i b f p

  Effect-of_store :
      {st : SqliteStore} → Effect resp ip (record s { store = st }) s' → Effect resp ip s s'
  Effect-of_store (untouched f p) = untouched f p
  Effect-of_store (refused f p) = refused f p
  Effect-of_store (banned e i b f p) = banned e i b f p

module _ {F : Type 0} (resp : Responder F) (now : ℕ) where
  finish :
      (ip reason source : String) (expires_at : ℕ) (s : Server F) (undo : Server F → Server F)
      → ((t : Server F) → ((undo t).firewall ≡ t.firewall) × ((undo t).published ≡ t.published))
      → let (failure, s') = record_and_ban resp now ip reason expires_at s in
        Effect resp ip s (if is_some failure then undo s' else announce now ip source s')
  unfolding record_and_ban announce publish_event notify_event record_event
  finish ip reason source expires_at s undo plain =
      elim (Option-cases (ban_ip (unix now) ip resp.name reason expires_at s.store).0) [
        | inr (x, e) ↦
            rw (e, record_and_ban)
              (untouched (plain (record s { store = tried })).0
                (plain (record s { store = tried })).1)
        | inl e ↦ elim (Bool-cases (resp.ban ip s.firewall).0) [
          | inl b ↦ rw (e, b) (banned _ refl b refl refl)
          | inr b ↦
              rw (e, b)
                (refused (plain (record s { store = undone; firewall = f })).0
                  (plain (record s { store = undone; firewall = f })).1)
        ]
      ]
    where
      tried : SqliteStore
      tried = (ban_ip (unix now) ip resp.name reason expires_at s.store).1

      undone : SqliteStore
      undone = (unban_ip (unix now) ip tried).1

      f : F
      f = (resp.ban ip s.firewall).1

  auto_ban_counted-Effect :
      (ip : String) (ban_time : ℤ) (claimed_at : ℕ) (s : Server F)
      → Effect resp ip s (auto_ban_counted resp now ip ban_time claimed_at s)
  unfolding auto_ban_counted
  auto_ban_counted-Effect ip ban_time claimed_at s =
      finish ip "auto-ban" "auto-ban" (expiry claimed_at ban_time) s (uncool_auto ip)
        (λ t. (refl, refl))

  threat_ban_background-Effect :
      (ip reason : String) (ban_time : ℤ) (s : Server F)
      → Effect resp ip s (threat_ban_background resp now ip reason ban_time s)
  unfolding threat_ban_background
  threat_ban_background-Effect ip reason ban_time s =
      finish ip reason "blocklist" (expiry now ban_time) s (uncool_threat ip) (λ t. (refl, refl))

  auto_ban_decided-Effect :
      (ip : String) (threshold ban_time : ℤ) (claimed_at : ℕ) (count : Result ℕ) (s : Server F)
      → Effect resp ip s (auto_ban_decided resp now ip threshold ban_time claimed_at count s)
  unfolding auto_ban_decided
  auto_ban_decided-Effect ip threshold ban_time claimed_at (err e) s = untouched refl refl
  auto_ban_decided-Effect ip threshold ban_time claimed_at (ok n) s =
      elim (Bool-cases (ltb_ℤ (pos n) threshold)) [
        | inl b ↦ rw b (untouched refl refl)
        | inr b ↦ rw b (auto_ban_counted-Effect ip ban_time claimed_at s)
      ]

  auto_ban_background-Effect :
      (ip : String) (threshold dur ban_time : ℤ) (claimed_at : ℕ) (s : Server F)
      → Effect resp ip s (auto_ban_background resp now ip threshold dur ban_time claimed_at s)
  unfolding auto_ban_background
  auto_ban_background-Effect ip threshold dur ban_time claimed_at s =
      let counted = count_ip_events ip (unix_ℤ (before claimed_at dur)) s.store in
      Effect-of_store (
        auto_ban_decided-Effect ip threshold ban_time claimed_at counted.0
          (record s { store = counted.1 }))

  pub run_job-Effect : (j : Job) (s : Server F) → Effect resp (job_ip j) s (run_job resp now j s)
  unfolding run_job
  run_job-Effect (auto_job ip threshold dur ban_time claimed_at) s =
      Effect-of_sem (auto_ban_background-Effect ip threshold dur ban_time claimed_at s)
  run_job-Effect (threat_job ip reason ban_time) s =
      Effect-of_sem (threat_ban_background-Effect ip reason ban_time s)

  pub run_job-rest :
      (j : Job) (s : Server F)
      → ((run_job resp now j s).allowlist ≡ s.allowlist)
        × ((run_job resp now j s).auto_ban_sem ≡ s.auto_ban_sem - 1)
  unfolding run_job auto_ban_decided auto_ban_counted record_and_ban announce publish_event
      notify_event record_event
  run_job-rest (auto_job ip threshold dur ban_time claimed_at) s = ground arith
  run_job-rest (threat_job ip reason ban_time) s = ground arith
