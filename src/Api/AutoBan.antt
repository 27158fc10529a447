-- ===== src/Api/AutoBan.antt =====
-- Automatic bans of internal/api/api.go: AutoBanEvent and ThreatBanEvent with their background parts.
-- The first half of each runs when an event arrives and may start a job, which holds a slot of the
-- semaphore until it has run. `parse_duration` is time.ParseDuration, in nanoseconds.
use logfort.Prelude.{
  ◌%◌, ◌^◌, ℕ, suc, ◌+◌, ◌-◌, ◌*◌, ◌/◌, String, Bool, false, not, ◌&&◌, ◌||◌, Option, none, some,
  ◌==◌, ltb, if◌then◌else◌, is_some, ℤ, pos, negsuc, pos_part, sub_ℕ, ltb_ℤ,
}
use logfort.Go.Net.{Net}
use logfort.Store.Rows.{Result, ok, err}
use logfort.Store.Events.{count_ip_events}
use logfort.Parse.Event.{Event, event_of}
use logfort.Responder.Allowlist.{is_private}
use logfort.Responder.Firewall.{Responder}
use logfort.Api.RateLimiter.{unit}
use logfort.Api.Server.{
  Server, unix, publish_event, notify_event, record_event, allowlisted, normalize_ip,
  record_and_ban,
}
use logfort.Prelude.Assoc.{lookup, insert, erase}
use Prim.Native.String.{◌++◌ as str_append}
use logfort.Store.Events.{is_primary}
use logfort.Api.Bans.{expiry}

-- The capacity of autoBanSem.
abbrev pub sem_capacity : ℕ
sem_capacity = 100

pub data Job : Type 0 where
  -- autoBanBackground(ip, threshold, dur, banTime, now)
  auto_job : String → ℤ → ℤ → ℤ → ℕ → Job
  -- threatBanBackground(ip, reason, banTime)
  threat_job : String → String → ℤ → Job

-- Unix() of an instant that may lie before 1970.
abbrev pub unix_ℤ : ℤ → ℤ
unix_ℤ (pos n) = pos (n / unit)
unix_ℤ (negsuc n) = negsuc (n / unit)

-- `now.Add(-dur)`.
abbrev pub before : ℕ → ℤ → ℤ
before now (pos d) = sub_ℕ now d
before now (negsuc d) = pos (now + suc d)

-- `now.Sub(prev)`.
abbrev pub elapsed : ℕ → ℕ → ℤ
elapsed now prev = sub_ℕ now prev

unfoldable pub cooling : ℕ → ℤ → Option ℕ → Bool
cooling now dur prev = elim prev [ none ↦ false | some t ↦ ltb_ℤ (elapsed now t) dur ]

-- An int64 product, which wraps around.
abbrev pub int64 : ℕ → ℤ
int64 n = sub_ℕ ((n + 2 ^ 63) % 2 ^ 64) (2 ^ 63)

-- A permanent ban (banTime <= 0) stays claimed; time.Duration(banTime) * time.Second may wrap around.
unfoldable pub claimed : ℕ → ℤ → Option ℕ → Bool
claimed now ban_time prev = elim prev [
  | none ↦ false
  | some t ↦
      not (ltb_ℤ (pos 0) ban_time) || ltb_ℤ (elapsed now t) (int64 (pos_part ban_time * unit))
]

module _ {F : Type 0} where
  -- The part that the background jobs share: ban, then the event, or the cooldown given back.
  unfoldable pub announce : ℕ → String → String → Server F → Server F
  announce now ip source s =
      let ev = event_of (unix now) ip "ban" source in
      notify_event ev (publish_event ev (record_event ev s))

  abbrev pub uncool_auto : String → Server F → Server F
  uncool_auto ip s = record s { auto_ban_cooldown = erase ip s.auto_ban_cooldown }

  abbrev pub uncool_threat : String → Server F → Server F
  uncool_threat ip s = record s { threat_ban_cooldown = erase ip s.threat_ban_cooldown }

module _ {F : Type 0} (net : Net) where
  -- `ip == "" || IsPrivate(ip)`, or the address is allowlisted.
  unfoldable pub exempt : String → Server F → Bool
  exempt ip s = ip == "" || (is_private net ip || allowlisted net ip s)

  -- Claims a slot of the semaphore for the job, or gives the cooldown back.
  unfoldable pub start_auto : ℕ → Job → String → Server F → Option Job × Server F
  start_auto now job ip s =
      if ltb s.auto_ban_sem sem_capacity
      then (
        some job,
        record s {
          auto_ban_cooldown = insert ip now s.auto_ban_cooldown;
          auto_ban_sem = s.auto_ban_sem + 1;
        },
      )
      else (none, record s { auto_ban_cooldown = erase ip s.auto_ban_cooldown })

  module _ (parse_duration : String → Option ℤ) where
    unfoldable pub auto_ban_event : ℕ → Event → Server F → Option Job × Server F
    unfolding start_auto cooling
    auto_ban_event now ev s =
        let ip = normalize_ip net ev.ip in
        if not (s.auto_ban_enabled && s.responder_enabled)
        then (none, s)
        else if not (is_primary ev.event_type)
        then (none, s)
        else if exempt ip s
        then (none, s)
        else elim (parse_duration s.auto_ban_window) [
          | none ↦ (none, s)
          | some dur ↦
              if not (ltb_ℤ (pos 0) s.auto_ban_threshold)
              then (none, s)
              else if cooling now dur (lookup ip s.auto_ban_cooldown)
              then (none, s)
              else start_auto now (auto_job ip s.auto_ban_threshold dur s.auto_ban_ban_time now) ip
                  s
        ]

  unfoldable pub start_threat : ℕ → Job → String → Server F → Option Job × Server F
  start_threat now job ip s =
      if ltb s.auto_ban_sem sem_capacity
      then (
        some job,
        record s {
          threat_ban_cooldown = insert ip now s.threat_ban_cooldown;
          auto_ban_sem = s.auto_ban_sem + 1;
        },
      )
      else (none, record s { threat_ban_cooldown = erase ip s.threat_ban_cooldown })

  unfoldable pub threat_ban_event : ℕ → Event → Server F → Option Job × Server F
  unfolding start_threat claimed
  threat_ban_event now ev s =
      let ip = normalize_ip net ev.ip in
      if ev.threat == "" || not s.blocklist_auto
      then (none, s)
      else if not s.responder_enabled
      then (none, s)
      else if exempt ip s
      then (none, s)
      else if claimed now s.auto_ban_ban_time (lookup ip s.threat_ban_cooldown)
      then (none, s)
      else start_threat now (threat_job ip (str_append "blocklist:" ev.threat) s.auto_ban_ban_time)
          ip s

module _ {F : Type 0} (resp : Responder F) where
  unfoldable pub auto_ban_counted : ℕ → String → ℤ → ℕ → Server F → Server F
  auto_ban_counted now ip ban_time claimed_at s =
      let (failure, s') = record_and_ban resp now ip "auto-ban" (expiry claimed_at ban_time) s in
      if is_some failure then uncool_auto ip s' else announce now ip "auto-ban" s'

  -- Below the threshold, or with the count unknown, the cooldown is given back.
  unfoldable pub auto_ban_decided : ℕ → String → ℤ → ℤ → ℕ → Result ℕ → Server F → Server F
  auto_ban_decided now ip threshold ban_time claimed_at (err e) s = uncool_auto ip s
  auto_ban_decided now ip threshold ban_time claimed_at (ok n) s =
      if ltb_ℤ (pos n) threshold
      then uncool_auto ip s
      else auto_ban_counted now ip ban_time claimed_at s

  -- `now` is the time at which the job runs, `claimed_at` the time of its event.
  unfoldable pub auto_ban_background : ℕ → String → ℤ → ℤ → ℤ → ℕ → Server F → Server F
  auto_ban_background now ip threshold dur ban_time claimed_at s =
      let (count, st) = count_ip_events ip (unix_ℤ (before claimed_at dur)) s.store in
      auto_ban_decided now ip threshold ban_time claimed_at count (record s { store = st })

  unfoldable pub threat_ban_background : ℕ → String → String → ℤ → Server F → Server F
  threat_ban_background now ip reason ban_time s =
      let (failure, s') = record_and_ban resp now ip reason (expiry now ban_time) s in
      if is_some failure then uncool_threat ip s' else announce now ip "blocklist" s'

  -- A job runs, and gives its slot back.
  unfoldable pub run_job : ℕ → Job → Server F → Server F
  unfolding auto_ban_background threat_ban_background
  run_job now (auto_job ip threshold dur ban_time claimed_at) s =
      let s' = auto_ban_background now ip threshold dur ban_time claimed_at s in
      record s' { auto_ban_sem = s'.auto_ban_sem - 1 }
  run_job now (threat_job ip reason ban_time) s =
      let s' = threat_ban_background now ip reason ban_time s in
      record s' { auto_ban_sem = s'.auto_ban_sem - 1 }
