-- ===== src/Api/Bans.antt =====
-- POST /api/ban and POST /api/unban of internal/api/api.go (handleBanPost, handleUnbanPost).
use logfort.Prelude.{
  ℕ, ◌+◌, ◌*◌, String, not, ◌||◌, Option, none, some, ◌==◌, if◌then◌else◌, is_some, ℤ, pos,
  pos_part, ltb_ℤ,
}
use logfort.Go.Net.{Net}
use logfort.Store.Bans.{unban_ip}
use logfort.Parse.Event.{event_of}
use logfort.Responder.Allowlist.{is_private, is_valid}
use logfort.Responder.Firewall.{Responder}
use logfort.Go.Strings.{trim_space}
use logfort.Api.RateLimiter.{allow, unit}
use logfort.Api.Server.{
  Server, Reply, reply, unix, max_ban_duration_secs, publish_event, notify_event, record_event,
  allowlisted, normalize_ip, client_ip, not_recorded, not_blocked, record_and_ban,
}

-- The decoded body of a request for a ban; DurationSecs is an int64, 0 for a permanent ban.
pub record BanBody : Type 0 where
  pub ip : String
  pub reason : String
  pub duration_secs : ℤ

-- What the handlers read of a request; a body that is no JSON is `none`.
pub record Request (B : Type 0) : Type 0 where
  pub remote_addr : String
  pub xff : String
  pub body : Option B

module _ {F : Type 0} (net : Net) where
  -- The first check that the address or the duration fails.
  unfoldable pub ban_refusal : String → String → ℤ → Server F → Option String
  ban_refusal remote_ip ip duration s =
      if not (is_valid net ip)
      then some "invalid IP address"
      else if ltb_ℤ duration (pos 0) || ltb_ℤ (pos max_ban_duration_secs) duration
      then some "duration_secs must be between 0 (permanent) and 31536000 (365 days)"
      else if remote_ip == normalize_ip net ip
      then some "cannot ban your own IP address"
      else if is_private net ip
      then some "cannot ban private/loopback IP addresses"
      else if allowlisted net ip s
      then some "IP is in the allowlist and cannot be banned"
      else none

-- When a ban of so many seconds ends, for at most 292 years, which a time.Duration holds.
abbrev pub expiry : ℕ → ℤ → ℕ
expiry now duration = if ltb_ℤ (pos 0) duration then unix (now + pos_part duration * unit) else 0

module _ {F : Type 0} (resp : Responder F) where
  -- The part of handleBanPost behind its checks.
  unfoldable pub ban_checked : ℕ → String → String → ℤ → Server F → Reply × Server F
  ban_checked now ip reason duration s =
      let (failure, s') = record_and_ban resp now ip reason (expiry now duration) s in
      elim failure [
        | some not_recorded ↦ (reply 500 "failed to record ban", s')
        | some not_blocked ↦ (reply 500 "ban failed", s')
        | none ↦
            let ev = event_of (unix now) ip "ban" "manual" in
            (reply 200 "banned", notify_event ev (publish_event ev (record_event ev s')))
      ]

module _ {F : Type 0} (net : Net) (resp : Responder F) where
  abbrev ban_requested : ℕ → Request BanBody → Server F → Reply × Server F
  ban_requested now r s = elim r.body [
    | none ↦ (reply 400 "invalid JSON body", s)
    | some b ↦
        let ip = trim_space b.ip in
        elim (ban_refusal net (client_ip net r.remote_addr r.xff) ip b.duration_secs s) [
          | some why ↦ (reply 400 why, s)
          | none ↦ ban_checked resp now ip (trim_space b.reason) b.duration_secs s
        ]
  ]

  unfoldable pub handle_ban_post : ℕ → Request BanBody → Server F → Reply × Server F
  handle_ban_post now r s =
      if not s.responder_enabled
      then (reply 403 "responder is disabled", s)
      else (let (passed, lim) = allow now s.ban_lim in
          let s' = record s { ban_lim = lim } in
          if passed then ban_requested now r s' else (reply 429 "rate limit exceeded", s'))

  unfoldable pub unban_valid : ℕ → String → Server F → Reply × Server F
  unban_valid now ip s =
      let (lifted, f) = resp.unban ip s.firewall in
      let s₁ = record s { firewall = f } in
      let (e, st) = unban_ip (unix now) ip s.store in
      let s₂ = record s { firewall = f; store = st } in
      let ev = event_of (unix now) ip "unban" "manual" in
      if not lifted
      then (reply 500 "unban failed", s₁)
      else if is_some e
      then (reply 500 "failed to record unban", s₂)
      else (reply 200 "unbanned", publish_event ev (record_event ev s₂))

  -- Not rate-limited; the body of a request is the address.
  unfoldable pub handle_unban_post : ℕ → Request String → Server F → Reply × Server F
  unfolding unban_valid
  handle_unban_post now r s =
      if not s.responder_enabled then (reply 403 "responder is disabled", s) else elim r.body [
        | none ↦ (reply 400 "invalid JSON body", s)
        | some b ↦
            let ip = trim_space b in
            if is_valid net ip then unban_valid now ip s else (reply 400 "invalid IP address", s)
      ]
