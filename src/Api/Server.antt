-- ===== src/Api/Server.antt =====
-- The part of the server of internal/api/api.go that bans act on, and the helpers of its handlers.
-- `F` is what stands behind the responder. `published` and `notified` are the events given to the hub
-- and to the notification callback, the latest first. A handler reads the clock once, in nanoseconds.
use logfort.Prelude.{
  ℕ, ◌*◌, ◌/◌, String, Bool, false, not, ◌&&◌, Option, none, some, List, [], ◌∷◌, ◌==◌,
  if◌then◌else◌, is_some, or_default, ℤ,
}
use logfort.Go.Net.{Net}
use logfort.Store.Rows.{SqliteStore}
use logfort.Store.Bans.{ban_ip, unban_ip}
use logfort.Store.Events.{insert_event}
use logfort.Parse.Event.{Event}
use logfort.Responder.Allowlist.{Allowlist, contains, is_private}
use logfort.Responder.Firewall.{Responder}
use logfort.Go.Strings.{trim_space, split}
use logfort.Api.RateLimiter.{RateLimiter, unit}

pub record Server (F : Type 0) : Type 0 where
  pub responder_enabled : Bool
  pub auto_ban_enabled : Bool
  pub auto_ban_threshold : ℤ
  pub auto_ban_window : String
  pub auto_ban_ban_time : ℤ
  pub blocklist_auto : Bool
  pub store : SqliteStore
  pub firewall : F
  pub allowlist : Option Allowlist
  pub ban_lim : RateLimiter
  pub auto_ban_cooldown : List (String × ℕ)
  pub threat_ban_cooldown : List (String × ℕ)
  pub auto_ban_sem : ℕ
  pub published : List Event
  pub notified : List Event

-- An HTTP status, and the "error" or "status" of the body.
pub record Reply : Type 0 where
  pub status : ℕ
  pub text : String

abbrev pub reply : ℕ → String → Reply
reply n t = record { status = n; text = t }

-- time.Time.Unix.
abbrev pub unix : ℕ → ℕ
unix now = now / unit

-- maxBanDurationSecs.
abbrev pub max_ban_duration_secs : ℕ
max_ban_duration_secs = 365 * 24 * 3600

abbrev last_part : List String → String
last_part [] = ""
last_part (p ∷ []) = p
last_part (p ∷ q ∷ ps) = last_part (q ∷ ps)

module _ {F : Type 0} where
  -- PublishEvent, as far as the hub.
  unfoldable pub publish_event : Event → Server F → Server F
  publish_event e s = record s { published = e ∷ s.published }

  unfoldable pub notify_event : Event → Server F → Server F
  notify_event e s = record s { notified = e ∷ s.notified }

  -- An event is recorded; an error is only logged.
  unfoldable pub record_event : Event → Server F → Server F
  record_event e s = record s { store = (insert_event e s.store).1 }

  -- `s.allowlist != nil && s.allowlist.Contains(ip)`.
  unfoldable pub allowlisted : Net → String → Server F → Bool
  allowlisted net ip s = elim s.allowlist [ none ↦ false | some al ↦ contains net al ip ]

module _ (net : Net) where
  -- normalizeIP.
  unfoldable pub normalize_ip : String → String
  normalize_ip s = elim (net.parse_ip s) [ none ↦ s | some i ↦ net.show_ip i ]

  abbrev peer : String → String
  peer remote_addr = normalize_ip (or_default (net.split_host remote_addr) remote_addr)

  abbrev last_hop : String → String
  last_hop xff = normalize_ip (trim_space (last_part (split b',' xff)))

  -- clientIP, of a request's RemoteAddr and its X-Forwarded-For header.
  unfoldable pub client_ip : String → String → String
  client_ip remote_addr xff =
      let host = peer remote_addr in
      if not (xff == "") && is_private net host && is_some (net.parse_ip (last_hop xff))
      then last_hop xff
      else host

pub data BanFailure : Type 0 where
  not_recorded not_blocked : BanFailure

module _ {F : Type 0} (resp : Responder F) where
  -- Record in the store first; roll back if the firewall operation fails.
  unfoldable pub record_and_ban : ℕ → String → String → ℕ → Server F → Option BanFailure × Server F
  record_and_ban now ip reason expires_at s =
      let (e, st) = ban_ip (unix now) ip resp.name reason expires_at s.store in
      if is_some e
      then (some not_recorded, record s { store = st })
      else (let (blocked, f) = resp.ban ip s.firewall in
          if blocked
          then (none, record s { store = st; firewall = f })
          else (some not_blocked, record s { store = (unban_ip (unix now) ip st).1; firewall = f }))
