-- ===== src/Notify/Dispatcher.antt =====
-- internal/notify/dispatcher.go: which channels a dispatcher gets, and what dispatch sends to them. The
-- goroutine of Notify is left out; `sent` are the calls of Send, the latest first, and `sends` says
-- whether a call to a channel succeeds.
use logfort.Prelude.{
  ℕ, ◌*◌, String, Bool, not, ◌&&◌, ◌||◌, Option, none, some, List, [], ◌∷◌, ◌==◌, eqb,
  if◌then◌else◌, is_some, length, ℤ, pos, sub_ℕ, ltb_ℤ,
}
use logfort.Go.Strings.{trim_space}
use logfort.Store.Rows.{SqliteStore}
use logfort.Parse.Event.{Event}
use logfort.Api.RateLimiter.{unit}
use logfort.Notify.Rules.{Fmt, Message, Rule, match_rule}
use logfort.Notify.Parse.{DigestSchedule, parse_rules}

-- The fields of config.Config that New reads.
pub record NotifyConfig : Type 0 where
  pub webhook_url : String
  pub telegram_token : String
  pub telegram_chat : String
  pub discord_url : String
  pub slack_url : String
  pub ntfy_url : String
  pub gotify_url : String
  pub gotify_token : String
  pub smtp_host : String
  pub smtp_from : String
  pub smtp_to : String
  pub rules : List String

pub record Dispatcher : Type 0 where
  -- The names of the channels.
  pub notifiers : List String
  pub rules : List Rule
  pub digests : List DigestSchedule
  pub started_at : ℕ

abbrev pub given : String → Bool
given s = not (trim_space s == "")

abbrev pub channel : Bool → String → List String → List String
channel b name rest = if b then name ∷ rest else rest

unfoldable pub notifiers_of : NotifyConfig → List String
notifiers_of c = channel (given c.webhook_url) "webhook" (
    channel (given c.telegram_token && given c.telegram_chat) "telegram" (
      channel (given c.discord_url) "discord" (
        channel (given c.slack_url) "slack" (
          channel (given c.ntfy_url) "ntfy" (
            channel (given c.gotify_url && given c.gotify_token) "gotify" (
              channel (given c.smtp_host && (given c.smtp_from && given c.smtp_to)) "email" []))))))

-- What New returns: an error, no dispatcher, or one.
pub data Built : Type 0 where
  bad_rules : Built
  none_needed : Built
  built : Dispatcher → Built

-- The rules are checked even where no channel is configured.
unfoldable pub build_from : ℕ → NotifyConfig → Option (List Rule × List DigestSchedule) → Built
build_from now c none = bad_rules
build_from now c (some (rules, digests)) =
    if eqb (length (notifiers_of c)) 0 || eqb (length c.rules) 0
    then none_needed
    else built
        (record { notifiers = notifiers_of c; rules = rules; digests = digests; started_at = now })

unfoldable pub new_dispatcher : (String → Option ℤ) → ℕ → NotifyConfig → Built
unfolding build_from
new_dispatcher parse_duration now c = build_from now c (parse_rules parse_duration c.rules)

abbrev pub Sent : Type 0
Sent = List (String × Message)

-- One message to every channel, whatever fails.
unfoldable pub send_each : List String → Message → Sent → Sent
send_each [] m sent = sent
send_each (n ∷ ns) m sent = send_each ns m ((n, m) ∷ sent)

-- SendTest and SendAlert: the first channel that failed, and the calls.
unfoldable pub send_all :
    (String → Message → Bool) → List String → Message → Option String → Sent → Option String × Sent
send_all sends [] m first sent = (first, sent)
send_all sends (n ∷ ns) m first sent =
    let failed = if sends n m || is_some first then first else some n in
    send_all sends ns m failed ((n, m) ∷ sent)

abbrev deliver : List String → Option Message → Sent → Sent
deliver ns none sent = sent
deliver ns (some m) sent = send_each ns m sent

module _ (fmt : Fmt) where
  -- The rules of a dispatcher on one event, in order.
  unfoldable pub dispatch_rules :
      List String → ℕ → Event → List Rule → SqliteStore × Sent → List Rule × SqliteStore × Sent
  unfolding send_each
  dispatch_rules ns now ev [] (st, sent) = ([], st, sent)
  dispatch_rules ns now ev (r ∷ rs) (st, sent) =
      let (m, r', st') = match_rule fmt now ev r st in
      let (rs', st'', sent') = dispatch_rules ns now ev rs (st', deliver ns m sent) in
      (r' ∷ rs', st'', sent')

  -- An event of more than a minute before the start is not notified of.
  abbrev pub replayed : Dispatcher → Event → Bool
  replayed d ev = ltb_ℤ (pos (ev.ts * unit)) (sub_ℕ d.started_at (60 * unit))

  unfoldable pub dispatch :
      ℕ → Event → Dispatcher → SqliteStore × Sent → Dispatcher × SqliteStore × Sent
  unfolding dispatch_rules
  dispatch now ev d (st, sent) =
      if replayed d ev
      then (d, st, sent)
      else (let (rules, st', sent') = dispatch_rules d.notifiers now ev d.rules (st, sent) in
          (record d { rules = rules }, st', sent'))
