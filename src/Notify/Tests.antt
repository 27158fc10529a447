-- ===== src/Notify/Tests.antt =====
-- Runs of the rules, of a dispatcher and of the digests' schedule.
use logfort.Prelude.{
  ℕ, zero, suc, ◌+◌, ◌-◌, ◌*◌, ◌/◌, ◌%◌, ◌^◌, ◌≤◌, ◌<◌, String, ◌≡◌, refl, sym, ap, ◌∙◌, ◌≢◌, ◌↔◌,
  ◌⊎◌, inl, inr, Bool, true, false, not, ◌&&◌, ◌||◌, Option, none, some, List, [], ◌∷◌, ◌++◌, map,
  arith, ◌==◌, eq_iff, eq_refl, ltb, leb, eqb, if◌then◌else◌, ltb→lt, lt→ltb, leb→le, le→leb,
  eqb_iff, ne→==, tests, Bool-cases, Option-cases, is_some, or_default, length, take, drop,
  length-append, select, count_where, any_where, update_where, All, count_where-of_none,
  count_where-of_any, count_where-update, count_where-update_same, count_where-update_none,
  count_where-select, count_where-select_same, All-select, All-mono, ℤ, pos, negsuc, pos_part,
  neg_part, sub_ℕ, ◌≤ℤ◌, ltb_ℤ, eqb_ℤ, eqb_ℤ→eq, count_where-of_select, length-select,
  length-select-not, All-take, All-drop, length-take, length-drop, min,
}
use logfort.Store.Rows.{SqliteStore}
use logfort.Store.Events.{insert_event, insert_row, mirror, count_ip_events, is_primary}
use logfort.Parse.Event.{Event, event_of}
use logfort.Prelude.Assoc.{lookup}
use logfort.Notify.Rules.{Fmt, Message, Rule, threshold_rule, ban_rule, match_rule}
use logfort.Notify.RuleLaws.{
  overlapping_alerts, overlapping_alerts_lem, Arrival, threshold_alerts, Spaced,
  threshold_alerts-Spaced,
}
use logfort.Notify.Parse.{DigestSchedule, parse_rules}
use logfort.Notify.ParseLaws.{Readable}
use logfort.Go.Strings.{trim_space}
use logfort.Notify.Dispatcher.{NotifyConfig, Dispatcher, built, notifiers_of, new_dispatcher}
use logfort.Notify.DispatcherLaws.{Channels, new_dispatcher_lem}
use logfort.Notify.Digest.{next_firing, next_firing_lem, period, weekday, day, digest_second}

abbrev plain : Fmt
plain = record { quoted = λ s. s; number = λ n. "n"; duration = λ n. "d" }

abbrev hour : ℕ
hour = 3_600_000_000_000

-- One failed password at second 7000.
abbrev tried : SqliteStore
tried =
    (insert_event (event_of 7000 "8.8.8.8" "failed_password" "sshd")
      (record { events = []; bans = []; settings = []; faults = [] })).1

abbrev arrival : ℕ → Arrival
arrival s = record {
  now = s * 1_000_000_000;
  event = event_of s "8.8.8.8" "failed_password" "sshd";
  store = tried;
}

abbrev arrivals : List Arrival
arrivals = arrival 7000 ∷ arrival 7010 ∷ arrival 10_600 ∷ []

threshold_twice :
    threshold_alerts plain 1 hour "8.8.8.8" arrivals []
    ≡ 7_000_000_000_000 ∷ 10_600_000_000_000 ∷ []
unfolding threshold_alerts insert_event insert_row mirror logfort.Notify.Rules.match_threshold
    logfort.Notify.Rules.threshold_loads logfort.Notify.Rules.threshold_counted lookup
    count_ip_events logfort.Store.Events.row_of is_primary logfort.Prelude.Assoc.insert
threshold_twice = refl

threshold_alerts-Spaced_example :
    Spaced plain 1 hour none (threshold_alerts plain 1 hour "8.8.8.8" arrivals [])
unfolding lookup
threshold_alerts-Spaced_example = threshold_alerts-Spaced plain 1 hour "8.8.8.8" arrivals []

abbrev at_once : List Arrival
at_once = arrival 7000 ∷ arrival 7001 ∷ []

overlapping_alerts_example : overlapping_alerts plain 1 hour at_once [] ≡ 2
unfolding lookup insert_event insert_row mirror logfort.Store.Events.row_of is_primary
overlapping_alerts_example =
    overlapping_alerts_lem plain 1 hour "8.8.8.8" at_once []
      (λ p. ground (arith, (eq_iff "8.8.8.8" "").1 p)) refl
      ((refl, refl, omega arith), ((refl, refl, omega arith), tt))

abbrev from : String → Event
from c = record (event_of 1 "8.8.8.8" "failed_password" "sshd") {
  geo = record { country = c; city = ""; lat = pos 0; lon = pos 0; asn = "" };
}

abbrev hours : String → Option ℤ
hours s = if s == "1h" then some (pos 3_600_000_000_000) else none

abbrev entries : List String
entries = " ban" ∷ "threshold: 5 / 1h" ∷ "digest:daily" ∷ []

abbrev read_rules : List Rule
read_rules = ban_rule ∷ threshold_rule 5 3_600_000_000_000 [] ∷ []

abbrev read_digests : List DigestSchedule
read_digests = record { label = "daily"; window = "24h" } ∷ []

entries_read : parse_rules hours entries ≡ some (read_rules, read_digests)
unfolding parse_rules logfort.Go.Strings.trim_space logfort.Go.Strings.cut_prefix
    logfort.Go.Strings.cut logfort.Go.Strconv.parse_int
entries_read = refl

abbrev config : NotifyConfig
config = record {
  webhook_url = " https://a ";
  telegram_token = "t";
  telegram_chat = "";
  discord_url = "";
  slack_url = "";
  ntfy_url = "https://b";
  gotify_url = "";
  gotify_token = "";
  smtp_host = "";
  smtp_from = "";
  smtp_to = "";
  rules = entries;
}

abbrev two_channels : Dispatcher
two_channels = record {
  notifiers = "webhook" ∷ "ntfy" ∷ [];
  rules = read_rules;
  digests = read_digests;
  started_at = 5;
}

config_built : new_dispatcher hours 5 config ≡ built two_channels
unfolding new_dispatcher parse_rules logfort.Go.Strings.trim_space logfort.Go.Strings.cut_prefix
    logfort.Go.Strings.cut logfort.Go.Strconv.parse_int notifiers_of
config_built = refl

new_dispatcher_example :
    All (λ s. Readable hours (trim_space s)) config.rules
    × Channels config two_channels.notifiers
    × (1 ≤ length two_channels.notifiers)
    × (1 ≤ length two_channels.rules + length two_channels.digests)
    × (length two_channels.rules + length two_channels.digests ≡ length config.rules)
    × (two_channels.started_at ≡ 5)
new_dispatcher_example = new_dispatcher_lem hours 5 config two_channels config_built

abbrev note : Message
note = record { title = "t"; body = "b"; ip = ""; event_type = "test"; country = ""; ts = 1 }

abbrev weekly : DigestSchedule
weekly = record { label = "weekly"; window = "7d" }

-- From Thursday, 1 January 1970, to Monday the 5th.
next_monday : next_firing 1 weekly 0 ≡ 4 * 86400 + 32400
unfolding next_firing
next_monday = refl

next_firing_example :
    let t = next_firing 1 weekly 1_000_000 in
    (1_000_000 < t)
    × (t ≤ 1_000_000 + period weekly)
    × (t % day ≡ digest_second)
    × ((weekly.label == "weekly") ≡ true → weekday (t / day) ≡ 1)
next_firing_example = next_firing_lem 0 weekly 1_000_000
