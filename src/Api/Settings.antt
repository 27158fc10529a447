-- ===== src/Api/Settings.antt =====
-- The first part of handlePostSettings of internal/api/api.go: the fields of a body that package json has
-- decoded are checked and put into a draft. A message is without the text of an inner error.
use logfort.Prelude.{
  ◌*◌, String, ◌⊎◌, inl, inr, Bool, true, false, not, ◌||◌, Option, none, some, List, [], ◌∷◌, map,
  ◌==◌, eqb, if◌then◌else◌, is_some, or_default, length, ℤ, pos, ltb_ℤ,
}
use Prim.Native.String.{◌++◌ as str_append}
use logfort.Go.Format.{join}
use logfort.Go.Net.{Net}
use logfort.Prelude.Assoc.{lookup}
use logfort.Config.Overlay.{Config, setting, split_list, positive, supported_language}
use logfort.Responder.Allowlist.{parse_allowlist}
use logfort.Api.Server.{Reply, reply, max_ban_duration_secs}

-- The fields that the body has; one of a channel is `none` where it is no text.
pub record SettingsRequest : Type 0 where
  pub channels : List (String × Option String)
  pub rules : Option String
  pub retention_days : Option ℤ
  pub language : Option String
  pub auto_ban_enabled : Option Bool
  pub auto_ban_threshold : Option ℤ
  pub auto_ban_window : Option String
  pub auto_ban_ban_time : Option ℤ
  pub ignore_ips : Option String
  pub f2b_max_retry : Option ℤ
  pub f2b_ban_time : Option ℤ
  pub f2b_find_time : Option ℤ

pub data Body : Type 0 where
  unreadable invalid_json : Body
  asks : SettingsRequest → Body

-- notifySettingJSONKeys.
abbrev pub notify_setting_json_keys : List (String × String)
notify_setting_json_keys =
    ("telegram_token", "notify.telegram.token")
    ∷ ("telegram_chat_id", "notify.telegram.chat_id")
    ∷ ("discord_url", "notify.discord.url")
    ∷ ("webhook_url", "notify.webhook.url")
    ∷ ("slack_url", "notify.slack.url")
    ∷ ("ntfy_url", "notify.ntfy.url")
    ∷ ("ntfy_token", "notify.ntfy.token")
    ∷ ("gotify_url", "notify.gotify.url")
    ∷ ("gotify_token", "notify.gotify.token")
    ∷ ("smtp_host", "notify.smtp.host")
    ∷ ("smtp_user", "notify.smtp.user")
    ∷ ("smtp_pass", "notify.smtp.pass")
    ∷ ("smtp_from", "notify.smtp.from")
    ∷ ("smtp_to", "notify.smtp.to")
    ∷ []

-- A configuration under way, and the map toSave.
pub record Draft : Type 0 where
  pub proposed : Config
  pub to_save : List (String × String)
  pub notify_changed : Bool

-- What is refused has a status and a message.
abbrev pub Checked : Type 0
Checked = Reply ⊎ Draft

abbrev pub then_check : Checked → (Draft → Checked) → Checked
then_check (inl r) f = inl r
then_check (inr d) f = f d

-- *keys[key] = value.
abbrev pub set_field : String → String → List (String × String) → List (String × String)
set_field key value fields = map (λ f. if f.0 == key then (f.0, value) else f) fields

abbrev pub save : String → String → Draft → Draft
save key value d = record d { to_save = (key, value) ∷ d.to_save }

-- A channel's field; one that the environment has is left as it is.
unfoldable pub put_channel : Config → String → String → Draft → Draft
put_channel env key value d =
    let changed = record d { notify_changed = true } in
    if not (setting key env.channels == "")
    then changed
    else save key value (record changed {
      proposed = record d.proposed { channels = set_field key value d.proposed.channels };
    })

unfoldable pub put_channels :
    Config → List (String × Option String) → List (String × String) → Draft → Checked
unfolding put_channel
put_channels env fields [] d = inr d
put_channels env fields ((json, key) ∷ keys) d = elim (lookup json fields) [
  | none ↦ put_channels env fields keys d
  | some none ↦ inl (reply 400 (str_append json " must be a string"))
  | some (some v) ↦ put_channels env fields keys (put_channel env key v d)
]

unfoldable pub put_rules : Config → Option String → Draft → Draft
put_rules env none d = d
put_rules env (some raw) d =
    let changed = record d { notify_changed = true } in
    if eqb (length env.notify_rules) 0
    then save "notify.rules" raw
        (record changed { proposed = record d.proposed { notify_rules = split_list raw } })
    else changed

-- A field of the draft's configuration.
abbrev pub propose : (Config → Config) → Draft → Draft
propose f d = record d { proposed = f d.proposed }

abbrev pub above_zero_or : Option ℤ → ℤ → ℤ
above_zero_or none old = old
above_zero_or (some n) old = if positive n then n else old

unfoldable pub put_language : Option String → Draft → Checked
put_language none d = inr d
put_language (some v) d =
    if supported_language v
    then inr (propose (λ c. record c { language = v }) d)
    else inl (reply 400 "unsupported language (want en or ru)")

-- A number of an interval, or the refusal.
unfoldable pub put_between : ℤ → ℤ → String → (ℤ → Config → Config) → Option ℤ → Draft → Checked
put_between low high refusal set none d = inr d
put_between low high refusal set (some n) d =
    if ltb_ℤ n low || ltb_ℤ high n then inl (reply 400 refusal) else inr (propose (set n) d)

-- valOrZero.
abbrev pub val_or_zero : Option ℤ → ℤ
val_or_zero o = or_default o (pos 0)

module _ (net : Net) (parse_duration : String → Option ℤ) where
  unfoldable pub put_window : Option String → Draft → Checked
  put_window none d = inr d
  put_window (some w) d =
      if is_some (parse_duration w)
      then inr (propose (λ c. record c { auto_ban_window = w }) d)
      else inl (reply 400 "invalid autoban_window")

  unfoldable pub put_ignore_ips : Option String → Draft → Checked
  put_ignore_ips none d = inr d
  put_ignore_ips (some raw) d =
      let entries = split_list raw in
      if is_some (parse_allowlist net entries)
      then inr (
          save "security.ignore_ips" (join "," entries)
            (propose (λ c. record c { extra_ignore_ips = entries }) d))
      else inl (reply 400 "invalid ignore_ips")

  -- The retention of days, and the fields of automatic bans that are not refused.
  abbrev pub put_plain : SettingsRequest → Draft → Draft
  put_plain q d =
      propose (λ c. record c { retention_days = above_zero_or q.retention_days c.retention_days }) d

  abbrev pub put_auto : SettingsRequest → Draft → Draft
  put_auto q d =
      propose
        (λ c. record c {
          auto_ban_enabled = or_default q.auto_ban_enabled c.auto_ban_enabled;
          auto_ban_threshold = above_zero_or q.auto_ban_threshold c.auto_ban_threshold;
        })
        d

  -- Everything up to notify.New: the draft, or the refusal.
  unfoldable pub draft_of : SettingsRequest → Config → Config → Checked
  draft_of q env cfg =
      then_check
        (put_channels env q.channels notify_setting_json_keys
          (record { proposed = cfg; to_save = []; notify_changed = false }))
        (λ d. then_check (put_language q.language (put_plain q (put_rules env q.rules d))) (λ d.
          then_check (put_window q.auto_ban_window (put_auto q d)) (λ d.
            then_check
              (put_between (pos 0) (pos max_ban_duration_secs)
                "autoban_bantime_secs must be between 0 (permanent) and 31536000 (365 days)"
                (λ n c. record c { auto_ban_ban_time = n }) q.auto_ban_ban_time d)
              (λ d. then_check (put_ignore_ips q.ignore_ips d) (λ d.
                then_check
                  (put_between (pos 1) (pos 100) "f2b_maxretry must be between 1 and 100"
                    (λ n c. record c { f2b_max_retry = n }) q.f2b_max_retry d)
                  (λ d.
                    then_check
                      (put_between (pos 60) (pos (90 * 24 * 3600))
                        "f2b_bantime_secs must be between 60 (1 min) and 7776000 (90 days)"
                        (λ n c. record c { f2b_ban_time = n }) q.f2b_ban_time d)
                      (λ d.
                        put_between (pos 60) (pos (7 * 24 * 3600))
                          "f2b_findtime_secs must be between 60 (1 min) and 604800 (7 days)"
                          (λ n c. record c { f2b_find_time = n }) q.f2b_find_time d)))))))
