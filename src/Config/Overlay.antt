-- ===== src/Config/Overlay.antt =====
-- SplitList and OverlaySettings of internal/config/config.go. The channels' fields are the list of their
-- settings keys and values, in place of the map of NotifySettingKeys. The map of settings answers the
-- empty text for a missing key.
use logfort.Prelude.{
  String, Bool, not, ◌&&◌, ◌||◌, none, some, List, [], ◌∷◌, ◌==◌, eqb, if◌then◌else◌, or_default,
  length, ℤ, pos, ltb_ℤ, eqb_ℤ,
}
use logfort.Go.Strings.{trim_space, split}
use logfort.Go.Strconv.{parse_int}
use logfort.Prelude.Assoc.{lookup}

pub record Config : Type 0 where
  -- The keys of NotifySettingKeys with the values of their fields.
  pub channels : List (String × String)
  pub notify_rules : List String
  pub extra_ignore_ips : List String
  pub retention_days : ℤ
  pub language : String
  pub auto_ban_enabled : Bool
  pub auto_ban_threshold : ℤ
  pub auto_ban_window : String
  pub auto_ban_ban_time : ℤ
  pub f2b_max_retry : ℤ
  pub f2b_ban_time : ℤ
  pub f2b_find_time : ℤ

-- NotifySettingKeys.
abbrev pub notify_setting_keys : List String
notify_setting_keys =
    "notify.telegram.token" ∷ "notify.telegram.chat_id" ∷ "notify.discord.url"
    ∷ "notify.webhook.url" ∷ "notify.slack.url" ∷ "notify.ntfy.url" ∷ "notify.ntfy.token"
    ∷ "notify.gotify.url" ∷ "notify.gotify.token" ∷ "notify.smtp.host" ∷ "notify.smtp.user"
    ∷ "notify.smtp.pass" ∷ "notify.smtp.from" ∷ "notify.smtp.to" ∷ []

-- The trimmed entries that are not empty.
abbrev pub trimmed : List String → List String
trimmed [] = []
trimmed (e ∷ es) = let rest = trimmed es in if trim_space e == "" then rest else trim_space e ∷ rest

unfoldable pub split_list : String → List String
split_list raw = trimmed (split b',' raw)

-- `s[key]` of a Go map.
abbrev pub setting : String → List (String × String) → String
setting key s = or_default (lookup key s) ""

unfoldable pub overlay_channels :
    List (String × String) → List (String × String) → List (String × String)
overlay_channels s [] = []
overlay_channels s ((key, field) ∷ rest) =
    (key, if field == "" then setting key s else field) ∷ overlay_channels s rest

-- A setting that is a number which passes a test replaces the old value.
abbrev pub number_or : (ℤ → Bool) → String → ℤ → ℤ
number_or test v old = elim (parse_int v) [ none ↦ old | some n ↦ if test n then n else old ]

abbrev pub positive : ℤ → Bool
positive n = ltb_ℤ (pos 0) n

abbrev pub not_negative : ℤ → Bool
not_negative n = not (ltb_ℤ n (pos 0))

-- A text setting, where it is not empty.
abbrev text_or : String → String → String
text_or v old = if v == "" then old else v

-- DefaultAutoBanThreshold, DefaultAutoBanWindow and DefaultLanguage.
abbrev pub default_auto_ban_threshold : ℤ
default_auto_ban_threshold = pos 50

abbrev pub default_auto_ban_window : String
default_auto_ban_window = "1h"

abbrev pub default_language : String
default_language = "en"

-- SupportedLanguages.
abbrev pub supported_language : String → Bool
supported_language v = v == "en" || v == "ru"

unfoldable pub overlay_settings : List (String × String) → Config → Config
unfolding overlay_channels split_list
overlay_settings s c =
    let language =
      (let v = setting "general.language" s in
        if not (v == "") && supported_language v then v else c.language) in
    let threshold = number_or positive (setting "autoban.threshold" s) c.auto_ban_threshold in
    let window = text_or (setting "autoban.window" s) c.auto_ban_window in
    let enabled = setting "autoban.enabled" s in
    record {
      channels = overlay_channels s c.channels;
      notify_rules =
          (if eqb (length c.notify_rules) 0
            then split_list (setting "notify.rules" s)
            else c.notify_rules);
      extra_ignore_ips = split_list (setting "security.ignore_ips" s);
      retention_days = number_or positive (setting "general.retention_days" s) c.retention_days;
      language = text_or language default_language;
      auto_ban_enabled = (if enabled == "" then c.auto_ban_enabled else enabled == "true");
      auto_ban_threshold =
          (if eqb_ℤ threshold (pos 0) then default_auto_ban_threshold else threshold);
      auto_ban_window = text_or window default_auto_ban_window;
      auto_ban_ban_time = number_or not_negative (setting "autoban.bantime" s) c.auto_ban_ban_time;
      f2b_max_retry = number_or positive (setting "f2b.maxretry" s) c.f2b_max_retry;
      f2b_ban_time = number_or positive (setting "f2b.bantime" s) c.f2b_ban_time;
      f2b_find_time = number_or positive (setting "f2b.findtime" s) c.f2b_find_time;
    }
