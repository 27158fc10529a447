-- ===== src/Api/SettingsHandler.antt =====
-- The rest of handlePostSettings, swapDispatcher of internal/api/api.go and SetSettings of
-- internal/store/sqlite.go. Dispatchers are numbered as they are made.
use logfort.Prelude.{
  ℕ, ◌+◌, String, inl, inr, Bool, true, false, not, ◌||◌, Option, none, some, List, [], ◌∷◌, eqb,
  if◌then◌else◌, is_some, length, select, ℤ,
}
use logfort.Go.Format.{format_int}
use logfort.Go.Net.{Net}
use logfort.Prelude.Assoc.{insert}
use logfort.Config.Overlay.{Config, setting}
use logfort.Responder.Allowlist.{Allowlist, set_extra}
use logfort.Notify.Dispatcher.{NotifyConfig, Built, bad_rules, built, new_dispatcher}
use logfort.F2b.Manager.{JailSettings}
use logfort.Api.Server.{Reply, reply}
use logfort.Api.Settings.{
  SettingsRequest, Body, unreadable, invalid_json, asks, Draft, Checked, save, val_or_zero,
  draft_of,
}

abbrev pub changes_f2b : SettingsRequest → Bool
changes_f2b q = is_some q.f2b_max_retry || (is_some q.f2b_ban_time || is_some q.f2b_find_time)

abbrev pub jail_settings : SettingsRequest → JailSettings
jail_settings q = record {
  max_retry = val_or_zero q.f2b_max_retry;
  ban_time_secs = val_or_zero q.f2b_ban_time;
  find_time_secs = val_or_zero q.f2b_find_time;
}

-- Where the field is in the body, the proposed value goes into the map.
abbrev pub save_if {ℓ} : {A : Type ℓ} → Option A → String → String → Draft → Draft
save_if none key value d = d
save_if (some _) key value d = save key value d

abbrev pub show_bool : Bool → String
show_bool true = "true"
show_bool false = "false"

-- The fields of toSave that are set after fail2ban has its settings.
unfoldable pub save_general : SettingsRequest → Draft → Draft
save_general q d =
    let c = d.proposed in
    save_if q.auto_ban_ban_time "autoban.bantime" (format_int c.auto_ban_ban_time) (
      save_if q.auto_ban_window "autoban.window" c.auto_ban_window (
        save_if q.auto_ban_threshold "autoban.threshold" (format_int c.auto_ban_threshold) (
          save_if q.auto_ban_enabled "autoban.enabled" (show_bool c.auto_ban_enabled) (
            save_if q.language "general.language" c.language (
              save_if q.retention_days "general.retention_days" (format_int c.retention_days) (
                save_if q.f2b_find_time "f2b.findtime" (format_int c.f2b_find_time) (
                  save_if q.f2b_ban_time "f2b.bantime" (format_int c.f2b_ban_time)
                    (save_if q.f2b_max_retry "f2b.maxretry" (format_int c.f2b_max_retry) d))))))))

-- SetSettings, where its transaction is committed.
unfoldable pub set_settings :
    List (String × String) → List (String × String) → List (String × String)
set_settings [] settings = settings
set_settings ((key, value) ∷ pairs) settings = insert key value (set_settings pairs settings)

-- The fields that New of internal/notify reads.
abbrev pub notify_config : Config → NotifyConfig
notify_config c =
    let of : String → String = λ key. setting key c.channels in
    record {
      webhook_url = of "notify.webhook.url";
      telegram_token = of "notify.telegram.token";
      telegram_chat = of "notify.telegram.chat_id";
      discord_url = of "notify.discord.url";
      slack_url = of "notify.slack.url";
      ntfy_url = of "notify.ntfy.url";
      gotify_url = of "notify.gotify.url";
      gotify_token = of "notify.gotify.token";
      smtp_host = of "notify.smtp.host";
      smtp_from = of "notify.smtp.from";
      smtp_to = of "notify.smtp.to";
      rules = c.notify_rules;
    }

-- `cfg` is the configuration in force, `settings` the table of settings, and `jail` the state of fail2ban where
-- its socket is there. Dispatchers are numbered; those of `running` are not stopped.
pub record Panel (J : Type 0) : Type 0 where
  pub cfg : Config
  pub env_cfg : Config
  pub settings : List (String × String)
  pub allowlist : Option Allowlist
  pub jail : Option J
  pub made : ℕ
  pub running : List ℕ
  pub active : Option ℕ

module _ {J : Type 0} where
  -- The dispatcher of notify.New starts its schedules.
  abbrev pub started : Built → Panel J → Option ℕ × Panel J
  started (built b) p = (some p.made, record p { made = p.made + 1; running = p.made ∷ p.running })
  started _ p = (none, p)

  -- Stop, which a nil dispatcher permits.
  abbrev pub stop_dispatcher : Option ℕ → Panel J → Panel J
  stop_dispatcher none p = p
  stop_dispatcher (some d) p = record p { running = select (λ e. not (eqb d e)) p.running }

  unfoldable pub swap_dispatcher : Option ℕ → Panel J → Panel J
  swap_dispatcher d p = record (stop_dispatcher p.active p) { active = d }

  module _ (set_jail : JailSettings → J → Bool × J) where
    abbrev pub jail_set : Bool × J → Panel J → Option Reply × Panel J
    jail_set (true, j) p = (none, record p { jail = some j })
    jail_set (false, j) p =
        (some (reply 502 "failed to apply fail2ban settings"), record p { jail = some j })

    -- The settings of the body, set in fail2ban, and the refusal where that fails.
    unfoldable pub apply_f2b : SettingsRequest → Panel J → Option Reply × Panel J
    apply_f2b q p = if not (changes_f2b q) then (none, p) else elim p.jail [
      | none ↦ (some (reply 502 "fail2ban is not reachable"), p)
      | some j ↦ jail_set (set_jail (jail_settings q) j) p
    ]

    module _ (net : Net) (parse_duration : String → Option ℤ) where
      -- The allowlist takes the extra entries over, where the body has them.
      abbrev pub relisted : Option String → List String → Option Allowlist → Option Allowlist
      relisted (some raw) entries (some al) = some ((set_extra net entries al).0)
      relisted _ entries al = al

      -- What follows a map that is saved.
      unfoldable pub commit : SettingsRequest → Draft → Option ℕ → Panel J → Reply × Panel J
      unfolding swap_dispatcher
      commit q d fresh p =
          let p' = record p {
            cfg = d.proposed;
            allowlist = relisted q.ignore_ips d.proposed.extra_ignore_ips p.allowlist;
          } in
          (
            reply 200 "saved",
            if d.notify_changed then swap_dispatcher fresh p' else stop_dispatcher fresh p',
          )

      -- SetSettings succeeds or not.
      unfoldable pub persist : Bool → SettingsRequest → Draft → Option ℕ → Panel J → Reply × Panel J
      unfolding commit set_settings
      persist succeeds q d fresh p =
          let written = record p { settings = set_settings d.to_save p.settings } in
          if eqb (length d.to_save) 0
          then commit q d fresh p
          else if succeeds
          then commit q d fresh written
          else (reply 500 "failed to save settings", p)

      abbrev pub after_f2b :
          Bool → SettingsRequest → Draft → Option ℕ → Option Reply × Panel J → Reply × Panel J
      after_f2b succeeds q d fresh (some r, p) = (r, stop_dispatcher fresh p)
      after_f2b succeeds q d fresh (none, p) = persist succeeds q (save_general q d) fresh p

      abbrev pub with_dispatcher :
          Bool → SettingsRequest → Draft → Built → Panel J → Reply × Panel J
      with_dispatcher succeeds q d bad_rules p = (reply 400 "invalid settings", p)
      with_dispatcher succeeds q d b p =
          let (fresh, p') = started b p in after_f2b succeeds q d fresh (apply_f2b q p')

      abbrev pub post_draft : Bool → ℕ → SettingsRequest → Checked → Panel J → Reply × Panel J
      post_draft succeeds now q (inl r) p = (r, p)
      post_draft succeeds now q (inr d) p =
          with_dispatcher succeeds q d
            (new_dispatcher parse_duration now (notify_config d.proposed)) p

      unfoldable pub handle_post_settings : Bool → ℕ → Body → Panel J → Reply × Panel J
      unfolding draft_of persist apply_f2b
      handle_post_settings succeeds now unreadable p =
          (reply 400 "request body too large or unreadable", p)
      handle_post_settings succeeds now invalid_json p = (reply 400 "invalid JSON", p)
      handle_post_settings succeeds now (asks q) p =
          post_draft succeeds now q (draft_of net parse_duration q p.env_cfg p.cfg) p
