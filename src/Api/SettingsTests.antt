-- ===== src/Api/SettingsTests.antt =====
-- Requests to a panel with one channel, whose dispatcher is number 0.
use logfort.Prelude.{
  ℕ, zero, suc, ◌+◌, ◌-◌, ◌*◌, ◌/◌, ◌%◌, ◌^◌, ◌≤◌, ◌<◌, String, ◌≡◌, refl, sym, ap, ◌∙◌, ◌≢◌, ◌↔◌,
  ◌⊎◌, inl, inr, Bool, true, false, not, ◌&&◌, ◌||◌, Option, none, some, List, [], ◌∷◌, ◌++◌, map,
  arith, ◌==◌, eq_iff, eq_refl, ltb, leb, eqb, if◌then◌else◌, ltb→lt, lt→ltb, leb→le, le→leb,
  eqb_iff, ne→==, tests, Bool-cases, Option-cases, is_some, or_default, length, take, drop,
  length-append, select, count_where, any_where, update_where, All, count_where-of_none,
  count_where-of_any, count_where-update, count_where-update_same, count_where-update_none,
  count_where-select, count_where-select_same, All-select, All-mono, ℤ, pos, negsuc, pos_part,
  neg_part, sub_ℕ, ◌≤ℤ◌, ltb_ℤ, eqb_ℤ, eqb_ℤ→eq, count_where-of_select, length-select,
  length-select-not, All-take, All-drop, length-take, length-drop, min,
}
use logfort.Go.Sample.{sample_net}
use logfort.Prelude.Assoc.{lookup}
use logfort.Config.Overlay.{Config, setting, split_list}
use logfort.F2b.Manager.{JailSettings}
use logfort.Notify.Dispatcher.{Built, Dispatcher, built, new_dispatcher}
use logfort.Api.Server.{reply}
use logfort.Api.Settings.{
  SettingsRequest, asks, draft_of, put_channels, put_channel, put_rules, put_language, put_window,
  put_between, put_ignore_ips,
}
use logfort.Api.SettingsHandler.{Panel, notify_config, save_general, handle_post_settings}
use logfort.Api.SettingsFaults.{
  empty_request, language_request, retention_request, post_late, lost_update_lem,
}

abbrev any_duration : String → Option ℤ
any_duration s = if s == "" then none else some (pos 60)

abbrev set_all : JailSettings → JailSettings → Bool × JailSettings
set_all s j = (true, s)

abbrev config : Config
config = record {
  channels = ("notify.slack.url", "https://s") ∷ ("notify.ntfy.url", "") ∷ [];
  notify_rules = "ban" ∷ [];
  extra_ignore_ips = [];
  retention_days = pos 90;
  language = "en";
  auto_ban_enabled = false;
  auto_ban_threshold = pos 50;
  auto_ban_window = "1h";
  auto_ban_ban_time = pos 86400;
  f2b_max_retry = pos 0;
  f2b_ban_time = pos 0;
  f2b_find_time = pos 0;
}

abbrev panel : Panel JailSettings
panel = record {
  cfg = config;
  env_cfg = record config { channels = []; notify_rules = [] };
  settings = [];
  allowlist = none;
  jail = none;
  made = 1;
  running = 0 ∷ [];
  active = some 0;
}

abbrev change : SettingsRequest
change = record empty_request {
  channels = ("ntfy_url", some "https://n") ∷ [];
  rules = some "ban, sudo";
  auto_ban_threshold = some (pos 7);
}

saved_change :
    let (r, p) = handle_post_settings set_all sample_net any_duration true 5 (asks change) panel in
    (r.status ≡ 200)
    × (setting "notify.ntfy.url" p.cfg.channels ≡ "https://n")
    × (setting "notify.rules" p.settings ≡ "ban, sudo")
    × (setting "autoban.threshold" p.settings ≡ "7")
    × (p.active ≡ some 1)
    × (p.running ≡ 1 ∷ [])
unfolding handle_post_settings put_channel draft_of put_channels put_rules put_language put_window
    put_between put_ignore_ips lookup new_dispatcher logfort.Notify.Dispatcher.build_from
    logfort.Notify.Dispatcher.notifiers_of logfort.Notify.Parse.parse_rules save_general
    logfort.Go.Strings.trim_space logfort.Notify.Parse.parse_rule split_list
    logfort.Go.Strings.split logfort.Api.SettingsHandler.persist
    logfort.Api.SettingsHandler.apply_f2b logfort.Api.SettingsHandler.set_settings
    logfort.Prelude.Assoc.insert logfort.Go.Format.format_int
    logfort.Api.SettingsHandler.swap_dispatcher logfort.Api.SettingsHandler.commit
saved_change = (refl, refl, refl, refl, refl, refl)

-- Saving fails, and dispatcher 1 runs beside 0.
fresh_runs_on :
    handle_post_settings set_all sample_net any_duration false 5
      (asks (language_request "ru"))
      panel
    ≡ (reply 500 "failed to save settings", record panel { made = 2; running = 1 ∷ 0 ∷ [] })
unfolding handle_post_settings logfort.Api.SettingsHandler.persist
    logfort.Api.SettingsHandler.apply_f2b draft_of put_channels put_rules put_language put_window
    put_between put_ignore_ips lookup new_dispatcher logfort.Notify.Dispatcher.build_from
    logfort.Notify.Dispatcher.notifiers_of logfort.Notify.Parse.parse_rules save_general
    logfort.Go.Strings.trim_space logfort.Notify.Parse.parse_rule
fresh_runs_on = refl

lost_update_example :
    let (r, p1) = post_late set_all sample_net any_duration 5 (language_request "ru") panel panel in
    let (s, p2) =
      post_late set_all sample_net any_duration 5 (retention_request (pos 30)) panel p1 in
    (r.status ≡ 200)
    × (s.status ≡ 200)
    × (setting "general.language" p2.settings ≡ "ru")
    × (p2.cfg.language ≡ "en")
    × (p2.cfg.retention_days ≡ pos 30)
unfolding new_dispatcher logfort.Notify.Parse.parse_rules logfort.Go.Strings.trim_space
    logfort.Notify.Dispatcher.notifiers_of lookup
lost_update_example =
    lost_update_lem set_all sample_net any_duration 5 "ru" (pos 30) panel refl (omega arith) refl
