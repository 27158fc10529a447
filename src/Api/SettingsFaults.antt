-- ===== src/Api/SettingsFaults.antt =====
-- A fault of handlePostSettings of internal/api/api.go: two requests at once.
use logfort.Prelude.{
  ℕ, ◌≤◌, String, ◌≡◌, refl, ap, ◌∙◌, inr, Bool, true, false, Option, none, some, [], arith, eqb,
  or_default, length, ℤ, pos, ◌≤ℤ◌,
}
use logfort.Go.Net.{Net}
use logfort.Go.Format.{format_int}
use logfort.Prelude.Assoc.{lookup, lookup-insert_self, lookup-insert}
use logfort.Config.Overlay.{Config, setting, supported_language, positive}
use logfort.F2b.Manager.{JailSettings}
use logfort.Notify.Dispatcher.{Built, bad_rules, none_needed, built, new_dispatcher}
use logfort.Api.Server.{Reply}
use logfort.Api.Settings.{
  SettingsRequest, Draft, draft_of, put_channels, put_rules, put_language, put_window, put_between,
  put_ignore_ips,
}
use logfort.Api.SettingsHandler.{
  Panel, notify_config, changes_f2b, save_general, set_settings, with_dispatcher, post_draft,
  persist, apply_f2b,
}

abbrev pub empty_request : SettingsRequest
empty_request = record {
  channels = [];
  rules = none;
  retention_days = none;
  language = none;
  auto_ban_enabled = none;
  auto_ban_threshold = none;
  auto_ban_window = none;
  auto_ban_ban_time = none;
  ignore_ips = none;
  f2b_max_retry = none;
  f2b_ban_time = none;
  f2b_find_time = none;
}

abbrev pub language_request : String → SettingsRequest
language_request v = record empty_request { language = some v }

abbrev pub retention_request : ℤ → SettingsRequest
retention_request n = record empty_request { retention_days = some n }

module _ {J : Type 0} (set_jail : JailSettings → J → Bool × J) (net : Net)
    (parse_duration : String → Option ℤ) where
  -- What a request does that has read the configuration before another was saved.
  abbrev pub post_late : ℕ → SettingsRequest → Panel J → Panel J → Reply × Panel J
  post_late now q before p =
      post_draft set_jail net parse_duration true now q
        (draft_of net parse_duration q before.env_cfg before.cfg) p

  abbrev pub usable : Built → Bool
  usable bad_rules = false
  usable none_needed = true
  usable (built b) = true

  abbrev draft : Config → Draft
  draft c = record { proposed = c; to_save = []; notify_changed = false }

  language_draft :
      (v : String) (env cfg : Config)
      → supported_language v ≡ true
      → draft_of net parse_duration (language_request v) env cfg
        ≡ inr (draft (record cfg { language = v }))
  unfolding draft_of put_channels put_rules put_language put_window put_between put_ignore_ips
      lookup
  language_draft v env cfg s = rw s refl

  retention_draft :
      (n : ℤ) (env cfg : Config)
      → positive n ≡ true
      → draft_of net parse_duration (retention_request n) env cfg
        ≡ inr (draft (record cfg { retention_days = n }))
  unfolding draft_of put_channels put_rules put_language put_window put_between put_ignore_ips
      lookup
  retention_draft n env cfg s = rw s refl

  saved_plainly :
      (q : SettingsRequest) (d : Draft) (b : Built) (p : Panel J)
      → (save_general q d).notify_changed ≡ false
      → changes_f2b q ≡ false
      → usable b ≡ true
      → 1 ≤ length (save_general q d).to_save
      → let (r, p') = with_dispatcher set_jail net parse_duration true q d b p in
        (r.status ≡ 200)
        × (p'.cfg ≡ (save_general q d).proposed)
        × (p'.settings ≡ set_settings (save_general q d).to_save p.settings)
  unfolding persist apply_f2b
  saved_plainly q d bad_rules p u c a l = absurd (ground (arith, a))
  saved_plainly q d none_needed p u c a l =
      let some_saved : eqb (length (save_general q d).to_save) 0 ≡ false = ground arith in
      rw (c, some_saved, u) (refl, refl, refl)
  saved_plainly q d (built b) p u c a l =
      let some_saved : eqb (length (save_general q d).to_save) 0 ≡ false = ground arith in
      rw (c, some_saved, u) (refl, refl, refl)

  -- Two requests that read the configuration before either has saved, one for a language and one for days of
  -- retention: both are saved, the table has the new language, and the configuration in force has the
  -- old one.
  pub lost_update_lem :
      (now : ℕ) (v : String) (n : ℤ) (p : Panel J)
      → supported_language v ≡ true
      → pos 1 ≤ℤ n
      → usable (new_dispatcher parse_duration now (notify_config p.cfg)) ≡ true
      → let (r, p1) = post_late now (language_request v) p p in
        let (s, p2) = post_late now (retention_request n) p p1 in
        (r.status ≡ 200)
        × (s.status ≡ 200)
        × (setting "general.language" p2.settings ≡ v)
        × (p2.cfg.language ≡ p.cfg.language)
        × (p2.cfg.retention_days ≡ n)
  unfolding set_settings save_general
  lost_update_lem now v n p s k a =
      let above : positive n ≡ true = ground arith in
      let d1 = draft (record p.cfg { language = v }) in
      let d2 = draft (record p.cfg { retention_days = n }) in
      let fresh = new_dispatcher parse_duration now (notify_config p.cfg) in
      let e1 =
        ap (λ x. post_draft set_jail net parse_duration true now (language_request v) x p)
          (language_draft v p.env_cfg p.cfg s) in
      let p1 = (post_late now (language_request v) p p).1 in
      let e2 =
        ap (λ x. post_draft set_jail net parse_duration true now (retention_request n) x p1)
          (retention_draft n p.env_cfg p.cfg above) in
      let (r1, c1, s1) = saved_plainly (language_request v) d1 fresh p refl refl a (omega arith) in
      let (r2, c2, s2) =
        saved_plainly (retention_request n) d2 fresh p1 refl refl a (omega arith) in
      let stored1 = ap (λ x. x.1.settings) e1 ∙ s1 in
      let stored2 = ap (λ x. x.1.settings) e2 ∙ s2 in
      let cfg2 = ap (λ x. x.1.cfg) e2 ∙ c2 in
      (
        ap (λ x. x.0.status) e1 ∙ r1,
        ap (λ x. x.0.status) e2 ∙ r2,
        ap (setting "general.language") stored2
            ∙ ap (λ o. or_default o "")
                (lookup-insert "general.retention_days" "general.language" (format_int n)
                  p1.settings)
            ∙ ap (setting "general.language") stored1
            ∙ ap (λ o. or_default o "") (lookup-insert_self "general.language" v p.settings),
        ap (λ c. c.language) cfg2,
        ap (λ c. c.retention_days) cfg2,
      )
