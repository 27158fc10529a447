-- ===== src/Api/SettingsDraft.antt =====
-- What the draft of handlePostSettings of internal/api/api.go holds.
use logfort.Prelude.{String, ◌≡◌, refl, sym, ap, ◌∙◌, inr, Option, none, some, or_default, ℤ, pos}
use logfort.Go.Net.{Net}
use logfort.Config.Overlay.{Config}
use logfort.Api.Server.{max_ban_duration_secs}
use logfort.Api.SettingsHandler.{save_if, save_general}
use logfort.Api.Settings.{SettingsRequest, Draft, above_zero_or, draft_of}
use logfort.Api.SettingsSteps.{
  sent_rules, sent_ips, with_sent, Between, then_check_lem, put_channels_lem, put_rules_lem,
  put_language_lem, put_between_lem, put_window_lem, put_ignore_ips_lem,
}

-- The numbers that were sent and are checked.
abbrev pub Bounded : SettingsRequest → Type 0
Bounded q =
    Between (pos 0) (pos max_ban_duration_secs) q.auto_ban_ban_time
    × Between (pos 1) (pos 100) q.f2b_max_retry
    × Between (pos 60) (pos 7776000) q.f2b_ban_time
    × Between (pos 60) (pos 604800) q.f2b_find_time

with_ban_time :
    (o : Option ℤ) (c : Config)
    → ◌≡◌ {A = Config}
        (elim o [ none ↦ c | some n ↦ record c { auto_ban_ban_time = n } ])
        (record c { auto_ban_ban_time = or_default o c.auto_ban_ban_time })
with_ban_time none c = refl
with_ban_time (some n) c = refl

with_max_retry :
    (o : Option ℤ) (c : Config)
    → ◌≡◌ {A = Config}
        (elim o [ none ↦ c | some n ↦ record c { f2b_max_retry = n } ])
        (record c { f2b_max_retry = or_default o c.f2b_max_retry })
with_max_retry none c = refl
with_max_retry (some n) c = refl

with_f2b_ban_time :
    (o : Option ℤ) (c : Config)
    → ◌≡◌ {A = Config}
        (elim o [ none ↦ c | some n ↦ record c { f2b_ban_time = n } ])
        (record c { f2b_ban_time = or_default o c.f2b_ban_time })
with_f2b_ban_time none c = refl
with_f2b_ban_time (some n) c = refl

with_find_time :
    (o : Option ℤ) (c : Config)
    → ◌≡◌ {A = Config}
        (elim o [ none ↦ c | some n ↦ record c { f2b_find_time = n } ])
        (record c { f2b_find_time = or_default o c.f2b_find_time })
with_find_time none c = refl
with_find_time (some n) c = refl

-- A draft is the configuration with what was sent, and the numbers that were sent are in bounds.
pub draft_of_lem :
    (net : Net) (parse_duration : String → Option ℤ) (q : SettingsRequest) (env cfg : Config)
    (d : Draft)
    → draft_of net parse_duration q env cfg ≡ inr d
    → (d.proposed ≡ with_sent q env cfg d.proposed.channels) × Bounded q
unfolding draft_of
draft_of_lem net parse_duration q env cfg d h =
    let (d1, e1, h1) = then_check_lem _ _ d h in
    let (d2, e2, h2) = then_check_lem _ _ d h1 in
    let (d3, e3, h3) = then_check_lem _ _ d h2 in
    let (d4, e4, h4) = then_check_lem _ _ d h3 in
    let (d5, e5, h5) = then_check_lem _ _ d h4 in
    let (d6, e6, h6) = then_check_lem _ _ d h5 in
    let (d7, e7, h7) = then_check_lem _ _ d h6 in
    let start = put_channels_lem env q.channels _ _ d1 e1 in
    let ruled = put_rules_lem env q.rules d1 in
    let spoken = put_language_lem q.language _ d2 e2 in
    let timed = put_window_lem net parse_duration q.auto_ban_window _ d3 e3 in
    let (b4, p4) = put_between_lem _ _ _ _ q.auto_ban_ban_time d3 d4 e4 in
    let listed = put_ignore_ips_lem net parse_duration q.ignore_ips d4 d5 e5 in
    let (b6, p6) = put_between_lem _ _ _ _ q.f2b_max_retry d5 d6 e6 in
    let (b7, p7) = put_between_lem _ _ _ _ q.f2b_ban_time d6 d7 e7 in
    let (b8, p8) = put_between_lem _ _ _ _ q.f2b_find_time d7 d h7 in
    let c1 = start in
    let c2 =
      ruled
      ∙ ap
          (λ (c : Config). record c {
            notify_rules = sent_rules q.rules env.notify_rules c.notify_rules;
          })
          c1 in
    let c3 =
      spoken
      ∙ ap
          (λ (c : Config). record c {
            retention_days = above_zero_or q.retention_days c.retention_days;
            language = or_default q.language c.language;
          })
          c2 in
    let c4 =
      timed
      ∙ ap
          (λ (c : Config). record c {
            auto_ban_enabled = or_default q.auto_ban_enabled c.auto_ban_enabled;
            auto_ban_threshold = above_zero_or q.auto_ban_threshold c.auto_ban_threshold;
            auto_ban_window = or_default q.auto_ban_window c.auto_ban_window;
          })
          c3 in
    let c5 =
      p4
      ∙ with_ban_time q.auto_ban_ban_time d3.proposed
      ∙ ap
          (λ (c : Config). record c {
            auto_ban_ban_time = or_default q.auto_ban_ban_time c.auto_ban_ban_time;
          })
          c4 in
    let c6 =
      listed
      ∙ ap
          (λ (c : Config). record c { extra_ignore_ips = sent_ips q.ignore_ips c.extra_ignore_ips })
          c5 in
    let c7 =
      p6
      ∙ with_max_retry q.f2b_max_retry d5.proposed
      ∙ ap (λ (c : Config). record c { f2b_max_retry = or_default q.f2b_max_retry c.f2b_max_retry })
          c6 in
    let c8 =
      p7
      ∙ with_f2b_ban_time q.f2b_ban_time d6.proposed
      ∙ ap (λ (c : Config). record c { f2b_ban_time = or_default q.f2b_ban_time c.f2b_ban_time })
          c7 in
    let c9 : d.proposed ≡ with_sent q env cfg d1.proposed.channels =
      p8
      ∙ with_find_time q.f2b_find_time d7.proposed
      ∙ ap (λ (c : Config). record c { f2b_find_time = or_default q.f2b_find_time c.f2b_find_time })
          c8 in
    (c9 ∙ ap (with_sent q env cfg) (sym (ap (λ c. c.channels) c9)), (b4, b6, b7, b8))

save_if-proposed {ℓ} :
    {A : Type ℓ} (o : Option A) (key value : String) (d : Draft)
    → (save_if o key value d).proposed ≡ d.proposed
save_if-proposed none key value d = refl
save_if-proposed (some x) key value d = refl

-- Filling the map in leaves the configuration alone.
pub save_general-proposed :
    (q : SettingsRequest) (d : Draft) → (save_general q d).proposed ≡ d.proposed
unfolding save_general
save_general-proposed q d =
    save_if-proposed q.auto_ban_ban_time _ _ _
    ∙ save_if-proposed q.auto_ban_window _ _ _
    ∙ save_if-proposed q.auto_ban_threshold _ _ _
    ∙ save_if-proposed q.auto_ban_enabled _ _ _
    ∙ save_if-proposed q.language _ _ _
    ∙ save_if-proposed q.retention_days _ _ _
    ∙ save_if-proposed q.f2b_find_time _ _ _
    ∙ save_if-proposed q.f2b_ban_time _ _ _
    ∙ save_if-proposed q.f2b_max_retry _ _ d
