-- ===== src/Api/SettingsSteps.antt =====
-- What each check of handlePostSettings of internal/api/api.go makes of a draft.
use logfort.Prelude.{
  String, ◌≡◌, refl, sym, ap, ◌∙◌, inl, inr, Bool, true, false, not, ◌||◌, Option, none, some, List,
  [], ◌∷◌, arith, ◌==◌, eqb, if◌then◌else◌, Bool-cases, Option-cases, is_some, or_default, length,
  ℤ, ◌≤ℤ◌, ltb_ℤ,
}
use logfort.Go.Net.{Net}
use logfort.Prelude.Assoc.{lookup}
use logfort.Config.Overlay.{Config, setting, split_list, supported_language}
use logfort.Responder.Allowlist.{parse_allowlist}
use logfort.Api.Server.{Reply}
use logfort.Api.Settings.{
  SettingsRequest, Draft, Checked, then_check, put_channels, put_channel, put_between, put_language,
  put_rules, put_window, put_ignore_ips, above_zero_or,
}

-- The rules, where the environment has none.
abbrev pub sent_rules : Option String → List String → List String → List String
sent_rules none env old = old
sent_rules (some raw) env old = if eqb (length env) 0 then split_list raw else old

abbrev pub sent_ips : Option String → List String → List String
sent_ips none old = old
sent_ips (some raw) old = split_list raw

-- The configuration with what was sent in place of the old values.
abbrev pub with_sent : SettingsRequest → Config → Config → List (String × String) → Config
with_sent q env cfg channels = record {
  channels = channels;
  notify_rules = sent_rules q.rules env.notify_rules cfg.notify_rules;
  extra_ignore_ips = sent_ips q.ignore_ips cfg.extra_ignore_ips;
  retention_days = above_zero_or q.retention_days cfg.retention_days;
  language = or_default q.language cfg.language;
  auto_ban_enabled = or_default q.auto_ban_enabled cfg.auto_ban_enabled;
  auto_ban_threshold = above_zero_or q.auto_ban_threshold cfg.auto_ban_threshold;
  auto_ban_window = or_default q.auto_ban_window cfg.auto_ban_window;
  auto_ban_ban_time = or_default q.auto_ban_ban_time cfg.auto_ban_ban_time;
  f2b_max_retry = or_default q.f2b_max_retry cfg.f2b_max_retry;
  f2b_ban_time = or_default q.f2b_ban_time cfg.f2b_ban_time;
  f2b_find_time = or_default q.f2b_find_time cfg.f2b_find_time;
}

-- A number that was sent is in the interval.
abbrev pub Between : ℤ → ℤ → Option ℤ → Type 0
Between low high none = Unit {0}
Between low high (some n) = (low ≤ℤ n) × (n ≤ℤ high)

abbrev is_draft : Checked → Bool
is_draft (inl r) = false
is_draft (inr d) = true

abbrev draft_or : Draft → Checked → Draft
draft_or e (inl r) = e
draft_or e (inr d) = d

no_draft : (r : Reply) (d : Draft) → ◌≡◌ {A = Checked} (inl r) (inr d) → ⊥
no_draft r d h = ground (arith, ap is_draft h)

pub then_check_lem :
    (x : Checked) (f : Draft → Checked) (d : Draft)
    → then_check x f ≡ inr d
    → (e : Draft) × (x ≡ inr e) × (f e ≡ inr d)
then_check_lem (inl r) f d h = absurd (no_draft r d h)
then_check_lem (inr e) f d h = (e, refl, h)

pub put_channel_lem :
    (env : Config) (key v : String) (e : Draft) (channels : List (String × String))
    → ◌≡◌ {A = Config}
        (record (put_channel env key v e).proposed { channels = channels })
        (record e.proposed { channels = channels })
unfolding put_channel
put_channel_lem env key v e channels = elim (Bool-cases (not (setting key env.channels == ""))) [
  | inl s ↦ rw s refl
  | inr s ↦ rw s refl
]

pub put_channels_lem :
    (env : Config) (fields : List (String × Option String)) (keys : List (String × String))
    (e d : Draft)
    → put_channels env fields keys e ≡ inr d
    → d.proposed ≡ record e.proposed { channels = d.proposed.channels }
unfolding put_channels
put_channels_lem env fields [] e d h =
    let p : e.proposed ≡ d.proposed = ap (λ x. (draft_or e x).proposed) h in
    sym p ∙ ap (λ (c : Config). record e.proposed { channels = c.channels }) p
put_channels_lem env fields ((json, key) ∷ keys) e d h = elim (Option-cases (lookup json fields)) [
  | inl s ↦ put_channels_lem env fields keys e d (rw (s, put_channels) at h)
  | inr (none, s) ↦ absurd (no_draft _ d (rw (s, put_channels) at h))
  | inr (some v, s) ↦
      put_channels_lem env fields keys (put_channel env key v e) d (rw (s, put_channels) at h)
      ∙ put_channel_lem env key v e d.proposed.channels
]

pub put_rules_lem :
    (env : Config) (o : Option String) (e : Draft)
    → (put_rules env o e).proposed
      ≡ record e.proposed { notify_rules = sent_rules o env.notify_rules e.proposed.notify_rules }
unfolding put_rules
put_rules_lem env none e = refl
put_rules_lem env (some raw) e = elim (Bool-cases (eqb (length env.notify_rules) 0)) [
  | inl s ↦ rw s refl
  | inr s ↦ rw s refl
]

pub put_language_lem :
    (o : Option String) (e d : Draft)
    → put_language o e ≡ inr d
    → d.proposed ≡ record e.proposed { language = or_default o e.proposed.language }
unfolding put_language
put_language_lem none e d h = ap (λ x. (draft_or e x).proposed) (sym h)
put_language_lem (some v) e d h = elim (Bool-cases (supported_language v)) [
  | inl s ↦ ap (λ x. (draft_or e x).proposed) (sym (rw (s, put_language) at h))
  | inr s ↦ absurd (no_draft _ d (rw (s, put_language) at h))
]

pub put_between_lem :
    (low high : ℤ) (refusal : String) (set : ℤ → Config → Config) (o : Option ℤ) (e d : Draft)
    → put_between low high refusal set o e ≡ inr d
    → Between low high o × (d.proposed ≡ elim o [ none ↦ e.proposed | some n ↦ set n e.proposed ])
unfolding put_between
put_between_lem low high refusal set none e d h = (tt, ap (λ x. (draft_or e x).proposed) (sym h))
put_between_lem low high refusal set (some n) e d h =
    elim (Bool-cases (ltb_ℤ n low || ltb_ℤ high n)) [
      | inl s ↦ absurd (no_draft _ d (rw (s, put_between) at h))
      | inr s ↦ (
        (ground arith, ground arith),
        ap (λ x. (draft_or e x).proposed) (sym (rw (s, put_between) at h)),
      )
    ]

module _ (net : Net) (parse_duration : String → Option ℤ) where
  pub put_window_lem :
      (o : Option String) (e d : Draft)
      → put_window net parse_duration o e ≡ inr d
      → d.proposed ≡ record e.proposed { auto_ban_window = or_default o e.proposed.auto_ban_window }
  unfolding put_window
  put_window_lem none e d h = ap (λ x. (draft_or e x).proposed) (sym h)
  put_window_lem (some w) e d h = elim (Bool-cases (is_some (parse_duration w))) [
    | inl s ↦ ap (λ x. (draft_or e x).proposed) (sym (rw (s, put_window) at h))
    | inr s ↦ absurd (no_draft _ d (rw (s, put_window) at h))
  ]

  pub put_ignore_ips_lem :
      (o : Option String) (e d : Draft)
      → put_ignore_ips net parse_duration o e ≡ inr d
      → d.proposed ≡ record e.proposed { extra_ignore_ips = sent_ips o e.proposed.extra_ignore_ips }
  unfolding put_ignore_ips
  put_ignore_ips_lem none e d h = ap (λ x. (draft_or e x).proposed) (sym h)
  put_ignore_ips_lem (some raw) e d h =
      elim (Bool-cases (is_some (parse_allowlist net (split_list raw)))) [
        | inl s ↦ ap (λ x. (draft_or e x).proposed) (sym (rw (s, put_ignore_ips) at h))
        | inr s ↦ absurd (no_draft _ d (rw (s, put_ignore_ips) at h))
      ]
