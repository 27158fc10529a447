-- ===== src/Config/OverlayLaws.antt =====
-- What OverlaySettings of internal/config/config.go promises of the configuration.
use logfort.Prelude.{
  String, ◌≡◌, refl, ap, ◌≢◌, inl, inr, Bool, true, not, ◌&&◌, Option, none, some, List, [], ◌∷◌,
  arith, ◌==◌, eq_iff, eqb, if◌then◌else◌, Bool-cases, length, All, ℤ, pos, ◌≤ℤ◌, eqb_ℤ,
}
use logfort.Go.Strings.{trim_space, split}
use logfort.Go.Strconv.{parse_int}
use logfort.Prelude.Assoc.{lookup}
use logfort.Config.Overlay.{
  trimmed, default_language, default_auto_ban_window, Config, overlay_channels, overlay_settings,
  setting, number_or, positive, not_negative, supported_language, split_list,
  default_auto_ban_threshold,
}

-- Numbers within their bounds, a window, a language of the interface, and no blank entry of the allowlist. That
-- the window is a duration and the rules can be read is checked elsewhere.
pub record InBounds (c : Config) : Type 0 where
  pub retention : pos 1 ≤ℤ c.retention_days
  pub threshold : pos 1 ≤ℤ c.auto_ban_threshold
  pub window : c.auto_ban_window ≢ ""
  pub ban_time : pos 0 ≤ℤ c.auto_ban_ban_time
  pub language : supported_language c.language ≡ true
  pub ignored : All (λ e. e ≢ "") c.extra_ignore_ips

number_or-keeps :
    (P : ℤ → Type 0) (test : ℤ → Bool) (v : String) (old : ℤ)
    → ((n : ℤ) → test n ≡ true → P n)
    → P old
    → P (number_or test v old)
number_or-keeps P test v old h k = go (parse_int v)
  where
    go : (o : Option ℤ) → P (elim o [ none ↦ old | some n ↦ if test n then n else old ])
    go none = k
    go (some n) = elim (Bool-cases (test n)) [ inl e ↦ rw e (h n e) | inr e ↦ rw e k ]

number_or_twice :
    (test : ℤ → Bool) (v : String) (old : ℤ)
    → number_or test v (number_or test v old) ≡ number_or test v old
number_or_twice test v old = go (parse_int v)
  where
    pick : Option ℤ → ℤ → ℤ
    pick o m = elim o [ none ↦ m | some n ↦ if test n then n else m ]

    go : (o : Option ℤ) → pick o (pick o old) ≡ pick o old
    go none = refl
    go (some n) = elim (Bool-cases (test n)) [ inl e ↦ rw e refl | inr e ↦ rw e refl ]

-- The text, or another one where it is empty.
abbrev or_else : String → String → String
or_else x d = if x == "" then d else x

or_else-nonempty : (x d : String) → d ≢ "" → or_else x d ≢ ""
or_else-nonempty x d h = elim (Bool-cases (x == "")) [
  | inl e ↦ rw e h
  | inr e ↦ rw e (λ p. ground (arith, (eq_iff x "").1 p))
]

or_else_twice : (x d : String) → or_else (or_else x d) d ≡ or_else x d
or_else_twice x d = elim (Bool-cases (x == "")) [
  | inl e ↦ rw e (elim (Bool-cases (d == "")) [ inl f ↦ rw f refl | inr f ↦ rw f refl ])
  | inr e ↦ rw (e, e) refl
]

threshold-positive :
    (n : ℤ) → pos 1 ≤ℤ n → pos 1 ≤ℤ (if eqb_ℤ n (pos 0) then default_auto_ban_threshold else n)
threshold-positive n h = ground arith

abbrev spoken : String → String → String
spoken v old = if not (v == "") && supported_language v then v else old

spoken-supported :
    (v old : String)
    → supported_language old ≡ true
    → supported_language (or_else (spoken v old) default_language) ≡ true
spoken-supported v old h = elim (Bool-cases (spoken v old == "")) [
  | inl e ↦ rw e refl
  | inr e ↦ rw e (chosen v)
]
  where
    chosen : (w : String) → supported_language (spoken w old) ≡ true
    chosen w = elim (Bool-cases (not (w == "") && supported_language w)) [
      | inl f ↦ rw f (ground arith)
      | inr f ↦ rw f h
    ]

trimmed-nonempty : (es : List String) → All (λ e. e ≢ "") (trimmed es)
trimmed-nonempty [] = tt
trimmed-nonempty (e ∷ es) = elim (Bool-cases (trim_space e == "")) [
  | inl b ↦ rw b (trimmed-nonempty es)
  | inr b ↦ rw b ((λ p. ground (arith, (eq_iff (trim_space e) "").1 p)), trimmed-nonempty es)
]

-- Whatever texts the table of settings holds, a configuration in bounds stays so: the retention and the threshold of
-- bans are positive, the ban time is not negative, the window is not empty, the language is one of the
-- interface, and no entry of the allowlist is empty. Nothing is said of whether the window is a duration.
pub overlay_settings-InBounds :
    (s : List (String × String)) (c : Config) → InBounds c → InBounds (overlay_settings s c)
unfolding overlay_settings split_list
overlay_settings-InBounds s c u = record {
  retention =
      number_or-keeps (λ n. pos 1 ≤ℤ n) positive _ c.retention_days (λ n e. ground arith)
        u.retention;
  threshold = threshold-positive _ (
      number_or-keeps (λ n. pos 1 ≤ℤ n) positive (setting "autoban.threshold" s)
        c.auto_ban_threshold (λ n e. ground arith) u.threshold);
  window =
      or_else-nonempty (or_else (setting "autoban.window" s) c.auto_ban_window)
        default_auto_ban_window (λ p. ground (arith, (eq_iff "1h" "").1 p));
  ban_time =
      number_or-keeps (λ n. pos 0 ≤ℤ n) not_negative _ c.auto_ban_ban_time (λ n e. ground arith)
        u.ban_time;
  language = spoken-supported (setting "general.language" s) c.language u.language;
  ignored = trimmed-nonempty (split b',' (setting "security.ignore_ips" s));
}

overlay_channels_twice :
    (s cs : List (String × String))
    → overlay_channels s (overlay_channels s cs) ≡ overlay_channels s cs
unfolding overlay_channels
overlay_channels_twice s [] = refl
overlay_channels_twice s ((key, field) ∷ cs) =
    cc (or_else_twice field (setting key s), overlay_channels_twice s cs)

abbrev filled_in : List (String × String) → String → Option String → Option String
filled_in s key none = none
filled_in s key (some field) = some (or_else field (setting key s))

overlaid :
    (s cs : List (String × String)) (key : String)
    → lookup key (overlay_channels s cs) ≡ filled_in s key (lookup key cs)
unfolding overlay_channels lookup
overlaid s [] key = refl
overlaid s ((name, field) ∷ cs) key = elim (Bool-cases (name == key)) [
  | inl e ↦ rw e (ap (λ k. some (or_else field (setting k s))) ((eq_iff name key).0 e))
  | inr e ↦ rw e (overlaid s cs key)
]

-- A channel's field that the environment filled wins; an empty one is what the database holds.
pub overlay_settings-channels :
    (s : List (String × String)) (c : Config) (key : String)
    → lookup key (overlay_settings s c).channels ≡ filled_in s key (lookup key c.channels)
unfolding overlay_settings
overlay_settings-channels s c key = overlaid s c.channels key

-- A function of the old value that is the same when it is applied again.
rules_twice :
    (r d : List String)
    → let f = λ (x : List String). if eqb (length x) 0 then d else x in f (f r) ≡ f r
rules_twice r d = elim (Bool-cases (eqb (length r) 0)) [
  | inl e ↦ rw e (elim (Bool-cases (eqb (length d) 0)) [ inl f ↦ rw f refl | inr f ↦ rw f refl ])
  | inr e ↦ rw (e, e) refl
]

language_twice :
    (v x d : String) → or_else (spoken v (or_else (spoken v x) d)) d ≡ or_else (spoken v x) d
language_twice v x d = elim (Bool-cases (not (v == "") && supported_language v)) [
  | inl e ↦ rw e refl
  | inr e ↦ rw e (or_else_twice x d)
]

window_twice :
    (v x d : String) → or_else (or_else v (or_else (or_else v x) d)) d ≡ or_else (or_else v x) d
window_twice v x d = elim (Bool-cases (v == "")) [
  | inl e ↦ rw e (or_else_twice x d)
  | inr e ↦ rw (e, e) refl
]

zero_or_twice : (x d : ℤ) → let f = λ (y : ℤ). if eqb_ℤ y (pos 0) then d else y in f (f x) ≡ f x
zero_or_twice x d = elim (Bool-cases (eqb_ℤ x (pos 0))) [
  | inl e ↦ rw e (elim (Bool-cases (eqb_ℤ d (pos 0))) [ inl f ↦ rw f refl | inr f ↦ rw f refl ])
  | inr e ↦ rw (e, e) refl
]

threshold_twice :
    (v : String) (x d : ℤ)
    → let f = λ (y : ℤ). (let n = number_or positive v y in if eqb_ℤ n (pos 0) then d else n) in
      f (f x) ≡ f x
threshold_twice v x d = go (parse_int v)
  where
    pick : Option ℤ → ℤ → ℤ
    pick o m = elim o [ none ↦ m | some n ↦ if positive n then n else m ]

    set : Option ℤ → ℤ → ℤ
    set o m = if eqb_ℤ (pick o m) (pos 0) then d else pick o m

    go : (o : Option ℤ) → set o (set o x) ≡ set o x
    go none = zero_or_twice x d
    go (some n) = elim (Bool-cases (positive n)) [
      | inl e ↦ rw e refl
      | inr e ↦ rw e (zero_or_twice x d)
    ]

enabled_twice :
    (v : String) (b : Bool)
    → (if v == "" then (if v == "" then b else v == "true") else v == "true")
      ≡ (if v == "" then b else v == "true")
enabled_twice v b = elim (Bool-cases (v == "")) [ inl e ↦ rw e refl | inr e ↦ rw e refl ]

-- Laying the same settings over once more changes nothing.
pub overlay_settings_idem :
    (s : List (String × String)) (c : Config)
    → overlay_settings s (overlay_settings s c) ≡ overlay_settings s c
unfolding overlay_settings
overlay_settings_idem s c = cc (
  overlay_channels_twice s c.channels,
  rules_twice c.notify_rules (split_list (setting "notify.rules" s)),
  number_or_twice positive (setting "general.retention_days" s) c.retention_days,
  language_twice (setting "general.language" s) c.language default_language,
  enabled_twice (setting "autoban.enabled" s) c.auto_ban_enabled,
  threshold_twice (setting "autoban.threshold" s) c.auto_ban_threshold default_auto_ban_threshold,
  window_twice (setting "autoban.window" s) c.auto_ban_window default_auto_ban_window,
  number_or_twice not_negative (setting "autoban.bantime" s) c.auto_ban_ban_time,
  number_or_twice positive (setting "f2b.maxretry" s) c.f2b_max_retry,
  number_or_twice positive (setting "f2b.bantime" s) c.f2b_ban_time,
  number_or_twice positive (setting "f2b.findtime" s) c.f2b_find_time,
)
