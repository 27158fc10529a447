-- ===== src/Notify/Parse.antt =====
-- parseRules, parseThresholdRule and parseDigest of internal/notify (rules.go, digest.go). The result is
-- `none` where the code returns an error; `parse_duration` is time.ParseDuration.
use logfort.Prelude.{
  ℕ, suc, ◌+◌, String, ◌≡◌, refl, sym, ap, ◌⊎◌, inl, inr, Option, none, some, List, [], ◌∷◌, arith,
  ◌==◌, if◌then◌else◌, length, ℤ, pos, pos_part, ltb_ℤ,
}
use logfort.Go.Strings.{trim_space, cut_prefix, cut}
use logfort.Go.Strconv.{parse_int}
use logfort.Notify.Rules.{
  Rule, accepted_login_rule, ban_rule, sudo_rule, new_country_rule, threshold_rule,
}

pub record DigestSchedule : Type 0 where
  pub label : String
  pub window : String

unfoldable pub parse_digest : String → Option DigestSchedule
parse_digest s =
    if s == "daily"
    then some (record { label = "daily"; window = "24h" })
    else if s == "weekly"
    then some (record { label = "weekly"; window = "7d" })
    else none

-- A number above zero.
abbrev pub above_zero : Option ℤ → Option ℕ
above_zero none = none
above_zero (some n) = if ltb_ℤ (pos 0) n then some (pos_part n) else none

abbrev pub threshold_of : Option ℕ → Option ℕ → Option Rule
threshold_of (some n) (some d) = some (threshold_rule n d [])
threshold_of _ _ = none

module _ (parse_duration : String → Option ℤ) where
  -- What is behind "threshold:".
  unfoldable pub parse_threshold : String → Option Rule
  parse_threshold s = elim (cut b'/' s) [
    | none ↦ none
    | some p ↦
        threshold_of (above_zero (parse_int (trim_space p.0)))
          (above_zero (parse_duration (trim_space p.1)))
  ]

  abbrev pub rule_of : Option Rule → Option (Rule ⊎ DigestSchedule)
  rule_of none = none
  rule_of (some r) = some (inl r)

  abbrev pub schedule_of : Option DigestSchedule → Option (Rule ⊎ DigestSchedule)
  schedule_of none = none
  schedule_of (some d) = some (inr d)

  -- One entry, trimmed.
  unfoldable pub parse_rule : String → Option (Rule ⊎ DigestSchedule)
  unfolding parse_threshold parse_digest
  parse_rule s =
      if s == "accepted_login"
      then some (inl accepted_login_rule)
      else if s == "ban"
      then some (inl ban_rule)
      else if s == "new_country"
      then some (inl (new_country_rule []))
      else if s == "sudo"
      then some (inl sudo_rule)
      else elim (cut_prefix "threshold:" s) [
        | some rest ↦ rule_of (parse_threshold rest)
        | none ↦ elim (cut_prefix "digest:" s) [
          | some rest ↦ schedule_of (parse_digest rest)
          | none ↦ none
        ]
      ]

  abbrev pub add_entry :
      Option (Rule ⊎ DigestSchedule)
      → Option (List Rule × List DigestSchedule)
      → Option (List Rule × List DigestSchedule)
  add_entry (some (inl r)) (some (rules, digests)) = some (r ∷ rules, digests)
  add_entry (some (inr d)) (some (rules, digests)) = some (rules, d ∷ digests)
  add_entry _ _ = none

  unfoldable pub parse_rules : List String → Option (List Rule × List DigestSchedule)
  unfolding parse_rule
  parse_rules [] = some ([], [])
  parse_rules (s ∷ strs) = add_entry (parse_rule (trim_space s)) (parse_rules strs)

  abbrev size : Option (List Rule × List DigestSchedule) → ℕ
  size none = 0
  size (some (rules, digests)) = length rules + length digests

  add_entry-length :
      (e : Option (Rule ⊎ DigestSchedule)) (r : Option (List Rule × List DigestSchedule))
      (rules : List Rule) (digests : List DigestSchedule) (n : ℕ)
      → add_entry e r ≡ some (rules, digests)
      → ((rs : List Rule) (ds : List DigestSchedule)
          → r ≡ some (rs, ds)
          → length rs + length ds ≡ n)
      → length rules + length digests ≡ suc n
  add_entry-length (some (inl r)) (some (rs, ds)) rules digests n e h =
      (let k = ap size e in let m = h rs ds refl in omega arith)
  add_entry-length (some (inr d)) (some (rs, ds)) rules digests n e h =
      (let k = ap size e in let m = h rs ds refl in omega arith)
  add_entry-length (some (inl r)) none rules digests n e h = ground arith
  add_entry-length (some (inr d)) none rules digests n e h = ground arith
  add_entry-length none r rules digests n e h = ground arith

  -- Where no entry is refused, each gives one rule or one schedule.
  pub parse_rules-length :
      (strs : List String) (rules : List Rule) (digests : List DigestSchedule)
      → parse_rules strs ≡ some (rules, digests)
      → length rules + length digests ≡ length strs
  unfolding parse_rules
  parse_rules-length [] rules digests e = sym (ap size e)
  parse_rules-length (s ∷ strs) rules digests e =
      add_entry-length (parse_rule (trim_space s)) (parse_rules strs) rules digests (length strs) e
        (λ rs ds. parse_rules-length strs rs ds)
