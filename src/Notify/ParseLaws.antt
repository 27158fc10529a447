-- ===== src/Notify/ParseLaws.antt =====
-- Which texts parseRules of internal/notify/rules.go reads as rules.
use logfort.Prelude.{
  ℕ, zero, suc, String, ◌≡◌, refl, ap, ◌⊎◌, inl, inr, true, Option, none, some, List, [], ◌∷◌,
  arith, ◌==◌, eq_iff, Bool-cases, Option-cases, is_some, All, ℤ, pos, negsuc,
}
use logfort.Go.Strings.{trim_space, cut_prefix, cut}
use logfort.Go.Strconv.{parse_int}
use logfort.Notify.Rules.{Rule}
use logfort.Notify.Parse.{
  DigestSchedule, parse_digest, above_zero, threshold_of, rule_of, schedule_of, add_entry,
  parse_threshold, parse_rule, parse_rules,
}

-- A number and a duration above zero around a slash, each with blanks around it.
abbrev pub ReadsThreshold : (String → Option ℤ) → String → Type 0
ReadsThreshold parse_duration s =
    (a : String) × (b : String) × (n : ℕ) × (d : ℕ) × (cut b'/' s ≡ some (a, b))
    × (parse_int (trim_space a) ≡ some (pos (suc n)))
    × (parse_duration (trim_space b) ≡ some (pos (suc d)))

-- The texts of rules.
pub data Readable (parse_duration : String → Option ℤ) : String → Type 0 where
  accepted_login : Readable parse_duration "accepted_login"
  ban : Readable parse_duration "ban"
  new_country : Readable parse_duration "new_country"
  sudo : Readable parse_duration "sudo"
  threshold :
      {s : String} (rest : String)
      → cut_prefix "threshold:" s ≡ some rest
      → ReadsThreshold parse_duration rest
      → Readable parse_duration s
  digest :
      {s : String} (rest : String)
      → cut_prefix "digest:" s ≡ some rest
      → (rest ≡ "daily") ⊎ (rest ≡ "weekly")
      → Readable parse_duration s

above_zero_lem : (o : Option ℤ) (n : ℕ) → above_zero o ≡ some n → (k : ℕ) × (o ≡ some (pos (suc k)))
above_zero_lem none n h = absurd (ground (arith, ap is_some h))
above_zero_lem (some (pos zero)) n h = absurd (ground (arith, ap is_some h))
above_zero_lem (some (pos (suc k))) n h = (k, refl)
above_zero_lem (some (negsuc k)) n h = absurd (ground (arith, ap is_some h))

threshold_of_lem :
    (a b : Option ℕ) (r : Rule)
    → threshold_of a b ≡ some r
    → (n : ℕ) × (m : ℕ) × (a ≡ some n) × (b ≡ some m)
threshold_of_lem (some n) (some m) r h = (n, m, refl, refl)
threshold_of_lem (some n) none r h = absurd (ground (arith, ap is_some h))
threshold_of_lem none b r h = absurd (ground (arith, ap is_some h))

module _ (parse_duration : String → Option ℤ) where
  parse_threshold-ReadsThreshold :
      (s : String) (r : Rule)
      → parse_threshold parse_duration s ≡ some r
      → ReadsThreshold parse_duration s
  unfolding parse_threshold
  parse_threshold-ReadsThreshold s r h = elim (Option-cases (cut b'/' s)) [
    | inl e ↦ absurd (ground (arith, ap is_some (rw (e, parse_threshold) at h)))
    | inr ((a, b), e) ↦
        let (n, m, p, q) =
          threshold_of_lem (above_zero (parse_int (trim_space a)))
            (above_zero (parse_duration (trim_space b))) r (rw (e, parse_threshold) at h) in
        let (i, f) = above_zero_lem (parse_int (trim_space a)) n p in
        let (j, g) = above_zero_lem (parse_duration (trim_space b)) m q in (a, b, i, j, e, f, g)
  ]

  rule_of_lem :
      (o : Option Rule) (x : Rule ⊎ DigestSchedule)
      → rule_of parse_duration o ≡ some x
      → (r : Rule) × (o ≡ some r)
  rule_of_lem none x h = absurd (ground (arith, ap is_some h))
  rule_of_lem (some r) x h = (r, refl)

  parse_digest_lem :
      (s : String) (x : Rule ⊎ DigestSchedule)
      → schedule_of parse_duration (parse_digest s) ≡ some x
      → (s ≡ "daily") ⊎ (s ≡ "weekly")
  unfolding parse_digest
  parse_digest_lem s x h = elim (Bool-cases (s == "daily")) [
    | inl e ↦ inl ((eq_iff s "daily").0 e)
    | inr e ↦ elim (Bool-cases (s == "weekly")) [
      | inl f ↦ inr ((eq_iff s "weekly").0 f)
      | inr f ↦ absurd (ground (arith, ap is_some (rw (e, f) at h)))
    ]
  ]

  parse_rule-Readable :
      (s : String) (x : Rule ⊎ DigestSchedule)
      → parse_rule parse_duration s ≡ some x
      → Readable parse_duration s
  unfolding parse_rule
  parse_rule-Readable s x h = elim (Bool-cases (s == "accepted_login")) [
    | inl e ↦ rw ((eq_iff s "accepted_login").0 e) accepted_login
    | inr e ↦ elim (Bool-cases (s == "ban")) [
      | inl f ↦ rw ((eq_iff s "ban").0 f) ban
      | inr f ↦ elim (Bool-cases (s == "new_country")) [
        | inl g ↦ rw ((eq_iff s "new_country").0 g) new_country
        | inr g ↦ elim (Bool-cases (s == "sudo")) [
          | inl k ↦ rw ((eq_iff s "sudo").0 k) sudo
          | inr k ↦ elim (Option-cases (cut_prefix "threshold:" s)) [
            | inr (rest, t) ↦
                let (r, o) =
                  rule_of_lem (parse_threshold parse_duration rest) x (rw (e, f, g, k, t) at h) in
                threshold rest t (parse_threshold-ReadsThreshold rest r o)
            | inl t ↦ elim (Option-cases (cut_prefix "digest:" s)) [
              | inr (rest, d) ↦ digest rest d (parse_digest_lem rest x (rw (e, f, g, k, t, d) at h))
              | inl d ↦ absurd (ground (arith, ap is_some (rw (e, f, g, k, t, d) at h)))
            ]
          ]
        ]
      ]
    ]
  ]

  add_entry_lem :
      (e : Option (Rule ⊎ DigestSchedule)) (o : Option (List Rule × List DigestSchedule))
      (x : List Rule × List DigestSchedule)
      → add_entry parse_duration e o ≡ some x
      → is_some e ≡ true × is_some o ≡ true
  add_entry_lem (some (inl r)) (some y) x h = (refl, refl)
  add_entry_lem (some (inr d)) (some y) x h = (refl, refl)
  add_entry_lem (some (inl r)) none x h = absurd (ground (arith, ap is_some h))
  add_entry_lem (some (inr d)) none x h = absurd (ground (arith, ap is_some h))
  add_entry_lem none o x h = absurd (ground (arith, ap is_some h))

  -- Where the rules are read, each entry is the text of a rule.
  pub parse_rules-Readable :
      (strs : List String) (x : List Rule × List DigestSchedule)
      → parse_rules parse_duration strs ≡ some x
      → All (λ s. Readable parse_duration (trim_space s)) strs
  unfolding parse_rules
  parse_rules-Readable [] x h = tt
  parse_rules-Readable (s ∷ strs) x h =
      let (p, q) = add_entry_lem (parse_rule parse_duration (trim_space s)) _ x h in
      elim (Option-cases (parse_rule parse_duration (trim_space s))) [
        | inl e ↦ absurd (ground (arith, p, e))
        | inr (r, e) ↦ elim (Option-cases (parse_rules parse_duration strs)) [
          | inl f ↦ absurd (ground (arith, q, f))
          | inr (y, f) ↦ (parse_rule-Readable (trim_space s) r e, parse_rules-Readable strs y f)
        ]
      ]
