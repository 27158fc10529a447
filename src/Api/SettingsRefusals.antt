-- ===== src/Api/SettingsRefusals.antt =====
-- The draft of handlePostSettings of internal/api/api.go refuses with the status 400.
use logfort.Prelude.{
  String, ◌≡◌, refl, inl, inr, ◌||◌, Option, none, some, List, [], ◌∷◌, Bool-cases, Option-cases,
  is_some, ℤ, ltb_ℤ,
}
use logfort.Go.Net.{Net}
use logfort.Api.Settings.{
  put_channel, then_check, put_window, put_language, put_ignore_ips, put_channels, put_between,
  SettingsRequest, Draft, Checked, draft_of,
}
use logfort.Prelude.Assoc.{lookup}
use logfort.Config.Overlay.{Config, split_list, supported_language}
use logfort.Responder.Allowlist.{parse_allowlist}

-- A refusal of the draft has the status 400.
abbrev pub Refuses : Checked → Type 0
Refuses (inl r) = r.status ≡ 400
Refuses (inr d) = Unit {0}

Refuses-then_check :
    (x : Checked) (f : Draft → Checked)
    → Refuses x
    → ((d : Draft) → Refuses (f d))
    → Refuses (then_check x f)
Refuses-then_check (inl r) f h k = h
Refuses-then_check (inr d) f h k = k d

Refuses-put_channels :
    (env : Config) (fields : List (String × Option String)) (keys : List (String × String))
    (d : Draft)
    → Refuses (put_channels env fields keys d)
unfolding put_channels
Refuses-put_channels env fields [] d = tt
Refuses-put_channels env fields ((json, key) ∷ keys) d = elim (Option-cases (lookup json fields)) [
  | inl e ↦ rw (e, Refuses) (Refuses-put_channels env fields keys d)
  | inr (none, e) ↦ rw (e, Refuses) refl
  | inr (some v, e) ↦
      rw (e, Refuses) (Refuses-put_channels env fields keys (put_channel env key v d))
]

Refuses-put_between :
    (low high : ℤ) (refusal : String) (set : ℤ → Config → Config) (o : Option ℤ) (d : Draft)
    → Refuses (put_between low high refusal set o d)
unfolding put_between
Refuses-put_between low high refusal set none d = tt
Refuses-put_between low high refusal set (some n) d =
    elim (Bool-cases (ltb_ℤ n low || ltb_ℤ high n)) [ inl e ↦ rw e refl | inr e ↦ rw e tt ]

Refuses-put_language : (o : Option String) (d : Draft) → Refuses (put_language o d)
unfolding put_language
Refuses-put_language none d = tt
Refuses-put_language (some v) d = elim (Bool-cases (supported_language v)) [
  | inl e ↦ rw e tt
  | inr e ↦ rw e refl
]

module _ (net : Net) (parse_duration : String → Option ℤ) where
  Refuses-put_window : (o : Option String) (d : Draft) → Refuses (put_window net parse_duration o d)
  unfolding put_window
  Refuses-put_window none d = tt
  Refuses-put_window (some w) d = elim (Bool-cases (is_some (parse_duration w))) [
    | inl e ↦ rw e tt
    | inr e ↦ rw e refl
  ]

  Refuses-put_ignore_ips :
      (o : Option String) (d : Draft) → Refuses (put_ignore_ips net parse_duration o d)
  unfolding put_ignore_ips
  Refuses-put_ignore_ips none d = tt
  Refuses-put_ignore_ips (some raw) d =
      elim (Bool-cases (is_some (parse_allowlist net (split_list raw)))) [
        | inl e ↦ rw e tt
        | inr e ↦ rw e refl
      ]

  pub Refuses-draft_of :
      (q : SettingsRequest) (env cfg : Config) → Refuses (draft_of net parse_duration q env cfg)
  unfolding draft_of
  Refuses-draft_of q env cfg =
      Refuses-then_check _ _ (Refuses-put_channels env q.channels _ _) (λ d.
        Refuses-then_check _ _ (Refuses-put_language q.language _) (λ d.
          Refuses-then_check _ _ (Refuses-put_window q.auto_ban_window _) (λ d.
            Refuses-then_check _ _ (Refuses-put_between _ _ _ _ q.auto_ban_ban_time d) (λ d.
              Refuses-then_check _ _ (Refuses-put_ignore_ips q.ignore_ips d) (λ d.
                Refuses-then_check _ _ (Refuses-put_between _ _ _ _ q.f2b_max_retry d) (λ d.
                  Refuses-then_check _ _ (Refuses-put_between _ _ _ _ q.f2b_ban_time d)
                    (λ d. Refuses-put_between _ _ _ _ q.f2b_find_time d)))))))
