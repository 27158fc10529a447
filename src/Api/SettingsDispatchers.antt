-- ===== src/Api/SettingsDispatchers.antt =====
-- The dispatchers that run during handlePostSettings of internal/api/api.go.
use logfort.Prelude.{
  ℕ, ◌<◌, ◌≡◌, refl, sym, ap, ◌∙◌, ◌⊎◌, not, Option, none, some, List, [], ◌∷◌, ◌++◌, arith, eqb,
  select,
}
use logfort.Api.Server.{Reply}
use logfort.Api.SettingsHandler.{Panel, stop_dispatcher, swap_dispatcher}

-- The dispatcher in use, if there is one.
abbrev pub only : Option ℕ → List ℕ
only none = []
only (some d) = d ∷ []

abbrev pub Below : ℕ → Option ℕ → Type 0
Below n none = Unit {0}
Below n (some d) = d < n

abbrev without : Option ℕ → List ℕ → List ℕ
without none ds = ds
without (some d) ds = select (λ e. not (eqb d e)) ds

abbrev pub Apart : Option ℕ → Option ℕ → Type 0
Apart (some d) (some a) = a < d
Apart _ _ = Unit {0}

without-fresh :
    (fresh act : Option ℕ) → Apart fresh act → without fresh (only fresh ++ only act) ≡ only act
without-fresh none act h = refl
without-fresh (some d) none h = ground arith
without-fresh (some d) (some a) h = ground arith

without-old :
    (fresh act : Option ℕ) → Apart fresh act → without act (only fresh ++ only act) ≡ only fresh
without-old none none h = refl
without-old (some d) none h = refl
without-old none (some a) h = ground arith
without-old (some d) (some a) h = ground arith

module _ {J : Type 0} where
  -- No dispatcher runs but the one in use.
  abbrev pub Tidy : Panel J → Type 0
  Tidy p = (p.running ≡ only p.active) × Below p.made p.active

  abbrev pub Kept : Panel J → Panel J → Type 0
  Kept p p' =
      (p'.cfg ≡ p.cfg)
      × (p'.settings ≡ p.settings)
      × (p'.allowlist ≡ p.allowlist)
      × (p'.active ≡ p.active)

  -- What an accepted request can come to: it is saved, with its effect; it is refused and nothing has changed;
  -- or saving failed, and nothing has changed but that the dispatcher made for it runs as well.
  pub data Outcome (p : Panel J) (fresh : Option ℕ) (Effect : Panel J → Type 0)
      : Reply × Panel J → Type 0 where
    saved :
        {r : Reply} {p' : Panel J}
        → r.status ≡ 200
        → Effect p'
        → Tidy p'
        → Outcome p fresh Effect (r, p')
    refused :
        {r : Reply} {p' : Panel J}
        → (r.status ≡ 400) ⊎ (r.status ≡ 502)
        → Kept p p'
        → Tidy p'
        → Outcome p fresh Effect (r, p')
    failed :
        {r : Reply} {p' : Panel J}
        → r.status ≡ 500
        → Kept p p'
        → p'.running ≡ only fresh ++ p.running
        → Outcome p fresh Effect (r, p')

  -- A dispatcher may have been made, which is not in use yet.
  pub record Trial (p : Panel J) (fresh : Option ℕ) (x : Panel J) : Type 0 where
    pub in_use : x.active ≡ p.active
    pub both : x.running ≡ only fresh ++ only p.active
    pub apart : Apart fresh p.active
    pub below : Below x.made fresh
    pub below_too : Below x.made p.active

  stop_dispatcher-running :
      (fresh : Option ℕ) (x : Panel J) → (stop_dispatcher fresh x).running ≡ without fresh x.running
  stop_dispatcher-running none x = refl
  stop_dispatcher-running (some d) x = refl

  pub stop_dispatcher-active :
      (fresh : Option ℕ) (x : Panel J) → (stop_dispatcher fresh x).active ≡ x.active
  stop_dispatcher-active none x = refl
  stop_dispatcher-active (some d) x = refl

  stop_dispatcher-made : (fresh : Option ℕ) (x : Panel J) → (stop_dispatcher fresh x).made ≡ x.made
  stop_dispatcher-made none x = refl
  stop_dispatcher-made (some d) x = refl

  pub Kept-stop_dispatcher :
      (p x : Panel J) (fresh : Option ℕ) → Kept p x → Kept p (stop_dispatcher fresh x)
  Kept-stop_dispatcher p x none h = h
  Kept-stop_dispatcher p x (some d) h = h

  pub Tidy-stop_dispatcher :
      (p x : Panel J) (fresh : Option ℕ) → Trial p fresh x → Tidy (stop_dispatcher fresh x)
  Tidy-stop_dispatcher p x fresh t =
      let e = stop_dispatcher-active fresh x ∙ t.in_use in
      (
        stop_dispatcher-running fresh x
            ∙ ap (without fresh) t.both
            ∙ without-fresh fresh p.active t.apart
            ∙ ap only (sym e),
        rw (stop_dispatcher-made fresh x, e) t.below_too,
      )

  pub Tidy-swap_dispatcher :
      (p x : Panel J) (fresh : Option ℕ) → Trial p fresh x → Tidy (swap_dispatcher fresh x)
  unfolding swap_dispatcher
  Tidy-swap_dispatcher p x fresh t =
      let e = t.in_use in
      (
        stop_dispatcher-running x.active x
            ∙ ap (λ a. without a x.running) e
            ∙ ap (without p.active) t.both
            ∙ without-old fresh p.active t.apart,
        rw (stop_dispatcher-made x.active x) t.below,
      )
