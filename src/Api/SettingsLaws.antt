-- ===== src/Api/SettingsLaws.antt =====
-- What a request to handlePostSettings of internal/api/api.go leaves behind: all of it, or nothing.
use logfort.Prelude.{
  if◌then◌else◌, arith, if◌then◌else◌, ℕ, String, ◌≡◌, refl, inr, Bool, Option, none, some, arith,
  ℤ,
}
use logfort.Go.Net.{Net}
use logfort.F2b.Manager.{JailSettings}
use logfort.Notify.Dispatcher.{Built, built, new_dispatcher}
use logfort.Api.Server.{Reply}
use logfort.Api.Settings.{SettingsRequest, Body, asks, Draft, draft_of}
use logfort.Api.SettingsHandler.{Panel, save_general, set_settings}
use logfort.Api.SettingsHandler.{relisted, notify_config}
use logfort.Api.SettingsSteps.{with_sent}
use logfort.Api.SettingsDraft.{Bounded}
use logfort.Api.SettingsDispatchers.{Kept, Outcome, Trial}
use logfort.Responder.Allowlist.{Allowlist}

module _ {J : Type 0} where
  module _ (set_jail : JailSettings → J → Bool × J) (net : Net)
      (parse_duration : String → Option ℤ) where
    -- apply_f2b changes nothing but the jail, and its refusals have the status 502.
    Applied : Panel J → Option ℕ → Option Reply × Panel J → Type 0
    Applied p fresh (none, x) = Trial p fresh x × Kept p x
    Applied p fresh (some r, x) = (r.status ≡ 502) × Trial p fresh x × Kept p x

    -- What a saved request has done: the draft's configuration is in force, the map is in the table, the allowlist
    -- has the extra entries if the body had some, and the new dispatcher is in use if the body had
    -- fields of the notifications.
    pub record Effect (q : SettingsRequest) (d : Draft) (fresh : Option ℕ) (p p' : Panel J)
        : Type 0 where
      pub cfg : p'.cfg ≡ d.proposed
      pub settings : p'.settings ≡ set_settings d.to_save p.settings
      pub allowlist :
          p'.allowlist
          ≡ relisted set_jail net parse_duration q.ignore_ips d.proposed.extra_ignore_ips
              p.allowlist
      pub active : p'.active ≡ (if d.notify_changed then fresh else p.active)

    abbrev unchanged : (p : Panel J) → Kept p p
    unchanged p = (refl, refl, refl, refl)

    -- The number that a dispatcher made now gets.
    abbrev pub numbered : Built → Panel J → Option ℕ
    numbered (built b) p = some p.made
    numbered _ p = none

    -- A body that makes no draft changes nothing at all; one that does has one of the outcomes.
    pub data Posted (now : ℕ) (body : Body) (p : Panel J) : Reply × Panel J → Type 0 where
      not_accepted : {r : Reply} → r.status ≡ 400 → Posted now body p (r, p)
      drafted :
          {x : Reply × Panel J} (q : SettingsRequest) (d : Draft) (fresh : Option ℕ)
          → body ≡ asks q
          → draft_of net parse_duration q p.env_cfg p.cfg ≡ inr d
          → Bounded q
          → (save_general q d).proposed ≡ with_sent q p.env_cfg p.cfg d.proposed.channels
          → fresh ≡ numbered (new_dispatcher parse_duration now (notify_config d.proposed)) p
          → Outcome p fresh (Effect q (save_general q d) fresh p) x
          → Posted now body p x
