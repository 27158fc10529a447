-- ===== src/Main/Ticks.antt =====
-- runRetention's cleanup and runF2BEnforce's apply, and the publish hook of cmd/logfort/main.go.
use logfort.F2b.Manager.{JailSettings}
use logfort.Prelude.{
  ℕ, String, Bool, ◌&&◌, ◌||◌, Option, none, some, List, [], ◌∷◌, if◌then◌else◌, or_default, ℤ, pos,
  pos_part, ltb_ℤ, eqb_ℤ,
}
use logfort.Go.Net.{Net}
use logfort.Go.Strconv.{parse_int}
use logfort.Prelude.Assoc.{lookup}
use logfort.Store.Rows.{SqliteStore, Result, ok, err, query}
use logfort.Store.Events.{delete_old_events}
use logfort.Parse.Event.{Event}
use logfort.Api.Server.{Server, publish_event, notify_event}
use logfort.Api.AutoBan.{Job, auto_ban_event, threat_ban_event}

-- GetSetting of internal/store/sqlite.go.
unfoldable pub get_setting : String → SqliteStore → Result (Option String) × SqliteStore
get_setting key = query λ s. lookup key s.settings

abbrev pub if_positive : Option ℤ → Option ℕ
if_positive none = none
if_positive (some n) = if ltb_ℤ (pos 0) n then some (pos_part n) else none

-- The value of a setting that is a positive number.
abbrev pub positive_setting : Result (Option String) → Option ℕ
positive_setting (err e) = none
positive_setting (ok none) = none
positive_setting (ok (some v)) = if_positive (parse_int v)

-- The retention period: the setting, where there is a usable one, else the configuration's.
unfoldable pub retention_days : ℕ → Result (Option String) → ℕ
retention_days default_days v = or_default (positive_setting v) default_days

-- The cleanup of runRetention.
unfoldable pub cleanup : (ℕ → ℤ → ℤ) → ℕ → ℕ → SqliteStore → Result ℕ × SqliteStore
unfolding get_setting retention_days
cleanup add_date now default_days s =
    let (v, s') = get_setting "general.retention_days" s in
    delete_old_events add_date now (retention_days default_days v) s'

abbrev pub no_settings : JailSettings
no_settings = record { max_retry = pos 0; ban_time_secs = pos 0; find_time_secs = pos 0 }

-- A setting that is a number, 0 where it is none.
abbrev pub int_setting : Result (Option String) → ℤ
int_setting (err e) = pos 0
int_setting (ok none) = pos 0
int_setting (ok (some v)) = or_default (parse_int v) (pos 0)

unfoldable pub desired_settings : SqliteStore → JailSettings × SqliteStore
unfolding get_setting
desired_settings s =
    let (a, s₁) = get_setting "f2b.maxretry" s in
    let (b, s₂) = get_setting "f2b.bantime" s₁ in
    let (c, s₃) = get_setting "f2b.findtime" s₂ in
    (
      record {
        max_retry = int_setting a;
        ban_time_secs = int_setting b;
        find_time_secs = int_setting c;
      },
      s₃,
    )

abbrev pub agrees : ℤ → ℤ → Bool
agrees wanted live = eqb_ℤ wanted (pos 0) || eqb_ℤ live wanted

abbrev pub matches : JailSettings → JailSettings → Bool
matches desired live =
    agrees desired.max_retry live.max_retry
    && (agrees desired.ban_time_secs live.ban_time_secs
        && agrees desired.find_time_secs live.find_time_secs)

abbrev pub unmanaged : JailSettings → Bool
unmanaged d =
    eqb_ℤ d.max_retry (pos 0) && (eqb_ℤ d.ban_time_secs (pos 0) && eqb_ℤ d.find_time_secs (pos 0))

-- A jail that can be read and set, over the state `J` of the fail2ban server.
pub record Jail (J : Type 0) : Type 0 where
  pub read_settings : J → Option JailSettings × J
  pub write_settings : JailSettings → J → Bool × J

module _ {J : Type 0} (mgr : Jail J) where
  abbrev pub set_desired : JailSettings → J → J
  set_desired desired j = (mgr.write_settings desired j).1

  -- What is done with the settings that were read, or with an error.
  abbrev pub corrected : JailSettings → Option JailSettings × J → J
  corrected desired (none, j) = set_desired desired j
  corrected desired (some live, j) = if matches desired live then j else set_desired desired j

  abbrev pub enforce : JailSettings → J → J
  enforce desired j = corrected desired (mgr.read_settings j)

  -- apply of runF2BEnforce.
  unfoldable pub apply : SqliteStore × J → SqliteStore × J
  unfolding desired_settings
  apply (s, j) =
      let (desired, s') = desired_settings s in
      if unmanaged desired then (s', j) else (s', enforce desired j)

abbrev pub jobs_of : Option Job → Option Job → List Job
jobs_of none none = []
jobs_of none (some k) = k ∷ []
jobs_of (some j) none = j ∷ []
jobs_of (some j) (some k) = k ∷ j ∷ []

-- What the pipeline's publish hook does with a stored event, and the jobs that it starts.
unfoldable pub publish_hook :
    {F : Type 0} → Net → (String → Option ℤ) → ℕ → Event → Server F → List Job × Server F
publish_hook net parse_duration now ev s =
    let (auto, s₁) =
      auto_ban_event net parse_duration now ev (notify_event ev (publish_event ev s)) in
    let (threat, s₂) = threat_ban_event net now ev s₁ in (jobs_of auto threat, s₂)
