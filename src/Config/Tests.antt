-- ===== src/Config/Tests.antt =====
-- A configuration with one channel from the environment, and settings some of which are unusable.
use logfort.Prelude.{String, ◌≡◌, refl, false, List, [], ◌∷◌, arith, eq_iff, pos}
use logfort.Prelude.Assoc.{lookup}
use logfort.Config.Overlay.{Config, overlay_settings}
use logfort.Config.OverlayLaws.{InBounds, overlay_settings-InBounds}

abbrev base : Config
base = record {
  channels = ("notify.slack.url", "https://env") ∷ ("notify.ntfy.url", "") ∷ [];
  notify_rules = [];
  extra_ignore_ips = [];
  retention_days = pos 90;
  language = "en";
  auto_ban_enabled = false;
  auto_ban_threshold = pos 50;
  auto_ban_window = "1h";
  auto_ban_ban_time = pos 86400;
  f2b_max_retry = pos 0;
  f2b_ban_time = pos 0;
  f2b_find_time = pos 0;
}

abbrev stored_settings : List (String × String)
stored_settings =
    ("notify.slack.url", "https://db")
    ∷ ("notify.ntfy.url", "https://n")
    ∷ ("general.retention_days", "-3")
    ∷ ("autoban.threshold", "7")
    ∷ ("general.language", "xx")
    ∷ ("notify.rules", "ban, sudo")
    ∷ []

base-InBounds : InBounds base
base-InBounds = record {
  retention = omega arith;
  threshold = omega arith;
  window = λ p. ground (arith, (eq_iff "1h" "").1 p);
  ban_time = omega arith;
  language = refl;
  ignored = tt;
}

overlay_settings-InBounds_example : InBounds (overlay_settings stored_settings base)
overlay_settings-InBounds_example = overlay_settings-InBounds stored_settings base base-InBounds

rules_read : (overlay_settings stored_settings base).notify_rules ≡ "ban" ∷ "sudo" ∷ []
unfolding overlay_settings lookup logfort.Go.Strings.split logfort.Go.Strings.trim_space
rules_read = refl

numbers_read :
    ((overlay_settings stored_settings base).auto_ban_threshold ≡ pos 7)
    × ((overlay_settings stored_settings base).retention_days ≡ pos 90)
unfolding overlay_settings lookup logfort.Go.Strconv.parse_int
numbers_read = (refl, refl)
