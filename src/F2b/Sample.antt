-- ===== src/F2b/Sample.antt =====
-- A runtime and a server of one jail, for runs and examples of internal/f2b.
use logfort.Prelude.{refl, ap, Option, none, some, List, [], ◌∷◌, if◌then◌else◌, ℤ, pos}
use logfort.F2b.Value.{Text, ascii, text_eq, str, empty_heap, format_int}
use logfort.F2b.Actions.{Runtime}
use logfort.F2b.Client.{refused, sscan_int, Reply, payload}
use logfort.F2b.Numerals.{sscan_int-format_int, as_int-format_int}
use logfort.F2b.Manager.{JailSettings}
use logfort.F2b.Jail.{JailServer}

abbrev pub runtime : Runtime
runtime = record {
  grow = λ c m. c;
  print = λ h v. some (ascii "?");
  depth = 100;
  parse_float = λ s. none;
}

-- A server that keeps the settings of a jail by name, and answers in text.
abbrev pub JailState : Type 0
JailState = Text → ℤ

abbrev pub keep : Text → Option ℤ → JailState → Reply × JailState
keep param none w = (refused (ascii "invalid"), w)
keep param (some n) w =
    (payload (str (format_int n)) empty_heap, λ q. if text_eq param q then n else w q)

abbrev pub jail_exec : List Text → JailState → Reply × JailState
jail_exec (_ ∷ _ ∷ param ∷ []) w = (payload (str (format_int (w param))) empty_heap, w)
jail_exec (_ ∷ _ ∷ param ∷ val ∷ []) w = keep param (sscan_int val) w
jail_exec _ w = (refused (ascii "invalid"), w)

abbrev pub jail_server : JailServer JailState (λ f. pos 0) jail_exec (ascii "sshd")
jail_server = record {
  setting = λ w param. w param;
  kept = λ param n w q. if text_eq param q then n else w q;
  answer = λ n. str (format_int n);
  answer-int = as_int-format_int (λ f. pos 0);
  gets = λ param w. refl;
  sets = λ param n w h. ap (λ o. keep param o w) (sscan_int-format_int n h);
  setting-kept = λ p q n w. refl;
}

abbrev pub defaults : JailState
defaults param = pos 600

abbrev pub wanted : JailSettings
wanted = record { max_retry = pos 3; ban_time_secs = pos 0; find_time_secs = pos 1200 }
