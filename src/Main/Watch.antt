-- ===== src/Main/Watch.antt =====
-- The watchers of cmd/logfort/main.go: runVitalsAlerts, runCertWatch and runPortsWatch, each as what one
-- tick does. An alert goes to Server.SendAlert; a percentage is counted in tenths, as the snapshot
-- rounds it.
use logfort.Prelude.{
  ℕ, ◌+◌, ◌-◌, String, Bool, true, false, not, ◌&&◌, ◌||◌, Option, none, some, List, [], ◌∷◌, ◌==◌,
  ltb, leb, eqb, if◌then◌else◌, or_default, length, select, any_where, ℤ, pos, ltb_ℤ,
}
use logfort.Prelude.Assoc.{lookup, insert}

-- What runVitalsAlerts reads of a hostinfo.Snapshot.
pub record Snapshot : Type 0 where
  pub available : Bool
  pub disk_total : ℕ
  pub disk_used_percent : ℕ

abbrev pub crit_percent : ℕ
crit_percent = 900

-- Whether an alert is sent, and `alerted` afterwards.
unfoldable pub vitals_tick : Snapshot → Bool → Bool × Bool
vitals_tick snap alerted =
    if not snap.available || eqb snap.disk_total 0
    then (false, alerted)
    else if leb crit_percent snap.disk_used_percent && not alerted
    then (true, true)
    else if ltb snap.disk_used_percent (crit_percent - 50)
    then (false, false)
    else (false, alerted)

-- How many alerts a run of ticks sends.
unfoldable pub vitals_alerts : List Snapshot → Bool → ℕ
unfolding vitals_tick
vitals_alerts [] alerted = 0
vitals_alerts (snap ∷ snaps) alerted =
    let (sent, alerted') = vitals_tick snap alerted in
    let rest = vitals_alerts snaps alerted' in if sent then rest + 1 else rest

-- netwatch.CertStatus, as far as an error was met or not.
pub record CertStatus : Type 0 where
  pub target : String
  pub days_left : ℤ
  pub error : String

abbrev pub warn_days : ℤ
warn_days = pos 14

abbrev pub warned_of : String → List (String × Bool) → Bool
warned_of t warned = or_default (lookup t warned) false

-- One endpoint of a check: whether it is alerted about, and `warned` afterwards.
unfoldable pub cert_tick : String → CertStatus → List (String × Bool) → Bool × List (String × Bool)
cert_tick t cs warned =
    if not (cs.error == "")
    then (false, warned)
    else if not (ltb_ℤ warn_days cs.days_left)
    then (if warned_of t warned then (false, warned) else (true, insert t true warned))
    else (false, insert t false warned)

-- The checks of the endpoints in order, and how many alerts there are for one of them.
unfoldable pub cert_alerts : String → List (String × CertStatus) → List (String × Bool) → ℕ
unfolding cert_tick
cert_alerts t [] warned = 0
cert_alerts t ((u, cs) ∷ checks) warned =
    let (sent, warned') = cert_tick u cs warned in
    let rest = cert_alerts t checks warned' in if sent && u == t then rest + 1 else rest

abbrev pub has_port : ℕ → List ℕ → Bool
has_port p = any_where (eqb p)

-- A scan that found these ports: the ports of the alert, none where there is no alert, and the
-- baseline afterwards. The ports are distinct and ascending.
unfoldable pub scan : List ℕ → Option (List ℕ) → List ℕ × Option (List ℕ)
scan ports none = ([], some ports)
scan ports (some baseline) =
    let added = select (λ p. not (has_port p baseline)) ports in
    if eqb (length added) 0 then ([], some baseline) else (added, some ports)
