-- ===== src/Main/WatchLaws.antt =====
-- When the watchers alert (cmd/logfort/main.go).
use logfort.Prelude.{
  ℕ, ◌+◌, ◌≤◌, String, ◌≡◌, refl, ap, ◌∙◌, inl, inr, Bool, true, false, not, ◌&&◌, some, List, [],
  ◌∷◌, arith, ◌==◌, eq_iff, ltb, eqb, if◌then◌else◌, eqb_iff, Bool-cases, or_default, length,
  select, count_where, ltb_ℤ,
}
use logfort.Prelude.Assoc.{insert, lookup-insert}
use logfort.Main.Watch.{
  Snapshot, vitals_alerts, CertStatus, warn_days, warned_of, cert_alerts, has_port, scan,
}

-- A reading below 85 %.
abbrev pub drained : Snapshot → Bool
drained snap = snap.available && (not (eqb snap.disk_total 0) && ltb snap.disk_used_percent 850)

-- Each alert but the first needs a reading below 85 % since the one before: however the readings
-- swing around 90 %, there is at most one alert more than there are such readings.
pub vitals_alerts_bound :
    (snaps : List Snapshot) (alerted : Bool)
    → vitals_alerts snaps alerted ≤ (if alerted then 0 else 1) + count_where drained snaps
unfolding vitals_alerts
vitals_alerts_bound [] alerted = omega arith
vitals_alerts_bound (snap ∷ snaps) alerted = ground (
  arith,
  vitals_alerts_bound snaps true,
  vitals_alerts_bound snaps false,
  vitals_alerts_bound snaps alerted,
)

-- A check that found more than 14 days left.
abbrev pub renewed : String → String × CertStatus → Bool
renewed t (u, cs) = cs.error == "" && (u == t && ltb_ℤ warn_days cs.days_left)

-- An endpoint is alerted about at most once more than its certificate was found renewed in between,
-- whatever the other endpoints do and however many checks fail.
pub cert_alerts_bound :
    (t : String) (checks : List (String × CertStatus)) (warned : List (String × Bool))
    → cert_alerts t checks warned
      ≤ (if warned_of t warned then 0 else 1) + count_where (renewed t) checks
unfolding cert_alerts
cert_alerts_bound t [] warned = omega arith
cert_alerts_bound t ((u, cs) ∷ checks) warned = ground (
  arith,
  lookup-insert u t true warned,
  lookup-insert u t false warned,
  eq_iff u t,
  cert_alerts_bound t checks warned,
  cert_alerts_bound t checks (insert u true warned),
  cert_alerts_bound t checks (insert u false warned),
)

covered-of_none :
    (ys xs : List ℕ)
    → length (select (λ p. not (has_port p ys)) xs) ≡ 0
    → (p : ℕ) → has_port p xs ≡ true
    → has_port p ys ≡ true
covered-of_none ys [] h p k = ground arith
covered-of_none ys (x ∷ xs) h p k =
    let found : has_port x ys ≡ true = ground arith in
    elim (Bool-cases (eqb p x)) [
      | inl e ↦ ap (λ z. has_port z ys) ((eqb_iff p x).0 e) ∙ found
      | inr e ↦ covered-of_none ys xs (ground arith) p (ground arith)
    ]

none-of_covered :
    (ys xs : List ℕ)
    → ((p : ℕ) → has_port p xs ≡ true → has_port p ys ≡ true)
    → select (λ p. not (has_port p ys)) xs ≡ []
none-of_covered ys [] h = refl
none-of_covered ys (x ∷ xs) h =
    rw (h x (ground arith)) (none-of_covered ys xs (λ p k. h p (ground arith)))

nil-of_length : (xs : List ℕ) → length xs ≡ 0 → xs ≡ []
nil-of_length [] h = refl
nil-of_length (x ∷ xs) h = absurd (omega arith)

-- After the first scan a scan alerts about exactly its ports that the baseline lacks, and about none of
-- them where the same ports are found again.
pub scan_lem :
    (ports baseline : List ℕ)
    → let (added, after) = scan ports (some baseline) in
      (added ≡ select (λ p. not (has_port p baseline)) ports)
      × ((p : ℕ) → has_port p ports ≡ true → has_port p (or_default after []) ≡ true)
      × ((scan ports after).0 ≡ [])
unfolding scan
scan_lem ports baseline = elim (Bool-cases (eqb (length added) 0)) [
  | inl e ↦
      let gone = nil-of_length added (ground arith) in
      rw (e, gone) (refl, covered-of_none baseline ports (ground arith), refl)
  | inr e ↦ rw e (refl, (λ p h. h), rw (none-of_covered ports ports (λ p h. h)) refl)
]
  where
    added : List ℕ
    added = select (λ p. not (has_port p baseline)) ports
