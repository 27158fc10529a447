-- ===== src/Notify/Digest.antt =====
-- The schedule of internal/notify/digest.go (digestSchedule.next). A local time is a day, counted from
-- 1970-01-01, and the second of that day: the zone's offset does not change.
use logfort.Prelude.{
  ℕ, zero, suc, ◌+◌, ◌-◌, ◌*◌, ◌/◌, ◌%◌, ◌≤◌, ◌<◌, ◌≡◌, refl, ◌⊎◌, inl, inr, true, arith, ◌==◌, ltb,
  if◌then◌else◌, Bool-cases,
}
use logfort.Notify.Parse.{DigestSchedule}

abbrev pub day : ℕ
day = 86400

abbrev pub digest_second : ℕ
digest_second = 9 * 3600

-- time.Weekday of a day, Sunday being 0: the first day was a Thursday.
abbrev pub weekday : ℕ → ℕ
weekday d = (d + 4) % 7

abbrev pub period : DigestSchedule → ℕ
period ds = if ds.label == "weekly" then 7 * day else day

-- `for !next.After(now)`, so many times at most.
unfoldable pub advance : ℕ → ℕ → ℕ → ℕ → ℕ
advance zero step now next = next
advance (suc fuel) step now next =
    let further = advance fuel step now (next + step) in if ltb now next then next else further

-- next, of a local time in seconds.
unfoldable pub next_firing : ℕ → DigestSchedule → ℕ → ℕ
unfolding advance
next_firing fuel ds now =
    let today = now / day in
    let first = today * day + digest_second in
    let ahead = (1 + 7 - weekday today) % 7 in
    advance fuel (period ds) now (if ds.label == "weekly" then first + ahead * day else first)

advance-of_after : (fuel step now next : ℕ) → now < next → advance fuel step now next ≡ next
unfolding advance
advance-of_after zero step now next h = refl
advance-of_after (suc fuel) step now next h = ground arith

-- From a time less than a step behind, one turn of the loop is enough.
advance_once :
    (fuel step now next : ℕ)
    → now < next + step
    → let n = advance (suc fuel) step now next in
      ((now < next) × (n ≡ next)) ⊎ ((next ≤ now) × (n ≡ next + step))
unfolding advance
advance_once fuel step now next h = elim (Bool-cases (ltb now next)) [
  | inl b ↦ rw b (inl (ground arith, refl))
  | inr b ↦ rw (b, advance-of_after fuel step now (next + step) h) (inr (ground arith, refl))
]

daily_bounds :
    (now first n : ℕ)
    → first ≡ now / 86400 * 86400 + 32400
    → ((now < first) × (n ≡ first)) ⊎ ((first ≤ now) × (n ≡ first + 86400))
    → (now < n) × (n ≤ now + 86400) × (n % 86400 ≡ 32400)
daily_bounds now first n e (inl (h, k)) = (omega arith, omega arith, omega arith)
daily_bounds now first n e (inr (h, k)) = (omega arith, omega arith, omega arith)

weekly_bounds :
    (now first n : ℕ)
    → first ≡ now / 86400 * 86400 + 32400 + (8 - (now / 86400 + 4) % 7) % 7 * 86400
    → ((now < first) × (n ≡ first)) ⊎ ((first ≤ now) × (n ≡ first + 604800))
    → (now < n) × (n ≤ now + 604800) × (n % 86400 ≡ 32400) × ((n / 86400 + 4) % 7 ≡ 1)
weekly_bounds now first n e (inl (h, k)) = (omega arith, omega arith, omega arith, omega arith)
weekly_bounds now first n e (inr (h, k)) = (omega arith, omega arith, omega arith, omega arith)

-- The next firing, with one turn of the loop or more: it lies behind `now`, by a day at most for the
-- daily digest and by a week at most for the weekly one, at nine o'clock, and the weekly one on a
-- Monday.
pub next_firing_lem :
    (fuel : ℕ) (ds : DigestSchedule) (now : ℕ)
    → let t = next_firing (suc fuel) ds now in
      (now < t)
      × (t ≤ now + period ds)
      × (t % day ≡ digest_second)
      × ((ds.label == "weekly") ≡ true → weekday (t / day) ≡ 1)
unfolding next_firing
next_firing_lem fuel ds now = elim (Bool-cases (ds.label == "weekly")) [
  | inl w ↦
      let first = now / day * day + digest_second + (8 - weekday (now / day)) % 7 * day in
      let (a, b, c, d) =
        weekly_bounds now first _ refl (advance_once fuel (7 * day) now first (omega arith)) in
      rw w (a, b, c, λ e. d)
  | inr w ↦
      let first = now / day * day + digest_second in
      let (a, b, c) =
        daily_bounds now first _ refl (advance_once fuel day now first (omega arith)) in
      rw w (a, b, c, λ e. ground arith)
]
