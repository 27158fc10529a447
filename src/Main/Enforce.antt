-- ===== src/Main/Enforce.antt =====
-- runF2BEnforce of cmd/logfort/main.go over the manager of internal/f2b: a tick brings the jail in line.
use logfort.Prelude.{
  if◌then◌else◌, ℕ, zero, suc, ◌≡◌, refl, sym, ap, ◌∙◌, inl, inr, true, false, Option, none, some,
  List, arith, Bool-cases, is_some, ℤ, pos, negsuc, ◌≤ℤ◌, eqb_ℤ→eq, String, [], Option-cases,
}
use logfort.Go.Strconv.{parse_int}
use logfort.Prelude.Assoc.{lookup}
use logfort.Store.Rows.{SqliteStore, ok}
use logfort.F2b.Value.{Text}
use logfort.F2b.Actions.{Runtime}
use logfort.F2b.Client.{Reply}
use logfort.F2b.Manager.{JailSettings, Answer, get_jail, set_jail}
use logfort.F2b.Numerals.{IsInt64}
use mathlib.Core.Path.{subst}
use logfort.F2b.Jail.{
  settings_of-set_jail, InRange-updated, JailServer, updated, replaced, get_jail-settings_of,
  settings_of, InRange,
}
use logfort.Main.Ticks.{
  corrected, Jail, matches, agrees, enforce, apply, unmanaged, desired_settings, get_setting,
  int_setting,
}

abbrev value_of {ℓ} : {A : Type ℓ} → Answer A → Option A
value_of (Answer.ok a) = some a
value_of (Answer.err e) = none
value_of Answer.crash = none

-- The manager as runF2BEnforce sees it.
abbrev pub manager : {W : Type 0} → Runtime → (ℕ → ℤ) → (List Text → W → Reply × W) → Text → Jail W
manager rt truncate exec jail = record {
  read_settings = λ w. let (a, w') = get_jail rt truncate exec jail w in (value_of a, w');
  write_settings =
      λ s w. let (a, w') = set_jail rt truncate exec jail s w in (is_some (value_of a), w');
}

-- Settings that are not negative, and 64-bit numbers.
abbrev pub Sensible : JailSettings → Type 0
Sensible s =
    (IsInt64 s.max_retry × IsInt64 s.ban_time_secs × IsInt64 s.find_time_secs)
    × (pos 0 ≤ℤ s.max_retry)
    × (pos 0 ≤ℤ s.ban_time_secs)
    × (pos 0 ≤ℤ s.find_time_secs)

agrees-replaced : (new old : ℤ) → pos 0 ≤ℤ new → agrees new (replaced new old) ≡ true
agrees-replaced (pos zero) old h = ground arith
agrees-replaced (pos (suc n)) old h = ground arith
agrees-replaced (negsuc n) old h = absurd (omega arith)

matches-updated : (s old : JailSettings) → Sensible s → matches s (updated s old) ≡ true
matches-updated s old (r, a, b, c) =
    let p = agrees-replaced s.max_retry old.max_retry a in
    let q = agrees-replaced s.ban_time_secs old.ban_time_secs b in
    let t = agrees-replaced s.find_time_secs old.find_time_secs c in rw (p, q, t) refl

same-replaced : (new old : ℤ) → agrees new old ≡ true → replaced new old ≡ old
same-replaced new old h = ground (arith, eqb_ℤ→eq new (pos 0), eqb_ℤ→eq old new)

-- The number that a key has in the table of settings, 0 where it has none.
abbrev pub number_of : String → List (String × String) → ℤ
number_of key settings = elim (lookup key settings) [
  | none ↦ pos 0
  | some v ↦ elim (parse_int v) [ none ↦ pos 0 | some n ↦ n ]
]

-- What the table asks the jail to be.
abbrev pub asked : List (String × String) → JailSettings
asked settings = record {
  max_retry = number_of "f2b.maxretry" settings;
  ban_time_secs = number_of "f2b.bantime" settings;
  find_time_secs = number_of "f2b.findtime" settings;
}

int_setting-number_of :
    (o : Option String)
    → int_setting (ok o)
      ≡ elim o [ none ↦ pos 0 | some v ↦ elim (parse_int v) [ none ↦ pos 0 | some n ↦ n ] ]
int_setting-number_of none = refl
int_setting-number_of (some v) = elim (Option-cases (parse_int v)) [
  | inl e ↦ rw e refl
  | inr (n, e) ↦ rw e refl
]

desired_settings-quiet :
    (s : SqliteStore)
    → s.faults ≡ []
    → let r = desired_settings s in
      (r.0 ≡ asked s.settings) × (r.1.faults ≡ []) × (r.1.settings ≡ s.settings)
unfolding desired_settings get_setting
desired_settings-quiet s f =
    let p = int_setting-number_of (lookup "f2b.maxretry" s.settings) in
    let q = int_setting-number_of (lookup "f2b.bantime" s.settings) in
    let r = int_setting-number_of (lookup "f2b.findtime" s.settings) in
    rw f (λ i. record { max_retry = p i; ban_time_secs = q i; find_time_secs = r i }, refl, refl)

module _ {W : Type 0} (rt : Runtime) (truncate : ℕ → ℤ) (exec : List Text → W → Reply × W)
    (jail : Text) (server : JailServer W truncate exec jail) where
  abbrev live : W → JailSettings
  live w = settings_of rt truncate exec jail server w

  abbrev mgr : Jail W
  mgr = manager rt truncate exec jail

  reads-live : (w : W) → InRange (live w) → mgr.read_settings w ≡ (some (live w), w)
  reads-live w h =
      ap (λ (r : Answer JailSettings × W). (value_of r.0, r.1))
        (get_jail-settings_of rt truncate exec jail server w h)

  abbrev set_to : JailSettings → W → W
  set_to desired w = (set_jail rt truncate exec jail desired w).1

  enforce-of_match :
      (desired : JailSettings) (w : W)
      → InRange (live w)
      → matches desired (live w) ≡ true
      → enforce mgr desired w ≡ w
  enforce-of_match desired w h e = ap (corrected mgr desired) (reads-live w h) ∙ rw e refl

  enforce-of_mismatch :
      (desired : JailSettings) (w : W)
      → InRange (live w)
      → matches desired (live w) ≡ false
      → enforce mgr desired w ≡ set_to desired w
  enforce-of_mismatch desired w h e = ap (corrected mgr desired) (reads-live w h) ∙ rw e refl

  enforce_converges :
      (desired : JailSettings) (w : W)
      → Sensible desired
      → InRange (live w)
      → let w' = enforce mgr desired w in
        (matches desired (live w') ≡ true) × (enforce mgr desired w' ≡ w')
  enforce_converges desired w s h = elim (Bool-cases (matches desired (live w))) [
    | inl e ↦
        let same = enforce-of_match desired w h e in
        (
          ap (λ v. matches desired (live v)) same ∙ e,
          ap (enforce mgr desired) same ∙ same ∙ sym same,
        )
    | inr e ↦
        let set = enforce-of_mismatch desired w h e in
        let now : live (set_to desired w) ≡ updated desired (live w) =
          settings_of-set_jail rt truncate exec jail server desired w s.0 in
        let agreed : matches desired (live (set_to desired w)) ≡ true =
          ap (matches desired) now ∙ matches-updated desired (live w) s in
        let range : InRange (live (set_to desired w)) =
          subst (InRange) (sym now) (InRange-updated desired (live w) s.0 h) in
        let again = enforce-of_match desired (set_to desired w) range agreed in
        (
          ap (λ v. matches desired (live v)) set ∙ agreed,
          ap (enforce mgr desired) set ∙ again ∙ sym set,
        )
  ]

  same-updated :
      (desired old : JailSettings) → matches desired old ≡ true → updated desired old ≡ old
  same-updated desired old h =
      let p = same-replaced desired.max_retry old.max_retry (ground arith) in
      let q = same-replaced desired.ban_time_secs old.ban_time_secs (ground arith) in
      let r = same-replaced desired.find_time_secs old.find_time_secs (ground arith) in
      λ i. record { max_retry = p i; ban_time_secs = q i; find_time_secs = r i }

  live-enforce :
      (desired : JailSettings) (w : W)
      → Sensible desired
      → InRange (live w)
      → live (enforce mgr desired w) ≡ updated desired (live w)
  live-enforce desired w s h = elim (Bool-cases (matches desired (live w))) [
    | inl e ↦ ap live (enforce-of_match desired w h e) ∙ sym (same-updated desired (live w) e)
    | inr e ↦
        ap live (enforce-of_mismatch desired w h e)
        ∙ settings_of-set_jail rt truncate exec jail server desired w s.0
  ]

  ticked : JailSettings → W → W
  ticked desired w = if unmanaged desired then w else enforce mgr desired w

  apply-ticked :
      (s : SqliteStore) (w : W)
      → s.faults ≡ []
      → ◌≡◌ {A = SqliteStore × W}
          (apply mgr (s, w))
          ((desired_settings s).1, ticked (asked s.settings) w)
  unfolding apply ticked
  apply-ticked s w f =
      let s' = (desired_settings s).1 in
      split (desired_settings s).0 s' ∙ ap (λ d. (s', ticked d w)) (desired_settings-quiet s f).0
    where
      split :
          (d : JailSettings) (s' : SqliteStore)
          → ◌≡◌ {A = SqliteStore × W}
              (if unmanaged d then (s', w) else (s', enforce mgr d w))
              (s', ticked d w)
      split d s' = elim (Bool-cases (unmanaged d)) [ inl u ↦ rw u refl | inr u ↦ rw u refl ]

  live-ticked :
      (desired : JailSettings) (w : W)
      → Sensible desired
      → InRange (live w)
      → live (ticked desired w) ≡ updated desired (live w)
  unfolding ticked
  live-ticked desired w n h = elim (Bool-cases (unmanaged desired)) [
    | inl u ↦
        ap live (ap (λ b. if b then w else enforce mgr desired w) u)
        ∙ sym (same-updated desired (live w) (ground arith))
    | inr u ↦
        ap live (ap (λ b. if b then w else enforce mgr desired w) u) ∙ live-enforce desired w n h
  ]

  ticked_twice :
      (desired : JailSettings) (w : W)
      → Sensible desired
      → InRange (live w)
      → ticked desired (ticked desired w) ≡ ticked desired w
  unfolding ticked
  ticked_twice desired w n h = elim (Bool-cases (unmanaged desired)) [
    | inl u ↦ ap (λ b. if b then ticked desired w else enforce mgr desired (ticked desired w)) u
    | inr u ↦
        let once = ap (λ b. if b then w else enforce mgr desired w) u in
        ap (λ b. if b then ticked desired w else enforce mgr desired (ticked desired w)) u
        ∙ ap (enforce mgr desired) once
        ∙ (enforce_converges desired w n h).1
        ∙ sym once
  ]

  -- Over a server that keeps what it is told and holds numbers of 64 bits, and a table of settings that can be
  -- read, in which "f2b.maxretry", "f2b.bantime" and "f2b.findtime" are no negative numbers: one tick gives
  -- the jail each of the three that is positive and leaves the others as they were, and another tick
  -- changes nothing.
  pub apply_converges :
      (s : SqliteStore) (w : W)
      → s.faults ≡ []
      → Sensible (asked s.settings)
      → InRange (live w)
      → let (s', w') = apply mgr (s, w) in
        (live w' ≡ updated (asked s.settings) (live w)) × ((apply mgr (s', w')).1 ≡ w')
  apply_converges s w f n h =
      let (read, calm, kept) = desired_settings-quiet s f in
      let w₁ = ticked (asked s.settings) w in
      let again =
        ap (λ r. r.1) (apply-ticked (desired_settings s).1 w₁ calm)
        ∙ ap (λ a. ticked (asked a) w₁) kept in
      subst (λ r. (live r.1 ≡ updated (asked s.settings) (live w)) × ((apply mgr r).1 ≡ r.1))
        (sym (apply-ticked s w f))
        (live-ticked (asked s.settings) w n h, again ∙ ticked_twice (asked s.settings) w n h)
