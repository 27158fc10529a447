-- ===== src/F2b/Jail.antt =====
-- What SetJail sets, GetJail reads, and BanIP and UnbanIP may be repeated: internal/f2b/manager.go over a
-- server that keeps what it is told.
use logfort.Prelude.{
  ℕ, ◌≡◌, refl, sym, ap, ◌∙◌, inl, inr, Bool, true, false, Option, some, List, [], ◌∷◌, arith,
  if◌then◌else◌, Bool-cases, ℤ, pos, ltb_ℤ, eqb_ℤ,
}
use mathlib.Core.Path.{subst}
use logfort.F2b.Value.{Text, ascii, text_eq, Value, format_int, empty_heap}
use logfort.F2b.Actions.{Runtime}
use logfort.F2b.Client.{Reply, payload, as_int}
use logfort.F2b.Value.{stringify}
use logfort.F2b.Manager.{
  after, ◌>>=◌, mismatch, JailSettings, Answer, ok, numeric, int_of_reply, same, echoed, get_int,
  set_int, get_jail, set_jail, set_positive,
}
use logfort.F2b.Numerals.{IsInt64}

-- A server that keeps the settings of a jail, and answers a command to set one with its value.
pub record JailServer (W : Type 0) (truncate : ℕ → ℤ) (exec : List Text → W → Reply × W)
    (jail : Text) : Type 0 where
  pub setting : W → Text → ℤ
  pub kept : Text → ℤ → W → W
  pub answer : ℤ → Value
  pub answer-int : (n : ℤ) → IsInt64 n → as_int truncate (answer n) ≡ some n
  pub gets :
      (param : Text) (w : W)
      → exec (ascii "get" ∷ jail ∷ param ∷ []) w
        ≡ (payload (answer (setting w param)) empty_heap, w)
  pub sets :
      (param : Text) (n : ℤ) (w : W)
      → IsInt64 n
      → exec (ascii "set" ∷ jail ∷ param ∷ format_int n ∷ []) w
        ≡ (payload (answer n) empty_heap, kept param n w)
  pub setting-kept :
      (p q : Text) (n : ℤ) (w : W)
      → setting (kept p n w) q ≡ (if text_eq p q then n else setting w q)

-- A setting after it was set to this, if this is positive.
abbrev pub replaced : ℤ → ℤ → ℤ
replaced new old = if ltb_ℤ (pos 0) new then new else old

-- The settings after others were set where they are positive.
abbrev pub updated : JailSettings → JailSettings → JailSettings
updated s old = record {
  max_retry = replaced s.max_retry old.max_retry;
  ban_time_secs = replaced s.ban_time_secs old.ban_time_secs;
  find_time_secs = replaced s.find_time_secs old.find_time_secs;
}

abbrev pub InRange : JailSettings → Type 0
InRange s = IsInt64 s.max_retry × IsInt64 s.ban_time_secs × IsInt64 s.find_time_secs

IsInt64-replaced : (new old : ℤ) → IsInt64 new → IsInt64 old → IsInt64 (replaced new old)
IsInt64-replaced new old h k = elim (Bool-cases (ltb_ℤ (pos 0) new)) [
  | inl e ↦ rw e h
  | inr e ↦ rw e k
]

pub InRange-updated : (s old : JailSettings) → InRange s → InRange old → InRange (updated s old)
InRange-updated s old h k =
    (IsInt64-replaced _ _ h.0 k.0, IsInt64-replaced _ _ h.1 k.1, IsInt64-replaced _ _ h.2 k.2)

if-same : (b : Bool) (n : ℤ) → n ≡ (if b then n else n)
if-same true n = refl
if-same false n = refl

eqb_ℤ-refl : (n : ℤ) → eqb_ℤ n n ≡ true
eqb_ℤ-refl n = ground arith

module _ {W : Type 0} (rt : Runtime) (truncate : ℕ → ℤ) (exec : List Text → W → Reply × W)
    (jail : Text) (server : JailServer W truncate exec jail) where
  abbrev said : Value → Option Text
  said v = stringify rt.print rt.depth empty_heap v

  get_int-setting :
      (param : Text) (w : W)
      → IsInt64 (server.setting w param)
      → get_int rt truncate exec jail param w ≡ (ok (server.setting w param), w)
  unfolding get_int
  get_int-setting param w h =
      ap (λ (r : Reply × W). (int_of_reply rt truncate exec jail param r.0, r.1))
        (server.gets param w)
      ∙ ap
          (λ o. (
            numeric rt truncate exec jail param (said (server.answer (server.setting w param))) o,
            w,
          ))
          (server.answer-int (server.setting w param) h)

  set_int-kept :
      (param : Text) (n : ℤ) (w : W)
      → IsInt64 n
      → set_int rt truncate exec jail param n w ≡ (ok tt, server.kept param n w)
  unfolding set_int
  set_int-kept param n w h =
      ap (λ (r : Reply × W). (echoed rt truncate exec jail param n r.0, r.1))
        (server.sets param n w h)
      ∙ ap (λ o. (same rt truncate exec jail param n o, server.kept param n w))
          (server.answer-int n h)
      ∙ ap (λ b. (mismatch rt truncate exec jail param n b, server.kept param n w)) (eqb_ℤ-refl n)

  -- The server after a positive value was set.
  abbrev kept_positive : Text → ℤ → W → W
  kept_positive param n w = if ltb_ℤ (pos 0) n then server.kept param n w else w

  set_positive-kept :
      (param : Text) (n : ℤ) (w : W)
      → IsInt64 n
      → set_positive rt truncate exec jail param n w ≡ (ok tt, kept_positive param n w)
  set_positive-kept param n w h = elim (Bool-cases (ltb_ℤ (pos 0) n)) [
    | inl e ↦ rw e (set_int-kept param n w h)
    | inr e ↦ rw e refl
  ]

  setting-kept_positive :
      (p q : Text) (n : ℤ) (w : W)
      → server.setting (kept_positive p n w) q
        ≡ (if text_eq p q then replaced n (server.setting w q) else server.setting w q)
  setting-kept_positive p q n w = elim (Bool-cases (ltb_ℤ (pos 0) n)) [
    | inl e ↦ rw e (server.setting-kept p q n w)
    | inr e ↦ rw e (if-same (text_eq p q) (server.setting w q))
  ]

  -- The settings of a state that GetJail reads.
  abbrev pub settings_of : W → JailSettings
  settings_of w = record {
    max_retry = server.setting w (ascii "maxretry");
    ban_time_secs = server.setting w (ascii "bantime");
    find_time_secs = server.setting w (ascii "findtime");
  }

  pub get_jail-settings_of :
      (w : W) → InRange (settings_of w) → get_jail rt truncate exec jail w ≡ (ok (settings_of w), w)
  unfolding get_jail
  get_jail-settings_of w (a, b, c) =
      let got = settings_of w in
      let last : ℤ → ℤ → ℤ → W → Answer JailSettings × W =
        λ m b f v. (ok (record { max_retry = m; ban_time_secs = b; find_time_secs = f }), v) in
      let get : Text → W → Answer ℤ × W = get_int rt truncate exec jail in
      ap (λ r. after r (λ m. get (ascii "bantime") >>= λ b. get (ascii "findtime") >>= last m b))
        (get_int-setting (ascii "maxretry") w a)
      ∙ ap (λ r. after r (λ b. get (ascii "findtime") >>= last got.max_retry b))
          (get_int-setting (ascii "bantime") w b)
      ∙ ap (λ r. after r (last got.max_retry got.ban_time_secs))
          (get_int-setting (ascii "findtime") w c)

  abbrev kept_all : JailSettings → W → W
  kept_all s w = kept_positive (ascii "findtime") s.find_time_secs (
      kept_positive (ascii "bantime") s.ban_time_secs
        (kept_positive (ascii "maxretry") s.max_retry w))

  set_jail-kept_all :
      (s : JailSettings) (w : W)
      → InRange s
      → set_jail rt truncate exec jail s w ≡ (ok tt, kept_all s w)
  unfolding set_jail
  set_jail-kept_all s w (a, b, c) =
      let w₁ = kept_positive (ascii "maxretry") s.max_retry w in
      let w₂ = kept_positive (ascii "bantime") s.ban_time_secs w₁ in
      let set : Text → ℤ → W → Answer (Unit {0}) × W = set_positive rt truncate exec jail in
      ap
        (λ r. after r (λ _.
          set (ascii "bantime") s.ban_time_secs >>= λ _. set (ascii "findtime") s.find_time_secs))
        (set_positive-kept (ascii "maxretry") s.max_retry w a)
      ∙ ap (λ r. after r (λ _. set (ascii "findtime") s.find_time_secs))
          (set_positive-kept (ascii "bantime") s.ban_time_secs w₁ b)
      ∙ set_positive-kept (ascii "findtime") s.find_time_secs w₂ c

  settings_of-kept_all :
      (s : JailSettings) (w : W) → settings_of (kept_all s w) ≡ updated s (settings_of w)
  settings_of-kept_all s w =
      let m = ascii "maxretry" in
      let b = ascii "bantime" in
      let f = ascii "findtime" in
      let w₁ = kept_positive m s.max_retry w in
      let w₂ = kept_positive b s.ban_time_secs w₁ in
      let set_last = λ (q : Text). setting-kept_positive f q s.find_time_secs w₂ in
      let set_before = λ (q : Text). setting-kept_positive b q s.ban_time_secs w₁ in
      let set_first = λ (q : Text). setting-kept_positive m q s.max_retry w in
      let p : server.setting (kept_all s w) m ≡ replaced s.max_retry (server.setting w m) =
        set_last m ∙ set_before m ∙ set_first m in
      let q : server.setting (kept_all s w) b ≡ replaced s.ban_time_secs (server.setting w b) =
        set_last b ∙ set_before b ∙ ap (replaced s.ban_time_secs) (set_first b) in
      let r : server.setting (kept_all s w) f ≡ replaced s.find_time_secs (server.setting w f) =
        set_last f ∙ ap (replaced s.find_time_secs) (set_before f ∙ set_first f) in
      λ i. record { max_retry = p i; ban_time_secs = q i; find_time_secs = r i }

  pub settings_of-set_jail :
      (s : JailSettings) (w : W)
      → InRange s
      → settings_of (set_jail rt truncate exec jail s w).1 ≡ updated s (settings_of w)
  settings_of-set_jail s w h =
      ap (λ (r : Answer (Unit {0}) × W). settings_of r.1) (set_jail-kept_all s w h)
      ∙ settings_of-kept_all s w

  -- Over a server that keeps what it is told and holds numbers of 64 bits: SetJail succeeds, and GetJail then
  -- reads each field that was positive as it was set, and each other field as it was before.
  pub get_jail-set_jail :
      (s : JailSettings) (w : W)
      → InRange s
      → InRange (settings_of w)
      → let (answer, w') = set_jail rt truncate exec jail s w in
        (answer ≡ ok tt)
        × (get_jail rt truncate exec jail w' ≡ (ok (updated s (settings_of w)), w'))
  get_jail-set_jail s w h k =
      let sent = set_jail-kept_all s w h in
      let read_back = settings_of-kept_all s w in
      let in_range : InRange (updated s (settings_of w)) = (
        IsInt64-replaced _ _ h.0 k.0,
        IsInt64-replaced _ _ h.1 k.1,
        IsInt64-replaced _ _ h.2 k.2,
      ) in
      let w' = kept_all s w in
      let gets : get_jail rt truncate exec jail w' ≡ (ok (updated s (settings_of w)), w') =
        get_jail-settings_of w' (subst InRange (sym read_back) in_range)
        ∙ ap (λ t. (ok t, w')) read_back in
      (ap (λ (r : Answer (Unit {0}) × W). r.0) sent, rw sent gets)
