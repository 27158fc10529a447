-- ===== src/F2b/Manager.antt =====
-- internal/f2b/manager.go: the settings of one jail and its bans, over Exec, which is a parameter: it
-- takes a command and the server's state.
use logfort.Prelude.{
  Bool, ℕ, zero, suc, not, Option, none, some, List, [], ◌∷◌, ◌++◌, map, if◌then◌else◌, ℤ, pos,
  ltb_ℤ, eqb_ℤ,
}
use logfort.Go.Bytes.{contains, to_lower, trim_space, fields_from, lines, after_colon}
use logfort.Prelude.{true, false}
use logfort.F2b.Value.{
  Text, ascii, text_eq, Value, str, Heap, elements, as_slice, stringify, format_int,
}
use logfort.F2b.Actions.{Runtime}
use logfort.F2b.Client.{Reply, payload, refused, crashed, as_int}

pub record JailSettings : Type 0 where
  pub max_retry : ℤ
  pub ban_time_secs : ℤ
  pub find_time_secs : ℤ

-- A value or the text of an error; a panic is one that no caller tests for.
pub data Answer {ℓ} (A : Type ℓ) : Type ℓ where
  ok : A → Answer A
  err : Text → Answer A
  crash : Answer A

abbrev pub as_str : Value → Option Text
as_str (str s) = some s
as_str _ = none

-- Whether the slice of a key with two parts, the values of which are given, is the wanted one.
abbrev key_of : List Value → Option (Text × Value)
key_of (k ∷ v ∷ []) = elim (as_str k) [ none ↦ none | some s ↦ some (s, v) ]
key_of _ = none

-- The first that is found, of results of calls that may overflow the stack.
abbrev first_found : List (Option (Option (List Value))) → Option (Option (List Value))
first_found [] = some none
first_found (none ∷ rs) = none
first_found (some none ∷ rs) = first_found rs
first_found (some (some vs) ∷ rs) = some (some vs)

abbrev list_or_nil : Heap → Value → Option (List Value)
list_or_nil h v = elim (as_slice v) [ none ↦ none | some (a, n) ↦ some (elements h a n) ]

-- findStatusList, with as many nested calls as the stack has room for; none is an overflow, some none is nil.
unfoldable pub find_status_list : ℕ → Heap → Value → Text → Option (Option (List Value))
unfolding elements
find_status_list zero h v key = none
find_status_list (suc depth) h v key = elim (list_or_nil h v) [
  | none ↦ some none
  | some lst ↦
      let inner = first_found (map (λ e. find_status_list depth h e key) lst) in
      elim (key_of lst) [
        | none ↦ inner
        | some (k, val) ↦ if text_eq k key then some (list_or_nil h val) else inner
      ]
]

-- The banned_texts that are not empty.
abbrev banned_texts : List Value → List Text
banned_texts [] = []
banned_texts (v ∷ vs) = elim (as_str v) [
  | none ↦ banned_texts vs
  | some [] ↦ banned_texts vs
  | some (c ∷ s) ↦ (c ∷ s) ∷ banned_texts vs
]

-- What stands behind the colon of the first line that has a list of banned addresses.
abbrev banned_line : List Text → List Text
banned_line [] = []
banned_line (line ∷ ls) =
    let on = banned_line ls in
    if not (contains (ascii "Banned IP list") line)
    then on
    else elim (after_colon line) [ none ↦ [] | some raw ↦ fields_from [] (trim_space raw) ]

-- parseBannedFromCLI; Fields of an empty text is empty.
unfoldable pub parse_banned_from_cli : Text → List Text
unfolding lines contains
parse_banned_from_cli out = banned_line (lines [] out)

-- What comes after a call that gave a value.
abbrev pub after {ℓ} : {W A B : Type ℓ} → Answer A × W → (A → W → Answer B × W) → Answer B × W
after (ok a, w) f = f a w
after (err e, w) f = (err e, w)
after (crash, w) f = (crash, w)

infixl 5 ◌>>=◌
abbrev pub ◌>>=◌ {ℓ} :
    {W A B : Type ℓ} → (W → Answer A × W) → (A → W → Answer B × W) → W → Answer B × W
◌>>=◌ m f w = after (m w) f

module _ {W : Type 0} (rt : Runtime) (truncate : ℕ → ℤ) (exec : List Text → W → Reply × W)
    (jail : Text) where
  abbrev non_numeric : Text → Option Text → Answer ℤ
  non_numeric param none = crash
  non_numeric param (some s) =
      err (ascii "f2b: get " ++ jail ++ ascii " " ++ param ++ ascii ": non-numeric reply " ++ s)

  abbrev pub numeric : Text → Option Text → Option ℤ → Answer ℤ
  numeric param said none = non_numeric param said
  numeric param said (some n) = ok n

  abbrev pub int_of_reply : Text → Reply → Answer ℤ
  int_of_reply param crashed = crash
  int_of_reply param (refused e) = err e
  int_of_reply param (payload v h) =
      numeric param (stringify rt.print rt.depth h v) (as_int truncate v)

  unfoldable pub get_int : Text → W → Answer ℤ × W
  get_int param w =
      let (r, w') = exec (ascii "get" ∷ jail ∷ param ∷ []) w in (int_of_reply param r, w')

  abbrev pub mismatch : Text → ℤ → Bool → Answer (Unit {0})
  mismatch param n true = ok tt
  mismatch param n false =
      err (
        ascii "f2b: set "
        ++ jail
        ++ ascii " "
        ++ param
        ++ ascii ": server reports "
        ++ format_int n)

  -- The server gives the effective value back; what is no number is not checked.
  abbrev pub same : Text → ℤ → Option ℤ → Answer (Unit {0})
  same param val none = ok tt
  same param val (some n) = mismatch param n (eqb_ℤ n val)

  abbrev pub echoed : Text → ℤ → Reply → Answer (Unit {0})
  echoed param val crashed = crash
  echoed param val (refused e) = err (
      ascii "f2b: set "
      ++ jail
      ++ ascii " "
      ++ param
      ++ ascii "="
      ++ format_int val
      ++ ascii ": "
      ++ e)
  echoed param val (payload v h) = same param val (as_int truncate v)

  unfoldable pub set_int : Text → ℤ → W → Answer (Unit {0}) × W
  set_int param val w =
      let (r, w') = exec (ascii "set" ∷ jail ∷ param ∷ format_int val ∷ []) w in
      (echoed param val r, w')

  -- GetJail; of the settings that it returns with an error no caller makes use.
  unfoldable pub get_jail : W → Answer JailSettings × W
  get_jail = do
    max_retry ← get_int (ascii "maxretry")
    ban_time ← get_int (ascii "bantime")
    find_time ← get_int (ascii "findtime")
    λ w. (
      ok (record { max_retry = max_retry; ban_time_secs = ban_time; find_time_secs = find_time }),
      w,
    )

  -- Sets a field that is positive.
  abbrev pub set_positive : Text → ℤ → W → Answer (Unit {0}) × W
  set_positive param val w =
      let sent = set_int param val w in if ltb_ℤ (pos 0) val then sent else (ok tt, w)

  unfoldable pub set_jail : JailSettings → W → Answer (Unit {0}) × W
  set_jail s = do
    _ ← set_positive (ascii "maxretry") s.max_retry
    _ ← set_positive (ascii "bantime") s.ban_time_secs
    set_positive (ascii "findtime") s.find_time_secs

  -- An error that says what was asked for already holds is none.
  abbrev unless_says : Text → Reply → Answer (Unit {0})
  unless_says words crashed = crash
  unless_says words (payload v h) = ok tt
  unless_says words (refused e) = if contains words (to_lower e) then ok tt else err e

  unfoldable pub ban_ip : Text → W → Answer (Unit {0}) × W
  ban_ip ip w =
      let (r, w') = exec (ascii "set" ∷ jail ∷ ascii "banip" ∷ ip ∷ []) w in
      (unless_says (ascii "already banned") r, w')

  unfoldable pub unban_ip : Text → W → Answer (Unit {0}) × W
  unban_ip ip w =
      let (r, w') = exec (ascii "set" ∷ jail ∷ ascii "unbanip" ∷ ip ∷ []) w in
      (unless_says (ascii "not banned") r, w')

  abbrev banned_in : Heap → Value → Answer (List Text)
  banned_in h v = elim (as_str v) [
    | some out ↦ ok (parse_banned_from_cli out)
    | none ↦ elim (find_status_list rt.depth h v (ascii "Banned IP list")) [
      | none ↦ crash
      | some none ↦ ok []
      | some (some lst) ↦ ok (banned_texts lst)
    ]
  ]

  abbrev banned_of : Reply → Answer (List Text)
  banned_of crashed = crash
  banned_of (refused e) = err e
  banned_of (payload v h) = banned_in h v

  unfoldable pub banned : W → Answer (List Text) × W
  unfolding find_status_list parse_banned_from_cli
  banned w = let (r, w') = exec (ascii "status" ∷ jail ∷ []) w in (banned_of r, w')

  abbrev pong : Option Text → Answer (Unit {0})
  pong none = crash
  pong (some s) =
      if contains (ascii "pong") (to_lower s)
      then ok tt
      else err (ascii "f2b: unexpected ping reply: " ++ s)

  abbrev ponged : Reply → Answer (Unit {0})
  ponged crashed = crash
  ponged (refused e) = err e
  ponged (payload v h) = pong (stringify rt.print rt.depth h v)

  unfoldable pub ping : W → Answer (Unit {0}) × W
  ping w = let (r, w') = exec (ascii "ping" ∷ []) w in (ponged r, w')
