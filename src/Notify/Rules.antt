-- ===== src/Notify/Rules.antt =====
-- The rules of internal/notify/rules.go. A rule that remembers (new_country, threshold) carries its map.
-- `Fmt` holds what package fmt prints: a quoted text, a number and a time.Duration.
use logfort.Prelude.{
  ℕ, String, Bool, false, not, ◌||◌, Option, none, some, List, [], ◌∷◌, ◌==◌, leb, if◌then◌else◌,
  any_where, pos, ltb_ℤ,
}
use Prim.Native.String.{◌++◌ as str_append}
use logfort.Prelude.Assoc.{lookup, insert}
use logfort.Store.Rows.{SqliteStore, Result, ok, err}
use logfort.Store.Events.{count_ip_events}
use logfort.Parse.Event.{Event}
use logfort.Api.AutoBan.{before, unix_ℤ, elapsed}

pub record Fmt : Type 0 where
  pub quoted : String → String
  pub number : ℕ → String
  pub duration : ℕ → String

pub record Message : Type 0 where
  pub title : String
  pub body : String
  pub ip : String
  pub event_type : String
  pub country : String
  pub ts : ℕ

pub data Rule : Type 0 where
  accepted_login_rule ban_rule sudo_rule : Rule
  -- The countries seen.
  new_country_rule : List String → Rule
  -- The count, the window in nanoseconds, and when an address last made an alert.
  threshold_rule : ℕ → ℕ → List (String × ℕ) → Rule

abbrev pub texts : List String → String
texts [] = ""
texts (t ∷ ts) = str_append t (texts ts)

abbrev message : String → String → Event → Message
message title body ev = record {
  title = title;
  body = body;
  ip = ev.ip;
  event_type = ev.event_type;
  country = ev.geo.country;
  ts = ev.ts;
}

abbrev unless_empty : String → String → String
unless_empty s t = if s == "" then "" else t

abbrev in_country : Event → String
in_country ev = unless_empty ev.geo.country (texts (" (" ∷ ev.geo.country ∷ ")" ∷ []))

-- Whether the address made an alert within the window.
abbrev pub fired_recently : ℕ → ℕ → Option ℕ → Bool
fired_recently now window none = false
fired_recently now window (some last) = ltb_ℤ (elapsed now last) (pos window)

module _ (fmt : Fmt) where
  unfoldable pub match_accepted : Event → Option Message
  match_accepted ev =
      let place = unless_empty ev.geo.country (
        texts (
          " ("
          ∷ ev.geo.country
          ∷ unless_empty ev.geo.city (texts (", " ∷ ev.geo.city ∷ []))
          ∷ ")"
          ∷ [])) in
      let method = unless_empty ev.auth_method (texts ("\nMethod: " ∷ ev.auth_method ∷ [])) in
      if ev.event_type == "accepted"
      then some (
          message "SSH: Accepted Login"
            (texts
              ("User " ∷ fmt.quoted ev.username ∷ " logged in from " ∷ ev.ip ∷ place ∷ method ∷ []))
            ev)
      else none

  unfoldable pub match_ban : Event → Option Message
  match_ban ev =
      let source =
        if ev.source == "" || ev.source == "fail2ban"
        then ""
        else texts (" [" ∷ ev.source ∷ "]" ∷ []) in
      if ev.event_type == "ban"
      then some (
          message "SSH: IP Banned" (texts (ev.ip ∷ " was banned" ∷ in_country ev ∷ source ∷ [])) ev)
      else none

  abbrev sudo_title : String → Option String
  sudo_title t =
      if t == "sudo_fail"
      then some "Privilege: sudo failure"
      else if t == "user_add"
      then some "Account: user created"
      else if t == "user_del"
      then some "Account: user deleted"
      else none

  unfoldable pub match_sudo : Event → Option Message
  match_sudo ev = elim (sudo_title ev.event_type) [
    | none ↦ none
    | some title ↦ some (record {
      title = title;
      body = texts (ev.username ∷ unless_empty ev.detail (texts (" — " ∷ ev.detail ∷ [])) ∷ []);
      ip = "";
      event_type = ev.event_type;
      country = "";
      ts = ev.ts;
    })
  ]

  -- The message, where there is one, and the countries seen.
  unfoldable pub match_new_country : Event → List String → Option Message × List String
  match_new_country ev seen =
      let city = unless_empty ev.geo.city (texts (" (" ∷ ev.geo.city ∷ ")" ∷ [])) in
      if ev.geo.country == "" || any_where (λ c. c == ev.geo.country) seen then (none, seen) else (
        some (
            message "SSH: New Country"
              (texts ("First attack from " ∷ ev.geo.country ∷ city ∷ "\nIP: " ∷ ev.ip ∷ [])) ev),
        ev.geo.country ∷ seen,
      )

  abbrev over : ℕ → Result ℕ → Bool
  over n (err e) = false
  over n (ok count) = leb n count

  abbrev or_zero : Result ℕ → ℕ
  or_zero (err e) = 0
  or_zero (ok n) = n

  -- Whether match goes on to count, by what it loads of `fired`.
  unfoldable pub threshold_loads : ℕ → ℕ → Event → List (String × ℕ) → Bool
  threshold_loads window now ev fired =
      not (ev.ip == "" || fired_recently now window (lookup ev.ip fired))

  -- The count, and what is stored in `fired`, which another dispatch may have changed since the load.
  unfoldable pub threshold_counted :
      ℕ
      → ℕ
      → ℕ
      → Event
      → List (String × ℕ)
      → SqliteStore
      → Option Message × List (String × ℕ) × SqliteStore
  threshold_counted n window now ev fired st =
      let (count, st') = count_ip_events ev.ip (unix_ℤ (before now (pos window))) st in
      if over n count
      then (
        some (
            message "SSH: Threshold Exceeded"
              (texts (
                ev.ip
                ∷ " made "
                ∷ fmt.number (or_zero count)
                ∷ " attempts in the last "
                ∷ fmt.duration window
                ∷ in_country ev
                ∷ []))
              ev),
        insert ev.ip now fired,
        st',
      )
      else (none, fired, st')

  -- A match that no other dispatch comes between.
  unfoldable pub match_threshold :
      ℕ
      → ℕ
      → ℕ
      → Event
      → List (String × ℕ)
      → SqliteStore
      → Option Message × List (String × ℕ) × SqliteStore
  unfolding threshold_loads threshold_counted
  match_threshold n window now ev fired st =
      let counted = threshold_counted n window now ev fired st in
      if threshold_loads window now ev fired then counted else (none, fired, st)

  -- match of each rule, with the rule and the store afterwards.
  unfoldable pub match_rule : ℕ → Event → Rule → SqliteStore → Option Message × Rule × SqliteStore
  unfolding match_accepted match_ban match_sudo match_new_country match_threshold
  match_rule now ev accepted_login_rule st = (match_accepted ev, accepted_login_rule, st)
  match_rule now ev ban_rule st = (match_ban ev, ban_rule, st)
  match_rule now ev sudo_rule st = (match_sudo ev, sudo_rule, st)
  match_rule now ev (new_country_rule seen) st =
      let (m, seen') = match_new_country ev seen in (m, new_country_rule seen', st)
  match_rule now ev (threshold_rule n window fired) st =
      let (m, fired', st') = match_threshold n window now ev fired st in
      (m, threshold_rule n window fired', st')
