-- ===== src/Parse/Lines.antt =====
-- internal/parse/parser.go: from a line of a log to an event, none where no pattern matches. Reading a date is a
-- parameter.
use logfort.Prelude.{
  ℕ, ◌+◌, String, Bool, true, false, not, ◌&&◌, ◌||◌, Option, none, some, List, [], ◌∷◌, ◌==◌, ltb,
  eqb, if◌then◌else◌, is_some, or_default, pos, pos_part,
}
use Prim.Native.Char.{code}
use logfort.Go.Strings.{trim_space, fields}
use logfort.Go.Strconv.{parse_int}
use logfort.Go.Regexp.{append, Groups, named}
use logfort.Parse.Event.{Event, event_of}
use logfort.Parse.Services.{
  dovecot_pattern, postfix_pattern, sudo_success_pattern, sudo_fail_pattern, user_add_pattern,
  user_del_pattern, fail2ban_pattern, fail2ban_prefix, fail2ban_ts, nginx_error,
  nginx_auth_patterns, nginx_access,
}
use logfort.Parse.Patterns.{Pattern, find_submatch, syslog_prefix, rfc3339_prefix, sshd_patterns}

-- time.Parse for each layout, and the local date of a stamp without a year: times are Unix seconds.
pub record Calendar : Type 0 where
  -- RFC3339Nano, and RFC3339 where that fails.
  pub rfc3339 : String → Option ℕ
  -- "Jan 2 15:04:05", with the year that time.Date is given.
  pub in_year : String → ℕ → Option ℕ
  pub year : ℕ → ℕ
  -- AddDate(-1, 0, 0).
  pub year_before : ℕ → ℕ
  -- "2006-01-02 15:04:05" and "2006/01/02 15:04:05" in the local zone.
  pub dashed : String → Option ℕ
  pub slashed : String → Option ℕ
  -- "02/Jan/2006:15:04:05 -0700".
  pub access : String → Option ℕ

-- strings.Join(…, " ").
abbrev spaced : List String → String
spaced [] = ""
spaced (w ∷ []) = w
spaced (w ∷ v ∷ ws) = append w (append " " (spaced (v ∷ ws)))

-- strings.HasSuffix, of a text behind a prefix.
abbrev has_end : String → String → Bool
has_end w String.[] = w == ""
has_end w (String.◌∷◌ c s) = w == String.◌∷◌ c s || has_end w s

abbrev has_start : String → String → Bool
has_start String.[] s = true
has_start (String.◌∷◌ c w) String.[] = false
has_start (String.◌∷◌ c w) (String.◌∷◌ d s) = eqb (code c) (code d) && has_start w s

abbrev is_mail_server : String → Bool
is_mail_server proc = has_start "postfix" proc && has_end "smtpd" proc

abbrev detail_of : String → String → String
detail_of reason cmd = if cmd == "" then reason else append reason (append ": " cmd)

-- Atoi of a group of digits, which fails only out of range, and then gives the largest int.
abbrev pub port_of : String → ℕ
port_of s = if s == "" then 0 else pos_part (or_default (parse_int s) (pos 0x7fffffffffffffff))

-- UserValid: `invalid` is the text of that group.
abbrev valid_user : String → String → Option Bool
valid_user typ invalid =
    if typ == "failed_password"
    then some (invalid == "")
    else if typ == "accepted"
    then some true
    else none

abbrev pub sshd_event : ℕ → String → String → Groups → Event
sshd_event ts line typ m = record (event_of ts (named "ip" m) typ "sshd") {
  username = trim_space (named "user" m);
  raw = line;
  port = port_of (named "port" m);
  auth_method = named "method" m;
  user_valid = valid_user typ (named "invalid" m);
}

-- The event of the first pattern that matches.
unfoldable pub first_match :
    (String → Groups → Event) → List (String × Pattern) → String → Option Event
first_match event [] msg = none
first_match event ((typ, p) ∷ ps) msg = elim (find_submatch p msg) [
  | some m ↦ some (event typ m)
  | none ↦ first_match event ps msg
]

unfoldable pub parse_sshd_message : ℕ → String → String → Option Event
unfolding first_match
parse_sshd_message ts msg line = first_match (sshd_event ts line) sshd_patterns msg

abbrev mapped : (Groups → Event) → Option Groups → Option Event
mapped event none = none
mapped event (some m) = some (event m)

unfoldable pub parse_mail_message : ℕ → String → String → Pattern → String → Option Event
parse_mail_message ts msg line re source =
    mapped
      (λ m. record (event_of ts (named "ip" m) "mail_auth_fail" source) {
        username = named "user" m;
        raw = line;
      })
      (find_submatch re msg)

unfoldable pub parse_sudo_message : ℕ → String → String → Option Event
parse_sudo_message ts msg line = elim (find_submatch sudo_success_pattern msg) [
  | some m ↦ some (record (event_of ts "" "sudo_session" "sudo") {
    username = named "user" m;
    detail = append "as " (append (named "target" m) (append ": " (named "cmd" m)));
    raw = line;
  })
  | none ↦
      mapped
        (λ m. record (event_of ts "" "sudo_fail" "sudo") {
          username = named "user" m;
          detail = detail_of (named "reason" m) (named "cmd" m);
          raw = line;
        })
        (find_submatch sudo_fail_pattern msg)
]

unfoldable pub parse_user_message : ℕ → String → String → String → Option Event
parse_user_message ts msg line proc =
    let added =
      mapped
        (λ m. record (event_of ts "" "user_add" "useradd") {
          username = named "name" m;
          detail = append "uid=" (append (named "uid" m) (append " shell=" (named "shell" m)));
          raw = line;
        })
        (find_submatch user_add_pattern msg) in
    let deleted =
      mapped
        (λ m. record (event_of ts "" "user_del" "userdel") {
          username = named "name" m;
          raw = line;
        })
        (find_submatch user_del_pattern msg) in
    if proc == "useradd" then added else deleted

abbrev by_process : ℕ → String → String → String → Option Event
by_process ts proc msg line =
    if proc == "sshd" || proc == "sshd-session"
    then parse_sshd_message ts msg line
    else if proc == "dovecot"
    then parse_mail_message ts msg line dovecot_pattern "dovecot"
    else if is_mail_server proc
    then parse_mail_message ts msg line postfix_pattern "postfix"
    else if proc == "sudo"
    then parse_sudo_message ts msg line
    else if proc == "useradd" || proc == "userdel"
    then parse_user_message ts msg line proc
    else none

module _ (cal : Calendar) (now : ℕ) where
  -- A stamp that would be more than a day ahead is one of last year.
  abbrev pub rolled_back : Option ℕ → Option ℕ
  rolled_back none = none
  rolled_back (some t) = some (if ltb (now + 86400) t then cal.year_before t else t)

  unfoldable pub parse_traditional_ts : String → Option ℕ
  parse_traditional_ts ts = rolled_back (cal.in_year (spaced (fields ts)) (cal.year now))

  unfoldable pub parse_timestamp : String → Option ℕ
  unfolding parse_traditional_ts
  parse_timestamp ts = elim (cal.rfc3339 ts) [ some t ↦ some t | none ↦ parse_traditional_ts ts ]

  abbrev dispatched : String → Groups → Option Event
  dispatched line m = elim (parse_timestamp (named "ts" m)) [
    | none ↦ none
    | some ts ↦ by_process ts (named "proc" m) (named "msg" m) line
  ]

  unfoldable pub parse_syslog_line : String → Option Event
  unfolding parse_timestamp
  parse_syslog_line line = elim (find_submatch rfc3339_prefix line) [
    | some m ↦ dispatched line m
    | none ↦ elim (find_submatch syslog_prefix line) [ none ↦ none | some m ↦ dispatched line m ]
  ]

  unfoldable pub parse_nginx_error_line : String → Option Event
  unfolding first_match
  parse_nginx_error_line line = elim (find_submatch nginx_error line) [
    | none ↦ none
    | some m ↦ elim (cal.slashed (named "ts" m)) [
      | none ↦ none
      | some ts ↦
          first_match
            (λ typ pm. record (event_of ts (named "ip" pm) typ "nginx") {
              username = named "user" pm;
              raw = line;
            })
            nginx_auth_patterns (named "msg" m)
    ]
  ]

  abbrev access_event : String → Groups → Option Event
  access_event line m =
      if not (named "status" m == "401") then none else elim (cal.access (named "ts" m)) [
        | none ↦ none
        | some ts ↦ some (record (event_of ts (named "ip" m) "http_auth_fail" "nginx") {
          username = if named "user" m == "-" then "" else named "user" m;
          raw = line;
        })
      ]

  unfoldable pub parse_nginx_access_line : String → Option Event
  parse_nginx_access_line line = elim (find_submatch nginx_access line) [
    | none ↦ none
    | some m ↦ access_event line m
  ]

  abbrev fail2ban_event : ℕ → String → Groups → Event
  fail2ban_event ts line m =
      record (event_of ts (named "ip" m) (if named "action" m == "Unban" then "unban" else "ban")
        "fail2ban") { username = named "jail" m; raw = line }

  unfoldable pub parse_fail2ban_line : String → Option Event
  parse_fail2ban_line line = elim (find_submatch fail2ban_ts line) [
    | none ↦ none
    | some m ↦ elim (cal.dashed (named "ts" m)) [
      | none ↦ none
      | some ts ↦ mapped (fail2ban_event ts line) (find_submatch fail2ban_pattern line)
    ]
  ]

  abbrev parse_trimmed : String → Option Event
  parse_trimmed line =
      if line == ""
      then none
      else if is_some (find_submatch fail2ban_prefix line)
      then parse_fail2ban_line line
      else if is_some (find_submatch nginx_error line)
      then parse_nginx_error_line line
      else if is_some (find_submatch nginx_access line)
      then parse_nginx_access_line line
      else parse_syslog_line line

  unfoldable pub parse_line : String → Option Event
  unfolding parse_syslog_line parse_nginx_error_line parse_nginx_access_line parse_fail2ban_line
  parse_line line = parse_trimmed (trim_space line)
