-- ===== src/Parse/Services.antt =====
-- The regular expressions of internal/parse/parser.go for mail servers, sudo, accounts, fail2ban and nginx.
use logfort.Prelude.{String, ◌&&◌, List, [], ◌∷◌}
use logfort.Go.Regexp.{Regex, one, lit, cat, alt, most, fewest, group, at_end, opt, some_of}
use logfort.Parse.Patterns.{
  is_digit, is_word, is_blank, not_blank, dot, other_than, cats, any_of, repeated, Pattern, ips,
  user, clock, dashed_date, anchored, searched,
}

abbrev pub dovecot_pattern : Pattern
dovecot_pattern = anchored (
    cats (
      any_of (lit "imap" ∷ lit "pop3" ∷ lit "submission" ∷ lit "managesieve" ∷ [])
      ∷ lit "-login: "
      ∷ most dot
      ∷ lit "(auth failed, "
      ∷ some_of is_digit
      ∷ lit " attempts"
      ∷ most (other_than b')')
      ∷ lit "): user=<"
      ∷ group "user" (most (other_than b'>'))
      ∷ lit ">"
      ∷ most dot
      ∷ lit "rip="
      ∷ ips
      ∷ []))

abbrev pub postfix_pattern : Pattern
postfix_pattern = anchored (
    cats (
      lit "warning: "
      ∷ most not_blank
      ∷ lit "["
      ∷ ips
      ∷ lit "]: SASL "
      ∷ some_of not_blank
      ∷ lit " authentication failed"
      ∷ opt (cat (lit ":") (fewest dot))
      ∷ opt (cat (lit ", sasl_username=") user)
      ∷ at_end
      ∷ []))

abbrev sudo_tail : Regex
sudo_tail = cats (
    lit " ; TTY="
    ∷ some_of not_blank
    ∷ lit " ; PWD="
    ∷ some_of not_blank
    ∷ lit " ; USER="
    ∷ some_of not_blank
    ∷ lit " ; COMMAND="
    ∷ group "cmd" (some_of dot)
    ∷ at_end
    ∷ [])

abbrev pub sudo_success_pattern : Pattern
sudo_success_pattern = anchored (
    cats (
      user
      ∷ lit " : TTY="
      ∷ some_of not_blank
      ∷ lit " ; PWD="
      ∷ some_of not_blank
      ∷ lit " ; USER="
      ∷ group "target" (some_of not_blank)
      ∷ lit " ; COMMAND="
      ∷ group "cmd" (some_of dot)
      ∷ at_end
      ∷ []))

abbrev pub sudo_fail_pattern : Pattern
sudo_fail_pattern =
    anchored
      (cats (user ∷ lit " : " ∷ group "reason" (cat (one dot) (fewest dot)) ∷ sudo_tail ∷ []))

abbrev pub user_add_pattern : Pattern
user_add_pattern = searched (
    cats (
      lit "new user: name="
      ∷ group "name" (some_of (other_than b','))
      ∷ lit ", UID="
      ∷ group "uid" (some_of is_digit)
      ∷ lit ", GID="
      ∷ some_of is_digit
      ∷ lit ", home="
      ∷ some_of (other_than b',')
      ∷ lit ", shell="
      ∷ group "shell" (some_of (λ c. not_blank c && other_than b',' c))
      ∷ []))

abbrev pub user_del_pattern : Pattern
user_del_pattern =
    anchored (cats (lit "delete user '" ∷ group "name" (some_of (other_than b'\'')) ∷ lit "'" ∷ []))

abbrev pub fail2ban_pattern : Pattern
fail2ban_pattern = searched (
    cats (
      lit "["
      ∷ group "jail" (some_of (other_than b']'))
      ∷ lit "]"
      ∷ some_of is_blank
      ∷ group "action" (alt (lit "Ban") (lit "Unban"))
      ∷ some_of is_blank
      ∷ ips
      ∷ []))

abbrev spaced_stamp : Regex
spaced_stamp = cats (dashed_date ∷ lit " " ∷ clock ∷ [])

abbrev pub fail2ban_prefix : Pattern
fail2ban_prefix = anchored (
    cats (
      group "ts" spaced_stamp
      ∷ lit ","
      ∷ some_of is_digit
      ∷ some_of is_blank
      ∷ lit "fail2ban"
      ∷ []))

-- The text of the whole match is the group here.
abbrev pub fail2ban_ts : Pattern
fail2ban_ts = anchored (group "ts" spaced_stamp)

abbrev pub nginx_error : Pattern
nginx_error = anchored (
    cats (
      group "ts" (
        cats (
          repeated 4 is_digit
          ∷ lit "/"
          ∷ repeated 2 is_digit
          ∷ lit "/"
          ∷ repeated 2 is_digit
          ∷ lit " "
          ∷ clock
          ∷ []))
      ∷ lit " ["
      ∷ some_of is_word
      ∷ lit "] "
      ∷ some_of is_digit
      ∷ lit "#"
      ∷ some_of is_digit
      ∷ lit ": *"
      ∷ some_of is_digit
      ∷ lit " "
      ∷ group "msg" (some_of dot)
      ∷ at_end
      ∷ []))

abbrev quoted_user : Regex
quoted_user = cats (lit "user \"" ∷ group "user" (most (other_than b'"')) ∷ lit "\"" ∷ [])

abbrev pub nginx_auth_patterns : List (String × Pattern)
nginx_auth_patterns =
    (
      "http_auth_fail",
      searched (
          cats (lit "no user/password was provided for basic authentication, client: " ∷ ips ∷ [])),
    )
    ∷ (
      "http_auth_fail",
      searched (
          cats (
            quoted_user
            ∷ lit " was not found in \""
            ∷ some_of (other_than b'"')
            ∷ lit "\", client: "
            ∷ ips
            ∷ [])),
    )
    ∷ (
      "http_auth_fail",
      searched (cats (quoted_user ∷ lit ": password mismatch, client: " ∷ ips ∷ [])),
    )
    ∷ []

abbrev pub nginx_access : Pattern
nginx_access = anchored (
    cats (
      ips
      ∷ lit " - "
      ∷ user
      ∷ lit " ["
      ∷ group "ts" (some_of (other_than b']'))
      ∷ lit "] \""
      ∷ most (other_than b'"')
      ∷ lit "\" "
      ∷ group "status" (repeated 3 is_digit)
      ∷ lit " "
      ∷ []))
