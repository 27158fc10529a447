-- ===== src/Parse/Patterns.antt =====
-- The regular expressions of internal/parse/parser.go.
use logfort.Prelude.{ℕ, zero, suc, String, Bool, not, ◌&&◌, ◌||◌, Option, List, [], ◌∷◌, leb, eqb}
use logfort.Go.Regexp.{
  Regex, one, lit, cat, alt, most, fewest, star, group, at_end, opt, some_of, Groups, find_at_start,
  find,
}

abbrev between : ℕ → ℕ → ℕ → Bool
between lo hi c = leb lo c && leb c hi

-- \d, \w, \s, \S and a dot.
abbrev pub is_digit : ℕ → Bool
is_digit c = between b'0' b'9' c

abbrev pub is_word : ℕ → Bool
is_word c = is_digit c || (between b'a' b'z' c || (between b'A' b'Z' c || eqb c b'_'))

abbrev pub is_blank : ℕ → Bool
is_blank c = eqb c 32 || (eqb c 9 || (eqb c 10 || (eqb c 12 || eqb c 13)))

abbrev pub not_blank : ℕ → Bool
not_blank c = not (is_blank c)

abbrev pub dot : ℕ → Bool
dot c = not (eqb c 10)

-- [0-9a-fA-F:.]
abbrev pub ip_char : ℕ → Bool
ip_char c =
    is_digit c || (between b'a' b'f' c || (between b'A' b'F' c || (eqb c b':' || eqb c b'.')))

-- [^x].
abbrev pub other_than : ℕ → ℕ → Bool
other_than x c = not (eqb c x)

abbrev pub cats : List Regex → Regex
cats [] = lit ""
cats (r ∷ []) = r
cats (r ∷ q ∷ rs) = cat r (cats (q ∷ rs))

abbrev pub any_of : List Regex → Regex
any_of [] = lit ""
any_of (r ∷ []) = r
any_of (r ∷ q ∷ rs) = alt r (any_of (q ∷ rs))

abbrev pub repeated : ℕ → (ℕ → Bool) → Regex
repeated zero p = lit ""
repeated (suc zero) p = one p
repeated (suc (suc n)) p = cat (one p) (repeated (suc n) p)

-- An expression with ^ at its start, or without.
pub data Pattern : Type 0 where
  anchored searched : Regex → Pattern

-- FindStringSubmatch.
unfoldable pub find_submatch : Pattern → String → Option Groups
unfolding find_at_start find
find_submatch (anchored r) s = find_at_start r s
find_submatch (searched r) s = find r s

abbrev pub ips : Regex
ips = group "ip" (some_of ip_char)

abbrev pub ports : Regex
ports = group "port" (some_of is_digit)

abbrev pub clock : Regex
clock =
    cats (repeated 2 is_digit ∷ lit ":" ∷ repeated 2 is_digit ∷ lit ":" ∷ repeated 2 is_digit ∷ [])

abbrev pub dashed_date : Regex
dashed_date =
    cats (repeated 4 is_digit ∷ lit "-" ∷ repeated 2 is_digit ∷ lit "-" ∷ repeated 2 is_digit ∷ [])

-- \s+(?P<host>\S+)\s+(?P<proc>\w+(?:[-/]\w+)*)(?:\[(?P<pid>\d+)\])?:\s*(?P<msg>.*)$
abbrev host_and_message : Regex
host_and_message = cats (
    some_of is_blank
    ∷ group "host" (some_of not_blank)
    ∷ some_of is_blank
    ∷ group "proc"
        (cat (some_of is_word) (star (cat (one (λ c. eqb c b'-' || eqb c b'/')) (some_of is_word))))
    ∷ opt (cats (lit "[" ∷ group "pid" (some_of is_digit) ∷ lit "]" ∷ []))
    ∷ lit ":"
    ∷ most is_blank
    ∷ group "msg" (most dot)
    ∷ at_end
    ∷ [])

abbrev pub syslog_prefix : Pattern
syslog_prefix = anchored (
    cat
      (group "ts" (
        cats (
          repeated 3 is_word
          ∷ some_of is_blank
          ∷ some_of is_digit
          ∷ some_of is_blank
          ∷ clock
          ∷ [])))
      host_and_message)

abbrev pub rfc3339_prefix : Pattern
rfc3339_prefix = anchored (
    cat
      (group "ts" (
        cats (
          dashed_date
          ∷ lit "T"
          ∷ clock
          ∷ opt (cat (lit ".") (some_of is_digit))
          ∷ alt (lit "Z") (
              cats (
                one (λ c. eqb c b'+' || eqb c b'-')
                ∷ repeated 2 is_digit
                ∷ lit ":"
                ∷ repeated 2 is_digit
                ∷ []))
          ∷ [])))
      host_and_message)

-- What stands behind the user in the lines of sshd.
abbrev pub from_port : String → Regex
from_port end = cats (lit " from " ∷ ips ∷ lit " port " ∷ ports ∷ lit end ∷ [])

abbrev pub user : Regex
user = group "user" (some_of not_blank)

abbrev accepted : Pattern
accepted = anchored (
    cats (
      lit "Accepted "
      ∷ group "method" (
          any_of (
            lit "password"
            ∷ lit "publickey"
            ∷ lit "keyboard-interactive/pam"
            ∷ lit "keyboard-interactive"
            ∷ []))
      ∷ lit " for "
      ∷ user
      ∷ from_port " ssh2"
      ∷ []))

-- (?P<user>.+?) and what stands behind it.
abbrev pub failed_user : Regex
failed_user = cat (group "user" (cat (one dot) (fewest dot))) (from_port " ssh2")

abbrev pub failed_password : Pattern
failed_password = anchored (
    cats (
      lit "Failed "
      ∷ any_of (lit "password" ∷ lit "keyboard-interactive/pam" ∷ lit "keyboard-interactive" ∷ [])
      ∷ lit " for "
      ∷ opt (group "invalid" (lit "invalid user "))
      ∷ failed_user
      ∷ []))

abbrev invalid_user : Pattern
invalid_user = anchored (cats (lit "Invalid user " ∷ user ∷ from_port "" ∷ []))

abbrev max_auth : Pattern
max_auth = searched (
    cats (
      lit "maximum authentication attempts exceeded for "
      ∷ opt (lit "invalid user ")
      ∷ user
      ∷ from_port ""
      ∷ []))

abbrev disconnect_preauth : Pattern
disconnect_preauth = anchored (
    cats (
      alt (lit "Connection closed") (lit "Disconnected")
      ∷ lit " "
      ∷ alt (lit "by") (lit "from")
      ∷ lit " "
      ∷ alt (lit "authenticating") (lit "invalid")
      ∷ lit " user "
      ∷ user
      ∷ lit " "
      ∷ ips
      ∷ lit " port "
      ∷ ports
      ∷ []))

abbrev pam_failure : Pattern
pam_failure = searched (
    cats (
      lit "pam_unix(sshd:auth): authentication failure;"
      ∷ fewest dot
      ∷ lit "rhost="
      ∷ ips
      ∷ opt (cats (some_of is_blank ∷ lit "user=" ∷ user ∷ []))
      ∷ []))

abbrev pub sshd_patterns : List (String × Pattern)
sshd_patterns =
    ("accepted", accepted)
    ∷ ("failed_password", failed_password)
    ∷ ("invalid_user", invalid_user)
    ∷ ("max_auth", max_auth)
    ∷ ("disconnect_preauth", disconnect_preauth)
    ∷ ("pam_failure", pam_failure)
    ∷ []
