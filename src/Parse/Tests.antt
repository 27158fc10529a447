-- ===== src/Parse/Tests.antt =====
-- Lines of the logs that internal/parse reads.
use logfort.Prelude.{◌-◌, String, ◌≡◌, refl, true, false, none, some}
use logfort.Go.Strings.{trim_space}
use logfort.Go.Regexp.{append}
use logfort.Parse.Sshd.{prefix, tail_of, parse_sshd_message-failed}
use logfort.Parse.Event.{event_of}
use logfort.Parse.Lines.{port_of, Calendar, parse_sshd_message, parse_line, parse_sudo_message}

abbrev calendar : Calendar
calendar = record {
  rfc3339 = λ s. none;
  in_year = λ s y. some 1000;
  year = λ t. 2024;
  year_before = λ t. t - 31536000;
  dashed = λ s. some 2000;
  slashed = λ s. some 3000;
  access = λ s. some 4000;
}

abbrev failed_line : String
failed_line =
    "Jun 21 14:32:01 host sshd[12345]: Failed password for invalid user bob from 203.0.113.5 port 4242 ssh2"

reads_failed :
    parse_line calendar 5000 failed_line
    ≡ some (record (event_of 1000 "203.0.113.5" "failed_password" "sshd") {
      username = "bob";
      user_valid = some false;
      port = 4242;
      raw = failed_line;
    })
unfolding parse_line logfort.Go.Strings.trim_space logfort.Parse.Patterns.find_submatch
    logfort.Go.Regexp.named parse_sshd_message logfort.Go.Strconv.parse_int
reads_failed = refl

abbrev accepted_line : String
accepted_line = "Accepted publickey for alice from 2001:db8::1 port 22 ssh2: RSA"

reads_accepted :
    parse_sshd_message 7 accepted_line accepted_line
    ≡ some (record (event_of 7 "2001:db8::1" "accepted" "sshd") {
      username = "alice";
      user_valid = some true;
      auth_method = "publickey";
      port = 22;
      raw = accepted_line;
    })
unfolding parse_sshd_message logfort.Parse.Patterns.find_submatch logfort.Go.Regexp.named
    logfort.Go.Strings.trim_space logfort.Go.Strconv.parse_int
reads_accepted = refl

abbrev ban_line : String
ban_line = "2026-06-21 14:40:00,123 fail2ban.actions [1]: NOTICE  [sshd] Unban 203.0.113.5"

reads_ban :
    parse_line calendar 5000 ban_line
    ≡ some (record (event_of 2000 "203.0.113.5" "unban" "fail2ban") {
      username = "sshd";
      raw = ban_line;
    })
unfolding parse_line logfort.Go.Strings.trim_space logfort.Parse.Patterns.find_submatch
    logfort.Go.Regexp.named
reads_ban = refl

abbrev sudo_message : String
sudo_message =
    "bob : user NOT in sudoers ; TTY=pts/0 ; PWD=/home/bob ; USER=root ; COMMAND=/bin/bash"

reads_sudo :
    parse_sudo_message 7 sudo_message "raw"
    ≡ some (record (event_of 7 "" "sudo_fail" "sudo") {
      username = "bob";
      detail = "user NOT in sudoers: /bin/bash";
      raw = "raw";
    })
unfolding parse_sudo_message logfort.Parse.Patterns.find_submatch logfort.Go.Regexp.named
reads_sudo = refl

-- A client that says that its user is called "x from 198.51.100.9 port 22 ssh2", from 203.0.113.5: the event has
-- the address that the name holds.
parse_sshd_message-failed_example :
    parse_sshd_message 7
      (append prefix (append "x" (tail_of "198.51.100.9" "22" " from 203.0.113.5 port 4242 ssh2")))
      "raw"
    ≡ some (record (event_of 7 "198.51.100.9" "failed_password" "sshd") {
      username = trim_space "x";
      user_valid = some false;
      port = port_of "22";
      raw = "raw";
    })
parse_sshd_message-failed_example =
    parse_sshd_message-failed 7 "x" "198.51.100.9" "22" " from 203.0.113.5 port 4242 ssh2" "raw"
      (refl, tt)
      (
        refl,
        (refl, (refl, (refl, (refl, (refl, (refl, (refl, (refl, (refl, (refl, (refl, tt))))))))))),
      )
      (refl, (refl, tt))
