-- ===== src/Parse/Sshd.antt =====
-- What parseSSHDMessage of internal/parse/parser.go makes of a failed password.
use logfort.Prelude.{
  ℕ, ◌+◌, ◌-◌, String, ◌≡◌, refl, ap, ◌∙◌, Bool, true, false, Option, none, some, [], ◌∷◌, arith,
  eqb, drop,
}
use Prim.Native.Char.{Char, code}
use logfort.Go.Strings.{trim_space}
use logfort.Go.Regexp.{
  group, some_of, match_lit, append, len, take_front, read_part, Groups, Next, or_else, match,
  match_one, match_most, match_fewest, matched, find_at_start, named,
}
use logfort.Parse.Event.{Event, event_of}
use logfort.Parse.Patterns.{
  sshd_patterns, ports, failed_password, failed_user, from_port, is_digit, not_blank, dot, ip_char,
  find_submatch,
}
use logfort.Parse.Lines.{parse_sshd_message, port_of, sshd_event, first_match}

-- Each character of a text has the property.
abbrev pub Each : (ℕ → Bool) → String → Type 0
Each p String.[] = Unit {0}
Each p (String.◌∷◌ c s) = (p (code c) ≡ true) × Each p s

-- A text of at least one character, each with the property.
abbrev pub Word : (ℕ → Bool) → String → Type 0
Word p String.[] = ⊥
Word p (String.◌∷◌ c s) = (p (code c) ≡ true) × Each p s

abbrev Stops : (ℕ → Bool) → String → Type 0
Stops p String.[] = Unit {0}
Stops p (String.◌∷◌ c s) = p (code c) ≡ false

len-append : (w t : String) → len (append w t) ≡ len w + len t
len-append String.[] t = omega arith
len-append (String.◌∷◌ c w) t = omega (arith, len-append w t)

take_front-append : (w t : String) → take_front (len w) (append w t) ≡ w
take_front-append String.[] t = refl
take_front-append (String.◌∷◌ c w) t = ap (λ s. String.◌∷◌ c s) (take_front-append w t)

read_part-append : (w t : String) → read_part (append w t) t ≡ w
read_part-append w t =
    let e : len (append w t) - len t ≡ len w = omega (arith, len-append w t) in
    ap (λ n. take_front n (append w t)) e ∙ take_front-append w t

or_else-some : (o o' : Option Groups) {r : Groups} → o ≡ some r → or_else o o' ≡ some r
or_else-some o o' e = ap (λ p. or_else p o') e

or_else-none : (o o' : Option Groups) → o ≡ none → or_else o o' ≡ o'
or_else-none o o' e = ap (λ p. or_else p o') e

-- As many as can be are all of a word, if what follows it is something else.
match_most-Word :
    (p : ℕ → Bool) (w t : String) (g r : Groups) (k : Next)
    → Each p w
    → Stops p t
    → k t g ≡ some r
    → match_most p (append w t) g k ≡ some r
unfolding match_most
match_most-Word p String.[] String.[] g r k h e q = q
match_most-Word p String.[] (String.◌∷◌ c t) g r k h e q = rw e q
match_most-Word p (String.◌∷◌ c w) t g r k (h, hs) e q =
    rw h (or_else-some (match_most p (append w t) g k) _ (match_most-Word p w t g r k hs e q))

dot-of_not_blank : (c : ℕ) → not_blank c ≡ true → dot c ≡ true
dot-of_not_blank c h = ground arith

-- As few as can be are all of a word without blanks, if what follows begins with one.
match_fewest-Word :
    (w t : String) (g r : Groups) (k : Next)
    → Each not_blank w
    → ((c : Char) (s : String) → not_blank (code c) ≡ true → k (String.◌∷◌ c s) g ≡ none)
    → k t g ≡ some r
    → match_fewest dot (append w t) g k ≡ some r
unfolding match_fewest
match_fewest-Word String.[] String.[] g r k h f q = q
match_fewest-Word String.[] (String.◌∷◌ c t) g r k h f q = or_else-some (k (String.◌∷◌ c t) g) _ q
match_fewest-Word (String.◌∷◌ c w) t g r k (h, hs) f q =
    or_else-none (k (String.◌∷◌ c (append w t)) g) _ (f c (append w t) h)
    ∙ rw (dot-of_not_blank (code c) h) (match_fewest-Word w t g r k hs f q)

match_one-first :
    (p : ℕ → Bool) (c : Char) (s : String) (g : Groups) (k : Next)
    → p (code c) ≡ true
    → match_one p (String.◌∷◌ c s) g k ≡ k s g
unfolding match_one
match_one-first p c s g k h = rw (h, match_one) refl

-- A group of one or more characters of a class is the word.
match_group-Word :
    (name : String) (p : ℕ → Bool) (w t : String) (g r : Groups) (k : Next)
    → Word p w
    → Stops p t
    → k t ((name, w) ∷ g) ≡ some r
    → match (group name (some_of p)) (append w t) g k ≡ some r
unfolding match
match_group-Word name p String.[] t g r k h e q = absurd h
match_group-Word name p (String.◌∷◌ c w) t g r k (h, hs) e q =
    let whole = String.◌∷◌ c w in
    let k' : Next = λ s' g'. k s' ((name, read_part (append whole t) s') ∷ g') in
    let same : k' t g ≡ some r = ap (λ v. k t ((name, v) ∷ g)) (read_part-append whole t) ∙ q in
    match_one-first p c (append w t) g (λ s' g'. match_most p s' g' k') h
    ∙ match_most-Word p w t g r k' hs e same

blank-start : (c : Char) → not_blank (code c) ≡ true → eqb 32 (code c) ≡ false
blank-start c h = ground arith

-- What is behind the user: an address, a port and whatever.
abbrev pub tail_of : String → String → String → String
tail_of v n rest = append " from " (append v (append " port " (append n (append " ssh2" rest))))

abbrev found : String → String → Groups → Groups
found v n g = ("port", n) ∷ ("ip", v) ∷ g

match-from_port :
    (v n rest : String) (g : Groups)
    → Word ip_char v
    → Word is_digit n
    → match (from_port " ssh2") (tail_of v n rest) g matched ≡ some (found v n g)
unfolding match match_lit
match-from_port v n rest g h k =
    let at_port : Next = λ s g'. match_lit " ssh2" s g' matched in
    let at_ip : Next = λ s g'. match_lit " port " s g' (λ s' g''. match ports s' g'' at_port) in
    match_group-Word "ip" ip_char v (append " port " (append n (append " ssh2" rest))) g _ at_ip h
      refl
      (match_group-Word "port" is_digit n (append " ssh2" rest) (("ip", v) ∷ g) _ at_port k refl
        refl)

no_tail :
    (c : Char) (s : String) (g : Groups)
    → not_blank (code c) ≡ true
    → match (from_port " ssh2") (String.◌∷◌ c s) g matched ≡ none
unfolding match match_lit
no_tail c s g h = rw (blank-start c h, match_lit) refl

match-failed_user :
    (u v n rest : String) (g : Groups)
    → Word not_blank u
    → Word ip_char v
    → Word is_digit n
    → match failed_user (append u (tail_of v n rest)) g matched ≡ some (found v n (("user", u) ∷ g))
unfolding match match_lit
match-failed_user String.[] v n rest g h k l = absurd h
match-failed_user (String.◌∷◌ c u) v n rest g (h, hs) k l =
    let whole = String.◌∷◌ c u in
    let t = tail_of v n rest in
    let next : Next =
      λ s g'. match (from_port " ssh2") s (("user", read_part (append whole t) s) ∷ g') matched in
    let tail : next t g ≡ some (found v n (("user", whole) ∷ g)) =
      ap (λ x. match (from_port " ssh2") t (("user", x) ∷ g) matched) (read_part-append whole t)
      ∙ match-from_port v n rest (("user", whole) ∷ g) k l in
    match_one-first dot c (append u t) g (λ s g'. match_fewest dot s g' next)
      (dot-of_not_blank (code c) h)
    ∙ match_fewest-Word u t g _ next hs (λ d s e. no_tail d s _ e) tail

abbrev pub prefix : String
prefix = "Failed password for invalid user "

-- The pattern of failed passwords finds the user, the first address and the first port.
find-failed_password :
    (u v n rest : String)
    → Word not_blank u
    → Word ip_char v
    → Word is_digit n
    → find_submatch failed_password (append prefix (append u (tail_of v n rest)))
      ≡ some (found v n (("user", u) ∷ ("invalid", "invalid user ") ∷ []))
unfolding find_submatch find_at_start match match_lit
find-failed_password u v n rest h k l =
    let t = append u (tail_of v n rest) in
    let name = read_part (append "invalid user " t) t in
    let body : match failed_user t (("invalid", name) ∷ []) matched
        ≡ some (found v n (("user", u) ∷ ("invalid", name) ∷ [])) =
      match-failed_user u v n rest (("invalid", name) ∷ []) h k l in
    or_else-some (or_else (match failed_user t (("invalid", name) ∷ []) matched) _) _ (
      or_else-some (match failed_user t (("invalid", name) ∷ []) matched) _ (
        body
        ∙ ap (λ x. some (found v n (("user", u) ∷ ("invalid", x) ∷ [])))
            (read_part-append "invalid user " t)))

-- A failed password of a user without blanks is an event with that user, address and port, for an unknown
-- user, whatever stands behind the first "ssh2": also where the line goes on with another address and port.
pub parse_sshd_message-failed :
    (ts : ℕ) (u v n rest line : String)
    → Word not_blank u
    → Word ip_char v
    → Word is_digit n
    → parse_sshd_message ts (append prefix (append u (tail_of v n rest))) line
      ≡ some (record (event_of ts v "failed_password" "sshd") {
        username = trim_space u;
        user_valid = some false;
        port = port_of n;
        raw = line;
      })
unfolding parse_sshd_message first_match find_submatch find_at_start match match_lit named
parse_sshd_message-failed ts u v n rest line h k l =
    ap
      (λ o. elim o as (λ _. Option Event) [
        | some m ↦ some (sshd_event ts line "failed_password" m)
        | none ↦
            first_match (sshd_event ts line) (drop 2 sshd_patterns)
              (append prefix (append u (tail_of v n rest)))
      ])
      (find-failed_password u v n rest h k l)
    ∙ refl
