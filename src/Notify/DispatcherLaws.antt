-- ===== src/Notify/DispatcherLaws.antt =====
-- What New and SendTest of internal/notify/dispatcher.go promise.
use logfort.Prelude.{
  ◌∙◌, All, ℕ, ◌+◌, ◌≤◌, String, ◌≡◌, refl, ap, inl, inr, Bool, true, false, not, ◌&&◌, ◌||◌,
  Option, none, some, List, [], ◌∷◌, arith, ◌==◌, eqb, if◌then◌else◌, Bool-cases, is_some, length,
  count_where, any_where, ℤ,
}
use logfort.Go.Strings.{trim_space}
use logfort.Notify.Rules.{Message, Rule}
use logfort.Notify.ParseLaws.{Readable, parse_rules-Readable}
use logfort.Notify.Parse.{parse_rules-length, DigestSchedule, parse_rules}
use logfort.Notify.Dispatcher.{
  NotifyConfig, Dispatcher, given, channel, notifiers_of, Built, bad_rules, none_needed, built,
  build_from, new_dispatcher, Sent, send_each, send_all,
}

-- How many of the calls went to a channel.
abbrev pub calls_of : String → Sent → ℕ
calls_of n sent = count_where (λ c. c.0 == n) sent

calls-send_each :
    (n : String) (ns : List String) (m : Message) (sent : Sent)
    → calls_of n (send_each ns m sent) ≡ count_where (λ k. k == n) ns + calls_of n sent
unfolding send_each
calls-send_each n [] m sent = omega arith
calls-send_each n (k ∷ ns) m sent = ground (arith, calls-send_each n ns m ((k, m) ∷ sent))

send_all-calls :
    (sends : String → Message → Bool) (ns : List String) (m : Message) (first : Option String)
    (sent : Sent) (n : String)
    → calls_of n (send_all sends ns m first sent).1 ≡ count_where (λ k. k == n) ns + calls_of n sent
unfolding send_all
send_all-calls sends [] m first sent n = omega arith
send_all-calls sends (k ∷ ns) m first sent n =
    let failed = if sends k m || is_some first then first else some k in
    ground (arith, send_all-calls sends ns m failed ((k, m) ∷ sent) n)

send_all-first :
    (sends : String → Message → Bool) (ns : List String) (m : Message) (first : Option String)
    (sent : Sent)
    → is_some (send_all sends ns m first sent).0
      ≡ (is_some first || any_where (λ n. not (sends n m)) ns)
unfolding send_all
send_all-first sends [] m first sent = ground arith
send_all-first sends (k ∷ ns) m first sent =
    let failed = if sends k m || is_some first then first else some k in
    ground (arith, send_all-first sends ns m failed ((k, m) ∷ sent))

-- A test or an alert is tried on every channel, also behind one that fails, and an error is returned
-- exactly where a channel failed.
pub send_all_lem :
    (sends : String → Message → Bool) (ns : List String) (m : Message) (sent : Sent)
    → let (first, sent') = send_all sends ns m none sent in
      ((n : String) → calls_of n sent' ≡ count_where (λ k. k == n) ns + calls_of n sent)
      × (is_some first ≡ any_where (λ n. not (sends n m)) ns)
send_all_lem sends ns m sent =
    (send_all-calls sends ns m none sent, send_all-first sends ns m none sent)

abbrev dispatcher_or : Dispatcher → Built → Dispatcher
dispatcher_or d bad_rules = d
dispatcher_or d none_needed = d
dispatcher_or d (built b) = b

abbrev is_built : Built → Bool
is_built bad_rules = false
is_built none_needed = false
is_built (built b) = true

build_from-built :
    (now : ℕ) (c : NotifyConfig) (r : Option (List Rule × List DigestSchedule)) (d : Dispatcher)
    → build_from now c r ≡ built d
    → (r ≡ some (d.rules, d.digests))
      × (d.notifiers ≡ notifiers_of c)
      × (1 ≤ length (notifiers_of c))
      × (1 ≤ length c.rules)
      × (d.started_at ≡ now)
unfolding build_from
build_from-built now c none d e = absurd (ground (arith, ap is_built e))
build_from-built now c (some (rules, digests)) d e =
    elim (Bool-cases (eqb (length (notifiers_of c)) 0 || eqb (length c.rules) 0)) [
      | inl b ↦ let e' = rw b at e in absurd (ground (arith, ap is_built e'))
      | inr b ↦
          let e' = rw b at e in
          let same = ap (dispatcher_or d) e' in
          rw (← same) (refl, refl, ground arith, ground arith, refl)
    ]

-- Whether a dispatcher has the channel of the name.
abbrev pub has_channel : String → List String → Bool
has_channel n names = any_where (λ k. k == n) names

any-channel :
    (n name : String) (b : Bool) (rest : List String)
    → has_channel n (channel b name rest) ≡ ((b && (name == n)) || has_channel n rest)
any-channel n name true rest = ground arith
any-channel n name false rest = ground arith

-- The channels that a configuration gives.
pub record Channels (c : NotifyConfig) (names : List String) : Type 0 where
  pub webhook : has_channel "webhook" names ≡ given c.webhook_url
  pub telegram : has_channel "telegram" names ≡ (given c.telegram_token && given c.telegram_chat)
  pub discord : has_channel "discord" names ≡ given c.discord_url
  pub slack : has_channel "slack" names ≡ given c.slack_url
  pub ntfy : has_channel "ntfy" names ≡ given c.ntfy_url
  pub gotify : has_channel "gotify" names ≡ (given c.gotify_url && given c.gotify_token)
  pub email :
      has_channel "email" names ≡ (given c.smtp_host && (given c.smtp_from && given c.smtp_to))

only_channel :
    (name : String) (w t d s n g m : Bool)
    → has_channel name (
        channel w "webhook" (
          channel t "telegram" (
            channel d "discord"
              (channel s "slack" (channel n "ntfy" (channel g "gotify" (channel m "email" [])))))))
      ≡ ((w && ("webhook" == name))
          || ((t && ("telegram" == name))
              || ((d && ("discord" == name))
                  || ((s && ("slack" == name))
                      || ((n && ("ntfy" == name))
                          || ((g && ("gotify" == name)) || ((m && ("email" == name)) || false)))))))
only_channel name w t d s n g m =
    any-channel name "webhook" w _
    ∙ ap (λ b. (w && ("webhook" == name)) || b)
        (any-channel name "telegram" t _
          ∙ ap (λ b. (t && ("telegram" == name)) || b)
              (any-channel name "discord" d _
                ∙ ap (λ b. (d && ("discord" == name)) || b)
                    (any-channel name "slack" s _
                      ∙ ap (λ b. (s && ("slack" == name)) || b)
                          (any-channel name "ntfy" n _
                            ∙ ap (λ b. (n && ("ntfy" == name)) || b)
                                (any-channel name "gotify" g _
                                  ∙ ap (λ b. (g && ("gotify" == name)) || b)
                                      (any-channel name "email" m []))))))

and_false : (b : Bool) → (b && false) ≡ false
and_false true = refl
and_false false = refl

and_true : (b : Bool) → (b && true) ≡ b
and_true true = refl
and_true false = refl

or_false : (b : Bool) → (b || false) ≡ b
or_false true = refl
or_false false = refl

Channels-notifiers_of : (c : NotifyConfig) → Channels c (notifiers_of c)
unfolding notifiers_of
Channels-notifiers_of c =
    let w = given c.webhook_url in
    let t = given c.telegram_token && given c.telegram_chat in
    let d = given c.discord_url in
    let s = given c.slack_url in
    let n = given c.ntfy_url in
    let g = given c.gotify_url && given c.gotify_token in
    let m = given c.smtp_host && (given c.smtp_from && given c.smtp_to) in
    record {
      webhook = only_channel "webhook" w t d s n g m ∙ simp (and_false, and_true, or_false) refl;
      telegram = only_channel "telegram" w t d s n g m ∙ simp (and_false, and_true, or_false) refl;
      discord = only_channel "discord" w t d s n g m ∙ simp (and_false, and_true, or_false) refl;
      slack = only_channel "slack" w t d s n g m ∙ simp (and_false, and_true, or_false) refl;
      ntfy = only_channel "ntfy" w t d s n g m ∙ simp (and_false, and_true, or_false) refl;
      gotify = only_channel "gotify" w t d s n g m ∙ simp (and_false, and_true, or_false) refl;
      email = only_channel "email" w t d s n g m ∙ simp (and_false, and_true, or_false) refl;
    }

-- A dispatcher is made only where each entry, without the blanks around it, is the text of a rule; it has one rule
-- or schedule for each entry, and one at least; its channels are those whose fields are not blank, and
-- there is one at least.
pub new_dispatcher_lem :
    (parse_duration : String → Option ℤ) (now : ℕ) (c : NotifyConfig) (d : Dispatcher)
    → new_dispatcher parse_duration now c ≡ built d
    → All (λ s. Readable parse_duration (trim_space s)) c.rules
      × Channels c d.notifiers
      × (1 ≤ length d.notifiers)
      × (1 ≤ length d.rules + length d.digests)
      × (length d.rules + length d.digests ≡ length c.rules)
      × (d.started_at ≡ now)
unfolding new_dispatcher
new_dispatcher_lem parse_duration now c d e =
    let (read, named, some_channel, some_rule, started) =
      build_from-built now c (parse_rules parse_duration c.rules) d e in
    let n = parse_rules-length parse_duration c.rules d.rules d.digests read in
    (
      parse_rules-Readable parse_duration c.rules (d.rules, d.digests) read,
      rw named (Channels-notifiers_of c),
      rw named some_channel,
      omega arith,
      n,
      started,
    )
