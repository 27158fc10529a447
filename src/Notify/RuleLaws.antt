-- ===== src/Notify/RuleLaws.antt =====
-- How often the rules of internal/notify/rules.go that remember make an alert.
use logfort.Prelude.{
  ℕ, ◌+◌, ◌≤◌, String, ◌≡◌, refl, ap, ◌∙◌, ◌≢◌, inl, inr, true, false, ◌&&◌, Option, none, some,
  List, [], ◌∷◌, arith, ◌==◌, eq_iff, leb, if◌then◌else◌, Bool-cases, is_some, length, select,
  count_where, any_where, All, pos,
}
use logfort.Prelude.Assoc.{lookup, insert, lookup-insert}
use logfort.Store.Rows.{SqliteStore}
use logfort.Parse.Event.{Event}
use logfort.Store.Events.{attempt_of, count_ip_events}
use logfort.Api.AutoBan.{before, unix_ℤ}
use logfort.Notify.Rules.{
  threshold_loads, threshold_counted, Fmt, Message, match_threshold, match_new_country,
  fired_recently,
}

-- An event that reaches a rule: the time, the event, and the store as it is then.
pub record Arrival : Type 0 where
  pub now : ℕ
  pub event : Event
  pub store : SqliteStore

module _ (fmt : Fmt) (n window : ℕ) where
  -- The times of the alerts about an address, the earliest first.
  unfoldable pub threshold_alerts : String → List Arrival → List (String × ℕ) → List ℕ
  threshold_alerts ip [] fired = []
  threshold_alerts ip (a ∷ arrivals) fired =
      let (m, fired', st) = match_threshold fmt n window a.now a.event fired a.store in
      let rest = threshold_alerts ip arrivals fired' in
      if is_some m && a.event.ip == ip then a.now ∷ rest else rest

  -- Each time is a window at least behind the one before.
  abbrev pub Spaced : Option ℕ → List ℕ → Type 0
  Spaced prev [] = Unit {0}
  Spaced none (t ∷ ts) = Spaced (some t) ts
  Spaced (some p) (t ∷ ts) = (p + window ≤ t) × Spaced (some t) ts

  abbrev outcome : Arrival → List (String × ℕ) → Option Message × List (String × ℕ) × SqliteStore
  outcome a fired = match_threshold fmt n window a.now a.event fired a.store

  quiet-fired :
      (a : Arrival) (fired : List (String × ℕ))
      → is_some (outcome a fired).0 ≡ false
      → (outcome a fired).1 ≡ fired
  unfolding match_threshold threshold_loads threshold_counted
  quiet-fired a fired h = ground arith

  alert-fired :
      (a : Arrival) (fired : List (String × ℕ))
      → is_some (outcome a fired).0 ≡ true
      → ((outcome a fired).1 ≡ insert a.event.ip a.now fired)
        × (fired_recently a.now window (lookup a.event.ip fired) ≡ false)
  unfolding match_threshold threshold_loads threshold_counted
  alert-fired a fired h = (ground arith, ground arith)

  Spaced-cons :
      (prev : Option ℕ) (t : ℕ) (ts : List ℕ)
      → fired_recently t window prev ≡ false
      → Spaced (some t) ts
      → Spaced prev (t ∷ ts)
  Spaced-cons none t ts h k = k
  Spaced-cons (some p) t ts h k = (ground arith, k)

  -- Where the match of each event ends before that of the next begins: two alerts about one address are a window
  -- apart, in whatever order events of any addresses arrive and whatever the store answers.
  pub threshold_alerts-Spaced :
      (ip : String) (arrivals : List Arrival) (fired : List (String × ℕ))
      → Spaced (lookup ip fired) (threshold_alerts ip arrivals fired)
  unfolding threshold_alerts
  threshold_alerts-Spaced ip [] fired = tt
  threshold_alerts-Spaced ip (a ∷ arrivals) fired =
      elim (Bool-cases (is_some (outcome a fired).0)) [
        | inr s ↦ rw s (rw (quiet-fired a fired s) (threshold_alerts-Spaced ip arrivals fired))
        | inl s ↦ elim (Bool-cases (a.event.ip == ip)) [
          | inl e ↦
              let (put, free) = alert-fired a fired s in
              let rest = threshold_alerts-Spaced ip arrivals (insert a.event.ip a.now fired) in
              rw (s, e, put)
                (Spaced-cons (lookup ip fired) a.now _ (rw (← (eq_iff a.event.ip ip).0 e) free)
                  (rw (lookup-insert a.event.ip ip a.now fired, e) at rest))
          | inr e ↦
              let (put, free) = alert-fired a fired s in
              let rest = threshold_alerts-Spaced ip arrivals (insert a.event.ip a.now fired) in
              rw (s, e, put) (rw (lookup-insert a.event.ip ip a.now fired, e) at rest)
        ]
      ]

module _ (fmt : Fmt) (n window : ℕ) where
  -- How many of the matches that have loaded make an alert, as they count one after another.
  unfoldable pub counted_alerts : List Arrival → List (String × ℕ) → ℕ
  counted_alerts [] fired = 0
  counted_alerts (a ∷ arrivals) fired =
      let (m, fired', st) = threshold_counted fmt n window a.now a.event fired a.store in
      let rest = counted_alerts arrivals fired' in if is_some m then rest + 1 else rest

  -- Dispatches that all load `fired` before the first of them stores.
  unfoldable pub overlapping_alerts : List Arrival → List (String × ℕ) → ℕ
  unfolding counted_alerts
  overlapping_alerts arrivals fired =
      counted_alerts (select (λ a. threshold_loads fmt window a.now a.event fired) arrivals) fired

  -- An event of the address whose store has attempts enough.
  abbrev pub Attack : String → Arrival → Type 0
  Attack ip a =
      (a.event.ip ≡ ip)
      × (a.store.faults ≡ [])
      × (n ≤ count_where (attempt_of ip (unix_ℤ (before a.now (pos window)))) a.store.events)

  counted_alerts-length :
      (ip : String) (arrivals : List Arrival) (fired : List (String × ℕ))
      → All (Attack ip) arrivals
      → counted_alerts arrivals fired ≡ length arrivals
  unfolding counted_alerts threshold_counted count_ip_events
  counted_alerts-length ip [] fired h = refl
  counted_alerts-length ip (a ∷ arrivals) fired ((e, f, c), hs) =
      let rest = counted_alerts-length ip arrivals (insert a.event.ip a.now fired) hs in
      let enough : leb n (
            count_where (attempt_of a.event.ip (unix_ℤ (before a.now (pos window)))) a.store.events)
          ≡ true =
        rw e (ground (arith, c)) in
      rw (f, enough, rest) (omega arith)

  every_load :
      (ip : String) (arrivals : List Arrival) (fired : List (String × ℕ))
      → ip ≢ ""
      → lookup ip fired ≡ none
      → All (Attack ip) arrivals
      → select (λ a. threshold_loads fmt window a.now a.event fired) arrivals ≡ arrivals
  unfolding threshold_loads
  every_load ip [] fired h k l = refl
  every_load ip (a ∷ arrivals) fired h k ((e, f, c), hs) =
      let named : (a.event.ip == "") ≡ false = rw e (ground (arith, h, eq_iff ip "")) in
      let unseen : lookup a.event.ip fired ≡ none = rw e k in
      rw (named, unseen, every_load ip arrivals fired h k hs) refl

  -- Each dispatch runs in a goroutine of its own, and a match loads, counts and stores without a lock: of events of
  -- one address without an alert so far, for each of which the store counts attempts enough, every one
  -- makes an alert, however close they are, if all load before the first stores.
  pub overlapping_alerts_lem :
      (ip : String) (arrivals : List Arrival) (fired : List (String × ℕ))
      → ip ≢ ""
      → lookup ip fired ≡ none
      → All (Attack ip) arrivals
      → overlapping_alerts arrivals fired ≡ length arrivals
  unfolding overlapping_alerts
  overlapping_alerts_lem ip arrivals fired h k l =
      ap (λ l. counted_alerts l fired) (every_load ip arrivals fired h k l)
      ∙ counted_alerts-length ip arrivals fired l

module _ (fmt : Fmt) where
  unfoldable pub country_alerts : String → List Event → List String → ℕ
  country_alerts c [] seen = 0
  country_alerts c (ev ∷ evs) seen =
      let (m, seen') = match_new_country fmt ev seen in
      let rest = country_alerts c evs seen' in
      if is_some m && ev.geo.country == c then rest + 1 else rest

  -- A country is alerted about once, and not at all where it was seen before.
  pub country_alerts_bound :
      (c : String) (evs : List Event) (seen : List String)
      → country_alerts c evs seen ≤ (if any_where (λ d. d == c) seen then 0 else 1)
  unfolding country_alerts match_new_country
  country_alerts_bound c [] seen = ground arith
  country_alerts_bound c (ev ∷ evs) seen = ground (
    arith,
    eq_iff ev.geo.country c,
    country_alerts_bound c evs seen,
    country_alerts_bound c evs (ev.geo.country ∷ seen),
  )
