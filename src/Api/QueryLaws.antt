-- ===== src/Api/QueryLaws.antt =====
-- What a request for events asks of a row, by the parameters that internal/api/api.go reads.
use logfort.Prelude.{
  ℕ, String, ◌≡◌, refl, sym, ap, ◌⊎◌, inl, inr, Bool, true, false, ◌&&◌, Option, none, some, List,
  [], ◌∷◌, arith, ◌==◌, eq_iff, Bool-cases, is_some, or_default, count_where, ℤ, pos, ◌≤ℤ◌,
}
use logfort.Store.Rows.{EventRow}
use logfort.Store.Events.{build_event_where}
use logfort.Api.Queries.{event_query_from_request}
use logfort.Go.Strconv.{parse_int}
use logfort.Config.Overlay.{setting}
use logfort.Store.Events.{text_filter, since_filter, until_filter}

-- A text that the request does not give, or the one that the row has.
abbrev pub Matches : String → Option String → Type 0
Matches wanted value = (wanted ≡ "") ⊎ (value ≡ some wanted)

-- What a request asks of a row, by the names of its parameters; a time that is no number is not asked for.
pub record Meets (params : List (String × String)) (r : EventRow) : Type 0 where
  pub kind : Matches (setting "type" params) (some r.event_type)
  pub ip : Matches (setting "ip" params) (some r.ip)
  pub country : Matches (setting "country" params) r.country
  pub user : Matches (setting "user" params) r.username
  pub since : (t : ℤ) → parse_int (setting "since" params) ≡ some t → t ≤ℤ pos r.ts
  pub until : (t : ℤ) → parse_int (setting "until" params) ≡ some t → pos r.ts ≤ℤ t

Matches-text_filter :
    (wanted : String) (value : Option String)
    → (text_filter wanted value ≡ true → Matches wanted value)
      × (Matches wanted value → text_filter wanted value ≡ true)
Matches-text_filter wanted none = (
  λ h. inl ((eq_iff wanted "").0 (ground (arith, h))),
  λ m. elim m [ inl e ↦ rw e refl | inr e ↦ absurd (ground (arith, ap is_some e)) ],
)
Matches-text_filter wanted (some v) = (
  λ h. elim (Bool-cases (wanted == "")) [
    | inl e ↦ inl ((eq_iff wanted "").0 e)
    | inr e ↦ inr (ap some ((eq_iff v wanted).0 (ground (arith, h, e))))
  ],
  λ m. elim m [
    | inl e ↦ rw e refl
    | inr e ↦
        let same : v ≡ wanted = ap (λ o. or_default o "") e in
        ground (arith, (eq_iff v wanted).1 same)
  ],
)

since-filter :
    (o : Option ℤ) (ts : ℕ)
    → (since_filter o ts ≡ true → (t : ℤ) → o ≡ some t → t ≤ℤ pos ts)
      × (((t : ℤ) → o ≡ some t → t ≤ℤ pos ts) → since_filter o ts ≡ true)
since-filter none ts = (λ h t e. absurd (ground (arith, ap is_some e)), λ k. refl)
since-filter (some n) ts = (
  λ h t e. (let same : n ≡ t = ap (λ o. or_default o n) e in rw (← same) (ground (arith, h))),
  λ k. ground (arith, k n refl),
)

until-filter :
    (o : Option ℤ) (ts : ℕ)
    → (until_filter o ts ≡ true → (t : ℤ) → o ≡ some t → pos ts ≤ℤ t)
      × (((t : ℤ) → o ≡ some t → pos ts ≤ℤ t) → until_filter o ts ≡ true)
until-filter none ts = (λ h t e. absurd (ground (arith, ap is_some e)), λ k. refl)
until-filter (some n) ts = (
  λ h t e. (let same : n ≡ t = ap (λ o. or_default o n) e in rw (← same) (ground (arith, h))),
  λ k. ground (arith, k n refl),
)

all_six :
    (a b c d e f : Bool)
    → (a && (b && (c && (d && (e && f))))) ≡ true
    → (a ≡ true) × (b ≡ true) × (c ≡ true) × (d ≡ true) × (e ≡ true) × (f ≡ true)
all_six a b c d e f h =
    (ground arith, ground arith, ground arith, ground arith, ground arith, ground arith)

-- The condition of the query that a request makes is what the request asks.
pub build_event_where-Meets :
    (def max : ℤ) (params : List (String × String)) (r : EventRow)
    → let test = build_event_where (event_query_from_request def max params) r in
      (test ≡ true → Meets params r) × (Meets params r → test ≡ true)
unfolding build_event_where event_query_from_request
build_event_where-Meets def max params r =
    let kind = Matches-text_filter (setting "type" params) (some r.event_type) in
    let ip = Matches-text_filter (setting "ip" params) (some r.ip) in
    let country = Matches-text_filter (setting "country" params) r.country in
    let user = Matches-text_filter (setting "user" params) r.username in
    let since = since-filter (parse_int (setting "since" params)) r.ts in
    let until = until-filter (parse_int (setting "until" params)) r.ts in
    (
      λ h.
          let (k, i, c, u, s, l) = all_six _ _ _ _ _ _ h in
          record {
            kind = kind.0 k;
            ip = ip.0 i;
            country = country.0 c;
            user = user.0 u;
            since = since.0 s;
            until = until.0 l;
          },
      λ m.
          rw
            (
              kind.1 m.kind,
              ip.1 m.ip,
              country.1 m.country,
              user.1 m.user,
              since.1 m.since,
              until.1 m.until,
            )
            refl,
    )

pub same-test :
    (a b : Bool) {P : Type 0}
    → (a ≡ true → P)
    → (P → a ≡ true)
    → (b ≡ true → P)
    → (P → b ≡ true)
    → a ≡ b
same-test true true f g h k = refl
same-test false false f g h k = refl
same-test true false f g h k = sym (k (f refl))
same-test false true f g h k = g (h refl)

pub count_where-same :
    (p q : EventRow → Bool) (rows : List EventRow)
    → ((r : EventRow) → p r ≡ q r)
    → count_where p rows ≡ count_where q rows
count_where-same p q [] h = refl
count_where-same p q (r ∷ rows) h = rw (h r, count_where-same p q rows h) refl
