-- ===== src/Api/RateLimiter.antt =====
-- The token bucket of internal/api/api.go (rateLimiter). Times are in nanoseconds and tokens in
-- thousand-millionths, so that the refill of `elapsed` nanoseconds is `elapsed * rate` exactly: the
-- rounding of float64 is left out. The monotonic clock does not run backwards.
use native.Mathlib.Nat.{add-mul}
use logfort.Prelude.{
  sym, ap, ◌∙◌, ℕ, ◌+◌, ◌-◌, ◌*◌, ◌≤◌, ◌≡◌, sym, ap, ◌∙◌, Bool, true, false, List, [], ◌∷◌, arith,
  ltb, if◌then◌else◌,
}

pub record RateLimiter : Type 0 where
  pub tokens : ℕ
  pub max : ℕ
  pub rate : ℕ
  pub last : ℕ

-- One token.
abbrev pub unit : ℕ
unit = 1_000_000_000

unfoldable pub new_rate_limiter : ℕ → ℕ → ℕ → RateLimiter
new_rate_limiter rate burst now = record {
  tokens = burst * unit;
  max = burst * unit;
  rate = rate;
  last = now;
}

unfoldable pub refill : ℕ → RateLimiter → RateLimiter
refill now rl =
    let tokens = rl.tokens + (now - rl.last) * rl.rate in
    record rl { last = now; tokens = (if ltb rl.max tokens then rl.max else tokens) }

unfoldable pub allow : ℕ → RateLimiter → Bool × RateLimiter
unfolding refill
allow now rl =
    let r = refill now rl in
    if ltb r.tokens unit then (false, r) else (true, record r { tokens = r.tokens - unit })

-- How many of the requests at these times pass, and the bucket after them.
unfoldable pub allowed : List ℕ → RateLimiter → ℕ × RateLimiter
allowed [] rl = (0, rl)
allowed (t ∷ ts) rl =
    let (passed, rl') = allow t rl in
    let (n, rl'') = allowed ts rl' in (if passed then n + 1 else n, rl'')

-- The times do not fall.
abbrev pub Ascending : ℕ → List ℕ → Type 0
Ascending t [] = Unit {0}
Ascending t (u ∷ us) = (t ≤ u) × Ascending u us

abbrev pub last_of : ℕ → List ℕ → ℕ
last_of t [] = t
last_of t (u ∷ us) = last_of u us

allow_spends :
    (t : ℕ) (rl : RateLimiter)
    → let (passed, rl') = allow t rl in
      (rl'.tokens + (if passed then unit else 0) ≤ rl.tokens + (t - rl.last) * rl.rate)
      × (rl'.last ≡ t)
      × (rl'.rate ≡ rl.rate)
unfolding allow
allow_spends t rl = ground arith

le-last_of : (t : ℕ) (ts : List ℕ) → Ascending t ts → t ≤ last_of t ts
le-last_of t [] h = omega arith
le-last_of t (u ∷ us) h = omega (arith, le-last_of u us h.1)

elapsed_split : (a t l r : ℕ) → a ≤ t → t ≤ l → (t - a) * r + (l - t) * r ≡ (l - a) * r
elapsed_split a t l r h k =
    let e : (t - a) + (l - t) ≡ l - a = omega arith in
    sym (add-mul (t - a) (l - t) r) ∙ ap (λ n. n * r) e

-- The requests that pass cost no more than the tokens that were there and those that flowed in since.
pub allowed_bound :
    (ts : List ℕ) (rl : RateLimiter)
    → Ascending rl.last ts
    → (allowed ts rl).0 * unit + (allowed ts rl).1.tokens
      ≤ rl.tokens + (last_of rl.last ts - rl.last) * rl.rate
unfolding allowed
allowed_bound [] rl h = omega arith
allowed_bound (t ∷ ts) rl h =
    let (passed, rl') = allow t rl in
    let (spent, at, rated) = allow_spends t rl in
    let rest = allowed_bound ts rl' (rw at h.1) in
    let flows = elapsed_split rl.last t (last_of t ts) rl.rate h.0 (le-last_of t ts h.1) in
    let rest' = rw (at, rated) at rest in ground (arith, flows, spent, rest')

-- The bucket never holds more than its burst.
pub allow-tokens-le-max :
    (t : ℕ) (rl : RateLimiter) → ((allow t rl).1.tokens ≤ rl.max) × ((allow t rl).1.max ≡ rl.max)
unfolding allow
allow-tokens-le-max t rl = ground arith
