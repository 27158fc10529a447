-- ===== src/Api/StatsCache.antt =====
-- The cache of internal/api/api.go: cacheTTLForWindow, cachedPayload, handleStats and handleMap, and IsValidWindow
-- of internal/store/sqlite.go. Times are in nanoseconds; the answer of the store is given with a request.
use logfort.Prelude.{
  ℕ, ◌+◌, ◌*◌, String, ◌⊎◌, inl, inr, Bool, not, ◌||◌, Option, none, some, List, [], ◌∷◌, ◌==◌, ltb,
  if◌then◌else◌,
}
use Prim.Native.String.{◌++◌ as str_append}
use logfort.Prelude.Assoc.{lookup, insert, erase}
use logfort.Api.RateLimiter.{unit}
use logfort.Api.Server.{Reply, reply}

unfoldable pub is_valid_window : String → Bool
is_valid_window w =
    w == "1h"
    || (w == "6h" || (w == "24h" || (w == "" || (w == "7d" || (w == "30d" || w == "all")))))

unfoldable pub cache_ttl_for_window : String → ℕ
cache_ttl_for_window w = if w == "7d" || (w == "30d" || w == "all") then 60 * unit else 0

pub record StatsCacheEntry (A : Type 0) : Type 0 where
  pub payload : A
  pub expires : ℕ

-- A request at a time, with what the store answers for its window, and when.
pub record StatsRequest (A : Type 0) : Type 0 where
  pub now : ℕ
  pub window : String
  pub answer : Option A
  pub answered : ℕ

abbrev pub window_or_day : String → String
window_or_day w = if w == "" then "24h" else w

abbrev pub Cache : Type 0 → Type 0
Cache A = List (String × StatsCacheEntry A)

module _ {A : Type 0} where
  abbrev pub fresh_entry : ℕ → String → Cache A → Option (StatsCacheEntry A) → Option A × Cache A
  fresh_entry now key cache none = (none, cache)
  fresh_entry now key cache (some e) =
      if ltb now e.expires then (some e.payload, cache) else (none, erase key cache)

  unfoldable pub cached_payload : ℕ → String → Cache A → Option A × Cache A
  cached_payload now key cache = fresh_entry now key cache (lookup key cache)

  -- What the store answers is kept where it may be.
  abbrev pub kept_answer : String → ℕ → ℕ → Option A → Cache A → (Reply ⊎ A) × Cache A
  kept_answer key ttl answered none cache = (inl (reply 500 "internal error"), cache)
  kept_answer key ttl answered (some a) cache = (
    inr a,
    if ltb 0 ttl
        then insert key (record { payload = a; expires = answered + ttl }) cache
        else cache,
  )

  abbrev pub ask : String → ℕ → StatsRequest A → Cache A → (Reply ⊎ A) × Cache A
  ask key ttl r cache = kept_answer key ttl r.answered r.answer cache

  abbrev pub hit_or : String → ℕ → StatsRequest A → Option A × Cache A → (Reply ⊎ A) × Cache A
  hit_or key ttl r (some a, cache) = (inr a, cache)
  hit_or key ttl r (none, cache) = ask key ttl r cache

  -- handleStats with "stats:", and handleMap with "map:".
  unfoldable pub handle_window : String → StatsRequest A → Cache A → (Reply ⊎ A) × Cache A
  unfolding is_valid_window cached_payload
  handle_window kind r cache =
      let w = window_or_day r.window in
      let ttl = cache_ttl_for_window w in
      let key = str_append kind w in
      if not (is_valid_window w)
      then (inl (reply 400 "invalid window; use 1h|6h|24h|7d|30d|all"), cache)
      else hit_or key ttl r (if ltb 0 ttl then cached_payload r.now key cache else (none, cache))

  -- The cache after requests of one kind, the latest first.
  unfoldable pub cache_after : String → List (StatsRequest A) → Cache A
  unfolding handle_window
  cache_after kind [] = []
  cache_after kind (r ∷ rs) = (handle_window kind r (cache_after kind rs)).1
