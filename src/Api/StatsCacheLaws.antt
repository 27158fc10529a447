-- ===== src/Api/StatsCacheLaws.antt =====
-- How old what the cache of internal/api/api.go serves can be.
use logfort.Prelude.{
  ℕ, ◌+◌, ◌*◌, ◌<◌, String, ◌≡◌, refl, sym, ap, ◌∙◌, ◌⊎◌, inl, inr, true, Option, none, some, List,
  [], ◌∷◌, arith, ◌==◌, eq_iff, ltb, ltb→lt, Bool-cases, Option-cases, is_some, or_default,
}
use Prim.Native.String.{◌++◌ as str_append}
use logfort.Prelude.Assoc.{lookup, insert, erase, lookup-erase, lookup-insert}
use logfort.Api.RateLimiter.{unit}
use logfort.Api.Server.{Reply}
use logfort.Api.StatsCache.{
  is_valid_window, cache_ttl_for_window, StatsCacheEntry, StatsRequest, window_or_day, Cache,
  cached_payload, kept_answer, ask, hit_or, handle_window, cache_after,
}

abbrev pub Some : {A : Type 0} → (A → Type 0) → List A → Type 0
Some P [] = ⊥
Some P (x ∷ xs) = P x ⊎ Some P xs

ttl_lem : (w : String) → ltb 0 (cache_ttl_for_window w) ≡ true → cache_ttl_for_window w ≡ 60 * unit
unfolding cache_ttl_for_window
ttl_lem w h = ground (arith, h)

module _ {A : Type 0} (kind : String) where
  abbrev pub key_of : StatsRequest A → String
  key_of r = str_append kind (window_or_day r.window)

  -- The store answered this at a request of the key, and a minute after that is the end of it.
  abbrev pub Answered : String → A → ℕ → StatsRequest A → Type 0
  Answered key a end r = (key_of r ≡ key) × (r.answer ≡ some a) × (end ≡ r.answered + 60 * unit)

  Recorded : List (StatsRequest A) → Cache A → Type 0
  Recorded rs cache =
      (key : String) (e : StatsCacheEntry A)
      → lookup key cache ≡ some e
      → Some (Answered key e.payload e.expires) rs

  Recorded-more :
      (r : StatsRequest A) (rs : List (StatsRequest A)) (cache : Cache A)
      → Recorded rs cache
      → Recorded (r ∷ rs) cache
  unfolding Recorded
  Recorded-more r rs cache h key e l = inr (h key e l)

  Recorded-erase :
      (rs : List (StatsRequest A)) (cache : Cache A) (k : String)
      → Recorded rs cache
      → Recorded rs (erase k cache)
  unfolding Recorded
  Recorded-erase rs cache k h key e l =
      let l' = sym (lookup-erase k key cache) ∙ l in
      elim (Bool-cases (k == key)) [
        | inl b ↦ absurd (ground (arith, ap is_some (rw b at l')))
        | inr b ↦ h key e (rw b at l')
      ]

  Recorded-insert :
      (r : StatsRequest A) (rs : List (StatsRequest A)) (cache : Cache A) (a : A) (end : ℕ)
      → Recorded rs cache
      → r.answer ≡ some a
      → end ≡ r.answered + 60 * unit
      → Recorded (r ∷ rs) (insert (key_of r) (record { payload = a; expires = end }) cache)
  unfolding Recorded
  Recorded-insert r rs cache a end h f g key e l =
      let new : StatsCacheEntry A = record { payload = a; expires = end } in
      let l' = sym (lookup-insert (key_of r) key new cache) ∙ l in
      elim (Bool-cases (key_of r == key)) [
        | inl b ↦
            let same : new ≡ e = ap (λ o. or_default o new) (rw b at l') in
            inl (
              (eq_iff (key_of r) key).0 b,
              f ∙ ap (λ x. some x.payload) same,
              sym (ap (λ x. x.expires) same) ∙ g,
            )
        | inr b ↦ inr (h key e (rw b at l'))
      ]

  -- The page is what the store answers at the request, or answered for the same window at one of the earlier
  -- requests, less than a minute before.
  abbrev pub Served : List (StatsRequest A) → StatsRequest A → Reply ⊎ A → Type 0
  Served rs r (inl e) = Unit {0}
  Served rs r (inr a) =
      (r.answer ≡ some a)
      ⊎ Some
          (λ r'. (key_of r' ≡ key_of r) × (r'.answer ≡ some a) × (r.now < r'.answered + 60 * unit))
          rs

  Turn : List (StatsRequest A) → StatsRequest A → (Reply ⊎ A) × Cache A → Type 0
  Turn rs r (x, cache) = Served rs r x × Recorded (r ∷ rs) cache

  Some-map :
      {P Q : StatsRequest A → Type 0} (rs : List (StatsRequest A))
      → ((r : StatsRequest A) → P r → Q r)
      → Some P rs
      → Some Q rs
  Some-map [] f h = absurd h
  Some-map (r ∷ rs) f (inl p) = inl (f r p)
  Some-map (r ∷ rs) f (inr p) = inr (Some-map rs f p)

  Turn-ask :
      (rs : List (StatsRequest A)) (r : StatsRequest A) (cache : Cache A) (ttl : ℕ)
      → (ltb 0 ttl ≡ true → ttl ≡ 60 * unit)
      → Recorded rs cache
      → Turn rs r (ask (key_of r) ttl r cache)
  unfolding Turn
  Turn-ask rs r cache ttl h k = go r.answer refl
    where
      go : (o : Option A) → r.answer ≡ o → Turn rs r (kept_answer (key_of r) ttl r.answered o cache)
      go none e = (tt, Recorded-more r rs cache k)
      go (some a) e = elim (Bool-cases (ltb 0 ttl)) [
        | inl b ↦ rw b (
          inl e,
          Recorded-insert r rs cache a (r.answered + ttl) k e (ap (λ n. r.answered + n) (h b)),
        )
        | inr b ↦ rw b (inl e, Recorded-more r rs cache k)
      ]

  Turn-cached :
      (rs : List (StatsRequest A)) (r : StatsRequest A) (cache : Cache A) (ttl : ℕ)
      → (ltb 0 ttl ≡ true → ttl ≡ 60 * unit)
      → Recorded rs cache
      → Turn rs r (hit_or (key_of r) ttl r (cached_payload r.now (key_of r) cache))
  unfolding cached_payload Turn Recorded
  Turn-cached rs r cache ttl h k = elim (Option-cases (lookup (key_of r) cache)) [
    | inl n ↦ rw n (Turn-ask rs r cache ttl h k)
    | inr (e, s) ↦ elim (Bool-cases (ltb r.now e.expires)) [
      | inl b ↦
          rw (s, b)
            (
              inr (
                  Some-map rs (λ r' (p, q, t). (p, q, omega (arith, ltb→lt r.now e.expires b, t)))
                    (k (key_of r) e s)),
              Recorded-more r rs cache k,
            )
      | inr b ↦
          rw (s, b)
            (Turn-ask rs r (erase (key_of r) cache) ttl h (Recorded-erase rs cache (key_of r) k))
    ]
  ]

  Turn-handle_window :
      (rs : List (StatsRequest A)) (r : StatsRequest A) (cache : Cache A)
      → Recorded rs cache
      → Turn rs r (handle_window kind r cache)
  unfolding handle_window Turn
  Turn-handle_window rs r cache k =
      let w = window_or_day r.window in
      let ttl = cache_ttl_for_window w in
      elim (Bool-cases (is_valid_window w)) [
        | inr v ↦ rw v (tt, Recorded-more r rs cache k)
        | inl v ↦ elim (Bool-cases (ltb 0 ttl)) [
          | inl b ↦ rw (v, b) (Turn-cached rs r cache ttl (ttl_lem w) k)
          | inr b ↦ rw (v, b) (Turn-ask rs r cache ttl (ttl_lem w) k)
        ]
      ]

  Recorded-cache_after : (rs : List (StatsRequest A)) → Recorded rs (cache_after kind rs)
  unfolding cache_after Recorded lookup Turn
  Recorded-cache_after [] = λ key e l. absurd (ground (arith, ap is_some l))
  Recorded-cache_after (r ∷ rs) =
      (Turn-handle_window rs r (cache_after kind rs) (Recorded-cache_after rs)).1

  -- After any requests, at any times: a page that is served is what the store answers now, or what it answered for
  -- the same window at an earlier request, of which less than a minute has passed.
  pub handle_window-Served :
      (rs : List (StatsRequest A)) (r : StatsRequest A)
      → Served rs r (handle_window kind r (cache_after kind rs)).0
  unfolding Turn
  handle_window-Served rs r =
      (Turn-handle_window rs r (cache_after kind rs) (Recorded-cache_after rs)).0
