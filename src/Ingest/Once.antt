-- ===== src/Ingest/Once.antt =====
-- An event is published at most once, and only if it was stored.
use logfort.Ingest.Pipeline.{
  no_match, malformed, hook_runs, enriched, parsed_event, line_arrives, Act, lines_taken,
}
use logfort.Prelude.{
  ℕ, zero, suc, ◌+◌, ◌≤◌, String, ◌≡◌, refl, ap, ◌≢◌, ◌⊎◌, inl, inr, Bool, true, false, Option,
  none, some, List, [], ◌∷◌, arith, eq_iff, if◌then◌else◌, Bool-cases, Option-cases, or_default,
  length, count_where, any_where,
}
use logfort.Parse.Event.{GeoInfo, Event}
use logfort.Store.Dedup.{insert_event-events}
use logfort.Store.Events.{next_event_id, insert_event}
use logfort.Store.Rows.{fails, SqliteStore, EventRow}
use logfort.Store.Events.{insert_row, insert_event, row_of, same_key}
use logfort.Ingest.Pipeline.{
  no_match, malformed, handle_parsed, lines_taken, Act, take_line, run, Parsed, run_hook, remove,
  stored, nth, Pipeline,
}

-- The published events, and those that are about to be, whose key is that of the row.
abbrev pub copies : EventRow → Pipeline → ℕ
copies r p =
    count_where (λ e. same_key r (row_of 0 e)) p.waiting
    + count_where (λ e. same_key r (row_of 0 e)) p.hooked

-- One copy at most, and none of what has no row.
unfoldable pub Once : Pipeline → Type 0
Once p = (r : EventRow) → copies r p ≤ (if any_where (same_key r) p.store.events then 1 else 0)

same_key-cong : (a b c : EventRow) → same_key a b ≡ true → same_key a c ≡ same_key b c
unfolding same_key
same_key-cong a b c h = ground (
  arith,
  eq_iff a.ip b.ip,
  eq_iff a.event_type b.event_type,
  eq_iff (or_default a.username "") (or_default b.username ""),
  eq_iff (or_default a.detail "") (or_default b.detail ""),
)

any_where-cong :
    (p q : EventRow → Bool) (rows : List EventRow)
    → ((r : EventRow) → p r ≡ q r)
    → any_where p rows ≡ any_where q rows
any_where-cong p q [] h = refl
any_where-cong p q (r ∷ rows) h = rw (h r, any_where-cong p q rows h) refl

-- What an insertion does to the rows.
insert_row-rows :
    (e : Event) (s : SqliteStore)
    → let t = insert_row e s in
      let r = row_of (next_event_id s.events) e in
      ((t.0 ≢ none) × (t.1.events ≡ s.events))
      ⊎ ((any_where (same_key r) s.events ≡ false) × (t.1.events ≡ r ∷ s.events))
unfolding insert_row
insert_row-rows e s = elim (Bool-cases (fails s.faults)) [
  | inl f ↦ rw f (inl ((λ q. ground arith), refl))
  | inr f ↦ elim (Bool-cases (any_where (same_key (row_of (next_event_id s.events) e)) s.events)) [
    | inl g ↦ rw (f, g) (inl ((λ q. ground arith), refl))
    | inr g ↦ rw (f, g) (inr (refl, refl))
  ]
]

insert_event-error :
    (e : Event) (s : SqliteStore) → (insert_row e s).0 ≢ none → (insert_event e s).0 ≢ none
unfolding insert_event
insert_event-error e s h k = elim (Option-cases (insert_row e s).0) [
  | inl f ↦ absurd (h f)
  | inr (x, f) ↦ ground arith
]

same_key_ids :
    (r : EventRow) (n m : ℕ) (e : Event) → same_key r (row_of n e) ≡ same_key r (row_of m e)
unfolding same_key row_of
same_key_ids r n m e = refl

stored-Once : (e : Event) (p : Pipeline) → Once p → Once (stored e p)
unfolding Once stored
stored-Once e p h r = elim (insert_row-rows e p.store) [
  | inl (f, same) ↦ elim (Option-cases (insert_event e p.store).0) [
    | inl g ↦ absurd (insert_event-error e p.store f g)
    | inr (x, g) ↦ rw (g, insert_event-events, same) (h r)
  ]
  | inr (new, more) ↦ elim (Option-cases (insert_event e p.store).0) [
    | inl g ↦
        rw (g, insert_event-events, more)
          (ground (
            arith,
            h r,
            same_key_ids r 0 (next_event_id p.store.events) e,
            any_where-cong (same_key r) (same_key (row_of (next_event_id p.store.events) e))
                p.store.events,
            same_key-cong r (row_of (next_event_id p.store.events) e),
          ))
    | inr (x, g) ↦ rw (g, insert_event-events, more) (ground (arith, h r))
  ]
]

removed :
    (q : Event → Bool) (i : ℕ) (es : List Event) (e : Event)
    → nth i es ≡ some e
    → count_where q (remove i es) + (if q e then 1 else 0) ≡ count_where q es
unfolding nth remove
removed q i [] e h = ground arith
removed q zero (x ∷ es) e h = rw (← ap (λ o. or_default o x) h) (ground arith)
removed q (suc i) (x ∷ es) e h = ground (arith, removed q i es e h)

run_hook-Once : (i : ℕ) (p : Pipeline) → Once p → Once (run_hook i p)
unfolding Once run_hook
run_hook-Once i p h r = elim (Option-cases (nth i p.waiting)) [
  | inl e ↦ rw (e, run_hook) (h r)
  | inr (x, e) ↦
      rw (e, run_hook) (ground (arith, h r, removed (λ y. same_key r (row_of 0 y)) i p.waiting x e))
]

module _ (geo : Option (String → GeoInfo)) (blocklist : Option (String → String)) where
  handle_parsed-Once : (x : Parsed) (p : Pipeline) → Once p → Once (handle_parsed geo blocklist x p)
  unfolding handle_parsed Once
  handle_parsed-Once no_match p h = h
  handle_parsed-Once malformed p h = h
  handle_parsed-Once (parsed_event ev) p h =
      stored-Once (enriched geo blocklist ev) (record p { parsed = p.parsed + 1 }) h

  -- What taking a line does to the counters.
  handle_parsed-counts :
      (x : Parsed) (p : Pipeline)
      → length p.waiting + length p.hooked ≤ p.parsed
      → let q = handle_parsed geo blocklist x p in
        (q.parsed + q.unparsed ≡ p.parsed + p.unparsed + 1)
        × (length q.waiting + length q.hooked ≤ q.parsed)
  unfolding handle_parsed stored
  handle_parsed-counts no_match p h = (omega arith, omega arith)
  handle_parsed-counts malformed p h = (omega arith, omega arith)
  handle_parsed-counts (parsed_event ev) p h = ground arith

length-remove :
    (i : ℕ) (es : List Event) (e : Event) → nth i es ≡ some e → length (remove i es) + 1 ≡ length es
unfolding nth remove
length-remove i [] e h = ground arith
length-remove zero (x ∷ es) e h = omega arith
length-remove (suc i) (x ∷ es) e h = ground (arith, length-remove i es e h)

run_hook-counts :
    (i : ℕ) (p : Pipeline)
    → let q = run_hook i p in
      (q.parsed ≡ p.parsed)
      × (q.unparsed ≡ p.unparsed)
      × (length q.waiting + length q.hooked ≡ length p.waiting + length p.hooked)
unfolding run_hook
run_hook-counts i p = elim (Option-cases (nth i p.waiting)) [
  | inl e ↦ rw (e, run_hook) (refl, refl, refl)
  | inr (x, e) ↦ let n = length-remove i p.waiting x e in rw (e, run_hook) (refl, refl, omega arith)
]

module _ (geo : Option (String → GeoInfo)) (blocklist : Option (String → String))
    (parse_line : String → Parsed) where
  -- While nothing is deleted from the table, however the workers interleave and whatever statements
  -- fail: no two published events have the same key, and each that was published has a row.
  pub run-Once :
      (acts : List Act) (p : Pipeline) → Once p → Once (run geo blocklist parse_line acts p)
  unfolding run take_line
  run-Once [] p h = h
  run-Once (line_arrives line ∷ acts) p h =
      run-Once acts (take_line geo blocklist parse_line line p)
        (handle_parsed-Once geo blocklist (parse_line line) p h)
  run-Once (hook_runs i ∷ acts) p h = run-Once acts (run_hook i p) (run_hook-Once i p h)

  -- Every line that was taken is counted once, as parsed or as unparsed, and no more events are
  -- published than lines were parsed.
  pub run_counts :
      (acts : List Act) (p : Pipeline)
      → length p.waiting + length p.hooked ≤ p.parsed
      → let q = run geo blocklist parse_line acts p in
        (q.parsed + q.unparsed ≡ p.parsed + p.unparsed + lines_taken acts)
        × (length q.waiting + length q.hooked ≤ q.parsed)
  unfolding run take_line
  run_counts [] p h = (omega arith, h)
  run_counts (line_arrives line ∷ acts) p h =
      let (total, room) = handle_parsed-counts geo blocklist (parse_line line) p h in
      let (rest, room') = run_counts acts (take_line geo blocklist parse_line line p) room in
      (omega arith, room')
  run_counts (hook_runs i ∷ acts) p h =
      let (a, b, c) = run_hook-counts i p in
      let (rest, room') = run_counts acts (run_hook i p) (omega arith) in (omega arith, room')
