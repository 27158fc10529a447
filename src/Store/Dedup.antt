-- ===== src/Store/Dedup.antt =====
-- Deduplication of events (idx_events_dedup) and what the mirror into the bans table does with it.
use logfort.Prelude.{
  zero, suc, ap, ◌∙◌, suc, ℕ, ◌≡◌, refl, ap, ◌∙◌, inl, inr, Bool, true, false, some, List, [], ◌∷◌,
  arith, eq_iff, eq_refl, if◌then◌else◌, Bool-cases, or_default, select, any_where,
}
use logfort.Parse.Event.{Event}
use logfort.Store.Rows.{EventRow, SqliteStore, db_error, duplicate, fails}
use logfort.Store.Bans.{mirror_ban, mirror_unban, is_banned}
use logfort.Store.Events.{row_of, next_event_id, same_key, insert_row, mirror, insert_event}

-- No two rows have the same key.
unfoldable pub AllDistinct : List EventRow → Type 0
AllDistinct [] = Unit {0}
AllDistinct (r ∷ rs) = (any_where (same_key r) rs ≡ false) × AllDistinct rs

-- The event has a row.
abbrev pub recorded : Event → SqliteStore → Bool
recorded e s = any_where (same_key (row_of 0 e)) s.events

mirror-events : (e : Event) (s : SqliteStore) → (mirror e s).1.events ≡ s.events
unfolding mirror mirror_ban mirror_unban
mirror-events e s = ground arith

pub insert_event-events :
    (e : Event) (s : SqliteStore) → (insert_event e s).1.events ≡ (insert_row e s).1.events
unfolding insert_event
insert_event-events e s = ground (arith, mirror-events e (insert_row e s).1)

same_key_refl : (r : EventRow) → same_key r r ≡ true
unfolding same_key
same_key_refl r = ground (
  arith,
  eq_refl r.ip,
  eq_refl r.event_type,
  eq_refl (or_default r.username ""),
  eq_refl (or_default r.detail ""),
)

-- The key does not read the id.
pub same_key-row_of : (n m : ℕ) (e : Event) → same_key (row_of n e) (row_of m e) ≡ true
unfolding same_key row_of
same_key-row_of n m e = unfold same_key row_of in same_key_refl (row_of n e)

pub same_key_id :
    (n m : ℕ) (e : Event) (rs : List EventRow)
    → any_where (same_key (row_of n e)) rs ≡ any_where (same_key (row_of m e)) rs
unfolding row_of same_key
same_key_id n m e rs = refl

insert_row-recorded :
    (e : Event) (s : SqliteStore)
    → fails s.faults ≡ false
    → any_where (same_key (row_of 0 e)) (insert_row e s).1.events ≡ true
unfolding insert_row
insert_row-recorded e s h = ground (
  arith,
  same_key_id 0 (next_event_id s.events) e s.events,
  same_key-row_of 0 (next_event_id s.events) e,
)

select-none :
    (q p : EventRow → Bool) (rs : List EventRow)
    → any_where q rs ≡ false
    → any_where q (select p rs) ≡ false
select-none q p [] h = refl
select-none q p (r ∷ rs) h = ground (arith, select-none q p rs)

select-AllDistinct :
    (p : EventRow → Bool) (rs : List EventRow) → AllDistinct rs → AllDistinct (select p rs)
unfolding AllDistinct
select-AllDistinct p [] h = tt
select-AllDistinct p (r ∷ rs) h = elim (Bool-cases (p r)) [
  | inl e ↦ rw e (select-none (same_key r) p rs h.0, select-AllDistinct p rs h.1)
  | inr e ↦ rw e (select-AllDistinct p rs h.1)
]

-- Inserting an event keeps the keys distinct.
pub insert_event-AllDistinct :
    (e : Event) (s : SqliteStore) → AllDistinct s.events → AllDistinct (insert_event e s).1.events
unfolding insert_row AllDistinct
insert_event-AllDistinct e s h = rw insert_event-events (elim (Bool-cases (fails s.faults)) [
  | inl f ↦ rw f h
  | inr f ↦ elim (Bool-cases (any_where (same_key (row_of (next_event_id s.events) e)) s.events)) [
    | inl g ↦ rw (f, g) h
    | inr g ↦ rw (f, g) (g, h)
  ]
])

-- An event that has a row is refused, and no table changes.
insert_event-of_recorded :
    (e : Event) (t : SqliteStore)
    → recorded e t ≡ true
    → let u = insert_event e t in
      (u.0 ≡ (if fails t.faults then some db_error else some duplicate))
      × (u.1.events ≡ t.events)
      × (u.1.bans ≡ t.bans)
unfolding insert_event insert_row
insert_event-of_recorded e t h =
    let g = same_key_id (next_event_id t.events) 0 e t.events ∙ h in
    elim (Bool-cases (fails t.faults)) [
      | inl f ↦ rw f (refl, refl, refl)
      | inr f ↦ rw (f, g) (refl, refl, refl)
    ]

insert_event-faults :
    (e : Event) (t : SqliteStore)
    → t.faults ≡ []
    → recorded e t ≡ true
    → (insert_event e t).1.faults ≡ []
unfolding insert_event insert_row
insert_event-faults e t f h =
    let g = same_key_id (next_event_id t.events) 0 e t.events ∙ h in rw (f, g) refl

lost_ban_first :
    (e : Event) (s : SqliteStore)
    → e.event_type ≡ "ban"
    → recorded e s ≡ false
    → s.faults ≡ false ∷ true ∷ []
    → let t = insert_event e s in (t.0 ≡ some db_error) × (t.1.bans ≡ s.bans) × (t.1.faults ≡ [])
unfolding insert_event insert_row mirror mirror_ban
lost_ban_first e s b fresh faults =
    ground (arith, same_key_id (next_event_id s.events) 0 e s.events, eq_iff e.event_type "ban")

-- InsertEvent so many times in a row.
unfoldable pub insert_again : ℕ → Event → SqliteStore → SqliteStore
insert_again zero e s = s
insert_again (suc n) e s = insert_again n e (insert_event e s).1

-- Where no statement fails, an event that has a row is refused as often as it is inserted, and no ban changes.
insert_again-of_recorded :
    (n : ℕ) (e : Event) (t : SqliteStore)
    → t.faults ≡ []
    → recorded e t ≡ true
    → ((insert_event e (insert_again n e t)).0 ≡ some duplicate)
      × ((insert_again n e t).bans ≡ t.bans)
unfolding insert_again
insert_again-of_recorded zero e t f h =
    let (refusal, events, bans) = insert_event-of_recorded e t h in
    (refusal ∙ ap (λ fs. if fails fs then some db_error else some duplicate) f, refl)
insert_again-of_recorded (suc n) e t f h =
    let (refusal, events, bans) = insert_event-of_recorded e t h in
    let kept = ap (any_where (same_key (row_of 0 e))) events ∙ h in
    let (again, same) =
      insert_again-of_recorded n e (insert_event e t).1 (insert_event-faults e t f h) kept in
    (again, same ∙ bans)

-- The row and its mirror are two statements without a transaction: where the second fails for a ban of an
-- address that had none, the event is kept and the ban is not. However often the event is then inserted
-- again, with no failing statement and with nothing else in between, it is refused as a duplicate
-- and the address stays without a ban.
pub lost_ban :
    (e : Event) (s : SqliteStore) (n : ℕ)
    → e.event_type ≡ "ban"
    → recorded e s ≡ false
    → is_banned e.ip s ≡ false
    → s.faults ≡ false ∷ true ∷ []
    → let t = insert_event e s in
      let u = insert_again n e t.1 in
      (t.0 ≡ some db_error)
      × (recorded e t.1 ≡ true)
      × ((insert_event e u).0 ≡ some duplicate)
      × (is_banned e.ip u ≡ false)
lost_ban e s n b fresh free faults =
    let (failed, unbanned, calm) = lost_ban_first e s b fresh faults in
    let kept : recorded e (insert_event e s).1 ≡ true =
      rw insert_event-events (insert_row-recorded e s (ap fails faults)) in
    let (refusal, same) = insert_again-of_recorded n e (insert_event e s).1 calm kept in
    (failed, kept, refusal, rw (same, unbanned) free)
