-- ===== src/Main/SweepLaws.antt =====
-- What a sweep does to the bans of each address, and what the reconciliation does to the firewall.
use logfort.Prelude.{
  ℕ, ◌≤◌, String, ◌≡◌, refl, ◌∙◌, ◌≢◌, inl, inr, true, false, ◌&&◌, List, [], ◌∷◌, arith, ◌==◌,
  eq_iff, leb, Bool-cases, or_default, take, select, any_where, All, count_where-of_none,
  count_where-of_any, All-mono,
}
use logfort.Api.Server.{Server, unix, publish_event, record_event}
use logfort.Prelude.Sort.{sort_by}
use logfort.Store.Rows.{spend, EventRow, BanRow, SqliteStore, ok}
use logfort.Store.Bans.{
  list_expired_bans, unban_ip, has_expired, is_banned, active_count, active_for, mirror_unban,
}
use logfort.Store.Events.{row_of, next_event_id, same_key, insert_event, insert_row, mirror}
use logfort.Store.Others.{fail2ban_lifted}
use logfort.Store.BanLaws.{unban_ip-quiet, text-cases}
use logfort.Parse.Event.{Event, event_of}
use logfort.Responder.Firewall.{Responder}
use logfort.Main.Sweep.{sweep_row, sweep_rows, sweep}

-- What the event of a lifted ban does in the store.
insert_unban :
    (e : Event) (s : SqliteStore)
    → e.event_type ≡ "unban"
    → s.faults ≡ []
    → let t = (insert_event e s).1 in
      (t.faults ≡ [])
      × ((j : String) → active_count j t.bans ≤ active_count j s.bans)
      × ((j : String) → e.ip ≢ j → active_count j t.bans ≡ active_count j s.bans)
unfolding insert_event insert_row mirror mirror_unban
insert_unban e s u q = elim (Bool-cases (any_where (same_key row) s.events)) [
  | inl g ↦ rw (q, g) (refl, (λ j. omega arith), λ j h. refl)
  | inr g ↦
      rw (q, g, no_ban, is_unban)
        (
          refl,
          (λ j. (fail2ban_lifted e.ip e.ts s.bans j).0),
          λ j h. (fail2ban_lifted e.ip e.ts s.bans j).1 h,
        )
]
  where
    row : EventRow
    row = row_of (next_event_id s.events) e

    is_unban : (e.event_type == "unban") ≡ true
    is_unban = ground (arith, eq_iff e.event_type "unban")

    no_ban : (e.event_type == "ban") ≡ false
    no_ban = rw u refl

unban_ip-le :
    (now : ℕ) (ip : String) (s : SqliteStore)
    → s.faults ≡ []
    → (j : String) → active_count j (unban_ip now ip s).1.bans ≤ active_count j s.bans
unban_ip-le now ip s q j = elim (text-cases ip j) [
  | inl e ↦
      let (done, gone, calm, same, others) = unban_ip-quiet now ip s q in
      let none_left = count_where-of_none (active_for ip) (unban_ip now ip s).1.bans gone in
      rw (← e, none_left) (omega arith)
  | inr h ↦
      let (done, gone, calm, same, others) = unban_ip-quiet now ip s q in
      rw (others j h) (omega arith)
]

module _ {F : Type 0} (resp : Responder F) (now : ℕ) where
  sweep_row-quiet :
      (b : BanRow) (s : Server F)
      → s.store.faults ≡ []
      → (resp.unban b.ip s.firewall).0 ≡ true
      → let t = sweep_row resp now b s in
        (t.store.faults ≡ [])
        × (active_count b.ip t.store.bans ≡ 0)
        × ((j : String) → active_count j t.store.bans ≤ active_count j s.store.bans)
        × ((j : String) → b.ip ≢ j → active_count j t.store.bans ≡ active_count j s.store.bans)
  unfolding sweep_row publish_event record_event
  sweep_row-quiet b s q l =
      let (done, gone, calm, _, others) = unban_ip-quiet (unix now) b.ip s.store q in
      let (calm', below, others') = insert_unban ev st refl calm in
      let none_left = count_where-of_none (active_for b.ip) st.bans gone in
      let zero_after = below b.ip in
      rw (l, done)
        (
          calm',
          omega arith,
          (λ j. let m = unban_ip-le (unix now) b.ip s.store q j in let k = below j in omega arith),
          λ j h. others' j h ∙ others j h,
        )
    where
      st : SqliteStore
      st = (unban_ip (unix now) b.ip s.store).1

      ev : Event
      ev = event_of (unix now) b.ip "unban" "expiry"

  sweep_rows-quiet :
      (bs : List BanRow) (s : Server F)
      → s.store.faults ≡ []
      → ((ip : String) (f : F) → (resp.unban ip f).0 ≡ true)
      → let t = sweep_rows resp now bs s in
        (t.store.faults ≡ [])
        × All (λ b. active_count b.ip t.store.bans ≡ 0) bs
        × ((j : String) → active_count j t.store.bans ≤ active_count j s.store.bans)
        × ((j : String)
            → All (λ b. b.ip ≢ j) bs
            → active_count j t.store.bans ≡ active_count j s.store.bans)
  unfolding sweep_rows
  sweep_rows-quiet [] s q l = (q, tt, (λ j. omega arith), λ j h. refl)
  sweep_rows-quiet (b ∷ bs) s q l =
      let (calm, gone, below, others) = sweep_row-quiet b s q (l b.ip s.firewall) in
      let (calm', gone', below', others') = sweep_rows-quiet bs (sweep_row resp now b s) calm l in
      (
        calm',
        (let m = below' b.ip in omega arith, gone'),
        (λ j. let m = below j in let k = below' j in omega arith),
        λ j h. others' j h.1 ∙ others j h.0,
      )

free-of_none :
    (ip : String) (st : SqliteStore) → active_count ip st.bans ≡ 0 → is_banned ip st ≡ false
free-of_none ip st h = elim (Bool-cases (is_banned ip st)) [
  | inl e ↦ let n = count_where-of_any (active_for ip) st.bans e in absurd (omega arith)
  | inr e ↦ e
]

module _ {F : Type 0} (resp : Responder F) (now stop : ℕ) (s : Server F) where
  abbrev due_rows : List BanRow
  due_rows =
      sort_by (λ a b. leb (or_default a.expires_at 0) (or_default b.expires_at 0))
        (select (λ b. b.active && has_expired (unix now) b) s.store.bans)

  swept :
      s.store.faults ≡ []
      → sweep resp now stop s
        ≡ sweep_rows resp now (take stop due_rows) (record s { store = spend s.store })
  unfolding sweep list_expired_bans
  swept q = rw q refl

  -- Where no statement fails and the firewall lifts what it is asked to: after a sweep no address of
  -- the expired rows that the sweep reached before its context was cancelled is banned, no address
  -- has more active bans than before, and every other address has all that it had.
  pub sweep_lem :
      s.store.faults ≡ []
      → ((ip : String) (f : F) → (resp.unban ip f).0 ≡ true)
      → let t = sweep resp now stop s in
        (rows : List BanRow) × ((list_expired_bans (unix now) s.store).0 ≡ ok rows)
        × All (λ b. is_banned b.ip t.store ≡ false) (take stop rows)
        × ((j : String) → active_count j t.store.bans ≤ active_count j s.store.bans)
        × ((j : String)
            → All (λ b. b.ip ≢ j) (take stop rows)
            → active_count j t.store.bans ≡ active_count j s.store.bans)
  unfolding list_expired_bans
  sweep_lem q l =
      let spent = record s { store = spend s.store } in
      let (calm, gone, below, others) =
        sweep_rows-quiet resp now (take stop rows) spent (rw q refl) l in
      rw (swept q) (
        rows,
        rw q refl,
        All-mono _ _ (take stop rows)
            (λ b. free-of_none b.ip (sweep_rows resp now (take stop rows) spent).store) gone,
        below,
        others,
      )
    where
      rows : List BanRow
      rows = due_rows
