-- ===== src/Main/Covered.antt =====
-- The firewall and the active rows of the bans table, under the operations of internal/api/api.go and the
-- sweep of cmd/logfort/main.go that change both, and the mirror of stored events.
use logfort.Prelude.{
  ℕ, String, ◌≡◌, sym, ap, ◌∙◌, ◌≢◌, ◌⊎◌, inl, inr, Bool, true, false, List, [], ◌∷◌, arith,
  Bool-cases, Option-cases, take,
}
use logfort.Api.Server.{Server, unix, publish_event, record_event, record_and_ban}
use logfort.Go.Net.{Net}
use logfort.Store.Rows.{BanRow, SqliteStore, fails, spend}
use logfort.Store.Bans.{ban_ip, unban_ip, is_banned, list_expired_bans}
use logfort.Store.Others.{insert_event-other, ban_ip-keeps, unban_ip-other}
use logfort.Store.BanLaws.{ban_ip_lem, text-cases, insert_event-keeps}
use logfort.Store.Events.{insert_event}
use logfort.Parse.Event.{Event}
use logfort.Responder.Firewall.{Responder}
use logfort.Api.Bans.{unban_valid}
use logfort.Main.Sweep.{sweep_row, sweep_rows, sweep}

true-ne-false : {b : Bool} → b ≡ true → b ≢ false
true-ne-false h k = ground arith

-- Operations that change the firewall and the store.
pub data Op : Type 0 where
  ban : ℕ → String → String → ℕ → Op
  unban : ℕ → String → Op
  expire : ℕ → ℕ → Op
  -- InsertEvent with its mirror, of an event that the pipeline reads.
  arrive : Event → Op

module _ {F : Type 0} (net : Net) (resp : Responder F) where
  unfoldable pub operate : Op → Server F → Server F
  operate (ban now ip reason expires_at) s = (record_and_ban resp now ip reason expires_at s).1
  operate (unban now ip) s = (unban_valid net resp now ip s).1
  operate (expire now stop) s = sweep resp now stop s
  operate (arrive e) s = record s { store = (insert_event e s.store).1 }

  unfoldable pub operate_all : List Op → Server F → Server F
  unfolding operate
  operate_all [] s = s
  operate_all (o ∷ os) s = operate_all os (operate o s)

module _ {F : Type 0} (net : Net) (resp : Responder F) (holds : F → String → Bool) where
  -- An address that the firewall blocks has an active row.
  abbrev pub Covered : String → Server F → Type 0
  Covered j s = holds s.firewall j ≡ true → is_banned j s.store ≡ true

  -- What can lift the row of a blocked address: a ban of the address that the firewall fails although it
  -- blocks it, and an "unban" event of the address.
  abbrev pub Lifts : String → Op → Server F → Type 0
  Lifts j (ban now ip reason expires_at) s =
      (ip ≡ j) × ((resp.ban ip s.firewall).0 ≡ false) × (holds s.firewall j ≡ true)
  Lifts j (unban now ip) s = ⊥
  Lifts j (expire now stop) s = ⊥
  Lifts j (arrive e) s = (e.ip ≡ j) × (e.event_type ≡ "unban")

  -- One of the operations does that in the state it is run in.
  abbrev pub SomeLifts : String → List Op → Server F → Type 0
  SomeLifts j [] s = ⊥
  SomeLifts j (o ∷ os) s = Lifts j o s ⊎ SomeLifts j os (operate net resp o s)

  module _
      (ban_adds : (ip j : String) (f : F)
        → holds (resp.ban ip f).1 j ≡ true
        → (ip ≡ j) ⊎ (holds f j ≡ true))
      (ban_fails : (ip j : String) (f : F)
        → (resp.ban ip f).0 ≡ false
        → holds (resp.ban ip f).1 j ≡ holds f j)
      (unban_removes : (ip j : String) (f : F)
        → holds (resp.unban ip f).1 j ≡ true
        → holds f j ≡ true)
      (unban_works : (ip : String) (f : F)
        → (resp.unban ip f).0 ≡ true
        → holds (resp.unban ip f).1 ip ≡ false) where
    apart-of_lifted :
        (ip j : String) (f : F)
        → (resp.unban ip f).0 ≡ true
        → holds (resp.unban ip f).1 j ≡ true
        → ip ≢ j
    apart-of_lifted ip j f b k p =
        true-ne-false k (ap (λ z. holds (resp.unban ip f).1 z) (sym p) ∙ unban_works ip f b)

    record_and_ban-Covered :
        (now : ℕ) (ip reason : String) (expires_at : ℕ) (s : Server F) (j : String)
        → Covered j s
        → Covered j (record_and_ban resp now ip reason expires_at s).1
          ⊎ Lifts j (ban now ip reason expires_at) s
    unfolding record_and_ban
    record_and_ban-Covered now ip reason expires_at s j h =
        elim (ban_ip_lem (unix now) ip resp.name reason expires_at s.store) [
          | inl (e, same) ↦ inl (rw (e, same) h)
          | inr (e, banned, kept, others) ↦ elim (Bool-cases (resp.ban ip s.firewall).0) [
            | inl b ↦ inl (
                rw (e, b)
                  (λ k. elim (ban_adds ip j s.firewall k) [
                    | inl p ↦ rw (← p) banned
                    | inr held ↦ still (h held)
                  ]))
            | inr b ↦ elim (Bool-cases (holds s.firewall j)) [
              | inr free ↦ inl (
                  rw (e, b)
                    (λ k. absurd (true-ne-false (sym (ban_fails ip j s.firewall b) ∙ k) free)))
              | inl held ↦ elim (text-cases ip j) [
                | inl p ↦ inr (p, b, held)
                | inr apart ↦
                    inl
                      (rw (e, b) (λ k. unban_ip-other (unix now) ip tried j apart (still (h held))))
              ]
            ]
          ]
        ]
      where
        tried : SqliteStore
        tried = (ban_ip (unix now) ip resp.name reason expires_at s.store).1

        still : is_banned j s.store ≡ true → is_banned j tried ≡ true
        still = ban_ip-keeps (unix now) ip resp.name reason expires_at s.store j

    unban_valid-Covered :
        (now : ℕ) (ip : String) (s : Server F) (j : String)
        → Covered j s
        → Covered j (unban_valid net resp now ip s).1
    unfolding unban_valid publish_event record_event
    unban_valid-Covered now ip s j h = elim (Bool-cases (resp.unban ip s.firewall).0) [
      | inr b ↦ rw b (λ k. h (unban_removes ip j s.firewall k))
      | inl b ↦ elim (Option-cases (unban_ip (unix now) ip s.store).0) [
        | inl e ↦
            rw (b, e)
              (λ k.
                insert_event-other _ j (unban_ip (unix now) ip s.store).1
                  (apart-of_lifted ip j s.firewall b k) (freed b k))
        | inr (x, e) ↦ rw (b, e) (λ k. freed b k)
      ]
    ]
      where
        freed :
            (resp.unban ip s.firewall).0 ≡ true
            → holds (resp.unban ip s.firewall).1 j ≡ true
            → is_banned j (unban_ip (unix now) ip s.store).1 ≡ true
        freed b k =
            unban_ip-other (unix now) ip s.store j (apart-of_lifted ip j s.firewall b k)
              (h (unban_removes ip j s.firewall k))

    sweep_row-Covered :
        (now : ℕ) (b : BanRow) (s : Server F) (j : String)
        → Covered j s
        → Covered j (sweep_row resp now b s)
    unfolding sweep_row unban_valid publish_event record_event
    sweep_row-Covered now b s j h = elim (Bool-cases (resp.unban b.ip s.firewall).0) [
      | inr f ↦ rw f (λ k. h (unban_removes b.ip j s.firewall k))
      | inl f ↦ elim (Option-cases (unban_ip (unix now) b.ip s.store).0) [
        | inl e ↦
            rw (f, e)
              (λ k.
                insert_event-other _ j (unban_ip (unix now) b.ip s.store).1
                  (apart-of_lifted b.ip j s.firewall f k) (freed f k))
        | inr (x, e) ↦ rw (f, e) (λ k. freed f k)
      ]
    ]
      where
        freed :
            (resp.unban b.ip s.firewall).0 ≡ true
            → holds (resp.unban b.ip s.firewall).1 j ≡ true
            → is_banned j (unban_ip (unix now) b.ip s.store).1 ≡ true
        freed f k =
            unban_ip-other (unix now) b.ip s.store j (apart-of_lifted b.ip j s.firewall f k)
              (h (unban_removes b.ip j s.firewall k))

    sweep_rows-Covered :
        (now : ℕ) (bs : List BanRow) (s : Server F) (j : String)
        → Covered j s
        → Covered j (sweep_rows resp now bs s)
    unfolding sweep_rows
    sweep_rows-Covered now [] s j h = h
    sweep_rows-Covered now (b ∷ bs) s j h =
        sweep_rows-Covered now bs (sweep_row resp now b s) j (sweep_row-Covered now b s j h)

    sweep-Covered :
        (now stop : ℕ) (s : Server F) (j : String) → Covered j s → Covered j (sweep resp now stop s)
    unfolding sweep list_expired_bans
    sweep-Covered now stop s j h = elim (Bool-cases (fails s.store.faults)) [
      | inl e ↦ rw (e, sweep) h
      | inr e ↦
          rw (e, sweep)
            (sweep_rows-Covered now (take stop _) (record s { store = spend s.store }) j h)
    ]

    arrive-Covered :
        (e : Event) (s : Server F) (j : String)
        → Covered j s
        → Covered j (record s { store = (insert_event e s.store).1 }) ⊎ Lifts j (arrive e) s
    arrive-Covered e s j h = elim (text-cases e.ip j) [
      | inr apart ↦ inl (λ k. insert_event-other e j s.store apart (h k))
      | inl p ↦ elim (text-cases e.event_type "unban") [
        | inl q ↦ inr (p, q)
        | inr q ↦ inl (λ k. insert_event-keeps e j s.store q (h k))
      ]
    ]

    operate-Covered :
        (o : Op) (s : Server F) (j : String)
        → Covered j s
        → Covered j (operate net resp o s) ⊎ Lifts j o s
    unfolding operate
    operate-Covered (ban now ip reason expires_at) s j h =
        record_and_ban-Covered now ip reason expires_at s j h
    operate-Covered (unban now ip) s j h = inl (unban_valid-Covered now ip s j h)
    operate-Covered (expire now stop) s j h = inl (sweep-Covered now stop s j h)
    operate-Covered (arrive e) s j h = arrive-Covered e s j h

    -- Under any sequence of bans, lifted bans, sweeps and stored events, with any statement and any call of the
    -- firewall failing: an address that had an active row if it was blocked, and that the firewall blocks
    -- afterwards, has an active row, so that it can be listed, lifted and expire, unless one of the
    -- operations was a ban of it that the firewall failed while it blocked it, or an "unban" event of it. The
    -- firewall adds only the address that it is given, changes nothing where a ban fails, and lifts an address
    -- where it says so.
    pub operate_all-Covered :
        (os : List Op) (s : Server F) (j : String)
        → Covered j s
        → Covered j (operate_all net resp os s) ⊎ SomeLifts j os s
    unfolding operate_all
    operate_all-Covered [] s j h = inl h
    operate_all-Covered (o ∷ os) s j h = elim (operate-Covered o s j h) [
      | inr l ↦ inr (inl l)
      | inl k ↦ elim (operate_all-Covered os (operate net resp o s) j k) [
        | inl c ↦ inl c
        | inr l ↦ inr (inr l)
      ]
    ]
