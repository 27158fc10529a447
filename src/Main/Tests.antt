-- ===== src/Main/Tests.antt =====
-- Runs of the background loops.
use logfort.F2b.Value.{ascii}
use logfort.F2b.Jail.{settings_of}
use logfort.F2b.Sample.{runtime, jail_exec, jail_server, defaults}
use logfort.Main.Ticks.{apply}
use logfort.F2b.Jail.{updated}
use logfort.Prelude.Assoc.{lookup}
use logfort.Go.Strconv.{parse_int}
use logfort.Main.Enforce.{manager, asked, apply_converges}
use logfort.Prelude.{
  ℕ, zero, suc, ◌+◌, ◌-◌, ◌*◌, ◌/◌, ◌%◌, ◌^◌, ◌≤◌, ◌<◌, String, ◌≡◌, refl, sym, ap, ◌∙◌, ◌≢◌, ◌↔◌,
  ◌⊎◌, inl, inr, Bool, true, false, not, ◌&&◌, ◌||◌, Option, none, some, List, [], ◌∷◌, ◌++◌, map,
  arith, ◌==◌, eq_iff, eq_refl, ltb, leb, eqb, if◌then◌else◌, ltb→lt, lt→ltb, leb→le, le→leb,
  eqb_iff, ne→==, tests, Bool-cases, Option-cases, is_some, or_default, length, take, drop,
  length-append, select, count_where, any_where, update_where, All, count_where-of_none,
  count_where-of_any, count_where-update, count_where-update_same, count_where-update_none,
  count_where-select, count_where-select_same, All-select, All-mono, ℤ, pos, negsuc, pos_part,
  neg_part, sub_ℕ, ◌≤ℤ◌, ltb_ℤ, eqb_ℤ, eqb_ℤ→eq, count_where-of_select, length-select,
  length-select-not, All-take, All-drop, length-take, length-drop, min,
}
use logfort.Api.Server.{Server, unix}
use logfort.Go.Sample.{sample_net}
use logfort.Store.Rows.{BanRow, SqliteStore, ok}
use logfort.Store.Bans.{ban_ip, is_banned, active_count, list_expired_bans}
use logfort.Api.Sample.{blocking, empty_store, sample_server, ten_minutes, probe, clock, blocks}
use logfort.Api.AutoBan.{exempt, sem_capacity}
use logfort.Api.AutoBanLaws.{job_ip}
use logfort.Main.Sweep.{sweep, reconcile_bans, reapplied}
use logfort.Main.SweepLaws.{sweep_lem}
use logfort.Main.Restore.{reconcile_bans_lem, put_back}
use logfort.Main.Watch.{Snapshot, vitals_alerts, CertStatus, cert_alerts, scan, has_port}
use logfort.Main.WatchLaws.{vitals_alerts_bound, drained, scan_lem}
use logfort.Main.Ticks.{publish_hook}
use logfort.Main.TickLaws.{publish_hook_lem}
use logfort.Main.Covered.{Op, ban, unban, expire, SomeLifts, operate_all, operate_all-Covered}

-- A ban until 50 and one for ever.
abbrev two_bans : Server (List String)
two_bans = record sample_server {
  store =
      (ban_ip 2 "9.9.9.9" "nftables" "" 0 (ban_ip 1 "8.8.8.8" "nftables" "" 50 empty_store).1).1;
}

sweep_example :
    let t = sweep blocking clock 9 two_bans in
    (rows : List BanRow) × ((list_expired_bans (unix clock) two_bans.store).0 ≡ ok rows)
    × All (λ b. is_banned b.ip t.store ≡ false) (take 9 rows)
    × ((j : String) → active_count j t.store.bans ≤ active_count j two_bans.store.bans)
    × ((j : String)
        → All (λ b. b.ip ≢ j) (take 9 rows)
        → active_count j t.store.bans ≡ active_count j two_bans.store.bans)
unfolding ban_ip
sweep_example = sweep_lem blocking clock 9 two_bans refl (λ ip f. refl)

blocks_more :
    (ip : String) (f : List String)
    → (true ≡ true) × ((j : String) → blocks (ip ∷ f) j ≡ (ip == j || blocks f j))
blocks_more ip f = (refl, λ j. refl)

reconcile_bans_example :
    let r = reconcile_bans blocking clock 9 two_bans.store [] in
    (r.0 ≡ count_where (λ b. b.active && reapplied blocking clock b) two_bans.store.bans)
    × ((j : String)
        → blocks r.1 j ≡ (
            blocks [] j
            || any_where (λ b. b.active && put_back blocking clock j b) two_bans.store.bans))
unfolding ban_ip
reconcile_bans_example =
    reconcile_bans_lem blocking clock blocks blocks_more 9 two_bans.store [] refl (omega arith)

abbrev at : ℕ → Snapshot
at n = record { available = true; disk_total = 100; disk_used_percent = n }

abbrev readings : List Snapshot
readings = at 905 ∷ at 899 ∷ at 901 ∷ at 840 ∷ at 930 ∷ []

vitals_twice : vitals_alerts readings false ≡ 2
unfolding vitals_alerts
vitals_twice = refl

vitals_alerts_bound_example : vitals_alerts readings false ≤ 1 + count_where drained readings
vitals_alerts_bound_example = vitals_alerts_bound readings false

abbrev left : ℤ → CertStatus
left n = record { target = "a:443"; days_left = n; error = "" }

abbrev checks : List (String × CertStatus)
checks =
    ("a", left (pos 14)) ∷ ("a", left (pos 13)) ∷ ("a", left (pos 90)) ∷ ("a", left (pos 9)) ∷ []

cert_twice : cert_alerts "a" checks [] ≡ 2
unfolding cert_alerts logfort.Prelude.Assoc.lookup logfort.Prelude.Assoc.insert
cert_twice = refl

scan_example :
    let (added, after) = scan (22 ∷ 4444 ∷ []) (some (22 ∷ 80 ∷ [])) in
    (added ≡ select (λ p. not (has_port p (22 ∷ 80 ∷ []))) (22 ∷ 4444 ∷ []))
    × ((p : ℕ) → has_port p (22 ∷ 4444 ∷ []) ≡ true → has_port p (or_default after []) ≡ true)
    × ((scan (22 ∷ 4444 ∷ []) after).0 ≡ [])
scan_example = scan_lem (22 ∷ 4444 ∷ []) (22 ∷ 80 ∷ [])

abbrev set_to_zero : SqliteStore
set_to_zero = record empty_store { settings = ("general.retention_days", "0") ∷ [] }

publish_hook_example :
    let r = publish_hook sample_net ten_minutes clock probe sample_server in
    (r.1.published ≡ probe ∷ [])
    × (r.1.notified ≡ probe ∷ [])
    × (r.1.firewall ≡ [])
    × (r.1.store ≡ empty_store)
    × (length r.0 ≤ 2)
    × (r.1.auto_ban_sem ≡ 0 + length r.0)
    × (r.1.auto_ban_sem ≤ sem_capacity)
    × All (λ j. exempt sample_net (job_ip j) sample_server ≡ false) r.0
publish_hook_example =
    publish_hook_lem sample_net ten_minutes clock probe sample_server (omega arith)

blocks-select :
    (ip j : String) (f : List String)
    → blocks (select (λ a. not (a == ip)) f) j ≡ true
    → blocks f j ≡ true
blocks-select ip j [] h = h
blocks-select ip j (a ∷ f) h = ground (arith, blocks-select ip j f)

blocks-select_self :
    (ip : String) (f : List String) → blocks (select (λ a. not (a == ip)) f) ip ≡ false
blocks-select_self ip [] = refl
blocks-select_self ip (a ∷ f) = ground (arith, blocks-select_self ip f)

blocks_cons :
    (ip j : String) (f : List String) → blocks (ip ∷ f) j ≡ true → (ip ≡ j) ⊎ (blocks f j ≡ true)
blocks_cons ip j f h = elim (Bool-cases (ip == j)) [
  | inl e ↦ inl ((eq_iff ip j).0 e)
  | inr e ↦ inr (ground arith)
]

abbrev operations : List Op
operations = ban clock "8.8.8.8" "" 200 ∷ unban clock "9.9.9.9" ∷ expire clock 9 ∷ []

abbrev operated : Server (List String)
operated = operate_all sample_net blocking operations sample_server

operated_blocks : blocks operated.firewall "8.8.8.8" ≡ true
unfolding operate_all sweep list_expired_bans logfort.Api.Bans.unban_valid
    logfort.Store.Bans.unban_ip logfort.Api.Server.record_and_ban ban_ip
    logfort.Api.Server.publish_event logfort.Api.Server.record_event
    logfort.Store.Events.insert_event logfort.Store.Events.insert_row logfort.Store.Events.mirror
    logfort.Store.Bans.mirror_unban logfort.Prelude.Sort.sort_by
operated_blocks = refl

operate_all-Covered_example :
    (blocks operated.firewall "8.8.8.8" ≡ true → is_banned "8.8.8.8" operated.store ≡ true)
    ⊎ SomeLifts sample_net blocking blocks "8.8.8.8" operations sample_server
operate_all-Covered_example =
    operate_all-Covered sample_net blocking blocks blocks_cons (λ ip j f h. ground arith)
      blocks-select (λ ip f h. blocks-select_self ip f) operations sample_server "8.8.8.8"
      (λ h. ground arith)

abbrev jail_table : SqliteStore
jail_table = record empty_store {
  settings = ("f2b.maxretry", "3") ∷ ("f2b.findtime", "1200") ∷ ("f2b.bantime", "x") ∷ [];
}

-- The jail of F2b.Tests with other settings than those that are wanted.
apply_converges_example :
    let jail_manager = manager runtime (λ f. pos 0) jail_exec (ascii "sshd") in
    let live = settings_of runtime (λ f. pos 0) jail_exec (ascii "sshd") jail_server in
    let (s, w) = apply jail_manager (jail_table, defaults) in
    (live w ≡ updated (asked jail_table.settings) (live defaults))
    × ((apply jail_manager (s, w)).1 ≡ w)
unfolding lookup parse_int
apply_converges_example =
    apply_converges runtime (λ f. pos 0) jail_exec (ascii "sshd") jail_server jail_table defaults
      refl ((omega arith, omega arith, omega arith), omega arith, omega arith, omega arith)
      (omega arith, omega arith, omega arith)
