-- ===== src/Api/Tests.antt =====
-- Runs of the properties of bans on a small server, with a firewall that is the list of what it blocks.
use logfort.Prelude.{
  ◌≢◌, ℕ, ◌+◌, ◌-◌, ◌*◌, ◌≤◌, String, ◌≡◌, refl, true, false, none, some, List, [], ◌∷◌, arith, All,
  pos,
}
use logfort.Api.Server.{
  Server, Reply, unix, allowlisted, normalize_ip, client_ip, not_blocked, record_and_ban,
}
use logfort.Api.Sample.{
  limiter, blocking, refusing, empty_store, sample_server, ten_minutes, probe, clock,
}
use logfort.Api.Orphans.{orphaned}
use logfort.Responder.Allowlist.{is_private}
use logfort.Api.Server.{allowlisted}
use logfort.Go.Sample.{sample_net}
use logfort.Go.Strings.{trim_space}
use logfort.Store.Events.{insert_event, insert_row, mirror}
use logfort.Store.Bans.{mirror_ban, ban_ip, is_banned, active_count}
use logfort.Parse.Event.{Event, event_of}
use logfort.Responder.Allowlist.{Allowlist, parse_allowlist, empty}
use logfort.Api.RateLimiter.{allow, allowed, last_of, unit, allowed_bound}
use logfort.Api.Bans.{BanBody, Request, ban_refusal, ban_checked, handle_ban_post}
use logfort.Api.BanLaws.{
  Bannable, failed_reban_lifts, failed_ban_rolls_back, granted, refused_changes_nothing,
}
use logfort.Api.AutoBanSteps.{
  World, Act, auto_arrives, threat_arrives, job_runs, steps, Contained, steps-Contained,
}

abbrev acts : List Act
acts =
    auto_arrives clock probe ∷ threat_arrives clock probe ∷ job_runs 1 clock ∷ job_runs 0 clock ∷ []

abbrev idle : World (List String)
idle = record { server = sample_server; pending = [] }

-- No blocked address is exempt.
abbrev NoneExempt : List String → Type 0
NoneExempt f =
    All
      (λ ip.
        (ip ≢ "")
        × (is_private sample_net ip ≡ false)
        × (allowlisted sample_net ip sample_server ≡ false))
      f

idle-Contained : Contained sample_net sample_server NoneExempt idle
idle-Contained = (refl, tt, tt, tt, refl, omega arith)

steps-Contained_example :
    Contained sample_net sample_server NoneExempt (steps sample_net ten_minutes blocking acts idle)
steps-Contained_example =
    steps-Contained sample_net sample_server NoneExempt blocking (λ ip f safe h. (safe, h))
      ten_minutes acts idle idle-Contained

abbrev wanted : Request BanBody
wanted = record {
  remote_addr = "9.9.9.9:4000";
  xff = "";
  body = some (record { ip = " 8.8.8.8"; reason = ""; duration_secs = pos 60 });
}

abbrev banned : String → Server (List String)
banned ip = record sample_server { store = (ban_ip 1 ip "nftables" "" 0 empty_store).1 }

failed_reban_lifts_example :
    let r = record_and_ban refusing clock "8.8.8.8" "" 0 (banned "8.8.8.8") in
    (r.0 ≡ some not_blocked) × (is_banned "8.8.8.8" r.1.store ≡ false)
unfolding ban_ip
failed_reban_lifts_example =
    failed_reban_lifts refusing clock "8.8.8.8" "" 0 (banned "8.8.8.8") refl refl refl

failed_ban_rolls_back_example :
    let r = record_and_ban refusing clock "8.8.8.8" "" 0 (banned "9.9.9.9") in
    (r.0 ≡ some not_blocked)
    × (r.1.store.events ≡ [])
    × ((j : String) → active_count j r.1.store.bans ≡ active_count j (banned "9.9.9.9").store.bans)
unfolding ban_ip
failed_ban_rolls_back_example =
    failed_ban_rolls_back refusing clock "8.8.8.8" "" 0 (banned "9.9.9.9") refl refl refl

abbrev answered : Reply × Server (List String)
answered = handle_ban_post sample_net blocking clock wanted sample_server

answered_200 : answered.0.status ≡ 200
unfolding handle_ban_post allow ban_refusal logfort.Responder.Allowlist.is_valid trim_space
    client_ip normalize_ip logfort.Responder.Allowlist.is_private allowlisted
    logfort.Responder.Allowlist.contains ban_checked record_and_ban ban_ip
answered_200 = refl

granted_example :
    (b : BanBody) × (wanted.body ≡ some b)
    × (true ≡ true)
    × ((allow clock sample_server.ban_lim).0 ≡ true)
    × Bannable sample_net
        (client_ip sample_net "9.9.9.9:4000" "")
        (trim_space b.ip)
        b.duration_secs
        sample_server
    × (true ≡ true)
    × (answered.1.firewall ≡ trim_space b.ip ∷ [])
    × (is_banned (trim_space b.ip) answered.1.store ≡ true)
    × (answered.1.published ≡ event_of (unix clock) (trim_space b.ip) "ban" "manual" ∷ [])
    × (answered.1.notified ≡ event_of (unix clock) (trim_space b.ip) "ban" "manual" ∷ [])
granted_example = granted sample_net blocking clock wanted sample_server answered_200

-- The same for an address that no one may ban.
abbrev private_wanted : Request BanBody
private_wanted = record {
  remote_addr = "9.9.9.9:4000";
  xff = "";
  body = some (record { ip = "10.0.0.1"; reason = ""; duration_secs = pos 60 });
}

abbrev refused : Reply × Server (List String)
refused = handle_ban_post sample_net blocking clock private_wanted sample_server

refused_status : refused.0.status ≡ 400
unfolding handle_ban_post allow ban_refusal logfort.Responder.Allowlist.is_valid trim_space
    client_ip normalize_ip logfort.Responder.Allowlist.is_private
refused_status = refl

refused_changes_nothing_example : refused.1 ≡ record sample_server { ban_lim = refused.1.ban_lim }
refused_changes_nothing_example =
    refused_changes_nothing sample_net blocking clock private_wanted sample_server
      (λ e. ground (arith, refused_status)) (λ e. ground (arith, refused_status))

abbrev times : List ℕ
times = 0 ∷ 1 ∷ 2 ∷ 20_000_000_000 ∷ []

allowed_bound_example :
    (allowed times limiter).0 * unit + (allowed times limiter).1.tokens
    ≤ limiter.tokens + (last_of limiter.last times - limiter.last) * limiter.rate
allowed_bound_example =
    allowed_bound times limiter (omega arith, (omega arith, (omega arith, (omega arith, tt))))

abbrev their_ban : Event
their_ban = event_of 1 "8.8.8.8" "ban" "fail2ban"

abbrev their_unban : Event
their_unban = event_of 2 "8.8.8.8" "unban" "fail2ban"

abbrev jailed : Server (List String)
jailed = record sample_server { store = (insert_event their_ban empty_store).1 }

orphaned_example :
    let r = record_and_ban blocking clock "8.8.8.8" "" 0 jailed in
    let after = (insert_event their_unban r.1.store).1 in
    (r.0 ≡ none) × (r.1.firewall ≡ "8.8.8.8" ∷ []) × (is_banned "8.8.8.8" after ≡ false)
unfolding insert_event insert_row mirror mirror_ban logfort.Store.Events.same_key
    logfort.Store.Events.row_of
orphaned_example = orphaned blocking clock "" 0 their_unban jailed refl refl refl refl refl refl
