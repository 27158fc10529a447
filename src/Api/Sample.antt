-- ===== src/Api/Sample.antt =====
-- A small server with which the properties are tried; its firewall is the list of what it blocks.
use logfort.Prelude.{
  ℕ, String, Bool, true, false, not, Option, some, List, [], ◌∷◌, ◌==◌, select, any_where, ℤ, pos,
}
use logfort.Api.Server.{Server}
use logfort.Store.Rows.{SqliteStore}
use logfort.Parse.Event.{Event, event_of}
use logfort.Responder.Firewall.{Responder}
use logfort.Responder.Allowlist.{empty}
use logfort.Api.RateLimiter.{RateLimiter}

-- A limiter of one request in ten seconds, with bursts of five.
abbrev pub limiter : RateLimiter
limiter = record { tokens = 5_000_000_000; max = 5_000_000_000; rate = 100_000_000; last = 0 }

abbrev pub blocking : Responder (List String)
blocking = record {
  name = "nftables";
  ban = λ ip f. (true, ip ∷ f);
  unban = λ ip f. (true, select (λ a. not (a == ip)) f);
}

abbrev pub blocks : List String → String → Bool
blocks f ip = any_where (λ a. a == ip) f

-- A firewall that refuses.
abbrev pub refusing : Responder (List String)
refusing = record { name = "nftables"; ban = λ ip f. (false, f); unban = λ ip f. (false, f) }

abbrev pub empty_store : SqliteStore
empty_store = record { events = []; bans = []; settings = []; faults = [] }

abbrev pub sample_server : Server (List String)
sample_server = record {
  responder_enabled = true;
  auto_ban_enabled = true;
  auto_ban_threshold = pos 1;
  auto_ban_window = "10m";
  auto_ban_ban_time = pos 3600;
  blocklist_auto = true;
  store = empty_store;
  firewall = [];
  allowlist = some (record empty { extra_ips = [] });
  ban_lim = limiter;
  auto_ban_cooldown = [];
  threat_ban_cooldown = [];
  auto_ban_sem = 0;
  published = [];
  notified = [];
}

abbrev pub ten_minutes : String → Option ℤ
ten_minutes s = some (pos 600_000_000_000)

abbrev pub probe : Event
probe = record (event_of 100 "8.8.8.8" "failed_password" "sshd") { threat = "feed" }

abbrev pub clock : ℕ
clock = 100_000_000_000
