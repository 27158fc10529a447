-- ===== src/Parse/Event.antt =====
-- internal/parse/event.go. Times are Unix seconds; latitudes and longitudes are scaled integers.
use logfort.Prelude.{ℕ, String, Bool, Option, none, ℤ, pos}

pub record GeoInfo : Type 0 where
  pub country : String
  pub city : String
  pub lat : ℤ
  pub lon : ℤ
  pub asn : String

-- `geo` is the zero value of a Go struct where no lookup ran; `user_valid` is `*bool`.
pub record Event : Type 0 where
  pub ts : ℕ
  pub ip : String
  pub event_type : String
  pub username : String
  pub user_valid : Option Bool
  pub auth_method : String
  pub port : ℕ
  pub source : String
  pub detail : String
  pub threat : String
  pub geo : GeoInfo
  pub raw : String

abbrev pub no_geo : GeoInfo
no_geo = record { country = ""; city = ""; lat = pos 0; lon = pos 0; asn = "" }

-- `&parse.Event{TS: …, IP: …, EventType: …, Source: …}`: every other field is Go's zero value.
abbrev pub event_of : ℕ → String → String → String → Event
event_of ts ip event_type source = record {
  ts = ts;
  ip = ip;
  event_type = event_type;
  username = "";
  user_valid = none;
  auth_method = "";
  port = 0;
  source = source;
  detail = "";
  threat = "";
  geo = no_geo;
  raw = "";
}
