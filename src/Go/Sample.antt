-- ===== src/Go/Sample.antt =====
-- A small table of addresses, with which the properties are tried.
use logfort.Prelude.{eqb, String, Option, none, some, ◌==◌, if◌then◌else◌}
use logfort.Go.Net.{Ip, v4, v6, IpNet, Net}

abbrev address : String → Option Ip
address s =
    if s == "8.8.8.8"
    then some (v4 0x08080808)
    else if s == "9.9.9.9"
    then some (v4 0x09090909)
    else if s == "10.0.0.1"
    then some (v4 0x0a000001)
    else none

abbrev range : String → Option IpNet
range s = if s == "9.0.0.0/8" then some (record { ip = v4 0x09000000; bits = 8 }) else none

abbrev shown : Ip → String
shown i = elim i [
  | v4 a ↦
      if eqb a 0x08080808 then "8.8.8.8" else if eqb a 0x09090909 then "9.9.9.9" else "10.0.0.1"
  | v6 a ↦ "::"
]

abbrev pub sample_net : Net
sample_net = record {
  parse_ip = address;
  show_ip = shown;
  parse_cidr = range;
  parse_addr = address;
  split_host = λ s. if s == "9.9.9.9:4000" then some "9.9.9.9" else none;
}
