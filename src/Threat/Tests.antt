-- ===== src/Threat/Tests.antt =====
-- A small blocklist.
use logfort.Prelude.{
  String, ◌≡◌, refl, ap, inl, inr, false, some, List, [], ◌∷◌, map, arith, ◌==◌, if◌then◌else◌,
  Bool-cases, or_default, any_where,
}
use logfort.Go.Net.{v4, IpNet}
use logfort.Go.Sample.{sample_net}
use logfort.Threat.Blocklist.{ThreatList, parse, lookup, max_entries, entry_of}
use mathlib.Core.Path.{subst}
use logfort.Threat.Fitting.{InFamily}
use logfort.Threat.Lookup.{covers, lookup_lem}

abbrev lines : List String
lines = "# feed" ∷ "9.0.0.0/8 ; net" ∷ " 8.8.8.8" ∷ []

abbrev feed : ThreatList
feed = record {
  name = "feed";
  ips = v4 0x08080808 ∷ [];
  prefixes = record { ip = v4 0x09000000; bits = 8 } ∷ [];
  prefix_lens4 = 8 ∷ [];
  prefix_lens6 = [];
}

parsed : parse sample_net.parse_ip sample_net.parse_cidr "feed" false lines ≡ some feed
unfolding parse logfort.Go.Strings.trim_space logfort.Threat.Blocklist.up_to
parsed = refl

in_family : (s : String) (p : IpNet) → sample_net.parse_cidr s ≡ some p → InFamily p
in_family s p e = elim (Bool-cases (s == "9.0.0.0/8")) [
  | inl b ↦
      subst InFamily (ap (λ o. or_default o p) (rw b at e)) ((λ g. omega arith), λ g. omega arith)
  | inr b ↦ absurd (ground (arith, rw b at e))
]

lookup_example : lookup sample_net.parse_ip sample_net.parse_cidr feed "9.9.9.9" ≡ (
    if any_where
      (covers (v4 0x09090909))
      (map (entry_of sample_net.parse_ip sample_net.parse_cidr) lines)
    then "feed"
    else "")
lookup_example =
    lookup_lem sample_net.parse_ip sample_net.parse_cidr in_family "feed" "9.9.9.9" false lines feed
      (v4 0x09090909) (omega arith) parsed refl

found : lookup sample_net.parse_ip sample_net.parse_cidr feed "9.9.9.9" ≡ "feed"
unfolding lookup
found = refl
