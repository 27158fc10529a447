-- ===== src/Responder/Allowlist.antt =====
-- internal/responder/responder.go: the allowlist, and the tests IsPrivate and IsValid.
use logfort.Prelude.{
  String, Bool, true, false, ◌||◌, Option, none, some, List, [], ◌∷◌, ◌++◌, is_some, any_where,
}
use logfort.Go.Net.{
  Ip, ip_eq, IpNet, net_contains, Net, is_private_addr, is_loopback_addr, is_link_local_addr,
}

-- `nets` and `ips` come from the environment at startup; the extra entries from the settings.
pub record Allowlist : Type 0 where
  pub nets : List IpNet
  pub ips : List Ip
  pub extra_nets : List IpNet
  pub extra_ips : List Ip

abbrev pub empty : Allowlist
empty = record { nets = []; ips = []; extra_nets = []; extra_ips = [] }

module _ (net : Net) where
  -- One entry appended: a range if it reads as one, else an address; `none` is the error.
  unfoldable pub parse_entry : String → Allowlist → Option Allowlist
  parse_entry e al = elim (net.parse_cidr e) [
    | some n ↦ some (record al { nets = al.nets ++ n ∷ [] })
    | none ↦ elim (net.parse_ip e) [
      | some i ↦ some (record al { ips = al.ips ++ i ∷ [] })
      | none ↦ none
    ]
  ]

  unfoldable pub parse_from : Allowlist → List String → Option Allowlist
  parse_from al [] = some al
  parse_from al (e ∷ es) = elim (parse_entry e al) [ none ↦ none | some al' ↦ parse_from al' es ]

  -- ParseAllowlist.
  unfoldable pub parse_allowlist : List String → Option Allowlist
  unfolding parse_from parse_entry
  parse_allowlist es = parse_from empty es

  -- SetExtra: the new list, and whether there was no error.
  unfoldable pub set_extra : List String → Allowlist → Allowlist × Bool
  set_extra es al = elim (parse_allowlist es) [
    | none ↦ (al, false)
    | some parsed ↦ (record al { extra_nets = parsed.nets; extra_ips = parsed.ips }, true)
  ]

  abbrev pub in_nets : Ip → List IpNet → Bool
  in_nets i = any_where (λ n. net_contains n i)

  abbrev pub in_ips : Ip → List Ip → Bool
  in_ips i = any_where (λ a. ip_eq a i)

  -- Contains.
  unfoldable pub contains : Allowlist → String → Bool
  contains al text = elim (net.parse_ip text) [
    | none ↦ false
    | some i ↦
        in_nets i al.nets || (in_ips i al.ips || (in_nets i al.extra_nets || in_ips i al.extra_ips))
  ]

  unfoldable pub is_private : String → Bool
  is_private text = elim (net.parse_addr text) [
    | none ↦ false
    | some a ↦ is_private_addr a || (is_loopback_addr a || is_link_local_addr a)
  ]

  unfoldable pub is_valid : String → Bool
  is_valid text = is_some (net.parse_addr text)
