-- ===== src/Go/Net.antt =====
-- IP addresses as Go's packages net and net/netip see them. `Net` holds the functions that read and
-- print their texts; the tests on addresses are written out.
use logfort.Prelude.{ℕ, ◌-◌, ◌/◌, ◌^◌, String, Bool, false, ◌||◌, Option, eqb}

-- A net.IP, by its 4-byte form where To4 gives one: a 4-byte address and its IPv4-mapped form
-- (::ffff:a.b.c.d) are one value.
pub data Ip : Type 0 where
  v4 : ℕ → Ip
  v6 : ℕ → Ip

-- net.IP.Equal.
abbrev pub ip_eq : Ip → Ip → Bool
ip_eq (v4 a) (v4 b) = eqb a b
ip_eq (v6 a) (v6 b) = eqb a b
ip_eq _ _ = false

-- A net.IPNet: an address and the length of its mask.
pub record IpNet : Type 0 where
  pub ip : Ip
  pub bits : ℕ

abbrev pub same_under : ℕ → Ip → Ip → Bool
same_under bits (v4 a) (v4 b) = eqb (a / 2 ^ (32 - bits)) (b / 2 ^ (32 - bits))
same_under bits (v6 a) (v6 b) = eqb (a / 2 ^ (128 - bits)) (b / 2 ^ (128 - bits))
same_under bits _ _ = false

-- net.IPNet.Contains: the same family, and the same bits under the mask.
unfoldable pub net_contains : IpNet → Ip → Bool
net_contains n i = same_under n.bits n.ip i

pub record Net : Type 0 where
  -- net.ParseIP, net.IP.String, net.ParseCIDR.
  pub parse_ip : String → Option Ip
  pub show_ip : Ip → String
  pub parse_cidr : String → Option IpNet
  -- netip.ParseAddr, without the zone and unmapped, which the tests below do not read.
  pub parse_addr : String → Option Ip
  -- net.SplitHostPort, the host.
  pub split_host : String → Option String

-- netip.Addr.IsPrivate: 10/8, 172.16/12, 192.168/16 and fc00::/7.
abbrev pub is_private_addr : Ip → Bool
is_private_addr (v4 a) = eqb (a / 2 ^ 24) 10 || (eqb (a / 2 ^ 20) 0xac1 || eqb (a / 2 ^ 16) 0xc0a8)
is_private_addr (v6 a) = eqb (a / 2 ^ 121) 0x7e

-- IsLoopback: 127/8 and ::1.
abbrev pub is_loopback_addr : Ip → Bool
is_loopback_addr (v4 a) = eqb (a / 2 ^ 24) 127
is_loopback_addr (v6 a) = eqb a 1

-- IsLinkLocalUnicast: 169.254/16 and fe80::/10.
abbrev pub is_link_local_addr : Ip → Bool
is_link_local_addr (v4 a) = eqb (a / 2 ^ 16) 0xa9fe
is_link_local_addr (v6 a) = eqb (a / 2 ^ 118) 0x3fa
