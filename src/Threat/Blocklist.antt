-- ===== src/Threat/Blocklist.antt =====
-- internal/threat/threat.go: parse and Lookup. Go's sets are lists without doubles. `parse_addr` and
-- `parse_prefix` are netip.ParseAddr, unmapped, and netip.ParsePrefix, without zones; `broken` says
-- whether the scanner ends with an error, such as a line of more than a megabyte.
use logfort.Prelude.{
  ℕ, zero, suc, ◌+◌, ◌-◌, ◌*◌, ◌/◌, ◌^◌, String, Bool, true, false, ◌&&◌, ◌||◌, Option, none, some,
  List, [], ◌∷◌, ◌++◌, ◌==◌, leb, eqb, if◌then◌else◌, length, select, any_where,
}
use Prim.Native.Char.{code}
use logfort.Go.Strings.{trim_space}
use logfort.Go.Net.{Ip, v4, v6, ip_eq, IpNet}

-- maxEntries.
abbrev pub max_entries : ℕ
max_entries = 5_000_000

pub record ThreatList : Type 0 where
  pub name : String
  pub ips : List Ip
  pub prefixes : List IpNet
  pub prefix_lens4 : List ℕ
  pub prefix_lens6 : List ℕ

-- The address with its low bits cleared, as netip.Prefix.Masked and netip.Addr.Prefix do.
abbrev pub masked : ℕ → Ip → Ip
masked bits (v4 a) = v4 (a / 2 ^ (32 - bits) * 2 ^ (32 - bits))
masked bits (v6 a) = v6 (a / 2 ^ (128 - bits) * 2 ^ (128 - bits))

abbrev pub net_eq : IpNet → IpNet → Bool
net_eq p q = ip_eq p.ip q.ip && eqb p.bits q.bits

abbrev pub is_4 : Ip → Bool
is_4 (v4 a) = true
is_4 (v6 a) = false

-- What parse has read so far: the sets, the lengths seen, and the number of entries.
pub record Reading : Type 0 where
  pub ips : List Ip
  pub prefixes : List IpNet
  pub have4 : List ℕ
  pub have6 : List ℕ
  pub n : ℕ

abbrev pub nothing_read : Reading
nothing_read = record { ips = []; prefixes = []; have4 = []; have6 = []; n = 0 }

unfoldable pub add_prefix : IpNet → Reading → Reading
add_prefix p r =
    let m : IpNet = record { ip = masked p.bits p.ip; bits = p.bits } in
    let r' = record r { n = r.n + 1 } in
    if any_where (net_eq m) r.prefixes
    then r'
    else if is_4 m.ip
    then record r' { prefixes = m ∷ r.prefixes; have4 = p.bits ∷ r.have4 }
    else record r' { prefixes = m ∷ r.prefixes; have6 = p.bits ∷ r.have6 }

unfoldable pub add_ip : Ip → Reading → Reading
add_ip a r =
    if any_where (ip_eq a) r.ips
    then record r { n = r.n + 1 }
    else record r { ips = a ∷ r.ips; n = r.n + 1 }

-- strings.IndexAny at " \t;#": what stands before the first of them.
unfoldable pub before_comment : String → String
before_comment String.[] = ""
before_comment (String.◌∷◌ c s) =
    let rest = before_comment s in
    if eqb (code c) b' ' || (eqb (code c) 9 || (eqb (code c) b';' || eqb (code c) b'#'))
    then ""
    else String.◌∷◌ c rest

unfoldable pub has_slash : String → Bool
has_slash String.[] = false
has_slash (String.◌∷◌ c s) = eqb (code c) b'/' || has_slash s

-- What a line holds.
pub data Entry : Type 0 where
  no_entry : Entry
  address : Ip → Entry
  range : IpNet → Entry

abbrev pub add_entry : Entry → Reading → Reading
add_entry no_entry r = r
add_entry (address a) r = add_ip a r
add_entry (range p) r = add_prefix p r

unfoldable pub up_to : ℕ → List ℕ
up_to zero = 0 ∷ []
up_to (suc n) = up_to n ++ suc n ∷ []

abbrev pub lens : ThreatList → Ip → List ℕ
lens l a = if is_4 a then l.prefix_lens4 else l.prefix_lens6

-- Lookup of an address that was parsed.
unfoldable pub listed : ThreatList → Ip → Bool
listed l a =
    any_where (ip_eq a) l.ips
    || any_where
        (λ bits. any_where (net_eq (record { ip = masked bits a; bits = bits })) l.prefixes)
        (lens l a)

module _ (parse_addr : String → Option Ip) (parse_prefix : String → Option IpNet) where
  abbrev pub address_of : Option Ip → Entry
  address_of none = no_entry
  address_of (some a) = address a

  abbrev pub range_of : Option IpNet → Entry
  range_of none = no_entry
  range_of (some p) = range p

  -- An empty line and a comment leave nothing before the comment.
  unfoldable pub entry_of : String → Entry
  unfolding before_comment has_slash
  entry_of text =
      let line = before_comment (trim_space text) in
      if line == ""
      then no_entry
      else if has_slash line
      then range_of (parse_prefix line)
      else address_of (parse_addr line)

  unfoldable pub read_lines : List String → Reading → Reading
  unfolding entry_of add_ip add_prefix
  read_lines [] r = r
  read_lines (line ∷ lines) r =
      let more = read_lines lines (add_entry (entry_of line) r) in
      if leb max_entries r.n then r else more

  unfoldable pub parse : String → Bool → List String → Option ThreatList
  unfolding read_lines
  parse name broken lines =
      let r = read_lines lines nothing_read in
      if broken
      then none
      else some (record {
        name = name;
        ips = r.ips;
        prefixes = r.prefixes;
        prefix_lens4 = select (λ b. any_where (eqb b) r.have4) (up_to 32);
        prefix_lens6 = select (λ b. any_where (eqb b) r.have6) (up_to 128);
      })

  abbrev pub answer : ThreatList → Option Ip → String
  answer l none = ""
  answer l (some a) = if listed l a then l.name else ""

  unfoldable pub lookup : ThreatList → String → String
  unfolding listed
  lookup l text = answer l (parse_addr text)

-- Count.
abbrev pub count : ThreatList → ℕ
count l = length l.ips + length l.prefixes
