-- ===== src/Threat/Lookup.antt =====
-- Lookup in internal/threat/threat.go finds an address exactly where a line lists it or a range around it.
use logfort.Prelude.{
  ◌+◌, ◌≤◌, String, ◌≡◌, refl, ap, ◌∙◌, inl, inr, Bool, true, false, ◌||◌, Option, none, some, List,
  [], ◌∷◌, map, arith, ◌==◌, leb, if◌then◌else◌, Bool-cases, or_default, length, any_where,
}
use logfort.Go.Strings.{trim_space}
use logfort.Go.Net.{Ip, ip_eq, IpNet, net_contains}
use logfort.Threat.Blocklist.{
  before_comment, has_slash, range_of, address_of, Reading, nothing_read, add_ip, add_prefix, Entry,
  no_entry, address, range, entry_of, add_entry, read_lines, parse, max_entries, ThreatList, lookup,
}
use logfort.Threat.Fitting.{
  holds, Fitting, add_ip-holds, add_prefix-holds, InFamily, add_ip-Fitting, add_prefix-Fitting,
  list_of, listed-holds, none_yet,
}

-- Whether an entry lists the address.
abbrev pub covers : Ip → Entry → Bool
covers a no_entry = false
covers a (address b) = ip_eq a b
covers a (range p) = net_contains p a

module _ (parse_addr : String → Option Ip) (parse_prefix : String → Option IpNet)
    (in_family : (s : String) (p : IpNet) → parse_prefix s ≡ some p → InFamily p) where
  abbrev entries : List String → List Entry
  entries lines = map (entry_of parse_addr parse_prefix) lines

  add_entry-holds :
      (a : Ip) (e : Entry) (r : Reading)
      → holds a (add_entry e r).ips (add_entry e r).prefixes
        ≡ (covers a e || holds a r.ips r.prefixes)
  add_entry-holds a no_entry r = refl
  add_entry-holds a (address b) r = add_ip-holds a b r
  add_entry-holds a (range p) r = add_prefix-holds a p r

  add_entry-n : (e : Entry) (r : Reading) → (add_entry e r).n ≤ r.n + 1
  unfolding add_ip add_prefix
  add_entry-n no_entry r = omega arith
  add_entry-n (address b) r = ground arith
  add_entry-n (range p) r = ground arith

  swap_or : (a b c : Bool) → ((a || b) || c) ≡ (b || (a || c))
  swap_or a b c = ground arith

  read_lines-holds :
      (a : Ip) (lines : List String) (r : Reading)
      → r.n + length lines ≤ max_entries
      → let q = read_lines parse_addr parse_prefix lines r in
        holds a q.ips q.prefixes
        ≡ (holds a r.ips r.prefixes || any_where (covers a) (entries lines))
  unfolding read_lines
  read_lines-holds a [] r h = ground arith
  read_lines-holds a (line ∷ lines) r h =
      let e = entry_of parse_addr parse_prefix line in
      let m = add_entry-n e r in
      let room : leb max_entries r.n ≡ false = ground arith in
      rw room (
        read_lines-holds a lines (add_entry e r) (omega arith)
        ∙ ap (λ x. x || any_where (covers a) (entries lines)) (add_entry-holds a e r)
        ∙ swap_or (covers a e) (holds a r.ips r.prefixes) (any_where (covers a) (entries lines)))

  abbrev InFamilies : Entry → Type 0
  InFamilies no_entry = Unit {0}
  InFamilies (address b) = Unit {0}
  InFamilies (range p) = InFamily p

  range_of-InFamilies :
      (s : String) (o : Option IpNet)
      → parse_prefix s ≡ o
      → InFamilies (range_of parse_addr parse_prefix o)
  range_of-InFamilies s none e = tt
  range_of-InFamilies s (some p) e = in_family s p e

  address_of-InFamilies : (o : Option Ip) → InFamilies (address_of parse_addr parse_prefix o)
  address_of-InFamilies none = tt
  address_of-InFamilies (some a) = tt

  entry_of-InFamilies : (line : String) → InFamilies (entry_of parse_addr parse_prefix line)
  unfolding entry_of
  entry_of-InFamilies text = elim (Bool-cases (before_comment (trim_space text) == "")) [
    | inl e ↦ rw (e, entry_of) tt
    | inr e ↦ elim (Bool-cases (has_slash (before_comment (trim_space text)))) [
      | inl f ↦ rw (e, f, entry_of) (range_of-InFamilies (before_comment (trim_space text)) _ refl)
      | inr f ↦ rw (e, f, entry_of) (address_of-InFamilies _)
    ]
  ]

  add_entry-Fitting : (e : Entry) (r : Reading) → InFamilies e → Fitting r → Fitting (add_entry e r)
  add_entry-Fitting no_entry r k h = h
  add_entry-Fitting (address b) r k h = add_ip-Fitting b r h
  add_entry-Fitting (range p) r k h = add_prefix-Fitting p r k h

  read_lines-Fitting :
      (lines : List String) (r : Reading)
      → Fitting r
      → Fitting (read_lines parse_addr parse_prefix lines r)
  unfolding read_lines
  read_lines-Fitting [] r h = h
  read_lines-Fitting (line ∷ lines) r h = elim (Bool-cases (leb max_entries r.n)) [
    | inl e ↦ rw (e, read_lines) h
    | inr e ↦
        rw (e, read_lines)
          (read_lines-Fitting lines (add_entry (entry_of parse_addr parse_prefix line) r) (
            add_entry-Fitting (entry_of parse_addr parse_prefix line) r (entry_of-InFamilies line)
              h))
  ]

  -- Lookup answers the list's name for exactly the addresses that a line of the file lists, as such or
  -- by a range around it, where netip reads only ranges of a length of their family and the file is
  -- within the limit of five million entries.
  pub lookup_lem :
      (name text : String) (broken : Bool) (lines : List String) (l : ThreatList) (a : Ip)
      → length lines ≤ max_entries
      → parse parse_addr parse_prefix name broken lines ≡ some l
      → parse_addr text ≡ some a
      → lookup parse_addr parse_prefix l text
        ≡ (if any_where (covers a) (entries lines) then name else "")
  unfolding parse lookup
  lookup_lem name text true lines l a h k e = absurd (ground arith)
  lookup_lem name text false lines l a h k e =
      let q = read_lines parse_addr parse_prefix lines nothing_read in
      let same = ap (λ o. or_default o (list_of name q)) k in
      rw (e, ← same)
        (ap (λ b. if b then name else "")
          (listed-holds name q a (read_lines-Fitting lines nothing_read (none_yet tt))
            ∙ read_lines-holds a lines nothing_read (omega arith)))
