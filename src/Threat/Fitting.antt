-- ===== src/Threat/Fitting.antt =====
-- What parse of internal/threat/threat.go keeps: every range has cleared bits, and its length is noted for
-- its family, so that Lookup tries it.
use logfort.Prelude.{
  ℕ, ◌≤◌, String, ◌≡◌, sym, ap, ◌∙◌, inl, inr, Bool, true, false, ◌||◌, List, arith, eqb,
  Bool-cases, select, any_where, All, All-mono,
}
use logfort.Go.Net.{Ip, ip_eq, IpNet, same_under, net_contains}
use logfort.Threat.Blocklist.{
  Reading, nothing_read, add_ip, add_prefix, up_to, masked, net_eq, is_4, ThreatList, listed, lens,
}
use logfort.Threat.Masking.{
  ip_eq_sound, net_eq_sound, net_eq_refl, same_under-masked, same_under-own, masked-of_same,
  masked_twice, is_4-masked,
}
use logfort.Threat.Search.{
  any-found, any-witness, any-select, any-up_to, any-implies, any-at, same_truth,
}

-- What the set of a reading lists.
abbrev pub holds : Ip → List Ip → List IpNet → Bool
holds a ips prefixes = any_where (ip_eq a) ips || any_where (λ p. net_contains p a) prefixes

unfoldable pub Fitting : Reading → Type 0
Fitting r =
    All
      (λ p.
        (masked p.bits p.ip ≡ p.ip)
        × (is_4 p.ip ≡ true → (p.bits ≤ 32) × (any_where (eqb p.bits) r.have4 ≡ true))
        × (is_4 p.ip ≡ false → (p.bits ≤ 128) × (any_where (eqb p.bits) r.have6 ≡ true)))
      r.prefixes

pub add_ip-holds :
    (a b : Ip) (r : Reading)
    → holds a (add_ip b r).ips (add_ip b r).prefixes ≡ (ip_eq a b || holds a r.ips r.prefixes)
unfolding add_ip
add_ip-holds a b r = elim (Bool-cases (any_where (ip_eq b) r.ips)) [
  | inl e ↦ elim (Bool-cases (ip_eq a b)) [
    | inl g ↦
        let there = ap (λ z. any_where (ip_eq z) r.ips) (ip_eq_sound a b g) ∙ e in
        rw e (ground arith)
    | inr g ↦ rw e (ground arith)
  ]
  | inr e ↦ rw e (ground arith)
]

pub add_prefix-holds :
    (a : Ip) (p : IpNet) (r : Reading)
    → holds a (add_prefix p r).ips (add_prefix p r).prefixes
      ≡ (net_contains p a || holds a r.ips r.prefixes)
unfolding add_prefix net_contains
add_prefix-holds a p r =
    let same = same_under-masked p.bits p.ip a in
    let found = any-found (net_eq m) (λ q. same_under q.bits q.ip a) r.prefixes in
    elim (Bool-cases (any_where (net_eq m) r.prefixes)) [
      | inl e ↦ elim (Bool-cases (same_under p.bits p.ip a)) [
        | inl g ↦
            let there = found (λ q k. rw (← net_eq_sound m q k) (same ∙ g)) e in rw e (ground arith)
        | inr g ↦ rw e (ground arith)
      ]
      | inr e ↦ elim (Bool-cases (is_4 m.ip)) [
        | inl f ↦ rw (e, f) (ground (arith, same))
        | inr f ↦ rw (e, f) (ground (arith, same))
      ]
    ]
  where
    m : IpNet
    m = record { ip = masked p.bits p.ip; bits = p.bits }

-- A length that a range of its family can have.
abbrev pub InFamily : IpNet → Type 0
InFamily p = (is_4 p.ip ≡ true → p.bits ≤ 32) × (is_4 p.ip ≡ false → p.bits ≤ 128)

pub add_ip-Fitting : (b : Ip) (r : Reading) → Fitting r → Fitting (add_ip b r)
unfolding add_ip Fitting
add_ip-Fitting b r h = elim (Bool-cases (any_where (ip_eq b) r.ips)) [
  | inl e ↦ rw (e, add_ip) h
  | inr e ↦ rw (e, add_ip) h
]

pub add_prefix-Fitting :
    (p : IpNet) (r : Reading) → InFamily p → Fitting r → Fitting (add_prefix p r)
unfolding add_prefix Fitting
add_prefix-Fitting p r (four, six) h = elim (Bool-cases (any_where (net_eq m) r.prefixes)) [
  | inl e ↦ rw (e, add_prefix) h
  | inr e ↦ elim (Bool-cases (is_4 m.ip)) [
    | inl f ↦
        rw (e, f, add_prefix)
          (
            (twice, (λ g. (four (sym kind ∙ g), ground arith)), λ g. absurd (ground (arith, f, g))),
            All-mono _ _ r.prefixes
                (λ q k. (k.0, (λ g. let (a, b) = k.1 g in (a, ground (arith, b))), k.2)) h,
          )
    | inr f ↦
        rw (e, f, add_prefix)
          (
            (twice, (λ g. absurd (ground (arith, f, g))), λ g. (six (sym kind ∙ g), ground arith)),
            All-mono _ _ r.prefixes
                (λ q k. (k.0, k.1, λ g. let (a, b) = k.2 g in (a, ground (arith, b)))) h,
          )
  ]
]
  where
    m : IpNet
    m = record { ip = masked p.bits p.ip; bits = p.bits }

    twice : masked p.bits (masked p.bits p.ip) ≡ masked p.bits p.ip
    twice = masked_twice p.bits p.ip

    kind : is_4 (masked p.bits p.ip) ≡ is_4 p.ip
    kind = is_4-masked p.bits p.ip

abbrev pub list_of : String → Reading → ThreatList
list_of name r = record {
  name = name;
  ips = r.ips;
  prefixes = r.prefixes;
  prefix_lens4 = select (λ b. any_where (eqb b) r.have4) (up_to 32);
  prefix_lens6 = select (λ b. any_where (eqb b) r.have6) (up_to 128);
}

pub has_length :
    (name : String) (r : Reading) (a : Ip) (q : IpNet)
    → (is_4 q.ip ≡ true → (q.bits ≤ 32) × (any_where (eqb q.bits) r.have4 ≡ true))
    → (is_4 q.ip ≡ false → (q.bits ≤ 128) × (any_where (eqb q.bits) r.have6 ≡ true))
    → is_4 q.ip ≡ is_4 a
    → any_where (eqb q.bits) (lens (list_of name r) a) ≡ true
has_length name r a q four six kind = elim (Bool-cases (is_4 a)) [
  | inl f ↦
      let (le, seen) = four (kind ∙ f) in
      rw f (any-select q.bits _ (up_to 32) seen (any-up_to q.bits 32 le))
  | inr f ↦
      let (le, seen) = six (kind ∙ f) in
      rw f (any-select q.bits _ (up_to 128) seen (any-up_to q.bits 128 le))
]

-- Trying the lengths that occur is as good as trying every range.
pub listed-holds :
    (name : String) (r : Reading) (a : Ip)
    → Fitting r
    → listed (list_of name r) a ≡ holds a r.ips r.prefixes
unfolding listed net_contains Fitting
listed-holds name r a h = ap (λ x. any_where (ip_eq a) r.ips || x) (same_truth _ _ forth back)
  where
    around : ℕ → IpNet
    around bits = record { ip = masked bits a; bits = bits }

    tried : ℕ → Bool
    tried bits = any_where (net_eq (around bits)) r.prefixes

    ls : List ℕ
    ls = lens (list_of name r) a

    forth : any_where tried ls ≡ true → any_where (λ p. same_under p.bits p.ip a) r.prefixes ≡ true
    forth k =
        any-implies tried _ ls
          (λ bits e.
            any-found (net_eq (around bits)) _ r.prefixes
              (λ q g. rw (← net_eq_sound (around bits) q g) (same_under-own bits a)) e)
          k

    back : any_where (λ p. same_under p.bits p.ip a) r.prefixes ≡ true → any_where tried ls ≡ true
    back k =
        let (q, fit, inside, there) =
          any-witness net_eq (λ p. same_under p.bits p.ip a) _ r.prefixes net_eq_refl h k in
        let (own, kind) = masked-of_same q.bits q.ip a fit.0 inside in
        let here : any_where (net_eq (around q.bits)) r.prefixes ≡ true = rw (← own) there in
        any-at tried q.bits ls here (has_length name r a q fit.1 fit.2 kind)

pub none_yet : Unit {0} → Fitting nothing_read
unfolding Fitting
none_yet h = h
