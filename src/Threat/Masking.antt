-- ===== src/Threat/Masking.antt =====
-- Networks of addresses, as internal/threat/threat.go compares them: addresses whose low bits are cleared.
use logfort.Prelude.{ℕ, ◌-◌, ◌*◌, ◌/◌, ◌^◌, ◌<◌, ◌≡◌, refl, sym, ap, ◌∙◌, true, arith, eqb, eqb_iff}
use native.Mathlib.Nat.{mul-div_cancel, one-le-pow}
use logfort.Go.Net.{Ip, v4, v6, ip_eq, IpNet, same_under}
use logfort.Threat.Blocklist.{masked, net_eq, is_4}

pub ip_eq_sound : (a b : Ip) → ip_eq a b ≡ true → a ≡ b
ip_eq_sound (v4 a) (v4 b) h = ap v4 ((eqb_iff a b).0 h)
ip_eq_sound (v6 a) (v6 b) h = ap v6 ((eqb_iff a b).0 h)
ip_eq_sound (v4 a) (v6 b) h = absurd (ground arith)
ip_eq_sound (v6 a) (v4 b) h = absurd (ground arith)

pub ip_eq_refl : (a : Ip) → ip_eq a a ≡ true
ip_eq_refl (v4 a) = ground arith
ip_eq_refl (v6 a) = ground arith

pub net_eq_sound : (p q : IpNet) → net_eq p q ≡ true → p ≡ q
net_eq_sound p q h =
    let e = ip_eq_sound p.ip q.ip (ground arith) in
    let f : p.bits ≡ q.bits = ground arith in cc (e, f)

pub net_eq_refl : (p : IpNet) → net_eq p p ≡ true
net_eq_refl p = ground (arith, ip_eq_refl p.ip)

pub pow_pos : (k : ℕ) → 0 < 2 ^ k
pow_pos k = one-le-pow k 2 (omega arith)

pub cleared : (a k : ℕ) → a / 2 ^ k * 2 ^ k / 2 ^ k ≡ a / 2 ^ k
cleared a k = mul-div_cancel (a / 2 ^ k) (pow_pos k)

pub same_under-masked :
    (bits : ℕ) (i a : Ip) → same_under bits (masked bits i) a ≡ same_under bits i a
same_under-masked bits (v4 x) (v4 a) = ap (λ z. eqb z (a / 2 ^ (32 - bits))) (cleared x (32 - bits))
same_under-masked bits (v6 x) (v6 a) =
    ap (λ z. eqb z (a / 2 ^ (128 - bits))) (cleared x (128 - bits))
same_under-masked bits (v4 x) (v6 a) = refl
same_under-masked bits (v6 x) (v4 a) = refl

-- The network around an address contains it.
pub same_under-own : (bits : ℕ) (a : Ip) → same_under bits (masked bits a) a ≡ true
same_under-own bits (v4 a) = ground (arith, cleared a (32 - bits))
same_under-own bits (v6 a) = ground (arith, cleared a (128 - bits))

-- An address with its low bits cleared, in one network with another one.
pub masked-of_same :
    (bits : ℕ) (i a : Ip)
    → masked bits i ≡ i
    → same_under bits i a ≡ true
    → (i ≡ masked bits a) × (is_4 i ≡ is_4 a)
masked-of_same bits (v4 x) (v4 a) h k =
    (sym h ∙ ap (λ z. v4 (z * 2 ^ (32 - bits))) ((eqb_iff _ _).0 k), refl)
masked-of_same bits (v6 x) (v6 a) h k =
    (sym h ∙ ap (λ z. v6 (z * 2 ^ (128 - bits))) ((eqb_iff _ _).0 k), refl)
masked-of_same bits (v4 x) (v6 a) h k = absurd (ground arith)
masked-of_same bits (v6 x) (v4 a) h k = absurd (ground arith)

pub masked_twice : (bits : ℕ) (i : Ip) → masked bits (masked bits i) ≡ masked bits i
masked_twice bits (v4 a) = ap (λ z. v4 (z * 2 ^ (32 - bits))) (cleared a (32 - bits))
masked_twice bits (v6 a) = ap (λ z. v6 (z * 2 ^ (128 - bits))) (cleared a (128 - bits))

pub is_4-masked : (bits : ℕ) (i : Ip) → is_4 (masked bits i) ≡ is_4 i
is_4-masked bits (v4 a) = refl
is_4-masked bits (v6 a) = refl
