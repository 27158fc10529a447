-- ===== src/F2b/Numerals.antt =====
-- AsInt and ParseInt of internal/f2b read back what strconv.FormatInt writes, and GetJail what SetJail sets.
use logfort.Prelude.{
  ℕ, zero, suc, ◌+◌, ◌-◌, ◌*◌, ◌/◌, ◌%◌, ◌^◌, ◌≤◌, ◌<◌, ◌≡◌, refl, ap, ◌∙◌, inl, inr, Bool, true,
  false, Option, none, some, [], ◌∷◌, ◌++◌, arith, ltb, leb, eqb, Bool-cases, All, All-mono, ℤ, pos,
  negsuc,
}
use mathlib.Core.List.{append-nil}
use logfort.Go.Bytes.{reverse_onto, trim_left, trim_space, is_space, split_sign, int_of}
use logfort.F2b.Value.{Text, str, digits_of, format_int}
use logfort.F2b.Client.{scan_digits, sscan_int, as_int}

abbrev IsDigit : ℕ → Type 0
IsDigit c = (b'0' ≤ c) × (c ≤ b'9')

abbrev power10 : ℕ → ℕ
power10 zero = 1
power10 (suc n) = 10 * power10 n

digits_of-digits : (fuel n : ℕ) (acc : Text) → All IsDigit acc → All IsDigit (digits_of fuel n acc)
unfolding digits_of
digits_of-digits zero n acc h = h
digits_of-digits (suc fuel) n acc h =
    let d : IsDigit (b'0' + n % 10) = (omega arith, omega arith) in
    elim (Bool-cases (ltb n 10)) [
      | inl e ↦ rw e (d, h)
      | inr e ↦ rw e (digits_of-digits fuel (n / 10) ((b'0' + n % 10) ∷ acc) (d, h))
    ]

scan_digits-digit :
    (n d : ℕ) (any : Bool) (s : Text)
    → d < 10
    → scan_digits n any ((b'0' + d) ∷ s) ≡ scan_digits (n * 10 + d) true s
scan_digits-digit n d any s h =
    let low : leb b'0' (b'0' + d) ≡ true = ground arith in
    let high : leb (b'0' + d) b'9' ≡ true = ground arith in
    let e : n * 10 + (b'0' + d - b'0') ≡ n * 10 + d = omega arith in rw (low, high, e) refl

first-digit :
    (n : ℕ) (acc : Text)
    → n < 10
    → scan_digits 0 false ((b'0' + n % 10) ∷ acc) ≡ scan_digits n true acc
first-digit n acc h =
    let e : 0 * 10 + n % 10 ≡ n = omega arith in
    scan_digits-digit 0 (n % 10) false acc (omega arith) ∙ ap (λ k. scan_digits k true acc) e

scan_digits-digits_of :
    (fuel n : ℕ) (acc : Text)
    → n < power10 (suc fuel)
    → scan_digits 0 false (digits_of (suc fuel) n acc) ≡ scan_digits n true acc
unfolding digits_of
scan_digits-digits_of zero n acc h = elim (Bool-cases (ltb n 10)) [
  | inl e ↦ rw e (first-digit n acc h)
  | inr e ↦ rw e (first-digit n acc h)
]
scan_digits-digits_of (suc fuel) n acc h = elim (Bool-cases (ltb n 10)) [
  | inl e ↦ rw e (first-digit n acc (ground arith))
  | inr e ↦
      let back : n / 10 * 10 + n % 10 ≡ n = omega arith in
      rw e (
        scan_digits-digits_of fuel (n / 10) ((b'0' + n % 10) ∷ acc) (omega arith)
        ∙ scan_digits-digit (n / 10) (n % 10) true acc (omega arith)
        ∙ ap (λ k. scan_digits k true acc) back)
]

split_sign-digits : (s : Text) → All IsDigit s → split_sign s ≡ (false, s)
split_sign-digits [] h = refl
split_sign-digits (c ∷ s) ((lo, hi), hs) =
    let minus : eqb c b'-' ≡ false = ground arith in
    let plus : eqb c b'+' ≡ false = ground arith in rw (minus, plus) refl

abbrev IsInk : ℕ → Type 0
IsInk c = is_space c ≡ false

trim_left-ink : (s : Text) → All IsInk s → trim_left s ≡ s
trim_left-ink [] h = refl
trim_left-ink (c ∷ s) h = rw (h.0) refl

All-reverse : (acc s : Text) → All IsInk acc → All IsInk s → All IsInk (reverse_onto acc s)
All-reverse acc [] h k = h
All-reverse acc (c ∷ s) h k = All-reverse (c ∷ acc) s (k.0, h) k.1

reverse_twice :
    (acc bs s : Text) → reverse_onto acc (reverse_onto bs s) ≡ reverse_onto (s ++ acc) bs
reverse_twice acc bs [] = refl
reverse_twice acc bs (c ∷ s) = reverse_twice acc (c ∷ bs) s

trim_space-ink : (s : Text) → All IsInk s → trim_space s ≡ s
unfolding trim_space
trim_space-ink s h =
    ap (λ t. reverse_onto [] (trim_left (reverse_onto [] t))) (trim_left-ink s h)
    ∙ ap (reverse_onto []) (trim_left-ink (reverse_onto [] s) (All-reverse [] s tt h))
    ∙ reverse_twice [] [] s
    ∙ append-nil s

-- The numbers of 64 bits.
abbrev pub IsInt64 : ℤ → Type 0
IsInt64 (pos n) = n < 2 ^ 63
IsInt64 (negsuc n) = n < 2 ^ 63

digit-IsInk : (c : ℕ) → IsDigit c → IsInk c
digit-IsInk c (lo, hi) = ground arith

format_int-IsInk : (n : ℤ) → All IsInk (format_int n)
unfolding format_int
format_int-IsInk (pos n) =
    All-mono IsDigit IsInk (digits_of 20 n []) digit-IsInk (digits_of-digits 20 n [] tt)
format_int-IsInk (negsuc n) = (
  ground arith,
  All-mono IsDigit IsInk (digits_of 20 (suc n) []) digit-IsInk (digits_of-digits 20 (suc n) [] tt),
)

pub sscan_int-format_int : (n : ℤ) → IsInt64 n → sscan_int (format_int n) ≡ some n
unfolding sscan_int format_int
sscan_int-format_int (pos n) h =
    let s = digits_of 20 n [] in
    let digits = scan_digits-digits_of 19 n [] (omega arith) in
    ap
      (λ (p : Bool × Text). elim (scan_digits 0 false p.1) as (λ _. Option ℤ) [
        | none ↦ none
        | some k ↦ int_of p.0 k
      ])
      (split_sign-digits s (digits_of-digits 20 n [] tt))
    ∙ ap (λ o. elim o as (λ _. Option ℤ) [ none ↦ none | some k ↦ int_of false k ]) digits
    ∙ ground arith
sscan_int-format_int (negsuc n) h =
    ap (λ o. elim o as (λ _. Option ℤ) [ none ↦ none | some k ↦ int_of true k ])
      (scan_digits-digits_of 19 (suc n) [] (omega arith))
    ∙ ground arith

-- AsInt reads back the decimal text of every int64.
pub as_int-format_int :
    (truncate : ℕ → ℤ) (n : ℤ) → IsInt64 n → as_int truncate (str (format_int n)) ≡ some n
unfolding as_int
as_int-format_int truncate n h =
    ap sscan_int (trim_space-ink (format_int n) (format_int-IsInk n)) ∙ sscan_int-format_int n h
