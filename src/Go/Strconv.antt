-- ===== src/Go/Strconv.antt =====
-- strconv.ParseInt and strconv.ParseUint on decimal and hexadecimal texts, of 64 bits.
use logfort.Prelude.{
  ℕ, zero, suc, ◌+◌, ◌-◌, ◌*◌, ◌^◌, String, ◌≡◌, refl, Bool, true, false, ◌&&◌, Option, none, some,
  ltb, leb, eqb, if◌then◌else◌, ℤ, pos, negsuc,
}
use Prim.Native.Char.{code}

-- The value of a digit, in a base of at most 16.
unfoldable pub digit : ℕ → Option ℕ
digit c =
    if leb b'0' c && leb c b'9'
    then some (c - b'0')
    else if leb b'a' c && leb c b'f'
    then some (c - b'a' + 10)
    else if leb b'A' c && leb c b'F'
    then some (c - b'A' + 10)
    else none

-- Reads on from a number; a text with anything but digits of the base is refused.
unfoldable pub digits_from : ℕ → ℕ → String → Option ℕ
unfolding digit
digits_from base n String.[] = some n
digits_from base n (String.◌∷◌ c s) = elim (digit (code c)) [
  | none ↦ none
  | some d ↦ let rest = digits_from base (n * base + d) s in if ltb d base then rest else none
]

-- ParseUint, of so many bits.
unfoldable pub parse_uint : ℕ → ℕ → String → Option ℕ
unfolding digits_from
parse_uint base bits String.[] = none
parse_uint base bits (String.◌∷◌ c s) = elim (digits_from base 0 (String.◌∷◌ c s)) [
  | none ↦ none
  | some n ↦ if ltb n (2 ^ bits) then some n else none
]

-- -n.
abbrev pub neg : ℕ → ℤ
neg zero = pos 0
neg (suc n) = negsuc n

-- The rest behind a sign, and whether it is a minus.
abbrev signed : String → Bool × String
signed String.[] = (false, "")
signed (String.◌∷◌ c s) =
    if eqb (code c) b'-'
    then (true, s)
    else if eqb (code c) b'+'
    then (false, s)
    else (false, String.◌∷◌ c s)

-- ParseInt(s, 10, 64) and Atoi.
unfoldable pub parse_int : String → Option ℤ
unfolding parse_uint
parse_int s =
    let (minus, rest) = signed s in
    elim (parse_uint 10 64 rest) [
      | none ↦ none
      | some n ↦
          if minus
          then (if leb n (2 ^ 63) then some (neg n) else none)
          else (if ltb n (2 ^ 63) then some (pos n) else none)
    ]

reads_int : parse_int "-42" ≡ some (negsuc 41)
unfolding parse_int
reads_int = refl

reads_hex : parse_uint 16 32 "1F90" ≡ some 8080
unfolding parse_uint
reads_hex = refl

refuses : parse_int "12x" ≡ none
unfolding parse_int
refuses = refl

refuses_overflow : parse_int "9223372036854775808" ≡ none
unfolding parse_int
refuses_overflow = refl
