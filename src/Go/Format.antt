-- ===== src/Go/Format.antt =====
-- strconv.FormatInt and strings.Join.
use logfort.Prelude.{
  ◌≡◌, ℕ, zero, suc, ◌/◌, ◌%◌, String, List, [], ◌∷◌, ltb, eqb, ◌≡◌, refl, if◌then◌else◌, ℤ, pos,
  negsuc,
}
use Prim.Native.Char.{Char}
use Prim.Native.String.{◌++◌ as str_append}

unfoldable pub join : String → List String → String
join sep [] = ""
join sep (p ∷ []) = p
join sep (p ∷ q ∷ ps) = str_append p (str_append sep (join sep (q ∷ ps)))

abbrev pub digit_char : ℕ → Char
digit_char d =
    if eqb d 0
    then "0"
    else if eqb d 1
    then "1"
    else if eqb d 2
    then "2"
    else if eqb d 3
    then "3"
    else if eqb d 4
    then "4"
    else if eqb d 5
    then "5"
    else if eqb d 6
    then "6"
    else if eqb d 7
    then "7"
    else if eqb d 8
    then "8"
    else "9"

unfoldable pub digits_of : ℕ → ℕ → String → String
digits_of zero n acc = acc
digits_of (suc fuel) n acc =
    let next = String.◌∷◌ (digit_char (n % 10)) acc in
    let rest = digits_of fuel (n / 10) next in if ltb n 10 then next else rest

-- FormatInt(n, 10) of an int64, of at most 20 digits.
unfoldable pub format_int : ℤ → String
unfolding digits_of
format_int (pos n) = digits_of 20 n ""
format_int (negsuc n) = String.◌∷◌ "-" (digits_of 20 (suc n) "")

shows : format_int (negsuc 41) ≡ "-42"
unfolding format_int
shows = refl
