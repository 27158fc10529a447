-- ===== src/F2b/Unicode.antt =====
-- escapeRawUnicode, utf16Pair, pickleCommand and unescapeRawUnicode of internal/f2b/pickle.go. A Go string
-- is the list of its bytes; one that is escaped is ranged over, so it is given as the list of its runes.
use logfort.Prelude.{
  ℕ, zero, suc, ◌+◌, ◌-◌, ◌*◌, ◌/◌, ◌%◌, ◌≡◌, refl, Bool, false, ◌&&◌, ◌||◌, Option, none, some,
  List, [], ◌∷◌, ◌++◌, ltb, leb, eqb, if◌then◌else◌,
}
use logfort.Go.Strconv.{digit}

-- The lower-case digit of fmt's %x.
unfoldable pub hex_digit : ℕ → ℕ
hex_digit d = if ltb d 10 then b'0' + d else b'a' + (d - 10)

-- fmt's `\u%04x` of a number below 0x10000.
unfoldable pub escape_unit : ℕ → List ℕ
unfolding hex_digit
escape_unit n =
    b'\\'
    ∷ b'u'
    ∷ hex_digit (n / 4096 % 16)
    ∷ hex_digit (n / 256 % 16)
    ∷ hex_digit (n / 16 % 16)
    ∷ hex_digit (n % 16)
    ∷ []

-- utf16Pair, of a rune above 0xffff.
unfoldable pub utf16_pair : ℕ → ℕ × ℕ
utf16_pair r = let s = r - 0x10000 in (0xd800 + s / 1024, 0xdc00 + s % 1024)

abbrev pub must_escape : ℕ → Bool
must_escape r = eqb r b'\\' || (eqb r 10 || (eqb r 13 || (ltb 0x7e r || ltb r 0x20)))

unfoldable pub escape_rune : ℕ → List ℕ
unfolding escape_unit utf16_pair
escape_rune r =
    let (hi, lo) = utf16_pair r in
    if must_escape r
    then (if ltb 0xffff r then escape_unit hi ++ escape_unit lo else escape_unit r)
    else r ∷ []

unfoldable pub escape_raw_unicode : List ℕ → List ℕ
unfolding escape_rune
escape_raw_unicode [] = []
escape_raw_unicode (r ∷ rs) = escape_rune r ++ escape_raw_unicode rs

abbrev pub argument_lines : List (List ℕ) → List ℕ
argument_lines [] = []
argument_lines (a ∷ args) = b'V' ∷ escape_raw_unicode a ++ 10 ∷ argument_lines args

unfoldable pub pickle_command : List (List ℕ) → List ℕ
unfolding escape_raw_unicode
pickle_command args = b'(' ∷ argument_lines args ++ b'l' ∷ b'.' ∷ []

-- strings.Builder.WriteRune: UTF-8, and U+FFFD for a surrogate and for what is above U+10FFFF.
unfoldable pub write_rune : ℕ → List ℕ
write_rune r =
    if ltb r 0x80
    then r ∷ []
    else if ltb r 0x800
    then (0xc0 + r / 64) ∷ (0x80 + r % 64) ∷ []
    else if (leb 0xd800 r && leb r 0xdfff) || ltb 0x10ffff r
    then 0xef ∷ 0xbf ∷ 0xbd ∷ []
    else if ltb r 0x10000
    then (0xe0 + r / 4096) ∷ (0x80 + r / 64 % 64) ∷ (0x80 + r % 64) ∷ []
    else (0xf0 + r / 262144) ∷ (0x80 + r / 4096 % 64) ∷ (0x80 + r / 64 % 64) ∷ (0x80 + r % 64) ∷ []

abbrev pub add_digit : Option ℕ → ℕ → Option ℕ
add_digit none c = none
add_digit (some n) c = elim (digit c) [ none ↦ none | some d ↦ some (n * 16 + d) ]

-- The number that a text begins with, where it begins with `\u` and four digits.
unfoldable pub escaped_unit : List ℕ → Option ℕ
escaped_unit (a ∷ b ∷ c ∷ d ∷ e ∷ f ∷ rest) =
    if eqb a b'\\' && eqb b b'u'
    then add_digit (add_digit (add_digit (add_digit (some 0) c) d) e) f
    else none
escaped_unit _ = none

-- The loop of unescapeRawUnicode; the first argument is how many bytes of an escape are still passed over.
unfoldable pub unescape_from : ℕ → List ℕ → List ℕ
unfolding escaped_unit write_rune
unescape_from n [] = []
unescape_from (suc n) (b ∷ bs) = unescape_from n bs
unescape_from zero (b ∷ bs) = elim (escaped_unit (b ∷ bs)) [
  | some n ↦ write_rune n ++ unescape_from 5 bs
  | none ↦ b ∷ unescape_from 0 bs
]

-- Whether the text has the two characters `\u`.
unfoldable pub has_escape : List ℕ → Bool
has_escape (a ∷ b ∷ bs) = (eqb a b'\\' && eqb b b'u') || has_escape (b ∷ bs)
has_escape _ = false

unfoldable pub unescape_raw_unicode : List ℕ → List ℕ
unfolding has_escape unescape_from
unescape_raw_unicode s = if has_escape s then unescape_from 0 s else s

escapes : escape_raw_unicode (b'a' ∷ 0xe9 ∷ 10 ∷ []) ≡ b'a' ∷ (escape_unit 0xe9 ++ escape_unit 10)
unfolding escape_raw_unicode
escapes = refl
