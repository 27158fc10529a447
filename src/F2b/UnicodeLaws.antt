-- ===== src/F2b/UnicodeLaws.antt =====
-- unescapeRawUnicode reads what escapeRawUnicode writes, of internal/f2b/pickle.go.
use logfort.Prelude.{
  ℕ, ◌+◌, ◌-◌, ◌*◌, ◌/◌, ◌%◌, ◌≤◌, ◌<◌, ◌≡◌, refl, sym, ap, ◌∙◌, ◌⊎◌, inl, inr, true, false, none,
  some, List, [], ◌∷◌, ◌++◌, arith, ltb, eqb, Bool-cases, All,
}
use logfort.Go.Strconv.{digit}
use logfort.F2b.Unicode.{
  hex_digit, escape_unit, must_escape, escape_rune, escape_raw_unicode, write_rune, add_digit,
  escaped_unit, unescape_from, has_escape, unescape_raw_unicode,
}

digit-hex_digit : (d : ℕ) → d < 16 → digit (hex_digit d) ≡ some d
unfolding digit hex_digit
digit-hex_digit d h = ground arith

add_digit-of_digit : (n c : ℕ) {d : ℕ} → digit c ≡ some d → add_digit (some n) c ≡ some (n * 16 + d)
add_digit-of_digit n c h = rw (h, add_digit) refl

escaped_unit-of_digits :
    (c d e f : ℕ) (rest : List ℕ) {w x y z : ℕ}
    → digit c ≡ some w
    → digit d ≡ some x
    → digit e ≡ some y
    → digit f ≡ some z
    → escaped_unit (b'\\' ∷ b'u' ∷ c ∷ d ∷ e ∷ f ∷ rest)
      ≡ some ((((0 * 16 + w) * 16 + x) * 16 + y) * 16 + z)
unfolding escaped_unit
escaped_unit-of_digits c d e f rest p q r s =
    ap (λ o. add_digit (add_digit (add_digit o d) e) f) (add_digit-of_digit 0 c p)
    ∙ ap (λ o. add_digit (add_digit o e) f) (add_digit-of_digit _ d q)
    ∙ ap (λ o. add_digit o f) (add_digit-of_digit _ e r)
    ∙ add_digit-of_digit _ f s

escaped_unit-escape_unit :
    (n : ℕ) (rest : List ℕ) → n < 65536 → escaped_unit (escape_unit n ++ rest) ≡ some n
unfolding escape_unit
escaped_unit-escape_unit n rest h =
    escaped_unit-of_digits _ _ _ _ rest (digit-hex_digit (n / 4096 % 16) (omega arith))
      (digit-hex_digit (n / 256 % 16) (omega arith)) (digit-hex_digit (n / 16 % 16) (omega arith))
      (digit-hex_digit (n % 16) (omega arith))
    ∙ ap some (omega arith)

escaped_unit-of_ne : (b : ℕ) (bs : List ℕ) → eqb b b'\\' ≡ false → escaped_unit (b ∷ bs) ≡ none
unfolding escaped_unit
escaped_unit-of_ne b [] h = refl
escaped_unit-of_ne b (_ ∷ []) h = refl
escaped_unit-of_ne b (_ ∷ _ ∷ []) h = refl
escaped_unit-of_ne b (_ ∷ _ ∷ _ ∷ []) h = refl
escaped_unit-of_ne b (_ ∷ _ ∷ _ ∷ _ ∷ []) h = refl
escaped_unit-of_ne b (c ∷ _ ∷ _ ∷ _ ∷ _ ∷ rest) h = rw h refl

escaped_unit-of_no_escape :
    (b : ℕ) (bs : List ℕ) → has_escape (b ∷ bs) ≡ false → escaped_unit (b ∷ bs) ≡ none
unfolding has_escape escaped_unit
escaped_unit-of_no_escape b [] h = refl
escaped_unit-of_no_escape b (_ ∷ []) h = refl
escaped_unit-of_no_escape b (_ ∷ _ ∷ []) h = refl
escaped_unit-of_no_escape b (_ ∷ _ ∷ _ ∷ []) h = refl
escaped_unit-of_no_escape b (_ ∷ _ ∷ _ ∷ _ ∷ []) h = refl
escaped_unit-of_no_escape b (c ∷ _ ∷ _ ∷ _ ∷ _ ∷ rest) h = ground arith

has_escape-rest : (b : ℕ) (bs : List ℕ) → has_escape (b ∷ bs) ≡ false → has_escape bs ≡ false
unfolding has_escape
has_escape-rest b [] h = refl
has_escape-rest b (c ∷ bs) h = ground arith

unescape_from-no_escape : (s : List ℕ) → has_escape s ≡ false → unescape_from 0 s ≡ s
unfolding has_escape unescape_from
unescape_from-no_escape [] h = refl
unescape_from-no_escape (b ∷ bs) h =
    rw (escaped_unit-of_no_escape b bs h, unescape_from)
      (ap (λ l. b ∷ l) (unescape_from-no_escape bs (has_escape-rest b bs h)))

unescape_from-escape_unit :
    (n : ℕ) (rest : List ℕ)
    → n < 65536
    → unescape_from 0 (escape_unit n ++ rest) ≡ write_rune n ++ unescape_from 0 rest
unfolding escape_unit unescape_from
unescape_from-escape_unit n rest h = rw (escaped_unit-escape_unit n rest h, unescape_from) refl

unescape_from-of_ne :
    (r : ℕ) (rest : List ℕ)
    → eqb r b'\\' ≡ false
    → ltb r 0x80 ≡ true
    → unescape_from 0 (r ∷ rest) ≡ write_rune r ++ unescape_from 0 rest
unfolding unescape_from write_rune
unescape_from-of_ne r rest h k = rw (escaped_unit-of_ne r rest h, k, unescape_from) refl

escape_rune-cases :
    (r : ℕ)
    → r < 65536
    → (escape_rune r ≡ escape_unit r)
      ⊎ ((escape_rune r ≡ r ∷ []) × ((eqb r b'\\' ≡ false) × (ltb r 0x80 ≡ true)))
unfolding escape_rune
escape_rune-cases r h = elim (Bool-cases (must_escape r)) [
  | inl e ↦ inl (ground arith)
  | inr e ↦ inr (ground arith, (ground arith, ground arith))
]

unescape_from-escape_rune :
    (r : ℕ) (rest : List ℕ)
    → r < 65536
    → unescape_from 0 (escape_rune r ++ rest) ≡ write_rune r ++ unescape_from 0 rest
unescape_from-escape_rune r rest h = elim (escape_rune-cases r h) [
  | inl e ↦ rw e (unescape_from-escape_unit r rest h)
  | inr (e, (ne, k)) ↦ rw e (unescape_from-of_ne r rest ne k)
]

-- The UTF-8 of a text.
abbrev pub utf8 : List ℕ → List ℕ
utf8 [] = []
utf8 (r ∷ rs) = write_rune r ++ utf8 rs

unescape_from-escape :
    (rs : List ℕ) → All (λ r. r < 65536) rs → unescape_from 0 (escape_raw_unicode rs) ≡ utf8 rs
unfolding escape_raw_unicode unescape_from
unescape_from-escape [] h = refl
unescape_from-escape (r ∷ rs) (h, hs) =
    unescape_from-escape_rune r (escape_raw_unicode rs) h
    ∙ ap (λ l. write_rune r ++ l) (unescape_from-escape rs hs)

-- What escapeRawUnicode writes of a text whose runes are below 0x10000, unescapeRawUnicode reads back: the
-- result is the text's UTF-8, with the replacement character for a surrogate.
pub unescape_raw_unicode-escape :
    (rs : List ℕ) → All (λ r. r < 65536) rs → unescape_raw_unicode (escape_raw_unicode rs) ≡ utf8 rs
unfolding unescape_raw_unicode
unescape_raw_unicode-escape rs h = elim (Bool-cases (has_escape (escape_raw_unicode rs))) [
  | inl e ↦ rw e (unescape_from-escape rs h)
  | inr e ↦
      rw e (sym (unescape_from-no_escape (escape_raw_unicode rs) e) ∙ unescape_from-escape rs h)
]

-- Whether a byte is a printable ASCII character: in particular no end of line.
abbrev pub Printable : ℕ → Type 0
Printable b = (0x20 ≤ b) × (b ≤ 0x7e)

All-append : (xs ys : List ℕ) → All Printable xs → All Printable ys → All Printable (xs ++ ys)
All-append [] ys h k = k
All-append (x ∷ xs) ys (h, hs) k = (h, All-append xs ys hs k)

hex_digit-Printable : (d : ℕ) → d < 16 → Printable (hex_digit d)
unfolding hex_digit
hex_digit-Printable d h = (ground arith, ground arith)

escape_unit-Printable : (n : ℕ) → All Printable (escape_unit n)
unfolding escape_unit
escape_unit-Printable n =
    let digit_of : (m : ℕ) → Printable (hex_digit (m % 16)) =
      λ m. hex_digit-Printable (m % 16) (omega arith) in
    (
      (omega arith, omega arith),
      ((omega arith, omega arith), (digit_of _, (digit_of _, (digit_of _, (digit_of n, tt))))),
    )

escape_rune-alternatives :
    (r : ℕ)
    → ((hi : ℕ) × ((lo : ℕ) × (escape_rune r ≡ escape_unit hi ++ escape_unit lo)))
      ⊎ ((escape_rune r ≡ escape_unit r) ⊎ ((escape_rune r ≡ r ∷ []) × Printable r))
unfolding escape_rune
escape_rune-alternatives r = elim (Bool-cases (must_escape r)) [
  | inl e ↦ elim (Bool-cases (ltb 0xffff r)) [
    | inl k ↦ inl (0xd800 + (r - 0x10000) / 1024, (0xdc00 + (r - 0x10000) % 1024, ground arith))
    | inr k ↦ inr (inl (ground arith))
  ]
  | inr e ↦ inr (inr (ground arith, (ground arith, ground arith)))
]

escape_rune-Printable : (r : ℕ) → All Printable (escape_rune r)
escape_rune-Printable r = elim (escape_rune-alternatives r) [
  | inl (hi, (lo, e)) ↦ rw e (
      All-append (escape_unit hi) (escape_unit lo) (escape_unit-Printable hi)
        (escape_unit-Printable lo))
  | inr (inl e) ↦ rw e (escape_unit-Printable r)
  | inr (inr (e, h)) ↦ rw e (h, tt)
]

-- Whatever the text, each byte that escapeRawUnicode writes is a printable ASCII character, so an argument
-- can end neither its line nor the command.
pub escape_raw_unicode-Printable : (rs : List ℕ) → All Printable (escape_raw_unicode rs)
unfolding escape_raw_unicode
escape_raw_unicode-Printable [] = tt
escape_raw_unicode-Printable (r ∷ rs) =
    All-append (escape_rune r) (escape_raw_unicode rs) (escape_rune-Printable r)
      (escape_raw_unicode-Printable rs)
