-- ===== src/Go/Strings.antt =====
-- The functions of Go's package strings that the program calls, on texts as lists of characters.
use logfort.Prelude.{
  Option, none, some, ℕ, String, ◌≡◌, refl, Bool, ◌&&◌, ◌||◌, List, [], ◌∷◌, ◌==◌, leb, eqb,
  if◌then◌else◌,
}
use Prim.Native.Char.{Char, code}

-- unicode.IsSpace.
unfoldable pub is_space : ℕ → Bool
is_space c =
    (leb 9 c && leb c 13)
    || (eqb c 32
        || (eqb c 0x85
            || (eqb c 0xa0
                || (eqb c 0x1680
                    || ((leb 0x2000 c && leb c 0x200a)
                        || (eqb c 0x2028
                            || (eqb c 0x2029
                                || (eqb c 0x202f || (eqb c 0x205f || eqb c 0x3000)))))))))

unfoldable pub trim_left : String → String
unfolding is_space
trim_left String.[] = ""
trim_left (String.◌∷◌ c s) =
    let rest = trim_left s in if is_space (code c) then rest else String.◌∷◌ c s

unfoldable pub trim_right : String → String
unfolding is_space
trim_right String.[] = ""
trim_right (String.◌∷◌ c s) =
    let rest = trim_right s in if rest == "" && is_space (code c) then "" else String.◌∷◌ c rest

-- strings.TrimSpace.
unfoldable pub trim_space : String → String
unfolding trim_left trim_right
trim_space s = trim_right (trim_left s)

abbrev push_char : Char → List String → List String
push_char c [] = String.◌∷◌ c "" ∷ []
push_char c (p ∷ ps) = String.◌∷◌ c p ∷ ps

-- strings.Split at a separator of one character.
unfoldable pub split : ℕ → String → List String
split sep String.[] = "" ∷ []
split sep (String.◌∷◌ c s) =
    let rest = split sep s in if eqb (code c) sep then "" ∷ rest else push_char c rest

abbrev close_word : String × List String → List String
close_word (w, ws) = if w == "" then ws else w ∷ ws

-- The word at the front, empty before white space, and the words behind it.
unfoldable pub leading_word : String → String × List String
unfolding is_space
leading_word String.[] = ("", [])
leading_word (String.◌∷◌ c s) =
    let (w, ws) = leading_word s in
    if is_space (code c) then ("", close_word (w, ws)) else (String.◌∷◌ c w, ws)

-- strings.Fields: the runs of characters that are no white space.
unfoldable pub fields : String → List String
unfolding leading_word
fields s = close_word (leading_word s)

-- strings.CutPrefix: what is behind the prefix, if the text has it.
unfoldable pub cut_prefix : String → String → Option String
cut_prefix String.[] s = some s
cut_prefix (String.◌∷◌ c p) String.[] = none
cut_prefix (String.◌∷◌ c p) (String.◌∷◌ d s) =
    let rest = cut_prefix p s in if eqb (code c) (code d) then rest else none

abbrev in_front : Char → Option (String × String) → Option (String × String)
in_front c none = none
in_front c (some (a, b)) = some (String.◌∷◌ c a, b)

-- strings.Cut at a separator of one character: what is before its first place and what is behind.
unfoldable pub cut : ℕ → String → Option (String × String)
cut sep String.[] = none
cut sep (String.◌∷◌ c s) =
    let rest = cut sep s in if eqb (code c) sep then some ("", s) else in_front c rest

trims : trim_space "  a b\t" ≡ "a b"
unfolding trim_space
trims = refl

splits : split b',' "a,,b" ≡ "a" ∷ "" ∷ "b" ∷ []
unfolding split
splits = refl

fields_run : fields " ab  c " ≡ "ab" ∷ "c" ∷ []
unfolding fields
fields_run = refl

cuts : cut b'/' "100/1h" ≡ some ("100", "1h")
unfolding cut
cuts = refl

cuts_prefix : cut_prefix "digest:" "digest:daily" ≡ some "daily"
unfolding cut_prefix
cuts_prefix = refl
