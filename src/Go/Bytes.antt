-- ===== src/Go/Bytes.antt =====
-- strconv.ParseInt and ParseUint, and what is used of package strings, on a text given as its bytes.
use logfort.Prelude.{
  ℕ, ◌+◌, ◌-◌, ◌*◌, ◌^◌, Bool, true, false, ◌&&◌, ◌||◌, Option, none, some, List, [], ◌∷◌, map, ltb,
  leb, eqb, if◌then◌else◌, length, take, ℤ, pos,
}
use logfort.Go.Strconv.{digit, neg}

-- Reads on from a number; a text with anything but digits of the base is refused.
unfoldable pub number_from : ℕ → ℕ → List ℕ → Option ℕ
unfolding digit
number_from base n [] = some n
number_from base n (c ∷ s) = elim (digit c) [
  | none ↦ none
  | some d ↦ let rest = number_from base (n * base + d) s in if ltb d base then rest else none
]

-- ParseUint, of so many bits.
unfoldable pub parse_uint : ℕ → ℕ → List ℕ → Option ℕ
unfolding number_from
parse_uint base bits [] = none
parse_uint base bits (c ∷ s) = elim (number_from base 0 (c ∷ s)) [
  | none ↦ none
  | some n ↦ if ltb n (2 ^ bits) then some n else none
]

-- Whether a text has a minus, and what stands behind its sign.
abbrev pub split_sign : List ℕ → Bool × List ℕ
split_sign [] = (false, [])
split_sign (c ∷ s) =
    if eqb c b'-' then (true, s) else if eqb c b'+' then (false, s) else (false, c ∷ s)

abbrev pub int_of : Bool → ℕ → Option ℤ
int_of minus n =
    if minus
    then (if leb n (2 ^ 63) then some (neg n) else none)
    else (if ltb n (2 ^ 63) then some (pos n) else none)

-- ParseInt(s, 10, 64) and Atoi.
unfoldable pub parse_int : List ℕ → Option ℤ
unfolding parse_uint
parse_int s =
    let (minus, rest) = split_sign s in
    elim (parse_uint 10 64 rest) [ none ↦ none | some n ↦ int_of minus n ]

-- strings.HasPrefix.
abbrev pub has_prefix : List ℕ → List ℕ → Bool
has_prefix [] s = true
has_prefix (p ∷ ps) [] = false
has_prefix (p ∷ ps) (c ∷ s) = eqb p c && has_prefix ps s

abbrev pub reverse_onto : List ℕ → List ℕ → List ℕ
reverse_onto acc [] = acc
reverse_onto acc (c ∷ s) = reverse_onto (c ∷ acc) s

-- strings.HasSuffix.
abbrev pub has_suffix : List ℕ → List ℕ → Bool
has_suffix p s = has_prefix (reverse_onto [] p) (reverse_onto [] s)

-- strings.TrimSuffix.
unfoldable pub trim_suffix : List ℕ → List ℕ → List ℕ
trim_suffix p s = if has_suffix p s then take (length s - length p) s else s

-- strings.Contains.
unfoldable pub contains : List ℕ → List ℕ → Bool
contains p [] = has_prefix p []
contains p (c ∷ s) = has_prefix p (c ∷ s) || contains p s

-- strings.ToLower, of ASCII.
abbrev pub to_lower : List ℕ → List ℕ
to_lower = map (λ c. if leb b'A' c && leb c b'Z' then c + 32 else c)

-- unicode.IsSpace, of ASCII.
abbrev pub is_space : ℕ → Bool
is_space c = eqb c 32 || (leb 9 c && leb c 13)

abbrev pub trim_left : List ℕ → List ℕ
trim_left [] = []
trim_left (c ∷ s) = let rest = trim_left s in if is_space c then rest else c ∷ s

-- strings.TrimSpace.
unfoldable pub trim_space : List ℕ → List ℕ
trim_space s = reverse_onto [] (trim_left (reverse_onto [] (trim_left s)))

-- The field that was read, its last byte first, unless it is empty.
abbrev end_field : List ℕ → List (List ℕ) → List (List ℕ)
end_field [] next = next
end_field (f ∷ fs) next = reverse_onto [] (f ∷ fs) ∷ next

-- strings.Fields, with the field that is being read.
unfoldable pub fields_from : List ℕ → List ℕ → List (List ℕ)
fields_from field [] = end_field field []
fields_from field (c ∷ s) =
    let on = fields_from (c ∷ field) s in
    let next = fields_from [] s in if is_space c then end_field field next else on

-- strings.Split at an end of line.
unfoldable pub lines : List ℕ → List ℕ → List (List ℕ)
lines acc [] = reverse_onto [] acc ∷ []
lines acc (c ∷ s) =
    let on = lines (c ∷ acc) s in
    let next = lines [] s in if eqb c 10 then reverse_onto [] acc ∷ next else on

-- What stands behind the first colon.
unfoldable pub after_colon : List ℕ → Option (List ℕ)
after_colon [] = none
after_colon (c ∷ s) = let rest = after_colon s in if eqb c b':' then some s else rest
