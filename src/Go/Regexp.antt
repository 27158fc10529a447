-- ===== src/Go/Regexp.antt =====
-- Package regexp, as far as internal/parse uses it: a search takes the leftmost match, and of its alternatives
-- the first. A continuation says what has to match behind an expression.
use logfort.Prelude.{
  ℕ, zero, suc, ◌-◌, String, ◌≡◌, refl, Bool, true, false, ◌&&◌, Option, none, some, List, [], ◌∷◌,
  ◌==◌, ltb, leb, eqb, if◌then◌else◌,
}
use Prim.Native.Char.{code}

-- s ++ t.
abbrev pub append : String → String → String
append String.[] t = t
append (String.◌∷◌ c s) t = String.◌∷◌ c (append s t)

abbrev pub len : String → ℕ
len String.[] = 0
len (String.◌∷◌ c s) = suc (len s)

abbrev pub take_front : ℕ → String → String
take_front zero s = ""
take_front (suc n) String.[] = ""
take_front (suc n) (String.◌∷◌ c s) = String.◌∷◌ c (take_front n s)

-- What was read of a text of which this is left.
abbrev pub read_part : String → String → String
read_part s rest = take_front (len s - len rest) s

-- A class of characters, a text, one expression and then another, the first alternative before the second, as
-- many characters of a class as can be or as few, an expression repeated, a named group and the text's end.
pub data Regex : Type 0 where
  one : (ℕ → Bool) → Regex
  lit : String → Regex
  cat alt : Regex → Regex → Regex
  most fewest : (ℕ → Bool) → Regex
  star : Regex → Regex
  group : String → Regex → Regex
  at_end : Regex

abbrev pub opt : Regex → Regex
opt r = alt r (lit "")

abbrev pub some_of : (ℕ → Bool) → Regex
some_of p = cat (one p) (most p)

-- The groups that have matched, the last first.
abbrev pub Groups : Type 0
Groups = List (String × String)

abbrev pub Next : Type 0
Next = String → Groups → Option Groups

abbrev pub or_else : Option Groups → Option Groups → Option Groups
or_else none o = o
or_else (some g) o = some g

unfoldable pub match_one : (ℕ → Bool) → String → Groups → Next → Option Groups
match_one p String.[] g k = none
match_one p (String.◌∷◌ c s) g k = elim (p (code c)) [ true ↦ k s g | false ↦ none ]

unfoldable pub match_lit : String → String → Groups → Next → Option Groups
match_lit String.[] s g k = k s g
match_lit (String.◌∷◌ c w) String.[] g k = none
match_lit (String.◌∷◌ c w) (String.◌∷◌ d s) g k = elim (eqb (code c) (code d)) [
  | true ↦ match_lit w s g k
  | false ↦ none
]

unfoldable pub match_most : (ℕ → Bool) → String → Groups → Next → Option Groups
match_most p String.[] g k = k "" g
match_most p (String.◌∷◌ c s) g k = elim (p (code c)) [
  | true ↦ or_else (match_most p s g k) (k (String.◌∷◌ c s) g)
  | false ↦ k (String.◌∷◌ c s) g
]

unfoldable pub match_fewest : (ℕ → Bool) → String → Groups → Next → Option Groups
match_fewest p String.[] g k = k "" g
match_fewest p (String.◌∷◌ c s) g k =
    or_else (k (String.◌∷◌ c s) g)
      (elim (p (code c)) [ true ↦ match_fewest p s g k | false ↦ none ])

-- The expression, again and again as long as it reads something.
unfoldable pub match_star :
    (String → Groups → Next → Option Groups) → ℕ → String → Groups → Next → Option Groups
match_star m zero s g k = k s g
match_star m (suc fuel) s g k =
    or_else
      (m s g
        (λ s' g'. elim (ltb (len s') (len s)) [ true ↦ match_star m fuel s' g' k | false ↦ none ]))
      (k s g)

unfoldable pub match : Regex → String → Groups → Next → Option Groups
unfolding match_one match_lit match_most match_fewest match_star
match (one p) s g k = match_one p s g k
match (lit w) s g k = match_lit w s g k
match (cat a b) s g k = match a s g (λ s' g'. match b s' g' k)
match (alt a b) s g k = or_else (match a s g k) (match b s g k)
match (most p) s g k = match_most p s g k
match (fewest p) s g k = match_fewest p s g k
match (star r) s g k = match_star (match r) (len s) s g k
match (group name r) s g k = match r s g (λ s' g'. k s' ((name, read_part s s') ∷ g'))
match at_end String.[] g k = k "" g
match at_end (String.◌∷◌ c s) g k = none

abbrev pub matched : Next
matched s g = some g

-- FindStringSubmatch of an expression that begins with ^, and of one that does not.
unfoldable pub find_at_start : Regex → String → Option Groups
unfolding match
find_at_start r s = match r s [] matched

unfoldable pub find : Regex → String → Option Groups
unfolding match
find r String.[] = match r "" [] matched
find r (String.◌∷◌ c s) = or_else (match r (String.◌∷◌ c s) [] matched) (find r s)

-- The text of a named group, empty where it took no part in the match.
unfoldable pub named : String → Groups → String
named name [] = ""
named name ((n, t) ∷ g) = let rest = named name g in if n == name then t else rest

finds :
    find (cat (lit "ab") (group "n" (some_of (λ c. leb b'0' c && leb c b'9')))) "xabab12c"
    ≡ some (("n", "12") ∷ [])
unfolding find
finds = refl

lazily :
    find_at_start (cat (group "a" (fewest (λ c. true))) (lit "-")) "a-b-" ≡ some (("a", "a") ∷ [])
unfolding find_at_start
lazily = refl

greedily :
    find_at_start (cat (group "a" (most (λ c. true))) (lit "-")) "a-b-" ≡ some (("a", "a-b") ∷ [])
unfolding find_at_start
greedily = refl
