-- ===== src/F2b/Value.antt =====
-- The values of internal/f2b/pickle.go and the memory they live in. A text is the list of its bytes. A slice
-- is an array's address and its length, so two slices may share an array, as append lets them; a map and a
-- *PyObject are addresses. A *PyClass is never changed, so it stands for itself.
use logfort.Prelude.{
  ℕ, zero, suc, ◌+◌, ◌/◌, ◌%◌, ◌^◌, String, Bool, true, false, not, ◌&&◌, ◌||◌, Option, none, some,
  List, [], ◌∷◌, ◌++◌, map, ltb, leb, eqb, if◌then◌else◌, length, take, drop, select, ℤ, pos,
  negsuc, eqb_ℤ,
}
use Prim.Native.Char.{code}

abbrev pub Text : Type 0
Text = List ℕ

-- The bytes of a text of ASCII characters.
abbrev pub ascii : String → Text
ascii String.[] = []
ascii (String.◌∷◌ c s) = code c ∷ ascii s

pub record PyClass : Type 0 where
  pub mod_name : Text
  pub name : Text

-- What an interface value of the unpickler holds; a float64 is given by its bits.
pub data Value : Type 0 where
  nil mark : Value
  str bytes : Text → Value
  boolean : Bool → Value
  int : ℤ → Value
  float : ℕ → Value
  slice : ℕ → ℕ → Value
  dict : ℕ → Value
  class_of : PyClass → Value
  object : ℕ → Value

-- The type assertions v.([]any), v.(map[any]any), v.(*PyClass) and v.(*PyObject).
abbrev pub as_slice : Value → Option (ℕ × ℕ)
as_slice (slice a n) = some (a, n)
as_slice _ = none

abbrev pub as_dict : Value → Option ℕ
as_dict (dict d) = some d
as_dict _ = none

abbrev pub as_class : Value → Option PyClass
as_class (class_of c) = some c
as_class _ = none

abbrev pub as_object : Value → Option ℕ
as_object (object o) = some o
as_object _ = none

-- Args is a slice, the nil slice being one of length 0.
pub record PyObject : Type 0 where
  pub class_ref : PyClass
  pub args : ℕ × ℕ
  pub state : Value

abbrev pub no_object : PyObject
no_object = record { class_ref = record { mod_name = []; name = [] }; args = (0, 0); state = nil }

-- An array is the list of its cells, as many as its capacity.
pub record Heap : Type 0 where
  pub arrays : List (List Value)
  pub dicts : List (List (Value × Value))
  pub objects : List PyObject

abbrev pub empty_heap : Heap
empty_heap = record { arrays = []; dicts = []; objects = [] }

abbrev pub get_elem_or {ℓ} : {A : Type ℓ} → A → ℕ → List A → A
get_elem_or d n [] = d
get_elem_or d zero (x ∷ xs) = x
get_elem_or d (suc n) (x ∷ xs) = get_elem_or d n xs

abbrev pub set_elem {ℓ} : {A : Type ℓ} → ℕ → A → List A → List A
set_elem n y [] = []
set_elem zero y (x ∷ xs) = y ∷ xs
set_elem (suc n) y (x ∷ xs) = x ∷ set_elem n y xs

abbrev pub replicate {ℓ} : {A : Type ℓ} → ℕ → A → List A
replicate zero x = []
replicate (suc n) x = x ∷ replicate n x

-- The elements of a slice.
unfoldable pub elements : Heap → ℕ → ℕ → List Value
elements h a n = take n (get_elem_or [] a h.arrays)

-- A new array with these elements and some spare cells.
unfoldable pub new_slice : List Value → ℕ → Heap → Value × Heap
new_slice items spare h = (
  slice (length h.arrays) (length items),
  record h { arrays = h.arrays ++ (items ++ replicate spare nil) ∷ [] },
)

-- append: in place where the capacity is enough, and else in a new array, of a capacity that the runtime
-- chooses.
unfoldable pub append_slice : (ℕ → ℕ → ℕ) → ℕ → ℕ → List Value → Heap → Value × Heap
unfolding new_slice
append_slice grow a n items h =
    let cells = get_elem_or [] a h.arrays in
    let m = n + length items in
    if leb m (length cells)
    then (
      slice a m,
      record h { arrays = set_elem a (take n cells ++ items ++ drop m cells) h.arrays },
    )
    else new_slice (take n cells ++ items) (grow (length cells) m) h

abbrev is_nan : ℕ → Bool
is_nan f = ltb 0x7ff0000000000000 (f % 2 ^ 63)

-- == of two float64s.
abbrev float_eq : ℕ → ℕ → Bool
float_eq f g =
    not (is_nan f) && not (is_nan g) && (eqb f g || (eqb (f % 2 ^ 63) 0 && eqb (g % 2 ^ 63) 0))

abbrev pub text_eq : Text → Text → Bool
text_eq [] [] = true
text_eq (x ∷ xs) (y ∷ ys) = eqb x y && text_eq xs ys
text_eq _ _ = false

abbrev bool_eq : Bool → Bool → Bool
bool_eq true b = b
bool_eq false b = not b

-- == of two keys of a map[any]any; mapKey leaves no other kind of key.
abbrev key_eq : Value → Value → Bool
key_eq nil nil = true
key_eq (str s) (str t) = text_eq s t
key_eq (boolean b) (boolean c) = bool_eq b c
key_eq (int m) (int n) = eqb_ℤ m n
key_eq (float f) (float g) = float_eq f g
key_eq _ _ = false

-- m[k] = v.
unfoldable pub put : Value → Value → List (Value × Value) → List (Value × Value)
put k v m = (k, v) ∷ select (λ e. not (key_eq k e.0)) m

unfoldable pub digits_of : ℕ → ℕ → Text → Text
digits_of zero n acc = acc
digits_of (suc fuel) n acc =
    let next = (b'0' + n % 10) ∷ acc in
    let rest = digits_of fuel (n / 10) next in if ltb n 10 then next else rest

-- %d of an int64, of at most 20 digits.
unfoldable pub format_int : ℤ → Text
unfolding digits_of
format_int (pos n) = digits_of 20 n []
format_int (negsuc n) = b'-' ∷ digits_of 20 (suc n) []

abbrev pub join : Text → List Text → Text
join sep [] = []
join sep (p ∷ []) = p
join sep (p ∷ q ∷ ps) = p ++ sep ++ join sep (q ∷ ps)

-- PyClass.String.
unfoldable pub class_string : PyClass → Text
class_string c = c.mod_name ++ b'.' ∷ c.name

abbrev all_of : List (Option Text) → Option (List Text)
all_of [] = some []
all_of (none ∷ ts) = none
all_of (some t ∷ ts) = elim (all_of ts) [ none ↦ none | some us ↦ some (t ∷ us) ]

-- fmt's %v of a float64 and of a map, which ends in a stack overflow, `none`, where the map holds itself.
module _ (print : Heap → Value → Option Text) where
  -- Stringify and PyObject.String, with as many nested calls as the stack has room for; a slice or an
  -- object that holds itself overflows every stack.
  unfoldable pub stringify : ℕ → Heap → Value → Option Text
  unfolding class_string format_int elements
  stringify zero h v = none
  stringify (suc depth) h nil = some (ascii "None")
  stringify (suc depth) h (str s) = some s
  stringify (suc depth) h (bytes s) = some s
  stringify (suc depth) h (class_of c) = some (class_string c)
  stringify (suc depth) h (slice a n) = elim (all_of (map (stringify depth h) (elements h a n))) [
    | none ↦ none
    | some parts ↦ some (b'[' ∷ join (ascii ", ") parts ++ b']' ∷ [])
  ]
  stringify (suc depth) h (object o) =
      let obj = get_elem_or no_object o h.objects in
      elim (all_of (map (stringify depth h) (elements h obj.args.0 obj.args.1))) [
        | none ↦ none
        | some parts ↦
            some (class_string obj.class_ref ++ b'(' ∷ join (ascii ", ") parts ++ b')' ∷ [])
      ]
  stringify (suc depth) h (boolean b) = some (if b then ascii "true" else ascii "false")
  stringify (suc depth) h (int n) = some (format_int n)
  stringify (suc depth) h mark = some (ascii "{}")
  stringify (suc depth) h (float f) = print h (float f)
  stringify (suc depth) h (dict d) = print h (dict d)

  -- mapKey.
  unfoldable pub map_key : ℕ → Heap → Value → Option Value
  unfolding stringify
  map_key depth h nil = some nil
  map_key depth h (str s) = some (str s)
  map_key depth h (int n) = some (int n)
  map_key depth h (float f) = some (float f)
  map_key depth h (boolean b) = some (boolean b)
  map_key depth h v = elim (stringify depth h v) [ none ↦ none | some s ↦ some (str s) ]
