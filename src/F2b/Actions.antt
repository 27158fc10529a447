-- ===== src/F2b/Actions.antt =====
-- setItems and the cases of step of internal/f2b/pickle.go that do more than push a value.
use logfort.Prelude.{
  or_default, ℕ, ◌+◌, ◌*◌, String, true, false, Option, none, some, List, [], ◌∷◌, ◌++◌, ltb,
  if◌then◌else◌, length, take, drop, ℤ, pos,
}
use logfort.Go.Bytes.{parse_int, trim_suffix}
use logfort.F2b.Value.{
  as_slice, as_dict, as_class, as_object, no_object, Text, ascii, text_eq, Value, nil, str, bytes,
  boolean, int, float, dict, class_of, object, PyClass, PyObject, Heap, put, map_key, stringify,
  get_elem_or, set_elem,
}
use logfort.F2b.Machine.{
  ok, err, panic, M, pure, ◌>>=◌, ◌>>◌, fail, push, pop, pop_mark, read, read_line, read_sized,
  little_endian, put_top, push_memo, push_slice,
}

abbrev pub byte_of : Text → ℕ
byte_of [] = 0
byte_of (b ∷ bs) = b

-- binary.BigEndian.
abbrev pub big_endian : ℕ → Text → ℕ
big_endian n [] = n
big_endian n (b ∷ bs) = big_endian (n * 256 + b) bs

abbrev pub int_or_fail : String → Option ℤ → M ℤ
int_or_fail message none = fail message
int_or_fail message (some n) = pure n

-- The last n values, the lowest first.
unfoldable pub tuple_of : ℕ → M (Unit {0})
unfolding push_slice
tuple_of n u =
    if ltb (length u.stack) n
    then err "short stack for TUPLE"
    else push_slice (reverse_values [] (take n u.stack)) (record u { stack = drop n u.stack })
  where
    reverse_values : List Value → List Value → List Value
    reverse_values acc [] = acc
    reverse_values acc (v ∷ vs) = reverse_values (v ∷ acc) vs

unfoldable pub push_dict : List (Value × Value) → M (Unit {0})
unfolding push
push_dict m u =
    push (dict (length u.heap.dicts))
      (record u { heap = record u.heap { dicts = u.heap.dicts ++ m ∷ [] } })

unfoldable pub push_object : PyClass → ℕ × ℕ → M (Unit {0})
unfolding push
push_object c args u =
    let obj : PyObject = record { class_ref = c; args = args; state = nil } in
    push (object (length u.heap.objects))
      (record u { heap = record u.heap { objects = u.heap.objects ++ obj ∷ [] } })

abbrev pub set_state : ℕ → Value → M (Unit {0})
set_state o state u =
    let obj = get_elem_or no_object o u.heap.objects in
    ok tt (record u {
      heap = record u.heap { objects = set_elem o (record obj { state = state }) u.heap.objects };
    })

-- BUILD sets the state of an object at the top of the stack, and does nothing for another value.
unfoldable pub build_state : Value → M (Unit {0})
build_state state u = elim (u.stack) [
  | [] ↦ ok tt u
  | top ∷ vs ↦ elim (as_object top) [ none ↦ ok tt u | some o ↦ set_state o state u ]
]

-- args.([]any), the nil slice where it is none.
abbrev pub slice_of : Value → ℕ × ℕ
slice_of v = or_default (as_slice v) (0, 0)

-- How much room append leaves, what fmt prints of a float64 or a map, how deep calls may nest, and the bits
-- that strconv.ParseFloat reads.
pub record Runtime : Type 0 where
  pub grow : ℕ → ℕ → ℕ
  pub print : Heap → Value → Option Text
  pub depth : ℕ
  pub parse_float : Text → Option ℕ

module _ (rt : Runtime) where
  -- Stringify and mapKey, of which a value that holds itself makes a stack overflow.
  unfoldable pub stringified : Value → M Text
  stringified v u = elim (stringify rt.print rt.depth u.heap v) [ none ↦ panic | some s ↦ ok s u ]

  unfoldable pub keyed : Value → M Value
  keyed v u = elim (map_key rt.print rt.depth u.heap v) [ none ↦ panic | some k ↦ ok k u ]

  -- The loop of DICT: m[mapKey(items[i])] = items[i+1].
  unfoldable pub fill : List Value → List (Value × Value) → M (List (Value × Value))
  unfolding keyed
  fill (k ∷ v ∷ items) m = do key ← keyed k; fill items (put key v m)
  fill _ m = pure m

  unfoldable pub write_dict : ℕ → Value → Value → M (Unit {0})
  write_dict d k v u =
      let m = put k v (get_elem_or [] d u.heap.dicts) in
      ok tt (record u { heap = record u.heap { dicts = set_elem d m u.heap.dicts } })

  unfoldable pub set_pairs : ℕ → List Value → M (Unit {0})
  unfolding keyed write_dict
  set_pairs d (k ∷ v ∷ items) = do key ← keyed k; write_dict d key v; set_pairs d items
  set_pairs d _ = pure tt

  unfoldable pub set_items : List Value → M (Unit {0})
  unfolding set_pairs
  set_items items u = elim (u.stack) [
    | [] ↦ err "SETITEM on empty stack"
    | top ∷ vs ↦ elim (as_dict top) [
      | none ↦ err "SETITEM target is not a dict"
      | some d ↦ set_pairs d items u
    ]
  ]

  abbrev pub class_for : Value → M PyClass
  class_for v = elim (as_class v) [
    | some c ↦ pure c
    | none ↦ stringified v >>= λ name. pure (record { mod_name = ascii "?"; name = name })
  ]

  abbrev pub int_of_line : Text → M (Unit {0})
  int_of_line line =
      if text_eq line (ascii "00")
      then push (boolean false)
      else if text_eq line (ascii "01")
      then push (boolean true)
      else (int_or_fail "bad INT" (parse_int line) >>= λ n. push (int n))

  -- SHORT_BINUNICODE, BINUNICODE, BINUNICODE8, SHORT_BINSTRING and BINSTRING, by the width of the length.
  abbrev pub push_text : ℕ → M (Unit {0})
  push_text width = do b ← read_sized width; push (str b)

  -- SHORT_BINBYTES and BINBYTES.
  abbrev pub push_bytes : ℕ → M (Unit {0})
  push_bytes width = do b ← read_sized width; push (bytes b)

  -- LONG.
  abbrev pub push_long_line : M (Unit {0})
  push_long_line = do
    line ← read_line
    n ← int_or_fail "bad LONG" (parse_int (trim_suffix (ascii "L") line))
    push (int n)

  -- FLOAT.
  abbrev pub push_float_line : M (Unit {0})
  push_float_line = do
    line ← read_line
    elim (rt.parse_float line) [ none ↦ fail "bad FLOAT" | some f ↦ push (float f) ]

  -- LONG_BINPUT.
  abbrev pub put_long : M (Unit {0})
  put_long = do b ← read (pos 4); put_top "LONG_BINPUT on empty stack" (pos (little_endian b))

  -- PUT.
  abbrev pub put_index : M (Unit {0})
  put_index = do
    line ← read_line
    i ← int_or_fail "bad PUT index" (parse_int line)
    put_top "PUT on empty stack" i

  -- GET.
  abbrev pub push_index : M (Unit {0})
  push_index = do line ← read_line; i ← int_or_fail "bad GET index" (parse_int line); push_memo i

  -- GLOBAL.
  abbrev pub push_global : M (Unit {0})
  push_global = do
    module_line ← read_line
    name ← read_line
    push (class_of (record { mod_name = module_line; name = name }))

  -- STACK_GLOBAL.
  abbrev pub push_stack_global : M (Unit {0})
  push_stack_global = do
    name ← pop
    module_value ← pop
    m ← stringified module_value
    n ← stringified name
    push (class_of (record { mod_name = m; name = n }))

  -- REDUCE and NEWOBJ.
  abbrev pub push_reduced : M (Unit {0})
  push_reduced = do
    args ← pop
    callable ← pop
    cls ← class_for callable
    push_object cls (slice_of args)

  -- DICT.
  abbrev pub push_filled : M (Unit {0})
  push_filled = do items ← pop_mark; m ← fill items []; push_dict m

  -- SETITEM.
  abbrev pub set_item : M (Unit {0})
  set_item = do v ← pop; k ← pop; set_items (k ∷ v ∷ [])
