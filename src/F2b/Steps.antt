-- ===== src/F2b/Steps.antt =====
-- Each opcode of internal/f2b/pickle.go reads forward in the data.
use logfort.Prelude.{
  ℕ, String, refl, inl, inr, true, false, Option, none, some, List, [], ◌∷◌, arith, ltb, Bool-cases,
  Option-cases, length, ℤ, pos,
}
use logfort.Go.Bytes.{parse_int, trim_suffix}
use logfort.F2b.Value.{
  Text, ascii, text_eq, Value, nil, mark, str, bytes, boolean, int, float, class_of, PyClass,
  as_dict, as_class, as_object, map_key, stringify,
}
use logfort.F2b.Machine.{
  M, ◌>>=◌, fail, push, pop, pop_mark, read, read_line, read_sized, little_endian, signed,
  decode_long_le, push_slice,
}
use logfort.F2b.Unicode.{unescape_raw_unicode}
use logfort.F2b.Opcode.{
  unquote_py_string, Op, proto, frame, stop_op, mark_op, empty_tuple, tuple, empty_list, list_op,
  append, appends, empty_dict, dict_op, setitem, setitems, none_op, newtrue, newfalse, binint1,
  binint2, binint, long1, int_line, long_line, binfloat, float_line, unicode, string, sized_text,
  sized_bytes, tuple_n, memoize_op, binput, long_binput, put_line, binget, long_binget, get_line,
  global, stack_global, reduce, build, empty_set, additems,
}
use logfort.F2b.Actions.{
  Runtime, tuple_of, push_dict, push_object, build_state, stringified, keyed, fill, set_pairs,
  set_items, write_dict, class_for, int_of_line, int_or_fail, slice_of, byte_of, big_endian,
}
use logfort.F2b.Step.{step}
use logfort.F2b.Forward.{
  Post, Moves, Moves-bind, Moves-pure, Moves-fail, Moves-push, List-cases, Moves-pop,
  Moves-pop_mark, Moves-read, Moves-read_line, Moves-put_top, Moves-memoize, Moves-push_memo,
  Moves-push_slice, Moves-read_sized, Moves-append_to,
}

Moves-tuple_of : (n : ℕ) → Moves (tuple_of n)
unfolding tuple_of push_slice push
Moves-tuple_of n u h = elim (Bool-cases (ltb (length u.stack) n)) [
  | inl e ↦ rw (e, Post) tt
  | inr e ↦ rw (e, Post) (refl, omega arith, h)
]

Moves-push_dict : (m : List (Value × Value)) → Moves (push_dict m)
unfolding push_dict push
Moves-push_dict m u h = (refl, omega arith, h)

Moves-push_object : (c : PyClass) (args : ℕ × ℕ) → Moves (push_object c args)
unfolding push_object push
Moves-push_object c args u h = (refl, omega arith, h)

Moves-build_state : (state : Value) → Moves (build_state state)
unfolding build_state
Moves-build_state state u h = elim (List-cases u.stack) [
  | inl e ↦ rw (e, Post) (refl, omega arith, h)
  | inr (top, vs, e) ↦ elim (Option-cases (as_object top)) [
    | inl k ↦ rw (e, k, Post) (refl, omega arith, h)
    | inr (o, k) ↦ rw (e, k, Post) (refl, omega arith, h)
  ]
]

Moves-int_or_fail : (message : String) (o : Option ℤ) → Moves (int_or_fail message o)
Moves-int_or_fail message none = Moves-fail ℤ message
Moves-int_or_fail message (some n) = Moves-pure n

module _ (rt : Runtime) where
  Moves-stringified : (v : Value) → Moves (stringified rt v)
  unfolding stringified
  Moves-stringified v u h = elim (Option-cases (stringify rt.print rt.depth u.heap v)) [
    | inl e ↦ rw (e, Post) tt
    | inr (s, e) ↦ rw (e, Post) (refl, omega arith, h)
  ]

  Moves-keyed : (v : Value) → Moves (keyed rt v)
  unfolding keyed
  Moves-keyed v u h = elim (Option-cases (map_key rt.print rt.depth u.heap v)) [
    | inl e ↦ rw (e, Post) tt
    | inr (k, e) ↦ rw (e, Post) (refl, omega arith, h)
  ]

  Moves-fill : (items : List Value) (m : List (Value × Value)) → Moves (fill rt items m)
  unfolding fill
  Moves-fill [] m = Moves-pure m
  Moves-fill (k ∷ []) m = Moves-pure m
  Moves-fill (k ∷ v ∷ items) m = Moves-bind (keyed rt k) _ (Moves-keyed k) λ key. Moves-fill items _

  Moves-write_dict : (d : ℕ) (k v : Value) → Moves (write_dict rt d k v)
  unfolding write_dict
  Moves-write_dict d k v u h = (refl, omega arith, h)

  Moves-set_pairs : (d : ℕ) (items : List Value) → Moves (set_pairs rt d items)
  unfolding set_pairs
  Moves-set_pairs d [] = Moves-pure {A = Unit {0}} tt
  Moves-set_pairs d (k ∷ []) = Moves-pure {A = Unit {0}} tt
  Moves-set_pairs d (k ∷ v ∷ items) = Moves-bind (keyed rt k) _ (Moves-keyed k) λ key.
      Moves-bind (write_dict rt d key v) _ (Moves-write_dict d key v) λ _. Moves-set_pairs d items

  Moves-set_items : (items : List Value) → Moves (set_items rt items)
  unfolding set_items
  Moves-set_items items u h = elim (List-cases u.stack) [
    | inl e ↦ rw (e, Post) tt
    | inr (top, vs, e) ↦ elim (Option-cases (as_dict top)) [
      | inl k ↦ rw (e, k, Post) tt
      | inr (d, k) ↦ rw (e, k, Post) (Moves-set_pairs d items u h)
    ]
  ]

  Moves-class_for : (v : Value) → Moves (class_for rt v)
  Moves-class_for v = elim (Option-cases (as_class v)) [
    | inl e ↦
        rw (e, class_for)
          (Moves-bind (stringified rt v) _ (Moves-stringified v)
            λ name. Moves-pure {A = PyClass} (record { mod_name = ascii "?"; name = name }))
    | inr (c, e) ↦ rw (e, class_for) (Moves-pure c)
  ]

  Moves-int_of_line : (line : Text) → Moves (int_of_line rt line)
  Moves-int_of_line line = elim (Bool-cases (text_eq line (ascii "00"))) [
    | inl e ↦ rw e (Moves-push (boolean false))
    | inr e ↦ elim (Bool-cases (text_eq line (ascii "01"))) [
      | inl k ↦ rw (e, k) (Moves-push (boolean true))
      | inr k ↦
          rw (e, k)
            (Moves-bind (int_or_fail "bad INT" (parse_int line)) _
              (Moves-int_or_fail _ (parse_int line)) λ n. Moves-push (int n))
    ]
  ]

  Moves-push_int : (f : Text → ℤ) (m : M Text) → Moves m → Moves (m >>= λ b. push (int (f b)))
  Moves-push_int f m h = Moves-bind m _ h λ b. Moves-push (int (f b))

  Moves-push_line : (f : Text → Value) → Moves (read_line >>= λ line. push (f line))
  Moves-push_line f = Moves-bind read_line _ Moves-read_line λ line. Moves-push (f line)

  Moves-indexed :
      (message : String) (number : Text → Option ℤ) (f : ℤ → M (Unit {0}))
      → ((i : ℤ) → Moves (f i))
      → Moves (read_line >>= λ line. int_or_fail message (number line) >>= f)
  Moves-indexed message number f h = Moves-bind read_line _ Moves-read_line λ line.
      Moves-bind (int_or_fail message (number line)) f (Moves-int_or_fail message (number line)) h

  Moves-read_then :
      (n : ℕ) (f : Text → M (Unit {0})) → ((b : Text) → Moves (f b)) → Moves (read (pos n) >>= f)
  Moves-read_then n f h = Moves-bind (read (pos n)) f (Moves-read (pos n)) h

  Moves-marked :
      (f : List Value → M (Unit {0}))
      → ((items : List Value) → Moves (f items))
      → Moves (pop_mark >>= f)
  Moves-marked f h = Moves-bind pop_mark f Moves-pop_mark h

  Moves-popped : {A : Type 0} (f : Value → M A) → ((v : Value) → Moves (f v)) → Moves (pop >>= f)
  Moves-popped f h = Moves-bind pop f Moves-pop h

  Moves-float :
      (o : Option ℕ)
      → Moves (elim o [ none ↦ fail {A = Unit {0}} "bad FLOAT" | some f ↦ push (float f) ])
  Moves-float none = Moves-fail (Unit {0}) "bad FLOAT"
  Moves-float (some f) = Moves-push (float f)

  pub Moves-step : (op : Op) → Moves (step rt op)
  unfolding step
  Moves-step proto = Moves-read_then 1 _ λ _. Moves-pure {A = Unit {0}} tt
  Moves-step frame = Moves-read_then 8 _ λ _. Moves-pure {A = Unit {0}} tt
  Moves-step stop_op = λ u h. tt
  Moves-step mark_op = Moves-push mark
  Moves-step empty_tuple = Moves-push_slice []
  Moves-step tuple = Moves-marked push_slice Moves-push_slice
  Moves-step (tuple_n n) = Moves-tuple_of n
  Moves-step empty_list = Moves-push_slice []
  Moves-step list_op = Moves-marked push_slice Moves-push_slice
  Moves-step append = Moves-popped _ λ v. Moves-append_to rt.grow (v ∷ [])
  Moves-step appends = Moves-marked _ (Moves-append_to rt.grow)
  Moves-step empty_dict = Moves-push_dict []
  Moves-step dict_op =
      Moves-marked _ λ items. Moves-bind (fill rt items []) _ (Moves-fill items []) Moves-push_dict
  Moves-step setitem = Moves-popped _ λ v. Moves-popped _ λ k. Moves-set_items (k ∷ v ∷ [])
  Moves-step setitems = Moves-marked _ Moves-set_items
  Moves-step none_op = Moves-push nil
  Moves-step newtrue = Moves-push (boolean true)
  Moves-step newfalse = Moves-push (boolean false)
  Moves-step binint1 = Moves-push_int (λ b. pos (byte_of b)) _ (Moves-read (pos 1))
  Moves-step binint2 = Moves-push_int (λ b. pos (little_endian b)) _ (Moves-read (pos 2))
  Moves-step binint = Moves-push_int (λ b. signed 32 (little_endian b)) _ (Moves-read (pos 4))
  Moves-step long1 = Moves-push_int decode_long_le _ (Moves-read_sized 1)
  Moves-step int_line = Moves-bind read_line _ Moves-read_line Moves-int_of_line
  Moves-step long_line =
      Moves-indexed _ (λ line. parse_int (trim_suffix (ascii "L") line)) _ λ n. Moves-push (int n)
  Moves-step binfloat = Moves-read_then 8 _ λ b. Moves-push (float (big_endian 0 b))
  Moves-step float_line =
      Moves-bind read_line _ Moves-read_line λ line. Moves-float (rt.parse_float line)
  Moves-step (sized_text width) =
      Moves-bind (read_sized width) _ (Moves-read_sized width) λ b. Moves-push (str b)
  Moves-step (sized_bytes width) =
      Moves-bind (read_sized width) _ (Moves-read_sized width) λ b. Moves-push (bytes b)
  Moves-step unicode = Moves-push_line λ line. str (unescape_raw_unicode line)
  Moves-step string = Moves-push_line λ line. str (unquote_py_string line)
  Moves-step memoize_op = Moves-memoize
  Moves-step binput = Moves-read_then 1 _ λ b. Moves-put_top _ (pos (byte_of b))
  Moves-step long_binput = Moves-read_then 4 _ λ b. Moves-put_top _ (pos (little_endian b))
  Moves-step put_line = Moves-indexed _ parse_int _ λ i. Moves-put_top _ i
  Moves-step binget = Moves-read_then 1 _ λ b. Moves-push_memo (pos (byte_of b))
  Moves-step long_binget = Moves-read_then 4 _ λ b. Moves-push_memo (pos (little_endian b))
  Moves-step get_line = Moves-indexed _ parse_int _ Moves-push_memo
  Moves-step global =
      Moves-bind read_line _ Moves-read_line
        λ m. Moves-push_line λ name. class_of (record { mod_name = m; name = name })
  Moves-step stack_global = Moves-popped _ λ name. Moves-popped _ λ m.
      Moves-bind (stringified rt m) _ (Moves-stringified m) λ s.
        Moves-bind (stringified rt name) _ (Moves-stringified name)
          λ t. Moves-push (class_of (record { mod_name = s; name = t }))
  Moves-step reduce = Moves-popped _ λ args. Moves-popped _ λ callable.
      Moves-bind (class_for rt callable) _ (Moves-class_for callable)
        λ cls. Moves-push_object cls (slice_of args)
  Moves-step build = Moves-popped _ Moves-build_state
  Moves-step empty_set = Moves-push_slice []
  Moves-step additems = Moves-marked _ (Moves-append_to rt.grow)
