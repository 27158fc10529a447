-- ===== src/F2b/Step.antt =====
-- step of internal/f2b/pickle.go: one opcode of a pickle.
use logfort.Prelude.{true, false, [], ◌∷◌, pos}
use logfort.F2b.Unicode.{unescape_raw_unicode}
use logfort.F2b.Value.{nil, mark, str, boolean, int, float}
use logfort.F2b.Machine.{
  stop, M, pure, ◌>>=◌, push, pop, pop_mark, read, read_line, read_sized, little_endian, signed,
  decode_long_le, put_top, memoize, push_memo, push_slice, append_to,
}
use logfort.F2b.Opcode.{
  Op, unquote_py_string, proto, frame, stop_op, mark_op, empty_tuple, tuple, empty_list, list_op,
  append, appends, empty_dict, dict_op, setitem, setitems, none_op, newtrue, newfalse, binint1,
  binint2, binint, long1, int_line, long_line, binfloat, float_line, unicode, string, sized_text,
  sized_bytes, tuple_n, memoize_op, binput, long_binput, put_line, binget, long_binget, get_line,
  global, stack_global, reduce, build, empty_set, additems,
}
use logfort.F2b.Actions.{
  byte_of, big_endian, tuple_of, push_dict, build_state, Runtime, stringified, set_items,
  int_of_line, push_text, push_bytes, push_long_line, push_float_line, put_long, put_index,
  push_index, push_global, push_stack_global, push_reduced, push_filled, set_item,
}

module _ (rt : Runtime) where
  -- step.
  unfoldable pub step : Op → M (Unit {0})
  unfolding push pop pop_mark read_line read_sized tuple_of append_to set_items stringified
      push_memo push_slice
  step proto = read (pos 1) >>= λ _. pure tt
  step frame = read (pos 8) >>= λ _. pure tt
  step stop_op = λ u. stop u
  step mark_op = push mark
  step empty_tuple = push_slice []
  step tuple = pop_mark >>= push_slice
  step (tuple_n n) = tuple_of n
  step empty_list = push_slice []
  step list_op = pop_mark >>= push_slice
  step append = do v ← pop; append_to rt.grow (v ∷ [])
  step appends = pop_mark >>= append_to rt.grow
  step empty_dict = push_dict []
  step dict_op = push_filled rt
  step setitem = set_item rt
  step setitems = pop_mark >>= set_items rt
  step none_op = push nil
  step newtrue = push (boolean true)
  step newfalse = push (boolean false)
  step binint1 = do b ← read (pos 1); push (int (pos (byte_of b)))
  step binint2 = do b ← read (pos 2); push (int (pos (little_endian b)))
  step binint = do b ← read (pos 4); push (int (signed 32 (little_endian b)))
  step long1 = do b ← read_sized 1; push (int (decode_long_le b))
  step int_line = read_line >>= int_of_line rt
  step long_line = push_long_line rt
  step binfloat = do b ← read (pos 8); push (float (big_endian 0 b))
  step float_line = push_float_line rt
  step (sized_text width) = push_text rt width
  step (sized_bytes width) = push_bytes rt width
  step unicode = do line ← read_line; push (str (unescape_raw_unicode line))
  step string = do line ← read_line; push (str (unquote_py_string line))
  step memoize_op = memoize
  step binput = do b ← read (pos 1); put_top "BINPUT on empty stack" (pos (byte_of b))
  step long_binput = put_long rt
  step put_line = put_index rt
  step binget = do b ← read (pos 1); push_memo (pos (byte_of b))
  step long_binget = do b ← read (pos 4); push_memo (pos (little_endian b))
  step get_line = push_index rt
  step global = push_global rt
  step stack_global = push_stack_global rt
  step reduce = push_reduced rt
  step build = pop >>= build_state
  step empty_set = push_slice []
  step additems = pop_mark >>= append_to rt.grow
