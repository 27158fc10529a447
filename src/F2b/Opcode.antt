-- ===== src/F2b/Opcode.antt =====
-- The opcodes that step of internal/f2b/pickle.go tells apart, and unquotePyString.
use logfort.Prelude.{
  ℕ, zero, suc, Bool, false, not, ◌&&◌, ◌||◌, Option, none, some, List, [], ◌∷◌, leb, eqb,
  if◌then◌else◌, length, take, any_where,
}
use logfort.Go.Bytes.{parse_uint}
use logfort.F2b.Value.{Text}

-- The loop of unquotePyString; the first argument is how many bytes of an escape are still passed over.
unfoldable pub unquote_from : ℕ → Text → Text
unfolding parse_uint
unquote_from n [] = []
unquote_from (suc n) (b ∷ bs) = unquote_from n bs
unquote_from zero (b ∷ []) = b ∷ []
unquote_from zero (b ∷ c ∷ cs) =
    let skip1 = unquote_from 1 (c ∷ cs) in
    let skip3 = unquote_from 3 (c ∷ cs) in
    let plain = unquote_from 0 (c ∷ cs) in
    if not (eqb b b'\\')
    then b ∷ plain
    else if eqb c b'n'
    then 10 ∷ skip1
    else if eqb c b't'
    then 9 ∷ skip1
    else if eqb c b'r'
    then 13 ∷ skip1
    else if eqb c b'x' && leb 2 (length cs)
    then elim (parse_uint 16 8 (take 2 cs)) [ none ↦ c ∷ skip1 | some n ↦ n ∷ skip3 ]
    else c ∷ skip1

abbrev last_is : ℕ → Text → Bool
last_is q [] = false
last_is q (b ∷ []) = eqb b q
last_is q (b ∷ c ∷ cs) = last_is q (c ∷ cs)

abbrev without_quotes : Text → Text
without_quotes (q ∷ c ∷ cs) =
    if (eqb q b'\'' || eqb q b'"') && last_is q (c ∷ cs)
    then take (length cs) (c ∷ cs)
    else q ∷ c ∷ cs
without_quotes s = s

-- Without a backslash the loop would copy the text.
unfoldable pub unquote_py_string : Text → Text
unfolding unquote_from
unquote_py_string s =
    let t = without_quotes s in if any_where (eqb b'\\') t then unquote_from 0 t else t

-- The opcodes; those that read a text behind its length are told apart by the width of the length.
pub data Op : Type 0 where
  proto frame stop_op mark_op empty_tuple tuple empty_list list_op append appends : Op
  empty_dict dict_op setitem setitems none_op newtrue newfalse : Op
  binint1 binint2 binint long1 int_line long_line binfloat float_line unicode string : Op
  sized_text sized_bytes tuple_n : ℕ → Op
  memoize_op binput long_binput put_line binget long_binget get_line : Op
  global stack_global reduce build empty_set additems : Op

abbrev opcodes : List (ℕ × Op)
opcodes =
    (0x80, proto)
    ∷ (0x95, frame)
    ∷ (b'.', stop_op)
    ∷ (b'(', mark_op)
    ∷ (b')', empty_tuple)
    ∷ (b't', tuple)
    ∷ (0x85, tuple_n 1)
    ∷ (0x86, tuple_n 2)
    ∷ (0x87, tuple_n 3)
    ∷ (b']', empty_list)
    ∷ (b'l', list_op)
    ∷ (b'a', append)
    ∷ (b'e', appends)
    ∷ (b'}', empty_dict)
    ∷ (b'd', dict_op)
    ∷ (b's', setitem)
    ∷ (b'u', setitems)
    ∷ (b'N', none_op)
    ∷ (0x88, newtrue)
    ∷ (0x89, newfalse)
    ∷ (b'K', binint1)
    ∷ (b'M', binint2)
    ∷ (b'J', binint)
    ∷ (0x8a, long1)
    ∷ (b'I', int_line)
    ∷ (b'L', long_line)
    ∷ (b'G', binfloat)
    ∷ (b'F', float_line)
    ∷ (0x8c, sized_text 1)
    ∷ (b'X', sized_text 4)
    ∷ (0x8d, sized_text 8)
    ∷ (b'V', unicode)
    ∷ (b'S', string)
    ∷ (b'U', sized_text 1)
    ∷ (b'T', sized_text 4)
    ∷ (b'C', sized_bytes 1)
    ∷ (b'B', sized_bytes 4)
    ∷ (0x94, memoize_op)
    ∷ (b'q', binput)
    ∷ (b'r', long_binput)
    ∷ (b'p', put_line)
    ∷ (b'h', binget)
    ∷ (b'j', long_binget)
    ∷ (b'g', get_line)
    ∷ (b'c', global)
    ∷ (0x93, stack_global)
    ∷ (b'R', reduce)
    ∷ (0x81, reduce)
    ∷ (b'b', build)
    ∷ (0x8f, empty_set)
    ∷ (0x90, additems)
    ∷ []

abbrev op_in : ℕ → List (ℕ × Op) → Option Op
op_in b [] = none
op_in b ((c, op) ∷ ops) = let rest = op_in b ops in if eqb b c then some op else rest

unfoldable pub op_of : ℕ → Option Op
op_of b = op_in b opcodes
