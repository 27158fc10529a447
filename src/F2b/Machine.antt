-- ===== src/F2b/Machine.antt =====
-- The unpickler of internal/f2b/pickle.go: its state, and reading, pushing, popping and the memo. The texts
-- of errors leave out what they quote.
use logfort.Prelude.{
  ℕ, ◌+◌, ◌-◌, ◌*◌, ◌%◌, ◌^◌, String, not, ◌&&◌, Option, none, some, List, [], ◌∷◌, ltb, leb, eqb,
  if◌then◌else◌, length, take, drop, select, ℤ, pos, negsuc, sub_ℕ, eqb_ℤ,
}
use logfort.F2b.Value.{as_slice, Text, Value, nil, mark, Heap, append_slice, new_slice}

pub record Unpickler : Type 0 where
  pub data_bytes : Text
  pub pos : ℕ
  pub stack : List Value
  pub memo : List (ℤ × Value)
  pub heap : Heap

-- How a call ends: with a value, with an error, with errStop, or in a panic.
pub data Outcome {ℓ} (A : Type ℓ) : Type ℓ where
  ok : A → Unpickler → Outcome A
  err : String → Outcome A
  stop : Unpickler → Outcome A
  panic : Outcome A

abbrev pub M {ℓ} : Type ℓ → Type ℓ
M A = Unpickler → Outcome A

abbrev pub pure {ℓ} : {A : Type ℓ} → A → M A
pure a u = ok a u

infixl 5 ◌>>=◌ ◌>>◌
abbrev pub ◌>>=◌ {ℓ κ} : {A : Type ℓ} {B : Type κ} → M A → (A → M B) → M B
◌>>=◌ m f u = elim (m u) [ ok a v ↦ f a v | err e ↦ err e | stop v ↦ stop v | panic ↦ panic ]

abbrev pub ◌>>◌ {ℓ} : {B : Type ℓ} → M (Unit {0}) → M B → M B
m >> k = m >>= λ _. k

abbrev pub fail {ℓ} : {A : Type ℓ} → String → M A
fail e u = err e

unfoldable pub push : Value → M (Unit {0})
push v u = ok tt (record u { stack = v ∷ u.stack })

unfoldable pub pop : M Value
pop u = elim (u.stack) [ [] ↦ err "pop from empty stack" | v ∷ vs ↦ ok v (record u { stack = vs }) ]

-- The values above the topmost mark, the lowest first, and the stack below it.
unfoldable pub above_mark : List Value → List Value → Option (List Value × List Value)
above_mark items [] = none
above_mark items (mark ∷ vs) = some (items, vs)
above_mark items (v ∷ vs) = above_mark (v ∷ items) vs

unfoldable pub pop_mark : M (List Value)
unfolding above_mark
pop_mark u = elim (above_mark [] u.stack) [
  | none ↦ err "MARK not found"
  | some (items, vs) ↦ ok items (record u { stack = vs })
]

-- read, of an int; the sum u.pos+n is an int64 too, and where it wraps round it is negative, which the test
-- lets pass and the slice expression does not.
unfoldable pub read : ℤ → M Text
read (negsuc n) u = err "unexpected end of stream"
read (pos n) u =
    let end = u.pos + n in
    if leb (2 ^ 63) end
    then panic
    else if ltb (length u.data_bytes) end
    then err "unexpected end of stream"
    else ok (take n (drop u.pos u.data_bytes)) (record u { pos = end })

-- What stands before the first end of line.
unfoldable pub until_newline : Text → Option Text
until_newline [] = none
until_newline (b ∷ bs) =
    let rest = until_newline bs in
    if eqb b 10 then some [] else elim rest [ none ↦ none | some line ↦ some (b ∷ line) ]

unfoldable pub read_line : M Text
unfolding until_newline
read_line u = elim (until_newline (drop u.pos u.data_bytes)) [
  | none ↦ err "unterminated line"
  | some line ↦ ok line (record u { pos = u.pos + length line + 1 })
]

-- binary.LittleEndian.
unfoldable pub little_endian : Text → ℕ
little_endian [] = 0
little_endian (b ∷ bs) = b + 256 * little_endian bs

abbrev pub signed : ℕ → ℕ → ℤ
signed bits n = if ltb n (2 ^ (bits - 1)) then pos n else sub_ℕ n (2 ^ bits)

-- A text behind its length, which takes so many bytes: uint8, uint32 or uint64, converted to an int.
unfoldable pub read_sized : ℕ → M Text
unfolding read little_endian
read_sized width = do nb ← read (pos width); read (signed 64 (little_endian nb))

-- The memo's entry for an index, nil where there is none.
unfoldable pub recall : ℤ → List (ℤ × Value) → Value
recall i [] = nil
recall i ((j, v) ∷ memo) = let rest = recall i memo in if eqb_ℤ i j then v else rest

unfoldable pub remember : ℤ → Value → List (ℤ × Value) → List (ℤ × Value)
remember i v memo = (i, v) ∷ select (λ e. not (eqb_ℤ i e.0)) memo

-- u.memo[i] = the top of the stack.
unfoldable pub put_top : String → ℤ → M (Unit {0})
unfolding remember
put_top message i u = elim (u.stack) [
  | [] ↦ err message
  | v ∷ vs ↦ ok tt (record u { memo = remember i v u.memo })
]

unfoldable pub memoize : M (Unit {0})
unfolding put_top
memoize u = put_top "MEMOIZE on empty stack" (pos (length u.memo)) u

unfoldable pub push_memo : ℤ → M (Unit {0})
unfolding push recall
push_memo i u = push (recall i u.memo) u

unfoldable pub push_slice : List Value → M (Unit {0})
unfolding push new_slice
push_slice items u = let (v, h) = new_slice items 0 u.heap in push v (record u { heap = h })

-- The loop of decodeLongLE, from the last byte on, in 64 bits.
unfoldable pub shift_in : Text → ℕ
shift_in [] = 0
shift_in (b ∷ bs) = shift_in bs * 256 % 2 ^ 64 + b

abbrev pub last_byte : Text → ℕ
last_byte [] = 0
last_byte (b ∷ []) = b
last_byte (b ∷ bs) = last_byte bs

unfoldable pub decode_long_le : Text → ℤ
unfolding shift_in
decode_long_le [] = pos 0
decode_long_le bs =
    let n = shift_in bs in
    if leb 0x80 (last_byte bs % 256) && ltb (length bs) 8
    then sub_ℕ n (2 ^ (8 * length bs))
    else signed 64 n

-- appendTo.
unfoldable pub append_to : (ℕ → ℕ → ℕ) → List Value → M (Unit {0})
unfolding append_slice
append_to grow items u = elim (u.stack) [
  | [] ↦ err "APPEND to empty stack"
  | top ∷ vs ↦ elim (as_slice top) [
    | none ↦ err "APPEND target is not a list"
    | some (a, n) ↦
        let (v, h) = append_slice grow a n items u.heap in
        ok tt (record u { stack = v ∷ vs; heap = h })
  ]
]
