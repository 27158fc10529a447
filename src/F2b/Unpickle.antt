-- ===== src/F2b/Unpickle.antt =====
-- unpickle of internal/f2b/pickle.go.
use logfort.Prelude.{ℕ, zero, suc, ◌+◌, String, Option, none, some, [], ◌∷◌, length, drop}
use logfort.F2b.Value.{Text, Value, Heap, empty_heap}
use logfort.F2b.Machine.{Unpickler, Outcome, ok, err, stop, panic}
use logfort.F2b.Opcode.{op_of}
use logfort.F2b.Actions.{Runtime}
use logfort.F2b.Step.{step}

-- What unpickle gives: a value and the memory it lives in, an error or a panic; `unfinished` is a loop that
-- was cut off.
pub data Result : Type 0 where
  value : Value → Heap → Result
  failed : String → Result
  panicked unfinished : Result

-- The value at the top of the stack, at STOP.
abbrev pub finish : Unpickler → Result
finish u = elim (u.stack) [ [] ↦ failed "empty stack at STOP" | v ∷ vs ↦ value v u.heap ]

abbrev pub next_byte : Unpickler → Option ℕ
next_byte u = elim (drop u.pos u.data_bytes) [ [] ↦ none | b ∷ bs ↦ some b ]

abbrev pub advanced : Unpickler → Unpickler
advanced u = record u { pos = u.pos + 1 }

-- What a turn of the loop does with what step returns.
abbrev pub continue : (Unpickler → Result) → Outcome (Unit {0}) → Result
continue next (ok x u) = next u
continue next (err e) = failed e
continue next (stop u) = finish u
continue next panic = panicked

module _ (rt : Runtime) where
  unfoldable pub step_byte : ℕ → Unpickler → Outcome (Unit {0})
  unfolding op_of
  step_byte b u = elim (op_of b) [ none ↦ err "unsupported opcode" | some op ↦ step rt op u ]

  -- The loop, for so many turns.
  unfoldable pub run : ℕ → Unpickler → Result
  unfolding step_byte
  run zero u = unfinished
  run (suc fuel) u = elim (next_byte u) [
    | none ↦ failed "unexpected end of stream"
    | some b ↦ continue (run fuel) (step_byte b (advanced u))
  ]

abbrev pub start : Text → Unpickler
start data_bytes = record {
  data_bytes = data_bytes;
  pos = 0;
  stack = [];
  memo = [];
  heap = empty_heap;
}

unfoldable pub unpickle : Runtime → Text → Result
unfolding run
unpickle rt data_bytes = run rt (suc (length data_bytes)) (start data_bytes)
