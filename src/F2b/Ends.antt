-- ===== src/F2b/Ends.antt =====
-- The loop of unpickle of internal/f2b/pickle.go ends: each of its turns reads at least a byte.
use logfort.Prelude.{
  ℕ, zero, suc, ◌-◌, ◌<◌, ◌≡◌, ap, ◌≢◌, inl, inr, none, some, arith, Option-cases, length, drop,
  length-drop,
}
use logfort.F2b.Value.{Text}
use logfort.F2b.Machine.{Unpickler, Outcome, ok, err, stop, panic}
use logfort.F2b.Opcode.{op_of}
use logfort.F2b.Actions.{Runtime}
use logfort.F2b.Unpickle.{
  Result, unfinished, finish, continue, next_byte, advanced, step_byte, run, start, unpickle,
}
use logfort.F2b.Forward.{Post, Inside, Ahead, Moves, Moves-fail, List-cases}
use logfort.F2b.Steps.{Moves-step}

module _ (rt : Runtime) where
  Moves-step_byte : (b : ℕ) → Moves (step_byte rt b)
  unfolding step_byte
  Moves-step_byte b = elim (Option-cases (op_of b)) [
    | inl e ↦ rw (e, step_byte) (Moves-fail (Unit {0}) "unsupported opcode")
    | inr (op, e) ↦ rw (e, step_byte) (Moves-step rt op)
  ]

  next_byte-Inside : (u : Unpickler) (b : ℕ) → next_byte u ≡ some b → Inside (advanced u)
  next_byte-Inside u b e = elim (List-cases (drop u.pos u.data_bytes)) [
    | inl k ↦ let gone : none ≡ some b = rw (k, next_byte) at e in cc
    | inr (c, cs, k) ↦ omega (arith, ap length k, length-drop u.pos u.data_bytes)
  ]

  finish-ends : (u : Unpickler) → finish u ≢ unfinished
  finish-ends u = elim (List-cases u.stack) [
    | inl e ↦ rw (e, finish) (λ k. cc)
    | inr (v, vs, e) ↦ rw (e, finish) (λ k. cc)
  ]

  turn-ends :
      (next : Unpickler → Result) (fuel : ℕ) (u : Unpickler) (o : Outcome (Unit {0}))
      → ((v : Unpickler) → length v.data_bytes - v.pos < fuel → next v ≢ unfinished)
      → length u.data_bytes - u.pos < suc fuel
      → u.pos < length u.data_bytes
      → Post (λ _. Ahead (advanced u)) o
      → continue next o ≢ unfinished
  turn-ends next fuel u (ok x v) k h i (d, a, c) = k v (rw d (omega arith))
  turn-ends next fuel u (err e) k h i p = λ q. cc
  turn-ends next fuel u (stop v) k h i p = finish-ends v
  turn-ends next fuel u panic k h i p = λ q. cc

  run-ends :
      (fuel : ℕ) (u : Unpickler) → length u.data_bytes - u.pos < fuel → run rt fuel u ≢ unfinished
  unfolding run
  run-ends zero u h = absurd (omega arith)
  run-ends (suc fuel) u h = elim (Option-cases (next_byte u)) [
    | inl e ↦ rw (e, run) (λ k. cc)
    | inr (b, e) ↦
        let inside = next_byte-Inside u b e in
        rw (e, run)
          (turn-ends (run rt fuel) fuel u (step_byte rt b (advanced u)) (run-ends fuel) h
            (omega (arith, inside)) (Moves-step_byte b (advanced u) inside))
  ]

  -- unpickle ends on every input: its loop is not cut off.
  pub unpickle_ends : (data_bytes : Text) → unpickle rt data_bytes ≢ unfinished
  unfolding unpickle
  unpickle_ends data_bytes = run-ends (suc (length data_bytes)) (start data_bytes) (omega arith)
