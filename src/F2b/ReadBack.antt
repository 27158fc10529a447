-- ===== src/F2b/ReadBack.antt =====
-- unpickle of internal/f2b/pickle.go reads back what pickleCommand writes.
use logfort.Prelude.{
  ℕ, zero, suc, ◌+◌, ◌≤◌, ◌<◌, ◌≡◌, refl, sym, ap, ◌∙◌, false, some, List, [], ◌∷◌, ◌++◌, map,
  arith, eqb, length, take, drop, length-append, All,
}
use mathlib.Core.List.{append_assoc}
use logfort.F2b.Unicode.{escape_raw_unicode, pickle_command, argument_lines}
use logfort.F2b.UnicodeLaws.{
  Printable, escape_raw_unicode-Printable, utf8, unescape_raw_unicode-escape,
}
use logfort.F2b.Value.{
  empty_heap, replicate, nil, Text, Value, mark, str, slice, Heap, elements, new_slice, get_elem_or,
}
use logfort.F2b.Machine.{
  M, ◌>>=◌, Unpickler, ok, until_newline, above_mark, read_line, push, pop_mark, push_slice,
}
use logfort.F2b.Actions.{Runtime}
use logfort.F2b.Step.{step}
use logfort.F2b.Unpickle.{
  Result, value, next_byte, advanced, step_byte, run, start, unpickle, continue,
}

module _ {ℓ} {A : Type ℓ} where
  drop-nil : (n : ℕ) → drop {A = A} n [] ≡ []
  drop-nil zero = refl
  drop-nil (suc n) = refl

  drop-drop : (n m : ℕ) (xs : List A) → drop (n + m) xs ≡ drop m (drop n xs)
  drop-drop zero m xs = let e : zero + m ≡ m = omega arith in ap (λ k. drop k xs) e
  drop-drop (suc n) m [] = drop-nil (suc n + m) ∙ sym (drop-nil m)
  drop-drop (suc n) m (x ∷ xs) =
      let e : suc n + m ≡ suc (n + m) = omega arith in
      ap (λ k. drop k (x ∷ xs)) e ∙ drop-drop n m xs

  drop-append : (xs ys : List A) → drop (length xs) (xs ++ ys) ≡ ys
  drop-append [] ys = refl
  drop-append (x ∷ xs) ys = drop-append xs ys

  pub take-append : (xs ys : List A) → take (length xs) (xs ++ ys) ≡ xs
  take-append [] ys = refl
  take-append (x ∷ xs) ys = ap (λ l. x ∷ l) (take-append xs ys)

until_newline-append : (xs ys : Text) → All Printable xs → until_newline (xs ++ 10 ∷ ys) ≡ some xs
unfolding until_newline
until_newline-append [] ys h = refl
until_newline-append (x ∷ xs) ys ((lo, hi), hs) =
    let e : eqb x 10 ≡ false = ground arith in rw (e, until_newline-append xs ys hs) refl

-- The stack with these texts pushed.
abbrev push_texts : List (List ℕ) → List Value → List Value
push_texts [] s = s
push_texts (a ∷ args) s = push_texts args (str (utf8 a) ∷ s)

abbrev pub text_value : List ℕ → Value
text_value a = str (utf8 a)

above_mark-push_texts :
    (args : List (List ℕ)) (items s : List Value)
    → above_mark items (push_texts args s) ≡ above_mark (map text_value args ++ items) s
unfolding above_mark
above_mark-push_texts [] items s = refl
above_mark-push_texts (a ∷ args) items s = above_mark-push_texts args items (str (utf8 a) ∷ s)

abbrev read_argument : List ℕ → Unpickler → Unpickler
read_argument a u = record u {
  pos = u.pos + 1 + length (escape_raw_unicode a) + 1;
  stack = str (utf8 a) ∷ u.stack;
}

pub bind-ok :
    {A B : Type 0} (m : M A) (f : A → M B) (u v : Unpickler) {a : A}
    → m u ≡ ok a v
    → (m >>= f) u ≡ f a v
bind-ok m f u v {a = a} e = rw (e, ◌>>=◌) refl

read_line-append :
    (line rest : Text) (u : Unpickler)
    → All Printable line
    → drop u.pos u.data_bytes ≡ line ++ 10 ∷ rest
    → read_line u ≡ ok line (record u { pos = u.pos + length line + 1 })
unfolding read_line
read_line-append line rest u h e = rw (e, until_newline-append line rest h, read_line) refl

module _ (rt : Runtime) where
  step-argument :
      (a rest : List ℕ) (u : Unpickler)
      → All (λ r. r < 65536) a
      → drop u.pos u.data_bytes ≡ b'V' ∷ (escape_raw_unicode a ++ 10 ∷ rest)
      → step_byte rt b'V' (advanced u) ≡ ok tt (read_argument a u)
  unfolding step_byte step push
  step-argument a rest u h e =
      let behind : drop (u.pos + 1) u.data_bytes ≡ escape_raw_unicode a ++ 10 ∷ rest =
        drop-drop u.pos 1 u.data_bytes ∙ ap (drop 1) e in
      bind-ok read_line _ (advanced u) _ (
        read_line-append (escape_raw_unicode a) rest (advanced u) (escape_raw_unicode-Printable a)
          behind)
      ∙ ap (λ s. ok tt (record (read_argument a u) { stack = str s ∷ u.stack }))
          (unescape_raw_unicode-escape a h)

  behind-argument :
      (a rest : List ℕ) (u : Unpickler)
      → drop u.pos u.data_bytes ≡ b'V' ∷ (escape_raw_unicode a ++ 10 ∷ rest)
      → drop (u.pos + 1 + length (escape_raw_unicode a) + 1) u.data_bytes ≡ rest
  behind-argument a rest u e =
      drop-drop (u.pos + 1 + length (escape_raw_unicode a)) 1 u.data_bytes
      ∙ ap (drop 1) (
          drop-drop (u.pos + 1) (length (escape_raw_unicode a)) u.data_bytes
          ∙ ap (drop (length (escape_raw_unicode a)))
              (drop-drop u.pos 1 u.data_bytes ∙ ap (drop 1) e)
          ∙ drop-append (escape_raw_unicode a) (10 ∷ rest))

  step-list :
      (u : Unpickler) (items vs : List Value)
      → above_mark [] u.stack ≡ some (items, vs)
      → step_byte rt b'l' u ≡ push_slice items (record u { stack = vs })
  unfolding step_byte step pop_mark
  step-list u items vs e =
      bind-ok pop_mark push_slice u (record u { stack = vs }) (rw (e, pop_mark) refl)

  one_turn :
      (fuel : ℕ) (u : Unpickler) (b : ℕ)
      → next_byte u ≡ some b
      → run rt (suc fuel) u ≡ continue (run rt fuel) (step_byte rt b (advanced u))
  unfolding run
  one_turn fuel u b e = rw (e, run) refl

  next_byte-of_drop :
      (u : Unpickler) (b : ℕ) (rest : Text)
      → drop u.pos u.data_bytes ≡ b ∷ rest
      → next_byte u ≡ some b
  next_byte-of_drop u b rest e = rw (e, next_byte) refl

  -- The list with these elements, newly made.
  abbrev made : List Value → Heap → Result
  made items h = let (v, h') = new_slice items 0 h in value v h'

  run-list :
      (fuel : ℕ) (u : Unpickler) (items vs : List Value)
      → drop u.pos u.data_bytes ≡ b'l' ∷ b'.' ∷ []
      → above_mark [] u.stack ≡ some (items, vs)
      → run rt (suc (suc fuel)) u ≡ made items u.heap
  unfolding step_byte step push_slice push
  run-list fuel u items vs e k =
      let v = advanced u in
      one_turn (suc fuel) u b'l' (next_byte-of_drop u b'l' _ e)
      ∙ ap (continue (run rt (suc fuel))) (step-list v items vs k)
      ∙ one_turn fuel _ b'.'
          (next_byte-of_drop (advanced u) b'.' [] (drop-drop u.pos 1 u.data_bytes ∙ ap (drop 1) e))

  run-arguments :
      (args : List (List ℕ)) (fuel : ℕ) (u : Unpickler) (items vs : List Value)
      → All (All (λ r. r < 65536)) args
      → drop u.pos u.data_bytes ≡ argument_lines args ++ b'l' ∷ b'.' ∷ []
      → above_mark [] (push_texts args u.stack) ≡ some (items, vs)
      → length args + 2 ≤ fuel
      → run rt fuel u ≡ made items u.heap
  run-arguments args zero u items vs h e k f = absurd (omega arith)
  run-arguments args (suc zero) u items vs h e k f = absurd (omega arith)
  run-arguments [] (suc (suc fuel)) u items vs h e k f = run-list fuel u items vs e k
  run-arguments (a ∷ args) (suc (suc fuel)) u items vs (h, hs) e k f =
      let rest = argument_lines args ++ b'l' ∷ b'.' ∷ [] in
      let e' : drop u.pos u.data_bytes ≡ b'V' ∷ (escape_raw_unicode a ++ 10 ∷ rest) =
        e ∙ ap (λ l. b'V' ∷ l) (append_assoc (escape_raw_unicode a) (10 ∷ argument_lines args) _) in
      one_turn (suc fuel) u b'V' (next_byte-of_drop u b'V' _ e')
      ∙ ap (continue (run rt (suc fuel))) (step-argument a rest u h e')
      ∙ run-arguments args (suc fuel) (read_argument a u) items vs hs (behind-argument a rest u e')
          k (omega arith)

  get_elem_or-last :
      {A : Type 0} (d x : A) (xs : List A) → get_elem_or d (length xs) (xs ++ x ∷ []) ≡ x
  get_elem_or-last d x [] = refl
  get_elem_or-last d x (y ∷ ys) = get_elem_or-last d x ys

  append-nil_right : {A : Type 0} (xs : List A) → xs ++ [] ≡ xs
  append-nil_right [] = refl
  append-nil_right (x ∷ xs) = ap (λ l. x ∷ l) (append-nil_right xs)

  pub elements-new_slice :
      (items : List Value) (spare : ℕ) (h : Heap)
      → elements (new_slice items spare h).1 (length h.arrays) (length items) ≡ items
  unfolding elements new_slice
  elements-new_slice items spare h =
      ap (take (length items)) (get_elem_or-last [] (items ++ replicate spare nil) h.arrays)
      ∙ take-append items (replicate spare nil)

  length-argument_lines : (args : List (List ℕ)) → length args ≤ length (argument_lines args)
  length-argument_lines [] = omega arith
  length-argument_lines (a ∷ args) = omega (
    arith,
    length-append (escape_raw_unicode a) (10 ∷ argument_lines args),
    length-argument_lines args,
  )

  -- What pickleCommand makes of arguments whose runes are below 0x10000, unpickle reads back as a list of
  -- texts: the arguments in their order, each in UTF-8, whatever control characters, ends of line and
  -- backslashes they have. A surrogate is read as the replacement character.
  pub unpickle-pickle_command :
      (args : List (List ℕ))
      → All (All (λ r. r < 65536)) args
      → (a n : ℕ) × (h : Heap) × (unpickle rt (pickle_command args) ≡ value (slice a n) h)
        × (elements h a n ≡ map text_value args)
  unfolding unpickle pickle_command step_byte step push new_slice
  unpickle-pickle_command args h =
      let data_bytes = pickle_command args in
      let u : Unpickler = record (advanced (start data_bytes)) { stack = mark ∷ [] } in
      let items = map text_value args in
      let k : above_mark [] (push_texts args u.stack) ≡ some (items, []) =
        above_mark-push_texts args [] u.stack ∙ ap (λ l. some (l, [])) (append-nil_right items) in
      let fits : length args + 2 ≤ length data_bytes = omega (
        arith,
        length-append (argument_lines args) (b'l' ∷ b'.' ∷ []),
        length-argument_lines args,
      ) in
      (
        0,
        length items,
        (new_slice items 0 empty_heap).1,
        run-arguments args (length data_bytes) u items [] h refl k fits,
        elements-new_slice items 0 empty_heap,
      )
