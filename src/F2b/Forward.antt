-- ===== src/F2b/Forward.antt =====
-- Each opcode of internal/f2b/pickle.go reads forward in the data, and never past its end: so unpickle ends.
use logfort.Prelude.{
  ℕ, ◌+◌, ◌≤◌, String, ◌≡◌, refl, ◌∙◌, ◌⊎◌, inl, inr, some, List, [], ◌∷◌, arith, Option-cases,
  length, drop, ℤ, pos, negsuc, length-drop,
}
use logfort.F2b.Value.{as_slice, Text, Value}
use logfort.F2b.Machine.{
  Unpickler, Outcome, ok, err, stop, panic, M, pure, ◌>>=◌, fail, push, pop, pop_mark, read,
  read_line, read_sized, little_endian, signed, put_top, memoize, push_memo, push_slice, append_to,
  remember, recall, until_newline, above_mark,
}

-- What holds of the value and the state that a call ends with.
abbrev pub Post {ℓ} : {A : Type ℓ} → (A → Unpickler → Type 0) → Outcome A → Type 0
Post P (ok a u) = P a u
Post P (err e) = Unit
Post P (stop u) = Unit
Post P panic = Unit

abbrev pub Inside : Unpickler → Type 0
Inside u = u.pos ≤ length u.data_bytes

-- The same data, read on from.
abbrev pub Ahead : Unpickler → Unpickler → Type 0
Ahead u v = (v.data_bytes ≡ u.data_bytes) × (u.pos ≤ v.pos) × (v.pos ≤ length u.data_bytes)

abbrev pub Moves {ℓ} : {A : Type ℓ} → M A → Type 0
Moves m = (u : Unpickler) → Inside u → Post (λ _. Ahead u) (m u)

Ahead-trans : (u v w : Unpickler) → Ahead u v → Ahead v w → Ahead u w
Ahead-trans u v w (d, a, b) (e, c, f) = (e ∙ d, omega arith, rw d at f)

stays : (u v : Unpickler) → Inside u → v.data_bytes ≡ u.data_bytes → v.pos ≡ u.pos → Ahead u v
stays u v h d p = (d, omega (arith, p), omega (arith, p, h))

Post-mono {ℓ} :
    {A : Type ℓ} {P Q : A → Unpickler → Type 0} (o : Outcome A)
    → ((a : A) (u : Unpickler) → P a u → Q a u)
    → Post P o
    → Post Q o
Post-mono (ok a u) f h = f a u h
Post-mono (err e) f h = tt
Post-mono (stop u) f h = tt
Post-mono panic f h = tt

Post-bind {ℓ κ} :
    {A : Type ℓ} {B : Type κ} (u : Unpickler) (o : Outcome A) (f : A → M B)
    → Post (λ _. Ahead u) o
    → ((a : A) → Moves (f a))
    → Post (λ _. Ahead u) (((λ _. o) >>= f) u)
Post-bind u (ok a v) f h k = Post-mono (f a v) (λ b w. Ahead-trans u v w h) (k a v (rw h.0 (h.2)))
Post-bind u (err e) f h k = tt
Post-bind u (stop v) f h k = tt
Post-bind u panic f h k = tt

pub Moves-bind {ℓ κ} :
    {A : Type ℓ} {B : Type κ} (m : M A) (f : A → M B)
    → Moves m
    → ((a : A) → Moves (f a))
    → Moves (m >>= f)
Moves-bind m f h k u i = Post-bind u (m u) f (h u i) k

pub Moves-pure {ℓ} : {A : Type ℓ} (a : A) → Moves (pure a)
Moves-pure a u h = stays u u h refl refl

pub Moves-fail {ℓ} : (A : Type ℓ) (e : String) → Moves (fail {A = A} e)
Moves-fail A e u h = tt

pub Moves-push : (v : Value) → Moves (push v)
unfolding push
Moves-push v u h = stays u (record u { stack = v ∷ u.stack }) h refl refl

pub List-cases {ℓ} :
    {A : Type ℓ} (xs : List A) → (xs ≡ []) ⊎ ((y : A) × (ys : List A) × (xs ≡ y ∷ ys))
List-cases [] = inl refl
List-cases (x ∷ xs) = inr (x, xs, refl)

pub Moves-pop : Moves pop
unfolding pop
Moves-pop u h = elim (List-cases u.stack) [
  | inl e ↦ rw e tt
  | inr (v, vs, e) ↦ rw e (stays u (record u { stack = vs }) h refl refl)
]

pub Moves-pop_mark : Moves pop_mark
unfolding pop_mark
Moves-pop_mark u h = elim (Option-cases (above_mark [] u.stack)) [
  | inl e ↦ rw (e, Post) tt
  | inr ((items, vs), e) ↦ rw (e, Post) (stays u (record u { stack = vs }) h refl refl)
]

pub Moves-read : (n : ℤ) → Moves (read n)
unfolding read
Moves-read (negsuc n) u h = tt
Moves-read (pos n) u h = ground arith

until_newline-length : (s line : Text) → until_newline s ≡ some line → length line + 1 ≤ length s
unfolding until_newline
until_newline-length [] line h = cc
until_newline-length (b ∷ bs) line h = elim (Option-cases (until_newline bs)) [
  | inl e ↦ ground arith
  | inr (l, e) ↦ let fits = until_newline-length bs l e in ground arith
]

pub Moves-read_line : Moves read_line
unfolding read_line
Moves-read_line u h = elim (Option-cases (until_newline (drop u.pos u.data_bytes))) [
  | inl e ↦ rw (e, Post) tt
  | inr (line, e) ↦
      let fits = until_newline-length (drop u.pos u.data_bytes) line e in
      rw (e, Post) (refl, omega arith, omega (arith, fits, length-drop u.pos u.data_bytes, h))
]

pub Moves-put_top : (e : String) (i : ℤ) → Moves (put_top e i)
unfolding put_top
Moves-put_top e i u h = elim (List-cases u.stack) [
  | inl e ↦ rw (e, Post) tt
  | inr (v, vs, e) ↦ rw (e, Post) (stays u (record u { memo = remember i v u.memo }) h refl refl)
]

pub Moves-memoize : Moves memoize
unfolding memoize
Moves-memoize u h = Moves-put_top "MEMOIZE on empty stack" (pos (length u.memo)) u h

pub Moves-push_memo : (i : ℤ) → Moves (push_memo i)
unfolding push_memo
Moves-push_memo i u h = Moves-push (recall i u.memo) u h

pub Moves-push_slice : (items : List Value) → Moves (push_slice items)
unfolding push_slice push
Moves-push_slice items u h = (refl, omega arith, h)

pub Moves-read_sized : (width : ℕ) → Moves (read_sized width)
unfolding read_sized
Moves-read_sized width =
    Moves-bind (read (pos width)) _ (Moves-read (pos width))
      λ nb. Moves-read (signed 64 (little_endian nb))

pub Moves-append_to : (grow : ℕ → ℕ → ℕ) (items : List Value) → Moves (append_to grow items)
unfolding append_to
Moves-append_to grow items u h = elim (List-cases u.stack) [
  | inl e ↦ rw (e, Post) tt
  | inr (top, vs, e) ↦ elim (Option-cases (as_slice top)) [
    | inl k ↦ rw (e, k, Post) tt
    | inr ((a, n), k) ↦ rw (e, k, Post) (refl, omega arith, h)
  ]
]
