-- ===== src/Prelude/Lists.antt =====
-- Lists measured by native numbers, and the list forms of SQL's SELECT, UPDATE, DELETE and COUNT
-- over a Boolean condition.
use Prim.Native.Nat.{min, ◌-◌, ℕ, zero, suc, ◌+◌, ◌≤◌}
use mathlib.Core.Path.{◌≡◌, refl}
use mathlib.Core.Logic.{inl, inr}
use mathlib.Core.Bool.{◌&&◌, not, Bool, true, false, ◌||◌}
use mathlib.Core.List.{List, [], ◌∷◌, ◌++◌}
use native.Mathlib.Omega.{arith}
use logfort.Prelude.Tests.{if◌then◌else◌, Bool-cases}

module _ {ℓ} {A : Type ℓ} where
  abbrev pub length : List A → ℕ
  length [] = 0
  length (x ∷ xs) = suc (length xs)

  abbrev pub take : ℕ → List A → List A
  take zero xs = []
  take (suc n) [] = []
  take (suc n) (x ∷ xs) = x ∷ take n xs

  abbrev pub drop : ℕ → List A → List A
  drop zero xs = xs
  drop (suc n) [] = []
  drop (suc n) (x ∷ xs) = drop n xs

  pub length-append : (xs ys : List A) → length (xs ++ ys) ≡ length xs + length ys
  length-append [] ys = omega arith
  length-append (x ∷ xs) ys = omega (arith, length-append xs ys)

  -- SELECT … WHERE p.
  abbrev pub select : (A → Bool) → List A → List A
  select p [] = []
  select p (x ∷ xs) = let rest = select p xs in if p x then x ∷ rest else rest

  -- SELECT COUNT(*) … WHERE p.
  abbrev pub count_where : (A → Bool) → List A → ℕ
  count_where p [] = 0
  count_where p (x ∷ xs) = let rest = count_where p xs in if p x then suc rest else rest

  -- EXISTS (SELECT 1 … WHERE p).
  abbrev pub any_where : (A → Bool) → List A → Bool
  any_where p [] = false
  any_where p (x ∷ xs) = p x || any_where p xs

  -- UPDATE … SET f WHERE p.
  abbrev pub update_where : (A → Bool) → (A → A) → List A → List A
  update_where p f [] = []
  update_where p f (x ∷ xs) = (if p x then f x else x) ∷ update_where p f xs

  -- Every element has the property.
  abbrev pub All {κ} : (A → Type κ) → List A → Type κ
  All P [] = Unit
  All P (x ∷ xs) = P x × All P xs

module _ {ℓ} {A : Type ℓ} where
  pub count_where-of_none :
      (p : A → Bool) (xs : List A) → any_where p xs ≡ false → count_where p xs ≡ 0
  count_where-of_none p [] h = refl
  count_where-of_none p (x ∷ xs) h = ground (arith, count_where-of_none p xs)

  pub count_where-of_any :
      (p : A → Bool) (xs : List A) → any_where p xs ≡ true → 1 ≤ count_where p xs
  count_where-of_any p [] h = ground arith
  count_where-of_any p (x ∷ xs) h = ground (arith, count_where-of_any p xs)

  pub count_where-update :
      (q p : A → Bool) (f : A → A) (xs : List A)
      → ((x : A) → p x ≡ true → q (f x) ≡ true → q x ≡ true)
      → count_where q (update_where p f xs) ≤ count_where q xs
  count_where-update q p f [] h = omega arith
  count_where-update q p f (x ∷ xs) h = ground (arith, h x, count_where-update q p f xs h)

  -- A condition that no updated row changes is counted as before.
  pub count_where-update_same :
      (q p : A → Bool) (f : A → A) (xs : List A)
      → ((x : A) → p x ≡ true → q (f x) ≡ q x)
      → count_where q (update_where p f xs) ≡ count_where q xs
  count_where-update_same q p f [] h = refl
  count_where-update_same q p f (x ∷ xs) h = ground (arith, h x, count_where-update_same q p f xs h)

  pub count_where-update_none :
      (q p : A → Bool) (f : A → A) (xs : List A)
      → ((x : A) → p x ≡ true → q (f x) ≡ false)
      → ((x : A) → p x ≡ false → q x ≡ false)
      → count_where q (update_where p f xs) ≡ 0
  count_where-update_none q p f [] h k = refl
  count_where-update_none q p f (x ∷ xs) h k =
      ground (arith, h x, k x, count_where-update_none q p f xs h k)

  pub count_where-select :
      (q p : A → Bool) (xs : List A) → count_where q (select p xs) ≤ count_where q xs
  count_where-select q p [] = omega arith
  count_where-select q p (x ∷ xs) = ground (arith, count_where-select q p xs)

  pub count_where-select_same :
      (q p : A → Bool) (xs : List A)
      → ((x : A) → q x ≡ true → p x ≡ true)
      → count_where q (select p xs) ≡ count_where q xs
  count_where-select_same q p [] h = refl
  count_where-select_same q p (x ∷ xs) h = ground (arith, h x, count_where-select_same q p xs h)

  pub All-select {κ} :
      (P : A → Type κ) (p : A → Bool) (xs : List A)
      → ((x : A) → p x ≡ true → P x)
      → All P (select p xs)
  All-select P p [] h = tt
  All-select P p (x ∷ xs) h = elim (Bool-cases (p x)) [
    | inl e ↦ rw e (h x e, All-select P p xs h)
    | inr e ↦ rw e (All-select P p xs h)
  ]

  pub All-mono {κ μ} :
      (P : A → Type κ) (Q : A → Type μ) (xs : List A) → ((x : A) → P x → Q x) → All P xs → All Q xs
  All-mono P Q [] f h = tt
  All-mono P Q (x ∷ xs) f h = (f x h.0, All-mono P Q xs f h.1)

  pub count_where-of_select :
      (q p : A → Bool) (xs : List A)
      → count_where q (select p xs) ≡ count_where (λ x. p x && q x) xs
  count_where-of_select q p [] = refl
  count_where-of_select q p (x ∷ xs) = ground (arith, count_where-of_select q p xs)

  pub length-select : (p : A → Bool) (xs : List A) → length (select p xs) ≡ count_where p xs
  length-select p [] = refl
  length-select p (x ∷ xs) = ground (arith, length-select p xs)

  pub length-select-not :
      (p : A → Bool) (xs : List A)
      → count_where p xs + length (select (λ x. not (p x)) xs) ≡ length xs
  length-select-not p [] = omega arith
  length-select-not p (x ∷ xs) = ground (arith, length-select-not p xs)

  pub All-take {κ} : (P : A → Type κ) (n : ℕ) (xs : List A) → All P xs → All P (take n xs)
  All-take P zero xs h = tt
  All-take P (suc n) [] h = tt
  All-take P (suc n) (x ∷ xs) h = (h.0, All-take P n xs h.1)

  pub All-drop {κ} : (P : A → Type κ) (n : ℕ) (xs : List A) → All P xs → All P (drop n xs)
  All-drop P zero xs h = h
  All-drop P (suc n) [] h = tt
  All-drop P (suc n) (x ∷ xs) h = All-drop P n xs h.1

  pub length-take : (n : ℕ) (xs : List A) → length (take n xs) ≡ min n (length xs)
  length-take zero xs = omega arith
  length-take (suc n) [] = omega arith
  length-take (suc n) (x ∷ xs) = omega (arith, length-take n xs)

  pub length-drop : (n : ℕ) (xs : List A) → length (drop n xs) ≡ length xs - n
  length-drop zero xs = omega arith
  length-drop (suc n) [] = omega arith
  length-drop (suc n) (x ∷ xs) = omega (arith, length-drop n xs)
