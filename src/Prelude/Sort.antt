-- ===== src/Prelude/Sort.antt =====
-- ORDER BY: insertion sort by a Boolean test `le`; rows that tie keep the table's order.
use Prim.Native.Nat.{suc}
use mathlib.Core.Path.{◌≡◌, refl}
use mathlib.Core.Logic.{inl, inr}
use mathlib.Core.Bool.{Bool, true, false}
use mathlib.Core.List.{List, [], ◌∷◌}
use native.Mathlib.Omega.{arith}
use logfort.Prelude.Tests.{if◌then◌else◌, Bool-cases}
use logfort.Prelude.Lists.{length, count_where, All}

module _ {ℓ} {A : Type ℓ} where
  unfoldable pub insert_by : (A → A → Bool) → A → List A → List A
  insert_by le x [] = x ∷ []
  insert_by le x (y ∷ ys) = let rest = insert_by le x ys in if le x y then x ∷ y ∷ ys else y ∷ rest

  unfoldable pub sort_by : (A → A → Bool) → List A → List A
  unfolding insert_by
  sort_by le [] = []
  sort_by le (x ∷ xs) = insert_by le x (sort_by le xs)

  -- The first row of the rest, if there is one, is not before `x`.
  abbrev pub Leads : (A → A → Bool) → A → List A → Type 0
  Leads le x [] = Unit {0}
  Leads le x (y ∷ ys) = le x y ≡ true

  abbrev pub IsOrdered : (A → A → Bool) → List A → Type 0
  IsOrdered le [] = Unit {0}
  IsOrdered le (x ∷ xs) = Leads le x xs × IsOrdered le xs

module _ {ℓ} {A : Type ℓ} where
  count_where-insert_by :
      (p : A → Bool) (le : A → A → Bool) (x : A) (xs : List A)
      → count_where p (insert_by le x xs) ≡ count_where p (x ∷ xs)
  unfolding insert_by
  count_where-insert_by p le x [] = refl
  count_where-insert_by p le x (y ∷ ys) = ground (arith, count_where-insert_by p le x ys)

  -- Sorting neither loses nor adds a row.
  pub count_where-sort_by :
      (p : A → Bool) (le : A → A → Bool) (xs : List A)
      → count_where p (sort_by le xs) ≡ count_where p xs
  unfolding sort_by
  count_where-sort_by p le [] = refl
  count_where-sort_by p le (x ∷ xs) =
      ground (arith, count_where-insert_by p le x (sort_by le xs), count_where-sort_by p le xs)

  All-insert_by {κ} :
      (P : A → Type κ) (le : A → A → Bool) (x : A) (xs : List A)
      → P x
      → All P xs
      → All P (insert_by le x xs)
  unfolding insert_by
  All-insert_by P le x [] h hs = (h, tt)
  All-insert_by P le x (y ∷ ys) h hs = elim (Bool-cases (le x y)) [
    | inl e ↦ rw e (h, hs)
    | inr e ↦ rw e (hs.0, All-insert_by P le x ys h hs.1)
  ]

  pub All-sort_by {κ} :
      (P : A → Type κ) (le : A → A → Bool) (xs : List A) → All P xs → All P (sort_by le xs)
  unfolding sort_by
  All-sort_by P le [] h = tt
  All-sort_by P le (x ∷ xs) h = All-insert_by P le x (sort_by le xs) h.0 (All-sort_by P le xs h.1)

  pub length-insert_by :
      (le : A → A → Bool) (x : A) (xs : List A) → length (insert_by le x xs) ≡ suc (length xs)
  unfolding insert_by
  length-insert_by le x [] = refl
  length-insert_by le x (y ∷ ys) = ground (arith, length-insert_by le x ys)

  pub length-sort_by : (le : A → A → Bool) (xs : List A) → length (sort_by le xs) ≡ length xs
  unfolding sort_by
  length-sort_by le [] = refl
  length-sort_by le (x ∷ xs) =
      omega (arith, length-insert_by le x (sort_by le xs), length-sort_by le xs)

module _ {ℓ} {A : Type ℓ} (le : A → A → Bool)
    (total : (x y : A) → le x y ≡ false → le y x ≡ true) where
  Leads-insert_by :
      (y x : A) (xs : List A) → le y x ≡ true → Leads le y xs → Leads le y (insert_by le x xs)
  unfolding insert_by
  Leads-insert_by y x [] h l = h
  Leads-insert_by y x (z ∷ zs) h l = ground arith

  IsOrdered-insert_by : (x : A) (xs : List A) → IsOrdered le xs → IsOrdered le (insert_by le x xs)
  unfolding insert_by
  IsOrdered-insert_by x [] h = (tt, tt)
  IsOrdered-insert_by x (y ∷ ys) h = elim (Bool-cases (le x y)) [
    | inl e ↦ rw e (e, h)
    | inr e ↦ rw e (Leads-insert_by y x ys (total x y e) h.0, IsOrdered-insert_by x ys h.1)
  ]

  -- The result of a sort is ordered.
  pub sort_by-IsOrdered : (xs : List A) → IsOrdered le (sort_by le xs)
  unfolding sort_by
  sort_by-IsOrdered [] = tt
  sort_by-IsOrdered (x ∷ xs) = IsOrdered-insert_by x (sort_by le xs) (sort_by-IsOrdered xs)
