-- ===== src/Threat/Search.antt =====
-- Searching the lists that stand for the sets of internal/threat/threat.go.
use logfort.Prelude.{
  ℕ, zero, suc, ◌≤◌, ◌≡◌, refl, sym, ap, ◌∙◌, inl, inr, Bool, true, ◌||◌, List, [], ◌∷◌, ◌++◌,
  arith, eqb, eqb_iff, Bool-cases, select, any_where, All,
}
use logfort.Threat.Blocklist.{up_to}

-- Searching lists.
pub any-found :
    {A : Type 0} (eq f : A → Bool) (xs : List A)
    → ((x : A) → eq x ≡ true → f x ≡ true)
    → any_where eq xs ≡ true
    → any_where f xs ≡ true
any-found eq f [] h k = ground arith
any-found eq f (x ∷ xs) h k = elim (Bool-cases (eq x)) [
  | inl e ↦ rw (h x e) refl
  | inr e ↦ let rest = any-found eq f xs h (ground arith) in ground arith
]

pub any-witness :
    {A : Type 0} (eq : A → A → Bool) (f : A → Bool) (P : A → Type 0) (xs : List A)
    → ((x : A) → eq x x ≡ true)
    → All P xs
    → any_where f xs ≡ true
    → (x : A) × P x × (f x ≡ true) × (any_where (eq x) xs ≡ true)
any-witness eq f P [] r h k = absurd (ground arith)
any-witness eq f P (x ∷ xs) r h k = elim (Bool-cases (f x)) [
  | inl e ↦ (x, h.0, e, ground (arith, r x))
  | inr e ↦
      let (y, p, g, m) = any-witness eq f P xs r h.1 (ground arith) in (y, p, g, ground (arith, m))
]

pub any-select :
    (b : ℕ) (p : ℕ → Bool) (xs : List ℕ)
    → p b ≡ true
    → any_where (eqb b) xs ≡ true
    → any_where (eqb b) (select p xs) ≡ true
any-select b p [] h k = k
any-select b p (x ∷ xs) h k = elim (Bool-cases (eqb b x)) [
  | inl e ↦ rw (ap p (sym ((eqb_iff b x).0 e)) ∙ h) (ground arith)
  | inr e ↦ let rest = any-select b p xs h (ground arith) in ground (arith, rest)
]

pub any-append :
    (b : ℕ) (xs ys : List ℕ)
    → any_where (eqb b) (xs ++ ys) ≡ (any_where (eqb b) xs || any_where (eqb b) ys)
any-append b [] ys = refl
any-append b (x ∷ xs) ys = ground (arith, any-append b xs ys)

pub any-up_to : (b n : ℕ) → b ≤ n → any_where (eqb b) (up_to n) ≡ true
unfolding up_to
any-up_to b zero h = ground arith
any-up_to b (suc n) h = elim (Bool-cases (eqb b (suc n))) [
  | inl e ↦ rw any-append (ground arith)
  | inr e ↦ rw any-append (ground (arith, any-up_to b n (ground arith)))
]

pub any-implies :
    {A : Type 0} (g : A → Bool) (c : Bool) (xs : List A)
    → ((x : A) → g x ≡ true → c ≡ true)
    → any_where g xs ≡ true
    → c ≡ true
any-implies g c [] h k = absurd (ground arith)
any-implies g c (x ∷ xs) h k = elim (Bool-cases (g x)) [
  | inl e ↦ h x e
  | inr e ↦ any-implies g c xs h (ground arith)
]

pub any-at :
    (g : ℕ → Bool) (b : ℕ) (bs : List ℕ)
    → g b ≡ true
    → any_where (eqb b) bs ≡ true
    → any_where g bs ≡ true
any-at g b bs h k = any-found (eqb b) g bs (λ x e. ap g (sym ((eqb_iff b x).0 e)) ∙ h) k

pub same_truth : (a b : Bool) → (a ≡ true → b ≡ true) → (b ≡ true → a ≡ true) → a ≡ b
same_truth a b h k = ground arith
