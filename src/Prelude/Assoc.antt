-- ===== src/Prelude/Assoc.antt =====
-- A Go map with text keys, as an association list; a write puts the key in front and drops its old entry.
use mathlib.Core.Path.{◌≡◌}
use mathlib.Core.Option.{Option, none, some}
use mathlib.Core.List.{List, [], ◌∷◌}
use Prim.Native.String.{String}
use native.Mathlib.Omega.{arith}
use text.Mathlib.Text.{◌==◌}
use text.Mathlib.TextEquality.{eq_iff}
use text.Mathlib.TextPositions.{eq_refl}
use logfort.Prelude.Tests.{if◌then◌else◌}

module _ {ℓ} {V : Type ℓ} where
  unfoldable pub lookup : String → List (String × V) → Option V
  lookup key [] = none
  lookup key ((name, value) ∷ rest) = if name == key then some value else lookup key rest

  unfoldable pub erase : String → List (String × V) → List (String × V)
  erase key [] = []
  erase key ((name, value) ∷ rest) =
      let others = erase key rest in if name == key then others else (name, value) ∷ others

  unfoldable pub insert : String → V → List (String × V) → List (String × V)
  unfolding erase
  insert key value entries = (key, value) ∷ erase key entries

  pub lookup-erase :
      (key other : String) (entries : List (String × V))
      → lookup other (erase key entries) ≡ (if key == other then none else lookup other entries)
  unfolding lookup erase
  lookup-erase key other [] = ground arith
  lookup-erase key other ((name, value) ∷ rest) =
      ground
        (arith, lookup-erase key other rest, eq_iff name key, eq_iff name other, eq_iff key other)

  pub lookup-insert :
      (key other : String) (value : V) (entries : List (String × V))
      → lookup other (insert key value entries)
        ≡ (if key == other then some value else lookup other entries)
  unfolding lookup insert
  lookup-insert key other value entries = ground (arith, lookup-erase key other entries)

  pub lookup-insert_self :
      (key : String) (value : V) (entries : List (String × V))
      → lookup key (insert key value entries) ≡ some value
  unfolding lookup insert
  lookup-insert_self key value entries = ground (arith, eq_refl key)
