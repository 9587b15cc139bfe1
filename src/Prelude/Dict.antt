-- ===== src/Prelude/Dict.antt =====
-- A `HashMap` as an association list with at most one entry for a key that `insert` wrote. Keys are
-- identifiers, which the program compares and never looks into: numbers stand for them.
use Prim.Native.Nat.{ℕ}
use mathlib.Core.Path.{◌≡◌, refl}
use mathlib.Core.List.{List, [], ◌∷◌}
use mathlib.Core.Option.{Option, none, some}
use native.Mathlib.Omega.{arith}
use harmonixia_server.Prelude.Tests.{◌==◌, if◌then◌else◌}

module _ {ℓ} {V : Type ℓ} where
  unfoldable pub lookup : ℕ → List (ℕ × V) → Option V
  lookup key [] = none
  lookup key ((at, value) ∷ rest) = if at == key then some value else lookup key rest

  unfoldable pub insert : ℕ → V → List (ℕ × V) → List (ℕ × V)
  insert key value [] = (key, value) ∷ []
  insert key value ((at, held) ∷ rest) =
      if at == key then (key, value) ∷ rest else (at, held) ∷ insert key value rest

  unfoldable pub remove : ℕ → List (ℕ × V) → List (ℕ × V)
  remove key [] = []
  remove key ((at, held) ∷ rest) =
      if at == key then remove key rest else (at, held) ∷ remove key rest

  pub lookup-insert :
      (key at : ℕ) (value : V) (rest : List (ℕ × V))
      → lookup at (insert key value rest) ≡ (if key == at then some value else lookup at rest)
  unfolding lookup insert
  lookup-insert key at value [] = refl
  lookup-insert key at value ((other, held) ∷ rest) =
      ground (arith, lookup-insert key at value rest)

  pub lookup-remove :
      (key at : ℕ) (rest : List (ℕ × V))
      → lookup at (remove key rest) ≡ (if key == at then none else lookup at rest)
  unfolding lookup remove
  lookup-remove key at [] = ground arith
  lookup-remove key at ((other, held) ∷ rest) = ground (arith, lookup-remove key at rest)
