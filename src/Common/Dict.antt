-- ===== src/Common/Dict.antt =====
-- An object used as a dictionary from texts: an association list.
use Prim.Native.String.{String}
use mathlib.Core.Path.{◌≡◌, refl}
use mathlib.Core.Option.{Option, none, some}
use mathlib.Core.List.{List, [], ◌∷◌}
use native.Mathlib.Omega.{arith}
use text.Mathlib.Text.{◌==◌}
use text.Mathlib.TextEquality.{eq_iff}
use forensic_chain.Common.Tests.{if◌then◌else◌}

module _ {V : Type 0} where
  -- `m[key]`
  unfoldable pub lookup : String → List (String × V) → Option V
  lookup key [] = none
  lookup key ((k, v) ∷ m) = if k == key then some v else lookup key m

  -- `{ ...m, [key]: value }`
  unfoldable pub insert : String → V → List (String × V) → List (String × V)
  insert key value [] = (key, value) ∷ []
  insert key value ((k, v) ∷ m) = if k == key then (key, value) ∷ m else (k, v) ∷ insert key value m

  pub lookup-insert :
      (key other : String) (value : V) (m : List (String × V))
      → lookup other (insert key value m) ≡ (if key == other then some value else lookup other m)
  unfolding lookup insert
  lookup-insert key other value [] = refl
  lookup-insert key other value ((k, v) ∷ m) =
      ground
        (arith, eq_iff key other, eq_iff k key, eq_iff k other, lookup-insert key other value m)
