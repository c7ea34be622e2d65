-- ===== src/Prelude/Dict.antt =====
-- Python's dictionaries as association lists: `d[k] = v` writes in place or at the end, `d.pop(k, None)`
-- takes the key out. The laws of `lookup` need no condition.
use pure_hypervisor_integrat.Prelude.Tests.{if◌then◌else◌}
use pure_hypervisor_integrat.Prelude.Lists.{lookup}
use Prim.Native.String.{String}
use mathlib.Core.Path.{◌≡◌}
use mathlib.Core.Option.{Option, none, some}
use mathlib.Core.List.{List, [], ◌∷◌}
use native.Mathlib.Omega.{arith}
use text.Mathlib.Text.{◌==◌}
use text.Mathlib.TextEquality.{eq_iff}

module _ {ℓ} {V : Type ℓ} where
  -- `d[key] = value`
  unfoldable pub assign : String → V → List (String × V) → List (String × V)
  assign key value [] = (key, value) ∷ []
  assign key value ((name, old) ∷ d) =
      let after = (name, old) ∷ assign key value d in
      if name == key then (key, value) ∷ d else after

  -- `d.pop(k, None)`, without its value
  unfoldable pub erase : String → List (String × V) → List (String × V)
  erase k [] = []
  erase k ((j, w) ∷ m) = let rest = erase k m in if j == k then rest else (j, w) ∷ rest

  -- `d.get(k, v)`
  abbrev pub get_or : V → Option V → V
  get_or v none = v
  get_or v (some w) = w

  pub lookup-assign :
      (key asked : String) (value : V) (d : List (String × V))
      → lookup asked (assign key value d) ≡ (if key == asked then some value else lookup asked d)
  unfolding assign
  lookup-assign key asked value [] = ground arith
  lookup-assign key asked value ((name, old) ∷ d) =
      ground (
        arith,
        lookup-assign key asked value d,
        eq_iff name asked,
        eq_iff key asked,
        eq_iff name key,
      )

  pub lookup-erase :
      (k j : String) (m : List (String × V))
      → lookup j (erase k m) ≡ (if k == j then none else lookup j m)
  unfolding erase
  lookup-erase k j [] = ground arith
  lookup-erase k j ((i, w) ∷ m) =
      ground (arith, eq_iff k j, eq_iff i k, eq_iff i j, lookup-erase k j m)
