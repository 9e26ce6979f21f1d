-- ===== src/Prelude/Dict.antt =====
-- JavaScript's `Map` with text keys, as an association list in the order of insertion.
use Prim.Native.String.{String}
use mathlib.Core.Path.{◌≡◌, refl}
use mathlib.Core.Option.{Option, none, some}
use mathlib.Core.List.{List, [], ◌∷◌}
use native.Mathlib.Omega.{arith}
use text.Mathlib.Text.{◌==◌}
use text.Mathlib.TextEquality.{eq_iff}
use vigil_summit_agent.Prelude.Tests.{if◌then◌else◌}

abbrev pub StringMap {ℓ} : Type ℓ → Type ℓ
StringMap V = List (String × V)

module _ {ℓ} {V : Type ℓ} where
  -- `m.get(key)`
  abbrev pub lookup : String → StringMap V → Option V
  lookup key [] = none
  lookup key (entry ∷ rest) = if entry.0 == key then some entry.1 else lookup key rest

  -- `m.set(key, value)`: a key that is there keeps its place.
  abbrev pub insert : String → V → StringMap V → StringMap V
  insert key value [] = (key, value) ∷ []
  insert key value (entry ∷ rest) =
      if entry.0 == key then (key, value) ∷ rest else entry ∷ insert key value rest

  -- A lookup after a `set`.
  pub lookup-insert :
      (set_key key : String) (value : V) (m : StringMap V)
      → lookup key (insert set_key value m) ≡ (if set_key == key then some value else lookup key m)
  lookup-insert set_key key value [] = refl
  lookup-insert set_key key value (entry ∷ rest) = ground (
    arith,
    lookup-insert set_key key value rest,
    eq_iff entry.0 key,
    eq_iff set_key key,
    eq_iff entry.0 set_key,
  )
