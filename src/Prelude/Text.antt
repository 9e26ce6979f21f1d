-- ===== src/Prelude/Text.antt =====
-- Joining texts, and membership tests on lists of texts.
use Prim.Native.String
use Prim.Native.String.{String}
use mathlib.Core.Bool.{Bool, false, ◌||◌}
use mathlib.Core.List.{List, [], ◌∷◌}
use text.Mathlib.Text.{◌==◌}

-- A template literal `${a}${b}`.
infixr 65 ◌<>◌
abbrev pub ◌<>◌ : String → String → String
a <> b = String.◌++◌ a b

-- `xs.includes(k)`, `set.has(k)`
abbrev pub includes : List String → String → Bool
includes [] k = false
includes (x ∷ xs) k = x == k || includes xs k
