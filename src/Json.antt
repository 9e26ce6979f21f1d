-- ===== src/Json.antt =====
-- JSON values as the services receive them: `unknown`, `Record<string, unknown>` and the tests
-- `typeof x === "string"`, `typeof x === "number"` and `isRecord` that the guards are made of.
use vigil_summit_agent.Prelude.{
  ℕ, String, Bool, true, false, Option, none, some, List, [], ◌∷◌, ◌=ₛ◌, if◌then◌else◌, ◌≡◌, refl,
  arith, eq_iff,
}

-- A JSON number: a whole number from 0, the negative whole number -(n + 1), or a number that is
-- not whole, kept as its decimal text.
pub data Number : Type 0 where
  whole : ℕ → Number
  negative : ℕ → Number
  fractional : String → Number

mutual
  pub data Json : Type 0 where
    null : Json
    bool : Bool → Json
    num : Number → Json
    str : String → Json
    arr : Items → Json
    obj : Fields → Json

  pub data Items : Type 0 where
    nil : Items
    cons : Json → Items → Items

  pub data Fields : Type 0 where
    end : Fields
    field : String → Json → Fields → Fields

-- `o[key]`, where `none` is `undefined`.
abbrev pub get : Fields → String → Option Json
get end key = none
get (field k v fs) key = if k =ₛ key then some v else get fs key

-- `typeof x === "string"`
abbrev pub is_string : Option Json → Bool
is_string (some (str _)) = true
is_string (some _) = false
is_string none = false

-- `typeof x === "number"`
abbrev pub is_number : Option Json → Bool
is_number (some (num _)) = true
is_number (some _) = false
is_number none = false

-- `isRecord(x)`, with the record that the type guard gives.
unfoldable pub as_record : Option Json → Option Fields
as_record (some (obj fs)) = some fs
as_record (some _) = none
as_record none = none

-- `x === "..."` for a text literal.
abbrev pub is_text : Option Json → String → Bool
is_text (some (str s)) t = s =ₛ t
is_text (some _) t = false
is_text none t = false

-- `o[key] = v`: a key that is there keeps its place.
abbrev pub set : Fields → String → Json → Fields
set end key v = field key v end
set (field k w fs) key v = if k =ₛ key then field k v fs else field k w (set fs key v)

-- `Object.fromEntries(entries)`, onto the fields that are there.
abbrev pub from_entries : Fields → List (String × Json) → Fields
from_entries fs [] = fs
from_entries fs ((k, v) ∷ entries) = from_entries (set fs k v) entries

-- `x ?? d`, where `null` counts as absent too.
abbrev pub or_default : Option Json → Json → Json
or_default none d = d
or_default (some null) d = d
or_default (some v) d = v

-- A key that was set is read back, and no other key changes.
pub get-set :
    (fs : Fields) (key j : String) (v : Json)
    → get (set fs key v) j ≡ (if key =ₛ j then some v else get fs j)
get-set end key j v = refl
get-set (field k w fs) key j v =
    ground (arith, eq_iff k key, eq_iff k j, eq_iff key j, get-set fs key j v)
