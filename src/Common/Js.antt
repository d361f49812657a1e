-- ===== src/Common/Js.antt =====
-- The values of a dynamic language, as `JSON.parse` and the handlers see them. Numbers are
-- integers; `undefined` is also what a missing property reads as.
use Prim.Native.Nat.{ℕ, ◌+◌}
use Prim.Native.Char.{code}
use Prim.Native.String.{String}
use mathlib.Core.Bool.{Bool, true, false, ◌&&◌, ◌||◌}
use mathlib.Core.List.{List, [], ◌∷◌}
use text.Mathlib.Text.{◌==◌ as str_eq}
use infernet_protocol.Common.Tests.{ltb, leb, ◌==◌, if◌then◌else◌}

-- `negsuc n` is -(n + 1).
pub data ℤ : Type 0 where
  pos : ℕ → ℤ
  negsuc : ℕ → ℤ

mutual
  pub data Js : Type 0 where
    undefined null : Js
    bool : Bool → Js
    num : ℤ → Js
    str : String → Js
    arr : Items → Js
    obj : Fields → Js

  pub data Items : Type 0 where
    nil : Items
    cons : Js → Items → Items

  pub data Fields : Type 0 where
    end : Fields
    field : String → Js → Fields → Fields

abbrev pub get_field : String → Fields → Js
get_field k end = undefined
get_field k (field j v fs) = if str_eq j k then v else get_field k fs

-- `value?.key` at a key that no primitive and no array has.
abbrev pub member : Js → String → Js
member (obj fs) k = get_field k fs
member _ k = undefined

-- `value ?? fallback`
abbrev pub or_else : Js → Js → Js
or_else undefined d = d
or_else null d = d
or_else v d = v

-- The code points of a text.
abbrev pub codes : String → List ℕ
codes String.[] = []
codes (String.◌∷◌ c s) = code c ∷ codes s

-- `text.length` counts UTF-16 units: two for a code point past 0xffff.
abbrev pub units : List ℕ → ℕ
units [] = 0
units (c ∷ cs) = (if ltb c 0x10000 then 1 else 2) + units cs

-- Whether a value counts as true in a condition.
abbrev pub truthy : Js → Bool
truthy undefined = false
truthy null = false
truthy (bool b) = b
truthy (num (pos n)) = ltb 0 n
truthy (num (negsuc n)) = true
truthy (str s) = if str_eq s "" then false else true
truthy (arr xs) = true
truthy (obj fs) = true

-- The white space that `trim` takes off.
abbrev is_space : ℕ → Bool
is_space c =
    (leb 9 c && leb c 13)
    || c == 0x20
    || c == 0xa0
    || c == 0x1680
    || (leb 0x2000 c && leb c 0x200a)
    || c == 0x2028
    || c == 0x2029
    || c == 0x202f
    || c == 0x205f
    || c == 0x3000
    || c == 0xfeff

abbrev trim_start : String → String
trim_start String.[] = ""
trim_start (String.◌∷◌ c s) =
    let rest = trim_start s in if is_space (code c) then rest else String.◌∷◌ c s

abbrev trim_end : String → String
trim_end String.[] = ""
trim_end (String.◌∷◌ c s) =
    let rest = trim_end s in if is_space (code c) && str_eq rest "" then "" else String.◌∷◌ c rest

unfoldable pub trim : String → String
trim s = trim_end (trim_start s)
