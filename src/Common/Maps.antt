-- ===== src/Common/Maps.antt =====
-- A JavaScript `Map` with text keys: its entries in insertion order. Setting a key that is there
-- keeps its place, and a new key goes last.

use Prim.Native.String.{String}
use mathlib.Core.Logic.{◌≢◌}
use mathlib.Core.Path.{◌≡◌, refl}
use mathlib.Core.Option.{Option, none, some}
use mathlib.Core.List.{List, [], ◌∷◌}
use native.Mathlib.Omega.{arith}
use text.Mathlib.Text.{◌==◌}
use text.Mathlib.TextEquality.{eq_iff}
use infernet_protocol.Common.Tests.{if◌then◌else◌}

module _ {ℓ} {V : Type ℓ} where
  -- `map.delete(key)`
  unfoldable pub delete : String → List (String × V) → List (String × V)
  delete k [] = []
  delete k ((j, w) ∷ m) = let rest = delete k m in if j == k then rest else (j, w) ∷ rest

  -- `map.get(key)`
  unfoldable pub lookup : String → List (String × V) → Option V
  lookup key [] = none
  lookup key ((name, value) ∷ entries) =
      let later = lookup key entries in if name == key then some value else later

  pub lookup-delete :
      (k j : String) (m : List (String × V))
      → lookup j (delete k m) ≡ (if k == j then none else lookup j m)
  unfolding lookup delete
  lookup-delete k j [] = ground arith
  lookup-delete k j ((i, w) ∷ m) =
      ground (arith, eq_iff k j, eq_iff i k, eq_iff i j, lookup-delete k j m)

  -- `map.set(key, value)`
  unfoldable pub insert : String → V → List (String × V) → List (String × V)
  insert key value [] = (key, value) ∷ []
  insert key value ((name, old) ∷ entries) =
      let later = insert key value entries in
      if name == key then (key, value) ∷ entries else (name, old) ∷ later

  pub lookup-insert :
      (set get : String) (value : V) (entries : List (String × V))
      → lookup get (insert set value entries)
        ≡ (if set == get then some value else lookup get entries)
  unfolding lookup insert
  lookup-insert set get value [] = refl
  lookup-insert set get value ((name, old) ∷ entries) =
      ground (
        arith,
        eq_iff set get,
        eq_iff name set,
        eq_iff name get,
        lookup-insert set get value entries,
      )

  -- A change to the object that a key maps to, made through the reference.
  unfoldable pub modify : String → (V → V) → List (String × V) → List (String × V)
  modify k f [] = []
  modify k f ((j, w) ∷ m) = if j == k then (j, f w) ∷ m else (j, w) ∷ modify k f m

  abbrev pub map_value : (V → V) → Option V → Option V
  map_value f none = none
  map_value f (some v) = some (f v)

  pub lookup-modify :
      (k j : String) (f : V → V) (m : List (String × V))
      → lookup j (modify k f m) ≡ (if k == j then map_value f (lookup j m) else lookup j m)
  unfolding lookup modify
  lookup-modify k j f [] = ground arith
  lookup-modify k j f ((i, w) ∷ m) =
      ground (arith, eq_iff k j, eq_iff i k, eq_iff i j, lookup-modify k j f m)

  pub lookup-insert_self :
      (k : String) (v : V) (m : List (String × V)) → lookup k (insert k v m) ≡ some v
  lookup-insert_self k v m = rw (lookup-insert k k v m) (ground (arith, eq_iff k k))

  pub insert-ne-none : (k : String) (v : V) (m : List (String × V)) → lookup k (insert k v m) ≢ none
  insert-ne-none k v m e = let wrong : some v ≡ none = rw (lookup-insert_self k v m) at e in cc
