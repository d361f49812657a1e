-- ===== src/Auth/Places.antt =====
-- The order of the entries in the map of the replay cache: how inserting and deleting move a key.
use infernet_protocol.Common.{
  ℕ, suc, ◌+◌, ◌≤◌, ◌≡◌, ◌≢◌, none, some, List, [], ◌∷◌, String, str_eq, eq_iff, arith,
  if◌then◌else◌, length, All,
}
use infernet_protocol.Common.Maps.{lookup, insert, delete}

module _ {ℓ} {V : Type ℓ} where
  -- How many entries stand in front of a key.
  abbrev pub place : String → List (String × V) → ℕ
  place n [] = 0
  place n ((k, v) ∷ m) = let rest = place n m in if str_eq k n then 0 else suc rest

  pub length-insert-le :
      (k : String) (v : V) (m : List (String × V)) → length (insert k v m) ≤ length m + 1
  unfolding insert
  length-insert-le k v [] = omega arith
  length-insert-le k v ((j, w) ∷ m) = ground (arith, length-insert-le k v m)

  pub place-insert :
      (n k : String) (v : V) (m : List (String × V)) (e : V)
      → k ≢ n
      → lookup n m ≡ some e
      → place n (insert k v m) ≡ place n m
  unfolding insert lookup
  place-insert n k v [] e d h = ground arith
  place-insert n k v ((j, w) ∷ m) e d h =
      ground (arith, eq_iff j k, eq_iff j n, eq_iff k n, place-insert n k v m e d)

  pub insert_new :
      (n : String) (v : V) (m : List (String × V))
      → lookup n m ≡ none
      → (place n (insert n v m) ≡ length m) × (length (insert n v m) ≡ length m + 1)
  unfolding insert lookup
  insert_new n v [] h = ground (arith, eq_iff n n)
  insert_new n v ((j, w) ∷ m) h = ground (arith, eq_iff j n, insert_new n v m)

  pub length-delete-le : (k : String) (m : List (String × V)) → length (delete k m) ≤ length m
  unfolding delete
  length-delete-le k [] = omega arith
  length-delete-le k ((j, w) ∷ m) = ground (arith, length-delete-le k m)

  pub place-delete :
      (n k : String) (m : List (String × V))
      → k ≢ n
      → place n m + length (delete k m) ≤ place n (delete k m) + length m
  unfolding delete
  place-delete n k [] d = omega arith
  place-delete n k ((j, w) ∷ m) d =
      ground (arith, eq_iff j k, eq_iff j n, eq_iff k n, place-delete n k m d, length-delete-le k m)

module _ {ℓ κ} {V : Type ℓ} (P : String × V → Type κ) where
  pub All-insert :
      (k : String) (v : V) (m : List (String × V)) → All P m → P (k, v) → All P (insert k v m)
  unfolding insert
  All-insert k v [] h p = (p, tt)
  All-insert k v ((j, w) ∷ m) h p = ground (arith, All-insert k v m h.1 p)

  pub All-delete : (k : String) (m : List (String × V)) → All P m → All P (delete k m)
  unfolding delete
  All-delete k [] h = tt
  All-delete k ((j, w) ∷ m) h = ground (arith, All-delete k m h.1)
