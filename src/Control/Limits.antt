-- ===== src/Control/Limits.antt =====
-- How the handlers of apps/web/lib/data read a page: the size that a caller asks for, and the order.
use infernet_protocol.Common.{
  ℕ, zero, suc, leb, min, max, if◌then◌else◌, Option, none, some, List, [], ◌∷◌,
}
use infernet_protocol.Common.Js.{ℤ, pos, negsuc}

-- `Math.min(Math.max(Number(limit) || d, 1), most)`; `none` is what is no number.
unfoldable pub clamp : ℕ → ℕ → Option ℤ → ℕ
clamp d most none = min (max d 1) most
clamp d most (some (pos zero)) = min (max d 1) most
clamp d most (some (pos (suc n))) = min (suc n) most
clamp d most (some (negsuc n)) = min 1 most

module _ {A : Type 0} (key : A → ℕ) where
  unfoldable pub insert_by : A → List A → List A
  insert_by a [] = a ∷ []
  insert_by a (b ∷ bs) =
      let rest = insert_by a bs in if leb (key a) (key b) then a ∷ b ∷ bs else b ∷ rest

  -- `order(column, { ascending: true })`
  unfoldable pub sort_by : List A → List A
  sort_by [] = []
  sort_by (a ∷ bs) = insert_by a (sort_by bs)

  unfoldable pub insert_down : A → List A → List A
  insert_down a [] = a ∷ []
  insert_down a (b ∷ bs) =
      let rest = insert_down a bs in if leb (key b) (key a) then a ∷ b ∷ bs else b ∷ rest

  -- `order(column, { ascending: false })`
  unfoldable pub sort_down : List A → List A
  sort_down [] = []
  sort_down (a ∷ bs) = insert_down a (sort_down bs)
