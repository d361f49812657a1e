-- ===== src/Control/Sorted.antt =====
-- The orders of the requests: what `order` gives is sorted, and has the rows that were there.
use infernet_protocol.Common.{
  ℕ, suc, ◌≤◌, ◌≡◌, refl, Bool, List, [], ◌∷◌, length, keep, All, leb, if_rule, arith, Bool-cases,
  inl, inr,
}
use infernet_protocol.Control.Limits.{insert_by, sort_by, insert_down, sort_down}

-- In the order of the key.
abbrev pub IsLeast : {A : Type 0} → (A → ℕ) → ℕ → List A → Type 0
IsLeast key n xs = All (λ x. n ≤ key x) xs

abbrev pub IsSorted : {A : Type 0} → (A → ℕ) → List A → Type 0
IsSorted key [] = Unit
IsSorted key (x ∷ xs) = IsLeast key (key x) xs × IsSorted key xs

module _ {A : Type 0} (key : A → ℕ) where
  insert_by-All :
      (P : A → Type 0) (a : A) (xs : List A) → P a → All P xs → All P (insert_by key a xs)
  unfolding insert_by
  insert_by-All P a [] p h = (p, tt)
  insert_by-All P a (x ∷ xs) p (q, h) =
      if_rule (λ l. All P l) (leb (key a) (key x)) _ _ (p, (q, h)) (q, insert_by-All P a xs p h)

  pub sort_by-All : (P : A → Type 0) (xs : List A) → All P xs → All P (sort_by key xs)
  unfolding sort_by
  sort_by-All P [] h = tt
  sort_by-All P (x ∷ xs) (p, h) = insert_by-All P x _ p (sort_by-All P xs h)

  IsLeast-le : (m n : ℕ) (xs : List A) → m ≤ n → IsLeast key n xs → IsLeast key m xs
  IsLeast-le m n [] l h = tt
  IsLeast-le m n (x ∷ xs) l (h, hs) = (omega arith, IsLeast-le m n xs l hs)

  insert_by-IsSorted : (a : A) (xs : List A) → IsSorted key xs → IsSorted key (insert_by key a xs)
  unfolding insert_by
  insert_by-IsSorted a [] h = (tt, tt)
  insert_by-IsSorted a (x ∷ xs) (l, h) = elim (Bool-cases (leb (key a) (key x))) [
    | inl e ↦
        let le : key a ≤ key x = ground arith in
        rw e ((le, IsLeast-le (key a) (key x) xs le l), (l, h))
    | inr e ↦
        let le : key x ≤ key a = ground arith in
        rw e (insert_by-All (λ y. key x ≤ key y) a xs le l, insert_by-IsSorted a xs h)
  ]

  pub sort_by-IsSorted : (xs : List A) → IsSorted key (sort_by key xs)
  unfolding sort_by
  sort_by-IsSorted [] = tt
  sort_by-IsSorted (x ∷ xs) = insert_by-IsSorted x _ (sort_by-IsSorted xs)

  insert_by-count :
      (q : A → Bool) (a : A) (xs : List A)
      → length (keep q (insert_by key a xs)) ≡ length (keep q (a ∷ xs))
  unfolding insert_by
  insert_by-count q a [] = refl
  insert_by-count q a (x ∷ xs) = ground (arith, insert_by-count q a xs)

  pub sort_by-count :
      (q : A → Bool) (xs : List A) → length (keep q (sort_by key xs)) ≡ length (keep q xs)
  unfolding sort_by
  sort_by-count q [] = refl
  sort_by-count q (x ∷ xs) =
      ground (arith, insert_by-count q x (sort_by key xs), sort_by-count q xs)

  insert_down-count :
      (q : A → Bool) (a : A) (xs : List A)
      → length (keep q (insert_down key a xs)) ≡ length (keep q (a ∷ xs))
  unfolding insert_down
  insert_down-count q a [] = refl
  insert_down-count q a (x ∷ xs) = ground (arith, insert_down-count q a xs)

  pub sort_down-count :
      (q : A → Bool) (xs : List A) → length (keep q (sort_down key xs)) ≡ length (keep q xs)
  unfolding sort_down
  sort_down-count q [] = refl
  sort_down-count q (x ∷ xs) =
      ground (arith, insert_down-count q x (sort_down key xs), sort_down-count q xs)

  insert_down-All :
      (P : A → Type 0) (a : A) (xs : List A) → P a → All P xs → All P (insert_down key a xs)
  unfolding insert_down
  insert_down-All P a [] p h = (p, tt)
  insert_down-All P a (x ∷ xs) p (q, h) =
      if_rule (λ l. All P l) (leb (key x) (key a)) _ _ (p, (q, h)) (q, insert_down-All P a xs p h)

  sort_down-All : (P : A → Type 0) (xs : List A) → All P xs → All P (sort_down key xs)
  unfolding sort_down
  sort_down-All P [] h = tt
  sort_down-All P (x ∷ xs) (p, h) = insert_down-All P x _ p (sort_down-All P xs h)

-- First by one key, the greatest first, and where it is the same by another, the least first.
abbrev pub Before : {A : Type 0} → (A → ℕ) → (A → ℕ) → A → A → Type 0
Before first second a b = (first b ≤ first a) × (first b ≡ first a → second a ≤ second b)

abbrev pub IsRanked : {A : Type 0} → (A → ℕ) → (A → ℕ) → List A → Type 0
IsRanked first second [] = Unit
IsRanked first second (x ∷ xs) = All (Before first second x) xs × IsRanked first second xs

module _ {A : Type 0} (first second : A → ℕ) where
  Before-front :
      (a x : A) (xs : List A)
      → first x ≤ first a
      → All (Before first second x) xs
      → All (λ y. second a ≤ second y) xs
      → All (Before first second a) xs
  Before-front a x [] le h least = tt
  Before-front a x (y ∷ ys) le ((p, q), h) (l, least) =
      ((omega arith, (λ e. l)), Before-front a x ys le h least)

  insert_down-IsRanked :
      (a : A) (xs : List A)
      → All (λ y. second a ≤ second y) xs
      → IsRanked first second xs
      → IsRanked first second (insert_down first a xs)
  unfolding insert_down
  insert_down-IsRanked a [] least h = (tt, tt)
  insert_down-IsRanked a (x ∷ xs) (l, least) (before, h) =
      elim (Bool-cases (leb (first x) (first a))) [
        | inl e ↦
            let le : first x ≤ first a = ground arith in
            rw e (((le, (λ s. l)), Before-front a x xs le before least), (before, h))
        | inr e ↦
            let lt : suc (first a) ≤ first x = ground arith in
            rw e (
              insert_down-All first (Before first second x) a xs (omega arith, (λ s. omega arith))
                  before,
              insert_down-IsRanked a xs least h,
            )
      ]

  -- Sorting twice is stable: the second order decides where the first does not.
  pub sort_down-IsRanked :
      (xs : List A) → IsSorted second xs → IsRanked first second (sort_down first xs)
  unfolding sort_down
  sort_down-IsRanked [] h = tt
  sort_down-IsRanked (x ∷ xs) (l, h) =
      insert_down-IsRanked x (sort_down first xs)
        (sort_down-All first (λ y. second x ≤ second y) xs l) (sort_down-IsRanked xs h)
