-- ===== src/Models/Offers.antt =====
-- What `findAvailable` of packages/db/src/models answers.
use infernet_protocol.Common.{
  ℕ, ◌≡◌, refl, ap, ◌∙◌, inl, inr, Bool, true, not, ◌&&◌, ◌||◌, Bool-cases, Option, [], ◌∷◌, String,
  keep, length, All, arith,
}
use infernet_protocol.Common.Js.{Js, Fields}
use infernet_protocol.Control.Store.{
  Supabase, reply, Result, ok, err, and_then, return, unwrap, ask_rule,
}
use infernet_protocol.Control.Sorted.{
  IsRanked, Before, sort_by-count, sort_down-count, sort_by-IsSorted, sort_down-IsRanked,
}
use infernet_protocol.Models.Rows.{Table, matches, find_all}
use infernet_protocol.Models.Searches.{
  is_given, Tests, when_given, passing, rank, query, find_available,
}

-- Whether a row passes each test whose filter is given.
abbrev pub passes : Tests → Fields → Bool
passes [] row = true
passes ((v, test) ∷ tests) row = passes tests row && (not (is_given v) || test row)

keep-keep :
    (q p : Fields → Bool) (rows : Table)
    → length (keep q (keep p rows)) ≡ length (keep (λ r. q r && p r) rows)
keep-keep q p [] = refl
keep-keep q p (x ∷ xs) = ground (arith, keep-keep q p xs)

keep_same :
    (q p : Fields → Bool) (rows : Table) → ((r : Fields) → q r ≡ p r) → keep q rows ≡ keep p rows
keep_same q p [] h = refl
keep_same q p (x ∷ xs) h = rw (h x, keep_same q p xs h) refl

when_given-count :
    (q : Fields → Bool) (v : Js) (test : Fields → Bool) (rows : Table)
    → length (keep q (when_given v test rows))
      ≡ length (keep (λ r. q r && (not (is_given v) || test r)) rows)
when_given-count q v test rows = elim (Bool-cases (is_given v)) [
  | inl e ↦ rw e (keep-keep q test rows)
  | inr e ↦ rw e (ap length (keep_same q (λ r. q r && true) rows (λ r. ground arith)))
]

assoc : (a b c : Bool) → ((a && b) && c) ≡ (a && (b && c))
assoc a b c = ground arith

passing-count :
    (q : Fields → Bool) (tests : Tests) (rows : Table)
    → length (keep q (passing tests rows)) ≡ length (keep (λ r. q r && passes tests r) rows)
unfolding passing
passing-count q [] rows = ap length (keep_same q (λ r. q r && true) rows (λ r. ground arith))
passing-count q ((v, test) ∷ tests) rows =
    passing-count q tests (when_given v test rows)
    ∙ when_given-count (λ r. q r && passes tests r) v test rows
    ∙ ap length (keep_same _ _ rows (λ r. assoc (q r) (passes tests r) _))

keep-All :
    (P : Fields → Type 0) (q : Fields → Bool) (rows : Table) → All P rows → All P (keep q rows)
keep-All P q [] h = tt
keep-All P q (x ∷ xs) (p, h) = elim (Bool-cases (q x)) [
  | inl e ↦ rw e (p, keep-All P q xs h)
  | inr e ↦ rw e (keep-All P q xs h)
]

module _ (first second : Fields → ℕ) where
  keep-IsRanked :
      (q : Fields → Bool) (rows : Table)
      → IsRanked first second rows
      → IsRanked first second (keep q rows)
  keep-IsRanked q [] h = tt
  keep-IsRanked q (x ∷ xs) (before, h) = elim (Bool-cases (q x)) [
    | inl e ↦ rw e (keep-All (Before first second x) q xs before, keep-IsRanked q xs h)
    | inr e ↦ rw e (keep-IsRanked q xs h)
  ]

  passing-IsRanked :
      (tests : Tests) (rows : Table)
      → IsRanked first second rows
      → IsRanked first second (passing tests rows)
  unfolding passing
  passing-IsRanked [] rows h = h
  passing-IsRanked ((v, test) ∷ tests) rows h =
      passing-IsRanked tests (when_given v test rows) (elim (Bool-cases (is_given v)) [
        | inl e ↦ rw e (keep-IsRanked test rows h)
        | inr e ↦ rw e h
      ])

-- Whether a row is available and passes the tests that are asked for.
abbrev pub qualifies : Tests → Tests → Fields → Bool
qualifies tests later row = passes later row && passes tests row && matches "status" "available" row

module _ (s : Supabase Table) (order : Js → ℕ) (number : Js → Option ℕ) where
  -- The rows that qualify, each as often as it is there, in the order of the search.
  abbrev pub IsOffer : String → Tests → Tests → Table → Table → Result Table → Type 0
  IsOffer second tests later before after (ok rows) =
      (after ≡ before)
      × IsRanked (rank s order number "reputation") (rank s order number second) rows
      × ((q : Fields → Bool)
          → length (keep q rows) ≡ length (keep (λ r. q r && qualifies tests later r) before))
  IsOffer second tests later before after (err e) = after ≡ before

  offered :
      (second : String) (tests later : Tests) (rows : Table) (q : Fields → Bool)
      → length (keep q (passing later (query s order number second tests rows)))
        ≡ length (keep (λ r. q r && qualifies tests later r) rows)
  offered second tests later rows q =
      passing-count q later (query s order number second tests rows)
      ∙ sort_down-count (rank s order number "reputation") q1 _
      ∙ sort_by-count (rank s order number second) q1 _
      ∙ passing-count q1 tests (keep (matches "status" "available") rows)
      ∙ keep-keep (λ r. q1 r && passes tests r) (matches "status" "available") rows
      ∙ ap length (keep_same _ _ rows (λ r. regroup (q r) (passes later r) (passes tests r) _))
    where
      q1 : Fields → Bool
      q1 r = q r && passes later r

      regroup : (a b c d : Bool) → (((a && b) && c) && d) ≡ (a && (b && c && d))
      regroup a b c d = ground arith

  -- A search for available nodes changes nothing. Unless it fails, it gives exactly the rows that are
  -- available and pass each test whose filter is given, each as often as it is there, ordered by
  -- reputation, the greatest first, and among the same reputations by the second column, the least first.
  pub find_available-IsOffer :
      (second : String) (tests later : Tests) (db : s.Db)
      → IsOffer second tests later
          (s.tables db)
          (s.tables (find_available s order number second tests later db).0)
          (find_available s order number second tests later db).1
  unfolding find_available find_all
  find_available-IsOffer second tests later db =
      ask_rule s
        (λ (p : s.Db × Result Table).
          IsOffer second tests later (s.tables db)
            (s.tables (and_then (λ rows. return (passing later rows)) p).0)
            (and_then (λ rows. return (passing later rows)) p).1)
        (λ rows. rows) (λ rows. reply (query s order number second tests rows)) unwrap db
        (λ db' e kept. kept)
        (λ db' done. (
          done,
          passing-IsRanked (rank s order number "reputation") (rank s order number second) later _ (
              sort_down-IsRanked (rank s order number "reputation") (rank s order number second) _
                (sort_by-IsSorted (rank s order number second) _)),
          offered second tests later (s.tables db),
        ))
