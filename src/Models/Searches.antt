-- ===== src/Models/Searches.antt =====
-- `findAvailable` of packages/db/src/models/provider.js and packages/db/src/models/aggregator.js.
use infernet_protocol.Common.{
  ℕ, Bool, true, false, ◌&&◌, leb, Option, some, List, [], ◌∷◌, String, keep, if◌then◌else◌,
}
use infernet_protocol.Common.Js.{Js, undefined, null, obj, Fields, get_field}
use infernet_protocol.Control.Store.{Supabase, M, ◌>>=◌, return}
use infernet_protocol.Control.Limits.{sort_by, sort_down}
use infernet_protocol.Models.Rows.{Table, matches, find_all}

abbrev pub is_given : Js → Bool
is_given undefined = false
is_given v = true

abbrev pub is_set : Js → Bool
is_set undefined = false
is_set null = false
is_set v = true

-- A test of a row that is made only if the filter is given.
abbrev pub Tests : Type 0
Tests = List (Js × (Fields → Bool))

abbrev pub when_given : Js → (Fields → Bool) → Table → Table
when_given v test rows = if is_given v then keep test rows else rows

unfoldable pub passing : Tests → Table → Table
passing [] rows = rows
passing ((v, test) ∷ tests) rows = passing tests (when_given v test rows)

-- `row?.specs?.vram`
abbrev pub vram_of : Fields → Js
vram_of row = elim (get_field "specs" row) [ obj fs ↦ get_field "vram" fs | _ ↦ undefined ]

abbrev pub has_vram : Option ℕ → Option ℕ → Bool
has_vram (some least) (some vram) = leb least vram
has_vram _ _ = false

-- The order of a column's values and `Number`, where it is finite, are parameters.
module _ (s : Supabase Table) (order : Js → ℕ) (number : Js → Option ℕ) where
  abbrev pub rank : String → Fields → ℕ
  rank column row = order (get_field column row)

  -- `.gte(column, v)`
  abbrev pub at_least : String → Js → Fields → Bool
  at_least column v row = is_set (get_field column row) && leb (order v) (rank column row)

  -- `.lte(column, v)`
  abbrev pub at_most : String → Js → Fields → Bool
  at_most column v row = is_set (get_field column row) && leb (rank column row) (order v)

  abbrev pub query : String → Tests → Table → Table
  query second tests rows =
      sort_down (rank "reputation")
        (sort_by (rank second) (passing tests (keep (matches "status" "available") rows)))

  -- `findAvailable`: the tests of the request, and those that are made of its answer.
  unfoldable pub find_available : String → Tests → Tests → M s.Db Table
  find_available second tests later = do
    rows ← find_all s (query second tests)
    return (passing later rows)

  abbrev pub provider_tests : Fields → Tests
  provider_tests filters =
      let reputation = get_field "minReputation" filters in
      let price = get_field "maxPrice" filters in
      (reputation, at_least "reputation" reputation) ∷ (price, at_most "price" price) ∷ []

  abbrev pub vram_tests : Fields → Tests
  vram_tests filters =
      let vram = get_field "minVram" filters in
      (vram, (λ row. has_vram (number vram) (number (vram_of row)))) ∷ []

  unfoldable pub find_available_providers : Fields → M s.Db Table
  find_available_providers filters =
      find_available "price" (provider_tests filters) (vram_tests filters)

  abbrev pub aggregator_tests : Fields → Tests
  aggregator_tests filters =
      let load = get_field "maxLoad" filters in
      let reputation = get_field "minReputation" filters in
      (load, at_most "active_jobs" load) ∷ (reputation, at_least "reputation" reputation) ∷ []

  unfoldable pub find_available_aggregators : Fields → M s.Db Table
  find_available_aggregators filters = find_available "active_jobs" (aggregator_tests filters) []
