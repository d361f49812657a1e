-- ===== src/Models/JobQueries.antt =====
-- packages/db/src/models/job.js: the queries.
use infernet_protocol.Common.{
  ℕ, suc, Bool, true, false, Option, none, some, List, [], ◌∷◌, String, str_eq, keep, length,
  if◌then◌else◌,
}
use infernet_protocol.Common.Js.{Js, str, Fields, get_field}
use infernet_protocol.Common.Maps.{lookup, insert}
use infernet_protocol.Control.Store.{Supabase, M, ◌>>=◌, return}
use infernet_protocol.Control.Commands.{is_found}
use infernet_protocol.Control.Limits.{sort_by, sort_down}
use infernet_protocol.Models.Rows.{Table, matches, find_all, delete_where}
use infernet_protocol.Models.Jobs.{find_by_job_id}

-- `if (filters.key !== undefined) query = query.eq(column, filters.key)`, on texts.
abbrev pub where_given : String → Option String → Table → Table
where_given column none rows = rows
where_given column (some v) rows = keep (matches column v) rows

abbrev pub job_statuses : List String
job_statuses =
    "pending" ∷ "assigned" ∷ "assigned_to_aggregator" ∷ "running" ∷ "completed" ∷ "failed" ∷ []

-- `row.type || 'unknown'`, of a type that is a text.
abbrev pub type_of : Fields → String
type_of row = elim (get_field "type" row) [
  | str t ↦ if str_eq t "" then "unknown" else t
  | _ ↦ "unknown"
]

abbrev pub count_of : Option ℕ → ℕ
count_of none = 0
count_of (some n) = n

unfoldable pub count_types : Table → List (String × ℕ) → List (String × ℕ)
count_types [] counts = counts
count_types (row ∷ rows) counts =
    count_types rows (insert (type_of row) (suc (count_of (lookup (type_of row) counts))) counts)

pub record JobStats : Type 0 where
  pub total : ℕ
  pub by_status : List (String × ℕ)
  pub by_type : List (String × ℕ)

-- The order of times is a parameter.
module _ (s : Supabase Table) (columns : Fields) (time : Js → ℕ) where
  abbrev pub created_at : Fields → ℕ
  created_at row = time (get_field "created_at" row)

  -- `findPending`; the name counts only if it is not empty.
  unfoldable pub find_pending : Option String → Option String → Option String → M s.Db Table
  find_pending job_type client_id client_name = find_all s (λ rows. sort_by created_at (
      where_given "client_name" client_name (
        where_given "client_id" client_id
          (where_given "type" job_type (keep (matches "status" "pending") rows)))))

  -- `findByProvider`, `findByAggregator` and `findByClient`, by the column.
  abbrev pub find_by : String → String → Option String → Option String → M s.Db Table
  find_by column id status job_type = find_all s (λ rows.
      sort_down created_at
        (where_given "type" job_type (where_given "status" status (keep (matches column id) rows))))

  unfoldable pub find_by_provider : String → Option String → Option String → M s.Db Table
  find_by_provider id status job_type = find_by "provider_id" id status job_type

  unfoldable pub find_by_aggregator : String → Option String → Option String → M s.Db Table
  find_by_aggregator id status job_type = find_by "aggregator_id" id status job_type

  unfoldable pub find_by_client : String → Option String → Option String → M s.Db Table
  find_by_client id status job_type = find_by "client_id" id status job_type

  -- `delete`
  unfoldable pub delete_job : String → M s.Db Bool
  delete_job job_id = do
    existing ← find_by_job_id s columns job_id
    if is_found existing then (delete_where s "id" job_id >>= λ w. return true) else return false

  -- `getAll`
  unfoldable pub get_all : M s.Db Table
  get_all = find_all s (λ rows. rows)

  abbrev pub count_where : String → M s.Db ℕ
  count_where status = do rows ← find_all s (keep (matches "status" status)); return (length rows)

  unfoldable pub count_statuses : List String → M s.Db (List (String × ℕ))
  count_statuses [] = return []
  count_statuses (status ∷ statuses) = do
    n ← count_where status
    counts ← count_statuses statuses
    return ((status, n) ∷ counts)

  -- `getStats`
  unfoldable pub get_stats : M s.Db JobStats
  get_stats = do
    by_status ← count_statuses job_statuses
    rows ← find_all s (λ rows. rows)
    all_rows ← find_all s (λ rows. rows)
    return
        (record { total = length all_rows; by_status = by_status; by_type = count_types rows [] })
