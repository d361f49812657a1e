-- ===== src/Models/Connection.antt =====
-- packages/db/src/index.js: the connection that the models share; packages/db/src/utils.js: the counts.
use infernet_protocol.Common.{
  ℕ, Bool, true, false, ◌||◌, Option, none, some, List, [], ◌∷◌, String, str_eq, keep, length,
  if◌then◌else◌,
}
use infernet_protocol.Common.Js.{Fields}
use infernet_protocol.Control.Store.{Supabase, Reply, reply, fault, M, ◌>>=◌, return, throw, ask}
use infernet_protocol.Models.Rows.{Table, matches}

-- The variables SUPABASE_URL, SUPABASE_SERVICE_ROLE_KEY and SUPABASE_SCHEMA.
pub record Environment : Type 0 where
  pub supabase_url : Option String
  pub service_role_key : Option String
  pub supabase_schema : Option String

-- What `createClient` is called with.
pub record ClientOptions : Type 0 where
  pub url : String
  pub key : String
  pub schema : String

pub record Database : Type 0 where
  pub supabase : Option ClientOptions
  pub is_connected : Bool
  pub models : List String

pub data Failure : Type 0 where
  no_key : Failure
  probe_failed : String → Failure

-- `a || b`
abbrev pub or_text : Option String → String → String
or_text none b = b
or_text (some a) b = if str_eq a "" then b else a

abbrev pub no_connection : Database
no_connection = record { supabase = none; is_connected = false; models = [] }

abbrev pub model_names : List String
model_names = "provider" ∷ "client" ∷ "job" ∷ "aggregator" ∷ []

-- The request to the table `nodes`; its error.
abbrev pub probed : Option String → Database → Database × Option Failure
probed (some e) d = (d, some (probe_failed e))
probed none d = (record d { is_connected = true; models = model_names }, none)

abbrev pub connect_with :
    (ClientOptions → Option String)
    → String
    → String
    → String
    → Database
    → Database × Option Failure
connect_with probe url key schema d =
    let options : ClientOptions = record { url = url; key = key; schema = schema } in
    let opened : Database = record d { supabase = some options } in
    if str_eq key "" then (d, some no_key) else probed (probe options) opened

-- `connect`; the address has a default, so its first test never fails.
unfoldable pub connect :
    (ClientOptions → Option String)
    → Environment
    → Option String
    → Database
    → Database × Option Failure
connect probe env url d =
    connect_with probe (or_text url (or_text env.supabase_url "http://127.0.0.1:54321"))
      (or_text env.service_role_key "") (or_text env.supabase_schema "public") d

-- `getInstance`; `none` is the exception.
unfoldable pub get_instance : Database → Option ClientOptions
get_instance d = if d.is_connected then d.supabase else none

abbrev pub is_among : String → List String → Bool
is_among x [] = false
is_among x (y ∷ ys) = str_eq x y || is_among x ys

-- `model`
unfoldable pub model_of : String → Database → Option String
model_of name d = if is_among name d.models then some name else none

-- `disconnect`; an error of the client is only logged.
unfoldable pub disconnect : Database → Database
disconnect d = no_connection

abbrev pub stat_tables : List String
stat_tables = "nodes" ∷ "providers" ∷ "clients" ∷ "aggregators" ∷ "jobs" ∷ "models" ∷ []

-- The counts, over tables that have names; the first argument is whether `getInstance` answers.
module _ (s : Supabase (String → Table)) where
  abbrev pub count_request : String → (Fields → Bool) → M s.Db (Reply ℕ)
  count_request table test = ask s (λ t. t) (λ t. reply (length (keep test (t table))))

  -- A count, or 0 where it fails.
  abbrev pub count_or_zero : Bool → String → (Fields → Bool) → M s.Db ℕ
  count_or_zero is_up table test =
      if is_up
      then (count_request table test >>= λ r. elim r [ reply n ↦ return n | fault e ↦ return 0 ])
      else return 0

  -- `healthCheck`
  unfoldable pub health_check : Bool → M s.Db Bool
  health_check is_up =
      if is_up
      then (count_request "nodes" (λ row. true) >>= λ r. elim r [
        | reply n ↦ return true
        | fault e ↦ return false
      ])
      else return false

  unfoldable pub count_tables : List String → M s.Db (List (String × ℕ))
  count_tables [] = return []
  count_tables (table ∷ tables) = do
    n ← count_or_zero true table (λ row. true)
    counts ← count_tables tables
    return ((table, n) ∷ counts)

  -- `getStats` of the tables
  unfoldable pub get_table_stats : Bool → M s.Db (List (String × ℕ))
  get_table_stats is_up = if is_up then count_tables stat_tables else throw 500

  -- `getCollectionCount`
  unfoldable pub get_collection_count : Bool → String → M s.Db ℕ
  get_collection_count is_up table = count_or_zero is_up table (λ row. true)

  -- `getActiveProviderCount`
  unfoldable pub get_active_provider_count : Bool → M s.Db ℕ
  get_active_provider_count is_up = count_or_zero is_up "providers" (matches "status" "available")

  -- `getActiveAggregatorCount`
  unfoldable pub get_active_aggregator_count : Bool → M s.Db ℕ
  get_active_aggregator_count is_up =
      count_or_zero is_up "aggregators" (matches "status" "available")

  -- `getJobCountByStatus`
  unfoldable pub get_job_count_by_status : Bool → String → M s.Db ℕ
  get_job_count_by_status is_up status = count_or_zero is_up "jobs" (matches "status" status)
