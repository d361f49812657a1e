-- ===== src/Models/ConnectionExamples.antt =====
-- Tests of the connection of packages/db/src/index.js and of the counts of packages/db/src/utils.js.
use infernet_protocol.Common.{
  ◌≡◌, refl, true, Option, none, some, [], ◌∷◌, String, str_eq, if◌then◌else◌,
}
use infernet_protocol.Common.Js.{str, end, field}
use infernet_protocol.Control.Store.{Supabase, ok, ask}
use infernet_protocol.Models.Rows.{Table}
use infernet_protocol.Models.Connection.{
  Environment, ClientOptions, no_connection, connect, get_instance, model_of,
  get_active_provider_count, get_job_count_by_status,
}

abbrev environment : Environment
environment = record { supabase_url = some ""; service_role_key = some "k"; supabase_schema = none }

abbrev default_options : ClientOptions
default_options = record { url = "http://127.0.0.1:54321"; key = "k"; schema = "public" }

-- An address that is empty counts as none.
default_url :
    get_instance (connect (λ c. none) environment none no_connection).0 ≡ some default_options
unfolding connect get_instance
default_url = refl

abbrev remote_fails : ClientOptions → Option String
remote_fails c = if str_eq c.url "http://other" then some "no" else none

-- A second connection that fails its probe replaces the client of the first one all the same.
failed_replaces :
    get_instance
      (connect remote_fails environment
        (some "http://other")
        (connect remote_fails environment none no_connection).0).0
    ≡ some (record { url = "http://other"; key = "k"; schema = "public" })
unfolding connect get_instance
failed_replaces = refl

no_model : model_of "job" no_connection ≡ none
unfolding model_of
no_model = refl

never-refused :
    (f : (String → Table) → (String → Table)) (t : String → Table) (e : String)
    → none ≡ some e
    → f t ≡ t
never-refused f t e h = cc

-- A server over tables that have names.
abbrev named_tables : Supabase (String → Table)
named_tables = record {
  Db = String → Table;
  tables = λ (t : String → Table). t;
  refused = λ t. none;
  attempt = λ f t. f t;
  new_id = λ t. "new";
  carried_out = λ f t h. refl;
  kept = λ f t e h. never-refused f t e h;
}

abbrev providers_only : String → Table
providers_only name =
    if str_eq name "providers" then field "status" (str "available") end ∷ [] else []

one_provider : (get_active_provider_count named_tables true providers_only).1 ≡ ok 1
unfolding get_active_provider_count ask
one_provider = refl

no_job : (get_job_count_by_status named_tables true "failed" providers_only).1 ≡ ok 0
unfolding get_job_count_by_status ask
no_job = refl
