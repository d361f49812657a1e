-- ===== src/Models/Examples.antt =====
-- Tests of the models of packages/db/src/models, on a server that answers each request.
use infernet_protocol.Common.{ℕ, Option, ◌≡◌, refl, none, some, [], ◌∷◌, String, map}
use infernet_protocol.Common.Js.{Js, obj, pos, num, str, Fields, end, field, get_field}
use infernet_protocol.Engine.Protocol.{set_field, spread}
use infernet_protocol.Common.Maps.{insert, lookup}
use infernet_protocol.Control.Store.{Supabase, ok, err, ask}
use infernet_protocol.Models.Rows.{
  Table, find_all, pick_columns, insert_row, update_single, find_single,
}
use infernet_protocol.Models.Jobs.{update_status, create, find_by_job_id, pick_job_columns}
use infernet_protocol.Models.JobQueries.{get_stats, count_types, count_statuses}
use infernet_protocol.Models.Nodes.{registration, register, find_by_node_id}
use infernet_protocol.Models.Kinds.{provider_columns, client_columns, provider_kind}
use infernet_protocol.Models.Searches.{
  provider_tests, vram_tests, passing, find_available, find_available_providers,
}
use infernet_protocol.Models.Offers.{IsOffer, find_available-IsOffer}
use infernet_protocol.Control.Limits.{sort_by, sort_down, insert_by, insert_down}
use infernet_protocol.Models.Naming.{
  TakesCamel, job_names, provider_names, client_names, pick_columns-TakesCamel,
}
use infernet_protocol.Models.Lifecycle.{IsMoved, update_status-IsMoved}
use infernet_protocol.Models.Registered.{IsRegistered}
use infernet_protocol.Models.Registration.{register-IsRegistered}

never-refused : (f : Table → Table) (t : Table) (e : String) → none ≡ some e → f t ≡ t
never-refused f t e h = cc

-- A server over one table that answers each request.
abbrev table : Supabase Table
table = record {
  Db = Table;
  tables = λ (t : Table). t;
  refused = λ t. none;
  attempt = λ f t. f t;
  new_id = λ t. "new";
  carried_out = λ f t h. refl;
  kept = λ f t e h. never-refused f t e h;
}

abbrev given_job : Fields
given_job = field "paymentCoin" (str "SOL") (field "title" (str "t") end)

pick_columns-TakesCamel_example :
    TakesCamel job_names "payment_coin" "paymentCoin" given_job (pick_job_columns given_job)
    × TakesCamel provider_names "payment_coin" "paymentCoin" given_job
        (pick_columns provider_columns given_job)
    × TakesCamel client_names "payment_coin" "paymentCoin" given_job
        (pick_columns client_columns given_job)
pick_columns-TakesCamel_example =
    pick_columns-TakesCamel "payment_coin" "paymentCoin" given_job refl

-- The name of the column counts before the other name.
snake_name :
    pick_job_columns
      (field "paymentCoin" (str "SOL") (field "payment_coin" (str "BTC") (field "x" (str "y") end)))
    ≡ field "payment_coin" (str "BTC") end
unfolding pick_job_columns pick_columns
snake_name = refl

abbrev job_row : Fields
job_row = field "id" (str "j1") (field "status" (str "pending") end)

abbrev jobs : Table
jobs = job_row ∷ field "id" (str "j2") (field "status" (str "running") end) ∷ []

update_status-IsMoved_example :
    IsMoved "now" "j1" "running" jobs
      (update_status table end "now" "j1" "running" jobs).0
      (update_status table end "now" "j1" "running" jobs).1
update_status-IsMoved_example = update_status-IsMoved table end "now" "j1" "running" jobs

abbrev registered : Table
registered =
    field "id" (str "r1") (field "node_id" (str "n1") (field "reputation" (num (pos 80)) end)) ∷ []

register-IsRegistered_example :
    IsRegistered "n1" registered
      (register table (provider_kind end) "now" "p" (field "nodeId" (str "n1") end) registered).0
      (register table (provider_kind end) "now" "p" (field "nodeId" (str "n1") end) registered).1
unfolding registration pick_columns spread set_field
register-IsRegistered_example =
    register-IsRegistered table (provider_kind end) "now" "p" "n1" (field "nodeId" (str "n1") end)
      registered refl refl

-- A second registration sets the reputation back.
reputation_lost :
    map
      (get_field "reputation")
      (register table (provider_kind end) "now" "p" (field "nodeId" (str "n1") end) registered).0
    ≡ num (pos 0) ∷ []
unfolding register registration pick_columns spread set_field find_by_node_id find_single
    update_single ask
reputation_lost = refl

-- A node's id that is the row's id of another node is found, but not updated.
id_of_another :
    register table (provider_kind end) "now" "p" (field "nodeId" (str "r1") end) registered
    ≡ (registered, err 500)
unfolding register registration pick_columns spread set_field find_by_node_id find_single
    update_single ask
id_of_another = refl

started_job :
    (update_status table end "now" "j1" "running" jobs).1
    ≡ ok (
        field "id" (str "j1") (
          field "status"
            (str "running")
            (field "updated_at" (str "now") (field "assigned_at" (str "now") end))))
unfolding update_status find_by_job_id find_single update_single spread set_field ask
started_job = refl

counted_jobs :
    (get_stats table end (λ x. 0) jobs).1
    ≡ ok (record {
      total = 2;
      by_status =
          ("pending", 1)
          ∷ ("assigned", 0)
          ∷ ("assigned_to_aggregator", 0)
          ∷ ("running", 1)
          ∷ ("completed", 0)
          ∷ ("failed", 0)
          ∷ [];
      by_type = ("unknown", 2) ∷ [];
    })
unfolding get_stats count_statuses find_all count_types ask insert lookup
counted_jobs = refl

-- The offer by its other name loses to the default.
offer_lost :
    map
      (get_field "payment_offer")
      (create table end "t" (field "paymentOffer" (num (pos 5)) end) []).0
    ≡ num (pos 0) ∷ []
unfolding create insert_row pick_job_columns pick_columns spread set_field ask
offer_lost = refl

abbrev size_of : Js → ℕ
size_of (num (pos n)) = n
size_of v = 0

abbrev number_of : Js → Option ℕ
number_of (num (pos n)) = some n
number_of v = none

abbrev provider_row : String → ℕ → ℕ → ℕ → Fields
provider_row id reputation price vram = field "id" (str id) (
    field "status" (str "available") (
      field "reputation" (num (pos reputation)) (
        field "price" (num (pos price))
          (field "specs" (obj (field "vram" (num (pos vram)) end)) end))))

abbrev offered_rows : Table
offered_rows =
    provider_row "a" 10 5 24
    ∷ provider_row "b" 20 9 24
    ∷ provider_row "c" 20 3 8
    ∷ provider_row "d" 20 4 80
    ∷ []

abbrev wanted : Fields
wanted = field "maxPrice" (num (pos 5)) (field "minVram" (num (pos 16)) end)

-- The dear provider and the one with little memory are left out.
found_rows :
    (find_available_providers table size_of number_of wanted offered_rows).1
    ≡ ok (provider_row "d" 20 4 80 ∷ provider_row "a" 10 5 24 ∷ [])
unfolding find_available_providers find_available find_all passing ask sort_by sort_down insert_by
    insert_down
found_rows = refl

find_available-IsOffer_example :
    IsOffer table size_of number_of "price"
      (provider_tests table size_of number_of wanted)
      (vram_tests table size_of number_of wanted)
      offered_rows
      (find_available table size_of number_of "price"
        (provider_tests table size_of number_of wanted)
        (vram_tests table size_of number_of wanted)
        offered_rows).0
      (find_available table size_of number_of "price"
        (provider_tests table size_of number_of wanted)
        (vram_tests table size_of number_of wanted)
        offered_rows).1
find_available-IsOffer_example =
    find_available-IsOffer table size_of number_of "price"
      (provider_tests table size_of number_of wanted) (vram_tests table size_of number_of wanted)
      offered_rows
