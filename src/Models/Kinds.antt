-- ===== src/Models/Kinds.antt =====
-- packages/db/src/models/provider.js, packages/db/src/models/aggregator.js and
-- packages/db/src/models/client.js: the columns and the defaults of each model.
use infernet_protocol.Common.{[], ◌∷◌}
use infernet_protocol.Common.Js.{pos, num, str, obj, Fields, end, field}
use infernet_protocol.Models.Rows.{Columns}
use infernet_protocol.Models.Nodes.{Kind}

abbrev pub provider_columns : Columns
provider_columns =
    ("name", [])
    ∷ ("status", [])
    ∷ ("gpu_model", "gpuModel" ∷ [])
    ∷ ("price", [])
    ∷ ("reputation", [])
    ∷ ("node_id", "nodeId" ∷ [])
    ∷ ("public_key", "publicKey" ∷ [])
    ∷ ("address", [])
    ∷ ("port", [])
    ∷ ("specs", [])
    ∷ ("last_seen", "lastSeen" ∷ [])
    ∷ []

abbrev pub provider_kind : Fields → Kind
provider_kind column_defaults = record {
  columns = provider_columns;
  defaults = field "status" (str "available") (
      field "reputation" (num (pos 0)) (field "price" (num (pos 0)) (field "specs" (obj end) end)));
  column_defaults = column_defaults;
}

abbrev pub aggregator_columns : Columns
aggregator_columns =
    ("name", [])
    ∷ ("status", [])
    ∷ ("active_jobs", "activeJobs" ∷ "load" ∷ [])
    ∷ ("node_id", "nodeId" ∷ [])
    ∷ ("public_key", "publicKey" ∷ [])
    ∷ ("address", [])
    ∷ ("port", [])
    ∷ ("reputation", [])
    ∷ ("last_seen", "lastSeen" ∷ [])
    ∷ []

abbrev pub aggregator_kind : Fields → Kind
aggregator_kind column_defaults = record {
  columns = aggregator_columns;
  defaults =
      field "status" (str "available")
        (field "active_jobs" (num (pos 0)) (field "reputation" (num (pos 50)) end));
  column_defaults = column_defaults;
}

abbrev pub client_columns : Columns
client_columns =
    ("name", [])
    ∷ ("status", [])
    ∷ ("budget_usd", "budgetUsd" ∷ [])
    ∷ ("node_id", "nodeId" ∷ [])
    ∷ ("public_key", "publicKey" ∷ [])
    ∷ ("address", [])
    ∷ ("last_seen", "lastSeen" ∷ [])
    ∷ []

abbrev pub client_kind : Fields → Kind
client_kind column_defaults = record {
  columns = client_columns;
  defaults = field "status" (str "active") (field "budget_usd" (num (pos 0)) end);
  column_defaults = column_defaults;
}
