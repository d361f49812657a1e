-- ===== src/Distributed/Registry.antt =====
-- packages/inference/src/distributed/coordinator.js: registering a worker, its status reports, and
-- the dispatch of what the workers send.
use infernet_protocol.Common.{
  ℕ, zero, suc, if◌then◌else◌, Bool, Option, none, some, List, [], ◌∷◌, ◌++◌, String, str_eq,
}
use infernet_protocol.Common.Js.{Js}
use infernet_protocol.Common.Maps.{lookup, insert, modify}
use infernet_protocol.Distributed.State.{
  Worker, Capabilities, Coordinator, registered, registration_failed, find_node, find_roles,
  set_role, add_role, refresh_role, Effect, send, ask, failure, row, World,
}
use infernet_protocol.Distributed.Jobs.{send_to_worker}
use infernet_protocol.Distributed.Settle.{process_layer_result, handle_worker_error}

-- The data of a `worker_ready` message; an address that is absent is empty.
pub record Hello : Type 0 where
  pub node_id : String
  pub address : String
  pub capabilities : Capabilities

-- The data of a `worker_status` message. A part that is absent leaves the worker's as it is.
pub record StatusReport : Type 0 where
  pub status : Option String
  pub memory : Option ℕ
  pub max_jobs : Option ℕ
  pub max_batch_size : Option ℕ
  pub has_gpu : Option Bool
  pub supported_models : Option (List String)

-- A message of a worker, by its type.
pub data Incoming : Type 0 where
  worker_ready : Hello → Incoming
  layer_result : String → Js → Bool → String → Incoming
  worker_status : StatusReport → Incoming
  worker_error : String → String → Incoming
  pulse : Incoming
  other : String → Incoming

abbrev pub or_zero : Option ℕ → ℕ
or_zero none = 0
or_zero (some n) = n

-- `capabilities.maxBatchSize || 1`
abbrev pub batch_or_one : Option ℕ → ℕ
batch_or_one none = 1
batch_or_one (some zero) = 1
batch_or_one (some (suc n)) = suc n

abbrev pub memory_of : Capabilities → ℕ
memory_of caps = or_zero caps.memory

-- What `registerWorker` asks of `node_roles`; its errors are only logged.
unfoldable pub record_role : World → Hello → List Effect
record_role w hello =
    let memory = memory_of hello.capabilities in
    let batch = batch_or_one hello.capabilities.max_batch_size in
    ask (find_roles hello.node_id) ∷ elim (w.answer 1) [
      | failure e ↦ []
      | row (some id) ↦ ask (set_role id hello.address memory batch) ∷ []
      | row none ↦ ask (add_role hello.node_id hello.address memory batch) ∷ []
    ]

abbrev pub new_worker : World → ℕ → Capabilities → Worker
new_worker w ws caps = record {
  ws = ws;
  capabilities = caps;
  status = "ready";
  last_seen = w.now;
  active_jobs = [];
}

-- `registerWorker`, with the id that the socket has from then on.
unfoldable pub register_worker :
    World → ℕ → String → Hello → Coordinator → Coordinator × List Effect × String
register_worker w ws ws_id hello c = elim (w.answer 0) [
  | failure e ↦ (c, ask (find_node hello.node_id) ∷ send ws registration_failed ∷ [], ws_id)
  | row r ↦
      let c' = record c {
        workers = insert hello.node_id (new_worker w ws hello.capabilities) c.workers;
      } in
      (
        c',
        ask (find_node hello.node_id)
            ∷ (record_role w hello ++ (send_to_worker w c' hello.node_id (registered c.node_id)).0),
        hello.node_id,
      )
]

abbrev pub override {ℓ} : {A : Type ℓ} → Option A → Option A → Option A
override none old = old
override (some a) old = some a

abbrev pub override_bool : Option Bool → Bool → Bool
override_bool none old = old
override_bool (some b) old = b

-- `statusData.status || worker.status`
abbrev pub text_or : Option String → String → String
text_or none old = old
text_or (some s) old = if str_eq s "" then old else s

abbrev pub merge : StatusReport → Capabilities → Capabilities
merge report caps = record {
  memory = override report.memory caps.memory;
  max_jobs = override report.max_jobs caps.max_jobs;
  max_batch_size = override report.max_batch_size caps.max_batch_size;
  has_gpu = override_bool report.has_gpu caps.has_gpu;
  supported_models = override report.supported_models caps.supported_models;
}

abbrev pub report_on : World → StatusReport → Worker → Worker
report_on w report worker = record worker {
  status = text_or report.status worker.status;
  last_seen = w.now;
  capabilities = merge report worker.capabilities;
}

-- `updateWorkerStatus`
unfoldable pub update_worker_status :
    World → String → StatusReport → Coordinator → Coordinator × List Effect
update_worker_status w id report c = elim (lookup id c.workers) [
  | none ↦ (c, [])
  | some worker ↦
      let caps = merge report worker.capabilities in
      (
        record c { workers = modify id (report_on w report) c.workers },
        ask (find_roles id) ∷ elim (w.answer 0) [
          | failure e ↦ []
          | row none ↦ []
          | row (some r) ↦
              ask (refresh_role r (memory_of caps) (batch_or_one caps.max_batch_size)) ∷ []
        ],
      )
]

abbrev pub see : World → Worker → Worker
see w worker = record worker { last_seen = w.now }

-- `handleWorkerMessage` on socket `ws`, which has the id `ws_id`: the state, what is sent and asked,
-- and the id that the socket has afterwards.
unfoldable pub handle_worker_message :
    World → ℕ → String → Incoming → Coordinator → Coordinator × List Effect × String
handle_worker_message w ws ws_id (worker_ready hello) c = register_worker w ws ws_id hello c
handle_worker_message w ws ws_id (layer_result worker_id result is_complete job_id) c =
    let (c', sent) = process_layer_result w worker_id result is_complete job_id c in
    (c', sent, ws_id)
handle_worker_message w ws ws_id (worker_status report) c =
    let (c', sent) = update_worker_status w ws_id report c in (c', sent, ws_id)
handle_worker_message w ws ws_id (worker_error job_id message) c =
    let (c', sent) = handle_worker_error w job_id message c in (c', sent, ws_id)
handle_worker_message w ws ws_id pulse c =
    (record c { workers = modify ws_id (see w) c.workers }, [], ws_id)
handle_worker_message w ws ws_id (other type) c = (c, [], ws_id)
