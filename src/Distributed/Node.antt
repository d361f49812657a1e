-- ===== src/Distributed/Node.antt =====
-- packages/inference/src/distributed/worker.js: a worker of the coordinator. A model and a job are
-- objects that a step that waits still holds: they are places in lists. The waits of
-- `initializeModel` and `processInput` end a step. The socket's events and the timers are steps.

use infernet_protocol.Common.{
  ℕ, Bool, true, false, not, ◌&&◌, Option, none, some, List, [], ◌∷◌, ◌++◌, String, str_eq,
  if◌then◌else◌,
}
use infernet_protocol.Common.Js.{
  pos, Js, undefined, null, bool, num, str, arr, obj, nil, cons, Fields, end, field, member,
  get_field, truthy,
}
use infernet_protocol.Distributed.Wire.{create_message}

pub record Model : Type 0 where
  pub model_id : Js
  pub model_part : Js
  pub start_layer : Js
  pub end_layer : Js
  pub stage : Js
  pub next_worker_id : Js
  pub prev_worker_id : Js
  pub load_time : ℕ

pub record ActiveJob : Type 0 where
  pub status : String
  pub start_time : ℕ

pub record InferenceWorker : Type 0 where
  pub coordinator_url : Option String
  pub node_id : Option String
  pub config : Js
  pub coordinator_id : Js
  pub has_socket : Bool
  pub connected : Bool
  pub reconnecting : Bool
  pub beating : Bool
  pub models : List (String × ℕ)
  pub active_jobs : List (String × ℕ)
  pub loaded : List Model
  pub jobs : List ActiveJob

-- The constructor.
unfoldable pub new : Option String → Option String → Js → InferenceWorker
new url id settings = record {
  coordinator_url = url;
  node_id = id;
  config = settings;
  coordinator_id = undefined;
  has_socket = false;
  connected = false;
  reconnecting = false;
  beating = false;
  models = [];
  active_jobs = [];
  loaded = [];
  jobs = [];
}

-- What a step meets: the time, whether the socket is open, and whether `ws.send` throws, with the
-- message of the exception.
pub record Moment : Type 0 where
  pub now : ℕ
  pub is_open : Bool
  pub send_error : Option String

pub data Act : Type 0 where
  connects : Act
  resolves : Act
  rejects : String → Act
  sends : Js → Act
  closes : Act

-- `connect()` up to its events; a text that is empty is false.
abbrev pub given : Option String → Bool
given none = false
given (some s) = not (str_eq s "")

unfoldable pub connect : InferenceWorker → InferenceWorker × List Act
connect w =
    if not (given w.coordinator_url)
    then (w, rejects "Coordinator URL is required" ∷ [])
    else if not (given w.node_id)
    then (w, rejects "Node ID is required" ∷ [])
    else (record w { has_socket = true }, connects ∷ [])

abbrev pub node_text : Option String → Js
node_text none = null
node_text (some s) = str s

-- `value || fallback`
abbrev or_default_value : Js → Js → Js
or_default_value v d = if truthy v then v else d

-- `getCapabilities()`; the rest of the configuration is a value.
unfoldable pub get_capabilities : InferenceWorker → Js
get_capabilities w =
    let read = λ (key : String) (d : Js). or_default_value (member w.config key) d in
    obj (
      field "memory" (read "memory" (num (pos 8192))) (
        field "hasGPU" (read "hasGPU" (bool false)) (
          field "maxBatchSize" (read "maxBatchSize" (num (pos 1))) (
            field "maxJobs" (read "maxJobs" (num (pos 2))) (
              field "supportedModels"
                (read "supportedModels" (arr (cons (str "llama-7b") (cons (str "llama-13b") nil))))
                (field "supportedTasks"
                  (read "supportedTasks"
                    (arr (cons (str "text-generation") (cons (str "embeddings") nil))))
                  end))))))

abbrev or_null : Js → Js
or_null v = if truthy v then v else null

module _ (m : Moment) where
  -- A message that is only sent on an open connection.
  abbrev pub send_if_open : InferenceWorker → Js → List Act
  send_if_open w msg = if w.connected && m.is_open then sends msg ∷ [] else []

  -- `sendStatusUpdate(statusData)`
  unfoldable pub send_status_update : InferenceWorker → Fields → List Act
  send_status_update w report =
      send_if_open w
        (create_message "worker_status" (obj report) (or_null (get_field "jobId" report)) m.now)

  -- `sendError`; the data's job id is the message's.
  unfoldable pub send_error_report : InferenceWorker → String → String → String → List Act
  send_error_report w error why job_id = send_if_open w (
      create_message "worker_error"
        (obj
          (field "error" (str error) (field "message" (str why) (field "jobId" (str job_id) end))))
        (or_null (str job_id)) m.now)

  unfoldable pub send_worker_ready : InferenceWorker → List Act
  send_worker_ready w = send_if_open w (
      create_message "worker_ready"
        (obj (
          field "nodeId" (node_text w.node_id) (
            field "capabilities" (get_capabilities w)
              (field "address" (or_default_value (member w.config "workerAddress") (str "")) end))))
        null m.now)

  -- The socket's events.
  unfoldable pub on_open : InferenceWorker → InferenceWorker × List Act
  on_open w =
      let w' = record w { connected = true } in
      (record w' { beating = true }, send_worker_ready w' ++ (resolves ∷ []))

  unfoldable pub schedule_reconnect : InferenceWorker → InferenceWorker
  schedule_reconnect w = record w { reconnecting = true }

  unfoldable pub on_close : InferenceWorker → InferenceWorker × List Act
  on_close w = (schedule_reconnect (record w { connected = false; beating = false }), [])

  unfoldable pub on_socket_error : String → InferenceWorker → InferenceWorker × List Act
  on_socket_error why w = (w, if w.connected then [] else rejects why ∷ [])

  abbrev pub is_rejected : List Act → Bool
  is_rejected (rejects why ∷ acts) = true
  is_rejected _ = false

  -- The timer of `scheduleReconnect`, when `connect` throws at once.
  unfoldable pub on_reconnect_timer : InferenceWorker → InferenceWorker × List Act
  on_reconnect_timer w =
      let (w', acts) = connect (record w { reconnecting = false }) in
      (if is_rejected acts then schedule_reconnect w' else w', acts)

  unfoldable pub on_heartbeat_timer : InferenceWorker → List Act
  on_heartbeat_timer w =
      send_if_open w
        (create_message "heartbeat" (obj (field "timestamp" (num (pos m.now)) end)) null m.now)
