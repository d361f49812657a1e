-- ===== src/Distributed/Wire.antt =====
-- packages/inference/src/distributed/protocol.js: the messages between coordinator and workers, and
-- the configurations that the coordinator of packages/inference/src/distributed/coordinator.js puts
-- into them. The text of a number is a parameter.
use Prim.Native.String.{◌++◌}
use infernet_protocol.Common.{
  ℕ, Bool, true, false, ◌&&◌, Option, none, some, List, [], ◌∷◌, String, str_eq, any, if◌then◌else◌,
}
use infernet_protocol.Common.Js.{
  pos, Js, undefined, null, num, str, arr, obj, end, field, member, truthy,
}
use infernet_protocol.Distributed.State.{TensorConfig, PipelineConfig, DataConfig}

-- The values of `MessageTypes`.
abbrev pub message_types : List String
message_types =
    "init_model" ∷ "assign_layer" ∷ "process_input" ∷ "shutdown" ∷ "worker_ready" ∷ "layer_result"
    ∷ "worker_error" ∷ "worker_status" ∷ "heartbeat" ∷ "config_update" ∷ []

abbrev pub text_of : Js → String
text_of (str s) = s
text_of _ = ""

abbrev is_number : Js → Bool
is_number (num n) = true
is_number _ = false

abbrev is_object : Js → Bool
is_object (arr xs) = true
is_object (obj fs) = true
is_object _ = false

abbrev known_type : Js → Bool
known_type (str s) = any (λ t. str_eq t s) message_types
known_type _ = false

-- The part of the data that a type of message needs.
abbrev needs : String → Js → Bool
needs key msg = let body = member msg "data" in truthy body && truthy (member body key)

abbrev complete_for : String → Js → Bool
complete_for t msg =
    if str_eq t "init_model"
    then needs "modelId" msg
    else if str_eq t "process_input"
    then needs "input" msg && truthy (member msg "jobId")
    else if str_eq t "layer_result"
    then needs "result" msg && truthy (member msg "jobId")
    else true

-- `validateMessage(message)`
unfoldable pub validate_message : Js → Bool
validate_message msg =
    truthy msg
    && is_object msg
    && truthy (member msg "type")
    && known_type (member msg "type")
    && truthy (member msg "timestamp")
    && is_number (member msg "timestamp")
    && complete_for (text_of (member msg "type")) msg

-- `parseMessage(rawMessage)`, from what `JSON.parse` makes of the text, if it is JSON.
unfoldable pub parse_message : Option Js → Option Js
parse_message none = none
parse_message (some msg) = if validate_message msg then some msg else none

-- `createMessage(type, data, jobId)`
unfoldable pub create_message : String → Js → Js → ℕ → Js
create_message type data_value job_id now = obj (
    field "type" (str type)
      (field "data" data_value (field "jobId" job_id (field "timestamp" (num (pos now)) end))))

abbrev text_or_undefined : Option String → Js
text_or_undefined none = undefined
text_or_undefined (some s) = str s

abbrev pub text_or_null : Option String → Js
text_or_null none = null
text_or_null (some s) = str s

abbrev pub nat : ℕ → Js
nat n = num (pos n)

-- The data of the messages of `initializeTensorParallelism`.
unfoldable pub tensor_data : (ℕ → String) → TensorConfig → Js
tensor_data show t = obj (
    field "modelId" (text_or_undefined t.model_id) (
      field "modelPart" (str ("layers_" ++ (show t.start_layer ++ ("_" ++ show t.end_layer)))) (
        field "startLayer" (nat t.start_layer) (
          field "endLayer" (nat t.end_layer) (
            field "totalLayers" (nat t.total_layers) (
              field "workerIndex" (nat t.worker_index)
                (field "totalWorkers" (nat t.total_workers) end)))))))

-- The data of the messages of `initializePipelineParallelism`.
unfoldable pub pipeline_data : PipelineConfig → Js
pipeline_data p = obj (
    field "modelId" (text_or_undefined p.model_id) (
      field "stage" (nat p.stage) (
        field "totalStages" (nat p.total_stages) (
          field "nextWorkerId" (text_or_null p.next_worker_id)
            (field "prevWorkerId" (text_or_null p.prev_worker_id) end)))))

-- The data of the messages of `initializeDataParallelism`.
unfoldable pub batch_data : DataConfig → Js
batch_data d = obj (
    field "modelId" (text_or_undefined d.model_id) (
      field "workerIndex" (nat d.worker_index) (
        field "totalWorkers" (nat d.total_workers)
          (field "batchSize" (nat d.batch_size) (field "batchIndex" (nat d.batch_index) end)))))
