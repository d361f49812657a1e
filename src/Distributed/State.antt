-- ===== src/Distributed/State.antt =====
-- packages/inference/src/distributed: what the coordinator keeps, what it sends, and what it asks
-- of the database. The answers of the database, the clock and the readiness of the sockets are
-- arguments of the handlers.
use infernet_protocol.Common.{ℕ, ◌≡◌, refl, ◌⊎◌, inl, inr, Bool, Option, List, String}
use infernet_protocol.Common.Js.{Js}

-- `DistributionStrategies`; any other text that a job configuration names is `unsupported`.
pub data Strategy : Type 0 where
  tensor_parallel pipeline_parallel data_parallel : Strategy
  unsupported : String → Strategy

-- The fields that a worker announces; `none` is a field that it leaves out.
pub record Capabilities : Type 0 where
  pub memory : Option ℕ
  pub max_jobs : Option ℕ
  pub max_batch_size : Option ℕ
  pub has_gpu : Bool
  pub supported_models : Option (List String)

pub record Worker : Type 0 where
  pub ws : ℕ
  pub capabilities : Capabilities
  pub status : String
  pub last_seen : ℕ
  pub active_jobs : List String

-- A number that is absent is 0, as the code reads it: `modelLayers || 32`, `numWorkers || 1`.
pub record JobConfig : Type 0 where
  pub strategy : Option Strategy
  pub model_id : Option String
  pub model_layers : ℕ
  pub num_workers : ℕ
  pub batch_size : ℕ
  pub min_memory : ℕ
  pub requires_gpu : Bool

pub record Job : Type 0 where
  pub config : JobConfig
  pub workers : List String
  pub strategy : Strategy
  pub results : List (String × Js)
  pub start_time : ℕ
  pub worker_failures : List String

pub record Coordinator : Type 0 where
  pub node_id : String
  pub heartbeat_interval : ℕ
  pub workers : List (String × Worker)
  pub jobs : List (String × Job)

pub record TensorConfig : Type 0 where
  pub model_id : Option String
  pub start_layer : ℕ
  pub end_layer : ℕ
  pub total_layers : ℕ
  pub worker_index : ℕ
  pub total_workers : ℕ

pub record PipelineConfig : Type 0 where
  pub model_id : Option String
  pub stage : ℕ
  pub total_stages : ℕ
  pub next_worker_id : Option String
  pub prev_worker_id : Option String

pub record DataConfig : Type 0 where
  pub model_id : Option String
  pub worker_index : ℕ
  pub total_workers : ℕ
  pub batch_size : ℕ
  pub batch_index : ℕ

-- A value given to `processInput`: numbered parts, or one value with no numbered elements.
pub data Input : Type 0 where
  parts : List Js → Input
  whole : Js → Input

pub data Message : Type 0 where
  init_tensor : TensorConfig → String → Message
  init_pipeline : PipelineConfig → String → Message
  init_data : DataConfig → String → Message
  process : Input → String → Message
  process_part : Js → String → Message
  registered : String → Message
  registration_failed : Message
  heartbeat : ℕ → Message

pub data FinalResult : Type 0 where
  one : Option Js → FinalResult
  each : List Js → FinalResult
  nothing : FinalResult

-- The statements that the handlers issue on the tables of the database.
pub data Statement : Type 0 where
  find_node : String → Statement
  find_job : String → Statement
  find_roles : String → Statement
  find_distributed : String → Statement
  set_role : String → String → ℕ → ℕ → Statement
  add_role : String → String → ℕ → ℕ → Statement
  refresh_role : String → ℕ → ℕ → Statement
  add_distributed : String → List String → Strategy → Statement
  distributed_running distributed_completed distributed_failed : String → Statement
  job_completed : String → FinalResult → Statement
  job_failed : String → String → Statement

pub data Effect : Type 0 where
  send : ℕ → Message → Effect
  close : ℕ → Effect
  ask : Statement → Effect
  -- The handler goes on with `cleanupJob` once its statements are answered.
  cleans : String → Effect

-- The answer to a statement: an error, or the id of the first row, if there is one.
pub data Answer : Type 0 where
  failure : String → Answer
  row : Option String → Answer

pub Answer-cases :
    (a : Answer) → ((e : String) × (a ≡ failure e)) ⊎ ((r : Option String) × (a ≡ row r))
Answer-cases (failure e) = inl (e, refl)
Answer-cases (row r) = inr (r, refl)

-- What a handler meets: the time, the sockets that are open, and the answers to its statements, by
-- their number within the handler.
pub record World : Type 0 where
  pub now : ℕ
  pub is_open : ℕ → Bool
  pub answer : ℕ → Answer
