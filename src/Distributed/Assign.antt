-- ===== src/Distributed/Assign.antt =====
-- packages/inference/src/distributed/coordinator.js: the choice of workers for a job, and the part
-- of the model or of the input that each of them gets.
use infernet_protocol.Common.{
  ℕ, ◌+◌, ◌-◌, ◌*◌, ◌/◌, min, ltb, leb, ◌==◌, if◌then◌else◌, Bool, true, false, ◌&&◌, not, Option,
  none, some, List, [], ◌∷◌, String, str_eq, length, take, get_elem?, any,
}
use infernet_protocol.Distributed.State.{
  Capabilities, Worker, JobConfig, TensorConfig, PipelineConfig, DataConfig,
}

-- An entry of `availableWorkers`.
pub record Candidate : Type 0 where
  pub id : String
  pub capabilities : Capabilities
  pub active_jobs : ℕ

-- `a < b` is false where `a` is undefined.
abbrev pub below : Option ℕ → ℕ → Bool
below none b = false
below (some a) b = ltb a b

-- `a >= b` is false where `b` is undefined.
abbrev pub reaches : ℕ → Option ℕ → Bool
reaches a none = false
reaches a (some b) = leb b a

-- `supportedModels.includes(modelId)`; `none` is the exception where there are no models to ask.
abbrev pub supports : Option (List String) → Option String → Option Bool
supports models none = some true
supports models (some m) =
    if str_eq m ""
    then some true
    else elim models [ none ↦ none | some ms ↦ some (any (str_eq m) ms) ]

-- `workerMeetsRequirements`; `none` is an exception.
unfoldable pub worker_meets_requirements : Worker → JobConfig → Option Bool
worker_meets_requirements w cfg =
    if not (cfg.min_memory == 0) && below w.capabilities.memory cfg.min_memory
    then some false
    else if cfg.requires_gpu && not w.capabilities.has_gpu
    then some false
    else supports w.capabilities.supported_models cfg.model_id

abbrev pub is_busy : Worker → Bool
is_busy w = reaches (length w.active_jobs) w.capabilities.max_jobs

abbrev pub candidate : String → Worker → Candidate
candidate id w = record {
  id = id;
  capabilities = w.capabilities;
  active_jobs = length w.active_jobs;
}

abbrev pub join : Option Bool → Candidate → Option (List Candidate) → Option (List Candidate)
join none c rest = none
join (some meets) c none = none
join (some meets) c (some cs) = some (if meets then c ∷ cs else cs)

-- The loop of `selectWorkersForJob` over the workers, in the order in which they registered.
unfoldable pub available_workers : JobConfig → List (String × Worker) → Option (List Candidate)
available_workers cfg [] = some []
available_workers cfg ((id, w) ∷ ws) =
    let rest = available_workers cfg ws in
    if is_busy w then rest else join (worker_meets_requirements w cfg) (candidate id w) rest

-- `sort` by the number of active jobs, which keeps the order of equals.
unfoldable pub insert_candidate : Candidate → List Candidate → List Candidate
insert_candidate c [] = c ∷ []
insert_candidate c (d ∷ ds) =
    if leb c.active_jobs d.active_jobs then c ∷ d ∷ ds else d ∷ insert_candidate c ds

unfoldable pub sort_candidates : List Candidate → List Candidate
sort_candidates [] = []
sort_candidates (c ∷ cs) = insert_candidate c (sort_candidates cs)

-- `x || d`
abbrev pub or_default : ℕ → ℕ → ℕ
or_default x d = if x == 0 then d else x

-- `selectWorkersForJob`; `none` is an exception.
unfoldable pub select_workers_for_job : JobConfig → List (String × Worker) → Option (List Candidate)
select_workers_for_job cfg ws = elim (available_workers cfg ws) [
  | none ↦ none
  | some cs ↦ some (take (or_default cfg.num_workers 1) (sort_candidates cs))
]

-- `Math.ceil(n / w)`; the callers have `w > 0`.
unfoldable pub ceil_div : ℕ → ℕ → ℕ
ceil_div n w = (n + w - 1) / w

-- The configuration of worker `i` in `initializeTensorParallelism`. Both `(i + 1) * p - 1` and
-- `n - 1` are at least 0, since `n` and `p` are at least 1.
unfoldable pub tensor_config : JobConfig → ℕ → ℕ → TensorConfig
tensor_config cfg w i =
    let n = or_default cfg.model_layers 32 in
    let p = ceil_div n w in
    record {
      model_id = cfg.model_id;
      start_layer = i * p;
      end_layer = min ((i + 1) * p - 1) (n - 1);
      total_layers = n;
      worker_index = i;
      total_workers = w;
    }

-- The configuration of worker `i` in `initializePipelineParallelism`.
unfoldable pub pipeline_config : JobConfig → List String → ℕ → PipelineConfig
pipeline_config cfg ws i = record {
  model_id = cfg.model_id;
  stage = i;
  total_stages = length ws;
  next_worker_id = if ltb (i + 1) (length ws) then get_elem? ws (i + 1) else none;
  prev_worker_id = if ltb 0 i then get_elem? ws (i - 1) else none;
}

-- The configuration of worker `i` in `initializeDataParallelism`.
unfoldable pub data_config : JobConfig → ℕ → ℕ → DataConfig
data_config cfg w i = record {
  model_id = cfg.model_id;
  worker_index = i;
  total_workers = w;
  batch_size = or_default cfg.batch_size 1;
  batch_index = i;
}
