-- ===== src/Distributed/Jobs.antt =====
-- packages/inference/src/distributed/coordinator.js: starting a job, feeding it, and settling it.
use infernet_protocol.Common.{
  ℕ, ◌+◌, if◌then◌else◌, Bool, true, false, Option, none, some, List, [], ◌∷◌, ◌++◌, String, str_eq,
  length, get_elem?, any, map,
}
use infernet_protocol.Common.Js.{truthy}
use infernet_protocol.Common.Maps.{lookup, insert, modify}
use infernet_protocol.Distributed.Assign.{
  Candidate, select_workers_for_job, tensor_config, pipeline_config, data_config,
}
use infernet_protocol.Distributed.State.{
  Strategy, tensor_parallel, pipeline_parallel, data_parallel, unsupported, Worker, JobConfig, Job,
  Coordinator, Input, parts, whole, Message, init_tensor, init_pipeline, init_data, process,
  process_part, find_job, add_distributed, distributed_running, Effect, send, ask, failure, row,
  World,
}

pub data Outcome : Type 0 where
  started : String → Outcome
  failed : Outcome

-- A `Set` in insertion order.
abbrev pub include : String → List String → List String
include x s = if any (str_eq x) s then s else s ++ x ∷ []

abbrev pub remove : String → List String → List String
remove x [] = []
remove x (y ∷ s) = let rest = remove x s in if str_eq x y then rest else y ∷ rest

abbrev pub post : World → Message → Option Worker → List Effect × Bool
post w m none = ([], false)
post w m (some worker) = if w.is_open worker.ws then (send worker.ws m ∷ [], true) else ([], false)

-- `sendToWorker`: what is sent, and whether it was.
unfoldable pub send_to_worker : World → Coordinator → String → Message → List Effect × Bool
send_to_worker w c id m = post w m (lookup id c.workers)

abbrev pub add_job : String → Worker → Worker
add_job job_id worker = record worker { active_jobs = include job_id worker.active_jobs }

-- One round of an initialisation loop over the workers of a job. The last part is false after an
-- exception, which a worker that is gone raises.
unfoldable pub initialize_from :
    World
    → (ℕ → Message)
    → String
    → ℕ
    → List String
    → Coordinator
    → Coordinator × List Effect × Bool
initialize_from w message job_id i [] c = (c, [], true)
initialize_from w message job_id i (id ∷ ids) c =
    let sent = (send_to_worker w c id (message i)).0 in
    let marked = record c { workers = modify id (add_job job_id) c.workers } in
    let (c', later, done) = initialize_from w message job_id (i + 1) ids marked in
    elim (lookup id c.workers) [ none ↦ (c, sent, false) | some worker ↦ (c', sent ++ later, done) ]

unfoldable pub initialize_tensor_parallelism :
    World → String → JobConfig → List String → Coordinator → Coordinator × List Effect × Bool
initialize_tensor_parallelism w job_id cfg ids c =
    initialize_from w (λ i. init_tensor (tensor_config cfg (length ids) i) job_id) job_id 0 ids c

unfoldable pub initialize_pipeline_parallelism :
    World → String → JobConfig → List String → Coordinator → Coordinator × List Effect × Bool
initialize_pipeline_parallelism w job_id cfg ids c =
    initialize_from w (λ i. init_pipeline (pipeline_config cfg ids i) job_id) job_id 0 ids c

unfoldable pub initialize_data_parallelism :
    World → String → JobConfig → List String → Coordinator → Coordinator × List Effect × Bool
initialize_data_parallelism w job_id cfg ids c =
    initialize_from w (λ i. init_data (data_config cfg (length ids) i) job_id) job_id 0 ids c

-- The `switch` of `startJob`, on the strategy that the configuration names.
unfoldable pub initialize :
    World
    → String
    → JobConfig
    → List String
    → Option Strategy
    → Coordinator
    → Coordinator × List Effect × Bool
initialize w job_id cfg ids (some tensor_parallel) c =
    initialize_tensor_parallelism w job_id cfg ids c
initialize w job_id cfg ids (some pipeline_parallel) c =
    initialize_pipeline_parallelism w job_id cfg ids c
initialize w job_id cfg ids (some data_parallel) c = initialize_data_parallelism w job_id cfg ids c
initialize w job_id cfg ids (some (unsupported s)) c = (c, [], false)
initialize w job_id cfg ids none c = (c, [], false)

abbrev pub chosen_strategy : JobConfig → Strategy
chosen_strategy cfg = elim cfg.strategy [ none ↦ tensor_parallel | some s ↦ s ]

unfoldable pub track_job : World → String → JobConfig → List String → Coordinator → Coordinator
track_job w job_id cfg ids c = record c {
  jobs =
      insert job_id
        (record {
          config = cfg;
          workers = ids;
          strategy = chosen_strategy cfg;
          results = [];
          start_time = w.now;
          worker_failures = [];
        })
        c.jobs;
}

abbrev pub run_update :
    World → Option String → Coordinator × List Effect × Bool → Coordinator × List Effect × Outcome
run_update w none (c, sent, _) = (c, sent, failed)
run_update w (some d) (c, sent, false) = (c, sent, failed)
run_update w (some d) (c, sent, true) = elim (w.answer 2) [
  | failure e ↦ (c, sent ++ ask (distributed_running d) ∷ [], failed)
  | row r ↦ (c, sent ++ ask (distributed_running d) ∷ [], started d)
]

-- The second half of `startJob`, once the distributed job is recorded under the id `d`. Other
-- handlers may have run since the workers were selected.
unfoldable pub launch_job :
    World
    → String
    → JobConfig
    → List String
    → Option String
    → Coordinator
    → Coordinator × List Effect × Outcome
launch_job w job_id cfg ids d c =
    run_update w d (initialize w job_id cfg ids cfg.strategy (track_job w job_id cfg ids c))

abbrev pub candidate_ids : List Candidate → List String
candidate_ids cs = map (λ c. c.id) cs

abbrev pub record_job :
    World → String → JobConfig → List Candidate → Coordinator → Coordinator × List Effect × Outcome
record_job w job_id cfg [] c = (c, ask (find_job job_id) ∷ [], failed)
record_job w job_id cfg (x ∷ xs) c =
    let ids = candidate_ids (x ∷ xs) in
    let asked =
      ask (find_job job_id) ∷ ask (add_distributed job_id ids (chosen_strategy cfg)) ∷ [] in
    elim (w.answer 1) [
      | failure e ↦ (c, asked, failed)
      | row d ↦ let (c', sent, out) = launch_job w job_id cfg ids d c in (c', asked ++ sent, out)
    ]

abbrev pub with_selected :
    World
    → String
    → JobConfig
    → Option (List Candidate)
    → Coordinator
    → Coordinator × List Effect × Outcome
with_selected w job_id cfg none c = (c, ask (find_job job_id) ∷ [], failed)
with_selected w job_id cfg (some cs) c = record_job w job_id cfg cs c

-- `startJob`, where nothing else runs while it waits.
unfoldable pub start_job :
    World → String → JobConfig → Coordinator → Coordinator × List Effect × Outcome
start_job w job_id cfg c = elim (w.answer 0) [
  | failure e ↦ (c, ask (find_job job_id) ∷ [], failed)
  | row r ↦ with_selected w job_id cfg (select_workers_for_job cfg c.workers) c
]

-- `input[i] || input`
abbrev pub part_of : Input → ℕ → String → Message
part_of (whole v) i job_id = process (whole v) job_id
part_of (parts vs) i job_id = elim (get_elem? vs i) [
  | none ↦ process (parts vs) job_id
  | some v ↦ if truthy v then process_part v job_id else process (parts vs) job_id
]

abbrev pub send_parts : World → Coordinator → Input → String → ℕ → List String → List Effect
send_parts w c input job_id i [] = []
send_parts w c input job_id i (id ∷ ids) =
    (send_to_worker w c id (part_of input i job_id)).0 ++ send_parts w c input job_id (i + 1) ids

abbrev pub send_first : World → Coordinator → Message → List String → List Effect
send_first w c m [] = []
send_first w c m (id ∷ ids) = (send_to_worker w c id m).0

abbrev pub feed : World → Coordinator → Input → String → Job → Strategy → List Effect
feed w c input job_id job tensor_parallel = send_first w c (process input job_id) job.workers
feed w c input job_id job pipeline_parallel = send_first w c (process input job_id) job.workers
feed w c input job_id job data_parallel = send_parts w c input job_id 0 job.workers
feed w c input job_id job (unsupported s) = []

-- `processInput`: what is sent, and the `success` of its reply.
unfoldable pub process_input : World → Coordinator → String → Input → List Effect × Bool
process_input w c job_id input = elim (lookup job_id c.jobs) [
  | none ↦ ([], false)
  | some job ↦ (feed w c input job_id job job.strategy, true)
]
