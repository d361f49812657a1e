-- ===== src/Distributed/Examples.antt =====
-- Tests of the coordinator, with two workers and one job.
use infernet_protocol.Common.{
  ℕ, ◌≤◌, ◌<◌, ◌≡◌, ◌↔◌, refl, inl, inr, true, none, some, List, [], ◌∷◌, ◌++◌, String, length, In,
  All, arith, ◌⊎◌,
}
use infernet_protocol.Common.Maps.{lookup, insert, modify, delete}
use infernet_protocol.Distributed.State.{
  tensor_parallel, Capabilities, Worker, JobConfig, Job, Coordinator, row, World, one, ask, cleans,
  find_distributed, distributed_completed, distributed_failed, job_completed, job_failed,
}
use infernet_protocol.Distributed.Assign.{
  Candidate, candidate, select_workers_for_job, available_workers, sort_candidates,
  insert_candidate, worker_meets_requirements, tensor_config,
}
use infernet_protocol.Distributed.Jobs.{
  track_job, start_job, launch_job, initialize, initialize_tensor_parallelism, initialize_from,
  send_to_worker,
}
use infernet_protocol.Distributed.Settle.{
  finalize_job, handle_job_timeout, cleanup_job, release, settle_completed, settle_failed,
  final_result,
}
use infernet_protocol.Distributed.Registry.{
  Hello, worker_ready, handle_worker_message, register_worker,
}
use infernet_protocol.Distributed.Layers.{Covers, tensor_config-partition}
use infernet_protocol.Distributed.Selection.{Comes, IsSorted, select_workers_for_job-best}
use infernet_protocol.Distributed.Accounting.{Lists, active}
use infernet_protocol.Distributed.Runs.{
  Reachable, init, next, message, start, timeout, cleanup, Reachable-Lists, Reachable-free,
}

abbrev caps : Capabilities
caps = record {
  memory = some 16;
  max_jobs = some 2;
  max_batch_size = none;
  has_gpu = true;
  supported_models = none;
}

abbrev idle_worker : ℕ → Worker
idle_worker ws = record {
  ws = ws;
  capabilities = caps;
  status = "ready";
  last_seen = 1000;
  active_jobs = [];
}

abbrev config : JobConfig
config = record {
  strategy = some tensor_parallel;
  model_id = none;
  model_layers = 5;
  num_workers = 2;
  batch_size = 0;
  min_memory = 8;
  requires_gpu = true;
}

abbrev world : World
world = record { now = 1000; is_open = λ ws. true; answer = λ i. row (some "d1") }

abbrev late_world : World
late_world = record world { now = 90000 }

abbrev fresh : Coordinator
fresh = record { node_id = "c0"; heartbeat_interval = 30000; workers = []; jobs = [] }

abbrev hello : Hello
hello = record { node_id = "w1"; address = "10.0.0.1"; capabilities = caps }

abbrev ready : Coordinator
ready = (handle_worker_message world 1 "" (worker_ready hello) fresh).0

abbrev running : Coordinator
running = (start_job world "j1" config ready).0

abbrev tracked : Job
tracked = record {
  config = config;
  workers = "w1" ∷ "w2" ∷ "w3" ∷ [];
  strategy = tensor_parallel;
  results = [];
  start_time = 1000;
  worker_failures = [];
}

abbrev busy : Coordinator
busy = record fresh {
  workers = ("w1", idle_worker 1) ∷ ("w2", idle_worker 2) ∷ [];
  jobs = ("j1", tracked) ∷ [];
}

busy_job : lookup "j1" busy.jobs ≡ some tracked
unfolding lookup
busy_job = refl

busy_worker : lookup "w2" busy.workers ≡ some (idle_worker 2)
unfolding lookup
busy_worker = refl

abbrev ready_history : Reachable ready
ready_history = next (init refl refl) (message world 1 "" (worker_ready hello))

new_job : lookup "j1" ready.jobs ≡ none
unfolding handle_worker_message register_worker lookup
new_job = refl

abbrev running_history : Reachable running
running_history = next ready_history (start world "j1" config)

holds_place : In "j1" (active (lookup "w1" running.workers))
unfolding handle_worker_message register_worker lookup insert modify start_job
    select_workers_for_job available_workers sort_candidates insert_candidate
    worker_meets_requirements launch_job initialize initialize_tensor_parallelism initialize_from
    send_to_worker track_job
holds_place = inl refl

Reachable-Lists_example : Lists "w1" (lookup "j1" running.jobs)
Reachable-Lists_example = Reachable-Lists "w1" "j1" running_history ((tt, tt), new_job) holds_place

abbrev settled : Coordinator
settled = cleanup_job "j1" (handle_job_timeout world "j1" running).0

abbrev settled_history : Reachable settled
settled_history = next (next running_history (timeout world "j1")) (cleanup "j1")

settled_idle : settled.jobs ≡ []
unfolding handle_worker_message register_worker lookup insert modify delete start_job
    select_workers_for_job available_workers sort_candidates insert_candidate
    worker_meets_requirements launch_job initialize initialize_tensor_parallelism initialize_from
    send_to_worker track_job handle_job_timeout cleanup_job release
settled_idle = refl

settled_worker : lookup "w1" settled.workers ≡ some (idle_worker 1)
unfolding handle_worker_message register_worker lookup insert modify delete start_job
    select_workers_for_job available_workers sort_candidates insert_candidate
    worker_meets_requirements launch_job initialize initialize_tensor_parallelism initialize_from
    send_to_worker track_job handle_job_timeout cleanup_job release
settled_worker = refl

-- A worker that served a job is free when the job timed out and was cleaned up.
Reachable-free_example : (idle_worker 1).active_jobs ≡ []
Reachable-free_example =
    Reachable-free "w1" (idle_worker 1) settled_history ((((tt, tt), new_job), tt), tt) settled_idle
      settled_worker

tensor_config-partition_example :
    (i : ℕ) × (i < 2) × ((j : ℕ) → Covers (tensor_config config 2 j) 3 ↔ (j ≡ i))
tensor_config-partition_example = tensor_config-partition config 2 3 (omega arith) (omega arith)

abbrev pair : List String
pair = "w1" ∷ "w2" ∷ []

abbrev both : List Candidate
both = candidate "w1" (idle_worker 1) ∷ candidate "w2" (idle_worker 2) ∷ []

both_selected : select_workers_for_job config busy.workers ≡ some both
unfolding select_workers_for_job available_workers sort_candidates insert_candidate
    worker_meets_requirements
both_selected = refl

w2_meets : worker_meets_requirements (idle_worker 2) config ≡ some true
unfolding worker_meets_requirements
w2_meets = refl

select_workers_for_job-best_example :
    (length both ≤ 2)
    × IsSorted both
    × All (Comes config busy.workers) both
    × (In (candidate "w2" (idle_worker 2)) both ⊎ All (λ (c : Candidate). c.active_jobs ≤ 0) both)
select_workers_for_job-best_example =
    select_workers_for_job-best config busy.workers both "w2" (idle_worker 2) both_selected
      (inr (inl refl)) (refl, w2_meets)

-- A timeout that comes while a result is finalized marks the job as failed as well.
both_settled :
    (finalize_job world "j1" busy).1
      ++ (handle_job_timeout world "j1" (finalize_job world "j1" busy).0).1
    ≡ ask (find_distributed "j1")
      ∷ ask (distributed_completed "d1")
      ∷ ask (job_completed "j1" (one none))
      ∷ cleans "j1"
      ∷ ask (find_distributed "j1")
      ∷ ask (distributed_failed "d1")
      ∷ ask (job_failed "j1" "Job timed out")
      ∷ cleans "j1"
      ∷ []
unfolding finalize_job handle_job_timeout settle_completed settle_failed final_result lookup
both_settled = refl

abbrev launched : List String → Coordinator → Coordinator
launched ids c = (launch_job world "j1" config ids (some "d1") c).0

-- A job that is started again at another worker keeps its place at the first one for ever.
place_kept :
    active
      (lookup "w1" (cleanup_job "j1" (launched ("w2" ∷ []) (launched ("w1" ∷ []) busy))).workers)
    ≡ "j1" ∷ []
unfolding launch_job initialize initialize_tensor_parallelism initialize_from send_to_worker
    track_job lookup insert modify delete cleanup_job release
place_kept = refl
