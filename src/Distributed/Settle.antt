-- ===== src/Distributed/Settle.antt =====
-- packages/inference/src/distributed/coordinator.js: the ends of a job, and the workers that leave.
use infernet_protocol.Common.{
  ℕ, ◌+◌, ◌-◌, ◌*◌, ltb, leb, if◌then◌else◌, Bool, Option, none, some, List, [], ◌∷◌, ◌++◌, String,
  str_eq, length, get_elem?, map,
}
use Prim.Native.String
use infernet_protocol.Common.Js.{Js}
use infernet_protocol.Common.Maps.{lookup, insert, delete, modify}
use infernet_protocol.Distributed.State.{
  Strategy, tensor_parallel, pipeline_parallel, data_parallel, unsupported, Worker, Job,
  Coordinator, heartbeat, FinalResult, one, each, nothing, find_distributed, distributed_completed,
  distributed_failed, job_completed, job_failed, Effect, send, close, ask, cleans, failure, row,
  World,
}
use infernet_protocol.Distributed.Assign.{ceil_div}
use infernet_protocol.Distributed.Jobs.{remove}

abbrev pub drop_job : String → Worker → Worker
drop_job job_id worker = record worker { active_jobs = remove job_id worker.active_jobs }

-- The loop of `cleanupJob` over the workers of the job.
unfoldable pub release : String → List String → List (String × Worker) → List (String × Worker)
release job_id [] ws = ws
release job_id (id ∷ ids) ws = release job_id ids (modify id (drop_job job_id) ws)

-- `cleanupJob`
unfoldable pub cleanup_job : String → Coordinator → Coordinator
cleanup_job job_id c = elim (lookup job_id c.jobs) [
  | none ↦ c
  | some job ↦ record c {
    workers = release job_id job.workers c.workers;
    jobs = delete job_id c.jobs;
  }
]

-- The statements by which a job is marked as failed, up to the first that is not carried out; the
-- first of them is number `n` of the handler.
unfoldable pub settle_failed : World → ℕ → String → String → List Effect
settle_failed w n job_id reason = ask (find_distributed job_id) ∷ elim (w.answer n) [
  | failure e ↦ []
  | row none ↦ ask (job_failed job_id reason) ∷ []
  | row (some d) ↦
      ask (distributed_failed d)
      ∷ elim (w.answer (n + 1)) [ failure e ↦ [] | row r ↦ ask (job_failed job_id reason) ∷ [] ]
]

-- The last statement of a completion: on an error the job is marked as failed instead.
abbrev pub complete_job : World → ℕ → String → FinalResult → List Effect
complete_job w n job_id result =
    ask (job_completed job_id result)
    ∷ elim (w.answer n) [ failure e ↦ settle_failed w (n + 1) job_id e | row r ↦ [] ]

unfoldable pub settle_completed : World → String → FinalResult → List Effect
settle_completed w job_id result = ask (find_distributed job_id) ∷ elim (w.answer 0) [
  | failure e ↦ settle_failed w 1 job_id e
  | row none ↦ complete_job w 1 job_id result
  | row (some d) ↦ ask (distributed_completed d) ∷ elim (w.answer 1) [
    | failure e ↦ settle_failed w 2 job_id e
    | row r ↦ complete_job w 2 job_id result
  ]
]

abbrev pub result_of : List (String × Js) → Option String → Option Js
result_of results none = none
result_of results (some id) = lookup id results

-- The `switch` of `finalizeJob`.
unfoldable pub final_result : Job → Strategy → FinalResult
final_result job tensor_parallel =
    one (result_of job.results (get_elem? job.workers (length job.workers - 1)))
final_result job pipeline_parallel =
    one (result_of job.results (get_elem? job.workers (length job.workers - 1)))
final_result job data_parallel = each (map (λ entry. entry.1) job.results)
final_result job (unsupported s) = nothing

-- `finalizeJob`, up to `cleanupJob`: until its statements are answered the job stays tracked, and
-- other handlers may run.
unfoldable pub finalize_job : World → String → Coordinator → Coordinator × List Effect
finalize_job w job_id c = elim (lookup job_id c.jobs) [
  | none ↦ (c, [])
  | some job ↦ (c, settle_completed w job_id (final_result job job.strategy) ++ cleans job_id ∷ [])
]

abbrev pub add_result : String → Js → Job → Job
add_result id v job = record job { results = insert id v job.results }

-- `processLayerResult`
unfoldable pub process_layer_result :
    World → String → Js → Bool → String → Coordinator → Coordinator × List Effect
process_layer_result w worker_id result is_complete job_id c = elim (lookup job_id c.jobs) [
  | none ↦ (c, [])
  | some job ↦
      let stored = record c { jobs = modify job_id (add_result worker_id result) c.jobs } in
      if is_complete then finalize_job w job_id stored else (stored, [])
]

-- `handleJobTimeout`, up to `cleanupJob`.
unfoldable pub handle_job_timeout : World → String → Coordinator → Coordinator × List Effect
handle_job_timeout w job_id c = elim (lookup job_id c.jobs) [
  | none ↦ (c, [])
  | some job ↦ (c, settle_failed w 0 job_id "Job timed out" ++ cleans job_id ∷ [])
]

-- `handleJobFailure`, up to `cleanupJob`.
unfoldable pub handle_job_failure :
    World → String → String → Coordinator → Coordinator × List Effect
handle_job_failure w job_id reason c = elim (lookup job_id c.jobs) [
  | none ↦ (c, [])
  | some job ↦
      if leb (ceil_div (length job.workers) 2) (length job.worker_failures)
      then (
        c,
        settle_failed w 0 job_id (String.◌++◌ "Too many worker failures: " reason)
            ++ cleans job_id ∷ [],
      )
      else (c, [])
]

abbrev pub add_failure : String → Job → Job
add_failure id job = record job { worker_failures = job.worker_failures ++ id ∷ [] }

-- The loop of `handleWorkerDisconnect` over the active jobs of the worker.
unfoldable pub fail_jobs : World → String → List String → Coordinator → Coordinator × List Effect
fail_jobs w worker_id [] c = (c, [])
fail_jobs w worker_id (job_id ∷ job_ids) c =
    let marked = record c { jobs = modify job_id (add_failure worker_id) c.jobs } in
    let (c', sent) = handle_job_failure w job_id "Worker disconnected" marked in
    let (c'', later) = fail_jobs w worker_id job_ids c' in (c'', sent ++ later)

-- `handleWorkerDisconnect`
unfoldable pub handle_worker_disconnect : World → String → Coordinator → Coordinator × List Effect
handle_worker_disconnect w worker_id c = elim (lookup worker_id c.workers) [
  | none ↦ (c, [])
  | some worker ↦
      let (c', sent) = fail_jobs w worker_id worker.active_jobs c in
      (record c' { workers = delete worker_id c'.workers }, sent)
]

-- `handleWorkerError`; an empty job id is no job id.
unfoldable pub handle_worker_error :
    World → String → String → Coordinator → Coordinator × List Effect
handle_worker_error w job_id message c =
    if str_eq job_id ""
    then (c, [])
    else handle_job_failure w job_id
        (if str_eq message "" then "Worker reported error" else message) c

abbrev pub timed_out : World → Coordinator → Worker → Bool
timed_out w c worker = ltb (c.heartbeat_interval * 2) (w.now - worker.last_seen)

-- The loop of `sendHeartbeat` over the entries: the workers that stay, and what is sent.
unfoldable pub beat :
    World
    → Coordinator
    → List (String × Worker)
    → List (String × Worker)
    → List (String × Worker) × List Effect
beat w c [] ws = (ws, [])
beat w c ((id, worker) ∷ entries) ws =
    let late = beat w c entries (delete id ws) in
    let timely = beat w c entries ws in
    if timed_out w c worker then (late.0, close worker.ws ∷ late.1) else (
      timely.0,
      (if w.is_open worker.ws then send worker.ws (heartbeat w.now) ∷ [] else []) ++ timely.1,
    )

-- `sendHeartbeat`
unfoldable pub send_heartbeat : World → Coordinator → Coordinator × List Effect
send_heartbeat w c =
    let (kept, sent) = beat w c c.workers c.workers in (record c { workers = kept }, sent)
