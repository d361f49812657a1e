-- ===== src/Distributed/Settlement.antt =====
-- How a job ends, and what the failures of its workers lead to.
use infernet_protocol.Common.{
  ◌-◌, ◌*◌, ◌<◌, true, ◌≡◌, ◌≢◌, refl, Option, none, some, List, [], ◌∷◌, ◌++◌, String, str_eq,
  length, arith, Bool-cases, inl, inr,
}
use infernet_protocol.Common.Maps.{lookup, insert-ne-none, delete, lookup-delete}
use infernet_protocol.Distributed.State.{
  Job, JobConfig, Worker, Coordinator, World, Effect, ask, row, find_job, add_distributed,
  tensor_parallel,
}
use infernet_protocol.Distributed.Assign.{Candidate, ceil_div, select_workers_for_job}
use infernet_protocol.Distributed.Jobs.{
  failed, start_job, track_job, launch_job, initialize, candidate_ids,
}
use infernet_protocol.Distributed.Settle.{
  handle_job_failure, handle_worker_disconnect, handle_worker_error, send_heartbeat, beat,
  timed_out,
}

-- A series of `worker_error` messages for one job, each with its text and its world.
abbrev pub report_errors : String → List (World × String) → Coordinator → Coordinator × List Effect
report_errors job_id [] c = (c, [])
report_errors job_id ((w, message) ∷ rest) c =
    let (c', sent) = handle_worker_error w job_id message c in
    let (c'', later) = report_errors job_id rest c' in (c'', sent ++ later)

error_ignored :
    (w : World) (job_id message : String) (c : Coordinator) (job : Job)
    → lookup job_id c.jobs ≡ some job
    → 2 * length job.worker_failures < length job.workers
    → handle_worker_error w job_id message c ≡ (c, [])
unfolding handle_worker_error handle_job_failure ceil_div
error_ignored w job_id message c job h few = ground arith

-- However many errors the workers report for a job, it goes on, and nothing is recorded: as long as
-- fewer than half of its workers have disconnected, the reports change nothing and ask nothing.
handle_worker_error-ignored :
    (reports : List (World × String)) (job_id : String) (c : Coordinator) (job : Job)
    → lookup job_id c.jobs ≡ some job
    → 2 * length job.worker_failures < length job.workers
    → report_errors job_id reports c ≡ (c, [])
handle_worker_error-ignored [] job_id c job h few = refl
handle_worker_error-ignored ((w, message) ∷ rest) job_id c job h few =
    rw (error_ignored w job_id message c job h few)
      (handle_worker_error-ignored rest job_id c job h few)

beat-none :
    (w : World) (c : Coordinator) (id : String) (entries ws : List (String × Worker))
    → lookup id ws ≡ none
    → lookup id (beat w c entries ws).0 ≡ none
unfolding beat
beat-none w c id [] ws h = h
beat-none w c id ((k, x) ∷ entries) ws h = ground (
  arith,
  lookup-delete k id ws,
  beat-none w c id entries ws,
  beat-none w c id entries (delete k ws),
)

beat-timed_out :
    (w : World) (c : Coordinator) (id : String) (worker : Worker)
    (entries ws : List (String × Worker))
    → lookup id entries ≡ some worker
    → timed_out w c worker ≡ true
    → lookup id (beat w c entries ws).0 ≡ none
unfolding beat lookup
beat-timed_out w c id worker [] ws h t = cc
beat-timed_out w c id worker ((k, x) ∷ entries) ws h t = elim (Bool-cases (str_eq k id)) [
  | inl same ↦
      let first : some x ≡ some worker = rw same at h in
      let one : x ≡ worker = cc in
      let late : timed_out w c x ≡ true = rw one t in
      rw late (beat-none w c id entries (delete k ws) (ground (arith, lookup-delete k id ws)))
  | inr other ↦
      let later : lookup id entries ≡ some worker = rw other at h in
      ground (
        arith,
        beat-timed_out w c id worker entries ws later t,
        beat-timed_out w c id worker entries (delete k ws) later t,
      )
]

-- A worker that misses its heartbeats is dropped without a trace: its jobs are as before, with no
-- failure recorded, and when its connection closes the disconnect handler finds nothing to do.
send_heartbeat-silent :
    (w w' : World) (c : Coordinator) (id : String) (worker : Worker)
    → lookup id c.workers ≡ some worker
    → c.heartbeat_interval * 2 < w.now - worker.last_seen
    → (lookup id (send_heartbeat w c).0.workers ≡ none)
      × ((send_heartbeat w c).0.jobs ≡ c.jobs)
      × (handle_worker_disconnect w' id (send_heartbeat w c).0 ≡ ((send_heartbeat w c).0, []))
unfolding send_heartbeat handle_worker_disconnect
send_heartbeat-silent w w' c id worker h late =
    let gone = beat-timed_out w c id worker c.workers c.workers h (ground arith) in
    (gone, refl, ground arith)

track_job-tracked :
    (w : World) (job_id : String) (cfg : JobConfig) (ids : List String) (c : Coordinator)
    → lookup job_id (track_job w job_id cfg ids c).jobs ≢ none
unfolding track_job
track_job-tracked w job_id cfg ids c e = insert-ne-none job_id _ c.jobs e

launch_no_strategy :
    (w : World) (job_id : String) (cfg : JobConfig) (ids : List String) (d : Option String)
    (c : Coordinator)
    → cfg.strategy ≡ none
    → launch_job w job_id cfg ids d c ≡ (track_job w job_id cfg ids c, [], failed)
unfolding launch_job initialize
launch_no_strategy w job_id cfg ids d c s = ground arith

no_strategy :
    (w : World) (job_id : String) (cfg : JobConfig) (c : Coordinator) (x : Candidate)
    (xs : List Candidate) (r d : Option String)
    → cfg.strategy ≡ none
    → select_workers_for_job cfg c.workers ≡ some (x ∷ xs)
    → w.answer 0 ≡ row r
    → w.answer 1 ≡ row d
    → start_job w job_id cfg c ≡ (
      track_job w job_id cfg (candidate_ids (x ∷ xs)) c,
      ask (find_job job_id)
          ∷ ask (add_distributed job_id (candidate_ids (x ∷ xs)) tensor_parallel)
          ∷ [],
      failed,
    )
unfolding start_job
no_strategy w job_id cfg c x xs r d s h a b =
    ground (arith, launch_no_strategy w job_id cfg (candidate_ids (x ∷ xs)) d c)

-- A job for which no strategy is named never starts, though it is recorded as tensor parallel: with
-- workers at hand and a database that answers, the coordinator tracks the job, asks for the record
-- of the distributed job with the default strategy, and reports a failure.
start_job-no_strategy :
    (w : World) (job_id : String) (cfg : JobConfig) (c : Coordinator) (x : Candidate)
    (xs : List Candidate) (r d : Option String)
    → cfg.strategy ≡ none
    → select_workers_for_job cfg c.workers ≡ some (x ∷ xs)
    → w.answer 0 ≡ row r
    → w.answer 1 ≡ row d
    → (start_job w job_id cfg c ≡ (
      track_job w job_id cfg (candidate_ids (x ∷ xs)) c,
      ask (find_job job_id)
          ∷ ask (add_distributed job_id (candidate_ids (x ∷ xs)) tensor_parallel)
          ∷ [],
      failed,
    ))
      × (lookup job_id (start_job w job_id cfg c).0.jobs ≢ none)
start_job-no_strategy w job_id cfg c x xs r d s h a b =
    let never = no_strategy w job_id cfg c x xs r d s h a b in
    (never, rw never (track_job-tracked w job_id cfg _ c))
