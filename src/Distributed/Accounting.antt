-- ===== src/Distributed/Accounting.antt =====
-- Which jobs hold a place at which workers, through the handlers of the coordinator
-- that settle jobs and remove workers.
use infernet_protocol.Common.{
  Bool, ◌≡◌, ◌≢◌, refl, sym, subst, ap, ◌∙◌, Option, none, some, List, [], ◌∷◌, String, str_eq,
  eq_iff, arith, Bool-cases, Option-cases, inl, inr, ◌⊎◌, In,
}
use infernet_protocol.Common.Js.{Js}
use infernet_protocol.Common.Maps.{lookup, delete, modify, lookup-delete, lookup-modify, map_value}
use infernet_protocol.Distributed.State.{Job, Worker, Coordinator, World}
use infernet_protocol.Distributed.Jobs.{remove}
use infernet_protocol.Distributed.Settle.{
  drop_job, release, cleanup_job, finalize_job, process_layer_result, handle_job_timeout,
  handle_job_failure, fail_jobs, handle_worker_disconnect, handle_worker_error, send_heartbeat,
  add_result, add_failure, beat, timed_out,
}

-- The job is tracked, and the worker is one of its workers.
abbrev pub Lists : String → Option Job → Type 0
Lists id none = ⊥
Lists id (some job) = In id job.workers

abbrev pub active : Option Worker → List String
active none = []
active (some worker) = worker.active_jobs

-- Every place that a job holds at a worker is held by a tracked job of that worker.
abbrev pub IsAccounted : Coordinator → Type 0
IsAccounted c =
    (id job_id : String)
    → In job_id (active (lookup id c.workers))
    → Lists id (lookup job_id c.jobs)

In-remove : (x y : String) (s : List String) → In y (remove x s) → (y ≢ x) × In y s
In-remove x y [] m = elim m [ ]
In-remove x y (z ∷ s) m = elim (Bool-cases (str_eq x z)) [
  | inl same ↦ let (d, k) = In-remove x y s (rw same at m) in (d, inr k)
  | inr other ↦
      let m' : (y ≡ z) ⊎ In y (remove x s) = rw other at m in
      elim m' [
        | inl e ↦ (λ q. cc ((eq_iff x z).1 (sym q ∙ e), other), inl e)
        | inr t ↦ let (d, k) = In-remove x y s t in (d, inr k)
      ]
]

-- A change of one worker's places is seen at that worker alone.
pub active-modify :
    (x id : String) (f : Worker → Worker) (y : String) (ws : List (String × Worker))
    → In y (active (lookup id (modify x f ws)))
    → ((x ≢ id) × In y (active (lookup id ws)))
      ⊎ ((x ≡ id) × In y (active (map_value f (lookup id ws))))
active-modify x id f y ws m = elim (Bool-cases (str_eq x id)) [
  | inl same ↦ inr ((eq_iff x id).0 same, rw (lookup-modify x id f ws, same) at m)
  | inr other ↦ inl (λ e. cc ((eq_iff x id).1 e, other), rw (lookup-modify x id f ws, other) at m)
]

drop-In :
    (job_id y : String) (o : Option Worker)
    → In y (active (map_value (drop_job job_id) o))
    → (y ≢ job_id) × In y (active o)
drop-In job_id y none m = elim m [ ]
drop-In job_id y (some worker) m = In-remove job_id y worker.active_jobs m

release-In :
    (job_id id y : String) (ids : List String) (ws : List (String × Worker))
    → In y (active (lookup id (release job_id ids ws)))
    → In y (active (lookup id ws)) × (In id ids → y ≢ job_id)
unfolding release
release-In job_id id y [] ws m = (m, λ k. elim k [ ])
release-In job_id id y (x ∷ ids) ws m =
    let (m', apart) = release-In job_id id y ids (modify x (drop_job job_id) ws) m in
    elim (active-modify x id (drop_job job_id) y ws m') [
      | inl (other, k) ↦ (k, λ t. elim t [ inl e ↦ absurd (other (sym e)) | inr l ↦ apart l ])
      | inr (same, k) ↦ let (d, k') = drop-In job_id y (lookup id ws) k in (k', λ t. d)
    ]

Lists-delete :
    (id y job_id : String) (jobs : List (String × Job))
    → y ≢ job_id
    → Lists id (lookup y jobs)
    → Lists id (lookup y (delete job_id jobs))
Lists-delete id y job_id jobs d l = elim (Bool-cases (str_eq job_id y)) [
  | inl same ↦ absurd (d (sym ((eq_iff job_id y).0 same)))
  | inr other ↦ rw (lookup-delete job_id y jobs, other) l
]

-- Cleaning up after a job gives back its places, and no others.
pub cleanup_job-IsAccounted :
    (job_id : String) (c : Coordinator) → IsAccounted c → IsAccounted (cleanup_job job_id c)
unfolding cleanup_job
cleanup_job-IsAccounted job_id c a id y m = elim (Option-cases (lookup job_id c.jobs)) [
  | inl e ↦ rw (e, cleanup_job) (a id y (rw (e, cleanup_job) at m))
  | inr (job, e) ↦
      let (m', apart) = release-In job_id id y job.workers c.workers (rw (e, cleanup_job) at m) in
      let d : y ≢ job_id =
        λ same. apart (subst (Lists id) (ap (λ k. lookup k c.jobs) same ∙ e) (a id y m')) same in
      rw (e, cleanup_job) (Lists-delete id y job_id c.jobs d (a id y m'))
]

Lists-modify :
    (id y k : String) (f : Job → Job) (jobs : List (String × Job))
    → ((job : Job) → (f job).workers ≡ job.workers)
    → Lists id (lookup y jobs)
    → Lists id (lookup y (modify k f jobs))
Lists-modify id y k f jobs keeps l = elim (Bool-cases (str_eq k y)) [
  | inl same ↦ elim (Option-cases (lookup y jobs)) [
    | inl e ↦ absurd (rw e at l)
    | inr (job, e) ↦
        let l' : In id job.workers = rw e at l in
        rw (lookup-modify k y f jobs, same) (rw e (rw (keeps job) l'))
  ]
  | inr other ↦ rw (lookup-modify k y f jobs, other) l
]

-- A change of a job that keeps its workers keeps the accounts.
pub modify_jobs-IsAccounted :
    (k : String) (f : Job → Job) (c : Coordinator)
    → ((job : Job) → (f job).workers ≡ job.workers)
    → IsAccounted c
    → IsAccounted (record c { jobs = modify k f c.jobs })
modify_jobs-IsAccounted k f c keeps a id y m = Lists-modify id y k f c.jobs keeps (a id y m)

-- Up to the cleanup the handlers that end a job leave the state as it is.
finalize_job-same :
    (w : World) (job_id : String) (c : Coordinator) → (finalize_job w job_id c).0 ≡ c
unfolding finalize_job
finalize_job-same w job_id c = ground arith

handle_job_failure-same :
    (w : World) (job_id reason : String) (c : Coordinator)
    → (handle_job_failure w job_id reason c).0 ≡ c
unfolding handle_job_failure
handle_job_failure-same w job_id reason c = ground arith

pub process_layer_result-IsAccounted :
    (w : World) (worker_id : String) (v : Js) (b : Bool) (job_id : String) (c : Coordinator)
    → IsAccounted c
    → IsAccounted (process_layer_result w worker_id v b job_id c).0
unfolding process_layer_result
process_layer_result-IsAccounted w worker_id v b job_id c a =
    let stored = modify_jobs-IsAccounted job_id (add_result worker_id v) c (λ job. refl) a in
    elim (Option-cases (lookup job_id c.jobs)) [
      | inl e ↦ rw (e, process_layer_result) a
      | inr (job, e) ↦ elim (Bool-cases b) [
        | inl done ↦ rw (e, process_layer_result) (rw (done, finalize_job-same w job_id _) stored)
        | inr more ↦ rw (e, process_layer_result) (rw more stored)
      ]
    ]

pub handle_job_timeout-IsAccounted :
    (w : World) (job_id : String) (c : Coordinator)
    → IsAccounted c
    → IsAccounted (handle_job_timeout w job_id c).0
unfolding handle_job_timeout
handle_job_timeout-IsAccounted w job_id c a =
    let same : (handle_job_timeout w job_id c).0 ≡ c = ground arith in rw same a

handle_job_failure-IsAccounted :
    (w : World) (job_id reason : String) (c : Coordinator)
    → IsAccounted c
    → IsAccounted (handle_job_failure w job_id reason c).0
handle_job_failure-IsAccounted w job_id reason c a =
    rw (handle_job_failure-same w job_id reason c) a

pub handle_worker_error-IsAccounted :
    (w : World) (job_id message : String) (c : Coordinator)
    → IsAccounted c
    → IsAccounted (handle_worker_error w job_id message c).0
unfolding handle_worker_error
handle_worker_error-IsAccounted w job_id message c a = elim (Bool-cases (str_eq job_id "")) [
  | inl blank ↦ rw blank a
  | inr named ↦ rw named (handle_job_failure-IsAccounted w job_id _ c a)
]

fail_jobs-IsAccounted :
    (w : World) (worker_id : String) (job_ids : List String) (c : Coordinator)
    → IsAccounted c
    → IsAccounted (fail_jobs w worker_id job_ids c).0
unfolding fail_jobs
fail_jobs-IsAccounted w worker_id [] c a = a
fail_jobs-IsAccounted w worker_id (job_id ∷ job_ids) c a =
    let marked = record c { jobs = modify job_id (add_failure worker_id) c.jobs } in
    fail_jobs-IsAccounted w worker_id job_ids
      (handle_job_failure w job_id "Worker disconnected" marked).0
      (handle_job_failure-IsAccounted w job_id _ marked
        (modify_jobs-IsAccounted job_id (add_failure worker_id) c (λ job. refl) a))

-- Fewer places, and the same jobs.
pub fewer-IsAccounted :
    (c : Coordinator) (ws : List (String × Worker))
    → ((id y : String) → In y (active (lookup id ws)) → In y (active (lookup id c.workers)))
    → IsAccounted c
    → IsAccounted (record c { workers = ws })
fewer-IsAccounted c ws h a id y m = a id y (h id y m)

delete-In :
    (k id y : String) (ws : List (String × Worker))
    → In y (active (lookup id (delete k ws)))
    → In y (active (lookup id ws))
delete-In k id y ws m = elim (Bool-cases (str_eq k id)) [
  | inl same ↦ absurd (rw (lookup-delete k id ws, same) at m)
  | inr other ↦ rw (lookup-delete k id ws, other) at m
]

pub handle_worker_disconnect-IsAccounted :
    (w : World) (id : String) (c : Coordinator)
    → IsAccounted c
    → IsAccounted (handle_worker_disconnect w id c).0
unfolding handle_worker_disconnect
handle_worker_disconnect-IsAccounted w id c a = elim (Option-cases (lookup id c.workers)) [
  | inl e ↦ rw (e, handle_worker_disconnect) a
  | inr (worker, e) ↦
      let failed = fail_jobs w id worker.active_jobs c in
      rw (e, handle_worker_disconnect)
        (fewer-IsAccounted failed.0 (delete id failed.0.workers)
          (λ k y. delete-In id k y failed.0.workers)
          (fail_jobs-IsAccounted w id worker.active_jobs c a))
]

beat-In :
    (w : World) (c : Coordinator) (id y : String) (entries ws : List (String × Worker))
    → In y (active (lookup id (beat w c entries ws).0))
    → In y (active (lookup id ws))
unfolding beat
beat-In w c id y [] ws m = m
beat-In w c id y ((k, x) ∷ entries) ws m = elim (Bool-cases (timed_out w c x)) [
  | inl late ↦ delete-In k id y ws (beat-In w c id y entries (delete k ws) (rw late at m))
  | inr timely ↦ beat-In w c id y entries ws (rw timely at m)
]

pub send_heartbeat-IsAccounted :
    (w : World) (c : Coordinator) → IsAccounted c → IsAccounted (send_heartbeat w c).0
unfolding send_heartbeat
send_heartbeat-IsAccounted w c a =
    fewer-IsAccounted c _ (λ id y. beat-In w c id y c.workers c.workers) a
