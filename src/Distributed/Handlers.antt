-- ===== src/Distributed/Handlers.antt =====
-- What the messages of the workers and the start of a job do to the places that jobs hold.
use infernet_protocol.Common.{
  ℕ, ◌+◌, Bool, ◌≡◌, refl, sym, subst, ap, ◌∙◌, Option, none, some, List, [], ◌∷◌, ◌++◌, String,
  str_eq, eq_iff, arith, Bool-cases, Option-cases, inl, inr, ◌⊎◌, In, any,
}
use infernet_protocol.Common.Maps.{
  lookup, insert, modify, lookup-insert, lookup-insert_self, map_value,
}
use infernet_protocol.Distributed.State.{
  Strategy, tensor_parallel, pipeline_parallel, data_parallel, unsupported, JobConfig, Worker,
  Coordinator, World, Message, Effect, Answer-cases,
}
use infernet_protocol.Distributed.Assign.{select_workers_for_job, Candidate}
use infernet_protocol.Distributed.Jobs.{
  include, add_job, initialize_from, initialize, initialize_tensor_parallelism,
  initialize_pipeline_parallelism, initialize_data_parallelism, track_job, launch_job, start_job,
  record_job, with_selected, run_update, candidate_ids,
}
use infernet_protocol.Distributed.Registry.{
  Incoming, worker_ready, layer_result, worker_status, worker_error, pulse, other, Hello,
  StatusReport, new_worker, register_worker, update_worker_status, handle_worker_message, see,
  report_on,
}
use infernet_protocol.Distributed.Accounting.{
  Lists, active, IsAccounted, active-modify, fewer-IsAccounted, process_layer_result-IsAccounted,
  handle_worker_error-IsAccounted,
}

insert-In :
    (k id y : String) (worker : Worker) (ws : List (String × Worker))
    → worker.active_jobs ≡ []
    → In y (active (lookup id (insert k worker ws)))
    → In y (active (lookup id ws))
insert-In k id y worker ws idle m = elim (Bool-cases (str_eq k id)) [
  | inl same ↦
      let m' : In y worker.active_jobs = rw (lookup-insert k id worker ws, same) at m in
      absurd (rw idle at m')
  | inr apart ↦ rw (lookup-insert k id worker ws, apart) at m
]

register_worker-IsAccounted :
    (w : World) (ws : ℕ) (ws_id : String) (hello : Hello) (c : Coordinator)
    → IsAccounted c
    → IsAccounted (register_worker w ws ws_id hello c).0
unfolding register_worker
register_worker-IsAccounted w ws ws_id hello c a = elim (Answer-cases (w.answer 0)) [
  | inl (e, h) ↦ rw (h, register_worker) a
  | inr (r, h) ↦
      rw (h, register_worker)
        (fewer-IsAccounted c _
          (λ k y. insert-In hello.node_id k y (new_worker w ws hello.capabilities) c.workers refl)
          a)
]

idle-In :
    (f : Worker → Worker) (y : String) (o : Option Worker)
    → ((worker : Worker) → (f worker).active_jobs ≡ worker.active_jobs)
    → In y (active (map_value f o))
    → In y (active o)
idle-In f y none keeps m = m
idle-In f y (some worker) keeps m = subst (In y) (keeps worker) m

modify-In :
    (k id y : String) (f : Worker → Worker) (ws : List (String × Worker))
    → ((worker : Worker) → (f worker).active_jobs ≡ worker.active_jobs)
    → In y (active (lookup id (modify k f ws)))
    → In y (active (lookup id ws))
modify-In k id y f ws keeps m = elim (active-modify k id f y ws m) [
  | inl (_, m') ↦ m'
  | inr (_, m') ↦ idle-In f y (lookup id ws) keeps m'
]

update_worker_status-IsAccounted :
    (w : World) (id : String) (report : StatusReport) (c : Coordinator)
    → IsAccounted c
    → IsAccounted (update_worker_status w id report c).0
unfolding update_worker_status
update_worker_status-IsAccounted w id report c a = elim (Option-cases (lookup id c.workers)) [
  | inl e ↦ rw (e, update_worker_status) a
  | inr (worker, e) ↦
      rw (e, update_worker_status)
        (fewer-IsAccounted c _ (λ k y. modify-In id k y (report_on w report) c.workers (λ x. refl))
          a)
]

pub handle_worker_message-IsAccounted :
    (w : World) (ws : ℕ) (ws_id : String) (m : Incoming) (c : Coordinator)
    → IsAccounted c
    → IsAccounted (handle_worker_message w ws ws_id m c).0
unfolding handle_worker_message
handle_worker_message-IsAccounted w ws ws_id (worker_ready hello) c a =
    register_worker-IsAccounted w ws ws_id hello c a
handle_worker_message-IsAccounted w ws ws_id (layer_result worker_id v b job_id) c a =
    process_layer_result-IsAccounted w worker_id v b job_id c a
handle_worker_message-IsAccounted w ws ws_id (worker_status report) c a =
    update_worker_status-IsAccounted w ws_id report c a
handle_worker_message-IsAccounted w ws ws_id (worker_error job_id message) c a =
    handle_worker_error-IsAccounted w job_id message c a
handle_worker_message-IsAccounted w ws ws_id pulse c a =
    fewer-IsAccounted c _ (λ k y. modify-In ws_id k y (see w) c.workers (λ x. refl)) a
handle_worker_message-IsAccounted w ws ws_id (other type) c a = a

In-snoc : (y x : String) (s : List String) → In y (s ++ x ∷ []) → In y s ⊎ (y ≡ x)
In-snoc y x [] (inl e) = inr e
In-snoc y x [] (inr k) = elim k [ ]
In-snoc y x (z ∷ s) (inl e) = inl (inl e)
In-snoc y x (z ∷ s) (inr k) = elim (In-snoc y x s k) [ inl l ↦ inl (inr l) | inr e ↦ inr e ]

In-include : (y x : String) (s : List String) → In y (include x s) → In y s ⊎ (y ≡ x)
In-include y x s m = elim (Bool-cases (any (str_eq x) s)) [
  | inl there ↦ inl (rw there at m)
  | inr new ↦ In-snoc y x s (rw new at m)
]

add_job-In :
    (job_id y : String) (o : Option Worker)
    → In y (active (map_value (add_job job_id) o))
    → In y (active o) ⊎ (y ≡ job_id)
add_job-In job_id y none m = inl m
add_job-In job_id y (some worker) m = In-include y job_id worker.active_jobs m

mark-IsAccounted :
    (job_id id : String) (c : Coordinator)
    → Lists id (lookup job_id c.jobs)
    → IsAccounted c
    → IsAccounted (record c { workers = modify id (add_job job_id) c.workers })
mark-IsAccounted job_id id c l a k y m = elim (active-modify id k (add_job job_id) y c.workers m) [
  | inl (_, m') ↦ a k y m'
  | inr (same, m') ↦ elim (add_job-In job_id y (lookup k c.workers) m') [
    | inl old ↦ a k y old
    | inr new ↦ rw (new, ← same) l
  ]
]

initialize_from-IsAccounted :
    (w : World) (message : ℕ → Message) (job_id : String) (i : ℕ) (ids : List String)
    (c : Coordinator)
    → ((id : String) → In id ids → Lists id (lookup job_id c.jobs))
    → IsAccounted c
    → IsAccounted (initialize_from w message job_id i ids c).0
unfolding initialize_from
initialize_from-IsAccounted w message job_id i [] c l a = a
initialize_from-IsAccounted w message job_id i (id ∷ ids) c l a =
    elim (Option-cases (lookup id c.workers)) [
      | inl e ↦ rw (e, initialize_from) a
      | inr (worker, e) ↦
          rw (e, initialize_from)
            (initialize_from-IsAccounted w message job_id (i + 1) ids
              (record c { workers = modify id (add_job job_id) c.workers }) (λ k m. l k (inr m))
              (mark-IsAccounted job_id id c (l id (inl refl)) a))
    ]

track_job-IsAccounted :
    (w : World) (job_id : String) (cfg : JobConfig) (ids : List String) (c : Coordinator)
    → lookup job_id c.jobs ≡ none
    → IsAccounted c
    → IsAccounted (track_job w job_id cfg ids c)
unfolding track_job
track_job-IsAccounted w job_id cfg ids c new a id y m = elim (Bool-cases (str_eq job_id y)) [
  | inl same ↦
      let one = (eq_iff job_id y).0 same in
      absurd (subst (Lists id) (ap (λ k. lookup k c.jobs) (sym one) ∙ new) (a id y m))
  | inr apart ↦ rw (lookup-insert job_id y _ c.jobs, apart) (a id y m)
]

track_job-Lists :
    (w : World) (job_id : String) (cfg : JobConfig) (ids : List String) (c : Coordinator)
    (id : String)
    → In id ids
    → Lists id (lookup job_id (track_job w job_id cfg ids c).jobs)
unfolding track_job
track_job-Lists w job_id cfg ids c id m = rw (lookup-insert_self job_id _ c.jobs) m

initialize-IsAccounted :
    (w : World) (job_id : String) (cfg : JobConfig) (ids : List String) (s : Option Strategy)
    (c : Coordinator)
    → ((id : String) → In id ids → Lists id (lookup job_id c.jobs))
    → IsAccounted c
    → IsAccounted (initialize w job_id cfg ids s c).0
unfolding initialize initialize_tensor_parallelism initialize_pipeline_parallelism
    initialize_data_parallelism
initialize-IsAccounted w job_id cfg ids (some tensor_parallel) c l a =
    initialize_from-IsAccounted w _ job_id 0 ids c l a
initialize-IsAccounted w job_id cfg ids (some pipeline_parallel) c l a =
    initialize_from-IsAccounted w _ job_id 0 ids c l a
initialize-IsAccounted w job_id cfg ids (some data_parallel) c l a =
    initialize_from-IsAccounted w _ job_id 0 ids c l a
initialize-IsAccounted w job_id cfg ids (some (unsupported s)) c l a = a
initialize-IsAccounted w job_id cfg ids none c l a = a

run_update-state :
    (w : World) (d : Option String) (m : Coordinator × List Effect × Bool)
    → (run_update w d m).0 ≡ m.0
run_update-state w d (c, sent, done) = ground arith

pub launch_job-IsAccounted :
    (w : World) (job_id : String) (cfg : JobConfig) (ids : List String) (d : Option String)
    (c : Coordinator)
    → lookup job_id c.jobs ≡ none
    → IsAccounted c
    → IsAccounted (launch_job w job_id cfg ids d c).0
unfolding launch_job
launch_job-IsAccounted w job_id cfg ids d c new a = rw (run_update-state w d _) (
    initialize-IsAccounted w job_id cfg ids cfg.strategy (track_job w job_id cfg ids c)
      (track_job-Lists w job_id cfg ids c) (track_job-IsAccounted w job_id cfg ids c new a))

record_job-IsAccounted :
    (w : World) (job_id : String) (cfg : JobConfig) (cs : List Candidate) (c : Coordinator)
    → lookup job_id c.jobs ≡ none
    → IsAccounted c
    → IsAccounted (record_job w job_id cfg cs c).0
record_job-IsAccounted w job_id cfg [] c new a = a
record_job-IsAccounted w job_id cfg (x ∷ xs) c new a = elim (Answer-cases (w.answer 1)) [
  | inl (e, h) ↦ rw (h, record_job) a
  | inr (d, h) ↦
      rw (h, record_job) (launch_job-IsAccounted w job_id cfg (candidate_ids (x ∷ xs)) d c new a)
]

pub start_job-IsAccounted :
    (w : World) (job_id : String) (cfg : JobConfig) (c : Coordinator)
    → lookup job_id c.jobs ≡ none
    → IsAccounted c
    → IsAccounted (start_job w job_id cfg c).0
unfolding start_job
start_job-IsAccounted w job_id cfg c new a = elim (Answer-cases (w.answer 0)) [
  | inl (e, h) ↦ rw (h, start_job) a
  | inr (r, h) ↦ elim (Option-cases (select_workers_for_job cfg c.workers)) [
    | inl fault ↦ rw (h, start_job) (rw (fault, with_selected) a)
    | inr (cs, found) ↦
        rw (h, start_job)
          (rw (found, with_selected) (record_job-IsAccounted w job_id cfg cs c new a))
  ]
]
