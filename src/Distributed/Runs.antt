-- ===== src/Distributed/Runs.antt =====
-- The coordinator under any sequence of messages, disconnects, heartbeats, timeouts and job starts,
-- and the places that jobs hold at workers.
use infernet_protocol.Common.{ℕ, ◌≡◌, refl, Option, none, some, List, [], ◌∷◌, String, inl, In}
use infernet_protocol.Common.Maps.{lookup}
use infernet_protocol.Distributed.State.{JobConfig, Worker, Coordinator, World}
use infernet_protocol.Distributed.Jobs.{launch_job, start_job}
use infernet_protocol.Distributed.Settle.{
  handle_job_timeout, handle_worker_disconnect, send_heartbeat, cleanup_job,
}
use infernet_protocol.Distributed.Registry.{Incoming, handle_worker_message}
use infernet_protocol.Distributed.Accounting.{
  Lists, active, IsAccounted, cleanup_job-IsAccounted, handle_job_timeout-IsAccounted,
  handle_worker_disconnect-IsAccounted, send_heartbeat-IsAccounted,
}
use infernet_protocol.Distributed.Handlers.{
  handle_worker_message-IsAccounted, launch_job-IsAccounted, start_job-IsAccounted,
}

-- One step of a coordinator: a handler up to the cleanup that it waits for, the cleanup, or a start.
-- A job can be cleaned up at any time, which covers every order in which its handlers go on.
pub data Step : Coordinator → Coordinator → Type 0 where
  message :
      {c : Coordinator} (w : World) (ws : ℕ) (ws_id : String) (m : Incoming)
      → Step c (handle_worker_message w ws ws_id m c).0
  disconnect :
      {c : Coordinator} (w : World) (id : String) → Step c (handle_worker_disconnect w id c).0
  beat : {c : Coordinator} (w : World) → Step c (send_heartbeat w c).0
  timeout :
      {c : Coordinator} (w : World) (job_id : String) → Step c (handle_job_timeout w job_id c).0
  cleanup : {c : Coordinator} (job_id : String) → Step c (cleanup_job job_id c)
  launch :
      {c : Coordinator} (w : World) (job_id : String) (cfg : JobConfig) (ids : List String)
      (d : Option String)
      → Step c (launch_job w job_id cfg ids d c).0
  start :
      {c : Coordinator} (w : World) (job_id : String) (cfg : JobConfig)
      → Step c (start_job w job_id cfg c).0

-- What a new coordinator comes to by steps.
pub data Reachable : Coordinator → Type 0 where
  init : {c : Coordinator} → c.workers ≡ [] → c.jobs ≡ [] → Reachable c
  next : {c c' : Coordinator} → Reachable c → Step c c' → Reachable c'

-- The job that a step starts is not tracked at that moment; `startJob` does not look.
abbrev pub StartsNew : {c c' : Coordinator} → Step c c' → Type 0
StartsNew {c} (message w ws ws_id m) = Unit
StartsNew {c} (disconnect w id) = Unit
StartsNew {c} (beat w) = Unit
StartsNew {c} (timeout w job_id) = Unit
StartsNew {c} (cleanup job_id) = Unit
StartsNew {c} (launch w job_id cfg ids d) = lookup job_id c.jobs ≡ none
StartsNew {c} (start w job_id cfg) = lookup job_id c.jobs ≡ none

-- No job was started again while it was tracked.
abbrev pub NoRestart : {c : Coordinator} → Reachable c → Type 0
NoRestart (init e f) = Unit
NoRestart (next r st) = NoRestart r × StartsNew st

Step-IsAccounted :
    {c c' : Coordinator} (st : Step c c') → StartsNew st → IsAccounted c → IsAccounted c'
Step-IsAccounted {c} (message w ws ws_id m) new a =
    handle_worker_message-IsAccounted w ws ws_id m c a
Step-IsAccounted {c} (disconnect w id) new a = handle_worker_disconnect-IsAccounted w id c a
Step-IsAccounted {c} (beat w) new a = send_heartbeat-IsAccounted w c a
Step-IsAccounted {c} (timeout w job_id) new a = handle_job_timeout-IsAccounted w job_id c a
Step-IsAccounted {c} (cleanup job_id) new a = cleanup_job-IsAccounted job_id c a
Step-IsAccounted {c} (launch w job_id cfg ids d) new a =
    launch_job-IsAccounted w job_id cfg ids d c new a
Step-IsAccounted {c} (start w job_id cfg) new a = start_job-IsAccounted w job_id cfg c new a

Reachable-IsAccounted : {c : Coordinator} (r : Reachable c) → NoRestart r → IsAccounted c
unfolding lookup
Reachable-IsAccounted (init {c} e _) new id y m =
    let m' : In y (active (lookup id [])) = rw e at m in absurd m'
Reachable-IsAccounted (next r st) (before, new) id y m =
    Step-IsAccounted st new (Reachable-IsAccounted r before) id y m

-- In every state that a coordinator reaches without starting a job again that it tracks, however the
-- waiting handlers are interleaved, each place that a job holds at a worker belongs to a job that is
-- tracked and that has this worker.
pub Reachable-Lists :
    {c : Coordinator} (id job_id : String) (r : Reachable c)
    → NoRestart r
    → In job_id (active (lookup id c.workers))
    → Lists id (lookup job_id c.jobs)
Reachable-Lists id job_id r new m = Reachable-IsAccounted r new id job_id m

none_active : (s : List String) → ((y : String) → ¬ In y s) → s ≡ []
none_active [] h = refl
none_active (x ∷ s) h = absurd (h x (inl refl))

-- Once no job is tracked, every worker is free again, if no job was started again while it was
-- tracked: no interleaving of results, errors, timeouts, disconnects, cleanups and failed starts
-- leaves a place taken.
pub Reachable-free :
    {c : Coordinator} (id : String) (worker : Worker) (r : Reachable c)
    → NoRestart r
    → c.jobs ≡ []
    → lookup id c.workers ≡ some worker
    → worker.active_jobs ≡ []
unfolding lookup
Reachable-free {c} id worker r new e h = none_active worker.active_jobs λ y m.
    let l : Lists id (lookup y c.jobs) = Reachable-IsAccounted r new id y (rw h m) in
    let l' : Lists id (lookup y []) = rw e at l in absurd l'
