-- ===== src/Daemon/Loop.antt =====
-- apps/cli/commands/start.js: the daemon as the steps between the points where its code waits. A
-- step gives the requests that it sends to the control plane.
use infernet_protocol.Common.{
  ℕ, suc, zero, Bool, true, false, Option, none, some, List, [], ◌∷◌, ◌++◌, String, str_eq,
  get_elem?, if◌then◌else◌,
}
use infernet_protocol.Daemon.State.{
  no_stats, Job, Stage, first_heartbeat, first_poll, first_commands, set_timers, running, executing,
  completing, posting, reporting, over, Run, Daemon, set_add, set_delete, record_bench,
}

-- Requests, by the job's id where they have one.
pub data Call : Type 0 where
  heartbeats : String → Call
  polls_jobs : Call
  completes : String → Call
  posts_error : String → String → Call
  fails : String → String → Call
  polls_commands : Call
  completes_command : String → Call

-- What `processJob` gets from the execution of a job.
pub data Executed : Type 0 where
  chat_result : ℕ → ℕ → Executed
  stub_result : Executed
  threw : String → Executed

-- What a call of `pollJobs` waits for: the execution of its job, the answers to `completeJob`, to
-- `failChatJob` and to `failJob`.
pub data Arrival : Type 0 where
  job_executed : Executed → Arrival
  complete_answered : Option String → Arrival
  error_posted failure_answered : Arrival

-- What can happen to the daemon; a number is the place of a call of `pollJobs`.
pub data Happening : Type 0 where
  heartbeat_due specs_ready poll_due : Happening
  heartbeat_answered : Option String → Happening
  poll_answered : Option (List Job) → Happening
  arrives : ℕ → Arrival → Happening
  signalled offline_answered : Happening
  -- The body of `runDaemon` goes on; here it may at any time, also before its last call is over.
  goes_on command_due : Happening
  -- A command under way ends. The commands are not tracked here: one may end at any time.
  command_ends : String → Happening

-- The daemon when it begins to listen for signals, before its first heartbeat. The option `--once`,
-- with which it ends after its first polls, is left out.
abbrev pub started : Daemon
started = record {
  stats = no_stats;
  bench_ring = [];
  runs = [];
  heartbeats_waiting = 0;
  heartbeat_timer = false;
  poll_timer = false;
  command_timer = false;
  stage = first_heartbeat;
  shutting_down = false;
  exited = false;
}

abbrev pub picked : ℕ → Job → Daemon → Daemon
picked now j d = record d {
  stats = record d.stats {
    jobs_picked = suc d.stats.jobs_picked;
    active_job_ids = set_add j.id d.stats.active_job_ids;
    last_job_at = some now;
  };
}

-- `for (const job of jobs) await processJob(job)`, up to the execution of the next job.
abbrev pub next_job : ℕ → List Job → Daemon → Daemon × Run
next_job now [] d = (d, record { work = over; rest = [] })
next_job now (j ∷ js) d = (picked now j d, record { work = executing j; rest = js })

-- The answer to a poll begins a run of its jobs.
abbrev pub on_poll : ℕ → Option (List Job) → Daemon → Daemon
on_poll now none d = record d { stats = record d.stats { polls_failed = suc d.stats.polls_failed } }
on_poll now (some jobs) d =
    let polled : Daemon = record d { stats = record d.stats { polls_ok = suc d.stats.polls_ok } } in
    let (d', r) = next_job now jobs polled in record d' { runs = d'.runs ++ r ∷ [] }

abbrev pub is_chat : Job → Bool
is_chat j = elim j.job_type [ some t ↦ str_eq t "chat" | none ↦ false ]

-- The start of `processJob`'s `catch`.
abbrev pub on_error : String → Job → List Job → Daemon → Daemon × Run × List Call
on_error message j rest d =
    let d' : Daemon = record d {
      stats = record d.stats {
        jobs_failed = suc d.stats.jobs_failed;
        active_job_ids = set_delete j.id d.stats.active_job_ids;
      };
    } in
    if is_chat j
    then (d', record { work = posting j message; rest = rest }, posts_error j.id message ∷ [])
    else (d', record { work = reporting j; rest = rest }, fails j.id message ∷ [])

-- What follows the execution of a job.
abbrev pub on_executed : ℕ → Executed → Job → List Job → Daemon → Daemon × Run × List Call
on_executed now (chat_result token_count duration_ms) j rest d = (
  record d { bench_ring = record_bench now token_count duration_ms d.bench_ring },
  record { work = completing j; rest = rest },
  completes j.id ∷ [],
)
on_executed now stub_result j rest d =
    (d, record { work = completing j; rest = rest }, completes j.id ∷ [])
on_executed now (threw message) j rest d = on_error message j rest d

-- What follows the request that completes a job.
abbrev pub on_completed : ℕ → Option String → Job → List Job → Daemon → Daemon × Run × List Call
on_completed now none j rest d =
    let d' : Daemon = record d {
      stats = record d.stats {
        jobs_completed = suc d.stats.jobs_completed;
        active_job_ids = set_delete j.id d.stats.active_job_ids;
      };
    } in
    let (d'', r) = next_job now rest d' in (d'', r, [])
on_completed now (some message) j rest d = on_error message j rest d

-- A step of a run: what it waited for has come.
unfoldable pub advance : ℕ → Arrival → Run → Daemon → Daemon × Run × List Call
advance now h r d = elim r.work [
  | executing j ↦ elim h [
    | job_executed result ↦ on_executed now result j r.rest d
    | _ ↦ (d, r, [])
  ]
  | completing j ↦ elim h [
    | complete_answered error ↦ on_completed now error j r.rest d
    | _ ↦ (d, r, [])
  ]
  | posting j message ↦ elim h [
    | error_posted ↦ (d, record { work = reporting j; rest = r.rest }, fails j.id message ∷ [])
    | _ ↦ (d, r, [])
  ]
  | reporting j ↦ elim h [
    | failure_answered ↦ (let (d', r') = next_job now r.rest d in (d', r', []))
    | _ ↦ (d, r, [])
  ]
  | over ↦ (d, r, [])
]

abbrev pub set_elem : ℕ → Run → List Run → List Run
set_elem i r [] = []
set_elem zero r (x ∷ xs) = r ∷ xs
set_elem (suc i) r (x ∷ xs) = x ∷ set_elem i r xs

-- The runs are those before the step, but for the one that made it.
abbrev pub put_run : ℕ → List Run → Daemon × Run × List Call → Daemon × List Call
put_run i runs (d, r, out) = (record d { runs = set_elem i r runs }, out)

unfoldable pub at_run : ℕ → ℕ → Arrival → Daemon → Daemon × List Call
at_run now i h d = elim (get_elem? d.runs i) [
  | none ↦ (d, [])
  | some r ↦ put_run i d.runs (advance now h r d)
]

-- `heartbeat`, up to the detection of the specs.
abbrev pub start_heartbeat : Daemon → Daemon × List Call
start_heartbeat d = (record d { heartbeats_waiting = suc d.heartbeats_waiting }, [])

abbrev pub less_waiting : ℕ → Daemon → Daemon × List Call
less_waiting zero d = (d, [])
less_waiting (suc n) d = (record d { heartbeats_waiting = n }, heartbeats "available" ∷ [])

-- The request of `heartbeat`.
abbrev pub request_heartbeat : Daemon → Daemon × List Call
request_heartbeat d = less_waiting d.heartbeats_waiting d

-- The two ends of `heartbeat`.
abbrev pub on_heartbeat : ℕ → Option String → Daemon → Daemon
on_heartbeat now none d = record d {
  stats = record d.stats {
    heartbeats_ok = suc d.stats.heartbeats_ok;
    last_heartbeat_at = some now;
    last_heartbeat_error = none;
  };
}
on_heartbeat now (some message) d = record d {
  stats = record d.stats {
    heartbeats_failed = suc d.stats.heartbeats_failed;
    last_heartbeat_error = some message;
  };
}

-- `pollJobs`, up to its request.
abbrev pub start_poll : ℕ → Bool → Daemon → Daemon × List Call
start_poll now is_provider d =
    let d' : Daemon = record d { stats = record d.stats { last_poll_at = some now } } in
    if is_provider
    then (d', polls_jobs ∷ [])
    else (record d' { stats = record d'.stats { polls_ok = suc d'.stats.polls_ok } }, [])

-- `pollNodeCommands`, up to its request.
abbrev pub start_command_poll : Bool → Daemon → Daemon × List Call
start_command_poll is_provider d = (d, (if is_provider then polls_commands ∷ [] else []))

-- The end of `runDaemon`: its first calls, and the timers.
abbrev pub go_on : ℕ → Bool → Stage → Daemon → Daemon × List Call
go_on now is_provider first_heartbeat d = start_heartbeat (record d { stage = first_poll })
go_on now is_provider first_poll d =
    start_poll now is_provider (record d { stage = first_commands })
go_on now is_provider first_commands d =
    start_command_poll is_provider (record d { stage = set_timers })
go_on now is_provider set_timers d = (
  record d { heartbeat_timer = true; poll_timer = true; command_timer = true; stage = running },
  [],
)
go_on now is_provider running d = (d, [])

-- `shutdown`, up to its request. It leaves the timer of the commands.
abbrev pub begin_shutdown : Daemon → Daemon × List Call
begin_shutdown d =
    let d' : Daemon = record d {
      shutting_down = true;
      heartbeat_timer = false;
      poll_timer = false;
    } in
    if d.shutting_down then (d, []) else (d', heartbeats "offline" ∷ [])

-- One step of a daemon that has not exited; the first argument is `node.role === 'provider'`.
abbrev pub live_step : Bool → ℕ → Happening → Daemon → Daemon × List Call
live_step is_provider now heartbeat_due d =
    let waiting = start_heartbeat d in if d.heartbeat_timer then waiting else (d, [])
live_step is_provider now specs_ready d = request_heartbeat d
live_step is_provider now poll_due d =
    let polled = start_poll now is_provider d in if d.poll_timer then polled else (d, [])
live_step is_provider now (heartbeat_answered error) d = (on_heartbeat now error d, [])
live_step is_provider now (poll_answered jobs) d = (on_poll now jobs d, [])
live_step is_provider now (arrives i h) d = at_run now i h d
live_step is_provider now signalled d = begin_shutdown d
live_step is_provider now offline_answered d =
    (if d.shutting_down then record d { exited = true } else d, [])
live_step is_provider now goes_on d = go_on now is_provider d.stage d
live_step is_provider now command_due d =
    let polled = start_command_poll is_provider d in if d.command_timer then polled else (d, [])
live_step is_provider now (command_ends id) d = (d, completes_command id ∷ [])

unfoldable pub step : Bool → ℕ → Happening → Daemon → Daemon × List Call
step is_provider now h d =
    let next = live_step is_provider now h d in if d.exited then (d, []) else next

-- A history: the times and what happens.
unfoldable pub run : Bool → List (ℕ × Happening) → Daemon → Daemon × List Call
run is_provider [] d = (d, [])
run is_provider ((now, h) ∷ hs) d =
    let (d', out) = step is_provider now h d in
    let (d'', later) = run is_provider hs d' in (d'', out ++ later)
