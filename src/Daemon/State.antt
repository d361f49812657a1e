-- ===== src/Daemon/State.antt =====
-- apps/cli/commands/start.js: what the daemon keeps. Times are milliseconds.
use infernet_protocol.Common.{
  ℕ, suc, ◌+◌, Bool, Option, none, some, List, [], ◌∷◌, ◌++◌, String, str_eq, not, keep, any, ltb,
  ◌==◌, length, if◌then◌else◌,
}

pub record Stats : Type 0 where
  pub heartbeats_ok : ℕ
  pub heartbeats_failed : ℕ
  pub last_heartbeat_at : Option ℕ
  pub last_heartbeat_error : Option String
  pub jobs_picked : ℕ
  pub jobs_completed : ℕ
  pub jobs_failed : ℕ
  pub last_job_at : Option ℕ
  pub last_poll_at : Option ℕ
  pub polls_ok : ℕ
  pub polls_failed : ℕ
  pub active_job_ids : List String

abbrev pub no_stats : Stats
no_stats = record {
  heartbeats_ok = 0;
  heartbeats_failed = 0;
  last_heartbeat_at = none;
  last_heartbeat_error = none;
  jobs_picked = 0;
  jobs_completed = 0;
  jobs_failed = 0;
  last_job_at = none;
  last_poll_at = none;
  polls_ok = 0;
  polls_failed = 0;
  active_job_ids = [];
}

-- A finished chat job in the ring of benchmarks.
pub record Sample : Type 0 where
  pub tokens : ℕ
  pub ms : ℕ
  pub at : ℕ

-- A job as a poll gives it.
pub record Job : Type 0 where
  pub id : String
  pub job_type : Option String

-- Where a call of `pollJobs` stands: what it waits for, for its job.
pub data Work : Type 0 where
  executing completing reporting : Job → Work
  posting : Job → String → Work
  over : Work

-- A call of `pollJobs`, with the jobs that it comes to later.
pub record Run : Type 0 where
  pub work : Work
  pub rest : List Job

-- Where the body of `runDaemon` stands, once it listens for signals: before its first heartbeat, its
-- first poll, its first poll of commands, the setting of its timers, or past it.
pub data Stage : Type 0 where
  first_heartbeat first_poll first_commands set_timers running : Stage

pub record Daemon : Type 0 where
  pub stats : Stats
  pub bench_ring : List Sample
  pub runs : List Run
  -- The calls of `heartbeat` that wait for the node's specs.
  pub heartbeats_waiting : ℕ
  pub heartbeat_timer : Bool
  pub poll_timer : Bool
  pub command_timer : Bool
  pub stage : Stage
  pub shutting_down : Bool
  pub exited : Bool

-- `set.add(id)` and `set.delete(id)`
abbrev pub set_add : String → List String → List String
set_add id ids = if any (str_eq id) ids then ids else ids ++ id ∷ []

abbrev pub set_delete : String → List String → List String
set_delete id ids = keep (λ j. not (str_eq j id)) ids

abbrev pub bench_ring_max : ℕ
bench_ring_max = 32

-- `while (benchRing.length > BENCH_RING_MAX) benchRing.shift()`
unfoldable pub shift_excess : List Sample → List Sample
shift_excess [] = []
shift_excess (e ∷ es) =
    let later = shift_excess es in if ltb bench_ring_max (suc (length es)) then later else e ∷ es

-- `recordBench`
unfoldable pub record_bench : ℕ → ℕ → ℕ → List Sample → List Sample
record_bench now token_count duration_ms ring =
    if duration_ms == 0
    then ring
    else if token_count == 0
    then ring
    else shift_excess (ring ++ record { tokens = token_count; ms = duration_ms; at = now } ∷ [])

abbrev pub total_tokens : List Sample → ℕ
total_tokens [] = 0
total_tokens (e ∷ es) = e.tokens + total_tokens es

abbrev pub total_ms : List Sample → ℕ
total_ms [] = 0
total_ms (e ∷ es) = e.ms + total_ms es

-- A summary: the tokens and the milliseconds whose quotient is the average.
pub record Summary : Type 0 where
  pub tokens : ℕ
  pub ms : ℕ
  pub samples : ℕ
  pub window_started_at : ℕ

-- `benchSummary`
unfoldable pub bench_summary : List Sample → Option Summary
bench_summary [] = none
bench_summary (e ∷ es) =
    if total_ms (e ∷ es) == 0
    then none
    else some (record {
      tokens = total_tokens (e ∷ es);
      ms = total_ms (e ∷ es);
      samples = suc (length es);
      window_started_at = e.at;
    })
