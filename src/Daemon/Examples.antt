-- ===== src/Daemon/Examples.antt =====
-- Tests of the daemon.
use infernet_protocol.Common.{
  ℕ, ◌≡◌, ◌≤◌, refl, true, false, none, some, List, [], ◌∷◌, ◌++◌, String, All, all,
}
use infernet_protocol.Common.Js.{Js, undefined, str, obj, end, field}
use infernet_protocol.Common.{get_elem?}
use infernet_protocol.Control.Store.{err, ask}
use infernet_protocol.Control.Jobs.{emit_job_events, event_rows, event_row}
use infernet_protocol.Control.TestServer.{server, texts, cpr, db}
use infernet_protocol.Daemon.Upload.{
  Moment, Chat, closes, throws, answered, failed, execute_chat_job, relay, push, flush, forward,
  no_answer,
}
use infernet_protocol.Daemon.Posted.{Posts, events_of, is_told, execute_chat_job-Posts}
use infernet_protocol.Daemon.Accepted.{IsUnrefused, execute_chat_job-IsUnrefused}
use infernet_protocol.Daemon.State.{running, Job, executing}
use infernet_protocol.Daemon.Loop.{
  Happening, heartbeat_due, specs_ready, poll_due, poll_answered, arrives, signalled, chat_result,
  job_executed, complete_answered, heartbeats, polls_jobs, polls_commands, goes_on, command_due,
  started, run, step,
}
use infernet_protocol.Daemon.Reached.{IsSound, started-IsSound}
use infernet_protocol.Daemon.Quiet.{is_no_poll, heartbeat_count, run-IsLast}

abbrev chat : Chat
chat = record {
  node_id = str "n1";
  node_name = undefined;
  model_name = str "llama";
  engine_kind = str "stub";
  show = λ v. "";
}

abbrev at_ms : ℕ → Moment
at_ms n = record { pushed_at = n; flushed_at = n; iso = "now" }

abbrev token : String → Js
token t = obj (field "type" (str "token") (field "text" (str t) end))

abbrev done : Js
done = obj (field "type" (str "done") end)

abbrev log : Js
log = obj (field "type" (str "log") end)

abbrev talk : List (Moment × Js)
talk = (at_ms 10, token "a") ∷ (at_ms 300, token "b") ∷ (at_ms 310, done) ∷ []

execute_chat_job-Posts_example :
    Posts
      (events_of chat talk no_answer)
      (is_told talk (closes 320))
      (execute_chat_job chat 0 talk (closes 320)).0
execute_chat_job-Posts_example = execute_chat_job-Posts chat 0 talk (closes 320)

-- The answer of a stream, whole.
answer_whole :
    (execute_chat_job chat 0 talk (closes 320)).1
    ≡ answered (record { text = "ab"; token_count = 2 })
unfolding execute_chat_job relay push flush forward
answer_whole = refl

-- A stream that throws leaves its last events behind.
last_lost :
    execute_chat_job chat 0 ((at_ms 10, token "a") ∷ []) (throws (str "gone"))
    ≡ ([], failed (str "gone"))
unfolding execute_chat_job relay push flush forward
last_lost = refl

execute_chat_job-IsUnrefused_example :
    All
      (λ es. (d : server.Db) → IsUnrefused server texts cpr "k1" "j1" es d)
      (execute_chat_job chat 0 talk (closes 320)).0
execute_chat_job-IsUnrefused_example =
    execute_chat_job-IsUnrefused server texts cpr chat 0 talk (closes 320) "k1" "j1" refl refl

-- A message of another type is forwarded, and the control plane refuses the tokens with it.
log_refuses :
    emit_job_events server texts cpr "k1" "j1"
      (get_elem?
        (execute_chat_job chat 0 ((at_ms 10, token "a") ∷ (at_ms 20, log) ∷ []) (closes 30)).0
        0)
      db
    ≡ (db, err 400)
unfolding emit_job_events execute_chat_job relay push flush forward event_rows event_row ask
log_refuses = refl

abbrev sample_job : Job
sample_job = record { id = "j1"; job_type = some "chat" }

-- Two polls that are answered while the first job runs.
abbrev twice : List (ℕ × Happening)
twice =
    (0, poll_answered (some (sample_job ∷ [])))
    ∷ (15000, poll_answered (some (sample_job ∷ [])))
    ∷ []

-- The job is executed twice at the same time.
executed_twice :
    (run true twice started).0.runs
    ≡ record { work = executing sample_job; rest = [] }
      ∷ record { work = executing sample_job; rest = [] }
      ∷ []
unfolding run step
executed_twice = refl

started-IsSound_example :
    IsSound
      (run true
        (twice
          ++ (20000, arrives 0 (job_executed (chat_result 5 700)))
            ∷ (20100, arrives 0 (complete_answered none))
            ∷ [])
        started).0
started-IsSound_example = started-IsSound true (
    twice
    ++ (20000, arrives 0 (job_executed (chat_result 5 700)))
      ∷ (20100, arrives 0 (complete_answered none))
      ∷ [])

-- The first calls and the timers.
abbrev set_up : List (ℕ × Happening)
set_up = (0, goes_on) ∷ (10, specs_ready) ∷ (20, goes_on) ∷ (30, goes_on) ∷ (40, goes_on) ∷ []

abbrev waiting : List (ℕ × Happening)
waiting = set_up ++ (30000, heartbeat_due) ∷ []

abbrev later : List (ℕ × Happening)
later =
    (30010, specs_ready) ∷ (45000, poll_due) ∷ (60000, heartbeat_due) ∷ (60001, command_due) ∷ []

is_running : (run true waiting started).0.stage ≡ running
unfolding run step
is_running = refl

is_up : (run true waiting started).0.shutting_down ≡ false
unfolding run step
is_up = refl

is_alive : (run true waiting started).0.exited ≡ false
unfolding run step
is_alive = refl

-- The node is reported available after it was reported offline, and commands are polled still.
offline_then_available :
    (run true (waiting ++ (30001, signalled) ∷ later) started).1
    ≡ heartbeats "available"
      ∷ polls_jobs
      ∷ polls_commands
      ∷ heartbeats "offline"
      ∷ heartbeats "available"
      ∷ polls_commands
      ∷ []
unfolding run step
offline_then_available = refl

-- A shutdown that begins during the first heartbeat stops neither the polls nor the timers.
poll_after_offline :
    (run true
      ((0, goes_on)
        ∷ (1, signalled)
        ∷ (2, goes_on)
        ∷ (3, goes_on)
        ∷ (4, goes_on)
        ∷ (15000, poll_due)
        ∷ [])
      started).1
    ≡ heartbeats "offline" ∷ polls_jobs ∷ polls_commands ∷ polls_jobs ∷ []
unfolding run step
poll_after_offline = refl

run-IsLast_example :
    ((step true 30001 signalled (run true waiting started).0).1 ≡ heartbeats "offline" ∷ [])
    × (all is_no_poll (run true later (step true 30001 signalled (run true waiting started).0).0).1
        ≡ true)
    × (heartbeat_count (run true later (step true 30001 signalled (run true waiting started).0).0).1
        ≤ (run true waiting started).0.heartbeats_waiting)
run-IsLast_example = run-IsLast true waiting later 30001 is_running is_up is_alive
