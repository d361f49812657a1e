-- ===== src/Daemon/Quiet.antt =====
-- The shutdown of the daemon of apps/cli/commands/start.js.
use infernet_protocol.Common.{
  ℕ, suc, zero, ◌+◌, ◌≤◌, ◌≡◌, refl, sym, ◌∙◌, Bool, true, false, inl, inr, Option, none, some,
  Option-cases, List, [], ◌∷◌, ◌++◌, String, all, arith, get_elem?, if_split_rule,
}
use infernet_protocol.Daemon.State.{
  Job, Run, Daemon, Work, executing, completing, posting, reporting, over, running,
}
use infernet_protocol.Daemon.Loop.{
  Call, heartbeats, polls_jobs, polls_commands, completes_command, goes_on, command_due,
  command_ends, go_on, start_command_poll, completes, posts_error, fails, chat_result, stub_result,
  threw, Arrival, job_executed, complete_answered, error_posted, failure_answered, Happening,
  heartbeat_due, specs_ready, poll_due, heartbeat_answered, poll_answered, arrives, signalled,
  offline_answered, started, next_job, on_poll, is_chat, on_error, advance, put_run, at_run,
  less_waiting, live_step, step, run,
}

-- Whether a request is no poll, and whether it is a heartbeat.
abbrev pub is_no_poll : Call → Bool
is_no_poll polls_jobs = false
is_no_poll _ = true

abbrev pub heartbeat_count : List Call → ℕ
heartbeat_count [] = 0
heartbeat_count (heartbeats status ∷ cs) = suc (heartbeat_count cs)
heartbeat_count (polls_jobs ∷ cs) = heartbeat_count cs
heartbeat_count (completes id ∷ cs) = heartbeat_count cs
heartbeat_count (posts_error id m ∷ cs) = heartbeat_count cs
heartbeat_count (fails id m ∷ cs) = heartbeat_count cs
heartbeat_count (polls_commands ∷ cs) = heartbeat_count cs
heartbeat_count (completes_command id ∷ cs) = heartbeat_count cs

-- The body of `runDaemon` is past the setting of the timers, and after `shutdown` they are off, but
-- for the one of the commands.
abbrev pub IsCalm : Daemon → Type 0
IsCalm d =
    (d.stage ≡ running)
    × (d.shutting_down ≡ true → (d.heartbeat_timer ≡ false) × (d.poll_timer ≡ false))

-- The parts that a run leaves as they are, and what it sends.
abbrev Leaves : Daemon → Daemon × Run × List Call → Type 0
Leaves d (d', r, out) =
    (d'.stage ≡ d.stage)
    × (d'.shutting_down ≡ d.shutting_down)
    × (d'.heartbeat_timer ≡ d.heartbeat_timer)
    × (d'.poll_timer ≡ d.poll_timer)
    × (d'.heartbeats_waiting ≡ d.heartbeats_waiting)
    × (all is_no_poll out ≡ true)
    × (heartbeat_count out ≡ 0)

next_job-Leaves :
    (now : ℕ) (js : List Job) (d : Daemon)
    → Leaves d ((next_job now js d).0, (next_job now js d).1, [])
next_job-Leaves now [] d = (refl, refl, refl, refl, refl, refl, refl)
next_job-Leaves now (j ∷ js) d = (refl, refl, refl, refl, refl, refl, refl)

on_error-Leaves :
    (message : String) (j : Job) (rest : List Job) (d : Daemon)
    → Leaves d (on_error message j rest d)
on_error-Leaves message j rest d =
    if_split_rule (Leaves d) (is_chat j) _ _ (λ t. (refl, refl, refl, refl, refl, refl, refl))
      (λ f. (refl, refl, refl, refl, refl, refl, refl))

advance_work-Leaves :
    (now : ℕ) (h : Arrival) (w : Work) (rest : List Job) (d : Daemon)
    → Leaves d (advance now h (record { work = w; rest = rest }) d)
unfolding advance
advance_work-Leaves now (job_executed (chat_result t ms)) (executing j) rest d =
    (refl, refl, refl, refl, refl, refl, refl)
advance_work-Leaves now (job_executed stub_result) (executing j) rest d =
    (refl, refl, refl, refl, refl, refl, refl)
advance_work-Leaves now (job_executed (threw m)) (executing j) rest d = on_error-Leaves m j rest d
advance_work-Leaves now (complete_answered x) (executing j) rest d =
    (refl, refl, refl, refl, refl, refl, refl)
advance_work-Leaves now error_posted (executing j) rest d =
    (refl, refl, refl, refl, refl, refl, refl)
advance_work-Leaves now failure_answered (executing j) rest d =
    (refl, refl, refl, refl, refl, refl, refl)
advance_work-Leaves now (job_executed x) (completing j) rest d =
    (refl, refl, refl, refl, refl, refl, refl)
advance_work-Leaves now (complete_answered none) (completing j) rest d = next_job-Leaves now rest _
advance_work-Leaves now (complete_answered (some m)) (completing j) rest d =
    on_error-Leaves m j rest d
advance_work-Leaves now error_posted (completing j) rest d =
    (refl, refl, refl, refl, refl, refl, refl)
advance_work-Leaves now failure_answered (completing j) rest d =
    (refl, refl, refl, refl, refl, refl, refl)
advance_work-Leaves now (job_executed x) (posting j m) rest d =
    (refl, refl, refl, refl, refl, refl, refl)
advance_work-Leaves now (complete_answered x) (posting j m) rest d =
    (refl, refl, refl, refl, refl, refl, refl)
advance_work-Leaves now error_posted (posting j m) rest d =
    (refl, refl, refl, refl, refl, refl, refl)
advance_work-Leaves now failure_answered (posting j m) rest d =
    (refl, refl, refl, refl, refl, refl, refl)
advance_work-Leaves now (job_executed x) (reporting j) rest d =
    (refl, refl, refl, refl, refl, refl, refl)
advance_work-Leaves now (complete_answered x) (reporting j) rest d =
    (refl, refl, refl, refl, refl, refl, refl)
advance_work-Leaves now error_posted (reporting j) rest d =
    (refl, refl, refl, refl, refl, refl, refl)
advance_work-Leaves now failure_answered (reporting j) rest d = next_job-Leaves now rest d
advance_work-Leaves now h over rest d = (refl, refl, refl, refl, refl, refl, refl)

-- Of a daemon that shuts down: it goes on to, it sends no poll, and each heartbeat that it sends
-- was under way.
abbrev IsLast : Daemon → Daemon × List Call → Type 0
IsLast d (d', out) =
    (d'.shutting_down ≡ true)
    × (all is_no_poll out ≡ true)
    × (heartbeat_count out + d'.heartbeats_waiting ≡ d.heartbeats_waiting)

-- A step keeps the timers off, and when they are off it is quiet.
abbrev Keeps : Daemon → Daemon × List Call → Type 0
Keeps d (d', out) = IsCalm d → IsCalm d' × (d.shutting_down ≡ true → IsLast d (d', out))

put_run-Keeps :
    (i : ℕ) (d : Daemon) (p : Daemon × Run × List Call) → Leaves d p → Keeps d (put_run i d.runs p)
put_run-Keeps i d (d', r, out) (g, s, h, p, w, a, c) (past, calm) = (
  (g ∙ past, (λ e. let (h', p') = calm (sym s ∙ e) in (h ∙ h', p ∙ p'))),
  (λ e. (s ∙ e, a, omega (arith, w, c))),
)

at_run-Keeps : (now i : ℕ) (h : Arrival) (d : Daemon) → Keeps d (at_run now i h d)
unfolding at_run
at_run-Keeps now i h d = elim (Option-cases (get_elem? d.runs i)) [
  | inl e ↦ rw (e, at_run) (λ calm. (calm, (λ s. (s, refl, omega arith))))
  | inr (r, e) ↦
      rw (e, at_run)
        (put_run-Keeps i d (advance now h r d) (advance_work-Leaves now h r.work r.rest d))
]

stays : (d : Daemon) → Keeps d (d, [])
stays d calm = (calm, (λ s. (s, refl, omega arith)))

on_poll-Keeps : (now : ℕ) (jobs : Option (List Job)) (d : Daemon) → Keeps d (on_poll now jobs d, [])
on_poll-Keeps now none d calm = (calm, (λ s. (s, refl, omega arith)))
on_poll-Keeps now (some []) d calm = (calm, (λ s. (s, refl, omega arith)))
on_poll-Keeps now (some (j ∷ js)) d calm = (calm, (λ s. (s, refl, omega arith)))

no_timer : {P : Type 0} (b : Bool) → b ≡ false → b ≡ true → P
no_timer b h k = cc

live_step-Keeps :
    (is_provider : Bool) (now : ℕ) (h : Happening) (d : Daemon)
    → Keeps d (live_step is_provider now h d)
live_step-Keeps p now heartbeat_due d =
    if_split_rule (Keeps d) d.heartbeat_timer _ _
      (λ t. (λ calm. (calm, (λ s. no_timer d.heartbeat_timer (calm.1 s).0 t)))) (λ f. stays d)
live_step-Keeps p now specs_ready d = sent d.heartbeats_waiting refl
  where
    sent : (n : ℕ) → d.heartbeats_waiting ≡ n → Keeps d (less_waiting n d)
    sent zero e = stays d
    sent (suc n) e = λ calm. (calm, (λ s. (s, refl, omega (arith, e))))
live_step-Keeps p now poll_due d =
    if_split_rule (Keeps d) d.poll_timer _ _
      (λ t. λ calm.
        if_split_rule
          (λ (q : Daemon × List Call). IsCalm q.0 × (d.shutting_down ≡ true → IsLast d q)) p _ _
          (λ x. (calm, (λ s. no_timer d.poll_timer (calm.1 s).1 t)))
          (λ x. (calm, (λ s. no_timer d.poll_timer (calm.1 s).1 t))))
      (λ f. stays d)
live_step-Keeps p now (heartbeat_answered none) d = λ calm. (calm, (λ s. (s, refl, omega arith)))
live_step-Keeps p now (heartbeat_answered (some e)) d =
    λ calm. (calm, (λ s. (s, refl, omega arith)))
live_step-Keeps p now (poll_answered jobs) d = on_poll-Keeps now jobs d
live_step-Keeps p now (arrives i h) d = at_run-Keeps now i h d
live_step-Keeps p now signalled d =
    if_split_rule (Keeps d) d.shutting_down _ _ (λ t. stays d)
      (λ f. λ calm. ((calm.0, (λ e. (refl, refl))), (λ s. no_timer d.shutting_down f s)))
live_step-Keeps p now offline_answered d =
    if_split_rule (λ (d' : Daemon). Keeps d (d', [])) d.shutting_down _ _
      (λ t. λ calm. (calm, (λ s. (s, refl, omega arith)))) (λ f. stays d)
live_step-Keeps p now goes_on d =
    λ calm. let past = calm.0 in rw (past, go_on) ((refl, calm.1), (λ s. (s, refl, omega arith)))
live_step-Keeps p now command_due d =
    if_split_rule (Keeps d) d.command_timer _ _ (λ t. polled p) (λ f. stays d)
  where
    polled : (b : Bool) → Keeps d (start_command_poll b d)
    polled true calm = (calm, (λ s. (s, refl, omega arith)))
    polled false calm = (calm, (λ s. (s, refl, omega arith)))
live_step-Keeps p now (command_ends id) d = λ calm. (calm, (λ s. (s, refl, omega arith)))

step-Keeps :
    (is_provider : Bool) (now : ℕ) (h : Happening) (d : Daemon) → Keeps d (step is_provider now h d)
unfolding step
step-Keeps p now h d =
    if_split_rule (Keeps d) d.exited _ _ (λ t. stays d) (λ f. live_step-Keeps p now h d)

all-append :
    (xs ys : List Call)
    → all is_no_poll xs ≡ true
    → all is_no_poll ys ≡ true
    → all is_no_poll (xs ++ ys) ≡ true
all-append [] ys h k = k
all-append (x ∷ xs) ys h k = ground (arith, all-append xs ys)

heartbeat_count-append :
    (xs ys : List Call) → heartbeat_count (xs ++ ys) ≡ heartbeat_count xs + heartbeat_count ys
heartbeat_count-append [] ys = omega arith
heartbeat_count-append (heartbeats x ∷ xs) ys = omega (arith, heartbeat_count-append xs ys)
heartbeat_count-append (polls_jobs ∷ xs) ys = heartbeat_count-append xs ys
heartbeat_count-append (completes id ∷ xs) ys = heartbeat_count-append xs ys
heartbeat_count-append (posts_error id m ∷ xs) ys = heartbeat_count-append xs ys
heartbeat_count-append (fails id m ∷ xs) ys = heartbeat_count-append xs ys
heartbeat_count-append (polls_commands ∷ xs) ys = heartbeat_count-append xs ys
heartbeat_count-append (completes_command id ∷ xs) ys = heartbeat_count-append xs ys

run-Keeps :
    (is_provider : Bool) (hs : List (ℕ × Happening)) (d : Daemon) → Keeps d (run is_provider hs d)
unfolding run
run-Keeps p [] d = stays d
run-Keeps p ((now, h) ∷ hs) d = λ calm.
    let (calm', quiet) = step-Keeps p now h d calm in
    let (calm'', quiet') = run-Keeps p hs (step p now h d).0 calm' in
    (
      calm'',
      (λ s.
          let (down, silent, sent) = quiet s in
          let (down', silent', sent') = quiet' down in
          let out = (step p now h d).1 in
          let later = (run p hs (step p now h d).0).1 in
          (
            down',
            all-append out later silent silent',
            omega (arith, sent, sent', heartbeat_count-append out later),
          )),
    )

-- If a daemon is told to shut down when its timers are set and it neither shuts down nor has exited,
-- then, whatever happened before and happens later, it polls for no more jobs, and it sends no more
-- heartbeats than were waiting for the node's specs at that moment, besides the one that says that it
-- is offline.
pub run-IsLast :
    (is_provider : Bool) (before after : List (ℕ × Happening)) (now : ℕ)
    → (run is_provider before started).0.stage ≡ running
    → (run is_provider before started).0.shutting_down ≡ false
    → (run is_provider before started).0.exited ≡ false
    → ((step is_provider now signalled (run is_provider before started).0).1
        ≡ heartbeats "offline" ∷ [])
      × (all is_no_poll
            (run is_provider after
              (step is_provider now signalled (run is_provider before started).0).0).1
          ≡ true)
      × (heartbeat_count
            (run is_provider after
              (step is_provider now signalled (run is_provider before started).0).0).1
          ≤ (run is_provider before started).0.heartbeats_waiting)
unfolding step
run-IsLast p before after now past up alive =
    let d = (run p before started).0 in
    let down : Daemon = record d {
      shutting_down = true;
      heartbeat_timer = false;
      poll_timer = false;
      exited = false;
    } in
    let (calm, quiet) = run-Keeps p after down (past, (λ s. (refl, refl))) in
    let (still, silent, sent) = quiet refl in rw (alive, up) (refl, silent, omega (arith, sent))
