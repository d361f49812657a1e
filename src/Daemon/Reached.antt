-- ===== src/Daemon/Reached.antt =====
-- The daemon of apps/cli/commands/start.js under any history.
use infernet_protocol.Common.{
  ℕ, zero, suc, ◌+◌, ◌≡◌, refl, sym, ap, ◌∙◌, Bool, true, ◌||◌, inl, inr, Option, none, some,
  Option-cases, List, [], ◌∷◌, String, any, arith, get_elem?, if_split_rule,
}
use infernet_protocol.Daemon.State.{
  Job, Run, Daemon, Stage, first_heartbeat, first_poll, first_commands, set_timers, running,
  executing, over,
}
use infernet_protocol.Daemon.Loop.{
  Call, Arrival, Happening, heartbeat_due, specs_ready, poll_due, heartbeat_answered, poll_answered,
  arrives, signalled, offline_answered, goes_on, command_due, command_ends, go_on, started,
  next_job, on_poll, advance, set_elem, put_run, less_waiting, at_run, live_step, step, run,
}
use infernet_protocol.Daemon.Ring.{IsRing}
use infernet_protocol.Daemon.Places.{
  works_on, in_progress, all_in_progress, without, all_in_progress-split, any-split,
  without-set_elem, get_elem?-set_elem, all_in_progress-snoc, any-snoc,
}
use infernet_protocol.Daemon.Counts.{IsActive, IsFair, next_job-IsFair, advance-IsFair}

-- Each job picked is completed, failed or in progress, each active id is that of a job in
-- progress, and the ring is within its bound.
abbrev pub IsSound : Daemon → Type 0
IsSound d =
    (d.stats.jobs_picked ≡ d.stats.jobs_completed + d.stats.jobs_failed + all_in_progress d.runs)
    × ((id : String) → IsActive id d.stats.active_job_ids → any (works_on id) d.runs ≡ true)
    × IsRing d.bench_ring

-- From a run and the others to all runs.
put_back :
    (i : ℕ) (x : Run) (runs : List Run) (p : Daemon × Run × List Call)
    → get_elem? runs i ≡ some x
    → IsFair (all_in_progress (without i runs)) (λ id. any (works_on id) (without i runs)) p.0 p.1
    → IsSound (put_run i runs p).0
put_back i x runs (d, r, out) at (counted, active, ring) =
    let here = get_elem?-set_elem i r x runs at in
    let same = without-set_elem i r runs in
    let sum = all_in_progress-split i (set_elem i r runs) r here in
    (
      counted
          ∙ ap (λ n. d.stats.jobs_completed + d.stats.jobs_failed + n)
              (sym (sum ∙ ap (λ rs. all_in_progress rs + in_progress r) same)),
      (λ id a.
          any-split (works_on id) i (set_elem i r runs) r here
          ∙ ap (λ rs. any (works_on id) rs || works_on id r) same
          ∙ active id a),
      ring,
    )

at_run-IsSound : (now i : ℕ) (h : Arrival) (d : Daemon) → IsSound d → IsSound (at_run now i h d).0
unfolding at_run
at_run-IsSound now i h d sound = elim (Option-cases (get_elem? d.runs i)) [
  | inl e ↦ rw (e, at_run) sound
  | inr (r, e) ↦
      rw (e, at_run)
        (put_back i r d.runs (advance now h r d) e (
          advance-IsFair (all_in_progress (without i d.runs))
            (λ id. any (works_on id) (without i d.runs)) now h r d (apart r e sound)))
]
  where
    apart :
        (r : Run)
        → get_elem? d.runs i ≡ some r
        → IsSound d
        → IsFair
            (all_in_progress (without i d.runs))
            (λ id. any (works_on id) (without i d.runs))
            d
            r
    apart r e (counted, active, ring) = (
      counted
          ∙ ap (λ n. d.stats.jobs_completed + d.stats.jobs_failed + n)
              (all_in_progress-split i d.runs r e),
      (λ id a. sym (any-split (works_on id) i d.runs r e) ∙ active id a),
      ring,
    )

on_poll-IsSound :
    (now : ℕ) (jobs : Option (List Job)) (d : Daemon) → IsSound d → IsSound (on_poll now jobs d)
on_poll-IsSound now none d sound = sound
on_poll-IsSound now (some jobs) d sound = added jobs (
    next_job-IsFair (all_in_progress d.runs) (λ id. any (works_on id) d.runs) now jobs
      (record d { stats = record d.stats { polls_ok = suc d.stats.polls_ok } }) sound)
  where
    added :
        (js : List Job)
        → IsFair
            (all_in_progress d.runs)
            (λ id. any (works_on id) d.runs)
            (next_job now js
              (record d { stats = record d.stats { polls_ok = suc d.stats.polls_ok } })).0
            (next_job now js
              (record d { stats = record d.stats { polls_ok = suc d.stats.polls_ok } })).1
        → IsSound (on_poll now (some js) d)
    added [] (counted, active, ring) = (
      omega (arith, counted, all_in_progress-snoc d.runs (record { work = over; rest = [] })),
      (λ id a. any-snoc (works_on id) d.runs (record { work = over; rest = [] }) ∙ active id a),
      ring,
    )
    added (j ∷ js) (counted, active, ring) = (
      omega
          (arith, counted, all_in_progress-snoc d.runs (record { work = executing j; rest = js })),
      (λ id a.
          any-snoc (works_on id) d.runs (record { work = executing j; rest = js }) ∙ active id a),
      ring,
    )

live_step-IsSound :
    (is_provider : Bool) (now : ℕ) (h : Happening) (d : Daemon)
    → IsSound d
    → IsSound (live_step is_provider now h d).0
live_step-IsSound p now heartbeat_due d s =
    if_split_rule (λ (q : Daemon × List Call). IsSound q.0) d.heartbeat_timer _ _ (λ t. s) (λ f. s)
live_step-IsSound p now specs_ready d s = sent d.heartbeats_waiting
  where
    sent : (n : ℕ) → IsSound (less_waiting n d).0
    sent zero = s
    sent (suc n) = s
live_step-IsSound p now poll_due d s =
    if_split_rule (λ (q : Daemon × List Call). IsSound q.0) d.poll_timer _ _
      (λ t. if_split_rule (λ (q : Daemon × List Call). IsSound q.0) p _ _ (λ x. s) (λ x. s))
      (λ f. s)
live_step-IsSound p now (heartbeat_answered none) d s = s
live_step-IsSound p now (heartbeat_answered (some e)) d s = s
live_step-IsSound p now (poll_answered jobs) d s = on_poll-IsSound now jobs d s
live_step-IsSound p now (arrives i h) d s = at_run-IsSound now i h d s
live_step-IsSound p now signalled d s =
    if_split_rule (λ (q : Daemon × List Call). IsSound q.0) d.shutting_down _ _ (λ t. s) (λ f. s)
live_step-IsSound p now offline_answered d s =
    if_split_rule IsSound d.shutting_down _ _ (λ t. s) (λ f. s)
live_step-IsSound p now goes_on d s = gone d.stage
  where
    gone : (g : Stage) → IsSound (go_on now p g d).0
    gone first_heartbeat = s
    gone first_poll =
        if_split_rule (λ (q : Daemon × List Call). IsSound q.0) p _ _ (λ x. s) (λ x. s)
    gone first_commands = s
    gone set_timers = s
    gone running = s
live_step-IsSound p now command_due d s =
    if_split_rule (λ (q : Daemon × List Call). IsSound q.0) d.command_timer _ _ (λ t. s) (λ f. s)
live_step-IsSound p now (command_ends id) d s = s

run-IsSound :
    (is_provider : Bool) (hs : List (ℕ × Happening)) (d : Daemon)
    → IsSound d
    → IsSound (run is_provider hs d).0
unfolding run step
run-IsSound p [] d s = s
run-IsSound p ((now, h) ∷ hs) d s = run-IsSound p hs (step p now h d).0 (
    if_split_rule (λ (q : Daemon × List Call). IsSound q.0) d.exited _ _ (λ t. s)
      (λ f. live_step-IsSound p now h d s))

-- Whatever happens to a daemon, and however its polls overlap, each job that it picked is completed, failed or in
-- progress, each id that it counts as active is that of a job in progress, and the ring holds at
-- most 32 samples, each with tokens and time.
pub started-IsSound :
    (is_provider : Bool) (hs : List (ℕ × Happening)) → IsSound (run is_provider hs started).0
started-IsSound p hs = run-IsSound p hs started (refl, (λ id a. cc), (omega arith, tt))
