-- ===== src/Daemon/Counts.antt =====
-- The counters, the active jobs and the ring of benchmarks of the daemon of
-- apps/cli/commands/start.js, at one of its calls of `pollJobs`.
use infernet_protocol.Common.{
  ℕ, ◌+◌, ◌≡◌, refl, sym, ◌∙◌, Bool, true, false, ◌||◌, Option, none, some, List, [], ◌∷◌, ◌++◌,
  String, str_eq, eq_iff, any, arith, inl, inr, Bool-cases, if_split_rule,
}
use infernet_protocol.Daemon.State.{
  Job, Work, executing, completing, posting, reporting, over, Run, Daemon, set_add, set_delete,
}
use infernet_protocol.Daemon.Loop.{
  Call, Executed, chat_result, stub_result, threw, Arrival, job_executed, complete_answered,
  error_posted, failure_answered, next_job, is_chat, on_error, on_executed, on_completed, advance,
}
use infernet_protocol.Daemon.Ring.{IsRing, record_bench-IsRing}
use infernet_protocol.Daemon.Places.{works_on, in_progress}

abbrev pub IsActive : String → List String → Type 0
IsActive id ids = any (str_eq id) ids ≡ true

-- At a run, with the number of other jobs in progress and a test for them.
abbrev pub IsFair : ℕ → (String → Bool) → Daemon → Run → Type 0
IsFair n others d r =
    (d.stats.jobs_picked ≡ d.stats.jobs_completed + d.stats.jobs_failed + (n + in_progress r))
    × ((id : String) → IsActive id d.stats.active_job_ids → (others id || works_on id r) ≡ true)
    × IsRing d.bench_ring

any-append_one :
    (x id : String) (ids : List String)
    → any (str_eq x) (ids ++ id ∷ []) ≡ (any (str_eq x) ids || str_eq x id)
any-append_one x id [] = ground arith
any-append_one x id (y ∷ ids) = ground (arith, any-append_one x id ids)

added :
    (x id : String) (ids : List String)
    → IsActive x (set_add id ids)
    → (any (str_eq x) ids || str_eq id x) ≡ true
added x id ids h = elim (Bool-cases (any (str_eq id) ids)) [
  | inl e ↦ let known : any (str_eq x) ids ≡ true = rw e at h in rw known refl
  | inr e ↦
      let more : any (str_eq x) (ids ++ id ∷ []) ≡ true = rw e at h in
      turn (any (str_eq x) ids) (sym (any-append_one x id ids) ∙ more)
]
  where
    turn : (b : Bool) → (b || str_eq x id) ≡ true → (b || str_eq id x) ≡ true
    turn b k = ground (arith, eq_iff x id, eq_iff id x)

deleted :
    (x id : String) (ids : List String)
    → IsActive x (set_delete id ids)
    → (any (str_eq x) ids ≡ true) × (str_eq id x ≡ false)
deleted x id [] h = cc
deleted x id (y ∷ ids) h =
    ground (arith, eq_iff x id, eq_iff id x, eq_iff y id, eq_iff x y, deleted x id ids)

-- Between two jobs of a run.
abbrev IsFree : ℕ → (String → Bool) → Daemon → Type 0
IsFree n others d =
    (d.stats.jobs_picked ≡ d.stats.jobs_completed + d.stats.jobs_failed + n)
    × ((id : String) → IsActive id d.stats.active_job_ids → others id ≡ true)
    × IsRing d.bench_ring

either_left : (a b : Bool) → a ≡ true → (a || b) ≡ true
either_left a b h = ground arith

either_not : (a b : Bool) → (a || b) ≡ true → b ≡ false → a ≡ true
either_not a b h k = ground arith

pub next_job-IsFair :
    (n : ℕ) (others : String → Bool) (now : ℕ) (jobs : List Job) (d : Daemon)
    → IsFree n others d
    → IsFair n others (next_job now jobs d).0 (next_job now jobs d).1
next_job-IsFair n others now [] d (counted, active, ring) =
    (omega (arith, counted), (λ id a. either_left (others id) false (active id a)), ring)
next_job-IsFair n others now (j ∷ js) d (counted, active, ring) = (
  omega (arith, counted),
  (λ id a.
      one (any (str_eq id) d.stats.active_job_ids) (others id) (str_eq j.id id) (active id)
        (added id j.id d.stats.active_job_ids a)),
  ring,
)
  where
    one : (a o w : Bool) → (a ≡ true → o ≡ true) → (a || w) ≡ true → (o || w) ≡ true
    one a o true h k = ground arith
    one true o false h k = either_left o false (h refl)
    one false o false h k = cc

-- The end of a job: one counter goes up, and the job's id is no longer active.
on_error-IsFair :
    (n : ℕ) (others : String → Bool) (message : String) (j : Job) (rest : List Job) (d : Daemon)
    → (d.stats.jobs_picked ≡ d.stats.jobs_completed + d.stats.jobs_failed + (n + 1))
    → ((id : String) → IsActive id d.stats.active_job_ids → (others id || str_eq j.id id) ≡ true)
    → IsRing d.bench_ring
    → IsFair n others (on_error message j rest d).0 (on_error message j rest d).1
on_error-IsFair n others message j rest d counted active ring =
    if_split_rule (λ (p : Daemon × Run × List Call). IsFair n others p.0 p.1) (is_chat j) _ _
      (λ t. (omega (arith, counted), gone, ring)) (λ f. (omega (arith, counted), gone, ring))
  where
    gone :
        (id : String)
        → IsActive id (set_delete j.id d.stats.active_job_ids)
        → (others id || false) ≡ true
    gone id a =
        let (was, other) = deleted id j.id d.stats.active_job_ids a in
        either_left (others id) false
          (either_not (others id) (str_eq j.id id) (active id was) other)

on_completed-IsFair :
    (n : ℕ) (others : String → Bool) (now : ℕ) (error : Option String) (j : Job) (rest : List Job)
    (d : Daemon)
    → (d.stats.jobs_picked ≡ d.stats.jobs_completed + d.stats.jobs_failed + (n + 1))
    → ((id : String) → IsActive id d.stats.active_job_ids → (others id || str_eq j.id id) ≡ true)
    → IsRing d.bench_ring
    → IsFair n others (on_completed now error j rest d).0 (on_completed now error j rest d).1
on_completed-IsFair n others now none j rest d counted active ring =
    next_job-IsFair n others now rest _ (
      omega (arith, counted),
      (λ id a.
          let (was, other) = deleted id j.id d.stats.active_job_ids a in
          either_not (others id) (str_eq j.id id) (active id was) other),
      ring,
    )
on_completed-IsFair n others now (some message) j rest d counted active ring =
    on_error-IsFair n others message j rest d counted active ring

on_executed-IsFair :
    (n : ℕ) (others : String → Bool) (now : ℕ) (result : Executed) (j : Job) (rest : List Job)
    (d : Daemon)
    → (d.stats.jobs_picked ≡ d.stats.jobs_completed + d.stats.jobs_failed + (n + 1))
    → ((id : String) → IsActive id d.stats.active_job_ids → (others id || str_eq j.id id) ≡ true)
    → IsRing d.bench_ring
    → IsFair n others (on_executed now result j rest d).0 (on_executed now result j rest d).1
on_executed-IsFair n others now (chat_result t ms) j rest d counted active ring =
    (counted, active, record_bench-IsRing now t ms d.bench_ring ring)
on_executed-IsFair n others now stub_result j rest d counted active ring = (counted, active, ring)
on_executed-IsFair n others now (threw message) j rest d counted active ring =
    on_error-IsFair n others message j rest d counted active ring

IsFree-next :
    (n : ℕ) (others : String → Bool) (d : Daemon)
    → (d.stats.jobs_picked ≡ d.stats.jobs_completed + d.stats.jobs_failed + (n + 0))
    → ((id : String) → IsActive id d.stats.active_job_ids → (others id || false) ≡ true)
    → IsRing d.bench_ring
    → IsFree n others d
IsFree-next n others d counted active ring =
    (omega (arith, counted), (λ id a. either_not (others id) false (active id a) refl), ring)

advance_work-IsFair :
    (n : ℕ) (others : String → Bool) (now : ℕ) (h : Arrival) (w : Work) (rest : List Job)
    (d : Daemon)
    → IsFair n others d (record { work = w; rest = rest })
    → IsFair n others
        (advance now h (record { work = w; rest = rest }) d).0
        (advance now h (record { work = w; rest = rest }) d).1
unfolding advance
advance_work-IsFair n others now (job_executed x) (executing j) rest d (c, a, r) =
    on_executed-IsFair n others now x j rest d c a r
advance_work-IsFair n others now (complete_answered x) (executing j) rest d f = f
advance_work-IsFair n others now error_posted (executing j) rest d f = f
advance_work-IsFair n others now failure_answered (executing j) rest d f = f
advance_work-IsFair n others now (job_executed x) (completing j) rest d f = f
advance_work-IsFair n others now (complete_answered x) (completing j) rest d (c, a, r) =
    on_completed-IsFair n others now x j rest d c a r
advance_work-IsFair n others now error_posted (completing j) rest d f = f
advance_work-IsFair n others now failure_answered (completing j) rest d f = f
advance_work-IsFair n others now (job_executed x) (posting j m) rest d f = f
advance_work-IsFair n others now (complete_answered x) (posting j m) rest d f = f
advance_work-IsFair n others now error_posted (posting j m) rest d f = f
advance_work-IsFair n others now failure_answered (posting j m) rest d f = f
advance_work-IsFair n others now (job_executed x) (reporting j) rest d f = f
advance_work-IsFair n others now (complete_answered x) (reporting j) rest d f = f
advance_work-IsFair n others now error_posted (reporting j) rest d f = f
advance_work-IsFair n others now failure_answered (reporting j) rest d (c, a, r) =
    next_job-IsFair n others now rest d (IsFree-next n others d c a r)
advance_work-IsFair n others now h over rest d f = f

pub advance-IsFair :
    (n : ℕ) (others : String → Bool) (now : ℕ) (h : Arrival) (r : Run) (d : Daemon)
    → IsFair n others d r
    → IsFair n others (advance now h r d).0 (advance now h r d).1
advance-IsFair n others now h r d f = advance_work-IsFair n others now h r.work r.rest d f
