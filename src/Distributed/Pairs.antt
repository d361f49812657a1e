-- ===== src/Distributed/Pairs.antt =====
-- The models and the active jobs of a worker of packages/inference/src/distributed/worker.js.

use infernet_protocol.Common.{
  ℕ, suc, zero, ◌<◌, ◌≡◌, refl, sym, ap, subst, ◌∙◌, Bool, true, false, not, Option, none, some,
  List, [], ◌∷◌, ◌++◌, String, str_eq, length, length-snoc, if◌then◌else◌, if_rule, arith,
}
use infernet_protocol.Common.Maps.{lookup, delete, lookup-delete}
use infernet_protocol.Common.Js.{Js}
use infernet_protocol.Distributed.Node.{Model, ActiveJob, InferenceWorker, Act, connect, given, new}
use infernet_protocol.Distributed.Part.{Later, change_at}

-- A place in a list.
abbrev pub InRange {ℓ} : {A : Type ℓ} → List A → Option ℕ → Type 0
InRange xs none = Unit
InRange xs (some i) = i < length xs

abbrev pub is_some {ℓ} : {A : Type ℓ} → Option A → Bool
is_some none = false
is_some (some a) = true

-- A job has a model exactly if it is active, and both are there.
pub record Paired (w : InferenceWorker) : Type 0 where
  pub keys : (id : String) → is_some (lookup id w.models) ≡ is_some (lookup id w.active_jobs)
  pub model_at : (id : String) → InRange w.loaded (lookup id w.models)
  pub job_at : (id : String) → InRange w.jobs (lookup id w.active_jobs)

length-change_at :
    {A : Type 0} (f : A → A) (i : ℕ) (xs : List A) → length (change_at f i xs) ≡ length xs
length-change_at f i [] = refl
length-change_at f zero (x ∷ xs) = refl
length-change_at f (suc i) (x ∷ xs) = ap suc (length-change_at f i xs)

InRange-same :
    {A : Type 0} (xs ys : List A) (o : Option ℕ)
    → length xs ≡ length ys
    → InRange xs o
    → InRange ys o
InRange-same xs ys none e h = tt
InRange-same xs ys (some i) e h = omega arith

pub InRange-added :
    {A : Type 0} (xs : List A) (x : A) (b : Bool) (o : Option ℕ)
    → InRange xs o
    → InRange (xs ++ (x ∷ [])) (if b then some (length xs) else o)
InRange-added xs x true o h = omega (arith, length-snoc xs x)
InRange-added xs x false none h = tt
InRange-added xs x false (some i) h = omega (arith, length-snoc xs x)

InRange-removed :
    {A : Type 0} (xs : List A) (b : Bool) (o : Option ℕ)
    → InRange xs o
    → InRange xs (if b then none else o)
InRange-removed xs true o h = tt
InRange-removed xs false o h = h

-- A change inside the objects keeps the pairs.
Paired-same :
    (w : InferenceWorker) (loaded : List Model) (jobs : List ActiveJob)
    → length w.loaded ≡ length loaded
    → length w.jobs ≡ length jobs
    → Paired w
    → Paired (record w { loaded = loaded; jobs = jobs })
Paired-same w loaded jobs e f p = record {
  keys = p.keys;
  model_at = λ id. InRange-same w.loaded loaded (lookup id w.models) e (p.model_at id);
  job_at = λ id. InRange-same w.jobs jobs (lookup id w.active_jobs) f (p.job_at id);
}

pub Paired-job :
    (f : ActiveJob → ActiveJob) (job : ℕ) (w : InferenceWorker)
    → Paired w
    → Paired (record w { jobs = change_at f job w.jobs })
Paired-job f job w p = Paired-same w w.loaded _ refl (sym (length-change_at f job w.jobs)) p

pub Paired-model :
    (f : Model → Model) (model : ℕ) (w : InferenceWorker)
    → Paired w
    → Paired (record w { loaded = change_at f model w.loaded })
Paired-model f model w p = Paired-same w _ w.jobs (sym (length-change_at f model w.loaded)) refl p

pub Paired-empty :
    (w : InferenceWorker)
    → Paired (record w { models = []; active_jobs = []; beating = false; reconnecting = false })
unfolding lookup
Paired-empty w = record { keys = λ id. refl; model_at = λ id. tt; job_at = λ id. tt }

pub is_some-if :
    (b : Bool) (x y : ℕ) (o p : Option ℕ)
    → is_some o ≡ is_some p
    → is_some (if b then some x else o) ≡ is_some (if b then some y else p)
is_some-if true x y o p h = refl
is_some-if false x y o p h = h

is_some-none :
    (b : Bool) (o p : Option ℕ)
    → is_some o ≡ is_some p
    → is_some (if b then none else o) ≡ is_some (if b then none else p)
is_some-none true o p h = refl
is_some-none false o p h = h

pub Paired-removed :
    (job_id : String) (w : InferenceWorker)
    → Paired w
    → Paired
        (record w { models = delete job_id w.models; active_jobs = delete job_id w.active_jobs })
Paired-removed job_id w p = record {
  keys = λ id.
      ap is_some (lookup-delete job_id id w.models)
      ∙ is_some-none (str_eq job_id id) _ _ (p.keys id)
      ∙ sym (ap is_some (lookup-delete job_id id w.active_jobs));
  model_at = λ id.
      subst (InRange _) (sym (lookup-delete job_id id w.models))
        (InRange-removed w.loaded (str_eq job_id id) _ (p.model_at id));
  job_at = λ id.
      subst (InRange _) (sym (lookup-delete job_id id w.active_jobs))
        (InRange-removed w.jobs (str_eq job_id id) _ (p.job_at id));
}

pub Paired-connection :
    (w : InferenceWorker) (a b c d : Bool)
    → Paired w
    → Paired (record w { has_socket = a; connected = b; reconnecting = c; beating = d })
Paired-connection w a b c d p = record { keys = p.keys; model_at = p.model_at; job_at = p.job_at }

abbrev pub Keeps : InferenceWorker × List Act → Type 0
Keeps x = Paired x.0

abbrev pub KeepsLater : InferenceWorker × List Act × Later → Type 0
KeepsLater x = Paired x.0

pub Paired-connect : (w : InferenceWorker) → Paired w → Paired (connect w).0
unfolding connect
Paired-connect w p = if_rule Keeps (not (given w.coordinator_url)) _ _ p (
    if_rule Keeps (not (given w.node_id)) _ _ p
      (Paired-connection w true w.connected w.reconnecting w.beating p))

pub Paired-new : (url id : Option String) (settings : Js) → Paired (new url id settings)
unfolding new lookup
Paired-new url id settings = record { keys = λ job. refl; model_at = λ job. tt; job_at = λ job. tt }
