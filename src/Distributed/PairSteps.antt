-- ===== src/Distributed/PairSteps.antt =====
-- The handlers of packages/inference/src/distributed/worker.js and its models and active jobs.

use infernet_protocol.Common.{
  ℕ, sym, ap, subst, ◌∙◌, Bool, inl, inr, Option, none, some, Option-cases, List, String, str_eq,
  length, get_elem?, if_rule,
}
use infernet_protocol.Common.Maps.{lookup, lookup-insert}
use infernet_protocol.Common.Js.{Js, member, truthy}
use infernet_protocol.Distributed.Wire.{text_of}
use infernet_protocol.Distributed.Node.{InferenceWorker, Moment, Act}
use infernet_protocol.Distributed.Part.{
  initialize_model, begin_input, answer_input, finish_input, assign_layer, update_config, shut_down,
  is_true, is_nullish, handle_coordinator_message, fail_job, waits,
}
use infernet_protocol.Distributed.Pairs.{
  InRange, is_some, Paired, InRange-added, Paired-job, Paired-model, Paired-empty, is_some-if,
  Paired-removed, Keeps, KeepsLater,
}

module _ (m : Moment) where
  pub Paired-initialize_model :
      (body : Js) (job_id : String) (w : InferenceWorker)
      → Paired w
      → Paired (initialize_model m body job_id w).0
  unfolding initialize_model
  Paired-initialize_model body job_id w p = record {
    keys = λ id.
        ap is_some (lookup-insert job_id id (length w.loaded) w.models)
        ∙ is_some-if (str_eq job_id id) (length w.loaded) (length w.jobs) _ _ (p.keys id)
        ∙ sym (ap is_some (lookup-insert job_id id (length w.jobs) w.active_jobs));
    model_at = λ id.
        subst (InRange _) (sym (lookup-insert job_id id (length w.loaded) w.models))
          (InRange-added w.loaded _ (str_eq job_id id) _ (p.model_at id));
    job_at = λ id.
        subst (InRange _) (sym (lookup-insert job_id id (length w.jobs) w.active_jobs))
          (InRange-added w.jobs _ (str_eq job_id id) _ (p.job_at id));
  }

  Paired-begin_input :
      (job_id : String) (w : InferenceWorker) → Paired w → Paired (begin_input m job_id w).0
  unfolding begin_input
  Paired-begin_input job_id w p = elim (Option-cases (lookup job_id w.models)) [
    | inl e ↦ rw (begin_input, e) p
    | inr (model, e) ↦ elim (Option-cases (lookup job_id w.active_jobs)) [
      | inl f ↦ rw (begin_input, e, f) p
      | inr (job, f) ↦ rw (begin_input, e, f) (Paired-job _ job w p)
    ]
  ]

  Paired-fail_job :
      (job_id : String) (w : InferenceWorker) → Paired w → Paired (fail_job m job_id w)
  Paired-fail_job job_id w p = elim (Option-cases (lookup job_id w.active_jobs)) [
    | inl e ↦ rw (fail_job, e) p
    | inr (job, e) ↦ rw (fail_job, e) (Paired-job _ job w p)
  ]

  Paired-answer_input :
      (job_id : String) (job : ℕ) (r : Js × Bool) (w : InferenceWorker)
      → Paired w
      → Paired (answer_input m job_id job r w).0
  Paired-answer_input job_id job r w p = elim (Option-cases m.send_error) [
    | inl e ↦ rw e (Paired-job _ job w p)
    | inr (why, e) ↦ rw e (Paired-fail_job job_id w p)
  ]

  pub Paired-finish_input :
      (show summary : Js → String) (input : Js) (job_id : String) (model job : ℕ)
      (w : InferenceWorker)
      → Paired w
      → Paired (finish_input m show summary input job_id model job w).0
  unfolding finish_input
  Paired-finish_input show summary input job_id model job w p =
      elim (Option-cases (get_elem? w.loaded model)) [
        | inl e ↦ rw (finish_input, e) p
        | inr (x, e) ↦ rw (finish_input, e) (Paired-answer_input job_id job _ w p)
      ]

  Paired-assign_layer :
      (body : Js) (job_id : String) (w : InferenceWorker)
      → Paired w
      → Paired (assign_layer m body job_id w).0
  unfolding assign_layer
  Paired-assign_layer body job_id w p = elim (Option-cases (lookup job_id w.models)) [
    | inl e ↦ rw (assign_layer, e) p
    | inr (model, e) ↦
        rw (assign_layer, e) (if_rule Keeps (is_nullish body) _ _ p (Paired-model _ model w p))
  ]

  Paired-update_config :
      (body : Js) (w : InferenceWorker) → Paired w → Paired (update_config m body w)
  unfolding update_config
  Paired-update_config body w p =
      if_rule Paired (truthy (member body "coordinatorId")) _ _
        (record { keys = p.keys; model_at = p.model_at; job_at = p.job_at }) p

  Paired-shut_down : (body : Js) (w : InferenceWorker) → Paired w → Paired (shut_down m body w).0
  unfolding shut_down
  Paired-shut_down body w p =
      if_rule Keeps (truthy (member body "jobId")) _ _
        (elim (Option-cases (lookup (text_of (member body "jobId")) w.models)) [
          | inl e ↦ rw e p
          | inr (model, e) ↦ rw e (Paired-removed (text_of (member body "jobId")) w p)
        ])
        (if_rule Keeps (is_true (member body "shutdown")) _ _ (Paired-empty w) p)

  Paired-waits :
      (job_id : String) (input : Js) (x : InferenceWorker × List Act × Option (ℕ × ℕ))
      → Paired x.0
      → Paired (waits m job_id input x).0
  Paired-waits job_id input (w, acts, none) p = p
  Paired-waits job_id input (w, acts, some (model, job)) p = p

  pub Paired-handle :
      (msg : Js) (w : InferenceWorker) → Paired w → Paired (handle_coordinator_message m msg w).0
  unfolding handle_coordinator_message
  Paired-handle msg w p =
      let t = text_of (member msg "type") in
      let job_id = text_of (member msg "jobId") in
      let body = member msg "data" in
      if_rule KeepsLater (str_eq t "init_model") _ _ p (
        if_rule KeepsLater (str_eq t "process_input") _ _
          (Paired-waits job_id (member body "input") (begin_input m job_id w)
            (Paired-begin_input job_id w p))
          (if_rule KeepsLater (str_eq t "assign_layer") _ _ (Paired-assign_layer body job_id w p) (
            if_rule KeepsLater (str_eq t "shutdown") _ _ (Paired-shut_down body w p) (
              if_rule KeepsLater (str_eq t "config_update") _ _ (Paired-update_config body w p)
                p))))
