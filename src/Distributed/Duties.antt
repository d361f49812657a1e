-- ===== src/Distributed/Duties.antt =====
-- A worker of packages/inference/src/distributed/worker.js under any sequence of messages and waits.
use Prim.Native.String.{◌++◌ as ◌<>◌}
use infernet_protocol.Common.{
  ℕ, ◌<◌, ◌≡◌, refl, sym, ap, subst, ◌∙◌, true, false, ◌⊎◌, inl, inr, Option, none, some,
  Option-cases, List, [], ◌∷◌, String, length, if_rule,
}
use infernet_protocol.Common.Maps.{lookup}
use infernet_protocol.Common.Js.{Js, member, truthy}
use infernet_protocol.Distributed.Wire.{parse_message}
use infernet_protocol.Distributed.Node.{
  InferenceWorker, Moment, connects, on_open, on_close, on_reconnect_timer, connect,
  schedule_reconnect, given, new, is_rejected, send_error_report,
}
use infernet_protocol.Distributed.Part.{
  Later, nothing, will_load, will_answer, begin_input, shut_down, is_true, on_socket_message,
  after_wait,
}
use infernet_protocol.Distributed.Pairs.{
  is_some, InRange, Paired, Paired-connection, Paired-connect, Paired-new,
}
use infernet_protocol.Distributed.PairSteps.{
  Paired-handle, Paired-initialize_model, Paired-finish_input,
}

-- What happens to a worker: a message, the end of a wait, or an event of its connection.
pub data Event : Type 0 where
  message_arrives : Moment → Option Js → Event
  wait_ends : Moment → Later → Event
  opens drops tries : Moment → Event

module _ (show summary : Js → String) where
  abbrev pub happens : Event → InferenceWorker → InferenceWorker
  happens (message_arrives m raw) w = (on_socket_message m raw w).0
  happens (wait_ends m later) w = (after_wait m show summary later w).0
  happens (opens m) w = (on_open m w).0
  happens (drops m) w = (on_close m w).0
  happens (tries m) w = (on_reconnect_timer m w).0

  abbrev pub history : List Event → InferenceWorker → InferenceWorker
  history [] w = w
  history (e ∷ es) w = history es (happens e w)

  Paired-happens : (e : Event) (w : InferenceWorker) → Paired w → Paired (happens e w)
  unfolding on_socket_message after_wait on_open on_close on_reconnect_timer connect
      schedule_reconnect
  Paired-happens (message_arrives m raw) w p = elim (Option-cases (parse_message raw)) [
    | inl e ↦ rw (happens, on_socket_message, e) p
    | inr (msg, e) ↦ rw (happens, on_socket_message, e) (Paired-handle m msg w p)
  ]
  Paired-happens (wait_ends m nothing) w p = p
  Paired-happens (wait_ends m (will_load body job_id)) w p =
      Paired-initialize_model m body job_id w p
  Paired-happens (wait_ends m (will_answer input job_id model job)) w p =
      Paired-finish_input m show summary input job_id model job w p
  Paired-happens (opens m) w p = Paired-connection w w.has_socket true w.reconnecting true p
  Paired-happens (drops m) w p = Paired-connection w w.has_socket false true false p
  Paired-happens (tries m) w p =
      let waiting = record w { reconnecting = false } in
      let tried =
        Paired-connect waiting (Paired-connection w w.has_socket w.connected false w.beating p) in
      if_rule Paired (is_rejected m (connect waiting).1) _ _
        (Paired-connection (connect waiting).0 (connect waiting).0.has_socket
          (connect waiting).0.connected true (connect waiting).0.beating tried)
        tried

  Paired-history : (es : List Event) (w : InferenceWorker) → Paired w → Paired (history es w)
  Paired-history [] w p = p
  Paired-history (e ∷ es) w p = Paired-history es (happens e w) (Paired-happens e w p)

  -- Whatever messages arrive, and however the ends of the waits and the events of the connection
  -- lie between them, a worker has a model for a job exactly if the job is active, and both are
  -- objects that it made.
  history-Paired :
      (es : List Event) (url id : Option String) (settings : Js)
      → Paired (history es (new url id settings))
  history-Paired es url id settings = Paired-history es _ (Paired-new url id settings)

-- What an input for a job leads to at a worker.
abbrev pub Answered : Moment → String → InferenceWorker → Type 0
Answered m job_id w =
    ((lookup job_id w.models ≡ none)
      × (begin_input m job_id w ≡ (
        w,
        send_error_report m w "Model not initialized" ("No model initialized for job " <> job_id)
            job_id,
        none,
      )))
    ⊎ ((model : ℕ) × (job : ℕ) × (lookup job_id w.models ≡ some model)
        × (model < length w.loaded)
        × (job < length w.jobs)
        × ((begin_input m job_id w).1 ≡ [])
        × ((begin_input m job_id w).2 ≡ some (model, job)))

Answered-Paired :
    (m : Moment) (job_id : String) (w : InferenceWorker) → Paired w → Answered m job_id w
unfolding begin_input
Answered-Paired m job_id w p = elim (Option-cases (lookup job_id w.models)) [
  | inl e ↦ inl (e, rw (begin_input, e) refl)
  | inr (model, e) ↦ elim (Option-cases (lookup job_id w.active_jobs)) [
    | inl f ↦ let wrong : true ≡ false = sym (ap is_some e) ∙ p.keys job_id ∙ ap is_some f in cc
    | inr (job, f) ↦ inr (
      model,
      job,
      e,
      subst (InRange w.loaded) e (p.model_at job_id),
      subst (InRange w.jobs) f (p.job_at job_id),
      rw (begin_input, e, f) refl,
      rw (begin_input, e, f) refl,
    )
  ]
]

-- In every state that a worker reaches, an input for a job without a model is refused with the
-- error report alone, and any other one is taken up without a message, with a model and a job that
-- are there: the job's object is never missing.
pub begin_input-Answered :
    (show summary : Js → String) (es : List Event) (url id : Option String) (settings : Js)
    (m : Moment) (job_id : String)
    → Answered m job_id (history show summary es (new url id settings))
begin_input-Answered show summary es url id settings m job_id =
    Answered-Paired m job_id _ (history-Paired show summary es url id settings)

-- A worker that is told to shut down forgets its models and stops its timers, but when its
-- connection then closes, the timer of the reconnection starts again and makes it connect, if it
-- has a url and an id.
shut_down-reconnects :
    (m : Moment) (body : Js) (w : InferenceWorker)
    → truthy (member body "jobId") ≡ false
    → is_true (member body "shutdown") ≡ true
    → given w.coordinator_url ≡ true
    → given w.node_id ≡ true
    → (let stopped = shut_down m body w in
        (stopped.0.models ≡ []) × (on_reconnect_timer m (on_close m stopped.0).0).1 ≡ connects ∷ [])
unfolding shut_down on_close on_reconnect_timer connect schedule_reconnect
shut_down-reconnects m body w a b c d = (rw (a, b) refl, rw (a, b, c, d) refl)
