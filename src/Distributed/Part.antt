-- ===== src/Distributed/Part.antt =====
-- packages/inference/src/distributed/worker.js: the jobs of a worker, from the coordinator's
-- messages. The ids of jobs are texts.
use Prim.Native.String.{◌++◌ as ◌<>◌}
use infernet_protocol.Common.{
  ℕ, zero, suc, Bool, true, false, not, ◌||◌, Option, none, some, List, [], ◌∷◌, ◌++◌, String,
  str_eq, get_elem?, length, ◌==◌, if◌then◌else◌,
}
use infernet_protocol.Common.Maps.{lookup, insert, delete}
use infernet_protocol.Common.Js.{
  pos, negsuc, Js, undefined, null, bool, num, str, obj, end, field, member, truthy,
}
use infernet_protocol.Distributed.Wire.{create_message, parse_message, text_of}
use infernet_protocol.Distributed.Node.{
  Model, ActiveJob, InferenceWorker, Moment, Act, sends, closes, node_text, send_status_update,
  send_error_report,
}

-- What is left to do after a wait.
pub data Later : Type 0 where
  nothing : Later
  will_load : Js → String → Later
  will_answer : Js → String → ℕ → ℕ → Later

-- `endLayer === totalLayers - 1`; `undefined - 1` is not a number, and no value is identical to it.
abbrev is_before : Js → Js → Bool
is_before (num (pos n)) (num (pos (suc t))) = n == t
is_before (num (negsuc n)) (num (pos zero)) = n == 0
is_before (num (negsuc n)) (num (negsuc t)) = n == suc t
is_before _ _ = false

abbrev no_property : Js → String
no_property null = "Cannot read properties of null (reading 'startLayer')"
no_property _ = "Cannot read properties of undefined (reading 'startLayer')"

abbrev pub is_null : Js → Bool
is_null null = true
is_null _ = false

abbrev is_undefined : Js → Bool
is_undefined undefined = true
is_undefined _ = false

abbrev pub is_nullish : Js → Bool
is_nullish v = is_null v || is_undefined v

abbrev pub is_true : Js → Bool
is_true (bool b) = b
is_true _ = false

abbrev pub change_at {ℓ} : {A : Type ℓ} → (A → A) → ℕ → List A → List A
change_at f i [] = []
change_at f zero (x ∷ xs) = f x ∷ xs
change_at f (suc i) (x ∷ xs) = x ∷ change_at f i xs

module _ (m : Moment) where
  -- `initializeModel`, after the wait.
  abbrev pub stored_model : Js → Model
  stored_model data_value = record {
    model_id = member data_value "modelId";
    model_part = member data_value "modelPart";
    start_layer = member data_value "startLayer";
    end_layer = member data_value "endLayer";
    stage = member data_value "stage";
    next_worker_id = member data_value "nextWorkerId";
    prev_worker_id = member data_value "prevWorkerId";
    load_time = m.now;
  }

  unfoldable pub initialize_model : Js → String → InferenceWorker → InferenceWorker × List Act
  initialize_model data_value job_id w = (
    record w {
      models = insert job_id (length w.loaded) w.models;
      loaded = w.loaded ++ (stored_model data_value ∷ []);
      active_jobs = insert job_id (length w.jobs) w.active_jobs;
      jobs = w.jobs ++ (record { status = "ready"; start_time = m.now } ∷ []);
    },
    send_status_update m w (
        field "status" (str "model_loaded")
          (field "jobId" (str job_id) (field "modelId" (member data_value "modelId") end))),
  )

  abbrev set_status : String → ActiveJob → ActiveJob
  set_status s job = record job { status = s }

  abbrev not_initialized : String → InferenceWorker → InferenceWorker × List Act
  not_initialized job_id w = (
    w,
    send_error_report m w "Model not initialized" ("No model initialized for job " <> job_id)
        job_id,
  )

  -- `processInput` up to its wait: the objects of the model and of the job that it holds, if there
  -- is a model.
  unfoldable pub begin_input :
      String → InferenceWorker → InferenceWorker × List Act × Option (ℕ × ℕ)
  begin_input job_id w =
      let refused = not_initialized job_id w in
      elim (lookup job_id w.models) [
        | none ↦ (refused.0, refused.1, none)
        | some model ↦ elim (lookup job_id w.active_jobs) [
          | none ↦ (
            w,
            send_error_report m w "Processing failed"
                "Cannot set properties of undefined (setting 'status')" job_id,
            none,
          )
          | some job ↦ (
            record w { jobs = change_at (set_status "processing") job w.jobs },
            [],
            some (model, job),
          )
        ]
      ]

  -- The result of a part of the model, and whether it is complete.
  -- The model keeps no `totalLayers`.
  unfoldable pub share_result : (Js → String) → (Js → String) → Model → Js → Js × Bool
  share_result show summary model input =
      let in_layers = is_before model.end_layer undefined in
      let at_end = is_null model.next_worker_id in
      if truthy model.model_part
      then (
        obj (
            field "layerOutput"
              (str (
                "Output from layers " <> (show model.start_layer <> ("-" <> show model.end_layer))))
              (field "isComplete" (bool in_layers) end)),
        in_layers,
      )
      else if not (is_undefined model.stage)
      then (
        obj (
            field "stageOutput" (str ("Output from stage " <> show model.stage))
              (field "isComplete" (bool at_end) end)),
        at_end,
      )
      else (
        obj (
            field "output" (str ("Generated output for input: " <> (summary input <> "...")))
              (field "isComplete" (bool true) end)),
        true,
      )

  abbrev layer_result : InferenceWorker → Js × Bool → String → Js
  layer_result w (result, is_complete) job_id =
      create_message "layer_result"
        (obj (
          field "workerId" (node_text w.node_id)
            (field "result" result (field "isComplete" (bool is_complete) end))))
        (str job_id) m.now

  abbrev pub fail_job : String → InferenceWorker → InferenceWorker
  fail_job job_id w = elim (lookup job_id w.active_jobs) [
    | none ↦ w
    | some job ↦ record w { jobs = change_at (set_status "failed") job w.jobs }
  ]

  abbrev pub answer_input : String → ℕ → Js × Bool → InferenceWorker → InferenceWorker × List Act
  answer_input job_id job r w = elim m.send_error [
    | none ↦ (
      record w {
        jobs = change_at (set_status (if r.1 then "completed" else "waiting")) job w.jobs;
      },
      sends (layer_result w r job_id) ∷ [],
    )
    | some why ↦ (fail_job job_id w, send_error_report m w "Processing failed" why job_id)
  ]

  -- `processInput` after its wait, with the objects it holds; it sends without looking whether the
  -- socket is open. The text of a value, and the first 50 units of its JSON, are parameters.
  unfoldable pub finish_input :
      (Js → String)
      → (Js → String)
      → Js
      → String
      → ℕ
      → ℕ
      → InferenceWorker
      → InferenceWorker × List Act
  finish_input show summary input job_id model job w = elim (get_elem? w.loaded model) [
    | none ↦ (w, [])
    | some x ↦ answer_input job_id job (share_result show summary x input) w
  ]

  -- `assignLayer`; no property of `undefined` or `null` can be read.
  unfoldable pub assign_layer : Js → String → InferenceWorker → InferenceWorker × List Act
  assign_layer data_value job_id w =
      let start = member data_value "startLayer" in
      let last = member data_value "endLayer" in
      elim (lookup job_id w.models) [
        | none ↦ not_initialized job_id w
        | some model ↦
            if is_nullish data_value
            then (
              w,
              send_error_report m w "Layer assignment failed" (no_property data_value) job_id,
            )
            else (
              record w {
                loaded =
                    change_at (λ (x : Model). record x { start_layer = start; end_layer = last })
                      model w.loaded;
              },
              send_status_update m w (
                  field "status" (str "layer_assigned") (
                    field "jobId" (str job_id)
                      (field "startLayer" start (field "endLayer" last end)))),
            )
      ]

  -- `updateConfig`
  unfoldable pub update_config : Js → InferenceWorker → InferenceWorker
  update_config data_value w =
      let id = member data_value "coordinatorId" in
      if truthy id then record w { coordinator_id = id } else w

  -- `shutdown(data)`: of a job, or of the worker. The data is the message's.
  unfoldable pub shut_down : Js → InferenceWorker → InferenceWorker × List Act
  shut_down data_value w =
      let job_id = text_of (member data_value "jobId") in
      let stopped = record w {
        models = [];
        active_jobs = [];
        beating = false;
        reconnecting = false;
      } in
      if truthy (member data_value "jobId")
      then (elim (lookup job_id w.models) [
        | none ↦ (w, [])
        | some model ↦ (
          record w { models = delete job_id w.models; active_jobs = delete job_id w.active_jobs },
          send_status_update m w
              (field "status" (str "job_shutdown") (field "jobId" (str job_id) end)),
        )
      ])
      else if is_true (member data_value "shutdown")
      then (
        stopped,
        send_status_update m w (field "status" (str "worker_shutdown") end)
            ++ (if w.has_socket then closes ∷ [] else []),
      )
      else (w, [])

  -- What a message leaves to do after a wait.
  abbrev pub waits :
      String → Js → InferenceWorker × List Act × Option (ℕ × ℕ) → InferenceWorker × List Act × Later
  waits job_id input (w, acts, none) = (w, acts, nothing)
  waits job_id input (w, acts, some (model, job)) = (w, acts, will_answer input job_id model job)

  abbrev at_once : InferenceWorker × List Act → InferenceWorker × List Act × Later
  at_once (w, acts) = (w, acts, nothing)

  -- `handleCoordinatorMessage(message)`
  unfoldable pub handle_coordinator_message :
      Js → InferenceWorker → InferenceWorker × List Act × Later
  handle_coordinator_message msg w =
      let t = text_of (member msg "type") in
      let body = member msg "data" in
      let job_id = text_of (member msg "jobId") in
      if str_eq t "init_model"
      then (w, [], will_load body job_id)
      else if str_eq t "process_input"
      then waits job_id (member body "input") (begin_input job_id w)
      else if str_eq t "assign_layer"
      then at_once (assign_layer body job_id w)
      else if str_eq t "shutdown"
      then at_once (shut_down body w)
      else if str_eq t "config_update"
      then (update_config body w, [], nothing)
      else (w, [], nothing)

  -- The socket's `message` event, from the JSON value of the text.
  unfoldable pub on_socket_message :
      Option Js → InferenceWorker → InferenceWorker × List Act × Later
  on_socket_message raw w = elim (parse_message raw) [
    | none ↦ (w, [], nothing)
    | some msg ↦ handle_coordinator_message msg w
  ]

  unfoldable pub after_wait :
      (Js → String) → (Js → String) → Later → InferenceWorker → InferenceWorker × List Act
  after_wait show summary nothing w = (w, [])
  after_wait show summary (will_load body job_id) w = initialize_model body job_id w
  after_wait show summary (will_answer input job_id model job) w =
      finish_input show summary input job_id model job w
