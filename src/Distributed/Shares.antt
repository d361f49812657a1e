-- ===== src/Distributed/Shares.antt =====
-- What the workers of packages/inference/src/distributed answer for the parts that the coordinator
-- gives them.
use Prim.Native.String.{◌++◌}
use text.Mathlib.TextLemmas.{cons-append, cons-ne-nil}
use infernet_protocol.Common.{
  ℕ, ◌+◌, ◌<◌, ◌≡◌, refl, Bool, true, false, List, String, get_elem?-some, str_eq, eq_iff, ◌==◌,
  ltb, ltb→lt, length, arith, inl, inr, Bool-cases,
}
use infernet_protocol.Common.Js.{Js, str, truthy, undefined}
use infernet_protocol.Distributed.State.{
  Strategy, tensor_parallel, pipeline_parallel, data_parallel, unsupported, JobConfig,
}
use infernet_protocol.Distributed.Assign.{tensor_config, pipeline_config, data_config}
use infernet_protocol.Distributed.Wire.{text_or_null, tensor_data, pipeline_data, batch_data}
use infernet_protocol.Distributed.Node.{Moment}
use infernet_protocol.Distributed.Part.{is_null, stored_model, share_result}

-- The data of the message that initializes the worker with the number `i`.
abbrev pub share_data : (ℕ → String) → Strategy → JobConfig → List String → ℕ → Js
share_data show tensor_parallel cfg ws i = tensor_data show (tensor_config cfg (length ws) i)
share_data show pipeline_parallel cfg ws i = pipeline_data (pipeline_config cfg ws i)
share_data show data_parallel cfg ws i = batch_data (data_config cfg (length ws) i)
share_data show (unsupported s) cfg ws i = undefined

-- Whether the answer of the worker with the number `i` among `n` completes the job.
abbrev pub completes : Strategy → ℕ → ℕ → Bool
completes tensor_parallel n i = false
completes pipeline_parallel n i = i + 1 == n
completes data_parallel n i = true
completes (unsupported s) n i = true

layers_truthy : (s : String) → truthy (str ("layers_" ++ s)) ≡ true
layers_truthy s =
    let text = String.◌∷◌ "l" ("ayers_" ++ s) in
    let full : str_eq text "" ≡ false =
      ground (arith, eq_iff text "", cons-ne-nil "l" ("ayers_" ++ s)) in
    rw (cons-append "l" "ayers_" s, full) refl

next_worker-end :
    (cfg : JobConfig) (ws : List String) (i : ℕ)
    → i < length ws
    → is_null (text_or_null (pipeline_config cfg ws i).next_worker_id) ≡ (i + 1 == length ws)
unfolding pipeline_config
next_worker-end cfg ws i h = elim (Bool-cases (ltb (i + 1) (length ws))) [
  | inl e ↦
      let (x, there) = get_elem?-some ws (i + 1) (ltb→lt (i + 1) (length ws) e) in
      let before : (i + 1 == length ws) ≡ false = ground arith in rw (e, there, before) refl
  | inr e ↦ let last : (i + 1 == length ws) ≡ true = ground arith in rw (e, last) refl
]

-- The answer of the worker with the number `i` to an input completes the job exactly as the
-- strategy says: with the model's layers split no answer does, in a pipeline only that of the last
-- worker does, and with the data split every answer does.
share_result-completes :
    (m : Moment) (show_number : ℕ → String) (show summary : Js → String) (strategy : Strategy)
    (cfg : JobConfig) (ws : List String) (i : ℕ) (input : Js)
    → i < length ws
    → (share_result m show summary
        (stored_model m (share_data show_number strategy cfg ws i))
        input).1
      ≡ completes strategy (length ws) i
unfolding share_result tensor_data pipeline_data batch_data
share_result-completes m show_number show summary tensor_parallel cfg ws i input h =
    rw (layers_truthy _) refl
share_result-completes m show_number show summary pipeline_parallel cfg ws i input h =
    next_worker-end cfg ws i h
share_result-completes m show_number show summary data_parallel cfg ws i input h = refl
share_result-completes m show_number show summary (unsupported s) cfg ws i input h = refl
