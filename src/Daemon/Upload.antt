-- ===== src/Daemon/Upload.antt =====
-- apps/cli/lib/chat-executor.js: a chat job on the daemon of a node, and the batches of events that
-- it posts to the control plane. The readings of the clock come with the messages of the engine.
use Prim.Native.String.{◌++◌ as ◌<>◌}
use infernet_protocol.Common.{
  ℕ, suc, ◌-◌, ◌||◌, List, [], ◌∷◌, ◌++◌, String, leb, ltb, length, if◌then◌else◌,
}
use infernet_protocol.Common.Js.{Js, null, str, obj, end, field, member, or_else, codes, units}
use infernet_protocol.Engine.Process.{is_type}

abbrev pub event_batch_max : ℕ
event_batch_max = 16

abbrev pub event_batch_flush_ms : ℕ
event_batch_flush_ms = 250

-- `EventBuffer`, without its client and job.
pub record EventBuffer : Type 0 where
  pub events : List Js
  pub last_flush : ℕ

-- When a push compares the time, when the flush after it reads it, and the time as a text.
pub record Moment : Type 0 where
  pub pushed_at : ℕ
  pub flushed_at : ℕ
  pub iso : String

abbrev pub Batches : Type 0
Batches = List (List Js)

-- `new EventBuffer(…)`
abbrev pub new : ℕ → EventBuffer
new now = record { events = []; last_flush = now }

-- `flush`: what it posts. An error of the post is only logged.
unfoldable pub flush : ℕ → EventBuffer → EventBuffer × Batches
flush now b = elim b.events [ [] ↦ (b, []) | e ∷ es ↦ (new now, (e ∷ es) ∷ []) ]

abbrev pub chat_event : Js → Js → Js
chat_event event_type body = obj (field "event_type" event_type (field "data" body end))

-- `push`
unfoldable pub push : Moment → Js → EventBuffer → EventBuffer × Batches
push m e b =
    let filled : EventBuffer = record b { events = b.events ++ e ∷ [] } in
    if leb event_batch_max (length filled.events)
      || leb event_batch_flush_ms (m.pushed_at - b.last_flush)
    then flush m.flushed_at filled
    else (filled, [])

-- What the daemon knows of its node, of the job and of the engine.
pub record Chat : Type 0 where
  pub node_id : Js
  pub node_name : Js
  pub model_name : Js
  pub engine_kind : Js
  -- The text of a value in a template.
  pub show : Js → String

-- `accumulated` and `tokenCount`
pub record Answer : Type 0 where
  pub text : String
  pub token_count : ℕ

-- `value ?? null`
abbrev pub or_null : Js → Js
or_null v = or_else v null

abbrev pub append_text : Chat → String → Js → String
append_text c acc (str s) = acc <> s
append_text c acc v = acc <> c.show v

-- `typeof ev.text === "string" && ev.text.length > accumulated.length`
abbrev pub longer_text : Js → String → String
longer_text (str s) acc = if ltb (units (codes acc)) (units (codes s)) then s else acc
longer_text _ acc = acc

-- A message of the engine that is no error: the event it becomes, and the answer after it.
unfoldable pub forward : Chat → String → Js → Answer → Js × Answer
forward c iso ev a =
    if is_type ev "meta"
    then (
      chat_event (str "meta") (
          obj (
            field "provider_node_id" c.node_id (
              field "provider_name" (or_null c.node_name) (
                field "model" (or_null (or_else (member ev "model") c.model_name)) (
                  field "started_at" (or_else (member ev "started_at") (str iso))
                    (field "engine" c.engine_kind end)))))),
      a,
    )
    else if is_type ev "token"
    then (
      chat_event (str "token") (obj (field "text" (or_else (member ev "text") (str "")) end)),
      record {
        text = append_text c a.text (or_else (member ev "text") (str ""));
        token_count = suc a.token_count;
      },
    )
    else if is_type ev "done"
    then (let whole = longer_text (member ev "text") a.text in
        (
          chat_event (str "done") (
              obj (
                field "text" (str whole) (
                  field "reason" (or_else (member ev "reason") (str "stop"))
                    (field "finished_at" (or_else (member ev "finished_at") (str iso)) end)))),
          record a { text = whole },
        ))
    else (chat_event (member ev "type") ev, a)

-- How the loop of `executeChatJob` ends: the answer, or an exception.
pub data Outcome : Type 0 where
  answered : Answer → Outcome
  failed : Js → Outcome

-- How the engine's stream ends: it is closed, or it throws.
pub data Ending : Type 0 where
  closes : ℕ → Ending
  throws : Js → Ending

abbrev pub engine_error : Js → Js
engine_error ev = or_else (member ev "message") (str "engine error")

abbrev pub then_post : Batches → Batches × Outcome → Batches × Outcome
then_post out (later, o) = (out ++ later, o)

-- The case of an error: its event is pushed, and the buffer is flushed.
abbrev pub stop : Moment → Js → EventBuffer → Batches × Outcome
stop m ev b =
    let (filled, pushed) =
      push m (chat_event (str "error") (obj (field "message" (engine_error ev) end))) b in
    let (b', flushed) = flush m.flushed_at filled in (pushed ++ flushed, failed (engine_error ev))

-- The loop of `executeChatJob`: the batches that it posts, and how it ends.
unfoldable pub relay : Chat → List (Moment × Js) → Ending → EventBuffer → Answer → Batches × Outcome
relay c [] (closes now) b a = ((flush now b).1, answered a)
relay c [] (throws e) b a = ([], failed e)
relay c ((m, ev) ∷ evs) last b a =
    let (e, a') = forward c m.iso ev a in
    let (b', out) = push m e b in
    let rest = relay c evs last b' a' in
    if is_type ev "error" then stop m ev b else then_post out rest

abbrev pub no_answer : Answer
no_answer = record { text = ""; token_count = 0 }

-- `executeChatJob`, from the first reading of the clock.
unfoldable pub execute_chat_job : Chat → ℕ → List (Moment × Js) → Ending → Batches × Outcome
execute_chat_job c t0 evs last = relay c evs last (new t0) no_answer
