-- ===== src/Engine/Process.antt =====
-- packages/engine/src/engine-process.js: the wrapper of an engine binary. A queue is an object
-- that the wrapper and the reader of a stream share: it is a place in the list of all queues. The
-- ids of generations are texts, and a handler runs as one step.

use infernet_protocol.Common.{
  ℕ, zero, suc, Bool, true, false, Option, none, some, List, [], ◌∷◌, ◌++◌, String, str_eq, ◌||◌,
  length, if◌then◌else◌,
}
use infernet_protocol.Common.Maps.{lookup, insert, delete}
use infernet_protocol.Common.Js.{Js, Fields, end, field, str, member, or_else}
use infernet_protocol.Engine.AsyncQueue
use infernet_protocol.Engine.AsyncQueue.{Answer}
use infernet_protocol.Engine.Protocol.{Codec, encode, push, set_field, spread}

abbrev pub Queue : Type 0
Queue = AsyncQueue.AsyncQueue Js String

-- What a step does to the outside: the input of the engine, the log, the promise of `start`, the
-- answers to the readers of a queue, and an exception.
pub data Effect : Type 0 where
  spawned : Effect
  wrote : String → Effect
  logged : Js → Js → Effect
  resolved : Js → Effect
  refused : String → Effect
  answered : ℕ → List (ℕ × Answer Js String) → Effect
  killed : Effect
  threw : String → Effect

-- `ready` is whether `_readyResolve` and `_readyReject` are set: they are set and cleared together.
pub record Process : Type 0 where
  pub child : Bool
  pub closed : Bool
  pub ready : Bool
  pub buffer : String
  pub streams : List (String × ℕ)
  pub queues : List Queue

abbrev pub new : Process
new = record {
  child = false;
  closed = false;
  ready = false;
  buffer = "";
  streams = [];
  queues = [];
}

-- A call on the queue at a place.
unfoldable pub at_queue :
    (Queue → Queue × List (ℕ × Answer Js String))
    → ℕ
    → List Queue
    → List Queue × List (ℕ × Answer Js String)
at_queue f i [] = ([], [])
at_queue f zero (q ∷ qs) = let (q', out) = f q in (q' ∷ qs, out)
at_queue f (suc i) (q ∷ qs) = let (qs', out) = at_queue f i qs in (q ∷ qs', out)

abbrev pub on_queue :
    (Queue → Queue × List (ℕ × Answer Js String)) → ℕ → Process → Process × List Effect
on_queue f i p =
    let (qs, out) = at_queue f i p.queues in (record p { queues = qs }, answered i out ∷ [])

abbrev pub also : Process × List Effect → (Process → Process × List Effect) → Process × List Effect
also (p, out) next = let (p', more) = next p in (p', out ++ more)

abbrev pub is_type : Js → String → Bool
is_type msg t = elim (member msg "type") [ str s ↦ str_eq s t | _ ↦ false ]

abbrev pub with_id : String → Option ℕ → Option (String × ℕ)
with_id id none = none
with_id id (some i) = some (id, i)

-- The stream that a message's id names; the empty id is false.
abbrev pub stream_of : Js → List (String × ℕ) → Option (String × ℕ)
stream_of (str id) streams = if str_eq id "" then none else with_id id (lookup id streams)
stream_of _ streams = none

module _ (codec : Codec) where
  -- `_send(msg)`
  unfoldable pub send : Fields → Process → Process × List Effect
  send msg p =
      let out =
        if p.closed then threw "engine not running" ∷ [] else wrote (encode codec msg) ∷ [] in
      if p.child then (p, out) else (p, threw "engine not running" ∷ [])

  abbrev pub reject_ready : String → Process → Process × List Effect
  reject_ready why p = if p.ready then (record p { ready = false }, refused why ∷ []) else (p, [])

  -- The message of a stream: pushed, and with the last one the queue ends and is forgotten.
  unfoldable pub deliver : Js → String → ℕ → Process → Process × List Effect
  deliver msg id i p =
      let pushed = on_queue (AsyncQueue.push msg) i p in
      if is_type msg "done" || is_type msg "error"
      then also pushed (λ p1.
        also (on_queue AsyncQueue.end i p1)
          (λ p2. (record p2 { streams = delete id p2.streams }, [])))
      else pushed

  abbrev pub deliver_to : Js → Option (String × ℕ) → Process → Process × List Effect
  deliver_to msg (some (id, i)) p = deliver msg id i p
  deliver_to msg none p =
      if is_type msg "error"
      then reject_ready
          (codec.show (or_else (member msg "message") (str "engine error during start"))) p
      else (p, [])

  -- The body of the loop of `_onStdout`.
  unfoldable pub on_message : Js → Process → Process × List Effect
  on_message msg p =
      if is_type msg "ready"
      then if p.ready then (record p { ready = false }, resolved msg ∷ []) else (p, [])
      else if is_type msg "log"
      then (
        p,
        logged (or_else (member msg "level") (str "info")) (or_else (member msg "message") (str ""))
            ∷ [],
      )
      else deliver_to msg (stream_of (member msg "id") p.streams) p

  unfoldable pub on_messages : List Js → Process → Process × List Effect
  on_messages [] p = (p, [])
  on_messages (msg ∷ msgs) p = also (on_message msg p) (on_messages msgs)

  abbrev pub keep_rest : Option String → Process → Process × List Effect
  keep_rest none p = (p, threw "TypeError" ∷ [])
  keep_rest (some rest) p = (record p { buffer = rest }, [])

  -- `_onStdout(chunk)`; after an exception the buffer is not read again, as the process ends.
  unfoldable pub on_stdout : String → Process → Process × List Effect
  on_stdout chunk p =
      let read = push codec p.buffer chunk in
      also (on_messages read.messages p) (keep_rest read.rest)

  abbrev pub load : Option String → Process → Process × List Effect
  load none p = (p, [])
  load (some name) p =
      if str_eq name ""
      then (p, [])
      else send (field "type" (str "load") (field "model" (str name) end)) p

  -- `start()`, up to the promise it returns.
  unfoldable pub start : Option String → Process → Process × List Effect
  start model p = also (record p { child = true; ready = true }, spawned ∷ []) (load model)

  -- `q.fail(err)` for each stream.
  unfoldable pub fail_streams : String → List (String × ℕ) → Process → Process × List Effect
  fail_streams why [] p = (p, [])
  fail_streams why ((id, i) ∷ more) p =
      also (on_queue (AsyncQueue.fail (some why)) i p) (fail_streams why more)

  -- `_onExit`, with the text of the error.
  unfoldable pub on_exit : String → Process → Process × List Effect
  on_exit why p =
      if p.closed
      then (p, [])
      else also (fail_streams why p.streams (record p { closed = true }))
          (λ p1. reject_ready why (record p1 { streams = [] }))

  -- `_onChildError`
  unfoldable pub on_child_error : String → Process → Process × List Effect
  on_child_error why p = reject_ready why p

  -- `generate(req)`, with the id of the request, or else the random one.
  unfoldable pub generate : Fields → String → Process → Process × List Effect
  generate req id p =
      let i = length p.queues in
      let opened = record p {
        queues = p.queues ++ (AsyncQueue.new ∷ []);
        streams = insert id i p.streams;
      } in
      if p.closed
      then (p, threw "engine closed" ∷ [])
      else send (set_field "id" (str id) (spread (field "type" (str "generate") end) req)) opened

  abbrev quietly : List Effect → List Effect
  quietly (threw _ ∷ out) = out
  quietly out = out

  -- `cancel()` of a stream; the exception of `_send` is dropped.
  unfoldable pub cancel : String → Process → Process × List Effect
  cancel id p =
      let (p', out) = send (field "type" (str "cancel") (field "id" (str id) end)) p in
      (p', quietly out)

  -- `shutdown()`, up to the wait for the exit or for its timer.
  unfoldable pub shutdown : Process → Process × List Effect
  shutdown p =
      let asked = send (field "type" (str "shutdown") end) p in
      if p.child then if p.closed then (p, []) else asked else (p, [])

  -- The timer of `shutdown`.
  unfoldable pub shutdown_timeout : Process → Process × List Effect
  shutdown_timeout p = (p, killed ∷ [])

  -- A reader's call of `next()`.
  unfoldable pub read : ℕ → ℕ → Process → Process × List Effect
  read i promise p = on_queue (AsyncQueue.next promise) i p
