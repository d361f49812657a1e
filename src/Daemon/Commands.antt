-- ===== src/Daemon/Commands.antt =====
-- apps/cli/commands/start.js: the commands of a node's owner, and the requests over the socket.
use Prim.Native.String.{◌++◌ as ◌<>◌}
use infernet_protocol.Common.{ℕ, Option, none, some, List, [], ◌∷◌, String, str_eq, if◌then◌else◌}
use infernet_protocol.Common.Js.{Js, str, member}
use infernet_protocol.Daemon.State.{Daemon}
use infernet_protocol.Daemon.Loop.{Happening, signalled}

-- A command as a poll gives it.
pub record NodeCommand : Type 0 where
  pub id : String
  pub command : String
  pub args : Js

-- What `completeCommand` is told.
pub data Report : Type 0 where
  says_completed : Js → Report
  says_failed : String → Report

-- A result, or the message of an exception.
pub data Outcome : Type 0 where
  gives : Js → Outcome
  throws : String → Outcome

-- The arguments of `ollama`, or the message of the exception of an unknown verb; `show` is
-- `String(value)`.
unfoldable pub ollama_args : (Js → String) → NodeCommand → Option (List String)
ollama_args show cmd =
    if str_eq cmd.command "model_install"
    then some ("pull" ∷ show (member cmd.args "model") ∷ [])
    else if str_eq cmd.command "model_remove"
    then some ("rm" ∷ show (member cmd.args "model") ∷ [])
    else none

abbrev pub report_of : Outcome → Report
report_of (gives result) = says_completed result
report_of (throws message) = says_failed message

-- The requests of a command's end: `answer` says how the first one ends if it reports success.
-- Where that request throws, the failure is reported as well.
abbrev pub reports : String → Outcome → Option String → List (String × Report)
reports id (gives result) none = (id, says_completed result) ∷ []
reports id (gives result) (some message) =
    (id, says_completed result) ∷ (id, says_failed message) ∷ []
reports id (throws message) answer = (id, says_failed message) ∷ []

-- `runNodeCommand`; `spawn` is what `ollama` does with its arguments.
unfoldable pub run_node_command :
    (Js → String) → (List String → Outcome) → Option String → NodeCommand → List (String × Report)
run_node_command show spawn answer cmd = elim (ollama_args show cmd) [
  | some args ↦ reports cmd.id (spawn args) answer
  | none ↦ reports cmd.id (throws ("unknown command verb: " <> cmd.command)) answer
]

-- An answer over the socket: its data, or that the command is unknown.
pub data Reply : Type 0 where
  pong : ℕ → Reply
  snapshot : Daemon → Reply
  shutting_down : Reply
  unknown_cmd : Js → Reply

-- `handleIpc`, with the shutdown that it schedules.
unfoldable pub handle_ipc : ℕ → Js → Daemon → Reply × List Happening
handle_ipc now msg d = elim (member msg "cmd") [
  | str cmd ↦
      if str_eq cmd "ping"
      then (pong now, [])
      else if str_eq cmd "status"
      then (snapshot d, [])
      else if str_eq cmd "stats"
      then (snapshot d, [])
      else if str_eq cmd "shutdown"
      then (shutting_down, signalled ∷ [])
      else (unknown_cmd (str cmd), [])
  | other ↦ (unknown_cmd other, [])
]
