-- ===== src/Engine/Exit.antt =====
-- The wrapper of packages/engine under any sequence of its handlers.
use infernet_protocol.Common.{
  ℕ, ◌≡◌, refl, true, false, Option, none, List, [], ◌∷◌, String, inl, inr, Bool-cases,
}
use infernet_protocol.Common.Maps.{lookup}
use infernet_protocol.Common.Js.{Fields}
use infernet_protocol.Engine.AsyncQueue.{next}
use infernet_protocol.Engine.Protocol.{Codec}
use infernet_protocol.Engine.Process.{
  Process, Effect, on_stdout, start, on_exit, on_child_error, generate, cancel, shutdown,
  shutdown_timeout, read, new,
}
use infernet_protocol.Engine.Linked.{Linked, is_open, next-closed}
use infernet_protocol.Engine.Links.{no_stream}
use infernet_protocol.Engine.Steps.{
  no_entry, Linked-on_stdout, Linked-exit, Linked-reject, Linked-start, Linked-generate,
  Linked-cancel, Linked-shutdown, Linked-touch,
}

pub data Action : Type 0 where
  receives : String → Action
  exits : String → Action
  breaks : String → Action
  starts : Option String → Action
  generates : Fields → String → Action
  cancels : String → Action
  shuts : Action
  expires : Action
  reads : ℕ → ℕ → Action

new-Linked : Linked new
unfolding lookup
new-Linked = record {
  live = λ id i h. no_entry id i h;
  known = λ i h. cc;
  apart = λ id j i h k. no_entry id i h;
  gone = λ h. refl;
}

module _ (codec : Codec) where
  abbrev pub act : Action → Process → Process × List Effect
  act (receives chunk) = on_stdout codec chunk
  act (exits why) = on_exit codec why
  act (breaks why) = on_child_error codec why
  act (starts model) = start codec model
  act (generates req id) = generate codec req id
  act (cancels id) = cancel codec id
  act shuts = shutdown codec
  act expires = shutdown_timeout codec
  act (reads i promise) = read codec i promise

  abbrev pub acts : List Action → Process → Process
  acts [] p = p
  acts (a ∷ rest) p = acts rest (act a p).0

  -- A generation starts under an id that no running one has.
  abbrev Unused : Action → Process → Type 0
  Unused (generates req id) p = lookup id p.streams ≡ none
  Unused _ p = Unit

  abbrev pub Fresh : List Action → Process → Type 0
  Fresh [] p = Unit
  Fresh (a ∷ rest) p = Unused a p × Fresh rest (act a p).0

  Linked-act : (a : Action) (p : Process) → Unused a p → Linked p → Linked (act a p).0
  unfolding on_child_error shutdown_timeout read
  Linked-act (receives chunk) p f l = Linked-on_stdout codec chunk p l
  Linked-act (exits why) p f l = Linked-exit codec why p l
  Linked-act (breaks why) p f l = Linked-reject codec why p l
  Linked-act (starts model) p f l = Linked-start codec model p l
  Linked-act (generates req id) p f l = Linked-generate codec req id p f l
  Linked-act (cancels id) p f l = Linked-cancel codec id p l
  Linked-act shuts p f l = Linked-shutdown codec p l
  Linked-act expires p f l = l
  Linked-act (reads i promise) p f l = Linked-touch codec (next promise) i p (next-closed promise) l

  Linked-acts : (run : List Action) (p : Process) → Fresh run p → Linked p → Linked (acts run p)
  Linked-acts [] p f l = l
  Linked-acts (a ∷ rest) p (now, later) l =
      Linked-acts rest (act a p).0 later (Linked-act a p now l)

  -- Whatever chunks arrive and whatever is called, if no generation starts under the id of one that
  -- runs, the streams that the wrapper knows are the queues that are open, each under one id, and
  -- it knows none after the exit.
  acts-Linked : (run : List Action) → Fresh run new → Linked (acts run new)
  acts-Linked run f = Linked-acts run new f new-Linked

  -- After the exit of the engine every stream that was ever started is closed, in any run in which
  -- no generation starts under the id of one that runs.
  pub exit-closes :
      (run : List Action)
      → Fresh run new
      → (acts run new).closed ≡ true
      → (i : ℕ) → is_open (acts run new).queues i ≡ false
  exit-closes run f h i =
      let l = acts-Linked run f in
      elim (Bool-cases (is_open (acts run new).queues i)) [
        | inl still ↦
            let (id, there) = l.known i still in
            elim (no_stream (acts run new) id i there (l.gone h)) [ ]
        | inr shut ↦ shut
      ]
