-- ===== src/Engine/Steps.antt =====
-- Each handler of packages/engine/src/engine-process.js and the links between streams and queues.
use infernet_protocol.Common.{
  ℕ, ◌≡◌, ◌≢◌, refl, sym, subst, ◌∙◌, Bool, true, false, ◌||◌, Option, none, some, List, [], ◌∷◌,
  ◌++◌, String, str_eq, ◌==◌, length, if_rule, if_split_rule, inl, inr, Bool-cases, arith,
}
use infernet_protocol.Common.Maps.{lookup, insert, delete}
use infernet_protocol.Common.Js.{Js, Fields, undefined, null, bool, num, str, arr, obj, member}
use infernet_protocol.Engine.AsyncQueue
use infernet_protocol.Engine.AsyncQueue.{Answer, push, end, fail}
use infernet_protocol.Engine.Protocol.{Codec}
use infernet_protocol.Engine.Process.{
  Process, Queue, Effect, reject_ready, deliver_to, load, keep_rest, is_type, on_queue, with_id,
  send, deliver, on_message, on_messages, on_stdout, stream_of, start, fail_streams, on_exit,
  generate, cancel, shutdown,
}
use infernet_protocol.Engine.Linked.{
  Linked, is_open, push-closed, end-closed, fail-closed, open-touched, open-shut, open-added,
  open-end,
}
use infernet_protocol.Engine.Links.{
  chosen_true, chosen_some, Linked-same, Linked-ended, Linked-added,
}

one_place : (i j : ℕ) → i == j ≡ false → some i ≢ some j
one_place i j h e = let same : i ≡ j = cc in ground arith

pub no_entry : {P : Type 0} (id : String) (i : ℕ) → lookup id [] ≡ some i → P
unfolding lookup
no_entry id i h = cc

module _ (codec : Codec) where
  abbrev Keeps : Process × List Effect → Type 0
  Keeps x = Linked x.0

  send-same : (msg : Fields) (p : Process) → (send codec msg p).0 ≡ p
  unfolding send
  send-same msg p = ground arith

  Linked-send : (msg : Fields) (p : Process) → Linked p → Linked (send codec msg p).0
  Linked-send msg p l = subst Linked (sym (send-same msg p)) l

  Linked-flags :
      (p : Process) (b c : Bool) (t : String)
      → Linked p
      → Linked (record p { ready = b; child = c; buffer = t })
  Linked-flags p b c t l =
      Linked-same p (record p { ready = b; child = c; buffer = t }) refl refl (λ j. refl) l

  pub Linked-touch :
      (f : Queue → Queue × List (ℕ × Answer Js String)) (i : ℕ) (p : Process)
      → ((q : Queue) → (f q).0.closed ≡ q.closed)
      → Linked p
      → Linked (on_queue f i p).0
  Linked-touch f i p h l =
      Linked-same p (on_queue f i p).0 refl refl (λ j. open-touched f i j p.queues h) l

  Linked-deliver :
      (msg : Js) (id : String) (i : ℕ) (p : Process)
      → lookup id p.streams ≡ some i
      → Linked p
      → Linked (deliver codec msg id i p).0
  unfolding deliver
  Linked-deliver msg id i p at l =
      let pushed = (on_queue (push msg) i p).0 in
      let ended = record (on_queue end i pushed).0 { streams = delete id p.streams } in
      let l' = Linked-touch (push msg) i p (push-closed msg) l in
      if_rule Keeps (is_type msg "done" || is_type msg "error") _ _
        (Linked-ended pushed ended id i at refl refl
          (λ j. open-shut end i j pushed.queues end-closed) l')
        l'

  pub Linked-reject : (why : String) (p : Process) → Linked p → Linked (reject_ready codec why p).0
  Linked-reject why p l = if_rule Keeps p.ready _ _ (Linked-flags p false p.child p.buffer l) l

  with_id-lookup :
      (s : String) (o : Option ℕ) (streams : List (String × ℕ)) (id : String) (i : ℕ)
      → lookup s streams ≡ o
      → with_id s o ≡ some (id, i)
      → lookup id streams ≡ some i
  with_id-lookup s none streams id i at h = cc
  with_id-lookup s (some k) streams id i at h =
      let name : s ≡ id = cc in
      let place : k ≡ i = cc in
      subst (λ n. lookup id streams ≡ some n) place (subst (λ x. lookup x streams ≡ some k) name at)

  stream_of-lookup :
      (v : Js) (streams : List (String × ℕ)) (id : String) (i : ℕ)
      → stream_of v streams ≡ some (id, i)
      → lookup id streams ≡ some i
  stream_of-lookup undefined streams id i h = cc
  stream_of-lookup null streams id i h = cc
  stream_of-lookup (bool b) streams id i h = cc
  stream_of-lookup (num n) streams id i h = cc
  stream_of-lookup (str s) streams id i h =
      with_id-lookup s (lookup s streams) streams id i refl
        (chosen_some (str_eq s "") (with_id s (lookup s streams)) (id, i) h).1
  stream_of-lookup (arr xs) streams id i h = cc
  stream_of-lookup (obj fs) streams id i h = cc

  Linked-deliver_to :
      (msg : Js) (o : Option (String × ℕ)) (p : Process)
      → ((id : String) (i : ℕ) → o ≡ some (id, i) → lookup id p.streams ≡ some i)
      → Linked p
      → Linked (deliver_to codec msg o p).0
  Linked-deliver_to msg none p h l = if_rule Keeps (is_type msg "error") _ _ (Linked-reject _ p l) l
  Linked-deliver_to msg (some (id, i)) p h l = Linked-deliver msg id i p (h id i refl) l

  Linked-on_message : (msg : Js) (p : Process) → Linked p → Linked (on_message codec msg p).0
  unfolding on_message
  Linked-on_message msg p l =
      let own =
        Linked-deliver_to msg (stream_of (member msg "id") p.streams) p
          (stream_of-lookup (member msg "id") p.streams) l in
      if_rule Keeps (is_type msg "ready") _ _
        (if_rule Keeps p.ready _ _ (Linked-flags p false p.child p.buffer l) l)
        (if_rule Keeps (is_type msg "log") _ _ l own)

  Linked-on_messages :
      (msgs : List Js) (p : Process) → Linked p → Linked (on_messages codec msgs p).0
  unfolding on_messages
  Linked-on_messages [] p l = l
  Linked-on_messages (msg ∷ msgs) p l =
      Linked-on_messages msgs (on_message codec msg p).0 (Linked-on_message msg p l)

  Linked-keep_rest : (o : Option String) (p : Process) → Linked p → Linked (keep_rest codec o p).0
  Linked-keep_rest none p l = l
  Linked-keep_rest (some rest) p l = Linked-flags p p.ready p.child rest l

  pub Linked-on_stdout :
      (chunk : String) (p : Process) → Linked p → Linked (on_stdout codec chunk p).0
  unfolding on_stdout
  Linked-on_stdout chunk p l = Linked-keep_rest _ _ (Linked-on_messages _ p l)

  Linked-load : (model : Option String) (p : Process) → Linked p → Linked (load codec model p).0
  Linked-load none p l = l
  Linked-load (some name) p l = if_rule Keeps (str_eq name "") _ _ l (Linked-send _ p l)

  pub Linked-start :
      (model : Option String) (p : Process) → Linked p → Linked (start codec model p).0
  unfolding start
  Linked-start model p l = Linked-load model _ (Linked-flags p true true p.buffer l)

  pub Linked-generate :
      (req : Fields) (id : String) (p : Process)
      → lookup id p.streams ≡ none
      → Linked p
      → Linked (generate codec req id p).0
  unfolding generate
  Linked-generate req id p absent l =
      let opened = record p {
        queues = p.queues ++ (AsyncQueue.new ∷ []);
        streams = insert id (length p.queues) p.streams;
      } in
      if_split_rule Keeps p.closed _ _ (λ stopped. l)
        (λ running. Linked-send _ opened (
          Linked-added p opened id absent running refl refl (λ j. open-added j p.queues)
            (open-end p.queues) l))

  not_first :
      (name id : String) (i j : ℕ) (more : List (String × ℕ))
      → i == j ≡ false
      → lookup id more ≢ some j
      → lookup id ((name, i) ∷ more) ≢ some j
  unfolding lookup
  not_first name id i j more apart later e = elim (Bool-cases (str_eq name id)) [
    | inl b ↦ one_place i j apart (rw b at e)
    | inr b ↦ later (rw b at e)
  ]

  fail_streams-closes :
      (why : String) (streams : List (String × ℕ)) (p : Process) (j : ℕ)
      → is_open (fail_streams codec why streams p).0.queues j ≡ true
      → (is_open p.queues j ≡ true) × ((id : String) → lookup id streams ≢ some j)
  unfolding fail_streams lookup
  fail_streams-closes why [] p j h = (h, λ id e. cc)
  fail_streams-closes why ((name, i) ∷ more) p j h =
      let (still, others) = fail_streams-closes why more (on_queue (fail (some why)) i p).0 j h in
      let (apart, was) =
        chosen_true (i == j) _
          (sym (open-shut (fail (some why)) i j p.queues (fail-closed (some why))) ∙ still) in
      (was, λ id e. not_first name id i j more apart (others id) e)

  fail_streams-closed :
      (why : String) (streams : List (String × ℕ)) (p : Process)
      → (fail_streams codec why streams p).0.closed ≡ p.closed
  unfolding fail_streams
  fail_streams-closed why [] p = refl
  fail_streams-closed why ((name, i) ∷ more) p =
      fail_streams-closed why more (on_queue (fail (some why)) i p).0

  -- After the exit no queue is open.
  failed-shut :
      (why : String) (p : Process)
      → Linked p
      → (j : ℕ)
      → is_open (fail_streams codec why p.streams (record p { closed = true })).0.queues j ≢ true
  failed-shut why p l j h =
      let (was, others) = fail_streams-closes why p.streams (record p { closed = true }) j h in
      let (id, there) = l.known j was in others id there

  pub Linked-exit : (why : String) (p : Process) → Linked p → Linked (on_exit codec why p).0
  unfolding on_exit
  Linked-exit why p l =
      let failed = (fail_streams codec why p.streams (record p { closed = true })).0 in
      let left : Linked (record failed { streams = [] }) = record {
        live = λ id i h. no_entry id i h;
        known = λ j h. elim (failed-shut why p l j h) [ ];
        apart = λ id j i h k. no_entry id i h;
        gone = λ h. refl;
      } in
      if_rule Keeps p.closed _ _ l (Linked-reject why (record failed { streams = [] }) left)

  pub Linked-cancel : (id : String) (p : Process) → Linked p → Linked (cancel codec id p).0
  unfolding cancel
  Linked-cancel id p l = Linked-send _ p l

  pub Linked-shutdown : (p : Process) → Linked p → Linked (shutdown codec p).0
  unfolding shutdown
  Linked-shutdown p l =
      if_rule Keeps p.child _ _ (if_rule Keeps p.closed _ _ l (Linked-send _ p l)) l
