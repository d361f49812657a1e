-- ===== src/Engine/Delivery.antt =====
-- What a reader of the queue of packages/engine gets, under any sequence of calls.
use infernet_protocol.Common.{
  ℕ, zero, suc, ◌+◌, Bool, ◌≡◌, refl, sym, ap, subst, ◌∙◌, length-snoc, length-map, Option, none,
  List, [], ◌∷◌, ◌++◌, length, length-append, arith, true,
}
use mathlib.Core.List.{append-nil, append_assoc}
use infernet_protocol.Engine.AsyncQueue.{Answer, value, closing, answer_all, push, fail, end, next}
use infernet_protocol.Engine.Stream.{
  Call, pushes, fails, ends, asks, Run, Stream, call, calls, silent_run, happen, happened, silence,
  repeat, promised, numbered,
}
use infernet_protocol.Engine.Shapes.{
  Shape, buffered, waiting, ended, over, from, from-snoc, values_of, concrete, abstract, move,
  given_one, given_then, shut_waiting, length-repeat, over_one, take-given, take-repeat,
  take-buffered, take-empty,
}

module _ {A E : Type 0} where
  -- A run is known by its parts.
  Run-path :
      (vs : List A) (c : Bool) (e : Option E) {ws ws' : List ℕ} {n n' : ℕ}
      {out out' : List (ℕ × Answer A E)}
      → ws ≡ ws'
      → n ≡ n'
      → out ≡ out'
      → ◌≡◌ {A = Run A E}
          (record {
            queue = record { values = vs; waiters = ws; closed = c; error = e };
            asked = n;
            answers = out;
          })
          (record {
            queue = record { values = vs; waiters = ws'; closed = c; error = e };
            asked = n';
            answers = out';
          })
  Run-path vs c e p q r i = record {
    queue = record { values = vs; waiters = p i; closed = c; error = e };
    asked = q i;
    answers = r i;
  }

  call-concrete : (s : Shape A E) (c : Call A E) → call (concrete s) c ≡ concrete (move s c)
  unfolding push fail end next answer_all
  call-concrete (buffered given vs) (pushes v) = Run-path _ _ _ refl refl (append-nil _)
  call-concrete (buffered given vs) (fails e) = Run-path _ _ _ refl refl (append-nil _)
  call-concrete (buffered given vs) ends = Run-path _ _ _ refl refl (append-nil _)
  call-concrete (buffered given []) asks = Run-path _ _ _ refl (omega arith) (append-nil _)
  call-concrete (buffered given (v ∷ vs)) asks =
      Run-path _ _ _ refl (sym (length-snoc given v)) (given_one given v)
  call-concrete (waiting given zero) (pushes v) = Run-path _ _ _ refl (omega arith) (append-nil _)
  call-concrete (waiting given (suc n)) (pushes v) =
      Run-path _ _ _ (ap (λ k. from k n) (sym (length-snoc given v)))
        (omega (arith, length-snoc given v)) (given_one given v)
  call-concrete (waiting given n) (fails e) = Run-path _ _ _ refl refl (shut_waiting given n e)
  call-concrete (waiting given n) ends = Run-path _ _ _ refl refl (shut_waiting given n none)
  call-concrete (waiting given n) asks =
      Run-path _ _ _ (from-snoc (length given) n) (omega arith) (append-nil _)
  call-concrete (ended given [] e) asks =
      Run-path _ _ _ refl (omega arith) (given_then given (closing e ∷ []))
  call-concrete (ended given (v ∷ vs) e) asks =
      Run-path _ _ _ refl (sym (length-snoc given v)) (given_one given v)
  call-concrete (ended given vs e) (pushes v) = Run-path _ _ _ refl refl (append-nil _)
  call-concrete (ended given vs e) (fails x) = Run-path _ _ _ refl refl (append-nil _)
  call-concrete (ended given vs e) ends = Run-path _ _ _ refl refl (append-nil _)
  call-concrete (over given n e) asks =
      Run-path _ _ _ refl (omega arith) (over_one given n (closing e))
  call-concrete (over given n e) (pushes v) = Run-path _ _ _ refl refl (append-nil _)
  call-concrete (over given n e) (fails x) = Run-path _ _ _ refl refl (append-nil _)
  call-concrete (over given n e) ends = Run-path _ _ _ refl refl (append-nil _)

  Stream-path :
      (c : Option (Answer A E)) {xs ys : List A} {n m : ℕ}
      → xs ≡ ys
      → n ≡ m
      → ◌≡◌ {A = Stream A E}
          (record { sent = xs; close = c; requests = n })
          (record { sent = ys; close = c; requests = m })
  Stream-path c p q i = record { sent = p i; close = c; requests = q i }

  happen-abstract : (s : Shape A E) (c : Call A E) → happen (abstract s) c ≡ abstract (move s c)
  happen-abstract (buffered given vs) (pushes v) =
      Stream-path none (append_assoc given vs (v ∷ [])) refl
  happen-abstract (buffered given vs) (fails e) = refl
  happen-abstract (buffered given vs) ends = refl
  happen-abstract (buffered given []) asks = Stream-path none (append-nil given) (omega arith)
  happen-abstract (buffered given (v ∷ vs)) asks =
      Stream-path none (sym (append_assoc given (v ∷ []) vs)) (sym (length-snoc given v))
  happen-abstract (waiting given zero) (pushes v) = Stream-path none refl (omega arith)
  happen-abstract (waiting given (suc n)) (pushes v) =
      Stream-path none refl (omega (arith, length-snoc given v))
  happen-abstract (waiting given n) (fails e) = refl
  happen-abstract (waiting given n) ends = refl
  happen-abstract (waiting given n) asks = Stream-path none refl (omega arith)
  happen-abstract (ended given [] e) asks = Stream-path _ (append-nil given) (omega arith)
  happen-abstract (ended given (v ∷ vs) e) asks =
      Stream-path _ (sym (append_assoc given (v ∷ []) vs)) (sym (length-snoc given v))
  happen-abstract (ended given vs e) (pushes v) = refl
  happen-abstract (ended given vs e) (fails x) = refl
  happen-abstract (ended given vs e) ends = refl
  happen-abstract (over given n e) asks = Stream-path _ refl (omega arith)
  happen-abstract (over given n e) (pushes v) = refl
  happen-abstract (over given n e) (fails x) = refl
  happen-abstract (over given n e) ends = refl

  promised-abstract : (s : Shape A E) → (concrete s).answers ≡ numbered 0 (promised (abstract s))
  promised-abstract (buffered given vs) = ap (numbered 0) (sym (take-buffered given vs []))
  promised-abstract (waiting given n) = ap (numbered 0) (
      sym (
        take-given n given []
        ∙ ap (λ t. values_of given ++ t) (take-empty n)
        ∙ append-nil (values_of given)))
  promised-abstract (ended given vs e) =
      ap (numbered 0) (sym (take-buffered given vs (repeat (length given) (closing e))))
  promised-abstract (over given n e) = ap (numbered 0) (
      sym (
        take-given n given (repeat (n + length given) (closing e))
        ∙ ap (λ t. values_of given ++ t) (take-repeat n (length given) (closing e))))

  calls-shape :
      (s : Shape A E) (cs : List (Call A E))
      → (t : Shape A E) × (calls (concrete s) cs ≡ concrete t)
        × (happened (abstract s) cs ≡ abstract t)
  calls-shape s [] = (s, refl, refl)
  calls-shape s (c ∷ cs) =
      let (t, p, q) = calls-shape (move s c) cs in
      (
        t,
        ap (λ r. calls r cs) (call-concrete s c) ∙ p,
        ap (λ r. happened r cs) (happen-abstract s c) ∙ q,
      )

  -- Whatever the order of the calls of `push`, `fail`, `end` and `next`, the promises that are
  -- answered are the first ones, each once and in the order made: the promise made k-th gets the
  -- k-th value sent before the close, and after a close each promise beyond the values gets the
  -- end or the error.
  pub calls-promised :
      (cs : List (Call A E))
      → (calls silent_run cs).answers ≡ numbered 0 (promised (happened silence cs))
  calls-promised cs =
      let (t, p, q) = calls-shape (buffered [] []) cs in
      ap (λ r. r.answers) p ∙ promised-abstract t ∙ ap (λ r. numbered 0 (promised r)) (sym q)

  length-numbered : (k : ℕ) (xs : List (Answer A E)) → length (numbered k xs) ≡ length xs
  length-numbered k [] = refl
  length-numbered k (x ∷ xs) = ap suc (length-numbered (suc k) xs)

  closed-answered :
      (s : Shape A E)
      → (concrete s).queue.closed ≡ true
      → length (concrete s).answers ≡ (concrete s).asked
  closed-answered (buffered given vs) h = cc
  closed-answered (waiting given n) h = cc
  closed-answered (ended given vs e) h =
      length-numbered 0 (values_of given) ∙ length-map {B = Answer A E} value given
  closed-answered (over given n e) h =
      length-numbered 0 (values_of given ++ repeat n (closing e))
      ∙ omega (
        arith,
        length-append (values_of given) (repeat n (closing e)),
        length-map {B = Answer A E} value given,
        length-repeat n (closing e),
      )

  -- Once the queue is closed, every promise made so far is answered: no reader waits for ever.
  pub closed-settled :
      (cs : List (Call A E))
      → (calls silent_run cs).queue.closed ≡ true
      → length (calls silent_run cs).answers ≡ (calls silent_run cs).asked
  closed-settled cs h =
      let (t, p, _) = calls-shape (buffered [] []) cs in
      subst (λ (r : Run A E). length r.answers ≡ r.asked) (sym p)
        (closed-answered t (subst (λ (r : Run A E). r.queue.closed ≡ true) p h))
