-- ===== src/Engine/Shapes.antt =====
-- The shapes of a run of the queue of packages/engine, with what the queue and the stream are in each.
use infernet_protocol.Common.{
  ℕ, zero, suc, ◌+◌, ◌≡◌, refl, sym, ap, subst, ◌∙◌, length-map, map-append, take-append, Option,
  none, some, List, [], ◌∷◌, ◌++◌, map, length, length-append, take, arith, true, false,
}
use mathlib.Core.List.{append-nil, append_assoc}
use infernet_protocol.Engine.AsyncQueue.{Answer, value, closing, answer_all}
use infernet_protocol.Engine.Stream.{Call, pushes, fails, ends, asks, Run, Stream, repeat, numbered}

-- The shapes a run takes: what was given to the reader, and what is left or waited for.
pub data Shape (A E : Type 0) : Type 0 where
  buffered : List A → List A → Shape A E
  waiting : List A → ℕ → Shape A E
  ended : List A → List A → Option E → Shape A E
  over : List A → ℕ → Option E → Shape A E

abbrev pub from : ℕ → ℕ → List ℕ
from k zero = []
from k (suc n) = k ∷ from (suc k) n

pub from-snoc : (k n : ℕ) → from k n ++ ((n + k) ∷ []) ≡ from k (suc n)
from-snoc k zero = let base : 0 + k ≡ k = omega arith in ap (λ j. j ∷ []) base
from-snoc k (suc n) =
    let shift : suc n + k ≡ n + suc k = omega arith in
    ap (λ t. k ∷ t) (ap (λ j. from (suc k) n ++ (j ∷ [])) shift ∙ from-snoc (suc k) n)

module _ {A E : Type 0} where
  abbrev pub values_of : List A → List (Answer A E)
  values_of = map value

  abbrev pub concrete : Shape A E → Run A E
  concrete (buffered given vs) = record {
    queue = record { values = vs; waiters = []; closed = false; error = none };
    asked = length given;
    answers = numbered 0 (values_of given);
  }
  concrete (waiting given n) = record {
    queue = record { values = []; waiters = from (length given) n; closed = false; error = none };
    asked = n + length given;
    answers = numbered 0 (values_of given);
  }
  concrete (ended given vs e) = record {
    queue = record { values = vs; waiters = []; closed = true; error = e };
    asked = length given;
    answers = numbered 0 (values_of given);
  }
  concrete (over given n e) = record {
    queue = record { values = []; waiters = []; closed = true; error = e };
    asked = n + length given;
    answers = numbered 0 (values_of given ++ repeat n (closing e));
  }

  abbrev pub abstract : Shape A E → Stream A E
  abstract (buffered given vs) = record {
    sent = given ++ vs;
    close = none;
    requests = length given;
  }
  abstract (waiting given n) = record { sent = given; close = none; requests = n + length given }
  abstract (ended given vs e) = record {
    sent = given ++ vs;
    close = some (closing e);
    requests = length given;
  }
  abstract (over given n e) = record {
    sent = given;
    close = some (closing e);
    requests = n + length given;
  }

  abbrev pub drain : List A → Option E → List A → Shape A E
  drain given e [] = over given 1 e
  drain given e (v ∷ vs) = ended (given ++ (v ∷ [])) vs e

  abbrev pub move : Shape A E → Call A E → Shape A E
  move (buffered given vs) (pushes v) = buffered given (vs ++ (v ∷ []))
  move (buffered given vs) (fails e) = ended given vs e
  move (buffered given vs) ends = ended given vs none
  move (buffered given []) asks = waiting given 1
  move (buffered given (v ∷ vs)) asks = buffered (given ++ (v ∷ [])) vs
  move (waiting given zero) (pushes v) = buffered given (v ∷ [])
  move (waiting given (suc n)) (pushes v) = waiting (given ++ (v ∷ [])) n
  move (waiting given n) (fails e) = over given n e
  move (waiting given n) ends = over given n none
  move (waiting given n) asks = waiting given (suc n)
  move (ended given vs e) asks = drain given e vs
  move (ended given vs e) _ = ended given vs e
  move (over given n e) asks = over given (suc n) e
  move (over given n e) _ = over given n e

  numbered-append :
      (k : ℕ) (xs ys : List (Answer A E))
      → numbered k (xs ++ ys) ≡ numbered k xs ++ numbered (length xs + k) ys
  numbered-append k [] ys = let base : k ≡ 0 + k = omega arith in ap (λ j. numbered j ys) base
  numbered-append k (x ∷ xs) ys =
      let shift : length xs + suc k ≡ suc (length xs) + k = omega arith in
      ap (λ t. (k, x) ∷ t)
        (numbered-append (suc k) xs ys ∙ ap (λ j. numbered (suc k) xs ++ numbered j ys) shift)

  answer_all-from : (k n : ℕ) (a : Answer A E) → answer_all a (from k n) ≡ numbered k (repeat n a)
  unfolding answer_all
  answer_all-from k zero a = refl
  answer_all-from k (suc n) a = ap (λ t. (k, a) ∷ t) (answer_all-from (suc k) n a)

  -- One more answer, at the place that is next.
  numbered-snoc :
      (xs : List (Answer A E)) (k : ℕ) (a : Answer A E)
      → k ≡ length xs
      → numbered 0 xs ++ ((k, a) ∷ []) ≡ numbered 0 (xs ++ (a ∷ []))
  numbered-snoc xs k a h =
      let place : k ≡ length xs + 0 = omega arith in
      ap (λ j. numbered 0 xs ++ ((j, a) ∷ [])) place ∙ sym (numbered-append 0 xs (a ∷ []))

  -- The reader's answers, when the values given are followed by others.
  pub given_then :
      (g : List A) (out : List (Answer A E))
      → numbered 0 (values_of g) ++ numbered (length g) out ≡ numbered 0 (values_of g ++ out)
  given_then g out =
      let place : length g ≡ length (values_of g) + 0 =
        omega (arith, length-map {B = Answer A E} value g) in
      ap (λ j. numbered 0 (values_of g) ++ numbered j out) place
      ∙ sym (numbered-append 0 (values_of g) out)

  pub given_one :
      (g : List A) (v : A)
      → numbered 0 (values_of g) ++ ((length g, value v) ∷ [])
        ≡ numbered 0 (values_of (g ++ (v ∷ [])))
  given_one g v = given_then g (value v ∷ []) ∙ ap (numbered 0) (sym (map-append value g (v ∷ [])))

  repeat-snoc : (n : ℕ) (a : Answer A E) → repeat n a ++ (a ∷ []) ≡ repeat (suc n) a
  repeat-snoc zero a = refl
  repeat-snoc (suc n) a = ap (λ t. a ∷ t) (repeat-snoc n a)

  pub shut_waiting :
      (g : List A) (n : ℕ) (e : Option E)
      → numbered 0 (values_of g) ++ answer_all (closing e) (from (length g) n)
        ≡ numbered 0 (values_of g ++ repeat n (closing e))
  shut_waiting g n e =
      ap (λ t. numbered 0 (values_of g) ++ t) (answer_all-from (length g) n (closing e))
      ∙ given_then g (repeat n (closing e))

  pub length-repeat : (n : ℕ) (a : Answer A E) → length (repeat n a) ≡ n
  length-repeat zero a = refl
  length-repeat (suc n) a = ap suc (length-repeat n a)

  pub over_one :
      (g : List A) (n : ℕ) (a : Answer A E)
      → numbered 0 (values_of g ++ repeat n a) ++ ((n + length g, a) ∷ [])
        ≡ numbered 0 (values_of g ++ repeat (suc n) a)
  over_one g n a =
      numbered-snoc (values_of g ++ repeat n a) (n + length g) a (
        omega (
          arith,
          length-append (values_of g) (repeat n a),
          length-repeat n a,
          length-map {B = Answer A E} value g,
        ))
      ∙ ap (numbered 0) (
          append_assoc (values_of g) (repeat n a) (a ∷ [])
          ∙ ap (λ t. values_of g ++ t) (repeat-snoc n a))

  pub take-given :
      (n : ℕ) (g : List A) (more : List (Answer A E))
      → take (n + length g) (values_of g ++ more) ≡ values_of g ++ take n more
  take-given n g more =
      subst (λ k. take (n + k) (values_of g ++ more) ≡ values_of g ++ take n more)
        (length-map {B = Answer A E} value g) (take-append n (values_of g) more)

  pub take-repeat : (n m : ℕ) (a : Answer A E) → take n (repeat (n + m) a) ≡ repeat n a
  take-repeat zero m a = refl
  take-repeat (suc n) m a =
      let shift : suc n + m ≡ suc (n + m) = omega arith in
      ap (λ k. take (suc n) (repeat k a)) shift ∙ ap (λ t. a ∷ t) (take-repeat n m a)

  -- What is left to read is not promised yet.
  pub take-buffered :
      (g vs : List A) (more : List (Answer A E))
      → take (length g) (map value (g ++ vs) ++ more) ≡ values_of g
  take-buffered g vs more =
      let base : length g ≡ 0 + length g = omega arith in
      ap (λ t. take (length g) (t ++ more)) (map-append value g vs)
      ∙ ap (take (length g)) (append_assoc (values_of g) (map value vs) more)
      ∙ ap (λ k. take k (values_of g ++ (map value vs ++ more))) base
      ∙ take-given 0 g (map value vs ++ more)
      ∙ append-nil (values_of g)

  pub take-empty : (n : ℕ) → take {A = Answer A E} n [] ≡ []
  take-empty zero = refl
  take-empty (suc n) = refl
