-- ===== src/Engine/Linked.antt =====
-- The streams of packages/engine/src/engine-process.js and the queues that are still open.
use infernet_protocol.Common.{
  ℕ, zero, suc, ◌≡◌, refl, ap, Bool, true, false, not, Option, none, some, List, [], ◌∷◌, ◌++◌,
  String, ◌==◌, get_elem?, length, if◌then◌else◌, inl, inr, Bool-cases, arith,
}
use infernet_protocol.Common.Maps.{lookup, map_value}
use infernet_protocol.Common.Js.{Js}
use infernet_protocol.Engine.AsyncQueue
use infernet_protocol.Engine.AsyncQueue.{Answer, push, end, fail, next}
use infernet_protocol.Engine.Process.{Queue, Process, at_queue}

abbrev pub open_queue : Option Queue → Bool
open_queue none = false
open_queue (some q) = not q.closed

-- Whether a queue is open.
abbrev pub is_open : List Queue → ℕ → Bool
is_open qs i = open_queue (get_elem? qs i)

-- The streams are the open queues, each under one id, and there is none after the exit.
pub record Linked (p : Process) : Type 0 where
  pub live : (id : String) (i : ℕ) → lookup id p.streams ≡ some i → is_open p.queues i ≡ true
  pub known : (i : ℕ) → is_open p.queues i ≡ true → (id : String) × (lookup id p.streams ≡ some i)
  pub apart :
      (id j : String) (i : ℕ) → lookup id p.streams ≡ some i → lookup j p.streams ≡ some i → id ≡ j
  pub gone : p.closed ≡ true → p.streams ≡ []

pub get_elem?-at_queue :
    (f : Queue → Queue × List (ℕ × Answer Js String)) (i j : ℕ) (qs : List Queue)
    → get_elem? (at_queue f i qs).0 j
      ≡ (if i == j then map_value (λ q. (f q).0) (get_elem? qs j) else get_elem? qs j)
unfolding at_queue
get_elem?-at_queue f i j [] = ground arith
get_elem?-at_queue f zero zero (q ∷ qs) = refl
get_elem?-at_queue f zero (suc j) (q ∷ qs) = ground arith
get_elem?-at_queue f (suc i) zero (q ∷ qs) = ground arith
get_elem?-at_queue f (suc i) (suc j) (q ∷ qs) = ground (arith, get_elem?-at_queue f i j qs)

pub push-closed : (v : Js) (q : Queue) → (push v q).0.closed ≡ q.closed
unfolding push
push-closed v q = ground arith

pub next-closed : (n : ℕ) (q : Queue) → (next n q).0.closed ≡ q.closed
unfolding next
next-closed n q = ground arith

pub end-closed : (q : Queue) → (end q).0.closed ≡ true
unfolding end
end-closed q = ground arith

pub fail-closed : (e : Option String) (q : Queue) → (fail e q).0.closed ≡ true
unfolding fail
fail-closed e q = ground arith

open_queue-map :
    (f : Queue → Queue) (o : Option Queue)
    → ((q : Queue) → (f q).closed ≡ q.closed)
    → open_queue (map_value f o) ≡ open_queue o
open_queue-map f none h = refl
open_queue-map f (some q) h = ap not (h q)

open_queue-shut :
    (f : Queue → Queue) (o : Option Queue)
    → ((q : Queue) → (f q).closed ≡ true)
    → open_queue (map_value f o) ≡ false
open_queue-shut f none h = refl
open_queue-shut f (some q) h = ap not (h q)

-- A call that does not close leaves the same queues open.
pub open-touched :
    (f : Queue → Queue × List (ℕ × Answer Js String)) (i j : ℕ) (qs : List Queue)
    → ((q : Queue) → (f q).0.closed ≡ q.closed)
    → is_open (at_queue f i qs).0 j ≡ is_open qs j
open-touched f i j qs h = rw (get_elem?-at_queue f i j qs) (elim (Bool-cases (i == j)) [
  | inl e ↦ rw e (open_queue-map (λ q. (f q).0) (get_elem? qs j) h)
  | inr e ↦ rw e refl
])

-- A call that closes leaves the other queues open.
pub open-shut :
    (f : Queue → Queue × List (ℕ × Answer Js String)) (i j : ℕ) (qs : List Queue)
    → ((q : Queue) → (f q).0.closed ≡ true)
    → is_open (at_queue f i qs).0 j ≡ (if i == j then false else is_open qs j)
open-shut f i j qs h = rw (get_elem?-at_queue f i j qs) (elim (Bool-cases (i == j)) [
  | inl e ↦ rw e (open_queue-shut (λ q. (f q).0) (get_elem? qs j) h)
  | inr e ↦ rw e refl
])

pub open-added :
    (j : ℕ) (qs : List Queue)
    → is_open (qs ++ (AsyncQueue.new ∷ [])) j ≡ (if length qs == j then true else is_open qs j)
open-added zero [] = refl
open-added (suc j) [] = ground arith
open-added zero (q ∷ qs) = ground arith
open-added (suc j) (q ∷ qs) = ground (arith, open-added j qs)

pub open-end : (qs : List Queue) → is_open qs (length qs) ≡ false
open-end [] = refl
open-end (q ∷ qs) = open-end qs
