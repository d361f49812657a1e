-- ===== src/Streaming/Order.antt =====
-- The order of what apps/web/lib/data/chat-stream.js gives.
use mathlib.Core.List.{append-nil}
use infernet_protocol.Common.{
  ℕ, ◌≤◌, ◌<◌, ◌≡◌, refl, sym, ap, subst, Bool, true, false, not, ◌&&◌, ◌||◌, some, List, [], ◌∷◌,
  ◌++◌, str_eq, arith, if◌then◌else◌, if_split_rule,
}
use infernet_protocol.Sanitizer.Tags.{Text}
use infernet_protocol.Sanitizer.Stream.{Sanitizer, process}
use infernet_protocol.Streaming.Events.{
  StoredEvent, Given, job_given, event_given, not_found, timed_out, Handled, text_of, give_text,
  handle_event,
}

abbrev pub given_ids : List Given → List ℕ
given_ids [] = []
given_ids (job_given ∷ gs) = given_ids gs
given_ids (event_given k d id ∷ gs) = id ∷ given_ids gs
given_ids (not_found ∷ gs) = given_ids gs
given_ids (timed_out ∷ gs) = given_ids gs

abbrev pub stored_ids : List StoredEvent → List ℕ
stored_ids [] = []
stored_ids (ev ∷ evs) = ev.id ∷ stored_ids evs

-- Each number is greater than the one before; the first, than the given one.
abbrev pub IsAscending : ℕ → List ℕ → Type 0
IsAscending n [] = Unit {0}
IsAscending n (x ∷ xs) = (n < x) × IsAscending x xs

pub lower : (n m : ℕ) (xs : List ℕ) → n ≤ m → IsAscending m xs → IsAscending n xs
lower n m [] h k = tt
lower n m (x ∷ xs) h k = (omega (arith, h, k.0), k.1)

-- Whether the generator ends with it.
abbrev pub is_end : Given → Bool
is_end job_given = false
is_end (event_given k d id) = str_eq k "done" || str_eq k "error"
is_end not_found = true
is_end timed_out = true

abbrev pub only_last : List Given → Bool
only_last [] = true
only_last (g ∷ []) = true
only_last (g ∷ g' ∷ gs) = not (is_end g) && only_last (g' ∷ gs)

abbrev no_end : List Given → Bool
no_end [] = true
no_end (g ∷ gs) = not (is_end g) && no_end gs

-- What one event gives: its id alone, if anything, and an end exactly when the generator stops.
abbrev IsOne : StoredEvent → Handled → Type 0
IsOne ev h =
    ((n : ℕ) (rest : List ℕ)
      → n < ev.id
      → IsAscending ev.id rest
      → IsAscending n (given_ids h.given ++ rest))
    × (h.goes_on ≡ true → no_end h.given ≡ true)
    × (only_last h.given ≡ true)

one_id : (n id : ℕ) (rest : List ℕ) → n < id → IsAscending id rest → IsAscending n (id ∷ rest)
one_id n id rest h k = (h, k)

give_text-IsOne :
    (t : Text) (ev : StoredEvent) (s : Sanitizer)
    → IsOne ev (record { given = give_text t ev; sanitizer = s; goes_on = true })
give_text-IsOne [] ev s =
    ((λ n rest h k. lower n ev.id rest (omega (arith, h)) k), (λ e. refl), refl)
give_text-IsOne (c ∷ t) ev s = ((λ n rest h k. (h, k)), (λ e. refl), refl)

pub handle_event-IsOne : (s : Sanitizer) (ev : StoredEvent) → IsOne ev (handle_event s ev)
unfolding handle_event
handle_event-IsOne s ev =
    if_split_rule (IsOne ev) (str_eq ev.event_type "token") _ _
      (λ t.
        give_text-IsOne (process s (some (text_of ev.body))).0 ev
          (process s (some (text_of ev.body))).1)
      (λ f.
        if_split_rule (IsOne ev) (str_eq ev.event_type "done") _ _
          (λ t. ((λ n rest h k. (h, k)), (λ e. cc), refl))
          (λ g. (
            (λ n rest h k. (h, k)),
            other (str_eq ev.event_type "done") (str_eq ev.event_type "error") g,
            refl,
          )))
  where
    other :
        (d e : Bool)
        → d ≡ false
        → (if e then false else true) ≡ true
        → (not (d || e) && true) ≡ true
    other d e g h = ground arith

no_end-append :
    (xs ys : List Given) → no_end xs ≡ true → only_last ys ≡ true → only_last (xs ++ ys) ≡ true
no_end-append [] ys h k = k
no_end-append (x ∷ []) [] h k = refl
no_end-append (x ∷ []) (y ∷ ys) h k = ground arith
no_end-append (x ∷ x' ∷ xs) ys h k = ground (arith, no_end-append (x' ∷ xs) ys)

given_ids-append : (xs ys : List Given) → given_ids (xs ++ ys) ≡ given_ids xs ++ given_ids ys
given_ids-append [] ys = refl
given_ids-append (job_given ∷ xs) ys = given_ids-append xs ys
given_ids-append (event_given k d id ∷ xs) ys = ap (λ t. id ∷ t) (given_ids-append xs ys)
given_ids-append (not_found ∷ xs) ys = given_ids-append xs ys
given_ids-append (timed_out ∷ xs) ys = given_ids-append xs ys

-- A series in order, after which the generator has ended or goes on.
abbrev pub IsOrdered : ℕ → List Given → Type 0
IsOrdered n gs = IsAscending n (given_ids gs) × (only_last gs ≡ true)

-- The event, then what follows it.
pub then_rest :
    (n : ℕ) (ev : StoredEvent) (h : Handled) (later : List Given)
    → IsOne ev h
    → n < ev.id
    → h.goes_on ≡ true
    → IsOrdered ev.id later
    → IsOrdered n (h.given ++ later)
then_rest n ev h later (ids, open_end, last) less on (asc, ends) = (
  subst (IsAscending n) (sym (given_ids-append h.given later)) (ids n (given_ids later) less asc),
  no_end-append h.given later (open_end on) ends,
)

-- The event as the last.
pub and_no_more :
    (n : ℕ) (ev : StoredEvent) (h : Handled) → IsOne ev h → n < ev.id → IsOrdered n h.given
and_no_more n ev h (ids, open_end, last) less =
    (subst (IsAscending n) (append-nil (given_ids h.given)) (ids n [] less tt), last)
