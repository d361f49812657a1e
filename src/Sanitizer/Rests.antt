-- ===== src/Sanitizer/Rests.antt =====
-- How much of a text the searches of apps/web/lib/sanitize-stream.js leave.
use infernet_protocol.Common.{
  ℕ, suc, ◌<◌, ◌≤◌, Bool, true, false, ◌&&◌, Option, none, some, [], ◌∷◌, ◌++◌, length, ◌==◌,
  if◌then◌else◌, arith,
}
use infernet_protocol.Sanitizer.Tags.{
  Text, drop_prefix, or_later, after, is_word, Named, ip_reminder, system_reminder,
  namespaced_prefix, add_unit, word_end, exact, prefixed, namespaced, first_name, tag_name, Found,
  found_here, find_open,
}

-- What is left of a text of the given length.
abbrev pub Rest : ℕ → Option Text → Type 0
Rest n none = ℕ
Rest n (some r) = length r ≤ n

abbrev NamedRest : ℕ → Named → Type 0
NamedRest n none = ℕ
NamedRest n (some (w, r)) = length r ≤ n

abbrev pub FoundRest : ℕ → Found → Type 0
FoundRest n none = ℕ
FoundRest n (some (a, w, r)) = length r < n

Rest-weaken : (n m : ℕ) (o : Option Text) → n ≤ m → Rest n o → Rest m o
Rest-weaken n m none h r = 0
Rest-weaken n m (some t) h r = omega arith

if_named : (b : Bool) (n : ℕ) (o : Option Text) → Rest n o → Rest n (if b then o else none)
if_named true n o h = h
if_named false n o h = 0

drop_prefix-Rest : (p s : Text) → Rest (length s) (drop_prefix p s)
drop_prefix-Rest [] s = omega arith
drop_prefix-Rest (c ∷ p) [] = 0
drop_prefix-Rest (c ∷ p) (d ∷ s) =
    if_named (c == d) (suc (length s)) (drop_prefix p s) (
      Rest-weaken (length s) (suc (length s)) (drop_prefix p s) (omega arith)
        (drop_prefix-Rest p s))

-- A prefix that is not empty takes something off the text.
drop_prefix-shorter :
    (c : ℕ) (p : Text) (d : ℕ) (s : Text) → Rest (length s) (drop_prefix (c ∷ p) (d ∷ s))
drop_prefix-shorter c p d s = if_named (c == d) (length s) (drop_prefix p s) (drop_prefix-Rest p s)

or_later-Rest :
    (n : ℕ) (o later : Option Text) → Rest n o → Rest n later → Rest n (or_later o later)
or_later-Rest n none later h k = k
or_later-Rest n (some r) later h k = h

pub after-Rest : (c : ℕ) (p s : Text) (d : ℕ) → Rest (length s) (after (c ∷ p) (d ∷ s))
unfolding after
after-Rest c p [] d = or_later-Rest 0 _ none (drop_prefix-shorter c p d []) 0
after-Rest c p (e ∷ s) d =
    or_later-Rest (suc (length s)) _ (after (c ∷ p) (e ∷ s)) (drop_prefix-shorter c p d (e ∷ s)) (
      Rest-weaken (length s) (suc (length s)) (after (c ∷ p) (e ∷ s)) (omega arith)
        (after-Rest c p s e))

exact-Rest : (n : ℕ) (name : Text) (o : Option Text) → Rest n o → NamedRest n (exact name o)
exact-Rest n name none h = 0
exact-Rest n name (some r) h = h

prefixed-Rest : (n : ℕ) (p : Text) (o : Named) → NamedRest n o → NamedRest n (prefixed p o)
prefixed-Rest n p none h = 0
prefixed-Rest n p (some (w, r)) h = h

first_name-Rest :
    (n : ℕ) (o p : Named) → NamedRest n o → NamedRest n p → NamedRest n (first_name o p)
first_name-Rest n none p h k = k
first_name-Rest n (some x) p h k = h

add_unit-Rest : (n : ℕ) (c : ℕ) (o : Named) → NamedRest n o → NamedRest (suc n) (add_unit c o)
add_unit-Rest n c none h = 0
add_unit-Rest n c (some (w, r)) h = omega arith

ended-Rest :
    (b d : Bool) (s : Text) (o : Named)
    → NamedRest (suc (length s)) o
    → NamedRest (suc (length s)) (if b then o else if d then some ([], s) else none)
ended-Rest true d s o h = h
ended-Rest false true s o h = omega arith
ended-Rest false false s o h = 0

word_end-Rest : (seen : Bool) (s : Text) → NamedRest (length s) (word_end seen s)
word_end-Rest seen [] = 0
word_end-Rest seen (c ∷ s) =
    ended-Rest (is_word c) (seen && (c == 62)) s (add_unit c (word_end true s))
      (add_unit-Rest (length s) c (word_end true s) (word_end-Rest true s))

NamedRest-weaken : (n m : ℕ) (o : Named) → n ≤ m → NamedRest n o → NamedRest m o
NamedRest-weaken n m none h r = 0
NamedRest-weaken n m (some (w, t)) h r = omega arith

namespaced-Rest : (n : ℕ) (o : Option Text) → Rest n o → NamedRest n (namespaced o)
namespaced-Rest n none h = 0
namespaced-Rest n (some s) h =
    prefixed-Rest n namespaced_prefix (word_end false s)
      (NamedRest-weaken (length s) n (word_end false s) h (word_end-Rest false s))

tag_name-Rest : (s : Text) → NamedRest (length s) (tag_name s)
tag_name-Rest s =
    first_name-Rest (length s) _ _
      (exact-Rest (length s) ip_reminder _ (drop_prefix-Rest (ip_reminder ++ (62 ∷ [])) s))
      (first_name-Rest (length s) _ _
        (exact-Rest (length s) system_reminder _
          (drop_prefix-Rest (system_reminder ++ (62 ∷ [])) s))
        (namespaced-Rest (length s) _ (drop_prefix-Rest namespaced_prefix s)))

found_here-Rest :
    (n c : ℕ) (o : Named) (later : Found)
    → NamedRest n o
    → FoundRest n later
    → FoundRest (suc n) (found_here o later c)
found_here-Rest n c (some (w, r)) later h k = omega arith
found_here-Rest n c none none h k = 0
found_here-Rest n c none (some (a, w, r)) h k = omega arith

if_tag : (b : Bool) (n : ℕ) (o : Named) → NamedRest n o → NamedRest n (if b then o else none)
if_tag true n o h = h
if_tag false n o h = 0

pub find_open-Rest : (s : Text) → FoundRest (length s) (find_open s)
unfolding find_open
find_open-Rest [] = 0
find_open-Rest (c ∷ s) =
    found_here-Rest (length s) c _ (find_open s)
      (if_tag (c == 60) (length s) (tag_name s) (tag_name-Rest s)) (find_open-Rest s)
