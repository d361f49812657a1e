-- ===== src/Sanitizer/Tags.antt =====
-- apps/web/lib/sanitize-stream.js: the search for tags. A text is the list of its UTF-16 units.
use infernet_protocol.Common.{
  ℕ, Bool, true, false, ◌||◌, ◌&&◌, Option, none, some, List, [], ◌∷◌, ◌++◌, ◌==◌, leb,
  if◌then◌else◌,
}
use infernet_protocol.Common.Js.{codes}

abbrev pub Text : Type 0
Text = List ℕ

-- What follows a prefix.
abbrev pub drop_prefix : Text → Text → Option Text
drop_prefix [] s = some s
drop_prefix (c ∷ p) [] = none
drop_prefix (c ∷ p) (d ∷ s) = let rest = drop_prefix p s in if c == d then rest else none

abbrev pub or_later : Option Text → Option Text → Option Text
or_later none later = later
or_later (some s) later = some s

-- What follows the first occurrence: `s.slice(s.indexOf(p) + p.length)`.
unfoldable pub after : Text → Text → Option Text
after p [] = drop_prefix p []
after p (c ∷ s) = or_later (drop_prefix p (c ∷ s)) (after p s)

-- The class `[\w-]` of an expression.
abbrev pub is_word : ℕ → Bool
is_word c =
    (leb 48 c && leb c 57)
    || (leb 65 c && leb c 90)
    || (leb 97 c && leb c 122)
    || (c == 95)
    || (c == 45)

-- A tag's name and what follows the tag.
abbrev pub Named : Type 0
Named = Option (Text × Text)

abbrev pub ip_reminder : Text
ip_reminder = codes "ip_reminder"

abbrev pub system_reminder : Text
system_reminder = codes "system-reminder"

abbrev pub namespaced_prefix : Text
namespaced_prefix = codes "antml:"

abbrev pub add_unit : ℕ → Named → Named
add_unit c none = none
add_unit c (some (w, r)) = some (c ∷ w, r)

-- `[\w-]+>`: the longest run of such units, which has to end at the `>`. The first argument says
-- whether the run has a unit yet.
abbrev pub word_end : Bool → Text → Named
word_end seen [] = none
word_end seen (c ∷ s) =
    let rest = word_end true s in
    if is_word c then add_unit c rest else if seen && (c == 62) then some ([], s) else none

abbrev pub exact : Text → Option Text → Named
exact name none = none
exact name (some r) = some (name, r)

abbrev pub prefixed : Text → Named → Named
prefixed p none = none
prefixed p (some (w, r)) = some (p ++ w, r)

abbrev pub namespaced : Option Text → Named
namespaced none = none
namespaced (some s) = prefixed namespaced_prefix (word_end false s)

abbrev pub first_name : Named → Named → Named
first_name none other = other
first_name (some x) other = some x

-- `OPEN_PATTERN` after its `<`.
abbrev pub tag_name : Text → Named
tag_name s = first_name (exact ip_reminder (drop_prefix (ip_reminder ++ (62 ∷ [])) s)) (
    first_name (exact system_reminder (drop_prefix (system_reminder ++ (62 ∷ [])) s))
      (namespaced (drop_prefix namespaced_prefix s)))

-- The first tag of a text: what precedes it, its name, and what follows it.
abbrev pub Found : Type 0
Found = Option (Text × Text × Text)

abbrev pub found_here : Named → Found → ℕ → Found
found_here (some (name, r)) later c = some ([], name, r)
found_here none none c = none
found_here none (some (a, name, r)) c = some (c ∷ a, name, r)

-- `buffer.match(OPEN_PATTERN)`
unfoldable pub find_open : Text → Found
find_open [] = none
find_open (c ∷ s) =
    let later = find_open s in found_here (if c == 60 then tag_name s else none) later c

-- The text before the last `<`, and the text from there.
abbrev pub Held : Type 0
Held = Option (Text × Text)

abbrev pub from_last : ℕ → Text → Held → Held
from_last c s (some (a, b)) = some (c ∷ a, b)
from_last c s none = if c == 60 then some ([], c ∷ s) else none

-- `buffer.lastIndexOf("<")`
unfoldable pub last_lt : Text → Held
last_lt [] = none
last_lt (c ∷ s) = from_last c s (last_lt s)
