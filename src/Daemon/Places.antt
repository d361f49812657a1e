-- ===== src/Daemon/Places.antt =====
-- The calls of `pollJobs` that are under way in the daemon of apps/cli/commands/start.js: one of
-- them, and the others.
use infernet_protocol.Common.{
  ℕ, suc, zero, ◌+◌, ◌≡◌, refl, ap, ◌∙◌, Bool, false, ◌||◌, some, List, [], ◌∷◌, ◌++◌, String,
  str_eq, get_elem?, any, arith,
}
use infernet_protocol.Daemon.State.{executing, completing, Run}
use infernet_protocol.Daemon.Loop.{set_elem}

-- Whether a run is between the pick of a job and its end.
abbrev pub works_on : String → Run → Bool
works_on id r = elim r.work [
  | executing j ↦ str_eq j.id id
  | completing j ↦ str_eq j.id id
  | _ ↦ false
]

abbrev pub in_progress : Run → ℕ
in_progress r = elim r.work [ executing j ↦ 1 | completing j ↦ 1 | _ ↦ 0 ]

abbrev pub all_in_progress : List Run → ℕ
all_in_progress [] = 0
all_in_progress (r ∷ rs) = in_progress r + all_in_progress rs

-- The other runs.
abbrev pub without : ℕ → List Run → List Run
without i [] = []
without zero (r ∷ rs) = rs
without (suc i) (r ∷ rs) = r ∷ without i rs

pub all_in_progress-split :
    (i : ℕ) (rs : List Run) (r : Run)
    → get_elem? rs i ≡ some r
    → all_in_progress rs ≡ all_in_progress (without i rs) + in_progress r
all_in_progress-split i [] r h = cc
all_in_progress-split zero (x ∷ rs) r h =
    let same : x ≡ r = cc in ap (λ y. in_progress y + all_in_progress rs) same ∙ omega arith
all_in_progress-split (suc i) (x ∷ rs) r h = omega (arith, all_in_progress-split i rs r h)

pub any-split :
    (p : Run → Bool) (i : ℕ) (rs : List Run) (r : Run)
    → get_elem? rs i ≡ some r
    → any p rs ≡ (any p (without i rs) || p r)
any-split p i [] r h = cc
any-split p zero (x ∷ rs) r h =
    let same : x ≡ r = cc in ap (λ y. p y || any p rs) same ∙ swap (p r) (any p rs)
  where
    swap : (a b : Bool) → (a || b) ≡ (b || a)
    swap a b = ground arith
any-split p (suc i) (x ∷ rs) r h =
    ap (λ b. p x || b) (any-split p i rs r h) ∙ assoc (p x) (any p (without i rs)) (p r)
  where
    assoc : (a b c : Bool) → (a || (b || c)) ≡ ((a || b) || c)
    assoc a b c = ground arith

pub without-set_elem :
    (i : ℕ) (r : Run) (rs : List Run) → without i (set_elem i r rs) ≡ without i rs
without-set_elem i r [] = refl
without-set_elem zero r (x ∷ rs) = refl
without-set_elem (suc i) r (x ∷ rs) = ap (λ xs. x ∷ xs) (without-set_elem i r rs)

pub get_elem?-set_elem :
    (i : ℕ) (r x : Run) (rs : List Run)
    → get_elem? rs i ≡ some x
    → get_elem? (set_elem i r rs) i ≡ some r
get_elem?-set_elem i r x [] h = cc
get_elem?-set_elem zero r x (y ∷ rs) h = refl
get_elem?-set_elem (suc i) r x (y ∷ rs) h = get_elem?-set_elem i r x rs h

pub all_in_progress-snoc :
    (rs : List Run) (r : Run) → all_in_progress (rs ++ r ∷ []) ≡ all_in_progress rs + in_progress r
all_in_progress-snoc [] r = omega arith
all_in_progress-snoc (x ∷ rs) r = omega (arith, all_in_progress-snoc rs r)

pub any-snoc : (p : Run → Bool) (rs : List Run) (r : Run) → any p (rs ++ r ∷ []) ≡ (any p rs || p r)
any-snoc p [] r = last (p r)
  where
    last : (a : Bool) → (a || false) ≡ (false || a)
    last a = ground arith
any-snoc p (x ∷ rs) r = ap (λ b. p x || b) (any-snoc p rs r) ∙ assoc (p x) (any p rs) (p r)
  where
    assoc : (a b c : Bool) → (a || (b || c)) ≡ ((a || b) || c)
    assoc a b c = ground arith
