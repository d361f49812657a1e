-- ===== src/Control/Store.antt =====
-- The database client of apps/web (`getSupabaseServerClient`): a parameter, with what the handlers
-- rely on. A request is carried out as a whole, or it is answered with an error and changes nothing.
use infernet_protocol.Common.{
  ℕ, ◌≡◌, refl, ap, Bool, Option, none, some, List, [], ◌∷◌, String, if◌then◌else◌,
}

pub record Supabase (T : Type 0) : Type 1 where
  pub Db : Type 0
  pub tables : Db → T
  -- The error with which the next request is answered, if it is.
  pub refused : Db → Option String
  -- The database after a request that makes this change.
  pub attempt : (T → T) → Db → Db
  -- The key that the next row gets.
  pub new_id : Db → String
  pub carried_out :
      (f : T → T) (db : Db) → refused db ≡ none → tables (attempt f db) ≡ f (tables db)
  pub kept :
      (f : T → T) (db : Db) (e : String) → refused db ≡ some e → tables (attempt f db) ≡ tables db

-- `{ data, error }`
pub data Reply (A : Type 0) : Type 0 where
  reply : A → Reply A
  fault : String → Reply A

-- An exception carries the status of the HTTP response.
pub data Result (A : Type 0) : Type 0 where
  ok : A → Result A
  err : ℕ → Result A

abbrev pub M : Type 0 → Type 0 → Type 0
M D A = D → D × Result A

abbrev pub and_then : {D A B : Type 0} → (A → M D B) → D × Result A → D × Result B
and_then k (d, ok a) = k a d
and_then k (d, err e) = (d, err e)

infixl 5 ◌>>=◌ ◌>>◌
abbrev pub ◌>>=◌ : {D A B : Type 0} → M D A → (A → M D B) → M D B
◌>>=◌ m k d = and_then k (m d)

abbrev pub ◌>>◌ : {D B : Type 0} → M D (Unit {0}) → M D B → M D B
m >> k = m >>= λ _. k

abbrev pub return : {D A : Type 0} → A → M D A
return a d = (d, ok a)

-- What follows a step that gave `a`.
pub and_then-ok :
    {D A B : Type 0} (k : A → M D B) (p : D × Result A) (a : A)
    → p.1 ≡ ok a
    → and_then k p ≡ k a p.0
and_then-ok k (d, ok b) a h = cc
and_then-ok k (d, err e) a h = cc

-- A step that failed ends the whole.
pub and_then-err :
    {D A B : Type 0} (k : A → M D B) (p : D × Result A) (e : ℕ)
    → p.1 ≡ err e
    → and_then k p ≡ (p.0, err e)
and_then-err k (d, ok a) e h = cc
and_then-err k (d, err x) e h = let same : x ≡ e = cc in ap (λ n. (d, err n)) same

-- What holds of a failure, and of what follows a success, holds of the two steps together.
pub bind_rule :
    {D A B : Type 0} (Q : D × Result B → Type 0) (k : A → M D B) (p : D × Result A)
    → ((e : ℕ) → p.1 ≡ err e → Q (p.0, err e))
    → ((a : A) → p.1 ≡ ok a → Q (k a p.0))
    → Q (and_then k p)
bind_rule Q k (d, ok a) bad good = good a refl
bind_rule Q k (d, err e) bad good = bad e refl

-- A result that is only changed leaves the database as it is.
pub and_then-return :
    {D A B : Type 0} (f : A → B) (p : D × Result A) → (and_then (λ a. return (f a)) p).0 ≡ p.0
and_then-return f (d, ok a) = refl
and_then-return f (d, err e) = refl

abbrev pub throw : {D A : Type 0} → ℕ → M D A
throw e d = (d, err e)

-- `if (!test) throw`
abbrev pub require : {D : Type 0} → Bool → ℕ → M D (Unit {0})
require test e d = if test then (d, ok tt) else (d, err e)

-- `if (error) throw withStatus(error.message, 500)`
abbrev pub unwrap : {D A : Type 0} → Reply A → M D A
unwrap (reply a) d = (d, ok a)
unwrap (fault e) d = (d, err 500)

-- A value that is there, or an exception.
abbrev pub present : {D A : Type 0} → ℕ → Option A → M D A
present e none d = (d, err e)
present e (some a) d = (d, ok a)

-- `maybeSingle()`: more than one row is an error.
abbrev pub maybe_single : {A : Type 0} → List A → Reply (Option A)
maybe_single [] = reply none
maybe_single (x ∷ []) = reply (some x)
maybe_single (x ∷ y ∷ rest) = fault "multiple rows"

module _ {T : Type 0} (s : Supabase T) where
  abbrev pub answer_of : {A : Type 0} → Option String → Reply A → Reply A
  answer_of none r = r
  answer_of (some e) r = fault e

  -- A request that makes a change, and is answered from the tables as they were.
  unfoldable pub ask : {A : Type 0} → (T → T) → (T → Reply A) → M s.Db (Reply A)
  ask f g db = (s.attempt f db, ok (answer_of (s.refused db) (g (s.tables db))))

  -- What holds of both answers holds after the request.
  pub ask_rule :
      {A B : Type 0} (Q : s.Db × Result B → Type 0) (f : T → T) (g : T → Reply A)
      (k : Reply A → M s.Db B) (db : s.Db)
      → ((db' : s.Db) (e : String) → s.tables db' ≡ s.tables db → Q (k (fault e) db'))
      → ((db' : s.Db) → s.tables db' ≡ f (s.tables db) → Q (k (g (s.tables db)) db'))
      → Q ((ask f g >>= k) db)
  unfolding ask
  ask_rule Q f g k db bad good = go (s.refused db) refl
    where
      go : (o : Option String) → s.refused db ≡ o → Q ((ask f g >>= k) db)
      go none e = rw (e, ask) (good (s.attempt f db) (s.carried_out f db e))
      go (some x) e = rw (e, ask) (bad (s.attempt f db) x (s.kept f db x e))
