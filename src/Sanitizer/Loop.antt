-- ===== src/Sanitizer/Loop.antt =====
-- The loop of the sanitizer of apps/web/lib/sanitize-stream.js against the tags of the whole text.
use mathlib.Core.List.{append-nil, append_assoc}
use infernet_protocol.Common.{
  ℕ, zero, suc, ◌<◌, ◌≤◌, ◌≡◌, refl, sym, ap, subst, ◌∙◌, inl, inr, Bool-cases, Option, none, some,
  [], ◌∷◌, ◌++◌, length, ltb, ◌==◌, arith,
}
use infernet_protocol.Sanitizer.Tags.{Text, after, Found, Held, find_open, last_lt, from_last}
use infernet_protocol.Sanitizer.Stream.{
  closing_tag, Output, emit, hold_back, clean, process, flush, flushed, sanitize_text,
}
use infernet_protocol.Sanitizer.Rests.{Rest, FoundRest, after-Rest, find_open-Rest}

-- What follows a tag that is taken out; without its end, nothing does.
abbrev pub dropped : (Text → Text) → Option Text → Text
dropped next none = []
dropped next (some rest) = next rest

abbrev pub stripped_at : (Text → Text) → Text → Found → Text
stripped_at next s none = s
stripped_at next s (some (a, name, rest)) = a ++ dropped next (after (closing_tag name) rest)

-- A text without its first tag and what the tag encloses, its rest treated by `next`.
abbrev pub stripped : (Text → Text) → Text → Text
stripped next s = stripped_at next s (find_open s)

-- The whole output of the loop.
abbrev cleaned : ℕ → Text → Option Text → Text
cleaned n b close = flushed (clean n b close)

-- One turn of the loop at a tag.
abbrev open_at : ℕ → Text → Found → Text
open_at n b none = b
open_at n b (some (a, name, rest)) = a ++ cleaned n rest (some (closing_tag name))

flushed-emit : (a : Text) (o : Output) → flushed (emit a o) ≡ a ++ flushed o
unfolding flush
flushed-emit a (out, s) = append_assoc a out _

held_here :
    (c : ℕ) (s a b : Text) → ◌≡◌ {A = Held} (some ([], c ∷ s)) (some (a, b)) → a ++ b ≡ c ∷ s
held_here c s a b e =
    let first : [] ≡ a = cc in
    let last : c ∷ s ≡ b = cc in subst (λ t. t ++ b ≡ c ∷ s) first (sym last)

no_hold : {P : Type 0} {h : Text × Text} → ◌≡◌ {A = Held} none (some h) → P
no_hold e = cc

held-append :
    (c : ℕ) (s : Text) (o : Held)
    → ((a b : Text) → o ≡ some (a, b) → a ++ b ≡ s)
    → (a b : Text) → from_last c s o ≡ some (a, b)
    → a ++ b ≡ c ∷ s
held-append c s (some (a', b')) h a b e =
    let first : c ∷ a' ≡ a = cc in
    let last : b' ≡ b = cc in
    subst (λ t. t ++ b ≡ c ∷ s) first
      (ap (λ t. c ∷ t) (subst (λ t. a' ++ t ≡ s) last (h a' b' refl)))
held-append c s none h a b e = elim (Bool-cases (c == 60)) [
  | inl t ↦ held_here c s a b (rw t at e)
  | inr f ↦ no_hold (rw f at e)
]

last_lt-append : (s a b : Text) → last_lt s ≡ some (a, b) → a ++ b ≡ s
unfolding last_lt
last_lt-append [] a b h = cc
last_lt-append (c ∷ s) a b h = held-append c s (last_lt s) (last_lt-append s) a b h

flushed-held :
    (b : Text) (o : Held)
    → ((a t : Text) → o ≡ some (a, t) → a ++ t ≡ b)
    → flushed (hold_back b o) ≡ b
unfolding flush
flushed-held b none h = append-nil b
flushed-held b (some (a, t)) h = elim (Bool-cases (ltb (length t) 32)) [
  | inl e ↦ rw e (h a t refl)
  | inr e ↦ rw e (append-nil b)
]

-- One turn of the loop, by what the search finds.
abbrev turn_open : ℕ → Text → Found → Output
turn_open n b none = hold_back b (last_lt b)
turn_open n b (some (a, name, rest)) = emit a (clean n rest (some (closing_tag name)))

abbrev turn_closing : ℕ → Text → Text → Option Text → Output
turn_closing n close b none = ([], record { buffer = b; suppressing = some close })
turn_closing n close b (some rest) = clean n rest none

clean-open :
    (n c : ℕ) (b : Text) → clean (suc n) (c ∷ b) none ≡ turn_open n (c ∷ b) (find_open (c ∷ b))
unfolding clean
clean-open n c b = refl

clean-closing :
    (n c : ℕ) (close b : Text)
    → clean (suc n) (c ∷ b) (some close) ≡ turn_closing n close (c ∷ b) (after close (c ∷ b))
unfolding clean
clean-closing n c close b = refl

turn_open-open_at : (n : ℕ) (b : Text) (o : Found) → flushed (turn_open n b o) ≡ open_at n b o
turn_open-open_at n b none = flushed-held b (last_lt b) (last_lt-append b)
turn_open-open_at n b (some (a, name, rest)) =
    flushed-emit a (clean n rest (some (closing_tag name)))

turn_closing-dropped :
    (n : ℕ) (close b : Text) (o : Option Text)
    → flushed (turn_closing n close b o) ≡ dropped (λ t. cleaned n t none) o
unfolding flush
turn_closing-dropped n close b none = refl
turn_closing-dropped n close b (some rest) = refl

cleaned-nil : (n : ℕ) (close : Option Text) → cleaned (suc n) [] close ≡ []
unfolding clean flush
cleaned-nil n none = refl
cleaned-nil n (some close) = refl

-- The text that follows the closing tag.
cleaned-after :
    (n c : ℕ) (p b : Text)
    → cleaned (suc n) b (some (c ∷ p)) ≡ dropped (λ t. cleaned n t none) (after (c ∷ p) b)
unfolding after
cleaned-after n c p [] = cleaned-nil n (some (c ∷ p))
cleaned-after n c p (d ∷ b) =
    ap flushed (clean-closing n d (c ∷ p) b)
    ∙ turn_closing-dropped n (c ∷ p) (d ∷ b) (after (c ∷ p) (d ∷ b))

opened :
    (n : ℕ) (b : Text) (o : Found) → open_at (suc n) b o ≡ stripped_at (λ t. cleaned n t none) b o
opened n b none = refl
opened n b (some (a, name, rest)) =
    ap (λ t. a ++ t) (cleaned-after n 60 (47 ∷ (name ++ (62 ∷ []))) rest)

-- Two turns of the loop take out one tag.
cleaned-stripped :
    (n : ℕ) (b : Text) → cleaned (suc (suc n)) b none ≡ stripped (λ t. cleaned n t none) b
unfolding find_open
cleaned-stripped n [] = cleaned-nil (suc n) none
cleaned-stripped n (c ∷ b) =
    ap flushed (clean-open (suc n) c b)
    ∙ turn_open-open_at (suc n) (c ∷ b) (find_open (c ∷ b))
    ∙ opened n (c ∷ b) (find_open (c ∷ b))

dropped-same :
    (n : ℕ) (o : Option Text) (f g : Text → Text)
    → Rest n o
    → ((t : Text) → length t ≤ n → f t ≡ g t)
    → dropped f o ≡ dropped g o
dropped-same n none f g h same = refl
dropped-same n (some t) f g h same = same t h

dropped-after :
    (c : ℕ) (p rest : Text) (f g : Text → Text)
    → ((t : Text) → length t < length rest → f t ≡ g t)
    → dropped f (after (c ∷ p) rest) ≡ dropped g (after (c ∷ p) rest)
unfolding after
dropped-after c p [] f g same = refl
dropped-after c p (d ∷ rest) f g same =
    dropped-same (length rest) (after (c ∷ p) (d ∷ rest)) f g (after-Rest c p rest d)
      (λ t h. same t (omega (arith, h)))

stripped_at-same :
    (b : Text) (o : Found) (f g : Text → Text)
    → FoundRest (length b) o
    → ((t : Text) → suc (suc (length t)) ≤ length b → f t ≡ g t)
    → stripped_at f b o ≡ stripped_at g b o
stripped_at-same b none f g h same = refl
stripped_at-same b (some (a, name, rest)) f g h same =
    ap (λ t. a ++ t)
      (dropped-after 60 (47 ∷ (name ++ (62 ∷ []))) rest f g (λ t k. same t (omega (arith, h, k))))

stripped-same :
    (b : Text) (f g : Text → Text)
    → ((t : Text) → suc (suc (length t)) ≤ length b → f t ≡ g t)
    → stripped f b ≡ stripped g b
stripped-same b f g same = stripped_at-same b (find_open b) f g (find_open-Rest b) same

-- The fuel of the loop does not matter as long as it exceeds the length of the buffer.
cleaned-fuel :
    (n m : ℕ) (b : Text) → length b < n → length b < m → cleaned n b none ≡ cleaned m b none
cleaned-fuel zero m b h k = grind arith
cleaned-fuel n zero b h k = grind arith
cleaned-fuel (suc n) (suc m) [] h k = cleaned-nil n none ∙ sym (cleaned-nil m none)
cleaned-fuel (suc zero) (suc m) (c ∷ b) h k = grind arith
cleaned-fuel (suc (suc n)) (suc zero) (c ∷ b) h k = grind arith
cleaned-fuel (suc (suc n)) (suc (suc m)) (c ∷ b) h k =
    cleaned-stripped n (c ∷ b)
    ∙ stripped-same (c ∷ b) (λ t. cleaned n t none) (λ t. cleaned m t none)
        (λ t l. cleaned-fuel n m t (omega (arith, h, l)) (omega (arith, k, l)))
    ∙ sym (cleaned-stripped m (c ∷ b))

sanitize_text-cleaned : (s : Text) → sanitize_text s ≡ cleaned (suc (length s)) s none
unfolding sanitize_text process
sanitize_text-cleaned s = refl

-- A whole text is sanitized by taking out its first tag with all up to the closing tag, or to the
-- end of the text where none follows, and sanitizing what comes after; a text without a tag is
-- kept whole.
pub sanitize_text-stripped : (s : Text) → sanitize_text s ≡ stripped sanitize_text s
unfolding find_open
sanitize_text-stripped [] = sanitize_text-cleaned [] ∙ cleaned-nil 0 none
sanitize_text-stripped (c ∷ s) =
    sanitize_text-cleaned (c ∷ s)
    ∙ cleaned-stripped (length s) (c ∷ s)
    ∙ stripped-same (c ∷ s) (λ t. cleaned (length s) t none) sanitize_text
        (λ t h.
          cleaned-fuel (length s) (suc (length t)) t (omega (arith, h)) (omega arith)
          ∙ sym (sanitize_text-cleaned t))
