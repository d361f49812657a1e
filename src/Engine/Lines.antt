-- ===== src/Engine/Lines.antt =====
-- The first line of a text, for the splitter of packages/engine.
use Prim.Native.Char.{Char, code}
use Prim.Native.String.{◌++◌ as ◌<>◌}
use text.Mathlib.TextLemmas.{nil-append, cons-append}
use infernet_protocol.Common.{
  ℕ, suc, ◌<◌, ◌≡◌, refl, ap, subst, ◌∙◌, false, inl, inr, Bool-cases, Option, none, some, List, [],
  ◌∷◌, String, ◌==◌, if◌then◌else◌, arith,
}
use infernet_protocol.Engine.Protocol.{cut, after_char, size}

pub cut-cons :
    (c : Char) (s : String)
    → cut (String.◌∷◌ c s) ≡ (if code c == 10 then some ("", s) else after_char c (cut s))
unfolding cut
cut-cons c s = refl

pub one-append : (c : Char) (s : String) → String.◌∷◌ c "" <> s ≡ String.◌∷◌ c s
one-append c s = cons-append c "" s ∙ ap (String.◌∷◌ c) (nil-append s)

pub cut-nil : cut "" ≡ none
unfolding cut
cut-nil = refl

after_char-size :
    (c : Char) (o : Option (String × String)) (l r : String) (n : ℕ)
    → ((l' r' : String) → o ≡ some (l', r') → size r' < n)
    → after_char c o ≡ some (l, r)
    → size r < suc n
after_char-size c none l r n ih h = cc
after_char-size c (some (l', r')) l r n ih h =
    let same : r' ≡ r = cc in subst (λ t. size t < suc n) same (grind (arith, ih l' r' refl))

first-size :
    (s l r : String)
    → ◌≡◌ {A = Option (String × String)} (some ("", s)) (some (l, r))
    → size r < suc (size s)
first-size s l r h = let same : s ≡ r = cc in subst (λ t. size t < suc (size s)) same (omega arith)

-- A line takes at least the line break off the text.
pub cut-size : (s l r : String) → cut s ≡ some (l, r) → size r < size s
unfolding cut
cut-size String.[] l r h = cc
cut-size (String.◌∷◌ c s) l r h = elim (Bool-cases (code c == 10)) [
  | inl e ↦ first-size s l r (rw e at h)
  | inr e ↦
      after_char-size c (cut s) l r (size s) (cut-size s)
        (let found : after_char c (cut s) ≡ some (l, r) = rw e at h in found)
]

after_char-none : (c : Char) (o : Option (String × String)) → after_char c o ≡ none → o ≡ none
after_char-none c none h = refl
after_char-none c (some lr) h = cc

broken_line :
    {P : Type 0} (line : String) → ◌≡◌ {A = Option (String × String)} (some ("", line)) none → P
broken_line line h = cc

-- A character that is no line break adds none.
pub cut-longer :
    (line : String) (c : Char)
    → cut line ≡ none
    → code c == 10 ≡ false
    → cut (line <> String.◌∷◌ c "") ≡ none
unfolding cut
cut-longer String.[] c h b = rw (nil-append (String.◌∷◌ c ""), cut-cons c "", b, cut-nil) refl
cut-longer (String.◌∷◌ d line) c h b = elim (Bool-cases (code d == 10)) [
  | inl e ↦ broken_line line (rw (cut-cons d line, e) at h)
  | inr e ↦
      let unbroken = after_char-none d (cut line) (rw (cut-cons d line, e) at h) in
      rw
        (
          cons-append d line (String.◌∷◌ c ""),
          cut-cons d (line <> String.◌∷◌ c ""),
          e,
          cut-longer line c unbroken b,
        )
        refl
]

-- `join("")`
abbrev pub joined : List String → String
joined [] = ""
joined (t ∷ ts) = t <> joined ts
