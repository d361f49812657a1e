-- ===== src/Engine/Chunks.antt =====
-- The splitter of packages/engine against a scan of the text, character by character.
use Prim.Native.Char.{Char, code}
use Prim.Native.String.{◌++◌ as ◌<>◌}
use text.Mathlib.TextLemmas.{nil-append, cons-append, append-nil, append_assoc}
use infernet_protocol.Common.{
  ℕ, zero, suc, ◌<◌, ◌≡◌, refl, sym, ap, subst, ◌∙◌, inl, inr, Bool-cases, Option, none, some,
  Option-cases, List, [], ◌∷◌, ◌++◌, String, ◌==◌, if◌then◌else◌, arith,
}
use infernet_protocol.Common.Js.{Js}
use infernet_protocol.Engine.Protocol.{
  Codec, Split, cut, Decoded, after_char, blank, message, throws, then_line, decode, split_lines,
  size, push, follow, followed_by, feed_chunks,
}
use infernet_protocol.Engine.Lines.{one-append, cut-nil, cut-cons, cut-size, cut-longer, joined}

module _ (codec : Codec) where
  -- Each line break ends the line read so far.
  abbrev pub scan : String → String → Split
  scan line String.[] = record { messages = []; rest = some line }
  scan line (String.◌∷◌ c s) =
      let next = then_line (decode codec line) (scan "" s) in
      let longer = scan (line <> String.◌∷◌ c "") s in if code c == 10 then next else longer

  abbrev scan_line : String → Option (String × String) → String → Split
  scan_line line none s = record { messages = []; rest = some (line <> s) }
  scan_line line (some (l, r)) s = then_line (decode codec (line <> l)) (scan "" r)

  scan_line-after :
      (line : String) (c : Char) (o : Option (String × String)) (s : String)
      → scan_line (line <> String.◌∷◌ c "") o s ≡ scan_line line (after_char c o) (String.◌∷◌ c s)
  scan_line-after line c none s =
      ap (λ t. record { messages = []; rest = some t })
        (append_assoc line (String.◌∷◌ c "") s ∙ ap (λ t. line <> t) (one-append c s))
  scan_line-after line c (some (l, r)) s =
      ap (λ t. then_line (decode codec t) (scan "" r))
        (append_assoc line (String.◌∷◌ c "") l ∙ ap (λ t. line <> t) (one-append c l))

  -- The scan, by the first line break.
  scan-cut : (line s : String) → scan line s ≡ scan_line line (cut s) s
  scan-cut line String.[] =
      rw cut-nil (ap (λ t. record { messages = []; rest = some t }) (sym (append-nil line)))
  scan-cut line (String.◌∷◌ c s) = elim (Bool-cases (code c == 10)) [
    | inl e ↦
        rw (cut-cons c s, e)
          (ap (λ t. then_line (decode codec t) (scan "" s)) (sym (append-nil line)))
    | inr e ↦
        rw (cut-cons c s, e)
          (scan-cut (line <> String.◌∷◌ c "") s ∙ scan_line-after line c (cut s) s)
  ]

  abbrev split_cut : ℕ → String → Option (String × String) → Split
  split_cut n s none = record { messages = []; rest = some s }
  split_cut n s (some (l, r)) = then_line (decode codec l) (split_lines codec n r)

  split_lines-suc : (n : ℕ) (s : String) → split_lines codec (suc n) s ≡ split_cut n s (cut s)
  unfolding split_lines cut
  split_lines-suc n s = refl

  -- The loop of `push` ends: with more fuel than the text has characters it gives what one scan of
  -- the text, character by character, gives.
  pub split_lines-scan : (n : ℕ) (s : String) → size s < n → split_lines codec n s ≡ scan "" s
  split_lines-scan zero s h = ground arith
  split_lines-scan (suc n) s h = elim (Option-cases (cut s)) [
    | inl e ↦
        rw (split_lines-suc n s, scan-cut "" s, e)
          (ap (λ t. record { messages = []; rest = some t }) (sym (nil-append s)))
    | inr ((l, r), e) ↦
        rw (split_lines-suc n s, scan-cut "" s, e, nil-append l)
          (ap (then_line (decode codec l)) (split_lines-scan n r (omega (arith, cut-size s l r e))))
  ]

  -- `push` reads the text once, from the first character to the last.
  push-scan : (buf chunk : String) → push codec buf chunk ≡ scan "" (buf <> chunk)
  unfolding push
  push-scan buf chunk = split_lines-scan _ (buf <> chunk) (omega arith)

  then_line-followed :
      (d : Decoded) (ms : List Js) (o : Option String) (next : String → Split)
      → followed_by (then_line d (record { messages = ms; rest = o })) next
        ≡ then_line d (follow ms o next)
  then_line-followed blank ms o next = refl
  then_line-followed (message m) ms none next = refl
  then_line-followed (message m) ms (some rest) next = refl
  then_line-followed throws ms o next = refl

  -- The scan of two texts is the scan of the one, then of the other.
  scan-append :
      (line s t : String) → scan line (s <> t) ≡ followed_by (scan line s) (λ rest. scan rest t)
  scan-append line String.[] t = rw (nil-append t) refl
  scan-append line (String.◌∷◌ c s) t = rw (cons-append c s t) (elim (Bool-cases (code c == 10)) [
    | inl e ↦ rw e (
        ap (then_line (decode codec line)) (scan-append "" s t)
        ∙ sym (then_line-followed (decode codec line) _ _ (λ rest. scan rest t)))
    | inr e ↦ rw e (scan-append (line <> String.◌∷◌ c "") s t)
  ])

  then_line-rest :
      (d : Decoded) (s : Split) (r : String) → (then_line d s).rest ≡ some r → s.rest ≡ some r
  then_line-rest blank s r h = h
  then_line-rest (message m) s r h = h
  then_line-rest throws s r h = cc

  -- What is left after a scan holds no line break.
  scan-rest : (line s r : String) → cut line ≡ none → (scan line s).rest ≡ some r → cut r ≡ none
  scan-rest line String.[] r h e = let same : line ≡ r = cc in subst (λ t. cut t ≡ none) same h
  scan-rest line (String.◌∷◌ c s) r h e = elim (Bool-cases (code c == 10)) [
    | inl b ↦
        scan-rest "" s r cut-nil (then_line-rest (decode codec line) (scan "" s) r (rw b at e))
    | inr b ↦ scan-rest (line <> String.◌∷◌ c "") s r (cut-longer line c h b) (rw b at e)
  ]

  pub scan-unbroken : (line s : String) → cut line ≡ none → scan "" (line <> s) ≡ scan line s
  scan-unbroken line s h =
      scan-append "" line s
      ∙ ap (λ sp. followed_by sp (λ rest. scan rest s)) (scan-cut "" line)
      ∙ rw (h, nil-append line) refl

  follow-same :
      (ms : List Js) (o : Option String) (f g : String → Split)
      → ((r : String) → o ≡ some r → f r ≡ g r)
      → follow ms o f ≡ follow ms o g
  follow-same ms none f g h = refl
  follow-same ms (some rest) f g h =
      ap (λ (sp : Split). record { messages = ms ++ sp.messages; rest = sp.rest }) (h rest refl)

  pub feed_chunks-scan :
      (buf : String) (chunks : List String)
      → cut buf ≡ none
      → feed_chunks codec buf chunks ≡ scan buf (joined chunks)
  unfolding feed_chunks
  feed_chunks-scan buf [] h = refl
  feed_chunks-scan buf (chunk ∷ chunks) h =
      let first = push-scan buf chunk ∙ scan-unbroken buf chunk h in
      ap (λ sp. followed_by sp (λ rest. feed_chunks codec rest chunks)) first
      ∙ follow-same (scan buf chunk).messages (scan buf chunk).rest
          (λ rest. feed_chunks codec rest chunks) (λ rest. scan rest (joined chunks))
          (λ r e. feed_chunks-scan r chunks (scan-rest buf chunk r h e))
      ∙ sym (scan-append buf chunk (joined chunks))

  -- A text that arrives in pieces, after a buffer without a line break, gives the messages that it
  -- gives in one piece, and leaves the same buffer.
  pub feed_chunks-push :
      (buf : String) (chunks : List String)
      → cut buf ≡ none
      → feed_chunks codec buf chunks ≡ push codec buf (joined chunks)
  feed_chunks-push buf chunks h =
      feed_chunks-scan buf chunks h
      ∙ sym (push-scan buf (joined chunks) ∙ scan-unbroken buf (joined chunks) h)
