-- ===== src/Sanitizer/Stream.antt =====
-- apps/web/lib/sanitize-stream.js: the sanitizer of a stream.
use infernet_protocol.Common.{
  ℕ, zero, suc, Option, none, some, [], ◌∷◌, ◌++◌, length, ltb, if◌then◌else◌,
}
use infernet_protocol.Common.Js.{codes}
use infernet_protocol.Sanitizer.Tags.{Text, after, Held, find_open, last_lt}

-- The state of `makeStreamSanitizer`; `suppressing` is the closing tag waited for.
pub record Sanitizer : Type 0 where
  pub buffer : Text
  pub suppressing : Option Text

abbrev pub make_stream_sanitizer : Sanitizer
make_stream_sanitizer = record { buffer = []; suppressing = none }

abbrev pub closing_tag : Text → Text
closing_tag name = codes "</" ++ name ++ (62 ∷ [])

-- What a call gives out, and the state after it.
abbrev pub Output : Type 0
Output = Text × Sanitizer

abbrev pub emit : Text → Output → Output
emit a (out, s) = (a ++ out, s)

-- Without a tag in the buffer: a `<` among its last units is held back.
abbrev pub hold_back : Text → Held → Output
hold_back b none = (b, make_stream_sanitizer)
hold_back b (some (a, tail)) =
    if ltb (length tail) 32
    then (a, record { buffer = tail; suppressing = none })
    else (b, make_stream_sanitizer)

-- The loop of `process`, on fuel: what a buffer gives while a closing tag is waited for or not.
unfoldable pub clean : ℕ → Text → Option Text → Output
clean zero b close = ([], record { buffer = b; suppressing = close })
clean (suc n) [] close = ([], record { buffer = []; suppressing = close })
clean (suc n) (c ∷ b) (some close) = elim (after close (c ∷ b)) [
  | none ↦ ([], record { buffer = c ∷ b; suppressing = some close })
  | some rest ↦ clean n rest none
]
clean (suc n) (c ∷ b) none = elim (find_open (c ∷ b)) [
  | none ↦ hold_back (c ∷ b) (last_lt (c ∷ b))
  | some (a, name, rest) ↦ emit a (clean n rest (some (closing_tag name)))
]

-- `process(chunk)`; every turn of the loop but the last shortens the buffer.
unfoldable pub process : Sanitizer → Option Text → Output
process s none = ([], s)
process s (some chunk) = let b = s.buffer ++ chunk in clean (suc (length b)) b s.suppressing

abbrev pub tail_of : Text → Option Text → Text
tail_of b none = b
tail_of b (some close) = []

-- `flush()`
unfoldable pub flush : Sanitizer → Output
flush s = (tail_of s.buffer s.suppressing, make_stream_sanitizer)

abbrev pub flushed : Output → Text
flushed (out, s) = out ++ (flush s).0

-- `sanitizeText(text)`
unfoldable pub sanitize_text : Text → Text
sanitize_text text = flushed (process make_stream_sanitizer (some text))
