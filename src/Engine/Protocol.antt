-- ===== src/Engine/Protocol.antt =====
-- packages/engine/src/protocol.js: one JSON message a line, over a stream of chunks.
use Prim.Native.Char.{Char, code}
use Prim.Native.String.{◌++◌ as ◌<>◌}
use infernet_protocol.Common.{
  ℕ, zero, suc, Bool, false, Option, none, some, List, [], ◌∷◌, ◌++◌, String, str_eq, ◌==◌,
  if◌then◌else◌,
}
use infernet_protocol.Common.Js.{
  ℤ, pos, Js, trim, undefined, null, num, str, obj, Fields, end, field, member,
}

-- What `JSON.parse` does: a value, or an exception with its message.
pub data Parsed : Type 0 where
  json : Js → Parsed
  malformed : String → Parsed

-- JSON and the text of a value in a template.
pub record Codec : Type 0 where
  pub parse : String → Parsed
  pub stringify : Js → String
  pub show : Js → String

abbrev pub protocol_version : ℤ
protocol_version = pos 1

-- Setting a property: in its place, or last.
unfoldable pub set_field : String → Js → Fields → Fields
set_field k v end = field k v end
set_field k v (field j w fs) =
    let rest = set_field k v fs in if str_eq j k then field j v fs else field j w rest

-- `{ ...base, ...more }`
unfoldable pub spread : Fields → Fields → Fields
spread base end = base
spread base (field k v fs) = spread (set_field k v base) fs

abbrev pub after_char : Char → Option (String × String) → Option (String × String)
after_char c none = none
after_char c (some (line, rest)) = some (String.◌∷◌ c line, rest)

-- The text before the first line break, and the text after it.
unfoldable pub cut : String → Option (String × String)
cut String.[] = none
cut (String.◌∷◌ c s) =
    let later = cut s in if code c == 10 then some ("", s) else after_char c later

-- What a line decodes to: nothing, a message, or an exception of `parsed.v`.
pub data Decoded : Type 0 where
  blank : Decoded
  message : Js → Decoded
  throws : Decoded

-- The messages of a chunk, and the buffer after it: none after an exception, which nothing
-- catches.
pub record Split : Type 0 where
  pub messages : List Js
  pub rest : Option String

abbrev pub then_line : Decoded → Split → Split
then_line blank s = s
then_line (message m) s = record s { messages = m ∷ s.messages }
then_line throws s = record { messages = []; rest = none }

abbrev pub size : String → ℕ
size String.[] = 0
size (String.◌∷◌ c s) = suc (size s)

module _ (codec : Codec) where
  -- `encode(msg)`
  unfoldable pub encode : Fields → String
  encode msg = codec.stringify (obj (spread (field "v" (num protocol_version) end) msg)) <> "\n"

  abbrev error_message : String → Fields → Js
  error_message text more = obj (field "type" (str "error") (field "message" (str text) more))

  abbrev is_current : Js → Bool
  is_current (num (pos n)) = n == 1
  is_current _ = false

  -- The version check; a property of `null` cannot be read.
  abbrev checked : String → Parsed → Decoded
  checked line (malformed why) =
      message (error_message ("bad ndjson: " <> why) (field "raw" (str line) end))
  checked line (json null) = throws
  checked line (json undefined) = throws
  checked line (json v) =
      if is_current (member v "v")
      then message v
      else message (
          error_message ("protocol version mismatch: expected 1, got " <> codec.show (member v "v"))
            end)

  -- `decode(line)`
  unfoldable pub decode : String → Decoded
  decode line =
      let trimmed = trim line in
      if str_eq trimmed "" then blank else checked trimmed (codec.parse trimmed)

  -- The loop of `push`, on fuel.
  unfoldable pub split_lines : ℕ → String → Split
  split_lines zero buf = record { messages = []; rest = some buf }
  split_lines (suc n) buf = elim (cut buf) [
    | none ↦ record { messages = []; rest = some buf }
    | some (line, rest) ↦ then_line (decode line) (split_lines n rest)
  ]

  -- `NdjsonSplitter.push(chunk)`; a line takes at least one character off the buffer.
  unfoldable pub push : String → String → Split
  push buf chunk = let text = buf <> chunk in split_lines (suc (size text)) text

-- The messages so far, then what the rest of the buffer gives.
abbrev pub follow : List Js → Option String → (String → Split) → Split
follow ms none next = record { messages = ms; rest = none }
follow ms (some rest) next =
    let later = next rest in record { messages = ms ++ later.messages; rest = later.rest }

abbrev pub followed_by : Split → (String → Split) → Split
followed_by s next = follow s.messages s.rest next

-- The splitter over a series of chunks.
unfoldable pub feed_chunks : Codec → String → List String → Split
feed_chunks codec buf [] = record { messages = []; rest = some buf }
feed_chunks codec buf (chunk ∷ chunks) =
    followed_by (push codec buf chunk) (λ rest. feed_chunks codec rest chunks)
