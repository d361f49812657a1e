-- ===== src/Engine/Wire.antt =====
-- The messages of packages/engine over the wire: `encode`, the splitter and `decode`.
use Prim.Native.String.{◌++◌ as ◌<>◌}
use text.Mathlib.TextLemmas.{append_assoc}
use infernet_protocol.Common.{
  ◌≡◌, ◌≢◌, refl, ap, ◌∙◌, Bool, true, false, ◌||◌, inl, inr, Bool-cases, some, none, List, [], ◌∷◌,
  map, String, str_eq, eq_iff, if◌then◌else◌, All, arith,
}
use infernet_protocol.Common.Js.{trim, Js, Fields, end, field, get_field, num, obj, pos}
use infernet_protocol.Engine.Protocol.{
  Codec, cut, spread, set_field, encode, decode, message, then_line, protocol_version, feed_chunks,
  json,
}
use infernet_protocol.Engine.Lines.{joined, cut-nil, one-append}
use infernet_protocol.Engine.Chunks.{scan, scan-unbroken, feed_chunks-scan}

abbrev pub has_key : String → Fields → Bool
has_key k end = false
has_key k (field j v fs) = str_eq j k || has_key k fs

get_field-set_field :
    (j k : String) (v : Js) (fs : Fields)
    → get_field j (set_field k v fs) ≡ (if str_eq k j then v else get_field j fs)
unfolding set_field
get_field-set_field j k v end = refl
get_field-set_field j k v (field i w fs) =
    ground (arith, eq_iff k j, eq_iff i k, eq_iff i j, get_field-set_field j k v fs)

absurd_key : {P : Type 0} (b : Bool) → (true || b) ≡ false → P
absurd_key b h = cc

-- A property that the second object does not have is the first one's.
get_field-spread :
    (k : String) (base fs : Fields)
    → has_key k fs ≡ false
    → get_field k (spread base fs) ≡ get_field k base
unfolding spread
get_field-spread k base end h = refl
get_field-spread k base (field j v fs) h = elim (Bool-cases (str_eq j k)) [
  | inl e ↦ absurd_key (has_key k fs) (rw e at h)
  | inr e ↦
      get_field-spread k (set_field j v base) fs (rw e at h)
      ∙ get_field-set_field k j v base
      ∙ rw e refl
]

-- The message as it is sent, with its version.
abbrev pub versioned : Fields → Fields
versioned msg = spread (field "v" (num protocol_version) end) msg

-- What `JSON.stringify` and `JSON.parse` do with a message: the text is one line without space at
-- its ends, and parses to the message.
pub record IsLine (codec : Codec) (msg : Fields) : Type 0 where
  pub unversioned : has_key "v" msg ≡ false
  pub unbroken : cut (codec.stringify (obj (versioned msg))) ≡ none
  pub trimmed : trim (codec.stringify (obj (versioned msg))) ≡ codec.stringify (obj (versioned msg))
  pub nonempty : codec.stringify (obj (versioned msg)) ≢ ""
  pub parsed : codec.parse (codec.stringify (obj (versioned msg))) ≡ json (obj (versioned msg))

module _ (codec : Codec) where
  decode-object :
      (t : String) (fs : Fields)
      → trim t ≡ t
      → t ≢ ""
      → codec.parse t ≡ json (obj fs)
      → get_field "v" fs ≡ num (pos 1)
      → decode codec t ≡ message (obj fs)
  unfolding decode
  decode-object t fs same full parsed v =
      let text : str_eq t "" ≡ false = ground (arith, eq_iff t "") in
      rw (same, text, parsed, v) refl

  decode-line :
      (msg : Fields)
      → IsLine codec msg
      → decode codec (codec.stringify (obj (versioned msg))) ≡ message (obj (versioned msg))
  decode-line msg l =
      decode-object _ (versioned msg) l.trimmed l.nonempty l.parsed
        (get_field-spread "v" (field "v" (num protocol_version) end) msg l.unversioned)

  -- A line that is read to its end.
  scan-line :
      (t more : String)
      → cut t ≡ none
      → scan codec "" ((t <> "\n") <> more) ≡ then_line (decode codec t) (scan codec "" more)
  scan-line t more h =
      ap (scan codec "") (append_assoc t "\n" more ∙ ap (λ s. t <> s) (one-append "\n" more))
      ∙ scan-unbroken codec t _ h

  scan-encoded_line :
      (msg : Fields) (more : String)
      → IsLine codec msg
      → scan codec "" (encode codec msg <> more)
        ≡ then_line (message (obj (versioned msg))) (scan codec "" more)
  unfolding encode
  scan-encoded_line msg more l =
      scan-line _ more l.unbroken ∙ ap (λ d. then_line d (scan codec "" more)) (decode-line msg l)

  scan-encoded :
      (msgs : List Fields)
      → All (IsLine codec) msgs
      → scan codec "" (joined (map (encode codec) msgs))
        ≡ record { messages = map (λ msg. obj (versioned msg)) msgs; rest = some "" }
  scan-encoded [] h = refl
  scan-encoded (msg ∷ msgs) (l, ls) =
      scan-encoded_line msg (joined (map (encode codec) msgs)) l
      ∙ ap (then_line (message (obj (versioned msg)))) (scan-encoded msgs ls)

  -- Messages that are encoded, written one after the other and received in any pieces are decoded
  -- to the same messages in the same order, each with the version, and nothing is left over, if
  -- the JSON text of each is one line that parses back.
  pub feed_chunks-encode :
      (msgs : List Fields) (chunks : List String)
      → All (IsLine codec) msgs
      → joined chunks ≡ joined (map (encode codec) msgs)
      → feed_chunks codec "" chunks
        ≡ record { messages = map (λ msg. obj (versioned msg)) msgs; rest = some "" }
  feed_chunks-encode msgs chunks h e =
      feed_chunks-scan codec "" chunks cut-nil ∙ ap (scan codec "") e ∙ scan-encoded msgs h
