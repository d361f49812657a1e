-- ===== src/Engine/Examples.antt =====
-- Tests of the queue, the wire protocol and the process wrapper of packages/engine.
use infernet_protocol.Common.{
  ℕ, ◌≡◌, refl, true, false, List, [], ◌∷◌, map, none, some, String, length, arith,
}
use infernet_protocol.Common.Maps.{lookup, insert}
use infernet_protocol.Common.Js.{trim, Fields, end, field, str, obj}
use infernet_protocol.Engine.AsyncQueue.{push, fail, next}
use infernet_protocol.Engine.Stream.{
  Call, pushes, fails, asks, calls, silent_run, happened, silence, promised, numbered,
}
use infernet_protocol.Engine.Delivery.{calls-promised, closed-settled}
use infernet_protocol.Engine.Protocol
use infernet_protocol.Engine.Protocol.{Codec, json, cut, encode, split_lines, feed_chunks}
use infernet_protocol.Engine.Process
use infernet_protocol.Engine.Process.{Process, on_exit, fail_streams, generate, send}
use infernet_protocol.Engine.Lines.{joined, cut-nil}
use infernet_protocol.Engine.Chunks.{scan, split_lines-scan, feed_chunks-push}
use infernet_protocol.Engine.Wire.{IsLine, versioned, feed_chunks-encode}
use infernet_protocol.Engine.Linked.{is_open}
use infernet_protocol.Engine.Exit.{Action, starts, generates, exits, acts, exit-closes}

-- Two values for three readers, then a failure.
abbrev talk : List (Call ℕ String)
talk = asks ∷ pushes 7 ∷ pushes 8 ∷ asks ∷ asks ∷ fails (some "gone") ∷ pushes 9 ∷ []

calls-promised_example :
    (calls silent_run talk).answers ≡ numbered 0 (promised (happened silence talk))
calls-promised_example = calls-promised talk

talk-closed : (calls silent_run talk).queue.closed ≡ true
unfolding push fail next
talk-closed = refl

closed-settled_example : length (calls silent_run talk).answers ≡ (calls silent_run talk).asked
closed-settled_example = closed-settled talk talk-closed

abbrev cancels_one : Fields
cancels_one = field "type" (str "cancel") (field "id" (str "a") end)

-- Every message is written as the same line.
abbrev codec : Codec
codec = record {
  parse = λ t. json (obj (versioned cancels_one));
  stringify = λ v. "{a}";
  show = λ v. "";
}

split_lines-scan_example : split_lines codec 9 "{a}\n{a}" ≡ scan codec "" "{a}\n{a}"
split_lines-scan_example = split_lines-scan codec 9 "{a}\n{a}" (omega arith)

feed_chunks-push_example :
    feed_chunks codec "" ("{a" ∷ "}\n{a}" ∷ "\n" ∷ [])
    ≡ Protocol.push codec "" (joined ("{a" ∷ "}\n{a}" ∷ "\n" ∷ []))
feed_chunks-push_example = feed_chunks-push codec "" ("{a" ∷ "}\n{a}" ∷ "\n" ∷ []) cut-nil

cancels_one-IsLine : IsLine codec cancels_one
unfolding cut trim
cancels_one-IsLine = record {
  unversioned = refl;
  unbroken = refl;
  trimmed = refl;
  nonempty = λ e. cc;
  parsed = refl;
}

two_lines :
    joined ("{a" ∷ "}\n{a}" ∷ "\n" ∷ [])
    ≡ joined (map (encode codec) (cancels_one ∷ cancels_one ∷ []))
unfolding encode
two_lines = refl

feed_chunks-encode_example : feed_chunks codec "" ("{a" ∷ "}\n{a}" ∷ "\n" ∷ []) ≡ record {
  messages = map (λ msg. obj (versioned msg)) (cancels_one ∷ cancels_one ∷ []);
  rest = some "";
}
feed_chunks-encode_example =
    feed_chunks-encode codec (cancels_one ∷ cancels_one ∷ []) ("{a" ∷ "}\n{a}" ∷ "\n" ∷ [])
      (cancels_one-IsLine, (cancels_one-IsLine, tt)) two_lines

abbrev life : List Action
life = starts none ∷ generates end "a" ∷ exits "engine exited" ∷ []

life-fresh : lookup "a" (Process.start codec none Process.new).0.streams ≡ none
unfolding Process.start lookup
life-fresh = refl

life-closed : (acts codec life Process.new).closed ≡ true
unfolding on_exit generate Process.start send fail_streams insert
life-closed = refl

exit-closes_example : is_open (acts codec life Process.new).queues 0 ≡ false
exit-closes_example = exit-closes codec life (tt, (life-fresh, (tt, tt))) life-closed 0
