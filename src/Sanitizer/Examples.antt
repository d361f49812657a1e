-- ===== src/Sanitizer/Examples.antt =====
-- Tests of the sanitizer of apps/web/lib/sanitize-stream.js.
use infernet_protocol.Common.{◌≡◌, refl, some, List, [], ◌∷◌, ◌++◌}
use infernet_protocol.Common.Js.{codes}
use infernet_protocol.Sanitizer.Tags.{Text, after, find_open, last_lt}
use infernet_protocol.Sanitizer.Stream.{
  Sanitizer, make_stream_sanitizer, clean, process, flush, sanitize_text,
}
use infernet_protocol.Sanitizer.Loop.{stripped, sanitize_text-stripped}

-- What a stream gives for its chunks, to the end.
abbrev streamed : Sanitizer → List Text → Text
streamed s [] = (flush s).0
streamed s (c ∷ cs) = let (out, later) = process s (some c) in out ++ streamed later cs

taken_out : sanitize_text (codes "a<ip_reminder>b</ip_reminder>c") ≡ codes "ac"
unfolding sanitize_text process flush clean find_open after last_lt
taken_out = refl

unfinished : sanitize_text (codes "a<system-reminder>b</system") ≡ codes "a"
unfolding sanitize_text process flush clean find_open after last_lt
unfinished = refl

other_tags_kept : sanitize_text (codes "a <b> c < d") ≡ codes "a <b> c < d"
unfolding sanitize_text process flush clean find_open after last_lt
other_tags_kept = refl

-- A tag that comes together when another one is taken out stays in the text.
comes_together :
    sanitize_text (codes "<ip_<ip_reminder></ip_reminder>reminder>") ≡ codes "<ip_reminder>"
unfolding sanitize_text process flush clean find_open after last_lt
comes_together = refl

-- A tag in two chunks is found.
two_chunks :
    streamed make_stream_sanitizer (codes "a<ip_rem" ∷ codes "inder>b</ip_reminder>c" ∷ [])
    ≡ codes "ac"
unfolding process flush clean find_open after last_lt
two_chunks = refl

-- A tag that is cut after its first 32 units is not.
long_name :
    streamed make_stream_sanitizer (
      codes "<antml:a_name_of_very_many_letters"
      ∷ codes ">b</antml:a_name_of_very_many_letters>"
      ∷ [])
    ≡ codes "<antml:a_name_of_very_many_letters>b</antml:a_name_of_very_many_letters>"
unfolding process flush clean find_open after last_lt
long_name = refl

sanitize_text-stripped_example :
    sanitize_text (codes "a<ip_reminder>b</ip_reminder>c")
    ≡ stripped sanitize_text (codes "a<ip_reminder>b</ip_reminder>c")
sanitize_text-stripped_example = sanitize_text-stripped (codes "a<ip_reminder>b</ip_reminder>c")
