-- ===== src/Streaming/Finals.antt =====
-- How often `runNimFallback` of apps/web/lib/data/chat-stream.js changes the job's row.
use infernet_protocol.Common.{
  ℕ, suc, zero, ◌≡◌, ◌∙◌, min, List, [], ◌∷◌, ◌++◌, String, str_eq, some, if_split_rule, arith,
}
use infernet_protocol.Sanitizer.Tags.{Text}
use infernet_protocol.Sanitizer.Stream.{Sanitizer, make_stream_sanitizer, process}
use infernet_protocol.Streaming.Events.{EventData, text_of}
use infernet_protocol.Streaming.Fallback.{
  NimEvent, NimEnding, Act, stores, gives, finalizes, Insert, incomplete, at_yield, give_token,
  relay_nim, run_nim_fallback,
}

abbrev pub finalizations : List Act → ℕ
finalizations [] = 0
finalizations (stores k d ∷ acts) = finalizations acts
finalizations (gives k d id ∷ acts) = finalizations acts
finalizations (finalizes f ∷ acts) = suc (finalizations acts)

at_yield-once :
    (reads : ℕ) (full : Text) (next : ℕ → List Act)
    → ((n : ℕ) → finalizations (next n) ≡ 1)
    → finalizations (at_yield reads (incomplete full) next) ≡ 1
at_yield-once zero full next h = omega arith
at_yield-once (suc n) full next h = h n

give_token-once :
    (insert : Insert) (d : EventData) (clean : Text) (reads : ℕ) (full : Text) (next : ℕ → List Act)
    → ((n : ℕ) → finalizations (next n) ≡ 1)
    → finalizations (give_token insert d clean reads (incomplete full) next) ≡ 1
give_token-once insert d [] reads full next h = h reads
give_token-once insert d (c ∷ t) reads full next h = at_yield-once reads full next h

relay_nim-once :
    (iso : String) (insert : Insert) (evs : List NimEvent) (last : NimEnding) (reads : ℕ)
    (full : Text) (s : Sanitizer)
    → finalizations (relay_nim iso insert evs last reads full s) ≡ 1
unfolding relay_nim
relay_nim-once iso insert [] last reads full s = omega arith
relay_nim-once iso insert (ev ∷ evs) last reads full s =
    if_split_rule IsOnce (str_eq ev.kind "token") _ _
      (λ t.
        give_token-once insert ev.body (process s (some (text_of ev.body))).0 reads
          (full ++ text_of ev.body)
          (λ n.
            relay_nim iso insert evs last n (full ++ text_of ev.body)
              (process s (some (text_of ev.body))).1)
          (λ n.
            relay_nim-once iso insert evs last n (full ++ text_of ev.body)
              (process s (some (text_of ev.body))).1))
      (λ f.
        if_split_rule IsOnce (str_eq ev.kind "done") _ _ (λ t. omega arith)
          (λ g.
            if_split_rule IsOnce (str_eq ev.kind "error") _ _ (λ t. omega arith)
              (λ k. relay_nim-once iso insert evs last reads full s)))
  where
    IsOnce : List Act → Type 0
    IsOnce acts = finalizations acts ≡ 1

-- However the service's stream goes on and ends, whichever rows cannot be stored, and wherever the
-- consumer stops, the job's row is finalized exactly once, except where the consumer stops at the first event:
-- then it is never finalized.
pub run_nim_fallback-once :
    (iso : String) (insert : Insert) (meta : EventData) (evs : List NimEvent) (last : NimEnding)
    (reads : ℕ)
    → finalizations (run_nim_fallback iso insert meta evs last reads) ≡ min 1 reads
unfolding run_nim_fallback
run_nim_fallback-once iso insert meta evs last zero = omega arith
run_nim_fallback-once iso insert meta evs last (suc n) =
    relay_nim-once iso insert evs last n [] make_stream_sanitizer ∙ omega arith
