-- ===== src/Control/ChatExamples.antt =====
-- Tests of the routing of chat jobs, on a server that answers each request.
use infernet_protocol.Common.{
  ℕ, arith, ◌≡◌, refl, false, none, some, List, [], ◌∷◌, String, min, inl,
}
use infernet_protocol.Common.Js.{str, obj, arr, end, field, nil, cons}
use infernet_protocol.Common.Maps.{lookup}
use infernet_protocol.Control.Store.{Supabase}
use infernet_protocol.Control.Chat.{
  Offer, ChatMessage, ChatTables, Routing, pick_chat_provider, create_chat_job,
}
use infernet_protocol.Control.Routes.{
  AnswersChoice, pick_chat_provider-Choice, Creation, create_chat_job-Creation,
}
use infernet_protocol.Control.RateBounds.{Event, checks, sweeps, asked, granted, granted-bound}

never-refused :
    (f : ChatTables → ChatTables) (t : ChatTables) (e : String) → none ≡ some e → f t ≡ t
never-refused f t e h = cc

-- A server over the tables of the chats that answers each request.
abbrev chats : Supabase ChatTables
chats = record {
  Db = ChatTables;
  tables = λ (t : ChatTables). t;
  refused = λ t. none;
  attempt = λ f t. f t;
  new_id = λ t. "new";
  carried_out = λ f t h. refl;
  kept = λ f t e h. never-refused f t e h;
}

abbrev routing : Routing
routing = record {
  weight = λ p. p.reputation;
  roll = λ n. n;
  is_nim_configured = false;
  clip_title = λ x. x;
}

abbrev offer : String → ℕ → Offer
offer id reputation = record {
  id = id;
  status = "available";
  last_seen = 900000;
  reputation = reputation;
  specs = obj (field "served_models" (arr (cons (str "llama") nil)) end);
}

abbrev idle_chats : ChatTables
idle_chats = record { providers = offer "p1" 50 ∷ offer "p2" 70 ∷ []; jobs = []; events = [] }

pick_chat_provider-Choice_example :
    ((pick_chat_provider chats routing 1000000 (some "llama") idle_chats).0 ≡ idle_chats)
    × AnswersChoice 1000000
        (some "llama")
        idle_chats.providers
        (pick_chat_provider chats routing 1000000 (some "llama") idle_chats).1
pick_chat_provider-Choice_example =
    pick_chat_provider-Choice chats routing 1000000 (some "llama") idle_chats

abbrev hi : List ChatMessage
hi = record { role = "user"; content = str "hi" } ∷ []

create_chat_job-Creation_example :
    Creation chats routing 1000000 hi
      (some "llama")
      512
      idle_chats
      (create_chat_job chats routing 1000000 hi (some "llama") 512 idle_chats).0
      (create_chat_job chats routing 1000000 hi (some "llama") 512 idle_chats).1
create_chat_job-Creation_example =
    create_chat_job-Creation chats routing 1000000 hi (some "llama") 512 idle_chats

-- Two requests in a second pass, the third does not, also after a sweep.
abbrev burst : List Event
burst = checks "ip" 10 ∷ sweeps 11 ∷ checks "other" 12 ∷ checks "ip" 13 ∷ []

granted-bound_example :
    granted 1000 2 "ip" (checks "ip" 5 ∷ burst) [] ≡ min 2 (asked "ip" (checks "ip" 5 ∷ burst))
unfolding lookup
granted-bound_example =
    granted-bound 1000 2 "ip" 5 burst [] (inl refl)
      (omega arith, (omega arith, (omega arith, (omega arith, tt))))
