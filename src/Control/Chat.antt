-- ===== src/Control/Chat.antt =====
-- apps/web/lib/data/chat.js: the choice of a provider for a chat job, and the creation of the job.
-- Amounts of memory, utilisation and reputation are integers. The weight of a candidate, a product of
-- floating-point numbers, and the fallback service are the parameters of `Routing`.
use infernet_protocol.Common.{
  ℕ, ◌+◌, ◌-◌, leb, if◌then◌else◌, Bool, true, false, ◌&&◌, ◌||◌, not, Option, none, some, List, [],
  ◌∷◌, ◌++◌, String, str_eq, any, keep,
}
use infernet_protocol.Common.Js.{ℤ, pos, negsuc, Js, num, str, member, truthy}
use infernet_protocol.Control.Specs.{array}
use infernet_protocol.Control.Store.{Supabase, reply, M, ◌>>=◌, return, unwrap, ask}

-- A row of `providers`, as the routing reads it.
pub record Offer : Type 0 where
  pub id : String
  pub status : String
  pub last_seen : ℕ
  pub reputation : ℕ
  pub specs : Js

pub record ChatMessage : Type 0 where
  pub role : String
  pub content : Js

-- A row of `jobs` that `createChatJob` adds.
pub record ChatJob : Type 0 where
  pub id : String
  pub title : String
  pub status : String
  pub provider_id : Option String
  pub model_name : Option String
  pub messages : List ChatMessage
  pub max_tokens : ℕ
  pub uses_fallback : Bool
  pub assigned_at : Option ℕ
  pub updated_at : ℕ

pub record ChatEvent : Type 0 where
  pub id : ℕ
  pub job_id : String
  pub event_type : String
  pub payload : Js

pub record ChatTables : Type 0 where
  pub providers : List Offer
  pub jobs : List ChatJob
  pub events : List ChatEvent

pub record Routing : Type 0 where
  -- `reputation * speed * headroom` of a candidate, in some unit.
  pub weight : Offer → ℕ
  -- `rng() * total`, in the same unit.
  pub roll : ℕ → ℕ
  pub is_nim_configured : Bool
  -- `text.slice(0, 80)`
  pub clip_title : String → String

pub data Source : Type 0 where
  p2p nim nobody : Source

-- `a >= b`
abbrev pub at_least : ℤ → ℤ → Bool
at_least (pos a) (pos b) = leb b a
at_least (pos a) (negsuc b) = true
at_least (negsuc a) (pos b) = false
at_least (negsuc a) (negsuc b) = leb a b

-- `Number.isFinite(v) ? v : d`
abbrev pub number_or : ℤ → Js → ℤ
number_or d (num n) = n
number_or d v = d

-- `Number.isFinite(v) && v >= b`
abbrev pub reaches : Js → ℤ → Bool
reaches (num n) b = at_least n b
reaches v b = false

abbrev pub default_concurrency_cap : ℤ
default_concurrency_cap = pos 4

abbrev pub high_gpu_utilization_pct : ℤ
high_gpu_utilization_pct = pos 95

-- `notSaturated`, on the load that a provider states.
abbrev pub has_room : Js → Bool
has_room load =
    if reaches (member load "active_jobs")
      (number_or default_concurrency_cap (member load "concurrency_cap"))
    then false
    else not (reaches (member load "gpu_utilization_max") high_gpu_utilization_pct)

unfoldable pub not_saturated : Offer → Bool
not_saturated p = if truthy (member p.specs "load") then has_room (member p.specs "load") else true

abbrev pub is_text : String → Js → Bool
is_text m (str s) = str_eq s m
is_text m v = false

-- `served.includes(modelName)`
unfoldable pub serves : String → Offer → Bool
serves m p = any (is_text m) (array (member p.specs "served_models"))

-- The models filter, which a missing or an empty name leaves out.
abbrev pub serves_named : Option String → Offer → Bool
serves_named none p = true
serves_named (some m) p = str_eq m "" || serves m p

-- `eq("status", "available").gte("last_seen", twoMinAgo)`
unfoldable pub is_live : ℕ → Offer → Bool
is_live now p = str_eq p.status "available" && leb now (p.last_seen + 120000)

abbrev pub total_weight : (Offer → ℕ) → List Offer → ℕ
total_weight weight [] = 0
total_weight weight (p ∷ ps) = weight p + total_weight weight ps

-- The loop of `reputationWeightedPick`: `last` is the last candidate so far.
unfoldable pub pick_from : (Offer → ℕ) → ℕ → Offer → List Offer → Offer
pick_from weight r last [] = last
pick_from weight r last (p ∷ ps) =
    let later = pick_from weight (r - weight p) p ps in if leb r (weight p) then p else later

unfoldable pub reputation_weighted_pick : Routing → List Offer → Option Offer
reputation_weighted_pick rt [] = none
reputation_weighted_pick rt (p ∷ []) = some p
reputation_weighted_pick rt (p ∷ q ∷ ps) =
    some (pick_from rt.weight (rt.roll (total_weight rt.weight (p ∷ q ∷ ps))) p (p ∷ q ∷ ps))

-- `firstUserPrompt`
unfoldable pub first_user_prompt : List ChatMessage → String
first_user_prompt [] = ""
first_user_prompt (m ∷ ms) =
    let later = first_user_prompt ms in
    elim m.content [ str s ↦ if str_eq m.role "user" then s else later | _ ↦ later ]

abbrev pub title_of : String → String
title_of t = if str_eq t "" then "chat" else t

abbrev pub source_of : Option Offer → Bool → Source
source_of (some p) configured = p2p
source_of none true = nim
source_of none false = nobody

abbrev pub status_for : Source → String
status_for p2p = "assigned"
status_for nim = "running"
status_for nobody = "pending"

abbrev pub is_nobody : Source → Bool
is_nobody nobody = true
is_nobody _ = false

abbrev pub is_nim : Source → Bool
is_nim nim = true
is_nim _ = false

abbrev pub offer_id : Option Offer → Option String
offer_id none = none
offer_id (some p) = some p.id

-- The row that `createChatJob` inserts.
unfoldable pub chat_job :
    Routing → String → ℕ → Option Offer → List ChatMessage → Option String → ℕ → ChatJob
chat_job rt id now provider messages model max_tokens =
    let source = source_of provider rt.is_nim_configured in
    record {
      id = id;
      title = title_of (rt.clip_title (first_user_prompt messages));
      status = status_for source;
      provider_id = offer_id provider;
      model_name = model;
      messages = messages;
      max_tokens = max_tokens;
      uses_fallback = is_nim source;
      assigned_at = if is_nobody source then none else some now;
      updated_at = now;
    }

-- Why a provider is a candidate.
abbrev pub is_candidate : ℕ → Option String → Offer → Bool
is_candidate now model p = is_live now p && (serves_named model p && not_saturated p)

module _ (s : Supabase ChatTables) (rt : Routing) where
  -- The query and the two filters of `pickChatProvider`.
  abbrev pub candidates : ℕ → Option String → List Offer → List Offer
  candidates now model live = keep not_saturated (keep (serves_named model) live)

  -- `pickChatProvider`; `throw error` has no status of its own, and the route answers 500.
  unfoldable pub pick_chat_provider : ℕ → Option String → M s.Db (Option Offer)
  pick_chat_provider now model = do
    found ← ask s (λ t. t) (λ t. reply (keep (is_live now) t.providers))
    live ← unwrap found
    return (reputation_weighted_pick rt (candidates now model live))

  abbrev pub insert_job :
      ℕ
      → List ChatMessage
      → Option String
      → ℕ
      → Option Offer
      → M s.Db (ChatJob × Option Offer × Source)
  insert_job now messages model max_tokens provider db =
      (let job = chat_job rt (s.new_id db) now provider messages model max_tokens in
          ask s (λ t. record t { jobs = t.jobs ++ job ∷ [] }) (λ t. reply job) >>= λ written.
          unwrap written >>= λ row. return (row, provider, source_of provider rt.is_nim_configured))
        db

  -- `createChatJob`; the virtual provider of the fallback is left out of the result.
  unfoldable pub create_chat_job :
      ℕ → List ChatMessage → Option String → ℕ → M s.Db (ChatJob × Option Offer × Source)
  create_chat_job now messages model max_tokens = do
    provider ← pick_chat_provider now model
    insert_job now messages model max_tokens provider
