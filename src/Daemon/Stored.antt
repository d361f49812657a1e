-- ===== src/Daemon/Stored.antt =====
-- The events of apps/cli/lib/chat-executor.js as rows of apps/web/lib/data/node-api.js.
use infernet_protocol.Common.{
  ◌≡◌, refl, Bool, true, false, ◌||◌, ◌&&◌, inl, inr, Bool-cases, some, List, [], ◌∷◌, ◌++◌, All,
  all, any, flatten, arith, String,
}
use infernet_protocol.Common.Js.{Js}
use infernet_protocol.Control.Tables.{EventRow}
use infernet_protocol.Control.Jobs.{event_types, event_row, event_rows}
use infernet_protocol.Engine.Process.{is_type}
use infernet_protocol.Daemon.Upload.{Moment, Batches, Chat, Answer, forward}
use infernet_protocol.Daemon.Posted.{events_of}

-- A message of one of the types that the control plane stores.
abbrev pub is_stored_type : Js → Bool
is_stored_type ev = any (is_type ev) event_types

abbrev pub IsStored : String → Js → Type 0
IsStored job_id e = (row : EventRow) × (event_row job_id e ≡ some row)

pub both_left : (a b : Bool) → (a && b) ≡ true → a ≡ true
both_left a b h = ground arith

both_right : (a b : Bool) → (a && b) ≡ true → b ≡ true
both_right a b h = ground arith

is_one :
    (m t d e : Bool)
    → (m || (t || (d || (e || false)))) ≡ true
    → e ≡ false
    → m ≡ false
    → t ≡ false
    → d ≡ true
is_one m t d e h f g k = ground arith

pub event_types-known :
    (ev : Js)
    → is_stored_type ev ≡ true
    → is_type ev "error" ≡ false
    → is_type ev "meta" ≡ false
    → is_type ev "token" ≡ false
    → is_type ev "done" ≡ true
event_types-known ev h f g k =
    is_one (is_type ev "meta") (is_type ev "token") (is_type ev "done") (is_type ev "error") h f g k

forward-IsStored :
    (job_id : String) (c : Chat) (iso : String) (ev : Js) (a : Answer)
    → is_stored_type ev ≡ true
    → is_type ev "error" ≡ false
    → IsStored job_id (forward c iso ev a).0
unfolding forward event_row
forward-IsStored job_id c iso ev a h other = elim (Bool-cases (is_type ev "meta")) [
  | inl e ↦ rw e (_, refl)
  | inr m ↦ elim (Bool-cases (is_type ev "token")) [
    | inl e ↦ rw (m, e) (_, refl)
    | inr t ↦ rw (m, t, event_types-known ev h other m t) (_, refl)
  ]
]

pub stored_batch :
    (job_id : String) (es : List Js)
    → All (IsStored job_id) es
    → (rows : List EventRow) × (event_rows job_id es ≡ some rows)
unfolding event_rows
stored_batch job_id [] h = ([], refl)
stored_batch job_id (e ∷ es) ((row, here), later) =
    let (rows, there) = stored_batch job_id es later in (row ∷ rows, rw (here, there) refl)

pub events_of-IsStored :
    (job_id : String) (c : Chat) (evs : List (Moment × Js)) (a : Answer)
    → all (λ (p : Moment × Js). is_stored_type p.1) evs ≡ true
    → All (IsStored job_id) (events_of c evs a)
unfolding event_row
events_of-IsStored job_id c [] a h = tt
events_of-IsStored job_id c ((m, ev) ∷ evs) a h = elim (Bool-cases (is_type ev "error")) [
  | inl e ↦ rw e ((_, refl), tt)
  | inr e ↦ rw e (
    forward-IsStored job_id c m.iso ev a (both_left (is_stored_type ev) _ h) e,
    events_of-IsStored job_id c evs (forward c m.iso ev a).1 (both_right (is_stored_type ev) _ h),
  )
]

pub All-left : (P : Js → Type 0) (xs ys : List Js) → All P (xs ++ ys) → All P xs
All-left P [] ys h = tt
All-left P (x ∷ xs) ys h = (h.0, All-left P xs ys h.1)

All-right : (P : Js → Type 0) (xs ys : List Js) → All P (xs ++ ys) → All P ys
All-right P [] ys h = h
All-right P (x ∷ xs) ys h = All-right P xs ys h.1

pub each_batch : (P : Js → Type 0) (xss : Batches) → All P (flatten xss) → All (All P) xss
each_batch P [] h = tt
each_batch P (xs ∷ xss) h =
    (All-left P xs (flatten xss) h, each_batch P xss (All-right P xs (flatten xss) h))
