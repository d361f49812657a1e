-- ===== src/Auth/Retention.antt =====
-- How long the replay cache of packages/auth keeps a nonce, call by call.
use infernet_protocol.Common.{
  ℕ, suc, ◌+◌, ◌/◌, ◌≤◌, ◌<◌, ◌≡◌, refl, ap, ◌≢◌, none, some, List, [], ◌∷◌, String, eq_iff, arith,
  length, All, leb, true, false, Bool-cases, leb→le, inl, inr, Option-cases,
}
use native.Mathlib.Nat.{add-suc}
use infernet_protocol.Common.Maps.{lookup, insert, lookup-insert, lookup-delete}
use infernet_protocol.Auth.Envelope.{Runtime, Request, Envelope, ok, err, verify_signed_request}
use infernet_protocol.Auth.ReplayCache.{ReplayCache, has, add, drop_first}
use infernet_protocol.Auth.Gate.{Clock, admit, admit_result, verify_signed_next_request, serve}
use infernet_protocol.Auth.Places.{place, length-insert-le, place-insert, insert_new, place-delete}
use infernet_protocol.Auth.Validity.{IsValid, lookup-timed}

-- The cache holds a nonce until `e`, and `b` further requests cannot push it out.
pub record Holds (c : ReplayCache) (n : String) (e b : ℕ) : Type 0 where
  pub listed : lookup n c.seen ≡ some e
  pub timed : 0 < e
  pub margin : b + length c.seen ≤ place n c.seen + c.max

insert-Holds :
    (c : ReplayCache) (m : List (String × ℕ)) (k n : String) (v e b : ℕ)
    → k ≢ n
    → lookup n m ≡ some e
    → 0 < e
    → b + length m + 1 ≤ place n m + c.max
    → Holds (record c { seen = insert k v m }) n e b
insert-Holds c m k n v e b d l t h = record {
  listed = ground (arith, lookup-insert k n v m, eq_iff k n);
  timed = t;
  margin = omega (arith, place-insert n k v m e d l, length-insert-le k v m);
}

drop_first_keeps :
    (n : String) (m : List (String × ℕ)) (e most b : ℕ)
    → lookup n m ≡ some e
    → most ≤ length m
    → suc b + length m ≤ place n m + most
    → (lookup n (drop_first m) ≡ some e)
      × (b + length (drop_first m) + 1 ≤ place n (drop_first m) + most)
unfolding drop_first lookup
drop_first_keeps n [] e most b l full h = ground arith
drop_first_keeps n ((j, w) ∷ m) e most b l full h = ground (arith, eq_iff j n)

add-Holds :
    (c : ReplayCache) (now : ℕ) (k n : String) (e b : ℕ)
    → k ≢ n
    → Holds c n e (suc b)
    → Holds (add c now k) n e b
unfolding add
add-Holds c now k n e b d h = elim (Bool-cases (leb c.max (length c.seen))) [
  | inl full ↦
      let (l, m) = drop_first_keeps n c.seen e c.max b h.listed (leb→le _ _ full) h.margin in
      rw full (insert-Holds c (drop_first c.seen) k n _ e b d l h.timed m)
  | inr room ↦
      rw room (insert-Holds c c.seen k n _ e b d h.listed h.timed (omega (arith, h.margin)))
]

has-Holds :
    (c : ReplayCache) (now : ℕ) (k n : String) (e b : ℕ)
    → now ≤ e
    → Holds c n e b
    → Holds (has c now k).0 n e b
unfolding has
has-Holds c now k n e b d h =
    ground (arith, eq_iff k n, lookup-delete k n c.seen, place-delete n k c.seen)

pub has-held :
    (c : ReplayCache) (now : ℕ) (n : String) (e b : ℕ)
    → now ≤ e
    → Holds c n e b
    → (has c now n).1 ≡ true
unfolding has
has-held c now n e b d h = ground arith

weaken : {c : ReplayCache} {n : String} {e b : ℕ} → Holds c n e (suc b) → Holds c n e b
weaken h = record { listed = h.listed; timed = h.timed; margin = omega (arith, h.margin) }

-- A call for the held nonce leaves the cache as it is, and a call for another one pushes it back by
-- one place at most.
admit-Holds :
    (rt : Runtime) (c : ReplayCache) (clock : Clock) (body n : String) (env : Envelope) (e b : ℕ)
    → clock.at_has ≤ e
    → Holds c n e (suc b)
    → Holds (admit rt c clock body env).0 n e b
unfolding admit
admit-Holds rt c clock body n env e b t h =
    let h' : Holds (has c clock.at_has env.nonce).0 n e (suc b) =
      has-Holds c clock.at_has env.nonce n e (suc b) t h in
    elim (Bool-cases (has c clock.at_has env.nonce).1) [
      | inl used ↦ rw used (weaken h')
      | inr new ↦ rw new (
          add-Holds _ clock.at_add env.nonce n e b
            (λ same. cc (has-held c clock.at_has n e (suc b) t h, ap (has c clock.at_has) same)) h')
    ]

call-Holds :
    (rt : Runtime) (c : ReplayCache) (clock : Clock) (r : Request) (n : String) (e b : ℕ)
    → clock.at_has ≤ e
    → Holds c n e (suc b)
    → Holds (verify_signed_next_request rt c clock r).0 n e b
unfolding verify_signed_next_request
call-Holds rt c clock r n e b t h =
    elim (verify_signed_request rt (clock.at_verify / 1000) r)
      as (λ v. Holds (admit_result rt c clock r.body v).0 n e b) [
        | err x ↦ weaken h
        | ok env ↦ admit-Holds rt c clock r.body n env e b t h
      ]

pub serve-Holds :
    (rt : Runtime) (c : ReplayCache) (calls : List (Clock × Request)) (n : String) (e b : ℕ)
    → All (λ call. call.0.at_has ≤ e) calls
    → Holds c n e (b + length calls)
    → Holds (serve rt c calls) n e b
unfolding serve
serve-Holds rt c [] n e b t h = record {
  listed = h.listed;
  timed = h.timed;
  margin = omega (arith, h.margin);
}
serve-Holds rt c ((clock, r) ∷ calls) n e b (t, ts) h =
    serve-Holds rt (verify_signed_next_request rt c clock r).0 calls n e b ts
      (call-Holds rt c clock r n e (b + length calls) t (rw add-suc at h))

lookup-drop_first :
    (n : String) (m : List (String × ℕ)) → lookup n m ≡ none → lookup n (drop_first m) ≡ none
unfolding lookup drop_first
lookup-drop_first n [] h = refl
lookup-drop_first n ((j, w) ∷ m) h = ground arith

insert_new-Holds :
    (c : ReplayCache) (m : List (String × ℕ)) (n : String) (e b : ℕ)
    → 0 < e
    → lookup n m ≡ none
    → suc b ≤ c.max
    → Holds (record c { seen = insert n e m }) n e b
insert_new-Holds c m n e b t l s = record {
  listed = ground (arith, lookup-insert n n e m, eq_iff n n);
  timed = t;
  margin = omega (arith, insert_new n e m l);
}

-- A new nonce is held to the end of its lifetime, through fewer calls than the cache has places.
pub add_new-Holds :
    (c : ReplayCache) (now : ℕ) (n : String) (b : ℕ)
    → IsValid c
    → lookup n c.seen ≡ none
    → suc b ≤ c.max
    → Holds (add c now n) n (now + c.ttl_ms) b
unfolding add
add_new-Holds c now n b v l s =
    let timed : 0 < now + c.ttl_ms = omega (arith, v.living) in
    elim (Bool-cases (leb c.max (length c.seen))) [
      | inl full ↦
          rw full
            (insert_new-Holds c (drop_first c.seen) n _ b timed (lookup-drop_first n c.seen l) s)
      | inr room ↦ rw room (insert_new-Holds c c.seen n _ b timed l s)
    ]

pub has_new :
    (c : ReplayCache) (now : ℕ) (n : String)
    → IsValid c
    → (has c now n).1 ≡ false
    → (lookup n (has c now n).0.seen ≡ none)
      × ((has c now n).0.max ≡ c.max)
      × ((has c now n).0.ttl_ms ≡ c.ttl_ms)
unfolding has
has_new c now n v h = elim (Option-cases (lookup n c.seen)) [
  | inl absent ↦ ground arith
  | inr (e, held) ↦
      ground (arith, lookup-timed n c.seen e v.entries held, lookup-delete n n c.seen, eq_iff n n)
]
