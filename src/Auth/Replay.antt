-- ===== src/Auth/Replay.antt =====
-- Repeated requests: the replay cache of packages/auth with the gate of apps/web.
use infernet_protocol.Common.{
  ℕ, suc, ◌+◌, ◌*◌, ◌/◌, ◌≤◌, ◌<◌, ◌≡◌, ◌≢◌, some, List, [], ◌∷◌, String, arith, ap, sym, ◌∙◌,
  le→leb, length, All, true, false, Bool-cases, inl, inr, subst,
}
use Prim.Native.Nat.add
use infernet_protocol.Common.Maps.{lookup}
use infernet_protocol.Common.Js.{ℤ, pos, negsuc}
use infernet_protocol.Auth.Envelope.{
  Runtime, Request, Envelope, ok, verify_signed_request, parse_auth_header, skew,
  replay_window_seconds, canonical_string, Result-cases,
}
use infernet_protocol.Auth.ReplayCache.{ReplayCache, has, add}
use infernet_protocol.Auth.Gate.{Clock, Accepted, admit, verify_signed_next_request, serve}
use infernet_protocol.Auth.Validity.{IsValid, has-IsValid, add-IsValid, parse-nonce}
use infernet_protocol.Auth.Retention.{Holds, add_new-Holds, has_new, serve-Holds, has-held}

-- What an accepted verification has checked.
verify-ok :
    (rt : Runtime) (now : ℕ) (r : Request) (env : Envelope)
    → verify_signed_request rt now r ≡ ok env
    → (parse_auth_header rt r.header ≡ ok env)
      × (skew now env.created_at ≤ replay_window_seconds)
      × (rt.schnorr_verify (canonical_string rt r env) env.sig env.pubkey ≡ true)
unfolding verify_signed_request
verify-ok rt now r env h = ground arith

admit-IsValid :
    (rt : Runtime) (c : ReplayCache) (clock : Clock) (body : String) (env : Envelope)
    → env.nonce ≢ ""
    → IsValid c
    → IsValid (admit rt c clock body env).0
unfolding admit
admit-IsValid rt c clock body env d v =
    let v' = has-IsValid c clock.at_has env.nonce v in
    elim (Bool-cases (has c clock.at_has env.nonce).1) [
      | inl used ↦ rw used v'
      | inr new ↦ rw new (add-IsValid _ clock.at_add env.nonce d v')
    ]

-- What the gate does is decided by the verification.
gate-cases :
    (rt : Runtime) (c : ReplayCache) (clock : Clock) (r : Request) {acc : Accepted}
    → (verify_signed_next_request rt c clock r).1 ≡ ok acc
    → (env : Envelope) × (verify_signed_request rt (clock.at_verify / 1000) r ≡ ok env)
      × ((has c clock.at_has env.nonce).1 ≡ false)
      × ((verify_signed_next_request rt c clock r).0
          ≡ add (has c clock.at_has env.nonce).0 clock.at_add env.nonce)
      × (acc ≡ record { pubkey = env.pubkey; body = r.body })
unfolding verify_signed_next_request admit
gate-cases rt c clock r {acc} h =
    elim (Result-cases (verify_signed_request rt (clock.at_verify / 1000) r)) [
      | inl (x, e) ↦ ground arith
      | inr (env, e) ↦ (env, e, ground arith, ground arith, ground arith)
    ]

-- Three readings of the clock that fall in one millisecond.
abbrev pub tick : ℕ → Clock
tick t = record { at_verify = t; at_has = t; at_add = t }

-- The time of signing that an envelope states is at most so many seconds.
abbrev pub SignedBy : ℤ → ℕ → Type 0
SignedBy (pos c) s = c ≤ s
SignedBy (negsuc c) s = Unit

-- A verification that passes happens at most a minute after the time that the envelope states.
skew-SignedBy :
    (created : ℤ) (now s : ℕ)
    → SignedBy created s
    → skew now created ≤ replay_window_seconds
    → now ≤ s + replay_window_seconds
skew-SignedBy (pos c) now s h k = ground arith
skew-SignedBy (negsuc c) now s h k = omega arith

-- The gate keeps the cache within its bound, with a nonce and an expiry in each entry.
pub verify_signed_next_request-IsValid :
    (rt : Runtime) (c : ReplayCache) (clock : Clock) (r : Request)
    → IsValid c
    → IsValid (verify_signed_next_request rt c clock r).0
unfolding verify_signed_next_request
verify_signed_next_request-IsValid rt c clock r v =
    elim (Result-cases (verify_signed_request rt (clock.at_verify / 1000) r)) [
      | inl (x, e) ↦ rw e v
      | inr (env, e) ↦
          let named =
            parse-nonce rt r.header env (verify-ok rt (clock.at_verify / 1000) r env e).0 in
          rw e (admit-IsValid rt c clock r.body env named v)
    ]

held_after :
    (rt : Runtime) (c : ReplayCache) (clock : Clock) (r : Request) {acc : Accepted} (b : ℕ)
    → IsValid c
    → suc b ≤ c.max
    → (verify_signed_next_request rt c clock r).1 ≡ ok acc
    → (env : Envelope) × (parse_auth_header rt r.header ≡ ok env)
      × Holds (verify_signed_next_request rt c clock r).0 env.nonce (clock.at_add + c.ttl_ms) b
held_after rt c clock r b v s accepted =
    let (env, verified, new, cache, _) = gate-cases rt c clock r accepted in
    let (absent, same_max, same_ttl) = has_new c clock.at_has env.nonce v new in
    let held =
      add_new-Holds (has c clock.at_has env.nonce).0 clock.at_add env.nonce b
        (has-IsValid c clock.at_has env.nonce v) absent (rw same_max s) in
    let lifetime =
      subst
        (λ t.
          Holds (add (has c clock.at_has env.nonce).0 clock.at_add env.nonce) env.nonce
            (clock.at_add + t) b)
        same_ttl held in
    (env, (verify-ok rt (clock.at_verify / 1000) r env verified).0, rw cache lifetime)

held_refused :
    (rt : Runtime) (c : ReplayCache) (clock : Clock) (r : Request) (env : Envelope) (e b : ℕ)
    → parse_auth_header rt r.header ≡ ok env
    → clock.at_has ≤ e
    → Holds c env.nonce e b
    → (acc : Accepted) → (verify_signed_next_request rt c clock r).1 ≢ ok acc
held_refused rt c clock r env e b parsed t h acc accepted =
    let (env', verified, new, _, _) = gate-cases rt c clock r accepted in
    let again = (verify-ok rt (clock.at_verify / 1000) r env' verified).0 in
    let same : env' ≡ env = cc in
    cc (
      ap (λ (x : Envelope). (has c clock.at_has x.nonce).1) same,
      has-held c clock.at_has env.nonce e b t h,
    )

All-le :
    (calls : List (Clock × Request)) (a b : ℕ)
    → a ≤ b
    → All (λ call. call.0.at_has ≤ a) calls
    → All (λ call. call.0.at_has ≤ b) calls
All-le [] a b h t = tt
All-le (call ∷ calls) a b h (t, ts) = (omega arith, All-le calls a b h ts)

-- A header that was accepted once is never accepted again, whatever fewer calls than the cache has
-- places lie between, if its time of signing is at most 58 seconds ahead of the server's clock, no
-- call in between checked the cache later, the clock does not run backwards within the first call,
-- and the second call reaches the cache within a second of its time check.
pub replay_rejected :
    (rt : Runtime) (c : ReplayCache) (clock clock' : Clock) (r r' : Request) (acc acc' : Accepted)
    (calls : List (Clock × Request))
    → IsValid c
    → c.ttl_ms ≡ 120000
    → (verify_signed_next_request rt c clock r).1 ≡ ok acc
    → r'.header ≡ r.header
    → ((env : Envelope)
        → parse_auth_header rt r.header ≡ ok env
        → SignedBy env.created_at (clock.at_verify / 1000 + 58))
    → length calls < c.max
    → All (λ call. call.0.at_has ≤ clock'.at_has) calls
    → clock.at_verify ≤ clock.at_add
    → clock'.at_has ≤ clock'.at_verify + 1000
    → (verify_signed_next_request rt
        (serve rt (verify_signed_next_request rt c clock r).0 calls)
        clock'
        r').1
      ≢ ok acc'
replay_rejected rt c clock clock' r r' acc acc' calls v ttl accepted same signed few ts t1 t2
      again =
    let later = serve rt (verify_signed_next_request rt c clock r).0 calls in
    let (env, parsed, held) = held_after rt c clock r (length calls) v few accepted in
    let (env', verified, _, _, _) = gate-cases rt later clock' r' again in
    let (parsed', fresh, _) = verify-ok rt (clock'.at_verify / 1000) r' env' verified in
    let parsed'' : parse_auth_header rt r'.header ≡ ok env = rw same parsed in
    let one : env' ≡ env = cc in
    let soon =
      skew-SignedBy env.created_at (clock'.at_verify / 1000) _ (signed env parsed)
        (subst (λ (x : Envelope). skew (clock'.at_verify / 1000) x.created_at ≤ 60) one fresh) in
    let alive : clock'.at_has ≤ clock.at_add + c.ttl_ms = omega arith in
    held_refused rt later clock' r' env (clock.at_add + c.ttl_ms) 0 parsed'' alive
      (serve-Holds rt _ calls env.nonce (clock.at_add + c.ttl_ms) 0 (All-le calls _ _ alive ts)
        (rw add.zero held))
      acc' again

verify_intro :
    (rt : Runtime) (now : ℕ) (r : Request) (env : Envelope)
    → parse_auth_header rt r.header ≡ ok env
    → skew now env.created_at ≤ replay_window_seconds
    → rt.schnorr_verify (canonical_string rt r env) env.sig env.pubkey ≡ true
    → verify_signed_request rt now r ≡ ok env
unfolding verify_signed_request
verify_intro rt now r env p s g = rw (p, le→leb _ _ s, g)

gate_expired :
    (rt : Runtime) (c : ReplayCache) (clock : Clock) (r : Request) (env : Envelope) (e : ℕ)
    → verify_signed_request rt (clock.at_verify / 1000) r ≡ ok env
    → lookup env.nonce c.seen ≡ some e
    → e < clock.at_has
    → (verify_signed_next_request rt c clock r).1
      ≡ ok (record { pubkey = env.pubkey; body = r.body })
unfolding verify_signed_next_request admit has
gate_expired rt c clock r env e verified held late = ground arith

-- The header of a request that was signed a minute ahead of the server's clock is accepted twice:
-- a request accepted at second `s`, whose envelope states `s + 60`, passes again between 120000 and
-- 121000 milliseconds later, since the age is counted in whole seconds and the cache entry lives
-- for 120000 milliseconds.
pub replay_gap :
    (rt : Runtime) (c : ReplayCache) (s k : ℕ) (r : Request) (acc : Accepted) (env : Envelope)
    → IsValid c
    → c.ttl_ms ≡ 120000
    → parse_auth_header rt r.header ≡ ok env
    → env.created_at ≡ pos (s + 60)
    → 0 < k
    → k < 1000
    → (verify_signed_next_request rt c (tick (s * 1000)) r).1 ≡ ok acc
    → (verify_signed_next_request rt
        (verify_signed_next_request rt c (tick (s * 1000)) r).0
        (tick ((s + 120) * 1000 + k))
        r).1
      ≡ ok acc
replay_gap rt c s k r acc env v ttl parsed made k1 k2 accepted =
    let (env', verified, _, _, shape) = gate-cases rt c (tick (s * 1000)) r accepted in
    let (parsed', _, signed) = verify-ok rt (s * 1000 / 1000) r env' verified in
    let one : env' ≡ env = cc in
    let (env2, parsed2, held) = held_after rt c (tick (s * 1000)) r 0 v v.sized accepted in
    let two : env2 ≡ env = cc in
    let near : skew (((s + 120) * 1000 + k) / 1000) env.created_at ≤ 60 = rw made (ground arith) in
    let again =
      gate_expired rt (verify_signed_next_request rt c (tick (s * 1000)) r).0
        (tick ((s + 120) * 1000 + k)) r env (s * 1000 + c.ttl_ms)
        (verify_intro rt (((s + 120) * 1000 + k) / 1000) r env parsed near (
          subst
            (λ (x : Envelope). rt.schnorr_verify (canonical_string rt r x) x.sig x.pubkey ≡ true)
            one signed))
        (subst
          (λ (x : Envelope).
            lookup x.nonce (verify_signed_next_request rt c (tick (s * 1000)) r).0.seen
            ≡ some (s * 1000 + c.ttl_ms))
          two held.listed)
        (omega arith) in
    again
    ∙ ap ok (
        sym (subst (λ (x : Envelope). acc ≡ record { pubkey = x.pubkey; body = r.body }) one shape))
