-- ===== src/Auth/Gate.antt =====
-- apps/web/lib/auth/verify-signed-request.js: the check in front of each node endpoint, with the
-- replay cache of the process.
use infernet_protocol.Common.{
  ℕ, ◌/◌, Option, none, some, List, [], ◌∷◌, String, str_eq, if◌then◌else◌,
}
use infernet_protocol.Auth.Envelope.{
  Runtime, Request, Envelope, Result, ok, err, nonce_used, verify_signed_request,
}
use infernet_protocol.Auth.ReplayCache.{ReplayCache, has, add}

pub record Accepted : Type 0 where
  pub pubkey : String
  pub body : String

-- The readings of `Date.now()` that one call makes, in milliseconds.
pub record Clock : Type 0 where
  pub at_verify : ℕ
  pub at_has : ℕ
  pub at_add : ℕ

module _ (rt : Runtime) where
  -- `replayCache.has`, then `replayCache.add`, once the signature is verified.
  unfoldable pub admit : ReplayCache → Clock → String → Envelope → ReplayCache × Result Accepted
  admit c clock body env =
      let (c', used) = has c clock.at_has env.nonce in
      if used
      then (c', err nonce_used)
      else (add c' clock.at_add env.nonce, ok (record { pubkey = env.pubkey; body = body }))

  abbrev pub admit_result :
      ReplayCache → Clock → String → Result Envelope → ReplayCache × Result Accepted
  admit_result c clock body (err e) = (c, err e)
  admit_result c clock body (ok env) = admit c clock body env

  -- `verifySignedNextRequest`; the empty header is refused before it is parsed.
  unfoldable pub verify_signed_next_request :
      ReplayCache → Clock → Request → ReplayCache × Result Accepted
  verify_signed_next_request c clock r =
      admit_result c clock r.body (verify_signed_request rt (clock.at_verify / 1000) r)

  -- The state of the cache after a series of calls.
  unfoldable pub serve : ReplayCache → List (Clock × Request) → ReplayCache
  serve c [] = c
  serve c ((clock, r) ∷ rest) = serve (verify_signed_next_request c clock r).0 rest

-- `tableForRole`
pub data Role : Type 0 where
  provider aggregator client : Role

unfoldable pub table_for_role : String → Option Role
table_for_role role =
    if str_eq role "provider"
    then some provider
    else if str_eq role "aggregator"
    then some aggregator
    else if str_eq role "client"
    then some client
    else none
