-- ===== src/Auth/ReplayCache.antt =====
-- packages/auth/src/signed-request.js: `ReplayCache`. Times are the milliseconds of `Date.now()`,
-- an argument of each call.
use infernet_protocol.Common.{
  ℕ, ◌+◌, ◌*◌, Bool, true, false, Option, none, some, List, [], ◌∷◌, String, str_eq, ltb, leb, ◌==◌,
  if◌then◌else◌, length,
}
use infernet_protocol.Common.Maps.{lookup, insert, delete}
use infernet_protocol.Auth.Envelope.{replay_window_seconds}

pub record ReplayCache : Type 0 where
  pub max : ℕ
  pub ttl_ms : ℕ
  pub seen : List (String × ℕ)

-- The constructor with its defaults.
abbrev pub new : ReplayCache
new = record { max = 10000; ttl_ms = replay_window_seconds * 2 * 1000; seen = [] }

-- `!expiresAt` holds of a missing entry and of 0.
abbrev pub has_at : ReplayCache → ℕ → String → Option ℕ → ReplayCache × Bool
has_at c now nonce none = (c, false)
has_at c now nonce (some expires_at) =
    if expires_at == 0
    then (c, false)
    else if ltb expires_at now
    then (record c { seen = delete nonce c.seen }, false)
    else (c, true)

unfoldable pub has : ReplayCache → ℕ → String → ReplayCache × Bool
has c now nonce = has_at c now nonce (lookup nonce c.seen)

-- `if (firstKey) seen.delete(firstKey)`: the empty text is no key to delete. The keys of a `Map`
-- differ, so the first entry alone goes.
unfoldable pub drop_first : List (String × ℕ) → List (String × ℕ)
drop_first [] = []
drop_first ((k, e) ∷ m) = if str_eq k "" then (k, e) ∷ m else m

unfoldable pub add : ReplayCache → ℕ → String → ReplayCache
unfolding drop_first
add c now nonce =
    let kept = if leb c.max (length c.seen) then drop_first c.seen else c.seen in
    record c { seen = insert nonce (now + c.ttl_ms) kept }
