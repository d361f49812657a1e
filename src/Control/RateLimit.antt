-- ===== src/Control/RateLimit.antt =====
-- apps/web/lib/rate-limit.js: the limiter in front of the chat, with the entries of its map and the
-- readings of the clock as arguments; and the address of a client, from three headers.
use Prim.Native.Char.{code}
use infernet_protocol.Common.{
  ℕ, ◌+◌, ◌-◌, Bool, Option, none, some, List, [], ◌∷◌, String, str_eq, leb, ◌==◌, if◌then◌else◌,
}
use infernet_protocol.Common.Maps.{lookup, insert}
use infernet_protocol.Common.Js.{trim}

pub record Entry : Type 0 where
  pub count : ℕ
  pub reset : ℕ

pub record Allowance : Type 0 where
  pub ok : Bool
  pub remaining : ℕ
  pub reset_at : ℕ

module _ (window_ms max : ℕ) where
  -- A missing entry, or one that is over, is replaced.
  abbrev pub current : ℕ → Option Entry → Entry
  current now none = record { count = 0; reset = now + window_ms }
  current now (some e) =
      if leb e.reset now then record { count = 0; reset = now + window_ms } else e

  -- `check(key)`
  unfoldable pub check : String → ℕ → List (String × Entry) → List (String × Entry) × Allowance
  check key now bucket =
      let entry = current now (lookup key bucket) in
      let count = entry.count + 1 in
      (
        insert key (record { count = count; reset = entry.reset }) bucket,
        record { ok = leb count max; remaining = max - count; reset_at = entry.reset },
      )

-- The sweep of the timer.
unfoldable pub sweep : ℕ → List (String × Entry) → List (String × Entry)
sweep now [] = []
sweep now ((key, entry) ∷ bucket) =
    let rest = sweep now bucket in if leb entry.reset now then rest else (key, entry) ∷ rest

-- The text before the first comma.
abbrev before_comma : String → String
before_comma String.[] = ""
before_comma (String.◌∷◌ c s) =
    let rest = before_comma s in if code c == 44 then "" else String.◌∷◌ c rest

abbrev or_text : Option String → Option String → Option String
or_text none later = later
or_text (some s) later = some s

abbrev text_else : Option String → String → String
text_else none d = d
text_else (some s) d = s

abbrev forwarded : Option String → Option String
forwarded none = none
forwarded (some s) = if str_eq s "" then none else some (trim (before_comma s))

-- `getClientIp(request)`
unfoldable pub get_client_ip : (String → Option String) → String
get_client_ip header =
    text_else
      (or_text (forwarded (header "x-forwarded-for"))
        (or_text (header "x-real-ip") (header "cf-connecting-ip")))
      "anonymous"
