-- ===== src/Auth/Validity.antt =====
-- What holds of the replay cache between two calls: `ReplayCache` of packages/auth.
use infernet_protocol.Common.{
  ℕ, ◌+◌, ◌≤◌, ◌<◌, ◌≡◌, ◌≢◌, Option, none, some, List, [], ◌∷◌, String, eq_iff, arith, length, All,
  leb, ◌==◌, false, Bool-cases, inl, inr, subst,
}
use infernet_protocol.Common.Js.{Js, undefined, str, member, units, codes}
use infernet_protocol.Common.Maps.{lookup, insert}
use infernet_protocol.Auth.Envelope.{
  Runtime, Envelope, bad_nonce, ok, err, parse_auth_header, parse_envelope, guard, decoded,
  take_pubkey, take_created_at, take_nonce, take_sig, is_version, unsupported_version, >>=-eq-ok,
}
use infernet_protocol.Auth.ReplayCache.{ReplayCache, new, has, add, drop_first}
use infernet_protocol.Auth.Places.{length-insert-le, length-delete-le, All-insert, All-delete}

abbrev pub IsEntry : String × ℕ → Type 0
IsEntry (k, e) = (k ≢ "") × (0 < e)

-- The cache never outgrows its bound, and each entry has a nonce and an expiry.
pub record IsValid (c : ReplayCache) : Type 0 where
  pub room : length c.seen ≤ c.max
  pub entries : All IsEntry c.seen
  pub living : 0 < c.ttl_ms
  pub sized : 0 < c.max

pub new-IsValid : IsValid new
new-IsValid = omega arith

pub has-IsValid : (c : ReplayCache) (now : ℕ) (n : String) → IsValid c → IsValid (has c now n).0
unfolding has
has-IsValid c now n v =
    ground (arith, length-delete-le n c.seen, All-delete IsEntry n c.seen v.entries)

pub drop_first-room :
    (m : List (String × ℕ)) (most : ℕ)
    → All IsEntry m
    → 0 < most
    → length m ≤ most
    → (length (drop_first m) + 1 ≤ most) × All IsEntry (drop_first m)
unfolding drop_first
drop_first-room [] most h p l = (omega arith, tt)
drop_first-room ((k, e) ∷ m) most h p l = ground (arith, eq_iff k "")

pub lookup-timed :
    (k : String) (m : List (String × ℕ)) (e : ℕ) → All IsEntry m → lookup k m ≡ some e → 0 < e
unfolding lookup
lookup-timed k [] e h l = cc
lookup-timed k ((j, w) ∷ m) e h l = ground (arith, lookup-timed k m e h.1)

insert-IsValid :
    (c : ReplayCache) (m : List (String × ℕ)) (now : ℕ) (n : String)
    → n ≢ ""
    → IsValid c
    → length m + 1 ≤ c.max
    → All IsEntry m
    → IsValid (record c { seen = insert n (now + c.ttl_ms) m })
insert-IsValid c m now n d v l h = record {
  room = omega (arith, length-insert-le n (now + c.ttl_ms) m);
  entries = All-insert IsEntry n (now + c.ttl_ms) m h (d, omega (arith, v.living));
  living = v.living;
  sized = v.sized;
}

pub add-IsValid :
    (c : ReplayCache) (now : ℕ) (n : String) → n ≢ "" → IsValid c → IsValid (add c now n)
unfolding add
add-IsValid c now n d v = elim (Bool-cases (leb c.max (length c.seen))) [
  | inl full ↦
      let (l, h) = drop_first-room c.seen c.max v.entries v.sized v.room in
      rw full (insert-IsValid c (drop_first c.seen) now n d v l h)
  | inr room ↦ rw room (insert-IsValid c c.seen now n d v (ground arith) v.entries)
]

take_nonce-ne : (v : Js) (s : String) → take_nonce v ≡ ok s → s ≢ ""
unfolding take_nonce
take_nonce-ne (str t) s e q = elim (Bool-cases (units (codes t) == 0)) [
  | inl blank ↦ let failed : err bad_nonce ≡ ok s = rw blank at e in cc
  | inr text ↦
      let taken : ok t ≡ ok s = rw text at e in
      let empty : t ≡ "" = cc in
      let wrong : (units (codes "") == 0) ≡ false = rw empty at text in cc
]
take_nonce-ne undefined s e q = cc
take_nonce-ne _ s e q = cc

parse_envelope-nonce :
    (rt : Runtime) (h : String) (env : Envelope) → parse_envelope rt h ≡ ok env → env.nonce ≢ ""
unfolding parse_envelope
parse_envelope-nonce rt h env e =
    let (json, _, e1) = >>=-eq-ok (decoded (rt.decode_header h)) _ e in
    let (_, _, e2) = >>=-eq-ok (guard (is_version (member json "v")) unsupported_version) _ e1 in
    let (_, _, e3) = >>=-eq-ok (take_pubkey (member json "pubkey")) _ e2 in
    let (_, _, e4) = >>=-eq-ok (take_created_at (member json "created_at")) _ e3 in
    let (nonce, taken, e5) = >>=-eq-ok (take_nonce (member json "nonce")) _ e4 in
    let (_, _, e6) = >>=-eq-ok (take_sig (member json "sig")) _ e5 in
    let same : nonce ≡ env.nonce = cc in subst (λ s. s ≢ "") same (take_nonce-ne _ nonce taken)

pub parse-nonce :
    (rt : Runtime) (h : Option String) (env : Envelope)
    → parse_auth_header rt h ≡ ok env
    → env.nonce ≢ ""
unfolding parse_auth_header
parse-nonce rt none env e = cc
parse-nonce rt (some h) env e = ground (arith, parse_envelope-nonce rt h env)
