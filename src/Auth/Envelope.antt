-- ===== src/Auth/Envelope.antt =====
-- packages/auth/src/signed-request.js and keys.js: the signed request envelope, its parsing and its
-- verification. Base64, JSON, hashing and Schnorr signatures are the parameters of `Runtime`.
use infernet_protocol.Common.{
  ℕ, ◌+◌, ◌-◌, ◌≡◌, refl, ◌⊎◌, inl, inr, Bool, true, false, ◌&&◌, ◌||◌, Option, none, some, String,
  str_eq, leb, ◌==◌, if◌then◌else◌, length, all,
}
use infernet_protocol.Common.Js.{ℤ, pos, negsuc, Js, str, num, member, codes, units}
use Prim.Native.String

pub data AuthError : Type 0 where
  missing_header invalid_envelope unsupported_version bad_pubkey bad_created_at : AuthError
  bad_nonce bad_sig outside_window bad_signature nonce_used : AuthError

pub data Result {ℓ} (A : Type ℓ) : Type ℓ where
  err : AuthError → Result A
  ok : A → Result A

infixl 5 ◌>>=◌ ◌>>◌
abbrev pub ◌>>=◌ {ℓ κ} : {A : Type ℓ} {B : Type κ} → Result A → (A → Result B) → Result B
err reason >>= next = err reason
ok value >>= next = next value

abbrev pub ◌>>◌ {ℓ} : {B : Type ℓ} → Result (Unit {0}) → Result B → Result B
check >> next = check >>= λ _. next

-- Inversion of a successful chain.
pub >>=-eq-ok {ℓ κ} :
    {A : Type ℓ} {B : Type κ} (first : Result A) (next : A → Result B) {last : B}
    → (first >>= next) ≡ ok last
    → (value : A) × (first ≡ ok value) × (next value ≡ ok last)
>>=-eq-ok (err reason) next h = cc
>>=-eq-ok (ok value) next h = (value, refl, h)

pub Result-cases {ℓ} :
    {A : Type ℓ} (m : Result A) → ((x : AuthError) × (m ≡ err x)) ⊎ ((a : A) × (m ≡ ok a))
Result-cases (err x) = inl (x, refl)
Result-cases (ok a) = inr (a, refl)

abbrev pub guard : Bool → AuthError → Result (Unit {0})
guard true e = ok tt
guard false e = err e

-- What the module takes from @noble, Buffer, JSON and the language's text functions.
pub record Runtime : Type 0 where
  pub decode_header : String → Option Js
  pub sha256_hex : String → String
  pub schnorr_verify : String → String → String → Bool
  pub to_upper_case : String → String
  pub show_number : ℤ → String

pub record Envelope : Type 0 where
  pub pubkey : String
  pub created_at : ℤ
  pub nonce : String
  pub sig : String

pub record Request : Type 0 where
  pub method : String
  pub path : String
  pub body : String
  pub header : Option String

abbrev pub envelope_version : ℤ
envelope_version = pos 1

abbrev pub replay_window_seconds : ℕ
replay_window_seconds = 60

-- /[0-9a-fA-F]/
abbrev pub is_hex : ℕ → Bool
is_hex c = (leb b'0' c && leb c b'9') || (leb b'a' c && leb c b'f') || (leb b'A' c && leb c b'F')

unfoldable pub is_hex64 : Js → Bool
is_hex64 (str s) = length (codes s) == 64 && all is_hex (codes s)
is_hex64 _ = false

unfoldable pub is_version : Js → Bool
is_version (num (pos n)) = n == 1
is_version _ = false

-- The checks of `parseAuthHeader` that yield a field, in the order of the source.
unfoldable pub take_pubkey : Js → Result String
unfolding is_hex64
take_pubkey (str s) = if is_hex64 (str s) then ok s else err bad_pubkey
take_pubkey _ = err bad_pubkey

unfoldable pub take_created_at : Js → Result ℤ
take_created_at (num n) = ok n
take_created_at _ = err bad_created_at

unfoldable pub take_nonce : Js → Result String
take_nonce (str s) = if units (codes s) == 0 then err bad_nonce else ok s
take_nonce _ = err bad_nonce

unfoldable pub take_sig : Js → Result String
take_sig (str s) = if units (codes s) == 128 then ok s else err bad_sig
take_sig _ = err bad_sig

abbrev pub decoded : Option Js → Result Js
decoded none = err invalid_envelope
decoded (some v) = ok v

-- |now - created_at|
abbrev pub skew : ℕ → ℤ → ℕ
skew now (pos c) = if leb c now then now - c else c - now
skew now (negsuc c) = now + c + 1

module _ (rt : Runtime) where
  -- `parseAuthHeader` on a header that is there.
  unfoldable pub parse_envelope : String → Result Envelope
  parse_envelope header = do
    json ← decoded (rt.decode_header header)
    guard (is_version (member json "v")) unsupported_version
    pubkey ← take_pubkey (member json "pubkey")
    created_at ← take_created_at (member json "created_at")
    nonce ← take_nonce (member json "nonce")
    sig ← take_sig (member json "sig")
    ok (record { pubkey = pubkey; created_at = created_at; nonce = nonce; sig = sig })

  -- `!headerValue` holds of the empty text too.
  unfoldable pub parse_auth_header : Option String → Result Envelope
  parse_auth_header none = err missing_header
  parse_auth_header (some h) = if str_eq h "" then err missing_header else parse_envelope h

  unfoldable pub canonical_string : Request → Envelope → String
  canonical_string r e = String.◌++◌ (rt.to_upper_case r.method) (
      String.◌++◌ "\n" (
        String.◌++◌ r.path (
          String.◌++◌ "\n" (
            String.◌++◌ (rt.show_number e.created_at)
              (String.◌++◌ "\n" (String.◌++◌ e.nonce (String.◌++◌ "\n" (rt.sha256_hex r.body))))))))

  -- `verifySignedRequest`; `now` is in seconds.
  unfoldable pub verify_signed_request : ℕ → Request → Result Envelope
  verify_signed_request now r = do
    env ← parse_auth_header r.header
    guard (leb (skew now env.created_at) replay_window_seconds) outside_window
    guard (rt.schnorr_verify (canonical_string r env) env.sig env.pubkey) bad_signature
    ok env
