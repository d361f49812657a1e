-- ===== src/Auth/RoundTrip.antt =====
-- A request that packages/auth signs, at the gate of apps/web.
use infernet_protocol.Common.{
  ℕ, ◌/◌, ◌≤◌, ◌≡◌, ◌≢◌, refl, sym, Bool, true, false, ◌&&◌, Option, none, some, String, str_eq,
  eq_iff, ◌==◌, le→leb, if◌then◌else◌, arith,
}
use infernet_protocol.Common.Js.{pos, str, codes, units}
use infernet_protocol.Auth.Envelope.{
  Runtime, Envelope, Request, ok, is_hex64, is_version, take_pubkey, take_created_at, take_nonce,
  take_sig, parse_envelope, parse_auth_header, canonical_string, verify_signed_request, skew,
}
use infernet_protocol.Auth.ReplayCache.{ReplayCache, has}
use infernet_protocol.Auth.Gate.{Clock, verify_signed_next_request, admit}
use infernet_protocol.Auth.Sign.{Signer, signed_envelope, envelope_json, sign_request}

-- What signing, base64 and JSON do with the header of one request.
pub record Works (rt : Runtime) (signer : Signer) (now : ℕ) (nonce : String) (r : Request)
    (private_key public_key : String) : Type 0 where
  pub decodes :
      rt.decode_header (
        signer.encode_header
          (envelope_json (signed_envelope rt signer now nonce r private_key public_key)))
      ≡ some (envelope_json (signed_envelope rt signer now nonce r private_key public_key))
  pub verifies :
      (message : String)
      → rt.schnorr_verify message
          (signer.schnorr_sign message private_key)
          (signer.to_lower_case public_key)
        ≡ true
  pub sig_size : (message : String) → units (codes (signer.schnorr_sign message private_key)) ≡ 128
  pub key_lower : is_hex64 (str (signer.to_lower_case public_key)) ≡ true
  pub header_full :
      signer.encode_header
        (envelope_json (signed_envelope rt signer now nonce r private_key public_key))
      ≢ ""
  pub nonce_full : units (codes nonce) ≢ 0

parse-envelope_json :
    (rt : Runtime) (h : String) (e : Envelope)
    → h ≢ ""
    → rt.decode_header h ≡ some (envelope_json e)
    → is_hex64 (str e.pubkey) ≡ true
    → units (codes e.nonce) ≢ 0
    → units (codes e.sig) ≡ 128
    → parse_auth_header rt (some h) ≡ ok e
unfolding parse_auth_header parse_envelope is_version take_pubkey take_created_at take_nonce
    take_sig envelope_json
parse-envelope_json rt h e full decodes hex nonce sig =
    let text : str_eq h "" ≡ false = ground (arith, eq_iff h "") in
    let some_nonce : units (codes e.nonce) == 0 ≡ false = ground arith in
    let whole_sig : units (codes e.sig) == 128 ≡ true = ground arith in
    rw (text, decodes, hex, some_nonce, whole_sig) refl

made_header :
    (b : Bool) (h header : String)
    → ◌≡◌ {A = Option String} (if b then some h else none) (some header)
    → h ≡ header
made_header true h header e = cc
made_header false h header e = cc

verified :
    (rt : Runtime) (now : ℕ) (r : Request) (e : Envelope)
    → parse_auth_header rt r.header ≡ ok e
    → skew now e.created_at ≤ 60
    → rt.schnorr_verify (canonical_string rt r e) e.sig e.pubkey ≡ true
    → verify_signed_request rt now r ≡ ok e
unfolding verify_signed_request
verified rt now r e parsed soon good = rw (parsed, le→leb _ _ soon, good) refl

admitted :
    (rt : Runtime) (c : ReplayCache) (clock : Clock) (r : Request) (e : Envelope)
    → verify_signed_request rt (clock.at_verify / 1000) r ≡ ok e
    → (has c clock.at_has e.nonce).1 ≡ false
    → (verify_signed_next_request rt c clock r).1 ≡ ok (record { pubkey = e.pubkey; body = r.body })
unfolding verify_signed_next_request admit
admitted rt c clock r e good new = rw (good, new) refl

-- A header that `signRequest` makes is accepted by the gate for the same method, path and body,
-- with the signer's key in lower case, at most 60 seconds later or earlier by the server's clock,
-- if the cache does not hold its nonce and the key, the signature, base64 and JSON work as they
-- should.
pub sign_request-accepted :
    (rt : Runtime) (signer : Signer) (now : ℕ) (nonce : String) (r : Request)
    (private_key public_key header : String) (c : ReplayCache) (clock : Clock)
    → Works rt signer now nonce r private_key public_key
    → sign_request rt signer now nonce r private_key public_key ≡ some header
    → r.header ≡ some header
    → skew (clock.at_verify / 1000) (pos now) ≤ 60
    → (has c clock.at_has nonce).1 ≡ false
    → (verify_signed_next_request rt c clock r).1
      ≡ ok (record { pubkey = signer.to_lower_case public_key; body = r.body })
unfolding sign_request signed_envelope canonical_string
sign_request-accepted rt signer now nonce r private_key public_key header c clock w made sent soon
      new =
    let e = signed_envelope rt signer now nonce r private_key public_key in
    let same : signer.encode_header (envelope_json e) ≡ header =
      made_header (is_hex64 (str private_key) && is_hex64 (str public_key)) _ header made in
    let parsed : parse_auth_header rt r.header ≡ ok e =
      rw (sent, sym same)
        (parse-envelope_json rt _ e w.header_full w.decodes w.key_lower w.nonce_full
          (w.sig_size _)) in
    admitted rt c clock r e (verified rt (clock.at_verify / 1000) r e parsed soon (w.verifies _))
      new
