-- ===== src/Auth/Sign.antt =====
-- packages/auth/src/signed-request.js: `signRequest`, the client's side of the envelope. Signing,
-- base64 with JSON, and the lower case of a text are parameters, the time and the random nonce
-- arguments.
use infernet_protocol.Common.{ℕ, ◌&&◌, Option, none, some, String, if◌then◌else◌}
use infernet_protocol.Common.Js.{pos, Js, str, num, obj, end, field}
use infernet_protocol.Auth.Envelope.{
  Runtime, Envelope, Request, envelope_version, is_hex64, canonical_string,
}

pub record Signer : Type 0 where
  pub schnorr_sign : String → String → String
  pub encode_header : Js → String
  pub to_lower_case : String → String

-- The object that the header holds.
unfoldable pub envelope_json : Envelope → Js
envelope_json e = obj (
    field "v" (num envelope_version) (
      field "pubkey" (str e.pubkey) (
        field "created_at" (num e.created_at)
          (field "nonce" (str e.nonce) (field "sig" (str e.sig) end)))))

module _ (rt : Runtime) (signer : Signer) where
  -- The envelope with its signature: the canonical string does not depend on the key and on the
  -- signature that stand in the first envelope.
  unfoldable pub signed_envelope : ℕ → String → Request → String → String → Envelope
  signed_envelope now nonce r private_key public_key =
      let unsigned : Envelope = record {
        pubkey = public_key;
        created_at = pos now;
        nonce = nonce;
        sig = "";
      } in
      record {
        pubkey = signer.to_lower_case public_key;
        created_at = pos now;
        nonce = nonce;
        sig = signer.schnorr_sign (canonical_string rt r unsigned) private_key;
      }

  -- `signRequest`: the header, or an exception for a key that is not 64 hex digits.
  unfoldable pub sign_request : ℕ → String → Request → String → String → Option String
  sign_request now nonce r private_key public_key =
      if is_hex64 (str private_key) && is_hex64 (str public_key)
      then some (
          signer.encode_header (envelope_json (signed_envelope now nonce r private_key public_key)))
      else none
