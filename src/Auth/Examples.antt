-- ===== src/Auth/Examples.antt =====
-- Tests of the signed requests of packages/auth and apps/web, on a runtime that takes each signature.
use infernet_protocol.Common.{
  ℕ, ◌≡◌, ◌≢◌, refl, subst, true, false, some, [], String, str_eq, if◌then◌else◌, arith,
}
use infernet_protocol.Common.Js.{ℤ, pos, Js, str, num, obj, end, field}
use infernet_protocol.Common.Maps.{lookup}
use infernet_protocol.Auth.Envelope.{
  Runtime, Request, Envelope, ok, verify_signed_request, parse_auth_header, parse_envelope,
  is_version, is_hex64, take_pubkey, take_created_at, take_nonce, take_sig,
}
use infernet_protocol.Auth.ReplayCache.{new, has}
use infernet_protocol.Auth.Gate.{Accepted, admit, verify_signed_next_request, serve}
use infernet_protocol.Auth.Validity.{IsValid, new-IsValid}
use infernet_protocol.Auth.Sign.{Signer, signed_envelope, envelope_json, sign_request}
use infernet_protocol.Auth.RoundTrip.{Works, sign_request-accepted}
use infernet_protocol.Auth.Replay.{
  SignedBy, tick, replay_rejected, replay_gap, verify_signed_next_request-IsValid,
}

abbrev key : String
key = "0123456789abcdef0123456789abcdef0123456789abcdef0123456789abcdef"

abbrev signature : String
signature =
    "0123456789abcdef0123456789abcdef0123456789abcdef0123456789abcdef0123456789abcdef0123456789abcdef0123456789abcdef0123456789abcdef"

abbrev signed_at : ℤ → Js
signed_at t = obj (
    field "v" (num (pos 1)) (
      field "pubkey" (str key)
        (field "created_at" (num t) (field "nonce" (str "n1") (field "sig" (str signature) end)))))

-- The header "ahead" was signed a minute ahead of second 1000, any other one at second 1000.
abbrev runtime : Runtime
runtime = record {
  decode_header =
      λ h. if str_eq h "ahead" then some (signed_at (pos 1060)) else some (signed_at (pos 1000));
  sha256_hex = λ s. s;
  schnorr_verify = λ m s k. true;
  to_upper_case = λ s. s;
  show_number = λ n. "0";
}

abbrev request : String → Request
request header = record {
  method = "POST";
  path = "/api/v1/node/heartbeat";
  body = "{}";
  header = some header;
}

abbrev accepted : Accepted
accepted = record { pubkey = key; body = "{}" }

abbrev envelope : ℕ → Envelope
envelope t = record { pubkey = key; created_at = pos t; nonce = "n1"; sig = signature }

parsed_now : parse_auth_header runtime (some "now") ≡ ok (envelope 1000)
unfolding parse_auth_header parse_envelope is_version is_hex64 take_pubkey take_created_at
    take_nonce take_sig
parsed_now = refl

parsed_ahead : parse_auth_header runtime (some "ahead") ≡ ok (envelope 1060)
unfolding parse_auth_header parse_envelope is_version is_hex64 take_pubkey take_created_at
    take_nonce take_sig
parsed_ahead = refl

first_accepted :
    (verify_signed_next_request runtime new (tick 1000000) (request "now")).1 ≡ ok accepted
unfolding verify_signed_next_request admit verify_signed_request has lookup
first_accepted = rw parsed_now refl

ahead_accepted :
    (verify_signed_next_request runtime new (tick 1000000) (request "ahead")).1 ≡ ok accepted
unfolding verify_signed_next_request admit verify_signed_request has lookup
ahead_accepted = rw parsed_ahead refl

signed_in_time :
    (env : Envelope) → parse_auth_header runtime (some "now") ≡ ok env → pos 1000 ≡ env.created_at
signed_in_time env h = cc (parsed_now, h)

in_time :
    (env : Envelope)
    → parse_auth_header runtime (some "now") ≡ ok env
    → SignedBy env.created_at 1058
in_time env h = subst (λ t. SignedBy t 1058) (signed_in_time env h) (omega arith)

replay_rejected_example :
    (verify_signed_next_request runtime
      (serve runtime (verify_signed_next_request runtime new (tick 1000000) (request "now")).0 [])
      (tick 1030000)
      (request "now")).1
    ≢ ok accepted
replay_rejected_example =
    replay_rejected runtime new (tick 1000000) (tick 1030000) (request "now") (request "now")
      accepted accepted [] new-IsValid refl first_accepted refl in_time (omega arith) tt
      (omega arith) (omega arith)

replay_gap_example :
    (verify_signed_next_request runtime
      (verify_signed_next_request runtime new (tick 1000000) (request "ahead")).0
      (tick 1120001)
      (request "ahead")).1
    ≡ ok accepted
replay_gap_example =
    replay_gap runtime new 1000 1 (request "ahead") accepted (envelope 1060) new-IsValid refl
      parsed_ahead refl (omega arith) (omega arith) ahead_accepted

verify_signed_next_request-IsValid_example :
    IsValid (verify_signed_next_request runtime new (tick 1000000) (request "now")).0
verify_signed_next_request-IsValid_example =
    verify_signed_next_request-IsValid runtime new (tick 1000000) (request "now") new-IsValid

abbrev signer : Signer
signer = record {
  schnorr_sign = λ m k. signature;
  encode_header = λ v. elim v [ Js.undefined ↦ "" | _ ↦ "now" ];
  to_lower_case = λ s. s;
}

now_full : ◌≢◌ {A = String} "now" ""
now_full = λ e. cc

signer-Works : Works runtime signer 1000 "n1" (request "now") key key
unfolding signed_envelope envelope_json is_hex64
signer-Works = record {
  decodes = refl;
  verifies = λ m. refl;
  sig_size = λ m. refl;
  key_lower = refl;
  header_full = now_full;
  nonce_full = λ e. cc;
}

made_now : sign_request runtime signer 1000 "n1" (request "now") key key ≡ some "now"
unfolding sign_request is_hex64 envelope_json
made_now = refl

unused : (has new 1000000 "n1").1 ≡ false
unfolding has lookup
unused = refl

sign_request-accepted_example :
    (verify_signed_next_request runtime new (tick 1000000) (request "now")).1 ≡ ok accepted
sign_request-accepted_example =
    sign_request-accepted runtime signer 1000 "n1" (request "now") key key "now" new (tick 1000000)
      signer-Works made_now refl (omega arith) unused
