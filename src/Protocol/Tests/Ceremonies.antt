-- ===== src/Protocol/Tests/Ceremonies.antt =====
-- Decisions, assertions, authentications and enrollments.
use oshioki.Base.{◌≡◌, ◌↔◌, refl, Option, none, some, [], ◌∷◌, ◌++◌, String, drop}
use oshioki.Base.Int.{pos}
use oshioki.Base.Result.{ok}
use oshioki.Protocol.Cbor.{cbor_values_equal, claim, validate_cbor_value}
use oshioki.Protocol.External.{Bytes}
use oshioki.Protocol.Encoding.{
  encode_base64url, decode_base64url, decode_exact, valid_fingerprint, valid_id,
}
use oshioki.Protocol.Cose.{cose_p256_verifying_key}
use oshioki.Protocol.Device.{
  fingerprint_preimage, device_fingerprint, validate_key, validate_device, validate_config,
}
use oshioki.Protocol.Challenge.{
  challenge_domain, auth_challenge_domain, approve_challenge, auth_challenge,
}
use oshioki.Protocol.Challenge.Separation.{IsCollision}
use oshioki.Protocol.Timing.{validate_request_timing}
use oshioki.Protocol.Decision.{Deny, Approve, check_signature, verify_deny}
use oshioki.Protocol.Decision.Signed.{IsDenied, verify_deny_iff}
use oshioki.Protocol.Assertion.{
  outcome, sign_count_of, check_client_data, check_authenticator_data, verify_assertion,
  verify_approval,
}
use oshioki.Protocol.Auth.{
  AuthRequest, available, validate_trusted, validate_invocation, validate_invocation_strings,
  validate_submitted, validate_auth_request, validate_auth_request_at, parse_auth_request_at,
}
use oshioki.Protocol.Auth.Verify.{
  AuthApproveWebauthn, hardware_auth_recipients, validate_auth_webauthn_shape,
  verify_webauthn_authentication,
}
use oshioki.Protocol.Auth.Hardware.{
  IsAuthenticated, IsSelection, assertion_serves_one_lane, hardware_auth_recipients-IsSelection,
  verify_webauthn_authentication-IsAuthenticated,
}
use oshioki.Protocol.Auth.Envelope.{
  AuthEnvelope, OpenedAuthRequest, validate_auth_sealed, validate_auth_envelope,
  validate_auth_envelope_at, open_sealed, open_for_device,
}
use oshioki.Protocol.Auth.Opened.{IsOpened, open_for_device_iff}
use oshioki.Protocol.Seal.{unseal}
use oshioki.Protocol.Assertion.Verified.{IsAsserted, verify_assertion_iff}
use oshioki.Protocol.Example.{
  zeros, encode, decode_from, digest, toy, toy-Documented, toy_device, toy_registry, toy_config,
  toy_auth_data,
}

abbrev toy_denial : Deny
toy_denial = record {
  version = 1;
  request_id = "req-1";
  device_fingerprint = (toy_device 1).fingerprint;
  signature = some (encode (zeros 8));
}

verify_deny_iff_example :
    (verify_deny toy toy_denial (toy_device 1) ≡ ok tt) ↔ IsDenied toy toy_denial (toy_device 1)
verify_deny_iff_example = verify_deny_iff toy toy_denial (toy_device 1)

-- The toy digest drops 20 bytes, so this authentication and this approval have one challenge.
abbrev auth_raw : Bytes
auth_raw = 9 ∷ []

abbrev approve_raw : Bytes
approve_raw = 0 ∷ drop 20 auth_challenge_domain ++ auth_raw

abbrev client_data : String
client_data = encode (auth_challenge toy auth_raw)

abbrev toy_approval : Approve
toy_approval = record {
  version = 1;
  request_id = "req-1";
  device_fingerprint = (toy_device 1).fingerprint;
  credential_id = (toy_device 1).credential_id;
  authenticator_data = encode toy_auth_data;
  client_data_json = client_data;
  signature = encode (zeros 8);
}

abbrev toy_auth_approval : AuthApproveWebauthn
toy_auth_approval = record {
  version = 2;
  request_id = "req-1";
  device_fingerprint = (toy_device 1).fingerprint;
  credential_id = (toy_device 1).credential_id;
  authenticator_data = encode toy_auth_data;
  client_data_json = client_data;
  signature = encode (zeros 8);
}

abbrev toy_auth_request : AuthRequest
toy_auth_request = record {
  message_type = "sudo_authentication_request";
  version = 2;
  request_id = "req-1";
  nonce = encode (zeros 16);
  issued_at = pos 1000;
  expires_at = pos 1090;
  trusted = record {
    host = "host";
    service = "sudo";
    pam_user = "eric";
    pam_uid = 1000;
    invoking_uid = 1000;
    invoking_user = some "eric";
    tty = none;
  };
  submitted = record { session = none; agent_label = none; invocation = available "apt" [] "/" };
}

abbrev toy_from_slice : Bytes → Option AuthRequest
toy_from_slice raw = some toy_auth_request

approval_accepted :
    verify_approval toy toy_approval approve_raw (toy_device 1) toy_config ≡ ok (outcome 4 3)
unfolding verify_approval verify_assertion check_client_data check_authenticator_data
    check_signature validate_config validate_device validate_key cose_p256_verifying_key
    decode_exact decode_base64url valid_fingerprint device_fingerprint fingerprint_preimage
    encode_base64url validate_cbor_value cbor_values_equal claim encode decode_from digest
    approve_challenge auth_challenge outcome
approval_accepted = refl

authentication_accepted :
    verify_webauthn_authentication toy toy_from_slice toy_auth_approval auth_raw
      (toy_device 1)
      toy_config
      (pos 1010)
    ≡ ok (outcome 4 3)
unfolding verify_webauthn_authentication verify_assertion check_client_data check_authenticator_data
    check_signature validate_config validate_device validate_key cose_p256_verifying_key
    decode_exact decode_base64url valid_fingerprint device_fingerprint fingerprint_preimage
    encode_base64url validate_cbor_value cbor_values_equal claim encode decode_from digest
    auth_challenge outcome parse_auth_request_at validate_auth_request_at validate_auth_request
    validate_trusted validate_submitted validate_invocation validate_invocation_strings
    validate_request_timing validate_auth_webauthn_shape valid_id
authentication_accepted = refl

assertion_serves_one_lane_example :
    IsCollision toy.sha256 (challenge_domain ++ approve_raw) (auth_challenge_domain ++ auth_raw)
assertion_serves_one_lane_example =
    assertion_serves_one_lane toy toy_from_slice toy-Documented toy_approval toy_auth_approval
      approve_raw auth_raw (toy_device 1) (toy_device 1) toy_config toy_config (pos 1010)
      (outcome 4 3) (outcome 4 3) refl approval_accepted authentication_accepted

verify_assertion_iff_example :
    (verify_assertion toy
        (auth_challenge toy auth_raw)
        client_data
        (encode toy_auth_data)
        (encode (zeros 8))
        (toy_device 1)
        toy_config
      ≡ ok (outcome 4 3))
    ↔ ((a : IsAsserted toy
          (auth_challenge toy auth_raw)
          client_data
          (encode toy_auth_data)
          (encode (zeros 8))
          (toy_device 1)
          toy_config)
        × (outcome 4 3 ≡ outcome (sign_count_of a.auth_data) 3))
verify_assertion_iff_example =
    verify_assertion_iff toy (auth_challenge toy auth_raw) client_data (encode toy_auth_data)
      (encode (zeros 8)) (toy_device 1) toy_config (outcome 4 3)

verify_webauthn_authentication-IsAuthenticated_example :
    IsAuthenticated toy toy_from_slice toy_auth_approval auth_raw
      (toy_device 1)
      toy_config
      (pos 1010)
      (outcome 4 3)
verify_webauthn_authentication-IsAuthenticated_example =
    verify_webauthn_authentication-IsAuthenticated toy toy_from_slice toy_auth_approval auth_raw
      (toy_device 1) toy_config (pos 1010) (outcome 4 3) authentication_accepted

hardware_auth_recipients-IsSelection_example :
    IsSelection toy_registry.devices (hardware_auth_recipients toy_registry)
hardware_auth_recipients-IsSelection_example = hardware_auth_recipients-IsSelection toy_registry

abbrev toy_envelope : AuthEnvelope
toy_envelope = record {
  message_type = "sudo_authentication";
  version = 2;
  request_id = "req-1";
  host = "host";
  issued_at = pos 1000;
  expires_at = pos 1090;
  sealed =
      record {
        device_fingerprint = (toy_device 1).fingerprint;
        ephemeral_pub = encode (zeros 32);
        nonce = encode (zeros 12);
        ciphertext = encode (zeros 16 ++ auth_raw);
      }
      ∷ [];
}

abbrev toy_to_vec : AuthEnvelope → Option Bytes
toy_to_vec e = some []

abbrev toy_opened : OpenedAuthRequest
toy_opened = record { request = toy_auth_request; raw = auth_raw }

envelope_opens :
    open_for_device toy toy_to_vec toy_from_slice toy_envelope
      (toy_device 1).fingerprint
      (zeros 32)
      (pos 1010)
    ≡ ok (some toy_opened)
unfolding open_for_device open_sealed unseal validate_auth_envelope_at validate_auth_envelope
    validate_auth_sealed valid_fingerprint decode_exact decode_base64url encode decode_from digest
    device_fingerprint encode_base64url fingerprint_preimage parse_auth_request_at
    validate_auth_request_at validate_auth_request validate_trusted validate_submitted
    validate_invocation validate_invocation_strings validate_request_timing valid_id
envelope_opens = refl

open_for_device_iff_example :
    (open_for_device toy toy_to_vec toy_from_slice toy_envelope
        (toy_device 1).fingerprint
        (zeros 32)
        (pos 1010)
      ≡ ok (some toy_opened))
    ↔ IsOpened toy toy_to_vec toy_from_slice toy_envelope
        (toy_device 1).fingerprint
        (zeros 32)
        (pos 1010)
        toy_opened
open_for_device_iff_example =
    open_for_device_iff toy toy_to_vec toy_from_slice toy_envelope (toy_device 1).fingerprint
      (zeros 32) (pos 1010) toy_opened
