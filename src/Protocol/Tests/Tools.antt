-- ===== src/Protocol/Tests/Tools.antt =====
-- Tool approvals.
use oshioki.Base.{
  ◌≡◌, ◌↔◌, refl, Bool, true, Option, none, some, [], ◌∷◌, ◌++◌, get_or, ◌==◌, nat_has_eq,
  if◌then◌else◌,
}
use oshioki.Base.Int.{pos}
use oshioki.Base.Result.{ok}
use oshioki.Protocol.Cbor.{cbor_values_equal, claim, validate_cbor_value}
use oshioki.Protocol.External.{Bytes, External, Documented}
use oshioki.Protocol.Encoding.{
  encode_base64url, decode_base64url, decode_exact, valid_fingerprint, valid_id,
}
use oshioki.Protocol.Cose.{cose_p256_verifying_key}
use oshioki.Protocol.Device.{
  DevicePublicRecord, fingerprint_preimage, device_fingerprint, validate_key, validate_device,
  validate_config,
}
use oshioki.Protocol.Challenge.{tool_approve_domain, tool_deny_domain, tool_approval_challenge}
use oshioki.Protocol.Challenge.Separation.{IsCollision}
use oshioki.Protocol.Decision.{check_signature}
use oshioki.Protocol.Assertion.{outcome, check_client_data, check_authenticator_data}
use oshioki.Protocol.Tool.{
  Members, Json, boolean, string, object, end, member, is_strict, strict_json_value,
  client_data_from_value,
}
use oshioki.Protocol.Tool.Strict.{HasUniqueKeys, strict_json_value_iff}
use oshioki.Protocol.Tool.Request.{
  ToolApprovalRequest, codex, retains, validate_context, validate_tool_decision_timing,
  validate_tool_request, parse_tool_request_at,
}
use oshioki.Protocol.Tool.Decide.{
  ToolApprovalWebauthn, approve, deny, validate_tool_decision_shape, verify_webauthn_for_challenge,
  verify_tool_decision,
}
use oshioki.Protocol.Tool.Decided.{assertion_decides_once}
use oshioki.Protocol.Tool.CrossOrigin.{cross_origin_unread}
use oshioki.Protocol.Example.{
  zeros, zeros-IsBytes, encode, decode_from, digest, toy, toy-Documented, toy_device, toy_config,
  toy_auth_data,
}

-- The toy with a constant digest.
abbrev flat : External
flat = record toy { sha256 = λ bs. zeros 32 }

flat-Documented : Documented flat
flat-Documented = record {
  unpadded = toy-Documented.unpadded;
  decode_encode = toy-Documented.decode_encode;
  sha256_bytes = λ bs. zeros-IsBytes 32;
  sha256_length = λ bs. refl;
}

abbrev flat_device : DevicePublicRecord
flat_device = record (toy_device 1) { fingerprint = encode (zeros 16) }

abbrev client_data : Json
client_data = object (
    member "type" (string "webauthn.get") (
      member "challenge" (string (encode (zeros 32))) (member "origin" (string "https://a.b") end)))

-- A browser writes the flag last.
abbrev crossed_members : Members
crossed_members = member "type" (string "webauthn.get") (
    member "challenge" (string (encode (zeros 32)))
      (member "origin" (string "https://a.b") (member "crossOrigin" (boolean true) end)))

abbrev crossed : Json
crossed = object crossed_members

abbrev event : Json
event = object (
    member "hook_event_name" (string "PermissionRequest") (
      member "tool_name" (string "Bash")
        (member "tool_input" (string "ls") (member "cwd" (string "/") end))))

-- A text that starts with a zero is the client data, any other the native event.
abbrev from_slice : Bytes → Option Json
from_slice raw = some (if get_or raw 0 1 == 0 then client_data else event)

abbrev value_eq : Json → Json → Bool
value_eq u v = true

abbrev tool_request : ToolApprovalRequest
tool_request = record {
  message_type = "tool_approval_request";
  version = 3;
  request_id = "tool-1";
  nonce = encode (zeros 16);
  harness = codex;
  event = "PermissionRequest";
  tool_name = "Bash";
  tool_input = string "ls";
  cwd = "/";
  native_event_json = "{}";
  context = record {
    session_id = none;
    turn_id = none;
    agent_id = none;
    agent_type = none;
    permission_mode = none;
  };
  description = none;
  issued_at = pos 1000;
  expires_at = pos 1090;
}

abbrev from_value : Json → Option ToolApprovalRequest
from_value v = some tool_request

abbrev tool_assertion : ToolApprovalWebauthn
tool_assertion = record {
  version = 3;
  request_id = "tool-1";
  device_fingerprint = encode (zeros 16);
  credential_id = flat_device.credential_id;
  authenticator_data = encode toy_auth_data;
  client_data_json = encode (zeros 32);
  signature = encode (zeros 8);
}

approved :
    verify_tool_decision flat from_slice value_eq from_value
      (approve tool_assertion)
      (1 ∷ [])
      flat_device
      toy_config
      (pos 1010)
    ≡ ok (outcome 4 3)
unfolding verify_tool_decision verify_webauthn_for_challenge parse_tool_request_at
    validate_tool_request validate_context retains strict_json_value is_strict
    client_data_from_value validate_tool_decision_timing validate_tool_decision_shape
    check_client_data check_authenticator_data check_signature validate_config validate_device
    validate_key cose_p256_verifying_key decode_exact decode_base64url valid_fingerprint valid_id
    device_fingerprint fingerprint_preimage encode_base64url validate_cbor_value cbor_values_equal
    claim encode decode_from digest tool_approval_challenge outcome
approved = refl

denied :
    verify_tool_decision flat from_slice value_eq from_value
      (deny tool_assertion)
      (2 ∷ [])
      flat_device
      toy_config
      (pos 1020)
    ≡ ok (outcome 4 3)
unfolding verify_tool_decision verify_webauthn_for_challenge parse_tool_request_at
    validate_tool_request validate_context retains strict_json_value is_strict
    client_data_from_value validate_tool_decision_timing validate_tool_decision_shape
    check_client_data check_authenticator_data check_signature validate_config validate_device
    validate_key cose_p256_verifying_key decode_exact decode_base64url valid_fingerprint valid_id
    device_fingerprint fingerprint_preimage encode_base64url validate_cbor_value cbor_values_equal
    claim encode decode_from digest tool_approval_challenge outcome
denied = refl

assertion_decides_once_example :
    IsCollision flat.sha256 (tool_approve_domain ++ 1 ∷ []) (tool_deny_domain ++ 2 ∷ [])
assertion_decides_once_example =
    assertion_decides_once flat from_slice value_eq from_value flat-Documented tool_assertion
      (1 ∷ []) (2 ∷ []) flat_device flat_device toy_config toy_config (pos 1010) (pos 1020)
      (outcome 4 3) (outcome 4 3) approved denied

strict_json_value_iff_example :
    (strict_json_value from_slice (0 ∷ []) ≡ ok client_data)
    ↔ ((from_slice (0 ∷ []) ≡ some client_data) × HasUniqueKeys client_data)
strict_json_value_iff_example = strict_json_value_iff from_slice (0 ∷ []) client_data

crossed_strict : is_strict crossed ≡ true
unfolding is_strict
crossed_strict = refl

client_data_strict : is_strict client_data ≡ true
unfolding is_strict
client_data_strict = refl

zeros_decode : decode_base64url flat (encode (zeros 32)) ≡ ok (zeros 32)
unfolding decode_base64url encode decode_from
zeros_decode = refl

-- An assertion that a browser made across origins, and the same one without the flag.
cross_origin_unread_example :
    verify_webauthn_for_challenge flat
      (λ raw. some crossed)
      (encode toy_auth_data)
      (encode (zeros 32))
      (encode (zeros 8))
      (zeros 32)
      flat_device
      toy_config
    ≡ verify_webauthn_for_challenge flat
        (λ raw. some client_data)
        (encode toy_auth_data)
        (encode (zeros 32))
        (encode (zeros 8))
        (zeros 32)
        flat_device
        toy_config
cross_origin_unread_example =
    cross_origin_unread flat (λ raw. some crossed) (λ raw. some client_data) (encode toy_auth_data)
      (encode (zeros 32)) (encode (zeros 8)) (zeros 32) (zeros 32) flat_device toy_config
      crossed_members zeros_decode refl refl crossed_strict client_data_strict
