-- ===== src/Protocol/Tool/Decide.antt =====
-- protocol/src/tool_v1.rs: the envelope of a tool approval, the decision on it, and its verification.
use oshioki.Base.{
  ℕ, ◌*◌, not, ◌||◌, Bool, Option, List, [], ◌∷◌, ◌++◌, String, length, ltb, ◌==◌, nat_has_eq,
  text_has_eq, within,
}
use oshioki.Base.Int.{ℤ}
use oshioki.Base.Result.{Result, ok, refuse, is_err, ok_or, ◌>>=◌, ◌>>◌}
use oshioki.Protocol.Error.{Error, bad_verdict, invalid_request, malformed_client_data}
use oshioki.Protocol.External.{Bytes, External}
use oshioki.Protocol.Encoding.{decode_base64url, decode_exact, valid_fingerprint, valid_id}
use oshioki.Protocol.Cose.{cose_p256_verifying_key}
use oshioki.Protocol.Device.{
  webauthn, kind_eq, DevicePublicRecord, HookConfig, max_devices, validate_config, validate_device,
}
use oshioki.Protocol.Challenge.{ToolDecisionAction, tool_approval_challenge}
use oshioki.Protocol.Challenge as challenge
use oshioki.Protocol.Timing.{validate_request_timing}
use oshioki.Protocol.Decision.{check_signature}
use oshioki.Protocol.Assertion.{
  AssertionOutcome, outcome, sign_count_of, check_client_data, check_authenticator_data,
}
use oshioki.Protocol.Request.{SealedDeviceBody, max_envelope_bytes}
use oshioki.Protocol.Seal.{unseal}
use oshioki.Protocol.Tool.{Json, strict_json_value, client_data_from_value}
use oshioki.Protocol.Tool.Request.{
  ToolApprovalRequest, tool_wire_version, tool_envelope_type, parse_tool_request_at,
}

-- `ToolSealedBodyV1` has the fields of `SealedDeviceBodyV1`, and stands for it here.
abbrev pub ToolSealedBody : Type 0
ToolSealedBody = SealedDeviceBody

pub record ToolApprovalEnvelope : Type 0 where
  pub message_type : String
  pub version : ℕ
  pub request_id : String
  pub issued_at : ℤ
  pub expires_at : ℤ
  pub sealed : List ToolSealedBody

pub record ToolApprovalWebauthn : Type 0 where
  pub version : ℕ
  pub request_id : String
  pub device_fingerprint : String
  pub credential_id : String
  pub authenticator_data : String
  pub client_data_json : String
  pub signature : String

pub data ToolApprovalDecision : Type 0 where
  approve : ToolApprovalWebauthn → ToolApprovalDecision
  deny : ToolApprovalWebauthn → ToolApprovalDecision

abbrev pub assertion : ToolApprovalDecision → ToolApprovalWebauthn
assertion (approve a) = a
assertion (deny a) = a

abbrev pub action : ToolApprovalDecision → ToolDecisionAction
action (approve a) = challenge.approve
action (deny a) = challenge.deny

module _ (x : External) where
  open x use {sha256}

  -- The loop over the bodies of the envelope.
  unfoldable pub validate_tool_sealed : List ToolSealedBody → Result Error (Unit {0})
  validate_tool_sealed [] = ok tt
  validate_tool_sealed (body ∷ bodies) = do
    refuse
        (not (valid_fingerprint x body.device_fingerprint)
          || is_err (decode_exact x body.ephemeral_pub 32)
          || is_err (decode_exact x body.nonce 12))
        invalid_request
    ciphertext ← decode_base64url x body.ciphertext
    refuse (ltb (length ciphertext) 16) invalid_request
    validate_tool_sealed bodies

  unfoldable pub validate_tool_envelope_at :
      (to_vec : ToolApprovalEnvelope → Option Bytes)
      → ToolApprovalEnvelope
      → (now : ℤ) → Result Error (Unit {0})
  validate_tool_envelope_at to_vec e now = do
    refuse
        (not (e.message_type == tool_envelope_type)
          || not (e.version == tool_wire_version)
          || not (valid_id e.request_id)
          || length e.sealed == 0
          || ltb max_devices (length e.sealed))
        invalid_request
    validate_tool_sealed e.sealed
    bytes ← ok_or (to_vec e) invalid_request
    refuse (ltb max_envelope_bytes (length bytes)) invalid_request
    validate_request_timing e.issued_at e.expires_at now

  unfoldable pub unseal_tool_body : ToolSealedBody → (box_secret : Bytes) → Result Error Bytes
  unseal_tool_body body box_secret = unseal x body box_secret

  unfoldable pub validate_tool_decision_shape : ToolApprovalWebauthn → Result Error (Unit {0})
  validate_tool_decision_shape a = do
    auth_data ← decode_base64url x a.authenticator_data
    client_data ← decode_base64url x a.client_data_json
    signature ← decode_base64url x a.signature
    refuse
        (not (a.version == tool_wire_version)
          || not (valid_id a.request_id)
          || not (valid_fingerprint x a.device_fingerprint))
        bad_verdict
    credential_id ← decode_base64url x a.credential_id
    refuse
        (length credential_id == 0
          || not (within 37 1024 (length auth_data))
          || length client_data == 0
          || ltb (16 * 1024) (length client_data)
          || not (within 8 256 (length signature)))
        bad_verdict

  module _ (from_slice : Bytes → Option Json) where
    unfoldable pub verify_webauthn_for_challenge :
        (authenticator_data client_data_json signature : String) (expected_challenge : Bytes)
        → DevicePublicRecord
        → HookConfig
        → Result Error AssertionOutcome
    verify_webauthn_for_challenge authenticator_data client_data_json signature expected device
          config =
        do
          validate_config config
          json ← decode_base64url x client_data_json
          value ← strict_json_value from_slice json
          client_data ← ok_or (client_data_from_value value) malformed_client_data
          check_client_data x client_data config expected
          auth_data ← decode_base64url x authenticator_data
          check_authenticator_data x auth_data config
          public_key ← decode_base64url x device.credential_public_key
          key ← cose_p256_verifying_key x public_key
          check_signature x key (auth_data ++ sha256 json) signature
          ok (outcome (sign_count_of auth_data) device.sign_count)

    unfoldable pub verify_tool_decision :
        (value_eq : Json → Json → Bool) (from_value : Json → Option ToolApprovalRequest)
        → ToolApprovalDecision
        → (raw_request_json : Bytes) → DevicePublicRecord
        → HookConfig
        → (now : ℤ) → Result Error AssertionOutcome
    verify_tool_decision value_eq from_value decision raw_request_json device config now = do
      request ← parse_tool_request_at x from_slice value_eq from_value raw_request_json now
      validate_tool_decision_shape (assertion decision)
      validate_device x device
      let a = assertion decision
      refuse
          (not (kind_eq device.kind webauthn)
            || not (a.device_fingerprint == device.fingerprint)
            || not (a.credential_id == device.credential_id)
            || not (a.request_id == request.request_id))
          bad_verdict
      verify_webauthn_for_challenge a.authenticator_data a.client_data_json a.signature
          (tool_approval_challenge x (action decision) raw_request_json) device config
