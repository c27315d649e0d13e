-- ===== src/Protocol/Auth/Verify.antt =====
-- protocol/src/auth_v1.rs: the decisions on a sudo authentication and their verification.
use oshioki.Base.{
  ℕ, ◌*◌, Bool, not, ◌&&◌, ◌||◌, Option, List, String, length, ltb, retain, ◌==◌, nat_has_eq,
  text_has_eq, within,
}
use oshioki.Base.Int.{ℤ}
use oshioki.Base.Result.{Result, refuse, ◌>>=◌, ◌>>◌}
use oshioki.Protocol.Error.{Error, bad_verdict}
use oshioki.Protocol.External.{Bytes, External}
use oshioki.Protocol.Encoding.{decode_base64url, valid_fingerprint, valid_id}
use oshioki.Protocol.Cose.{sec1_p256_verifying_key}
use oshioki.Protocol.Device.{
  webauthn, secure_enclave, kind_eq, DevicePublicRecord, DeviceRegistry, HookConfig,
  validate_config, validate_device,
}
use oshioki.Protocol.Challenge.{auth_challenge}
use oshioki.Protocol.Decision.{check_signature}
use oshioki.Protocol.Assertion.{AssertionOutcome, verify_assertion}
use oshioki.Protocol.Auth.{AuthRequest, auth_wire_version, parse_auth_request_at}

pub record AuthApproveNative : Type 0 where
  pub version : ℕ
  pub request_id : String
  pub device_fingerprint : String
  pub signature : String

pub record AuthApproveWebauthn : Type 0 where
  pub version : ℕ
  pub request_id : String
  pub device_fingerprint : String
  pub credential_id : String
  pub authenticator_data : String
  pub client_data_json : String
  pub signature : String

pub data AuthDecision : Type 0 where
  authenticate_native : AuthApproveNative → AuthDecision
  authenticate_webauthn : AuthApproveWebauthn → AuthDecision

unfoldable pub is_hardware_auth_device : DevicePublicRecord → Bool
is_hardware_auth_device device = kind_eq device.kind webauthn || kind_eq device.kind secure_enclave

unfoldable pub hardware_auth_recipients : DeviceRegistry → List DevicePublicRecord
hardware_auth_recipients registry =
    retain (λ (d : DevicePublicRecord). d.active && is_hardware_auth_device d) registry.devices

module _ (x : External) where
  unfoldable pub validate_auth_native_shape : AuthApproveNative → Result Error (Unit {0})
  validate_auth_native_shape a = do
    refuse
        (not (a.version == auth_wire_version)
          || not (valid_id a.request_id)
          || not (valid_fingerprint x a.device_fingerprint))
        bad_verdict
    signature ← decode_base64url x a.signature
    refuse (not (within 8 256 (length signature))) bad_verdict

  unfoldable pub validate_auth_webauthn_shape : AuthApproveWebauthn → Result Error (Unit {0})
  validate_auth_webauthn_shape a = do
    authenticator_data ← decode_base64url x a.authenticator_data
    client_data ← decode_base64url x a.client_data_json
    signature ← decode_base64url x a.signature
    refuse
        (not (a.version == auth_wire_version)
          || not (valid_id a.request_id)
          || not (valid_fingerprint x a.device_fingerprint))
        bad_verdict
    credential_id ← decode_base64url x a.credential_id
    refuse
        (length credential_id == 0
          || not (within 37 1024 (length authenticator_data))
          || length client_data == 0
          || ltb (16 * 1024) (length client_data)
          || not (within 8 256 (length signature)))
        bad_verdict

  abbrev pub validate_auth_decision_shape : AuthDecision → Result Error (Unit {0})
  validate_auth_decision_shape (authenticate_native a) = validate_auth_native_shape a
  validate_auth_decision_shape (authenticate_webauthn a) = validate_auth_webauthn_shape a

  module _ (from_slice : Bytes → Option AuthRequest) where
    unfoldable pub verify_native_authentication :
        AuthApproveNative
        → (raw_auth_request_json : Bytes) → DevicePublicRecord
        → (now : ℤ) → Result Error (Unit {0})
    verify_native_authentication approval raw_auth_request_json device now = do
      request ← parse_auth_request_at x from_slice raw_auth_request_json now
      validate_auth_native_shape approval
      validate_device x device
      refuse
          (not (kind_eq device.kind secure_enclave)
            || not (approval.device_fingerprint == device.fingerprint)
            || not (approval.request_id == request.request_id))
          bad_verdict
      public_key ← decode_base64url x device.credential_public_key
      key ← sec1_p256_verifying_key x public_key
      check_signature x key (auth_challenge x raw_auth_request_json) approval.signature

    unfoldable pub verify_webauthn_authentication :
        AuthApproveWebauthn
        → (raw_auth_request_json : Bytes) → DevicePublicRecord
        → HookConfig
        → (now : ℤ) → Result Error AssertionOutcome
    verify_webauthn_authentication approval raw_auth_request_json device config now = do
      request ← parse_auth_request_at x from_slice raw_auth_request_json now
      validate_config config
      validate_auth_webauthn_shape approval
      validate_device x device
      refuse
          (not (kind_eq device.kind webauthn)
            || not (approval.device_fingerprint == device.fingerprint)
            || not (approval.credential_id == device.credential_id)
            || not (approval.request_id == request.request_id))
          bad_verdict
      verify_assertion x (auth_challenge x raw_auth_request_json) approval.client_data_json
          approval.authenticator_data approval.signature device config
