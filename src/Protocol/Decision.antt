-- ===== src/Protocol/Decision.antt =====
-- protocol/src/v1.rs: the decisions on a command request, the checks of their shape, and the
-- verification of a signed denial; protocol/src/native_v1.rs: the verification of a native approval.
pub mod Signed
use oshioki.Base.{
  ℕ, ◌*◌, Bool, true, not, ◌||◌, Option, none, some, String, len, length, ltb, ◌==◌, nat_has_eq,
  text_has_eq, within,
}
use oshioki.Base.Result.{Result, ok, err, refuse, ok_or, ◌>>=◌, ◌>>◌}
use oshioki.Protocol.Error.{Error, bad_verdict, invalid_signature}
use oshioki.Protocol.External.{Bytes, External}
use oshioki.Protocol.Encoding.{decode_base64url, valid_fingerprint, valid_id}
use oshioki.Protocol.Cose.{cose_p256_verifying_key, sec1_p256_verifying_key}
use oshioki.Protocol.Device.{
  DeviceKind, webauthn, software, secure_enclave, kind_eq, DevicePublicRecord, version_v1,
  validate_device,
}
use oshioki.Protocol.Challenge.{approve_challenge, deny_challenge}

pub record ApproveNative : Type 0 where
  pub version : ℕ
  pub request_id : String
  pub device_fingerprint : String
  pub signature : String

pub record Approve : Type 0 where
  pub version : ℕ
  pub request_id : String
  pub device_fingerprint : String
  pub credential_id : String
  pub authenticator_data : String
  pub client_data_json : String
  pub signature : String

pub record Deny : Type 0 where
  pub version : ℕ
  pub request_id : String
  pub device_fingerprint : String
  pub signature : Option String

pub data Decision : Type 0 where
  approve : Approve → Decision
  approve_native : ApproveNative → Decision
  deny : Deny → Decision

abbrev pub is_native : DeviceKind → Bool
is_native kind = kind_eq kind software || kind_eq kind secure_enclave

module _ (x : External) where
  open x use {VerifyingKey, from_der, verify}

  unfoldable pub validate_native_shape : ApproveNative → Result Error (Unit {0})
  validate_native_shape a = do
    refuse
        (not (a.version == version_v1)
          || not (valid_id a.request_id)
          || not (valid_fingerprint x a.device_fingerprint))
        bad_verdict
    signature ← decode_base64url x a.signature
    refuse (not (within 8 256 (length signature))) bad_verdict

  unfoldable pub validate_approve_shape : Approve → Result Error (Unit {0})
  validate_approve_shape a = do
    authenticator_data ← decode_base64url x a.authenticator_data
    client_data ← decode_base64url x a.client_data_json
    signature ← decode_base64url x a.signature
    refuse
        (not (a.version == version_v1)
          || not (valid_id a.request_id)
          || not (valid_fingerprint x a.device_fingerprint))
        bad_verdict
    credential_id ← decode_base64url x a.credential_id
    refuse
        (length credential_id == 0
          || not (within 37 1024 (length authenticator_data))
          || length client_data == 0
          || ltb (16 * 1024) (length client_data)
          || not (within 8 256 (length signature)))
        bad_verdict

  -- The `if let Some(signature)` of `DenyV1::validate_shape`.
  validate_deny_signature : Option String → Result Error (Unit {0})
  validate_deny_signature none = ok tt
  validate_deny_signature (some signature) = do
    refuse (signature == "") bad_verdict
    decoded ← decode_base64url x signature
    ok tt

  unfoldable pub validate_deny_shape : Deny → Result Error (Unit {0})
  unfolding validate_deny_signature
  validate_deny_shape d = do
    refuse
        (not (d.version == version_v1)
          || not (valid_id d.request_id)
          || not (valid_fingerprint x d.device_fingerprint))
        bad_verdict
    validate_deny_signature d.signature

  -- Decoding a DER signature and verifying it over the message.
  unfoldable pub check_signature :
      VerifyingKey → (message : Bytes) → (signature : String) → Result Error (Unit {0})
  check_signature key message signature = do
    der ← decode_base64url x signature
    parsed ← ok_or (from_der der) invalid_signature
    refuse (not (verify key message parsed)) invalid_signature

  -- The `match device.kind` of `verify_deny_v1`.
  unfoldable pub device_key : DevicePublicRecord → Result Error VerifyingKey
  device_key device = do
    public_key ← decode_base64url x device.credential_public_key
    elim device.kind [
      | webauthn ↦ cose_p256_verifying_key x public_key
      | _ ↦ sec1_p256_verifying_key x public_key
    ]

  unfoldable pub verify_deny : Deny → DevicePublicRecord → Result Error (Unit {0})
  verify_deny denial device = do
    validate_device x device
    validate_deny_shape denial
    refuse (denial.request_id == "" || not (denial.device_fingerprint == device.fingerprint))
        bad_verdict
    signature ← ok_or denial.signature bad_verdict
    key ← device_key device
    check_signature key (deny_challenge x denial.request_id denial.device_fingerprint) signature

  unfoldable pub verify_native_approval :
      ApproveNative → (raw_request_json : Bytes) → DevicePublicRecord → Result Error (Unit {0})
  verify_native_approval approval raw_request_json device = do
    validate_device x device
    validate_native_shape approval
    refuse (not (is_native device.kind) || not (approval.device_fingerprint == device.fingerprint))
        bad_verdict
    public_key ← decode_base64url x device.credential_public_key
    key ← sec1_p256_verifying_key x public_key
    check_signature key (approve_challenge x raw_request_json) approval.signature
