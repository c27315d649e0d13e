-- ===== src/Protocol/Assertion.antt =====
-- protocol/src/webauthn_v1.rs, `verify_approval_v1`. What it does after the comparison with the pinned
-- record is `verify_assertion`, which `verify_webauthn_authentication_v1` of auth_v1.rs repeats line by
-- line with another challenge.
pub mod Verified
use oshioki.Base.{
  ℕ, ◌/◌, ◌%◌, Bool, not, ◌&&◌, ◌||◌, Option, ◌++◌, String, length, take, drop, get_or, bytes, ltb,
  leb, ◌==◌, nat_has_eq, text_has_eq, u32_from_be_bytes,
}
use oshioki.Base.Result.{Result, ok, refuse, ok_or, ◌>>=◌, ◌>>◌}
use oshioki.Protocol.Error.{
  Error, bad_verdict, malformed_client_data, unexpected_credential_type, bad_origin, bad_challenge,
  malformed_authenticator_data, bad_rp_id, missing_user_presence, missing_user_verification,
}
use oshioki.Protocol.Cbor.{bytes_eq}
use oshioki.Protocol.External.{Bytes, ClientData, External}
use oshioki.Protocol.Encoding.{decode_base64url}
use oshioki.Protocol.Cose.{cose_p256_verifying_key}
use oshioki.Protocol.Device.{
  webauthn, kind_eq, DevicePublicRecord, HookConfig, version_v1, validate_config, validate_device,
}
use oshioki.Protocol.Challenge.{approve_challenge}
use oshioki.Protocol.Decision.{Approve, check_signature}

pub record AssertionOutcome : Type 0 where
  pub observed_sign_count : ℕ
  pub counter_regressed : Bool

-- `flags & 0x01` and `flags & 0x04`, the flags being byte 32 of the authenticator data
abbrev pub user_present : Bytes → Bool
user_present auth_data = get_or auth_data 32 0 % 2 == 1

abbrev pub user_verified : Bytes → Bool
user_verified auth_data = get_or auth_data 32 0 / 4 % 2 == 1

-- `data[33..37]` as a big-endian `u32`
abbrev pub sign_count_of : Bytes → ℕ
sign_count_of auth_data = u32_from_be_bytes (take 4 (drop 33 auth_data))

unfoldable pub outcome : (observed stored : ℕ) → AssertionOutcome
outcome observed stored = record {
  observed_sign_count = observed;
  counter_regressed = ltb 0 observed && ltb 0 stored && leb observed stored;
}

module _ (x : External) where
  open x use {b64_encode, sha256, client_data_from_slice}

  -- The tests on the client data of an assertion.
  unfoldable pub check_client_data :
      ClientData → HookConfig → (challenge : Bytes) → Result Error (Unit {0})
  check_client_data client_data config challenge = do
    refuse (not (client_data.type_ == "webauthn.get")) unexpected_credential_type
    refuse (not (client_data.origin == config.origin) || client_data.cross_origin) bad_origin
    refuse (not (client_data.challenge == b64_encode challenge)) bad_challenge

  -- The tests on the authenticator data of an assertion.
  unfoldable pub check_authenticator_data : Bytes → HookConfig → Result Error (Unit {0})
  check_authenticator_data auth_data config = do
    refuse (ltb (length auth_data) 37) malformed_authenticator_data
    refuse (not (bytes_eq (take 32 auth_data) (sha256 (bytes config.rp_id)))) bad_rp_id
    refuse (not (user_present auth_data)) missing_user_presence
    refuse (not (user_verified auth_data)) missing_user_verification

  unfoldable pub verify_assertion :
      (challenge : Bytes) (client_data_json authenticator_data signature : String)
      → DevicePublicRecord
      → HookConfig
      → Result Error AssertionOutcome
  verify_assertion challenge client_data_json authenticator_data signature device config = do
    json ← decode_base64url x client_data_json
    client_data ← ok_or (client_data_from_slice json) malformed_client_data
    check_client_data client_data config challenge
    auth_data ← decode_base64url x authenticator_data
    check_authenticator_data auth_data config
    public_key ← decode_base64url x device.credential_public_key
    key ← cose_p256_verifying_key x public_key
    check_signature x key (auth_data ++ sha256 json) signature
    ok (outcome (sign_count_of auth_data) device.sign_count)

  unfoldable pub verify_approval :
      Approve
      → (raw_request_json : Bytes) → DevicePublicRecord
      → HookConfig
      → Result Error AssertionOutcome
  verify_approval approval raw_request_json device config = do
    validate_config config
    validate_device x device
    refuse
        (not (approval.version == version_v1)
          || approval.request_id == ""
          || not (kind_eq device.kind webauthn)
          || not (approval.device_fingerprint == device.fingerprint)
          || not (approval.credential_id == device.credential_id))
        bad_verdict
    verify_assertion (approve_challenge x raw_request_json) approval.client_data_json
        approval.authenticator_data approval.signature device config
