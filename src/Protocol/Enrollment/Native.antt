-- ===== src/Protocol/Enrollment/Native.antt =====
-- protocol/src/native_v1.rs: the enrollment of a device that holds a P-256 key outside any browser.
use oshioki.Base.{true, not, List, [], ◌∷◌, ◌++◌, String, bytes}
use oshioki.Base.Result.{Result, ok, refuse, ok_or, ◌>>=◌, ◌>>◌}
use oshioki.Protocol.Error.{Error, bad_verdict, invalid_request, invalid_signature}
use oshioki.Protocol.Cbor.{bytes_eq}
use oshioki.Protocol.External.{Bytes, External}
use oshioki.Protocol.Encoding.{encode_base64url, decode_base64url}
use oshioki.Protocol.Cose.{sec1_p256_verifying_key}
use oshioki.Protocol.Device.{
  DeviceKind, software, secure_enclave, as_str, DevicePublicRecord, version_v1,
  native_credential_id, device_fingerprint, validate_device,
}
use oshioki.Protocol.Decision.{is_native}
use oshioki.Protocol.Enrollment.{NativeEnrollmentSubmission, validate_native}
use oshioki.Protocol.Enrollment.Transcript.{transcript_domain, enrollment_hmac}

abbrev pub native_proof_domain : Bytes
native_proof_domain = bytes "oshioki/enroll/native-proof/v1" ++ 0 ∷ []

module _ (x : External) where
  open x use {from_der, verify}

  unfoldable pub native_enrollment_proof :
      (secret credential_public_key box_public_key api_token_hash : Bytes) (label : String) → Bytes
  native_enrollment_proof secret credential_public_key box_public_key api_token_hash label =
      enrollment_hmac x secret native_proof_domain (
        native_credential_id x credential_public_key
        ∷ credential_public_key
        ∷ box_public_key
        ∷ api_token_hash
        ∷ bytes label
        ∷ [])

  unfoldable pub native_transcript_fields :
      NativeEnrollmentSubmission → DeviceKind → Result Error (List Bytes)
  native_transcript_fields s kind = do
    credential_public_key ← decode_base64url x s.credential_public_key
    box_public_key ← decode_base64url x s.box_public_key
    api_token_hash ← decode_base64url x s.api_token_hash
    proof_signature ← decode_base64url x s.proof_signature
    ok (
        bytes s.enrollment_id
        ∷ bytes (as_str kind)
        ∷ credential_public_key
        ∷ box_public_key
        ∷ api_token_hash
        ∷ bytes s.label
        ∷ proof_signature
        ∷ [])

  unfoldable pub native_transcript_hmac_for_kind :
      (secret : Bytes) → NativeEnrollmentSubmission → DeviceKind → Result Error Bytes
  native_transcript_hmac_for_kind secret s kind = do
    refuse (not (is_native kind)) invalid_request
    fields ← native_transcript_fields s kind
    ok (enrollment_hmac x secret transcript_domain fields)

  abbrev pub native_transcript_hmac : Bytes → NativeEnrollmentSubmission → Result Error Bytes
  native_transcript_hmac secret s = native_transcript_hmac_for_kind secret s secure_enclave

  -- The record that a native enrollment pins.
  unfoldable pub native_record :
      NativeEnrollmentSubmission
      → DeviceKind
      → (credential_public_key box_public_key : Bytes) → DevicePublicRecord
  native_record s kind credential_public_key box_public_key =
      let credential_id = native_credential_id x credential_public_key in
      record {
        version = version_v1;
        kind = kind;
        fingerprint = device_fingerprint x credential_id credential_public_key box_public_key;
        credential_id = encode_base64url x credential_id;
        credential_public_key = s.credential_public_key;
        box_public_key = s.box_public_key;
        label = s.label;
        api_token_hash = s.api_token_hash;
        sign_count = 0;
        active = true;
      }

  -- `verify_slice` compares the whole MAC.
  unfoldable pub verify_native_enrollment_for_kind :
      NativeEnrollmentSubmission → (secret : Bytes) → DeviceKind → Result Error DevicePublicRecord
  verify_native_enrollment_for_kind s secret kind = do
    validate_native x s
    credential_public_key ← decode_base64url x s.credential_public_key
    box_public_key ← decode_base64url x s.box_public_key
    api_token_hash ← decode_base64url x s.api_token_hash
    proof_signature ← decode_base64url x s.proof_signature
    supplied_hmac ← decode_base64url x s.transcript_hmac
    fields ← native_transcript_fields s kind
    refuse (not (bytes_eq (enrollment_hmac x secret transcript_domain fields) supplied_hmac))
        bad_verdict
    key ← sec1_p256_verifying_key x credential_public_key
    let proof =
        native_enrollment_proof secret credential_public_key box_public_key api_token_hash s.label
    signature ← ok_or (from_der proof_signature) invalid_signature
    refuse (not (verify key proof signature)) invalid_signature
    let device = native_record s kind credential_public_key box_public_key
    validate_device x device
    ok device

  abbrev pub verify_native_enrollment :
      NativeEnrollmentSubmission → Bytes → Result Error DevicePublicRecord
  verify_native_enrollment s secret = verify_native_enrollment_for_kind s secret secure_enclave

  abbrev pub verify_software_native_enrollment :
      NativeEnrollmentSubmission → Bytes → Result Error DevicePublicRecord
  verify_software_native_enrollment s secret = verify_native_enrollment_for_kind s secret software
