-- ===== src/Protocol/Enrollment/Ceremony.antt =====
-- protocol/src/enrollment_v1.rs, `verify_enrollment_v1`: from a submission to the record to pin.
use oshioki.Base.{ℕ, max, true, not, ◌||◌, [], ◌∷◌, length, bytes, ◌==◌, nat_has_eq}
use oshioki.Base.Result.{Result, ok, refuse, ok_or, ◌>>=◌, ◌>>◌}
use oshioki.Protocol.Error.{Error, bad_verdict, invalid_request, malformed_client_data}
use oshioki.Protocol.Cbor.{bytes_eq}
use oshioki.Protocol.External.{Bytes, External}
use oshioki.Protocol.Encoding.{encode_base64url, decode_base64url}
use oshioki.Protocol.Cose.{cose_p256_verifying_key}
use oshioki.Protocol.Device.{
  webauthn, DevicePublicRecord, HookConfig, version_v1, validate_config, validate_device,
  device_fingerprint,
}
use oshioki.Protocol.Enrollment.{WebauthnEnrollmentSubmission, validate_webauthn}
use oshioki.Protocol.Enrollment.Transcript.{
  registration_domain, proof_domain, transcript_domain, enrollment_hmac,
}
use oshioki.Protocol.Enrollment.Webauthn.{
  Attestation, parse_attestation, verify_assertion_data, check_ceremony,
}

-- The decoded fields of a submission, as the local variables of the source.
pub record Decoded : Type 0 where
  pub registration_client_data : Bytes
  pub attestation_object : Bytes
  pub proof_authenticator_data : Bytes
  pub proof_client_data : Bytes
  pub proof_signature : Bytes
  pub submitted_credential_id : Bytes
  pub box_public_key : Bytes
  pub api_token_hash : Bytes
  pub supplied_hmac : Bytes

module _ (x : External) where
  open x use {client_data_from_slice}

  unfoldable pub decode_submission : WebauthnEnrollmentSubmission → Result Error Decoded
  decode_submission s = do
    registration_client_data ← decode_base64url x s.registration_client_data_json
    attestation_object ← decode_base64url x s.attestation_object
    proof_authenticator_data ← decode_base64url x s.proof_authenticator_data
    proof_client_data ← decode_base64url x s.proof_client_data_json
    proof_signature ← decode_base64url x s.proof_signature
    submitted_credential_id ← decode_base64url x s.credential_id
    box_public_key ← decode_base64url x s.box_public_key
    api_token_hash ← decode_base64url x s.api_token_hash
    supplied_hmac ← decode_base64url x s.transcript_hmac
    ok (record {
      registration_client_data = registration_client_data;
      attestation_object = attestation_object;
      proof_authenticator_data = proof_authenticator_data;
      proof_client_data = proof_client_data;
      proof_signature = proof_signature;
      submitted_credential_id = submitted_credential_id;
      box_public_key = box_public_key;
      api_token_hash = api_token_hash;
      supplied_hmac = supplied_hmac;
    })

  -- The MAC over all fields of the submission but the MAC itself.
  unfoldable pub submission_hmac : Bytes → WebauthnEnrollmentSubmission → Decoded → Bytes
  submission_hmac secret s d = enrollment_hmac x secret transcript_domain (
      bytes s.enrollment_id
      ∷ d.registration_client_data
      ∷ d.attestation_object
      ∷ d.proof_authenticator_data
      ∷ d.proof_client_data
      ∷ d.proof_signature
      ∷ d.submitted_credential_id
      ∷ d.box_public_key
      ∷ d.api_token_hash
      ∷ bytes s.label
      ∷ [])

  -- The record that a browser's enrollment pins.
  unfoldable pub enrolled_record :
      WebauthnEnrollmentSubmission → Decoded → Attestation → (proof_count : ℕ) → DevicePublicRecord
  enrolled_record s d a proof_count = record {
    version = version_v1;
    kind = webauthn;
    fingerprint = device_fingerprint x a.credential_id a.cose_key d.box_public_key;
    credential_id = encode_base64url x a.credential_id;
    credential_public_key = encode_base64url x a.cose_key;
    box_public_key = encode_base64url x d.box_public_key;
    label = s.label;
    api_token_hash = encode_base64url x d.api_token_hash;
    sign_count = max proof_count a.count;
    active = true;
  }

  -- The registration: its client data and its attestation.
  unfoldable pub verify_registration : Decoded → Bytes → HookConfig → Result Error Attestation
  verify_registration d secret config = do
    registration ← ok_or (client_data_from_slice d.registration_client_data) malformed_client_data
    check_ceremony x registration "webauthn.create" config
        (enrollment_hmac x secret registration_domain [])
    attestation ← parse_attestation x d.attestation_object config.rp_id
    refuse (not (bytes_eq attestation.credential_id d.submitted_credential_id)) bad_verdict
    ok attestation

  -- The proof: an assertion by the new credential over the fields of the record.
  unfoldable pub verify_proof :
      WebauthnEnrollmentSubmission → Decoded → Attestation → Bytes → HookConfig → Result Error ℕ
  verify_proof s d a secret config = do
    key ← cose_p256_verifying_key x a.cose_key
    proof ← ok_or (client_data_from_slice d.proof_client_data) malformed_client_data
    let expected =
        enrollment_hmac x secret proof_domain
          (a.credential_id ∷ d.box_public_key ∷ d.api_token_hash ∷ bytes s.label ∷ [])
    check_ceremony x proof "webauthn.get" config expected
    verify_assertion_data x d.proof_authenticator_data d.proof_client_data d.proof_signature
        config.rp_id key

  unfoldable pub verify_enrollment :
      WebauthnEnrollmentSubmission → Bytes → HookConfig → Result Error DevicePublicRecord
  verify_enrollment s secret config = do
    validate_config config
    validate_webauthn x s
    d ← decode_submission s
    refuse
        (not (length secret == 32)
          || not (length d.box_public_key == 32)
          || not (length d.api_token_hash == 32))
        invalid_request
    refuse (not (bytes_eq (submission_hmac secret s d) d.supplied_hmac)) bad_verdict
    attestation ← verify_registration d secret config
    proof_count ← verify_proof s d attestation secret config
    let device = enrolled_record s d attestation proof_count
    validate_device x device
    ok device
