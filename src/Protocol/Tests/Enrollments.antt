-- ===== src/Protocol/Tests/Enrollments.antt =====
-- Enrollments.
use oshioki.Base.{◌≡◌, refl, List, [], ◌∷◌, arith, bytes}
use oshioki.Base.Result.{ok}
use oshioki.Protocol.Cbor.{cbor_values_equal, claim, validate_cbor_value}
use oshioki.Protocol.External.{Bytes}
use oshioki.Protocol.Encoding.{
  encode_base64url, decode_base64url, decode_exact, valid_fingerprint, valid_id,
}
use oshioki.Protocol.Cose.{decode_cbor_value, cose_p256_verifying_key}
use oshioki.Protocol.Device.{
  DevicePublicRecord, fingerprint_preimage, device_fingerprint, validate_key, validate_device,
  validate_config,
}
use oshioki.Protocol.Enrollment.{WebauthnEnrollmentSubmission, validate_webauthn}
use oshioki.Protocol.Enrollment.Transcript.{
  registration_domain, proof_domain, transcript_message, enrollment_hmac, transcript_message_inj,
}
use oshioki.Protocol.Enrollment.Webauthn.{
  parse_auth_data, parse_attestation, verify_assertion_data, check_ceremony,
}
use oshioki.Protocol.Enrollment.Ceremony.{
  Decoded, decode_submission, submission_hmac, enrolled_record, verify_registration, verify_proof,
  verify_enrollment,
}
use oshioki.Protocol.Enrollment.Pinned.{IsEnrolled, verify_enrollment-IsEnrolled}
use oshioki.Protocol.Example.{
  zeros, encode, decode_from, digest, toy, toy_device, toy_config, toy_auth_data,
}

abbrev toy_decoded : Decoded
toy_decoded = record {
  registration_client_data = 7 ∷ enrollment_hmac toy (zeros 32) registration_domain [];
  attestation_object = 1 ∷ [];
  proof_authenticator_data = toy_auth_data;
  proof_client_data =
      enrollment_hmac toy (zeros 32) proof_domain
        ((1 ∷ []) ∷ zeros 32 ∷ zeros 32 ∷ bytes "phone" ∷ []);
  proof_signature = zeros 8;
  submitted_credential_id = 1 ∷ [];
  box_public_key = zeros 32;
  api_token_hash = zeros 32;
  supplied_hmac = zeros 32;
}

-- The submission, with any MAC.
abbrev unsigned_submission : WebauthnEnrollmentSubmission
unsigned_submission = record {
  version = 1;
  enrollment_id = "enroll-1";
  registration_client_data_json = encode toy_decoded.registration_client_data;
  attestation_object = encode (1 ∷ []);
  proof_authenticator_data = encode toy_auth_data;
  proof_client_data_json = encode toy_decoded.proof_client_data;
  proof_signature = encode (zeros 8);
  credential_id = encode (1 ∷ []);
  box_public_key = encode (zeros 32);
  api_token_hash = encode (zeros 32);
  label = "phone";
  transcript_hmac = "";
}

abbrev toy_submission : WebauthnEnrollmentSubmission
toy_submission = record unsigned_submission {
  transcript_hmac = encode (submission_hmac toy (zeros 32) unsigned_submission toy_decoded);
}

-- The browser device 1, with the counter of its authenticator data.
abbrev toy_enrolled : DevicePublicRecord
toy_enrolled = record (toy_device 1) { sign_count = 4 }

enrollment_accepted : verify_enrollment toy toy_submission (zeros 32) toy_config ≡ ok toy_enrolled
unfolding verify_enrollment verify_registration verify_proof enrolled_record submission_hmac
    decode_submission check_ceremony parse_attestation parse_auth_data verify_assertion_data
    enrollment_hmac transcript_message validate_webauthn validate_config validate_device
    validate_key decode_cbor_value cose_p256_verifying_key decode_exact decode_base64url
    valid_fingerprint device_fingerprint fingerprint_preimage encode_base64url validate_cbor_value
    cbor_values_equal claim encode decode_from digest valid_id
enrollment_accepted = refl

verify_enrollment-IsEnrolled_example :
    IsEnrolled toy toy_submission (zeros 32) toy_config toy_enrolled
verify_enrollment-IsEnrolled_example =
    verify_enrollment-IsEnrolled toy toy_submission (zeros 32) toy_config toy_enrolled
      enrollment_accepted

abbrev two_fields : List Bytes
two_fields = (2 ∷ 3 ∷ []) ∷ (4 ∷ []) ∷ []

transcript_message_inj_example : two_fields ≡ two_fields
transcript_message_inj_example =
    transcript_message_inj two_fields two_fields refl (omega arith) (omega arith) refl
