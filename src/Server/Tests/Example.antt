-- ===== src/Server/Tests/Example.antt =====
-- A device that enrolls, a request to it, and its denial. The writers of JSON are constant.
use oshioki.Base.{none, some, List, [], ◌∷◌}
use oshioki.Base.Int.{pos}
use oshioki.Protocol.Device.{DevicePublicRecord}
use oshioki.Protocol.Request.{RequestEnvelope, SealedDeviceBody}
use oshioki.Protocol.Decision.{Decision, deny}
use oshioki.Protocol.Enrollment.{EnrollmentSubmission, webauthn}
use oshioki.Protocol.Example.{zeros, encode, toy_device}
use oshioki.Server.Tables.{Codec}
use oshioki.Server.Calls.{
  Call, creates_enrollment, submits_enrollment, activates_enrollment, ingests_request,
  decides_request,
}

abbrev pub phone : DevicePublicRecord
phone = toy_device 1

abbrev pub submission : EnrollmentSubmission
submission = webauthn (record {
  version = 1;
  enrollment_id = "enr-1";
  registration_client_data_json = "";
  attestation_object = "";
  proof_authenticator_data = "";
  proof_client_data_json = "";
  proof_signature = "";
  credential_id = phone.credential_id;
  box_public_key = phone.box_public_key;
  api_token_hash = phone.api_token_hash;
  label = phone.label;
  transcript_hmac = "";
})

abbrev pub codec : Codec
codec = record {
  envelope_to_vec = λ e. some (1 ∷ []);
  auth_envelope_to_vec = λ e. some (2 ∷ []);
  tool_envelope_to_vec = λ e. some (3 ∷ []);
  body_to_vec = λ b. some (4 ∷ []);
  decision_to_vec = λ d. some (5 ∷ []);
  auth_decision_to_vec = λ d. some (6 ∷ []);
  tool_decision_to_vec = λ d. some (7 ∷ []);
  delivery_to_vec = λ d. some (8 ∷ []);
  tool_delivery_to_vec = λ d. some (9 ∷ []);
  submission_to_vec = λ s. some (10 ∷ []);
  submission_from_slice = λ bs. some submission;
  device_to_string = λ d. some "{}";
  device_from_str = λ s. some phone;
  push_payload_to_vec = λ lane id. some (11 ∷ []);
  json_kind = λ s. none;
}

abbrev pub sealed_body : SealedDeviceBody
sealed_body = record {
  device_fingerprint = phone.fingerprint;
  ephemeral_pub = encode (zeros 32);
  nonce = encode (zeros 12);
  ciphertext = encode (zeros 16);
}

abbrev pub envelope : RequestEnvelope
envelope = record {
  version = 1;
  request_id = "req-1";
  host = "host";
  user = "eric";
  issued_at = pos 1000;
  expires_at = pos 1090;
  sealed = sealed_body ∷ [];
}

abbrev pub denial : Decision
denial = deny (record {
  version = 1;
  request_id = "req-1";
  device_fingerprint = phone.fingerprint;
  signature = none;
})

abbrev pub submits : List Call
submits =
    creates_enrollment "enr-1" (zeros 32) (pos 2000) "reply" (pos 900)
    ∷ submits_enrollment "enr-1" submission (pos 910) (pos 910)
    ∷ []

abbrev pub enrolls : List Call
enrolls =
    creates_enrollment "enr-1" (zeros 32) (pos 2000) "reply" (pos 900)
    ∷ submits_enrollment "enr-1" submission (pos 910) (pos 910)
    ∷ activates_enrollment "enr-1" phone (pos 920) (pos 920)
    ∷ []

abbrev pub answers : List Call
answers =
    ingests_request (0 ∷ []) envelope (pos 1010) (pos 1010)
    ∷ decides_request "req-1" phone.fingerprint denial (pos 1020) (pos 1020)
    ∷ []
