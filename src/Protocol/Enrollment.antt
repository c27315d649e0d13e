-- ===== src/Protocol/Enrollment.antt =====
-- protocol/src/v1.rs: the messages of an enrollment and the checks of their shape.
pub mod Transcript
pub mod Native
pub mod Webauthn
pub mod Ceremony
pub mod Checked
pub mod Pinned
use oshioki.Base.{
  ℕ, ◌*◌, Bool, not, ◌||◌, Option, none, some, List, ◌++◌, String, bytes, len, length, ltb, ◌==◌,
  nat_has_eq, text_has_eq, within, if◌then◌else◌,
}
use oshioki.Base.Int.{ℤ}
use oshioki.Base.Result.{Result, ok, err, refuse, is_err, ok_or, ◌>>=◌, ◌>>◌}
use oshioki.Protocol.Error.{Error, decode, invalid_request}
use oshioki.Protocol.Cbor.{bytes_eq}
use oshioki.Protocol.External.{External}
use oshioki.Protocol.Encoding.{decode_base64url, decode_exact, valid_id}
use oshioki.Protocol.Device.{DeviceKind, DevicePublicRecord, version_v1, as_str}
use oshioki.Protocol.Device as device

pub record EnrollmentIntent : Type 0 where
  pub version : ℕ
  pub enrollment_id : String
  pub secret_hash : String
  pub expires_at : ℤ
  pub reply_subject : String

-- `format!("oshioki.enrollment.submission.{}", id)`, in UTF-8
abbrev pub reply_subject : String → List ℕ
reply_subject id = bytes "oshioki.enrollment.submission." ++ bytes id

pub record NativeEnrollmentSubmission : Type 0 where
  pub version : ℕ
  pub enrollment_id : String
  pub credential_public_key : String
  pub box_public_key : String
  pub api_token_hash : String
  pub label : String
  pub proof_signature : String
  pub transcript_hmac : String

pub record WebauthnEnrollmentSubmission : Type 0 where
  pub version : ℕ
  pub enrollment_id : String
  pub registration_client_data_json : String
  pub attestation_object : String
  pub proof_authenticator_data : String
  pub proof_client_data_json : String
  pub proof_signature : String
  pub credential_id : String
  pub box_public_key : String
  pub api_token_hash : String
  pub label : String
  pub transcript_hmac : String

pub data EnrollmentSubmission : Type 0 where
  webauthn : WebauthnEnrollmentSubmission → EnrollmentSubmission
  software : NativeEnrollmentSubmission → EnrollmentSubmission
  secure_enclave : NativeEnrollmentSubmission → EnrollmentSubmission

pub record Activation : Type 0 where
  pub version : ℕ
  pub enrollment_id : String
  pub device : DevicePublicRecord

pub data EnrollmentStatus : Type 0 where
  pending active expired rejected : EnrollmentStatus

abbrev pub enrollment_id : EnrollmentSubmission → String
enrollment_id (webauthn s) = s.enrollment_id
enrollment_id (software s) = s.enrollment_id
enrollment_id (secure_enclave s) = s.enrollment_id

abbrev pub kind : EnrollmentSubmission → DeviceKind
kind (webauthn s) = device.webauthn
kind (software s) = device.software
kind (secure_enclave s) = device.secure_enclave

-- What `value.get("kind")` can be: a text, null, or another JSON value.
pub data KindField : Type 0 where
  string : String → KindField
  null other : KindField

-- The `match value.get("kind")` of the deserializer.
unfoldable pub submission_kind : Option KindField → Result Error DeviceKind
submission_kind none = ok device.webauthn
submission_kind (some null) = ok device.webauthn
submission_kind (some (string tag)) =
    if tag == as_str device.webauthn
    then ok device.webauthn
    else if tag == as_str device.software
    then ok device.software
    else if tag == as_str device.secure_enclave
    then ok device.secure_enclave
    else err decode
submission_kind (some other) = err decode

-- The two derived parsers of the variants' structs are parameters, over JSON values of type `Json`.
module _ {Json : Type 0} (get_kind : Json → Option KindField)
    (webauthn_from_value : Json → Option WebauthnEnrollmentSubmission)
    (native_from_value : Json → Option NativeEnrollmentSubmission) where
  unfoldable pub deserialize : Json → Result Error EnrollmentSubmission
  deserialize value = do
    tag ← submission_kind (get_kind value)
    elim tag [
      | device.webauthn ↦ do s ← ok_or (webauthn_from_value value) decode; ok (webauthn s)
      | device.software ↦ do s ← ok_or (native_from_value value) decode; ok (software s)
      | device.secure_enclave ↦ do s ← ok_or (native_from_value value) decode; ok (secure_enclave s)
    ]

module _ (x : External) where
  unfoldable pub validate_intent : EnrollmentIntent → Result Error (Unit {0})
  validate_intent i =
      refuse
        (not (i.version == version_v1)
          || not (valid_id i.enrollment_id)
          || is_err (decode_exact x i.secret_hash 32)
          || not (bytes_eq (bytes i.reply_subject) (reply_subject i.enrollment_id)))
        invalid_request

  unfoldable pub validate_native : NativeEnrollmentSubmission → Result Error (Unit {0})
  validate_native s = do
    refuse
        (not (s.version == version_v1)
          || not (valid_id s.enrollment_id)
          || is_err (decode_exact x s.credential_public_key 65)
          || is_err (decode_exact x s.box_public_key 32)
          || is_err (decode_exact x s.api_token_hash 32)
          || s.label == ""
          || ltb 128 (len s.label))
        invalid_request
    signature ← decode_base64url x s.proof_signature
    refuse (not (within 8 256 (length signature)) || is_err (decode_exact x s.transcript_hmac 32))
        invalid_request

  -- One disjunct `decode_base64url(..)?.len() > max`.
  bounded : String → (max : ℕ) → Result Error (Unit {0})
  bounded value max = do
    bytes ← decode_base64url x value
    refuse (ltb max (length bytes)) invalid_request

  unfoldable pub validate_webauthn : WebauthnEnrollmentSubmission → Result Error (Unit {0})
  unfolding bounded
  validate_webauthn s = do
    refuse (not (s.version == version_v1) || not (valid_id s.enrollment_id)) invalid_request
    bounded s.registration_client_data_json (16 * 1024)
    bounded s.attestation_object (128 * 1024)
    bounded s.proof_authenticator_data 1024
    bounded s.proof_client_data_json (16 * 1024)
    bounded s.proof_signature 256
    id ← decode_base64url x s.credential_id
    refuse (length id == 0) invalid_request
    bounded s.credential_id 1024
    refuse
        (is_err (decode_exact x s.box_public_key 32)
          || is_err (decode_exact x s.api_token_hash 32)
          || s.label == ""
          || ltb 128 (len s.label)
          || is_err (decode_exact x s.transcript_hmac 32))
        invalid_request

  unfoldable pub validate_submission : EnrollmentSubmission → Result Error (Unit {0})
  validate_submission (webauthn s) = validate_webauthn s
  validate_submission (software s) = validate_native s
  validate_submission (secure_enclave s) = validate_native s
