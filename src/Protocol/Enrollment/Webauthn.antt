-- ===== src/Protocol/Enrollment/Webauthn.antt =====
-- protocol/src/enrollment_v1.rs: the enrollment of a browser's authenticator.
use oshioki.Base.{
  ℕ, ◌+◌, ◌/◌, ◌%◌, Bool, not, ◌||◌, Option, none, some, ◌++◌, String, length, take, drop, get_or,
  bytes, ltb, leb, ◌==◌, nat_has_eq, text_has_eq, u16_from_be_bytes, if◌then◌else◌,
}
use oshioki.Base.Result.{Result, ok, err, refuse, ok_or, ◌>>=◌, ◌>>◌}
use oshioki.Protocol.Error.{
  Error, bad_verdict, invalid_signature, malformed_authenticator_data, bad_challenge, bad_rp_id,
  missing_user_presence, missing_user_verification,
}
use oshioki.Protocol.Cbor.{Value, byte_string, text, table, Entries, end, entry, bytes_eq}
use oshioki.Protocol.External.{Bytes, ClientData, External}
use oshioki.Protocol.Cose.{
  max_attestation_cbor_bytes, max_cose_cbor_bytes, decode_cbor_value, cose_p256_verifying_key,
}
use oshioki.Protocol.Device.{HookConfig}
use oshioki.Protocol.Assertion.{user_present, user_verified, sign_count_of}

-- The variables `format` and `auth_data` of `parse_attestation`.
pub record AttestationFields : Type 0 where
  pub format : Option String
  pub auth_data : Option Bytes

-- One round of the loop over the map's entries.
read_field : AttestationFields → (key value : Value) → AttestationFields
read_field f (text k) (text v) = if k == "fmt" then record f { format = some v } else f
read_field f (text k) (byte_string v) =
    if k == "authData" then record f { auth_data = some v } else f
read_field f _ _ = f

read_fields : AttestationFields → Entries → AttestationFields
read_fields f end = f
read_fields f (entry k v es) = read_fields (read_field f k v) es

abbrev is_none_format : Option String → Bool
is_none_format none = Bool.false
is_none_format (some f) = f == "none"

-- `flags & 0x40`: the attested credential data is there.
abbrev pub has_credential : Bytes → Bool
has_credential auth_data = get_or auth_data 32 0 / 64 % 2 == 1

-- What `parse_attestation` returns: the credential id, the COSE key and the counter.
pub record Attestation : Type 0 where
  pub credential_id : Bytes
  pub cose_key : Bytes
  pub count : ℕ

module _ (x : External) where
  open x use {
    b64_encode, sha256, client_data_from_slice, cbor_into_writer, VerifyingKey, from_der, verify,
  }

  -- The part of `parse_attestation` behind the lookup of the two fields.
  unfoldable pub parse_auth_data : Bytes → (rp_id : String) → Result Error Attestation
  parse_auth_data auth_data rp_id = do
    refuse (ltb (length auth_data) 55 || not (bytes_eq (take 32 auth_data) (sha256 (bytes rp_id))))
        bad_rp_id
    refuse (not (user_present auth_data)) missing_user_presence
    refuse (not (user_verified auth_data)) missing_user_verification
    refuse (not (has_credential auth_data)) malformed_authenticator_data
    let credential_len = u16_from_be_bytes (take 2 (drop 53 auth_data))
    let credential_end = 55 + credential_len
    refuse (leb (length auth_data) credential_end) malformed_authenticator_data
    let credential_id = take credential_len (drop 55 auth_data)
    cose_value ←
        ok_or (decode_cbor_value x (drop credential_end auth_data) max_cose_cbor_bytes)
          malformed_authenticator_data
    cose ← ok_or (cbor_into_writer cose_value) malformed_authenticator_data
    key ← cose_p256_verifying_key x cose
    ok (record { credential_id = credential_id; cose_key = cose; count = sign_count_of auth_data })

  attestation_of_value : Value → (rp_id : String) → Result Error Attestation
  unfolding read_fields read_field
  attestation_of_value (table entries) rp_id = do
    let f = read_fields (record { format = none; auth_data = none }) entries
    refuse (not (is_none_format f.format)) bad_verdict
    auth_data ← ok_or f.auth_data malformed_authenticator_data
    parse_auth_data auth_data rp_id
  attestation_of_value _ rp_id = err malformed_authenticator_data

  unfoldable pub parse_attestation : Bytes → (rp_id : String) → Result Error Attestation
  unfolding attestation_of_value
  parse_attestation attestation_object rp_id = do
    value ←
        ok_or (decode_cbor_value x attestation_object max_attestation_cbor_bytes)
          malformed_authenticator_data
    attestation_of_value value rp_id

  unfoldable pub verify_assertion_data :
      (authenticator_data client_data_json signature : Bytes) (rp_id : String)
      → VerifyingKey
      → Result Error ℕ
  verify_assertion_data authenticator_data client_data_json signature rp_id key = do
    refuse
        (ltb (length authenticator_data) 37
          || not (bytes_eq (take 32 authenticator_data) (sha256 (bytes rp_id))))
        bad_rp_id
    refuse (not (user_present authenticator_data)) missing_user_presence
    refuse (not (user_verified authenticator_data)) missing_user_verification
    parsed ← ok_or (from_der signature) invalid_signature
    refuse (not (verify key (authenticator_data ++ sha256 client_data_json) parsed))
        invalid_signature
    ok (sign_count_of authenticator_data)

  -- The tests on the client data of the registration and of the proof.
  unfoldable pub check_ceremony :
      ClientData → (type_ : String) → HookConfig → (challenge : Bytes) → Result Error (Unit {0})
  check_ceremony c type_ config challenge =
      refuse
        (not (c.type_ == type_)
          || not (c.origin == config.origin)
          || c.cross_origin
          || not (c.challenge == b64_encode challenge))
        bad_challenge
