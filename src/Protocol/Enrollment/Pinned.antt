-- ===== src/Protocol/Enrollment/Pinned.antt =====
-- The checks behind an enrollment that `verify_enrollment_v1` accepts (protocol/src/enrollment_v1.rs), and
-- the record that it gives.
use oshioki.Base.{
  ℕ, max, not, ◌||◌, true, [], ◌∷◌, length, bytes, ◌==◌, nat_has_eq, text_has_eq, ◌≡◌, ap, ◌∙◌, sym,
  arith,
}
use oshioki.Base.Result.{ok, ok_or, >>=-eq-ok, refuse-eq-ok, ok_inj}
use oshioki.Protocol.Error.{bad_verdict, invalid_request, malformed_client_data}
use oshioki.Protocol.Cbor.{bytes_eq}
use oshioki.Protocol.Challenge.Separation.{bytes_eq_iff}
use oshioki.Protocol.External.{Bytes, External}
use oshioki.Protocol.Encoding.{encode_base64url}
use oshioki.Protocol.Cose.{cose_p256_verifying_key}
use oshioki.Protocol.Device.{
  webauthn, version_v1, DevicePublicRecord, HookConfig, device_fingerprint, validate_config,
  validate_device,
}
use oshioki.Protocol.Enrollment.{WebauthnEnrollmentSubmission, validate_webauthn}
use oshioki.Protocol.Enrollment.Transcript.{
  registration_domain, proof_domain, transcript_domain, enrollment_hmac,
}
use oshioki.Protocol.Enrollment.Webauthn.{
  Attestation, parse_attestation, verify_assertion_data, check_ceremony,
}
use oshioki.Protocol.Enrollment.Ceremony.{
  Decoded, decode_submission, submission_hmac, enrolled_record, verify_registration, verify_proof,
  verify_enrollment,
}
use oshioki.Protocol.Enrollment.Checked.{
  IsDecoded, IsCeremony, decode-IsDecoded, check_ceremony-IsCeremony, ok_or-eq-some,
}

module _ (x : External) where
  open x use {client_data_from_slice, b64_encode, VerifyingKey}

  -- Everything that stands behind a pinned browser record.
  pub record IsEnrolled (s : WebauthnEnrollmentSubmission) (secret : Bytes) (config : HookConfig)
      (device : DevicePublicRecord) : Type 0 where
    pub configured : validate_config config ≡ ok tt
    pub shape : validate_webauthn x s ≡ ok tt
    pub decoded : Decoded
    pub decodes : IsDecoded x s decoded
    pub secret_length : length secret ≡ 32
    pub box_length : length decoded.box_public_key ≡ 32
    pub token_length : length decoded.api_token_hash ≡ 32
    pub authentic :
        enrollment_hmac x secret transcript_domain (
          bytes s.enrollment_id
          ∷ decoded.registration_client_data
          ∷ decoded.attestation_object
          ∷ decoded.proof_authenticator_data
          ∷ decoded.proof_client_data
          ∷ decoded.proof_signature
          ∷ decoded.submitted_credential_id
          ∷ decoded.box_public_key
          ∷ decoded.api_token_hash
          ∷ bytes s.label
          ∷ [])
        ≡ decoded.supplied_hmac
    pub registration :
        IsCeremony x decoded.registration_client_data "webauthn.create" config
          (enrollment_hmac x secret registration_domain [])
    pub attestation : Attestation
    pub attested : parse_attestation x decoded.attestation_object config.rp_id ≡ ok attestation
    pub same_credential : attestation.credential_id ≡ decoded.submitted_credential_id
    pub key : VerifyingKey
    pub key_parsed : cose_p256_verifying_key x attestation.cose_key ≡ ok key
    pub proof : IsCeremony x decoded.proof_client_data "webauthn.get" config (
        enrollment_hmac x secret proof_domain (
          attestation.credential_id
          ∷ decoded.box_public_key
          ∷ decoded.api_token_hash
          ∷ bytes s.label
          ∷ []))
    pub proof_count : ℕ
    pub proved :
        verify_assertion_data x decoded.proof_authenticator_data decoded.proof_client_data
          decoded.proof_signature config.rp_id key
        ≡ ok proof_count
    pub record_is : device ≡ record {
      version = version_v1;
      kind = webauthn;
      fingerprint =
          device_fingerprint x attestation.credential_id attestation.cose_key
            decoded.box_public_key;
      credential_id = encode_base64url x attestation.credential_id;
      credential_public_key = encode_base64url x attestation.cose_key;
      box_public_key = encode_base64url x decoded.box_public_key;
      label = s.label;
      api_token_hash = encode_base64url x decoded.api_token_hash;
      sign_count = max proof_count attestation.count;
      active = true;
    }
    pub valid : validate_device x device ≡ ok tt

  -- An accepted browser enrollment had a valid configuration and shape; a secret, a box key and a token hash
  -- of 32 bytes; a transcript MAC under the secret over its id, its label and all eight decoded fields but
  -- the MAC; a registration at this origin over the challenge that the secret gives, with an attestation of
  -- the submitted credential; and a proof by that credential's key, at this origin, over the challenge made
  -- of the credential id, the box key, the token hash and the label. The record to pin holds these, and is
  -- valid.
  pub verify_enrollment-IsEnrolled :
      (s : WebauthnEnrollmentSubmission) (secret : Bytes) (config : HookConfig)
      (device : DevicePublicRecord)
      → verify_enrollment x s secret config ≡ ok device
      → IsEnrolled s secret config device
  unfolding verify_enrollment submission_hmac enrolled_record verify_registration verify_proof
  verify_enrollment-IsEnrolled s secret config device h =
      let (u, configured, h1) = >>=-eq-ok (validate_config config) _ h in
      let (u2, shape, h2) = >>=-eq-ok (validate_webauthn x s) _ h1 in
      let (d, decodes, h3) = >>=-eq-ok (decode_submission x s) _ h2 in
      let (lengths, h4) =
        refuse-eq-ok
          (not (length secret == 32)
            || not (length d.box_public_key == 32)
            || not (length d.api_token_hash == 32))
          invalid_request _ h3 in
      let (mac, h5) =
        refuse-eq-ok (not (bytes_eq (submission_hmac x secret s d) d.supplied_hmac)) bad_verdict _
          h4 in
      let (a, registered, h6) = >>=-eq-ok (verify_registration x d secret config) _ h5 in
      let (n, proved, h7) = >>=-eq-ok (verify_proof x s d a secret config) _ h6 in
      let (u3, valid, h8) = >>=-eq-ok (validate_device x (enrolled_record x s d a n)) _ h7 in
      let (c, read, r1) =
        >>=-eq-ok (ok_or (client_data_from_slice d.registration_client_data) malformed_client_data)
          _ registered in
      let (u4, checked, r2) =
        >>=-eq-ok
          (check_ceremony x c "webauthn.create" config
            (enrollment_hmac x secret registration_domain []))
          _ r1 in
      let (a', attested, r3) =
        >>=-eq-ok (parse_attestation x d.attestation_object config.rp_id) _ r2 in
      let (id, r4) =
        refuse-eq-ok (not (bytes_eq a'.credential_id d.submitted_credential_id)) bad_verdict _ r3 in
      let same_a = ok_inj r4 in
      let (key, parsed, p1) = >>=-eq-ok (cose_p256_verifying_key x a.cose_key) _ proved in
      let (c', read', p2) =
        >>=-eq-ok (ok_or (client_data_from_slice d.proof_client_data) malformed_client_data) _ p1 in
      let (u5, checked', p3) =
        >>=-eq-ok
          (check_ceremony x c' "webauthn.get" config (
            enrollment_hmac x secret proof_domain
              (a.credential_id ∷ d.box_public_key ∷ d.api_token_hash ∷ bytes s.label ∷ [])))
          _ p2 in
      let same = ok_inj h8 in
      record {
        configured = configured;
        shape = shape;
        decoded = d;
        decodes = decode-IsDecoded x s d decodes;
        secret_length = ground (arith, lengths);
        box_length = ground (arith, lengths);
        token_length = ground (arith, lengths);
        authentic = (bytes_eq_iff _ d.supplied_hmac).0 (ground (arith, mac));
        registration =
            check_ceremony-IsCeremony x d.registration_client_data c "webauthn.create" config _
              (ok_or-eq-some x _ malformed_client_data read) checked;
        attestation = a;
        attested = attested ∙ ap (λ a. ok a) same_a;
        same_credential =
            sym (ap (λ (a : Attestation). a.credential_id) same_a)
            ∙ (bytes_eq_iff a'.credential_id d.submitted_credential_id).0 (ground (arith, id));
        key = key;
        key_parsed = parsed;
        proof =
            check_ceremony-IsCeremony x d.proof_client_data c' "webauthn.get" config _
              (ok_or-eq-some x _ malformed_client_data read') checked';
        proof_count = n;
        proved = p3;
        record_is = sym same;
        valid = ap (validate_device x) (sym same) ∙ valid;
      }
