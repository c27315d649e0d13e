-- ===== src/Protocol/Enrollment/Checked.antt =====
-- The decoding of a submission and the tests on its client data (protocol/src/enrollment_v1.rs), as
-- descriptions.
use oshioki.Base.{
  Option, none, false, some, String, nat_has_eq, text_has_eq, eq_iff, ◌≡◌, ap, arith,
}
use oshioki.Base.Result.{Result, ok, err, ok_or, ◌>>=◌, ok_inj}
use oshioki.Protocol.Error.{Error}
use oshioki.Protocol.External.{Bytes, ClientData, External}
use oshioki.Protocol.Encoding.{decode_base64url}
use oshioki.Protocol.Device.{HookConfig}
use oshioki.Protocol.Enrollment.{WebauthnEnrollmentSubmission}
use oshioki.Protocol.Enrollment.Webauthn.{check_ceremony}
use oshioki.Protocol.Enrollment.Ceremony.{Decoded, decode_submission}

module _ (x : External) where
  open x use {client_data_from_slice, b64_encode, VerifyingKey}

  -- The decoded fields are those of the submission.
  pub record IsDecoded (s : WebauthnEnrollmentSubmission) (d : Decoded) : Type 0 where
    pub registration_client_data :
        decode_base64url x s.registration_client_data_json ≡ ok d.registration_client_data
    pub attestation_object : decode_base64url x s.attestation_object ≡ ok d.attestation_object
    pub proof_authenticator_data :
        decode_base64url x s.proof_authenticator_data ≡ ok d.proof_authenticator_data
    pub proof_client_data : decode_base64url x s.proof_client_data_json ≡ ok d.proof_client_data
    pub proof_signature : decode_base64url x s.proof_signature ≡ ok d.proof_signature
    pub credential_id : decode_base64url x s.credential_id ≡ ok d.submitted_credential_id
    pub box_public_key : decode_base64url x s.box_public_key ≡ ok d.box_public_key
    pub api_token_hash : decode_base64url x s.api_token_hash ≡ ok d.api_token_hash
    pub transcript_hmac : decode_base64url x s.transcript_hmac ≡ ok d.supplied_hmac

  -- The client data is that of a ceremony of this type, at this origin, over this challenge.
  pub record IsCeremony (json : Bytes) (type_ : String) (config : HookConfig) (challenge : Bytes)
      : Type 0 where
    pub client_data : ClientData
    pub parsed : client_data_from_slice json ≡ some client_data
    pub typed : client_data.type_ ≡ type_
    pub at_origin : client_data.origin ≡ config.origin
    pub same_origin : client_data.cross_origin ≡ false
    pub challenged : client_data.challenge ≡ b64_encode challenge

  err≢ok : {A : Type 0} {e : Error} {a : A} → ◌≡◌ {A = Result Error A} (err e) (ok a) → ⊥
  err≢ok h = cc

  -- The nine steps of the decoding, whatever their results are.
  nine_steps :
      (m₁ m₂ m₃ m₄ m₅ m₆ m₇ m₈ m₉ : Result Error Bytes) (d : Decoded)
      → (do
        registration_client_data ← m₁
        attestation_object ← m₂
        proof_authenticator_data ← m₃
        proof_client_data ← m₄
        proof_signature ← m₅
        submitted_credential_id ← m₆
        box_public_key ← m₇
        api_token_hash ← m₈
        supplied_hmac ← m₉
        ok (record {
          registration_client_data = registration_client_data;
          attestation_object = attestation_object;
          proof_authenticator_data = proof_authenticator_data;
          proof_client_data = proof_client_data;
          proof_signature = proof_signature;
          submitted_credential_id = submitted_credential_id;
          box_public_key = box_public_key;
          api_token_hash = api_token_hash;
          supplied_hmac = supplied_hmac;
        }))
        ≡ ok d
      → (m₁ ≡ ok d.registration_client_data)
        × (m₂ ≡ ok d.attestation_object)
        × (m₃ ≡ ok d.proof_authenticator_data)
        × (m₄ ≡ ok d.proof_client_data)
        × (m₅ ≡ ok d.proof_signature)
        × (m₆ ≡ ok d.submitted_credential_id)
        × (m₇ ≡ ok d.box_public_key)
        × (m₈ ≡ ok d.api_token_hash)
        × (m₉ ≡ ok d.supplied_hmac)
  nine_steps (ok a₁) (ok a₂) (ok a₃) (ok a₄) (ok a₅) (ok a₆) (ok a₇) (ok a₈) (ok a₉) d h = (
    ap (λ (d : Decoded). ok d.registration_client_data) (ok_inj h),
    ap (λ (d : Decoded). ok d.attestation_object) (ok_inj h),
    ap (λ (d : Decoded). ok d.proof_authenticator_data) (ok_inj h),
    ap (λ (d : Decoded). ok d.proof_client_data) (ok_inj h),
    ap (λ (d : Decoded). ok d.proof_signature) (ok_inj h),
    ap (λ (d : Decoded). ok d.submitted_credential_id) (ok_inj h),
    ap (λ (d : Decoded). ok d.box_public_key) (ok_inj h),
    ap (λ (d : Decoded). ok d.api_token_hash) (ok_inj h),
    ap (λ (d : Decoded). ok d.supplied_hmac) (ok_inj h),
  )
  nine_steps (err e) _ _ _ _ _ _ _ _ d h = absurd (err≢ok h)
  nine_steps (ok a₁) (err e) _ _ _ _ _ _ _ d h = absurd (err≢ok h)
  nine_steps (ok a₁) (ok a₂) (err e) _ _ _ _ _ _ d h = absurd (err≢ok h)
  nine_steps (ok a₁) (ok a₂) (ok a₃) (err e) _ _ _ _ _ d h = absurd (err≢ok h)
  nine_steps (ok a₁) (ok a₂) (ok a₃) (ok a₄) (err e) _ _ _ _ d h = absurd (err≢ok h)
  nine_steps (ok a₁) (ok a₂) (ok a₃) (ok a₄) (ok a₅) (err e) _ _ _ d h = absurd (err≢ok h)
  nine_steps (ok a₁) (ok a₂) (ok a₃) (ok a₄) (ok a₅) (ok a₆) (err e) _ _ d h = absurd (err≢ok h)
  nine_steps (ok a₁) (ok a₂) (ok a₃) (ok a₄) (ok a₅) (ok a₆) (ok a₇) (err e) _ d h =
      absurd (err≢ok h)
  nine_steps (ok a₁) (ok a₂) (ok a₃) (ok a₄) (ok a₅) (ok a₆) (ok a₇) (ok a₈) (err e) d h =
      absurd (err≢ok h)

  pub decode-IsDecoded :
      (s : WebauthnEnrollmentSubmission) (d : Decoded)
      → decode_submission x s ≡ ok d
      → IsDecoded s d
  unfolding decode_submission
  decode-IsDecoded s d h =
      let (e₁, e₂, e₃, e₄, e₅, e₆, e₇, e₈, e₉) =
        nine_steps (decode_base64url x s.registration_client_data_json)
          (decode_base64url x s.attestation_object) (decode_base64url x s.proof_authenticator_data)
          (decode_base64url x s.proof_client_data_json) (decode_base64url x s.proof_signature)
          (decode_base64url x s.credential_id) (decode_base64url x s.box_public_key)
          (decode_base64url x s.api_token_hash) (decode_base64url x s.transcript_hmac) d h in
      record {
        registration_client_data = e₁;
        attestation_object = e₂;
        proof_authenticator_data = e₃;
        proof_client_data = e₄;
        proof_signature = e₅;
        credential_id = e₆;
        box_public_key = e₇;
        api_token_hash = e₈;
        transcript_hmac = e₉;
      }

  pub check_ceremony-IsCeremony :
      (json : Bytes) (c : ClientData) (type_ : String) (config : HookConfig) (challenge : Bytes)
      → client_data_from_slice json ≡ some c
      → check_ceremony x c type_ config challenge ≡ ok tt
      → IsCeremony json type_ config challenge
  unfolding check_ceremony
  check_ceremony-IsCeremony json c type_ config challenge parsed h = record {
    client_data = c;
    parsed = parsed;
    typed = ground (arith, h, eq_iff c.type_ type_);
    at_origin = ground (arith, h, eq_iff c.origin config.origin);
    same_origin = ground (arith, h);
    challenged = ground (arith, h, eq_iff c.challenge (b64_encode challenge));
  }

  pub ok_or-eq-some :
      {A : Type 0} (o : Option A) (e : Error) {a : A} → ok_or o e ≡ ok a → o ≡ some a
  ok_or-eq-some (some b) e h = ap (λ b. some b) (ok_inj h)
  ok_or-eq-some none e h = cc
