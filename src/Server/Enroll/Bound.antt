-- ===== src/Server/Enroll/Bound.antt =====
-- `submission_binds_device` of server/src/db.rs, as a description.
use oshioki.Base.{◌≡◌, refl, inl, inr, true, arith, Bool-cases, text_has_eq, eq_iff}
use mathlib.Core.Path.{ap}
use oshioki.Base.Result.{Result, ok, err, >>=-eq-ok, ok_inj}
use oshioki.Protocol.External.{Bytes, External}
use oshioki.Protocol.Error.{Error}
use oshioki.Protocol.Encoding.{encode_base64url, decode_base64url}
use oshioki.Protocol.Device.{DeviceKind, kind_eq, native_credential_id, DevicePublicRecord}
use oshioki.Protocol.Enrollment.{
  NativeEnrollmentSubmission, EnrollmentSubmission, webauthn, software, secure_enclave,
}
use oshioki.Server.Tables.{StoreError, codec, Codec}
use oshioki.Server.Ingest.{checked}
use oshioki.Server.Enroll.Activate.{binds_native, submission_binds_device}

pub checked-eq-ok :
    {A : Type 0} (r : Result Error A) (e : StoreError) {a : A} → checked r e ≡ ok a → r ≡ ok a
checked-eq-ok (ok b) e h = ap (λ b. ok b) (ok_inj h)
checked-eq-ok (err f) e h = cc

module _ (x : External) (c : Codec) where
  -- The device has the kind and the fields of the submission. The credential key of a browser stands in
  -- its attestation and is not compared.
  abbrev pub IsBoundNative : NativeEnrollmentSubmission → DevicePublicRecord → Type 0
  IsBoundNative s device =
      (device.credential_public_key ≡ s.credential_public_key)
      × ((public_key : Bytes) × (decode_base64url x s.credential_public_key ≡ ok public_key)
          × (device.credential_id ≡ encode_base64url x (native_credential_id x public_key)))
      × (device.box_public_key ≡ s.box_public_key)
      × (device.api_token_hash ≡ s.api_token_hash)
      × (device.label ≡ s.label)

  abbrev pub IsBound : EnrollmentSubmission → DevicePublicRecord → Type 0
  IsBound (webauthn s) device =
      (device.kind ≡ DeviceKind.webauthn)
      × (device.credential_id ≡ s.credential_id)
      × (device.box_public_key ≡ s.box_public_key)
      × (device.api_token_hash ≡ s.api_token_hash)
      × (device.label ≡ s.label)
  IsBound (software s) device = (device.kind ≡ DeviceKind.software) × IsBoundNative s device
  IsBound (secure_enclave s) device =
      (device.kind ≡ DeviceKind.secure_enclave) × IsBoundNative s device

  kind_eq-eq : (a b : DeviceKind) → kind_eq a b ≡ true → a ≡ b
  kind_eq-eq DeviceKind.webauthn DeviceKind.webauthn h = refl
  kind_eq-eq DeviceKind.software DeviceKind.software h = refl
  kind_eq-eq DeviceKind.secure_enclave DeviceKind.secure_enclave h = refl
  kind_eq-eq _ _ h = absurd (cc)

  native-IsBound :
      (s : NativeEnrollmentSubmission) (device : DevicePublicRecord)
      → binds_native x c s device ≡ ok true
      → IsBoundNative s device
  native-IsBound s device h =
      let (key, decoded, h1) =
        >>=-eq-ok (checked (decode_base64url x s.credential_public_key) codec) _ h in
      let test = ok_inj h1 in
      let id = encode_base64url x (native_credential_id x key) in
      (
        (eq_iff device.credential_public_key s.credential_public_key).0 (ground (arith, test)),
        (
          key,
          checked-eq-ok (decode_base64url x s.credential_public_key) codec decoded,
          (eq_iff device.credential_id id).0 (ground (arith, test)),
        ),
        (eq_iff device.box_public_key s.box_public_key).0 (ground (arith, test)),
        (eq_iff device.api_token_hash s.api_token_hash).0 (ground (arith, test)),
        (eq_iff device.label s.label).0 (ground (arith, test)),
      )

  pub binds-IsBound :
      (s : EnrollmentSubmission) (device : DevicePublicRecord)
      → submission_binds_device x c s device ≡ ok true
      → IsBound s device
  unfolding submission_binds_device
  binds-IsBound (webauthn s) device h =
      elim (Bool-cases (kind_eq device.kind DeviceKind.webauthn)) [
        | inr other ↦ absurd (ground (arith, other, h))
        | inl same ↦
            let test = ok_inj (rw same at h) in
            (
              kind_eq-eq device.kind DeviceKind.webauthn same,
              (eq_iff device.credential_id s.credential_id).0 (ground (arith, test)),
              (eq_iff device.box_public_key s.box_public_key).0 (ground (arith, test)),
              (eq_iff device.api_token_hash s.api_token_hash).0 (ground (arith, test)),
              (eq_iff device.label s.label).0 (ground (arith, test)),
            )
      ]
  binds-IsBound (software s) device h =
      elim (Bool-cases (kind_eq device.kind DeviceKind.software)) [
        | inr other ↦ absurd (ground (arith, other, h))
        | inl same ↦ (
          kind_eq-eq device.kind DeviceKind.software same,
          native-IsBound s device (rw same at h),
        )
      ]
  binds-IsBound (secure_enclave s) device h =
      elim (Bool-cases (kind_eq device.kind DeviceKind.secure_enclave)) [
        | inr other ↦ absurd (ground (arith, other, h))
        | inl same ↦ (
          kind_eq-eq device.kind DeviceKind.secure_enclave same,
          native-IsBound s device (rw same at h),
        )
      ]
