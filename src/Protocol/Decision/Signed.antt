-- ===== src/Protocol/Decision/Signed.antt =====
-- What stands behind a denial that `verify_deny_v1` of protocol/src/v1.rs accepts.
use oshioki.Base.{
  inl, inr, ◌≡◌, ◌≢◌, ◌↔◌, true, some, String, arith, text_has_eq, eq_iff, Option-cases,
}
use oshioki.Base.Result.{ok, Result-cases}
use oshioki.Protocol.External.{Bytes, External}
use oshioki.Protocol.Encoding.{decode_base64url}
use oshioki.Protocol.Device.{DevicePublicRecord, validate_device}
use oshioki.Protocol.Challenge.{deny_challenge}
use oshioki.Protocol.Decision.{Deny, validate_deny_shape, check_signature, device_key, verify_deny}

module _ (x : External) where
  open x use {VerifyingKey, Signature, from_der, verify}

  -- The text is the base64 of a DER signature over the message that the key verifies.
  pub record IsSignedBy (key : VerifyingKey) (message : Bytes) (signature : String) : Type 0 where
    pub der : Bytes
    pub parsed : Signature
    pub decodes : decode_base64url x signature ≡ ok der
    pub parses : from_der der ≡ some parsed
    pub verifies : verify key message parsed ≡ true

  pub check_signature_iff :
      (key : VerifyingKey) (message : Bytes) (signature : String)
      → (check_signature x key message signature ≡ ok tt) ↔ IsSignedBy key message signature
  unfolding check_signature
  check_signature_iff key message signature = (
    λ h. elim (Result-cases (decode_base64url x signature)) [
      | inl (der, d) ↦ elim (Option-cases (from_der der)) [
        | inl n ↦ absurd (ground (arith, d, n))
        | inr (parsed, p) ↦ record {
          der = der;
          parsed = parsed;
          decodes = d;
          parses = p;
          verifies = ground (arith, d, p);
        }
      ]
      | inr (e, d) ↦ absurd (ground (arith, d))
    ],
    λ s. ground (arith, s.decodes, s.parses, s.verifies),
  )

  -- What the verification of a denial has established.
  pub record IsDenied (denial : Deny) (device : DevicePublicRecord) : Type 0 where
    pub valid : validate_device x device ≡ ok tt
    pub shape : validate_deny_shape x denial ≡ ok tt
    pub named : denial.request_id ≢ ""
    pub device_match : denial.device_fingerprint ≡ device.fingerprint
    pub signature : String
    pub present : denial.signature ≡ some signature
    pub key : VerifyingKey
    pub key_match : device_key x device ≡ ok key
    pub signed : IsSignedBy key (deny_challenge x denial.request_id device.fingerprint) signature

  deny_sound :
      (denial : Deny) (device : DevicePublicRecord)
      → verify_deny x denial device ≡ ok tt
      → IsDenied denial device
  unfolding verify_deny
  deny_sound denial device h = elim (Result-cases (validate_device x device)) [
    | inr (e, v) ↦ absurd (ground (arith, v))
    | inl (u, v) ↦ elim (Result-cases (validate_deny_shape x denial)) [
      | inr (e, s) ↦ absurd (ground (arith, v, s))
      | inl (u, s) ↦ elim (Option-cases denial.signature) [
        | inl n ↦ absurd (ground (arith, v, s, n))
        | inr (signature, p) ↦ elim (Result-cases (device_key x device)) [
          | inr (e, k) ↦ absurd (ground (arith, v, s, p, k))
          | inl (key, k) ↦
              let same : denial.device_fingerprint ≡ device.fingerprint =
                ground (arith, v, s, p, k, eq_iff denial.device_fingerprint device.fingerprint) in
              record {
                valid = v;
                shape = s;
                named = ground (arith, v, s, p, k, eq_iff denial.request_id "");
                device_match = same;
                signature = signature;
                present = p;
                key = key;
                key_match = k;
                signed = (check_signature_iff key _ signature).0 (ground (arith, v, s, p, k, same));
              }
        ]
      ]
    ]
  ]

  deny_complete :
      (denial : Deny) (device : DevicePublicRecord)
      → IsDenied denial device
      → verify_deny x denial device ≡ ok tt
  unfolding verify_deny
  deny_complete denial device h =
      let checked = (check_signature_iff h.key _ h.signature).1 h.signed in
      ground (
        arith,
        h.valid,
        h.shape,
        h.named,
        h.device_match,
        h.present,
        h.key_match,
        checked,
        eq_iff denial.request_id "",
        eq_iff denial.device_fingerprint device.fingerprint,
      )

  -- A denial is accepted exactly when the pinned record is valid, the denial is well shaped and names
  -- the record's fingerprint, and it carries a signature that the key of the record, read as its kind
  -- says, verifies over the denial challenge of this request id and this device.
  pub verify_deny_iff :
      (denial : Deny) (device : DevicePublicRecord)
      → (verify_deny x denial device ≡ ok tt) ↔ IsDenied denial device
  verify_deny_iff denial device = (deny_sound denial device, deny_complete denial device)
