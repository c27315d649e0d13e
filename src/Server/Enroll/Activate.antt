-- ===== src/Server/Enroll/Activate.antt =====
-- Submissions and activations of enrollments (server/src/db.rs).
use oshioki.Base.{
  Bool, true, false, not, ◌&&◌, ◌||◌, none, some, List, [], ◌∷◌, ◌++◌, String, any, find, ◌==◌,
  nat_has_eq, text_has_eq, if◌then◌else◌,
}
use oshioki.Base.Int.{ℤ, lebℤ}
use oshioki.Base.Result.{Result, ok, refuse, ok_or, ◌>>=◌, ◌>>◌}
use oshioki.Protocol.Cbor.{bytes_eq}
use oshioki.Protocol.External.{Bytes, External}
use oshioki.Protocol.Encoding.{encode_base64url, decode_base64url}
use oshioki.Protocol.Device.{DevicePublicRecord, kind_eq, native_credential_id, validate_device}
use oshioki.Protocol.Enrollment.{
  EnrollmentSubmission, webauthn, software, secure_enclave, NativeEnrollmentSubmission, kind,
}
use oshioki.Server.Tables.{
  DeviceRow, EnrollmentRow, active, enrollment_submission, Db, StoreError, invalid, unknown,
  mismatch, not_pending, no_submission, constraint, codec, InsertResult, inserted, identical,
  conflict, Codec, has_device, update_where, queue,
}
use oshioki.Server.Ingest.{checked}
use oshioki.Server.Enroll.{has_enrollment, is_pending_status, is_expired_status, submitted}

module _ (x : External) (c : Codec) where
  open x use {sha256}

  -- What `submit_enrollment` does with a live row and the submission's JSON.
  unfoldable pub record_submission :
      (id : String)
      → (raw : Bytes) → (clock : ℤ) → EnrollmentRow
      → Db
      → Result StoreError (Db × InsertResult)
  unfolding queue
  record_submission id raw clock row db = elim row.submission [
    | some old ↦ ok (db, if bytes_eq old.0 (sha256 raw) then identical else conflict)
    | none ↦ if not (is_pending_status row.status) then ok (db, conflict) else (do
      db' ← queue enrollment_submission id row.reply_subject raw clock none (record db {
        enrollments =
            update_where (has_enrollment id) (submitted (sha256 raw) raw clock) db.enrollments;
      })
      ok (db', inserted))
  ]

  unfoldable pub submit_enrollment :
      (id : String)
      → EnrollmentSubmission
      → (now clock : ℤ) → Db
      → Result StoreError (Db × InsertResult)
  unfolding record_submission
  submit_enrollment id submission now clock db = do
    raw ← ok_or (c.submission_to_vec submission) codec
    row ← ok_or (find (has_enrollment id) db.enrollments) unknown
    refuse (lebℤ row.expires_at now || is_expired_status row.status) StoreError.expired
    record_submission id raw clock row db

  abbrev pub binds_native : NativeEnrollmentSubmission → DevicePublicRecord → Result StoreError Bool
  binds_native s device = do
    public_key ← checked (decode_base64url x s.credential_public_key) codec
    ok (
        device.credential_public_key == s.credential_public_key
        && device.credential_id == encode_base64url x (native_credential_id x public_key)
        && device.box_public_key == s.box_public_key
        && device.api_token_hash == s.api_token_hash
        && device.label == s.label)

  abbrev binds : EnrollmentSubmission → DevicePublicRecord → Result StoreError Bool
  binds (webauthn s) device = ok (
      device.credential_id == s.credential_id
      && device.box_public_key == s.box_public_key
      && device.api_token_hash == s.api_token_hash
      && device.label == s.label)
  binds (software s) device = binds_native s device
  binds (secure_enclave s) device = binds_native s device

  unfoldable pub submission_binds_device :
      EnrollmentSubmission → DevicePublicRecord → Result StoreError Bool
  unfolding native_credential_id
  submission_binds_device submission device =
      if not (kind_eq device.kind (kind submission)) then ok false else binds submission device

  abbrev takes_unique : DevicePublicRecord → (token_hash : Bytes) → DeviceRow → Bool
  takes_unique device token_hash d =
      d.credential_id == device.credential_id || bytes_eq d.api_token_hash token_hash

  -- The upsert and the check behind it: a stored credential and token hash stay, and must be those of
  -- the activation.
  unfoldable pub upsert_device :
      DevicePublicRecord
      → (token_hash : Bytes) → (json : String) → (clock : ℤ) → List DeviceRow
      → Result StoreError (List DeviceRow)
  upsert_device device token_hash json clock rows =
      elim (find (has_device device.fingerprint) rows) [
        | some stored ↦ do
          refuse
              (not (stored.credential_id == device.credential_id)
                || not (bytes_eq stored.api_token_hash token_hash))
              mismatch
          ok (
              update_where (has_device device.fingerprint)
                (λ d. record d { public_record_json = json; active = true; updated_at = clock })
                rows)
        | none ↦ do
          refuse (any (takes_unique device token_hash) rows) constraint
          ok (
              rows
              ++ record {
                fingerprint = device.fingerprint;
                credential_id = device.credential_id;
                api_token_hash = token_hash;
                public_record_json = json;
                active = true;
                updated_at = clock;
              }
                ∷ [])
      ]

  abbrev pub activated : (fingerprint : String) → (clock : ℤ) → EnrollmentRow → EnrollmentRow
  activated fingerprint clock row = record row {
    status = active;
    fingerprint = some fingerprint;
    updated_at = clock;
  }

  unfoldable pub activate_enrollment :
      (id : String) → DevicePublicRecord → (now clock : ℤ) → Db → Result StoreError Db
  unfolding submission_binds_device upsert_device
  activate_enrollment id device now clock db = do
    checked (validate_device x device) invalid
    row ← ok_or (find (has_enrollment id) db.enrollments) unknown
    refuse (not (is_pending_status row.status)) not_pending
    refuse (lebℤ row.expires_at now) StoreError.expired
    stored ← ok_or row.submission no_submission
    submission ← ok_or (c.submission_from_slice stored.1) codec
    matches ← submission_binds_device submission device
    refuse (not matches) mismatch
    token_hash ← checked (decode_base64url x device.api_token_hash) codec
    json ← ok_or (c.device_to_string device) codec
    devices ← upsert_device device token_hash json clock db.devices
    ok (record db {
      devices = devices;
      enrollments =
          update_where (λ r. has_enrollment id r && is_pending_status r.status)
            (activated device.fingerprint clock) db.enrollments;
    })
