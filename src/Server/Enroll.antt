-- ===== src/Server/Enroll.antt =====
-- Enrollments and device records in server/src/db.rs.
pub mod Activate
pub mod Bound
use oshioki.Base.{
  ◌≡◌, Bool, true, false, not, ◌&&◌, ◌||◌, Option, none, some, List, [], ◌∷◌, ◌++◌, String, any,
  find, ◌==◌, nat_has_eq, text_has_eq, if◌then◌else◌, is_some_and,
}
use oshioki.Base.Int.{ℤ, lebℤ}
use oshioki.Base.Result.{Result, ok, err, refuse, ok_or, ◌>>=◌, ◌>>◌}
use oshioki.Protocol.Cbor.{bytes_eq, int_eq}
use oshioki.Protocol.External.{Bytes, External}
use oshioki.Protocol.Encoding.{encode_base64url, decode_base64url}
use oshioki.Protocol.Device.{DevicePublicRecord, kind_eq, native_credential_id, validate_device}
use oshioki.Protocol.Enrollment.{
  EnrollmentSubmission, webauthn, software, secure_enclave, NativeEnrollmentSubmission, kind,
  EnrollmentStatus,
}
use oshioki.Server.Tables.{
  DeviceRow, EnrollmentRow, Status, pending, active, expired, OutboxRow, enrollment_submission, Db,
  StoreError, invalid, unknown, mismatch, not_pending, no_submission, constraint, codec,
  InsertResult, inserted, identical, conflict, Codec, is_none, has_device, has_key, update_where,
  count_where, queue,
}
use oshioki.Server.Push.{abandon_ineligible_pushes}
use oshioki.Server.Ingest.{checked}

abbrev pub has_enrollment : String → EnrollmentRow → Bool
has_enrollment id row = row.id == id

abbrev pub is_pending_status : Status → Bool
is_pending_status pending = true
is_pending_status _ = false

abbrev set_reply : (reply_subject : String) → (clock : ℤ) → EnrollmentRow → EnrollmentRow
set_reply reply_subject clock row = record row { reply_subject = reply_subject; updated_at = clock }

abbrev readdressed : (subject : String) → OutboxRow → OutboxRow
readdressed subject row = record row { subject = subject; sent_at = none }

-- A repeated intent moves the reply, and sends a stored submission again.
unfoldable pub create_enrollment :
    (id : String)
    → (secret_hash : Bytes) → (expires_at : ℤ) → (reply_subject : String) → (clock : ℤ) → Db
    → Db × InsertResult
create_enrollment id secret_hash expires_at reply_subject clock db =
    elim (find (has_enrollment id) db.enrollments) [
      | some row ↦
          if bytes_eq row.secret_hash secret_hash && int_eq row.expires_at expires_at
          then (
            record db {
              enrollments =
                  update_where (has_enrollment id) (set_reply reply_subject clock) db.enrollments;
              outbox =
                  update_where (has_key enrollment_submission id) (readdressed reply_subject)
                    db.outbox;
            },
            identical,
          )
          else (db, conflict)
      | none ↦ (
        record db {
          enrollments =
              db.enrollments
              ++ record {
                id = id;
                secret_hash = secret_hash;
                status = pending;
                expires_at = expires_at;
                reply_subject = reply_subject;
                submission = none;
                fingerprint = none;
                updated_at = clock;
              }
                ∷ [];
        },
        inserted,
      )
    ]

abbrev pub submitted : (hash raw : Bytes) → (clock : ℤ) → EnrollmentRow → EnrollmentRow
submitted hash raw clock row = record row { submission = some (hash, raw); updated_at = clock }

abbrev pub is_expired_status : Status → Bool
is_expired_status expired = true
is_expired_status _ = false

-- `status` and `expires_at` as `enrollment_status` reports them
unfoldable pub shown_status : EnrollmentRow → (now : ℤ) → EnrollmentStatus
shown_status row now =
    if lebℤ row.expires_at now && is_pending_status row.status
    then EnrollmentStatus.expired
    else elim row.status [
      | active ↦ EnrollmentStatus.active
      | expired ↦ EnrollmentStatus.expired
      | pending ↦ EnrollmentStatus.pending
    ]

unfoldable pub enrollment_status :
    (id : String) → (now : ℤ) → Db → Option (EnrollmentStatus × Option String)
unfolding shown_status
enrollment_status id now db = elim (find (has_enrollment id) db.enrollments) [
  | none ↦ none
  | some row ↦ some (shown_status row now, row.fingerprint)
]

-- `active_device`; a stored text that does not parse is an error
unfoldable pub active_device :
    Codec → (fingerprint : String) → Db → Result StoreError (Option DevicePublicRecord)
active_device c fingerprint db =
    elim (find (λ d. has_device fingerprint d && d.active) db.devices) [
      | none ↦ ok none
      | some d ↦ do device ← ok_or (c.device_from_str d.public_record_json) codec; ok (some device)
    ]

unfoldable pub set_device_active :
    (fingerprint : String) → (enabled : Bool) → (clock : ℤ) → Db → Db × Bool
unfolding abandon_ineligible_pushes
set_device_active fingerprint enabled clock db =
    let changed = count_where (has_device fingerprint) db.devices in
    let marked = record db {
      devices =
          update_where (has_device fingerprint)
            (λ d. record d { active = enabled; updated_at = clock }) db.devices;
    } in
    let disabled = record marked {
      push_subscriptions =
          update_where (λ s. s.device_fingerprint == fingerprint && is_none s.disabled_at)
            (λ s. record s { disabled_at = some clock; updated_at = clock })
            marked.push_subscriptions;
    } in
    (
      if not enabled && not (changed == 0)
          then abandon_ineligible_pushes clock disabled
          else marked,
      changed == 1,
    )
