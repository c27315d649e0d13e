-- ===== src/Server/Effects/Others.antt =====
-- The effects of decisions, enrollments, device changes, the outbox, pushes and the cleanup, and so of
-- every call.
use oshioki.Base.{
  ◌≡◌, refl, ap, ◌⊎◌, inl, inr, Bool, not, ◌&&◌, ◌||◌, none, List, String, arith, any, find,
  Bool-cases, Option-cases, ◌==◌, nat_has_eq, text_has_eq,
}
use mathlib.Core.Path.{subst}
use oshioki.Base.Int.{ℤ, lebℤ}
use oshioki.Base.Result.{ok, ok_or, >>=-eq-ok, refuse-eq-ok, ok_inj}
use oshioki.Protocol.Cbor.{bytes_eq, int_eq}
use oshioki.Protocol.External.{Bytes, External}
use oshioki.Protocol.Device.{DevicePublicRecord}
use oshioki.Protocol.Enrollment.{EnrollmentSubmission}
use oshioki.Server.Tables.{
  Lane, State, pending, resolved, EnrollmentRow, DeviceRow, enrollment_submission, ntfy, Db,
  StoreError, unknown, expired, not_owner, mismatch, constraint, codec, InsertResult, Codec,
  find_request, has_device, has_key, count_where, update_where,
}
use oshioki.Server.Rows.{find-append-some, find-update}
use oshioki.Server.Push.{abandon_ineligible_pushes}
use oshioki.Server.Decide.{kind_of_lane, owns, resolve_request, decide}
use oshioki.Server.Enroll.{
  has_enrollment, create_enrollment, is_pending_status, is_expired_status, set_device_active,
}
use oshioki.Server.Enroll.Activate.{record_submission, submit_enrollment, upsert_device}
use oshioki.Server.Outbox.{queue_notification}
use oshioki.Server.Effects.{
  ntfy-IsReceipt, enrollment_submission-IsReceipt, queue_lem, IsSameCredential, KeepsCredentials,
  IsQuiet-same, IsQuiet, IsQuiet-refl, IsQuiet-trans, Effect, quiet, decides, enrolls,
  queue-IsQuiet, append-IsQuiet, update-IsQuiet,
}

update-KeepsCredentials :
    (test : DeviceRow → Bool) (f : DeviceRow → DeviceRow) (rows : List DeviceRow)
    → ((d : DeviceRow) → (f d).fingerprint ≡ d.fingerprint)
    → ((d : DeviceRow) → IsSameCredential (f d) d)
    → KeepsCredentials rows (update_where test f rows)
update-KeepsCredentials test f rows same keeps fingerprint d found =
    let updated =
      find-update (has_device fingerprint) test f (λ a. ap (λ name. name == fingerprint) (same a))
        rows d found in
    elim (Bool-cases (test d)) [
      | inl t ↦ (f d, ground (arith, updated, t), keeps d)
      | inr u ↦ (d, ground (arith, updated, u), (refl, refl))
    ]

module _ (x : External) where
  state_cases : (s : State) → (s ≡ pending) ⊎ ((hash : Bytes) × (at : ℤ) × (s ≡ resolved hash at))
  state_cases pending = inl refl
  state_cases (resolved hash at) = inr (hash, at, refl)

  pub decide-Effect :
      (lane : Lane) (eligible : DeviceRow → Bool) (id fingerprint subject : String) (raw : Bytes)
      (now clock : ℤ) (db db' : Db) (r : InsertResult)
      → decide x lane eligible id fingerprint subject raw now clock db ≡ ok (db', r)
      → Effect x db db'
  unfolding decide
  decide-Effect lane eligible id fingerprint subject raw now clock db db' r h =
      let (row, found, h1) = >>=-eq-ok (ok_or (find_request lane id db) unknown) _ h in
      let (live, h2) = refuse-eq-ok (lebℤ row.expires_at now) expired _ h1 in
      let (owner, h3) = refuse-eq-ok (not (owns eligible lane id fingerprint db)) not_owner _ h2 in
      elim (state_cases row.state) [
        | inr (hash, at, s) ↦ quiet db' (subst (IsQuiet x db) (cc (s, h3)) (IsQuiet-refl x db))
        | inl s ↦
            let (queued, added, h4) = >>=-eq-ok _ _ (rw s at h3) in
            let (fresh, done) =
              queue_lem (kind_of_lane lane) id subject raw clock none
                (resolve_request lane id (x.sha256 raw) clock db) queued added in
            subst (Effect x db) (cc (done, h4))
              (decides lane id subject raw clock row (ground (arith, found)) s fresh)
      ]

  pub create_enrollment-IsQuiet :
      (id : String) (hash : Bytes) (expires_at : ℤ) (subject : String) (clock : ℤ) (db : Db)
      → IsQuiet x db (create_enrollment id hash expires_at subject clock db).0
  unfolding create_enrollment
  create_enrollment-IsQuiet id hash expires_at subject clock db =
      elim (Option-cases (find (has_enrollment id) db.enrollments)) [
        | inl fresh ↦ rw (fresh, create_enrollment) (IsQuiet-same x db _ refl refl refl)
        | inr (row, found) ↦
            elim (Bool-cases (bytes_eq row.secret_hash hash && int_eq row.expires_at expires_at)) [
              | inr f ↦ rw (found, f, create_enrollment) (IsQuiet-refl x db)
              | inl t ↦
                  rw (found, t, create_enrollment)
                    (let addressed =
                        update-IsQuiet x (has_key enrollment_submission id) _ db
                          (λ r lane i h same. same) in
                      record {
                        requests = addressed.requests;
                        records = addressed.records;
                        devices = refl;
                      })
            ]
      ]

  pub queue_notification-IsQuiet :
      (id endpoint : String) (payload : Bytes) (clock : ℤ) (db : Db)
      → IsQuiet x db (queue_notification id endpoint payload clock db)
  unfolding queue_notification
  queue_notification-IsQuiet id endpoint payload clock db =
      elim (Bool-cases (any (has_key ntfy id) db.outbox)) [
        | inl t ↦ rw t (IsQuiet-refl x db)
        | inr f ↦ rw f (append-IsQuiet x db _ ntfy-IsReceipt)
      ]

  pub set_device_active-Effect :
      (fingerprint : String) (enabled : Bool) (clock : ℤ) (db : Db)
      → Effect x db (set_device_active fingerprint enabled clock db).0
  unfolding set_device_active abandon_ineligible_pushes
  set_device_active-Effect fingerprint enabled clock db =
      let kept =
        update-KeepsCredentials (has_device fingerprint)
          (λ d. record d { active = enabled; updated_at = clock }) db.devices (λ d. refl)
          (λ d. (refl, refl)) in
      let changed = not (count_where (has_device fingerprint) db.devices == 0) in
      elim (Bool-cases (not enabled && changed)) [
        | inl t ↦ rw t (enrolls _ (λ lane. refl) refl kept)
        | inr u ↦ rw u (enrolls _ (λ lane. refl) refl kept)
      ]

  module _ (c : Codec) where
    record_submission-IsQuiet :
        (id : String) (raw : Bytes) (clock : ℤ) (row : EnrollmentRow) (db db' : Db)
        (r : InsertResult)
        → record_submission x c id raw clock row db ≡ ok (db', r)
        → IsQuiet x db db'
    unfolding record_submission
    record_submission-IsQuiet id raw clock row db db' r h = elim (Option-cases row.submission) [
      | inr (old, e) ↦ subst (IsQuiet x db) (cc (e, h)) (IsQuiet-refl x db)
      | inl e ↦ elim (Bool-cases (not (is_pending_status row.status))) [
        | inl t ↦ subst (IsQuiet x db) (cc (e, t, h)) (IsQuiet-refl x db)
        | inr f ↦
            let (queued, added, h') = >>=-eq-ok _ _ (rw (e, f) at h) in
            subst (IsQuiet x db) (cc (h')) (
              IsQuiet-trans x db _ queued (IsQuiet-same x db _ refl refl refl) (
                queue-IsQuiet x enrollment_submission id row.reply_subject raw clock none _ queued
                  enrollment_submission-IsReceipt added))
      ]
    ]

    pub submit_enrollment-IsQuiet :
        (id : String) (s : EnrollmentSubmission) (now clock : ℤ) (db db' : Db) (r : InsertResult)
        → submit_enrollment x c id s now clock db ≡ ok (db', r)
        → IsQuiet x db db'
    unfolding submit_enrollment
    submit_enrollment-IsQuiet id s now clock db db' r h =
        let (raw, written, h1) = >>=-eq-ok (ok_or (c.submission_to_vec s) codec) _ h in
        let (row, found, h2) =
          >>=-eq-ok (ok_or (find (has_enrollment id) db.enrollments) unknown) _ h1 in
        let (live, h3) =
          refuse-eq-ok (lebℤ row.expires_at now || is_expired_status row.status) StoreError.expired
            _ h2 in
        record_submission-IsQuiet id raw clock row db db' r h3

    pub upsert_device-KeepsCredentials :
        (device : DevicePublicRecord) (hash : Bytes) (json : String) (clock : ℤ)
        (rows rows' : List DeviceRow)
        → upsert_device x c device hash json clock rows ≡ ok rows'
        → KeepsCredentials rows rows'
    unfolding upsert_device
    upsert_device-KeepsCredentials device hash json clock rows rows' h =
        elim (Option-cases (find (has_device device.fingerprint) rows)) [
          | inl fresh ↦
              let (unique, h') = refuse-eq-ok _ constraint _ (rw (fresh, upsert_device) at h) in
              subst (KeepsCredentials rows) (ok_inj h')
                (λ f d found. (d, find-append-some (has_device f) rows _ d found, (refl, refl)))
          | inr (stored, e) ↦
              let (same, h') = refuse-eq-ok _ mismatch _ (rw (e, upsert_device) at h) in
              subst (KeepsCredentials rows) (ok_inj h') (
                update-KeepsCredentials (has_device device.fingerprint) _ rows (λ d. refl)
                  (λ d. (refl, refl)))
        ]
