-- ===== src/Server/Activation.antt =====
-- `activate_enrollment` of server/src/db.rs: what it asks for and what it leaves.
use oshioki.Base.{
  ◌≡◌, refl, inl, inr, true, false, not, ◌&&◌, ◌||◌, some, List, [], ◌∷◌, ◌++◌, String, arith, find,
  Bool-cases, Option-cases, ◌==◌, text_has_eq, eq_iff,
}
use mathlib.Core.Path.{subst, ap, ◌∙◌}
use oshioki.Base.Int.{ℤ, lebℤ, ◌<ℤ◌}
use oshioki.Base.Result.{ok, ok_or, is_err, >>=-eq-ok, refuse-eq-ok, Result-cases, ok_inj}
use oshioki.Protocol.Cbor.{bytes_eq}
use oshioki.Protocol.External.{Bytes, External}
use oshioki.Protocol.Challenge.Separation.{bytes_eq_iff}
use oshioki.Protocol.Encoding.{decode_base64url}
use oshioki.Protocol.Device.{DevicePublicRecord, validate_device}
use oshioki.Protocol.Enrollment.{EnrollmentSubmission, EnrollmentStatus}
use oshioki.Server.Tables.{
  DeviceRow, EnrollmentRow, Status, pending, active, Db, StoreError, invalid, unknown, mismatch,
  not_pending, no_submission, constraint, codec, Codec, has_device, update_where,
}
use oshioki.Server.Rows.{find-append-none, find-update, find-some}
use oshioki.Server.Ingest.{checked}
use oshioki.Server.Enroll.{has_enrollment, is_pending_status, shown_status, enrollment_status}
use oshioki.Server.Enroll.Activate.{
  activated, submission_binds_device, upsert_device, activate_enrollment,
}
use oshioki.Server.Enroll.Bound.{IsBound, checked-eq-ok, binds-IsBound}

pending_status_lem : (s : Status) → not (is_pending_status s) ≡ false → s ≡ pending
pending_status_lem pending h = refl
pending_status_lem _ h = absurd (cc)

-- The device is stored with its credential, the token hash and the JSON, and active.
abbrev IsServed : DevicePublicRecord → (hash : Bytes) → (json : String) → List DeviceRow → Type 0
IsServed device hash json rows =
    (d : DeviceRow) × (find (has_device device.fingerprint) rows ≡ some d)
    × (d.credential_id ≡ device.credential_id)
    × (d.api_token_hash ≡ hash)
    × (d.public_record_json ≡ json)
    × (d.active ≡ true)

module _ (x : External) (c : Codec) where
  upsert_device_lem :
      (device : DevicePublicRecord) (hash : Bytes) (json : String) (clock : ℤ)
      (rows rows' : List DeviceRow)
      → upsert_device x c device hash json clock rows ≡ ok rows'
      → IsServed device hash json rows'
  unfolding upsert_device
  upsert_device_lem device hash json clock rows rows' h =
      elim (Option-cases (find (has_device device.fingerprint) rows)) [
        | inl fresh ↦
            let (unique, h') = refuse-eq-ok _ constraint _ (rw (fresh, upsert_device) at h) in
            let own = (eq_iff device.fingerprint device.fingerprint).1 refl in
            let added : DeviceRow = record {
              fingerprint = device.fingerprint;
              credential_id = device.credential_id;
              api_token_hash = hash;
              public_record_json = json;
              active = true;
              updated_at = clock;
            } in
            let last = find-append-none (has_device device.fingerprint) rows (added ∷ []) fresh in
            let stored : find (has_device device.fingerprint) (rows ++ added ∷ []) ≡ some added =
              rw (last, own) refl in
            subst (IsServed device hash json) (ok_inj h') (added, stored, refl, refl, refl, refl)
        | inr (stored, e) ↦
            let differs =
              not (stored.credential_id == device.credential_id)
              || not (bytes_eq stored.api_token_hash hash) in
            let (same, h') = refuse-eq-ok differs mismatch _ (rw (e, upsert_device) at h) in
            let updated =
              find-update (has_device device.fingerprint) (has_device device.fingerprint)
                (λ d. record d { public_record_json = json; active = true; updated_at = clock })
                (λ d. refl) rows stored e in
            let own = find-some (has_device device.fingerprint) rows stored e in
            let refreshed : DeviceRow = record stored {
              public_record_json = json;
              active = true;
              updated_at = clock;
            } in
            let kept : find (has_device device.fingerprint) (
                  update_where (has_device device.fingerprint)
                    (λ d. record d { public_record_json = json; active = true; updated_at = clock })
                    rows)
                ≡ some refreshed =
              rw (updated, own) refl in
            subst (IsServed device hash json) (ok_inj h') (
              refreshed,
              kept,
              (eq_iff stored.credential_id device.credential_id).0 (ground (arith, same)),
              (bytes_eq_iff stored.api_token_hash hash).0 (ground (arith, same)),
              refl,
              refl,
            )
      ]

  activated-found :
      (id fingerprint : String) (clock : ℤ) (row : EnrollmentRow) (rows : List EnrollmentRow)
      → find (has_enrollment id) rows ≡ some row
      → not (is_pending_status row.status) ≡ false
      → find (has_enrollment id) (
          update_where
            (λ r. has_enrollment id r && is_pending_status r.status)
            (activated x c fingerprint clock)
            rows)
        ≡ some (activated x c fingerprint clock row)
  activated-found id fingerprint clock row rows found p =
      let updated =
        find-update (has_enrollment id) (λ r. has_enrollment id r && is_pending_status r.status)
          (activated x c fingerprint clock) (λ r. refl) rows row found in
      let own = find-some (has_enrollment id) rows row found in
      let test : (has_enrollment id row && is_pending_status row.status) ≡ true =
        ground (arith, own, p) in
      rw (updated, test) refl

  shown_active :
      (id : String) (now : ℤ) (db : Db) (row : EnrollmentRow)
      → find (has_enrollment id) db.enrollments ≡ some row
      → row.status ≡ active
      → enrollment_status id now db ≡ some (EnrollmentStatus.active, row.fingerprint)
  unfolding enrollment_status shown_status
  shown_active id now db row found is = elim (Bool-cases (lebℤ row.expires_at now)) [
    | inl t ↦ rw (found, is, t, enrollment_status, shown_status) refl
    | inr u ↦ rw (found, is, u, enrollment_status, shown_status) refl
  ]

  replay_refused :
      (id : String) (device : DevicePublicRecord) (now clock : ℤ) (db : Db) (row : EnrollmentRow)
      → find (has_enrollment id) db.enrollments ≡ some row
      → row.status ≡ active
      → is_err (activate_enrollment x c id device now clock db) ≡ true
  unfolding activate_enrollment
  replay_refused id device now clock db row found is =
      elim (Result-cases (checked (validate_device x device) invalid)) [
        | inl (u, v) ↦ rw (v, found, is, activate_enrollment) refl
        | inr (e, v) ↦ rw (v, activate_enrollment) refl
      ]

  -- What an activation that succeeds had in hand, and what it leaves.
  pub record IsActivated (id : String) (device : DevicePublicRecord) (now : ℤ) (db db' : Db)
      : Type 0 where
    pub row : EnrollmentRow
    pub found : find (has_enrollment id) db.enrollments ≡ some row
    pub was_pending : row.status ≡ pending
    pub live : now <ℤ row.expires_at
    pub submission : EnrollmentSubmission
    pub stored : Bytes × Bytes
    pub was_submitted : row.submission ≡ some stored
    pub parsed : c.submission_from_slice stored.1 ≡ some submission
    pub valid : validate_device x device ≡ ok tt
    pub binds : IsBound x c submission device
    pub token_hash : Bytes
    pub token_decoded : decode_base64url x device.api_token_hash ≡ ok token_hash
    pub json : String
    pub written : c.device_to_string device ≡ some json
    pub served : IsServed device token_hash json db'.devices
    pub shown :
        enrollment_status id now db' ≡ some (EnrollmentStatus.active, some device.fingerprint)

  -- An activation succeeds only for an enrollment that was pending, had not expired and had a submission,
  -- and for a valid device with the submission's kind, credential id, box key, token hash and label, and for
  -- a native device its credential key too. Then the device is stored and active with its credential id, its
  -- token hash and its JSON, and the enrollment is shown as active under its fingerprint. In the store that
  -- the activation leaves, another one of the enrollment, of any device at any time, is refused.
  pub activate_enrollment-IsActivated :
      (id : String) (device other : DevicePublicRecord) (now clock now' clock' : ℤ) (db db' : Db)
      → activate_enrollment x c id device now clock db ≡ ok db'
      → IsActivated id device now db db'
        × (is_err (activate_enrollment x c id other now' clock' db') ≡ true)
  unfolding activate_enrollment
  activate_enrollment-IsActivated id device other now clock now' clock' db db' h =
      let (u, valid, h1) = >>=-eq-ok (checked (validate_device x device) invalid) _ h in
      let (row, found, h2) =
        >>=-eq-ok (ok_or (find (has_enrollment id) db.enrollments) unknown) _ h1 in
      let (p, h3) = refuse-eq-ok (not (is_pending_status row.status)) not_pending _ h2 in
      let (l, h4) = refuse-eq-ok (lebℤ row.expires_at now) StoreError.expired _ h3 in
      let (stored, s, h5) = >>=-eq-ok (ok_or row.submission no_submission) _ h4 in
      let (submission, d, h6) = >>=-eq-ok (ok_or (c.submission_from_slice stored.1) codec) _ h5 in
      let (matches, b, h7) = >>=-eq-ok (submission_binds_device x c submission device) _ h6 in
      let (m, h8) = refuse-eq-ok (not matches) mismatch _ h7 in
      let (hash, k, h9) =
        >>=-eq-ok (checked (decode_base64url x device.api_token_hash) codec) _ h8 in
      let (json, j, h10) = >>=-eq-ok (ok_or (c.device_to_string device) codec) _ h9 in
      let (rows, w, h11) = >>=-eq-ok (upsert_device x c device hash json clock db.devices) _ h10 in
      let found' : find (has_enrollment id) db.enrollments ≡ some row = ground (arith, found) in
      let after : find (has_enrollment id) db'.enrollments
          ≡ some (activated x c device.fingerprint clock row) =
        subst
          (λ (d : Db).
            find (has_enrollment id) d.enrollments
            ≡ some (activated x c device.fingerprint clock row))
          (ok_inj h11) (activated-found id device.fingerprint clock row db.enrollments found' p) in
      (
        record {
          row = row;
          found = found';
          was_pending = pending_status_lem row.status p;
          live = ground (arith, l);
          submission = submission;
          stored = stored;
          was_submitted = ground (arith, s);
          parsed = ground (arith, d);
          valid = checked-eq-ok (validate_device x device) invalid valid;
          binds = binds-IsBound x c submission device (b ∙ ap (λ t. ok t) (ground (arith, m)));
          token_hash = hash;
          token_decoded = checked-eq-ok (decode_base64url x device.api_token_hash) codec k;
          json = json;
          written = ground (arith, j);
          served =
              subst (λ (d : Db). IsServed device hash json d.devices) (ok_inj h11)
                (upsert_device_lem device hash json clock db.devices rows w);
          shown = shown_active id now db' _ after refl;
        },
        replay_refused id other now' clock' db' _ after refl,
      )
