-- ===== src/Server/Effects/Run.antt =====
-- The effect of each call of the store (server/src/db.rs).
use oshioki.Base.{
  ◌≡◌, refl, inl, inr, not, ◌&&◌, String, ℕ, any, find, leb, ◌==◌, text_has_eq, Bool-cases,
  Option-cases,
}
use mathlib.Core.Path.{subst}
use oshioki.Base.Int.{ℤ, lebℤ}
use oshioki.Base.Result.{Result, ok, err, ok_or, >>=-eq-ok, refuse-eq-ok, Result-cases, ok_inj}
use oshioki.Protocol.External.{External}
use oshioki.Protocol.Encoding.{decode_base64url}
use oshioki.Protocol.Device.{DevicePublicRecord, validate_device}
use oshioki.Protocol.Tool.Decide.{ToolApprovalDecision, assertion, validate_tool_decision_shape}
use oshioki.Protocol.Decision.{Decision}
use oshioki.Protocol.Auth.Verify.{AuthDecision}
use oshioki.Server.Tables.{
  request, auth, tool, Db, StoreError, invalid, unknown, mismatch, not_pending, no_submission,
  codec, InsertResult, Codec,
}
use oshioki.Server.Push.{abandon_ineligible_pushes, push_max_attempts}
use oshioki.Server.Push.Leases.{
  is_claimable, is_held, claim_push, mark_push_sent, retry_push, abandon_push,
  disable_push_for_claim,
}
use oshioki.Server.Ingest.{checked, ingest_request, ingest_auth_request, ingest_tool_request}
use oshioki.Server.Decide.{queue_decision, queue_auth_decision, queue_tool_decision}
use oshioki.Server.Enroll.{has_enrollment, is_pending_status, set_device_active}
use oshioki.Server.Enroll.Activate.{
  submit_enrollment, submission_binds_device, upsert_device, activate_enrollment,
}
use oshioki.Server.Outbox.{expire_stale_deliveries, mark_outbox_sent}
use oshioki.Server.Calls.{Call, run, settled}
use oshioki.Server.Calls as call
use oshioki.Server.Effects.{
  IsQuiet, IsQuiet-same, IsQuiet-refl, Effect, quiet, sweeps, enrolls, retain-IsQuiet,
  update-IsQuiet,
}
use oshioki.Server.Effects.Ingests.{
  ingest_request-Effect, ingest_auth_request-Effect, ingest_tool_request-Effect,
}
use oshioki.Server.Effects.Others.{
  decide-Effect, create_enrollment-IsQuiet, queue_notification-IsQuiet, set_device_active-Effect,
  submit_enrollment-IsQuiet, upsert_device-KeepsCredentials,
}

module _ (x : External) where
  settled-Effect {ℓ} :
      {A : Type ℓ} (db : Db) (r : Result StoreError (Db × A))
      → ((db' : Db) (a : A) → r ≡ ok (db', a) → Effect x db db')
      → Effect x db (settled db r)
  settled-Effect db (err e) effect = quiet db (IsQuiet-refl x db)
  settled-Effect db (ok (db', a)) effect = effect db' a refl

  claim_push-IsQuiet :
      (token : String) (now lease_secs : ℤ) (db : Db)
      → IsQuiet x db (claim_push token now lease_secs db).0
  unfolding claim_push abandon_ineligible_pushes
  claim_push-IsQuiet token now lease_secs db =
      elim (Option-cases (find (is_claimable db now) db.push_outbox)) [
        | inl n ↦ rw (n, claim_push) (IsQuiet-same x db _ refl refl refl)
        | inr (p, s) ↦ rw (s, claim_push) (IsQuiet-same x db _ refl refl refl)
      ]

  retry_push-IsQuiet :
      (id : ℕ) (token : String) (now : ℤ) (error : String) (db : Db)
      → IsQuiet x db (retry_push id token now error db).0
  unfolding retry_push
  retry_push-IsQuiet id token now error db =
      elim (Option-cases (find (is_held id token) db.push_outbox)) [
        | inl n ↦ rw (n, retry_push) (IsQuiet-same x db _ refl refl refl)
        | inr (p, s) ↦ elim (Bool-cases (leb push_max_attempts p.attempts)) [
          | inl t ↦ rw (s, t, retry_push) (IsQuiet-same x db _ refl refl refl)
          | inr u ↦ rw (s, u, retry_push) (IsQuiet-same x db _ refl refl refl)
        ]
      ]

  disable_push-IsQuiet :
      (id : ℕ) (endpoint_id token : String) (now : ℤ) (error : String) (db : Db)
      → IsQuiet x db (disable_push_for_claim id endpoint_id token now error db).0
  unfolding disable_push_for_claim
  disable_push-IsQuiet id endpoint_id token now error db =
      elim (Bool-cases
        (any (λ p. is_held id token p && p.endpoint_id == endpoint_id) db.push_outbox)) [
          | inl t ↦ rw (t, disable_push_for_claim) (IsQuiet-same x db _ refl refl refl)
          | inr u ↦ rw (u, disable_push_for_claim) (IsQuiet-same x db _ refl refl refl)
        ]

  module _ (c : Codec) where
    activate_enrollment-Effect :
        (id : String) (device : DevicePublicRecord) (now clock : ℤ) (db db' : Db)
        → activate_enrollment x c id device now clock db ≡ ok db'
        → Effect x db db'
    unfolding activate_enrollment
    activate_enrollment-Effect id device now clock db db' h =
        let (u, valid, h1) = >>=-eq-ok (checked (validate_device x device) invalid) _ h in
        let (row, found, h2) =
          >>=-eq-ok (ok_or (find (has_enrollment id) db.enrollments) unknown) _ h1 in
        let (p, h3) = refuse-eq-ok (not (is_pending_status row.status)) not_pending _ h2 in
        let (l, h4) = refuse-eq-ok (lebℤ row.expires_at now) StoreError.expired _ h3 in
        let (stored, s, h5) = >>=-eq-ok (ok_or row.submission no_submission) _ h4 in
        let (submission, d, h6) = >>=-eq-ok (ok_or (c.submission_from_slice stored.1) codec) _ h5 in
        let (matches, b, h7) = >>=-eq-ok (submission_binds_device x c submission device) _ h6 in
        let (m, h8) = refuse-eq-ok (not matches) mismatch _ h7 in
        let (hash, k, h9) =
          >>=-eq-ok (checked (decode_base64url x device.api_token_hash) codec) _ h8 in
        let (json, j, h10) = >>=-eq-ok (ok_or (c.device_to_string device) codec) _ h9 in
        let (rows, w, h11) =
          >>=-eq-ok (upsert_device x c device hash json clock db.devices) _ h10 in
        subst (Effect x db) (ok_inj h11) (
          enrolls _ (λ lane. refl) refl
            (upsert_device-KeepsCredentials x c device hash json clock db.devices rows w))

    queue_decision-Effect :
        (id f : String) (d : Decision) (now clock : ℤ) (db db' : Db) (r : InsertResult)
        → queue_decision x c id f d now clock db ≡ ok (db', r)
        → Effect x db db'
    unfolding queue_decision
    queue_decision-Effect id f d now clock db db' r h =
        let (raw, written, h1) = >>=-eq-ok (ok_or (c.decision_to_vec d) codec) _ h in
        decide-Effect x request _ id f _ raw now clock db db' r h1

    queue_auth_decision-Effect :
        (id f : String) (d : AuthDecision) (now clock : ℤ) (db db' : Db) (r : InsertResult)
        → queue_auth_decision x c id f d now clock db ≡ ok (db', r)
        → Effect x db db'
    unfolding queue_auth_decision
    queue_auth_decision-Effect id f d now clock db db' r h =
        let (raw, written, h1) = >>=-eq-ok (ok_or (c.auth_decision_to_vec d) codec) _ h in
        decide-Effect x auth _ id f _ raw now clock db db' r h1

    queue_tool_decision-Effect :
        (id f : String) (d : ToolApprovalDecision) (now : ℤ) (db db' : Db) (r : InsertResult)
        → queue_tool_decision x c id f d now db ≡ ok (db', r)
        → Effect x db db'
    unfolding queue_tool_decision
    queue_tool_decision-Effect id f d now db db' r h =
        let (u, shape, h1) =
          >>=-eq-ok (checked (validate_tool_decision_shape x (assertion d)) invalid) _ h in
        let (same, h2) = refuse-eq-ok (not ((assertion d).request_id == id)) mismatch _ h1 in
        let (raw, written, h3) = >>=-eq-ok (ok_or (c.tool_decision_to_vec d) codec) _ h2 in
        decide-Effect x tool _ id f _ raw now now db db' r h3

    pub run-Effect : (call : Call) (db : Db) → Effect x db (run x c call db)
    unfolding run set_device_active expire_stale_deliveries mark_outbox_sent mark_push_sent
        abandon_push
    run-Effect (call.ingests_request raw e now clock) db =
        settled-Effect db (ingest_request x c raw e now clock db)
          (ingest_request-Effect x c raw e now clock db)
    run-Effect (call.ingests_auth raw e now clock) db =
        settled-Effect db (ingest_auth_request x c raw e now clock db)
          (ingest_auth_request-Effect x c raw e now clock db)
    run-Effect (call.ingests_tool raw e now) db =
        settled-Effect db (ingest_tool_request x c raw e now db)
          (ingest_tool_request-Effect x c raw e now db)
    run-Effect (call.decides_request id f d now clock) db =
        settled-Effect db (queue_decision x c id f d now clock db)
          (queue_decision-Effect id f d now clock db)
    run-Effect (call.decides_auth id f d now clock) db =
        settled-Effect db (queue_auth_decision x c id f d now clock db)
          (queue_auth_decision-Effect id f d now clock db)
    run-Effect (call.decides_tool id f d now) db =
        settled-Effect db (queue_tool_decision x c id f d now db)
          (queue_tool_decision-Effect id f d now db)
    run-Effect (call.creates_enrollment id hash expires_at subject clock) db =
        quiet _ (create_enrollment-IsQuiet x id hash expires_at subject clock db)
    run-Effect (call.submits_enrollment id s now clock) db =
        settled-Effect db (submit_enrollment x c id s now clock db)
          (λ db' r h. quiet db' (submit_enrollment-IsQuiet x c id s now clock db db' r h))
    run-Effect (call.activates_enrollment id d now clock) db =
        elim (Result-cases (activate_enrollment x c id d now clock db)) [
          | inl (db', h) ↦ rw h (activate_enrollment-Effect id d now clock db db' h)
          | inr (e, h) ↦ rw h (quiet db (IsQuiet-refl x db))
        ]
    run-Effect (call.sets_device_active f enabled clock) db =
        set_device_active-Effect x f enabled clock db
    run-Effect (call.queues_notification id endpoint payload clock) db =
        quiet _ (queue_notification-IsQuiet x id endpoint payload clock db)
    run-Effect (call.expires_deliveries now) db = quiet _ (retain-IsQuiet x _ db)
    run-Effect (call.marks_sent id clock) db =
        quiet _ (update-IsQuiet x _ _ db (λ r lane i h same. same))
    run-Effect (call.cleans now) db = sweeps now
    run-Effect (call.claims_push token now lease_secs) db =
        quiet _ (claim_push-IsQuiet token now lease_secs db)
    run-Effect (call.marks_push_sent id token now) db = quiet _ (IsQuiet-same x db _ refl refl refl)
    run-Effect (call.retries_push id token now error) db =
        quiet _ (retry_push-IsQuiet id token now error db)
    run-Effect (call.abandons_push id token now error) db =
        quiet _ (IsQuiet-same x db _ refl refl refl)
    run-Effect (call.disables_push id endpoint token now error) db =
        quiet _ (disable_push-IsQuiet id endpoint token now error db)
