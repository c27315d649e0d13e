-- ===== src/Server/Tests/Store.antt =====
-- The store from its migration to a recorded denial.
use oshioki.Base.{
  Bool, String, ◌⊎◌, arith, any, ◌≡◌, ◌↔◌, refl, true, false, none, some, List, [], ◌∷◌, ◌++◌, find,
}
use oshioki.Base.Int.{pos, ◌≤ℤ◌, saturating_sub}
use Prim.Native.String.{◌++◌ as text_append}
use oshioki.Base.Result.{ok, err, is_err}
use oshioki.Protocol.Cbor.{cbor_values_equal, claim, validate_cbor_value}
use oshioki.Protocol.Encoding.{
  encode_base64url, decode_base64url, decode_exact, valid_fingerprint, valid_id,
}
use oshioki.Protocol.Cose.{cose_p256_verifying_key}
use oshioki.Protocol.Device.{
  fingerprint_preimage, device_fingerprint, validate_key, validate_device,
}
use oshioki.Protocol.Timing.{validate_request_timing}
use oshioki.Protocol.Request.{validate_envelope, validate_envelope_at, validate_sealed}
use oshioki.Protocol.Example.{zeros, encode, decode_from, digest, toy}
use oshioki.Protocol.External.{Bytes}
use oshioki.Protocol.Auth.Verify.{AuthDecision, authenticate_native}
use oshioki.Server.Tables.{
  Lane, request, auth, pending, resolved, RequestRow, Db, DeviceRow, auth_decision, StoreError,
  not_owner, inserted, find_request, has_device, has_key, new_row, add_outbox, set_lane, queue,
}
use oshioki.Server.Push.{is_push_eligible, enqueue_push}
use oshioki.Server.Ingest.{
  add_request, insert_bodies, store_request, queue_receipt, redelivered, ingest_request,
}
use oshioki.Server.Decide.{
  owns, resolve_request, decide, queue_decision, is_hardware, queue_auth_decision, recorded_verdict,
}
use oshioki.Server.Enroll.{create_enrollment}
use oshioki.Server.Enroll.Activate.{
  record_submission, submit_enrollment, submission_binds_device, upsert_device, activate_enrollment,
}
use oshioki.Server.Ingest.{server_request_retention_secs}
use oshioki.Server.Outbox.{expire_stale_deliveries, sweep, cleanup_tables, cleanup_db}
use oshioki.Server.Activation.{IsActivated, activate_enrollment-IsActivated}
use oshioki.Server.Retention.{cleanup_exact}
use oshioki.Server.Calls.{Call, ingests_request, sets_device_active, cleans, run, runs, empty_db}
use oshioki.Server.Phase.{state_of, IsStore, Move, run_refines, runs-IsStore}
use oshioki.Server.Verdicts.{recorded_verdict_agrees}
use oshioki.Server.Effects.{IsSameCredential}
use oshioki.Server.Credentials.{credentials_are_pinned}
use oshioki.Server.Answers.{IsAnswerable, IsRefused, queue_decision_errors}
use oshioki.Server.Answers.Auth.{IsHardware, IsAnswered, queue_auth_decision_iff}
use oshioki.Server.Tests.Example.{submits, phone, codec, envelope, denial, enrolls, answers}

-- Everything that the tests compute through.
store : Unit {0}
unfolding validate_device validate_key cose_p256_verifying_key decode_exact decode_base64url
    valid_fingerprint device_fingerprint fingerprint_preimage encode_base64url validate_cbor_value
    cbor_values_equal claim encode decode_from digest valid_id validate_request_timing
    validate_envelope validate_envelope_at validate_sealed queue is_push_eligible enqueue_push
    insert_bodies store_request queue_receipt redelivered ingest_request owns resolve_request decide
    queue_decision is_hardware queue_auth_decision recorded_verdict create_enrollment
    record_submission submit_enrollment submission_binds_device upsert_device activate_enrollment
    run runs
store = tt

answered_example :
    state_of request "req-1" (runs toy codec (enrolls ++ answers) empty_db)
    ≡ some (resolved (zeros 32) (pos 1020))
unfolding store
answered_example = refl

abbrev ingest : Call
ingest = ingests_request (0 ∷ []) envelope (pos 1010) (pos 1010)

abbrev revokes : List Call
revokes = sets_device_active phone.fingerprint false (pos 950) ∷ cleans (pos 960) ∷ []

abbrev token_hash : Bytes
token_hash = zeros 32

abbrev assertion : AuthDecision
assertion = authenticate_native (record {
  version = 1;
  request_id = "req-1";
  device_fingerprint = phone.fingerprint;
  signature = "";
})

abbrev enrolled : Db
enrolled = runs toy codec enrolls empty_db

abbrev answered : Db
answered = runs toy codec (enrolls ++ answers) empty_db

recorded : recorded_verdict request "req-1" answered ≡ some (5 ∷ [])
unfolding store
recorded = refl

recorded_verdict_agrees_example : digest (5 ∷ []) ≡ zeros 32
recorded_verdict_agrees_example =
    recorded_verdict_agrees toy codec (enrolls ++ answers) request "req-1" (zeros 32) (5 ∷ [])
      (pos 1020) answered_example recorded

no_requests-IsStore : IsStore empty_db
no_requests-IsStore lane id = omega arith

run_refines_example :
    IsStore (run toy codec ingest enrolled)
    × ((lane : Lane) (id : String)
        → Move (state_of lane id enrolled) (state_of lane id (run toy codec ingest enrolled)))
run_refines_example =
    run_refines toy codec ingest enrolled
      (runs-IsStore toy codec enrolls empty_db no_requests-IsStore)

abbrev answered_row : RequestRow
answered_row = record {
  id = "req-1";
  envelope_hash = zeros 32;
  envelope_json = 0 ∷ [];
  host = some "host";
  user = some "eric";
  issued_at = pos 1000;
  expires_at = pos 1090;
  state = resolved (zeros 32) (pos 1020);
  created_at = pos 1010;
}

abbrev phone_row : DeviceRow
phone_row = record {
  fingerprint = phone.fingerprint;
  credential_id = phone.credential_id;
  api_token_hash = token_hash;
  public_record_json = "{}";
  active = true;
  updated_at = pos 920;
}

phone_stored : find (has_device phone.fingerprint) enrolled.devices ≡ some phone_row
unfolding store
phone_stored = refl

credentials_are_pinned_example :
    (d : DeviceRow) × (find (has_device phone.fingerprint) (runs toy codec revokes enrolled).devices
      ≡ some d)
    × IsSameCredential d phone_row
credentials_are_pinned_example =
    credentials_are_pinned toy codec revokes enrolled phone.fingerprint phone_row phone_stored

queue_decision_errors_example :
    (queue_decision toy codec "req-1" "other" denial (pos 1020) (pos 1020) answered ≡ err not_owner)
    ↔ ((codec.decision_to_vec denial ≡ none) × (not_owner ≡ StoreError.codec)
        ⊎ (raw : Bytes) × (codec.decision_to_vec denial ≡ some raw)
          × IsRefused toy
              (λ device. Unit {0})
              request
              "req-1"
              "other"
              (pos 1020)
              answered
              not_owner)
queue_decision_errors_example =
    queue_decision_errors toy codec "req-1" "other" denial (pos 1020) (pos 1020) answered not_owner

refused :
    queue_decision toy codec "req-1" "other" denial (pos 1020) (pos 1020) answered ≡ err not_owner
unfolding store
refused = refl

-- The answered store, with the request asked again in the lane of authentications.
abbrev authenticating : Db
authenticating =
    add_request auth
      (record {
        id = "req-1";
        envelope_hash = [];
        envelope_json = [];
        host = some "host";
        user = none;
        issued_at = pos 1000;
        expires_at = pos 1090;
        state = pending;
        created_at = pos 1010;
      })
      (set_lane enrolled auth (record {
        requests = [];
        sealed_bodies =
            record { request_id = "req-1"; fingerprint = phone.fingerprint; body_json = [] } ∷ [];
      }))

abbrev authenticated : Db
authenticated =
    add_outbox
      (new_row authenticating.outbox auth_decision "req-1" (text_append "oshioki.verdict." "req-1")
        (6 ∷ []) (pos 1020) none)
      (resolve_request auth "req-1" (toy.sha256 (6 ∷ [])) (pos 1020) authenticating)

authenticates :
    queue_auth_decision toy codec "req-1" phone.fingerprint assertion
      (pos 1020)
      (pos 1020)
      authenticating
    ≡ ok (authenticated, inserted)
unfolding store
authenticates = refl

queue_auth_decision_iff_example :
    (queue_auth_decision toy codec "req-1" phone.fingerprint assertion
        (pos 1020)
        (pos 1020)
        authenticating
      ≡ ok (authenticated, inserted))
    ↔ ((raw : Bytes) × (row : RequestRow) × (codec.auth_decision_to_vec assertion ≡ some raw)
        × IsAnswerable toy
            (IsHardware toy codec)
            auth
            "req-1"
            phone.fingerprint
            (pos 1020)
            authenticating
            row
        × (row.state ≡ pending)
        × (any (has_key auth_decision "req-1") authenticating.outbox ≡ false)
        × IsAnswered toy codec "req-1" raw (pos 1020) authenticating authenticated)
queue_auth_decision_iff_example =
    queue_auth_decision_iff toy codec "req-1" phone.fingerprint assertion (pos 1020) (pos 1020)
      authenticating authenticated

abbrev submitted_db : Db
submitted_db = runs toy codec submits empty_db

activates :
    activate_enrollment toy codec "enr-1" phone (pos 920) (pos 920) submitted_db ≡ ok enrolled
unfolding store
activates = refl

activate_enrollment-IsActivated_example :
    IsActivated toy codec "enr-1" phone (pos 920) submitted_db enrolled
    × (is_err (activate_enrollment toy codec "enr-1" phone (pos 930) (pos 930) enrolled) ≡ true)
activate_enrollment-IsActivated_example =
    activate_enrollment-IsActivated toy codec "enr-1" phone phone (pos 920) (pos 920) (pos 930)
      (pos 930) submitted_db enrolled activates

cleanup_exact_example :
    ((find_request request "req-1" (cleanup_db (pos 1300) answered) ≡ some answered_row) ↔ (
      (find_request request "req-1" answered ≡ some answered_row)
      × (saturating_sub (pos 1300) server_request_retention_secs ≤ℤ answered_row.created_at)))
    × ((find_request request "req-1" (cleanup_db (pos 1300) answered) ≡ some answered_row)
        → (test : DeviceRow → Bool) (fingerprint : String)
        → owns test request "req-1" fingerprint (cleanup_db (pos 1300) answered)
          ≡ owns test request "req-1" fingerprint answered)
cleanup_exact_example =
    cleanup_exact request "req-1" answered_row (pos 1300) answered
      (runs-IsStore toy codec (enrolls ++ answers) empty_db no_requests-IsStore)

kept :
    (find_request request "req-1" answered ≡ some answered_row)
    × (find_request request "req-1" (cleanup_db (pos 1310) answered) ≡ some answered_row)
    × (find_request request "req-1" (cleanup_db (pos 1311) answered) ≡ none)
unfolding store cleanup_db cleanup_tables sweep expire_stale_deliveries saturating_sub
kept = (refl, refl, refl)
