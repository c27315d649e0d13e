-- ===== src/Server/Calls.antt =====
-- The mutations of the store as one type of calls, and what a sequence of them does. Each call holds
-- the lock of the connection, so concurrent handlers and workers are interleavings of whole calls; one
-- that fails has rolled back and leaves the tables as they were.
use oshioki.Base.{ℕ, Bool, List, [], ◌∷◌, String}
use oshioki.Base.Int.{ℤ}
use oshioki.Base.Result.{Result, ok, err}
use oshioki.Protocol.External.{Bytes, External}
use oshioki.Protocol.Device.{DevicePublicRecord}
use oshioki.Protocol.Request.{RequestEnvelope}
use oshioki.Protocol.Decision.{Decision}
use oshioki.Protocol.Enrollment.{EnrollmentSubmission}
use oshioki.Protocol.Auth.Envelope.{AuthEnvelope}
use oshioki.Protocol.Auth.Verify.{AuthDecision}
use oshioki.Protocol.Tool.Decide.{ToolApprovalEnvelope, ToolApprovalDecision}
use oshioki.Server.Tables.{LaneTables, Db, StoreError, Codec}
use oshioki.Server.Push.Leases.{
  claim_push, mark_push_sent, retry_push, abandon_push, disable_push_for_claim,
}
use oshioki.Server.Ingest.{ingest_request, ingest_auth_request, ingest_tool_request}
use oshioki.Server.Decide.{queue_decision, queue_auth_decision, queue_tool_decision}
use oshioki.Server.Enroll.{create_enrollment, set_device_active}
use oshioki.Server.Enroll.Activate.{submit_enrollment, activate_enrollment}
use oshioki.Server.Outbox.{
  queue_notification, expire_stale_deliveries, mark_outbox_sent, cleanup_tables,
}

-- `cleanup` locks twice: it is `expires_deliveries` and then `cleans`, with any calls in between.
pub data Call : Type 0 where
  ingests_request : (raw : Bytes) → RequestEnvelope → (now clock : ℤ) → Call
  ingests_auth : (raw : Bytes) → AuthEnvelope → (now clock : ℤ) → Call
  ingests_tool : (raw : Bytes) → ToolApprovalEnvelope → (now : ℤ) → Call
  decides_request : (id fingerprint : String) → Decision → (now clock : ℤ) → Call
  decides_auth : (id fingerprint : String) → AuthDecision → (now clock : ℤ) → Call
  decides_tool : (id fingerprint : String) → ToolApprovalDecision → (now : ℤ) → Call
  creates_enrollment :
      (id : String) (secret_hash : Bytes) (expires_at : ℤ) (reply_subject : String) (clock : ℤ)
      → Call
  submits_enrollment : (id : String) → EnrollmentSubmission → (now clock : ℤ) → Call
  activates_enrollment : (id : String) → DevicePublicRecord → (now clock : ℤ) → Call
  sets_device_active : (fingerprint : String) → Bool → (clock : ℤ) → Call
  queues_notification : (request_id endpoint : String) → Bytes → (clock : ℤ) → Call
  expires_deliveries : (now : ℤ) → Call
  marks_sent : (id : ℕ) → (clock : ℤ) → Call
  cleans : (now : ℤ) → Call
  claims_push : (claim_token : String) → (now lease_secs : ℤ) → Call
  marks_push_sent : ℕ → (claim_token : String) → (now : ℤ) → Call
  retries_push abandons_push : ℕ → (claim_token : String) → (now : ℤ) → (error : String) → Call
  disables_push : ℕ → (endpoint_id claim_token : String) → (now : ℤ) → (error : String) → Call

-- The tables after a transaction.
abbrev pub settled {ℓ} : {A : Type ℓ} → Db → Result StoreError (Db × A) → Db
settled db (ok (db', a)) = db'
settled db (err e) = db

abbrev pub settled_db : Db → Result StoreError Db → Db
settled_db db (ok db') = db'
settled_db db (err e) = db

module _ (x : External) (c : Codec) where
  unfoldable pub run : Call → Db → Db
  unfolding ingest_request ingest_auth_request ingest_tool_request queue_decision
      queue_auth_decision queue_tool_decision create_enrollment submit_enrollment
      activate_enrollment set_device_active queue_notification expire_stale_deliveries
      mark_outbox_sent cleanup_tables claim_push mark_push_sent retry_push abandon_push
      disable_push_for_claim
  run (ingests_request raw e now clock) db = settled db (ingest_request x c raw e now clock db)
  run (ingests_auth raw e now clock) db = settled db (ingest_auth_request x c raw e now clock db)
  run (ingests_tool raw e now) db = settled db (ingest_tool_request x c raw e now db)
  run (decides_request id f d now clock) db = settled db (queue_decision x c id f d now clock db)
  run (decides_auth id f d now clock) db = settled db (queue_auth_decision x c id f d now clock db)
  run (decides_tool id f d now) db = settled db (queue_tool_decision x c id f d now db)
  run (creates_enrollment id hash expires_at subject clock) db =
      (create_enrollment id hash expires_at subject clock db).0
  run (submits_enrollment id s now clock) db = settled db (submit_enrollment x c id s now clock db)
  run (activates_enrollment id d now clock) db =
      settled_db db (activate_enrollment x c id d now clock db)
  run (sets_device_active f enabled clock) db = (set_device_active f enabled clock db).0
  run (queues_notification id endpoint payload clock) db =
      queue_notification id endpoint payload clock db
  run (expires_deliveries now) db = expire_stale_deliveries now db
  run (marks_sent id clock) db = mark_outbox_sent id clock db
  run (cleans now) db = cleanup_tables now db
  run (claims_push token now lease_secs) db = (claim_push token now lease_secs db).0
  run (marks_push_sent id token now) db = (mark_push_sent id token now db).0
  run (retries_push id token now error) db = (retry_push id token now error db).0
  run (abandons_push id token now error) db = (abandon_push id token now error db).0
  run (disables_push id endpoint token now error) db =
      (disable_push_for_claim id endpoint token now error db).0

  unfoldable pub runs : List Call → Db → Db
  unfolding run
  runs [] db = db
  runs (call ∷ calls) db = runs calls (run call db)

  -- What holds initially and is kept by each call holds after any sequence.
  pub runs-keeps {ℓ} :
      (P : Db → Type ℓ)
      → ((call : Call) (db : Db) → P db → P (run call db))
      → (calls : List Call) (db : Db) → P db
      → P (runs calls db)
  unfolding runs
  runs-keeps P keeps [] db h = h
  runs-keeps P keeps (call ∷ calls) db h = runs-keeps P keeps calls (run call db) (keeps call db h)

abbrev pub no_requests : LaneTables
no_requests = record { requests = []; sealed_bodies = [] }

-- The store after its migration.
abbrev pub empty_db : Db
empty_db = record {
  lanes = λ lane. no_requests;
  devices = [];
  enrollments = [];
  tombstones = [];
  outbox = [];
  push_endpoints = [];
  push_subscriptions = [];
  push_outbox = [];
}
