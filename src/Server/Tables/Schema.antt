-- ===== src/Server/Tables/Schema.antt =====
-- The rows of server/src/db.rs, the readers and writers of JSON that it uses, and its results.
use oshioki.Base.{ℕ, Bool, true, false, Option, List, String, nat_has_eq, text_has_eq}
use oshioki.Base.Int.{ℤ}
use oshioki.Protocol.External.{Bytes}
use oshioki.Protocol.Device.{DevicePublicRecord}
use oshioki.Protocol.Request.{RequestEnvelope, SealedDeviceBody}
use oshioki.Protocol.Decision.{Decision}
use oshioki.Protocol.Enrollment.{EnrollmentSubmission}
use oshioki.Protocol.Auth.Envelope.{AuthEnvelope}
use oshioki.Protocol.Auth.Verify.{AuthDecision}
use oshioki.Protocol.Tool.Request.{ToolDelivery}
use oshioki.Protocol.Tool.Decide.{ToolApprovalEnvelope, ToolApprovalDecision}
use oshioki.Protocol.Socket.{Delivery}

-- The three lanes, which the columns `request_kind` name.
pub data Lane : Type 0 where
  request auth tool : Lane

abbrev pub lane_eq : Lane → Lane → Bool
lane_eq request request = true
lane_eq auth auth = true
lane_eq tool tool = true
lane_eq _ _ = false

-- The column `state` with the columns that are written together with it.
pub data State : Type 0 where
  pending : State
  resolved : (decision_hash : Bytes) → (resolved_at : ℤ) → State

-- A row of `requests`, `auth_requests` or `tool_requests`; the last has no host, and only the first a
-- user.
pub record RequestRow : Type 0 where
  pub id : String
  pub envelope_hash : Bytes
  pub envelope_json : Bytes
  pub host : Option String
  pub user : Option String
  pub issued_at : ℤ
  pub expires_at : ℤ
  pub state : State
  pub created_at : ℤ

-- A row of `sealed_bodies`, `auth_sealed_bodies` or `tool_sealed_bodies`.
pub record BodyRow : Type 0 where
  pub request_id : String
  pub fingerprint : String
  pub body_json : Bytes

pub record LaneTables : Type 0 where
  pub requests : List RequestRow
  pub sealed_bodies : List BodyRow

pub record DeviceRow : Type 0 where
  pub fingerprint : String
  pub credential_id : String
  pub api_token_hash : Bytes
  pub public_record_json : String
  pub active : Bool
  pub updated_at : ℤ

-- The values of `enrollments.status` that the program writes.
pub data Status : Type 0 where
  pending active expired : Status

pub record EnrollmentRow : Type 0 where
  pub id : String
  pub secret_hash : Bytes
  pub status : Status
  pub expires_at : ℤ
  pub reply_subject : String
  -- `submission_hash` and `submission_json`, which are written together
  pub submission : Option (Bytes × Bytes)
  pub fingerprint : Option String
  pub updated_at : ℤ

pub data OutboxKind : Type 0 where
  decision auth_decision tool_decision delivery tool_delivery : OutboxKind
  enrollment_submission ntfy : OutboxKind

abbrev pub outbox_kind_eq : OutboxKind → OutboxKind → Bool
outbox_kind_eq decision decision = true
outbox_kind_eq auth_decision auth_decision = true
outbox_kind_eq tool_decision tool_decision = true
outbox_kind_eq delivery delivery = true
outbox_kind_eq tool_delivery tool_delivery = true
outbox_kind_eq enrollment_submission enrollment_submission = true
outbox_kind_eq ntfy ntfy = true
outbox_kind_eq _ _ = false

pub record OutboxRow : Type 0 where
  pub id : ℕ
  pub kind : OutboxKind
  pub dedupe_key : String
  pub subject : String
  pub payload : Bytes
  pub created_at : ℤ
  pub sent_at : Option ℤ
  pub attempts : ℕ
  pub expires_at : Option ℤ

pub record Tombstone : Type 0 where
  pub kind : Lane
  pub object_id : String
  pub payload_hash : Bytes
  pub expires_at : ℤ

pub record EndpointRow : Type 0 where
  pub id : String
  pub endpoint : String
  pub p256dh : Bytes
  pub auth : Bytes
  pub expiration_at : Option ℤ
  pub installation_token_hash : Option Bytes
  pub created_at : ℤ
  pub updated_at : ℤ
  pub disabled_at : Option ℤ
  pub last_error : Option String

pub record SubscriptionRow : Type 0 where
  pub id : String
  pub endpoint_id : String
  pub device_fingerprint : String
  pub created_at : ℤ
  pub updated_at : ℤ
  pub disabled_at : Option ℤ

pub record PushRow : Type 0 where
  pub id : ℕ
  pub request_kind : Lane
  pub request_id : String
  pub endpoint_id : String
  pub payload : Bytes
  pub created_at : ℤ
  pub available_at : ℤ
  pub attempts : ℕ
  pub sent_at : Option ℤ
  pub abandoned_at : Option ℤ
  -- `claim_token` and `claimed_until`, which are written together
  pub claim : Option (String × ℤ)
  pub last_error : Option String

pub record Db : Type 0 where
  pub lanes : Lane → LaneTables
  pub devices : List DeviceRow
  pub enrollments : List EnrollmentRow
  pub tombstones : List Tombstone
  pub outbox : List OutboxRow
  pub push_endpoints : List EndpointRow
  pub push_subscriptions : List SubscriptionRow
  pub push_outbox : List PushRow

pub data StoreError : Type 0 where
  oversized invalid unknown expired not_owner mismatch not_pending no_submission : StoreError
  capability_conflict owned_elsewhere not_allowed constraint codec : StoreError

pub data InsertResult : Type 0 where
  inserted identical conflict : InsertResult

pub data RequestLifecycle : Type 0 where
  pending gone : RequestLifecycle

-- `serde_json` at the types that the store writes and reads, and SQLite's `json_extract(.., '$.kind')`.
pub record Codec : Type 0 where
  pub envelope_to_vec : RequestEnvelope → Option Bytes
  pub auth_envelope_to_vec : AuthEnvelope → Option Bytes
  pub tool_envelope_to_vec : ToolApprovalEnvelope → Option Bytes
  pub body_to_vec : SealedDeviceBody → Option Bytes
  pub decision_to_vec : Decision → Option Bytes
  pub auth_decision_to_vec : AuthDecision → Option Bytes
  pub tool_decision_to_vec : ToolApprovalDecision → Option Bytes
  pub delivery_to_vec : Delivery → Option Bytes
  pub tool_delivery_to_vec : ToolDelivery → Option Bytes
  pub submission_to_vec : EnrollmentSubmission → Option Bytes
  pub submission_from_slice : Bytes → Option EnrollmentSubmission
  pub device_to_string : DevicePublicRecord → Option String
  pub device_from_str : String → Option DevicePublicRecord
  -- the object of a push: its version 1, the lane and the request's id
  pub push_payload_to_vec : Lane → String → Option Bytes
  pub json_kind : String → Option String
