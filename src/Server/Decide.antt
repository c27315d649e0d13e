-- ===== src/Server/Decide.antt =====
-- Decisions in server/src/db.rs: `queue_decision`, `queue_auth_decision` and `queue_tool_decision`, what
-- they left for later readers, and the sealed body for the holder of an API token. The three write to
-- tables of their own; what they share is written once, over the lane.
use oshioki.Base.{
  Bool, true, not, ◌&&◌, ◌||◌, Option, none, some, List, [], ◌∷◌, String, any, find, ◌==◌,
  text_has_eq, if◌then◌else◌,
}
use Prim.Native.String.{◌++◌ as text_append}
use oshioki.Base.Int.{ℤ, lebℤ}
use oshioki.Base.Result.{Result, ok, refuse, ok_or, ◌>>=◌, ◌>>◌}
use oshioki.Protocol.Cbor.{bytes_eq}
use oshioki.Protocol.External.{Bytes, External}
use oshioki.Protocol.Decision.{Decision}
use oshioki.Protocol.Auth.Verify.{AuthDecision}
use oshioki.Protocol.Tool.Decide.{ToolApprovalDecision, assertion, validate_tool_decision_shape}
use oshioki.Server.Tables.{
  Lane, request, auth, tool, pending, resolved, RequestRow, BodyRow, DeviceRow, OutboxRow,
  OutboxKind, decision, auth_decision, tool_decision, Db, StoreError, invalid, unknown, expired,
  not_owner, mismatch, codec, InsertResult, inserted, identical, conflict, RequestLifecycle, gone,
  Codec, set_lane, has_id, find_request, has_body, has_device, has_key, update_where, queue,
}
use oshioki.Server.Push.{is_pending, is_live}
use oshioki.Server.Ingest.{checked, kind_of}

-- the body of this request and device, joined with a device that is active and passes the test
unfoldable pub owns : (test : DeviceRow → Bool) → Lane → (id fingerprint : String) → Db → Bool
owns test lane id fingerprint db =
    any (has_body id fingerprint) (db.lanes lane).sealed_bodies
    && any (λ d. has_device fingerprint d && d.active && test d) db.devices

abbrev resolve : (hash : Bytes) → (at : ℤ) → RequestRow → RequestRow
resolve hash at row = record row { state = resolved hash at }

-- `UPDATE .. SET state='resolved', .. WHERE id=? AND state='pending'`
unfoldable pub resolve_request : Lane → (id : String) → (hash : Bytes) → (at : ℤ) → Db → Db
resolve_request lane id hash at db = set_lane db lane (record (db.lanes lane) {
  requests =
      update_where (λ r. has_id id r && is_pending r.state) (resolve hash at)
        (db.lanes lane).requests;
})

-- What a decision gets that comes after the first.
abbrev pub repeated : (decision_hash hash : Bytes) → InsertResult
repeated decision_hash hash = if bytes_eq decision_hash hash then identical else conflict

abbrev pub kind_of_lane : Lane → OutboxKind
kind_of_lane request = decision
kind_of_lane auth = auth_decision
kind_of_lane tool = tool_decision

module _ (x : External) where
  open x use {sha256}

  -- The transaction of a decision with the JSON `raw`.
  unfoldable pub decide :
      Lane
      → (eligible : DeviceRow → Bool) → (id fingerprint subject : String) → (raw : Bytes)
      → (now clock : ℤ) → Db
      → Result StoreError (Db × InsertResult)
  unfolding owns resolve_request queue
  decide lane eligible id fingerprint subject raw now clock db = do
    row ← ok_or (find_request lane id db) unknown
    refuse (lebℤ row.expires_at now) expired
    refuse (not (owns eligible lane id fingerprint db)) not_owner
    elim row.state [
      | resolved decision_hash at ↦ ok (db, repeated decision_hash (sha256 raw))
      | pending ↦ do
        db' ←
            queue (kind_of_lane lane) id subject raw clock none
              (resolve_request lane id (sha256 raw) clock db)
        ok (db', inserted)
    ]

  module _ (c : Codec) where
    unfoldable pub queue_decision :
        (id fingerprint : String)
        → Decision
        → (now clock : ℤ) → Db
        → Result StoreError (Db × InsertResult)
    unfolding decide
    queue_decision id fingerprint verdict now clock db = do
      raw ← ok_or (c.decision_to_vec verdict) codec
      decide request (λ d. true) id fingerprint (text_append "oshioki.verdict." id) raw now clock db

    -- Only hardware may answer an authentication.
    unfoldable pub is_hardware : DeviceRow → Bool
    is_hardware d = kind_of c d == "webauthn" || kind_of c d == "secure-enclave"

    unfoldable pub queue_auth_decision :
        (id fingerprint : String)
        → AuthDecision
        → (now clock : ℤ) → Db
        → Result StoreError (Db × InsertResult)
    unfolding decide is_hardware
    queue_auth_decision id fingerprint verdict now clock db = do
      raw ← ok_or (c.auth_decision_to_vec verdict) codec
      decide auth is_hardware id fingerprint (text_append "oshioki.verdict." id) raw now clock db

    -- Here the time of the decision is `now`, not `unixepoch()`.
    unfoldable pub queue_tool_decision :
        (id fingerprint : String)
        → ToolApprovalDecision
        → (now : ℤ) → Db
        → Result StoreError (Db × InsertResult)
    unfolding decide
    queue_tool_decision id fingerprint verdict now db = do
      checked (validate_tool_decision_shape x (assertion verdict)) invalid
      refuse (not ((assertion verdict).request_id == id)) mismatch
      raw ← ok_or (c.tool_decision_to_vec verdict) codec
      decide tool (λ d. kind_of c d == "webauthn") id fingerprint
          (text_append "oshioki.tool.verdict." id) raw now now db

-- `ORDER BY id DESC LIMIT 1` at rows in ascending order
abbrev pub find_last {ℓ} : {A : Type ℓ} → (A → Bool) → List A → Option A
find_last test [] = none
find_last test (r ∷ rows) =
    let later = find_last test rows in
    elim later [ some s ↦ some s | none ↦ if test r then some r else none ]

abbrev payload_of : Option OutboxRow → Option Bytes
payload_of none = none
payload_of (some r) = some r.payload

-- `recorded_verdict` and `recorded_auth_verdict`, over the lane; the tool lane has no such reader.
unfoldable pub recorded_verdict : Lane → (id : String) → Db → Option Bytes
recorded_verdict lane id db = payload_of (find_last (has_key (kind_of_lane lane) id) db.outbox)

abbrev lifecycle_of : (now : ℤ) → RequestRow → RequestLifecycle
lifecycle_of now row = if is_live now row then RequestLifecycle.pending else gone

-- `request_lifecycle`, `auth_request_lifecycle` and `tool_request_lifecycle`
unfoldable pub request_lifecycle : Lane → (id : String) → (now : ℤ) → Db → Option RequestLifecycle
request_lifecycle lane id now db = elim (find_request lane id db) [
  | none ↦ none
  | some row ↦ some (lifecycle_of now row)
]

pub record SealedRequest : Type 0 where
  pub body_json : Bytes
  pub expires_at : ℤ

abbrev holds_token : (test : DeviceRow → Bool) → (token_hash : Bytes) → BodyRow → DeviceRow → Bool
holds_token test token_hash b d =
    d.fingerprint == b.fingerprint && d.active && test d && bytes_eq d.api_token_hash token_hash

module _ (x : External) where
  open x use {sha256}

  -- `sealed_request_for_token` and its two siblings, over the lane and the test on the device's kind.
  unfoldable pub sealed_for_token :
      (test : DeviceRow → Bool)
      → Lane
      → (id : String) → (token : Bytes) → (now : ℤ) → Db
      → Option SealedRequest
  sealed_for_token test lane id token now db =
      elim (find (λ r. has_id id r && is_live now r) (db.lanes lane).requests) [
        | none ↦ none
        | some row ↦
            elim (find
              (λ (b : BodyRow).
                b.request_id == id && any (holds_token test (sha256 token) b) db.devices)
              (db.lanes lane).sealed_bodies) [
                | none ↦ none
                | some b ↦ some (record { body_json = b.body_json; expires_at = row.expires_at })
              ]
      ]

  unfoldable pub sealed_request_for_token :
      (id : String) → (token : Bytes) → (now : ℤ) → Db → Option SealedRequest
  unfolding sealed_for_token
  sealed_request_for_token = sealed_for_token (λ d. true) request

  unfoldable pub sealed_auth_request_for_token :
      (id : String) → (token : Bytes) → (now : ℤ) → Db → Option SealedRequest
  unfolding sealed_for_token
  sealed_auth_request_for_token = sealed_for_token (λ d. true) auth

  unfoldable pub sealed_tool_request_for_token :
      Codec → (id : String) → (token : Bytes) → (now : ℤ) → Db → Option SealedRequest
  unfolding sealed_for_token
  sealed_tool_request_for_token c = sealed_for_token (λ d. kind_of c d == "webauthn") tool
