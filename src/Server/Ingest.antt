-- ===== src/Server/Ingest.antt =====
-- `ingest_request`, `ingest_auth_request` and `ingest_tool_request` of server/src/db.rs. The three write
-- to tables of their own and share the steps that are written once here: the redelivery check, the
-- sealed bodies, and the test for a browser among the recipients.
use oshioki.Base.{
  ◌*◌, Bool, not, ◌&&◌, none, some, List, [], ◌∷◌, ◌++◌, String, length, any, ltb, ◌==◌, nat_has_eq,
  text_has_eq, if◌then◌else◌,
}
use Prim.Native.String.{◌++◌ as text_append}
use oshioki.Base.Int.{ℤ, pos, ltbℤ, saturating_add}
use oshioki.Base.Result.{Result, ok, err, refuse, ok_or, ◌>>=◌, ◌>>◌}
use oshioki.Protocol.Cbor.{bytes_eq}
use oshioki.Protocol.Error.{Error}
use oshioki.Protocol.External.{Bytes, External}
use oshioki.Protocol.Request.{
  RequestEnvelope, SealedDeviceBody, max_envelope_bytes, validate_envelope_at,
}
use oshioki.Protocol.Auth.Envelope.{AuthEnvelope, validate_auth_envelope_at}
use oshioki.Protocol.Tool.Request.{deliver}
use oshioki.Protocol.Tool.Decide.{ToolApprovalEnvelope, validate_tool_envelope_at}
use oshioki.Protocol.Socket.{delivery_for_request}
use oshioki.Server.Tables.{
  Lane, request, auth, tool, lane_eq, pending, RequestRow, BodyRow, DeviceRow, Tombstone, delivery,
  tool_delivery, Db, StoreError, oversized, invalid, not_allowed, constraint, codec, InsertResult,
  inserted, identical, conflict, Codec, set_lane, find_request, has_body, count_where, queue,
}
use oshioki.Server.Push.{enqueue_push}

abbrev pub server_request_retention_secs : ℤ
server_request_retention_secs = pos (5 * 60)

abbrev pub min_time : ℤ → ℤ → ℤ
min_time a b = if ltbℤ b a then b else a

-- `.context(..)?` on a check of the protocol crate
abbrev pub checked {ℓ} : {A : Type ℓ} → Result Error A → StoreError → Result StoreError A
checked (ok a) e = ok a
checked (err f) e = err e

abbrev is_stone : Tombstone → Tombstone → Bool
is_stone a b =
    lane_eq a.kind b.kind && a.object_id == b.object_id && bytes_eq a.payload_hash b.payload_hash

-- `INSERT OR IGNORE INTO tombstones`
abbrev bury : Tombstone → List Tombstone → List Tombstone
bury stone stones = if any (is_stone stone) stones then stones else stones ++ stone ∷ []

-- A request id that is stored already: the same bytes are a redelivery, others a conflict.
unfoldable pub redelivered :
    Lane
    → (id : String) → (hash : Bytes) → (expires_at now : ℤ) → RequestRow
    → Db
    → Db × InsertResult
redelivered lane id hash expires_at now row db =
    if bytes_eq row.envelope_hash hash then (db, identical) else (
      record db {
        tombstones =
            bury
              (record {
                kind = lane;
                object_id = id;
                payload_hash = hash;
                expires_at = min_time expires_at (saturating_add now server_request_retention_secs);
              })
              db.tombstones;
      },
      conflict,
    )

abbrev pub add_request : Lane → RequestRow → Db → Db
add_request lane row db =
    set_lane db lane (record (db.lanes lane) { requests = (db.lanes lane).requests ++ row ∷ [] })

-- `COALESCE(json_extract(public_record_json, '$.kind'), 'webauthn')`
abbrev pub kind_of : Codec → DeviceRow → String
kind_of c d = elim (c.json_kind d.public_record_json) [ none ↦ "webauthn" | some k ↦ k ]

-- the device of the join, active and WebAuthn
abbrev is_browser_of : Codec → BodyRow → DeviceRow → Bool
is_browser_of c b d = d.fingerprint == b.fingerprint && d.active && kind_of c d == "webauthn"

-- a body of this request whose device is an active browser
abbrev pub is_browser_body : Codec → Db → (id : String) → BodyRow → Bool
is_browser_body c db id b = b.request_id == id && any (is_browser_of c b) db.devices

abbrev pub has_active_browser : Codec → Db → Lane → (id : String) → Bool
has_active_browser c db lane id = any (is_browser_body c db id) (db.lanes lane).sealed_bodies

module _ (x : External) (c : Codec) where
  open x use {sha256}

  -- The loop over `envelope.sealed`; a second body of one device breaks the primary key.
  unfoldable pub insert_bodies :
      Lane → (id : String) → List SealedDeviceBody → Db → Result StoreError Db
  insert_bodies lane id [] db = ok db
  insert_bodies lane id (body ∷ bodies) db = do
    json ← ok_or (c.body_to_vec body) codec
    refuse (any (has_body id body.device_fingerprint) (db.lanes lane).sealed_bodies) constraint
    insert_bodies lane id bodies (
        set_lane db lane (record (db.lanes lane) {
          sealed_bodies =
              (db.lanes lane).sealed_bodies
              ++ record { request_id = id; fingerprint = body.device_fingerprint; body_json = json }
                ∷ [];
        }))

  -- The row, its bodies and its pushes.
  unfoldable pub store_request :
      Lane → RequestRow → List SealedDeviceBody → (now : ℤ) → Db → Result StoreError Db
  unfolding insert_bodies enqueue_push
  store_request lane row sealed now db = do
    db' ← insert_bodies lane row.id sealed (add_request lane row db)
    payload ← ok_or (c.push_payload_to_vec lane row.id) codec
    ok (enqueue_push lane row.id payload now db')

  -- The delivery receipt, for a recipient that is a browser.
  unfoldable pub queue_receipt :
      Lane
      → (id dedupe_key : String) → (expires_at clock : ℤ) → Db
      → Result StoreError (Db × InsertResult)
  unfolding delivery_for_request queue
  queue_receipt lane id dedupe_key expires_at clock db =
      if has_active_browser c db lane id
      then (do
        payload ← ok_or (c.delivery_to_vec (delivery_for_request id)) codec
        db' ←
            queue delivery dedupe_key (text_append "oshioki.delivery." id) payload clock
              (some expires_at) db
        ok (db', inserted))
      else ok (db, inserted)

  unfoldable pub ingest_request :
      (raw : Bytes) → RequestEnvelope → (now clock : ℤ) → Db → Result StoreError (Db × InsertResult)
  unfolding redelivered store_request queue_receipt
  ingest_request raw e now clock db = do
    refuse (ltb max_envelope_bytes (length raw)) oversized
    checked (validate_envelope_at x c.envelope_to_vec e now) invalid
    elim (find_request request e.request_id db) [
      | some row ↦ ok (redelivered request e.request_id (sha256 raw) e.expires_at now row db)
      | none ↦ do
        db' ←
            store_request request
              (record {
                id = e.request_id;
                envelope_hash = sha256 raw;
                envelope_json = raw;
                host = some e.host;
                user = some e.user;
                issued_at = e.issued_at;
                expires_at = e.expires_at;
                state = pending;
                created_at = now;
              })
              e.sealed now db
        queue_receipt request e.request_id e.request_id e.expires_at clock db'
    ]

  unfoldable pub ingest_auth_request :
      (raw : Bytes) → AuthEnvelope → (now clock : ℤ) → Db → Result StoreError (Db × InsertResult)
  unfolding redelivered store_request queue_receipt
  ingest_auth_request raw e now clock db = do
    refuse (ltb max_envelope_bytes (length raw)) oversized
    checked (validate_auth_envelope_at x c.auth_envelope_to_vec (λ bs. none) e now) invalid
    elim (find_request auth e.request_id db) [
      | some row ↦ ok (redelivered auth e.request_id (sha256 raw) e.expires_at now row db)
      | none ↦ do
        db' ←
            store_request auth
              (record {
                id = e.request_id;
                envelope_hash = sha256 raw;
                envelope_json = raw;
                host = some e.host;
                user = none;
                issued_at = e.issued_at;
                expires_at = e.expires_at;
                state = pending;
                created_at = now;
              })
              e.sealed now db
        queue_receipt auth e.request_id (text_append "auth:" e.request_id) e.expires_at clock db'
    ]

  -- All recipients of a tool approval must be active browsers.
  unfoldable pub ingest_tool_request :
      (raw : Bytes) → ToolApprovalEnvelope → (now : ℤ) → Db → Result StoreError (Db × InsertResult)
  unfolding redelivered store_request insert_bodies enqueue_push deliver queue
  ingest_tool_request raw e now db = do
    refuse (ltb max_envelope_bytes (length raw)) oversized
    checked (validate_tool_envelope_at x c.tool_envelope_to_vec e now) invalid
    elim (find_request tool e.request_id db) [
      | some row ↦ ok (redelivered tool e.request_id (sha256 raw) e.expires_at now row db)
      | none ↦ do
        db' ←
            store_request tool
              (record {
                id = e.request_id;
                envelope_hash = sha256 raw;
                envelope_json = raw;
                host = none;
                user = none;
                issued_at = e.issued_at;
                expires_at = e.expires_at;
                state = pending;
                created_at = now;
              })
              e.sealed now db
        refuse
            (not (
              count_where (is_browser_body c db' e.request_id) (db'.lanes tool).sealed_bodies
              == length e.sealed))
            not_allowed
        payload ← ok_or (c.tool_delivery_to_vec (deliver e.request_id)) codec
        db'' ←
            queue tool_delivery e.request_id (text_append "oshioki.tool.delivery." e.request_id)
              payload now (some e.expires_at) db'
        ok (db'', inserted)
    ]
