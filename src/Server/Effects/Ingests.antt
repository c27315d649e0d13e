-- ===== src/Server/Effects/Ingests.antt =====
-- The effects of the three ingests of server/src/db.rs.
use oshioki.Base.{
  ◌≡◌, refl, ap, inl, inr, none, some, List, [], ◌∷◌, String, length, ltb, Bool-cases, Option-cases,
}
use mathlib.Core.Path.{subst}
use Prim.Native.String.{◌++◌ as text_append}
use oshioki.Base.Int.{ℤ}
use oshioki.Base.Result.{ok, ok_or, >>=-eq-ok, refuse-eq-ok}
use oshioki.Protocol.Cbor.{bytes_eq}
use oshioki.Protocol.External.{Bytes, External}
use oshioki.Protocol.Request.{
  RequestEnvelope, SealedDeviceBody, max_envelope_bytes, validate_envelope_at,
}
use oshioki.Protocol.Auth.Envelope.{AuthEnvelope, validate_auth_envelope_at}
use oshioki.Protocol.Tool.Request.{deliver}
use oshioki.Protocol.Tool.Decide.{ToolApprovalEnvelope, validate_tool_envelope_at}
use oshioki.Protocol.Socket.{delivery_for_request}
use oshioki.Server.Tables.{
  BodyRow, Lane, request, auth, tool, RequestRow, delivery, tool_delivery, Db, oversized, invalid,
  not_allowed, codec, constraint, InsertResult, Codec, set_lane, find_request, queue,
}
use oshioki.Server.Push.{enqueue_push}
use oshioki.Server.Ingest.{
  checked, add_request, redelivered, has_active_browser, insert_bodies, store_request,
  queue_receipt, ingest_request, ingest_auth_request, ingest_tool_request,
}
use oshioki.Server.Effects.{
  lane_cases, set_lane-same, set_lane-other, delivery-IsReceipt, tool_delivery-IsReceipt, IsQuiet,
  IsQuiet-refl, IsQuiet-trans, Effect, quiet, arrives, queue-IsQuiet,
}

module _ (x : External) (c : Codec) where
  pub redelivered-IsQuiet :
      (lane : Lane) (id : String) (hash : Bytes) (expires_at now : ℤ) (row : RequestRow) (db : Db)
      → IsQuiet x db (redelivered lane id hash expires_at now row db).0
  unfolding redelivered
  redelivered-IsQuiet lane id hash expires_at now row db =
      elim (Bool-cases (bytes_eq row.envelope_hash hash)) [
        | inl t ↦ rw (t) (IsQuiet-refl x db)
        | inr f ↦ rw (f) (record { requests = λ l. refl; records = λ l i h r. r; devices = refl })
      ]

  set_bodies-IsQuiet :
      (lane : Lane) (bodies : List BodyRow) (db : Db)
      → IsQuiet x db (set_lane db lane (record (db.lanes lane) { sealed_bodies = bodies }))
  set_bodies-IsQuiet lane bodies db = record {
    requests = λ l. elim (lane_cases lane l) [
      | inl same ↦ rw same (ap (λ t. t.requests) (set_lane-same db l _))
      | inr other ↦ ap (λ t. t.requests) (set_lane-other db lane l _ other)
    ];
    records = λ l i h r. r;
    devices = refl;
  }

  insert_bodies-IsQuiet :
      (lane : Lane) (id : String) (bodies : List SealedDeviceBody) (db db' : Db)
      → insert_bodies x c lane id bodies db ≡ ok db'
      → IsQuiet x db db'
  unfolding insert_bodies
  insert_bodies-IsQuiet lane id [] db db' h = subst (IsQuiet x db) (cc (h)) (IsQuiet-refl x db)
  insert_bodies-IsQuiet lane id (body ∷ bodies) db db' h =
      let (json, written, h') = >>=-eq-ok (ok_or (c.body_to_vec body) codec) _ h in
      let (fresh, h'') = refuse-eq-ok _ constraint _ h' in
      let step = insert_bodies-IsQuiet lane id bodies _ db' h'' in
      IsQuiet-trans x db _ db' (set_bodies-IsQuiet lane _ db) step

  enqueue_push-IsQuiet :
      (lane : Lane) (id : String) (payload : Bytes) (now : ℤ) (db : Db)
      → IsQuiet x db (enqueue_push lane id payload now db)
  unfolding enqueue_push
  enqueue_push-IsQuiet lane id payload now db = record {
    requests = λ l. refl;
    records = λ l i h r. r;
    devices = refl;
  }

  pub store_request-IsQuiet :
      (lane : Lane) (row : RequestRow) (sealed : List SealedDeviceBody) (now : ℤ) (db db' : Db)
      → store_request x c lane row sealed now db ≡ ok db'
      → IsQuiet x (add_request lane row db) db'
  unfolding store_request
  store_request-IsQuiet lane row sealed now db db' h =
      let (stored, bodies, h') =
        >>=-eq-ok (insert_bodies x c lane row.id sealed (add_request lane row db)) _ h in
      let (payload, written, h'') =
        >>=-eq-ok (ok_or (c.push_payload_to_vec lane row.id) codec) _ h' in
      IsQuiet-trans x (add_request lane row db) stored db'
        (insert_bodies-IsQuiet lane row.id sealed (add_request lane row db) stored bodies)
        (subst (IsQuiet x stored) (cc (h'')) (enqueue_push-IsQuiet lane row.id payload now stored))

  pub queue_receipt-IsQuiet :
      (lane : Lane) (id key : String) (expires_at clock : ℤ) (db db' : Db) (r : InsertResult)
      → queue_receipt x c lane id key expires_at clock db ≡ ok (db', r)
      → IsQuiet x db db'
  unfolding queue_receipt
  queue_receipt-IsQuiet lane id key expires_at clock db db' r h =
      elim (Bool-cases (has_active_browser c db lane id)) [
        | inr f ↦ subst (IsQuiet x db) (cc (f, h)) (IsQuiet-refl x db)
        | inl t ↦
            let h1 = rw t at h in
            let (payload, written, h2) =
              >>=-eq-ok (ok_or (c.delivery_to_vec (delivery_for_request id)) codec) _ h1 in
            let (queued, added, h3) =
              >>=-eq-ok
                (queue delivery key (text_append "oshioki.delivery." id) payload clock
                  (some expires_at) db)
                _ h2 in
            subst (IsQuiet x db) (cc (h3)) (
              queue-IsQuiet x delivery key (text_append "oshioki.delivery." id) payload clock
                (some expires_at) db queued delivery-IsReceipt added)
      ]

  pub ingest_request-Effect :
      (raw : Bytes) (e : RequestEnvelope) (now clock : ℤ) (db db' : Db) (r : InsertResult)
      → ingest_request x c raw e now clock db ≡ ok (db', r)
      → Effect x db db'
  unfolding ingest_request
  ingest_request-Effect raw e now clock db db' r h =
      let (small, h1) = refuse-eq-ok (ltb max_envelope_bytes (length raw)) oversized _ h in
      let (u, valid, h2) =
        >>=-eq-ok (checked (validate_envelope_at x c.envelope_to_vec e now) invalid) _ h1 in
      elim (Option-cases (find_request request e.request_id db)) [
        | inr (row, found) ↦ quiet db' (
            subst (IsQuiet x db) (cc (found, h2))
              (redelivered-IsQuiet request e.request_id (x.sha256 raw) e.expires_at now row db))
        | inl fresh ↦
            let (stored, kept, h3) = >>=-eq-ok _ _ (rw fresh at h2) in
            arrives db' request _ fresh refl (
              IsQuiet-trans x _ stored db'
                (store_request-IsQuiet request _ e.sealed now db stored kept)
                (queue_receipt-IsQuiet request e.request_id e.request_id e.expires_at clock stored
                  db' r h3))
      ]

  pub ingest_auth_request-Effect :
      (raw : Bytes) (e : AuthEnvelope) (now clock : ℤ) (db db' : Db) (r : InsertResult)
      → ingest_auth_request x c raw e now clock db ≡ ok (db', r)
      → Effect x db db'
  unfolding ingest_auth_request
  ingest_auth_request-Effect raw e now clock db db' r h =
      let (small, h1) = refuse-eq-ok (ltb max_envelope_bytes (length raw)) oversized _ h in
      let (u, valid, h2) =
        >>=-eq-ok
          (checked (validate_auth_envelope_at x c.auth_envelope_to_vec (λ bs. none) e now) invalid)
          _ h1 in
      elim (Option-cases (find_request auth e.request_id db)) [
        | inr (row, found) ↦ quiet db' (
            subst (IsQuiet x db) (cc (found, h2))
              (redelivered-IsQuiet auth e.request_id (x.sha256 raw) e.expires_at now row db))
        | inl fresh ↦
            let (stored, kept, h3) = >>=-eq-ok _ _ (rw fresh at h2) in
            arrives db' auth _ fresh refl (
              IsQuiet-trans x _ stored db'
                (store_request-IsQuiet auth _ e.sealed now db stored kept)
                (queue_receipt-IsQuiet auth e.request_id (text_append "auth:" e.request_id)
                  e.expires_at clock stored db' r h3))
      ]

  pub ingest_tool_request-Effect :
      (raw : Bytes) (e : ToolApprovalEnvelope) (now : ℤ) (db db' : Db) (r : InsertResult)
      → ingest_tool_request x c raw e now db ≡ ok (db', r)
      → Effect x db db'
  unfolding ingest_tool_request
  ingest_tool_request-Effect raw e now db db' r h =
      let (small, h1) = refuse-eq-ok (ltb max_envelope_bytes (length raw)) oversized _ h in
      let (u, valid, h2) =
        >>=-eq-ok (checked (validate_tool_envelope_at x c.tool_envelope_to_vec e now) invalid) _
          h1 in
      elim (Option-cases (find_request tool e.request_id db)) [
        | inr (row, found) ↦ quiet db' (
            subst (IsQuiet x db) (cc (found, h2))
              (redelivered-IsQuiet tool e.request_id (x.sha256 raw) e.expires_at now row db))
        | inl fresh ↦
            let (stored, kept, h3) = >>=-eq-ok _ _ (rw fresh at h2) in
            let (recipients, h4) = refuse-eq-ok _ not_allowed _ h3 in
            let (payload, written, h5) =
              >>=-eq-ok (ok_or (c.tool_delivery_to_vec (deliver e.request_id)) codec) _ h4 in
            let (queued, added, h6) = >>=-eq-ok _ _ h5 in
            arrives db' tool _ fresh refl (
              IsQuiet-trans x _ stored db'
                (store_request-IsQuiet tool _ e.sealed now db stored kept)
                (subst (IsQuiet x stored) (cc (h6)) (
                  queue-IsQuiet x tool_delivery _ _ payload now _ stored queued
                    tool_delivery-IsReceipt added)))
      ]
