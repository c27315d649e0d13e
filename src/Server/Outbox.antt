-- ===== src/Server/Outbox.antt =====
-- The outbox of server/src/db.rs with the rounds of `verdict_worker` (server/src/main.rs) that empty it,
-- and the periodic cleanup.
use oshioki.Base.{
  ℕ, suc, ◌*◌, Bool, false, not, ◌&&◌, ◌||◌, Option, none, some, List, [], ◌∷◌, String, any, take,
  retain, is_some_and, ◌==◌, nat_has_eq, text_has_eq, if◌then◌else◌,
}
use oshioki.Base.Int.{ℤ, pos, ◌-ℤ◌, lebℤ, ltbℤ, saturating_sub}
use oshioki.Protocol.External.{Bytes}
use oshioki.Server.Tables.{
  RequestRow, LaneTables, EnrollmentRow, pending, expired, OutboxRow, delivery, tool_delivery, ntfy,
  outbox_kind_eq, EndpointRow, PushRow, Db, is_none, has_key, update_where, has_id, new_row,
  add_outbox,
}
use oshioki.Server.Ingest.{server_request_retention_secs}

abbrev pub push_disabled_retention_secs : ℤ
push_disabled_retention_secs = pos (30 * 24 * 60 * 60)

-- `ON CONFLICT(kind, dedupe_key) DO NOTHING`
unfoldable pub queue_notification :
    (request_id endpoint : String) → (payload : Bytes) → (clock : ℤ) → Db → Db
queue_notification request_id endpoint payload clock db =
    if any (has_key ntfy request_id) db.outbox
    then db
    else add_outbox (new_row db.outbox ntfy request_id endpoint payload clock none) db

abbrev is_receipt : OutboxRow → Bool
is_receipt r = outbox_kind_eq r.kind delivery || outbox_kind_eq r.kind tool_delivery

abbrev pub is_stale : (now : ℤ) → OutboxRow → Bool
is_stale now r =
    is_receipt r && is_none r.sent_at && is_some_and r.expires_at (λ expiry. lebℤ expiry now)

unfoldable pub expire_stale_deliveries : (now : ℤ) → Db → Db
expire_stale_deliveries now db = record db { outbox = retain (λ r. not (is_stale now r)) db.outbox }

abbrev pub has_rowid : ℕ → OutboxRow → Bool
has_rowid id r = r.id == id

abbrev pub sent : (clock : ℤ) → OutboxRow → OutboxRow
sent clock r = record r { sent_at = some clock; attempts = suc r.attempts }

unfoldable pub mark_outbox_sent : (id : ℕ) → (clock : ℤ) → Db → Db
mark_outbox_sent id clock db = record db {
  outbox = update_where (has_rowid id) (sent clock) db.outbox;
}

abbrev pub is_notification : OutboxRow → Bool
is_notification r = outbox_kind_eq r.kind ntfy

unfoldable pub pending_outbox_where :
    (condition : OutboxRow → Bool) → (limit : ℕ) → Db → List OutboxRow
pending_outbox_where condition limit db =
    take limit (retain (λ r. is_none r.sent_at && condition r) db.outbox)

unfoldable pub pending_verdicts : (limit : ℕ) → Db → List OutboxRow
unfolding pending_outbox_where
pending_verdicts = pending_outbox_where (λ r. not (is_notification r))

unfoldable pub pending_notifications : (limit : ℕ) → Db → List OutboxRow
unfolding pending_outbox_where
pending_notifications = pending_outbox_where is_notification

-- The `for` over the items of one tick: a message that the transport takes is marked, and the first that
-- it does not take ends the loop.
unfoldable pub publish_items : (publish : OutboxRow → Bool) → (clock : ℤ) → List OutboxRow → Db → Db
unfolding mark_outbox_sent
publish_items publish clock [] db = db
publish_items publish clock (item ∷ items) db =
    let rest = publish_items publish clock items (mark_outbox_sent item.id clock db) in
    if publish item then rest else db

-- One tick of `verdict_worker`.
unfoldable pub verdict_tick : (publish : OutboxRow → Bool) → (clock : ℤ) → Db → Db
unfolding expire_stale_deliveries pending_verdicts publish_items
verdict_tick publish clock db =
    let live = expire_stale_deliveries clock db in
    publish_items publish clock (pending_verdicts 32 live) live

abbrev expire_enrollment : EnrollmentRow → EnrollmentRow
expire_enrollment e = record e { status = expired }

abbrev is_overdue : (now : ℤ) → EnrollmentRow → Bool
is_overdue now e = elim e.status [ pending ↦ lebℤ e.expires_at now | _ ↦ false ]

-- `created_at >= now - retention`
abbrev pub is_recent : (now : ℤ) → RequestRow → Bool
is_recent now r = not (ltbℤ r.created_at (saturating_sub now server_request_retention_secs))

-- `DELETE FROM requests WHERE created_at < ?`, which cascades to the sealed bodies.
unfoldable pub sweep : (now : ℤ) → LaneTables → LaneTables
sweep now tables =
    let kept = retain (is_recent now) tables.requests in
    record {
      requests = kept;
      sealed_bodies = retain (λ b. any (has_id b.request_id) kept) tables.sealed_bodies;
    }

abbrev is_old : ℤ → Option ℤ → Bool
is_old limit none = false
is_old limit (some t) = ltbℤ t limit

-- `COALESCE(sent_at, abandoned_at)`
abbrev closed_at : PushRow → Option ℤ
closed_at p = elim p.sent_at [ some t ↦ some t | none ↦ p.abandoned_at ]

abbrev is_legacy_endpoint : Db → String → Bool
is_legacy_endpoint db id =
    any (λ (e : EndpointRow). e.id == id && is_none e.installation_token_hash) db.push_endpoints

-- `cleanup` behind its first statement, under its second lock. The subtractions with `-` are on a clock
-- reading, more than thirty days above `i64::MIN`.
unfoldable pub cleanup_tables : (now : ℤ) → Db → Db
unfolding sweep
cleanup_tables now db = record db {
  lanes = λ lane. sweep now (db.lanes lane);
  enrollments = update_where (is_overdue now) expire_enrollment db.enrollments;
  tombstones = retain (λ t. not (ltbℤ t.expires_at now)) db.tombstones;
  outbox = retain (λ r. not (is_old (now -ℤ pos 86400) r.sent_at)) db.outbox;
  push_outbox =
      retain (λ p. not (is_old (now -ℤ server_request_retention_secs) (closed_at p)))
        db.push_outbox;
  push_subscriptions =
      retain
        (λ s. not (
          is_old (now -ℤ push_disabled_retention_secs) s.disabled_at
          && is_legacy_endpoint db s.endpoint_id))
        db.push_subscriptions;
}

-- `cleanup` with no other call between its two locks; `Call` has both halves.
unfoldable pub cleanup_db : (now : ℤ) → Db → Db
unfolding expire_stale_deliveries cleanup_tables
cleanup_db now db = cleanup_tables now (expire_stale_deliveries now db)
