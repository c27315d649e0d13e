-- ===== src/Server/Push.antt =====
-- Web push in server/src/db.rs: which rows may be sent, their leases, and the subscriptions.
pub mod Leases
pub mod Exclusive
use oshioki.Base.{
  ℕ, suc, ◌-◌, ◌^◌, max, Bool, true, false, not, ◌&&◌, ◌||◌, Option, none, some, List, [], ◌∷◌,
  ◌++◌, String, any, find, leb, ltb, is_some_and, ◌==◌, nat_has_eq, text_has_eq, if◌then◌else◌,
}
use oshioki.Base.Int.{ℤ, pos, lebℤ, ltbℤ, saturating_add}
use oshioki.Protocol.External.{Bytes}
use oshioki.Server.Tables.{
  Lane, request, auth, tool, lane_eq, State, pending, resolved, RequestRow, BodyRow, LaneTables,
  DeviceRow, EndpointRow, SubscriptionRow, PushRow, Db, is_none, update_where, has_id, has_body,
}

abbrev pub push_max_attempts : ℕ
push_max_attempts = 5

abbrev pub push_lease_secs : ℤ
push_lease_secs = pos 30

-- `expires_at IS NULL OR expires_at>now`
abbrev pub unexpired : Option ℤ → (now : ℤ) → Bool
unexpired none now = true
unexpired (some expiry) now = ltbℤ now expiry

-- The join of `PUSH_ELIGIBLE` at one subscription and one device.
abbrev recipient : Db → Lane → (request_id : String) → SubscriptionRow → DeviceRow → Bool
recipient db lane request_id s d =
    d.fingerprint == s.device_fingerprint
    && is_none s.disabled_at
    && d.active
    && any (has_body request_id d.fingerprint) (db.lanes lane).sealed_bodies

-- `PUSH_ELIGIBLE`
unfoldable pub is_push_eligible : Db → Lane → (request_id endpoint_id : String) → (now : ℤ) → Bool
is_push_eligible db lane request_id endpoint_id now =
    any
      (λ (e : EndpointRow).
        e.id == endpoint_id && is_none e.disabled_at && unexpired e.expiration_at now)
      db.push_endpoints
    && any
        (λ (s : SubscriptionRow).
          s.endpoint_id == endpoint_id && any (recipient db lane request_id s) db.devices)
        db.push_subscriptions

abbrev next_push_rowid : List PushRow → ℕ
next_push_rowid [] = 1
next_push_rowid (r ∷ rows) = max (suc r.id) (next_push_rowid rows)

abbrev is_duplicate : Lane → (request_id endpoint_id : String) → PushRow → Bool
is_duplicate lane request_id endpoint_id p =
    lane_eq p.request_kind lane && p.request_id == request_id && p.endpoint_id == endpoint_id

-- `INSERT OR IGNORE` of one selected endpoint
abbrev insert_push :
    Lane
    → (request_id : String) → (payload : Bytes) → (now : ℤ) → EndpointRow
    → List PushRow
    → List PushRow
insert_push lane request_id payload now e rows =
    if any (is_duplicate lane request_id e.id) rows
    then rows
    else rows
      ++ record {
        id = next_push_rowid rows;
        request_kind = lane;
        request_id = request_id;
        endpoint_id = e.id;
        payload = payload;
        created_at = now;
        available_at = now;
        attempts = 0;
        sent_at = none;
        abandoned_at = none;
        claim = none;
        last_error = none;
      }
        ∷ []

-- The selection runs over the endpoints before any row of it is inserted.
enqueue_endpoints :
    Db
    → Lane
    → (request_id : String) → (payload : Bytes) → (now : ℤ) → List EndpointRow
    → List PushRow
    → List PushRow
unfolding is_push_eligible
enqueue_endpoints db lane request_id payload now [] rows = rows
enqueue_endpoints db lane request_id payload now (e ∷ es) rows =
    enqueue_endpoints db lane request_id payload now es (
      if is_push_eligible db lane request_id e.id now
      then insert_push lane request_id payload now e rows
      else rows)

unfoldable pub enqueue_push : Lane → (request_id : String) → (payload : Bytes) → (now : ℤ) → Db → Db
unfolding enqueue_endpoints
enqueue_push lane request_id payload now db = record db {
  push_outbox = enqueue_endpoints db lane request_id payload now db.push_endpoints db.push_outbox;
}

-- `sent_at IS NULL AND abandoned_at IS NULL`
abbrev pub is_open : PushRow → Bool
is_open p = is_none p.sent_at && is_none p.abandoned_at

-- `claimed_until IS NULL OR claimed_until<=now`
abbrev pub is_unclaimed : (now : ℤ) → PushRow → Bool
is_unclaimed now p = elim p.claim [ none ↦ true | some c ↦ lebℤ c.1 now ]

abbrev pub is_pending : State → Bool
is_pending pending = true
is_pending (resolved hash at) = false

-- the request is answerable
abbrev pub is_live : (now : ℤ) → RequestRow → Bool
is_live now r = is_pending r.state && ltbℤ now r.expires_at

abbrev pub has_live_request : Db → (now : ℤ) → PushRow → Bool
has_live_request db now p =
    any (λ r. has_id p.request_id r && is_live now r) (db.lanes p.request_kind).requests

abbrev exhausted : (now : ℤ) → PushRow → Bool
exhausted now p = is_open p && leb push_max_attempts p.attempts && is_unclaimed now p

abbrev ineligible : Db → (now : ℤ) → PushRow → Bool
ineligible db now p =
    is_open p
    && (not (has_live_request db now p)
        || not (is_push_eligible db p.request_kind p.request_id p.endpoint_id now))

abbrev pub abandoned : (now : ℤ) → PushRow → PushRow
abandoned now p = record p { abandoned_at = some now; claim = none }

abbrev pub abandoned_for : (now : ℤ) → String → PushRow → PushRow
abandoned_for now error p = record p {
  abandoned_at = some now;
  claim = none;
  last_error = some error;
}

unfoldable pub abandon_ineligible_pushes : (now : ℤ) → Db → Db
unfolding is_push_eligible
abandon_ineligible_pushes now db = record db {
  push_outbox =
      update_where (ineligible db now) (abandoned now)
        (update_where (exhausted now) (abandoned_for now "attempt_limit") db.push_outbox);
}
