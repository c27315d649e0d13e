-- ===== src/Server/Push/Leases.antt =====
-- The leases on rows of the push outbox (server/src/db.rs): a worker claims a row, sends it, and marks,
-- retries or abandons it under the token of its claim. The token, a fresh UUID, is an argument.
use oshioki.Base.{
  ℕ, suc, ◌-◌, ◌^◌, Bool, true, false, ◌&&◌, Option, none, some, String, any, find, leb, ltb,
  is_some_and, ◌==◌, nat_has_eq, text_has_eq, if◌then◌else◌,
}
use Prim.Native.Nat.{min}
use oshioki.Base.Int.{ℤ, pos, lebℤ, saturating_add}
use oshioki.Protocol.External.{Bytes}
use oshioki.Server.Tables.{
  Lane, RequestRow, EndpointRow, PushRow, Db, update_where, count_where, find_request,
}
use oshioki.Server.Push.{
  push_max_attempts, is_open, is_unclaimed, has_live_request, abandoned_for, is_push_eligible,
  abandon_ineligible_pushes,
}

pub record PushItem : Type 0 where
  pub id : ℕ
  pub endpoint_id : String
  pub endpoint : String
  pub p256dh : Bytes
  pub auth : Bytes
  pub payload : Bytes
  pub request_kind : Lane
  pub request_id : String
  pub expires_at : ℤ
  pub claim_token : String
  pub attempts : ℕ

-- The `WHERE` of the claim.
unfoldable pub is_claimable : Db → (now : ℤ) → PushRow → Bool
is_claimable db now p =
    is_open p
    && lebℤ p.available_at now
    && is_unclaimed now p
    && ltb p.attempts push_max_attempts
    && is_push_eligible db p.request_kind p.request_id p.endpoint_id now
    && has_live_request db now p

abbrev pub has_push_id : ℕ → PushRow → Bool
has_push_id id p = p.id == id

abbrev pub leased : (claim_token : String) → (until : ℤ) → PushRow → PushRow
leased claim_token until p = record p {
  claim = some (claim_token, until);
  attempts = suc p.attempts;
}

-- The row's columns with those that the joins add.
abbrev item_of : (claim_token : String) → PushRow → EndpointRow → RequestRow → PushItem
item_of claim_token p e r = record {
  id = p.id;
  endpoint_id = p.endpoint_id;
  endpoint = e.endpoint;
  p256dh = e.p256dh;
  auth = e.auth;
  payload = p.payload;
  request_kind = p.request_kind;
  request_id = p.request_id;
  expires_at = r.expires_at;
  claim_token = claim_token;
  attempts = suc p.attempts;
}

-- The joins are on primary keys, and a claimable row has both its endpoint and its request.
abbrev pub joined : (claim_token : String) → Db → PushRow → Option PushItem
joined claim_token db p =
    elim (find (λ (e : EndpointRow). e.id == p.endpoint_id) db.push_endpoints) [
      | none ↦ none
      | some e ↦ elim (find_request p.request_kind p.request_id db) [
        | none ↦ none
        | some r ↦ some (item_of claim_token p e r)
      ]
    ]

unfoldable pub claim_push :
    (claim_token : String) → (now lease_secs : ℤ) → Db → Db × Option PushItem
unfolding is_claimable
claim_push claim_token now lease_secs db = elim (find (is_claimable db now) db.push_outbox) [
  | none ↦ (abandon_ineligible_pushes now db, none)
  | some p ↦ (
    record db {
      push_outbox =
          update_where (λ q. has_push_id p.id q && is_open q && is_unclaimed now q)
            (leased claim_token (saturating_add now lease_secs)) db.push_outbox;
    },
    joined claim_token db p,
  )
]

-- `id=? AND claim_token=? AND sent_at IS NULL AND abandoned_at IS NULL`
abbrev pub is_held : ℕ → (claim_token : String) → PushRow → Bool
is_held id claim_token p =
    has_push_id id p && is_some_and p.claim (λ c. c.0 == claim_token) && is_open p

abbrev change : (PushRow → Bool) → (PushRow → PushRow) → Db → Db × Bool
change test f db = (
  record db { push_outbox = update_where test f db.push_outbox },
  count_where test db.push_outbox == 1,
)

unfoldable pub mark_push_sent : ℕ → (claim_token : String) → (now : ℤ) → Db → Db × Bool
mark_push_sent id claim_token now db =
    change (is_held id claim_token) (λ p. record p { sent_at = some now; claim = none }) db

-- `1_i64 << (attempts - 1).clamp(0, 4)`; a row that is held has at least one attempt
abbrev pub retry_delay : (attempts : ℕ) → ℤ
retry_delay attempts = pos (2 ^ min (attempts - 1) 4)

abbrev retried : (now : ℤ) → String → PushRow → PushRow
retried now error p = record p {
  available_at = saturating_add now (retry_delay p.attempts);
  claim = none;
  last_error = some error;
}

unfoldable pub retry_push :
    ℕ → (claim_token : String) → (now : ℤ) → (error : String) → Db → Db × Bool
retry_push id claim_token now error db = elim (find (is_held id claim_token) db.push_outbox) [
  | none ↦ (db, false)
  | some p ↦
      if leb push_max_attempts p.attempts
      then change (is_held id claim_token) (abandoned_for now error) db
      else change (is_held id claim_token) (retried now error) db
]

unfoldable pub abandon_push :
    ℕ → (claim_token : String) → (now : ℤ) → (error : String) → Db → Db × Bool
abandon_push id claim_token now error db =
    change (is_held id claim_token) (abandoned_for now error) db

-- A push service has said that the endpoint is gone.
unfoldable pub disable_push_for_claim :
    ℕ → (endpoint_id claim_token : String) → (now : ℤ) → (error : String) → Db → Db × Bool
disable_push_for_claim id endpoint_id claim_token now error db =
    if any (λ p. is_held id claim_token p && p.endpoint_id == endpoint_id) db.push_outbox
    then (
      record db {
        push_endpoints =
            update_where (λ (e : EndpointRow). e.id == endpoint_id)
              (λ e. record e { disabled_at = some now; updated_at = now; last_error = some error })
              db.push_endpoints;
        push_outbox =
            update_where (λ p. p.endpoint_id == endpoint_id && is_open p) (abandoned_for now error)
              db.push_outbox;
      },
      true,
    )
    else (db, false)
