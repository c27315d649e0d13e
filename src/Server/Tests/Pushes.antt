-- ===== src/Server/Tests/Pushes.antt =====
-- One row of the push outbox, and two workers.
use oshioki.Base.{ℕ, ◌≤◌, ◌≡◌, ◌≢◌, refl, true, none, some, [], ◌∷◌, String, arith}
use oshioki.Base.Int.{pos, saturating_add}
use oshioki.Server.Tables.{request, pending, RequestRow, PushRow, Db, set_lane, count_where}
use oshioki.Server.Push.{is_push_eligible, push_lease_secs}
use oshioki.Server.Push.Leases.{PushItem, has_push_id, is_claimable, claim_push}
use oshioki.Server.Push.Exclusive.{lease_is_exclusive}
use oshioki.Server.Calls.{empty_db}

abbrev row : ℕ → String → PushRow
row id request_id = record {
  id = id;
  request_kind = request;
  request_id = request_id;
  endpoint_id = "pe_1";
  payload = [];
  created_at = pos 1000;
  available_at = pos 1000;
  attempts = 0;
  sent_at = none;
  abandoned_at = none;
  claim = none;
  last_error = none;
}

abbrev live : String → RequestRow
live id = record {
  id = id;
  envelope_hash = [];
  envelope_json = [];
  host = none;
  user = none;
  issued_at = pos 1000;
  expires_at = pos 1090;
  state = pending;
  created_at = pos 1000;
}

abbrev store : Db
store =
    set_lane
      (record empty_db {
        devices =
            record {
              fingerprint = "dev";
              credential_id = "";
              api_token_hash = [];
              public_record_json = "";
              active = true;
              updated_at = pos 0;
            }
            ∷ [];
        push_endpoints =
            record {
              id = "pe_1";
              endpoint = "https://a.b";
              p256dh = [];
              auth = [];
              expiration_at = none;
              installation_token_hash = none;
              created_at = pos 0;
              updated_at = pos 0;
              disabled_at = none;
              last_error = none;
            }
            ∷ [];
        push_subscriptions =
            record {
              id = "ps_1";
              endpoint_id = "pe_1";
              device_fingerprint = "dev";
              created_at = pos 0;
              updated_at = pos 0;
              disabled_at = none;
            }
            ∷ [];
        push_outbox = row 1 "req-1" ∷ row 2 "req-2" ∷ [];
      })
      request
      (record {
        requests = live "req-1" ∷ live "req-2" ∷ [];
        sealed_bodies =
            record { request_id = "req-1"; fingerprint = "dev"; body_json = [] }
            ∷ record { request_id = "req-2"; fingerprint = "dev"; body_json = [] }
            ∷ [];
      })

abbrev item : ℕ → String → String → PushItem
item id request_id token = record {
  id = id;
  endpoint_id = "pe_1";
  endpoint = "https://a.b";
  p256dh = [];
  auth = [];
  payload = [];
  request_kind = request;
  request_id = request_id;
  expires_at = pos 1090;
  claim_token = token;
  attempts = 1;
}

abbrev after : Db
after = record store {
  push_outbox =
      record (row 1 "req-1") { claim = some ("pc_1", pos 1040); attempts = 1 } ∷ row 2 "req-2" ∷ [];
}

abbrev last : Db
last = record after {
  push_outbox =
      record (row 1 "req-1") { claim = some ("pc_1", pos 1040); attempts = 1 }
      ∷ record (row 2 "req-2") { claim = some ("pc_2", pos 1050); attempts = 1 }
      ∷ [];
}

first_claim :
    claim_push "pc_1" (pos 1010) push_lease_secs store ≡ (after, some (item 1 "req-1" "pc_1"))
unfolding claim_push is_claimable is_push_eligible saturating_add
first_claim = refl

second_claim :
    claim_push "pc_2" (pos 1020) push_lease_secs after ≡ (last, some (item 2 "req-2" "pc_2"))
unfolding claim_push is_claimable is_push_eligible saturating_add
second_claim = refl

keyed : (id : ℕ) → count_where (has_push_id id) store.push_outbox ≤ 1
keyed id = ground arith

until : saturating_add (pos 1010) push_lease_secs ≡ pos 1040
unfolding saturating_add
until = refl

lease_is_exclusive_example : (item 2 "req-2" "pc_2").id ≢ (item 1 "req-1" "pc_1").id
lease_is_exclusive_example =
    lease_is_exclusive "pc_1" "pc_2" (pos 1010) (pos 1020) push_lease_secs push_lease_secs store
      after last (item 1 "req-1" "pc_1") (item 2 "req-2" "pc_2") keyed first_claim
      (rw until (omega arith)) second_claim
