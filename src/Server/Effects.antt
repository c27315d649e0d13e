-- ===== src/Server/Effects.antt =====
-- What the calls of the store do to its request rows, its outbox and its devices, up to what the other
-- columns and tables hold.
pub mod Ingests
pub mod Others
pub mod Run
use oshioki.Base.{
  ℕ, ◌≡◌, ◌⊎◌, refl, ◌∙◌, inl, inr, ap, Bool, true, false, Option, none, some, List, [], ◌∷◌, ◌++◌,
  String, arith, All, All-append, All-retain, any, retain, find, Bool-cases,
}
use mathlib.Core.Path.{subst}
use oshioki.Base.Int.{ℤ}
use oshioki.Base.Result.{Result, ok, err, refuse, >>=-eq-ok, refuse-eq-ok, Result-cases}
use oshioki.Protocol.External.{Bytes, External}
use oshioki.Server.Tables.{
  Lane, request, auth, tool, State, pending, resolved, RequestRow, LaneTables, DeviceRow, OutboxRow,
  set_lane, OutboxKind, delivery, tool_delivery, enrollment_submission, ntfy, lane_eq,
  outbox_kind_eq, Db, find_request, has_device, has_key, queue, new_row, add_outbox, update_where,
  StoreError, constraint,
}
use oshioki.Server.Rows.{All-update}
use oshioki.Server.Ingest.{add_request}
use oshioki.Server.Decide.{kind_of_lane, resolve_request}
use oshioki.Server.Outbox.{cleanup_tables}

abbrev pub requests_of : Lane → Db → List RequestRow
requests_of lane db = (db.lanes lane).requests

pub queue_lem :
    (kind : OutboxKind) (key subject : String) (payload : Bytes) (at : ℤ) (expiry : Option ℤ)
    (db db' : Db)
    → queue kind key subject payload at expiry db ≡ ok db'
    → (any (has_key kind key) db.outbox ≡ false)
      × (add_outbox (new_row db.outbox kind key subject payload at expiry) db ≡ db')
unfolding queue
queue_lem kind key subject payload at expiry db db' h =
    let (fresh, done) = refuse-eq-ok (any (has_key kind key) db.outbox) constraint _ h in
    (fresh, cc (done))

-- No decision is of this kind.
abbrev pub IsReceipt : OutboxKind → Type 0
IsReceipt kind = (lane : Lane) → outbox_kind_eq kind (kind_of_lane lane) ≡ false

pub delivery-IsReceipt : IsReceipt delivery
delivery-IsReceipt request = refl
delivery-IsReceipt auth = refl
delivery-IsReceipt tool = refl

pub tool_delivery-IsReceipt : IsReceipt tool_delivery
tool_delivery-IsReceipt request = refl
tool_delivery-IsReceipt auth = refl
tool_delivery-IsReceipt tool = refl

pub enrollment_submission-IsReceipt : IsReceipt enrollment_submission
enrollment_submission-IsReceipt request = refl
enrollment_submission-IsReceipt auth = refl
enrollment_submission-IsReceipt tool = refl

pub ntfy-IsReceipt : IsReceipt ntfy
ntfy-IsReceipt request = refl
ntfy-IsReceipt auth = refl
ntfy-IsReceipt tool = refl

pub lane_cases : (a b : Lane) → (a ≡ b) ⊎ (lane_eq a b ≡ false)
lane_cases request request = inl refl
lane_cases auth auth = inl refl
lane_cases tool tool = inl refl
lane_cases request auth = inr refl
lane_cases request tool = inr refl
lane_cases auth request = inr refl
lane_cases auth tool = inr refl
lane_cases tool request = inr refl
lane_cases tool auth = inr refl

pub set_lane-same :
    (db : Db) (lane : Lane) (tables : LaneTables) → (set_lane db lane tables).lanes lane ≡ tables
set_lane-same db request tables = refl
set_lane-same db auth tables = refl
set_lane-same db tool tables = refl

pub set_lane-other :
    (db : Db) (lane other : Lane) (tables : LaneTables)
    → lane_eq lane other ≡ false
    → (set_lane db lane tables).lanes other ≡ db.lanes other
set_lane-other db lane other tables h = rw h refl

-- The credential and the token of a stored device stay.
abbrev pub IsSameCredential : DeviceRow → DeviceRow → Type 0
IsSameCredential a b = (a.credential_id ≡ b.credential_id) × (a.api_token_hash ≡ b.api_token_hash)

abbrev pub KeepsCredentials : List DeviceRow → List DeviceRow → Type 0
KeepsCredentials before after =
    (fingerprint : String) (d : DeviceRow)
    → find (has_device fingerprint) before ≡ some d
    → (d' : DeviceRow) × (find (has_device fingerprint) after ≡ some d') × IsSameCredential d' d

module _ (x : External) where
  -- A row of the outbox that carries a decision on this request has a payload of this hash.
  abbrev pub IsRecord : Lane → (id : String) → (hash : Bytes) → OutboxRow → Type 0
  IsRecord lane id hash row =
      has_key (kind_of_lane lane) id row ≡ true → x.sha256 row.payload ≡ hash

  abbrev pub HasRecords : Lane → (id : String) → (hash : Bytes) → Db → Type 0
  HasRecords lane id hash db = All (IsRecord lane id hash) db.outbox

  -- The request rows and the devices are the same, and the outbox has no new decision.
  pub record IsQuiet (before after : Db) : Type 0 where
    pub requests : (lane : Lane) → requests_of lane after ≡ requests_of lane before
    pub records :
        (lane : Lane) (id : String) (hash : Bytes)
        → HasRecords lane id hash before
        → HasRecords lane id hash after
    pub devices : after.devices ≡ before.devices

  pub IsQuiet-refl : (db : Db) → IsQuiet db db
  IsQuiet-refl db = record {
    requests = λ lane. refl;
    records = λ lane id hash h. h;
    devices = refl;
  }

  pub IsQuiet-trans : (a b c : Db) → IsQuiet a b → IsQuiet b c → IsQuiet a c
  IsQuiet-trans a b c p q = record {
    requests = λ lane. q.requests lane ∙ p.requests lane;
    records = λ lane id hash h. q.records lane id hash (p.records lane id hash h);
    devices = q.devices ∙ p.devices;
  }

  pub IsQuiet-same :
      (before after : Db)
      → after.lanes ≡ before.lanes
      → after.outbox ≡ before.outbox
      → after.devices ≡ before.devices
      → IsQuiet before after
  IsQuiet-same before after lanes outbox devices = record {
    requests = λ lane. ap (λ tables. (tables lane).requests) lanes;
    records = λ lane id hash h. rw outbox h;
    devices = devices;
  }

  pub data Effect (before : Db) : Db → Type 0 where
    quiet : (after : Db) → IsQuiet before after → Effect before after
    arrives :
        (after : Db) (lane : Lane) (row : RequestRow)
        → find_request lane row.id before ≡ none
        → row.state ≡ pending
        → IsQuiet (add_request lane row before) after
        → Effect before after
    decides :
        (lane : Lane) (id subject : String) (raw : Bytes) (clock : ℤ) (row : RequestRow)
        → find_request lane id before ≡ some row
        → row.state ≡ pending
        → any (has_key (kind_of_lane lane) id) before.outbox ≡ false
        → Effect before (
            add_outbox
              (new_row before.outbox (kind_of_lane lane) id subject raw clock none)
              (resolve_request lane id (x.sha256 raw) clock before))
    sweeps : (now : ℤ) → Effect before (cleanup_tables now before)
    enrolls :
        (after : Db)
        → ((lane : Lane) → requests_of lane after ≡ requests_of lane before)
        → after.outbox ≡ before.outbox
        → KeepsCredentials before.devices after.devices
        → Effect before after

  pub append-IsQuiet :
      (db : Db) (row : OutboxRow) → IsReceipt row.kind → IsQuiet db (add_outbox row db)
  append-IsQuiet db row receipt = record {
    requests = λ lane. refl;
    records = λ lane id hash h.
        All-append (IsRecord lane id hash) db.outbox (row ∷ []) h
          ((λ t. absurd (ground (arith, receipt lane, t))), tt);
    devices = refl;
  }

  pub queue-IsQuiet :
      (kind : OutboxKind) (key subject : String) (payload : Bytes) (at : ℤ) (expiry : Option ℤ)
      (db db' : Db)
      → IsReceipt kind
      → queue kind key subject payload at expiry db ≡ ok db'
      → IsQuiet db db'
  queue-IsQuiet kind key subject payload at expiry db db' receipt h =
      subst (IsQuiet db) (queue_lem kind key subject payload at expiry db db' h).1
        (append-IsQuiet db (new_row db.outbox kind key subject payload at expiry) receipt)

  pub retain-IsQuiet :
      (keep : OutboxRow → Bool) (db : Db)
      → IsQuiet db (record db { outbox = retain keep db.outbox })
  retain-IsQuiet keep db = record {
    requests = λ lane. refl;
    records = λ lane id hash. All-retain (IsRecord lane id hash) keep db.outbox;
    devices = refl;
  }

  pub update-IsQuiet :
      (test : OutboxRow → Bool) (f : OutboxRow → OutboxRow) (db : Db)
      → ((row : OutboxRow)
          → (lane : Lane) (id : String) (hash : Bytes) → IsRecord lane id hash row
          → IsRecord lane id hash (f row))
      → IsQuiet db (record db { outbox = update_where test f db.outbox })
  update-IsQuiet test f db same = record {
    requests = λ lane. refl;
    records = λ lane id hash.
        All-update (IsRecord lane id hash) test f db.outbox (λ row. same row lane id hash);
    devices = refl;
  }
