-- ===== src/Server/Tables/Queries.antt =====
-- The statements of SQL that the operations of server/src/db.rs share.
use oshioki.Base.{
  ℕ, suc, max, Bool, true, false, ◌&&◌, Option, none, some, List, [], ◌∷◌, ◌++◌, String, any, find,
  ◌==◌, nat_has_eq, text_has_eq, if◌then◌else◌,
}
use oshioki.Base.Int.{ℤ}
use oshioki.Base.Result.{Result, ok, refuse, ◌>>◌}
use oshioki.Protocol.External.{Bytes}
use oshioki.Server.Tables.Schema.{
  Lane, lane_eq, RequestRow, BodyRow, LaneTables, DeviceRow, OutboxKind, outbox_kind_eq, OutboxRow,
  Db, StoreError, constraint,
}

abbrev pub is_none {ℓ} : {A : Type ℓ} → Option A → Bool
is_none none = true
is_none (some a) = false

-- `UPDATE .. SET f WHERE test`
abbrev pub update_where {ℓ} : {A : Type ℓ} → (A → Bool) → (A → A) → List A → List A
update_where test f [] = []
update_where test f (r ∷ rows) =
    if test r then f r ∷ update_where test f rows else r ∷ update_where test f rows

-- the number of rows that an `UPDATE` or a `DELETE` changes
abbrev pub count_where {ℓ} : {A : Type ℓ} → (A → Bool) → List A → ℕ
count_where test [] = 0
count_where test (r ∷ rows) = if test r then suc (count_where test rows) else count_where test rows

abbrev pub set_lane : Db → Lane → LaneTables → Db
set_lane db lane tables = record db {
  lanes = λ other. if lane_eq lane other then tables else db.lanes other;
}

abbrev pub has_id : String → RequestRow → Bool
has_id id row = row.id == id

abbrev pub find_request : Lane → String → Db → Option RequestRow
find_request lane id db = find (has_id id) (db.lanes lane).requests

-- the device of a sealed body is `fingerprint`'s and passes the test
abbrev pub has_body : String → String → BodyRow → Bool
has_body request_id fingerprint body =
    body.request_id == request_id && body.fingerprint == fingerprint

abbrev pub has_device : String → DeviceRow → Bool
has_device fingerprint device = device.fingerprint == fingerprint

abbrev pub has_key : OutboxKind → String → OutboxRow → Bool
has_key kind key row = outbox_kind_eq row.kind kind && row.dedupe_key == key

-- the rowid that SQLite gives the next row: one more than the largest
abbrev pub next_rowid : List OutboxRow → ℕ
next_rowid [] = 1
next_rowid (r ∷ rows) = max (suc r.id) (next_rowid rows)

-- the row of an insertion, with the columns' defaults
abbrev pub new_row :
    List OutboxRow
    → OutboxKind
    → (dedupe_key subject : String) (payload : Bytes) (created_at : ℤ) (expires_at : Option ℤ)
    → OutboxRow
new_row rows kind key subject payload created_at expires_at = record {
  id = next_rowid rows;
  kind = kind;
  dedupe_key = key;
  subject = subject;
  payload = payload;
  created_at = created_at;
  sent_at = none;
  attempts = 0;
  expires_at = expires_at;
}

abbrev pub add_outbox : OutboxRow → Db → Db
add_outbox row db = record db { outbox = db.outbox ++ row ∷ [] }

-- `INSERT INTO outbox`, which fails on a second row of one kind and key
unfoldable pub queue :
    OutboxKind
    → (dedupe_key subject : String) (payload : Bytes) (created_at : ℤ) (expires_at : Option ℤ) → Db
    → Result StoreError Db
queue kind key subject payload created_at expires_at db = do
  refuse (any (has_key kind key) db.outbox) constraint
  ok (add_outbox (new_row db.outbox kind key subject payload created_at expires_at) db)
