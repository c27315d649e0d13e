-- ===== src/Server/Answers/Auth.antt =====
-- `queue_auth_decision` of server/src/db.rs and the store that an answer leaves, table by table.
use oshioki.Base.{
  ◌≡◌, ◌↔◌, ◌⊎◌, ◌&&◌, ◌∙◌, sym, List, [], ◌∷◌, ◌++◌, map, ℕ, ◌==◌, eq_iff, if◌then◌else◌, refl,
  inl, inr, true, false, none, some, String, arith, any, Bool-cases, text_has_eq,
}
use Prim.Native.String.{◌++◌ as text_append}
use mathlib.Core.Path.{subst, fun_ext}
use oshioki.Base.Int.{ℤ}
use oshioki.Base.Result.{ok, ok_or, >>=-eq-ok}
use oshioki.Protocol.External.{Bytes, External}
use oshioki.Protocol.Auth.Verify.{AuthDecision}
use oshioki.Server.Tables.{
  Lane, request, auth, tool, LaneTables, OutboxRow, has_id, next_rowid, update_where, pending,
  resolved, RequestRow, DeviceRow, auth_decision, Db, codec, inserted, Codec, has_key, new_row,
  add_outbox, queue,
}
use oshioki.Server.Push.{is_pending}
use oshioki.Server.Ingest.{kind_of}
use oshioki.Server.Decide.{resolve_request, decide, is_hardware, queue_auth_decision}
use oshioki.Server.Answers.{IsAnswerable, decide-inserted, IsOwner-iff}

module _ (x : External) where
  module _ (c : Codec) where
    -- A browser authenticator or a secure enclave, as its record says.
    abbrev pub IsHardware : DeviceRow → Type 0
    IsHardware d = (kind_of c d ≡ "webauthn") ⊎ (kind_of c d ≡ "secure-enclave")

    is_hardware_iff : (d : DeviceRow) → (is_hardware x c d ≡ true) ↔ IsHardware d
    unfolding is_hardware
    is_hardware_iff d =
        let browser = eq_iff (kind_of c d) "webauthn" in
        let enclave = eq_iff (kind_of c d) "secure-enclave" in
        (
          (λ h. elim (Bool-cases (kind_of c d == "webauthn")) [
            | inl t ↦ inl (browser.0 t)
            | inr f ↦ inr (enclave.0 (ground (arith, f, h)))
          ]),
          (λ h. elim h [
            | inl t ↦ ground (arith, browser.1 t)
            | inr t ↦ ground (arith, enclave.1 t)
          ]),
        )

    -- A request row when the request with this id is answered: if it is the one and pending, it is
    -- resolved, with the digest of the answer and the time; any other row is as it was.
    abbrev pub answered : (id : String) → (raw : Bytes) → (clock : ℤ) → RequestRow → RequestRow
    answered id raw clock row =
        if row.id == id && is_pending row.state
        then record row { state = resolved (x.sha256 raw) clock }
        else row

    -- The outbox row of a sudo authentication's answer.
    abbrev pub answer_row : (rowid : ℕ) → (id : String) → (raw : Bytes) → (clock : ℤ) → OutboxRow
    answer_row rowid id raw clock = record {
      id = rowid;
      kind = auth_decision;
      dedupe_key = id;
      subject = text_append "oshioki.verdict." id;
      payload = raw;
      created_at = clock;
      sent_at = none;
      attempts = 0;
      expires_at = none;
    }

    -- All that an answer changes: the rows of the authentication requests, and one more outbox row.
    pub record IsAnswered (id : String) (raw : Bytes) (clock : ℤ) (db db' : Db) : Type 0 where
      pub requests :
          (db'.lanes auth).requests ≡ map (answered id raw clock) (db.lanes auth).requests
      pub bodies : (db'.lanes auth).sealed_bodies ≡ (db.lanes auth).sealed_bodies
      pub commands : db'.lanes request ≡ db.lanes request
      pub tools : db'.lanes tool ≡ db.lanes tool
      pub outbox : db'.outbox ≡ db.outbox ++ answer_row (next_rowid db.outbox) id raw clock ∷ []
      pub devices : db'.devices ≡ db.devices
      pub enrollments : db'.enrollments ≡ db.enrollments
      pub tombstones : db'.tombstones ≡ db.tombstones
      pub push_endpoints : db'.push_endpoints ≡ db.push_endpoints
      pub push_subscriptions : db'.push_subscriptions ≡ db.push_subscriptions
      pub push_outbox : db'.push_outbox ≡ db.push_outbox

    update_answered :
        (id : String) (raw : Bytes) (clock : ℤ) (rows : List RequestRow)
        → update_where
            (λ r. has_id id r && is_pending r.state)
            (λ r. record r { state = resolved (x.sha256 raw) clock })
            rows
          ≡ map (answered id raw clock) rows
    update_answered id raw clock [] = refl
    update_answered id raw clock (r ∷ rows) =
        let rest = update_answered id raw clock rows in
        elim (Bool-cases (r.id == id && is_pending r.state)) [
          | inl t ↦ rw (t, rest) refl
          | inr f ↦ rw (f, rest) refl
        ]

    tables_ext :
        (a b : LaneTables) → a.requests ≡ b.requests → a.sealed_bodies ≡ b.sealed_bodies → a ≡ b
    tables_ext a b p q = cc

    db_ext :
        (a b : Db)
        → a.lanes ≡ b.lanes
        → a.devices ≡ b.devices
        → a.enrollments ≡ b.enrollments
        → a.tombstones ≡ b.tombstones
        → a.outbox ≡ b.outbox
        → a.push_endpoints ≡ b.push_endpoints
        → a.push_subscriptions ≡ b.push_subscriptions
        → a.push_outbox ≡ b.push_outbox
        → a ≡ b
    db_ext a b e1 e2 e3 e4 e5 e6 e7 e8 = cc

    -- The store that the code computes.
    abbrev computed : (id : String) → (raw : Bytes) → (clock : ℤ) → Db → Db
    computed id raw clock db =
        add_outbox
          (new_row db.outbox auth_decision id (text_append "oshioki.verdict." id) raw clock none)
          (resolve_request auth id (x.sha256 raw) clock db)

    computed-IsAnswered :
        (id : String) (raw : Bytes) (clock : ℤ) (db : Db)
        → IsAnswered id raw clock db (computed id raw clock db)
    unfolding resolve_request
    computed-IsAnswered id raw clock db = record {
      requests = update_answered id raw clock (db.lanes auth).requests;
      bodies = refl;
      commands = refl;
      tools = refl;
      outbox = refl;
      devices = refl;
      enrollments = refl;
      tombstones = refl;
      push_endpoints = refl;
      push_subscriptions = refl;
      push_outbox = refl;
    }

    same_lane :
        (id : String) (raw : Bytes) (clock : ℤ) (db a b : Db)
        → IsAnswered id raw clock db a
        → IsAnswered id raw clock db b
        → (lane : Lane) → a.lanes lane ≡ b.lanes lane
    same_lane id raw clock db a b p q request = p.commands ∙ sym q.commands
    same_lane id raw clock db a b p q tool = p.tools ∙ sym q.tools
    same_lane id raw clock db a b p q auth =
        tables_ext (a.lanes auth) (b.lanes auth) (p.requests ∙ sym q.requests)
          (p.bodies ∙ sym q.bodies)

    -- The description leaves nothing open.
    answered_unique :
        (id : String) (raw : Bytes) (clock : ℤ) (db a b : Db)
        → IsAnswered id raw clock db a
        → IsAnswered id raw clock db b
        → a ≡ b
    answered_unique id raw clock db a b p q =
        let lanes : a.lanes ≡ b.lanes = fun_ext (same_lane id raw clock db a b p q) in
        db_ext a b lanes (p.devices ∙ sym q.devices) (p.enrollments ∙ sym q.enrollments)
          (p.tombstones ∙ sym q.tombstones) (p.outbox ∙ sym q.outbox)
          (p.push_endpoints ∙ sym q.push_endpoints)
          (p.push_subscriptions ∙ sym q.push_subscriptions) (p.push_outbox ∙ sym q.push_outbox)

  module _ (c : Codec) (id fingerprint : String) (d : AuthDecision) (now clock : ℤ)
      (db db' : Db) where
    -- A sudo authentication's answer is recorded exactly if it has a JSON, its request is stored, live and
    -- pending, a sealed body of the request is for the answering device, which is active and, as its record
    -- says, a browser authenticator or a secure enclave, and no answer under that id is in the outbox. Then
    -- the pending request with that id is resolved with the digest of the JSON and the time, the JSON is
    -- in a new row of the outbox, with the next id, for the hook's subject, and no other row of any table
    -- has changed.
    pub queue_auth_decision_iff :
        (queue_auth_decision x c id fingerprint d now clock db ≡ ok (db', inserted)) ↔ (
          (raw : Bytes) × (row : RequestRow) × (c.auth_decision_to_vec d ≡ some raw)
          × IsAnswerable x (IsHardware c) auth id fingerprint now db row
          × (row.state ≡ pending)
          × (any (has_key auth_decision id) db.outbox ≡ false)
          × IsAnswered c id raw clock db db')
    unfolding queue_auth_decision decide queue
    queue_auth_decision_iff = (
      (λ h.
          let (raw, written, h1) = >>=-eq-ok (ok_or (c.auth_decision_to_vec d) codec) _ h in
          let (row, answerable, starts, (fresh, done)) =
            decide-inserted x (is_hardware x c) (IsHardware c) (is_hardware_iff c) auth id
              fingerprint _ raw now clock db db' h1 in
          (
            raw,
            row,
            ground (arith, written),
            answerable,
            starts,
            fresh,
            subst (IsAnswered c id raw clock db) done (computed-IsAnswered c id raw clock db),
          )),
      (λ (raw, row, written, h, starts, fresh, done).
          let own =
            (IsOwner-iff x (is_hardware x c) (IsHardware c) (is_hardware_iff c) auth id fingerprint
                "" raw now clock db).1
              h.owner in
          let same =
            answered_unique c id raw clock db _ db' (computed-IsAnswered c id raw clock db) done in
          ground (arith, written, h.found, h.live, own, starts, fresh, same)),
    )
