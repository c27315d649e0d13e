-- ===== src/Server/Answers.antt =====
-- The answers of `queue_decision` and `queue_auth_decision` in server/src/db.rs to a device.
pub mod Auth
use oshioki.Base.{
  ◌≡◌, ◌↔◌, ◌⊎◌, ◌&&◌, ◌∙◌, sym, ap, List, [], ◌∷◌, ◌++◌, map, ℕ, ◌==◌, eq_iff, if◌then◌else◌, refl,
  inl, inr, Bool, true, false, not, none, some, String, arith, any, Bool-cases, Option-cases,
  text_has_eq,
}
use Prim.Native.String.{◌++◌ as text_append}
use mathlib.Core.Path.{subst, fun_ext}
use oshioki.Base.Int.{ℤ, lebℤ, ◌≤ℤ◌, ◌<ℤ◌}
use oshioki.Base.Result.{Result, ok, err, ok_or, >>=-eq-ok, refuse-eq-ok}
use oshioki.Protocol.Cbor.{bytes_eq}
use oshioki.Protocol.External.{Bytes, External}
use oshioki.Protocol.Decision.{Decision}
use oshioki.Protocol.Auth.Verify.{AuthDecision}
use oshioki.Server.Tables.{
  Lane, request, auth, tool, State, LaneTables, OutboxRow, has_id, next_rowid, update_where,
  pending, resolved, RequestRow, DeviceRow, auth_decision, Db, StoreError, unknown, expired,
  not_owner, constraint, codec, InsertResult, inserted, Codec, find_request, has_key, new_row,
  add_outbox, queue,
}
use oshioki.Server.Push.{is_pending}
use oshioki.Server.Ingest.{kind_of}
use oshioki.Server.Owner.{IsOwner, owns-IsOwner}
use oshioki.Server.Decide.{
  kind_of_lane, owns, resolve_request, decide, queue_decision, is_hardware, queue_auth_decision,
}

module _ (x : External) where
  module _ (Eligible : DeviceRow → Type 0) (lane : Lane) (id fingerprint : String) (now : ℤ)
      (db : Db) where
    -- The request is known and has not expired, and the device may answer it.
    pub record IsAnswerable (row : RequestRow) : Type 0 where
      pub found : find_request lane id db ≡ some row
      pub live : now <ℤ row.expires_at
      pub owner : IsOwner Eligible lane id fingerprint db

    -- Why a decision is refused.
    pub data IsRefused : StoreError → Type 0 where
      is_unknown : find_request lane id db ≡ none → IsRefused unknown
      is_expired :
          (row : RequestRow)
          → find_request lane id db ≡ some row
          → row.expires_at ≤ℤ now
          → IsRefused expired
      is_foreign :
          (row : RequestRow)
          → find_request lane id db ≡ some row
          → now <ℤ row.expires_at
          → ¬ IsOwner Eligible lane id fingerprint db
          → IsRefused not_owner
      is_reused :
          (row : RequestRow)
          → IsAnswerable row
          → row.state ≡ pending
          → any (has_key (kind_of_lane lane) id) db.outbox ≡ true
          → IsRefused constraint

  state_cases : (s : State) → (s ≡ pending) ⊎ ((hash : Bytes) × (at : ℤ) × (s ≡ resolved hash at))
  state_cases pending = inl refl
  state_cases (resolved hash at) = inr (hash, at, refl)

  module _ (eligible : DeviceRow → Bool) (Eligible : DeviceRow → Type 0)
      (meaning : (d : DeviceRow) → (eligible d ≡ true) ↔ Eligible d) (lane : Lane)
      (id fingerprint subject : String) (raw : Bytes) (now clock : ℤ) (db : Db) where
    pub IsOwner-iff :
        (owns eligible lane id fingerprint db ≡ true) ↔ IsOwner Eligible lane id fingerprint db
    IsOwner-iff = owns-IsOwner eligible Eligible meaning lane id fingerprint db

    abbrev verdict : Result StoreError (Db × InsertResult)
    verdict = decide x lane eligible id fingerprint subject raw now clock db

    decide_sound :
        (e : StoreError) → verdict ≡ err e → IsRefused Eligible lane id fingerprint now db e
    unfolding decide queue
    decide_sound e h = elim (Option-cases (find_request lane id db)) [
      | inl n ↦ subst (IsRefused Eligible lane id fingerprint now db) (cc (n, h)) (is_unknown n)
      | inr (row, found) ↦ elim (Bool-cases (lebℤ row.expires_at now)) [
        | inl late ↦
            subst (IsRefused Eligible lane id fingerprint now db) (cc (found, late, h))
              (is_expired row found (ground (arith, late)))
        | inr live ↦ elim (Bool-cases (owns eligible lane id fingerprint db)) [
          | inr f ↦
              subst (IsRefused Eligible lane id fingerprint now db) (cc (found, live, f, h))
                (is_foreign row found (ground (arith, live)) λ o. cc (IsOwner-iff.1 o, f))
          | inl own ↦
              let answerable : IsAnswerable Eligible lane id fingerprint now db row = record {
                found = found;
                live = ground (arith, live);
                owner = IsOwner-iff.0 own;
              } in
              elim (state_cases row.state) [
                | inr (hash, at, s) ↦ absurd (ground (arith, found, live, own, s, h))
                | inl s ↦ elim (Bool-cases (any (has_key (kind_of_lane lane) id) db.outbox)) [
                  | inr fresh ↦ absurd (ground (arith, found, live, own, s, fresh, h))
                  | inl used ↦
                      subst (IsRefused Eligible lane id fingerprint now db)
                        (cc (found, live, own, s, used, h)) (is_reused row answerable s used)
                ]
              ]
        ]
      ]
    ]

    decide_complete :
        (e : StoreError) → IsRefused Eligible lane id fingerprint now db e → verdict ≡ err e
    unfolding decide queue
    decide_complete _ (is_unknown n) = rw n refl
    decide_complete _ (is_expired row found late) = ground (arith, found, late)
    decide_complete _ (is_foreign row found live foreign) =
        elim (Bool-cases (owns eligible lane id fingerprint db)) [
          | inl own ↦ absurd (foreign (IsOwner-iff.0 own))
          | inr f ↦ ground (arith, found, live, f)
        ]
    decide_complete _ (is_reused row h starts used) =
        ground (arith, h.found, h.live, IsOwner-iff.1 h.owner, starts, used)

    pub decide-inserted :
        (db' : Db)
        → verdict ≡ ok (db', inserted)
        → (row : RequestRow) × IsAnswerable Eligible lane id fingerprint now db row
          × (row.state ≡ pending)
          × ((any (has_key (kind_of_lane lane) id) db.outbox ≡ false)
              × (add_outbox
                    (new_row db.outbox (kind_of_lane lane) id subject raw clock none)
                    (resolve_request lane id (x.sha256 raw) clock db)
                  ≡ db'))
    unfolding decide queue resolve_request
    decide-inserted db' h =
        let (row, found, h1) = >>=-eq-ok (ok_or (find_request lane id db) unknown) _ h in
        let (live, h2) = refuse-eq-ok (lebℤ row.expires_at now) expired _ h1 in
        let (owner, h3) =
          refuse-eq-ok (not (owns eligible lane id fingerprint db)) not_owner _ h2 in
        elim (state_cases row.state) [
          | inr (hash, at, s) ↦ elim (Bool-cases (bytes_eq hash (x.sha256 raw))) [
            | inl t ↦ absurd (ground (arith, s, t, h3))
            | inr u ↦ absurd (ground (arith, s, u, h3))
          ]
          | inl s ↦
              let (queued, added, h4) = >>=-eq-ok _ _ (rw s at h3) in
              let (fresh, h5) =
                refuse-eq-ok (any (has_key (kind_of_lane lane) id) db.outbox) constraint _ added in
              (
                row,
                record {
                  found = ground (arith, found);
                  live = ground (arith, live);
                  owner = IsOwner-iff.0 (ground (arith, owner));
                },
                s,
                (fresh, cc (h4, h5)),
              )
        ]

  any_device : (d : DeviceRow) → (◌≡◌ {A = Bool} true true) ↔ Unit {0}
  any_device d = (λ h. tt, λ u. refl)

  module _ (c : Codec) (id fingerprint : String) (d : Decision) (now clock : ℤ) (db : Db) where
    -- The errors of `queue_decision` are these and no others: no JSON of the decision; a request that is
    -- not stored; one that has expired; no sealed body of it for the device with that fingerprint, or no such
    -- device that is active; or a pending request for whose id an older decision is still in the outbox. Each such failure gives its
    -- own error.
    pub queue_decision_errors :
        (e : StoreError)
        → (queue_decision x c id fingerprint d now clock db ≡ err e) ↔ (
            (c.decision_to_vec d ≡ none) × (e ≡ codec)
            ⊎ (raw : Bytes) × (c.decision_to_vec d ≡ some raw)
              × IsRefused (λ device. Unit {0}) request id fingerprint now db e)
    unfolding queue_decision
    queue_decision_errors e = (
      (λ h. elim (Option-cases (c.decision_to_vec d)) [
        | inl n ↦ inl (n, cc (n, h))
        | inr (raw, w) ↦ inr (
          raw,
          w,
          decide_sound _ _ any_device request id fingerprint _ raw now clock db e (rw w at h),
        )
      ]),
      (λ h. elim h [
        | inl (n, same) ↦ rw (n, same) refl
        | inr (raw, w, refused) ↦
            rw w
              (decide_complete _ _ any_device request id fingerprint _ raw now clock db e refused)
      ]),
    )
