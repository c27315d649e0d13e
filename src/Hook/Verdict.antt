-- ===== src/Hook/Verdict.antt =====
-- `apply_decision`, `final_authorization` and `first_valid_decision` of hook/src/main.rs: what the hook
-- makes of the decisions that reach it. The clock is read twice, at the verdict (`now`) and under the
-- registry's lock (`clock`). hook.json as it is read, and the server's answer to a request for
-- confirmation of a denial, are arguments; so is each step's timeout, as the outcome `none`.
pub mod Steps
pub mod Genuine
pub mod Wait
pub mod Authentic
pub mod Denial
use oshioki.Base.{
  ℕ, Bool, true, false, not, ◌&&◌, ◌||◌, Option, none, some, List, [], ◌∷◌, find, ◌==◌, nat_has_eq,
  text_has_eq,
}
use oshioki.Base.Int.{ℤ, lebℤ}
use oshioki.Base.Result.{Result, ok, err, refuse, ok_or, ◌>>=◌, ◌>>◌}
use oshioki.Protocol.Error.{Error}
use oshioki.Protocol.External.{Bytes, External}
use oshioki.Protocol.Device.{webauthn, kind_eq, DevicePublicRecord, HookConfig, version_v1}
use oshioki.Protocol.Request.{Request}
use oshioki.Protocol.Decision.{
  ApproveNative, Approve, Deny, Decision, approve, approve_native, deny, is_native,
  validate_native_shape, validate_approve_shape, validate_deny_shape, verify_deny,
  verify_native_approval,
}
use oshioki.Protocol.Assertion.{verify_approval}
use oshioki.Hook.Registry.{File, Commit, GateError, has_fingerprint, authorize}
use oshioki.Hook.Registry as gate

-- The classes of `anyhow::Error` that the callers tell apart: `InvalidDecision`, `ApprovalUnavailable`
-- (host faults included), and the ordinary errors, which deny.
pub data HookError : Type 0 where
  invalid_decision unavailable : HookError
  expired denied : HookError
  refused : GateError → HookError

pub data DecisionLane : Type 0 where
  socket nats : DecisionLane

abbrev is_nats : DecisionLane → Bool
is_nats nats = true
is_nats socket = false

-- `invalid_because`
abbrev pub authentic {ℓ} : {A : Type ℓ} → Result Error A → Result HookError A
authentic (ok a) = ok a
authentic (err e) = err invalid_decision

-- The `map_err` of `final_authorization`.
abbrev pub gate_error : GateError → HookError
gate_error (gate.host fault) = unavailable
gate_error e = refused e

-- The device of an approval, with the counter that its assertion showed.
abbrev pub Approved : Type 0
Approved = DevicePublicRecord × Option ℕ

module _ (x : External) where
  unfoldable pub final_authorization :
      Commit
      → DevicePublicRecord
      → (epoch : ℕ) → (expires_at : ℤ) → (observed : Option ℕ) → (authentication : Bool)
      → (clock : ℤ) → File
      → File × Result HookError (Unit {0})
  final_authorization commit device epoch expires_at observed authentication clock file =
      let (file', result) =
        authorize x commit device epoch expires_at observed authentication clock file in
      (file', elim result [ ok u ↦ ok tt | err e ↦ err (gate_error e) ])

  module _ (config : Option HookConfig) (confirms : HookConfig → Deny → Bool)
      (active : List DevicePublicRecord) (request : Request) where
    -- The branch of a denial without a signature.
    unfoldable pub confirm_denial :
        DecisionLane → Deny → DevicePublicRecord → Result HookError (Unit {0})
    confirm_denial lane denial device = do
      refuse (not (is_nats lane)) invalid_decision
      refuse (not (kind_eq device.kind webauthn)) invalid_decision
      c ← ok_or config invalid_decision
      refuse (not (confirms c denial)) invalid_decision

    -- The branch of a denial up to the clock; it succeeds when the denial is authentic.
    unfoldable pub authenticate_denial : DecisionLane → Deny → Result HookError (Unit {0})
    unfolding confirm_denial
    authenticate_denial lane denial = do
      authentic (validate_deny_shape x denial)
      refuse (not (denial.version == version_v1) || not (denial.request_id == request.request_id))
          invalid_decision
      device ← ok_or (find (has_fingerprint denial.device_fingerprint) active) invalid_decision
      elim denial.signature [
        | some signature ↦ authentic (verify_deny x denial device)
        | none ↦ confirm_denial lane denial device
      ]

    abbrev names_credential : Approve → DevicePublicRecord → Bool
    names_credential approval device =
        kind_eq device.kind webauthn
        && device.fingerprint == approval.device_fingerprint
        && device.credential_id == approval.credential_id

    unfoldable pub authenticate_approval :
        Approve → (raw_request : Bytes) → (now : ℤ) → Result HookError Approved
    authenticate_approval approval raw_request now = do
      authentic (validate_approve_shape x approval)
      refuse (not (approval.request_id == request.request_id)) invalid_decision
      device ← ok_or (find (names_credential approval) active) invalid_decision
      c ← ok_or config unavailable
      outcome ← authentic (verify_approval x approval raw_request device c)
      refuse (lebℤ request.expires_at now) expired
      ok (device, some outcome.observed_sign_count)

    unfoldable pub authenticate_native :
        ApproveNative → (raw_request : Bytes) → (now : ℤ) → Result HookError Approved
    authenticate_native approval raw_request now = do
      authentic (validate_native_shape x approval)
      refuse (not (approval.request_id == request.request_id)) invalid_decision
      device ←
          ok_or
            (find (λ d. is_native d.kind && has_fingerprint approval.device_fingerprint d) active)
            invalid_decision
      authentic (verify_native_approval x approval raw_request device)
      refuse (lebℤ request.expires_at now) expired
      ok (device, none)

    -- The whole `match`, up to the final authorization. A denial never gets there.
    unfoldable pub judge :
        DecisionLane → Decision → (raw_request : Bytes) → (now : ℤ) → Result HookError Approved
    unfolding authenticate_denial authenticate_approval authenticate_native
    judge lane (deny denial) raw_request now = do
      authenticate_denial lane denial
      refuse (lebℤ request.expires_at now) expired
      err denied
    judge lane (approve approval) raw_request now = authenticate_approval approval raw_request now
    judge lane (approve_native approval) raw_request now =
        authenticate_native approval raw_request now

    unfoldable pub apply_decision :
        Decision
        → DecisionLane
        → (raw_request : Bytes) → (snapshot_epoch : ℕ) → (now clock : ℤ) → Commit
        → File
        → File × Result HookError (Unit {0})
    unfolding judge final_authorization
    apply_decision decision lane raw_request snapshot_epoch now clock commit file =
        elim (judge lane decision raw_request now) [
          | err e ↦ (file, err e)
          | ok a ↦
              final_authorization commit a.0 snapshot_epoch request.expires_at a.1 false clock file
        ]

-- The wait. `apply` has the state that it changes, and gives no result when the deadline passes first.
unfoldable pub first_valid_decision {ℓ κ} :
    {S : Type ℓ} {T : Type κ}
    → (apply : T → S → S × Option (Result HookError (Unit {0}))) → List (Result HookError T)
    → S
    → S × Result HookError (Unit {0})
first_valid_decision apply [] s = (s, err unavailable)
first_valid_decision apply (err e ∷ decisions) s = (s, err e)
first_valid_decision apply (ok decision ∷ decisions) s =
    let (s', result) = apply decision s in
    let rest = first_valid_decision apply decisions s' in
    elim result [
      | none ↦ (s', err unavailable)
      | some (err invalid_decision) ↦ rest
      | some r ↦ (s', r)
    ]
