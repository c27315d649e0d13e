-- ===== src/Hook/Verdict/Genuine.antt =====
-- Which decisions `apply_decision` of hook/src/main.rs takes for genuine on the NATS lane, written out
-- for each of the three messages.
pub mod Classify
use oshioki.Base.{
  ◌≡◌, ◌≢◌, ◌↔◌, refl, sym, ap, ◌∙◌, inl, inr, ◌⊎◌, Bool, true, false, not, ◌&&◌, ◌||◌, Option,
  none, some, List, String, find, ◌==◌, text_has_eq, nat_has_eq, eq_iff, nat_eq_iff, arith,
  Option-cases, Bool-cases,
}
use oshioki.Base.Int.{ℤ, lebℤ, ◌<ℤ◌, ◌≤ℤ◌}
use oshioki.Base.Result.{
  Result, ok, err, refuse, ok_or, >>=-eq-ok, refuse-eq-ok, Result-cases, ok_inj,
}
use oshioki.Protocol.Error.{Error}
use oshioki.Protocol.External.{Bytes, External}
use oshioki.Protocol.Device.{
  webauthn, software, secure_enclave, kind_eq, DevicePublicRecord, HookConfig, version_v1,
}
use oshioki.Protocol.Request.{Request}
use oshioki.Protocol.Decision.{
  Deny, Approve, ApproveNative, Decision, approve, approve_native, deny, validate_deny_shape,
  verify_deny, validate_native_shape, validate_approve_shape, verify_native_approval,
}
use oshioki.Protocol.Assertion.{AssertionOutcome, verify_approval}
use oshioki.Hook.Verdict.{
  HookError, invalid_decision, unavailable, expired, denied, nats, Approved, authentic,
  confirm_denial, authenticate_denial, authenticate_approval, authenticate_native, judge,
}
use oshioki.Hook.Verdict.Steps.{
  FailsInvalid, bind-FailsInvalid, authentic-FailsInvalid, refuse-FailsInvalid, ok_or-FailsInvalid,
}

module _ (x : External) (config : Option HookConfig) (confirms : HookConfig → Deny → Bool)
    (active : List DevicePublicRecord) (request : Request) (raw : Bytes) where
  -- Who vouches for a denial: the device by its signature, or the server for a browser device.
  abbrev pub Vouched : Deny → DevicePublicRecord → Type 0
  Vouched denial device =
      ((signature : String) × (denial.signature ≡ some signature)
        × (verify_deny x denial device ≡ ok tt))
      ⊎ ((c : HookConfig) × (denial.signature ≡ none)
          × (config ≡ some c)
          × (kind_eq device.kind webauthn ≡ true)
          × (confirms c denial ≡ true))

  -- The decision is well shaped, for this request, by an active device that it names, and vouched for;
  -- an approval by a browser cannot be looked into without the configuration.
  abbrev pub IsGenuine : Decision → Type 0
  IsGenuine (deny denial) =
      (device : DevicePublicRecord) × (validate_deny_shape x denial ≡ ok tt)
      × (denial.version ≡ version_v1)
      × (denial.request_id ≡ request.request_id)
      × (find (λ d. d.fingerprint == denial.device_fingerprint) active ≡ some device)
      × Vouched denial device
  IsGenuine (approve approval) =
      (device : DevicePublicRecord) × (validate_approve_shape x approval ≡ ok tt)
      × (approval.request_id ≡ request.request_id)
      × (find
            (λ d.
              kind_eq d.kind webauthn
              && d.fingerprint == approval.device_fingerprint
              && d.credential_id == approval.credential_id)
            active
          ≡ some device)
      × ((config ≡ none)
          ⊎ ((c : HookConfig) × (outcome : AssertionOutcome) × (config ≡ some c)
              × (verify_approval x approval raw device c ≡ ok outcome)))
  IsGenuine (approve_native approval) =
      (device : DevicePublicRecord) × (validate_native_shape x approval ≡ ok tt)
      × (approval.request_id ≡ request.request_id)
      × (find
            (λ d.
              (kind_eq d.kind software || kind_eq d.kind secure_enclave)
              && d.fingerprint == approval.device_fingerprint)
            active
          ≡ some device)
      × (verify_native_approval x approval raw device ≡ ok tt)

  -- An approval that is genuine and in time, its device, and the counter that its assertion showed.
  abbrev pub IsVerified : Decision → (now : ℤ) → Approved → Type 0
  IsVerified (deny denial) now a = ⊥
  IsVerified (approve approval) now a =
      (c : HookConfig) × (outcome : AssertionOutcome) × (validate_approve_shape x approval ≡ ok tt)
      × (approval.request_id ≡ request.request_id)
      × (find
            (λ d.
              kind_eq d.kind webauthn
              && d.fingerprint == approval.device_fingerprint
              && d.credential_id == approval.credential_id)
            active
          ≡ some a.0)
      × (config ≡ some c)
      × (verify_approval x approval raw a.0 c ≡ ok outcome)
      × (now <ℤ request.expires_at)
      × (a.1 ≡ some outcome.observed_sign_count)
  IsVerified (approve_native approval) now a =
      (validate_native_shape x approval ≡ ok tt)
      × (approval.request_id ≡ request.request_id)
      × (find
            (λ d.
              (kind_eq d.kind software || kind_eq d.kind secure_enclave)
              && d.fingerprint == approval.device_fingerprint)
            active
          ≡ some a.0)
      × (verify_native_approval x approval raw a.0 ≡ ok tt)
      × (now <ℤ request.expires_at)
      × (a.1 ≡ none)

  abbrev pub judged : Decision → (now : ℤ) → Result HookError Approved
  judged decision now = judge x config confirms active request nats decision raw now

  -- Why a genuine decision does not get to the final gate.
  pub data IsStopped (decision : Decision) (now : ℤ) : HookError → Type 0 where
    is_late : request.expires_at ≤ℤ now → IsStopped decision now expired
    is_denial :
        (denial : Deny)
        → decision ≡ deny denial
        → now <ℤ request.expires_at
        → IsStopped decision now denied
    is_unread : config ≡ none → IsStopped decision now unavailable

  -- The three things that can become of a decision.
  pub data Classified (decision : Decision) (now : ℤ) : Type 0 where
    is_verified :
        (a : Approved)
        → judged decision now ≡ ok a
        → IsVerified decision now a
        → IsGenuine decision
        → Classified decision now
    is_forged :
        judged decision now ≡ err invalid_decision → ¬ IsGenuine decision → Classified decision now
    is_stopped :
        (e : HookError)
        → judged decision now ≡ err e
        → IsGenuine decision
        → IsStopped decision now e
        → Classified decision now
