-- ===== src/Hook/Verdict/Steps.antt =====
-- The steps of the hook's handling of decisions: how one candidate ends the wait, which results the final
-- authorization of hook/src/main.rs can have, and which steps cannot deny.
use oshioki.Base.{
  ◌≡◌, ◌≢◌, refl, Bool, true, false, Option, none, some, List, ◌∷◌, ℕ, text_has_eq, nat_has_eq,
  arith, ap, inl, inr, ◌⊎◌,
}
use oshioki.Base.Int.{ℤ}
use mathlib.Core.Path.{sym, ◌∙◌}
use oshioki.Base.Result.{◌>>=◌, Result, ok, err, refuse, ok_or, ◌>>=◌, Result-cases}
use oshioki.Protocol.Error.{Error}
use oshioki.Protocol.External.{External}
use oshioki.Protocol.Device.{DevicePublicRecord}
use mathlib.Core.Path.{◌∙◌}
use oshioki.Hook.Registry.{File, Commit, GateError, has_fingerprint, authorize}
use oshioki.Hook.Registry as gate
use oshioki.Hook.Verdict.{
  HookError, gate_error, invalid_decision, unavailable, expired, denied, refused, authentic,
  final_authorization, first_valid_decision,
}

-- Steps that fail as an invalid decision or not at all.
abbrev pub FailsInvalid : {A : Type 0} → Result HookError A → Type 0
FailsInvalid r = (e : HookError) → r ≡ err e → e ≡ invalid_decision

pub err_inj : {A : Type 0} {e f : HookError} → ◌≡◌ {A = Result HookError A} (err e) (err f) → e ≡ f
err_inj h = cc

module _ {A B : Type 0} where
  pub bind-FailsInvalid :
      (step : Result HookError A) (rest : A → Result HookError B)
      → FailsInvalid step
      → ((a : A) → FailsInvalid (rest a))
      → FailsInvalid (step >>= rest)
  bind-FailsInvalid (ok a) rest _ fails e h = fails a e h
  bind-FailsInvalid (err f) rest fails _ e h = sym (err_inj {A = B} h) ∙ fails f refl

pub authentic-FailsInvalid : {A : Type 0} (r : Result Error A) → FailsInvalid (authentic r)
authentic-FailsInvalid (ok a) e h = cc
authentic-FailsInvalid (err f) e h = sym (err_inj h)

pub refuse-FailsInvalid : (b : Bool) → FailsInvalid (refuse b invalid_decision)
refuse-FailsInvalid true e h = sym (err_inj h)
refuse-FailsInvalid false e h = cc

pub ok_or-FailsInvalid : {A : Type 0} (o : Option A) → FailsInvalid (ok_or o invalid_decision)
ok_or-FailsInvalid none e h = sym (err_inj h)
ok_or-FailsInvalid (some a) e h = cc

module _ {ℓ κ} {S : Type ℓ} {T : Type κ}
    (apply : T → S → S × Option (Result HookError (Unit {0}))) where
  pub ignored_step :
      (t : T) (ts : List (Result HookError T)) (s : S)
      → apply t s ≡ (s, some (err invalid_decision))
      → first_valid_decision apply (ok t ∷ ts) s ≡ first_valid_decision apply ts s
  unfolding first_valid_decision
  ignored_step t ts s h =
      rw (ap (λ p. p.1) h, first_valid_decision) (ap (λ p. first_valid_decision apply ts p.0) h)

  pub cut_step :
      (t : T) (ts : List (Result HookError T)) (s s' : S)
      → apply t s ≡ (s', none)
      → first_valid_decision apply (ok t ∷ ts) s ≡ (s', err unavailable)
  unfolding first_valid_decision
  cut_step t ts s s' h =
      rw (ap (λ p. p.1) h, first_valid_decision) (ap (λ p. (p.0, err unavailable)) h)

  -- The candidate's own result ends the wait, or it was an invalid decision.
  pub ended :
      (t : T) (ts : List (Result HookError T)) (s s' : S) (r : Result HookError (Unit {0}))
      → apply t s ≡ (s', some r)
      → (r ≡ err invalid_decision) ⊎ (first_valid_decision apply (ok t ∷ ts) s ≡ (s', r))
  unfolding first_valid_decision
  ended t ts s s' (ok u) h =
      inr (rw (ap (λ p. p.1) h, first_valid_decision) (ap (λ p. (p.0, ok u)) h))
  ended t ts s s' (err invalid_decision) h = inl refl
  ended t ts s s' (err unavailable) h =
      inr (rw (ap (λ p. p.1) h, first_valid_decision) (ap (λ p. (p.0, err unavailable)) h))
  ended t ts s s' (err expired) h =
      inr (rw (ap (λ p. p.1) h, first_valid_decision) (ap (λ p. (p.0, err expired)) h))
  ended t ts s s' (err denied) h =
      inr (rw (ap (λ p. p.1) h, first_valid_decision) (ap (λ p. (p.0, err denied)) h))
  ended t ts s s' (err (refused e)) h =
      inr (rw (ap (λ p. p.1) h, first_valid_decision) (ap (λ p. (p.0, err (refused e))) h))

pub gate_error-valid : (e : GateError) → gate_error e ≢ invalid_decision
gate_error-valid (gate.host fault) h = cc
gate_error-valid gate.predates_revocation h = cc
gate_error-valid gate.revoked_or_replaced h = cc
gate_error-valid gate.expired h = cc

module _ (x : External) (commit : Commit) (device : DevicePublicRecord) (epoch : ℕ) (expires_at : ℤ)
    (observed : Option ℕ) (authentication : Bool) (clock : ℤ) (file : File) where
  abbrev pub gated : File × Result GateError (Unit {0})
  gated = authorize x commit device epoch expires_at observed authentication clock file

  abbrev pub final : File × Result HookError (Unit {0})
  final = final_authorization x commit device epoch expires_at observed authentication clock file

  pub final-not : (bad : HookError) → ((e : GateError) → gate_error e ≢ bad) → final.1 ≢ err bad
  unfolding final_authorization
  final-not bad never h = elim (Result-cases gated.1) [
    | inl (u, a) ↦ ground (arith, a, h)
    | inr (e, a) ↦ never e (ground (arith, a, h))
  ]

  pub final_sound : (file' : File) → final ≡ (file', ok tt) → gated ≡ (file', ok tt)
  unfolding final_authorization
  final_sound file' h = elim (Result-cases gated.1) [
    | inl (u, a) ↦ ap (λ f. (f, gated.1)) (ap (λ p. p.0) h) ∙ ap (λ r. (file', r)) a
    | inr (e, a) ↦ absurd (ground (arith, a, ap (λ p. p.1) h))
  ]

  pub final_complete : (file' : File) → gated ≡ (file', ok tt) → final ≡ (file', ok tt)
  unfolding final_authorization
  final_complete file' h = ground (arith, h)

  pub final_error :
      (file' : File) (e : HookError)
      → final ≡ (file', err e)
      → (g : GateError) × (gate_error g ≡ e) × (gated ≡ (file', err g))
  unfolding final_authorization
  final_error file' e h = elim (Result-cases gated.1) [
    | inl (u, a) ↦ absurd (ground (arith, a, ap (λ p. p.1) h))
    | inr (g, a) ↦ (
      g,
      err_inj {A = Unit {0}} (ground (arith, a, ap (λ p. p.1) h)),
      ap (λ f. (f, gated.1)) (ap (λ p. p.0) h) ∙ ap (λ r. (file', r)) a,
    )
  ]

pub err≢ok : {e : HookError} {u : Unit {0}} → ◌≢◌ {A = Result HookError (Unit {0})} (err e) (ok u)
err≢ok h = cc
