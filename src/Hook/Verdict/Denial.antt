-- ===== src/Hook/Verdict/Denial.antt =====
-- The denials in which the wait of the hook for a decision can end.
use oshioki.Base.{
  ◌≡◌, refl, sym, ap, ◌∙◌, Bool, false, Option, List, [], ◌∷◌, All, ℕ, inl, inr, ◌⊎◌,
}
use mathlib.Core.Path.{subst}
use oshioki.Base.Int.{◌<ℤ◌, ◌≤ℤ◌}
use oshioki.Base.Result.{Result, err}
use oshioki.Protocol.External.{Bytes, External}
use oshioki.Protocol.Device.{DevicePublicRecord, HookConfig}
use oshioki.Protocol.Request.{Request}
use oshioki.Protocol.Decision.{Deny, deny}
use oshioki.Hook.Registry.{File, Commit, GateError, authorize}
use oshioki.Hook.Registry as gate
use oshioki.Hook.Verdict.{HookError, gate_error, unavailable, denied, expired, refused, Approved}
use oshioki.Hook.Verdict.Steps.{err_inj, final_error}
use oshioki.Hook.Verdict.Genuine.{
  IsStopped, is_late, is_denial, is_unread, is_verified, is_forged, is_stopped,
}
use oshioki.Hook.Verdict.Genuine.Classify.{classify}
use oshioki.Hook.Verdict.Wait.{
  Received, Genuine, VerifiedBy, applied, waits, IsDecided, IsStreamError, decided, apply-refused,
  apply-judged,
}

-- The errors that deny, as against those that say nothing about the operator.
pub data IsDenial : HookError → Type 0 where
  said : IsDenial denied
  late : IsDenial expired
  gated : (g : GateError) → IsDenial (refused g)

available : ¬ IsDenial unavailable
available h = elim h [ ]

gate_refused : (g : GateError) → IsDenial (gate_error g) → gate_error g ≡ refused g
gate_refused (gate.host fault) d = absurd (available d)
gate_refused gate.predates_revocation d = refl
gate_refused gate.revoked_or_replaced d = refl
gate_refused gate.expired d = refl

module _ (x : External) (config : Option HookConfig) (confirms : HookConfig → Deny → Bool)
    (active : List DevicePublicRecord) (request : Request) (raw : Bytes) (epoch : ℕ) where
  -- Why the candidate denies: it is a denial in time; or it is late; or it is an approval in time of a
  -- device that the final gate refuses.
  abbrev pub Reason : Received → (file file' : File) → HookError → Type 0
  Reason r file file' e =
      ((denial : Deny) × (r.decision ≡ deny denial)
        × (r.now <ℤ request.expires_at)
        × (e ≡ denied)
        × (file' ≡ file))
      ⊎ ((request.expires_at ≤ℤ r.now) × (e ≡ expired) × (file' ≡ file))
      ⊎ ((a : Approved) × (g : GateError) × VerifiedBy x config confirms active request raw epoch r
            a
          × (e ≡ refused g)
          × (authorize x r.commit a.0 epoch request.expires_at a.1 false r.clock file
              ≡ (file', err g)))

  -- The stream itself does not fail with an error that denies.
  abbrev pub IsNoDenial : Result HookError Received → Type 0
  IsNoDenial t = (e : HookError) → t ≡ err e → ¬ IsDenial e

  stream_error :
      (ts : List (Result HookError Received)) (e : HookError)
      → All IsNoDenial ts
      → IsStreamError x config confirms active request raw epoch ts e
      → ¬ IsDenial e
  stream_error [] e _ same d = available (subst IsDenial same d)
  stream_error (t ∷ ts) e (n, ns) (inl failed) d = n e failed d
  stream_error (t ∷ ts) e (n, ns) (inr (inl (r, f, eq, cut, same))) d =
      available (subst IsDenial same d)
  stream_error (t ∷ ts) e (n, ns) (inr (inr later)) d = stream_error ts e ns later d

  stopped-Reason :
      (r : Received) (file file' : File) (e f : HookError)
      → IsDenial e
      → IsStopped x config confirms active request raw r.decision r.now f
      → e ≡ f
      → file' ≡ file
      → Reason r file file' e
  stopped-Reason r file file' e _ d (is_late t) same kept = inr (inl (t, same, kept))
  stopped-Reason r file file' e _ d (is_denial denial eq live) same kept =
      inl (denial, eq, live, same, kept)
  stopped-Reason r file file' e _ d (is_unread unread) same kept =
      absurd (available (subst IsDenial same d))

  reason :
      (r : Received) (file file' : File) (e : HookError)
      → IsDenial e
      → Genuine x config confirms active request raw epoch r.decision
      → applied x config confirms active request raw epoch r file ≡ (file', err e)
      → Reason r file file' e
  reason r file file' e d g h =
      elim (classify x config confirms active request raw r.decision r.now) [
        | is_forged j n ↦ absurd (n g)
        | is_stopped f j g' s ↦
            let both =
              sym (apply-refused x config confirms active request raw epoch r file f j) ∙ h in
            stopped-Reason r file file' e f d s (err_inj (ap (λ p. p.1) (sym both)))
              (ap (λ p. p.0) (sym both))
        | is_verified a j v g' ↦
            let (refusal, same, closed) =
              final_error x r.commit a.0 epoch request.expires_at a.1 false r.clock file file' e
                (sym (apply-judged x config confirms active request raw epoch r file a j) ∙ h) in
            let named = gate_refused refusal (subst IsDenial (sym same) d) in
            inr (inr (a, refusal, v, sym same ∙ named, closed))
      ]

  -- If the wait ends in an error that denies, and the stream cannot fail with one, then, after candidates
  -- that are applied in time and are not Genuine, there comes a genuine decision on this request that is
  -- applied before the deadline; and either it is a denial in time, or it comes after the request has
  -- expired, and the registry is unchanged; or it is an approval in time that the final gate refuses for the
  -- reason given.
  pub denied-IsDecided :
      (ts : List (Result HookError Received)) (file file' : File) (e : HookError)
      → All IsNoDenial ts
      → IsDenial e
      → waits x config confirms active request raw epoch ts file ≡ (file', err e)
      → (d : IsDecided x config confirms active request raw epoch ts file file' (err e)) × Reason
          d.received file file' e
  denied-IsDecided ts file file' e ns denies h =
      elim (decided x config confirms active request raw epoch ts file file' (err e) h) [
        | inr (f, same, fails) ↦
            absurd (stream_error ts f ns fails (subst IsDenial (err_inj same) denies))
        | inl d ↦ (d, reason d.received file file' e denies d.is_genuine d.settles)
      ]
