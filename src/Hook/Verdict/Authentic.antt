-- ===== src/Hook/Verdict/Authentic.antt =====
-- The approvals in which the wait of the hook for a decision can end.
use oshioki.Base.{
  ◌≡◌, ◌↔◌, sym, ap, ◌∙◌, Bool, false, Option, none, some, List, ◌∷◌, ◌++◌, All, ℕ, inl, inr,
}
use oshioki.Base.Result.{Result, ok}
use oshioki.Protocol.External.{Bytes, External}
use oshioki.Protocol.Device.{DevicePublicRecord, HookConfig}
use oshioki.Protocol.Request.{Request}
use oshioki.Protocol.Decision.{Deny}
use oshioki.Hook.Registry.{File, authorize}
use oshioki.Hook.Verdict.{HookError, Approved}
use oshioki.Hook.Verdict.Steps.{ended, final_sound, final_complete, err≢ok}
use oshioki.Hook.Verdict.Genuine.{is_verified, is_forged, is_stopped}
use oshioki.Hook.Verdict.Genuine.Classify.{classify, verified-judged}
use oshioki.Hook.Verdict.Wait.{
  Received, Genuine, VerifiedBy, applied, waits, apply_received, IsForged, decided, apply-refused,
  apply-judged, received-applied, forged_are_ignored,
}

module _ (x : External) (config : Option HookConfig) (confirms : HookConfig → Deny → Bool)
    (active : List DevicePublicRecord) (request : Request) (raw : Bytes) (epoch : ℕ) where
  -- The approval that lets the command run.
  pub record IsApproved (ts : List (Result HookError Received)) (file file' : File) : Type 0 where
    pub earlier : List (Result HookError Received)
    pub received : Received
    pub later : List (Result HookError Received)
    pub approved : Approved
    pub order : ts ≡ earlier ++ ok received ∷ later
    pub forged : All (IsForged x config confirms active request raw epoch) earlier
    pub whole : received.cut_off ≡ none
    pub genuinely : VerifiedBy x config confirms active request raw epoch received approved
    pub granted :
        authorize x received.commit approved.0 epoch request.expires_at approved.1 false
          received.clock file
        ≡ (file', ok tt)

  -- A genuine candidate that is applied with success is verified and granted.
  apply-approved :
      (r : Received) (file file' : File)
      → Genuine x config confirms active request raw epoch r.decision
      → applied x config confirms active request raw epoch r file ≡ (file', ok tt)
      → (a : Approved) × VerifiedBy x config confirms active request raw epoch r a
        × (authorize x r.commit a.0 epoch request.expires_at a.1 false r.clock file
            ≡ (file', ok tt))
  apply-approved r file file' g h =
      elim (classify x config confirms active request raw r.decision r.now) [
        | is_forged j n ↦ absurd (n g)
        | is_stopped e j g' s ↦ absurd (
            err≢ok (
              ap (λ p. p.1)
                (sym (apply-refused x config confirms active request raw epoch r file e j) ∙ h)))
        | is_verified a j v g' ↦ (
          a,
          v,
          final_sound x r.commit a.0 epoch request.expires_at a.1 false r.clock file file'
              (sym (apply-judged x config confirms active request raw epoch r file a j) ∙ h),
        )
      ]

  approves_at_once :
      (r : Received) (later : List (Result HookError Received)) (file file' : File) (a : Approved)
      → r.cut_off ≡ none
      → VerifiedBy x config confirms active request raw epoch r a
      → authorize x r.commit a.0 epoch request.expires_at a.1 false r.clock file ≡ (file', ok tt)
      → waits x config confirms active request raw epoch (ok r ∷ later) file ≡ (file', ok tt)
  approves_at_once r later file file' a whole v granted =
      let j = verified-judged x config confirms active request raw r.decision r.now a v in
      let done =
        apply-judged x config confirms active request raw epoch r file a j
        ∙ final_complete x r.commit a.0 epoch request.expires_at a.1 false r.clock file file'
            granted in
      elim (ended (apply_received x config confirms active request raw epoch) r later file file'
        (ok tt)
        (received-applied x config confirms active request raw epoch r file whole
          ∙ ap (λ p. (p.0, some p.1)) done)) [
            | inl wrong ↦ absurd (err≢ok (sym wrong))
            | inr ends ↦ ends
          ]

  -- The wait ends in an approval exactly when, after candidates that are applied in time and are not
  -- Genuine, there comes one that is applied before the deadline: an approval of this request, well shaped,
  -- by an active device of the right kind that it names (a browser also by its credential), whose signature
  -- over the request verifies, before the request expires; and the final gate grants that device with the
  -- counter of the assertion. The registry is then as the gate left it.
  pub IsApproved-iff :
      (ts : List (Result HookError Received)) (file file' : File)
      → (waits x config confirms active request raw epoch ts file ≡ (file', ok tt))
        ↔ IsApproved ts file file'
  IsApproved-iff ts file file' = (
    λ h. elim (decided x config confirms active request raw epoch ts file file' (ok tt) h) [
      | inr (e, wrong, _) ↦ absurd (err≢ok (sym wrong))
      | inl d ↦
          let (a, v, granted) = apply-approved d.received file file' d.is_genuine d.settles in
          record {
            earlier = d.earlier;
            received = d.received;
            later = d.later;
            approved = a;
            order = d.order;
            forged = d.forged;
            whole = d.whole;
            genuinely = v;
            granted = granted;
          }
    ],
    λ p.
        ap (λ l. waits x config confirms active request raw epoch l file) p.order
        ∙ forged_are_ignored x config confirms active request raw epoch p.earlier
            (ok p.received ∷ p.later) file p.forged
        ∙ approves_at_once p.received p.later file file' p.approved p.whole p.genuinely p.granted,
  )
