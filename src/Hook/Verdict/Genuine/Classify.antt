-- ===== src/Hook/Verdict/Genuine/Classify.antt =====
-- The branches of `apply_decision` (hook/src/main.rs), one lemma for each kind of decision.
use oshioki.Base.{
  ◌≡◌, ◌↔◌, refl, sym, ap, ◌∙◌, inl, inr, Bool, true, false, not, ◌&&◌, ◌||◌, Option, none, some,
  List, String, find, ◌==◌, text_has_eq, nat_has_eq, eq_iff, nat_eq_iff, arith, Option-cases,
  Bool-cases,
}
use oshioki.Base.Int.{ℤ, lebℤ}
use oshioki.Base.Result.{
  Result, ok, err, refuse, ok_or, >>=-eq-ok, refuse-eq-ok, Result-cases, ok_inj,
}
use oshioki.Protocol.Error.{Error}
use oshioki.Protocol.External.{Bytes, External}
use oshioki.Protocol.Device.{
  webauthn, software, secure_enclave, kind_eq, DevicePublicRecord, HookConfig, version_v1,
}
use oshioki.Protocol.Request.{Request}
use oshioki.Protocol.Decision.{
  Deny, Approve, ApproveNative, Decision, approve, approve_native, deny, validate_deny_shape,
  verify_deny, validate_native_shape, validate_approve_shape, verify_native_approval,
}
use oshioki.Protocol.Assertion.{verify_approval}
use oshioki.Hook.Verdict.{
  HookError, invalid_decision, unavailable, expired, denied, nats, Approved, authentic,
  confirm_denial, authenticate_denial, authenticate_approval, authenticate_native, judge,
}
use oshioki.Hook.Verdict.Steps.{
  FailsInvalid, bind-FailsInvalid, authentic-FailsInvalid, refuse-FailsInvalid, ok_or-FailsInvalid,
}
use oshioki.Hook.Verdict.Genuine.{
  Vouched, IsGenuine, IsVerified, judged, is_late, is_denial, is_unread, Classified, is_verified,
  is_forged, is_stopped,
}

authentic-eq-ok : {A : Type 0} (r : Result Error A) {a : A} → authentic r ≡ ok a → r ≡ ok a
authentic-eq-ok (ok b) h = ap (λ b. ok b) (ok_inj h)
authentic-eq-ok (err e) h = cc

ok_or-eq-ok : {A : Type 0} (o : Option A) (e : HookError) {a : A} → ok_or o e ≡ ok a → o ≡ some a
ok_or-eq-ok (some b) e h = ap (λ b. some b) (ok_inj h)
ok_or-eq-ok none e h = cc

some_inj : {A : Type 0} {a b : A} → some a ≡ some b → a ≡ b
some_inj h = cc

module _ (x : External) (config : Option HookConfig) (confirms : HookConfig → Deny → Bool)
    (active : List DevicePublicRecord) (request : Request) (raw : Bytes) where
  unverified :
      (approval : Approve) (c : HookConfig) (device : DevicePublicRecord) (e : Error)
      → find
          (λ d.
            kind_eq d.kind webauthn
            && d.fingerprint == approval.device_fingerprint
            && d.credential_id == approval.credential_id)
          active
        ≡ some device
      → config ≡ some c
      → verify_approval x approval raw device c ≡ err e
      → ¬ IsGenuine x config confirms active request raw (approve approval)
  unverified approval c device e f read v (device', _, _, f', inl unread) = cc (read, unread)
  unverified approval c device e f read v (device', _, _, f', inr (c', outcome, read', v')) =
      let same_device = some_inj (sym f ∙ f') in
      let same_config = some_inj (sym read ∙ read') in cc (v, v', same_device, same_config)

  classify_approve :
      (approval : Approve) (now : ℤ)
      → Classified x config confirms active request raw (approve approval) now
  unfolding judge authenticate_approval
  classify_approve approval now =
      let same = eq_iff approval.request_id request.request_id in
      let names = λ (d : DevicePublicRecord).
        kind_eq d.kind webauthn
        && d.fingerprint == approval.device_fingerprint
        && d.credential_id == approval.credential_id in
      elim (Result-cases (validate_approve_shape x approval)) [
        | inr (e, s) ↦ is_forged (ground (arith, s)) λ g. cc (s, g.1)
        | inl (u, s) ↦ elim (Bool-cases (approval.request_id == request.request_id)) [
          | inr other ↦ is_forged (ground (arith, s, other)) λ g. cc (other, same.1 g.2)
          | inl own ↦ elim (Option-cases (find names active)) [
            | inl n ↦ is_forged (ground (arith, s, own, n)) λ g. cc (n, g.3)
            | inr (device, f) ↦ elim (Option-cases config) [
              | inl none_read ↦
                  is_stopped unavailable (ground (arith, s, own, f, none_read))
                    (device, s, same.0 own, f, inl none_read) (is_unread none_read)
              | inr (c, read) ↦ elim (Result-cases (verify_approval x approval raw device c)) [
                | inr (e, v) ↦
                    is_forged (ground (arith, s, own, f, read, v))
                      λ g. unverified approval c device e f read v g
                | inl (outcome, v) ↦
                    let genuine : IsGenuine x config confirms active request raw
                        (approve approval) =
                      (device, s, same.0 own, f, inr (c, outcome, read, v)) in
                    elim (Bool-cases (lebℤ request.expires_at now)) [
                      | inl late ↦
                          is_stopped expired (ground (arith, s, own, f, read, v, late)) genuine
                            (is_late (ground (arith, late)))
                      | inr live ↦
                          is_verified (device, some outcome.observed_sign_count)
                            (ground (arith, s, own, f, read, v, live))
                            (c, outcome, s, same.0 own, f, read, v, ground (arith, live), refl)
                            genuine
                    ]
              ]
            ]
          ]
        ]
      ]

  classify_native :
      (approval : ApproveNative) (now : ℤ)
      → Classified x config confirms active request raw (approve_native approval) now
  unfolding judge authenticate_native
  classify_native approval now =
      let same = eq_iff approval.request_id request.request_id in
      let names = λ (d : DevicePublicRecord).
        (kind_eq d.kind software || kind_eq d.kind secure_enclave)
        && d.fingerprint == approval.device_fingerprint in
      elim (Result-cases (validate_native_shape x approval)) [
        | inr (e, s) ↦ is_forged (ground (arith, s)) λ g. cc (s, g.1)
        | inl (u, s) ↦ elim (Bool-cases (approval.request_id == request.request_id)) [
          | inr other ↦ is_forged (ground (arith, s, other)) λ g. cc (other, same.1 g.2)
          | inl own ↦ elim (Option-cases (find names active)) [
            | inl n ↦ is_forged (ground (arith, s, own, n)) λ g. cc (n, g.3)
            | inr (device, f) ↦ elim (Result-cases (verify_native_approval x approval raw device)) [
              | inr (e, v) ↦ is_forged (ground (arith, s, own, f, v)) λ g.
                  cc (v, g.4, ap (verify_native_approval x approval raw) (some_inj (sym f ∙ g.3)))
              | inl (u, v) ↦
                  let genuine : IsGenuine x config confirms active request raw
                      (approve_native approval) =
                    (device, s, same.0 own, f, v) in
                  elim (Bool-cases (lebℤ request.expires_at now)) [
                    | inl late ↦
                        is_stopped expired (ground (arith, s, own, f, v, late)) genuine
                          (is_late (ground (arith, late)))
                    | inr live ↦
                        is_verified (device, none) (ground (arith, s, own, f, v, live))
                          (s, same.0 own, f, v, ground (arith, live), refl) genuine
                  ]
            ]
          ]
        ]
      ]

  confirm-FailsInvalid :
      (denial : Deny) (device : DevicePublicRecord)
      → FailsInvalid (confirm_denial x config confirms active request nats denial device)
  unfolding confirm_denial
  confirm-FailsInvalid denial device =
      bind-FailsInvalid (refuse false invalid_decision) _ (refuse-FailsInvalid false) λ _.
        let other = not (kind_eq device.kind webauthn) in
        bind-FailsInvalid (refuse other invalid_decision) _ (refuse-FailsInvalid other) λ _.
          bind-FailsInvalid (ok_or config invalid_decision) _ (ok_or-FailsInvalid config)
            λ c. refuse-FailsInvalid (not (confirms c denial))

  signed-FailsInvalid :
      (denial : Deny) (device : DevicePublicRecord) (s : Option String)
      → FailsInvalid (elim s [
        | some signature ↦ authentic (verify_deny x denial device)
        | none ↦ confirm_denial x config confirms active request nats denial device
      ])
  signed-FailsInvalid denial device (some s) = authentic-FailsInvalid _
  signed-FailsInvalid denial device none = confirm-FailsInvalid denial device

  denial-FailsInvalid :
      (denial : Deny)
      → FailsInvalid (authenticate_denial x config confirms active request nats denial)
  unfolding authenticate_denial
  denial-FailsInvalid denial =
      let other =
        not (denial.version == version_v1) || not (denial.request_id == request.request_id) in
      let device = find (λ d. d.fingerprint == denial.device_fingerprint) active in
      bind-FailsInvalid (authentic (validate_deny_shape x denial)) _ (authentic-FailsInvalid _) λ _.
        bind-FailsInvalid (refuse other invalid_decision) _ (refuse-FailsInvalid other) λ _.
          bind-FailsInvalid (ok_or device invalid_decision) _ (ok_or-FailsInvalid device)
            λ d. signed-FailsInvalid denial d denial.signature

  confirm-Vouched :
      (denial : Deny) (device : DevicePublicRecord)
      → denial.signature ≡ none
      → confirm_denial x config confirms active request nats denial device ≡ ok tt
      → Vouched x config confirms active request raw denial device
  unfolding confirm_denial
  confirm-Vouched denial device unsigned h =
      let (browser, h1) = refuse-eq-ok (not (kind_eq device.kind webauthn)) invalid_decision _ h in
      let (c, found, h2) = >>=-eq-ok (ok_or config invalid_decision) _ h1 in
      let confirmed : confirms c denial ≡ true = ground (arith, h2) in
      let webauthn_kind : kind_eq device.kind webauthn ≡ true = ground (arith, browser) in
      inr (c, unsigned, ok_or-eq-ok config invalid_decision found, webauthn_kind, confirmed)

  signed-Vouched :
      (denial : Deny) (device : DevicePublicRecord) (s : Option String)
      → denial.signature ≡ s
      → elim s [
        | some signature ↦ authentic (verify_deny x denial device)
        | none ↦ confirm_denial x config confirms active request nats denial device
      ]
        ≡ ok tt
      → Vouched x config confirms active request raw denial device
  signed-Vouched denial device (some s) eq h = inl (s, eq, authentic-eq-ok _ h)
  signed-Vouched denial device none eq h = confirm-Vouched denial device eq h

  Vouched-signed :
      (denial : Deny) (device : DevicePublicRecord) (s : Option String)
      → denial.signature ≡ s
      → Vouched x config confirms active request raw denial device
      → elim s [
        | some signature ↦ authentic (verify_deny x denial device)
        | none ↦ confirm_denial x config confirms active request nats denial device
      ]
        ≡ ok tt
  unfolding confirm_denial
  Vouched-signed denial device (some s) eq (inl (t, signed, v)) = ground (arith, v)
  Vouched-signed denial device (some s) eq (inr (c, unsigned, _, _, _)) = absurd (cc (eq, unsigned))
  Vouched-signed denial device none eq (inl (t, signed, v)) = absurd (cc (eq, signed))
  Vouched-signed denial device none eq (inr (c, unsigned, read, browser, confirmed)) =
      ground (arith, read, browser, confirmed)

  IsGenuine-denial :
      (denial : Deny)
      → (authenticate_denial x config confirms active request nats denial ≡ ok tt)
        ↔ IsGenuine x config confirms active request raw (deny denial)
  unfolding authenticate_denial
  IsGenuine-denial denial =
      let named = eq_iff denial.request_id request.request_id in
      let versioned = nat_eq_iff denial.version version_v1 in
      let names = λ (d : DevicePublicRecord). d.fingerprint == denial.device_fingerprint in
      (
        (λ h.
            let (u, shape, h1) = >>=-eq-ok (authentic (validate_deny_shape x denial)) _ h in
            let (test, h2) =
              refuse-eq-ok
                (not (denial.version == version_v1)
                  || not (denial.request_id == request.request_id))
                invalid_decision _ h1 in
            let (device, found, h3) = >>=-eq-ok (ok_or (find names active) invalid_decision) _ h2 in
            (
              device,
              authentic-eq-ok _ shape,
              versioned.0 (ground (arith, test)),
              named.0 (ground (arith, test)),
              ok_or-eq-ok (find names active) invalid_decision found,
              signed-Vouched denial device denial.signature refl h3,
            )),
        (λ (device, shape, version, id, found, vouched).
            let rest = Vouched-signed denial device denial.signature refl vouched in
            ground (arith, shape, versioned.1 version, named.1 id, found, rest)),
      )

  classify_deny :
      (denial : Deny) (now : ℤ) → Classified x config confirms active request raw (deny denial) now
  unfolding judge
  classify_deny denial now =
      let checks = authenticate_denial x config confirms active request nats denial in
      elim (Result-cases checks) [
        | inr (e, a) ↦
            let invalid = denial-FailsInvalid denial e a in
            is_forged (ground (arith, a, invalid)) λ g. cc (a, (IsGenuine-denial denial).1 g)
        | inl (u, a) ↦
            let genuine = (IsGenuine-denial denial).0 a in
            elim (Bool-cases (lebℤ request.expires_at now)) [
              | inl late ↦
                  is_stopped expired (ground (arith, a, late)) genuine
                    (is_late (ground (arith, late)))
              | inr live ↦
                  is_stopped denied (ground (arith, a, live)) genuine
                    (is_denial denial refl (ground (arith, live)))
            ]
      ]

  pub classify :
      (decision : Decision) (now : ℤ) → Classified x config confirms active request raw decision now
  classify (approve approval) now = classify_approve approval now
  classify (approve_native approval) now = classify_native approval now
  classify (deny denial) now = classify_deny denial now

  pub verified-judged :
      (decision : Decision) (now : ℤ) (a : Approved)
      → IsVerified x config confirms active request raw decision now a
      → judged x config confirms active request raw decision now ≡ ok a
  unfolding judge authenticate_approval authenticate_native
  verified-judged (deny denial) now a v = absurd v
  verified-judged (approve approval) now a (c, outcome, s, id, f, read, v, live, count) =
      let own = (eq_iff approval.request_id request.request_id).1 id in
      let in_time : lebℤ request.expires_at now ≡ false = ground (arith, live) in
      let done : judged x config confirms active request raw (approve approval) now
          ≡ ok (a.0, some outcome.observed_sign_count) =
        ground (arith, s, own, f, read, v, in_time) in
      done ∙ ap (λ n. ok (a.0, n)) (sym count)
  verified-judged (approve_native approval) now a (s, id, f, v, live, count) =
      let own = (eq_iff approval.request_id request.request_id).1 id in
      let in_time : lebℤ request.expires_at now ≡ false = ground (arith, live) in
      let done : judged x config confirms active request raw (approve_native approval) now
          ≡ ok (a.0, none) =
        ground (arith, s, own, f, v, in_time) in
      done ∙ ap (λ n. ok (a.0, n)) (sym count)
