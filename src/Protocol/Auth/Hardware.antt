-- ===== src/Protocol/Auth/Hardware.antt =====
-- Sudo authentication in protocol/src/auth_v1.rs: who is asked, and what a browser's answer shows.
use oshioki.Base.{
  Bool, Bool-cases, false, ◌||◌, ◌⊎◌, refl, inl, inr, ◌≡◌, true, Option, List, [], ◌∷◌, arith,
  retain, ◌++◌, ◌&&◌, String, eq_iff, text_has_eq,
}
use oshioki.Base.Int.{ℤ}
use oshioki.Base.Result.{ok, Result-cases}
use oshioki.Protocol.External.{Bytes, IsBytes, External, Documented}
use oshioki.Protocol.Device.{
  DeviceKind, webauthn, software, secure_enclave, kind_eq, DevicePublicRecord, DeviceRegistry,
  HookConfig, validate_config, validate_device,
}
use oshioki.Protocol.Challenge.{
  challenge_domain, auth_challenge_domain, approve_challenge, auth_challenge,
}
use oshioki.Protocol.Challenge.Separation.{
  IsCollision, challenge_binding, approve_command, authenticate,
}
use oshioki.Protocol.Decision.{Approve}
use oshioki.Protocol.Assertion.{AssertionOutcome, verify_assertion, verify_approval}
use oshioki.Protocol.Assertion.Verified.{IsAsserted, verify_assertion_iff}
use oshioki.Protocol.Auth.{AuthRequest, parse_auth_request_at}
use oshioki.Protocol.Auth.Verify.{
  AuthApproveWebauthn, is_hardware_auth_device, hardware_auth_recipients,
  validate_auth_webauthn_shape, verify_webauthn_authentication,
}

-- Who of the devices, in order, is a recipient: each active one of a hardware kind and no other.
pub data IsSelection : (devices recipients : List DevicePublicRecord) → Type 0 where
  none_left : IsSelection [] []
  takes :
      {ds rs : List DevicePublicRecord} (d : DevicePublicRecord)
      → d.active ≡ true
      → (d.kind ≡ webauthn) ⊎ (d.kind ≡ secure_enclave)
      → IsSelection ds rs
      → IsSelection (d ∷ ds) (d ∷ rs)
  skips :
      {ds rs : List DevicePublicRecord} (d : DevicePublicRecord)
      → (d.active ≡ false) ⊎ (d.kind ≡ software)
      → IsSelection ds rs
      → IsSelection (d ∷ ds) rs

abbrev hardware_kind : DeviceKind → Bool
hardware_kind k = kind_eq k webauthn || kind_eq k secure_enclave

kind_cases : (k : DeviceKind) → ((k ≡ webauthn) ⊎ (k ≡ secure_enclave)) ⊎ (k ≡ software)
kind_cases webauthn = inl (inl refl)
kind_cases secure_enclave = inl (inr refl)
kind_cases software = inr refl

hardware_lem : (k : DeviceKind) → (k ≡ webauthn) ⊎ (k ≡ secure_enclave) → hardware_kind k ≡ true
hardware_lem k (inl w) = rw w refl
hardware_lem k (inr s) = rw s refl

selection :
    (ds : List DevicePublicRecord)
    → IsSelection ds (retain (λ d. d.active && is_hardware_auth_device d) ds)
unfolding is_hardware_auth_device
selection [] = none_left
selection (d ∷ ds) =
    let rest = selection ds in
    let is_recipient = d.active && is_hardware_auth_device d in
    elim (Bool-cases d.active) [
      | inr off ↦ let out : is_recipient ≡ false = rw off refl in rw out (skips d (inl off) rest)
      | inl on ↦ elim (kind_cases d.kind) [
        | inl hard ↦
            let test : is_recipient ≡ true = rw (on, hardware_lem d.kind hard) refl in
            rw test (takes d on hard rest)
        | inr soft ↦
            let out : is_recipient ≡ false = rw (on, soft) refl in rw out (skips d (inr soft) rest)
      ]
    ]

-- The recipients of a request for sudo authentication are the active browser authenticators and secure
-- enclaves of the registry, all of them and in their order; no software device is one.
pub hardware_auth_recipients-IsSelection :
    (r : DeviceRegistry) → IsSelection r.devices (hardware_auth_recipients r)
unfolding hardware_auth_recipients
hardware_auth_recipients-IsSelection r = selection r.devices

module _ (x : External) where
  approve-IsBytes : Documented x → (raw : Bytes) → IsBytes (approve_challenge x raw)
  unfolding approve_challenge
  approve-IsBytes laws raw = laws.sha256_bytes _

  auth-IsBytes : Documented x → (raw : Bytes) → IsBytes (auth_challenge x raw)
  unfolding auth_challenge
  auth-IsBytes laws raw = laws.sha256_bytes _

  -- One client data text under two challenges: the challenges agree.
  assertions_agree :
      Documented x
      → (c c' : Bytes) → IsBytes c
      → IsBytes c'
      → {json json' data₁ signature₁ data₂ signature₂ : String} {d₁ d₂ : DevicePublicRecord}
        {config₁ config₂ : HookConfig}
      → json ≡ json'
      → IsAsserted x c json data₁ signature₁ d₁ config₁
      → IsAsserted x c' json' data₂ signature₂ d₂ config₂
      → c ≡ c'
  assertions_agree laws c c' hc hc' same a b = cc (
    same,
    a.json_decodes,
    b.json_decodes,
    a.json_parses,
    b.json_parses,
    a.challenged,
    b.challenged,
    laws.decode_encode c hc,
    laws.decode_encode c' hc',
  )

  approval-asserted :
      (a : Approve) (raw : Bytes) (d : DevicePublicRecord) (config : HookConfig)
      (o : AssertionOutcome)
      → verify_approval x a raw d config ≡ ok o
      → verify_assertion x
          (approve_challenge x raw)
          a.client_data_json
          a.authenticator_data
          a.signature
          d
          config
        ≡ ok o
  unfolding verify_approval
  approval-asserted a raw d config o h = elim (Result-cases (validate_config config)) [
    | inr (e, c) ↦ absurd (ground (arith, c))
    | inl (u, c) ↦ elim (Result-cases (validate_device x d)) [
      | inr (e, v) ↦ absurd (ground (arith, c, v))
      | inl (u, v) ↦ ground (arith, c, v)
    ]
  ]

  module _ (from_slice : Bytes → Option AuthRequest) where
    -- What a browser's authentication has checked besides the assertion.
    pub record IsAuthenticated (a : AuthApproveWebauthn) (raw : Bytes) (d : DevicePublicRecord)
        (config : HookConfig) (now : ℤ) (o : AssertionOutcome) : Type 0 where
      pub request : AuthRequest
      pub parsed : parse_auth_request_at x from_slice raw now ≡ ok request
      pub same_request : a.request_id ≡ request.request_id
      pub device_match : a.device_fingerprint ≡ d.fingerprint
      pub credential_match : a.credential_id ≡ d.credential_id
      pub hardware : is_hardware_auth_device d ≡ true
      pub valid : validate_device x d ≡ ok tt
      pub asserted :
          verify_assertion x
            (auth_challenge x raw)
            a.client_data_json
            a.authenticator_data
            a.signature
            d
            config
          ≡ ok o

    -- An accepted browser authentication is for the request that the signed bytes parse to, valid and
    -- timely now, by a valid record of a hardware kind with the named fingerprint and credential, whose
    -- assertion over the authentication challenge is accepted.
    pub verify_webauthn_authentication-IsAuthenticated :
        (a : AuthApproveWebauthn) (raw : Bytes) (d : DevicePublicRecord) (config : HookConfig)
        (now : ℤ) (o : AssertionOutcome)
        → verify_webauthn_authentication x from_slice a raw d config now ≡ ok o
        → IsAuthenticated a raw d config now o
    unfolding verify_webauthn_authentication is_hardware_auth_device
    verify_webauthn_authentication-IsAuthenticated a raw d config now o h =
        elim (Result-cases (parse_auth_request_at x from_slice raw now)) [
          | inr (e, p) ↦ absurd (ground (arith, p))
          | inl (request, p) ↦ elim (Result-cases (validate_config config)) [
            | inr (e, c) ↦ absurd (ground (arith, p, c))
            | inl (u, c) ↦ elim (Result-cases (validate_auth_webauthn_shape x a)) [
              | inr (e, s) ↦ absurd (ground (arith, p, c, s))
              | inl (u, s) ↦ elim (Result-cases (validate_device x d)) [
                | inr (e, v) ↦ absurd (ground (arith, p, c, s, v))
                | inl (u, v) ↦ record {
                  request = request;
                  parsed = p;
                  same_request = ground (arith, p, c, s, v, eq_iff a.request_id request.request_id);
                  device_match =
                      ground (arith, p, c, s, v, eq_iff a.device_fingerprint d.fingerprint);
                  credential_match =
                      ground (arith, p, c, s, v, eq_iff a.credential_id d.credential_id);
                  hardware = ground (arith, p, c, s, v);
                  valid = v;
                  asserted = ground (arith, p, c, s, v);
                }
              ]
            ]
          ]
        ]

    -- If the same client data is accepted in the approval of a command and in the authentication of a
    -- sudo session, of whatever requests, devices, configurations and times, then the messages hashed for
    -- the two challenges, each the domain of its lane and the raw request, are a collision of SHA-256.
    pub assertion_serves_one_lane :
        Documented x
        → (a : Approve) (b : AuthApproveWebauthn) (raw raw' : Bytes) (d d' : DevicePublicRecord)
          (config config' : HookConfig) (now : ℤ) (o o' : AssertionOutcome)
        → a.client_data_json ≡ b.client_data_json
        → verify_approval x a raw d config ≡ ok o
        → verify_webauthn_authentication x from_slice b raw' d' config' now ≡ ok o'
        → IsCollision x.sha256 (challenge_domain ++ raw) (auth_challenge_domain ++ raw')
    assertion_serves_one_lane laws a b raw raw' d d' config config' now o o' same h h' =
        let ha =
          ((verify_assertion_iff x _ _ _ _ d config o).0
            (approval-asserted a raw d config o h)).0 in
        let authenticated =
          verify_webauthn_authentication-IsAuthenticated b raw' d' config' now o' h' in
        let hb = ((verify_assertion_iff x _ _ _ _ d' config' o').0 authenticated.asserted).0 in
        let agree =
          assertions_agree laws _ _ (approve-IsBytes laws raw) (auth-IsBytes laws raw') same ha
            hb in
        elim (challenge_binding x (approve_command raw) (authenticate raw') tt tt agree) [
          | inl clash ↦ cc
          | inr collision ↦ collision
        ]
