-- ===== src/Protocol/Tool/Decided.antt =====
-- Decisions on tool requests in protocol/src/tool_v1.rs: what `verify_tool_decision_v1` has checked.
use oshioki.Base.{
  Bool, ◌++◌, inl, inr, ◌≡◌, true, Option, some, String, arith, Option-cases, eq_iff, text_has_eq,
}
use oshioki.Base.Int.{ℤ}
use oshioki.Base.Result.{ok, Result-cases}
use oshioki.Protocol.External.{Bytes, IsBytes, ClientData, External, Documented}
use oshioki.Protocol.Encoding.{decode_base64url}
use oshioki.Protocol.Device.{
  webauthn, kind_eq, DevicePublicRecord, HookConfig, validate_config, validate_device,
}
use oshioki.Protocol.Challenge.{
  tool_approve_domain, tool_deny_domain, ToolDecisionAction, tool_approval_challenge,
}
use oshioki.Protocol.Challenge as challenge
use oshioki.Protocol.Challenge.Separation.{IsCollision, decide_tool, challenge_binding}
use oshioki.Protocol.Assertion.{AssertionOutcome, check_client_data}
use oshioki.Protocol.Assertion.Verified.{client_data_iff}
use oshioki.Protocol.Tool.{Json, strict_json_value, client_data_from_value}
use oshioki.Protocol.Tool.Request.{ToolApprovalRequest, parse_tool_request_at}
use oshioki.Protocol.Tool.Decide.{
  ToolApprovalWebauthn, ToolApprovalDecision, approve, deny, assertion, action,
  validate_tool_decision_shape, verify_webauthn_for_challenge, verify_tool_decision,
}

module _ (x : External) (from_slice : Bytes → Option Json) where
  -- The client data is over the base64 of the challenge.
  record IsChallenged (client_data_json : String) (expected : Bytes) : Type 0 where
    pub json : Bytes
    pub decodes : decode_base64url x client_data_json ≡ ok json
    pub value : Json
    pub parses : strict_json_value from_slice json ≡ ok value
    pub client_data : ClientData
    pub reads : client_data_from_value value ≡ some client_data
    pub challenged : client_data.challenge ≡ x.b64_encode expected

  for_challenge-IsChallenged :
      (authenticator_data client_data_json signature : String) (expected : Bytes)
      (device : DevicePublicRecord) (config : HookConfig) (o : AssertionOutcome)
      → verify_webauthn_for_challenge x from_slice authenticator_data client_data_json signature
          expected device config
        ≡ ok o
      → IsChallenged client_data_json expected
  unfolding verify_webauthn_for_challenge
  for_challenge-IsChallenged authenticator_data client_data_json signature expected device config o
        h =
      elim (Result-cases (validate_config config)) [
        | inr (e, c) ↦ absurd (ground (arith, c))
        | inl (u, c) ↦ elim (Result-cases (decode_base64url x client_data_json)) [
          | inr (e, d) ↦ absurd (ground (arith, c, d))
          | inl (json, d) ↦ elim (Result-cases (strict_json_value from_slice json)) [
            | inr (e, p) ↦ absurd (ground (arith, c, d, p))
            | inl (value, p) ↦ elim (Option-cases (client_data_from_value value)) [
              | inl n ↦ absurd (ground (arith, c, d, p, n))
              | inr (cd, r) ↦ elim (Result-cases (check_client_data x cd config expected)) [
                | inr (e, t) ↦ absurd (ground (arith, c, d, p, r, t))
                | inl (u, t) ↦
                    let (type_, origin, same, ch) = (client_data_iff x cd config expected).0 t in
                    record {
                      json = json;
                      decodes = d;
                      value = value;
                      parses = p;
                      client_data = cd;
                      reads = r;
                      challenged = ch;
                    }
              ]
            ]
          ]
        ]
      ]

  challenges_agree :
      Documented x
      → (json : String) (c c' : Bytes) → IsBytes c
      → IsBytes c'
      → IsChallenged json c
      → IsChallenged json c'
      → c ≡ c'
  challenges_agree laws json c c' hc hc' a b = cc (
    a.decodes,
    b.decodes,
    a.parses,
    b.parses,
    a.reads,
    b.reads,
    a.challenged,
    b.challenged,
    laws.decode_encode c hc,
    laws.decode_encode c' hc',
  )

  tool-IsBytes :
      Documented x
      → (a : ToolDecisionAction) (raw : Bytes) → IsBytes (tool_approval_challenge x a raw)
  unfolding tool_approval_challenge
  tool-IsBytes laws a raw = laws.sha256_bytes _

  module _ (value_eq : Json → Json → Bool) (from_value : Json → Option ToolApprovalRequest) where
    -- What the verification of a decision has checked.
    pub record IsDecided (decision : ToolApprovalDecision) (raw : Bytes)
        (device : DevicePublicRecord) (config : HookConfig) (now : ℤ) (o : AssertionOutcome)
        : Type 0 where
      pub request : ToolApprovalRequest
      pub parsed : parse_tool_request_at x from_slice value_eq from_value raw now ≡ ok request
      pub same_request : (assertion decision).request_id ≡ request.request_id
      pub device_match : (assertion decision).device_fingerprint ≡ device.fingerprint
      pub credential_match : (assertion decision).credential_id ≡ device.credential_id
      pub browser : kind_eq device.kind webauthn ≡ true
      pub valid : validate_device x device ≡ ok tt
      pub asserted :
          verify_webauthn_for_challenge x from_slice
            (assertion decision).authenticator_data
            (assertion decision).client_data_json
            (assertion decision).signature
            (tool_approval_challenge x (action decision) raw)
            device
            config
          ≡ ok o

    decision-IsDecided :
        (decision : ToolApprovalDecision) (raw : Bytes) (device : DevicePublicRecord)
        (config : HookConfig) (now : ℤ) (o : AssertionOutcome)
        → verify_tool_decision x from_slice value_eq from_value decision raw device config now
          ≡ ok o
        → IsDecided decision raw device config now o
    unfolding verify_tool_decision
    decision-IsDecided decision raw device config now o h =
        elim (Result-cases (parse_tool_request_at x from_slice value_eq from_value raw now)) [
          | inr (e, p) ↦ absurd (ground (arith, p))
          | inl (request, p) ↦
              elim (Result-cases (validate_tool_decision_shape x (assertion decision))) [
                | inr (e, s) ↦ absurd (ground (arith, p, s))
                | inl (u, s) ↦ elim (Result-cases (validate_device x device)) [
                  | inr (e, v) ↦ absurd (ground (arith, p, s, v))
                  | inl (u, v) ↦ record {
                    request = request;
                    parsed = p;
                    same_request =
                        ground (
                          arith,
                          p,
                          s,
                          v,
                          eq_iff (assertion decision).request_id request.request_id,
                        );
                    device_match = ground (
                      arith,
                      p,
                      s,
                      v,
                      eq_iff (assertion decision).device_fingerprint device.fingerprint,
                    );
                    credential_match = ground (
                      arith,
                      p,
                      s,
                      v,
                      eq_iff (assertion decision).credential_id device.credential_id,
                    );
                    browser = ground (arith, p, s, v);
                    valid = v;
                    asserted = ground (arith, p, s, v);
                  }
                ]
              ]
        ]

    -- If one assertion is accepted as the approval of a tool request and as the denial of a tool
    -- request, of whatever requests, devices, configurations and times, then the messages hashed for the
    -- two challenges, each the domain of its action and the raw request, are a collision of SHA-256.
    pub assertion_decides_once :
        Documented x
        → (a : ToolApprovalWebauthn) (raw raw' : Bytes) (d d' : DevicePublicRecord)
          (config config' : HookConfig) (now now' : ℤ) (o o' : AssertionOutcome)
        → verify_tool_decision x from_slice value_eq from_value (approve a) raw d config now ≡ ok o
        → verify_tool_decision x from_slice value_eq from_value (deny a) raw' d' config' now'
          ≡ ok o'
        → IsCollision x.sha256 (tool_approve_domain ++ raw) (tool_deny_domain ++ raw')
    assertion_decides_once laws a raw raw' d d' config config' now now' o o' h h' =
        let approved = (decision-IsDecided (approve a) raw d config now o h).asserted in
        let denied = (decision-IsDecided (deny a) raw' d' config' now' o' h').asserted in
        let agree =
          challenges_agree laws a.client_data_json _ _ (tool-IsBytes laws challenge.approve raw)
            (tool-IsBytes laws challenge.deny raw')
            (for_challenge-IsChallenged _ _ _ _ d config o approved)
            (for_challenge-IsChallenged _ _ _ _ d' config' o' denied) in
        elim (challenge_binding x (decide_tool challenge.approve raw)
          (decide_tool challenge.deny raw') tt tt agree) [
            | inl clash ↦ cc
            | inr collision ↦ collision
          ]
