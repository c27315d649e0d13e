-- ===== src/Protocol/Assertion/Verified.antt =====
-- The checks behind an accepted browser assertion (protocol/src/webauthn_v1.rs).
use oshioki.Base.{
  inl, inr, ℕ, ◌≤◌, ◌<◌, ◌≡◌, ◌↔◌, ◌∙◌, ap, sym, refl, true, false, some, ◌++◌, String, arith,
  length, take, bytes, text_has_eq, eq_iff, Option-cases, Bool-cases,
}
use oshioki.Base.Result.{Result, ok, Result-cases}
use oshioki.Protocol.Error.{Error}
use oshioki.Protocol.External.{Bytes, ClientData, External}
use oshioki.Protocol.Encoding.{decode_base64url}
use oshioki.Protocol.Cose.{cose_p256_verifying_key}
use oshioki.Protocol.Device.{DevicePublicRecord, HookConfig}
use oshioki.Protocol.Decision.{check_signature}
use oshioki.Protocol.Decision.Signed.{IsSignedBy, check_signature_iff}
use oshioki.Protocol.Challenge.Separation.{bytes_eq_iff}
use oshioki.Protocol.Assertion.{
  AssertionOutcome, user_present, user_verified, sign_count_of, outcome, check_client_data,
  check_authenticator_data, verify_assertion,
}

-- An assertion has regressed exactly if neither counter is zero and the new one is not the larger.
pub regressed_iff :
    (observed stored : ℕ)
    → ((outcome observed stored).counter_regressed ≡ true)
      ↔ (0 < observed) × (0 < stored) × (observed ≤ stored)
unfolding outcome
regressed_iff observed stored = ground arith

module _ (x : External) where
  open x use {VerifyingKey, b64_encode, sha256, client_data_from_slice}

  pub record IsAsserted (challenge : Bytes) (client_data_json authenticator_data signature : String)
      (device : DevicePublicRecord) (config : HookConfig) : Type 0 where
    pub json : Bytes
    pub json_decodes : decode_base64url x client_data_json ≡ ok json
    pub client_data : ClientData
    pub json_parses : client_data_from_slice json ≡ some client_data
    pub type_ : client_data.type_ ≡ "webauthn.get"
    pub origin : client_data.origin ≡ config.origin
    pub same_origin : client_data.cross_origin ≡ false
    pub challenged : client_data.challenge ≡ b64_encode challenge
    pub auth_data : Bytes
    pub data_decodes : decode_base64url x authenticator_data ≡ ok auth_data
    pub long : 37 ≤ length auth_data
    pub rp_id : take 32 auth_data ≡ sha256 (bytes config.rp_id)
    pub present : user_present auth_data ≡ true
    pub verified : user_verified auth_data ≡ true
    pub public_key : Bytes
    pub key_decodes : decode_base64url x device.credential_public_key ≡ ok public_key
    pub key : VerifyingKey
    pub key_reads : cose_p256_verifying_key x public_key ≡ ok key
    pub signed : IsSignedBy x key (auth_data ++ sha256 json) signature

  pub client_data_iff :
      (c : ClientData) (config : HookConfig) (challenge : Bytes)
      → (check_client_data x c config challenge ≡ ok tt) ↔ (
          (c.type_ ≡ "webauthn.get")
          × (c.origin ≡ config.origin)
          × (c.cross_origin ≡ false)
          × (c.challenge ≡ b64_encode challenge))
  unfolding check_client_data
  client_data_iff c config challenge = ground (
    arith,
    eq_iff c.type_ "webauthn.get",
    eq_iff c.origin config.origin,
    eq_iff c.challenge (b64_encode challenge),
    Bool-cases c.cross_origin,
  )

  pub authenticator_data_iff :
      (d : Bytes) (config : HookConfig)
      → (check_authenticator_data x d config ≡ ok tt) ↔ (
          (37 ≤ length d)
          × (take 32 d ≡ sha256 (bytes config.rp_id))
          × (user_present d ≡ true)
          × (user_verified d ≡ true))
  unfolding check_authenticator_data
  authenticator_data_iff d config =
      ground (arith, bytes_eq_iff (take 32 d) (sha256 (bytes config.rp_id)))

  module _ (challenge : Bytes) (client_data_json authenticator_data signature : String)
      (device : DevicePublicRecord) (config : HookConfig) where
    abbrev Asserted : Type 0
    Asserted = IsAsserted challenge client_data_json authenticator_data signature device config

    abbrev run : Result Error AssertionOutcome
    run = verify_assertion x challenge client_data_json authenticator_data signature device config

    -- The rest, once the client data and the authenticator data are accepted.
    keyed :
        (o : AssertionOutcome)
        → run ≡ ok o
        → (json : Bytes) → decode_base64url x client_data_json ≡ ok json
        → (c : ClientData) → client_data_from_slice json ≡ some c
        → check_client_data x c config challenge ≡ ok tt
        → (auth_data : Bytes) → decode_base64url x authenticator_data ≡ ok auth_data
        → check_authenticator_data x auth_data config ≡ ok tt
        → (a : Asserted) × (o ≡ outcome (sign_count_of a.auth_data) device.sign_count)
    unfolding verify_assertion
    keyed o h json j c p t auth_data d a =
        let (type_, origin, same, challenged) = (client_data_iff c config challenge).0 t in
        let (long, rp, present, verified) = (authenticator_data_iff auth_data config).0 a in
        elim (Result-cases (decode_base64url x device.credential_public_key)) [
          | inr (e, q) ↦ absurd (ground (arith, j, p, t, d, a, q))
          | inl (public_key, q) ↦ elim (Result-cases (cose_p256_verifying_key x public_key)) [
            | inr (e, k) ↦ absurd (ground (arith, j, p, t, d, a, q, k))
            | inl (key, k) ↦
                elim (Result-cases (check_signature x key (auth_data ++ sha256 json) signature)) [
                  | inr (e, s) ↦ absurd (ground (arith, j, p, t, d, a, q, k, s))
                  | inl (u, s) ↦ (
                    record {
                      json = json;
                      json_decodes = j;
                      client_data = c;
                      json_parses = p;
                      type_ = type_;
                      origin = origin;
                      same_origin = same;
                      challenged = challenged;
                      auth_data = auth_data;
                      data_decodes = d;
                      long = long;
                      rp_id = rp;
                      present = present;
                      verified = verified;
                      public_key = public_key;
                      key_decodes = q;
                      key = key;
                      key_reads = k;
                      signed = (check_signature_iff x key _ signature).0 s;
                    },
                    ground (arith, j, p, t, d, a, q, k, s),
                  )
                ]
          ]
        ]

    assertion_sound :
        (o : AssertionOutcome)
        → run ≡ ok o
        → (a : Asserted) × (o ≡ outcome (sign_count_of a.auth_data) device.sign_count)
    unfolding verify_assertion
    assertion_sound o h = elim (Result-cases (decode_base64url x client_data_json)) [
      | inr (e, j) ↦ absurd (ground (arith, j))
      | inl (json, j) ↦ elim (Option-cases (client_data_from_slice json)) [
        | inl n ↦ absurd (ground (arith, j, n))
        | inr (c, p) ↦ elim (Result-cases (check_client_data x c config challenge)) [
          | inr (e, t) ↦ absurd (ground (arith, j, p, t))
          | inl (u, t) ↦ elim (Result-cases (decode_base64url x authenticator_data)) [
            | inr (e, d) ↦ absurd (ground (arith, j, p, t, d))
            | inl (auth_data, d) ↦
                elim (Result-cases (check_authenticator_data x auth_data config)) [
                  | inr (e, a) ↦ absurd (ground (arith, j, p, t, d, a))
                  | inl (u, a) ↦ keyed o h json j c p t auth_data d a
                ]
          ]
        ]
      ]
    ]

    assertion_complete :
        (a : Asserted) → run ≡ ok (outcome (sign_count_of a.auth_data) device.sign_count)
    unfolding verify_assertion
    assertion_complete a =
        let t =
          (client_data_iff a.client_data config challenge).1
            (a.type_, a.origin, a.same_origin, a.challenged) in
        let d =
          (authenticator_data_iff a.auth_data config).1 (a.long, a.rp_id, a.present, a.verified) in
        let s = (check_signature_iff x a.key _ signature).1 a.signed in
        rw (a.json_decodes, a.json_parses, t, a.data_decodes, d, a.key_decodes, a.key_reads, s) refl

    -- A browser assertion is accepted exactly when its client data decodes to an assertion of this
    -- origin, not cross-origin, over the base64 of this challenge; its authenticator data has at least
    -- 37 bytes, the hash of this relying party, and the flags of a present and verified user; and the
    -- record's key verifies its signature over both. The outcome is then the counter in the
    -- authenticator data, compared with the stored one.
    pub verify_assertion_iff :
        (o : AssertionOutcome)
        → (run ≡ ok o)
          ↔ ((a : Asserted) × (o ≡ outcome (sign_count_of a.auth_data) device.sign_count))
    verify_assertion_iff o = (assertion_sound o, λ (a, e). assertion_complete a ∙ ap ok (sym e))
