-- ===== src/Hook/Tests/Verdicts.antt =====
-- Waits for a decision in which a forged denial comes before a genuine decision.
use oshioki.Base.{◌≡◌, ◌↔◌, refl, true, none, some, [], ◌∷◌, List, Bool, String}
use oshioki.Base.Int.{pos}
use oshioki.Base.Result.{Result, ok, err}
use oshioki.Protocol.Cbor.{cbor_values_equal, claim, validate_cbor_value}
use oshioki.Protocol.Encoding.{
  encode_base64url, decode_base64url, decode_exact, valid_fingerprint, valid_id,
}
use oshioki.Protocol.Cose.{cose_p256_verifying_key}
use oshioki.Protocol.Challenge.{approve_challenge}
use oshioki.Protocol.Device.{
  HookConfig, device_fingerprint, fingerprint_preimage, validate_config, validate_device,
  validate_key, validate_registry,
}
use oshioki.Protocol.Request.{Request}
use oshioki.Protocol.Decision.{
  Deny, deny, Approve, approve, Decision, validate_deny_shape, validate_approve_shape,
  check_signature,
}
use oshioki.Protocol.Assertion.{
  outcome, check_client_data, check_authenticator_data, verify_assertion, verify_approval,
}
use oshioki.Protocol.Example.{
  zeros, encode, decode_from, digest, toy, toy_device, toy_config, toy_registry, toy_auth_data,
}
use oshioki.Hook.Registry.{
  File, holds, durable, same_identity, set_sign_count, device_eq, merge_stored, load, write,
  authorize,
}
use oshioki.Hook.Verdict.{
  HookError, denied, unavailable, confirm_denial, authenticate_denial, authenticate_approval, judge,
  final_authorization, apply_decision, first_valid_decision,
}
use oshioki.Hook.Verdict.Wait.{Received, waits, IsDecided}
use oshioki.Hook.Verdict.Authentic.{IsApproved, IsApproved-iff}
use oshioki.Hook.Verdict.Denial.{said, Reason, denied-IsDecided}

abbrev small_request : Request
small_request = record {
  version = 1;
  request_id = "req-1";
  nonce = encode (zeros 16);
  host = "host";
  user = "eric";
  uid = 1000;
  runas_uid = 0;
  cwd = "/";
  tty = none;
  command = "/usr/bin/apt";
  argv = "apt" ∷ [];
  pid_chain = [];
  env = [];
  session = none;
  issued_at = pos 1000;
  expires_at = pos 1090;
}

abbrev browser_denial : String → Deny
browser_denial id = record {
  version = 1;
  request_id = id;
  device_fingerprint = (toy_device 1).fingerprint;
  signature = none;
}

abbrev browser_approval : Approve
browser_approval = record {
  version = 1;
  request_id = "req-1";
  device_fingerprint = (toy_device 1).fingerprint;
  credential_id = (toy_device 1).credential_id;
  authenticator_data = encode toy_auth_data;
  client_data_json = encode (approve_challenge toy []);
  signature = encode (zeros 8);
}

abbrev at_1010 : Decision → Received
at_1010 decision = record {
  decision = decision;
  now = pos 1010;
  clock = pos 1010;
  commit = durable;
  cut_off = none;
}

abbrev registry_file : File
registry_file = holds (record { registry = toy_registry; revocation_epoch = 4 })

abbrev confirmed : HookConfig → Deny → Bool
confirmed config denial = true

-- A denial of another request comes first.
abbrev preceded : Decision → List (Result HookError Received)
preceded decision = ok (at_1010 (deny (browser_denial "req-2"))) ∷ ok (at_1010 decision) ∷ []

abbrev outcome_of : List (Result HookError Received) → File × Result HookError (Unit {0})
outcome_of ts =
    waits toy (some toy_config) confirmed (toy_device 1 ∷ []) small_request [] 4 ts registry_file

-- Everything that the tests compute through.
verdict : Unit {0}
unfolding first_valid_decision apply_decision final_authorization judge authenticate_denial
    confirm_denial authenticate_approval validate_deny_shape validate_approve_shape verify_approval
    verify_assertion check_client_data check_authenticator_data check_signature validate_config
    validate_device validate_key validate_registry cose_p256_verifying_key valid_fingerprint
    valid_id encode decode_from decode_base64url decode_exact device_fingerprint encode_base64url
    digest fingerprint_preimage validate_cbor_value cbor_values_equal claim approve_challenge
    outcome same_identity set_sign_count device_eq merge_stored load write authorize
verdict = tt

wait_is_denied : outcome_of (preceded (deny (browser_denial "req-1"))) ≡ (registry_file, err denied)
unfolding verdict
wait_is_denied = refl

wait_is_approved : (outcome_of (preceded (approve browser_approval))).1 ≡ ok tt
unfolding verdict
wait_is_approved = refl

-- The same approval, when the deadline passes first.
cut_off_is_unavailable :
    outcome_of
      (ok (record (at_1010 (approve browser_approval)) { cut_off = some registry_file }) ∷ [])
    ≡ (registry_file, err unavailable)
unfolding verdict
cut_off_is_unavailable = refl

denied-IsDecided_example :
    (d : IsDecided toy
      (some toy_config)
      confirmed
      (toy_device 1 ∷ [])
      small_request
      []
      4
      (preceded (deny (browser_denial "req-1")))
      registry_file
      registry_file
      (err denied))
    × Reason toy
        (some toy_config)
        confirmed
        (toy_device 1 ∷ [])
        small_request
        []
        4
        d.received
        registry_file
        registry_file
        denied
denied-IsDecided_example =
    denied-IsDecided toy (some toy_config) confirmed (toy_device 1 ∷ []) small_request [] 4
      (preceded (deny (browser_denial "req-1"))) registry_file registry_file denied
      (λ e h. cc, (λ e h. cc, tt)) said wait_is_denied

IsApproved-iff_example :
    (outcome_of (preceded (approve browser_approval))
      ≡ ((outcome_of (preceded (approve browser_approval))).0, ok tt))
    ↔ IsApproved toy
        (some toy_config)
        confirmed
        (toy_device 1 ∷ [])
        small_request
        []
        4
        (preceded (approve browser_approval))
        registry_file
        (outcome_of (preceded (approve browser_approval))).0
IsApproved-iff_example =
    IsApproved-iff toy (some toy_config) confirmed (toy_device 1 ∷ []) small_request [] 4
      (preceded (approve browser_approval)) registry_file
      (outcome_of (preceded (approve browser_approval))).0
