-- ===== src/Protocol/Tests/Requests.antt =====
-- Requests, envelopes and sealing.
use oshioki.Base.{◌≡◌, ◌↔◌, refl, true, false, none, some, [], ◌∷◌, ◌++◌, arith}
use oshioki.Base.Int.{pos}
use oshioki.Base.Result.{ok, err}
use oshioki.Protocol.Error.{invalid_request}
use oshioki.Protocol.Cbor.{cbor_values_equal, claim, validate_cbor_value}
use oshioki.Protocol.Encoding.{
  encode_base64url, decode_base64url, decode_exact, valid_fingerprint, valid_id,
}
use oshioki.Protocol.Cose.{cose_p256_verifying_key}
use oshioki.Protocol.Device.{
  fingerprint_preimage, device_fingerprint, validate_key, validate_device,
}
use oshioki.Protocol.Timing.{validate_request_timing}
use oshioki.Protocol.Request.{
  Request, is_approval_env, validate_request, validate_request_at, SealedDeviceBody,
}
use oshioki.Protocol.Request.Laws.{IsWellFormed, validate_request_iff}
use oshioki.Protocol.Seal.{seal, seal_with_material, unseal}
use oshioki.Protocol.Seal.RoundTrip.{unseal-seal}
use oshioki.Protocol.Example.{
  zeros, encode, decode_from, digest, toy, toy-Documented, toy-IsBox, toy_device,
}

abbrev toy_request : Request
toy_request = record {
  version = 1;
  request_id = "req-1";
  nonce = encode (zeros 16);
  host = "host";
  user = "eric";
  uid = 1000;
  runas_uid = 0;
  cwd = "/";
  tty = none;
  command = "/usr/bin/apt";
  argv = "apt" ∷ [];
  pid_chain = [];
  env = [];
  session = some "main";
  issued_at = pos 1000;
  expires_at = pos 1090;
}

request_tests :
    (validate_request_at toy toy_request (pos 1010) ≡ ok tt)
    × (validate_request toy (record toy_request { session = some "" }) ≡ err invalid_request)
    × (validate_request toy (record toy_request { expires_at = pos 1000 }) ≡ err invalid_request)
    × (is_approval_env "LD_PRELOAD" ≡ true)
    × (is_approval_env "HOME" ≡ false)
unfolding validate_request_at validate_request decode_base64url valid_id encode decode_from
    validate_request_timing is_approval_env
request_tests = (refl, refl, refl, refl, refl)

validate_request_iff_example :
    (validate_request toy toy_request ≡ ok tt) ↔ IsWellFormed toy toy_request
validate_request_iff_example = validate_request_iff toy toy_request

abbrev toy_body : SealedDeviceBody
toy_body = record {
  device_fingerprint = (toy_device 1).fingerprint;
  ephemeral_pub = encode (zeros 32);
  nonce = encode (zeros 12);
  ciphertext = encode (zeros 16 ++ 3 ∷ 4 ∷ []);
}

sealed_example : seal toy (3 ∷ 4 ∷ []) (toy_device 1) (zeros 32) (zeros 12) ≡ ok toy_body
unfolding seal seal_with_material validate_device validate_key cose_p256_verifying_key decode_exact
    decode_base64url valid_fingerprint device_fingerprint fingerprint_preimage encode_base64url
    validate_cbor_value cbor_values_equal claim encode decode_from digest
sealed_example = refl

peer_example : decode_exact toy (toy_device 1).box_public_key 32 ≡ ok (zeros 32)
unfolding decode_exact decode_base64url encode decode_from
peer_example = refl

unseal-seal_example : unseal toy toy_body (zeros 32) ≡ ok (3 ∷ 4 ∷ [])
unseal-seal_example =
    unseal-seal toy toy-Documented toy-IsBox (3 ∷ 4 ∷ []) (toy_device 1) (zeros 32) (zeros 32)
      (zeros 12) (omega arith) (omega arith) refl (omega arith) refl peer_example sealed_example
