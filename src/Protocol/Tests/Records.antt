-- ===== src/Protocol/Tests/Records.antt =====
-- Devices, registries, challenges and timestamps.
use oshioki.Base.{◌≤◌, ◌≡◌, ◌↔◌, ◌⊎◌, refl, true, false, some, [], ◌∷◌, arith, take}
use oshioki.Base.Int.{pos, negsuc}
use oshioki.Base.Result.{ok, err}
use oshioki.Protocol.Error.{invalid_request}
use oshioki.Protocol.Cbor.{
  Value, integer, text, array, table, nil, item, end, entry, max_cbor_depth, max_cbor_items,
  cbor_values_equal, claim, validate_cbor_value,
}
use oshioki.Protocol.Cbor.Bounds.{height, nodes, HasDistinctKeys, validate_cbor_value_iff}
use oshioki.Protocol.Cbor.Equality.{cbor_values_equal_refl, cbor_values_equal_swap}
use oshioki.Protocol.External.{Bytes}
use oshioki.Protocol.Encoding.{encode_base64url, decode_base64url, decode_exact, valid_fingerprint}
use oshioki.Protocol.Cose.{cose_p256_verifying_key}
use oshioki.Protocol.Device.{
  fingerprint_preimage, device_fingerprint, validate_key, validate_device, validate_registry,
}
use oshioki.Protocol.Device.Binding.{hashed, device_fingerprint_binding}
use oshioki.Protocol.Device.RegistryLaws.{IsValidRegistry, validate_registry_iff}
use oshioki.Protocol.Challenge.Separation.{
  approve_command, preimage, IsCollision, challenge_binding,
}
use oshioki.Protocol.Timing.{InWindow, validate_request_timing, validate_request_timing_iff}
use oshioki.Protocol.Example.{
  encode, decode_from, digest, toy, toy-Documented, toy_device, toy_registry,
}

toy_registry_valid : validate_registry toy toy_registry ≡ ok tt
unfolding validate_registry validate_device validate_key cose_p256_verifying_key decode_exact
    decode_base64url valid_fingerprint device_fingerprint fingerprint_preimage encode_base64url
    validate_cbor_value cbor_values_equal claim encode decode_from digest
toy_registry_valid = refl

twins_refused :
    validate_registry toy (record { version = 1; devices = toy_device 1 ∷ toy_device 1 ∷ [] })
    ≡ err invalid_request
unfolding validate_registry validate_device validate_key cose_p256_verifying_key decode_exact
    decode_base64url valid_fingerprint device_fingerprint fingerprint_preimage encode_base64url
    validate_cbor_value cbor_values_equal claim encode decode_from digest
twins_refused = refl

validate_registry_iff_example :
    (validate_registry toy toy_registry ≡ ok tt) ↔ IsValidRegistry toy toy_registry
validate_registry_iff_example = validate_registry_iff toy toy_registry

device_fingerprint_binding_example :
    (◌≡◌ {A = Bytes} (1 ∷ []) (1 ∷ [])
      × ◌≡◌ {A = Bytes} (0 ∷ []) (0 ∷ [])
      × ◌≡◌ {A = Bytes} (2 ∷ []) (2 ∷ []))
    ⊎ IsCollision
        (λ bs. take 16 (toy.sha256 bs))
        (hashed (1 ∷ []) (0 ∷ []) (2 ∷ []))
        (hashed (1 ∷ []) (0 ∷ []) (2 ∷ []))
device_fingerprint_binding_example =
    device_fingerprint_binding toy toy-Documented (1 ∷ []) (0 ∷ []) (2 ∷ []) (1 ∷ []) (0 ∷ [])
      (2 ∷ []) (omega arith) (omega arith) (omega arith) (omega arith) refl

challenge_binding_example :
    (approve_command (1 ∷ []) ≡ approve_command (1 ∷ []))
    ⊎ IsCollision toy.sha256
        (preimage (approve_command (1 ∷ [])))
        (preimage (approve_command (1 ∷ [])))
challenge_binding_example =
    challenge_binding toy (approve_command (1 ∷ [])) (approve_command (1 ∷ [])) tt tt refl

timing_tests :
    (validate_request_timing (pos 1000) (pos 1090) (pos 1000) ≡ ok tt)
    × (validate_request_timing (pos 1000) (pos 1091) (pos 1000) ≡ err invalid_request)
    × (validate_request_timing (pos 1031) (pos 1090) (pos 1000) ≡ err invalid_request)
    × (validate_request_timing (pos 969) (pos 1050) (pos 1000) ≡ err invalid_request)
    × (validate_request_timing (pos 999) (pos 1000) (pos 1000) ≡ err invalid_request)
unfolding validate_request_timing
timing_tests = (refl, refl, refl, refl, refl)

validate_request_timing_iff_example :
    (validate_request_timing (pos 1000) (pos 1090) (pos 1010) ≡ ok tt)
    ↔ InWindow (pos 1000) (pos 1090) (pos 1010)
validate_request_timing_iff_example =
    validate_request_timing_iff (pos 1000) (pos 1090) (pos 1010) (omega arith) (omega arith)
      (omega arith)

abbrev two_keys : Value
two_keys =
    table (
      entry (integer (pos 1)) (text "a")
        (entry (integer (pos 2)) (array (item (text "b") nil)) end))

validate_cbor_value_iff_example : (validate_cbor_value two_keys 0 0 ≡ some 6) ↔ (
    (height two_keys ≤ max_cbor_depth)
    × (6 ≡ nodes two_keys)
    × (nodes two_keys ≤ max_cbor_items)
    × HasDistinctKeys two_keys)
validate_cbor_value_iff_example = validate_cbor_value_iff two_keys 6

cbor_values_equal_refl_example : cbor_values_equal two_keys two_keys ≡ true
cbor_values_equal_refl_example = cbor_values_equal_refl two_keys

numbers_differ : cbor_values_equal (integer (pos 1)) (integer (negsuc 1)) ≡ false
unfolding cbor_values_equal
numbers_differ = refl

cbor_values_equal_swap_example :
    cbor_values_equal
      (table (entry (integer (pos 1)) (text "a") (entry (integer (negsuc 1)) (text "b") end)))
      (table (entry (integer (negsuc 1)) (text "b") (entry (integer (pos 1)) (text "a") end)))
    ≡ true
cbor_values_equal_swap_example =
    cbor_values_equal_swap (integer (pos 1)) (text "a") (integer (negsuc 1)) (text "b") end
      numbers_differ
