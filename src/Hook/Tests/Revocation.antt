-- ===== src/Hook/Tests/Revocation.antt =====
-- Pins, authorizations and revocations of a small registry.
use oshioki.Base.{◌≤◌, ◌≡◌, ◌≢◌, ◌↔◌, refl, true, false, not, none, some, arith, any, find, retain}
use oshioki.Base.Int.{pos}
use oshioki.Base.Result.{ok, err}
use oshioki.Protocol.Cbor.{cbor_values_equal, claim, validate_cbor_value}
use oshioki.Protocol.Encoding.{encode_base64url, decode_base64url, decode_exact, valid_fingerprint}
use oshioki.Protocol.Cose.{cose_p256_verifying_key}
use oshioki.Protocol.Device.{
  DevicePublicRecord, fingerprint_preimage, device_fingerprint, validate_key, validate_device,
  validate_registry,
}
use oshioki.Protocol.Example.{encode, decode_from, digest, toy, toy_device, toy_registry}
use oshioki.Hook.Registry.{
  LocalRegistry, holds, durable, Pending, predates_revocation, revoked_or_replaced, devices_of,
  has_fingerprint, is_authorized, same_identity, set_sign_count, device_eq, deactivated, deactivate,
  next_epoch, merge_stored, load, write, pin, authorize, disable, cleanup,
}
use oshioki.Hook.Registry.Gate.{IsGranted, authorize_iff, authorize-records_count}
use oshioki.Hook.Registry.Fence.{World, Reach, here, next, finishes, pins, revocation_fences}
use oshioki.Hook.Registry.Lifecycle.{epoch_after, revocation_succeeds}
use oshioki.Hook.Registry.Pin.{IsPinned, pin-IsPinned}

-- Everything that the tests compute through.
hook : Unit {0}
unfolding validate_registry validate_device validate_key cose_p256_verifying_key decode_exact
    decode_base64url valid_fingerprint device_fingerprint fingerprint_preimage encode_base64url
    validate_cbor_value cbor_values_equal claim encode decode_from digest same_identity
    set_sign_count device_eq deactivate next_epoch merge_stored load write pin authorize disable
    cleanup
hook = tt

abbrev state : LocalRegistry
state = record { registry = toy_registry; revocation_epoch = 4 }

abbrev phone : DevicePublicRecord
phone = toy_device 1

state_loads : load toy (holds state) ≡ ok state
unfolding hook
state_loads = refl

phone_found : find (has_fingerprint phone.fingerprint) (devices_of state) ≡ some phone
unfolding hook
phone_found = refl

granted : (authorize toy durable phone 4 (pos 90) (some 7) false (pos 30) (holds state)).1 ≡ ok tt
unfolding hook
granted = refl

denied :
    ((authorize toy durable phone 3 (pos 90) (some 7) false (pos 30) (holds state)).1
      ≡ err predates_revocation)
    × ((authorize toy durable (toy_device 3) 4 (pos 90) none false (pos 30) (holds state)).1
        ≡ err revoked_or_replaced)
unfolding hook
denied = (refl, refl)

authorize_iff_example :
    ((authorize toy durable phone 4 (pos 90) (some 7) false (pos 30) (holds state)).1 ≡ ok tt)
    ↔ IsGranted toy durable phone 4 (pos 90) (some 7) false (pos 30) (holds state)
authorize_iff_example =
    authorize_iff toy durable phone 4 (pos 90) false (pos 30) (some 7) (holds state)

authorize-records_count_example :
    (s : LocalRegistry) × (stored : DevicePublicRecord) × (load toy
        (authorize toy durable phone 4 (pos 90) (some 7) false (pos 30) (holds state)).0
      ≡ ok s)
    × (find (is_authorized phone) (devices_of s) ≡ some stored)
    × (7 ≤ stored.sign_count)
authorize-records_count_example =
    authorize-records_count toy durable phone 4 (pos 90) (pos 30) 7 (holds state) granted

pinned : (pin toy durable (toy_device 3) (holds state)).1 ≡ ok tt
unfolding hook
pinned = refl

pin-IsPinned_example :
    IsPinned toy (toy_device 3) (holds state) (pin toy durable (toy_device 3) (holds state)).0
pin-IsPinned_example = pin-IsPinned toy durable (toy_device 3) (holds state) pinned

shaped : valid_fingerprint toy phone.fingerprint ≡ true
unfolding hook
shaped = refl

revocation_succeeds_example :
    (p : Pending) × (s' : LocalRegistry) × ((disable toy durable phone.fingerprint (holds state)).1
      ≡ ok p)
    × (cleanup toy durable phone.fingerprint p
          (disable toy durable phone.fingerprint (holds state)).0
        ≡ (holds s', ok tt))
    × (devices_of s' ≡ retain (λ e. not (has_fingerprint phone.fingerprint e)) (devices_of state))
    × (any (has_fingerprint phone.fingerprint) (devices_of s') ≡ false)
    × (s'.revocation_epoch ≡ epoch_after true 4)
revocation_succeeds_example =
    revocation_succeeds toy (holds state) state phone.fingerprint phone state_loads shaped
      phone_found (omega arith)

-- The phone is revoked, removed, and pinned again with the same keys.
abbrev begun : World
begun = record {
  file = (disable toy durable phone.fingerprint (holds state)).0;
  revoking = some (phone.fingerprint, some (deactivated phone, 5));
}

abbrev removed : World
removed = record {
  file = (cleanup toy durable phone.fingerprint (some (deactivated phone, 5)) begun.file).0;
  revoking = none;
}

abbrev pinned_again : World
pinned_again = record { file = (pin toy durable phone removed.file).0; revoking = none }

again : Reach toy begun pinned_again
again =
    next (next here (finishes begun durable phone.fingerprint (some (deactivated phone, 5)) refl))
      (pins removed durable phone refl)

disabled_ok :
    (disable toy durable phone.fingerprint (holds state)).1 ≡ ok (some (deactivated phone, 5))
unfolding hook
disabled_ok = refl

revocation_fences_example :
    (authorize toy durable phone 4 (pos 90) (some 7) false (pos 30) pinned_again.file).1 ≢ ok tt
revocation_fences_example =
    revocation_fences toy (record { file = holds state; revoking = none }) pinned_again durable
      durable phone.fingerprint (some (deactivated phone, 5)) state phone phone 4 (pos 90) (some 7)
      false (pos 30) state_loads phone_found refl disabled_ok (omega arith) again
