-- ===== src/Hook/Registry/Lifecycle.antt =====
-- What a pin and a whole revocation do to the registry.
use oshioki.Base.{
  ℕ, ◌+◌, ◌-◌, ◌^◌, ◌≤◌, ◌<◌, ◌≡◌, inl, inr, refl, ap, Bool, true, false, not, ◌&&◌, some, List, [],
  ◌∷◌, String, arith, any, find, retain, length, All-retain, if◌then◌else◌, Bool-cases, nat_has_eq,
  text_has_eq,
}
use oshioki.Base.Result.{ok}
use package.text.Mathlib.TextPositions.{eq_refl}
use oshioki.Protocol.External.{External}
use oshioki.Protocol.Encoding.{valid_fingerprint}
use oshioki.Protocol.Device.{
  DevicePublicRecord, DeviceKind, webauthn, kind_eq, validate_key, validate_device,
  validate_devices, validate_registry,
}
use oshioki.Protocol.Device.RegistryLaws.{
  IsFresh, HasDistinct, IsValidDevice, validate_registry_iff,
}
use oshioki.Hook.Registry.{
  LocalRegistry, File, holds, durable, Pending, devices_of, with_devices, has_fingerprint,
  device_eq, deactivated, deactivate, load, disable, cleanup,
}

kind_eq_refl : (k : DeviceKind) → kind_eq k k ≡ true
kind_eq_refl webauthn = refl
kind_eq_refl _ = refl

device_eq_refl : (d : DevicePublicRecord) → device_eq d d ≡ true
unfolding device_eq
device_eq_refl d = ground (
  arith,
  kind_eq_refl d.kind,
  eq_refl d.fingerprint,
  eq_refl d.credential_id,
  eq_refl d.credential_public_key,
  eq_refl d.box_public_key,
  eq_refl d.api_token_hash,
  eq_refl d.label,
)

-- The registry without one device is as valid as before.
module _ (field : DevicePublicRecord → String) (keep : DevicePublicRecord → Bool) where
  IsFresh-weaken :
      (seen seen' : List String) (a : String)
      → ((b : String) → IsFresh b seen → IsFresh b seen')
      → IsFresh a seen
      → IsFresh a seen'
  IsFresh-weaken seen seen' a sub h = sub a h

  HasDistinct-retain :
      (seen seen' : List String) (ds : List DevicePublicRecord)
      → ((b : String) → IsFresh b seen → IsFresh b seen')
      → HasDistinct field seen ds
      → HasDistinct field seen' (retain keep ds)
  HasDistinct-retain seen seen' [] sub h = tt
  HasDistinct-retain seen seen' (d ∷ ds) sub (new, h) =
      let kept =
        HasDistinct-retain (field d ∷ seen) (field d ∷ seen') ds (λ b hb. (hb.0, sub b hb.1)) h in
      let dropped = HasDistinct-retain (field d ∷ seen) seen' ds (λ b hb. sub b hb.1) h in
      elim (Bool-cases (keep d)) [ inl e ↦ rw e (sub (field d) new, kept) | inr e ↦ rw e dropped ]

length-retain :
    (keep : DevicePublicRecord → Bool) (ds : List DevicePublicRecord)
    → length (retain keep ds) ≤ length ds
length-retain keep [] = omega arith
length-retain keep (d ∷ ds) = ground (arith, length-retain keep ds)

module _ (x : External) where
  validate-retain :
      (keep : DevicePublicRecord → Bool) (s : LocalRegistry)
      → validate_registry x s.registry ≡ ok tt
      → validate_registry x (with_devices s (retain keep (devices_of s))).registry ≡ ok tt
  validate-retain keep s h =
      let v = (validate_registry_iff x s.registry).0 h in
      (validate_registry_iff x _).1 (record {
        version = v.version;
        few = omega (arith, length-retain keep (devices_of s), v.few);
        devices = All-retain (IsValidDevice x) keep (devices_of s) v.devices;
        fingerprints =
            HasDistinct-retain (λ d. d.fingerprint) keep [] [] (devices_of s) (λ b h'. h')
              v.fingerprints;
        credentials =
            HasDistinct-retain (λ d. d.credential_id) keep [] [] (devices_of s) (λ b h'. h')
              v.credentials;
      })

  validate-deactivated :
      (d : DevicePublicRecord) → validate_device x (deactivated d) ≡ validate_device x d
  unfolding validate_device validate_key
  validate-deactivated d = refl

  validate_devices-deactivate :
      (test : DevicePublicRecord → Bool) (fs cs : List String) (ds : List DevicePublicRecord)
      → validate_devices x fs cs (deactivate test ds) ≡ validate_devices x fs cs ds
  unfolding validate_devices deactivate
  validate_devices-deactivate test fs cs [] = refl
  validate_devices-deactivate test fs cs (d ∷ ds) = elim (Bool-cases (test d)) [
    | inl e ↦ rw (e, validate-deactivated d)
    | inr e ↦
        rw (e, validate_devices-deactivate test (d.fingerprint ∷ fs) (d.credential_id ∷ cs) ds)
  ]

  length-deactivate :
      (test : DevicePublicRecord → Bool) (ds : List DevicePublicRecord)
      → length (deactivate test ds) ≡ length ds
  unfolding deactivate
  length-deactivate test [] = refl
  length-deactivate test (d ∷ ds) = ground (arith, length-deactivate test ds)

  validate-disabled :
      (test : DevicePublicRecord → Bool) (s : LocalRegistry)
      → validate_registry x s.registry ≡ ok tt
      → validate_registry x (with_devices s (deactivate test (devices_of s))).registry ≡ ok tt
  unfolding validate_registry
  validate-disabled test s h =
      rw
        (
          length-deactivate test (devices_of s),
          validate_devices-deactivate test [] [] (devices_of s),
        )
        h

  load-validates :
      (f : File) (s : LocalRegistry) (d : DevicePublicRecord) (test : DevicePublicRecord → Bool)
      → load x f ≡ ok s
      → find test (devices_of s) ≡ some d
      → validate_registry x s.registry ≡ ok tt
  unfolding load
  load-validates f s d test h found = ground arith

  load-holds :
      (s : LocalRegistry) → validate_registry x s.registry ≡ ok tt → load x (holds s) ≡ ok s
  unfolding load
  load-holds s h = ground arith

-- The tombstone is found again in the registry that phase one wrote.
any-deactivate :
    (k : String) (d : DevicePublicRecord) (ds : List DevicePublicRecord)
    → find (has_fingerprint k) ds ≡ some d
    → any
        (λ stored. device_eq stored (deactivated d) && not stored.active)
        (deactivate (has_fingerprint k) ds)
      ≡ true
unfolding deactivate
any-deactivate k d [] h = cc
any-deactivate k d (e ∷ ds) h =
    ground (arith, device_eq_refl (deactivated d), any-deactivate k d ds)

retain-deactivate :
    (k : String) (ds : List DevicePublicRecord)
    → retain (λ d. not (has_fingerprint k d)) (deactivate (has_fingerprint k) ds)
      ≡ retain (λ d. not (has_fingerprint k d)) ds
unfolding deactivate
retain-deactivate k [] = refl
retain-deactivate k (d ∷ ds) = ground (arith, retain-deactivate k ds)

any-retain :
    (k : String) (ds : List DevicePublicRecord)
    → any (has_fingerprint k) (retain (λ d. not (has_fingerprint k d)) ds) ≡ false
any-retain k [] = refl
any-retain k (d ∷ ds) = ground (arith, any-retain k ds)

abbrev pub epoch_after : Bool → ℕ → ℕ
epoch_after active epoch = if active then epoch + 1 else epoch

-- The registry that phase one writes.
abbrev pub disabled : String → DevicePublicRecord → LocalRegistry → LocalRegistry
disabled k d s = record (with_devices s (deactivate (has_fingerprint k) (devices_of s))) {
  revocation_epoch = epoch_after d.active s.revocation_epoch;
}

module _ (x : External) (f : File) (s : LocalRegistry) (k : String) (d : DevicePublicRecord)
    (loaded : load x f ≡ ok s) (shaped : valid_fingerprint x k ≡ true)
    (found : find (has_fingerprint k) (devices_of s) ≡ some d)
    (room : s.revocation_epoch < 2 ^ 64 - 1) where
  disable_succeeds :
      disable x durable k f
      ≡ (holds (disabled k d s), ok (some (deactivated d, epoch_after d.active s.revocation_epoch)))
  unfolding disable
  disable_succeeds =
      let valid =
        validate-disabled x (has_fingerprint k) s (load-validates x f s d _ loaded found) in
      ground arith

  cleanup_succeeds :
      cleanup x durable k
        (some (deactivated d, epoch_after d.active s.revocation_epoch))
        (holds (disabled k d s))
      ≡ (
        holds (
            with_devices (disabled k d s) (retain (λ e. not (has_fingerprint k e)) (devices_of s))),
        ok tt,
      )
  unfolding cleanup
  cleanup_succeeds =
      let s₁ = disabled k d s in
      let valid =
        validate-disabled x (has_fingerprint k) s (load-validates x f s d _ loaded found) in
      let valid' = validate-retain x (λ e. not (has_fingerprint k e)) s₁ valid in
      let valid₂ : validate_registry x
            (with_devices s₁ (retain (λ e. not (has_fingerprint k e)) (devices_of s))).registry
          ≡ ok tt =
        rw (← retain-deactivate k (devices_of s)) valid' in
      ground (
        arith,
        load-holds x s₁ valid,
        any-deactivate k d (devices_of s) found,
        retain-deactivate k (devices_of s),
      )

-- In a registry that loads and whose epoch is below 2^64 - 1, a revocation of a pinned device under a
-- fingerprint of the right form, whose two writes are durable, with no step in between, succeeds in both
-- phases. It leaves the registry with every other device, in order and unchanged, without the
-- revoked one, and with the next epoch if the device was active.
pub revocation_succeeds :
    (x : External) (f : File) (s : LocalRegistry) (k : String) (d : DevicePublicRecord)
    → load x f ≡ ok s
    → valid_fingerprint x k ≡ true
    → find (has_fingerprint k) (devices_of s) ≡ some d
    → s.revocation_epoch < 2 ^ 64 - 1
    → (p : Pending) × (s' : LocalRegistry) × ((disable x durable k f).1 ≡ ok p)
      × (cleanup x durable k p (disable x durable k f).0 ≡ (holds s', ok tt))
      × (devices_of s' ≡ retain (λ e. not (has_fingerprint k e)) (devices_of s))
      × (any (has_fingerprint k) (devices_of s') ≡ false)
      × (s'.revocation_epoch ≡ epoch_after d.active s.revocation_epoch)
revocation_succeeds x f s k d loaded shaped found room =
    let done = disable_succeeds x f s k d loaded shaped found room in
    (
      some (deactivated d, epoch_after d.active s.revocation_epoch),
      with_devices (disabled k d s) (retain (λ e. not (has_fingerprint k e)) (devices_of s)),
      ap (λ r. r.1) done,
      rw done (cleanup_succeeds x f s k d loaded shaped found room),
      refl,
      any-retain k (devices_of s),
      refl,
    )
