-- ===== src/Protocol/Device/RegistryLaws.antt =====
-- The checks of `DeviceRegistryV1::validate` in protocol/src/v1.rs.
use oshioki.Base.{
  ◌≤◌, ◌≡◌, ◌≢◌, ◌↔◌, refl, false, List, [], ◌∷◌, String, arith, length, any, All, ◌==◌,
  text_has_eq, eq_iff,
}
use oshioki.Base.Result.{ok, >>=-eq-ok, refuse-eq-ok}
use oshioki.Protocol.External.{External}
use oshioki.Protocol.Device.{
  DevicePublicRecord, DeviceRegistry, version_v1, max_devices, validate_device, validate_devices,
  validate_registry,
}

-- No element of the list is `a`.
abbrev pub IsFresh : String → List String → Type 0
IsFresh a = All (λ s. s ≢ a)

-- The field's values are distinct from one another and from those in `seen`.
abbrev pub HasDistinct :
    (DevicePublicRecord → String) → List String → List DevicePublicRecord → Type 0
HasDistinct field seen [] = Unit
HasDistinct field seen (d ∷ ds) = IsFresh (field d) seen × HasDistinct field (field d ∷ seen) ds

pub any-IsFresh :
    (a : String) (seen : List String) → any (λ s. s == a) seen ≡ false → IsFresh a seen
any-IsFresh a [] h = tt
any-IsFresh a (s ∷ seen) h = ground (arith, eq_iff s a, any-IsFresh a seen)

pub IsFresh-any :
    (a : String) (seen : List String) → IsFresh a seen → any (λ s. s == a) seen ≡ false
IsFresh-any a [] h = refl
IsFresh-any a (s ∷ seen) (h, hs) = ground (arith, eq_iff s a, IsFresh-any a seen hs)

module _ (x : External) where
  abbrev pub IsValidDevice : DevicePublicRecord → Type 0
  IsValidDevice d = validate_device x d ≡ ok tt

  pub record IsValidRegistry (r : DeviceRegistry) : Type 0 where
    pub version : r.version ≡ version_v1
    pub few : length r.devices ≤ max_devices
    pub devices : All IsValidDevice r.devices
    pub fingerprints : HasDistinct (λ d. d.fingerprint) [] r.devices
    pub credentials : HasDistinct (λ d. d.credential_id) [] r.devices

  devices_sound :
      (seen credentials : List String) (ds : List DevicePublicRecord)
      → validate_devices x seen credentials ds ≡ ok tt
      → All IsValidDevice ds
        × HasDistinct (λ d. d.fingerprint) seen ds
        × HasDistinct (λ d. d.credential_id) credentials ds
  unfolding validate_devices
  devices_sound seen credentials [] h = (tt, tt, tt)
  devices_sound seen credentials (d ∷ ds) h =
      let (u, valid, h₁) = >>=-eq-ok (validate_device x d) _ h in
      let (new, h₂) = refuse-eq-ok _ _ _ h₁ in
      let (new', h₃) = refuse-eq-ok _ _ _ h₂ in
      let (a, f, c) = devices_sound (d.fingerprint ∷ seen) (d.credential_id ∷ credentials) ds h₃ in
      (
        (valid, a),
        (any-IsFresh d.fingerprint seen new, f),
        (any-IsFresh d.credential_id credentials new', c),
      )

  devices_complete :
      (seen credentials : List String) (ds : List DevicePublicRecord)
      → All IsValidDevice ds
      → HasDistinct (λ d. d.fingerprint) seen ds
      → HasDistinct (λ d. d.credential_id) credentials ds
      → validate_devices x seen credentials ds ≡ ok tt
  unfolding validate_devices
  devices_complete seen credentials [] a f c = refl
  devices_complete seen credentials (d ∷ ds) (valid, a) (new, f) (new', c) =
      rw (valid, IsFresh-any d.fingerprint seen new, IsFresh-any d.credential_id credentials new')
        (devices_complete (d.fingerprint ∷ seen) (d.credential_id ∷ credentials) ds a f c)

  -- `DeviceRegistryV1::validate` accepts exactly the registries of the current version with at most
  -- eight devices, each valid by itself, in which no two devices share a fingerprint and no two share
  -- a credential id.
  pub validate_registry_iff :
      (r : DeviceRegistry) → (validate_registry x r ≡ ok tt) ↔ IsValidRegistry r
  unfolding validate_registry
  validate_registry_iff r = (
    λ h.
        let (t, h') = refuse-eq-ok _ _ _ h in
        let (a, f, c) = devices_sound [] [] r.devices h' in
        record {
          version = ground arith;
          few = ground arith;
          devices = a;
          fingerprints = f;
          credentials = c;
        },
    λ v. ground (arith, devices_complete [] [] r.devices v.devices v.fingerprints v.credentials),
  )
