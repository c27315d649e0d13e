-- ===== src/Hook/Registry/Pin.antt =====
-- What a successful `pin` has checked, and what it leaves in devices.json.
use oshioki.Base.{
  ◌≤◌, ◌≡◌, inl, inr, true, false, not, Option, none, some, [], ◌∷◌, ◌++◌, arith, any, find, retain,
  Option-cases,
}
use oshioki.Base.Result.{ok, Result-cases}
use oshioki.Protocol.External.{External}
use oshioki.Protocol.Device.{DevicePublicRecord, validate_device}
use oshioki.Hook.Registry.{
  LocalRegistry, File, holds, Commit, devices_of, with_devices, conflicts, has_fingerprint,
  same_credential, merge_stored, load, pin,
}

-- The counter never goes back for the same credential, and nothing replaces a pending tombstone.
abbrev pub Merges : DevicePublicRecord → Option DevicePublicRecord → DevicePublicRecord → Type 0
Merges d none m = m ≡ d
Merges d (some stored) m =
    (stored.active ≡ true)
    × (m ≡ record d { sign_count = m.sign_count })
    × (d.sign_count ≤ m.sign_count)
    × (same_credential stored d ≡ true → stored.sign_count ≤ m.sign_count)

merge_sound :
    (d : DevicePublicRecord) (stored : Option DevicePublicRecord) (m : DevicePublicRecord)
    → merge_stored d stored ≡ some m
    → Merges d stored m
unfolding merge_stored
merge_sound d none m h = cc
merge_sound d (some stored) m h = (ground arith, ground arith, ground arith, λ same. ground arith)

module _ (x : External) where
  pub record IsPinned (d : DevicePublicRecord) (before after : File) : Type 0 where
    pub state : LocalRegistry
    pub merged : DevicePublicRecord
    pub valid : validate_device x d ≡ ok tt
    pub active : d.active ≡ true
    pub loaded : load x before ≡ ok state
    pub unshared : any (conflicts d) (devices_of state) ≡ false
    pub merges : Merges d (find (has_fingerprint d.fingerprint) (devices_of state)) merged
    pub result :
        after
        ≡ holds (
            with_devices state (
              retain (λ e. not (has_fingerprint merged.fingerprint e)) (devices_of state)
              ++ merged ∷ []))

  pin_state :
      (c : Commit) (d : DevicePublicRecord) (f : File)
      → (pin x c d f).1 ≡ ok tt
      → (s : LocalRegistry) × (m : DevicePublicRecord) × (load x f ≡ ok s)
        × (merge_stored d (find (has_fingerprint d.fingerprint) (devices_of s)) ≡ some m)
  unfolding pin
  pin_state c d f h = elim (Result-cases (load x f)) [
    | inr (e, failed) ↦ absurd (ground arith)
    | inl (s, loaded) ↦
        elim (Option-cases (merge_stored d (find (has_fingerprint d.fingerprint) (devices_of s)))) [
          | inl missing ↦ absurd (ground arith)
          | inr (m, found) ↦ (s, m, loaded, found)
        ]
  ]

  -- A pin that succeeds, whatever the registry was, was given a valid, active record whose credential
  -- no other record holds, and no revocation of it was pending. Afterwards the file holds the same
  -- epoch and the other devices in order, and last the record, whose counter is at least the given one
  -- and at least the stored one of the same credential.
  pub pin-IsPinned :
      (c : Commit) (d : DevicePublicRecord) (f : File)
      → (pin x c d f).1 ≡ ok tt
      → IsPinned d f (pin x c d f).0
  unfolding pin
  pin-IsPinned c d f h =
      let (s, m, loaded, found) = pin_state c d f h in
      record {
        state = s;
        merged = m;
        valid = ground arith;
        active = ground arith;
        loaded = loaded;
        unshared = ground arith;
        merges = merge_sound d (find (has_fingerprint d.fingerprint) (devices_of s)) m found;
        result = ground arith;
      }
