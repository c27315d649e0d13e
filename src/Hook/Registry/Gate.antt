-- ===== src/Hook/Registry/Gate.antt =====
-- What the final gate grants, and what it leaves in devices.json.
use oshioki.Base.{
  ◌&&◌, ℕ, ◌≤◌, ◌<◌, ◌≡◌, ◌↔◌, ◌⊎◌, inl, inr, refl, Bool, true, false, Option, none, some, List, [],
  ◌∷◌, arith, find, Option-cases,
}
use oshioki.Base.Int.{ℤ, ◌<ℤ◌}
use oshioki.Base.Result.{ok, Result-cases}
use native.Mathlib.Decide.{dec_lt}
use oshioki.Protocol.External.{External}
use oshioki.Protocol.Device.{DevicePublicRecord}
use oshioki.Hook.Registry.{
  LocalRegistry, File, Commit, devices_of, with_devices, is_authorized, same_identity,
  set_sign_count, load, write, authorize,
}

module _ (x : External) where
  -- The update of the counter happens, or is not needed, or may be lost (`warning_only`).
  abbrev pub Settles :
      Commit
      → DevicePublicRecord
      → Option ℕ
      → Bool
      → DevicePublicRecord
      → LocalRegistry
      → File
      → Type 0
  Settles c device none warning_only stored s f = Unit
  Settles c device (some count) warning_only stored s f =
      (count ≤ stored.sign_count)
      ⊎ (warning_only ≡ true)
      ⊎ ((write x c
            (with_devices s
              (set_sign_count (λ d. d.active && same_identity d device) count (devices_of s)))
            f).1
          ≡ true)

  pub record IsGranted (c : Commit) (device : DevicePublicRecord) (epoch : ℕ) (expires_at : ℤ)
      (observed : Option ℕ) (warning_only : Bool) (clock : ℤ) (f : File) : Type 0 where
    pub state : LocalRegistry
    pub stored : DevicePublicRecord
    pub loaded : load x f ≡ ok state
    pub current : epoch ≡ state.revocation_epoch
    pub found : find (λ d. d.active && same_identity d device) (devices_of state) ≡ some stored
    pub in_time : clock <ℤ expires_at
    pub settled : Settles c device observed warning_only stored state f

  module _ (c : Commit) (device : DevicePublicRecord) (epoch : ℕ) (expires_at : ℤ)
      (warning_only : Bool) (clock : ℤ) where
    granted_sound :
        (o : Option ℕ) (f : File) (s : LocalRegistry) (stored : DevicePublicRecord)
        → load x f ≡ ok s
        → find (is_authorized device) (devices_of s) ≡ some stored
        → (authorize x c device epoch expires_at o warning_only clock f).1 ≡ ok tt
        → (epoch ≡ s.revocation_epoch)
          × (clock <ℤ expires_at)
          × Settles c device o warning_only stored s f
    unfolding authorize
    granted_sound none f s stored hl hf h = ground arith
    granted_sound (some n) f s stored hl hf h = ground arith

    granted_complete :
        (o : Option ℕ) (f : File)
        → IsGranted c device epoch expires_at o warning_only clock f
        → (authorize x c device epoch expires_at o warning_only clock f).1 ≡ ok tt
    unfolding authorize
    granted_complete none f g = ground arith
    granted_complete (some n) f g = ground arith

    granted_state :
        (o : Option ℕ) (f : File)
        → (authorize x c device epoch expires_at o warning_only clock f).1 ≡ ok tt
        → (s : LocalRegistry) × (stored : DevicePublicRecord) × (load x f ≡ ok s)
          × (find (is_authorized device) (devices_of s) ≡ some stored)
    unfolding authorize
    granted_state o f h = elim (Result-cases (load x f)) [
      | inr (e, failed) ↦ absurd (ground arith)
      | inl (s, loaded) ↦ elim (Option-cases (find (is_authorized device) (devices_of s))) [
        | inl missing ↦ absurd (ground arith)
        | inr (stored, found) ↦ (s, stored, loaded, found)
      ]
    ]

    -- The gate grants exactly when the registry loads, the request's epoch is the current one, the
    -- registry holds an active record with the device's identity, the request has not expired by the
    -- clock read under the lock, and a higher counter is written or its loss is tolerated.
    pub authorize_iff :
        (o : Option ℕ) (f : File)
        → ((authorize x c device epoch expires_at o warning_only clock f).1 ≡ ok tt)
          ↔ IsGranted c device epoch expires_at o warning_only clock f
    authorize_iff o f = (
      λ h.
          let (s, stored, loaded, found) = granted_state o f h in
          let (current, in_time, settled) = granted_sound o f s stored loaded found h in
          record {
            state = s;
            stored = stored;
            loaded = loaded;
            current = current;
            found = found;
            in_time = in_time;
            settled = settled;
          },
      granted_complete o f,
    )

  -- The identity does not look at the counter.
  is_authorized-sign_count :
      (device d : DevicePublicRecord) (n : ℕ)
      → is_authorized device (record d { sign_count = n }) ≡ is_authorized device d
  unfolding same_identity
  is_authorized-sign_count device d n = refl

  find-set_sign_count :
      (device d : DevicePublicRecord) (n : ℕ) (ds : List DevicePublicRecord)
      → find (is_authorized device) ds ≡ some d
      → find (is_authorized device) (set_sign_count (is_authorized device) n ds)
        ≡ some (record d { sign_count = n })
  unfolding set_sign_count
  find-set_sign_count device d n [] h = cc
  find-set_sign_count device d n (e ∷ ds) h =
      ground (arith, is_authorized-sign_count device e n, find-set_sign_count device d n ds)

  module _ (c : Commit) (device : DevicePublicRecord) (epoch : ℕ) (expires_at clock : ℤ) where
    counted :
        (n : ℕ) (f : File) (s : LocalRegistry) (stored : DevicePublicRecord)
        → load x f ≡ ok s
        → find (is_authorized device) (devices_of s) ≡ some stored
        → (authorize x c device epoch expires_at (some n) false clock f).1 ≡ ok tt
        → stored.sign_count < n
        → load x (authorize x c device epoch expires_at (some n) false clock f).0
          ≡ ok (with_devices s (set_sign_count (is_authorized device) n (devices_of s)))
    unfolding authorize
    counted n f s stored hl hf h lt = ground arith

    not_counted :
        (n : ℕ) (f : File) (s : LocalRegistry) (stored : DevicePublicRecord)
        → load x f ≡ ok s
        → find (is_authorized device) (devices_of s) ≡ some stored
        → n ≤ stored.sign_count
        → (authorize x c device epoch expires_at (some n) false clock f).0 ≡ f
    unfolding authorize
    not_counted n f s stored hl hf le = ground arith

    -- After a granted command approval with an observed signature counter, the registry on disk loads,
    -- holds the authorized record, and its stored counter is at least the observed one.
    pub authorize-records_count :
        (n : ℕ) (f : File)
        → (authorize x c device epoch expires_at (some n) false clock f).1 ≡ ok tt
        → (s : LocalRegistry) × (stored : DevicePublicRecord) × (load x
              (authorize x c device epoch expires_at (some n) false clock f).0
            ≡ ok s)
          × (find (is_authorized device) (devices_of s) ≡ some stored)
          × (n ≤ stored.sign_count)
    authorize-records_count n f h =
        let (s, stored, loaded, found) =
          granted_state c device epoch expires_at false clock (some n) f h in
        elim (dec_lt stored.sign_count n) [
          | yes lt ↦ (
            with_devices s (set_sign_count (is_authorized device) n (devices_of s)),
            record stored { sign_count = n },
            counted n f s stored loaded found h lt,
            find-set_sign_count device stored n (devices_of s) found,
            omega arith,
          )
          | no le ↦
              let kept = not_counted n f s stored loaded found (omega arith) in
              (s, stored, rw kept loaded, found, omega arith)
        ]
