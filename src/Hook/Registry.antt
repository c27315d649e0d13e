-- ===== src/Hook/Registry.antt =====
-- hook/src/registry.rs and `revoke_with` of hook/src/main.rs: the transactions on devices.json, and
-- the gate that every approval passes last. A transaction holds the registry lock from its load to its
-- write, so each function here is one atomic step on the file. What the file system does to a write is
-- an argument (`Commit`): it may fail before the rename, or after it, when the new content is already
-- in place although the writer sees an error.
pub mod Gate
pub mod Lifecycle
pub mod Fence
pub mod Pin
use oshioki.Base.{
  ℕ, zero, suc, ◌+◌, ◌-◌, ◌^◌, Bool, true, false, not, ◌&&◌, ◌||◌, Option, none, some, List, [],
  ◌∷◌, ◌++◌, String, max, any, all, find, retain, ltb, leb, ◌==◌, nat_has_eq, text_has_eq,
  if◌then◌else◌,
}
use oshioki.Base.Int.{ℤ, lebℤ}
use oshioki.Base.Result.{Result, ok, err}
use oshioki.Protocol.External.{External}
use oshioki.Protocol.Encoding.{valid_fingerprint}
use oshioki.Protocol.Device.{
  DevicePublicRecord, DeviceRegistry, kind_eq, version_v1, validate_device, validate_registry,
}

pub record LocalRegistry : Type 0 where
  pub registry : DeviceRegistry
  pub revocation_epoch : ℕ

-- devices.json: not there, or with a content that `load` refuses (an I/O error, a wrong owner or mode,
-- no JSON of this shape), or a state.
pub data File : Type 0 where
  absent unreadable : File
  holds : LocalRegistry → File

-- How `atomic_write_json` ends: all done, failed before the rename, failed after it.
pub data Commit : Type 0 where
  durable not_renamed unconfirmed : Commit

-- Why a lifecycle operation failed (`anyhow::Error`, without its text).
pub data Fault : Type 0 where
  cannot_load cannot_write refused epoch_exhausted : Fault

abbrev no_devices : LocalRegistry
no_devices = record {
  registry = record { version = version_v1; devices = [] };
  revocation_epoch = 0;
}

abbrev pub devices_of : LocalRegistry → List DevicePublicRecord
devices_of s = s.registry.devices

abbrev pub with_devices : LocalRegistry → List DevicePublicRecord → LocalRegistry
with_devices s ds = record s { registry = record { version = s.registry.version; devices = ds } }

unfoldable pub same_credential : DevicePublicRecord → DevicePublicRecord → Bool
same_credential a b =
    a.version == b.version
    && kind_eq a.kind b.kind
    && a.fingerprint == b.fingerprint
    && a.credential_id == b.credential_id
    && a.credential_public_key == b.credential_public_key
    && a.box_public_key == b.box_public_key

unfoldable pub same_identity : DevicePublicRecord → DevicePublicRecord → Bool
unfolding same_credential
same_identity a b = same_credential a b && a.api_token_hash == b.api_token_hash

abbrev bool_eq : Bool → Bool → Bool
bool_eq true b = b
bool_eq false b = not b

-- the derived `==` of `DevicePublicRecordV1`
unfoldable pub device_eq : DevicePublicRecord → DevicePublicRecord → Bool
unfolding same_identity
device_eq a b =
    same_identity a b
    && a.label == b.label
    && a.sign_count == b.sign_count
    && bool_eq a.active b.active

abbrev written : File × Bool → File × Result Fault (Unit {0})
written (file, true) = (file, ok tt)
written (file, false) = (file, err cannot_write)

abbrev conflicts : DevicePublicRecord → DevicePublicRecord → Bool
conflicts device stored =
    stored.credential_id == device.credential_id && not (stored.fingerprint == device.fingerprint)

abbrev pub has_fingerprint : String → DevicePublicRecord → Bool
has_fingerprint f stored = stored.fingerprint == f

-- the record that `pin` pushes, or nothing while a revocation of it is pending
unfoldable pub merge_stored :
    DevicePublicRecord → Option DevicePublicRecord → Option DevicePublicRecord
merge_stored device none = some device
merge_stored device (some stored) =
    if not stored.active
    then none
    else if same_credential stored device
    then some (record device { sign_count = max device.sign_count stored.sign_count })
    else some device

-- `GateError`: a fault of the host, or a denial (its three reasons).
pub data GateError : Type 0 where
  host : Fault → GateError
  predates_revocation revoked_or_replaced expired : GateError

abbrev pub is_authorized : DevicePublicRecord → DevicePublicRecord → Bool
is_authorized device stored = stored.active && same_identity stored device

-- `iter_mut().find(test)` and the assignment of `sign_count` through it
unfoldable pub set_sign_count :
    (DevicePublicRecord → Bool) → ℕ → List DevicePublicRecord → List DevicePublicRecord
set_sign_count test n [] = []
set_sign_count test n (d ∷ ds) =
    if test d then record d { sign_count = n } ∷ ds else d ∷ set_sign_count test n ds

module _ (x : External) where
  -- `Transaction::load`
  unfoldable pub load : File → Result Fault LocalRegistry
  load absent = ok no_devices
  load unreadable = err cannot_load
  load (holds s) = elim (validate_registry x s.registry) [ ok u ↦ ok s | err e ↦ err cannot_load ]

  -- `Transaction::write`: the file afterwards, and whether the writer sees success.
  unfoldable pub write : Commit → LocalRegistry → File → File × Bool
  write commit s file = elim (validate_registry x s.registry) [
    | err e ↦ (file, false)
    | ok u ↦ elim commit [
      | durable ↦ (holds s, true)
      | not_renamed ↦ (file, false)
      | unconfirmed ↦ (holds s, false)
    ]
  ]

  pin_device : Commit → DevicePublicRecord → LocalRegistry → File → File × Result Fault (Unit {0})
  unfolding merge_stored write
  pin_device commit device s file =
      if any (conflicts device) (devices_of s)
      then (file, err refused)
      else elim (merge_stored device (find (has_fingerprint device.fingerprint) (devices_of s))) [
        | none ↦ (file, err refused)
        | some merged ↦
            let others = retain (λ d. not (has_fingerprint merged.fingerprint d)) (devices_of s) in
            written (write commit (with_devices s (others ++ merged ∷ [])) file)
      ]

  unfoldable pub pin : Commit → DevicePublicRecord → File → File × Result Fault (Unit {0})
  unfolding pin_device load
  pin commit device file = elim (validate_device x device) [
    | err e ↦ (file, err refused)
    | ok u ↦
        if not device.active
        then (file, err refused)
        else elim (load file) [ err e ↦ (file, err e) | ok s ↦ pin_device commit device s file ]
  ]

  -- The counter's update, with the error of the write forgiven under `warning_only`.
  record_count :
      Commit
      → (warning_only : Bool) → DevicePublicRecord
      → (observed : ℕ) → DevicePublicRecord
      → LocalRegistry
      → File
      → File × Result GateError (Unit {0})
  unfolding write set_sign_count
  record_count commit warning_only device observed stored s file =
      if ltb stored.sign_count observed
      then (let (file', success) =
            write commit
              (with_devices s (set_sign_count (is_authorized device) observed (devices_of s)))
              file in
          (file', if success || warning_only then ok tt else err (host cannot_write)))
      else (file, ok tt)

  -- `authorize_in`. The warning about a regressed counter is a log line and no more.
  unfoldable pub authorize :
      Commit
      → DevicePublicRecord
      → (epoch : ℕ) → (expires_at : ℤ) → (observed : Option ℕ) → (warning_only : Bool) → (clock : ℤ)
      → File
      → File × Result GateError (Unit {0})
  unfolding record_count load
  authorize commit device epoch expires_at observed warning_only clock file = elim (load file) [
    | err e ↦ (file, err (host e))
    | ok s ↦
        if not (epoch == s.revocation_epoch)
        then (file, err predates_revocation)
        else elim (find (is_authorized device) (devices_of s)) [
          | none ↦ (file, err revoked_or_replaced)
          | some stored ↦ if lebℤ expires_at clock then (file, err expired) else elim observed [
            | none ↦ (file, ok tt)
            | some count ↦ record_count commit warning_only device count stored s file
          ]
        ]
  ]

-- What phase one of `revoke_with` hands to phase three: the tombstone and the epoch, if the device was
-- there.
abbrev pub Pending : Type 0
Pending = Option (DevicePublicRecord × ℕ)

abbrev pub deactivated : DevicePublicRecord → DevicePublicRecord
deactivated d = record d { active = false }

-- `iter_mut().find(test)` and `device.active = false` through it
unfoldable pub deactivate :
    (DevicePublicRecord → Bool) → List DevicePublicRecord → List DevicePublicRecord
deactivate test [] = []
deactivate test (d ∷ ds) = if test d then deactivated d ∷ ds else d ∷ deactivate test ds

-- `revocation_epoch.checked_add(1)` on a `u64`, made only for a device that was active
unfoldable pub next_epoch : (was_active : Bool) → ℕ → Option ℕ
next_epoch false epoch = some epoch
next_epoch true epoch = if ltb epoch (2 ^ 64 - 1) then some (epoch + 1) else none

abbrev committed : Pending → File × Bool → File × Result Fault Pending
committed p (file, true) = (file, ok p)
committed p (file, false) = (file, err cannot_write)

module _ (x : External) where
  disable_device :
      Commit → String → DevicePublicRecord → LocalRegistry → File → File × Result Fault Pending
  unfolding next_epoch deactivate write
  disable_device commit fingerprint device s file =
      elim (next_epoch device.active s.revocation_epoch) [
        | none ↦ (file, err epoch_exhausted)
        | some epoch ↦
            let s' =
              record (with_devices s (deactivate (has_fingerprint fingerprint) (devices_of s))) {
                revocation_epoch = epoch;
              } in
            committed (some (deactivated device, epoch)) (write x commit s' file)
      ]

  -- Phase one of `revoke_with`: the device is made inactive, before the remote side is told.
  unfoldable pub disable : Commit → (fingerprint : String) → File → File × Result Fault Pending
  unfolding disable_device load
  disable commit fingerprint file =
      if not (valid_fingerprint x fingerprint) then (file, err refused) else elim (load x file) [
        | err e ↦ (file, err e)
        | ok s ↦ elim (find (has_fingerprint fingerprint) (devices_of s)) [
          | none ↦ (file, ok none)
          | some device ↦ disable_device commit fingerprint device s file
        ]
      ]

  cleanup_state : Commit → String → Pending → LocalRegistry → File → File × Result Fault (Unit {0})
  unfolding write device_eq
  cleanup_state commit fingerprint (some (device, epoch)) s file =
      if not (s.revocation_epoch == epoch)
        || not (any (λ stored. device_eq stored device && not stored.active) (devices_of s))
      then (file, err refused)
      else written (
          write x commit
            (with_devices s (retain (λ d. not (has_fingerprint fingerprint d)) (devices_of s)))
            file)
  cleanup_state commit fingerprint none s file =
      if any (has_fingerprint fingerprint) (devices_of s)
      then (file, err refused)
      else (file, elim commit [ durable ↦ ok tt | _ ↦ err cannot_write ])

  -- Phase three, after the remote side has confirmed: the tombstone is removed.
  unfoldable pub cleanup :
      Commit → (fingerprint : String) → Pending → File → File × Result Fault (Unit {0})
  unfolding cleanup_state load
  cleanup commit fingerprint pending file = elim (load x file) [
    | err e ↦ (file, err e)
    | ok s ↦ cleanup_state commit fingerprint pending s file
  ]
