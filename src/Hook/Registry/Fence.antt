-- ===== src/Hook/Registry/Fence.antt =====
-- Hook processes and revocations (hook/src/registry.rs, hook/src/main.rs) as interleaved steps.
-- `LifecycleGuard` is held from phase one of a revocation to its end, so a pin or another revocation
-- waits; authorizations take only the registry lock and run at any time.
use oshioki.Base.{ℕ, ◌+◌, ◌≤◌, ◌≡◌, ◌≢◌, Bool, true, Option, none, some, String, arith, find}
use oshioki.Base.Int.{ℤ}
use oshioki.Base.Result.{ok, err}
use oshioki.Protocol.External.{External}
use oshioki.Protocol.Device.{DevicePublicRecord}
use oshioki.Hook.Registry.{
  LocalRegistry, File, absent, unreadable, holds, Commit, Fault, Pending, devices_of,
  has_fingerprint, load, pin, authorize, disable, cleanup,
}

-- The epoch that the next `load` finds.
abbrev pub epoch_of : File → ℕ
epoch_of (holds s) = s.revocation_epoch
epoch_of _ = 0

pub record World : Type 0 where
  pub file : File
  -- the revocation that holds the lifecycle lock, if one does
  pub revoking : Option (String × Pending)

module _ (x : External) where
  pub data Step : World → World → Type 0 where
    authorizes :
        (w : World) (c : Commit) (device : DevicePublicRecord) (epoch : ℕ) (expires_at : ℤ)
        (observed : Option ℕ) (warning_only : Bool) (clock : ℤ)
        → Step w (record w {
          file = (authorize x c device epoch expires_at observed warning_only clock w.file).0;
        })
    pins :
        (w : World) (c : Commit) (device : DevicePublicRecord)
        → w.revoking ≡ none
        → Step w (record w { file = (pin x c device w.file).0 })
    begins :
        (w : World) (c : Commit) (fingerprint : String) (p : Pending)
        → w.revoking ≡ none
        → (disable x c fingerprint w.file).1 ≡ ok p
        → Step w
            (record { file = (disable x c fingerprint w.file).0; revoking = some (fingerprint, p) })
    fails_to_begin :
        (w : World) (c : Commit) (fingerprint : String) (e : Fault)
        → w.revoking ≡ none
        → (disable x c fingerprint w.file).1 ≡ err e
        → Step w (record w { file = (disable x c fingerprint w.file).0 })
    -- the remote side confirmed
    finishes :
        (w : World) (c : Commit) (fingerprint : String) (p : Pending)
        → w.revoking ≡ some (fingerprint, p)
        → Step w (record { file = (cleanup x c fingerprint p w.file).0; revoking = none })
    -- the remote side refused, or did not answer in time, or the process was killed
    gives_up : (w : World) → Step w (record w { revoking = none })

  pub data Reach (w : World) : World → Type 0 where
    here : Reach w w
    next : {u v : World} → Reach w u → Step u v → Reach w v

  -- No operation lowers the epoch, whatever happens to its write.
  authorize-epoch :
      (c : Commit) (d : DevicePublicRecord) (n : ℕ) (t : ℤ) (o : Option ℕ) (b : Bool) (now : ℤ)
      (f : File)
      → epoch_of f ≤ epoch_of (authorize x c d n t o b now f).0
  unfolding authorize
  authorize-epoch c d n t o b now absent = ground arith
  authorize-epoch c d n t o b now unreadable = ground arith
  authorize-epoch c d n t o b now (holds s) = ground arith

  pin-epoch :
      (c : Commit) (d : DevicePublicRecord) (f : File) → epoch_of f ≤ epoch_of (pin x c d f).0
  unfolding pin
  pin-epoch c d absent = ground arith
  pin-epoch c d unreadable = ground arith
  pin-epoch c d (holds s) = ground arith

  disable-epoch : (c : Commit) (k : String) (f : File) → epoch_of f ≤ epoch_of (disable x c k f).0
  unfolding disable
  disable-epoch c k absent = ground arith
  disable-epoch c k unreadable = ground arith
  disable-epoch c k (holds s) = ground arith

  cleanup-epoch :
      (c : Commit) (k : String) (p : Pending) (f : File)
      → epoch_of f ≤ epoch_of (cleanup x c k p f).0
  unfolding cleanup
  cleanup-epoch c k none absent = ground arith
  cleanup-epoch c k none unreadable = ground arith
  cleanup-epoch c k none (holds s) = ground arith
  cleanup-epoch c k (some (d, n)) absent = ground arith
  cleanup-epoch c k (some (d, n)) unreadable = ground arith
  cleanup-epoch c k (some (d, n)) (holds s) = ground arith

  Step-epoch : {w v : World} → Step w v → epoch_of w.file ≤ epoch_of v.file
  Step-epoch (authorizes w c d n t o b now) = authorize-epoch c d n t o b now w.file
  Step-epoch (pins w c d free) = pin-epoch c d w.file
  Step-epoch (begins w c k p free e) = disable-epoch c k w.file
  Step-epoch (fails_to_begin w c k e free h) = disable-epoch c k w.file
  Step-epoch (finishes w c k p held) = cleanup-epoch c k p w.file
  Step-epoch (gives_up w) = omega arith

  Reach-epoch : {w v : World} → Reach w v → epoch_of w.file ≤ epoch_of v.file
  Reach-epoch here = omega arith
  Reach-epoch (next r s) = omega (arith, Reach-epoch r, Step-epoch s)

  -- Phase one raises the epoch of a device that was active, if it returns without an error.
  disable-raises :
      (c : Commit) (k : String) (f : File) (p : Pending) (s : LocalRegistry)
      (d : DevicePublicRecord)
      → load x f ≡ ok s
      → find (has_fingerprint k) (devices_of s) ≡ some d
      → d.active ≡ true
      → (disable x c k f).1 ≡ ok p
      → epoch_of (disable x c k f).0 ≡ s.revocation_epoch + 1
  unfolding disable
  disable-raises c k f p s d hl hf ha h = ground arith

  authorize-epoch_eq :
      (c : Commit) (d : DevicePublicRecord) (n : ℕ) (t : ℤ) (o : Option ℕ) (b : Bool) (now : ℤ)
      (f : File)
      → (authorize x c d n t o b now f).1 ≡ ok tt
      → n ≡ epoch_of f
  unfolding authorize
  authorize-epoch_eq c d n t o b now absent h = ground arith
  authorize-epoch_eq c d n t o b now unreadable h = ground arith
  authorize-epoch_eq c d n t o b now (holds s) h = ground arith

  -- Once phase one of a revocation has returned without an error for a device that was active, no
  -- authorization under a snapshot taken before it ever succeeds: for any device record, also one
  -- that was removed and pinned again with the same keys, and in every state that interleaved
  -- authorizations, pins, revocations and failing writes can reach.
  pub revocation_fences :
      (w v : World) (c c' : Commit) (k : String) (p : Pending) (s : LocalRegistry)
      (revoked device : DevicePublicRecord) (epoch : ℕ) (expires_at : ℤ) (observed : Option ℕ)
      (warning_only : Bool) (clock : ℤ)
      → load x w.file ≡ ok s
      → find (has_fingerprint k) (devices_of s) ≡ some revoked
      → revoked.active ≡ true
      → (disable x c k w.file).1 ≡ ok p
      → epoch ≤ s.revocation_epoch
      → Reach (record { file = (disable x c k w.file).0; revoking = some (k, p) }) v
      → (authorize x c' device epoch expires_at observed warning_only clock v.file).1 ≢ ok tt
  revocation_fences w v c c' k p s revoked device epoch t o b now hl hf ha hd old r granted =
      omega (
        arith,
        disable-raises c k w.file p s revoked hl hf ha hd,
        Reach-epoch r,
        authorize-epoch_eq c' device epoch t o b now v.file granted,
      )
