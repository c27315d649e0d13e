-- ===== src/Server/Credentials.antt =====
-- The credentials in the devices table of server/src/db.rs, through the calls of the store.
use oshioki.Base.{◌≡◌, refl, ◌∙◌, some, List, String, find}
use oshioki.Protocol.External.{External}
use oshioki.Server.Tables.{DeviceRow, Db, Codec, has_device}
use oshioki.Server.Outbox.{expire_stale_deliveries, cleanup_tables}
use oshioki.Server.Calls.{Call, run, runs, runs-keeps}
use oshioki.Server.Effects.{
  IsSameCredential, KeepsCredentials, Effect, quiet, arrives, decides, sweeps, enrolls,
}
use oshioki.Server.Effects.Run.{run-Effect}
use oshioki.Server.Decide.{resolve_request}

same-Keeps : (rows rows' : List DeviceRow) → rows' ≡ rows → KeepsCredentials rows rows'
same-Keeps rows rows' same fingerprint d found = (d, rw same found, (refl, refl))

module _ (x : External) where
  Effect-Keeps :
      (before after : Db) → Effect x before after → KeepsCredentials before.devices after.devices
  unfolding resolve_request cleanup_tables expire_stale_deliveries
  Effect-Keeps before after (quiet _ q) = same-Keeps _ _ q.devices
  Effect-Keeps before after (arrives _ lane row fresh starts q) = same-Keeps _ _ q.devices
  Effect-Keeps before _ (decides lane id subject raw clock row found starts fresh) =
      same-Keeps _ _ refl
  Effect-Keeps before _ (sweeps now) = same-Keeps _ _ refl
  Effect-Keeps before after (enrolls _ same outbox devices) = devices

  module _ (c : Codec) where
    -- Whatever calls follow, activations, revocations and cleanups among them, a device that is stored
    -- under a fingerprint stays stored under it, with the same credential id and API token hash.
    pub credentials_are_pinned :
        (calls : List Call) (db : Db) (fingerprint : String) (d : DeviceRow)
        → find (has_device fingerprint) db.devices ≡ some d
        → (d' : DeviceRow) × (find (has_device fingerprint) (runs x c calls db).devices ≡ some d')
          × IsSameCredential d' d
    credentials_are_pinned calls db fingerprint d found =
        runs-keeps x c
          (λ later.
            (d' : DeviceRow) × (find (has_device fingerprint) later.devices ≡ some d')
            × IsSameCredential d' d)
          (λ call before (e, stored, same).
            let (e', stored', same') =
              Effect-Keeps before (run x c call before) (run-Effect x c call before) fingerprint e
                stored in
            (e', stored', (same'.0 ∙ same.0, same'.1 ∙ same.1)))
          calls db (d, found, (refl, refl))
