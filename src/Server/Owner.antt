-- ===== src/Server/Owner.antt =====
-- Which device owns a request (`let owns` in the decisions of server/src/db.rs): the join of its sealed
-- bodies with the devices, written out.
use oshioki.Base.{
  ◌≡◌, ◌↔◌, ap, sym, ◌∙◌, refl, inl, inr, Bool, true, ◌&&◌, List, [], ◌∷◌, String, arith, any,
  eq_iff, text_has_eq, Bool-cases,
}
use mathlib.Core.List.{Memᴰ}
use mathlib.Core.List.Memᴰ.{head, tail}
use oshioki.Server.Tables.{Lane, BodyRow, DeviceRow, Db, has_body, has_device}
use oshioki.Server.Decide.{owns}

module _ {A : Type 0} (test : A → Bool) where
  any-Mem : (rows : List A) → any test rows ≡ true → (a : A) × Memᴰ a rows × (test a ≡ true)
  any-Mem [] h = absurd (cc)
  any-Mem (r ∷ rows) h = elim (Bool-cases (test r)) [
    | inl t ↦ (r, head refl, t)
    | inr f ↦ let (a, m, t) = any-Mem rows (ground (arith, f, h)) in (a, tail m, t)
  ]

  Mem-any : (rows : List A) (a : A) → Memᴰ a rows → test a ≡ true → any test rows ≡ true
  Mem-any [] a m t = elim m [ ]
  Mem-any (r ∷ rows) a (head e) t =
      let t' : test r ≡ true = sym (ap test e) ∙ t in ground (arith, t')
  Mem-any (r ∷ rows) a (tail m) t = ground (arith, Mem-any rows a m t)

-- A sealed body of the request is for the device, which is stored, active and eligible.
pub record IsOwner (Eligible : DeviceRow → Type 0) (lane : Lane) (id fingerprint : String) (db : Db)
    : Type 0 where
  pub body : BodyRow
  pub sealed : Memᴰ body (db.lanes lane).sealed_bodies
  pub for_request : body.request_id ≡ id
  pub for_device : body.fingerprint ≡ fingerprint
  pub device : DeviceRow
  pub stored : Memᴰ device db.devices
  pub named : device.fingerprint ≡ fingerprint
  pub enabled : device.active ≡ true
  pub eligible : Eligible device

pub owns-IsOwner :
    (test : DeviceRow → Bool) (Eligible : DeviceRow → Type 0)
    → ((d : DeviceRow) → (test d ≡ true) ↔ Eligible d)
    → (lane : Lane) (id fingerprint : String) (db : Db)
    → (owns test lane id fingerprint db ≡ true) ↔ IsOwner Eligible lane id fingerprint db
unfolding owns
owns-IsOwner test Eligible meaning lane id fingerprint db =
    let bodies = (db.lanes lane).sealed_bodies in
    let serves = λ (d : DeviceRow). has_device fingerprint d && d.active && test d in
    (
      (λ h.
          let (body, sealed, b) = any-Mem (has_body id fingerprint) bodies (ground (arith, h)) in
          let (device, stored, d) = any-Mem serves db.devices (ground (arith, h)) in
          record {
            body = body;
            sealed = sealed;
            for_request = (eq_iff body.request_id id).0 (ground (arith, b));
            for_device = (eq_iff body.fingerprint fingerprint).0 (ground (arith, b));
            device = device;
            stored = stored;
            named = (eq_iff device.fingerprint fingerprint).0 (ground (arith, d));
            enabled = ground (arith, d);
            eligible = (meaning device).0 (ground (arith, d));
          }),
      (λ o.
          let b : has_body id fingerprint o.body ≡ true = ground (
            arith,
            (eq_iff o.body.request_id id).1 o.for_request,
            (eq_iff o.body.fingerprint fingerprint).1 o.for_device,
          ) in
          let d : serves o.device ≡ true = ground (
            arith,
            (eq_iff o.device.fingerprint fingerprint).1 o.named,
            o.enabled,
            (meaning o.device).1 o.eligible,
          ) in
          ground (
            arith,
            Mem-any (has_body id fingerprint) bodies o.body o.sealed b,
            Mem-any serves db.devices o.device o.stored d,
          )),
    )
