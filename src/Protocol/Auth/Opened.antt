-- ===== src/Protocol/Auth/Opened.antt =====
-- What a device has in hand once an authentication envelope has opened.
use oshioki.Base.{
  inl, inr, ◌≡◌, ◌↔◌, ap, refl, true, Option, some, String, arith, find, sym, ◌∙◌, ◌==◌,
  text_has_eq, eq_iff, Option-cases,
}
use oshioki.Base.Int.{ℤ, pos, negsuc}
use oshioki.Base.Result.{ok, Result-cases}
use oshioki.Protocol.Cbor.{int_eq}
use oshioki.Protocol.External.{Bytes, External}
use oshioki.Protocol.Request.{SealedDeviceBody}
use oshioki.Protocol.Seal.{unseal}
use oshioki.Protocol.Auth.{AuthRequest, parse_auth_request_at}
use oshioki.Protocol.Auth.Envelope.{
  AuthEnvelope, OpenedAuthRequest, matches, validate_auth_envelope_at, open_sealed, open_for_device,
}

int_eq_iff : (a b : ℤ) → (int_eq a b ≡ true) ↔ (a ≡ b)
int_eq_iff (pos a) (pos b) = ground arith
int_eq_iff (negsuc a) (negsuc b) = ground arith
int_eq_iff a b = ground arith

pub record IsMatch (e : AuthEnvelope) (r : AuthRequest) : Type 0 where
  pub request_id : r.request_id ≡ e.request_id
  pub host : r.trusted.host ≡ e.host
  pub issued_at : r.issued_at ≡ e.issued_at
  pub expires_at : r.expires_at ≡ e.expires_at

matches_sound :
    (x : External) (e : AuthEnvelope) (r : AuthRequest) → matches x e r ≡ true → IsMatch e r
matches_sound x e r h = record {
  request_id = ground (arith, eq_iff r.request_id e.request_id);
  host = ground (arith, eq_iff r.trusted.host e.host);
  issued_at = (int_eq_iff r.issued_at e.issued_at).0 (ground arith);
  expires_at = (int_eq_iff r.expires_at e.expires_at).0 (ground arith);
}

matches_complete :
    (x : External) (e : AuthEnvelope) (r : AuthRequest) → IsMatch e r → matches x e r ≡ true
matches_complete x e r h =
    let issued = (int_eq_iff r.issued_at e.issued_at).1 h.issued_at in
    let expires = (int_eq_iff r.expires_at e.expires_at).1 h.expires_at in
    ground (
      arith,
      issued,
      expires,
      h.request_id,
      h.host,
      eq_iff r.request_id e.request_id,
      eq_iff r.trusted.host e.host,
    )

abbrev pub addressed : AuthEnvelope → String → Option SealedDeviceBody
addressed e fingerprint =
    find (λ (body : SealedDeviceBody). body.device_fingerprint == fingerprint) e.sealed

module _ (x : External) (to_vec : AuthEnvelope → Option Bytes)
    (from_slice : Bytes → Option AuthRequest) where
  pub record IsOpened (e : AuthEnvelope) (fingerprint : String) (box_secret : Bytes) (now : ℤ)
      (opened : OpenedAuthRequest) : Type 0 where
    pub valid : validate_auth_envelope_at x to_vec from_slice e now ≡ ok tt
    pub body : SealedDeviceBody
    pub to_device : addressed e fingerprint ≡ some body
    pub decrypted : unseal x body box_secret ≡ ok opened.raw
    pub parsed : parse_auth_request_at x from_slice opened.raw now ≡ ok opened.request
    pub agrees : IsMatch e opened.request

  sealed_sound :
      (e : AuthEnvelope) (fingerprint : String) (box_secret : Bytes) (now : ℤ)
      (opened : OpenedAuthRequest) (body : SealedDeviceBody)
      → validate_auth_envelope_at x to_vec from_slice e now ≡ ok tt
      → addressed e fingerprint ≡ some body
      → open_sealed x to_vec from_slice e body box_secret now ≡ ok opened
      → IsOpened e fingerprint box_secret now opened
  unfolding open_sealed
  sealed_sound e fingerprint box_secret now opened body v f h =
      elim (Result-cases (unseal x body box_secret)) [
        | inr (err, u) ↦ absurd (ground (arith, u))
        | inl (raw, u) ↦ elim (Result-cases (parse_auth_request_at x from_slice raw now)) [
          | inr (err, p) ↦ absurd (ground (arith, u, p))
          | inl (request, p) ↦
              let same : matches x e request ≡ true = ground (arith, u, p) in
              let is : record { request = request; raw = raw } ≡ opened =
                ground (arith, u, p, same) in
              record {
                valid = v;
                body = body;
                to_device = f;
                decrypted = cc (u, ap (λ (o : OpenedAuthRequest). o.raw) is);
                parsed = cc (
                  p,
                  ap (λ (o : OpenedAuthRequest). o.raw) is,
                  ap (λ (o : OpenedAuthRequest). o.request) is,
                );
                agrees =
                    rw (sym (ap (λ (o : OpenedAuthRequest). o.request) is))
                      (matches_sound x e request same);
              }
        ]
      ]

  open_sound :
      (e : AuthEnvelope) (fingerprint : String) (box_secret : Bytes) (now : ℤ)
      (opened : OpenedAuthRequest)
      → open_for_device x to_vec from_slice e fingerprint box_secret now ≡ ok (some opened)
      → IsOpened e fingerprint box_secret now opened
  unfolding open_for_device
  open_sound e fingerprint box_secret now opened h =
      elim (Result-cases (validate_auth_envelope_at x to_vec from_slice e now)) [
        | inr (err, v) ↦ absurd (ground (arith, v))
        | inl (u, v) ↦ elim (Option-cases (addressed e fingerprint)) [
          | inl f ↦ absurd (ground (arith, v, f))
          | inr (body, f) ↦
              elim (Result-cases (open_sealed x to_vec from_slice e body box_secret now)) [
                | inr (err, o) ↦ absurd (ground (arith, v, f, o))
                | inl (o', o) ↦
                    let same : o' ≡ opened = ground (arith, v, f, o) in
                    sealed_sound e fingerprint box_secret now opened body v f (o ∙ ap ok same)
              ]
        ]
      ]

  open_complete :
      (e : AuthEnvelope) (fingerprint : String) (box_secret : Bytes) (now : ℤ)
      (opened : OpenedAuthRequest)
      → IsOpened e fingerprint box_secret now opened
      → open_for_device x to_vec from_slice e fingerprint box_secret now ≡ ok (some opened)
  unfolding open_for_device open_sealed
  open_complete e fingerprint box_secret now opened h =
      let same = matches_complete x e opened.request h.agrees in
      rw (h.valid, h.to_device, h.decrypted, h.parsed, same) refl

  -- A device gets a request out of an envelope exactly when the envelope is valid and timely, the first
  -- body addressed to its fingerprint decrypts with its secret to the bytes it is handed, these parse
  -- to a valid and timely request, and that request repeats the envelope's id, host and times.
  pub open_for_device_iff :
      (e : AuthEnvelope) (fingerprint : String) (box_secret : Bytes) (now : ℤ)
      (opened : OpenedAuthRequest)
      → (open_for_device x to_vec from_slice e fingerprint box_secret now ≡ ok (some opened))
        ↔ IsOpened e fingerprint box_secret now opened
  open_for_device_iff e fingerprint box_secret now opened = (
    open_sound e fingerprint box_secret now opened,
    open_complete e fingerprint box_secret now opened,
  )
