-- ===== src/Protocol/Auth/Envelope.antt =====
-- protocol/src/auth_v1.rs: the envelope of a sudo authentication, and how a device opens it.
use oshioki.Base.{
  ℕ, Bool, not, ◌||◌, Option, none, some, List, [], ◌∷◌, String, len, length, any, find, ltb, ◌==◌,
  nat_has_eq, text_has_eq, has_control,
}
use oshioki.Base.Int.{ℤ, lebℤ}
use oshioki.Protocol.Cbor.{int_eq}
use oshioki.Base.Result.{Result, ok, refuse, is_err, ok_or, ◌>>=◌, ◌>>◌}
use oshioki.Protocol.Error.{Error, invalid_request}
use oshioki.Protocol.External.{Bytes, External}
use oshioki.Protocol.Encoding.{decode_base64url, decode_exact, valid_fingerprint, valid_id}
use oshioki.Protocol.Device.{max_devices}
use oshioki.Protocol.Request.{SealedDeviceBody, max_envelope_bytes}
use oshioki.Protocol.Seal.{unseal}
use oshioki.Protocol.Timing.{validate_request_timing}
use oshioki.Protocol.Auth.{
  AuthRequest, auth_wire_version, auth_envelope_type, parse_auth_request_at,
}

pub record OpenedAuthRequest : Type 0 where
  pub request : AuthRequest
  pub raw : Bytes

pub record AuthEnvelope : Type 0 where
  pub message_type : String
  pub version : ℕ
  pub request_id : String
  pub host : String
  pub issued_at : ℤ
  pub expires_at : ℤ
  pub sealed : List SealedDeviceBody

module _ (x : External) where
  -- The loop over the sealed bodies, with the set of fingerprints as a list.
  unfoldable pub validate_auth_sealed :
      (fingerprints : List String) → List SealedDeviceBody → Result Error (Unit {0})
  validate_auth_sealed fingerprints [] = ok tt
  validate_auth_sealed fingerprints (body ∷ bodies) = do
    refuse
        (not (valid_fingerprint x body.device_fingerprint)
          || any (λ f. f == body.device_fingerprint) fingerprints
          || is_err (decode_exact x body.ephemeral_pub 32)
          || is_err (decode_exact x body.nonce 12))
        invalid_request
    ciphertext ← decode_base64url x body.ciphertext
    refuse (ltb (length ciphertext) 16) invalid_request
    validate_auth_sealed (body.device_fingerprint ∷ fingerprints) bodies

  -- The request inside names the same id, host and times as the envelope around it.
  abbrev pub matches : AuthEnvelope → AuthRequest → Bool
  matches e r = not (
      not (r.request_id == e.request_id)
      || not (r.trusted.host == e.host)
      || not (int_eq r.issued_at e.issued_at)
      || not (int_eq r.expires_at e.expires_at))

  module _ (to_vec : AuthEnvelope → Option Bytes) (from_slice : Bytes → Option AuthRequest) where
    unfoldable pub validate_auth_envelope : AuthEnvelope → Result Error (Unit {0})
    validate_auth_envelope e = do
      refuse
          (not (e.message_type == auth_envelope_type)
            || not (e.version == auth_wire_version)
            || not (valid_id e.request_id)
            || e.host == ""
            || ltb 255 (len e.host)
            || has_control e.host
            || length e.sealed == 0
            || ltb max_devices (length e.sealed)
            || lebℤ e.expires_at e.issued_at)
          invalid_request
      validate_auth_sealed [] e.sealed
      bytes ← ok_or (to_vec e) invalid_request
      refuse (ltb max_envelope_bytes (length bytes)) invalid_request

    unfoldable pub validate_auth_envelope_at : AuthEnvelope → (now : ℤ) → Result Error (Unit {0})
    validate_auth_envelope_at e now = do
      validate_auth_envelope e
      validate_request_timing e.issued_at e.expires_at now

    -- What `open_for_device` does with the body that is addressed to the device.
    unfoldable pub open_sealed :
        AuthEnvelope
        → SealedDeviceBody
        → (box_secret : Bytes) → (now : ℤ) → Result Error OpenedAuthRequest
    open_sealed e sealed box_secret now = do
      raw ← unseal x sealed box_secret
      request ← parse_auth_request_at x from_slice raw now
      refuse (not (matches e request)) invalid_request
      ok (record { request = request; raw = raw })

    unfoldable pub open_for_device :
        AuthEnvelope
        → (device_fingerprint : String) → (box_secret : Bytes) → (now : ℤ)
        → Result Error (Option OpenedAuthRequest)
    open_for_device e device_fingerprint box_secret now = do
      validate_auth_envelope_at e now
      elim (find (λ (body : SealedDeviceBody). body.device_fingerprint == device_fingerprint)
          e.sealed) [
            | none ↦ ok none
            | some sealed ↦ do opened ← open_sealed e sealed box_secret now; ok (some opened)
          ]
