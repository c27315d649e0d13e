-- ===== src/Protocol/Device.antt =====
-- protocol/src/v1.rs: the pinned device record, the registry of devices, and the hook's
-- configuration, with their validation; protocol/src/native_v1.rs, `native_credential_id`.
pub mod Binding
pub mod RegistryLaws
use oshioki.Base.{
  ℕ, zero, suc, ◌+◌, ◌≡◌, ◌↔◌, refl, Bool, true, false, not, ◌&&◌, ◌||◌, Option, none, some, List,
  [], ◌∷◌, ◌++◌, String, len, arith, length, take, any, all, ltb, ◌==◌, nat_has_eq, text_has_eq,
  chars, bytes, contains_char, u64_to_be_bytes, if◌then◌else◌,
}
use oshioki.Base.Result.{Result, ok, err, refuse, is_err, ok_or, ◌>>=◌, ◌>>◌}
use oshioki.Protocol.Error.{Error, invalid_request}
use oshioki.Protocol.Cbor.{bytes_eq}
use oshioki.Protocol.External.{Bytes, External}
use oshioki.Protocol.Encoding.{
  encode_base64url, decode_base64url, decode_exact, valid_fingerprint, valid_id,
}
use oshioki.Protocol.Cose.{cose_p256_verifying_key, sec1_p256_verifying_key}
use package.text.Mathlib.Text.{starts_with}

abbrev pub version_v1 : ℕ
version_v1 = 1

abbrev pub max_devices : ℕ
max_devices = 8

pub data DeviceKind : Type 0 where
  webauthn software secure_enclave : DeviceKind

abbrev pub as_str : DeviceKind → String
as_str webauthn = "webauthn"
as_str software = "software"
as_str secure_enclave = "secure-enclave"

abbrev pub kind_eq : DeviceKind → DeviceKind → Bool
kind_eq webauthn webauthn = true
kind_eq software software = true
kind_eq secure_enclave secure_enclave = true
kind_eq _ _ = false

-- `version` and `sign_count` are a `u8` and a `u32` in the source; nothing here computes with them.
pub record DevicePublicRecord : Type 0 where
  pub version : ℕ
  pub kind : DeviceKind
  pub fingerprint : String
  pub credential_id : String
  pub credential_public_key : String
  pub box_public_key : String
  pub label : String
  pub api_token_hash : String
  pub sign_count : ℕ
  pub active : Bool

pub record DeviceRegistry : Type 0 where
  pub version : ℕ
  pub devices : List DevicePublicRecord

pub record HookConfig : Type 0 where
  pub version : ℕ
  pub origin : String
  pub rp_id : String
  pub server_base_url : String

-- `str::ends_with` of one character
abbrev ends_with_char : ℕ → List ℕ → Bool
ends_with_char c [] = false
ends_with_char c (a ∷ []) = a == c
ends_with_char c (a ∷ b ∷ s) = ends_with_char c (b ∷ s)

unfoldable pub validate_config : HookConfig → Result Error (Unit {0})
validate_config c =
    refuse
      (not (c.version == version_v1)
        || not (starts_with c.origin "https://")
        || ends_with_char b'/' (chars c.origin)
        || c.rp_id == ""
        || contains_char b'/' c.rp_id
        || not (c.server_base_url == c.origin))
      invalid_request

-- "oshioki/fingerprint/v1\0"
abbrev pub fingerprint_domain : Bytes
fingerprint_domain = bytes "oshioki/fingerprint/v1" ++ 0 ∷ []

-- What `device_fingerprint` feeds to the hash.
unfoldable pub fingerprint_preimage :
    (credential_id credential_public_key box_public_key : Bytes) → Bytes
fingerprint_preimage credential_id credential_public_key box_public_key =
    fingerprint_domain
    ++ (u64_to_be_bytes (length credential_id)
        ++ (credential_id
            ++ (u64_to_be_bytes (length credential_public_key)
                ++ (credential_public_key ++ box_public_key))))

module _ (x : External) where
  open x use {sha256}

  unfoldable pub native_credential_id : Bytes → Bytes
  native_credential_id sec1 = sha256 sec1

  unfoldable pub device_fingerprint :
      (credential_id credential_public_key box_public_key : Bytes) → String
  device_fingerprint credential_id credential_public_key box_public_key =
      encode_base64url x
        (take 16 (sha256 (fingerprint_preimage credential_id credential_public_key box_public_key)))

  -- The `match self.kind` of `DevicePublicRecordV1::validate`.
  unfoldable pub validate_key : DevicePublicRecord → Bytes → Result Error (Unit {0})
  validate_key d public_key = elim d.kind [
    | webauthn ↦ do key ← cose_p256_verifying_key x public_key; ok tt
    | _ ↦ do
      key ← sec1_p256_verifying_key x public_key
      credential ← decode_base64url x d.credential_id
      refuse
          (not (bytes_eq credential (native_credential_id public_key)) || not (d.sign_count == 0))
          invalid_request
  ]

  unfoldable pub validate_device : DevicePublicRecord → Result Error (Unit {0})
  validate_device d = do
    refuse (not (d.version == version_v1) || not (valid_fingerprint x d.fingerprint))
        invalid_request
    id ← decode_base64url x d.credential_id
    refuse (length id == 0) invalid_request
    key ← decode_base64url x d.credential_public_key
    refuse (length key == 0) invalid_request
    refuse
        (is_err (decode_exact x d.box_public_key 32)
          || is_err (decode_exact x d.api_token_hash 32)
          || d.label == ""
          || ltb 128 (len d.label))
        invalid_request
    public_key ← decode_base64url x d.credential_public_key
    validate_key d public_key
    credential_id ← decode_base64url x d.credential_id
    credential_public_key ← decode_base64url x d.credential_public_key
    box_public_key ← decode_exact x d.box_public_key 32
    let expected = device_fingerprint credential_id credential_public_key box_public_key
    refuse (not (d.fingerprint == expected)) invalid_request

  -- The loop of `DeviceRegistryV1::validate`, with the two sets as lists.
  unfoldable pub validate_devices :
      (seen credentials : List String) → List DevicePublicRecord → Result Error (Unit {0})
  validate_devices seen credentials [] = ok tt
  validate_devices seen credentials (d ∷ ds) = do
    validate_device d
    refuse (any (λ s. s == d.fingerprint) seen) invalid_request
    refuse (any (λ s. s == d.credential_id) credentials) invalid_request
    validate_devices (d.fingerprint ∷ seen) (d.credential_id ∷ credentials) ds

  unfoldable pub validate_registry : DeviceRegistry → Result Error (Unit {0})
  unfolding validate_devices
  validate_registry r = do
    refuse (not (r.version == version_v1) || ltb max_devices (length r.devices)) invalid_request
    validate_devices [] [] r.devices
