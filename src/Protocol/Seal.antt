-- ===== src/Protocol/Seal.antt =====
-- protocol/src/v1.rs: `seal_v1` encrypts a request to the box key of a device, `unseal_v1` opens it.
-- The random secret and nonce of `seal_v1` are arguments.
pub mod RoundTrip
use oshioki.Base.{ℕ, Bool, List, String, length, all, ltb, ◌==◌, nat_has_eq}
use oshioki.Base.Result.{Result, ok, refuse, ok_or, ◌>>=◌, ◌>>◌}
use oshioki.Protocol.Error.{Error, decode, invalid_request}
use oshioki.Protocol.External.{Bytes, External}
use oshioki.Protocol.Encoding.{encode_base64url, decode_base64url, decode_exact}
use oshioki.Protocol.Device.{DevicePublicRecord, validate_device}
use oshioki.Protocol.Request.{SealedDeviceBody, max_request_bytes}

abbrev pub all_zero : Bytes → Bool
all_zero = all (λ b. b == 0)

module _ (x : External) where
  open x use {x25519_public, diffie_hellman, encrypt, decrypt}

  unfoldable pub seal_with_material :
      Bytes → DevicePublicRecord → (secret nonce : Bytes) → Result Error SealedDeviceBody
  seal_with_material raw_request_json device secret nonce = do
    peer ← decode_exact x device.box_public_key 32
    let shared = diffie_hellman secret peer
    refuse (all_zero shared) invalid_request
    ciphertext ← ok_or (encrypt shared nonce raw_request_json) invalid_request
    ok (record {
      device_fingerprint = device.fingerprint;
      ephemeral_pub = encode_base64url x (x25519_public secret);
      nonce = encode_base64url x nonce;
      ciphertext = encode_base64url x ciphertext;
    })

  unfoldable pub seal :
      Bytes → DevicePublicRecord → (secret nonce : Bytes) → Result Error SealedDeviceBody
  seal raw_request_json device secret nonce = do
    refuse (ltb max_request_bytes (length raw_request_json)) invalid_request
    validate_device x device
    seal_with_material raw_request_json device secret nonce

  unfoldable pub unseal : SealedDeviceBody → (box_secret : Bytes) → Result Error Bytes
  unseal sealed box_secret = do
    ephemeral ← decode_exact x sealed.ephemeral_pub 32
    nonce ← decode_exact x sealed.nonce 12
    ciphertext ← decode_base64url x sealed.ciphertext
    let shared = diffie_hellman box_secret ephemeral
    refuse (all_zero shared) invalid_request
    raw ← ok_or (decrypt shared nonce ciphertext) decode
    refuse (ltb max_request_bytes (length raw)) invalid_request
    ok raw
