-- ===== src/Protocol/Seal/RoundTrip.antt =====
-- `seal_v1` and `unseal_v1` of protocol/src/v1.rs, one after the other.
use oshioki.Base.{
  inl, inr, ◌≤◌, ◌≡◌, refl, false, some, arith, length, nat_has_eq, Option-cases, ap, sym, ◌∙◌,
}
use oshioki.Base.Result.{ok, Result-cases}
use oshioki.Protocol.External.{Bytes, IsBytes, External, Documented}
use oshioki.Protocol.Encoding.{encode_base64url, decode_base64url, decode_exact}
use oshioki.Protocol.Device.{DevicePublicRecord, validate_device}
use oshioki.Protocol.Request.{SealedDeviceBody, max_request_bytes}
use oshioki.Protocol.Seal.{all_zero, seal, seal_with_material, unseal}

-- What X25519 and ChaCha20-Poly1305 document: both sides derive one shared secret, a ciphertext is
-- bytes and decrypts to its text, and a public key is 32 bytes.
pub record IsBox (x : External) : Type 0 where
  pub agree :
      (a b : Bytes)
      → x.diffie_hellman a (x.x25519_public b) ≡ x.diffie_hellman b (x.x25519_public a)
  pub public_bytes : (secret : Bytes) → IsBytes secret → IsBytes (x.x25519_public secret)
  pub public_length : (secret : Bytes) → length secret ≡ 32 → length (x.x25519_public secret) ≡ 32
  pub opens :
      (key nonce text : Bytes) {c : Bytes}
      → x.encrypt key nonce text ≡ some c
      → x.decrypt key nonce c ≡ some text
  pub cipher_bytes :
      (key nonce text : Bytes) {c : Bytes}
      → IsBytes text
      → x.encrypt key nonce text ≡ some c
      → IsBytes c

module _ (x : External) (laws : Documented x) where
  open x use {x25519_public, diffie_hellman, encrypt}

  pub decode-encode_base64url :
      (bs : Bytes) → IsBytes bs → decode_base64url x (encode_base64url x bs) ≡ ok bs
  unfolding decode_base64url encode_base64url
  decode-encode_base64url bs h = rw (laws.unpadded bs, laws.decode_encode bs h) refl

  pub decode_exact-encode_base64url :
      (bs : Bytes) → IsBytes bs → decode_exact x (encode_base64url x bs) (length bs) ≡ ok bs
  unfolding decode_exact
  decode_exact-encode_base64url bs h = ground (arith, decode-encode_base64url bs h)

  abbrev sealed_body : DevicePublicRecord → (secret nonce ciphertext : Bytes) → SealedDeviceBody
  sealed_body device secret nonce ciphertext = record {
    device_fingerprint = device.fingerprint;
    ephemeral_pub = encode_base64url x (x25519_public secret);
    nonce = encode_base64url x nonce;
    ciphertext = encode_base64url x ciphertext;
  }

  -- The body and what was checked on the way, read off a successful `seal`.
  record IsSealed (raw : Bytes) (device : DevicePublicRecord) (secret nonce peer : Bytes)
      (body : SealedDeviceBody) : Type 0 where
    pub ciphertext : Bytes
    pub few : length raw ≤ max_request_bytes
    pub usable : all_zero (diffie_hellman secret peer) ≡ false
    pub encrypts : encrypt (diffie_hellman secret peer) nonce raw ≡ some ciphertext
    pub body_is : sealed_body device secret nonce ciphertext ≡ body

  seal-IsSealed :
      (raw : Bytes) (device : DevicePublicRecord) (secret nonce peer : Bytes)
      (body : SealedDeviceBody)
      → decode_exact x device.box_public_key 32 ≡ ok peer
      → seal x raw device secret nonce ≡ ok body
      → IsSealed raw device secret nonce peer body
  unfolding seal seal_with_material
  seal-IsSealed raw device secret nonce peer body p h =
      elim (Result-cases (validate_device x device)) [
        | inr (e, v) ↦ absurd (ground (arith, v))
        | inl (u, v) ↦ elim (Option-cases (encrypt (diffie_hellman secret peer) nonce raw)) [
          | inl n ↦ absurd (ground (arith, v, p, n))
          | inr (ciphertext, c) ↦ record {
            ciphertext = ciphertext;
            few = ground (arith, v, p, c);
            usable = ground (arith, v, p, c);
            encrypts = c;
            body_is = ground (arith, v, p, c);
          }
        ]
      ]

  unseal-sealed_body :
      IsBox x
      → (raw : Bytes) (device : DevicePublicRecord) (box_secret secret nonce ciphertext : Bytes)
      → IsBytes raw
      → IsBytes secret
      → length secret ≡ 32
      → IsBytes nonce
      → length nonce ≡ 12
      → length raw ≤ max_request_bytes
      → all_zero (diffie_hellman secret (x25519_public box_secret)) ≡ false
      → encrypt (diffie_hellman secret (x25519_public box_secret)) nonce raw ≡ some ciphertext
      → unseal x (sealed_body device secret nonce ciphertext) box_secret ≡ ok raw
  unfolding unseal
  unseal-sealed_body box raw device box_secret secret nonce ciphertext hr hs ls hn ln few usable c =
      let public =
        decode_exact-encode_base64url (x25519_public secret) (box.public_bytes secret hs) in
      let size = box.public_length secret ls in
      let salt = decode_exact-encode_base64url nonce hn in
      let text = decode-encode_base64url ciphertext (box.cipher_bytes _ nonce raw hr c) in
      let agreed = box.agree box_secret secret in
      let opened = box.opens _ nonce raw c in
      ground (arith, public, size, salt, ln, text, agreed, usable, opened, few)

  -- A request of bytes that is sealed to a valid record, whose box key is the public key of the
  -- device's secret, opens with that secret to the same bytes; the ephemeral secret is 32 bytes and
  -- the nonce 12.
  pub unseal-seal :
      IsBox x
      → (raw : Bytes) (device : DevicePublicRecord) (box_secret secret nonce : Bytes)
        {body : SealedDeviceBody}
      → IsBytes raw
      → IsBytes secret
      → length secret ≡ 32
      → IsBytes nonce
      → length nonce ≡ 12
      → decode_exact x device.box_public_key 32 ≡ ok (x25519_public box_secret)
      → seal x raw device secret nonce ≡ ok body
      → unseal x body box_secret ≡ ok raw
  unseal-seal box raw device box_secret secret nonce hr hs ls hn ln peer h =
      let s = seal-IsSealed raw device secret nonce (x25519_public box_secret) _ peer h in
      let opened =
        unseal-sealed_body box raw device box_secret secret nonce s.ciphertext hr hs ls hn ln s.few
          s.usable s.encrypts in
      sym (ap (λ b. unseal x b box_secret) s.body_is) ∙ opened
