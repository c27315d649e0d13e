-- ===== src/Protocol/External.antt =====
-- What the protocol crate takes from other crates: base64 and hashes, P-256, X25519 with
-- ChaCha20-Poly1305, and JSON. The operations are parameters, collected in `External`; what the code
-- relies on is stated law by law in `Documented`, which only the theorems that need it assume.
use oshioki.Base.{ℕ, ◌<◌, ◌≡◌, String, Bool, false, Option, some, List, All, length, contains_char}
use oshioki.Protocol.Cbor.{Value}

-- `Vec<u8>` and `&[u8]`
abbrev pub Bytes : Type 0
Bytes = List ℕ

abbrev pub IsBytes : Bytes → Type 0
IsBytes = All (λ b. b < 256)

-- The collected client data of a browser's ceremony, as webauthn_v1.rs, auth_v1.rs and enrollment_v1.rs
-- declare it; the fields `type` and `crossOrigin` of the JSON object are renamed.
pub record ClientData : Type 0 where
  pub type_ : String
  pub challenge : String
  pub origin : String
  pub cross_origin : Bool

pub record External : Type 1 where
  -- `URL_SAFE_NO_PAD.encode` and `URL_SAFE_NO_PAD.decode`
  pub b64_encode : Bytes → String
  pub b64_decode : String → Option Bytes
  -- `Sha256`, over the concatenation of all that `update` was given
  pub sha256 : Bytes → Bytes
  -- `HmacSha256`: the key, then the concatenation of all that `update` was given
  pub hmac_sha256 : Bytes → Bytes → Bytes
  -- `ciborium`: the reader, with its recursion limit, gives one value and the position behind it
  pub cbor_from_reader : ℕ → Bytes → Option (Value × ℕ)
  pub cbor_into_writer : Value → Option Bytes
  -- `serde_json::from_slice` at `ClientData`
  pub client_data_from_slice : Bytes → Option ClientData
  -- `p256::ecdsa`
  pub VerifyingKey : Type 0
  pub Signature : Type 0
  pub from_sec1_bytes : Bytes → Option VerifyingKey
  pub from_der : Bytes → Option Signature
  pub verify : VerifyingKey → Bytes → Signature → Bool
  -- `x25519_dalek`: the public key of a secret, and the shared secret
  pub x25519_public : Bytes → Bytes
  pub diffie_hellman : Bytes → Bytes → Bytes
  -- `ChaCha20Poly1305`: the key, the nonce, the text
  pub encrypt : Bytes → Bytes → Bytes → Option Bytes
  pub decrypt : Bytes → Bytes → Bytes → Option Bytes

-- The documented behaviour of those crates.
pub record Documented (x : External) : Type 0 where
  -- unpadded base64 never writes the padding character, and decodes what it encoded
  pub unpadded : (bs : Bytes) → contains_char b'=' (x.b64_encode bs) ≡ false
  pub decode_encode : (bs : Bytes) → IsBytes bs → x.b64_decode (x.b64_encode bs) ≡ some bs
  -- a SHA-256 digest is 32 bytes
  pub sha256_bytes : (bs : Bytes) → IsBytes (x.sha256 bs)
  pub sha256_length : (bs : Bytes) → length (x.sha256 bs) ≡ 32
