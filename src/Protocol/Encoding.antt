-- ===== src/Protocol/Encoding.antt =====
-- protocol/src/v1.rs: the decoding helpers at the end of the file, over an abstract base64.
use oshioki.Base.{
  ℕ, Bool, false, not, ◌&&◌, ◌||◌, String, len, leb, ◌==◌, nat_has_eq, text_has_eq, if◌then◌else◌,
  length, all, contains_char, bytes, is_ascii_alphanumeric,
}
use oshioki.Base.Result.{Result, ok, err, refuse, ok_or, ◌>>=◌, ◌>>◌}
use oshioki.Protocol.Error.{Error, decode}
use oshioki.Protocol.External.{Bytes, External}

module _ (x : External) where
  open x use {b64_encode, b64_decode}

  unfoldable pub encode_base64url : Bytes → String
  encode_base64url bs = b64_encode bs

  unfoldable pub decode_base64url : String → Result Error Bytes
  decode_base64url value = do
    refuse (contains_char b'=' value) decode
    ok_or (b64_decode value) decode

  unfoldable pub decode_exact : String → ℕ → Result Error Bytes
  decode_exact value size = do
    decoded ← decode_base64url value
    if length decoded == size then ok decoded else err decode

  abbrev has_length : ℕ → Result Error Bytes → Bool
  has_length n (ok bs) = length bs == n
  has_length n (err e) = false

  unfoldable pub valid_fingerprint : String → Bool
  valid_fingerprint value = has_length 16 (decode_base64url value)

-- the bytes that `valid_id` lets through
abbrev pub is_id_byte : ℕ → Bool
is_id_byte b = is_ascii_alphanumeric b || b == b'-' || b == b'_'

unfoldable pub valid_id : String → Bool
valid_id value = not (value == "") && leb (len value) 128 && all is_id_byte (bytes value)
