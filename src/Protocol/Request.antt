-- ===== src/Protocol/Request.antt =====
-- protocol/src/v1.rs: the command request that a hook signs off on, and the envelope that carries it to
-- the devices. The JSON writer is a parameter; `u32` fields that nothing computes with are numbers.
pub mod Laws
use oshioki.Base.{
  ℕ, ◌*◌, Bool, not, ◌||◌, Option, List, [], ◌∷◌, String, len, count, length, any, ltb, ◌==◌,
  nat_has_eq, text_has_eq, is_some_and, has_control,
}
use oshioki.Base.Int.{ℤ, lebℤ}
use oshioki.Base.Result.{Result, ok, refuse, is_err, ok_or, ◌>>=◌, ◌>>◌}
use oshioki.Protocol.Error.{Error, invalid_request}
use oshioki.Protocol.External.{Bytes, External}
use oshioki.Protocol.Encoding.{decode_base64url, decode_exact, valid_fingerprint, valid_id}
use oshioki.Protocol.Device.{version_v1, max_devices}
use oshioki.Protocol.Timing.{validate_request_timing}

abbrev pub max_request_bytes : ℕ
max_request_bytes = 256 * 1024

abbrev pub max_envelope_bytes : ℕ
max_envelope_bytes = 3 * 1024 * 1024

abbrev pub max_env_entries : ℕ
max_env_entries = 4096

pub record EnvEntry : Type 0 where
  pub name : String
  pub value : String

abbrev approval_env_names : List String
approval_env_names =
    "BASH_ENV" ∷ "CLASSPATH" ∷ "DYLD_FALLBACK_LIBRARY_PATH" ∷ "DYLD_INSERT_LIBRARIES"
    ∷ "DYLD_LIBRARY_PATH" ∷ "EDITOR" ∷ "ENV" ∷ "GCONV_PATH" ∷ "HOSTALIASES" ∷ "JAVA_TOOL_OPTIONS"
    ∷ "JDK_JAVA_OPTIONS" ∷ "LD_AUDIT" ∷ "LD_CONFIG" ∷ "LD_LIBRARY_PATH" ∷ "LD_PRELOAD"
    ∷ "LD_PROFILE" ∷ "LOCPATH" ∷ "LUA_CPATH" ∷ "LUA_PATH" ∷ "MANPAGER" ∷ "NLSPATH" ∷ "NODE_OPTIONS"
    ∷ "NODE_PATH" ∷ "PAGER" ∷ "PATH" ∷ "PERL5LIB" ∷ "PERLLIB" ∷ "PYTHONHOME" ∷ "PYTHONPATH"
    ∷ "PYTHONSTARTUP" ∷ "RES_OPTIONS" ∷ "RUBYLIB" ∷ "RUBYOPT" ∷ "SHELLOPTS" ∷ "SSL_CERT_DIR"
    ∷ "SSL_CERT_FILE" ∷ "SYSTEMD_EDITOR" ∷ "SYSTEMD_PAGER" ∷ "VISUAL" ∷ "_JAVA_OPTIONS" ∷ []

unfoldable pub is_approval_env : String → Bool
is_approval_env name = any (λ n. n == name) approval_env_names

pub record Request : Type 0 where
  pub version : ℕ
  pub request_id : String
  pub nonce : String
  pub host : String
  pub user : String
  pub uid : ℕ
  pub runas_uid : ℕ
  pub cwd : String
  pub tty : Option String
  pub command : String
  pub argv : List String
  pub pid_chain : List String
  pub env : List EnvEntry
  pub session : Option String
  pub issued_at : ℤ
  pub expires_at : ℤ

pub record SealedDeviceBody : Type 0 where
  pub device_fingerprint : String
  pub ephemeral_pub : String
  pub nonce : String
  pub ciphertext : String

pub record RequestEnvelope : Type 0 where
  pub version : ℕ
  pub request_id : String
  pub host : String
  pub user : String
  pub issued_at : ℤ
  pub expires_at : ℤ
  pub sealed : List SealedDeviceBody

-- The third test of `RequestV1::validate`.
abbrev pub has_bad_size : Request → Bool
has_bad_size r =
    r.host == ""
    || ltb 255 (len r.host)
    || r.user == ""
    || ltb 256 (len r.user)
    || ltb (64 * 1024) (len r.cwd)
    || r.command == ""
    || ltb (64 * 1024) (len r.command)
    || ltb 4096 (length r.argv)
    || ltb 5 (length r.pid_chain)
    || any (λ entry. ltb 512 (len entry)) r.pid_chain
    || ltb max_env_entries (length r.env)
    || any (λ (entry : EnvEntry). ltb 256 (len entry.name) || ltb 32768 (len entry.value)) r.env
    || is_some_and r.session (λ session. session == "" || ltb 64 (count session))

module _ (x : External) where
  unfoldable pub validate_request : Request → Result Error (Unit {0})
  validate_request r = do
    refuse (not (r.version == version_v1) || not (valid_id r.request_id)) invalid_request
    nonce ← decode_base64url x r.nonce
    refuse (not (length nonce == 16) || lebℤ r.expires_at r.issued_at) invalid_request
    refuse (has_bad_size r) invalid_request
    refuse (is_some_and r.session has_control) invalid_request

  unfoldable pub validate_request_at : Request → (now : ℤ) → Result Error (Unit {0})
  validate_request_at r now = do
    validate_request r
    validate_request_timing r.issued_at r.expires_at now

  -- `to_vec` is `serde_json::to_vec`.
  unfoldable pub raw_json : (to_vec : Request → Option Bytes) → Request → Result Error Bytes
  raw_json to_vec r = do
    validate_request r
    raw ← ok_or (to_vec r) invalid_request
    refuse (ltb max_request_bytes (length raw)) invalid_request
    ok raw

  -- The loop over the sealed bodies in `RequestEnvelopeV1::validate`.
  unfoldable pub validate_sealed : List SealedDeviceBody → Result Error (Unit {0})
  validate_sealed [] = ok tt
  validate_sealed (body ∷ bodies) = do
    refuse
        (not (valid_fingerprint x body.device_fingerprint)
          || is_err (decode_exact x body.ephemeral_pub 32)
          || is_err (decode_exact x body.nonce 12))
        invalid_request
    ciphertext ← decode_base64url x body.ciphertext
    refuse (ltb (length ciphertext) 16) invalid_request
    validate_sealed bodies

  module _ (to_vec : RequestEnvelope → Option Bytes) where
    unfoldable pub validate_envelope : RequestEnvelope → Result Error (Unit {0})
    validate_envelope e = do
      refuse
          (not (e.version == version_v1)
            || not (valid_id e.request_id)
            || e.host == ""
            || ltb 255 (len e.host)
            || e.user == ""
            || ltb 256 (len e.user)
            || length e.sealed == 0
            || ltb max_devices (length e.sealed)
            || lebℤ e.expires_at e.issued_at)
          invalid_request
      validate_sealed e.sealed
      bytes ← ok_or (to_vec e) invalid_request
      refuse (ltb max_envelope_bytes (length bytes)) invalid_request

    unfoldable pub validate_envelope_at : RequestEnvelope → (now : ℤ) → Result Error (Unit {0})
    validate_envelope_at e now = do
      validate_envelope e
      validate_request_timing e.issued_at e.expires_at now
