-- ===== src/Protocol/Auth.antt =====
-- protocol/src/auth_v1.rs: the request of a sudo authentication, with the context that PAM vouches for
-- and the context that the caller submits.
pub mod Envelope
pub mod Verify
pub mod Opened
pub mod Hardware
use oshioki.Base.{
  ℕ, ◌*◌, Bool, not, ◌||◌, Option, none, some, List, String, len, length, any, ltb, ◌==◌,
  nat_has_eq, text_has_eq, is_some_and, has_control, contains_char,
}
use oshioki.Base.Int.{ℤ, lebℤ}
use oshioki.Base.Result.{Result, ok, refuse, is_err, ok_or, ◌>>=◌, ◌>>◌}
use oshioki.Protocol.Error.{Error, invalid_request}
use oshioki.Protocol.External.{Bytes, External}
use oshioki.Protocol.Encoding.{decode_exact, valid_id}
use oshioki.Protocol.Request.{max_request_bytes}
use oshioki.Protocol.Timing.{validate_request_timing}

abbrev pub auth_wire_version : ℕ
auth_wire_version = 2

abbrev pub auth_envelope_type : String
auth_envelope_type = "sudo_authentication"

abbrev pub auth_request_type : String
auth_request_type = "sudo_authentication_request"

abbrev max_service_bytes : ℕ
max_service_bytes = 128

abbrev max_user_bytes : ℕ
max_user_bytes = 256

abbrev max_tty_bytes : ℕ
max_tty_bytes = 4096

abbrev max_label_bytes : ℕ
max_label_bytes = 256

abbrev max_session_bytes : ℕ
max_session_bytes = 256

abbrev max_invocation_string_bytes : ℕ
max_invocation_string_bytes = 64 * 1024

abbrev max_invocation_args : ℕ
max_invocation_args = 4096

pub record TrustedAuthContext : Type 0 where
  pub host : String
  pub service : String
  pub pam_user : String
  pub pam_uid : ℕ
  pub invoking_uid : ℕ
  pub invoking_user : Option String
  pub tty : Option String

abbrev has_bad_length : (max : ℕ) → String → Bool
has_bad_length max value = value == "" || ltb max (len value)

unfoldable pub validate_trusted : TrustedAuthContext → Result Error (Unit {0})
validate_trusted t = do
  refuse
      (has_bad_length 255 t.host
        || has_bad_length max_service_bytes t.service
        || has_bad_length max_user_bytes t.pam_user
        || is_some_and t.invoking_user (has_bad_length max_user_bytes)
        || is_some_and t.tty (has_bad_length max_tty_bytes))
      invalid_request
  refuse
      (has_control t.host
        || has_control t.service
        || has_control t.pam_user
        || is_some_and t.invoking_user has_control
        || is_some_and t.tty has_control)
      invalid_request

pub data AuthInvocation : Type 0 where
  available : (command : String) (argv : List String) (cwd : String) → AuthInvocation
  truncated :
      (command : Option String) (argv : List String) (cwd : Option String) (omitted_args : Option ℕ)
      → AuthInvocation
  unavailable : AuthInvocation

unfoldable pub validate_invocation_strings :
    (command cwd : String) (argv : List String) → Result Error (Unit {0})
validate_invocation_strings command cwd argv =
    refuse
      (ltb max_invocation_string_bytes (len command)
        || ltb max_invocation_string_bytes (len cwd)
        || ltb max_invocation_args (length argv)
        || any (λ arg. ltb max_invocation_string_bytes (len arg)) argv
        || contains_char 0 command
        || contains_char 0 cwd
        || any (contains_char 0) argv)
      invalid_request

-- `unwrap_or_default` of an optional text
abbrev or_empty : Option String → String
or_empty none = ""
or_empty (some s) = s

unfoldable pub validate_invocation : AuthInvocation → Result Error (Unit {0})
validate_invocation (available command argv cwd) = do
  refuse (command == "" || cwd == "") invalid_request
  validate_invocation_strings command cwd argv
validate_invocation (truncated command argv cwd omitted_args) = do
  refuse (is_some_and omitted_args (λ count. count == 0)) invalid_request
  refuse (is_some_and command (λ s. s == "") || is_some_and cwd (λ s. s == "")) invalid_request
  validate_invocation_strings (or_empty command) (or_empty cwd) argv
validate_invocation unavailable = ok tt

pub record SubmittedAuthContext : Type 0 where
  pub session : Option String
  pub agent_label : Option String
  pub invocation : AuthInvocation

unfoldable pub validate_submitted : SubmittedAuthContext → Result Error (Unit {0})
validate_submitted s = do
  refuse
      (is_some_and s.session (has_bad_length max_session_bytes)
        || is_some_and s.agent_label (has_bad_length max_label_bytes)
        || is_some_and s.session has_control
        || is_some_and s.agent_label has_control)
      invalid_request
  validate_invocation s.invocation

pub record AuthRequest : Type 0 where
  pub message_type : String
  pub version : ℕ
  pub request_id : String
  pub nonce : String
  pub issued_at : ℤ
  pub expires_at : ℤ
  pub trusted : TrustedAuthContext
  pub submitted : SubmittedAuthContext

module _ (x : External) where
  unfoldable pub validate_auth_request : AuthRequest → Result Error (Unit {0})
  validate_auth_request r = do
    refuse
        (not (r.message_type == auth_request_type)
          || not (r.version == auth_wire_version)
          || not (valid_id r.request_id)
          || is_err (decode_exact x r.nonce 16)
          || lebℤ r.expires_at r.issued_at)
        invalid_request
    validate_trusted r.trusted
    validate_submitted r.submitted

  unfoldable pub validate_auth_request_at : AuthRequest → (now : ℤ) → Result Error (Unit {0})
  validate_auth_request_at r now = do
    validate_auth_request r
    validate_request_timing r.issued_at r.expires_at now

  -- `to_vec` is `serde_json::to_vec`.
  unfoldable pub auth_raw_json :
      (to_vec : AuthRequest → Option Bytes) → AuthRequest → Result Error Bytes
  auth_raw_json to_vec r = do
    validate_auth_request r
    raw ← ok_or (to_vec r) invalid_request
    refuse (ltb max_request_bytes (length raw)) invalid_request
    ok raw

  -- `from_slice` is `serde_json::from_slice`.
  unfoldable pub parse_auth_request_at :
      (from_slice : Bytes → Option AuthRequest) (raw : Bytes) (now : ℤ) → Result Error AuthRequest
  parse_auth_request_at from_slice raw now = do
    refuse (ltb max_request_bytes (length raw)) invalid_request
    request ← ok_or (from_slice raw) invalid_request
    validate_auth_request_at request now
    ok request
