-- ===== src/Protocol/Challenge.antt =====
-- The bytes that devices sign: `approve_challenge` and `deny_challenge` of protocol/src/v1.rs,
-- `auth_challenge` of auth_v1.rs, `tool_approval_challenge` of tool_v1.rs, and the challenge of the
-- browser ceremony in protocol/src/lib.rs. Each hashes a domain that ends in a zero byte, and a body.
pub mod Separation
use oshioki.Base.{ℕ, List, [], ◌∷◌, ◌++◌, String, length, bytes, u64_to_be_bytes}
use oshioki.Protocol.External.{Bytes, External}

abbrev zero_ended : String → Bytes
zero_ended s = bytes s ++ 0 ∷ []

abbrev pub challenge_domain : Bytes
challenge_domain = zero_ended "oshioki/approve/v1"

abbrev pub deny_domain : Bytes
deny_domain = zero_ended "oshioki/deny/v1"

abbrev pub auth_challenge_domain : Bytes
auth_challenge_domain = zero_ended "oshioki/authenticate/sudo/v1"

abbrev pub tool_approve_domain : Bytes
tool_approve_domain = zero_ended "oshioki/tool-approval/approve/v1"

abbrev pub tool_deny_domain : Bytes
tool_deny_domain = zero_ended "oshioki/tool-approval/deny/v1"

abbrev pub browser_relay_challenge_domain : Bytes
browser_relay_challenge_domain = zero_ended "oshioki/browser-ceremony-approval/v1"

pub data ToolDecisionAction : Type 0 where
  approve deny : ToolDecisionAction

abbrev pub tool_domain : ToolDecisionAction → Bytes
tool_domain approve = tool_approve_domain
tool_domain deny = tool_deny_domain

-- The body of a denial: the request id, a zero byte, the device's fingerprint.
abbrev pub deny_body : (request_id device_fingerprint : String) → Bytes
deny_body request_id device_fingerprint = bytes request_id ++ 0 ∷ bytes device_fingerprint

abbrev framed : Bytes → Bytes → Bytes
framed field rest = u64_to_be_bytes (length field) ++ field ++ rest

-- The loop over `[lane, attempt, nonce, account]`, then `expires`.
abbrev pub browser_relay_body :
    (lane attempt : String) (expires : ℕ) (nonce account : String) → Bytes
browser_relay_body lane attempt expires nonce account = framed (bytes lane) (
    framed (bytes attempt)
      (framed (bytes nonce) (framed (bytes account) (u64_to_be_bytes expires))))

module _ (x : External) where
  open x use {sha256}

  unfoldable pub approve_challenge : Bytes → Bytes
  approve_challenge raw_request_json = sha256 (challenge_domain ++ raw_request_json)

  unfoldable pub deny_challenge : (request_id device_fingerprint : String) → Bytes
  deny_challenge request_id device_fingerprint =
      sha256 (deny_domain ++ deny_body request_id device_fingerprint)

  unfoldable pub auth_challenge : Bytes → Bytes
  auth_challenge raw_auth_request_json = sha256 (auth_challenge_domain ++ raw_auth_request_json)

  unfoldable pub tool_approval_challenge : ToolDecisionAction → Bytes → Bytes
  tool_approval_challenge action raw_request_json = sha256 (tool_domain action ++ raw_request_json)

  unfoldable pub browser_relay_challenge :
      (lane attempt : String) (expires : ℕ) (nonce account : String) → Bytes
  browser_relay_challenge lane attempt expires nonce account =
      sha256
        (browser_relay_challenge_domain ++ browser_relay_body lane attempt expires nonce account)
