-- ===== src/Protocol/Tool/Request.antt =====
-- protocol/src/tool_v1.rs: a tool approval's request, acknowledgement and delivery.
use oshioki.Base.{
  ℕ, Bool, true, false, not, ◌||◌, Option, none, some, String, len, length, ltb, ◌==◌, nat_has_eq,
  text_has_eq, is_some_and, has_control, bytes,
}
use oshioki.Base.Int.{ℤ, pos, lebℤ, ltbℤ, saturating_add, checked_sub}
use oshioki.Base.Result.{Result, ok, refuse, ok_or, ◌>>=◌, ◌>>◌}
use oshioki.Protocol.Error.{Error, invalid_request, bad_verdict}
use oshioki.Protocol.External.{Bytes, External}
use oshioki.Protocol.Encoding.{decode_base64url, valid_id}
use oshioki.Protocol.Timing.{
  max_request_issuance_skew_secs, max_request_lifetime_secs, validate_request_timing,
}
use oshioki.Protocol.Request.{max_request_bytes}
use oshioki.Protocol.Tool.{Json, null, object, get, as_text, context_matches, strict_json_value}

abbrev pub tool_wire_version : ℕ
tool_wire_version = 3

abbrev pub tool_envelope_type : String
tool_envelope_type = "tool_approval"

abbrev pub tool_request_type : String
tool_request_type = "tool_approval_request"

abbrev pub tool_ack_type : String
tool_ack_type = "tool_approval_ack"

abbrev pub tool_delivery_type : String
tool_delivery_type = "tool_approval_delivery"

abbrev max_tool_name_bytes : ℕ
max_tool_name_bytes = 256

abbrev max_context_bytes : ℕ
max_context_bytes = 4096

pub data ToolHarness : Type 0 where
  codex claude : ToolHarness

pub record ToolAcknowledgement : Type 0 where
  pub message_type : String
  pub version : ℕ
  pub request_id : String

pub record ToolDelivery : Type 0 where
  pub message_type : String
  pub version : ℕ
  pub request_id : String

unfoldable pub acknowledge : (request_id : String) → ToolAcknowledgement
acknowledge request_id = record {
  message_type = tool_ack_type;
  version = tool_wire_version;
  request_id = request_id;
}

unfoldable pub validate_acknowledgement : ToolAcknowledgement → String → Result Error (Unit {0})
validate_acknowledgement a request_id =
    refuse
      (not (a.message_type == tool_ack_type)
        || not (a.version == tool_wire_version)
        || not (a.request_id == request_id)
        || not (valid_id request_id))
      bad_verdict

unfoldable pub deliver : (request_id : String) → ToolDelivery
deliver request_id = record {
  message_type = tool_delivery_type;
  version = tool_wire_version;
  request_id = request_id;
}

unfoldable pub validate_delivery : ToolDelivery → String → Result Error (Unit {0})
validate_delivery d request_id =
    refuse
      (not (d.message_type == tool_delivery_type)
        || not (d.version == tool_wire_version)
        || not (d.request_id == request_id)
        || not (valid_id request_id))
      bad_verdict

pub record ToolContext : Type 0 where
  pub session_id : Option String
  pub turn_id : Option String
  pub agent_id : Option String
  pub agent_type : Option String
  pub permission_mode : Option String

abbrev is_bad_context : String → Bool
is_bad_context value = value == "" || ltb max_context_bytes (len value) || has_control value

-- The loop over the five fields, of which each failure is the same error.
unfoldable pub validate_context : ToolContext → Result Error (Unit {0})
validate_context c =
    refuse
      (is_some_and c.session_id is_bad_context
        || is_some_and c.turn_id is_bad_context
        || is_some_and c.agent_id is_bad_context
        || is_some_and c.agent_type is_bad_context
        || is_some_and c.permission_mode is_bad_context)
      invalid_request

pub record ToolApprovalRequest : Type 0 where
  pub message_type : String
  pub version : ℕ
  pub request_id : String
  pub nonce : String
  pub harness : ToolHarness
  pub event : String
  pub tool_name : String
  pub tool_input : Json
  pub cwd : String
  pub native_event_json : String
  pub context : ToolContext
  pub description : Option String
  pub issued_at : ℤ
  pub expires_at : ℤ

abbrev is_null : Json → Bool
is_null null = true
is_null _ = false

abbrev is_object : Json → Bool
is_object (object ms) = true
is_object _ = false

abbrev pub is_text : Option String → String → Bool
is_text none s = false
is_text (some t) s = t == s

unfoldable pub validate_tool_decision_timing :
    (issued_at expires_at now : ℤ) → Result Error (Unit {0})
unfolding saturating_add checked_sub
validate_tool_decision_timing issued_at expires_at now = do
  refuse (ltbℤ (saturating_add now max_request_issuance_skew_secs) issued_at) invalid_request
  refuse (lebℤ expires_at now) invalid_request
  lifetime ← ok_or (checked_sub expires_at issued_at) invalid_request
  refuse (lebℤ lifetime (pos 0) || ltbℤ max_request_lifetime_secs lifetime) invalid_request

-- `value_eq` is the equality of `serde_json::Value`.
module _ (x : External) (from_slice : Bytes → Option Json) (value_eq : Json → Json → Bool) where
  abbrev same_input : Option Json → Json → Bool
  same_input none v = false
  same_input (some u) v = value_eq u v

  -- The last test of `ToolApprovalRequestV1::validate`, negated.
  unfoldable pub retains : ToolApprovalRequest → (native_event : Json) → Bool
  retains r event = not (
      not (is_text (as_text (get "hook_event_name" event)) r.event)
      || not (is_text (as_text (get "tool_name" event)) r.tool_name)
      || not (same_input (get "tool_input" event) r.tool_input)
      || not (is_text (as_text (get "cwd" event)) r.cwd)
      || not (context_matches event "session_id" r.context.session_id)
      || not (context_matches event "turn_id" r.context.turn_id)
      || not (context_matches event "agent_id" r.context.agent_id)
      || not (context_matches event "agent_type" r.context.agent_type)
      || not (context_matches event "permission_mode" r.context.permission_mode))

  unfoldable pub validate_tool_request : ToolApprovalRequest → Result Error (Unit {0})
  validate_tool_request r = do
    refuse
        (not (r.message_type == tool_request_type)
          || not (r.version == tool_wire_version)
          || not (valid_id r.request_id))
        invalid_request
    nonce ← decode_base64url x r.nonce
    refuse
        (not (length nonce == 16)
          || not (r.event == "PermissionRequest")
          || r.tool_name == ""
          || ltb max_tool_name_bytes (len r.tool_name)
          || r.cwd == ""
          || ltb max_context_bytes (len r.cwd)
          || r.native_event_json == ""
          || ltb max_request_bytes (len r.native_event_json)
          || is_some_and r.description
              (λ value. ltb max_context_bytes (len value) || has_control value)
          || is_null r.tool_input)
        invalid_request
    validate_context r.context
    event ← strict_json_value from_slice (bytes r.native_event_json)
    refuse (not (is_object event)) invalid_request
    refuse (not (retains r event)) invalid_request

  unfoldable pub validate_tool_request_at :
      ToolApprovalRequest → (now : ℤ) → Result Error (Unit {0})
  validate_tool_request_at r now = do
    validate_tool_request r
    validate_request_timing r.issued_at r.expires_at now

  -- `from_value` is `serde_json::from_value`.
  unfoldable pub parse_tool_request_at :
      (from_value : Json → Option ToolApprovalRequest) (raw : Bytes) (now : ℤ)
      → Result Error ToolApprovalRequest
  parse_tool_request_at from_value raw now = do
    refuse (ltb max_request_bytes (length raw)) invalid_request
    value ← strict_json_value from_slice raw
    request ← ok_or (from_value value) invalid_request
    validate_tool_request request
    validate_tool_decision_timing request.issued_at request.expires_at now
    ok request
