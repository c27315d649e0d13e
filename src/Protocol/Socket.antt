-- ===== src/Protocol/Socket.antt =====
-- protocol/src/socket_v1.rs: receipts and acknowledgements, the dispatch of control messages, and the
-- length prefix of frames on the agent's socket. serde's readers are parameters, one per type.
pub mod Frames
use oshioki.Base.{
  ℕ, Bool, true, not, ◌||◌, Option, none, some, List, ◌++◌, String, length, ltb, ◌==◌, nat_has_eq,
  text_has_eq, u32_to_be_bytes, u32_from_be_bytes, if◌then◌else◌,
}
use oshioki.Base.Result.{Result, ok, err, refuse, ok_or, ◌>>=◌, ◌>>◌}
use oshioki.Protocol.Error.{Error, invalid_request, bad_verdict, decode}
use oshioki.Protocol.External.{Bytes}
use oshioki.Protocol.Device.{version_v1}
use oshioki.Protocol.Request.{max_envelope_bytes}
use oshioki.Protocol.Decision.{Decision}
use oshioki.Protocol.Auth.Verify.{AuthDecision}

pub record Delivery : Type 0 where
  pub message_type : String
  pub version : ℕ
  pub request_id : String

unfoldable pub delivery_for_request : (request_id : String) → Delivery
delivery_for_request request_id = record {
  message_type = "delivery";
  version = version_v1;
  request_id = request_id;
}

unfoldable pub validate_socket_delivery : Delivery → String → Result Error (Unit {0})
validate_socket_delivery d request_id =
    refuse
      (not (d.message_type == "delivery")
        || not (d.version == version_v1)
        || not (d.request_id == request_id))
      bad_verdict

pub record Alive : Type 0 where
  pub message_type : String
  pub version : ℕ
  pub request_id : String

unfoldable pub alive_for_request : (request_id : String) → Alive
alive_for_request request_id = record {
  message_type = "alive";
  version = version_v1;
  request_id = request_id;
}

unfoldable pub validate_alive : Alive → String → Result Error (Unit {0})
validate_alive a request_id =
    refuse
      (not (a.message_type == "alive")
        || not (a.version == version_v1)
        || not (a.request_id == request_id))
      bad_verdict

pub data ControlMessage : Type 0 where
  alive : Alive → ControlMessage
  delivery : Delivery → ControlMessage
  decision : Decision → ControlMessage
  auth_decision : AuthDecision → ControlMessage

pub data ControlMessageOutcome : Type 0 where
  message : ControlMessage → ControlMessageOutcome
  unknown_kind : String → ControlMessageOutcome

-- The partial view; of `action` only the presence is read.
pub record ControlMessageProbe : Type 0 where
  pub message_type : Option String
  pub has_action : Bool

-- `serde_json::from_slice` at each type that the decoder asks for.
pub record Readers : Type 0 where
  pub probe_from_slice : Bytes → Option ControlMessageProbe
  pub alive_from_slice : Bytes → Option Alive
  pub delivery_from_slice : Bytes → Option Delivery
  pub decision_from_slice : Bytes → Option Decision
  pub auth_decision_from_slice : Bytes → Option AuthDecision

abbrev pub auth_native_decision_type : String
auth_native_decision_type = "sudo_authentication_native"

abbrev pub auth_webauthn_decision_type : String
auth_webauthn_decision_type = "sudo_authentication_webauthn"

abbrev decoded {ℓ} :
    {A : Type ℓ} → Option A → (A → ControlMessage) → Result Error ControlMessageOutcome
decoded none f = err decode
decoded (some a) f = ok (message (f a))

module _ (readers : Readers) where
  open readers use {
    probe_from_slice, alive_from_slice, delivery_from_slice, decision_from_slice,
    auth_decision_from_slice,
  }

  -- The `match` on the announced type.
  unfoldable pub decode_by_type : String → Bytes → Result Error ControlMessageOutcome
  decode_by_type kind bytes =
      if kind == "alive"
      then decoded (alive_from_slice bytes) alive
      else if kind == "delivery"
      then decoded (delivery_from_slice bytes) delivery
      else if kind == auth_native_decision_type || kind == auth_webauthn_decision_type
      then decoded (auth_decision_from_slice bytes) auth_decision
      else ok (unknown_kind kind)

  unfoldable pub decode_control_message : Bytes → Result Error ControlMessageOutcome
  unfolding decode_by_type
  decode_control_message bytes = do
    probe ← ok_or (probe_from_slice bytes) decode
    elim probe.message_type [
      | some kind ↦ decode_by_type kind bytes
      | none ↦ if probe.has_action then decoded (decision_from_slice bytes) decision else err decode
    ]

abbrev pub frame_len_bytes : ℕ
frame_len_bytes = 4

abbrev pub max_frame_bytes : ℕ
max_frame_bytes = max_envelope_bytes

-- The payload's length is at most the cap, so the conversion to `u32` succeeds.
unfoldable pub encode_frame : Bytes → Result Error Bytes
encode_frame payload = do
  refuse (ltb max_frame_bytes (length payload)) invalid_request
  ok (u32_to_be_bytes (length payload) ++ payload)

unfoldable pub decode_frame_len : (prefix : Bytes) → Result Error ℕ
decode_frame_len prefix =
    let len = u32_from_be_bytes prefix in
    if ltb max_frame_bytes len then err invalid_request else ok len
