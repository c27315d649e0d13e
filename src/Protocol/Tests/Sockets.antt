-- ===== src/Protocol/Tests/Sockets.antt =====
-- Frames and control messages.
use oshioki.Base.{◌≡◌, refl, true, none, some, [], ◌∷◌, ◌++◌, arith}
use oshioki.Base.Result.{ok, err}
use oshioki.Protocol.Error.{decode}
use oshioki.Protocol.External.{Bytes}
use oshioki.Protocol.Socket.{
  Readers, alive_for_request, validate_alive, delivery_for_request, validate_socket_delivery, alive,
  message, unknown_kind, encode_frame, decode_by_type, decode_control_message,
}
use oshioki.Protocol.Socket.Frames.{IsRead, decode-encode_frame}

abbrev readers : Readers
readers = record {
  probe_from_slice = λ bs. some (record { message_type = some "alive"; has_action = true });
  alive_from_slice = λ bs. some (alive_for_request "req-1");
  delivery_from_slice = λ bs. none;
  decision_from_slice = λ bs. none;
  auth_decision_from_slice = λ bs. none;
}

messages :
    (decode_control_message readers [] ≡ ok (message (alive (alive_for_request "req-1"))))
    × (decode_by_type readers "later" [] ≡ ok (unknown_kind "later"))
    × (decode_by_type readers "delivery" [] ≡ err decode)
    × (validate_alive (alive_for_request "req-1") "req-1" ≡ ok tt)
    × (validate_socket_delivery (delivery_for_request "req-1") "req-1" ≡ ok tt)
unfolding decode_by_type decode_control_message alive_for_request validate_alive
    delivery_for_request validate_socket_delivery
messages = (refl, refl, refl, refl, refl)

framed_example : encode_frame (7 ∷ 8 ∷ []) ≡ ok (0 ∷ 0 ∷ 0 ∷ 2 ∷ 7 ∷ 8 ∷ [])
unfolding encode_frame
framed_example = refl

decode-encode_frame_example :
    (frame : Bytes) × (encode_frame (7 ∷ 8 ∷ []) ≡ ok frame)
    × IsRead (frame ++ 9 ∷ []) (7 ∷ 8 ∷ []) (9 ∷ [])
decode-encode_frame_example = decode-encode_frame (7 ∷ 8 ∷ []) (9 ∷ []) (omega arith)
