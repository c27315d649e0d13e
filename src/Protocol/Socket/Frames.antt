-- ===== src/Protocol/Socket/Frames.antt =====
-- Frames of socket_v1.rs, cut out of a stream the way the readers of a socket do it: the prefix first,
-- then as many bytes as it announces.
use oshioki.Base.{
  ◌≤◌, ◌≡◌, refl, [], ◌∷◌, ◌++◌, arith, length, take, drop, u32_to_be_bytes, u32_from-to, ap,
}
use oshioki.Base.Result.{ok}
use oshioki.Protocol.External.{Bytes}
use oshioki.Protocol.Socket.{frame_len_bytes, max_frame_bytes, encode_frame, decode_frame_len}

take_of_append : (xs ys : Bytes) → take (length xs) (xs ++ ys) ≡ xs
take_of_append [] ys = refl
take_of_append (x ∷ xs) ys = ap (λ zs. x ∷ zs) (take_of_append xs ys)

drop_of_append : (xs ys : Bytes) → drop (length xs) (xs ++ ys) ≡ ys
drop_of_append [] ys = refl
drop_of_append (x ∷ xs) ys = drop_of_append xs ys

-- What a reader finds that has `stream` in front of it: the payload and what follows it.
pub record IsRead (stream payload rest : Bytes) : Type 0 where
  pub prefix : decode_frame_len (take frame_len_bytes stream) ≡ ok (length payload)
  pub body : take (length payload) (drop frame_len_bytes stream) ≡ payload
  pub after : drop (length payload) (drop frame_len_bytes stream) ≡ rest

-- A payload up to the cap is framed, and a reader of a stream that starts with the frame accepts its
-- prefix, gets the payload back, and is left with what followed the frame.
pub decode-encode_frame :
    (payload rest : Bytes)
    → length payload ≤ max_frame_bytes
    → (frame : Bytes) × (encode_frame payload ≡ ok frame) × IsRead (frame ++ rest) payload rest
unfolding encode_frame decode_frame_len
decode-encode_frame payload rest small =
    let word = u32_from-to (length payload) (omega arith) in
    (
      u32_to_be_bytes (length payload) ++ payload,
      ground (arith, small),
      record {
        prefix = ground (arith, word, small);
        body = take_of_append payload rest;
        after = drop_of_append payload rest;
      },
    )
