-- ===== src/Protocol/Enrollment/Transcript.antt =====
-- protocol/src/enrollment_v1.rs, `transcript_mac` and `enrollment_hmac`: a key derived from the
-- enrollment's secret and a domain, and the fields, each behind its length.
use oshioki.Base.{
  ◌<◌, ◌^◌, ◌≡◌, refl, List, [], ◌∷◌, ◌++◌, arith, All, length, u64_to_be_bytes, framed_inj, ap₂,
}
use oshioki.Base.{bytes}
use oshioki.Protocol.External.{Bytes, External}

abbrev pub registration_domain : Bytes
registration_domain = bytes "oshioki/enroll/registration/v1" ++ 0 ∷ []

abbrev pub proof_domain : Bytes
proof_domain = bytes "oshioki/enroll/proof/v1" ++ 0 ∷ []

abbrev pub transcript_domain : Bytes
transcript_domain = bytes "oshioki/enroll/transcript/v1" ++ 0 ∷ []

-- The loop of `transcript_mac`: all that goes into the MAC.
unfoldable pub transcript_message : List Bytes → Bytes
transcript_message [] = []
transcript_message (field ∷ fields) =
    u64_to_be_bytes (length field) ++ field ++ transcript_message fields

module _ (x : External) where
  open x use {hmac_sha256}

  -- `finalize` of the MAC that `transcript_mac` returns
  unfoldable pub enrollment_hmac : (secret domain : Bytes) → List Bytes → Bytes
  enrollment_hmac secret domain fields =
      hmac_sha256 (hmac_sha256 secret domain) (transcript_message fields)

abbrev IsSmallField : Bytes → Type 0
IsSmallField field = length field < 2 ^ 64

-- Two transcripts with equally many fields, all shorter than 2^64 bytes, that feed the same bytes to
-- the MAC agree in every field.
pub transcript_message_inj :
    (fs gs : List Bytes)
    → length fs ≡ length gs
    → All IsSmallField fs
    → All IsSmallField gs
    → transcript_message fs ≡ transcript_message gs
    → fs ≡ gs
unfolding transcript_message
transcript_message_inj [] [] n hf hg e = refl
transcript_message_inj [] (g ∷ gs) n hf hg e = absurd (omega arith)
transcript_message_inj (f ∷ fs) [] n hf hg e = absurd (omega arith)
transcript_message_inj (f ∷ fs) (g ∷ gs) n (hf, hfs) (hg, hgs) e =
    let (same, rest) = framed_inj f g (transcript_message fs) (transcript_message gs) hf hg e in
    ap₂ ◌∷◌ same (transcript_message_inj fs gs (omega arith) hfs hgs rest)
