-- ===== src/Protocol/Timing.antt =====
-- protocol/src/v1.rs, `validate_request_timing`: a request's timestamps against the receiver's clock.
use oshioki.Base.{◌≡◌, ◌↔◌, ◌||◌, arith}
use oshioki.Base.Int.{
  ℤ, pos, ◌+ℤ◌, ◌≤ℤ◌, ◌<ℤ◌, lebℤ, ltbℤ, IsI64, saturating_add, saturating_sub, checked_sub,
}
use oshioki.Base.Result.{Result, ok, refuse, ok_or, ◌>>=◌, ◌>>◌}
use oshioki.Protocol.Error.{Error, invalid_request}

abbrev pub max_request_lifetime_secs : ℤ
max_request_lifetime_secs = pos 90

abbrev pub max_request_issuance_skew_secs : ℤ
max_request_issuance_skew_secs = pos 30

unfoldable pub validate_request_timing : (issued_at expires_at now : ℤ) → Result Error (Unit {0})
unfolding saturating_add saturating_sub checked_sub
validate_request_timing issued_at expires_at now = do
  let oldest_issued_at = saturating_sub now max_request_issuance_skew_secs
  let newest_issued_at = saturating_add now max_request_issuance_skew_secs
  refuse (ltbℤ issued_at oldest_issued_at || ltbℤ newest_issued_at issued_at) invalid_request
  refuse (lebℤ expires_at now) invalid_request
  lifetime ← ok_or (checked_sub expires_at issued_at) invalid_request
  refuse (ltbℤ max_request_lifetime_secs lifetime) invalid_request
  ok tt

-- The window in exact integer arithmetic, with no saturation and no overflow.
pub record InWindow (issued_at expires_at now : ℤ) : Type 0 where
  pub not_stale : now ≤ℤ issued_at +ℤ max_request_issuance_skew_secs
  pub not_early : issued_at ≤ℤ now +ℤ max_request_issuance_skew_secs
  pub not_expired : now <ℤ expires_at
  pub short : expires_at ≤ℤ issued_at +ℤ max_request_lifetime_secs

timing_sound :
    (i e n : ℤ)
    → IsI64 i
    → IsI64 e
    → IsI64 n
    → validate_request_timing i e n ≡ ok tt
    → InWindow i e n
unfolding validate_request_timing
timing_sound (pos i) (pos e) (pos n) hi he hn h = ground arith
timing_sound i e n hi he hn h = ground arith

timing_complete :
    (i e n : ℤ)
    → IsI64 i
    → IsI64 e
    → IsI64 n
    → InWindow i e n
    → validate_request_timing i e n ≡ ok tt
unfolding validate_request_timing
timing_complete (pos i) (pos e) (pos n) hi he hn h = ground arith
timing_complete i e n hi he hn h = ground arith

-- For timestamps in the `i64` range, the check accepts exactly when the receiver's clock is at most 30
-- seconds away from the issuance, before the expiry, and the lifetime is at most 90 seconds, all in
-- exact arithmetic: neither saturation nor overflow changes the answer.
pub validate_request_timing_iff :
    (i e n : ℤ)
    → IsI64 i
    → IsI64 e
    → IsI64 n
    → (validate_request_timing i e n ≡ ok tt) ↔ InWindow i e n
validate_request_timing_iff i e n hi he hn =
    (timing_sound i e n hi he hn, timing_complete i e n hi he hn)
