-- ===== src/Protocol/Cose.antt =====
-- protocol/src/webauthn_v1.rs, `decode_cbor_value` and `cose_p256_verifying_key`, and
-- protocol/src/native_v1.rs, `sec1_p256_verifying_key`: the two ways to read a P-256 public key.
use oshioki.Base.{
  ℕ, ◌*◌, Bool, false, not, ◌||◌, Option, none, some, ◌∷◌, ◌++◌, length, get_or, ltb, ◌==◌,
  nat_has_eq, if◌then◌else◌,
}
use oshioki.Base.Int.{ℤ, pos, negsuc}
use oshioki.Base.Result.{Result, err, ok_or, ◌>>=◌}
use oshioki.Protocol.Error.{Error, invalid_signature}
use oshioki.Protocol.Cbor.{
  Value, integer, byte_string, table, Entries, end, entry, int_eq, max_cbor_depth,
  validate_cbor_value,
}
use oshioki.Protocol.External.{Bytes, External}

abbrev pub max_cose_cbor_bytes : ℕ
max_cose_cbor_bytes = 4 * 1024

abbrev pub max_attestation_cbor_bytes : ℕ
max_attestation_cbor_bytes = 128 * 1024

-- The variables `kty`, `alg`, `crv`, `x` and `y` of `cose_p256_verifying_key`.
pub record CoseFields : Type 0 where
  pub kty : Option ℤ
  pub alg : Option ℤ
  pub crv : Option ℤ
  pub x : Option Bytes
  pub y : Option Bytes

abbrev no_fields : CoseFields
no_fields = record { kty = none; alg = none; crv = none; x = none; y = none }

-- One round of the loop over the map's entries.
read_entry : CoseFields → (key value : Value) → CoseFields
read_entry f (integer label) (integer v) =
    if int_eq label (pos 1)
    then record f { kty = some v }
    else if int_eq label (pos 3)
    then record f { alg = some v }
    else if int_eq label (negsuc 0)
    then record f { crv = some v }
    else f
read_entry f (integer label) (byte_string v) =
    if int_eq label (negsuc 1)
    then record f { x = some v }
    else if int_eq label (negsuc 2)
    then record f { y = some v }
    else f
read_entry f _ _ = f

read_entries : CoseFields → Entries → CoseFields
read_entries f end = f
read_entries f (entry k v es) = read_entries (read_entry f k v) es

abbrev is_int : ℤ → Option ℤ → Bool
is_int n none = false
is_int n (some m) = int_eq m n

module _ (ext : External) where
  open ext use {VerifyingKey, from_sec1_bytes, cbor_from_reader}

  -- `Err(())` is `none`.
  unfoldable pub decode_cbor_value : Bytes → ℕ → Option Value
  decode_cbor_value bs max_bytes =
      if length bs == 0 || ltb max_bytes (length bs)
      then none
      else elim (cbor_from_reader max_cbor_depth bs) [
        | none ↦ none
        | some (value, position) ↦
            if not (position == length bs)
            then none
            else elim (validate_cbor_value value 0 0) [ none ↦ none | some count ↦ some value ]
      ]

  -- Both coordinates are there and 32 bytes long.
  read_point : Option Bytes → Option Bytes → Result Error VerifyingKey
  read_point (some x) (some y) =
      if not (length x == 32) || not (length y == 32)
      then err invalid_signature
      else ok_or (from_sec1_bytes (4 ∷ x ++ y)) invalid_signature
  read_point _ _ = err invalid_signature

  key_of_value : Value → Result Error VerifyingKey
  unfolding read_entries read_entry read_point
  key_of_value (table entries) =
      let f = read_entries no_fields entries in
      if not (is_int (pos 2) f.kty) || not (is_int (negsuc 6) f.alg) || not (is_int (pos 1) f.crv)
      then err invalid_signature
      else read_point f.x f.y
  key_of_value _ = err invalid_signature

  unfoldable pub cose_p256_verifying_key : Bytes → Result Error VerifyingKey
  unfolding key_of_value decode_cbor_value
  cose_p256_verifying_key cose_bytes = do
    value ← ok_or (decode_cbor_value cose_bytes max_cose_cbor_bytes) invalid_signature
    key_of_value value

  unfoldable pub sec1_p256_verifying_key : Bytes → Result Error VerifyingKey
  sec1_p256_verifying_key sec1 =
      if not (length sec1 == 65) || not (get_or sec1 0 0 == 4)
      then err invalid_signature
      else ok_or (from_sec1_bytes sec1) invalid_signature
