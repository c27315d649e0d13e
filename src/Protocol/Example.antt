-- ===== src/Protocol/Example.antt =====
-- A small instance of `External` for the tests and examples: texts count each byte in unary, a digest
-- is 32 bytes from the 21st on, and a signature is the start of its message.
use oshioki.Base.{
  get_or, drop, ℕ, zero, suc, ◌+◌, ◌%◌, ◌≡◌, refl, false, true, Option, some, [], ◌∷◌, ◌++◌, String,
  arith, take, length, length-take, length-append, All-take, All-append, ap, ◌<◌, map,
  contains_char, ◌==◌, nat_has_eq, if◌then◌else◌,
}
use Prim.Native.Char.{code}
use oshioki.Base.Int.{pos, negsuc}
use oshioki.Protocol.Cbor.{Value, integer, byte_string, text, table, end, entry, bytes_eq}
use oshioki.Protocol.External.{Bytes, IsBytes, ClientData, External, Documented}
use oshioki.Protocol.Seal.RoundTrip.{IsBox}
use oshioki.Protocol.Device.{
  DevicePublicRecord, DeviceRegistry, HookConfig, webauthn, device_fingerprint,
}

-- the text's first character, as a constant
abbrev push : String → String → String
push String.[] s = s
push (String.◌∷◌ c r) s = String.◌∷◌ c s

unfoldable pub encode : Bytes → String
encode [] = ""
encode (zero ∷ bs) = push "b" (encode bs)
encode (suc n ∷ bs) = push "a" (encode (n ∷ bs))

unfoldable pub decode_from : ℕ → String → Bytes
decode_from n String.[] = []
decode_from n (String.◌∷◌ c s) =
    let ended = decode_from 0 s in
    let longer = decode_from (suc n) s in if code c == b'b' then n ∷ ended else longer

abbrev pub zeros : ℕ → Bytes
zeros zero = []
zeros (suc n) = 0 ∷ zeros n

unfoldable pub digest : Bytes → Bytes
digest bs = take 32 (map (λ b. b % 256) (drop 20 bs) ++ zeros 32)

-- A COSE map with a P-256 key.
abbrev cose_value : Value
cose_value = table (
    entry (integer (pos 1)) (integer (pos 2)) (
      entry (integer (pos 3)) (integer (negsuc 6)) (
        entry (integer (negsuc 0)) (integer (pos 1)) (
          entry (integer (negsuc 1)) (byte_string (zeros 32))
            (entry (integer (negsuc 2)) (byte_string (zeros 32)) end)))))

-- Authenticator data of the relying party "a.b", with a present and verified user, the counter 4, and
-- the attested credential `1` with its key.
abbrev pub toy_auth_data : Bytes
toy_auth_data = zeros 32 ++ 0x45 ∷ 0 ∷ 0 ∷ 0 ∷ 4 ∷ zeros 16 ++ 0 ∷ 1 ∷ 1 ∷ 0 ∷ []

abbrev attestation_value : Value
attestation_value =
    table
      (entry (text "fmt") (text "none") (entry (text "authData") (byte_string toy_auth_data) end))

-- An encoding that starts with 1 is the attestation, any other the key.
abbrev toy_value : Bytes → Value
toy_value bs = if get_or bs 0 0 == 1 then attestation_value else cose_value

-- The text is the challenge of the ceremony, behind a 7 if that is a registration.
abbrev toy_client_data : Bytes → Option ClientData
toy_client_data json =
    let creates = get_or json 0 0 == 7 in
    some (record {
      type_ = if creates then "webauthn.create" else "webauthn.get";
      challenge = encode (if creates then drop 1 json else json);
      origin = "https://a.b";
      cross_origin = false;
    })

abbrev pub toy : External
toy = record {
  b64_encode = encode;
  b64_decode = λ s. some (decode_from 0 s);
  sha256 = digest;
  hmac_sha256 = λ key message. digest (key ++ message);
  cbor_from_reader = λ depth bs. some (toy_value bs, length bs);
  cbor_into_writer = λ v. some (0 ∷ []);
  client_data_from_slice = toy_client_data;
  VerifyingKey = Bytes;
  Signature = Bytes;
  from_sec1_bytes = λ bs. some bs;
  from_der = λ bs. some bs;
  verify = λ key message signature. bytes_eq signature (take 8 message);
  x25519_public = λ secret. secret;
  diffie_hellman = λ secret peer. 1 ∷ [];
  encrypt = λ key nonce text. some (zeros 16 ++ text);
  decrypt = λ key nonce text. some (drop 16 text);
}

decode-encode_from :
    (n m : ℕ) (bs : Bytes) → decode_from n (encode (m ∷ bs)) ≡ (n + m) ∷ decode_from 0 (encode bs)
unfolding decode_from encode
decode-encode_from n zero bs = ground arith
decode-encode_from n (suc m) bs = ground (arith, decode-encode_from (suc n) m bs)

decode-encode : (bs : Bytes) → decode_from 0 (encode bs) ≡ bs
unfolding decode_from encode
decode-encode [] = refl
decode-encode (b ∷ bs) = ground (arith, decode-encode_from 0 b bs, decode-encode bs)

encode_unpadded_from :
    (m : ℕ) (bs : Bytes)
    → contains_char b'=' (encode bs) ≡ false
    → contains_char b'=' (encode (m ∷ bs)) ≡ false
unfolding encode
encode_unpadded_from zero bs h = h
encode_unpadded_from (suc m) bs h = encode_unpadded_from m bs h

encode_unpadded : (bs : Bytes) → contains_char b'=' (encode bs) ≡ false
unfolding encode
encode_unpadded [] = refl
encode_unpadded (b ∷ bs) = encode_unpadded_from b bs (encode_unpadded bs)

map-IsBytes : (bs : Bytes) → IsBytes (map (λ b. b % 256) bs)
map-IsBytes [] = tt
map-IsBytes (b ∷ bs) = (omega arith, map-IsBytes bs)

pub zeros-IsBytes : (n : ℕ) → IsBytes (zeros n)
zeros-IsBytes zero = tt
zeros-IsBytes (suc n) = (omega arith, zeros-IsBytes n)

digest-IsBytes : (bs : Bytes) → IsBytes (digest bs)
unfolding digest
digest-IsBytes bs =
    All-take (λ b. b < 256) 32 (map (λ b. b % 256) (drop 20 bs) ++ zeros 32)
      (All-append (λ b. b < 256) _ (zeros 32) (map-IsBytes (drop 20 bs)) (zeros-IsBytes 32))

length-digest : (bs : Bytes) → length (digest bs) ≡ 32
unfolding digest
length-digest bs = omega (
  arith,
  length-take 32 (map (λ b. b % 256) (drop 20 bs) ++ zeros 32),
  length-append (map (λ b. b % 256) (drop 20 bs)) (zeros 32),
)

-- The assumptions on the other crates can be met.
pub toy-Documented : Documented toy
toy-Documented = record {
  unpadded = encode_unpadded;
  decode_encode = λ bs h. ap some (decode-encode bs);
  sha256_bytes = digest-IsBytes;
  sha256_length = length-digest;
}

-- A browser device; `n` tells devices apart.
abbrev pub toy_device : ℕ → DevicePublicRecord
toy_device n = record {
  version = 1;
  kind = webauthn;
  fingerprint = device_fingerprint toy (n ∷ []) (0 ∷ []) (zeros 32);
  credential_id = encode (n ∷ []);
  credential_public_key = encode (0 ∷ []);
  box_public_key = encode (zeros 32);
  label = "phone";
  api_token_hash = encode (zeros 32);
  sign_count = 3;
  active = true;
}

abbrev pub toy_registry : DeviceRegistry
toy_registry = record { version = 1; devices = toy_device 1 ∷ toy_device 2 ∷ [] }

abbrev pub toy_config : HookConfig
toy_config = record {
  version = 1;
  origin = "https://a.b";
  rp_id = "a.b";
  server_base_url = "https://a.b";
}

zeros-opens : (bs : Bytes) → drop 16 (zeros 16 ++ bs) ≡ bs
zeros-opens bs = refl

pub toy-IsBox : IsBox toy
toy-IsBox = record {
  agree = λ a b. refl;
  public_bytes = λ s h. h;
  public_length = λ s h. h;
  opens = λ key nonce text {c} e. ground (arith, zeros-opens text);
  cipher_bytes = λ key nonce text {c} h e.
      ground
        (arith, zeros-IsBytes 16, All-append (λ b. b < 256) (zeros 16) text (zeros-IsBytes 16) h);
}
