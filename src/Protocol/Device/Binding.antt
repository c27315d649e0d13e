-- ===== src/Protocol/Device/Binding.antt =====
-- The fingerprint of a device: `device_fingerprint` of protocol/src/v1.rs and what it hashes.
use oshioki.Base.{
  ◌<◌, ◌^◌, ◌≡◌, refl, sym, ap, ◌∙◌, inl, inr, ◌⊎◌, some, length, bytes, [], ◌∷◌, ◌++◌,
  u64_to_be_bytes, take, append_inj, framed_inj, All-take,
}
use oshioki.Protocol.External.{Bytes, External, Documented}
use oshioki.Protocol.Encoding.{encode_base64url}
use oshioki.Protocol.Challenge.Separation.{IsCollision, eq-or-IsCollision}
use oshioki.Protocol.Device.{fingerprint_domain, fingerprint_preimage, device_fingerprint}

fingerprint_preimage_inj :
    (i k b i' k' b' : Bytes)
    → length i < 2 ^ 64
    → length k < 2 ^ 64
    → length i' < 2 ^ 64
    → length k' < 2 ^ 64
    → fingerprint_preimage i k b ≡ fingerprint_preimage i' k' b'
    → (i ≡ i') × (k ≡ k') × (b ≡ b')
unfolding fingerprint_preimage
fingerprint_preimage_inj i k b i' k' b' hi hk hi' hk' e =
    let (_, tail) = append_inj fingerprint_domain fingerprint_domain _ _ refl e in
    let (same_id, rest) = framed_inj i i' _ _ hi hi' tail in
    let (same_key, same_box) = framed_inj k k' b b' hk hk' rest in (same_id, same_key, same_box)

some_inj {ℓ} : {A : Type ℓ} {a b : A} → some a ≡ some b → a ≡ b
some_inj e = cc

-- The messages, written out.
abbrev pub hashed : (id key box : Bytes) → Bytes
hashed id key box =
    (bytes "oshioki/fingerprint/v1" ++ 0 ∷ [])
    ++ (u64_to_be_bytes (length id) ++ (id ++ (u64_to_be_bytes (length key) ++ (key ++ box))))

module _ (x : External) (doc : Documented x) where
  -- Two devices with one fingerprint have the same credential id, the same credential key and the same
  -- box key, the ids and credential keys being shorter than 2^64 bytes; or the two messages that are
  -- hashed (the domain, then each of the three behind its length but the last) are different and their
  -- digests agree in the first 16 bytes.
  pub device_fingerprint_binding :
      (i k b i' k' b' : Bytes)
      → length i < 2 ^ 64
      → length k < 2 ^ 64
      → length i' < 2 ^ 64
      → length k' < 2 ^ 64
      → device_fingerprint x i k b ≡ device_fingerprint x i' k' b'
      → ((i ≡ i') × (k ≡ k') × (b ≡ b'))
        ⊎ IsCollision (λ bs. take 16 (x.sha256 bs)) (hashed i k b) (hashed i' k' b')
  unfolding device_fingerprint encode_base64url fingerprint_preimage
  device_fingerprint_binding i k b i' k' b' hi hk hi' hk' e =
      let digest = λ (bs : Bytes). take 16 (x.sha256 bs) in
      let back = λ (bs : Bytes).
        doc.decode_encode (digest bs) (All-take (λ b. b < 256) 16 _ (doc.sha256_bytes bs)) in
      let p = fingerprint_preimage i k b in
      let p' = fingerprint_preimage i' k' b' in
      elim (eq-or-IsCollision digest p p' (some_inj (sym (back p) ∙ ap x.b64_decode e ∙ back p'))) [
        | inl same ↦ inl (fingerprint_preimage_inj i k b i' k' b' hi hk hi' hk' same)
        | inr found ↦ inr found
      ]
