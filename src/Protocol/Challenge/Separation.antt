-- ===== src/Protocol/Challenge/Separation.antt =====
-- The statements that devices sign, the messages hashed for them, and their challenges.
use oshioki.Base.{
  ℕ, ◌<◌, ◌^◌, ◌≡◌, ◌≢◌, ◌↔◌, refl, sym, ◌∙◌, ap, ap₂, inl, inr, ◌⊎◌, true, [], ◌∷◌, ◌++◌, String,
  arith, All, get_or, length, bytes, bytes_inj, append_inj, framed_inj, u64_to_be_bytes_inj,
  Bool-cases, all,
}
use oshioki.Protocol.Encoding.{is_id_byte, valid_id}
use oshioki.Protocol.Cbor.{bytes_eq}
use oshioki.Protocol.External.{Bytes, External}
use oshioki.Protocol.Challenge.{
  ToolDecisionAction, approve, deny, challenge_domain, deny_domain, auth_challenge_domain,
  tool_domain, browser_relay_challenge_domain, deny_body, browser_relay_body, approve_challenge,
  deny_challenge, auth_challenge, tool_approval_challenge, browser_relay_challenge,
}

-- What a device can be asked to sign with its credential key.
pub data Statement : Type 0 where
  approve_command : Bytes → Statement
  deny_command : (request_id device_fingerprint : String) → Statement
  authenticate : Bytes → Statement
  decide_tool : ToolDecisionAction → Bytes → Statement
  approve_ceremony : (lane attempt : String) (expires : ℕ) (nonce account : String) → Statement

abbrev HasNoZero : Bytes → Type 0
HasNoZero = All (λ b. b ≢ 0)

id-HasNoZero : (bs : Bytes) → all is_id_byte bs ≡ true → HasNoZero bs
id-HasNoZero [] h = tt
id-HasNoZero (b ∷ bs) h = (ground arith, id-HasNoZero bs (ground arith))

valid_id-HasNoZero : (s : String) → valid_id s ≡ true → HasNoZero (bytes s)
unfolding valid_id
valid_id-HasNoZero s h = id-HasNoZero (bytes s) (ground arith)

-- Each verifier and each decoder checks the request id; lengths and times are `u64`.
abbrev pub IsSmall : String → Type 0
IsSmall s = length (bytes s) < 2 ^ 64

abbrev pub IsSpelled : Statement → Type 0
IsSpelled (deny_command request_id _) = valid_id request_id ≡ true
IsSpelled (approve_ceremony lane attempt expires nonce account) =
    IsSmall lane × IsSmall attempt × (expires < 2 ^ 64) × IsSmall nonce × IsSmall account
IsSpelled _ = Unit

-- What the source hashes for a statement.
abbrev pub preimage : Statement → Bytes
preimage (approve_command raw) = challenge_domain ++ raw
preimage (deny_command i f) = deny_domain ++ deny_body i f
preimage (authenticate raw) = auth_challenge_domain ++ raw
preimage (decide_tool a raw) = tool_domain a ++ raw
preimage (approve_ceremony l a e n c) =
    browser_relay_challenge_domain ++ browser_relay_body l a e n c

-- Cutting at the first zero byte.
cut_inj :
    (xs ys us vs : Bytes)
    → HasNoZero xs
    → HasNoZero ys
    → xs ++ 0 ∷ us ≡ ys ++ 0 ∷ vs
    → (xs ≡ ys) × (us ≡ vs)
cut_inj [] [] us vs hx hy e = (refl, cc)
cut_inj [] (y ∷ ys) us vs hx (hy, _) e = absurd (ground arith)
cut_inj (x ∷ xs) [] us vs (hx, _) hy e = absurd (ground arith)
cut_inj (x ∷ xs) (y ∷ ys) us vs (_, hx) (_, hy) e =
    let ih = cut_inj xs ys us vs hx hy (cc) in (cc (ih.0), ih.1)

ceremony_inj :
    (l a : String) (e : ℕ) (n c l' a' : String) (e' : ℕ) (n' c' : String)
    → IsSpelled (approve_ceremony l a e n c)
    → IsSpelled (approve_ceremony l' a' e' n' c')
    → browser_relay_body l a e n c ≡ browser_relay_body l' a' e' n' c'
    → approve_ceremony l a e n c ≡ approve_ceremony l' a' e' n' c'
ceremony_inj l a e n c l' a' e' n' c' (hl, ha, he, hn, hc) (kl, ka, ke, kn, kc) eq =
    let (el, r₁) = framed_inj (bytes l) (bytes l') _ _ hl kl eq in
    let (ea, r₂) = framed_inj (bytes a) (bytes a') _ _ ha ka r₁ in
    let (en, r₃) = framed_inj (bytes n) (bytes n') _ _ hn kn r₂ in
    let (ec, r₄) = framed_inj (bytes c) (bytes c') _ _ hc kc r₃ in
    cc (
      bytes_inj l l' el,
      bytes_inj a a' ea,
      bytes_inj n n' en,
      bytes_inj c c' ec,
      u64_to_be_bytes_inj e e' he ke r₄,
    )

append_cancel : (p xs ys : Bytes) → p ++ xs ≡ p ++ ys → xs ≡ ys
append_cancel p xs ys e = (append_inj p p xs ys refl e).1

-- Two domains differ at their ninth, tenth or twenty-third byte.
domains_differ :
    {A : Type 0} (s t : Bytes)
    → s ≡ t
    → (get_or s 8 0 ≢ get_or t 8 0)
      ⊎ (get_or s 9 0 ≢ get_or t 9 0)
      ⊎ (get_or s 22 0 ≢ get_or t 22 0)
    → A
domains_differ s t e (inl d) = absurd (d (ap (λ (bs : Bytes). get_or bs 8 0) e))
domains_differ s t e (inr (inl d)) = absurd (d (ap (λ (bs : Bytes). get_or bs 9 0) e))
domains_differ s t e (inr (inr d)) = absurd (d (ap (λ (bs : Bytes). get_or bs 22 0) e))

preimage_inj : (s t : Statement) → IsSpelled s → IsSpelled t → preimage s ≡ preimage t → s ≡ t
preimage_inj (approve_command raw) (approve_command raw') hs ht e =
    ap approve_command (append_cancel challenge_domain raw raw' e)
preimage_inj (deny_command i f) (deny_command i' f') hs ht e =
    let (ei, ef) =
      cut_inj (bytes i) (bytes i') (bytes f) (bytes f') (valid_id-HasNoZero i hs)
        (valid_id-HasNoZero i' ht) (append_cancel deny_domain _ _ e) in
    ap₂ deny_command (bytes_inj i i' ei) (bytes_inj f f' ef)
preimage_inj (authenticate raw) (authenticate raw') hs ht e =
    ap authenticate (append_cancel auth_challenge_domain raw raw' e)
preimage_inj (decide_tool approve raw) (decide_tool approve raw') hs ht e =
    ap (decide_tool approve) (append_cancel (tool_domain approve) raw raw' e)
preimage_inj (decide_tool deny raw) (decide_tool deny raw') hs ht e =
    ap (decide_tool deny) (append_cancel (tool_domain deny) raw raw' e)
preimage_inj (approve_ceremony l a e n c) (approve_ceremony l' a' e' n' c') hs ht eq =
    ceremony_inj l a e n c l' a' e' n' c' hs ht
      (append_cancel browser_relay_challenge_domain _ _ eq)
preimage_inj (decide_tool approve raw) t hs ht e =
    domains_differ (preimage (decide_tool approve raw)) (preimage t) e (omega arith)
preimage_inj (decide_tool deny raw) t hs ht e =
    domains_differ (preimage (decide_tool deny raw)) (preimage t) e (omega arith)
preimage_inj s (decide_tool approve raw) hs ht e =
    domains_differ (preimage s) (preimage (decide_tool approve raw)) e (omega arith)
preimage_inj s (decide_tool deny raw) hs ht e =
    domains_differ (preimage s) (preimage (decide_tool deny raw)) e (omega arith)
preimage_inj s t hs ht e = domains_differ (preimage s) (preimage t) e (omega arith)

-- Two messages that are a collision of the function.
abbrev pub IsCollision : (hash : Bytes → Bytes) → (first second : Bytes) → Type 0
IsCollision hash first second = (first ≢ second) × (hash first ≡ hash second)

bytes_eq-eq : (xs ys : Bytes) → bytes_eq xs ys ≡ true → xs ≡ ys
bytes_eq-eq [] [] h = refl
bytes_eq-eq [] (y ∷ ys) h = cc
bytes_eq-eq (x ∷ xs) [] h = cc
bytes_eq-eq (x ∷ xs) (y ∷ ys) h =
    let same : x ≡ y = ground arith in ap₂ ◌∷◌ same (bytes_eq-eq xs ys (ground arith))

bytes_eq_refl : (xs : Bytes) → bytes_eq xs xs ≡ true
bytes_eq_refl [] = refl
bytes_eq_refl (x ∷ xs) = ground (arith, bytes_eq_refl xs)

pub bytes_eq_iff : (xs ys : Bytes) → (bytes_eq xs ys ≡ true) ↔ (xs ≡ ys)
bytes_eq_iff xs ys = (bytes_eq-eq xs ys, λ p. ap (bytes_eq xs) (sym p) ∙ bytes_eq_refl xs)

-- Messages with one digest are one message, or a collision.
pub eq-or-IsCollision :
    (hash : Bytes → Bytes) (xs ys : Bytes) → hash xs ≡ hash ys → (xs ≡ ys) ⊎ IsCollision hash xs ys
eq-or-IsCollision hash xs ys e = elim (Bool-cases (bytes_eq xs ys)) [
  | inl same ↦ inl (bytes_eq-eq xs ys same)
  | inr other ↦ inr (λ p. cc (bytes_eq_refl xs, ap (bytes_eq xs) p, other), e)
]

module _ (x : External) where
  -- The challenge that the source computes for each statement.
  abbrev pub challenge : Statement → Bytes
  challenge (approve_command raw) = approve_challenge x raw
  challenge (deny_command i f) = deny_challenge x i f
  challenge (authenticate raw) = auth_challenge x raw
  challenge (decide_tool a raw) = tool_approval_challenge x a raw
  challenge (approve_ceremony l a e n c) = browser_relay_challenge x l a e n c

  challenge-eq-hash : (s : Statement) → challenge s ≡ x.sha256 (preimage s)
  unfolding approve_challenge deny_challenge auth_challenge tool_approval_challenge
      browser_relay_challenge
  challenge-eq-hash (approve_command raw) = refl
  challenge-eq-hash _ = refl

  -- If the challenges of two statements agree, where the ids of denials are valid and the lengths and
  -- times of ceremonies are below 2^64, then the statements are the same (the same lane, the same raw
  -- request, the same request id and device of a denial, the same decision on a tool, the same five
  -- fields of a ceremony), or the two messages that are hashed for them are a collision of SHA-256.
  pub challenge_binding :
      (s t : Statement)
      → IsSpelled s
      → IsSpelled t
      → challenge s ≡ challenge t
      → (s ≡ t) ⊎ IsCollision x.sha256 (preimage s) (preimage t)
  challenge_binding s t hs ht e =
      elim (eq-or-IsCollision x.sha256 (preimage s) (preimage t)
        (sym (challenge-eq-hash s) ∙ e ∙ challenge-eq-hash t)) [
          | inl same ↦ inl (preimage_inj s t hs ht same)
          | inr found ↦ inr found
        ]
