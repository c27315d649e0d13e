-- ===== src/Protocol/Tool/CrossOrigin.antt =====
-- protocol/src/tool_v1.rs: the flag that a browser writes into its client data as `crossOrigin`.
use oshioki.Base.{
  ◌≡◌, refl, sym, ◌∙◌, ap, inl, inr, Bool, Bool-cases, true, false, Option, some, String, ◌==◌,
  text_has_eq, eq_iff, if◌then◌else◌, arith,
}
use oshioki.Base.Result.{ok}
use oshioki.Protocol.External.{Bytes, External}
use oshioki.Protocol.Encoding.{decode_base64url}
use oshioki.Protocol.Device.{DevicePublicRecord, HookConfig}
use oshioki.Protocol.Tool.{
  Json, object, Members, end, member, get_member, is_strict, strict_json_value,
  client_data_from_value,
}
use oshioki.Protocol.Tool.Decide.{verify_webauthn_for_challenge}

-- The members of an object without those under the key, wherever they stand.
abbrev pub drop_members : (key : String) → Members → Members
drop_members key end = end
drop_members key (member k v ms) =
    let rest = drop_members key ms in if k == key then rest else member k v rest

clash : {b : Bool} → b ≡ true → b ≡ false → ⊥
clash p q = cc

get_member-drop :
    (key dropped : String) (ms : Members)
    → (key == dropped) ≡ false
    → get_member key (drop_members dropped ms) ≡ get_member key ms
get_member-drop key dropped end h = refl
get_member-drop key dropped (member k v ms) h =
    let rest = get_member-drop key dropped ms h in
    elim (Bool-cases (k == dropped)) [
      | inr other ↦ elim (Bool-cases (k == key)) [
        | inl t ↦ rw (other, t) refl
        | inr u ↦ rw (other, u) rest
      ]
      | inl same ↦ elim (Bool-cases (k == key)) [
        | inl t ↦ absurd (clash (sym (ap (λ s. s == dropped) ((eq_iff k key).0 t)) ∙ same) h)
        | inr u ↦ rw (same, u) rest
      ]
    ]

flag_unread :
    (ms : Members)
    → client_data_from_value (object ms)
      ≡ client_data_from_value (object (drop_members "crossOrigin" ms))
unfolding client_data_from_value
flag_unread ms =
    rw
      (
        get_member-drop "type" "crossOrigin" ms refl,
        get_member-drop "challenge" "crossOrigin" ms refl,
        get_member-drop "origin" "crossOrigin" ms refl,
        get_member-drop "cross_origin" "crossOrigin" ms refl,
      )
      refl

strict_parse :
    (from_slice : Bytes → Option Json) (raw : Bytes) (value : Json)
    → from_slice raw ≡ some value
    → is_strict value ≡ true
    → strict_json_value from_slice raw ≡ ok value
unfolding strict_json_value
strict_parse from_slice raw value p s = ground (arith, p, s)

module _ (x : External) where
  -- Whatever a client data object says under the key `crossOrigin`, `true` included and wherever among
  -- its members, the verification of a tool decision gives the result that it gives for the same object
  -- without that member; both objects are assumed to have no repeated key.
  pub cross_origin_unread :
      (with_flag without_flag : Bytes → Option Json)
      (authenticator_data client_data_json signature : String) (expected json : Bytes)
      (device : DevicePublicRecord) (config : HookConfig) (ms : Members)
      → decode_base64url x client_data_json ≡ ok json
      → with_flag json ≡ some (object ms)
      → without_flag json ≡ some (object (drop_members "crossOrigin" ms))
      → is_strict (object ms) ≡ true
      → is_strict (object (drop_members "crossOrigin" ms)) ≡ true
      → verify_webauthn_for_challenge x with_flag authenticator_data client_data_json signature
          expected device config
        ≡ verify_webauthn_for_challenge x without_flag authenticator_data client_data_json signature
            expected device config
  unfolding verify_webauthn_for_challenge
  cross_origin_unread with_flag without_flag authenticator_data client_data_json signature expected
        json device config ms d p q s t =
      rw
        (d, strict_parse with_flag json _ p s, strict_parse without_flag json _ q t, flag_unread ms)
        refl
