-- ===== src/Protocol/Tool/Strict.antt =====
-- What the strict reading of JSON rejects, and what it lets through.
use oshioki.Base.{
  ◌≡◌, ◌≢◌, ◌↔◌, refl, ap, sym, ◌∙◌, Bool-cases, true, Option, some, List, [], ◌∷◌, String, arith,
  All, text_has_eq, inl, inr, Option-cases,
}
use oshioki.Base.Result.{ok}
use oshioki.Protocol.External.{Bytes}
use oshioki.Protocol.Device.RegistryLaws.{IsFresh, any-IsFresh, IsFresh-any}
use oshioki.Protocol.Tool.{
  Json, array, object, Items, nil, item, Members, end, member, is_strict, are_strict,
  are_strict_members, strict_json_value,
}

abbrev keys : Members → List String
keys end = []
keys (member k v ms) = k ∷ keys ms

-- No key stands at two places.
abbrev HasNoRepeat : List String → Type 0
HasNoRepeat [] = Unit
HasNoRepeat (k ∷ ks) = All (λ l. k ≢ l) ks × HasNoRepeat ks

-- No object at any depth has a repeated key.
mutual
  pub HasUniqueKeys : Json → Type 0
  HasUniqueKeys (array vs) = AllUnique vs
  HasUniqueKeys (object ms) = HasNoRepeat (keys ms) × AllMembersUnique ms
  HasUniqueKeys _ = Unit

  AllUnique : Items → Type 0
  AllUnique nil = Unit
  AllUnique (item v vs) = HasUniqueKeys v × AllUnique vs

  AllMembersUnique : Members → Type 0
  AllMembersUnique end = Unit
  AllMembersUnique (member k v ms) = HasUniqueKeys v × AllMembersUnique ms

split-IsFresh :
    (k : String) (seen ls : List String)
    → All (λ l. IsFresh l (k ∷ seen)) ls ↔ All (λ l. k ≢ l) ls × All (λ l. IsFresh l seen) ls
split-IsFresh k seen [] = (λ h. (tt, tt), λ h. tt)
split-IsFresh k seen (l ∷ ls) =
    let (to, from) = split-IsFresh k seen ls in
    (λ ((n, f), h). ((n, (to h).0), (f, (to h).1)), λ ((n, ns), (f, fs)). ((n, f), from (ns, fs)))

All-IsFresh : (ls : List String) → All (λ l. IsFresh l []) ls
All-IsFresh [] = tt
All-IsFresh (l ∷ ls) = (tt, All-IsFresh ls)

mutual
  unfolding is_strict are_strict are_strict_members HasUniqueKeys

  strict_sound : (v : Json) → is_strict v ≡ true → HasUniqueKeys v
  strict_sound (array vs) h = strict_items_sound vs h
  strict_sound (object ms) h =
      let (fresh, rest, unique) = strict_members_sound [] ms h in (rest, unique)
  strict_sound _ h = tt

  strict_items_sound : (vs : Items) → are_strict vs ≡ true → AllUnique vs
  strict_items_sound nil h = tt
  strict_items_sound (item v vs) h =
      (strict_sound v (ground arith), strict_items_sound vs (ground arith))

  strict_members_sound :
      (seen : List String) (ms : Members)
      → are_strict_members seen ms ≡ true
      → All (λ l. IsFresh l seen) (keys ms) × HasNoRepeat (keys ms) × AllMembersUnique ms
  strict_members_sound seen end h = (tt, tt, tt)
  strict_members_sound seen (member k v ms) h =
      let (fresh, rest, unique) = strict_members_sound (k ∷ seen) ms (ground arith) in
      let (differ, fresh') = (split-IsFresh k seen (keys ms)).0 fresh in
      (
        (any-IsFresh k seen (ground arith), fresh'),
        (differ, rest),
        (strict_sound v (ground arith), unique),
      )

mutual
  unfolding is_strict are_strict are_strict_members HasUniqueKeys

  strict_complete : (v : Json) → HasUniqueKeys v → is_strict v ≡ true
  strict_complete (array vs) h = strict_items_complete vs h
  strict_complete (object ms) (n, u) = strict_members_complete [] ms (All-IsFresh (keys ms)) n u
  strict_complete _ h = refl

  strict_items_complete : (vs : Items) → AllUnique vs → are_strict vs ≡ true
  strict_items_complete nil h = refl
  strict_items_complete (item v vs) (u, us) = rw (strict_complete v u) (strict_items_complete vs us)

  strict_members_complete :
      (seen : List String) (ms : Members)
      → All (λ l. IsFresh l seen) (keys ms)
      → HasNoRepeat (keys ms)
      → AllMembersUnique ms
      → are_strict_members seen ms ≡ true
  strict_members_complete seen end f n u = refl
  strict_members_complete seen (member k v ms) (f, fs) (n, ns) (u, us) =
      rw (IsFresh-any k seen f, strict_complete v u)
        (strict_members_complete (k ∷ seen) ms ((split-IsFresh k seen (keys ms)).1 (n, fs)) ns us)

-- The strict reading gives a value exactly when the text parses to it and no object in it, at any
-- depth, has a repeated key.
pub strict_json_value_iff :
    (from_slice : Bytes → Option Json) (raw : Bytes) (value : Json)
    → (strict_json_value from_slice raw ≡ ok value)
      ↔ ((from_slice raw ≡ some value) × HasUniqueKeys value)
unfolding strict_json_value
strict_json_value_iff from_slice raw value = (
  λ h. elim (Option-cases (from_slice raw)) [
    | inl n ↦ absurd (ground (arith, n))
    | inr (v, p) ↦ elim (Bool-cases (is_strict v)) [
      | inl s ↦
          let same : v ≡ value = ground (arith, p, s) in
          (p ∙ ap some same, strict_sound value (sym (ap is_strict same) ∙ s))
      | inr s ↦ absurd (ground (arith, p, s))
    ]
  ],
  λ (p, u). ground (arith, p, strict_complete value u),
)
