-- ===== src/Protocol/Cbor/Bounds.antt =====
-- `validate_cbor_value` of protocol/src/webauthn_v1.rs, and the sizes that it bounds.
use Prim.Native.Nat.{max}
use oshioki.Base.{
  ℕ, suc, ◌+◌, ◌≤◌, ◌≡◌, refl, ap, ◌∙◌, ◌↔◌, Bool, false, true, if◌then◌else◌, Option, none, some,
  List, [], ◌∷◌, arith, any,
}
use oshioki.Protocol.Cbor.{
  Value, tag, array, table, Items, nil, item, Entries, end, entry, max_cbor_depth, max_cbor_items,
  cbor_values_equal, count_item, validate_cbor_value, validate_items, validate_entries, ◌>>=◌,
}

mutual
  -- The number of values, the value itself and each map key included.
  pub nodes : Value → ℕ
  nodes (tag n v) = suc (nodes v)
  nodes (array vs) = suc (nodes_items vs)
  nodes (table es) = suc (nodes_entries es)
  nodes _ = 1

  pub nodes_items : Items → ℕ
  nodes_items nil = 0
  nodes_items (item v vs) = nodes v + nodes_items vs

  pub nodes_entries : Entries → ℕ
  nodes_entries end = 0
  nodes_entries (entry k v es) = nodes k + nodes v + nodes_entries es

mutual
  -- How far the deepest value lies below the root.
  pub height : Value → ℕ
  height (tag n v) = suc (height v)
  height (array vs) = height_items vs
  height (table es) = height_entries es
  height _ = 0

  pub height_items : Items → ℕ
  height_items nil = 0
  height_items (item v vs) = max (suc (height v)) (height_items vs)

  pub height_entries : Entries → ℕ
  height_entries end = 0
  height_entries (entry k v es) = max (suc (max (height k) (height v))) (height_entries es)

mutual
  -- No map at any depth has two keys that the code takes for equal.
  pub HasDistinctKeys : Value → Type 0
  HasDistinctKeys (tag n v) = HasDistinctKeys v
  HasDistinctKeys (array vs) = HasDistinctKeysItems vs
  HasDistinctKeys (table es) = HasDistinctKeysEntries es []
  HasDistinctKeys _ = Unit

  pub HasDistinctKeysItems : Items → Type 0
  HasDistinctKeysItems nil = Unit
  HasDistinctKeysItems (item v vs) = HasDistinctKeys v × HasDistinctKeysItems vs

  pub HasDistinctKeysEntries : Entries → List Value → Type 0
  HasDistinctKeysEntries end previous = Unit
  HasDistinctKeysEntries (entry k v es) previous =
      (any (λ p. cbor_values_equal p k) previous ≡ false)
      × HasDistinctKeys k
      × HasDistinctKeys v
      × HasDistinctKeysEntries es (k ∷ previous)

abbrev Accepted : (depth n m height nodes : ℕ) → Type 0
Accepted depth n m height nodes =
    (depth + height ≤ max_cbor_depth) × (m ≡ n + nodes) × (m ≤ max_cbor_items)

count_item_sound :
    (d n c : ℕ)
    → count_item d n ≡ some c
    → (d ≤ max_cbor_depth) × (c ≡ n + 1) × (c ≤ max_cbor_items)
unfolding count_item
count_item_sound d n c h = ground arith

bind-eq-some :
    (m : Option ℕ) (f : ℕ → Option ℕ) (r : ℕ)
    → (m >>= f) ≡ some r
    → (c : ℕ) × (m ≡ some c) × (f c ≡ some r)
bind-eq-some none f r h = cc
bind-eq-some (some c) f r h = (c, refl, h)

split_test :
    (test : Bool) (rest : Option ℕ) {m : ℕ}
    → (if test then none else rest) ≡ some m
    → (test ≡ false) × (rest ≡ some m)
split_test true rest h = cc
split_test false rest h = (refl, h)

mutual
  unfolding validate_cbor_value nodes height HasDistinctKeys

  sound :
      (v : Value) (d n m : ℕ)
      → validate_cbor_value v d n ≡ some m
      → Accepted d n m (height v) (nodes v) × HasDistinctKeys v
  sound (tag t v) d n m h =
      let (c, e, h') = bind-eq-some (count_item d n) _ m h in
      let (a, keys) = sound v (d + 1) c m h' in (omega (arith, count_item_sound d n c e), keys)
  sound (array vs) d n m h =
      let (c, e, h') = bind-eq-some (count_item d n) _ m h in
      let (deep, total, few) = count_item_sound d n c e in
      let (a, keys) = sound_items vs d c m deep few h' in (omega arith, keys)
  sound (table es) d n m h =
      let (c, e, h') = bind-eq-some (count_item d n) _ m h in
      let (deep, total, few) = count_item_sound d n c e in
      let (a, keys) = sound_entries es [] d c m deep few h' in (omega arith, keys)
  sound _ d n m h = (omega (arith, count_item_sound d n m h), tt)

  sound_items :
      (vs : Items) (d n m : ℕ)
      → d ≤ max_cbor_depth
      → n ≤ max_cbor_items
      → validate_items vs (d + 1) n ≡ some m
      → Accepted d n m (height_items vs) (nodes_items vs) × HasDistinctKeysItems vs
  sound_items nil d n m deep few h = (ground arith, tt)
  sound_items (item v vs) d n m deep few h =
      let (c, e, h') = bind-eq-some (validate_cbor_value v (d + 1) n) _ m h in
      let (a, keys) = sound v (d + 1) n c e in
      let (b, keys') = sound_items vs d c m deep (omega arith) h' in (omega arith, (keys, keys'))

  sound_entries :
      (es : Entries) (previous : List Value) (d n m : ℕ)
      → d ≤ max_cbor_depth
      → n ≤ max_cbor_items
      → validate_entries es previous (d + 1) n ≡ some m
      → Accepted d n m (height_entries es) (nodes_entries es) × HasDistinctKeysEntries es previous
  sound_entries end previous d n m deep few h = (ground arith, tt)
  sound_entries (entry k v es) previous d n m deep few h =
      let rest : Option ℕ = validate_cbor_value k (d + 1) n >>= λ count.
      validate_cbor_value v (d + 1) count >>= λ count'.
      validate_entries es (k ∷ previous) (d + 1) count' in
      let (new, h') = split_test (any (λ p. cbor_values_equal p k) previous) rest h in
      let (c, e, h₂) = bind-eq-some (validate_cbor_value k (d + 1) n) _ m h' in
      let (c', e', h₃) = bind-eq-some (validate_cbor_value v (d + 1) c) _ m h₂ in
      let (a, keys) = sound k (d + 1) n c e in
      let (b, keys') = sound v (d + 1) c c' e' in
      let (b', keys₂) = sound_entries es (k ∷ previous) d c' m deep (omega arith) h₃ in
      (omega arith, (new, keys, keys', keys₂))

count_item_complete :
    (d n : ℕ) → d ≤ max_cbor_depth → n + 1 ≤ max_cbor_items → count_item d n ≡ some (n + 1)
unfolding count_item
count_item_complete d n p q = ground arith

mutual
  unfolding validate_cbor_value nodes height HasDistinctKeys

  complete :
      (v : Value) (d n m : ℕ)
      → Accepted d n m (height v) (nodes v)
      → HasDistinctKeys v
      → validate_cbor_value v d n ≡ some m
  complete (tag t v) d n m a keys =
      rw (count_item_complete d n (omega arith) (omega arith))
        (complete v (d + 1) (n + 1) m (omega arith) keys)
  complete (array vs) d n m a keys =
      rw (count_item_complete d n (omega arith) (omega arith))
        (complete_items vs d (n + 1) m (omega arith) keys)
  complete (table es) d n m a keys =
      rw (count_item_complete d n (omega arith) (omega arith))
        (complete_entries es [] d (n + 1) m (omega arith) keys)
  complete _ d n m a keys =
      count_item_complete d n (omega arith) (omega arith) ∙ ap some (omega arith)

  complete_items :
      (vs : Items) (d n m : ℕ)
      → Accepted d n m (height_items vs) (nodes_items vs)
      → HasDistinctKeysItems vs
      → validate_items vs (d + 1) n ≡ some m
  complete_items nil d n m a keys = ap some (omega arith)
  complete_items (item v vs) d n m a (keys, keys') =
      rw (complete v (d + 1) n (n + nodes v) (omega arith) keys)
        (complete_items vs d (n + nodes v) m (omega arith) keys')

  complete_entries :
      (es : Entries) (previous : List Value) (d n m : ℕ)
      → Accepted d n m (height_entries es) (nodes_entries es)
      → HasDistinctKeysEntries es previous
      → validate_entries es previous (d + 1) n ≡ some m
  complete_entries end previous d n m a keys = ap some (omega arith)
  complete_entries (entry k v es) previous d n m a (new, keys, keys', keys₂) =
      rw
        (
          new,
          complete k (d + 1) n (n + nodes k) (omega arith) keys,
          complete v (d + 1) (n + nodes k) (n + nodes k + nodes v) (omega arith) keys',
        )
        (complete_entries es (k ∷ previous) d (n + nodes k + nodes v) m (omega arith) keys₂)

-- `validate_cbor_value`, started at the root with a count of 0, accepts a value exactly when no value
-- lies more than 16 levels below the root, there are at most 256 values in all, and no map at any
-- depth has two equal keys; the count that it returns is then the number of values.
pub validate_cbor_value_iff :
    (v : Value) (m : ℕ)
    → (validate_cbor_value v 0 0 ≡ some m) ↔ (
        (height v ≤ max_cbor_depth)
        × (m ≡ nodes v)
        × (nodes v ≤ max_cbor_items)
        × HasDistinctKeys v)
validate_cbor_value_iff v m = (
  λ h. let (a, keys) = sound v 0 0 m h in (omega arith, omega arith, omega arith, keys),
  λ (a : (height v ≤ max_cbor_depth)
        × (m ≡ nodes v)
        × (nodes v ≤ max_cbor_items)
        × HasDistinctKeys v).
      complete v 0 0 m (omega arith) a.3,
)
