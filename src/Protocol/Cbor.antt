-- ===== src/Protocol/Cbor.antt =====
-- protocol/src/webauthn_v1.rs: the checks on a decoded CBOR value, `validate_cbor_value` and
-- `cbor_values_equal`. `Value` is `ciborium::Value`; an array and a map have list types of their own.
pub mod Bounds
pub mod Equality
use oshioki.Base.{
  ℕ, zero, suc, ◌+◌, ◌-◌, ◌^◌, Bool, true, false, ◌&&◌, Option, none, some, List, [], ◌∷◌, any, ltb,
  nat_eq, leb, ◌==◌, nat_has_eq, text_has_eq, String, if◌then◌else◌,
}
use oshioki.Base.Int.{ℤ, pos, negsuc}

mutual
  pub data Value : Type 0 where
    integer : ℤ → Value
    byte_string : List ℕ → Value
    -- a float, by the bits that `f64::to_bits` gives
    float : ℕ → Value
    text : String → Value
    boolean : Bool → Value
    null : Value
    tag : ℕ → Value → Value
    array : Items → Value
    table : Entries → Value

  pub data Items : Type 0 where
    nil : Items
    item : Value → Items → Items

  pub data Entries : Type 0 where
    end : Entries
    entry : (key value : Value) → Entries → Entries

abbrev pub max_cbor_depth : ℕ
max_cbor_depth = 16

abbrev pub max_cbor_items : ℕ
max_cbor_items = 256

abbrev pub int_eq : ℤ → ℤ → Bool
int_eq (pos a) (pos b) = a == b
int_eq (negsuc a) (negsuc b) = a == b
int_eq _ _ = false

abbrev pub bytes_eq : List ℕ → List ℕ → Bool
bytes_eq [] [] = true
bytes_eq (a ∷ as') (b ∷ bs) = a == b && bytes_eq as' bs
bytes_eq _ _ = false

abbrev pub bool_eq : Bool → Bool → Bool
bool_eq true b = b
bool_eq false true = false
bool_eq false false = true

-- The right map's entries, each with its flag in the `matched` vector.
abbrev pub Marked : Type 0
Marked = List (Value × Value × Bool)

abbrev pub unmatched : Entries → Marked
unmatched end = []
unmatched (entry k v es) = (k, v, false) ∷ unmatched es

abbrev pub size_entries : Entries → ℕ
size_entries end = 0
size_entries (entry k v es) = suc (size_entries es)

-- The inner `any` of the map case: the first entry that is not matched yet, and whose key and value
-- pass, is marked.
unfoldable pub claim : (Value → Bool) → (Value → Bool) → Marked → Option Marked
claim same_key same_value [] = none
claim same_key same_value ((k, v, matched) ∷ rest) =
    let later = claim same_key same_value rest in
    let keep : Option Marked = elim later [
      | none ↦ none
      | some more ↦ some ((k, v, matched) ∷ more)
    ] in
    elim matched [
      | true ↦ keep
      | false ↦ if same_key k && same_value v then some ((k, v, true) ∷ rest) else keep
    ]

unfoldable mutual
  pub cbor_values_equal : Value → Value → Bool
  cbor_values_equal (integer a) (integer b) = int_eq a b
  cbor_values_equal (byte_string a) (byte_string b) = bytes_eq a b
  cbor_values_equal (text a) (text b) = a == b
  cbor_values_equal (float a) (float b) = a == b
  cbor_values_equal (boolean a) (boolean b) = bool_eq a b
  cbor_values_equal null null = true
  cbor_values_equal (tag m a) (tag n b) = m == n && cbor_values_equal a b
  cbor_values_equal (array as') (array bs) = items_equal as' bs
  cbor_values_equal (table as') (table bs) =
      size_entries as' == size_entries bs && entries_equal as' (unmatched bs)
  cbor_values_equal _ _ = false

  -- `left.len() == right.len()` and `zip` with `all`, in one walk
  pub items_equal : Items → Items → Bool
  items_equal nil nil = true
  items_equal (item a as') (item b bs) = cbor_values_equal a b && items_equal as' bs
  items_equal _ _ = false

  pub entries_equal : Entries → Marked → Bool
  entries_equal end rs = true
  entries_equal (entry k v es) rs = elim (claim (cbor_values_equal k) (cbor_values_equal v) rs) [
    | none ↦ false
    | some marked ↦ entries_equal es marked
  ]

-- `*item_count = item_count.checked_add(1)?`, after the depth check and before the item check
unfoldable pub count_item : (depth item_count : ℕ) → Option ℕ
count_item depth item_count =
    if ltb max_cbor_depth depth
    then none
    else if leb (2 ^ 64 - 1) item_count
    then none
    else if ltb max_cbor_items (item_count + 1)
    then none
    else some (item_count + 1)

infixl 5 ◌>>=◌
abbrev pub ◌>>=◌ {ℓ κ} :
    {From : Type ℓ} {To : Type κ} → (step : Option From) (rest : From → Option To) → Option To
some count >>= rest = rest count
none >>= rest = none

unfoldable mutual
  unfolding count_item

  -- The new item count, or `none` for `Err(())`.
  pub validate_cbor_value : Value → (depth item_count : ℕ) → Option ℕ
  validate_cbor_value (tag n v) depth item_count =
      count_item depth item_count >>= λ count. validate_cbor_value v (depth + 1) count
  validate_cbor_value (array vs) depth item_count =
      count_item depth item_count >>= λ count. validate_items vs (depth + 1) count
  validate_cbor_value (table es) depth item_count =
      count_item depth item_count >>= λ count. validate_entries es [] (depth + 1) count
  validate_cbor_value _ depth item_count = count_item depth item_count

  pub validate_items : Items → (depth item_count : ℕ) → Option ℕ
  validate_items nil depth item_count = some item_count
  validate_items (item v vs) depth item_count =
      validate_cbor_value v depth item_count >>= λ count. validate_items vs depth count

  -- `previous` holds the keys of `entries[..index]`.
  pub validate_entries : Entries → (previous : List Value) → (depth item_count : ℕ) → Option ℕ
  validate_entries end previous depth item_count = some item_count
  validate_entries (entry k v es) previous depth item_count =
      if any (λ p. cbor_values_equal p k) previous
      then none
      else validate_cbor_value k depth item_count >>= λ count.
          validate_cbor_value v depth count >>= λ count'.
          validate_entries es (k ∷ previous) depth count'
