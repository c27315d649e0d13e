-- ===== src/Protocol/Cbor/Equality.antt =====
-- Laws of `cbor_values_equal` in protocol/src/webauthn_v1.rs.
use oshioki.Base.{
  ℕ, suc, ◌≡◌, refl, Bool, false, true, some, List, [], ◌∷◌, ◌++◌, arith, All, ◌==◌, nat_has_eq,
}
use oshioki.Base.Int.{ℤ, pos, negsuc}
use mathlib.Core.List.{append_assoc}
use package.text.Mathlib.TextPositions.{eq_refl}
use oshioki.Protocol.Cbor.{
  Value, integer, byte_string, float, text, boolean, null, tag, array, table, Items, nil, item,
  Entries, end, entry, Marked, int_eq, bytes_eq, bool_eq, unmatched, size_entries, claim,
  cbor_values_equal, items_equal, entries_equal,
}

int_eq_refl : (a : ℤ) → int_eq a a ≡ true
int_eq_refl (pos n) = ground arith
int_eq_refl (negsuc n) = ground arith

bytes_eq_refl : (bs : List ℕ) → bytes_eq bs bs ≡ true
bytes_eq_refl [] = refl
bytes_eq_refl (b ∷ bs) = ground (arith, bytes_eq_refl bs)

bool_eq_refl : (b : Bool) → bool_eq b b ≡ true
bool_eq_refl true = refl
bool_eq_refl false = refl

abbrev AllMatched : Marked → Type 0
AllMatched = All (λ r. r.2 ≡ true)

module _ (p q : Value → Bool) where
  -- Entries that are matched already are passed over.
  claim-append :
      (before : Marked) (after claimed : Marked)
      → AllMatched before
      → claim p q after ≡ some claimed
      → claim p q (before ++ after) ≡ some (before ++ claimed)
  unfolding claim
  claim-append [] after claimed h e = e
  claim-append ((k, v, m) ∷ before) after claimed (h, hs) e =
      ground (arith, claim-append before after claimed hs e)

  claim-next :
      (k v : Value) (after : Marked)
      → p k ≡ true
      → q v ≡ true
      → claim p q ((k, v, false) ∷ after) ≡ some ((k, v, true) ∷ after)
  unfolding claim
  claim-next k v after hk hv = ground arith

  claim-skip :
      (k v : Value) (after claimed : Marked)
      → p k ≡ false
      → claim p q after ≡ some claimed
      → claim p q ((k, v, false) ∷ after) ≡ some ((k, v, false) ∷ claimed)
  unfolding claim
  claim-skip k v after claimed hk e = ground arith

size_refl : (n : ℕ) → (n == n) ≡ true
size_refl n = ground arith

AllMatched-concat :
    (before : Marked) (k v : Value) → AllMatched before → AllMatched (before ++ (k, v, true) ∷ [])
AllMatched-concat [] k v h = (refl, tt)
AllMatched-concat (x ∷ before) k v (h, hs) = (h, AllMatched-concat before k v hs)

-- One round of the outer loop, whose entry claims one of the right map's.
entries_equal-entry :
    (k v : Value) (es : Entries) (rs claimed : Marked)
    → claim (cbor_values_equal k) (cbor_values_equal v) rs ≡ some claimed
    → entries_equal es claimed ≡ true
    → entries_equal (entry k v es) rs ≡ true
unfolding cbor_values_equal
entries_equal-entry k v es rs claimed e h = ground arith

mutual
  unfolding cbor_values_equal

  values_refl : (v : Value) → cbor_values_equal v v ≡ true
  values_refl (integer a) = int_eq_refl a
  values_refl (byte_string a) = bytes_eq_refl a
  values_refl (float a) = size_refl a
  values_refl (text a) = eq_refl a
  values_refl (boolean a) = bool_eq_refl a
  values_refl null = refl
  values_refl (tag n v) = rw (size_refl n) (values_refl v)
  values_refl (array vs) = items_refl vs
  values_refl (table es) = rw (size_refl (size_entries es)) (entries_refl es [] tt)

  items_refl : (vs : Items) → items_equal vs vs ≡ true
  items_refl nil = refl
  items_refl (item v vs) = rw (values_refl v) (items_refl vs)

  entries_refl :
      (es : Entries) (before : Marked)
      → AllMatched before
      → entries_equal es (before ++ unmatched es) ≡ true
  entries_refl end before h = refl
  entries_refl (entry k v es) before h =
      entries_equal-entry k v es _ _
        (claim-append (cbor_values_equal k) (cbor_values_equal v) before _ _ h
          (claim-next _ _ k v (unmatched es) (values_refl k) (values_refl v)))
        (rw (← append_assoc before ((k, v, true) ∷ []) (unmatched es))
          (entries_refl es (before ++ (k, v, true) ∷ []) (AllMatched-concat before k v h)))

-- Every CBOR value is equal to itself, floats that are not a number included.
pub cbor_values_equal_refl : (v : Value) → cbor_values_equal v v ≡ true
cbor_values_equal_refl v = values_refl v

-- A map with two distinct first keys is equal to the map with those two entries in the other order.
pub cbor_values_equal_swap :
    (k v k' v' : Value) (es : Entries)
    → cbor_values_equal k k' ≡ false
    → cbor_values_equal (table (entry k v (entry k' v' es))) (table (entry k' v' (entry k v es)))
      ≡ true
unfolding cbor_values_equal
cbor_values_equal_swap k v k' v' es new = rw (size_refl (suc (suc (size_entries es)))) (
    entries_equal-entry k v (entry k' v' es) _ _
      (claim-skip (cbor_values_equal k) (cbor_values_equal v) k' v' _ _ new
        (claim-next _ _ k v (unmatched es) (values_refl k) (values_refl v)))
      (entries_equal-entry k' v' es _ _
        (claim-next (cbor_values_equal k') (cbor_values_equal v') k' v' _ (values_refl k')
          (values_refl v'))
        (entries_refl es ((k', v', true) ∷ (k, v, true) ∷ []) (refl, (refl, tt)))))
