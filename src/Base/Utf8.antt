-- ===== src/Base/Utf8.antt =====
-- The UTF-8 bytes of a text.
use Prim.Native.Nat.{ℕ, ◌<◌}
use Prim.Native.Char.{Char, char, code}
use Prim.Native.String.{String}
use mathlib.Core.Path.{◌≡◌, refl, sym, ap₂}
use mathlib.Core.List.{List, [], ◌++◌}
use native.Mathlib.Omega.{arith}
use text.Mathlib.TextEquality.{Char-path}
use oshioki.Base.Text.{bytes, utf8}

utf8_inj :
    (c d : ℕ) (xs ys : List ℕ)
    → c < 0x400000
    → d < 0x400000
    → utf8 c ++ xs ≡ utf8 d ++ ys
    → (c ≡ d) × (xs ≡ ys)
utf8_inj c d xs ys hc hd e = ground arith

code-lt : (c : Char) → code c < 0x110000
code-lt (char n s) = ground arith

utf8-ne-nil : (c : ℕ) (xs : List ℕ) → utf8 c ++ xs ≡ [] → ⊥
utf8-ne-nil c xs e = ground arith

pub bytes_inj : (s t : String) → bytes s ≡ bytes t → s ≡ t
bytes_inj String.[] String.[] e = refl
bytes_inj String.[] (String.◌∷◌ d t) e = absurd (utf8-ne-nil (code d) (bytes t) (sym e))
bytes_inj (String.◌∷◌ c s) String.[] e = absurd (utf8-ne-nil (code c) (bytes s) e)
bytes_inj (String.◌∷◌ c s) (String.◌∷◌ d t) e =
    let (same, rest) =
      utf8_inj (code c) (code d) (bytes s) (bytes t) (omega (arith, code-lt c))
        (omega (arith, code-lt d)) e in
    ap₂ String.◌∷◌ (Char-path c d same) (bytes_inj s t rest)
