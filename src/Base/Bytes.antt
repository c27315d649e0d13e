-- ===== src/Base/Bytes.antt =====
-- Big-endian words, as `to_be_bytes` and `from_be_bytes` write and read them.
use Prim.Native.Nat.{ℕ, ◌+◌, ◌*◌, ◌/◌, ◌%◌, ◌^◌, ◌<◌}
use mathlib.Core.Path.{◌≡◌, refl}
use mathlib.Core.List.{List, [], ◌∷◌, ◌++◌}
use native.Mathlib.Omega.{arith}
use oshioki.Base.Lists.{length, All, get_or, append_inj}

-- `u32::to_be_bytes`
abbrev pub u32_to_be_bytes : ℕ → List ℕ
u32_to_be_bytes n = (n / 2 ^ 24 % 256) ∷ (n / 2 ^ 16 % 256) ∷ (n / 2 ^ 8 % 256) ∷ (n % 256) ∷ []

-- `u64::to_be_bytes`
abbrev pub u64_to_be_bytes : ℕ → List ℕ
u64_to_be_bytes n =
    (n / 2 ^ 56 % 256)
    ∷ (n / 2 ^ 48 % 256)
    ∷ (n / 2 ^ 40 % 256)
    ∷ (n / 2 ^ 32 % 256)
    ∷ u32_to_be_bytes n

-- `u32::from_be_bytes` of the first four bytes, `u16::from_be_bytes` of the first two
abbrev pub u32_from_be_bytes : List ℕ → ℕ
u32_from_be_bytes bs =
    get_or bs 0 0 * 2 ^ 24 + get_or bs 1 0 * 2 ^ 16 + get_or bs 2 0 * 2 ^ 8 + get_or bs 3 0

abbrev pub u16_from_be_bytes : List ℕ → ℕ
u16_from_be_bytes bs = get_or bs 0 0 * 2 ^ 8 + get_or bs 1 0

pub u32_from-to : (n : ℕ) → n < 2 ^ 32 → u32_from_be_bytes (u32_to_be_bytes n) ≡ n
u32_from-to n h = omega arith

pub u32_to-from :
    (a b c d : ℕ)
    → All (λ n. n < 256) (a ∷ b ∷ c ∷ d ∷ [])
    → u32_to_be_bytes (u32_from_be_bytes (a ∷ b ∷ c ∷ d ∷ [])) ≡ a ∷ b ∷ c ∷ d ∷ []
u32_to-from a b c d h = ground arith

pub u64_to_be_bytes_inj :
    (m n : ℕ) → m < 2 ^ 64 → n < 2 ^ 64 → u64_to_be_bytes m ≡ u64_to_be_bytes n → m ≡ n
u64_to_be_bytes_inj m n hm hn e = ground arith

-- A field behind its length: two streams that agree have the same field and the same rest.
pub framed_inj :
    (xs ys us vs : List ℕ)
    → length xs < 2 ^ 64
    → length ys < 2 ^ 64
    → u64_to_be_bytes (length xs) ++ xs ++ us ≡ u64_to_be_bytes (length ys) ++ ys ++ vs
    → (xs ≡ ys) × (us ≡ vs)
framed_inj xs ys us vs hx hy e =
    let (n, rest) =
      append_inj (u64_to_be_bytes (length xs)) (u64_to_be_bytes (length ys)) (xs ++ us) (ys ++ vs)
        refl e in
    append_inj xs ys us vs (u64_to_be_bytes_inj (length xs) (length ys) hx hy n) rest
