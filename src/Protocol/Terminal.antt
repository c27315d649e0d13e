-- ===== src/Protocol/Terminal.antt =====
-- protocol/src/terminal.rs: untrusted text on its way to a terminal, as the list of its characters.
pub mod Unambiguous
use oshioki.Base.{
  ℕ, ◌+◌, ◌*◌, ◌/◌, ◌%◌, ◌^◌, Bool, ◌||◌, List, [], ◌∷◌, ◌++◌, any, ltb, ◌==◌, nat_has_eq, within,
  is_control, if◌then◌else◌,
}

abbrev invisible_ranges : List (ℕ × ℕ)
invisible_ranges =
    (0xad, 0xad)
    ∷ (0x600, 0x605)
    ∷ (0x61c, 0x61c)
    ∷ (0x6dd, 0x6dd)
    ∷ (0x70f, 0x70f)
    ∷ (0x890, 0x891)
    ∷ (0x8e2, 0x8e2)
    ∷ (0x180e, 0x180e)
    ∷ (0x200b, 0x200f)
    ∷ (0x202a, 0x202e)
    ∷ (0x2060, 0x2064)
    ∷ (0x2066, 0x206f)
    ∷ (0xfeff, 0xfeff)
    ∷ (0xfff9, 0xfffb)
    ∷ (0x110bd, 0x110bd)
    ∷ (0x110cd, 0x110cd)
    ∷ (0x13430, 0x1343f)
    ∷ (0x1bca0, 0x1bca3)
    ∷ (0x1d173, 0x1d17a)
    ∷ (0xe0001, 0xe0001)
    ∷ (0xe0020, 0xe007f)
    ∷ []

unfoldable pub is_invisible : ℕ → Bool
is_invisible code = any (λ range. within range.0 range.1 code) invisible_ranges

-- a digit of `{:x}`
abbrev pub hex_digit : ℕ → ℕ
hex_digit d = if ltb d 10 then d + 48 else d + 87

-- `{:04x}`: four digits, and more only where the number has them; a `char` has at most six.
unfoldable pub write_hex : ℕ → List ℕ → List ℕ
write_hex code rest =
    let low =
      hex_digit (code / 16 ^ 3 % 16)
      ∷ hex_digit (code / 16 ^ 2 % 16)
      ∷ hex_digit (code / 16 % 16)
      ∷ hex_digit (code % 16)
      ∷ rest in
    if ltb code (16 ^ 4)
    then low
    else if ltb code (16 ^ 5)
    then hex_digit (code / 16 ^ 4 % 16) ∷ low
    else hex_digit (code / 16 ^ 5 % 16) ∷ hex_digit (code / 16 ^ 4 % 16) ∷ low

-- What one character adds in front of the rest.
unfoldable pub escape_char : ℕ → List ℕ → List ℕ
unfolding is_invisible write_hex
escape_char character rest =
    if character == b'\\'
    then b'\\' ∷ b'\\' ∷ rest
    else if is_control character || is_invisible character
    then b'\\' ∷ b'u' ∷ b'{' ∷ write_hex character (b'}' ∷ rest)
    else character ∷ rest

unfoldable pub escape_for_terminal : List ℕ → List ℕ
unfolding escape_char
escape_for_terminal [] = []
escape_for_terminal (character ∷ value) = escape_char character (escape_for_terminal value)
