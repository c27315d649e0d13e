-- ===== src/Protocol/Tests/Terminals.antt =====
-- A line with an escape sequence and a zero-width space.
use oshioki.Base.{ℕ, ◌≡◌, refl, some, List, [], ◌∷◌, arith, All}
use oshioki.Protocol.Terminal.{is_invisible, write_hex, escape_char, escape_for_terminal}
use oshioki.Protocol.Terminal.Unambiguous.{
  IsVisible, plain, read_from, escape_for_terminal_reads_back,
}

abbrev line : List ℕ
line = b'a' ∷ 0x1b ∷ 0x200b ∷ b'\\' ∷ []

shown :
    escape_for_terminal line
    ≡ b'a' ∷ b'\\' ∷ b'u' ∷ b'{' ∷ b'0' ∷ b'0' ∷ b'1' ∷ b'b' ∷ b'}' ∷ b'\\' ∷ b'u' ∷ b'{' ∷ b'2'
      ∷ b'0' ∷ b'0' ∷ b'b' ∷ b'}' ∷ b'\\' ∷ b'\\' ∷ []
unfolding escape_for_terminal escape_char write_hex is_invisible
shown = refl

escape_for_terminal_reads_back_example :
    All IsVisible (escape_for_terminal line)
    × (read_from plain (escape_for_terminal line) ≡ some line)
escape_for_terminal_reads_back_example =
    escape_for_terminal_reads_back line
      (omega arith, (omega arith, (omega arith, (omega arith, tt))))
