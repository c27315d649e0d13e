-- ===== src/Protocol/Terminal/Unambiguous.antt =====
-- What a terminal shows of escaped text (protocol/src/terminal.rs), and a reader of it.
use oshioki.Base.{
  ℕ, ◌+◌, ◌*◌, ◌-◌, ◌/◌, ◌%◌, ◌^◌, ◌≤◌, ◌<◌, ◌≡◌, refl, ap, ◌∙◌, inl, inr, false, ◌||◌, Option,
  none, some, List, [], ◌∷◌, arith, All, ltb, ◌==◌, nat_has_eq, is_control, if◌then◌else◌,
  Bool-cases,
}
use oshioki.Protocol.Terminal.{is_invisible, hex_digit, write_hex, escape_char, escape_for_terminal}

-- neither moves the cursor nor hides text
abbrev pub IsVisible : ℕ → Type 0
IsVisible c = (is_control c || is_invisible c) ≡ false

ascii-IsVisible : (c : ℕ) → 32 ≤ c → c < 127 → IsVisible c
unfolding is_invisible
ascii-IsVisible c low high = ground arith

hex_digit-IsVisible : (d : ℕ) → d < 16 → IsVisible (hex_digit d)
hex_digit-IsVisible d small =
    ascii-IsVisible (hex_digit d) (ground (arith, small)) (ground (arith, small))

abbrev low_digits : ℕ → List ℕ → List ℕ
low_digits code rest =
    hex_digit (code / 16 ^ 3 % 16)
    ∷ hex_digit (code / 16 ^ 2 % 16)
    ∷ hex_digit (code / 16 % 16)
    ∷ hex_digit (code % 16)
    ∷ rest

write_hex-All :
    (code : ℕ) (rest : List ℕ) → All IsVisible rest → All IsVisible (write_hex code rest)
unfolding write_hex
write_hex-All code rest h =
    let digit : (n : ℕ) → IsVisible (hex_digit (n % 16)) =
      λ n. hex_digit-IsVisible (n % 16) (omega arith) in
    let low : All IsVisible (low_digits code rest) =
      (digit (code / 16 ^ 3), (digit (code / 16 ^ 2), (digit (code / 16), (digit code, h)))) in
    elim (Bool-cases (ltb code (16 ^ 4))) [
      | inl t ↦ rw t low
      | inr u ↦ elim (Bool-cases (ltb code (16 ^ 5))) [
        | inl t ↦ rw (u, t) (digit (code / 16 ^ 4), low)
        | inr v ↦ rw (u, v) (digit (code / 16 ^ 5), (digit (code / 16 ^ 4), low))
      ]
    ]

-- How the output is read: plain text, behind a backslash, behind its `u`, inside the braces.
pub data Mode : Type 0 where
  plain slash brace : Mode
  digits : ℕ → Mode

abbrev hex_value : ℕ → ℕ
hex_value c = if ltb c 58 then c - 48 else c - 87

abbrev prefixed : ℕ → Option (List ℕ) → Option (List ℕ)
prefixed c none = none
prefixed c (some cs) = some (c ∷ cs)

-- A reader of escaped text, which is no part of the program.
unfoldable pub read_from : Mode → List ℕ → Option (List ℕ)
read_from plain [] = some []
read_from _ [] = none
read_from plain (c ∷ cs) =
    let escaped = read_from slash cs in
    let shown = prefixed c (read_from plain cs) in if c == b'\\' then escaped else shown
read_from slash (c ∷ cs) =
    let shown = prefixed b'\\' (read_from plain cs) in
    let escaped = read_from brace cs in
    if c == b'\\' then shown else if c == b'u' then escaped else none
read_from brace (c ∷ cs) =
    let escaped = read_from (digits 0) cs in if c == b'{' then escaped else none
read_from (digits n) (c ∷ cs) =
    let shown = prefixed n (read_from plain cs) in
    let more = read_from (digits (n * 16 + hex_value c)) cs in if c == b'}' then shown else more

read_digit :
    (n d : ℕ) (rest : List ℕ)
    → d < 16
    → read_from (digits n) (hex_digit d ∷ rest) ≡ read_from (digits (n * 16 + d)) rest
unfolding read_from
read_digit n d rest small =
    let value : hex_value (hex_digit d) ≡ d = ground (arith, small) in
    let more : (hex_digit d == b'}') ≡ false = ground (arith, small) in rw (more, value) refl

read_low :
    (n code : ℕ) (rest : List ℕ)
    → read_from (digits n) (low_digits code (b'}' ∷ rest))
      ≡ prefixed (n * 16 ^ 4 + code % 16 ^ 4) (read_from plain rest)
unfolding read_from
read_low n code rest =
    let n3 = n * 16 + code / 16 ^ 3 % 16 in
    let n2 = n3 * 16 + code / 16 ^ 2 % 16 in
    let n1 = n2 * 16 + code / 16 % 16 in
    let d0 = hex_digit (code % 16) in
    let d1 = hex_digit (code / 16 % 16) in
    let d2 = hex_digit (code / 16 ^ 2 % 16) in
    let all : n1 * 16 + code % 16 ≡ n * 16 ^ 4 + code % 16 ^ 4 = omega arith in
    read_digit n (code / 16 ^ 3 % 16) (d2 ∷ d1 ∷ d0 ∷ b'}' ∷ rest) (omega arith)
    ∙ read_digit n3 (code / 16 ^ 2 % 16) (d1 ∷ d0 ∷ b'}' ∷ rest) (omega arith)
    ∙ read_digit n2 (code / 16 % 16) (d0 ∷ b'}' ∷ rest) (omega arith)
    ∙ read_digit n1 (code % 16) (b'}' ∷ rest) (omega arith)
    ∙ ap (λ m. prefixed m (read_from plain rest)) all

read_hex :
    (code : ℕ) (rest : List ℕ)
    → code < 16 ^ 6
    → read_from (digits 0) (write_hex code (b'}' ∷ rest)) ≡ prefixed code (read_from plain rest)
unfolding write_hex read_from
read_hex code rest small =
    let tail = b'}' ∷ rest in
    let low = low_digits code tail in
    let h4 = code / 16 ^ 4 % 16 in
    let h5 = code / 16 ^ 5 % 16 in
    elim (Bool-cases (ltb code (16 ^ 4))) [
      | inl t ↦
          let all : 0 * 16 ^ 4 + code % 16 ^ 4 ≡ code = ground (arith, t) in
          rw t (read_low 0 code rest ∙ ap (λ m. prefixed m (read_from plain rest)) all)
      | inr u ↦ elim (Bool-cases (ltb code (16 ^ 5))) [
        | inl t ↦
            let all : (0 * 16 + h4) * 16 ^ 4 + code % 16 ^ 4 ≡ code = ground (arith, t) in
            rw (u, t)
              (read_digit 0 h4 low (omega arith)
                ∙ read_low (0 * 16 + h4) code rest
                ∙ ap (λ m. prefixed m (read_from plain rest)) all)
        | inr v ↦
            let all : ((0 * 16 + h5) * 16 + h4) * 16 ^ 4 + code % 16 ^ 4 ≡ code =
              omega (arith, small) in
            rw (u, v)
              (read_digit 0 h5 (hex_digit h4 ∷ low) (omega arith)
                ∙ read_digit (0 * 16 + h5) h4 low (omega arith)
                ∙ read_low ((0 * 16 + h5) * 16 + h4) code rest
                ∙ ap (λ m. prefixed m (read_from plain rest)) all)
      ]
    ]

read_escaped :
    (c : ℕ) (rest : List ℕ)
    → c < 0x110000
    → read_from plain (escape_char c rest) ≡ prefixed c (read_from plain rest)
unfolding escape_char read_from
read_escaped c rest small = elim (Bool-cases (c == b'\\')) [
  | inl t ↦
      let own : b'\\' ≡ c = ground (arith, t) in
      rw (t, escape_char) (ap (λ m. prefixed m (read_from plain rest)) own)
  | inr u ↦ elim (Bool-cases (is_control c || is_invisible c)) [
    | inl t ↦ rw (u, t, escape_char) (read_hex c rest (omega (arith, small)))
    | inr v ↦ rw (u, v, escape_char) (rw u refl)
  ]
]

-- Text of characters comes out of the escaping without a control character or an invisible one, and the
-- reader gets the same text back from the output; so no two texts are shown alike.
pub escape_for_terminal_reads_back :
    (value : List ℕ)
    → All (λ c. c < 0x110000) value
    → All IsVisible (escape_for_terminal value)
      × (read_from plain (escape_for_terminal value) ≡ some value)
unfolding escape_for_terminal escape_char is_invisible read_from
escape_for_terminal_reads_back [] h = (tt, refl)
escape_for_terminal_reads_back (c ∷ cs) (small, h) =
    let (visible, same) = escape_for_terminal_reads_back cs h in
    (
      elim (Bool-cases (c == b'\\')) [
        | inl t ↦ rw (t, escape_char) (refl, (refl, visible))
        | inr u ↦ elim (Bool-cases (is_control c || is_invisible c)) [
          | inl t ↦ rw (u, t, escape_char) (refl, (refl, (refl, write_hex-All c _ (refl, visible))))
          | inr v ↦ rw (u, v, escape_char) (v, visible)
        ]
      ],
      read_escaped c (escape_for_terminal cs) small ∙ ap (prefixed c) same,
    )
