-- ===== src/Wire/Utf8.antt =====
-- `core::str::from_utf8`: which byte strings are texts.
use mqtt_protocol_core.Common.{
  ℕ, zero, suc, Bool, false, List, [], ◌∷◌, Option, none, some, leb, ltb, ◌==◌, ◌&&◌, if◌then◌else◌,
}

-- How many continuation bytes are awaited, and the bounds of the next one.
pub record Awaiting : Type 0 where
  pub count : ℕ
  pub low : ℕ
  pub high : ℕ

abbrev between : ℕ → ℕ → ℕ → Bool
between low high b = leb low b && leb b high

-- After the first byte of a character.
first_byte : ℕ → Option Awaiting
first_byte b =
    if ltb b 0x80
    then some (record { count = 0; low = 0x80; high = 0xBF })
    else if between 0xC2 0xDF b
    then some (record { count = 1; low = 0x80; high = 0xBF })
    else if b == 0xE0
    then some (record { count = 2; low = 0xA0; high = 0xBF })
    else if b == 0xED
    then some (record { count = 2; low = 0x80; high = 0x9F })
    else if between 0xE1 0xEF b
    then some (record { count = 2; low = 0x80; high = 0xBF })
    else if b == 0xF0
    then some (record { count = 3; low = 0x90; high = 0xBF })
    else if between 0xF1 0xF3 b
    then some (record { count = 3; low = 0x80; high = 0xBF })
    else if b == 0xF4
    then some (record { count = 3; low = 0x80; high = 0x8F })
    else none

next_byte : ℕ → ℕ → ℕ → ℕ → Option Awaiting
unfolding first_byte
next_byte zero low high b = first_byte b
next_byte (suc n) low high b =
    if between low high b then some (record { count = n; low = 0x80; high = 0xBF }) else none

utf8_loop : List ℕ → Awaiting → Bool
unfolding next_byte
utf8_loop [] a = a.count == 0
utf8_loop (b ∷ bs) a = elim (next_byte a.count a.low a.high b) [
  | none ↦ false
  | some a' ↦ utf8_loop bs a'
]

unfoldable pub is_utf8 : List ℕ → Bool
unfolding utf8_loop
is_utf8 bs = utf8_loop bs (record { count = 0; low = 0x80; high = 0xBF })
