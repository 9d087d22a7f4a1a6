-- ===== src/Sequitur/Utf.antt =====
-- HW1-Compression-Decompression-Utility/src/comdec.c: write_utf and get_utf. What is written is a
-- list of bytes, what can still be read is another.
pub mod Bits
pub mod RoundTrip
use system_fundamentals_ii_c.Prelude.{
  Bool, List, Option, [], bit_and, bit_or, if◌then◌else◌, none, not, some, ℕ, ◌%◌, ◌*◌, ◌+◌, ◌/◌,
  ◌==◌, ◌^◌, ◌||◌, ◌∷◌,
}

-- `c == 0x81 || ... || c == 0x85`
abbrev pub is_marker : ℕ → Bool
is_marker c = c == 0x81 || c == 0x82 || c == 0x83 || c == 0x84 || c == 0x85

-- fputc writes the lowest eight bits.
abbrev pub fputc : ℕ → ℕ
fputc c = c % 256

-- What write_utf returns, and the bytes that it writes.
unfoldable pub write_utf : ℕ → ℕ × List ℕ
write_utf c =
    if is_marker c
    then (1, fputc c ∷ [])
    else if not (bit_and c 0x1F0000 == 0)
    then (
      4,
      fputc (bit_or 0xF0 (bit_and c 0x1C0000 / 2 ^ 18))
          ∷ fputc (bit_or 0x80 (bit_and c 0x3F000 / 2 ^ 12))
          ∷ fputc (bit_or 0x80 (bit_and c 0xFC0 / 2 ^ 6))
          ∷ fputc (bit_or 0x80 (bit_and c 0x3F))
          ∷ [],
    )
    else if not (bit_and c 0xF800 == 0)
    then (
      3,
      fputc (bit_or 0xE0 (bit_and c 0xF000 / 2 ^ 12))
          ∷ fputc (bit_or 0x80 (bit_and c 0xFC0 / 2 ^ 6))
          ∷ fputc (bit_or 0x80 (bit_and c 0x3F))
          ∷ [],
    )
    else if not (bit_and c 0x780 == 0)
    then (
      2,
      fputc (bit_or 0xC0 (bit_and c 0x7C0 / 2 ^ 6)) ∷ fputc (bit_or 0x80 (bit_and c 0x3F)) ∷ [],
    )
    else (1, fputc c ∷ [])

-- `fgetc(in) & 0x3F`, which is 63 at the end of the input, and what is left.
abbrev pub low_bits : List ℕ → ℕ × List ℕ
low_bits [] = (63, [])
low_bits (b ∷ input) = (bit_and b 0x3F, input)

-- `c = c << 6; c += (fgetc(in) & 0x3F);`
abbrev pub continue : ℕ × List ℕ → ℕ × List ℕ
continue (c, input) = let (b, rest) = low_bits input in (c * 2 ^ 6 + b, rest)

-- `(c & 0x1F) << 6 | (fgetc(in) & 0x3F)`
abbrev pub continue_two : ℕ → List ℕ → ℕ × List ℕ
continue_two c input = let (b, rest) = low_bits input in (bit_or (c * 2 ^ 6) b, rest)

-- get_utf behind its first byte.
abbrev pub get_first : ℕ → List ℕ → ℕ × List ℕ
get_first c input =
    if is_marker c
    then (c, input)
    else if bit_and c 0xE0 == 0xC0
    then continue_two (bit_and c 0x1F) input
    else if bit_and c 0xF0 == 0xE0
    then continue (continue (bit_and c 0xF, input))
    else if bit_and c 0xF8 == 0xF0
    then continue (continue (continue (bit_and c 0x7, input)))
    else (c, input)

-- get_utf: the value, `none` for EOF, and what is left.
unfoldable pub get_utf : List ℕ → Option ℕ × List ℕ
get_utf [] = (none, [])
get_utf (b ∷ input) = let (c, rest) = get_first b input in (some c, rest)
