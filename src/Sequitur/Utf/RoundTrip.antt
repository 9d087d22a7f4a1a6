-- ===== src/Sequitur/Utf/RoundTrip.antt =====
-- get_utf of comdec.c reads back what write_utf writes.
use system_fundamentals_ii_c.Prelude.{
  Bool, Bool-cases, List, [], all_below, all_below_lem, arith, bit_and, bit_or, false, inl, inr,
  length, not, refl, some, true, ℕ, ◌%◌, ◌&&◌, ◌*◌, ◌++◌, ◌+◌, ◌/◌, ◌<◌, ◌==◌, ◌^◌, ◌∷◌, ◌≡◌, ◌≤◌,
  ◌⊎◌,
}
use system_fundamentals_ii_c.Sequitur.Utf.{fputc, get_first, get_utf, is_marker, write_utf}
use system_fundamentals_ii_c.Sequitur.Utf.Bits.{
  mask_0, mask_11, mask_12, mask_12_short, mask_16, mask_18, mask_6, mask_6_short, mask_7,
}

-- A byte that goes on, and the bytes that a value of two, three or four bytes starts with.
abbrev goes_on : ℕ → Bool
goes_on x = bit_and (fputc (bit_or 0x80 x)) 0x3F == x

goes_on_table : all_below 64 goes_on ≡ true
unfolding all_below
goes_on_table = refl

abbrev starts_two : ℕ → Bool
starts_two x =
    not (is_marker (fputc (bit_or 0xC0 x)))
    && bit_and (fputc (bit_or 0xC0 x)) 0xE0 == 0xC0
    && bit_and (fputc (bit_or 0xC0 x)) 0x1F == x

starts_two_table : all_below 32 starts_two ≡ true
unfolding all_below
starts_two_table = refl

abbrev starts_three : ℕ → Bool
starts_three x =
    not (is_marker (fputc (bit_or 0xE0 x)))
    && not (bit_and (fputc (bit_or 0xE0 x)) 0xE0 == 0xC0)
    && bit_and (fputc (bit_or 0xE0 x)) 0xF0 == 0xE0
    && bit_and (fputc (bit_or 0xE0 x)) 0xF == x

starts_three_table : all_below 16 starts_three ≡ true
unfolding all_below
starts_three_table = refl

abbrev starts_four : ℕ → Bool
starts_four x =
    not (is_marker (fputc (bit_or 0xF0 x)))
    && not (bit_and (fputc (bit_or 0xF0 x)) 0xE0 == 0xC0)
    && not (bit_and (fputc (bit_or 0xF0 x)) 0xF0 == 0xE0)
    && bit_and (fputc (bit_or 0xF0 x)) 0xF8 == 0xF0
    && bit_and (fputc (bit_or 0xF0 x)) 0x7 == x

starts_four_table : all_below 8 starts_four ≡ true
unfolding all_below
starts_four_table = refl

abbrev starts_one : ℕ → Bool
starts_one x =
    not (bit_and x 0xE0 == 0xC0) && not (bit_and x 0xF0 == 0xE0) && not (bit_and x 0xF8 == 0xF0)

starts_one_table : all_below 128 starts_one ≡ true
unfolding all_below
starts_one_table = refl

abbrev two_bits : ℕ → Bool
two_bits c = bit_or (c / 64 * 2 ^ 6) (c % 64) == c

two_bits_table : all_below 2048 two_bits ≡ true
unfolding all_below
two_bits_table = refl

the_parts : (x y : ℕ) → y < 64 → ((x * 64 + y) / 64 ≡ x) × ((x * 64 + y) % 64 ≡ y)
the_parts x y h = (omega arith, omega arith)

read_two :
    (x y : ℕ) (rest : List ℕ)
    → x < 32
    → y < 64
    → get_first (fputc (bit_or 0xC0 x)) (fputc (bit_or 0x80 y) ∷ rest) ≡ (x * 64 + y, rest)
read_two x y rest hx hy = ground (
  arith,
  all_below_lem 32 starts_two x starts_two_table hx,
  all_below_lem 64 goes_on y goes_on_table hy,
  all_below_lem 2048 two_bits (x * 64 + y) two_bits_table (omega arith),
  the_parts x y hy,
)

read_three :
    (x y z : ℕ) (rest : List ℕ)
    → x < 16
    → y < 64
    → z < 64
    → get_first (fputc (bit_or 0xE0 x)) (fputc (bit_or 0x80 y) ∷ fputc (bit_or 0x80 z) ∷ rest)
      ≡ ((x * 64 + y) * 64 + z, rest)
read_three x y z rest hx hy hz = ground (
  arith,
  all_below_lem 16 starts_three x starts_three_table hx,
  all_below_lem 64 goes_on y goes_on_table hy,
  all_below_lem 64 goes_on z goes_on_table hz,
)

read_four :
    (x y z w : ℕ) (rest : List ℕ)
    → x < 8
    → y < 64
    → z < 64
    → w < 64
    → get_first
        (fputc (bit_or 0xF0 x))
        (fputc (bit_or 0x80 y) ∷ fputc (bit_or 0x80 z) ∷ fputc (bit_or 0x80 w) ∷ rest)
      ≡ (((x * 64 + y) * 64 + z) * 64 + w, rest)
read_four x y z w rest hx hy hz hw = ground (
  arith,
  all_below_lem 8 starts_four x starts_four_table hx,
  all_below_lem 64 goes_on y goes_on_table hy,
  all_below_lem 64 goes_on z goes_on_table hz,
  all_below_lem 64 goes_on w goes_on_table hw,
)

read_one : (x : ℕ) (rest : List ℕ) → x < 128 → get_first (fputc x) rest ≡ (x, rest)
read_one x rest h = ground (arith, all_below_lem 128 starts_one x starts_one_table h)

-- What write_utf writes, by the size of the value.
write_four :
    (c : ℕ)
    → 2 ^ 16 ≤ c
    → c < 2 ^ 21
    → write_utf c ≡ (
      4,
      fputc (bit_or 0xF0 (c / 2 ^ 18 % 8))
          ∷ fputc (bit_or 0x80 (c / 2 ^ 12 % 64))
          ∷ fputc (bit_or 0x80 (c / 2 ^ 6 % 64))
          ∷ fputc (bit_or 0x80 (c % 64))
          ∷ [],
    )
unfolding write_utf
write_four c low high = ground (arith, mask_16 c, mask_18 c, mask_12 c, mask_6 c, mask_0 c)

write_three :
    (c : ℕ)
    → 2 ^ 11 ≤ c
    → c < 2 ^ 16
    → write_utf c ≡ (
      3,
      fputc (bit_or 0xE0 (c / 2 ^ 12 % 16))
          ∷ fputc (bit_or 0x80 (c / 2 ^ 6 % 64))
          ∷ fputc (bit_or 0x80 (c % 64))
          ∷ [],
    )
unfolding write_utf
write_three c low high = ground (arith, mask_16 c, mask_11 c, mask_12_short c, mask_6 c, mask_0 c)

write_two :
    (c : ℕ)
    → 2 ^ 7 ≤ c
    → c < 2 ^ 11
    → is_marker c ≡ false
    → write_utf c ≡ (2, fputc (bit_or 0xC0 (c / 2 ^ 6 % 32)) ∷ fputc (bit_or 0x80 (c % 64)) ∷ [])
unfolding write_utf
write_two c low high other =
    ground (arith, mask_16 c, mask_11 c, mask_7 c, mask_6_short c, mask_0 c)

write_one : (c : ℕ) → c < 2 ^ 7 → write_utf c ≡ (1, fputc c ∷ [])
unfolding write_utf
write_one c high = ground (arith, mask_16 c, mask_11 c, mask_7 c)

write_marker : (c : ℕ) → is_marker c ≡ true → write_utf c ≡ (1, c ∷ [])
unfolding write_utf
write_marker c h = ground arith

-- The parts of a value make the value.
parts_four :
    (c : ℕ)
    → c < 2 ^ 21
    → ((c / 2 ^ 18 % 8 * 64 + c / 2 ^ 12 % 64) * 64 + c / 2 ^ 6 % 64) * 64 + c % 64 ≡ c
parts_four c h = omega arith

parts_three : (c : ℕ) → c < 2 ^ 16 → (c / 2 ^ 12 % 16 * 64 + c / 2 ^ 6 % 64) * 64 + c % 64 ≡ c
parts_three c h = omega arith

parts_two : (c : ℕ) → c < 2 ^ 11 → c / 2 ^ 6 % 32 * 64 + c % 64 ≡ c
parts_two c h = omega arith

below-cases : (c n : ℕ) → (c < n) ⊎ (n ≤ c)
below-cases c n = ground arith

-- A value below 2^21, the largest that four bytes hold, is read back by get_utf as it was written by
-- write_utf, and what follows is left to be read. The five marks are values of one byte each.
pub get_utf-write_utf :
    (c : ℕ) (rest : List ℕ) → c < 2 ^ 21 → get_utf ((write_utf c).1 ++ rest) ≡ (some c, rest)
unfolding get_utf
get_utf-write_utf c rest h = elim (Bool-cases (is_marker c)) [
  | inl marker ↦ rw (write_marker c marker, marker)
  | inr other ↦ elim (below-cases c 128) [
    | inl one ↦ rw (write_one c one, read_one c rest one)
    | inr more ↦ elim (below-cases c 2048) [
      | inl two ↦ ground (
        arith,
        write_two c more two other,
        read_two (c / 2 ^ 6 % 32) (c % 64) rest (omega arith) (omega arith),
        parts_two c two,
      )
      | inr longer ↦ elim (below-cases c 65536) [
        | inl three ↦ ground (
          arith,
          write_three c longer three,
          read_three (c / 2 ^ 12 % 16) (c / 2 ^ 6 % 64) (c % 64) rest (omega arith) (omega arith)
              (omega arith),
          parts_three c three,
        )
        | inr four ↦ ground (
          arith,
          write_four c four h,
          read_four (c / 2 ^ 18 % 8) (c / 2 ^ 12 % 64) (c / 2 ^ 6 % 64) (c % 64) rest (omega arith)
              (omega arith) (omega arith) (omega arith),
          parts_four c h,
        )
      ]
    ]
  ]
]

-- What write_utf returns is the number of the bytes that it writes.
pub write_utf-length : (c : ℕ) → (write_utf c).0 ≡ length (write_utf c).1
unfolding write_utf
write_utf-length c = ground arith
