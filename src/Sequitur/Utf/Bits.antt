-- ===== src/Sequitur/Utf/Bits.antt =====
-- The masks of write_utf in comdec.c, on numbers of any size.
use system_fundamentals_ii_c.Prelude.{
  arith, bit_and, bit_and-common, low_3, low_4, low_5, low_6, refl, skip_1, skip_2, skip_4, ℕ, ◌%◌,
  ◌*◌, ◌/◌, ◌^◌, ◌≡◌,
}

-- The masks of write_utf.
pub mask_16 : (c : ℕ) → bit_and c 0x1F0000 ≡ c / 2 ^ 16 % 32 * 2 ^ 16
mask_16 c = omega (
  arith,
  bit_and-common 21 c 0x1f0000 refl,
  skip_4 17 c 0x1f0000 refl,
  skip_4 13 (c / 16) 0x1f000 refl,
  skip_4 9 (c / 16 / 16) 0x1f00 refl,
  skip_4 5 (c / 16 / 16 / 16) 0x1f0 refl,
  low_5 (c / 16 / 16 / 16 / 16),
)

pub mask_18 : (c : ℕ) → bit_and c 0x1C0000 / 2 ^ 18 ≡ c / 2 ^ 18 % 8
mask_18 c = omega (
  arith,
  bit_and-common 21 c 0x1c0000 refl,
  skip_4 17 c 0x1c0000 refl,
  skip_4 13 (c / 16) 0x1c000 refl,
  skip_4 9 (c / 16 / 16) 0x1c00 refl,
  skip_4 5 (c / 16 / 16 / 16) 0x1c0 refl,
  skip_2 3 (c / 16 / 16 / 16 / 16) 0x1c refl,
  low_3 (c / 16 / 16 / 16 / 16 / 4),
)

pub mask_12 : (c : ℕ) → bit_and c 0x3F000 / 2 ^ 12 ≡ c / 2 ^ 12 % 64
mask_12 c = omega (
  arith,
  bit_and-common 18 c 0x3f000 refl,
  skip_4 14 c 0x3f000 refl,
  skip_4 10 (c / 16) 0x3f00 refl,
  skip_4 6 (c / 16 / 16) 0x3f0 refl,
  low_6 (c / 16 / 16 / 16),
)

pub mask_6 : (c : ℕ) → bit_and c 0xFC0 / 2 ^ 6 ≡ c / 2 ^ 6 % 64
mask_6 c = omega (
  arith,
  bit_and-common 12 c 0xfc0 refl,
  skip_4 8 c 0xfc0 refl,
  skip_2 6 (c / 16) 0xfc refl,
  low_6 (c / 16 / 4),
)

pub mask_0 : (c : ℕ) → bit_and c 0x3F ≡ c % 64
mask_0 c = omega (arith, bit_and-common 6 c 0x3f refl, low_6 c)

pub mask_11 : (c : ℕ) → bit_and c 0xF800 ≡ c / 2 ^ 11 % 32 * 2 ^ 11
mask_11 c = omega (
  arith,
  bit_and-common 16 c 0xf800 refl,
  skip_4 12 c 0xf800 refl,
  skip_4 8 (c / 16) 0xf80 refl,
  skip_2 6 (c / 16 / 16) 0xf8 refl,
  skip_1 5 (c / 16 / 16 / 4) 0x3e refl,
  low_5 (c / 16 / 16 / 4 / 2),
)

pub mask_12_short : (c : ℕ) → bit_and c 0xF000 / 2 ^ 12 ≡ c / 2 ^ 12 % 16
mask_12_short c = omega (
  arith,
  bit_and-common 16 c 0xf000 refl,
  skip_4 12 c 0xf000 refl,
  skip_4 8 (c / 16) 0xf00 refl,
  skip_4 4 (c / 16 / 16) 0xf0 refl,
  low_4 (c / 16 / 16 / 16),
)

pub mask_7 : (c : ℕ) → bit_and c 0x780 ≡ c / 2 ^ 7 % 16 * 2 ^ 7
mask_7 c = omega (
  arith,
  bit_and-common 11 c 0x780 refl,
  skip_4 7 c 0x780 refl,
  skip_2 5 (c / 16) 0x78 refl,
  skip_1 4 (c / 16 / 4) 0x1e refl,
  low_4 (c / 16 / 4 / 2),
)

pub mask_6_short : (c : ℕ) → bit_and c 0x7C0 / 2 ^ 6 ≡ c / 2 ^ 6 % 32
mask_6_short c = omega (
  arith,
  bit_and-common 11 c 0x7c0 refl,
  skip_4 7 c 0x7c0 refl,
  skip_2 5 (c / 16) 0x7c refl,
  low_5 (c / 16 / 4),
)
