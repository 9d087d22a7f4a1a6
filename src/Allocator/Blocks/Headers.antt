-- ===== src/Allocator/Blocks/Headers.antt =====
-- What PACK of the allocator puts into a header is what the masks read from it.
use system_fundamentals_ii_c.Prelude.{
  Bool, arith, bit_and-common, bit_or, bit_or-one, bit_or-two, bit_or-zero, common-ones, false,
  low_1, low_6, refl, skip_1, skip_2, true, ℕ, ◌%◌, ◌*◌, ◌+◌, ◌/◌, ◌<◌, ◌≡◌, ◌≤◌,
}
use system_fundamentals_ii_c.Allocator.Blocks.{alloc_of, pack, palloc_of, size_of}

-- The sizes that a header can hold, and that blocks have: multiples of 64 of at least 64, below 2 ^ 32.
pub record IsSize (n : ℕ) : Type 0 where
  pub whole : n % 64 ≡ 0
  pub large : 64 ≤ n
  pub small : n < 4294967296

size_of-mask : (w : ℕ) → size_of w ≡ w / 4 % 1073741824 * 4
unfolding size_of
size_of-mask w = omega (
  arith,
  bit_and-common 32 w 0xfffffffc refl,
  skip_2 30 w 0xfffffffc refl,
  common-ones 24 (w / 4) 0x3fffffff refl,
  common-ones 18 (w / 4 / 64) 0xffffff refl,
  common-ones 12 (w / 4 / 64 / 64) 0x3ffff refl,
  common-ones 6 (w / 4 / 64 / 64 / 64) 0xfff refl,
  low_6 (w / 4 / 64 / 64 / 64 / 64),
)

pub alloc_of-mask : (w : ℕ) → alloc_of w ≡ w % 2
unfolding alloc_of
alloc_of-mask w = omega (arith, bit_and-common 1 w 1 refl, low_1 w)

pub palloc_of-mask : (w : ℕ) → palloc_of w ≡ w / 2 % 2 * 2
unfolding palloc_of
palloc_of-mask w = omega (arith, bit_and-common 2 w 2 refl, skip_1 1 w 2 refl, low_1 (w / 2))

-- A header in numbers: the bits are 0 or 1.
abbrev pub bit : Bool → ℕ
bit true = 1
bit false = 0

abbrev pub packed : (n : ℕ) (before this : Bool) → ℕ
packed n before this = pack n (bit before * 2) (bit this)

packed_sum :
    (n : ℕ) (before this : Bool) → n % 4 ≡ 0 → packed n before this ≡ n + bit before * 2 + bit this
unfolding pack
packed_sum n true true h = omega (arith, bit_or-two n, bit_or-one (bit_or n 2))
packed_sum n true false h = omega (arith, bit_or-two n, bit_or-zero (bit_or n 2))
packed_sum n false true h = omega (arith, bit_or-zero n, bit_or-one (bit_or n 0))
packed_sum n false false h = omega (arith, bit_or-zero n, bit_or-zero (bit_or n 0))

bit_small : (b : Bool) → bit b ≤ 1
bit_small true = omega arith
bit_small false = omega arith

-- A size that is a multiple of 4 below 2 ^ 32, and the two bits, are read back from the header that
-- PACK makes of them.
pub pack_fields :
    (n : ℕ) (before this : Bool)
    → n % 4 ≡ 0
    → n < 4294967296
    → (size_of (packed n before this) ≡ n)
      × (palloc_of (packed n before this) ≡ bit before * 2)
      × (alloc_of (packed n before this) ≡ bit this)
pack_fields n before this whole small = (
  omega (
    arith,
    size_of-mask (packed n before this),
    packed_sum n before this whole,
    bit_small before,
    bit_small this,
  ),
  omega (
    arith,
    palloc_of-mask (packed n before this),
    packed_sum n before this whole,
    bit_small before,
    bit_small this,
  ),
  omega (
    arith,
    alloc_of-mask (packed n before this),
    packed_sum n before this whole,
    bit_small before,
    bit_small this,
  ),
)

-- A size of 2 ^ 32 or more loses what is above: the mask has 32 bits.
pack_truncates :
    (n : ℕ) (before this : Bool) → n % 4 ≡ 0 → size_of (packed n before this) ≡ n % 4294967296
pack_truncates n before this whole = omega (
  arith,
  size_of-mask (packed n before this),
  packed_sum n before this whole,
  bit_small before,
  bit_small this,
)
