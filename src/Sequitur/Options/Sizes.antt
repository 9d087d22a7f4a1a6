-- ===== src/Sequitur/Options/Sizes.antt =====
-- The block size that validargs of comdec.c takes from the arguments, and main.c from its result.
use system_fundamentals_ii_c.Prelude.{
  ==_iff, Bool, List, Option, [], all_below, all_below_lem, arith, bit_or, codes, false, none, refl,
  some, suc, true, zero, ℕ, ◌%◌, ◌*◌, ◌++◌, ◌+◌, ◌/◌, ◌<◌, ◌==◌, ◌^◌, ◌∷◌, ◌≡◌, ◌≤◌, ◌⊎◌,
}
use system_fundamentals_ii_c.Sequitur.Options.{
  block_size, compress_options, read_size, size_option, validargs,
}

-- The options that a block size gives, and the block size that main takes from them.
abbrev sized : ℕ → ℕ
sized n = bit_or (bit_or 0 (n * 2 ^ 16)) 2

abbrev kept : ℕ → Bool
kept n = block_size (sized n) == n

kept_table : all_below 1025 kept ≡ true
unfolding all_below block_size
kept_table = refl

block_size-sized : (n : ℕ) → n ≤ 1024 → block_size (sized n) ≡ n
block_size-sized n h = (==_iff _ n).0 (all_below_lem 1025 kept n kept_table (omega arith))

abbrev Bounded : ℕ → Type 0
Bounded o = (1 ≤ block_size o) × (block_size o ≤ 1024)

size_option-Bounded : (size : Option ℕ) (o : ℕ) → size_option size ≡ some o → Bounded o
size_option-Bounded none o e = absurd (ground arith)
size_option-Bounded (some n) o e = ground (arith, block_size-sized n)

compress_options-Bounded :
    (args : List (List ℕ)) (behind o : ℕ) → compress_options args behind ≡ some o → Bounded o
unfolding block_size
compress_options-Bounded [] behind o e = ground arith
compress_options-Bounded (flag2 ∷ []) behind o e = absurd (ground arith)
compress_options-Bounded (flag2 ∷ flag3 ∷ []) behind o e =
    ground (arith, size_option-Bounded (read_size 0 flag3) o)
compress_options-Bounded (flag2 ∷ flag3 ∷ more ∷ rest) behind o e = absurd (ground arith)

-- If validargs accepts the arguments, then main prints the usage, or decompresses, or compresses with
-- a block size of 1 to 1024, whatever stands in memory behind the arguments.
pub validargs-block_size :
    (args : List (List ℕ)) (behind o : ℕ)
    → validargs args behind ≡ some o
    → (o ≡ 1) ⊎ (o ≡ 4) ⊎ ((1 ≤ block_size o) × (block_size o ≤ 1024))
unfolding validargs
validargs-block_size [] behind o e = absurd (ground arith)
validargs-block_size (flag1 ∷ []) behind o e = ground (arith, compress_options-Bounded [] behind o)
validargs-block_size (flag1 ∷ arg ∷ rest) behind o e =
    ground (arith, compress_options-Bounded (arg ∷ rest) behind o)

-- The decimal digits of a number, the lowest one last.
unfoldable pub decimal : (digits n : ℕ) → List ℕ
decimal zero n = []
decimal (suc d) n = decimal d (n / 10) ++ (48 + n % 10) ∷ []

abbrev reads_back : ℕ → Bool
reads_back n = elim (read_size 0 (decimal 4 n)) [ none ↦ false | some m ↦ m == n ]

reads_back_table : all_below 10000 reads_back ≡ true
unfolding all_below decimal read_size
reads_back_table = refl

read_size-decimal : (n : ℕ) → n < 10000 → read_size 0 (decimal 4 n) ≡ some n
read_size-decimal n h = ground (arith, all_below_lem 10000 reads_back n reads_back_table h)

-- The arguments -c, -b and a number of four digits: validargs accepts the numbers from 1 to 1024, and
-- main then compresses with blocks of that size; it refuses 0 and what is larger than 1024.
validargs-decimal :
    (n behind : ℕ)
    → n < 10000
    → ((1 ≤ n) × (n ≤ 1024)
        → (o : ℕ) × (validargs (codes "-c" ∷ codes "-b" ∷ decimal 4 n ∷ []) behind ≡ some o)
          × (block_size o ≡ n))
      × ((n ≡ 0) ⊎ (1024 < n)
          → validargs (codes "-c" ∷ codes "-b" ∷ decimal 4 n ∷ []) behind ≡ none)
unfolding validargs
validargs-decimal n behind h = (
  λ (low, high).
      (sized n, ground (arith, read_size-decimal n h, low, high), block_size-sized n high),
  λ out. ground (arith, read_size-decimal n h, out),
)
