-- ===== src/Miner/Variants.antt =====
-- HW4-Multi-process-Problem-Solver/src/crypto_miner.c: the variants of a problem.
use native.Mathlib.Nat.{le-div_iff_mul-le, div-lt_iff_lt-mul, div-mul-le_self, mul-le-mul_right}
use system_fundamentals_ii_c.Prelude.{
  List, [], ap, arith, drop, drop-append, false, if◌then◌else◌, length, refl, replicate, set,
  set-append, subst, suc, sym, take, take-append, zero, ℕ, ◌%◌, ◌*◌, ◌++◌, ◌+◌, ◌-◌, ◌/◌, ◌<◌, ◌==◌,
  ◌∙◌, ◌∷◌, ◌≡◌, ◌≤◌,
}
use system_fundamentals_ii_c.Miner.{
  MinerProblem, block_of, cleared, crypto_miner_vary_problem, starting_nonce,
}
use system_fundamentals_ii_c.Miner.Nonces.{IsNonce, space, value}

-- The nonce of a variant: its last byte is the one that is set.
abbrev pub variant_nonce : (m v : ℕ) → List ℕ
variant_nonce zero v = v ∷ []
variant_nonce (suc m) v = 0 ∷ variant_nonce m v

set_last :
    (m v : ℕ) (rest : List ℕ) → set (replicate (suc m) 0 ++ rest) m v ≡ variant_nonce m v ++ rest
set_last zero v rest = refl
set_last (suc m) v rest = ap (0 ∷◌) (set_last m v rest)

length-variant_nonce : (m v : ℕ) → length (variant_nonce m v) ≡ suc m
length-variant_nonce zero v = refl
length-variant_nonce (suc m) v = ap suc (length-variant_nonce m v)

value-variant_nonce : (m v : ℕ) → value (variant_nonce m v) ≡ v * space m
unfolding value space
value-variant_nonce zero v = omega arith
value-variant_nonce (suc m) v = omega (arith, value-variant_nonce m v, shift)
  where
    shift : v * (256 * space m) ≡ 256 * (v * space m)
    shift = omega arith

variant_nonce-IsNonce : (m v : ℕ) → v < 256 → IsNonce (suc m) (variant_nonce m v)
variant_nonce-IsNonce zero v small = (small, tt)
variant_nonce-IsNonce (suc m) v small = (omega arith, variant_nonce-IsNonce m v small)

-- The first byte of a variant.
abbrev pub first_byte : MinerProblem → (var : ℕ) → ℕ
first_byte prob var = var * 256 / prob.nvars

first_byte_below : (prob : MinerProblem) (var : ℕ) → var < prob.nvars → first_byte prob var < 256
first_byte_below prob var inside =
    (div-lt_iff_lt-mul (omega (arith, inside))).1 (omega (arith, inside))

-- A problem whose content is the block, and a nonce of `m + 1` bytes.
pub record IsProblem (m : ℕ) (prob : MinerProblem) : Type 0 where
  pub sizes : prob.nsize ≡ suc m
  pub block_size : length (block_of prob) ≡ prob.bsize
  pub nonce : IsNonce (suc m) (starting_nonce prob)

mod_small : (v : ℕ) → v < 256 → v % 256 ≡ v
mod_small v small = omega arith

module _ (m : ℕ) (prob : MinerProblem) (var : ℕ) (is : IsProblem m prob)
    (inside : var < prob.nvars) where
  abbrev rest : List ℕ
  rest = drop (prob.bsize + prob.nsize) prob.content

  abbrev nonce : List ℕ
  nonce = variant_nonce m (first_byte prob var)

  counted : (prob.nvars == 0) ≡ false
  counted = ground (arith, inside)

  -- The variant, with a byte that is set at a position behind the block.
  abbrev with_byte : (byte size : ℕ) → MinerProblem
  with_byte byte size = record prob {
    content = set (block_of prob ++ (replicate size 0 ++ rest)) (prob.bsize + prob.nsize - 1) byte;
    var = var;
  }

  varied :
      crypto_miner_vary_problem prob var
      ≡ record prob { content = block_of prob ++ (nonce ++ rest); var = var }
  unfolding crypto_miner_vary_problem
  varied =
      ap
        (λ b.
          if b
          then record prob { content = cleared prob }
          else with_byte (first_byte prob var % 256) prob.nsize)
        counted
      ∙ ap (λ byte. with_byte byte prob.nsize)
          (mod_small (first_byte prob var) (first_byte_below prob var inside))
      ∙ ap (with_byte (first_byte prob var)) is.sizes
      ∙ ap (λ x. record prob { content = x; var = var })
          (set-append m (prob.bsize + prob.nsize - 1) (first_byte prob var) (block_of prob)
              (replicate (suc m) 0 ++ rest) (omega (arith, is.sizes, is.block_size))
            ∙ ap (block_of prob ++◌) (set_last m (first_byte prob var) rest))

  -- A variant has the block of the problem.
  pub block_of-vary : block_of (crypto_miner_vary_problem prob var) ≡ block_of prob
  block_of-vary =
      ap block_of varied ∙ take-append prob.bsize (block_of prob) (nonce ++ rest) is.block_size

  pub starting_nonce-vary :
      starting_nonce (crypto_miner_vary_problem prob var) ≡ variant_nonce m (first_byte prob var)
  starting_nonce-vary =
      ap starting_nonce varied
      ∙ ap (take prob.nsize) (drop-append prob.bsize (block_of prob) (nonce ++ rest) is.block_size)
      ∙ take-append prob.nsize nonce rest
          (length-variant_nonce m (first_byte prob var) ∙ sym is.sizes)

  pub diff-vary : (crypto_miner_vary_problem prob var).diff ≡ prob.diff
  diff-vary = ap (λ p. p.diff) varied

  -- A variant is a problem of the same sizes.
  pub vary-IsProblem : IsProblem m (crypto_miner_vary_problem prob var)
  vary-IsProblem = record {
    sizes = ap (λ p. p.nsize) varied ∙ is.sizes;
    block_size = ap length block_of-vary ∙ is.block_size ∙ sym (ap (λ p. p.bsize) varied);
    nonce =
        subst (λ x. IsNonce (suc m) x) (sym starting_nonce-vary)
          (variant_nonce-IsNonce m (first_byte prob var) (first_byte_below prob var inside));
  }

-- The bytes of two variants lie apart.
apart : (n v w : ℕ) → 0 < n → v < w → v * 256 / n + 256 / n ≤ w * 256 / n
apart n v w above later =
    (le-div_iff_mul-le above).1
      (omega (arith, div-mul-le_self (v * 256) n, div-mul-le_self 256 n, later, distributed))
  where
    distributed : (v * 256 / n + 256 / n) * n ≡ v * 256 / n * n + 256 / n * n
    distributed = omega arith

scaled : (k a b c : ℕ) → a + b ≤ c → a * k + b * k ≤ c * k
scaled k a b c h = omega (arith, mul-le-mul_right k h)

-- The starting nonces of the variants are spread over all the nonces: a variant starts at or behind the
-- number where an earlier one starts, and 256 / nvars values of the last byte lie between them. So two
-- of them never start at the same nonce when there are at most 256 variants.
pub starting_nonce-spread :
    (m : ℕ) (prob : MinerProblem) (var var' : ℕ)
    → IsProblem m prob
    → var < var'
    → var' < prob.nvars
    → value (starting_nonce (crypto_miner_vary_problem prob var)) + 256 / prob.nvars * space m
      ≤ value (starting_nonce (crypto_miner_vary_problem prob var'))
starting_nonce-spread m prob var var' is later inside = omega (
  arith,
  ap value (starting_nonce-vary m prob var is (omega (arith, later, inside))),
  ap value (starting_nonce-vary m prob var' is inside),
  value-variant_nonce m (first_byte prob var),
  value-variant_nonce m (first_byte prob var'),
  scaled (space m) (first_byte prob var) (256 / prob.nvars) (first_byte prob var')
      (apart prob.nvars var var' (omega (arith, inside)) later),
)
