-- ===== src/Prelude/Bits.antt =====
-- Bit operations at a mask of few binary digits are sums over these digits.
use Prim.Native.Nat.{
  ℕ, zero, suc, ◌+◌, ◌*◌, ◌/◌, ◌%◌, ◌≤◌, ◌<◌, min, max, bit_and, bit_or, bit_and-bitwise,
  bit_or-bitwise, digits,
}
use mathlib.Core.Path.{◌≡◌, refl, sym, ap, ◌∙◌}
use mathlib.Core.Bool.{Bool, true, false}
use native.Mathlib.Omega.{arith}
use system_fundamentals_ii_c.Prelude.Tests.{if◌then◌else◌}

-- Whether every number below a bound passes a test.
unfoldable pub all_below : ℕ → (ℕ → Bool) → Bool
all_below zero test = true
all_below (suc bound) test = let rest = all_below bound test in if test bound then rest else false

pub all_below_lem :
    (bound : ℕ) (test : ℕ → Bool) (c : ℕ) → all_below bound test ≡ true → c < bound → test c ≡ true
unfolding all_below
all_below_lem zero test c h below = absurd (omega arith)
all_below_lem (suc bound) test c h below = ground (arith, all_below_lem bound test c)

-- The sum over the lowest `k` digits of both numbers.
pub common : (k a mask : ℕ) → ℕ
common zero a mask = 0
common (suc k) a mask = common k (a / 2) (mask / 2) * 2 + min (a % 2) (mask % 2)

-- A mask that is 0 above its lowest `k` digits.
abbrev pub Fits : (k mask : ℕ) → Type 0
Fits zero mask = mask ≡ 0
Fits (suc k) mask = Fits k (mask / 2)

common_nothing : (k mask : ℕ) → common k 0 mask ≡ 0
unfolding common
common_nothing zero mask = refl
common_nothing (suc k) mask = omega (arith, common_nothing k (mask / 2))

-- The recursion that bit_and stands for, with a count of digits that is large enough.
abbrev masked : (count a mask : ℕ) → ℕ
masked count a mask = digits (λ _. 0) min count a mask

masked_nothing : (count a : ℕ) → masked count a 0 ≡ 0
masked_nothing zero a = refl
masked_nothing (suc count) zero = refl
masked_nothing (suc count) (suc a) = omega (arith, masked_nothing count (suc a / 2))

masked-common :
    (k count a mask : ℕ) → a ≤ count → Fits k mask → masked count a mask ≡ common k a mask
unfolding common
masked-common zero count a mask enough fits = ap (masked count a) fits ∙ masked_nothing count a
masked-common (suc k) zero zero mask enough fits = sym (common_nothing (suc k) mask)
masked-common (suc k) zero (suc a) mask enough fits = absurd (omega arith)
masked-common (suc k) (suc count) zero mask enough fits = omega (arith, common_nothing (suc k) mask)
masked-common (suc k) (suc count) (suc a) mask enough fits =
    omega (arith, masked-common k count (suc a / 2) (mask / 2) (omega arith) fits)

pub bit_and-common : (k a mask : ℕ) → Fits k mask → bit_and a mask ≡ common k a mask
bit_and-common k a mask fits = bit_and-bitwise a mask ∙ masked-common k a a mask (omega arith) fits

-- Digits of the mask that are 0.
pub skip_1 : (k a mask : ℕ) → mask % 2 ≡ 0 → common (suc k) a mask ≡ common k (a / 2) (mask / 2) * 2
unfolding common
skip_1 k a mask none_set = omega arith

div_4 : (a : ℕ) → a / 2 / 2 ≡ a / 4
div_4 a = omega arith

pub skip_2 :
    (k a mask : ℕ) → mask % 4 ≡ 0 → common (suc (suc k)) a mask ≡ common k (a / 4) (mask / 4) * 4
unfolding common
skip_2 k a mask none_set = omega (
  arith,
  ap (λ x. common k x (mask / 2 / 2)) (div_4 a),
  ap (λ x. common k (a / 4) x) (div_4 mask),
)

div_16 : (a : ℕ) → a / 4 / 4 ≡ a / 16
div_16 a = omega arith

pub skip_4 :
    (k a mask : ℕ)
    → mask % 16 ≡ 0
    → common (suc (suc (suc (suc k)))) a mask ≡ common k (a / 16) (mask / 16) * 16
skip_4 k a mask none_set = omega (
  arith,
  skip_2 (suc (suc k)) a mask (omega arith),
  skip_2 k (a / 4) (mask / 4) (omega arith),
  ap (λ x. common k x (mask / 4 / 4)) (div_16 a),
  ap (λ x. common k (a / 16) x) (div_16 mask),
)

-- Digits of the mask that are 1.
pub low_1 : (a : ℕ) → common 1 a 1 ≡ a % 2
unfolding common
low_1 a = omega arith

pub low_3 : (a : ℕ) → common 3 a 7 ≡ a % 8
unfolding common
low_3 a = omega arith

pub low_4 : (a : ℕ) → common 4 a 15 ≡ a % 16
unfolding common
low_4 a = omega arith

pub low_5 : (a : ℕ) → common 5 a 31 ≡ a % 32
unfolding common
low_5 a = omega arith

pub low_6 : (a : ℕ) → common 6 a 63 ≡ a % 64
unfolding common
low_6 a = omega arith

pub common-ones :
    (k a mask : ℕ)
    → mask % 64 ≡ 63
    → common (suc (suc (suc (suc (suc (suc k)))))) a mask
      ≡ common k (a / 64) (mask / 64) * 64 + a % 64
unfolding common
common-ones k a mask ones = omega (
  arith,
  ap (λ x. common k x (mask / 2 / 2 / 2 / 2 / 2 / 2)) (div_64 a),
  ap (λ x. common k (a / 64) x) (div_64 mask),
)
  where
    div_64 : (a : ℕ) → a / 2 / 2 / 2 / 2 / 2 / 2 ≡ a / 64
    div_64 a = omega arith

-- The sum over the lowest `k` digits of either number, and the rest of the first one.
joined : (k a b : ℕ) → ℕ
joined zero a b = a
joined (suc k) a b = joined k (a / 2) (b / 2) * 2 + max (a % 2) (b % 2)

joined_nothing : (k b : ℕ) → Fits k b → joined k 0 b ≡ b
unfolding joined
joined_nothing zero b fits = sym fits
joined_nothing (suc k) b fits = omega (arith, joined_nothing k (b / 2) fits)

-- The recursion that bit_or stands for.
abbrev merged : (count a b : ℕ) → ℕ
merged count a b = digits (λ x. x) max count a b

merged_nothing : (count a : ℕ) → a ≤ count → merged count a 0 ≡ a
merged_nothing zero a enough = omega arith
merged_nothing (suc count) zero enough = refl
merged_nothing (suc count) (suc a) enough =
    omega (arith, merged_nothing count (suc a / 2) (omega arith))

merged-joined : (k count a b : ℕ) → a ≤ count → Fits k b → merged count a b ≡ joined k a b
unfolding joined
merged-joined zero count a b enough fits = ap (merged count a) fits ∙ merged_nothing count a enough
merged-joined (suc k) zero zero b enough fits = sym (joined_nothing (suc k) b fits)
merged-joined (suc k) zero (suc a) b enough fits = absurd (omega arith)
merged-joined (suc k) (suc count) zero b enough fits = sym (joined_nothing (suc k) b fits)
merged-joined (suc k) (suc count) (suc a) b enough fits =
    omega (arith, merged-joined k count (suc a / 2) (b / 2) (omega arith) fits)

bit_or-joined : (k a b : ℕ) → Fits k b → bit_or a b ≡ joined k a b
bit_or-joined k a b fits = bit_or-bitwise a b ∙ merged-joined k a a b (omega arith) fits

-- Setting one of the lowest two digits.
pub bit_or-one : (a : ℕ) → bit_or a 1 ≡ a / 2 * 2 + 1
unfolding joined
bit_or-one a = omega (arith, bit_or-joined 1 a 1 refl)

pub bit_or-two : (a : ℕ) → bit_or a 2 ≡ a / 4 * 4 + 2 + a % 2
unfolding joined
bit_or-two a = omega (arith, bit_or-joined 2 a 2 refl)

pub bit_or-zero : (a : ℕ) → bit_or a 0 ≡ a
unfolding joined
bit_or-zero a = bit_or-joined 0 a 0 refl
