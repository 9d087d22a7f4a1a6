-- ===== src/Allocator/Sizes.antt =====
-- The sizes of HW3-Dynamic-Memory-Allocator: the rounding of a request in sf_malloc, and the size
-- classes of get_class_size.
use system_fundamentals_ii_c.Prelude.{
  Bool-cases, Option, ap, arith, false, if◌then◌else◌, inl, inr, leb, min, none, refl, some, suc,
  true, zero, ℕ, ◌%◌, ◌*◌, ◌+◌, ◌-◌, ◌/◌, ◌<◌, ◌==◌, ◌∙◌, ◌≡◌, ◌≤◌, ◌⊎◌,
}
use system_fundamentals_ii_c.Allocator.Blocks.{word64}
use system_fundamentals_ii_c.Allocator.Lists.{
  fib_from, fib_rounds, get_class_size, get_min_fib, le_int, list_of_fib,
}
use system_fundamentals_ii_c.Allocator.Operations.{adjust}

-- The block size for a request of at most 2 ^ 64 - 72 bytes is a multiple of 64 that holds the request
-- and 8 bytes, and is less than 64 bytes larger than that.
pub adjust_fits :
    (size : ℕ)
    → size + 72 ≤ word64
    → (adjust size % 64 ≡ 0) × (size + 8 ≤ adjust size) × (adjust size < size + 72)
unfolding adjust
adjust_fits size small = (ground (arith), ground (arith), ground (arith))

-- It is the only such number.
pub adjust_unique :
    (size n : ℕ) → size + 72 ≤ word64 → n % 64 ≡ 0 → size + 8 ≤ n → n < size + 72 → adjust size ≡ n
adjust_unique size n small whole holds tight = ground (arith, adjust_fits size small)

-- The block size for a request of the last 8 sizes is at most 64: the sum wraps.
pub adjust_wraps : (size : ℕ) → word64 ≤ size + 8 → size < word64 → adjust size ≤ 64
unfolding adjust
adjust_wraps size large small = ground (arith)

-- The loop of get_min_fib is over at once for a count above 5.
ends_at_once : (f n i j : ℕ) → le_int n j ≡ false → fib_from (suc f) n i j ≡ true
unfolding fib_from
ends_at_once f n i j above =
    ap (λ b. elim b [ true ↦ fib_from f n j ((j + i) % 4294967296) | false ↦ true ]) above

above_5 : (n : ℕ) → 6 ≤ n → n < 2147483648 → le_int n 5 ≡ false
above_5 n low high = ground arith

-- It ends for 4 and 5 too, once its sum is above 2 ^ 31.
class_4 : fib_from fib_rounds 4 3 5 ≡ true
unfolding fib_from
class_4 = refl

class_5 : fib_from fib_rounds 5 3 5 ≡ true
unfolding fib_from
class_5 = refl

small_cases : (n : ℕ) → 4 ≤ n → (n ≡ 4) ⊎ (n ≡ 5) ⊎ (6 ≤ n)
small_cases n low = elim (Bool-cases (n == 4)) [
  | inl four ↦ inl (ground arith)
  | inr other ↦ elim (Bool-cases (n == 5)) [
    | inl five ↦ inr (inl (ground arith))
    | inr more ↦ inr (inr (ground arith))
  ]
]

loop_ends : (n : ℕ) → 4 ≤ n → n < 2147483648 → fib_from fib_rounds n 3 5 ≡ true
loop_ends n low high = elim (small_cases n low) [
  | inl four ↦ ap (λ x. fib_from fib_rounds x 3 5) four ∙ class_4
  | inr (inl five) ↦ ap (λ x. fib_from fib_rounds x 3 5) five ∙ class_5
  | inr (inr large) ↦ ends_at_once 63 n 3 5 (above_5 n large high)
]

-- The class that the comment on the lists in sfmm.h gives a block of so many minimum sizes.
unfoldable pub fibonacci_class : (n : ℕ) → ℕ
fibonacci_class n =
    if leb n 1
    then 0
    else if leb n 2
    then 1
    else if leb n 3
    then 2
    else if leb n 5
    then 3
    else if leb n 8
    then 4
    else if leb n 13
    then 5
    else if leb n 21
    then 6
    else if leb n 34
    then 7
    else 8

wrapped : (n m : ℕ) → m ≡ n → n < 2147483648 → m % 4294967296 ≡ n
wrapped n m same high = omega arith

min_fib :
    (n m : ℕ) → m ≡ n → 4 ≤ n → n < 2147483648 → get_min_fib fib_rounds (m % 4294967296) ≡ some 4
unfolding get_min_fib
min_fib n m same low high =
    ap (λ x. if fib_from fib_rounds x 3 5 then some 4 else none) (wrapped n m same high)
    ∙ ap (λ b. if b then some 4 else none) (loop_ends n low high)

units_back : (n : ℕ) → n * 64 / 64 ≡ n
units_back n = omega arith

class_from : (units : ℕ) (fib_index : Option ℕ) → ℕ
class_from units fib_index =
    if units == 1
    then 0
    else if units == 2
    then 1
    else if units == 3
    then 2
    else list_of_fib fib_index

class_from_lem :
    (n : ℕ)
    → get_class_size (n * 64) ≡ class_from n (get_min_fib fib_rounds (n * 64 / 64 % 4294967296))
unfolding get_class_size class_from
class_from_lem n =
    ap (λ x. class_from x (get_min_fib fib_rounds (n * 64 / 64 % 4294967296))) (units_back n)

class_large : (n : ℕ) → 4 ≤ n → n < 2147483648 → get_class_size (n * 64) ≡ 3
unfolding class_from
class_large n low high =
    class_from_lem n
    ∙ ap (class_from n) (min_fib n (n * 64 / 64) (units_back n) low high)
    ∙ ground arith

class_above : (n : ℕ) → 4 ≤ n → n < 2147483648 → get_class_size (n * 64) ≡ min (n - 1) 3
class_above n low high = class_large n low high ∙ omega arith

-- A block of `n` minimum sizes, for 1 or more of them and less than 2 ^ 31, goes to the list of its
-- number where that is 0, 1, 2 or 3, and to list 3 otherwise: lists 4 to 8 stay empty.
class_of_units : (n : ℕ) → 1 ≤ n → n < 2147483648 → get_class_size (n * 64) ≡ min (n - 1) 3
unfolding get_class_size
class_of_units zero low high = absurd (omega arith)
class_of_units (suc zero) low high = refl
class_of_units (suc (suc zero)) low high = refl
class_of_units (suc (suc (suc zero))) low high = refl
class_of_units (suc (suc (suc (suc n)))) low high =
    class_above (suc (suc (suc (suc n)))) (omega arith) high

below_5 : (n : ℕ) → 1 ≤ n → (min (n - 1) 3 == fibonacci_class n) ≡ leb n 5
unfolding fibonacci_class
below_5 n low = ground arith

-- A block of `n` minimum sizes, for 1 or more of them and less than 2 ^ 31, goes to the list that the
-- Fibonacci classes described in sfmm.h give it exactly if `n` is at most 5.
pub class_documented :
    (n : ℕ) → 1 ≤ n → n < 2147483648 → (get_class_size (n * 64) == fibonacci_class n) ≡ leb n 5
class_documented n low high =
    ap (λ c. c == fibonacci_class n) (class_of_units n low high) ∙ below_5 n low

class_from_bound : (units : ℕ) (fib_index : Option ℕ) → class_from units fib_index ≤ 8
unfolding class_from
class_from_bound units none = ground arith
class_from_bound units (some fib_index) = ground arith

-- No block goes to the last list.
pub class_bound : (size : ℕ) → get_class_size size ≤ 8
unfolding get_class_size class_from
class_bound size = class_from_bound (size / 64) (get_min_fib fib_rounds (size / 64 % 4294967296))
