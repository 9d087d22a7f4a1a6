-- ===== src/Allocator/Rings.antt =====
-- HW3-Dynamic-Memory-Allocator/src/sfhelperfunctions.c: a free list is a ring that is linked both ways.
pub mod Remove
pub mod Front
pub mod Table
pub mod Frame
pub mod Wild
pub mod Insert
pub mod Split
pub mod Place
use system_fundamentals_ii_c.Prelude.{
  Distinct, Fresh, List, [], arith, last, ℕ, ◌%◌, ◌++◌, ◌+◌, ◌∷◌, ◌≡◌, ◌≢◌,
}
use system_fundamentals_ii_c.Allocator.Blocks.{update}

-- The links next lead from `x` through `ys` to `z`, and the links prev lead back.
abbrev pub Linked : (ℕ → ℕ) → ℕ → List ℕ → ℕ → Type 0
Linked w x [] z = (w (x + 16) ≡ z) × (w (z + 24) ≡ x)
Linked w x (y ∷ ys) z = (w (x + 16) ≡ y) × (w (y + 24) ≡ x) × Linked w y ys z

-- The addresses of blocks and heads are multiples of 16, so that no link lies on another one.
abbrev pub AreAligned : List ℕ → Type 0
AreAligned [] = Unit
AreAligned (x ∷ xs) = (x % 16 ≡ 0) × AreAligned xs

-- The list with a head and these blocks, the first one first.
pub record IsRing (w : ℕ → ℕ) (hd : ℕ) (blocks : List ℕ) : Type 0 where
  pub linked : Linked w hd blocks hd
  pub distinct : Distinct (hd ∷ blocks)
  pub aligned : AreAligned (hd ∷ blocks)

-- A write of a link next, where it is not one of the ring part.
pub Linked-store_next :
    (w : ℕ → ℕ) (p v x : ℕ) (ys : List ℕ) (z : ℕ)
    → p ≢ x
    → Fresh p ys
    → p % 16 ≡ 0
    → AreAligned ys
    → z % 16 ≡ 0
    → Linked w x ys z
    → Linked (update w (p + 16) v) x ys z
Linked-store_next w p v x [] z apart fresh at ats at_z l =
    (ground (arith, l.0), ground (arith, l.1))
Linked-store_next w p v x (y ∷ ys) z apart fresh at ats at_z l = (
  ground (arith, l.0),
  ground (arith, l.1, ats.0),
  Linked-store_next w p v y ys z fresh.0 fresh.1 at ats.1 at_z l.2,
)

-- The same of a link prev.
pub Linked-store_prev :
    (w : ℕ → ℕ) (n v x : ℕ) (ys : List ℕ) (z : ℕ)
    → n ≢ z
    → Fresh n ys
    → n % 16 ≡ 0
    → AreAligned ys
    → x % 16 ≡ 0
    → Linked w x ys z
    → Linked (update w (n + 24) v) x ys z
Linked-store_prev w n v x [] z apart fresh at ats at_x l =
    (ground (arith, l.0), ground (arith, l.1))
Linked-store_prev w n v x (y ∷ ys) z apart fresh at ats at_x l = (
  ground (arith, l.0),
  ground (arith, l.1, fresh.0),
  Linked-store_prev w n v y ys z apart fresh.1 at ats.1 ats.0 l.2,
)

abbrev pub first : List ℕ → ℕ → ℕ
first [] z = z
first (y ∷ ys) z = y

-- Two writes: `p` is followed by `n`.
abbrev pub joined : (ℕ → ℕ) → (p n : ℕ) → ℕ → ℕ
joined w p n = update (update w (p + 16) n) (n + 24) p

pub aligned_first : (ys : List ℕ) (z : ℕ) → AreAligned ys → z % 16 ≡ 0 → first ys z % 16 ≡ 0
aligned_first [] z ats at = at
aligned_first (y ∷ ys) z ats at = ats.0

pub aligned_last : (x : ℕ) (xs : List ℕ) → x % 16 ≡ 0 → AreAligned xs → last x xs % 16 ≡ 0
aligned_last x [] at ats = at
aligned_last x (y ∷ xs) at ats = aligned_last y xs ats.0 ats.1

pub AreAligned-split : (xs ys : List ℕ) → AreAligned (xs ++ ys) → AreAligned xs × AreAligned ys
AreAligned-split [] ys ats = (tt, ats)
AreAligned-split (x ∷ xs) ys ats =
    let rest = AreAligned-split xs ys ats.1 in ((ats.0, rest.0), rest.1)
