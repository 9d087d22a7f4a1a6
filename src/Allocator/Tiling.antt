-- ===== src/Allocator/Tiling.antt =====
-- HW3-Dynamic-Memory-Allocator: the heap as a row of blocks, which is what the headers and footers of
-- sfmm.h stand for. Headers and footers lie on a grid of 64 bytes, links and payloads beside it.
pub mod Frame
pub mod Retag
pub mod Insert
pub mod Split
pub mod Rows
pub mod Merge
pub mod Coalesce
pub mod Left
pub mod Free
pub mod Release
pub mod Place
pub mod Start
use system_fundamentals_ii_c.Prelude.{Bool, List, [], false, ℕ, ◌%◌, ◌+◌, ◌∷◌, ◌≡◌, ◌≤◌}
use system_fundamentals_ii_c.Allocator.Blocks.Headers.{IsSize, packed}

-- A block of so many bytes at an address, allocated or not, behind one that is allocated or not.
pub record Block (w : ℕ → ℕ) (a : ℕ) (before : Bool) (n : ℕ) (this : Bool) : Type 0 where
  pub header : w (a + 8) ≡ packed n before this
  pub size : IsSize n
  pub footer : this ≡ false → w (a + n) ≡ w (a + 8)

-- The blocks, by size and whether they are allocated, fill the memory from an address to the end,
-- where a header without size stands. A free block has its footer, and every block knows of the one
-- before it.
unfoldable pub Tiles :
    (w : ℕ → ℕ) (a : ℕ) (before : Bool) (blocks : List (ℕ × Bool)) (end : ℕ) → Type 0
Tiles w a before [] end = (a ≡ end) × (q : Bool) × (w (a + 8) ≡ packed 0 q false)
Tiles w a before ((n, this) ∷ blocks) end =
    Block w a before n this × Tiles w (a + n) this blocks end

-- The number of bytes of some blocks, and whether the last of them is allocated.
unfoldable pub total : List (ℕ × Bool) → ℕ
total [] = 0
total ((n, this) ∷ blocks) = n + total blocks

unfoldable pub last_from : Bool → List (ℕ × Bool) → Bool
last_from before [] = before
last_from before ((n, this) ∷ blocks) = last_from this blocks

-- An address of a header or a footer, where blocks start at addresses like `a`.
pub data OnGrid (a y : ℕ) : Type 0 where
  at_footer : y % 64 ≡ a % 64 → OnGrid a y
  at_header : y % 64 ≡ (a + 8) % 64 → OnGrid a y

-- A node of a free list is the head of a list, below the blocks, or a block.
pub data IsNode (low a f : ℕ) : Type 0 where
  is_head : f + 32 ≤ low → IsNode low a f
  is_block : f % 64 ≡ a % 64 → IsNode low a f
