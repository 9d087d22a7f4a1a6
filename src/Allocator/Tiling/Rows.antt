-- ===== src/Allocator/Tiling/Rows.antt =====
-- HW3-Dynamic-Memory-Allocator: what an operation on one block does to the whole row of blocks.
use system_fundamentals_ii_c.Prelude.{
  Bool, List, [], arith, leb, refl, subst, true, ℕ, ◌%◌, ◌++◌, ◌+◌, ◌-◌, ◌<◌, ◌∷◌, ◌≡◌, ◌≤◌,
}
use system_fundamentals_ii_c.Allocator.Blocks.{Heap, row}
use system_fundamentals_ii_c.Allocator.Blocks.Headers.{IsSize}
use system_fundamentals_ii_c.Allocator.Operations.{sf_split}
use system_fundamentals_ii_c.Allocator.Tiling.{OnGrid, Tiles, last_from, total}
use system_fundamentals_ii_c.Allocator.Tiling.Frame.{Block-agree, ongrid, regrid}
use system_fundamentals_ii_c.Allocator.Tiling.Insert.{Destination}
use system_fundamentals_ii_c.Allocator.Tiling.Split.{Changed, sf_split-Changed, split_row}

-- The part of a row behind some blocks.
pub Tiles-suffix :
    (w : ℕ → ℕ) (a : ℕ) (before : Bool) (xs ys : List (ℕ × Bool)) (end : ℕ)
    → Tiles w a before (xs ++ ys) end
    → Tiles w (a + total xs) (last_from before xs) ys end
unfolding Tiles total last_from
Tiles-suffix w a before [] ys end row = subst (λ x. Tiles w x before ys end) (omega arith) row
Tiles-suffix w a before ((n, this) ∷ xs) ys end (block, rest) =
    subst (λ x. Tiles w x (last_from this xs) ys end) (omega arith)
      (Tiles-suffix w (a + n) this xs ys end rest)

-- The blocks of a row are whole.
pub total_whole :
    (w : ℕ → ℕ) (a : ℕ) (before : Bool) (xs ys : List (ℕ × Bool)) (end : ℕ)
    → Tiles w a before (xs ++ ys) end
    → total xs % 64 ≡ 0
unfolding Tiles total
total_whole w a before [] ys end row = refl
total_whole w a before ((n, this) ∷ xs) ys end (block, rest) =
    ground (arith, total_whole w (a + n) this xs ys end rest, block.size)

-- A part of a row is replaced.
Tiles-replace :
    (w w' : ℕ → ℕ) (a : ℕ) (before : Bool) (xs ys ys' : List (ℕ × Bool)) (end : ℕ)
    (agree : (y : ℕ) → OnGrid a y → a < y → y ≤ a + total xs → w' y ≡ w y)
    → Tiles w a before (xs ++ ys) end
    → Tiles w' (a + total xs) (last_from before xs) ys' end
    → Tiles w' a before (xs ++ ys') end
unfolding Tiles total last_from
Tiles-replace w w' a before [] ys ys' end agree row new =
    subst (λ x. Tiles w' x before ys' end) (omega arith) new
Tiles-replace w w' a before ((n, this) ∷ xs) ys ys' end agree (block, rest) new = (
  Block-agree w w' a before n this (λ y grid over upto. agree y grid over (omega arith)) block,
  Tiles-replace w w' (a + n) this xs ys ys' end
      (λ y grid over upto. agree y (regrid n block.size.whole grid) (omega arith) (omega arith))
      rest (subst (λ x. Tiles w' x (last_from this xs) ys' end) (omega arith) new),
)

-- An operation on a part is one on the row.
pub Changed-row :
    (w w' : ℕ → ℕ) (first : ℕ) (before : Bool) (xs ys ys' : List (ℕ × Bool)) (end : ℕ)
    → Tiles w first before (xs ++ ys) end
    → Changed w w' first (first + total xs) (last_from before xs) ys' end
    → Tiles w' first before (xs ++ ys') end
Changed-row w w' first before xs ys ys' end row change =
    Tiles-replace w w' first before xs ys ys' end
      (λ y grid over upto.
        change.others y (ongrid (total xs) (total_whole w first before xs ys end row) grid)
          (omega arith) upto)
      row change.row

-- sf_split splits one block of the row, where there is room for a free block of at least 64 bytes, and
-- allocates it whole otherwise. The other blocks stay as they are, by their sizes and whether they are
-- allocated; a free block that was split off is followed by one that knows it is free. The row of the
-- blocks starts behind the heads of the lists and ends 8 bytes before the epilogue; the wilderness
-- list is empty where no block follows, and is not at the next block otherwise.
pub sf_split_row :
    (h : Heap) (first n d : ℕ) (before this : Bool) (xs ys : List (ℕ × Bool)) (end : ℕ)
    → h.heads + 320 ≤ first
    → end + 8 ≡ h.epilogue
    → Tiles h.words first before (xs ++ (n, this) ∷ ys) end
    → IsSize d
    → d ≤ n
    → (leb (d + 64) n ≡ true → Destination h first (first + total xs + d) (n - d) ys)
    → Tiles (sf_split (first + total xs) n d h).words first before (xs ++ split_row n d ys) end
unfolding Tiles
sf_split_row h first n d before this xs ys end heads_below last row size fits goes =
    let here = Tiles-suffix h.words first before xs ((n, this) ∷ ys) end row in
    Changed-row h.words (sf_split (first + total xs) n d h).words first before xs ((n, this) ∷ ys)
      (split_row n d ys) end row
      (sf_split-Changed h first (first + total xs) n d (last_from before xs) this ys end heads_below
        (omega arith) last here.0 here.1 size fits goes)
