-- ===== src/Allocator/Tiling/Place.antt =====
-- HW3-Dynamic-Memory-Allocator/src/sfmm.c: find_fit and place, on the row of blocks.
use system_fundamentals_ii_c.Prelude.{
  Bool, List, arith, false, leb, some, subst, suc, sym, true, zero, ℕ, ◌++◌, ◌+◌, ◌-◌, ◌∷◌, ◌≡◌,
  ◌≤◌,
}
use system_fundamentals_ii_c.Allocator.Blocks.{Heap, get_alloc, get_size, head, next, row}
use system_fundamentals_ii_c.Allocator.Blocks.Headers.{IsSize}
use system_fundamentals_ii_c.Allocator.Lists.{remove_from_free_list}
use system_fundamentals_ii_c.Allocator.Operations.{
  find_fit, fit_from, place, search_lists, sf_split,
}
use system_fundamentals_ii_c.Allocator.Tiling.{Tiles, total}
use system_fundamentals_ii_c.Allocator.Tiling.Frame.{Tiles-agree}
use system_fundamentals_ii_c.Allocator.Tiling.Insert.{Destination}
use system_fundamentals_ii_c.Allocator.Tiling.Merge.{HasLinks, remove_kept, remove_shape}
use system_fundamentals_ii_c.Allocator.Tiling.Retag.{size_lem}
use system_fundamentals_ii_c.Allocator.Tiling.Rows.{Tiles-suffix, sf_split_row}
use system_fundamentals_ii_c.Allocator.Tiling.Split.{split_row}

-- The block that find_fit returns is free and large enough.
fit_from_lem :
    (fuel asize dummy bp b : ℕ) (h : Heap)
    → fit_from fuel asize dummy bp h ≡ some (some b)
    → (get_alloc h b ≡ 0) × (asize ≤ get_size h b)
unfolding fit_from
fit_from_lem zero asize dummy bp b h found = absurd (ground arith)
fit_from_lem (suc f) asize dummy bp b h found =
    ground (arith, fit_from_lem f asize dummy (next h bp) b h)

find_fit_lem :
    (fuel asize dummy b : ℕ) (h : Heap)
    → find_fit fuel asize dummy h ≡ some (some b)
    → (get_alloc h b ≡ 0) × (asize ≤ get_size h b)
unfolding find_fit
find_fit_lem fuel asize dummy b h found = fit_from_lem fuel asize dummy (next h dummy) b h found

-- The block that the search of sf_malloc through the lists finds is free, and at least as large as the
-- block that is needed.
search_lists_lem :
    (fuel asize rounds i b : ℕ) (h : Heap)
    → search_lists fuel asize rounds i h ≡ some (some b)
    → (get_alloc h b ≡ 0) × (asize ≤ get_size h b)
unfolding search_lists
search_lists_lem fuel asize zero i b h found = absurd (ground arith)
search_lists_lem fuel asize (suc rounds) i b h found =
    ground (
      arith,
      search_lists_lem fuel asize rounds (i + 1) b h,
      find_fit_lem fuel asize (head h i) b h,
    )

-- place takes a free block of the row out of its list and allocates its first part, leaving a free block,
-- or all of it where less than 64 bytes would be left; the row has the other blocks as before, by their
-- sizes and whether they are allocated. The row lies above the
-- heads of the lists and ends 8 bytes before the epilogue, the size is a block size that the block has
-- room for, and its neighbours in the list are nodes. Where a rest is left, the head of its list is
-- followed by a node, and once the block is out of its list, the wilderness list is empty if no block
-- follows, and does not start with the block that follows otherwise.
pub place_row :
    (h : Heap) (first n d : ℕ) (before : Bool) (xs ys : List (ℕ × Bool)) (end : ℕ)
    → h.heads + 320 ≤ first
    → end + 8 ≡ h.epilogue
    → Tiles h.words first before (xs ++ (n, false) ∷ ys) end
    → IsSize d
    → d ≤ n
    → HasLinks h.words first first (first + total xs)
    → (leb (d + 64) n ≡ true
        → Destination
            (remove_from_free_list (first + total xs) h)
            first
            (first + total xs + d)
            (n - d)
            ys)
    → Tiles (place (first + total xs) d h).words first before (xs ++ split_row n d ys) end
unfolding place Tiles
place_row h first n d before xs ys end heads_below last row size fits links goes =
    let bp = first + total xs in
    let h' = remove_from_free_list bp h in
    let same = remove_kept first first bp h links in
    let row' =
      Tiles-agree h.words h'.words first before (xs ++ (n, false) ∷ ys) end
        (λ y grid over. same y grid (omega arith)) row in
    let here = Tiles-suffix h'.words first before xs ((n, false) ∷ ys) end row' in
    subst (λ s. Tiles (sf_split bp s d h').words first before (xs ++ split_row n d ys) end)
      (sym (size_lem here.0))
      (sf_split_row h' first n d before false xs ys end
        (subst (λ x. x.heads + 320 ≤ first) (sym (remove_shape h bp)) heads_below)
        (subst (λ x. end + 8 ≡ x.epilogue) (sym (remove_shape h bp)) last) row' size fits goes)
