-- ===== src/Allocator/Rings/Place.antt =====
-- HW3-Dynamic-Memory-Allocator/src/sfmm.c: place, on the row of blocks and the ten free lists.
use system_fundamentals_ii_c.Prelude.{
  Bool, Fresh, List, ap, arith, false, if◌then◌else◌, leb, subst, sym, true, ℕ, ◌++◌, ◌+◌, ◌-◌, ◌<◌,
  ◌==◌, ◌∙◌, ◌∷◌, ◌≡◌, ◌≢◌, ◌≤◌,
}
use system_fundamentals_ii_c.Allocator.Blocks.{Heap, list_count, row}
use system_fundamentals_ii_c.Allocator.Blocks.Headers.{IsSize}
use system_fundamentals_ii_c.Allocator.Lists.{remove_from_free_list}
use system_fundamentals_ii_c.Allocator.Operations.{place, sf_split}
use system_fundamentals_ii_c.Allocator.Rings.{AreAligned-split, IsRing, first}
use system_fundamentals_ii_c.Allocator.Rings.Frame.{AreNodes, AreNodes-remove}
use system_fundamentals_ii_c.Allocator.Rings.Insert.{nodes_with}
use system_fundamentals_ii_c.Allocator.Rings.Remove.{Fresh-remove}
use system_fundamentals_ii_c.Allocator.Rings.Split.{
  AreNodes-along, HasLinks-IsRing, lists_after, sf_split-AreLists,
}
use system_fundamentals_ii_c.Allocator.Rings.Table.{
  AreLists, head_at, remove_from_free_list-AreLists, with_list,
}
use system_fundamentals_ii_c.Allocator.Tiling.{Tiles, last_from, total}
use system_fundamentals_ii_c.Allocator.Tiling.Frame.{Tiles-agree}
use system_fundamentals_ii_c.Allocator.Tiling.Insert.{Destination}
use system_fundamentals_ii_c.Allocator.Tiling.Merge.{remove_kept, remove_shape}
use system_fundamentals_ii_c.Allocator.Tiling.Place.{place_row}
use system_fundamentals_ii_c.Allocator.Tiling.Retag.{alloc_lem, size_lem}
use system_fundamentals_ii_c.Allocator.Tiling.Rows.{Tiles-suffix, total_whole}
use system_fundamentals_ii_c.Allocator.Tiling.Split.{split_row}

apart_head :
    (heads i low x : ℕ) → i < list_count → heads + 320 ≤ low → low ≤ x → x ≢ head_at heads i
apart_head heads i low x inside below above e = omega arith

-- An address that is in none of the lists is in none when a block is taken out of one.
Fresh-removed :
    (x i b : ℕ) (lists : ℕ → List ℕ) (us vs : List ℕ)
    → lists i ≡ us ++ b ∷ vs
    → i < list_count
    → ((j : ℕ) → j < list_count → Fresh x (lists j))
    → (j : ℕ) → j < list_count
    → Fresh x (with_list lists i (us ++ vs) j)
Fresh-removed x i b lists us vs here i_in fresh j inside = by_list (j == i)
  where
    by_list : (c : Bool) → Fresh x (if c then us ++ vs else lists j)
    by_list true = Fresh-remove x b us vs (subst (Fresh x) here (fresh i i_in))
    by_list false = fresh j inside

-- place takes a free block out of its list and allocates its first part, leaving a free block, or all of
-- it where less than 64 bytes would be left. The row of the blocks, by their sizes and whether they are
-- allocated, is as it was otherwise; and the ten free lists are rings that share no node, as they were
-- but that the block has left its list, and that the rest is the first block of the list that is for
-- it: the list of its class, or that of the wilderness block where no block follows. The row lies above
-- the heads of the lists and ends 8 bytes before the epilogue; the size is a block size that the block
-- has room for; the nodes of the lists lie on the grid of the row, or below it. Where a rest is left,
-- its address is in no list, the head of its list is followed by a node, and once the block is out of
-- its list, the wilderness list is empty if no block follows, and does not start with the block that
-- follows otherwise.
pub place_keeps :
    (h : Heap) (first n d i : ℕ) (before : Bool) (xs ys : List (ℕ × Bool)) (end : ℕ)
    (lists : ℕ → List ℕ) (us vs : List ℕ)
    → h.heads + 320 ≤ first
    → end + 8 ≡ h.epilogue
    → Tiles h.words first before (xs ++ (n, false) ∷ ys) end
    → IsSize d
    → d ≤ n
    → AreLists h.words h.heads lists
    → i < list_count
    → lists i ≡ us ++ (first + total xs) ∷ vs
    → ((j : ℕ) → j < list_count → AreNodes first first (lists j))
    → (leb (d + 64) n ≡ true → (j : ℕ) → j < list_count → Fresh (first + total xs + d) (lists j))
    → (leb (d + 64) n ≡ true
        → Destination
            (remove_from_free_list (first + total xs) h)
            first
            (first + total xs + d)
            (n - d)
            ys)
    → Tiles (place (first + total xs) d h).words first before (xs ++ split_row n d ys) end
      × AreLists (place (first + total xs) d h).words h.heads (
          lists_after
            (leb (d + 64) n)
            (with_list lists i (us ++ vs))
            (first + total xs + d)
            (n - d)
            ys)
unfolding place Tiles
place_keeps h first n d i before xs ys end lists us vs heads_below last_at row size fits all i_in
      here nodes fresh goes =
    let bp = first + total xs in
    let h' = remove_from_free_list bp h in
    let h'' = record h { words = h'.words } in
    let shape = remove_shape h bp in
    let even = total_whole h.words first before xs ((n, false) ∷ ys) end row in
    let ring = subst (IsRing h.words (head_at h.heads i)) here (all.rings i i_in) in
    let ring_nodes = subst (AreNodes first first) here (nodes i i_in) in
    let links =
      HasLinks-IsRing h.words first first (head_at h.heads i) bp us vs ring
        (omega (arith, heads_below, i_in)) ring_nodes in
    let row' =
      Tiles-agree h.words h'.words first before (xs ++ (n, false) ∷ ys) end
        (λ y grid over. remove_kept first first bp h links y grid (omega arith)) row in
    let found = Tiles-suffix h.words first before xs ((n, false) ∷ ys) end row in
    let block = Tiles-suffix h'.words first before xs ((n, false) ∷ ys) end row' in
    let removed = with_list lists i (us ++ vs) in
    let taken : AreLists h''.words h''.heads removed =
      remove_from_free_list-AreLists h i bp lists us vs all i_in here (alloc_lem found.0)
        (ground (arith, size_lem found.0, found.0.size)) in
    let nodes' =
      nodes_with first first i lists (us ++ vs) nodes
        (AreNodes-remove first first bp us vs ring_nodes) in
    let at = (AreAligned-split us (bp ∷ vs) ring.aligned.1).1.0 in
    let code : place bp d h ≡ sf_split bp n d h'' =
      ap (λ s. sf_split bp s d h') (size_lem block.0) ∙ ap (sf_split bp n d) shape in
    (
      place_row h first n d before xs ys end heads_below last_at row size fits links goes,
      subst
          (λ g. AreLists g.words h.heads (lists_after (leb (d + 64) n) removed (bp + d) (n - d) ys))
          (sym code)
          (sf_split-AreLists h'' first bp n d (last_from before xs) false ys end removed heads_below
            (omega arith) last_at block.0 block.1 taken
            (λ j inside. AreNodes-along first first (total xs) (removed j) even (nodes' j inside))
            size fits at
            (λ room. subst (λ g. Destination g first (bp + d) (n - d) ys) shape (goes room))
            (λ room j inside. (
              apart_head h.heads j first (bp + d) inside heads_below (omega arith),
              Fresh-removed (bp + d) i bp lists us vs here i_in (fresh room) j inside,
            ))),
    )
