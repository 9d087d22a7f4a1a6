-- ===== src/Allocator/Tiling/Left.antt =====
-- HW3-Dynamic-Memory-Allocator/src/sfmm.c: sf_coalesce on a row of blocks, behind a free block.
use system_fundamentals_ii_c.Prelude.{
  Bool, List, [], ap, arith, false, if◌then◌else◌, leb, refl, subst, sym, true, ℕ, ◌%◌, ◌&&◌, ◌*◌,
  ◌+◌, ◌-◌, ◌<◌, ◌==◌, ◌∙◌, ◌∷◌, ◌≡◌, ◌≤◌,
}
use system_fundamentals_ii_c.Allocator.Blocks.{
  Heap, get_alloc, get_palloc, get_size, next_blkp, palloc_of, prev_blkp, row, size_of,
}
use system_fundamentals_ii_c.Allocator.Blocks.Headers.{IsSize, bit}
use system_fundamentals_ii_c.Allocator.Lists.{insert_to_free_list, remove_from_free_list}
use system_fundamentals_ii_c.Allocator.Operations.{
  join_both, join_next, join_prev, join_prev_last, sf_coalesce,
}
use system_fundamentals_ii_c.Allocator.Tiling.{Block, OnGrid, Tiles, at_header, total}
use system_fundamentals_ii_c.Allocator.Tiling.Coalesce.{Ready, join_right, ongrid_header, tests_lem}
use system_fundamentals_ii_c.Allocator.Tiling.Insert.{Destination, Tiles_room}
use system_fundamentals_ii_c.Allocator.Tiling.Merge.{
  HasLinks, Tiles-behind, end_alloc, end_size, join_both-Changed, join_prev-Changed, not_removed,
  remove_kept, sum_size,
}
use system_fundamentals_ii_c.Allocator.Tiling.Retag.{alloc_lem, before_end, palloc_lem, size_lem}
use system_fundamentals_ii_c.Allocator.Tiling.Split.{Changed}

-- The tests behind a free block, before a free one.
abbrev both_branch : (h : Heap) (bp x : ℕ) (first second third : Bool) → ℕ × Heap
both_branch h bp x first second third =
    if first
    then (bp, insert_to_free_list bp h)
    else if second
    then (bp, join_next bp (get_palloc h bp) h)
    else if third
    then (x, join_prev_last bp x h)
    else (x, join_both bp x h)

far_header : (p k n : ℕ) → k % 64 ≡ 0 → n % 64 ≡ 0 → OnGrid p (p + k + n + 8)
far_header p k n left right = at_header (omega arith)

sums : (n k m : ℕ) → n + k + m ≡ n + (m + k)
sums n k m = omega arith

apart : (x y : ℕ) → y < x → (x == y) ≡ false
apart x y less = ground arith

module _ (h : Heap) (low p k n : ℕ) (before q : Bool) (end : ℕ) (heads_below : h.heads + 320 ≤ low)
    (above : low ≤ p) (last : end + 8 ≡ h.epilogue) (behind : h.prologue < p)
    (left : Block h.words p before k false) (block : Block h.words (p + k) false n false)
    (links : HasLinks h.words low p p) where
  -- The block before is found by its footer.
  left_found : prev_blkp h (p + k) ≡ p
  left_found = ap (λ s. p + k - s) (ap size_of (left.footer refl) ∙ size_lem left) ∙ omega arith

  same_left : (y : ℕ) → OnGrid p y → low ≤ y → (remove_from_free_list p h).words y ≡ h.words y
  same_left = remove_kept low p p h links

  not_behind : leb p h.prologue ≡ false
  not_behind = before_end p h.prologue behind

  prev_code : get_alloc h (p + k + n) ≡ 1 → sf_coalesce (p + k) h ≡ (p, join_prev (p + k) p h)
  prev_code taken =
      let bp = p + k in
      tests_lem h bp n 1 false block taken
      ∙ ap (λ x. if leb x h.prologue then (bp, insert_to_free_list bp h) else (x, join_prev bp x h))
          left_found
      ∙ ap (λ b. if b then (bp, insert_to_free_list bp h) else (p, join_prev bp p h)) not_behind

  both_code :
      p + k + n < h.epilogue
      → get_alloc h (p + k + n) ≡ 0
      → sf_coalesce (p + k) h ≡ (p, join_both (p + k) p h)
  both_code inside free =
      let bp = p + k in
      tests_lem h bp n 0 false block free
      ∙ ap
          (λ x.
            both_branch h bp x (x == h.prologue && next_blkp h bp == h.epilogue) (leb x h.prologue)
              (leb h.epilogue (next_blkp h bp)))
          left_found
      ∙ ap (λ b. both_branch h bp p b (leb p h.prologue) (leb h.epilogue (next_blkp h bp)))
          (ap (λ b. b && next_blkp h bp == h.epilogue) (apart p h.prologue behind))
      ∙ ap (λ b. both_branch h bp p false b (leb h.epilogue (next_blkp h bp))) not_behind
      ∙ ap (λ b. both_branch h bp p false false b)
          (ap (λ s. leb h.epilogue (bp + s)) (size_lem block)
            ∙ before_end h.epilogue (bp + n) inside)

  size_left : get_size (remove_from_free_list p h) p ≡ k
  size_left = ap size_of (same_left (p + 8) (at_header refl) (omega arith)) ∙ size_lem left

  palloc_left : get_palloc (remove_from_free_list p h) p ≡ bit before * 2
  palloc_left = ap palloc_of (same_left (p + 8) (at_header refl) (omega arith)) ∙ palloc_lem left

  -- An allocated block follows.
  left_alone :
      (m : ℕ) (ys : List (ℕ × Bool))
      → Tiles h.words (p + k + n) q ((m, true) ∷ ys) end
      → n + k < 4294967296
      → Destination (remove_from_free_list p h) low p (n + k) ((m, true) ∷ ys)
      → Changed h.words
          (sf_coalesce (p + k) h).1.words
          low
          p
          before
          ((n + k, false) ∷ (m, true) ∷ ys)
          end
  unfolding Tiles
  left_alone m ys row small goes =
      let size = sum_size k block.size left.size.whole small in
      subst (λ r. Changed h.words r.1.words low p before ((n + k, false) ∷ (m, true) ∷ ys) end)
        (sym (prev_code (alloc_lem row.0)))
        (join_prev-Changed h low p (p + k) k n before q ((m, true) ∷ ys) end heads_below above last
          size refl left.size.large (size_lem block)
          (ap size_of (same_left (p + k + 8) (ongrid_header p k left.size.whole) (omega arith))
            ∙ size_lem block)
          palloc_left size_left same_left
          (Tiles-behind h.words (remove_from_free_list p h).words low p (n + k) q ((m, true) ∷ ys)
            end size.whole above same_left
            (subst (λ x. Tiles h.words x q ((m, true) ∷ ys) end) (omega arith) row))
          goes)

  -- A free block, or the end, follows: `m` bytes are taken in.
  left_both :
      (m : ℕ) (r : Bool) (ys : List (ℕ × Bool))
      → p + k + n < h.epilogue
      → get_alloc h (p + k + n) ≡ 0
      → get_size h (p + k + n) ≡ m
      → m % 64 ≡ 0
      → n + k + m < 4294967296
      → Tiles h.words (p + k + n + m) r ys end
      → ((y : ℕ)
          → OnGrid p y
          → low ≤ y
          → (remove_from_free_list (p + k + n) (remove_from_free_list p h)).words y
            ≡ (remove_from_free_list p h).words y)
      → Destination
          (remove_from_free_list (p + k + n) (remove_from_free_list p h))
          low
          p
          (n + k + m)
          ys
      → Changed h.words (sf_coalesce (p + k) h).1.words low p before ((n + k + m, false) ∷ ys) end
  left_both m r ys inside free there whole small row same goes =
      let g = remove_from_free_list p h in
      let h' = remove_from_free_list (p + k + n) g in
      let same' =
        λ (y : ℕ) (grid : OnGrid p y) (over : low ≤ y). same y grid over ∙ same_left y grid over in
      let size =
        subst IsSize (sums n k m)
          (sum_size m (sum_size k block.size left.size.whole (omega arith)) whole small) in
      subst (λ x. Changed h.words x.1.words low p before ((n + k + m, false) ∷ ys) end)
        (sym (both_code inside free))
        (subst
          (λ s. Changed h.words (join_both (p + k) p h).words low p before ((s, false) ∷ ys) end)
          (sym (sums n k m))
          (join_both-Changed h low p (p + k) k n m before r ys end heads_below above last size
            (size_lem block)
            (ap palloc_of (same' (p + 8) (at_header refl) (omega arith)) ∙ palloc_lem left)
            (ap size_of (
                same' (p + k + n + 8) (far_header p k n left.size.whole block.size.whole)
                  (omega arith))
              ∙ there)
            (ap size_of (same' (p + 8) (at_header refl) (omega arith)) ∙ size_lem left) same'
            (Tiles-behind h.words h'.words low p (n + (m + k)) r ys end size.whole above same'
              (subst (λ x. Tiles h.words x r ys end) (omega arith) row))
            (subst (λ s. Destination h' low p s ys) (sums n k m) goes)))

  left_end :
      Tiles h.words (p + k + n) q [] end → get_size (remove_from_free_list p h) (p + k + n) ≡ 0
  unfolding Tiles
  left_end (stop, r, says) =
      ap size_of (
        same_left (p + k + n + 8) (far_header p k n left.size.whole block.size.whole) (omega arith))
      ∙ end_size h.words (p + k + n) r says

  pub coalesce_left :
      (ys : List (ℕ × Bool))
      → Tiles h.words (p + k + n) q ys end
      → n + k + total ys < 4294967296
      → Ready (remove_from_free_list p h) low p (p + k + n) (n + k) ys
      → Changed h.words (sf_coalesce (p + k) h).1.words low p before (join_right (n + k) ys) end
  unfolding Tiles Ready join_right total
  coalesce_left [] (stop, r, says) small ready =
      let still = not_removed (remove_from_free_list p h) (p + k + n) (left_end (stop, r, says)) in
      subst
        (λ s. Changed h.words (sf_coalesce (p + k) h).1.words low p before ((s, false) ∷ []) end)
        (omega arith)
        (left_both 0 q [] (omega arith) (end_alloc h.words (p + k + n) r says)
          (end_size h.words (p + k + n) r says) refl small
          (subst (λ x. Tiles h.words x q [] end) (omega arith) (stop, r, says))
          (λ y grid over. ap (λ g. g.words y) still)
          (subst (λ g. Destination g low p (n + k + 0) []) (sym still)
            (subst (λ s. Destination (remove_from_free_list p h) low p s []) (omega arith) ready)))
  coalesce_left ((m, true) ∷ ys) row small ready = left_alone m ys row (omega arith) ready
  coalesce_left ((m, false) ∷ ys) (next_block, rest) small (to_it, goes) =
      let inside = Tiles_room h.words (p + k + n) m q false ys end (next_block, rest) in
      left_both m false ys (omega arith) (alloc_lem next_block) (size_lem next_block)
        next_block.size.whole (omega arith) rest
        (remove_kept low p (p + k + n) (remove_from_free_list p h) to_it) goes
