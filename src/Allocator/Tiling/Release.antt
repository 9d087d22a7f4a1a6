-- ===== src/Allocator/Tiling/Release.antt =====
-- HW3-Dynamic-Memory-Allocator/src/sfmm.c: sf_free and the whole row of blocks.
use system_fundamentals_ii_c.Prelude.{
  Bool, List, ap, arith, false, inl, inr, refl, subst, sym, true, ℕ, ◌%◌, ◌++◌, ◌+◌, ◌<◌, ◌∙◌, ◌∷◌,
  ◌≡◌, ◌≤◌,
}
use system_fundamentals_ii_c.Allocator.Blocks.{Heap, alloc_of, payload}
use system_fundamentals_ii_c.Allocator.Lists.{remove_from_free_list}
use system_fundamentals_ii_c.Allocator.Operations.{returns, sf_coalesce, sf_free}
use system_fundamentals_ii_c.Allocator.Tiling.{Block, Tiles, last_from, total}
use system_fundamentals_ii_c.Allocator.Tiling.Coalesce.{Ready, join_right}
use system_fundamentals_ii_c.Allocator.Tiling.Free.{
  accepted, free_code, free_left, free_right, marked,
}
use system_fundamentals_ii_c.Allocator.Tiling.Insert.{Tiles_forward}
use system_fundamentals_ii_c.Allocator.Tiling.Merge.{HasLinks}
use system_fundamentals_ii_c.Allocator.Tiling.Retag.{alloc_lem, palloc_lem, size_lem}
use system_fundamentals_ii_c.Allocator.Tiling.Rows.{Changed-row, Tiles-suffix, total_whole}
use system_fundamentals_ii_c.Allocator.Tiling.Split.{Changed}

-- sf_free of a pointer returns, and the heap is the row of these blocks.
pub record Frees (h : Heap) (pp first : ℕ) (before : Bool) (blocks : List (ℕ × Bool)) (end : ℕ)
    : Type 0 where
  pub after : Heap
  pub outcome : sf_free pp h ≡ returns tt after
  pub row : Tiles after.words first before blocks end

-- The row lies between the heads of the lists and the epilogue, behind the prologue, so that payloads
-- are aligned.
pub record IsPlaced (h : Heap) (first end : ℕ) : Type 0 where
  pub heads_below : h.heads + 320 ≤ first
  pub last : end + 8 ≡ h.epilogue
  pub behind : h.prologue < first
  pub aligned : (first + 16) % 64 ≡ h.mem_start % 64

payload_aligned :
    (first total start : ℕ)
    → (first + 16) % 64 ≡ start % 64
    → total % 64 ≡ 0
    → (first + total + 16) % 64 ≡ start % 64
payload_aligned first total start aligned whole = omega arith

far_aligned :
    (first total k start : ℕ)
    → (first + 16) % 64 ≡ start % 64
    → total % 64 ≡ 0
    → k % 64 ≡ 0
    → (first + total + k + 16) % 64 ≡ start % 64
far_aligned first total k start aligned whole more = omega arith

-- sf_free of a block behind an allocated one, or of the first one, returns; it frees the block and joins
-- it with the next one where that is free. The row has the other blocks as before, by their sizes and
-- whether they are allocated, and the block that follows knows that a free one is before it. What the
-- payloads hold is not stated. The row lies above the heads of the lists and the prologue, ends 8 bytes
-- before the epilogue and has aligned payloads, and the sizes from the block on are below 2 ^ 32
-- together. The neighbours of a free next block in its list are nodes; and once that is out of its list,
-- the wilderness list is empty if no block follows, and otherwise does not start with the block that
-- follows, and the list for the new block starts with a node.
pub free_behind_taken :
    (h : Heap) (first n : ℕ) (before : Bool) (xs ys : List (ℕ × Bool)) (end : ℕ)
    → IsPlaced h first end
    → Tiles h.words first before (xs ++ (n, true) ∷ ys) end
    → last_from before xs ≡ true
    → n + total ys < 4294967296
    → Ready (marked (first + total xs) n h) first (first + total xs) (first + total xs + n) n ys
    → Frees h (payload (first + total xs)) first before (xs ++ join_right n ys) end
unfolding Tiles
free_behind_taken h first n before xs ys end placed row taken small ready =
    let bp = first + total xs in
    let here = Tiles-suffix h.words first before xs ((n, true) ∷ ys) end row in
    let block = subst (λ b. Block h.words bp b n true) taken here.0 in
    let forward = Tiles_forward h.words (bp + n) true ys end here.1 in
    record {
      after = (sf_coalesce bp (marked bp n h)).1;
      outcome = free_code h bp n (size_lem block) (
          accepted h bp
            (payload_aligned first (total xs) h.mem_start placed.aligned
              (total_whole h.words first before xs ((n, true) ∷ ys) end row))
            (alloc_lem block) (omega (arith, placed.last)) (omega (arith, placed.behind))
            (inl (palloc_lem block)));
      row =
          Changed-row h.words (sf_coalesce bp (marked bp n h)).1.words first before xs
            ((n, true) ∷ ys) (join_right n ys) end row
            (subst
              (λ b.
                Changed h.words (sf_coalesce bp (marked bp n h)).1.words first bp b
                  (join_right n ys) end)
              (sym taken)
              (free_right h first bp n ys end block placed.heads_below (omega arith) placed.last
                here.1 small ready));
    }

-- sf_free of a block behind a free one returns; it joins the two, and the next one where that is free. The
-- row has the other blocks as before, by their sizes and whether they are allocated, and the block that
-- follows knows that a free one is before it. What the payloads hold is not stated.
-- The row lies
-- above the heads of the lists and the prologue, ends 8 bytes before the epilogue and has aligned
-- payloads, and the sizes from the free block on are below 2 ^ 32 together. The neighbours of the free
-- blocks in their lists are nodes; and once they are out of their lists, the wilderness list is empty
-- if no block follows, and otherwise does not start with the block that follows, and the list for the
-- new block starts with a node.
pub free_behind_free :
    (h : Heap) (first k n : ℕ) (before : Bool) (xs ys : List (ℕ × Bool)) (end : ℕ)
    → IsPlaced h first end
    → Tiles h.words first before (xs ++ (k, false) ∷ (n, true) ∷ ys) end
    → n + k + total ys < 4294967296
    → HasLinks (marked (first + total xs + k) n h).words first (first + total xs) (first + total xs)
    → Ready
        (remove_from_free_list (first + total xs) (marked (first + total xs + k) n h))
        first
        (first + total xs)
        (first + total xs + k + n)
        (n + k)
        ys
    → Frees h (payload (first + total xs + k)) first before (xs ++ join_right (n + k) ys) end
unfolding Tiles
free_behind_free h first k n before xs ys end placed row small links ready =
    let p = first + total xs in
    let bp = p + k in
    let here = Tiles-suffix h.words first before xs ((k, false) ∷ (n, true) ∷ ys) end row in
    let left = here.0 in
    let block = here.1.0 in
    let forward = Tiles_forward h.words (bp + n) true ys end here.1.1 in
    record {
      after = (sf_coalesce bp (marked bp n h)).1;
      outcome = free_code h bp n (size_lem block) (
          accepted h bp
            (far_aligned first (total xs) k h.mem_start placed.aligned
              (total_whole h.words first before xs ((k, false) ∷ (n, true) ∷ ys) end row)
              left.size.whole)
            (alloc_lem block) (omega (arith, placed.last)) (omega (arith, placed.behind))
            (inr (ap alloc_of (left.footer refl) ∙ alloc_lem left)));
      row =
          Changed-row h.words (sf_coalesce bp (marked bp n h)).1.words first before xs
            ((k, false) ∷ (n, true) ∷ ys) (join_right (n + k) ys) end row
            (free_left h first p k n (last_from before xs) ys end left block placed.heads_below
              (omega arith) (omega (arith, placed.behind)) placed.last here.1.1 small links ready);
    }
