-- ===== src/Allocator/Tiling/Coalesce.antt =====
-- HW3-Dynamic-Memory-Allocator/src/sfmm.c: sf_coalesce on a row of blocks, behind an allocated block.
use system_fundamentals_ii_c.Prelude.{
  Bool, List, [], ap, arith, false, if◌then◌else◌, leb, not, refl, subst, sym, true, ℕ, ◌%◌, ◌*◌,
  ◌+◌, ◌<◌, ◌==◌, ◌∙◌, ◌∷◌, ◌≡◌, ◌≤◌,
}
use system_fundamentals_ii_c.Allocator.Blocks.{
  Heap, get_alloc, get_palloc, get_size, next_blkp, size_of,
}
use system_fundamentals_ii_c.Allocator.Blocks.Headers.{bit, packed}
use system_fundamentals_ii_c.Allocator.Lists.{insert_to_free_list, remove_from_free_list}
use system_fundamentals_ii_c.Allocator.Operations.{coalesce_branch, join_next, sf_coalesce}
use system_fundamentals_ii_c.Allocator.Tiling.{Block, OnGrid, Tiles, at_header, total}
use system_fundamentals_ii_c.Allocator.Tiling.Insert.{
  Destination, Inserted, Tiles_room, insert_Inserted,
}
use system_fundamentals_ii_c.Allocator.Tiling.Merge.{
  HasLinks, Tiles-behind, end_alloc, end_size, join_next-Changed, not_removed, remove_kept,
  sum_size,
}
use system_fundamentals_ii_c.Allocator.Tiling.Retag.{alloc_lem, before_end, palloc_lem, size_lem}
use system_fundamentals_ii_c.Allocator.Tiling.Split.{Changed}

-- What coalescing is for: the free block takes in the next one, if that is free.
unfoldable pub join_right : (s : ℕ) (ys : List (ℕ × Bool)) → List (ℕ × Bool)
join_right s [] = (s, false) ∷ []
join_right s ((m, true) ∷ ys) = (s, false) ∷ (m, true) ∷ ys
join_right s ((m, false) ∷ ys) = (s + m, false) ∷ ys

-- The free lists allow it: a next block that is free has neighbours in its list that are nodes, and
-- once it is out of the list, the block of `s` bytes at `p` can be inserted.
unfoldable pub Ready : (h : Heap) (low p x s : ℕ) (ys : List (ℕ × Bool)) → Type 0
Ready h low p x s [] = Destination h low p s []
Ready h low p x s ((m, true) ∷ ys) = Destination h low p s ((m, true) ∷ ys)
Ready h low p x s ((m, false) ∷ ys) =
    HasLinks h.words low p x × Destination (remove_from_free_list x h) low p (s + m) ys

-- The two tests by which sf_coalesce branches.
pub tests_lem :
    (h : Heap) (bp n this : ℕ) (before : Bool)
    → Block h.words bp before n false
    → get_alloc h (bp + n) ≡ this
    → sf_coalesce bp h ≡ coalesce_branch (not (bit before * 2 == 0)) (not (this == 0)) bp h
unfolding sf_coalesce
tests_lem h bp n this before block next_alloc =
    ap (λ x. coalesce_branch (not (x == 0)) (not (get_alloc h (next_blkp h bp) == 0)) bp h)
      (palloc_lem block)
    ∙ ap (λ s. coalesce_branch (not (bit before * 2 == 0)) (not (get_alloc h (bp + s) == 0)) bp h)
        (size_lem block)
    ∙ ap (λ x. coalesce_branch (not (bit before * 2 == 0)) (not (x == 0)) bp h) next_alloc

pub ongrid_header : (a n : ℕ) → n % 64 ≡ 0 → OnGrid a (a + n + 8)
ongrid_header a n whole = at_header (omega arith)

Inserted-Changed :
    {w w' : ℕ → ℕ} {low bp n : ℕ} {before : Bool} {ys : List (ℕ × Bool)} {end : ℕ}
    → Inserted w w' low bp n before ys end
    → Changed w w' low bp before ((n, false) ∷ ys) end
unfolding Tiles
Inserted-Changed done = record { row = (done.block, done.rest); others = done.others }

module _ (h : Heap) (low bp n : ℕ) (q : Bool) (end : ℕ) (heads_below : h.heads + 320 ≤ low)
    (above : low ≤ bp) (last : end + 8 ≡ h.epilogue) (block : Block h.words bp true n false) where
  -- The branch of a next block that is free, or of the end.
  next_code :
      bp + n < h.epilogue
      → get_alloc h (bp + n) ≡ 0
      → sf_coalesce bp h ≡ (bp, join_next bp (get_palloc h bp) h)
  next_code inside free =
      tests_lem h bp n 0 true block free
      ∙ ap
          (λ b.
            if b then (bp, insert_to_free_list bp h) else (bp, join_next bp (get_palloc h bp) h))
          (ap (λ s. leb h.epilogue (bp + s)) (size_lem block)
            ∙ before_end h.epilogue (bp + n) inside)

  -- At the end of the row nothing is joined.
  right_end :
      (r : Bool)
      → bp + n ≡ end
      → h.words (bp + n + 8) ≡ packed 0 r false
      → Destination h low bp n []
      → Changed h.words (sf_coalesce bp h).1.words low bp true ((n, false) ∷ []) end
  unfolding Tiles
  right_end r stop says goes =
      let none = end_size h.words (bp + n) r says in
      let still = not_removed h (bp + n) none in
      subst (λ r. Changed h.words r.1.words low bp true ((n, false) ∷ []) end)
        (sym (next_code (omega arith) (end_alloc h.words (bp + n) r says)))
        (subst
          (λ s.
            Changed h.words (join_next bp (get_palloc h bp) h).words low bp true ((s, false) ∷ [])
              end)
          (omega arith)
          (join_next-Changed h low bp n 0 true false [] end heads_below above last
            (sum_size 0 block.size refl (ground (arith, block.size))) (size_lem block)
            (palloc_lem block) (ap (λ g. get_size g (bp + n)) still ∙ none)
            (λ y grid over. ap (λ g. g.words y) still)
            (subst (λ g. Tiles g.words (bp + (n + 0)) false [] end) (sym still)
              (omega arith, r, ap (λ x. h.words (x + 8)) (omega arith) ∙ says))
            (subst (λ g. Destination g low bp (n + 0) []) (sym still)
              (subst (λ s. Destination h low bp s []) (omega arith) goes))))

  -- A next block that is free is taken in.
  right_free :
      (m : ℕ) (ys : List (ℕ × Bool))
      → Tiles h.words (bp + n) q ((m, false) ∷ ys) end
      → n + m < 4294967296
      → HasLinks h.words low bp (bp + n)
      → Destination (remove_from_free_list (bp + n) h) low bp (n + m) ys
      → Changed h.words (sf_coalesce bp h).1.words low bp true ((n + m, false) ∷ ys) end
  unfolding Tiles
  right_free m ys (next_block, rest) small links goes =
      let inside = Tiles_room h.words (bp + n) m q false ys end (next_block, rest) in
      let same = remove_kept low bp (bp + n) h links in
      let size = sum_size m block.size next_block.size.whole small in
      let grid = ongrid_header bp n block.size.whole in
      subst (λ r. Changed h.words r.1.words low bp true ((n + m, false) ∷ ys) end)
        (sym (next_code (omega arith) (alloc_lem next_block)))
        (join_next-Changed h low bp n m true false ys end heads_below above last size
          (size_lem block) (palloc_lem block)
          (ap size_of (same (bp + n + 8) grid (omega arith)) ∙ size_lem next_block) same
          (Tiles-behind h.words (remove_from_free_list (bp + n) h).words low bp (n + m) false ys end
            size.whole above same (subst (λ x. Tiles h.words x false ys end) (omega arith) rest))
          goes)

  pub coalesce_right :
      (ys : List (ℕ × Bool))
      → Tiles h.words (bp + n) q ys end
      → n + total ys < 4294967296
      → Ready h low bp (bp + n) n ys
      → Changed h.words (sf_coalesce bp h).1.words low bp true (join_right n ys) end
  unfolding Tiles Ready join_right total
  coalesce_right [] (stop, r, says) small ready = right_end r stop says ready
  coalesce_right ((m, true) ∷ ys) rest small ready =
      subst (λ r. Changed h.words r.1.words low bp true ((n, false) ∷ (m, true) ∷ ys) end)
        (sym (tests_lem h bp n 1 true block (alloc_lem rest.0)))
        (Inserted-Changed (
          insert_Inserted h low bp n true q end heads_below above last block ((m, true) ∷ ys) rest
            ready))
  coalesce_right ((m, false) ∷ ys) rest small (links, goes) =
      right_free m ys rest (omega arith) links goes
