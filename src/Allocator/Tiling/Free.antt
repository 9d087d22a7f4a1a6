-- ===== src/Allocator/Tiling/Free.antt =====
-- HW3-Dynamic-Memory-Allocator/src/sfmm.c: sf_free on the row of blocks.
use system_fundamentals_ii_c.Prelude.{
  Bool, List, ap, arith, false, if◌then◌else◌, leb, not, subst, sym, true, ℕ, ◌%◌, ◌&&◌, ◌+◌, ◌-◌,
  ◌<◌, ◌==◌, ◌||◌, ◌∙◌, ◌≡◌, ◌≤◌, ◌⊎◌,
}
use system_fundamentals_ii_c.Allocator.Blocks.{
  Heap, alloc_of, get_alloc, get_palloc, get_size, payload, prev_footer, row,
}
use system_fundamentals_ii_c.Allocator.Blocks.Headers.{packed}
use system_fundamentals_ii_c.Allocator.Lists.{remove_from_free_list}
use system_fundamentals_ii_c.Allocator.Operations.{
  aborts, free_block, is_invalid, returns, sf_coalesce, sf_free,
}
use system_fundamentals_ii_c.Allocator.Tiling.{Block, Tiles, total}
use system_fundamentals_ii_c.Allocator.Tiling.Coalesce.{Ready, coalesce_right, join_right}
use system_fundamentals_ii_c.Allocator.Tiling.Frame.{Block-agree, Tiles-agree}
use system_fundamentals_ii_c.Allocator.Tiling.Left.{coalesce_left}
use system_fundamentals_ii_c.Allocator.Tiling.Merge.{HasLinks}
use system_fundamentals_ii_c.Allocator.Tiling.Retag.{
  both, both-Block, both_kept, palloc_lem, tag, tag_words,
}
use system_fundamentals_ii_c.Allocator.Tiling.Split.{Changed}

-- The header and the footer of a block once sf_free has marked it free.
abbrev pub marked : (bp n : ℕ) → Heap → Heap
marked bp n = tag bp n 0

payload_back : (bp : ℕ) → bp + 16 - 16 ≡ bp
payload_back bp = omega arith

-- sf_free accepts the payload of an allocated block between the prologue and the epilogue.
pub accepted :
    (h : Heap) (bp : ℕ)
    → (bp + 16) % 64 ≡ h.mem_start % 64
    → get_alloc h bp ≡ 1
    → bp < h.epilogue
    → h.prologue < bp
    → (get_palloc h bp ≡ 2) ⊎ (alloc_of (prev_footer h bp) ≡ 0)
    → is_invalid (payload bp) h ≡ false
unfolding is_invalid
accepted h bp aligned taken inside behind footer =
    ap
      (λ x.
        payload bp == 0
        || not ((bp + 16) % 64 == h.mem_start % 64)
        || get_alloc h x == 0
        || leb h.epilogue x
        || leb (x + 8) h.prologue
        || (get_palloc h x == 0 && not (alloc_of (prev_footer h x) == 0)))
      (payload_back bp)
    ∙ ground arith

pub free_code :
    (h : Heap) (bp n : ℕ)
    → get_size h bp ≡ n
    → is_invalid (payload bp) h ≡ false
    → sf_free (payload bp) h ≡ returns tt (sf_coalesce bp (marked bp n h)).1
unfolding sf_free free_block
free_code h bp n here valid =
    ap (λ b. if b then aborts else returns tt (free_block (payload bp - 16) h)) valid
    ∙ ap (λ x. returns tt (free_block x h)) (payload_back bp)
    ∙ ap (λ s. returns tt (sf_coalesce bp (marked bp s h)).1) here

module _ (h : Heap) (bp n : ℕ) (before : Bool) (block : Block h.words bp before n true) where
  marked_words : (marked bp n h).words ≡ both h.words bp n (packed n before false)
  marked_words = tag_words h bp n before false block.size (palloc_lem block)

  marked_block : Block (marked bp n h).words bp before n false
  marked_block =
      subst (λ w. Block w bp before n false) (sym marked_words)
        (both-Block h.words bp n before false block.size)

  marked_kept : (y : ℕ) → (y ≡ bp + 8 → ⊥) → (y ≡ bp + n → ⊥) → (marked bp n h).words y ≡ h.words y
  marked_kept y a b =
      ap (λ w. w y) marked_words ∙ both_kept h.words bp n (packed n before false) y a b

  marked_rest :
      (q : Bool) (ys : List (ℕ × Bool)) (end : ℕ)
      → Tiles h.words (bp + n) q ys end
      → Tiles (marked bp n h).words (bp + n) q ys end
  marked_rest q ys end row =
      Tiles-agree h.words (marked bp n h).words (bp + n) q ys end
        (λ y grid over. marked_kept y (λ e. ground (arith, block.size)) (λ e. omega arith)) row

-- The row behind an allocated block.
pub free_right :
    (h : Heap) (low bp n : ℕ) (ys : List (ℕ × Bool)) (end : ℕ)
    → Block h.words bp true n true
    → h.heads + 320 ≤ low
    → low ≤ bp
    → end + 8 ≡ h.epilogue
    → Tiles h.words (bp + n) true ys end
    → n + total ys < 4294967296
    → Ready (marked bp n h) low bp (bp + n) n ys
    → Changed h.words (sf_coalesce bp (marked bp n h)).1.words low bp true (join_right n ys) end
free_right h low bp n ys end block heads_below above last rest small ready =
    let change =
      coalesce_right (marked bp n h) low bp n true end heads_below above last
        (marked_block h bp n true block) ys (marked_rest h bp n true block true ys end rest) small
        ready in
    record {
      row = change.row;
      others = λ y grid over upto.
          change.others y grid over upto
          ∙ marked_kept h bp n true block y (λ e. omega arith) (λ e. ground (arith, block.size));
    }

-- The row behind a free block.
pub free_left :
    (h : Heap) (low p k n : ℕ) (before : Bool) (ys : List (ℕ × Bool)) (end : ℕ)
    → Block h.words p before k false
    → Block h.words (p + k) false n true
    → h.heads + 320 ≤ low
    → low ≤ p
    → h.prologue < p
    → end + 8 ≡ h.epilogue
    → Tiles h.words (p + k + n) true ys end
    → n + k + total ys < 4294967296
    → HasLinks (marked (p + k) n h).words low p p
    → Ready (remove_from_free_list p (marked (p + k) n h)) low p (p + k + n) (n + k) ys
    → Changed h.words
        (sf_coalesce (p + k) (marked (p + k) n h)).1.words
        low
        p
        before
        (join_right (n + k) ys)
        end
free_left h low p k n before ys end left block heads_below above behind last rest small links
      ready =
    let kept_below = λ (y : ℕ) (upto : y ≤ p + k).
      marked_kept h (p + k) n false block y (λ e. omega arith) (λ e. ground (arith, block.size)) in
    let change =
      coalesce_left (marked (p + k) n h) low p k n before true end heads_below above last behind
        (Block-agree h.words (marked (p + k) n h).words p before k false
          (λ y grid over upto. kept_below y upto) left)
        (marked_block h (p + k) n false block) links ys
        (marked_rest h (p + k) n false block true ys end rest) small ready in
    record {
      row = change.row;
      others = λ y grid over upto. change.others y grid over upto ∙ kept_below y (omega arith);
    }
