-- ===== src/Allocator/Payload.antt =====
-- HW3-Dynamic-Memory-Allocator/src/sfmm.c: the payload of a block, its last word and sf_realloc.
use system_fundamentals_ii_c.Prelude.{
  Bool, Option, ap, arith, false, if◌then◌else◌, ltb, none, some, true, ℕ, ◌*◌, ◌+◌, ◌-◌, ◌<◌, ◌==◌,
  ◌∙◌, ◌≡◌, ◌≤◌,
}
use system_fundamentals_ii_c.Allocator.Blocks.{
  Heap, einval, get_size, payload, row, set_nextblkp_palloc, update,
}
use system_fundamentals_ii_c.Allocator.Blocks.Headers.{IsSize, bit, packed}
use system_fundamentals_ii_c.Allocator.Operations.{
  Outcome, aborts, adjust, is_invalid, move_block, realloc_valid, returns, sf_free, sf_malloc,
  sf_realloc, sf_split, unfinished,
}
use system_fundamentals_ii_c.Allocator.Sizes.{adjust_unique}
use system_fundamentals_ii_c.Allocator.Tiling.{Block}
use system_fundamentals_ii_c.Allocator.Tiling.Frame.{written}
use system_fundamentals_ii_c.Allocator.Tiling.Retag.{retag_words}

exact_fit : (m : ℕ) → IsSize m → adjust (m - 8) ≡ m
exact_fit m size =
    adjust_unique (m - 8) m (ground (arith, size)) size.whole (ground (arith, size))
      (ground (arith, size))

-- A request of 8 bytes less than a block size gets a block of that size, and its payload ends with the
-- word that is the footer of the block. set_nextblkp_palloc writes a header there when the next block
-- is allocated: freeing or allocating a block overwrites the last word of its neighbour's payload.
pub set_nextblkp_palloc-payload :
    (h : Heap) (bp n m : ℕ) (old before : Bool)
    → get_size h bp ≡ n
    → bp + n < h.epilogue
    → Block h.words (bp + n) old m true
    → (adjust (m - 8) ≡ m)
      × (bp + n + m + 8 ≡ payload (bp + n) + (m - 8))
      × ((set_nextblkp_palloc bp (bit before * 2) h).words (bp + n + m) ≡ packed m before true)
set_nextblkp_palloc-payload h bp n m old before here inside block =
    let v = packed m before true in
    (
      exact_fit m block.size,
      ground (arith, block.size),
      ap (λ w. w (bp + n + m))
            (retag_words h bp n m old before true here inside (omega (arith, block.size.whole))
              block.size.small block.header)
          ∙ written (update h.words (bp + n + 8) v) (bp + n + m) v,
    )

not_empty : (n : ℕ) → 64 ≤ n → (n == 0) ≡ false
not_empty n large = ground arith

not_larger : (x y : ℕ) → y ≤ x → ltb x y ≡ false
not_larger x y upto = ground arith

abbrev by_size : (fuel pp rsize size : ℕ) (h : Heap) (empty : Bool) → Outcome (Option ℕ)
by_size fuel pp rsize size h empty = elim empty [
  | true ↦ elim (sf_free (pp - 2 * row) h) [
    | returns _ h' ↦ returns none h'
    | aborts ↦ aborts
    | unfinished ↦ unfinished
  ]
  | false ↦ realloc_valid fuel pp size rsize h
]

abbrev by_validity : (fuel pp rsize : ℕ) (h : Heap) (invalid : Bool) → Outcome (Option ℕ)
by_validity fuel pp rsize h invalid = elim invalid [
  | true ↦ returns none (record h { sf_errno = einval })
  | false ↦ by_size fuel pp rsize (get_size h (pp - 2 * row)) h (get_size h (pp - 2 * row) == 0)
]

realloc_code :
    (fuel pp rsize n : ℕ) (h : Heap)
    → is_invalid pp h ≡ false
    → get_size h (pp - 16) ≡ n
    → 64 ≤ n
    → sf_realloc fuel pp rsize h ≡ realloc_valid fuel pp n rsize h
unfolding sf_realloc
realloc_code fuel pp rsize n h valid here large =
    ap (by_validity fuel pp rsize h) valid
    ∙ ap (λ s. by_size fuel pp rsize s h (s == 0)) here
    ∙ ap (by_size fuel pp rsize n h) (not_empty n large)

-- A block size of which less than 8 bytes would be left beside the request is kept by sf_realloc: the
-- call returns the same pointer and changes nothing, although the block size for the request is 64
-- bytes larger, and the payload of the block is too small for it. The pointer is valid and its block
-- has `n` bytes.
pub sf_realloc_keeps :
    (fuel pp rsize n : ℕ) (h : Heap)
    → is_invalid pp h ≡ false
    → get_size h (pp - 16) ≡ n
    → IsSize n
    → n < rsize + 8
    → rsize ≤ n
    → (sf_realloc fuel pp rsize h ≡ returns (some pp) h) × (adjust rsize ≡ n + 64)
sf_realloc_keeps fuel pp rsize n h valid here size large fits =
    let asize =
      adjust_unique rsize (n + 64) (ground (arith, size)) (ground (arith, size))
        (ground (arith, size)) (ground (arith, size)) in
    (
      realloc_code fuel pp rsize n h valid here size.large
          ∙ ap
              (λ b.
                if b
                then move_block pp n (sf_malloc fuel rsize h)
                else if ltb (adjust rsize) n
                then returns (some pp) (sf_split (pp - 2 * row) n (adjust rsize) h)
                else returns (some pp) h)
              (not_larger n rsize fits)
          ∙ ap
              (λ b.
                if b
                then returns (some pp) (sf_split (pp - 2 * row) n (adjust rsize) h)
                else returns (some pp) h)
              (not_larger (adjust rsize) n (omega (arith, asize))),
      asize,
    )
