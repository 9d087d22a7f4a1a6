-- ===== src/Allocator/Tiling/Retag.antt =====
-- HW3-Dynamic-Memory-Allocator/src/sfhelperfunctions.c: set_nextblkp_palloc on a row of blocks.
use system_fundamentals_ii_c.Prelude.{
  Bool, Bool-cases, List, [], ap, arith, false, if◌then◌else◌, inl, inr, leb, refl, subst, sym, ℕ,
  ◌%◌, ◌*◌, ◌+◌, ◌<◌, ◌==◌, ◌∙◌, ◌∷◌, ◌≡◌, ◌≤◌,
}
use system_fundamentals_ii_c.Allocator.Blocks.{
  Heap, alloc_of, get_alloc, get_palloc, get_size, header, pack, palloc_of, set_both, set_footer,
  set_header, set_nextblkp_palloc, size_of, update,
}
use system_fundamentals_ii_c.Allocator.Blocks.Headers.{IsSize, bit, pack_fields, packed}
use system_fundamentals_ii_c.Allocator.Tiling.{Block, Tiles}
use system_fundamentals_ii_c.Allocator.Tiling.Frame.{Tiles-agree, kept, written}

-- What the header of a block says.
pub size_lem :
    {w : ℕ → ℕ} {a n : ℕ} {before this : Bool} → Block w a before n this → size_of (w (a + 8)) ≡ n
size_lem {w} {a} {n} {before} {this} block =
    ap size_of block.header
    ∙ (pack_fields n before this (omega (arith, block.size.whole)) block.size.small).0

pub palloc_lem :
    {w : ℕ → ℕ} {a n : ℕ} {before this : Bool}
    → Block w a before n this
    → palloc_of (w (a + 8)) ≡ bit before * 2
palloc_lem {w} {a} {n} {before} {this} block =
    ap palloc_of block.header
    ∙ (pack_fields n before this (omega (arith, block.size.whole)) block.size.small).1

pub alloc_lem :
    {w : ℕ → ℕ} {a n : ℕ} {before this : Bool}
    → Block w a before n this
    → alloc_of (w (a + 8)) ≡ bit this
alloc_lem {w} {a} {n} {before} {this} block =
    ap alloc_of block.header
    ∙ (pack_fields n before this (omega (arith, block.size.whole)) block.size.small).2

-- A header and its footer.
abbrev pub both : (w : ℕ → ℕ) (a n v : ℕ) → ℕ → ℕ
both w a n v = update (update w (a + 8) v) (a + n) v

-- A block is made by writing its header and its footer.
pub both-Block :
    (w : ℕ → ℕ) (a n : ℕ) (before this : Bool)
    → IsSize n
    → Block (both w a n (packed n before this)) a before n this
both-Block w a n before this size =
    let v = packed n before this in
    let top =
      kept (update w (a + 8) v) (a + n) v (a + 8) (λ e. ground (arith, size))
      ∙ written w (a + 8) v in
    record {
      header = top;
      size = size;
      footer = λ free. written (update w (a + 8) v) (a + n) v ∙ sym top;
    }

pub both_kept : (w : ℕ → ℕ) (a n v y : ℕ) → (y ≡ a + 8 → ⊥) → (y ≡ a + n → ⊥) → both w a n v y ≡ w y
both_kept w a n v y no_header no_footer =
    kept (update w (a + 8) v) (a + n) v y no_footer ∙ kept w (a + 8) v y no_header

-- set_both, by the size that it writes.
pub set_both_words :
    (h : Heap) (a n : ℕ) (before this : Bool)
    → IsSize n
    → (set_both a (packed n before this) h).words ≡ both h.words a n (packed n before this)
set_both_words h a n before this size =
    let v = packed n before this in
    ap (λ s. update (update h.words (a + 8) v) (a + s) v)
      (ap size_of (written h.words (a + 8) v)
        ∙ (pack_fields n before this (omega (arith, size.whole)) size.small).0)

-- A header and a footer that keep what is said of the block before.
abbrev pub tag : (a n this : ℕ) → Heap → Heap
tag a n this h =
    let h' = set_header a (pack n (get_palloc h a) this) h in
    set_footer a (pack n (get_palloc h' a) this) h'

abbrev tag_with : (a n palloc this : ℕ) → Heap → Heap
tag_with a n palloc this h =
    let h' = set_header a (pack n palloc this) h in set_footer a (pack n (get_palloc h' a) this) h'

pub tag_words :
    (h : Heap) (a n : ℕ) (before this : Bool)
    → IsSize n
    → get_palloc h a ≡ bit before * 2
    → (tag a n (bit this) h).words ≡ both h.words a n (packed n before this)
tag_words h a n before this size known =
    let v = packed n before this in
    let fields = pack_fields n before this (omega (arith, size.whole)) size.small in
    let palloc = ap palloc_of (written h.words (a + 8) v) ∙ fields.1 in
    ap (λ p. (tag_with a n p (bit this) h).words) known
    ∙ ap
        (λ p.
          update (update h.words (a + 8) v) (a + size_of (update h.words (a + 8) v (a + 8)))
            (pack n p (bit this)))
        palloc
    ∙ ap (λ s. update (update h.words (a + 8) v) (a + s) v)
        (ap size_of (written h.words (a + 8) v) ∙ fields.0)

abbrev retag : (c m palloc this : ℕ) → Heap → Heap
retag c m palloc this h =
    let h' = set_header c (pack m palloc this) h in set_footer c (header h' c) h'

pub before_end : (e c : ℕ) → c < e → leb e c ≡ false
before_end e c inside = ground arith

-- set_nextblkp_palloc rewrites the header and the footer of the next block.
pub retag_words :
    (h : Heap) (bp n m : ℕ) (old before this : Bool)
    → get_size h bp ≡ n
    → bp + n < h.epilogue
    → m % 4 ≡ 0
    → m < 4294967296
    → h.words (bp + n + 8) ≡ packed m old this
    → (set_nextblkp_palloc bp (bit before * 2) h).words
      ≡ both h.words (bp + n) m (packed m before this)
unfolding set_nextblkp_palloc
retag_words h bp n m old before this here inside whole small says =
    let c = bp + n in
    let p = bit before * 2 in
    let v = packed m before this in
    let top = written h.words (c + 8) v in
    ap
      (λ s.
        (if leb h.epilogue (bp + s)
          then h
          else retag (bp + s) (get_size h (bp + s)) p (get_alloc h (bp + s)) h).words)
      here
    ∙ ap (λ b. (if b then h else retag c (get_size h c) p (get_alloc h c) h).words)
        (before_end h.epilogue c inside)
    ∙ ap (λ s. (retag c s p (get_alloc h c) h).words)
        (ap size_of says ∙ (pack_fields m old this whole small).0)
    ∙ ap (λ t. (retag c m p t h).words) (ap alloc_of says ∙ (pack_fields m old this whole small).2)
    ∙ ap (λ s. update (update h.words (c + 8) v) (c + s) (update h.words (c + 8) v (c + 8)))
        (ap size_of top ∙ (pack_fields m before this whole small).0)
    ∙ ap (λ x. update (update h.words (c + 8) v) (c + m) x) top

module _ (h : Heap) (bp n : ℕ) (q : Bool) (here : get_size h bp ≡ n)
    (inside : bp + n < h.epilogue) where
  -- It leaves what lies before the next block.
  pub retag_kept :
      (old : Bool) (blocks : List (ℕ × Bool)) (end y : ℕ)
      → Tiles h.words (bp + n) old blocks end
      → y < bp + n
      → (set_nextblkp_palloc bp (bit q * 2) h).words y ≡ h.words y
  unfolding Tiles
  retag_kept old [] end y (stop, r, says) before =
      ap (λ w. w y) (retag_words h bp n 0 r q false here inside refl (omega arith) says)
      ∙ both_kept h.words (bp + n) 0 (packed 0 q false) y (λ e. omega arith) (λ e. omega arith)
  retag_kept old ((m, this) ∷ blocks) end y (block, rest) before =
      ap (λ w. w y)
        (retag_words h bp n m old q this here inside (omega (arith, block.size.whole))
          block.size.small block.header)
      ∙ both_kept h.words (bp + n) m (packed m q this) y (λ e. omega arith) (λ e. omega arith)

  -- It tells the next block of the one before it.
  pub retag_Tiles :
      (old : Bool) (blocks : List (ℕ × Bool)) (end : ℕ)
      → Tiles h.words (bp + n) old blocks end
      → Tiles (set_nextblkp_palloc bp (bit q * 2) h).words (bp + n) q blocks end
  unfolding Tiles
  retag_Tiles old [] end (stop, r, says) = (
    stop,
    q,
    ap (λ w. w (bp + n + 8)) (retag_words h bp n 0 r q false here inside refl (omega arith) says)
        ∙ kept (update h.words (bp + n + 8) (packed 0 q false)) (bp + n + 0) (packed 0 q false)
            (bp + n + 8) (λ e. omega arith)
        ∙ written h.words (bp + n + 8) (packed 0 q false),
  )
  retag_Tiles old ((m, this) ∷ blocks) end (block, rest) =
      let v = packed m q this in
      subst (λ w. Block w (bp + n) q m this × Tiles w (bp + n + m) this blocks end)
        (sym (
          retag_words h bp n m old q this here inside (omega (arith, block.size.whole))
            block.size.small block.header))
        (
          both-Block h.words (bp + n) m q this block.size,
          Tiles-agree h.words (both h.words (bp + n) m v) (bp + n + m) this blocks end
              (λ y grid above.
                both_kept h.words (bp + n) m v y (λ e. ground (arith, block.size))
                  (λ e. omega arith))
              rest,
        )

  -- It leaves the footer before the next block too, where that has a size.
  pub retag_footer :
      (old this : Bool) (m : ℕ)
      → Block h.words (bp + n) old m this
      → (set_nextblkp_palloc bp (bit q * 2) h).words (bp + n) ≡ h.words (bp + n)
  retag_footer old this m block =
      ap (λ w. w (bp + n))
        (retag_words h bp n m old q this here inside (omega (arith, block.size.whole))
          block.size.small block.header)
      ∙ both_kept h.words (bp + n) m (packed m q this) (bp + n) (λ e. omega arith)
          (λ e. ground (arith, block.size))

  -- Both, up to the footer.
  pub retag_before :
      (old this : Bool) (m y : ℕ) (blocks : List (ℕ × Bool)) (end : ℕ)
      → Tiles h.words (bp + n) old ((m, this) ∷ blocks) end
      → y ≤ bp + n
      → (set_nextblkp_palloc bp (bit q * 2) h).words y ≡ h.words y
  unfolding Tiles
  retag_before old this m y blocks end (block, rest) upto = elim (Bool-cases (y == bp + n)) [
    | inl same ↦
        subst (λ x. (set_nextblkp_palloc bp (bit q * 2) h).words x ≡ h.words x) (ground arith)
          (retag_footer old this m block)
    | inr other ↦ retag_kept old ((m, this) ∷ blocks) end y (block, rest) (ground arith)
  ]
