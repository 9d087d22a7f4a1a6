-- ===== src/Allocator/Rings/Frame.antt =====
-- HW3-Dynamic-Memory-Allocator: what headers and footers leave of the free lists: no link lies on the
-- grid of the headers and footers.
use system_fundamentals_ii_c.Prelude.{
  Bool, List, [], ap, arith, false, refl, subst, sym, true, ℕ, ◌%◌, ◌*◌, ◌++◌, ◌+◌, ◌<◌, ◌∙◌, ◌∷◌,
  ◌≡◌, ◌≤◌,
}
use system_fundamentals_ii_c.Allocator.Blocks.{Heap, get_size, list_count, set_nextblkp_palloc}
use system_fundamentals_ii_c.Allocator.Blocks.Headers.{bit, packed}
use system_fundamentals_ii_c.Allocator.Operations.{take_whole}
use system_fundamentals_ii_c.Allocator.Rings.{Linked}
use system_fundamentals_ii_c.Allocator.Rings.Table.{AreLists, head_at}
use system_fundamentals_ii_c.Allocator.Tiling.{
  Block, IsNode, OnGrid, Tiles, at_footer, at_header, is_head,
}
use system_fundamentals_ii_c.Allocator.Tiling.Frame.{Tiles-agree, next_off, prev_off}
use system_fundamentals_ii_c.Allocator.Tiling.Retag.{
  both-Block, both_kept, palloc_lem, retag_words, size_lem, tag, tag_words,
}

-- An address that is not on the grid of the blocks.
abbrev pub IsOff : (low a y : ℕ) → Type 0
IsOff low a y = OnGrid a y → low ≤ y → ⊥

-- The blocks of a list lie as the blocks of the row do.
abbrev pub AreNodes : (low a : ℕ) → List ℕ → Type 0
AreNodes low a [] = Unit
AreNodes low a (x ∷ xs) = IsNode low a x × AreNodes low a xs

pub AreNodes-remove :
    (low a b : ℕ) (xs ys : List ℕ) → AreNodes low a (xs ++ b ∷ ys) → AreNodes low a (xs ++ ys)
AreNodes-remove low a b [] ys nodes = nodes.1
AreNodes-remove low a b (x ∷ xs) ys nodes = (nodes.0, AreNodes-remove low a b xs ys nodes.1)

Linked-agree :
    (w w' : ℕ → ℕ) (low a x : ℕ) (ys : List ℕ) (z : ℕ)
    → ((y : ℕ) → IsOff low a y → w' y ≡ w y)
    → IsNode low a x
    → AreNodes low a ys
    → IsNode low a z
    → Linked w x ys z
    → Linked w' x ys z
Linked-agree w w' low a x [] z agree node nodes end l = (
  agree (x + 16) (λ grid over. next_off a low x (x + 16) node grid over refl) ∙ l.0,
  agree (z + 24) (λ grid over. prev_off a low z (z + 24) end grid over refl) ∙ l.1,
)
Linked-agree w w' low a x (y ∷ ys) z agree node nodes end l = (
  agree (x + 16) (λ grid over. next_off a low x (x + 16) node grid over refl) ∙ l.0,
  agree (y + 24) (λ grid over. prev_off a low y (y + 24) nodes.0 grid over refl) ∙ l.1,
  Linked-agree w w' low a y ys z agree nodes.0 nodes.1 end l.2,
)

-- Two memories that agree beside the grid have the same free lists.
pub AreLists-agree :
    (w w' : ℕ → ℕ) (low a heads : ℕ) (lists : ℕ → List ℕ)
    → heads + 320 ≤ low
    → ((y : ℕ) → IsOff low a y → w' y ≡ w y)
    → ((i : ℕ) → i < list_count → AreNodes low a (lists i))
    → AreLists w heads lists
    → AreLists w' heads lists
AreLists-agree w w' low a heads lists below agree nodes all = record {
  rings = λ i inside.
      let ring = all.rings i inside in
      let hd = is_head (omega (arith, below, inside)) in
      record {
        linked =
            Linked-agree w w' low a (head_at heads i) (lists i) (head_at heads i) agree hd
              (nodes i inside) hd ring.linked;
        distinct = ring.distinct;
        aligned = ring.aligned;
      };
  apart = all.apart;
}

-- set_nextblkp_palloc leaves what is beside the grid.
pub retag_off :
    (h : Heap) (low bp n : ℕ) (q old : Bool) (blocks : List (ℕ × Bool)) (end y : ℕ)
    → low ≤ bp
    → n % 64 ≡ 0
    → get_size h bp ≡ n
    → bp + n < h.epilogue
    → Tiles h.words (bp + n) old blocks end
    → IsOff low bp y
    → (set_nextblkp_palloc bp (bit q * 2) h).words y ≡ h.words y
unfolding Tiles
retag_off h low bp n q old [] end y above whole here inside (stop, r, says) off =
    ap (λ w. w y) (retag_words h bp n 0 r q false here inside refl (omega arith) says)
    ∙ both_kept h.words (bp + n) 0 (packed 0 q false) y
        (λ e. off (at_header (omega arith)) (omega arith))
        (λ e. off (at_footer (omega arith)) (omega arith))
retag_off h low bp n q old ((m, this) ∷ blocks) end y above whole here inside (block, rest) off =
    let even = block.size.whole in
    ap (λ w. w y)
      (retag_words h bp n m old q this here inside (omega (arith, even)) block.size.small
        block.header)
    ∙ both_kept h.words (bp + n) m (packed m q this) y
        (λ e. off (at_header (omega arith)) (omega arith))
        (λ e. off (at_footer (omega (arith, even))) (omega arith))

-- Allocating a block whole leaves what is beside the grid.
pub take_whole_off :
    (h : Heap) (low bp n : ℕ) (before this : Bool) (blocks : List (ℕ × Bool)) (end y : ℕ)
    → low ≤ bp
    → bp + n < h.epilogue
    → Block h.words bp before n this
    → Tiles h.words (bp + n) this blocks end
    → IsOff low bp y
    → (take_whole bp n h).words y ≡ h.words y
take_whole_off h low bp n before this blocks end y above inside block rest off =
    let h1 = tag bp n 1 h in
    let whole = block.size.whole in
    let tw = tag_words h bp n before true block.size (palloc_lem block) in
    let block' =
      subst (λ w. Block w bp before n true) (sym tw)
        (both-Block h.words bp n before true block.size) in
    let rest' =
      Tiles-agree h.words h1.words (bp + n) this blocks end
        (λ z grid over.
          ap (λ w. w z) tw
          ∙ both_kept h.words bp n (packed n before true) z (λ e. ground (arith, block.size))
              (λ e. omega arith))
        rest in
    retag_off h1 low bp n true this blocks end y above whole (size_lem block') inside rest' off
    ∙ ap (λ w. w y) tw
    ∙ both_kept h.words bp n (packed n before true) y
        (λ e. off (at_header (omega arith)) (omega arith))
        (λ e. off (at_footer (omega (arith, whole))) (omega arith))
