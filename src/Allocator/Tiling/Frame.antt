-- ===== src/Allocator/Tiling/Frame.antt =====
-- What the writes of HW3-Dynamic-Memory-Allocator leave as it is: links stand beside the grid of the
-- headers and footers.
use system_fundamentals_ii_c.Prelude.{
  Bool, List, [], arith, refl, sym, ℕ, ◌%◌, ◌+◌, ◌<◌, ◌∙◌, ◌∷◌, ◌≡◌, ◌≤◌,
}
use system_fundamentals_ii_c.Allocator.Blocks.{Heap, next, prev, update}
use system_fundamentals_ii_c.Allocator.Lists.{link_first, unlink}
use system_fundamentals_ii_c.Allocator.Tiling.{
  Block, IsNode, OnGrid, Tiles, at_footer, at_header, is_block, is_head,
}

pub written : (w : ℕ → ℕ) (x v : ℕ) → update w x v x ≡ v
written w x v = ground arith

pub kept : (w : ℕ → ℕ) (x v y : ℕ) → (y ≡ x → ⊥) → update w x v y ≡ w y
kept w x v y other = ground (arith)

-- A link is never on the grid.
pub next_off : (a low f y : ℕ) → IsNode low a f → OnGrid a y → low ≤ y → y ≡ f + 16 → ⊥
next_off a low f y (is_head below) grid above same = omega arith
next_off a low f y (is_block aligned) (at_footer on) above same = omega arith
next_off a low f y (is_block aligned) (at_header on) above same = omega arith

pub prev_off : (a low f y : ℕ) → IsNode low a f → OnGrid a y → low ≤ y → y ≡ f + 24 → ⊥
prev_off a low f y (is_head below) grid above same = omega arith
prev_off a low f y (is_block aligned) (at_footer on) above same = omega arith
prev_off a low f y (is_block aligned) (at_header on) above same = omega arith

-- The grid is the same from every block on.
pub regrid : {a y : ℕ} (n : ℕ) → n % 64 ≡ 0 → OnGrid (a + n) y → OnGrid a y
regrid n whole (at_footer on) = at_footer (omega arith)
regrid n whole (at_header on) = at_header (omega arith)

pub ongrid : {a y : ℕ} (n : ℕ) → n % 64 ≡ 0 → OnGrid a y → OnGrid (a + n) y
ongrid n whole (at_footer on) = at_footer (omega arith)
ongrid n whole (at_header on) = at_header (omega arith)

pub Block-agree :
    (w w' : ℕ → ℕ) (a : ℕ) (before : Bool) (n : ℕ) (this : Bool)
    (agree : (y : ℕ) → OnGrid a y → a < y → y ≤ a + n → w' y ≡ w y)
    → Block w a before n this
    → Block w' a before n this
Block-agree w w' a before n this agree block =
    let top = agree (a + 8) (at_header refl) (omega arith) (ground (arith, block.size)) in
    record {
      header = top ∙ block.header;
      size = block.size;
      footer = λ free.
          agree (a + n) (at_footer (ground (arith, block.size))) (ground (arith, block.size))
            (omega arith)
          ∙ block.footer free
          ∙ sym top;
    }

-- Two memories that agree on the grid have the same blocks.
pub Tiles-agree :
    (w w' : ℕ → ℕ) (a : ℕ) (before : Bool) (blocks : List (ℕ × Bool)) (end : ℕ)
    (agree : (y : ℕ) → OnGrid a y → a < y → w' y ≡ w y)
    → Tiles w a before blocks end
    → Tiles w' a before blocks end
unfolding Tiles
Tiles-agree w w' a before [] end agree (here, q, stop) =
    (here, q, agree (a + 8) (at_header refl) (omega arith) ∙ stop)
Tiles-agree w w' a before ((n, this) ∷ blocks) end agree (block, rest) = (
  Block-agree w w' a before n this (λ y grid above inside. agree y grid above) block,
  Tiles-agree w w' (a + n) this blocks end
      (λ y grid above. agree y (regrid n block.size.whole grid) (omega arith)) rest,
)

-- A node that `f` is, by an equation.
pub same-IsNode : {low a f g : ℕ} → g ≡ f → IsNode low a f → IsNode low a g
same-IsNode same (is_head below) = is_head (omega arith)
same-IsNode same (is_block aligned) = is_block (omega arith)

-- Putting a block at the front of a list leaves the grid as it is.
pub link_first_kept :
    (low a hd bp : ℕ) (h : Heap) (below : hd + 32 ≤ low) (above : low ≤ bp)
    (aligned : bp % 64 ≡ a % 64) (node : IsNode low a (next h hd)) (y : ℕ)
    → OnGrid a y
    → low ≤ y
    → (link_first hd bp h).words y ≡ h.words y
unfolding link_first
link_first_kept low a hd bp h below above aligned node y grid over =
    let w1 = update h.words (bp + 16) (next h hd) in
    let w2 = update w1 (bp + 24) hd in
    let first =
      kept w1 (bp + 24) hd (hd + 16) (λ e. omega arith)
      ∙ kept h.words (bp + 16) (next h hd) (hd + 16) (λ e. omega arith) in
    let w3 = update w2 (w2 (hd + 16) + 24) bp in
    kept w3 (hd + 16) bp y (next_off a low hd y (is_head below) grid over)
    ∙ kept w2 (w2 (hd + 16) + 24) bp y
        (prev_off a low (w2 (hd + 16)) y (same-IsNode first node) grid over)
    ∙ kept w1 (bp + 24) hd y (prev_off a low bp y (is_block aligned) grid over)
    ∙ kept h.words (bp + 16) (next h hd) y (next_off a low bp y (is_block aligned) grid over)

keeps_value : (w : ℕ → ℕ) (x y : ℕ) → update w x (w y) y ≡ w y
keeps_value w x y = ground arith

-- So does taking a block out of its list.
pub unlink_kept :
    (low a bp : ℕ) (h : Heap) (before : IsNode low a (prev h bp)) (after : IsNode low a (next h bp))
    (y : ℕ)
    → OnGrid a y
    → low ≤ y
    → (unlink bp h).words y ≡ h.words y
unfolding unlink
unlink_kept low a bp h before after y grid over =
    let w1 = update h.words (prev h bp + 16) (next h bp) in
    kept w1 (w1 (bp + 16) + 24) (w1 (bp + 24)) y (
      prev_off a low (w1 (bp + 16)) y
        (same-IsNode (keeps_value h.words (prev h bp + 16) (bp + 16)) after) grid over)
    ∙ kept h.words (prev h bp + 16) (next h bp) y (next_off a low (prev h bp) y before grid over)
