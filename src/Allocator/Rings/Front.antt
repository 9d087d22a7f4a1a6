-- ===== src/Allocator/Rings/Front.antt =====
-- HW3-Dynamic-Memory-Allocator/src/sfhelperfunctions.c: link_first on a ring.
use system_fundamentals_ii_c.Prelude.{
  Distinct, Fresh, List, [], ap, arith, subst, sym, ℕ, ◌%◌, ◌+◌, ◌∙◌, ◌∷◌, ◌≡◌, ◌≢◌,
}
use system_fundamentals_ii_c.Allocator.Blocks.{Heap, next, update}
use system_fundamentals_ii_c.Allocator.Lists.{link_first}
use system_fundamentals_ii_c.Allocator.Rings.{
  AreAligned, IsRing, Linked, Linked-store_next, Linked-store_prev, first,
}

-- The memory after link_first, where `n` follows the head.
abbrev pub fronted : (ℕ → ℕ) → (hd bp n : ℕ) → ℕ → ℕ
fronted w hd bp n =
    update (update (update (update w (bp + 16) n) (bp + 24) hd) (n + 24) bp) (hd + 16) bp

Linked-fronted :
    (w : ℕ → ℕ) (hd bp : ℕ) (blocks : List ℕ)
    → Linked w hd blocks hd
    → Distinct (hd ∷ blocks)
    → AreAligned (hd ∷ blocks)
    → Fresh bp (hd ∷ blocks)
    → bp % 16 ≡ 0
    → Linked (fronted w hd bp (first blocks hd)) hd (bp ∷ blocks) hd
Linked-fronted w hd bp [] l distinct ats fresh at = (
  ground arith,
  ground (arith, fresh.0, ats.0),
  (ground (arith, fresh.0, ats.0), ground (arith, ats.0)),
)
Linked-fronted w hd bp (y ∷ ys) l distinct ats fresh at =
    let w1 = update (update w (bp + 16) y) (bp + 24) hd in
    let others : Linked w1 y ys hd =
      Linked-store_prev (update w (bp + 16) y) bp hd y ys hd fresh.0 fresh.1.1 at ats.1.1 ats.1.0
        (Linked-store_next w bp y y ys hd fresh.1.0 fresh.1.1 at ats.1.1 ats.0 l.2) in
    (
      ground arith,
      ground (arith, fresh.0, fresh.1.0, ats.0, ats.1.0),
      (
        ground (arith, fresh.0, fresh.1.0, ats.0, ats.1.0),
        ground (arith, ats.0, ats.1.0),
        Linked-store_next (update w1 (y + 24) bp) hd bp y ys hd distinct.0.0 distinct.0.1 ats.0
            ats.1.1 ats.0
            (Linked-store_prev w1 y bp y ys hd (λ e. distinct.0.0 (sym e)) distinct.1.0 ats.1.0
              ats.1.1 ats.1.0 others),
      ),
    )

pub link_first-fronted :
    (h : Heap) (hd bp n : ℕ)
    → next h hd ≡ n
    → bp ≢ hd
    → bp % 16 ≡ 0
    → hd % 16 ≡ 0
    → fronted h.words hd bp n ≡ (link_first hd bp h).words
unfolding link_first
link_first-fronted h hd bp n follows other at at_hd =
    let w1 = update (update h.words (bp + 16) n) (bp + 24) hd in
    let same : w1 (hd + 16) ≡ n = ground (arith, follows) in
    sym (
      ap
        (λ q.
          update
            (update (update (update h.words (bp + 16) q) (bp + 24) hd)
              (update (update h.words (bp + 16) q) (bp + 24) hd (hd + 16) + 24) bp)
            (hd + 16) bp)
        follows
      ∙ ap (λ q. update (update w1 (q + 24) bp) (hd + 16) bp) same)

pub next_head :
    (w : ℕ → ℕ) (hd : ℕ) (blocks : List ℕ) → Linked w hd blocks hd → w (hd + 16) ≡ first blocks hd
next_head w hd [] l = l.0
next_head w hd (y ∷ ys) l = l.0

-- link_first puts a block that is not in the list at its front: the list is then the ring of this block
-- and the others, in their order, linked both ways. The addresses are multiples of 16.
pub link_first-IsRing :
    (h : Heap) (hd bp : ℕ) (blocks : List ℕ)
    → IsRing h.words hd blocks
    → Fresh bp (hd ∷ blocks)
    → bp % 16 ≡ 0
    → IsRing (link_first hd bp h).words hd (bp ∷ blocks)
link_first-IsRing h hd bp blocks ring fresh at = record {
  linked =
      subst (λ w. Linked w hd (bp ∷ blocks) hd)
        (link_first-fronted h hd bp (first blocks hd) (next_head h.words hd blocks ring.linked)
          fresh.0 at ring.aligned.0)
        (Linked-fronted h.words hd bp blocks ring.linked ring.distinct ring.aligned fresh at);
  distinct = (((λ e. fresh.0 (sym e)), ring.distinct.0), (fresh.1, ring.distinct.1));
  aligned = (ring.aligned.0, (at, ring.aligned.1));
}
