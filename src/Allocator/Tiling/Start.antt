-- ===== src/Allocator/Tiling/Start.antt =====
-- HW3-Dynamic-Memory-Allocator/src/sfmm.c: initialize_heap makes a row of one block.
use system_fundamentals_ii_c.Prelude.{
  Bool-cases, [], ap, arith, bit_or, false, inl, inr, refl, subst, suc, sym, true, zero, ℕ, ◌*◌,
  ◌+◌, ◌-◌, ◌<◌, ◌==◌, ◌∙◌, ◌∷◌, ◌≡◌, ◌≤◌,
}
use system_fundamentals_ii_c.Allocator.Blocks.{
  Heap, head, list_count, min_size, next, pack, row, set_both, set_footer, set_header, set_next,
  set_prev, update,
}
use system_fundamentals_ii_c.Allocator.Blocks.Headers.{IsSize, packed}
use system_fundamentals_ii_c.Allocator.Lists.{insert_wilderness, link_wilderness}
use system_fundamentals_ii_c.Allocator.Operations.{
  clear_lists, initialize_heap, set_epilogue, wilderness_header,
}
use system_fundamentals_ii_c.Allocator.Tiling.{Tiles}
use system_fundamentals_ii_c.Allocator.Tiling.Frame.{Block-agree, Tiles-agree, kept, written}
use system_fundamentals_ii_c.Allocator.Tiling.Insert.{alone, link_wilderness_kept}
use system_fundamentals_ii_c.Allocator.Tiling.Release.{IsPlaced}
use system_fundamentals_ii_c.Allocator.Tiling.Retag.{both, both-Block, both_kept, set_both_words}

-- The loop that empties the lists writes below the heap only, and leaves every list empty.
abbrev empty_list : ℕ → Heap → Heap
empty_list i h = set_prev (head h i) (head h i) (set_next (head h i) (head h i) h)

empty_list_kept :
    (i : ℕ) (h : Heap) (y : ℕ)
    → (y ≡ head h i + 16 → ⊥)
    → (y ≡ head h i + 24 → ⊥)
    → (empty_list i h).words y ≡ h.words y
empty_list_kept i h y a b =
    kept (update h.words (head h i + 16) (head h i)) (head h i + 24) (head h i) y b
    ∙ kept h.words (head h i + 16) (head h i) y a

clear_lists_above :
    (rounds i : ℕ) (h : Heap) (y : ℕ)
    → head h (i + rounds) ≤ y
    → (clear_lists rounds i h).words y ≡ h.words y
unfolding clear_lists
clear_lists_above zero i h y over = refl
clear_lists_above (suc n) i h y over =
    clear_lists_above n (i + 1) (empty_list i h) y (omega arith)
    ∙ empty_list_kept i h y (λ e. omega arith) (λ e. omega arith)

clear_lists_below :
    (rounds i : ℕ) (h : Heap) (y : ℕ) → y < head h i → (clear_lists rounds i h).words y ≡ h.words y
unfolding clear_lists
clear_lists_below zero i h y under = refl
clear_lists_below (suc n) i h y under =
    clear_lists_below n (i + 1) (empty_list i h) y (omega arith)
    ∙ empty_list_kept i h y (λ e. omega arith) (λ e. omega arith)

clear_lists_shape :
    (rounds i : ℕ) (h : Heap)
    → clear_lists rounds i h ≡ record h { words = (clear_lists rounds i h).words }
unfolding clear_lists
clear_lists_shape zero i h = refl
clear_lists_shape (suc n) i h = clear_lists_shape n (i + 1) (empty_list i h)

empty_list_lem : (i : ℕ) (h : Heap) → next (empty_list i h) (head h i) ≡ head h i
empty_list_lem i h =
    kept (update h.words (head h i + 16) (head h i)) (head h i + 24) (head h i) (head h i + 16)
      (λ e. omega arith)
    ∙ written h.words (head h i + 16) (head h i)

-- Every list is empty after the loop.
pub clear_lists_empty :
    (rounds i j : ℕ) (h : Heap)
    → i ≤ j
    → j < i + rounds
    → next (clear_lists rounds i h) (head h j) ≡ head h j
unfolding clear_lists
clear_lists_empty zero i j h from below = absurd (omega arith)
clear_lists_empty (suc n) i j h from below = elim (Bool-cases (i == j)) [
  | inl same ↦
      subst (λ x. next (clear_lists n (i + 1) (empty_list i h)) (head h x) ≡ head h x)
        (ground arith)
        (clear_lists_below n (i + 1) (empty_list i h) (head h i + 16) (omega arith)
          ∙ empty_list_lem i h)
  | inr later ↦ clear_lists_empty n (i + 1) j (empty_list i h) (ground arith) (omega arith)
]

-- The prologue and the epilogue are set.
fenced : Heap → Heap
unfolding set_epilogue
fenced h =
    let p = h.mem_start + 6 * row in
    set_epilogue (
      set_footer p (pack min_size 2 1)
        (set_header p (bit_or (bit_or min_size 2) 1) (record h { prologue = p })))

-- The wilderness block is made.
made : Heap → Heap
made h =
    let w = h.mem_start + 48 + 64 in
    set_both w (wilderness_header ((fenced h).epilogue - w - row)) (fenced h)

initialize_code :
    (h : Heap)
    → initialize_heap h
      ≡ insert_wilderness (h.mem_start + 48 + 64) (clear_lists list_count 0 (made h))
unfolding initialize_heap fenced made
initialize_code h = refl

page_room : (start end : ℕ) → end ≡ start + 4096 → end - 8 - (start + 48 + 64) - 8 ≡ 3968
page_room start end one_page = omega arith

whole_page : wilderness_header 3968 ≡ packed 3968 true false
unfolding pack
whole_page = refl

nothing : 0 ≡ packed 0 false false
unfolding pack
nothing = refl

page_IsSize : IsSize 3968
page_IsSize = record { whole = refl; large = omega arith; small = omega arith }

module _ (h : Heap) (one_page : h.mem_end ≡ h.mem_start + 4096)
    (heads_below : h.heads + 320 ≤ h.mem_start) where
  fenced_end : (fenced h).words (h.mem_end - 8) ≡ 0
  unfolding fenced set_epilogue
  fenced_end = ground arith

  made_words :
      (made h).words ≡ both (fenced h).words (h.mem_start + 48 + 64) 3968 (packed 3968 true false)
  unfolding made fenced set_epilogue
  made_words =
      ap (λ v. (set_both (h.mem_start + 48 + 64) v (fenced h)).words)
        (ap wilderness_header (page_room h.mem_start h.mem_end one_page) ∙ whole_page)
      ∙ set_both_words (fenced h) (h.mem_start + 48 + 64) 3968 true false page_IsSize

  -- The memory when the wilderness block is linked.
  linkable : Heap
  linkable = record (made h) { words = (clear_lists list_count 0 (made h)).words }

  linkable_kept :
      (y : ℕ)
      → h.heads + 320 ≤ y
      → linkable.words y
        ≡ both (fenced h).words (h.mem_start + 48 + 64) 3968 (packed 3968 true false) y
  unfolding linkable made fenced set_epilogue
  linkable_kept y over =
      clear_lists_above list_count 0 (made h) y (omega arith) ∙ ap (λ w. w y) made_words

  linkable_row :
      Tiles linkable.words
        (h.mem_start + 48 + 64)
        true
        ((3968, false) ∷ [])
        (h.mem_start + 48 + 64 + 3968)
  unfolding Tiles
  linkable_row =
      let w = h.mem_start + 48 + 64 in
      (
        Block-agree (both (fenced h).words w 3968 (packed 3968 true false)) linkable.words w true
            3968 false (λ y grid over upto. linkable_kept y (omega arith))
            (both-Block (fenced h).words w 3968 true false page_IsSize),
        (
          refl,
          false,
          linkable_kept (w + 3968 + 8) (omega arith)
              ∙ both_kept (fenced h).words w 3968 (packed 3968 true false) (w + 3968 + 8)
                  (λ e. omega arith) (λ e. omega arith)
              ∙ ap (fenced h).words (omega arith)
              ∙ fenced_end
              ∙ nothing,
        ),
      )

  initialize_linked : initialize_heap h ≡ link_wilderness (h.mem_start + 48 + 64, linkable)
  unfolding linkable made fenced set_epilogue
  initialize_linked =
      initialize_code h
      ∙ ap (insert_wilderness (h.mem_start + 48 + 64)) (clear_lists_shape list_count 0 (made h))
      ∙ alone linkable (h.mem_start + 48 + 64)
          (clear_lists_empty list_count 0 9 (made h) (omega arith) (omega arith))

  -- The first page becomes a row of one free block of 3968 bytes, from 112 bytes behind its start on: a
  -- payload has the alignment of the start, and the block is the wilderness block. The heads of the
  -- lists lie below the heap, which has one page.
  pub initialize_heap_row :
      Tiles
        (initialize_heap h).words
        (h.mem_start + 48 + 64)
        true
        ((3968, false) ∷ [])
        (h.mem_start + 48 + 64 + 3968)
      × IsPlaced (initialize_heap h) (h.mem_start + 48 + 64) (h.mem_start + 48 + 64 + 3968)
      × (next (initialize_heap h) (head h 9) ≡ h.mem_start + 48 + 64)
  unfolding linkable made fenced set_epilogue
  initialize_heap_row =
      let w = h.mem_start + 48 + 64 in
      subst
        (λ g.
          Tiles g.words w true ((3968, false) ∷ []) (w + 3968)
          × IsPlaced g w (w + 3968)
          × (next g (head h 9) ≡ w))
        (sym initialize_linked)
        (
          Tiles-agree linkable.words (link_wilderness (w, linkable)).words w true
              ((3968, false) ∷ []) (w + 3968)
              (λ y grid over.
                link_wilderness_kept linkable h.mem_start w w heads_below refl y grid (omega arith))
              linkable_row,
          record {
            heads_below = omega arith;
            last = omega arith;
            behind = omega arith;
            aligned = omega arith;
          },
          kept
                (update (update (update linkable.words (w + 16) (head h 9)) (w + 24) (head h 9))
                  (head h 9 + 16) w)
                (head h 9 + 24) w (head h 9 + 16) (λ e. omega arith)
              ∙ written (update (update linkable.words (w + 16) (head h 9)) (w + 24) (head h 9))
                  (head h 9 + 16) w,
        )
