-- ===== src/Allocator/Growth.antt =====
-- HW3-Dynamic-Memory-Allocator/src/sfmm.c: the loop of sf_malloc that grows the heap, where there is no
-- wilderness block.
pub mod Exhausted
use system_fundamentals_ii_c.Prelude.{
  Bool, Bool-cases, ap, arith, false, if◌then◌else◌, inl, inr, ltb, refl, subst, suc, sym, true,
  zero, ℕ, ◌+◌, ◌-◌, ◌<◌, ◌==◌, ◌∙◌, ◌≡◌, ◌≤◌, ◌⊎◌,
}
use system_fundamentals_ii_c.Allocator.Blocks.{
  Heap, get_palloc, get_size, head, header, next, next_blkp, pack, row, set_footer, set_header,
  size_of, update,
}
use system_fundamentals_ii_c.Allocator.Lists.{
  absorb, insert_wilderness, link_wilderness, sf_coalesce_wilderness,
}
use system_fundamentals_ii_c.Allocator.Operations.{add_page, set_epilogue}
use system_fundamentals_ii_c.Allocator.Tiling.Frame.{kept}
use system_fundamentals_ii_c.Allocator.Tiling.Insert.{alone}

-- The library gives so many pages from an end of the heap on, and then refuses.
abbrev pub GivesPages : (pages : ℕ) (grows : ℕ → Bool) (end : ℕ) → Type 0
GivesPages zero grows end = grows end ≡ false
GivesPages (suc k) grows end = (grows end ≡ true) × GivesPages k grows (end + 4096)

-- The head of the wilderness list is never written as a block: its header has no size.
pub record HasBareHead (h : Heap) : Type 0 where
  pub no_size : get_size h (head h 9) ≡ 0
  pub above : h.heads + 320 ≤ h.epilogue
  pub end_above : h.heads + 328 ≤ h.mem_end
  pub first : (next h (head h 9) ≡ head h 9) ⊎ (h.heads + 320 ≤ next h (head h 9))

-- A memory that differs above an address only.
record SameBelow (h g : Heap) (low : ℕ) : Type 0 where
  shape : g ≡ record h { words = g.words }
  below : (y : ℕ) → y < low → g.words y ≡ h.words y

absorb_below : (h : Heap) (a b low : ℕ) → low ≤ a → low ≤ b → SameBelow h (absorb a b h) low
absorb_below h a b low left right = record {
  shape = refl;
  below = λ y under.
      kept (update h.words (a + 8) (pack (get_size h b + get_size h a) (get_palloc h a) 0))
        (next_blkp (set_header a (pack (get_size h b + get_size h a) (get_palloc h a) 0) h) b)
        (pack (get_size h b + get_size h a)
          (get_palloc (set_header a (pack (get_size h b + get_size h a) (get_palloc h a) 0) h) a) 0)
        y (λ e. omega arith)
      ∙ kept h.words (a + 8) (pack (get_size h b + get_size h a) (get_palloc h a) 0) y
          (λ e. omega arith);
}

other_side : (x y low : ℕ) → (x == y) ≡ false → (x ≡ y) ⊎ (low ≤ x) → low ≤ x
other_side x y low there first = ground arith

abbrev by_tests : (h : Heap) (bp : ℕ) (alone before : Bool) → ℕ × Heap
by_tests h bp alone before =
    let w = next h (head h 9) in
    if alone then (bp, h) else if before then (w, absorb w bp h) else (bp, absorb bp w h)

abbrev Merged : (h : Heap) (low : ℕ) → ℕ × Heap → Type 0
Merged h low r = (low ≤ r.0) × SameBelow h r.1 low

-- sf_coalesce_wilderness writes above the lists only.
coalesce_below :
    (h : Heap) (bp low : ℕ)
    → low ≤ bp
    → (next h (head h 9) ≡ head h 9) ⊎ (low ≤ next h (head h 9))
    → Merged h low (sf_coalesce_wilderness bp h)
unfolding sf_coalesce_wilderness
coalesce_below h bp low above first = elim (Bool-cases (next h (head h 9) == head h 9)) [
  | inl none_there ↦
      subst (λ b. Merged h low (by_tests h bp b (ltb (next h (head h 9)) bp))) (sym none_there)
        (above, record { shape = refl; below = λ y under. refl })
  | inr there ↦
      let above_too = other_side (next h (head h 9)) (head h 9) low there first in
      subst (λ b. Merged h low (by_tests h bp b (ltb (next h (head h 9)) bp))) (sym there)
        (elim (Bool-cases (ltb (next h (head h 9)) bp)) [
          | inl before ↦
              subst (λ b. Merged h low (by_tests h bp false b)) (sym before)
                (above_too, absorb_below h (next h (head h 9)) bp low above_too above)
          | inr behind ↦
              subst (λ b. Merged h low (by_tests h bp false b)) (sym behind)
                (above, absorb_below h bp (next h (head h 9)) low above above_too)
        ])
]

-- What one more page leaves.
pub record Grown (h g : Heap) : Type 0 where
  pub bare : HasBareHead g
  pub same_heads : g.heads ≡ h.heads
  pub same_end : g.mem_end ≡ h.mem_end
  pub same_library : g.grows ≡ h.grows

-- The end of a round: the block is linked, the epilogue moves, and a footer is written.
abbrev end_round : (hd b : ℕ) → Heap → Heap
end_round hd b g = let h2 = set_epilogue (link_wilderness (b, g)) in set_footer hd (header h2 hd) h2

module _ (g : Heap) (b : ℕ) (no_size : get_size g (head g 9) ≡ 0) (high : g.heads + 320 ≤ b)
    (end_above : g.heads + 328 ≤ g.mem_end) where
  linked_header : header (set_epilogue (link_wilderness (b, g))) (head g 9) ≡ header g (head g 9)
  unfolding set_epilogue
  linked_header = ground arith

  linked_next : next (set_epilogue (link_wilderness (b, g))) (head g 9) ≡ b
  unfolding set_epilogue
  linked_next = ground arith

  round_kept :
      (y : ℕ)
      → head g 9 < y
      → (end_round (head g 9) b g).words y ≡ (set_epilogue (link_wilderness (b, g))).words y
  round_kept y over =
      let h2 = set_epilogue (link_wilderness (b, g)) in
      kept h2.words (next_blkp h2 (head g 9)) (header h2 (head g 9)) y
        (λ e. omega (arith, ap size_of linked_header, no_size))

  round_Grown : Grown g (end_round (head g 9) b g)
  unfolding set_epilogue
  round_Grown = record {
    bare = record {
      no_size = ap size_of (round_kept (head g 9 + 8) (omega arith) ∙ linked_header) ∙ no_size;
      above = omega arith;
      end_above = omega arith;
      first = inr (
          subst (λ x. g.heads + 320 ≤ x)
            (sym (round_kept (head g 9 + 16) (omega arith) ∙ linked_next)) high);
    };
    same_heads = refl;
    same_end = refl;
    same_library = refl;
  }

-- One more page, where the block that is to grow is the head of the empty wilderness list.
pub add_page-Grown :
    (h : Heap)
    → get_size h (head h 9) ≡ 0
    → h.heads + 320 ≤ h.epilogue
    → h.heads + 328 ≤ h.mem_end
    → (next h (head h 9) ≡ head h 9) ⊎ (h.heads + 320 ≤ next h (head h 9))
    → Grown h (add_page (head h 9) h)
unfolding add_page insert_wilderness
add_page-Grown h no_size above end_above first =
    let v = pack (h.mem_end - h.epilogue - row) 0 0 in
    let h1 = set_header h.epilogue v h in
    let same = kept h.words (h.epilogue + 8) v (head h 9 + 16) (λ e. omega arith) in
    let merged =
      coalesce_below h1 h.epilogue (h.heads + 320) above
        (subst (λ x. (x ≡ head h 9) ⊎ (h.heads + 320 ≤ x)) (sym same) first) in
    let b = (sf_coalesce_wilderness h.epilogue h1).0 in
    let w = (sf_coalesce_wilderness h.epilogue h1).1.words in
    let bare =
      ap size_of (
        merged.1.below (head h 9 + 8) (omega arith)
        ∙ kept h.words (h.epilogue + 8) v (head h 9 + 8) (λ e. omega arith))
      ∙ no_size in
    let grown = round_Grown (record h1 { words = w }) b bare merged.0 end_above in
    subst (λ g. Grown h (end_round (head h 9) b g)) (sym merged.1.shape)
      record {
        bare = grown.bare;
        same_heads = grown.same_heads;
        same_end = grown.same_end;
        same_library = grown.same_library;
      }
