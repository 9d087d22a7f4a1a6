-- ===== src/Allocator/Tiling/Insert.antt =====
-- HW3-Dynamic-Memory-Allocator/src/sfhelperfunctions.c: insert_to_free_list on a row of blocks.
use system_fundamentals_ii_c.Prelude.{
  Bool, List, [], ap, arith, false, if◌then◌else◌, ltb, refl, subst, sym, true, ℕ, ◌%◌, ◌+◌, ◌<◌,
  ◌==◌, ◌∙◌, ◌∷◌, ◌≡◌, ◌≤◌,
}
use system_fundamentals_ii_c.Allocator.Blocks.{
  Heap, get_size, head, min_size, next, set_nextblkp_palloc, update,
}
use system_fundamentals_ii_c.Allocator.Lists.{
  absorb, get_class_size, insert_to_free_list, insert_wilderness, is_wilderness, link_first,
  link_wilderness, sf_coalesce_wilderness,
}
use system_fundamentals_ii_c.Allocator.Sizes.{class_bound}
use system_fundamentals_ii_c.Allocator.Tiling.{
  Block, IsNode, OnGrid, Tiles, at_header, is_block, is_head, total,
}
use system_fundamentals_ii_c.Allocator.Tiling.Frame.{
  Block-agree, Tiles-agree, kept, link_first_kept, next_off, prev_off, regrid, same-IsNode,
}
use system_fundamentals_ii_c.Allocator.Tiling.Retag.{retag_Tiles, retag_before, size_lem}

-- Where insert_to_free_list puts a free block: at the front of the list of its class, where another
-- block that is not the wilderness block follows; or it becomes the wilderness block, where there is
-- none and no block follows.
unfoldable pub Destination : (h : Heap) (low bp n : ℕ) (blocks : List (ℕ × Bool)) → Type 0
Destination h low bp n [] = next h (head h 9) ≡ head h 9
Destination h low bp n (_ ∷ _) =
    (next h (head h 9) ≡ bp + n → ⊥) × IsNode low bp (next h (head h (get_class_size n)))

-- This depends on the heads of the lists only.
pub Destination-agree :
    (h : Heap) (w : ℕ → ℕ) (low bp n : ℕ) (blocks : List (ℕ × Bool))
    → h.heads + 320 ≤ low
    → ((y : ℕ) → y < low → w y ≡ h.words y)
    → Destination h low bp n blocks
    → Destination (record h { words = w }) low bp n blocks
unfolding Destination
Destination-agree h w low bp n [] below agree goes = agree (head h 9 + 16) (omega arith) ∙ goes
Destination-agree h w low bp n (_ ∷ _) below agree (apart, node) = (
  λ e. apart (sym (agree (head h 9 + 16) (omega arith)) ∙ e),
  same-IsNode (agree (head h (get_class_size n) + 16) (omega (arith, class_bound n))) node,
)

-- What an insertion leaves: the block, the blocks behind it, who know of it, and the rest of the grid.
pub record Inserted (w w' : ℕ → ℕ) (low bp n : ℕ) (before : Bool) (blocks : List (ℕ × Bool))
    (end : ℕ) : Type 0 where
  pub block : Block w' bp before n false
  pub rest : Tiles w' (bp + n) false blocks end
  pub others : (y : ℕ) → OnGrid bp y → low ≤ y → y ≤ bp → w' y ≡ w y

pub Tiles_forward :
    (w : ℕ → ℕ) (a : ℕ) (before : Bool) (blocks : List (ℕ × Bool)) (end : ℕ)
    → Tiles w a before blocks end
    → a + total blocks ≡ end
unfolding Tiles total
Tiles_forward w a before [] end (stop, q, says) = omega arith
Tiles_forward w a before ((n, this) ∷ blocks) end (block, rest) =
    omega (arith, Tiles_forward w (a + n) this blocks end rest)

pub Tiles_room :
    (w : ℕ → ℕ) (a n : ℕ) (before this : Bool) (blocks : List (ℕ × Bool)) (end : ℕ)
    → Tiles w a before ((n, this) ∷ blocks) end
    → a + 64 ≤ end
unfolding Tiles
Tiles_room w a n before this blocks end (block, rest) =
    ground (arith, Tiles_forward w (a + n) this blocks end rest, block.size)

not_small : (n : ℕ) → 64 ≤ n → ltb n 64 ≡ false
not_small n large = ground arith

-- The branches of insert_to_free_list.
pub listed_branch :
    (h : Heap) (bp n : ℕ)
    → get_size h bp ≡ n
    → 64 ≤ n
    → is_wilderness bp h ≡ false
    → insert_to_free_list bp h
      ≡ set_nextblkp_palloc bp 0 (link_first (head h (get_class_size n)) bp h)
unfolding insert_to_free_list
listed_branch h bp n here large no_wilderness =
    ap
      (λ s.
        if ltb s min_size
        then h
        else if is_wilderness bp h
        then insert_wilderness bp h
        else set_nextblkp_palloc bp 0 (link_first (head h (get_class_size s)) bp h))
      here
    ∙ ap
        (λ b.
          if b
          then h
          else if is_wilderness bp h
          then insert_wilderness bp h
          else set_nextblkp_palloc bp 0 (link_first (head h (get_class_size n)) bp h))
        (not_small n large)
    ∙ ap
        (λ b.
          if b
          then insert_wilderness bp h
          else set_nextblkp_palloc bp 0 (link_first (head h (get_class_size n)) bp h))
        no_wilderness

pub wild_branch :
    (h : Heap) (bp n : ℕ)
    → get_size h bp ≡ n
    → 64 ≤ n
    → is_wilderness bp h ≡ true
    → insert_to_free_list bp h ≡ insert_wilderness bp h
unfolding insert_to_free_list
wild_branch h bp n here large wilderness =
    ap
      (λ b.
        if b
        then h
        else if is_wilderness bp h
        then insert_wilderness bp h
        else set_nextblkp_palloc bp 0 (link_first (head h (get_class_size (get_size h bp))) bp h))
      (ap (λ s. ltb s min_size) here ∙ not_small n large)
    ∙ ap
        (λ b.
          if b
          then insert_wilderness bp h
          else set_nextblkp_palloc bp 0 (link_first (head h (get_class_size (get_size h bp))) bp h))
        wilderness

-- The tests of insert_to_free_list.
pub wild_test :
    (h : Heap) (bp n : ℕ)
    → get_size h bp ≡ n
    → bp + n + 8 ≡ h.epilogue
    → next h (head h 9) ≡ head h 9
    → is_wilderness bp h ≡ true
wild_test h bp n here last no_wilderness = ground arith

pub listed_test :
    (h : Heap) (bp n : ℕ)
    → get_size h bp ≡ n
    → bp + n + 8 < h.epilogue
    → (next h (head h 9) ≡ bp + n → ⊥)
    → is_wilderness bp h ≡ false
listed_test h bp n here inside no_wilderness = ground arith

same_test : (x y : ℕ) → x ≡ y → (x == y) ≡ true
same_test x y same = ground arith

pub alone :
    (h : Heap) (bp : ℕ)
    → next h (head h 9) ≡ head h 9
    → insert_wilderness bp h ≡ link_wilderness (bp, h)
unfolding insert_wilderness sf_coalesce_wilderness
alone h bp no_wilderness =
    ap
      (λ b. link_wilderness (
        if b
        then (bp, h)
        else if ltb (next h (head h 9)) bp
        then (next h (head h 9), absorb (next h (head h 9)) bp h)
        else (bp, absorb bp (next h (head h 9)) h)))
      (same_test (next h (head h 9)) (head h 9) no_wilderness)

pub link_wilderness_kept :
    (h : Heap) (low a bp : ℕ) (below : h.heads + 320 ≤ low) (aligned : bp % 64 ≡ a % 64) (y : ℕ)
    → OnGrid a y
    → low ≤ y
    → (link_wilderness (bp, h)).words y ≡ h.words y
link_wilderness_kept h low a bp below aligned y grid over =
    let w1 = update h.words (bp + 16) (head h 9) in
    let w2 = update w1 (bp + 24) (head h 9) in
    let w3 = update w2 (head h 9 + 16) bp in
    kept w3 (head h 9 + 24) bp y (prev_off a low (head h 9) y (is_head (omega arith)) grid over)
    ∙ kept w2 (head h 9 + 16) bp y (next_off a low (head h 9) y (is_head (omega arith)) grid over)
    ∙ kept w1 (bp + 24) (head h 9) y (prev_off a low bp y (is_block aligned) grid over)
    ∙ kept h.words (bp + 16) (head h 9) y (next_off a low bp y (is_block aligned) grid over)

module _ (h : Heap) (low bp n : ℕ) (before old : Bool) (end : ℕ) (heads_below : h.heads + 320 ≤ low)
    (above : low ≤ bp) (last : end + 8 ≡ h.epilogue) (block : Block h.words bp before n false) where
  -- The block becomes the wilderness block.
  insert_wild :
      Tiles h.words (bp + n) old [] end
      → next h (head h 9) ≡ head h 9
      → Inserted h.words (insert_to_free_list bp h).words low bp n before [] end
  unfolding Tiles
  insert_wild (stop, q, says) no_wilderness =
      let here = size_lem block in
      let whole =
        wild_branch h bp n here block.size.large
          (wild_test h bp n here (omega arith) no_wilderness) in
      let same = λ (y : ℕ) (grid : OnGrid bp y) (over : low ≤ y).
        ap (λ h'. h'.words y) (whole ∙ alone h bp no_wilderness)
        ∙ link_wilderness_kept h low bp bp heads_below refl y grid over in
      record {
        block =
            Block-agree h.words (insert_to_free_list bp h).words bp before n false
              (λ y grid over inside. same y grid (omega arith)) block;
        rest = (
          stop,
          q,
          same (bp + n + 8) (at_header (ground (arith, block.size))) (omega arith) ∙ says,
        );
        others = λ y grid over before_it. same y grid over;
      }

  -- The block is put into a list of its class.
  insert_listed :
      (m : ℕ) (this : Bool) (more : List (ℕ × Bool))
      → Tiles h.words (bp + n) old ((m, this) ∷ more) end
      → (next h (head h 9) ≡ bp + n → ⊥)
      → IsNode low bp (next h (head h (get_class_size n)))
      → Inserted h.words (insert_to_free_list bp h).words low bp n before ((m, this) ∷ more) end
  unfolding link_first
  insert_listed m this more rest no_wilderness node =
      let hd = head h (get_class_size n) in
      let h1 = link_first hd bp h in
      let same = λ (y : ℕ) (grid : OnGrid bp y) (over : low ≤ y).
        link_first_kept low bp hd bp h (omega (arith, class_bound n)) above refl node y grid over in
      let inside = Tiles_room h.words (bp + n) m old this more end rest in
      let block' =
        Block-agree h.words h1.words bp before n false
          (λ y grid over inside. same y grid (omega arith)) block in
      let rest' =
        Tiles-agree h.words h1.words (bp + n) old ((m, this) ∷ more) end
          (λ y grid over. same y (regrid n block.size.whole grid) (omega arith)) rest in
      let branch =
        listed_branch h bp n (size_lem block) block.size.large
          (listed_test h bp n (size_lem block) (omega arith) no_wilderness) in
      subst (λ h'. Inserted h.words h'.words low bp n before ((m, this) ∷ more) end) (sym branch)
        record {
          block =
              Block-agree h1.words (set_nextblkp_palloc bp 0 h1).words bp before n false
                (λ y grid over upto.
                  retag_before h1 bp n false (size_lem block') (omega arith) old this m y more end
                    rest' upto)
                block';
          rest =
              retag_Tiles h1 bp n false (size_lem block') (omega arith) old ((m, this) ∷ more) end
                rest';
          others = λ y grid over before_it.
              retag_before h1 bp n false (size_lem block') (omega arith) old this m y more end rest'
                (omega arith)
              ∙ same y grid over;
        }

-- insert_to_free_list at a free block, whatever follows it.
pub insert_Inserted :
    (h : Heap) (low bp n : ℕ) (before old : Bool) (end : ℕ)
    → h.heads + 320 ≤ low
    → low ≤ bp
    → end + 8 ≡ h.epilogue
    → Block h.words bp before n false
    → (blocks : List (ℕ × Bool)) → Tiles h.words (bp + n) old blocks end
    → Destination h low bp n blocks
    → Inserted h.words (insert_to_free_list bp h).words low bp n before blocks end
unfolding Destination
insert_Inserted h low bp n before old end heads_below above last block [] rest goes =
    insert_wild h low bp n before old end heads_below above last block rest goes
insert_Inserted h low bp n before old end heads_below above last block ((m, this) ∷ more) rest
      (apart, node) =
    insert_listed h low bp n before old end heads_below above last block m this more rest apart node
