-- ===== src/Allocator/Rings/Insert.antt =====
-- HW3-Dynamic-Memory-Allocator/src/sfhelperfunctions.c: insert_to_free_list and the ten free lists.
use system_fundamentals_ii_c.Prelude.{
  Bool, Fresh, List, [], arith, false, if◌then◌else◌, refl, subst, sym, true, ℕ, ◌%◌, ◌+◌, ◌<◌,
  ◌==◌, ◌∙◌, ◌∷◌, ◌≡◌, ◌≤◌,
}
use system_fundamentals_ii_c.Allocator.Blocks.{Heap, head, list_count, next, set_nextblkp_palloc}
use system_fundamentals_ii_c.Allocator.Lists.{
  get_class_size, insert_to_free_list, link_first, link_wilderness,
}
use system_fundamentals_ii_c.Allocator.Rings.Frame.{AreLists-agree, AreNodes, retag_off}
use system_fundamentals_ii_c.Allocator.Rings.Table.{
  AreLists, head_at, link_first-AreLists, with_list,
}
use system_fundamentals_ii_c.Allocator.Rings.Wild.{empty_list, link_wilderness-AreLists}
use system_fundamentals_ii_c.Allocator.Sizes.{class_bound}
use system_fundamentals_ii_c.Allocator.Tiling.{Block, IsNode, OnGrid, Tiles, is_block}
use system_fundamentals_ii_c.Allocator.Tiling.Frame.{
  Block-agree, Tiles-agree, link_first_kept, regrid,
}
use system_fundamentals_ii_c.Allocator.Tiling.Insert.{
  Destination, Tiles_room, alone, listed_branch, listed_test, wild_branch, wild_test,
}
use system_fundamentals_ii_c.Allocator.Tiling.Retag.{size_lem}

-- The number of the list that insert_to_free_list puts a block into, by the blocks behind it.
abbrev pub list_of : (n : ℕ) (blocks : List (ℕ × Bool)) → ℕ
list_of n [] = 9
list_of n (_ ∷ _) = get_class_size n

-- Nodes of the lists when one of them has changed.
pub nodes_with :
    (low a i : ℕ) (lists : ℕ → List ℕ) (blocks : List ℕ)
    → ((j : ℕ) → j < list_count → AreNodes low a (lists j))
    → AreNodes low a blocks
    → (j : ℕ) → j < list_count
    → AreNodes low a (with_list lists i blocks j)
nodes_with low a i lists blocks old new j inside = by_list (j == i)
  where
    by_list : (b : Bool) → AreNodes low a (if b then blocks else lists j)
    by_list true = new
    by_list false = old j inside

class_inside : (n : ℕ) → get_class_size n < list_count
class_inside n = omega (arith, class_bound n)

module _ (h : Heap) (low bp n : ℕ) (before old : Bool) (end : ℕ) (lists : ℕ → List ℕ)
    (heads_below : h.heads + 320 ≤ low) (above : low ≤ bp) (last : end + 8 ≡ h.epilogue)
    (block : Block h.words bp before n false) (all : AreLists h.words h.heads lists)
    (nodes : (j : ℕ) → j < list_count → AreNodes low bp (lists j))
    (fresh : (j : ℕ) → j < list_count → Fresh bp (head_at h.heads j ∷ lists j))
    (at : bp % 16 ≡ 0) where
  wild_AreLists :
      Tiles h.words (bp + n) old [] end
      → next h (head h 9) ≡ head h 9
      → AreLists (insert_to_free_list bp h).words h.heads (with_list lists 9 (bp ∷ lists 9))
  unfolding Tiles
  wild_AreLists (stop, q, says) no_wilderness =
      let empty =
        empty_list h.words (head h 9) (lists 9) (all.rings 9 (omega arith)) no_wilderness in
      let code =
        wild_branch h bp n (size_lem block) block.size.large
          (wild_test h bp n (size_lem block) (omega arith) no_wilderness)
        ∙ alone h bp no_wilderness in
      subst (λ g. AreLists g.words h.heads (with_list lists 9 (bp ∷ lists 9))) (sym code)
        (subst (λ l. AreLists (link_wilderness (bp, h)).words h.heads (with_list lists 9 (bp ∷ l)))
          (sym empty) (link_wilderness-AreLists h bp lists all empty fresh at))

  listed_AreLists :
      (m : ℕ) (this : Bool) (more : List (ℕ × Bool))
      → Tiles h.words (bp + n) old ((m, this) ∷ more) end
      → (next h (head h 9) ≡ bp + n → ⊥)
      → IsNode low bp (next h (head h (get_class_size n)))
      → AreLists
          (insert_to_free_list bp h).words
          h.heads
          (with_list lists (get_class_size n) (bp ∷ lists (get_class_size n)))
  unfolding link_first
  listed_AreLists m this more rest no_wilderness node =
      let c = get_class_size n in
      let h1 = link_first (head h c) bp h in
      let same = λ (y : ℕ) (grid : OnGrid bp y) (over : low ≤ y).
        link_first_kept low bp (head h c) bp h (omega (arith, class_bound n)) above refl node y grid
          over in
      let inside = Tiles_room h.words (bp + n) m old this more end rest in
      let block' =
        Block-agree h.words h1.words bp before n false
          (λ y grid over inside. same y grid (omega arith)) block in
      let rest' =
        Tiles-agree h.words h1.words (bp + n) old ((m, this) ∷ more) end
          (λ y grid over. same y (regrid n block.size.whole grid) (omega arith)) rest in
      let branch =
        listed_branch h bp n (size_lem block) block.size.large
          (listed_test h bp n (size_lem block) (omega arith) no_wilderness) in
      subst (λ g. AreLists g.words h.heads (with_list lists c (bp ∷ lists c))) (sym branch)
        (AreLists-agree h1.words (set_nextblkp_palloc bp 0 h1).words low bp h.heads
          (with_list lists c (bp ∷ lists c)) heads_below
          (λ y off.
            retag_off h1 low bp n false old ((m, this) ∷ more) end y above block.size.whole
              (size_lem block') (omega arith) rest' off)
          (nodes_with low bp c lists (bp ∷ lists c) nodes (is_block refl, nodes c (class_inside n)))
          (link_first-AreLists h c bp lists all (class_inside n) fresh at))

  -- insert_to_free_list puts a free block at the front of its list.
  pub insert-AreLists :
      (blocks : List (ℕ × Bool))
      → Tiles h.words (bp + n) old blocks end
      → Destination h low bp n blocks
      → AreLists
          (insert_to_free_list bp h).words
          h.heads
          (with_list lists (list_of n blocks) (bp ∷ lists (list_of n blocks)))
  unfolding Destination
  insert-AreLists [] rest goes = wild_AreLists rest goes
  insert-AreLists ((m, this) ∷ more) rest (apart, node) =
      listed_AreLists m this more rest apart node
