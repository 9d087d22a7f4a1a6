-- ===== src/Allocator/Rings/Split.antt =====
-- HW3-Dynamic-Memory-Allocator/src/sfmm.c: sf_split and the ten free lists.
use system_fundamentals_ii_c.Prelude.{
  Bool, Bool-cases, Fresh, List, [], arith, false, if◌then◌else◌, inl, inr, last, leb, subst, sym,
  true, ℕ, ◌%◌, ◌++◌, ◌+◌, ◌-◌, ◌<◌, ◌∷◌, ◌≡◌, ◌≤◌,
}
use system_fundamentals_ii_c.Allocator.Blocks.{Heap, list_count}
use system_fundamentals_ii_c.Allocator.Blocks.Headers.{IsSize}
use system_fundamentals_ii_c.Allocator.Operations.{sf_split, split_off, take_whole}
use system_fundamentals_ii_c.Allocator.Rings.{IsRing, first}
use system_fundamentals_ii_c.Allocator.Rings.Frame.{AreLists-agree, AreNodes, take_whole_off}
use system_fundamentals_ii_c.Allocator.Rings.Insert.{insert-AreLists, list_of}
use system_fundamentals_ii_c.Allocator.Rings.Remove.{Linked-links}
use system_fundamentals_ii_c.Allocator.Rings.Table.{AreLists, head_at, with_list}
use system_fundamentals_ii_c.Allocator.Tiling.{
  Block, IsNode, Tiles, at_footer, at_header, is_block, is_head,
}
use system_fundamentals_ii_c.Allocator.Tiling.Frame.{same-IsNode}
use system_fundamentals_ii_c.Allocator.Tiling.Insert.{Destination, Destination-agree, Tiles_forward}
use system_fundamentals_ii_c.Allocator.Tiling.Merge.{HasLinks}
use system_fundamentals_ii_c.Allocator.Tiling.Split.{
  cut, cut_before, cut_code, cut_kept, cut_rest, cut_second, rest_whole, split_code,
}

-- The grid is the same from every block on.
IsNode-along : (low a n f : ℕ) → n % 64 ≡ 0 → IsNode low a f → IsNode low (a + n) f
IsNode-along low a n f whole (is_head below) = is_head below
IsNode-along low a n f whole (is_block aligned) = is_block (omega (arith, whole, aligned))

pub AreNodes-along :
    (low a n : ℕ) (xs : List ℕ) → n % 64 ≡ 0 → AreNodes low a xs → AreNodes low (a + n) xs
AreNodes-along low a n [] whole nodes = tt
AreNodes-along low a n (x ∷ xs) whole nodes =
    (IsNode-along low a n x whole nodes.0, AreNodes-along low a n xs whole nodes.1)

AreNodes-split :
    (low a b : ℕ) (xs ys : List ℕ)
    → AreNodes low a (xs ++ b ∷ ys)
    → AreNodes low a xs × AreNodes low a (b ∷ ys)
AreNodes-split low a b [] ys nodes = (tt, nodes)
AreNodes-split low a b (x ∷ xs) ys nodes =
    let rest = AreNodes-split low a b xs ys nodes.1 in ((nodes.0, rest.0), rest.1)

first-IsNode :
    (low a hd : ℕ) (ys : List ℕ) → IsNode low a hd → AreNodes low a ys → IsNode low a (first ys hd)
first-IsNode low a hd [] node nodes = node
first-IsNode low a hd (y ∷ ys) node nodes = nodes.0

last-IsNode :
    (low a hd : ℕ) (xs : List ℕ) → IsNode low a hd → AreNodes low a xs → IsNode low a (last hd xs)
last-IsNode low a hd [] node nodes = node
last-IsNode low a hd (x ∷ xs) node nodes = last-IsNode low a x xs nodes.0 nodes.1

-- The neighbours of a block in its ring are nodes.
pub HasLinks-IsRing :
    (w : ℕ → ℕ) (low a hd b : ℕ) (xs ys : List ℕ)
    → IsRing w hd (xs ++ b ∷ ys)
    → hd + 32 ≤ low
    → AreNodes low a (xs ++ b ∷ ys)
    → HasLinks w low a b
HasLinks-IsRing w low a hd b xs ys ring below nodes =
    let links = Linked-links w b hd xs ys hd ring.linked in
    let parts = AreNodes-split low a b xs ys nodes in
    record {
      to_next = same-IsNode links.1 (first-IsNode low a hd ys (is_head below) parts.1.1);
      to_prev = same-IsNode links.0 (last-IsNode low a hd xs (is_head below) parts.0);
    }

-- The lists after sf_split: where a rest is left, it is the first one of its list.
abbrev pub lists_after :
    (has_rest : Bool) (lists : ℕ → List ℕ) (rest n : ℕ) (blocks : List (ℕ × Bool)) → ℕ → List ℕ
lists_after true lists rest n blocks =
    with_list lists (list_of n blocks) (rest ∷ lists (list_of n blocks))
lists_after false lists rest n blocks = lists

module _ (h : Heap) (low bp n d : ℕ) (before this : Bool) (blocks : List (ℕ × Bool)) (end : ℕ)
    (lists : ℕ → List ℕ) (heads_below : h.heads + 320 ≤ low) (above : low ≤ bp)
    (last_at : end + 8 ≡ h.epilogue) (block : Block h.words bp before n this)
    (rest : Tiles h.words (bp + n) this blocks end) (all : AreLists h.words h.heads lists)
    (nodes : (j : ℕ) → j < list_count → AreNodes low bp (lists j)) (size : IsSize d) where
  whole_AreLists : AreLists (take_whole bp n h).words h.heads lists
  whole_AreLists =
      AreLists-agree h.words (take_whole bp n h).words low bp h.heads lists heads_below
        (λ y off.
          take_whole_off h low bp n before this blocks end y above
            (omega (arith, Tiles_forward h.words (bp + n) this blocks end rest, last_at)) block rest
            off)
        nodes all

  split_AreLists :
      d + 64 ≤ n
      → bp % 16 ≡ 0
      → Destination h low (bp + d) (n - d) blocks
      → ((j : ℕ) → j < list_count → Fresh (bp + d) (head_at h.heads j ∷ lists j))
      → AreLists (split_off bp n d h).words h.heads (lists_after true lists (bp + d) (n - d) blocks)
  unfolding cut
  split_AreLists room at goes fresh =
      let g =
        cut h low bp n d before this blocks end heads_below above last_at block rest size room in
      let even = size.whole in
      let even_n = block.size.whole in
      let back = n - d in
      let whole : back % 64 ≡ 0 = rest_whole n d even_n even room in
      subst (λ x. AreLists x.words h.heads (lists_after true lists (bp + d) (n - d) blocks))
        (sym (
          cut_code h low bp n d before this blocks end heads_below above last_at block rest size
            room))
        (insert-AreLists g low (bp + d) (n - d) true this end lists heads_below (omega arith)
          last_at
          (cut_second h low bp n d before this blocks end heads_below above last_at block rest size
            room)
          (AreLists-agree h.words g.words low bp h.heads lists heads_below
            (λ y off.
              cut_kept h low bp n d before this blocks end heads_below above last_at block rest size
                room y (λ e. off (at_header (omega arith)) (omega arith))
                (λ e. off (at_footer (omega (arith, even))) (omega arith))
                (λ e. off (at_header (omega (arith, even))) (omega arith))
                (λ e. off (at_footer (omega (arith, even, whole, e))) (omega (arith, e))))
            nodes all)
          (λ j inside. AreNodes-along low bp d (lists j) even (nodes j inside)) fresh
          (omega (arith, even, at)) blocks
          (cut_rest h low bp n d before this blocks end heads_below above last_at block rest size
            room)
          (Destination-agree h g.words low (bp + d) (n - d) blocks heads_below
            (λ y under.
              cut_before h low bp n d before this blocks end heads_below above last_at block rest
                size room y (omega arith))
            goes))

  SplitLists : Bool → Type 0
  SplitLists b =
      AreLists (if b then split_off bp n d h else take_whole bp n h).words h.heads
        (lists_after b lists (bp + d) (n - d) blocks)

  -- sf_split, whichever branch it takes.
  pub sf_split-AreLists :
      d ≤ n
      → bp % 16 ≡ 0
      → (leb (d + 64) n ≡ true → Destination h low (bp + d) (n - d) blocks)
      → (leb (d + 64) n ≡ true
          → (j : ℕ) → j < list_count
          → Fresh (bp + d) (head_at h.heads j ∷ lists j))
      → AreLists
          (sf_split bp n d h).words
          h.heads
          (lists_after (leb (d + 64) n) lists (bp + d) (n - d) blocks)
  unfolding SplitLists
  sf_split-AreLists fits at goes fresh =
      subst
        (λ g. AreLists g.words h.heads (lists_after (leb (d + 64) n) lists (bp + d) (n - d) blocks))
        (sym (
          split_code h low bp n d before this blocks end heads_below above last_at block rest fits))
        (elim (Bool-cases (leb (d + 64) n)) [
          | inl room ↦
              subst SplitLists (sym room)
                (split_AreLists (ground arith) at (goes room) (fresh room))
          | inr tight ↦ subst SplitLists (sym tight) whole_AreLists
        ])
