-- ===== src/Allocator/Tiling/Split.antt =====
-- HW3-Dynamic-Memory-Allocator/src/sfmm.c: sf_split on a row of blocks.
use system_fundamentals_ii_c.Prelude.{
  Bool, Bool-cases, List, ap, arith, false, if◌then◌else◌, inl, inr, leb, refl, subst, sym, true, ℕ,
  ◌%◌, ◌+◌, ◌-◌, ◌<◌, ◌∙◌, ◌∷◌, ◌≡◌, ◌≤◌,
}
use system_fundamentals_ii_c.Allocator.Blocks.{Heap, pack, set_both}
use system_fundamentals_ii_c.Allocator.Blocks.Headers.{IsSize, packed}
use system_fundamentals_ii_c.Allocator.Lists.{insert_to_free_list}
use system_fundamentals_ii_c.Allocator.Operations.{minus, sf_split, split_off, take_whole}
use system_fundamentals_ii_c.Allocator.Tiling.{Block, OnGrid, Tiles, at_header}
use system_fundamentals_ii_c.Allocator.Tiling.Frame.{Tiles-agree, ongrid}
use system_fundamentals_ii_c.Allocator.Tiling.Insert.{
  Destination, Destination-agree, Inserted, Tiles_forward, insert_Inserted,
}
use system_fundamentals_ii_c.Allocator.Tiling.Retag.{
  both, both-Block, both_kept, palloc_lem, retag_Tiles, retag_kept, set_both_words, size_lem, tag,
  tag_words,
}

-- An operation on a part of the row: the row from an address on is now made of these blocks, and the
-- grid before it is as it was.
pub record Changed (w w' : ℕ → ℕ) (low bp : ℕ) (before : Bool) (blocks : List (ℕ × Bool)) (end : ℕ)
    : Type 0 where
  pub row : Tiles w' bp before blocks end
  pub others : (y : ℕ) → OnGrid bp y → low ≤ y → y ≤ bp → w' y ≡ w y

-- What sf_split is for: the first part is allocated, and the rest is a free block, where there is room
-- for one.
unfoldable pub split_row : (n d : ℕ) (blocks : List (ℕ × Bool)) → List (ℕ × Bool)
split_row n d blocks =
    if leb (d + 64) n then (d, true) ∷ (n - d, false) ∷ blocks else (n, true) ∷ blocks

is_allocated : true ≡ false → ⊥
is_allocated e = ground arith

pub rest_whole : (n d : ℕ) → n % 64 ≡ 0 → d % 64 ≡ 0 → d + 64 ≤ n → (n - d) % 64 ≡ 0
rest_whole n d whole part room = ground (arith, whole, part)

rest_size : (n d : ℕ) → IsSize n → IsSize d → d + 64 ≤ n → IsSize (n - d)
rest_size n d whole part room = record {
  whole = ground (arith, whole, part);
  large = omega arith;
  small = ground (arith, whole);
}

back : (bp n d : ℕ) → d + 64 ≤ n → bp + n ≡ bp + d + (n - d)
back bp n d room = omega arith

minus_lem : (n d : ℕ) → d ≤ n → n < 4294967296 → minus n d ≡ n - d
minus_lem n d fits small = omega arith

split_test : (n d : ℕ) → d ≤ n → n < 4294967296 → leb 64 (minus n d) ≡ leb (d + 64) n
split_test n d fits small = ap (leb 64) (minus_lem n d fits small) ∙ ground arith

module _ (h : Heap) (low bp n d : ℕ) (before this : Bool) (blocks : List (ℕ × Bool)) (end : ℕ)
    (heads_below : h.heads + 320 ≤ low) (above : low ≤ bp) (last : end + 8 ≡ h.epilogue)
    (block : Block h.words bp before n this) (rest : Tiles h.words (bp + n) this blocks end) where
  -- The block is allocated whole.
  take_whole-Changed :
      Changed h.words (take_whole bp n h).words low bp before ((n, true) ∷ blocks) end
  unfolding Tiles
  take_whole-Changed =
      let h1 = tag bp n 1 h in
      let v = packed n before true in
      let tw = tag_words h bp n before true block.size (palloc_lem block) in
      let inside = Tiles_forward h.words (bp + n) this blocks end rest in
      let block' =
        subst (λ w. Block w bp before n true) (sym tw)
          (both-Block h.words bp n before true block.size) in
      let rest' =
        Tiles-agree h.words h1.words (bp + n) this blocks end
          (λ y grid over.
            ap (λ w. w y) tw
            ∙ both_kept h.words bp n v y (λ e. ground (arith, block.size)) (λ e. omega arith))
          rest in
      let same = λ (y : ℕ) (near : y < bp + n).
        retag_kept h1 bp n true (size_lem block') (omega arith) this blocks end y rest' near in
      record {
        row = (
          record {
            header = same (bp + 8) (ground (arith, block.size)) ∙ block'.header;
            size = block.size;
            footer = λ e. absurd (is_allocated e);
          },
          retag_Tiles h1 bp n true (size_lem block') (omega arith) this blocks end rest',
        );
        others = λ y grid over upto.
            same y (ground (arith, block.size))
            ∙ ap (λ w. w y) tw
            ∙ both_kept h.words bp n v y (λ e. omega arith) (λ e. ground (arith, block.size));
      }

  -- The memory when the second part is to be inserted.
  module _ (size : IsSize d) (room : d + 64 ≤ n) where
    unfoldable pub cut : Heap
    cut = set_both (bp + d) (packed (n - d) true false) (tag bp d 1 h)

    pub cut_code : split_off bp n d h ≡ insert_to_free_list (bp + d) cut
    unfolding cut
    cut_code =
        let h1 = tag bp d 1 h in
        let tagged = tag_words h bp d before true size (palloc_lem block) in
        let first =
          subst (λ w. Block w bp before d true) (sym tagged)
            (both-Block h.words bp d before true size) in
        ap (λ s. insert_to_free_list (bp + s) (set_both (bp + s) (pack (minus n d) 2 0) h1))
          (size_lem first)
        ∙ ap (λ z. insert_to_free_list (bp + d) (set_both (bp + d) (pack z 2 0) h1))
            (minus_lem n d (omega arith) block.size.small)

    cut_words :
        cut.words
        ≡ both
            (both h.words bp d (packed d before true))
            (bp + d)
            (n - d)
            (packed (n - d) true false)
    unfolding cut
    cut_words =
        set_both_words (tag bp d 1 h) (bp + d) (n - d) true false
          (rest_size n d block.size size room)
        ∙ ap (λ w. both w (bp + d) (n - d) (packed (n - d) true false))
            (tag_words h bp d before true size (palloc_lem block))

    pub cut_second : Block cut.words (bp + d) true (n - d) false
    cut_second =
        subst (λ w. Block w (bp + d) true (n - d) false) (sym cut_words)
          (both-Block (both h.words bp d (packed d before true)) (bp + d) (n - d) true false
            (rest_size n d block.size size room))

    pub cut_kept :
        (y : ℕ)
        → (y ≡ bp + 8 → ⊥)
        → (y ≡ bp + d → ⊥)
        → (y ≡ bp + d + 8 → ⊥)
        → (y ≡ bp + d + (n - d) → ⊥)
        → cut.words y ≡ h.words y
    cut_kept y a b c e =
        ap (λ w. w y) cut_words
        ∙ both_kept (both h.words bp d (packed d before true)) (bp + d) (n - d)
            (packed (n - d) true false) y c e
        ∙ both_kept h.words bp d (packed d before true) y a b

    pub cut_before : (y : ℕ) → y ≤ bp → cut.words y ≡ h.words y
    cut_before y upto =
        cut_kept y (λ e. omega arith) (λ e. ground (arith, size)) (λ e. omega arith)
          (λ e. omega arith)

    cut_first : cut.words (bp + 8) ≡ packed d before true
    cut_first =
        ap (λ w. w (bp + 8)) cut_words
        ∙ both_kept (both h.words bp d (packed d before true)) (bp + d) (n - d)
            (packed (n - d) true false) (bp + 8) (λ e. ground (arith, size))
            (λ e. ground (arith, size))
        ∙ (both-Block h.words bp d before true size).header

    pub cut_rest : Tiles cut.words (bp + d + (n - d)) this blocks end
    cut_rest =
        subst (λ a. Tiles cut.words a this blocks end) (back bp n d room)
          (Tiles-agree h.words cut.words (bp + n) this blocks end
            (λ y grid over.
              cut_kept y (λ e. ground (arith, size)) (λ e. ground (arith, size))
                (λ e. ground (arith, size)) (λ e. omega arith))
            rest)

    cut-Inserted :
        Destination h low (bp + d) (n - d) blocks
        → Inserted cut.words
            (insert_to_free_list (bp + d) cut).words
            low
            (bp + d)
            (n - d)
            true
            blocks
            end
    unfolding cut
    cut-Inserted goes =
        insert_Inserted cut low (bp + d) (n - d) true this end heads_below (omega arith) last
          cut_second blocks cut_rest
          (Destination-agree h cut.words low (bp + d) (n - d) blocks heads_below
            (λ y under. cut_before y (omega arith)) goes)

    -- The first part is allocated, and the second one is a free block.
    split_off-Changed :
        Destination h low (bp + d) (n - d) blocks
        → Changed h.words
            (split_off bp n d h).words
            low
            bp
            before
            ((d, true) ∷ (n - d, false) ∷ blocks)
            end
    unfolding Tiles
    split_off-Changed goes =
        let done = cut-Inserted goes in
        subst
          (λ h'. Changed h.words h'.words low bp before ((d, true) ∷ (n - d, false) ∷ blocks) end)
          (sym cut_code)
          record {
            row = (
              record {
                header =
                    done.others (bp + 8) (ongrid d size.whole (at_header refl)) (omega arith)
                      (ground (arith, size))
                    ∙ cut_first;
                size = size;
                footer = λ e. absurd (is_allocated e);
              },
              (done.block, done.rest),
            );
            others = λ y grid over upto.
                done.others y (ongrid d size.whole grid) over (omega arith) ∙ cut_before y upto;
          }

  SplitBy : Bool → Type 0
  SplitBy b =
      Changed h.words (if b then split_off bp n d h else take_whole bp n h).words low bp before
        (if b then (d, true) ∷ (n - d, false) ∷ blocks else (n, true) ∷ blocks) end

  pub split_code :
      d ≤ n → sf_split bp n d h ≡ (if leb (d + 64) n then split_off bp n d h else take_whole bp n h)
  unfolding sf_split
  split_code fits =
      ap (λ b. if b then split_off bp n d h else take_whole bp n h)
        (split_test n d fits block.size.small)

  split_cases :
      IsSize d
      → (leb (d + 64) n ≡ true → Destination h low (bp + d) (n - d) blocks)
      → SplitBy (leb (d + 64) n)
  unfolding SplitBy
  split_cases size goes = elim (Bool-cases (leb (d + 64) n)) [
    | inl room ↦ subst SplitBy (sym room) (split_off-Changed size (ground arith) (goes room))
    | inr tight ↦ subst SplitBy (sym tight) take_whole-Changed
  ]

  -- sf_split, whichever branch it takes.
  pub sf_split-Changed :
      IsSize d
      → d ≤ n
      → (leb (d + 64) n ≡ true → Destination h low (bp + d) (n - d) blocks)
      → Changed h.words (sf_split bp n d h).words low bp before (split_row n d blocks) end
  unfolding split_row SplitBy
  sf_split-Changed size fits goes =
      subst (λ h'. Changed h.words h'.words low bp before (split_row n d blocks) end)
        (sym (split_code fits)) (split_cases size goes)
