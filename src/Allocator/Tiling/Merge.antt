-- ===== src/Allocator/Tiling/Merge.antt =====
-- HW3-Dynamic-Memory-Allocator/src/sfmm.c: the parts of sf_coalesce on a row of blocks.
use system_fundamentals_ii_c.Prelude.{
  Bool, Bool-cases, List, ap, arith, false, inl, inr, ltb, not, refl, subst, sym, ℕ, ◌%◌, ◌*◌, ◌+◌,
  ◌<◌, ◌==◌, ◌||◌, ◌∙◌, ◌∷◌, ◌≡◌, ◌≤◌,
}
use system_fundamentals_ii_c.Allocator.Blocks.{
  Heap, alloc_of, get_alloc, get_palloc, get_size, min_size, pack, palloc_of, row, set_both,
  set_footer, set_header, size_of, update,
}
use system_fundamentals_ii_c.Allocator.Blocks.Headers.{IsSize, bit, pack_fields, packed}
use system_fundamentals_ii_c.Allocator.Lists.{insert_to_free_list, remove_from_free_list, unlink}
use system_fundamentals_ii_c.Allocator.Operations.{join_both, join_next, join_prev}
use system_fundamentals_ii_c.Allocator.Tiling.{Block, IsNode, OnGrid, Tiles}
use system_fundamentals_ii_c.Allocator.Tiling.Frame.{
  Tiles-agree, kept, regrid, unlink_kept, written,
}
use system_fundamentals_ii_c.Allocator.Tiling.Insert.{
  Destination, Destination-agree, insert_Inserted,
}
use system_fundamentals_ii_c.Allocator.Tiling.Retag.{
  both, both-Block, both_kept, set_both_words, tag, tag_words,
}
use system_fundamentals_ii_c.Allocator.Tiling.Split.{Changed}

-- The neighbours of a block in its free list are nodes of free lists.
pub record HasLinks (w : ℕ → ℕ) (low a x : ℕ) : Type 0 where
  pub to_next : IsNode low a (w (x + 16))
  pub to_prev : IsNode low a (w (x + 24))

-- Only memory changes when a block is taken out of its list.
pub remove_shape :
    (h : Heap) (x : ℕ)
    → remove_from_free_list x h ≡ record h { words = (remove_from_free_list x h).words }
unfolding remove_from_free_list unlink
remove_shape h x = elim (Bool-cases (not (get_alloc h x == 0) || ltb (get_size h x) min_size)) [
  | inl kept_in ↦ rw kept_in refl
  | inr taken ↦ rw taken refl
]

pub remove_kept :
    (low a x : ℕ) (h : Heap)
    → HasLinks h.words low a x
    → (y : ℕ) → OnGrid a y
    → low ≤ y
    → (remove_from_free_list x h).words y ≡ h.words y
unfolding remove_from_free_list
remove_kept low a x h links y grid over =
    elim (Bool-cases (not (get_alloc h x == 0) || ltb (get_size h x) min_size)) [
      | inl kept_in ↦ rw kept_in refl
      | inr taken ↦ rw taken (unlink_kept low a x h links.to_prev links.to_next y grid over)
    ]

-- The end of the row is in no list.
pub not_removed : (h : Heap) (x : ℕ) → get_size h x ≡ 0 → remove_from_free_list x h ≡ h
unfolding remove_from_free_list
not_removed h x here = elim (Bool-cases (not (get_alloc h x == 0) || ltb (get_size h x) min_size)) [
  | inl kept_in ↦ rw kept_in refl
  | inr taken ↦ absurd (ground arith)
]

-- Two headers are joined: a block is made of the bytes up to the rest of the row, and inserted.
pub merge_Changed :
    (h : Heap) (w : ℕ → ℕ) (low p s : ℕ) (before q : Bool) (ys : List (ℕ × Bool)) (end : ℕ)
    → h.heads + 320 ≤ low
    → low ≤ p
    → end + 8 ≡ h.epilogue
    → IsSize s
    → Tiles h.words (p + s) q ys end
    → Destination h low p s ys
    → w ≡ both h.words p s (packed s before false)
    → Changed h.words
        (insert_to_free_list p (record h { words = w })).words
        low
        p
        before
        ((s, false) ∷ ys)
        end
unfolding Tiles
merge_Changed h w low p s before q ys end heads_below above last size rest goes made =
    let v = packed s before false in
    let same = λ (y : ℕ) (a : y ≡ p + 8 → ⊥) (b : y ≡ p + s → ⊥).
      ap (λ x. x y) made ∙ both_kept h.words p s v y a b in
    let done =
      insert_Inserted (record h { words = w }) low p s before q end heads_below above last
        (subst (λ x. Block x p before s false) (sym made)
          (both-Block h.words p s before false size))
        ys
        (Tiles-agree h.words w (p + s) q ys end
          (λ y grid over. same y (λ e. ground (arith, size)) (λ e. omega arith)) rest)
        (Destination-agree h w low p s ys heads_below
          (λ y under. same y (λ e. omega arith) (λ e. omega arith)) goes) in
    record {
      row = (done.block, done.rest);
      others = λ y grid over upto.
          done.others y grid over upto ∙ same y (λ e. omega arith) (λ e. ground (arith, size));
    }

-- The grid was the same before.
Changed-from :
    {w0 w w' : ℕ → ℕ} {low bp : ℕ} {before : Bool} {blocks : List (ℕ × Bool)} {end : ℕ}
    → ((y : ℕ) → OnGrid bp y → low ≤ y → w y ≡ w0 y)
    → Changed w w' low bp before blocks end
    → Changed w0 w' low bp before blocks end
Changed-from same change = record {
  row = change.row;
  others = λ y grid over upto. change.others y grid over upto ∙ same y grid over;
}

-- What a removal leaves as it is, for the blocks behind a place.
pub Tiles-behind :
    (w w' : ℕ → ℕ) (low p j : ℕ) (q : Bool) (ys : List (ℕ × Bool)) (end : ℕ)
    → j % 64 ≡ 0
    → low ≤ p
    → ((y : ℕ) → OnGrid p y → low ≤ y → w' y ≡ w y)
    → Tiles w (p + j) q ys end
    → Tiles w' (p + j) q ys end
Tiles-behind w w' low p j q ys end whole above same row =
    Tiles-agree w w' (p + j) q ys end (λ y grid over. same y (regrid j whole grid) (omega arith))
      row

pub sum_size : {n : ℕ} (m : ℕ) → IsSize n → m % 64 ≡ 0 → n + m < 4294967296 → IsSize (n + m)
sum_size m first whole small = record {
  whole = ground (arith, first);
  large = ground (arith, first);
  small = small;
}

-- The end of the row has no size and is not allocated.
pub end_size :
    (w : ℕ → ℕ) (a : ℕ) (q : Bool) → w (a + 8) ≡ packed 0 q false → size_of (w (a + 8)) ≡ 0
end_size w a q says = ap size_of says ∙ (pack_fields 0 q false refl (omega arith)).0

pub end_alloc :
    (w : ℕ → ℕ) (a : ℕ) (q : Bool) → w (a + 8) ≡ packed 0 q false → alloc_of (w (a + 8)) ≡ 0
end_alloc w a q says = ap alloc_of says ∙ (pack_fields 0 q false refl (omega arith)).2

-- sf_coalesce joins a block and the next one.
pub join_next-Changed :
    (h : Heap) (low bp n m : ℕ) (before q : Bool) (ys : List (ℕ × Bool)) (end : ℕ)
    → h.heads + 320 ≤ low
    → low ≤ bp
    → end + 8 ≡ h.epilogue
    → IsSize (n + m)
    → get_size h bp ≡ n
    → get_palloc h bp ≡ bit before * 2
    → get_size (remove_from_free_list (bp + n) h) (bp + n) ≡ m
    → ((y : ℕ) → OnGrid bp y → low ≤ y → (remove_from_free_list (bp + n) h).words y ≡ h.words y)
    → Tiles (remove_from_free_list (bp + n) h).words (bp + (n + m)) q ys end
    → Destination (remove_from_free_list (bp + n) h) low bp (n + m) ys
    → Changed h.words
        (join_next bp (get_palloc h bp) h).words
        low
        bp
        before
        ((n + m, false) ∷ ys)
        end
join_next-Changed h low bp n m before q ys end heads_below above last size here known there same
      rest goes =
    let h' = remove_from_free_list (bp + n) h in
    let code =
      ap
        (λ s. insert_to_free_list bp (
          set_both bp
            (pack (s + get_size (remove_from_free_list (bp + s) h) (bp + s)) (get_palloc h bp) 0)
            (remove_from_free_list (bp + s) h)))
        here
      ∙ ap (λ z. insert_to_free_list bp (set_both bp (pack (n + z) (get_palloc h bp) 0) h')) there
      ∙ ap (λ p. insert_to_free_list bp (set_both bp (pack (n + m) p 0) h')) known in
    subst (λ g. Changed h.words g.words low bp before ((n + m, false) ∷ ys) end) (sym code)
      (Changed-from same (
        merge_Changed h' (set_both bp (packed (n + m) before false) h').words low bp (n + m) before
          q ys end (subst (λ g. g.heads + 320 ≤ low) (sym (remove_shape h (bp + n))) heads_below)
          above (subst (λ g. end + 8 ≡ g.epilogue) (sym (remove_shape h (bp + n))) last) size rest
          goes (set_both_words h' bp (n + m) before false size)))

-- sf_coalesce joins a block with the one before it and the next one.
pub join_both-Changed :
    (h : Heap) (low p bp k n m : ℕ) (before q : Bool) (ys : List (ℕ × Bool)) (end : ℕ)
    → h.heads + 320 ≤ low
    → low ≤ p
    → end + 8 ≡ h.epilogue
    → IsSize (n + (m + k))
    → get_size h bp ≡ n
    → get_palloc (remove_from_free_list (bp + n) (remove_from_free_list p h)) p ≡ bit before * 2
    → get_size (remove_from_free_list (bp + n) (remove_from_free_list p h)) (bp + n) ≡ m
    → get_size (remove_from_free_list (bp + n) (remove_from_free_list p h)) p ≡ k
    → ((y : ℕ)
        → OnGrid p y
        → low ≤ y
        → (remove_from_free_list (bp + n) (remove_from_free_list p h)).words y ≡ h.words y)
    → Tiles
        (remove_from_free_list (bp + n) (remove_from_free_list p h)).words
        (p + (n + (m + k)))
        q
        ys
        end
    → Destination
        (remove_from_free_list (bp + n) (remove_from_free_list p h))
        low
        p
        (n + (m + k))
        ys
    → Changed h.words (join_both bp p h).words low p before ((n + (m + k), false) ∷ ys) end
join_both-Changed h low p bp k n m before q ys end heads_below above last size here known there left
      same rest goes =
    let g = remove_from_free_list p h in
    let h' = remove_from_free_list (bp + n) g in
    let shape = remove_shape g (bp + n) in
    let code =
      ap
        (λ s. insert_to_free_list p (
          tag p
            (s
              + (get_size (remove_from_free_list (bp + s) g) (bp + s)
                  + get_size (remove_from_free_list (bp + s) g) p))
            0 (remove_from_free_list (bp + s) g)))
        here
      ∙ ap (λ z. insert_to_free_list p (tag p (n + (z + get_size h' p)) 0 h')) there
      ∙ ap (λ z. insert_to_free_list p (tag p (n + (m + z)) 0 h')) left in
    subst (λ x. Changed h.words x.words low p before ((n + (m + k), false) ∷ ys) end) (sym code)
      (Changed-from same (
        merge_Changed h' (tag p (n + (m + k)) 0 h').words low p (n + (m + k)) before q ys end
          (subst (λ x. x.heads + 320 ≤ low) (sym shape)
            (subst (λ x. x.heads + 320 ≤ low) (sym (remove_shape h p)) heads_below))
          above
          (subst (λ x. end + 8 ≡ x.epilogue) (sym shape)
            (subst (λ x. end + 8 ≡ x.epilogue) (sym (remove_shape h p)) last))
          size rest goes (tag_words h' p (n + (m + k)) before false size known)))

-- Header and footer where the footer is found from the block that is taken in.
abbrev tag_prev : (p bp size : ℕ) → Heap → Heap
tag_prev p bp size h =
    let h' = set_header p (pack size (get_palloc h p) 0) h in
    set_footer bp (pack size (get_palloc h' p) 0) h'

tag_prev_words :
    (h : Heap) (p bp k n : ℕ) (before : Bool)
    → IsSize (n + k)
    → bp ≡ p + k
    → 64 ≤ k
    → get_size h bp ≡ n
    → get_palloc h p ≡ bit before * 2
    → (tag_prev p bp (n + k) h).words ≡ both h.words p (n + k) (packed (n + k) before false)
tag_prev_words h p bp k n before size next_to large here known =
    let s = n + k in
    let v = packed s before false in
    let w = update h.words (p + 8) v in
    let palloc =
      ap palloc_of (written h.words (p + 8) v)
      ∙ (pack_fields s before false (omega (arith, size.whole)) size.small).1 in
    let beside = ap size_of (kept h.words (p + 8) v (bp + 8) (λ e. omega arith)) ∙ here in
    ap
      (λ x.
        let w' = update h.words (p + 8) (pack s x 0) in
        update w' (bp + size_of (w' (bp + 8))) (pack s (palloc_of (w' (p + 8))) 0))
      known
    ∙ ap (λ x. update w (bp + size_of (w (bp + 8))) (pack s x 0)) palloc
    ∙ ap (λ x. update w (bp + x) v) beside
    ∙ ap (λ x. update w x v) (omega arith)

-- sf_coalesce joins a block with the one before it.
pub join_prev-Changed :
    (h : Heap) (low p bp k n : ℕ) (before q : Bool) (ys : List (ℕ × Bool)) (end : ℕ)
    → h.heads + 320 ≤ low
    → low ≤ p
    → end + 8 ≡ h.epilogue
    → IsSize (n + k)
    → bp ≡ p + k
    → 64 ≤ k
    → get_size h bp ≡ n
    → get_size (remove_from_free_list p h) bp ≡ n
    → get_palloc (remove_from_free_list p h) p ≡ bit before * 2
    → get_size (remove_from_free_list p h) p ≡ k
    → ((y : ℕ) → OnGrid p y → low ≤ y → (remove_from_free_list p h).words y ≡ h.words y)
    → Tiles (remove_from_free_list p h).words (p + (n + k)) q ys end
    → Destination (remove_from_free_list p h) low p (n + k) ys
    → Changed h.words (join_prev bp p h).words low p before ((n + k, false) ∷ ys) end
join_prev-Changed h low p bp k n before q ys end heads_below above last size next_to large here
      still known left same rest goes =
    let h' = remove_from_free_list p h in
    let code =
      ap (λ s. insert_to_free_list p (tag_prev p bp (s + get_size h' p) h')) here
      ∙ ap (λ z. insert_to_free_list p (tag_prev p bp (n + z) h')) left in
    subst (λ x. Changed h.words x.words low p before ((n + k, false) ∷ ys) end) (sym code)
      (Changed-from same (
        merge_Changed h' (tag_prev p bp (n + k) h').words low p (n + k) before q ys end
          (subst (λ x. x.heads + 320 ≤ low) (sym (remove_shape h p)) heads_below) above
          (subst (λ x. end + 8 ≡ x.epilogue) (sym (remove_shape h p)) last) size rest goes
          (tag_prev_words h' p bp k n before size next_to large still known)))
