-- ===== src/Allocator/Tests.antt =====
-- Examples for the allocator: each theorem at a concrete heap, and runs.
use system_fundamentals_ii_c.Prelude.{
  Bool, Fresh, List, [], arith, false, if◌then◌else◌, inl, ltb, none, refl, some, subst, sym, true,
  ℕ, ◌%◌, ◌&&◌, ◌*◌, ◌+◌, ◌-◌, ◌/◌, ◌<◌, ◌==◌, ◌||◌, ◌∷◌, ◌≡◌, ◌≢◌, ◌≤◌,
}
use system_fundamentals_ii_c.Allocator.Blocks.{
  Heap, alloc_of, next, pack, palloc_of, size_of, unset,
}
use system_fundamentals_ii_c.Allocator.Blocks.Headers.{IsSize}
use system_fundamentals_ii_c.Allocator.Growth.Exhausted.{Fails, sf_malloc_exhausted}
use system_fundamentals_ii_c.Allocator.Lists.{get_class_size, link_first, remove_from_free_list}
use system_fundamentals_ii_c.Allocator.Operations.{
  Outcome, aborts, adjust, initialize_heap, place, returns, search_lists, sf_malloc, unfinished,
}
use system_fundamentals_ii_c.Allocator.Rings.{IsRing}
use system_fundamentals_ii_c.Allocator.Rings.Frame.{AreNodes}
use system_fundamentals_ii_c.Allocator.Rings.Place.{place_keeps}
use system_fundamentals_ii_c.Allocator.Rings.Table.{
  Apart, AreLists, head_at, link_first-AreLists, remove_from_free_list-AreLists, with_list,
}
use system_fundamentals_ii_c.Allocator.Sizes.{adjust_fits}
use system_fundamentals_ii_c.Allocator.Tiling.{Block, Tiles, is_block, is_head, last_from, total}
use system_fundamentals_ii_c.Allocator.Tiling.Coalesce.{Ready, join_right}
use system_fundamentals_ii_c.Allocator.Tiling.Insert.{Destination}
use system_fundamentals_ii_c.Allocator.Tiling.Release.{
  Frees, IsPlaced, free_behind_free, free_behind_taken,
}
use system_fundamentals_ii_c.Allocator.Tiling.Split.{split_row}
use system_fundamentals_ii_c.Allocator.Tiling.Start.{initialize_heap_row}

-- A library that has four pages, from the address 65536 on.
abbrev no_heap : Heap
no_heap = record {
  words = λ a. 0;
  prologue = 0;
  epilogue = 0;
  mem_start = 65536;
  mem_end = 65536;
  heads = 1024;
  grows = λ e. ltb e (65536 + 4 * 4096);
  sf_errno = unset;
}

-- The first page.
abbrev one_page : Heap
one_page = record no_heap { mem_end = 65536 + 4096 }

-- Four blocks from the address 1024 on: of 64 bytes, allocated; 128, free; 64, allocated; and the
-- wilderness block of 192. The heads of the lists lie at 512, that of the wilderness list at 800.
abbrev words_of : ℕ → ℕ
words_of a =
    if a == 1032
    then 67
    else if a == 1096
    then 130
    else if a == 1216
    then 130
    else if a == 1224
    then 65
    else if a == 1288
    then 194
    else if a == 1472
    then 194
    else if a == 560
    then 1088
    else if a == 1104
    then 544
    else if a == 1112
    then 544
    else if a == 816
    then 1280
    else if a == 1296
    then 800
    else if a == 1304
    then 800
    else if a == 568
    then 1088
    else if a == 824
    then 1280
    else if ltb a 832 && a % 32 == 16
    then a - 16
    else if ltb a 832 && a % 32 == 24
    then a - 24
    else 0

abbrev four : Heap
four = record {
  words = words_of;
  prologue = 960;
  epilogue = 1480;
  mem_start = 912;
  mem_end = 1488;
  heads = 512;
  grows = λ e. false;
  sf_errno = unset;
}

abbrev four_blocks : List (ℕ × Bool)
four_blocks = (64, true) ∷ (128, false) ∷ (64, true) ∷ (192, false) ∷ []

abbrev size_64 : IsSize 64
size_64 = record { whole = refl; large = omega arith; small = omega arith }

abbrev size_128 : IsSize 128
size_128 = record { whole = refl; large = omega arith; small = omega arith }

abbrev size_192 : IsSize 192
size_192 = record { whole = refl; large = omega arith; small = omega arith }

third : Block words_of 1216 false 64 true
unfolding pack
third = record { header = refl; size = size_64; footer = λ e. absurd (ground arith) }

four_Tiles : Tiles words_of 1024 true four_blocks 1472
unfolding Tiles pack
four_Tiles = (
  record { header = refl; size = size_64; footer = λ e. absurd (ground arith) },
  (
    record { header = refl; size = size_128; footer = λ e. refl },
    (third, (record { header = refl; size = size_192; footer = λ e. refl }, (refl, false, refl))),
  ),
)

four-IsPlaced : IsPlaced four 1024 1472
four-IsPlaced = record {
  heads_below = omega arith;
  last = refl;
  behind = omega arith;
  aligned = refl;
}

adjust_fits_example : (adjust 100 % 64 ≡ 0) × (108 ≤ adjust 100) × (adjust 100 < 172)
adjust_fits_example = adjust_fits 100 (omega arith)

initialize_heap_row_example :
    Tiles (initialize_heap one_page).words 65648 true ((3968, false) ∷ []) 69616
    × IsPlaced (initialize_heap one_page) 65648 69616
    × (next (initialize_heap one_page) 1312 ≡ 65648)
initialize_heap_row_example = initialize_heap_row one_page refl (omega arith)

-- Its free lists.
abbrev four_lists : ℕ → List ℕ
four_lists i = if i == 1 then 1088 ∷ [] else if i == 9 then 1280 ∷ [] else []

four_ring :
    (i : ℕ) (b c : Bool)
    → (i == 1) ≡ b
    → (i == 9) ≡ c
    → i < 10
    → IsRing words_of (head_at 512 i) (if b then 1088 ∷ [] else if c then 1280 ∷ [] else [])
four_ring i true c here other below =
    subst (λ k. IsRing words_of (head_at 512 k) (1088 ∷ [])) (sym is_one)
      (record {
        linked = (refl, refl, (refl, refl));
        distinct = ((omega arith, tt), (tt, tt));
        aligned = (omega arith, (omega arith, tt));
      })
  where
    is_one : i ≡ 1
    is_one = ground (arith, here)
four_ring i false true other here below =
    subst (λ k. IsRing words_of (head_at 512 k) (1280 ∷ [])) (sym is_nine)
      (record {
        linked = (refl, refl, (refl, refl));
        distinct = ((omega arith, tt), (tt, tt));
        aligned = (omega arith, (omega arith, tt));
      })
  where
    is_nine : i ≡ 9
    is_nine = ground (arith, here)
four_ring i false false no_one no_nine below = record {
  linked = (ground (arith, no_one, no_nine, below), ground (arith, no_one, no_nine, below));
  distinct = (tt, tt);
  aligned = (omega arith, tt);
}

four-Apart :
    (i j : ℕ) (b c b' c' : Bool)
    → i < 10
    → j < 10
    → i ≢ j
    → (i == 1) ≡ b
    → (i == 9) ≡ c
    → (j == 1) ≡ b'
    → (j == 9) ≡ c'
    → Apart
        (head_at 512 i ∷ (if b then 1088 ∷ [] else if c then 1280 ∷ [] else []))
        (head_at 512 j ∷ (if b' then 1088 ∷ [] else if c' then 1280 ∷ [] else []))
four-Apart i j true c true c' i_in j_in ne is_i no_i is_j no_j =
    absurd (ne (ground (arith, is_i, is_j)))
four-Apart i j false true false true i_in j_in ne no_i is_i no_j is_j =
    absurd (ne (ground (arith, is_i, is_j)))
four-Apart i j true c false true i_in j_in ne is_i no_i no_j is_j = (
  ((λ e. ne (omega (arith, e))), ((λ e. omega (arith, e, i_in)), tt)),
  (((λ e. omega (arith, e, j_in)), ((λ e. omega (arith, e)), tt)), tt),
)
four-Apart i j true c false false i_in j_in ne is_i no_i no_j is_j =
    (((λ e. ne (omega (arith, e))), tt), (((λ e. omega (arith, e, j_in)), tt), tt))
four-Apart i j false true true c' i_in j_in ne no_i is_i is_j no_j = (
  ((λ e. ne (omega (arith, e))), ((λ e. omega (arith, e, i_in)), tt)),
  (((λ e. omega (arith, e, j_in)), ((λ e. omega (arith, e)), tt)), tt),
)
four-Apart i j false true false false i_in j_in ne no_i is_i no_j is_j =
    (((λ e. ne (omega (arith, e))), tt), (((λ e. omega (arith, e, j_in)), tt), tt))
four-Apart i j false false true c' i_in j_in ne no_i is_i is_j no_j =
    (((λ e. ne (omega (arith, e))), ((λ e. omega (arith, e, i_in)), tt)), tt)
four-Apart i j false false false true i_in j_in ne no_i is_i no_j is_j =
    (((λ e. ne (omega (arith, e))), ((λ e. omega (arith, e, i_in)), tt)), tt)
four-Apart i j false false false false i_in j_in ne no_i is_i no_j is_j =
    (((λ e. ne (omega (arith, e))), tt), tt)

four-AreLists : AreLists words_of 512 four_lists
four-AreLists = record {
  rings = λ i below. four_ring i (i == 1) (i == 9) refl refl below;
  apart = λ i j i_in j_in ne.
      four-Apart i j (i == 1) (i == 9) (j == 1) (j == 9) i_in j_in ne refl refl refl refl;
}

four-AreNodes :
    (j : ℕ) (b c : Bool) → AreNodes 1024 1024 (if b then 1088 ∷ [] else if c then 1280 ∷ [] else [])
four-AreNodes j true c = (is_block refl, tt)
four-AreNodes j false true = (is_block refl, tt)
four-AreNodes j false false = tt

rest_is_new : (b c : Bool) → Fresh 1152 (if b then 1088 ∷ [] else if c then 1280 ∷ [] else [])
rest_is_new true c = ((λ e. omega (arith, e)), tt)
rest_is_new false true = ((λ e. omega (arith, e)), tt)
rest_is_new false false = tt

-- The free block of 128 bytes is split: the rest of 64 bytes goes into the list 0.
place_keeps_example :
    Tiles
      (place 1088 64 four).words
      1024
      true
      ((64, true) ∷ (64, true) ∷ (64, false) ∷ (64, true) ∷ (192, false) ∷ [])
      1472
    × AreLists (place 1088 64 four).words 512 (with_list (with_list four_lists 1 []) 0 (1152 ∷ []))
unfolding split_row total remove_from_free_list Destination alloc_of size_of get_class_size
place_keeps_example =
    place_keeps four 1024 128 64 1 true ((64, true) ∷ []) ((64, true) ∷ (192, false) ∷ []) 1472
      four_lists [] [] (omega arith) refl four_Tiles size_64 (omega arith) four-AreLists
      (omega arith) refl (λ j inside. four-AreNodes j (j == 1) (j == 9))
      (λ room j inside. rest_is_new (j == 1) (j == 9))
      (λ room. (λ e. omega arith, is_head (omega arith)))

-- The first block is freed, and takes in the second one.
free_behind_taken_example :
    Frees four 1040 1024 true ((192, false) ∷ (64, true) ∷ (192, false) ∷ []) 1472
unfolding total last_from Ready join_right remove_from_free_list Destination alloc_of size_of
    get_class_size palloc_of pack
free_behind_taken_example =
    free_behind_taken four 1024 64 true [] ((128, false) ∷ (64, true) ∷ (192, false) ∷ []) 1472
      four-IsPlaced four_Tiles refl (omega arith)
      (
        record { to_next = is_head (omega arith); to_prev = is_head (omega arith) },
        (λ e. omega arith, is_head (omega arith)),
      )

-- The third block is freed, and joined with the second and the fourth one.
free_behind_free_example : Frees four 1232 1024 true ((64, true) ∷ (384, false) ∷ []) 1472
unfolding total Ready join_right remove_from_free_list Destination alloc_of size_of palloc_of pack
free_behind_free_example =
    free_behind_free four 1024 128 64 true ((64, true) ∷ []) ((192, false) ∷ []) 1472 four-IsPlaced
      four_Tiles (omega arith)
      record { to_next = is_head (omega arith); to_prev = is_head (omega arith) }
      (record { to_next = is_head (omega arith); to_prev = is_head (omega arith) }, refl)

-- A heap of one page where the wilderness block is allocated and all lists are empty.
abbrev full : Heap
full = record no_heap {
  words = λ a. if ltb a 1344 && a % 32 == 16 then a - 16 else 0;
  mem_end = 69632;
  epilogue = 69624;
  prologue = 65584;
}

sf_malloc_exhausted_example : Fails full 9 20 3
unfolding search_lists adjust get_class_size size_of
sf_malloc_exhausted_example =
    sf_malloc_exhausted 9 3 20 full (omega arith) refl refl (omega arith) refl refl
      record { no_size = refl; above = omega arith; end_above = omega arith; first = inl refl }
      (refl, (refl, (refl, refl)))

-- Runs.
abbrev value : {A : Type 0} → A → Outcome A → A
value d (returns x h) = x
value d aborts = d
value d unfinished = d

abbrev after_call : {A : Type 0} → Outcome A → Heap
after_call (returns x h) = h
after_call aborts = no_heap
after_call unfinished = no_heap

-- The first payload of a heap is aligned.
malloc_first : value none (sf_malloc 50 100 no_heap) ≡ some 65664
unfolding sf_malloc pack size_of alloc_of palloc_of
malloc_first = refl

-- The block of a page's size that is left takes the wilderness block; the next call takes all pages.
malloc_all : (after_call (sf_malloc 50 20 (after_call (sf_malloc 50 3960 no_heap)))).mem_end ≡ 81920
unfolding sf_malloc pack size_of alloc_of palloc_of
malloc_all = refl

-- The call after that returns a pointer that is not aligned.
malloc_misaligned :
    value none
      (sf_malloc 50 20 (after_call (sf_malloc 50 20 (after_call (sf_malloc 50 3960 no_heap)))))
    ≡ some 69640
unfolding sf_malloc pack size_of alloc_of palloc_of
malloc_misaligned = refl

-- The heads of the lists at 512, and a block of 128 bytes at 1088 that is the only free one.
abbrev listed_words : ℕ → ℕ
listed_words a =
    if a == 1096
    then 130
    else if a == 1104 || a == 1112
    then 544
    else if a == 560 || a == 568
    then 1088
    else a / 32 * 32

abbrev listed_heap : Heap
listed_heap = record no_heap { words = listed_words; heads = 512 }

abbrev one_listed : ℕ → List ℕ
one_listed i = if i == 1 then 1088 ∷ [] else []

listed_ring :
    (i : ℕ) (b : Bool)
    → (i == 1) ≡ b
    → i < 10
    → IsRing listed_words (head_at 512 i) (if b then 1088 ∷ [] else [])
listed_ring i true here below =
    subst (λ k. IsRing listed_words (head_at 512 k) (1088 ∷ [])) (sym is_one)
      (record {
        linked = (refl, refl, (refl, refl));
        distinct = ((omega arith, tt), (tt, tt));
        aligned = (omega arith, (omega arith, tt));
      })
  where
    is_one : i ≡ 1
    is_one = ground (arith, here)
listed_ring i false other below = record {
  linked = (ground (arith, other, below), ground (arith, other, below));
  distinct = (tt, tt);
  aligned = (omega arith, tt);
}

listed-Apart :
    (i j : ℕ) (b c : Bool)
    → i < 10
    → j < 10
    → i ≢ j
    → (i == 1) ≡ b
    → (j == 1) ≡ c
    → Apart
        (head_at 512 i ∷ (if b then 1088 ∷ [] else []))
        (head_at 512 j ∷ (if c then 1088 ∷ [] else []))
listed-Apart i j true true i_in j_in ne is_i is_j = absurd (ne (ground (arith, is_i, is_j)))
listed-Apart i j true false i_in j_in ne is_i is_j =
    (((λ e. ne (omega (arith, e))), tt), (((λ e. omega (arith, e, j_in)), tt), tt))
listed-Apart i j false true i_in j_in ne is_i is_j =
    (((λ e. ne (omega (arith, e))), ((λ e. omega (arith, e, i_in)), tt)), tt)
listed-Apart i j false false i_in j_in ne is_i is_j = (((λ e. ne (omega (arith, e))), tt), tt)

listed-AreLists : AreLists listed_words 512 one_listed
listed-AreLists = record {
  rings = λ i below. listed_ring i (i == 1) refl below;
  apart = λ i j i_in j_in ne. listed-Apart i j (i == 1) (j == 1) i_in j_in ne refl refl;
}

remove_from_free_list-AreLists_example :
    AreLists (remove_from_free_list 1088 listed_heap).words 512 (with_list one_listed 1 [])
unfolding size_of alloc_of
remove_from_free_list-AreLists_example =
    remove_from_free_list-AreLists listed_heap 1 1088 one_listed [] [] listed-AreLists (omega arith)
      refl refl (omega arith)

link_first-AreLists_example :
    AreLists (link_first 512 2048 listed_heap).words 512 (with_list one_listed 0 (2048 ∷ []))
link_first-AreLists_example =
    link_first-AreLists listed_heap 0 2048 one_listed listed-AreLists (omega arith)
      (λ j below. elsewhere j (j == 1) below) (omega arith)
  where
    elsewhere :
        (j : ℕ) (c : Bool) → j < 10 → Fresh 2048 (head_at 512 j ∷ (if c then 1088 ∷ [] else []))
    elsewhere j true below = ((λ e. omega (arith, e, below)), ((λ e. omega (arith, e)), tt))
    elsewhere j false below = ((λ e. omega (arith, e, below)), tt)
