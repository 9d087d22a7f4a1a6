-- ===== src/Allocator/Operations.antt =====
-- HW3-Dynamic-Memory-Allocator/src/sfmm.c: splitting and coalescing of blocks, and the functions of the
-- allocator.
use system_fundamentals_ii_c.Prelude.{
  Bool, Option, bit_and, bit_or, false, if◌then◌else◌, leb, ltb, none, not, some, suc, true, zero,
  ℕ, ◌%◌, ◌&&◌, ◌*◌, ◌+◌, ◌-◌, ◌/◌, ◌==◌, ◌||◌,
}
use system_fundamentals_ii_c.Allocator.Blocks.{
  Heap, alloc_of, einval, enomem, get_alloc, get_palloc, get_size, head, header, list_count,
  min_size, next, next_blkp, pack, page_size, payload, prev_blkp, prev_footer, row, set_both,
  set_footer, set_header, set_next, set_nextblkp_palloc, set_prev, store, word64,
}
use system_fundamentals_ii_c.Allocator.Lists.{
  get_class_size, insert_to_free_list, insert_wilderness, remove_from_free_list,
}

-- A call returns, calls abort(), or is not done within the fuel.
pub data Outcome (A : Type 0) : Type 0 where
  returns : A → Heap → Outcome A
  aborts unfinished : Outcome A

-- The difference of two sizes, which wraps.
abbrev pub minus : ℕ → ℕ → ℕ
minus a b = (a + word64 - b) % word64

-- The first part of a block is allocated, the rest is a free block of its own.
abbrev pub split_off : (bp tot_size data_size : ℕ) → Heap → Heap
split_off bp tot_size data_size h =
    let h' = set_header bp (pack data_size (get_palloc h bp) 1) h in
    let h1 = set_footer bp (pack data_size (get_palloc h' bp) 1) h' in
    let nbp = next_blkp h1 bp in
    insert_to_free_list nbp (set_both nbp (pack (minus tot_size data_size) 2 0) h1)

-- A block is allocated whole.
abbrev pub take_whole : (bp tot_size : ℕ) → Heap → Heap
take_whole bp tot_size h =
    let h' = set_header bp (pack tot_size (get_palloc h bp) 1) h in
    set_nextblkp_palloc bp 2 (set_footer bp (pack tot_size (get_palloc h' bp) 1) h')

unfoldable pub sf_split : (bp tot_size data_size : ℕ) → Heap → Heap
unfolding insert_to_free_list set_nextblkp_palloc
sf_split bp tot_size data_size h =
    if leb 64 (minus tot_size data_size)
    then split_off bp tot_size data_size h
    else take_whole bp tot_size h

unfoldable pub place : (bp asize : ℕ) → Heap → Heap
unfolding remove_from_free_list sf_split
place bp asize h = let h' = remove_from_free_list bp h in sf_split bp (get_size h' bp) asize h'

unfoldable pub set_epilogue : Heap → Heap
set_epilogue h =
    let h' = record h { epilogue = h.mem_end - row } in
    store h'.epilogue 0 (set_header h'.epilogue 1 h')

-- The loop that empties the free lists, from list `i` on.
unfoldable pub clear_lists : (rounds i : ℕ) → Heap → Heap
clear_lists zero i h = h
clear_lists (suc n) i h =
    clear_lists n (i + 1) (set_prev (head h i) (head h i) (set_next (head h i) (head h i) h))

-- `((epilogue - wilderness - ROW) | 0x2) & ~0x1`
abbrev pub wilderness_header : ℕ → ℕ
wilderness_header size = bit_and (bit_or size 2) (word64 - 2)

unfoldable pub initialize_heap : Heap → Heap
unfolding set_epilogue clear_lists insert_wilderness
initialize_heap h =
    let p = h.mem_start + 6 * row in
    let h1 = set_header p (bit_or (bit_or min_size 2) 1) (record h { prologue = p }) in
    let h2 = set_epilogue (set_footer p (pack min_size 2 1) h1) in
    let w = p + min_size in
    let h3 = set_both w (wilderness_header (h2.epilogue - w - row)) h2 in
    insert_wilderness w (clear_lists list_count 0 h3)

-- sf_mem_grow: whether there was a page, and the memory.
abbrev pub sf_mem_grow : Heap → Bool × Heap
sf_mem_grow h =
    if h.grows h.mem_end
    then (true, record h { mem_end = h.mem_end + page_size })
    else (false, record h { sf_errno = enomem })

-- The block size for a request: a multiple of 64.
unfoldable pub adjust : ℕ → ℕ
adjust size =
    let asize = (size + row) % word64 in
    if asize % min_size == 0 then asize else min_size * (asize / min_size + 1)

-- The loop of find_fit, at the block `bp`.
unfoldable pub fit_from : (fuel asize dummy bp : ℕ) → Heap → Option (Option ℕ)
fit_from zero asize dummy bp h = none
fit_from (suc f) asize dummy bp h = elim (bp == dummy) [
  | true ↦ some none
  | false ↦ elim (get_alloc h bp == 0 && leb asize (get_size h bp)) [
    | true ↦ some (some bp)
    | false ↦ fit_from f asize dummy (next h bp) h
  ]
]

unfoldable pub find_fit : (fuel asize dummy : ℕ) → Heap → Option (Option ℕ)
unfolding fit_from
find_fit fuel asize dummy h = fit_from fuel asize dummy (next h dummy) h

-- The loop over the lists, from list `i` on.
unfoldable pub search_lists : (fuel asize rounds i : ℕ) → Heap → Option (Option ℕ)
unfolding find_fit
search_lists fuel asize zero i h = some none
search_lists fuel asize (suc n) i h = elim (find_fit fuel asize (head h i) h) [
  | none ↦ none
  | some none ↦ search_lists fuel asize n (i + 1) h
  | some (some bp) ↦ some (some bp)
]

-- One more page: the old epilogue becomes a block, and the wilderness block takes it in.
unfoldable pub add_page : (bp : ℕ) → Heap → Heap
unfolding insert_wilderness set_epilogue
add_page bp h =
    let h1 = set_header h.epilogue (pack (h.mem_end - h.epilogue - row) 0 0) h in
    let h2 = set_epilogue (insert_wilderness h.epilogue h1) in set_footer bp (header h2 bp) h2

-- The loop that grows the heap until the block `bp` is large enough: `false` if there is no page.
unfoldable pub grow_until : (fuel bp asize : ℕ) → Heap → Outcome Bool
unfolding add_page
grow_until zero bp asize h = unfinished
grow_until (suc f) bp asize h = elim (ltb (get_size h bp) asize) [
  | false ↦ returns true h
  | true ↦ elim (h.grows h.mem_end) [
    | false ↦ returns false (sf_mem_grow h).1
    | true ↦ grow_until f bp asize (add_page bp (sf_mem_grow h).1)
  ]
]

-- The end of sf_malloc, by the block that was found.
abbrev pub malloc_found : (fuel asize : ℕ) → Option ℕ → Heap → Outcome (Option ℕ)
malloc_found fuel asize (some bp) h = returns (some (payload bp)) (place bp asize h)
malloc_found fuel asize none h =
    let bp = next h (head h 9) in
    elim (grow_until fuel bp asize h) [
      | unfinished ↦ unfinished
      | aborts ↦ aborts
      | returns false h' ↦ returns none h'
      | returns true h' ↦ returns (some (payload bp)) (place bp asize h')
    ]

-- sf_malloc on a heap that has its pages.
unfoldable pub malloc_in : (fuel size : ℕ) → Heap → Outcome (Option ℕ)
unfolding search_lists grow_until place get_class_size adjust
malloc_in fuel size h = elim (size == 0) [
  | true ↦ returns none h
  | false ↦
      let asize = adjust size in
      let i = get_class_size asize in
      elim (search_lists fuel asize (list_count - i) i h) [
        | none ↦ unfinished
        | some found ↦ malloc_found fuel asize found h
      ]
]

unfoldable pub sf_malloc : (fuel size : ℕ) → Heap → Outcome (Option ℕ)
unfolding initialize_heap malloc_in
sf_malloc fuel size h = elim (h.mem_start == h.mem_end) [
  | false ↦ malloc_in fuel size h
  | true ↦ elim (h.grows h.mem_end) [
    | false ↦ returns none (sf_mem_grow h).1
    | true ↦ malloc_in fuel size (initialize_heap (sf_mem_grow h).1)
  ]
]

-- sf_coalesce with the next block: `size` grows by its size.
abbrev pub join_next : (pp palloc : ℕ) → Heap → Heap
join_next pp palloc h =
    let n = next_blkp h pp in
    let h' = remove_from_free_list n h in
    let size = get_size h pp + get_size h' n in
    insert_to_free_list pp (set_both pp (pack size palloc 0) h')

-- sf_coalesce with the block before it.
abbrev pub join_prev : (pp p : ℕ) → Heap → Heap
join_prev pp p h =
    let h' = remove_from_free_list p h in
    let size = get_size h pp + get_size h' p in
    let h1 = set_header p (pack size (get_palloc h' p) 0) h' in
    insert_to_free_list p (set_footer pp (pack size (get_palloc h1 p) 0) h1)

-- The same where the footer is found from the block before it.
abbrev pub join_prev_last : (pp p : ℕ) → Heap → Heap
join_prev_last pp p h =
    let h' = remove_from_free_list p h in
    let size = get_size h pp + get_size h' p in
    let h1 = set_header p (pack size (get_palloc h' p) 0) h' in
    insert_to_free_list p (set_footer p (pack size (get_palloc h1 p) 0) h1)

-- sf_coalesce with both.
abbrev pub join_both : (pp p : ℕ) → Heap → Heap
join_both pp p h =
    let n = next_blkp h pp in
    let h' = remove_from_free_list n (remove_from_free_list p h) in
    let size = get_size h pp + (get_size h' n + get_size h' p) in
    let h1 = set_header p (pack size (get_palloc h' p) 0) h' in
    insert_to_free_list p (set_footer p (pack size (get_palloc h1 p) 0) h1)

-- The four branches of sf_coalesce, by whether the block before and the next one are allocated. It
-- returns the block that it makes.
abbrev pub coalesce_branch : (prev_alloc next_alloc : Bool) → ℕ → Heap → ℕ × Heap
coalesce_branch true true pp h = (pp, insert_to_free_list pp h)
coalesce_branch true false pp h =
    if leb h.epilogue (next_blkp h pp)
    then (pp, insert_to_free_list pp h)
    else (pp, join_next pp (get_palloc h pp) h)
coalesce_branch false true pp h =
    if leb (prev_blkp h pp) h.prologue
    then (pp, insert_to_free_list pp h)
    else (prev_blkp h pp, join_prev pp (prev_blkp h pp) h)
coalesce_branch false false pp h =
    if prev_blkp h pp == h.prologue && next_blkp h pp == h.epilogue
    then (pp, insert_to_free_list pp h)
    else if leb (prev_blkp h pp) h.prologue
    then (pp, join_next pp (get_palloc h pp) h)
    else if leb h.epilogue (next_blkp h pp)
    then (prev_blkp h pp, join_prev_last pp (prev_blkp h pp) h)
    else (prev_blkp h pp, join_both pp (prev_blkp h pp) h)

unfoldable pub sf_coalesce : ℕ → Heap → ℕ × Heap
unfolding remove_from_free_list insert_to_free_list
sf_coalesce pp h =
    coalesce_branch (not (get_palloc h pp == 0)) (not (get_alloc h (next_blkp h pp) == 0)) pp h

-- The tests of sf_free and sf_realloc on their argument; NULL is 0. That the distance from the start of
-- the heap is a multiple of 64 is that the remainders agree.
unfoldable pub is_invalid : ℕ → Heap → Bool
is_invalid pp h =
    let bp = pp - 2 * row in
    pp == 0
    || not (pp % min_size == h.mem_start % min_size)
    || get_alloc h bp == 0
    || leb h.epilogue bp
    || leb (bp + 8) h.prologue
    || (get_palloc h bp == 0 && not (alloc_of (prev_footer h bp) == 0))

-- sf_free behind its tests.
unfoldable pub free_block : ℕ → Heap → Heap
unfolding sf_coalesce
free_block bp h =
    let size = get_size h bp in
    let h' = set_header bp (pack size (get_palloc h bp) 0) h in
    (sf_coalesce bp (set_footer bp (pack size (get_palloc h' bp) 0) h')).1

unfoldable pub sf_free : ℕ → Heap → Outcome (Unit {0})
unfolding is_invalid free_block
sf_free pp h = if is_invalid pp h then aborts else returns tt (free_block (pp - 2 * row) h)

-- memcpy of whole words between two places that do not overlap.
abbrev pub copy : (to from bytes : ℕ) → Heap → Heap
copy to from bytes h = record h {
  words = λ a. if leb to a && ltb a (to + bytes) then h.words (a - to + from) else h.words a;
}

-- The end of a realloc that moves the block. The payload of what sf_malloc returned, taken for a block
-- once more, is 16 bytes behind it.
abbrev pub move_block : (pp size : ℕ) → Outcome (Option ℕ) → Outcome (Option ℕ)
move_block pp size unfinished = unfinished
move_block pp size aborts = aborts
move_block pp size (returns none h) = returns none h
move_block pp size (returns (some new_spot) h) =
    elim (sf_free pp (copy (payload new_spot) pp (size - row) h)) [
      | unfinished ↦ unfinished
      | aborts ↦ aborts
      | returns _ h' ↦ returns (some new_spot) h'
    ]

-- sf_realloc of a valid pointer; `size` is the size of its block.
abbrev pub realloc_valid : (fuel pp size rsize : ℕ) → Heap → Outcome (Option ℕ)
realloc_valid fuel pp size rsize h =
    if ltb size rsize
    then move_block pp size (sf_malloc fuel rsize h)
    else if ltb (adjust rsize) size
    then returns (some pp) (sf_split (pp - 2 * row) size (adjust rsize) h)
    else returns (some pp) h

unfoldable pub sf_realloc : (fuel pp rsize : ℕ) → Heap → Outcome (Option ℕ)
unfolding is_invalid sf_malloc sf_free sf_split adjust
sf_realloc fuel pp rsize h =
    let bp = pp - 2 * row in
    elim (is_invalid pp h) [
      | true ↦ returns none (record h { sf_errno = einval })
      | false ↦ elim (get_size h bp == 0) [
        | true ↦ elim (sf_free bp h) [
          | returns _ h' ↦ returns none h'
          | aborts ↦ aborts
          | unfinished ↦ unfinished
        ]
        | false ↦ realloc_valid fuel pp (get_size h bp) rsize h
      ]
    ]

-- The front of a block is split off and freed, so that the rest starts at an aligned address.
abbrev pub free_front : (bp diff : ℕ) → Heap → Outcome (Unit {0})
free_front bp diff h =
    let size = get_size h bp in
    let h' = set_header bp (pack diff (get_palloc h bp) 1) h in
    sf_free (payload bp) (set_header (bp + diff) (pack (minus size diff) 0 1) h')

abbrev pub place_aligned : (bp size : ℕ) → Heap → Outcome (Option ℕ)
place_aligned bp size h = returns (some (payload bp)) (place bp (adjust size) h)

-- sf_memalign once it has its block.
abbrev pub align_block : (size align : ℕ) → Outcome (Option ℕ) → Outcome (Option ℕ)
align_block size align unfinished = unfinished
align_block size align aborts = aborts
align_block size align (returns none h) = returns none h
align_block size align (returns (some pp) h) =
    let bp = pp - 2 * row in
    if pp % align == 0
    then place_aligned bp size h
    else elim (free_front bp (align - pp % align) h) [
      | unfinished ↦ unfinished
      | aborts ↦ aborts
      | returns _ h' ↦ place_aligned (bp + (align - pp % align)) size h'
    ]

unfoldable pub sf_memalign : (fuel size align : ℕ) → Heap → Outcome (Option ℕ)
unfolding sf_malloc sf_free place adjust
sf_memalign fuel size align h =
    if ltb align min_size || not (align % 2 == 0)
    then returns none (record h { sf_errno = einval })
    else if size == 0
    then returns none h
    else align_block size align (sf_malloc fuel ((size + min_size + align) % word64) h)
