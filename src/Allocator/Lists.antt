-- ===== src/Allocator/Lists.antt =====
-- HW3-Dynamic-Memory-Allocator/src/sfhelperfunctions.c: the size classes and the free lists.
use system_fundamentals_ii_c.Prelude.{
  Bool, Option, false, if◌then◌else◌, leb, ltb, none, not, some, suc, true, zero, ℕ, ◌%◌, ◌&&◌, ◌+◌,
  ◌-◌, ◌/◌, ◌==◌, ◌||◌,
}
use system_fundamentals_ii_c.Allocator.Blocks.{
  Heap, get_alloc, get_palloc, get_size, head, list_count, min_size, next, next_blkp, pack, prev,
  row, set_footer, set_header, set_next, set_nextblkp_palloc, set_prev,
}

-- `n <= j` on ints, by their 32 bits.
abbrev pub le_int : ℕ → ℕ → Bool
le_int n j = leb ((n + 2147483648) % 4294967296) ((j + 2147483648) % 4294967296)

-- The loop of get_min_fib, on ints that wrap. It never changes what is returned.
unfoldable pub fib_from : (fuel n i j : ℕ) → Bool
fib_from zero n i j = false
fib_from (suc f) n i j = elim (le_int n j) [
  | true ↦ fib_from f n j ((j + i) % 4294967296)
  | false ↦ true
]

-- get_min_fib, if its loop ends within the fuel.
unfoldable pub get_min_fib : (fuel n : ℕ) → Option ℕ
unfolding fib_from
get_min_fib fuel n = if fib_from fuel n 3 5 then some 4 else none

-- The list by the result; the loop ends for every size below 2 ^ 37.
abbrev pub list_of_fib : Option ℕ → ℕ
list_of_fib (some fib_index) =
    if ltb fib_index (list_count - 1) then fib_index - 1 else list_count - 2
list_of_fib none = list_count - 2

-- The rounds that the loop of get_min_fib may take.
abbrev pub fib_rounds : ℕ
fib_rounds = 64

unfoldable pub get_class_size : ℕ → ℕ
unfolding get_min_fib
get_class_size asize =
    let units = asize / min_size in
    if units == 1
    then 0
    else if units == 2
    then 1
    else if units == 3
    then 2
    else list_of_fib (get_min_fib fib_rounds (units % 4294967296))

-- The left block `a` takes in the right block `b`: both end up with the size of the two.
abbrev pub absorb : (a b : ℕ) → Heap → Heap
absorb a b h =
    let size = get_size h b + get_size h a in
    let h' = set_header a (pack size (get_palloc h a) 0) h in
    set_footer b (pack size (get_palloc h' a) 0) h'

-- sf_coalesce_wilderness: the block that it returns, and the memory.
unfoldable pub sf_coalesce_wilderness : ℕ → Heap → ℕ × Heap
sf_coalesce_wilderness bp h =
    let wilderness = next h (head h 9) in
    if wilderness == head h 9
    then (bp, h)
    else if ltb wilderness bp
    then (wilderness, absorb wilderness bp h)
    else (bp, absorb bp wilderness h)

abbrev pub link_wilderness : ℕ × Heap → Heap
link_wilderness (bp, h) =
    set_prev (head h 9) bp
      (set_next (head h 9) bp (set_prev bp (head h 9) (set_next bp (head h 9) h)))

unfoldable pub insert_wilderness : ℕ → Heap → Heap
unfolding sf_coalesce_wilderness
insert_wilderness bp h = link_wilderness (sf_coalesce_wilderness bp h)

-- The four assignments that put a block at the front of a list.
unfoldable pub link_first : ℕ → ℕ → Heap → Heap
link_first hd bp h =
    let h1 = set_prev bp hd (set_next bp (next h hd) h) in
    set_next hd bp (set_prev (next h1 hd) bp h1)

-- Whether insert_to_free_list takes the block for the wilderness block.
abbrev pub is_wilderness : ℕ → Heap → Bool
is_wilderness bp h =
    let wilderness = next h (head h 9) in
    (wilderness == head h 9 && leb h.epilogue (next_blkp h bp + row))
    || next_blkp h bp == wilderness

unfoldable pub insert_to_free_list : ℕ → Heap → Heap
unfolding insert_wilderness link_first set_nextblkp_palloc get_class_size
insert_to_free_list bp h =
    if ltb (get_size h bp) min_size
    then h
    else if is_wilderness bp h
    then insert_wilderness bp h
    else set_nextblkp_palloc bp 0 (link_first (head h (get_class_size (get_size h bp))) bp h)

-- `bp->prev->next = bp->next; bp->next->prev = bp->prev;`
unfoldable pub unlink : ℕ → Heap → Heap
unlink bp h = let h' = set_next (prev h bp) (next h bp) h in set_prev (next h' bp) (prev h' bp) h'

unfoldable pub remove_from_free_list : ℕ → Heap → Heap
unfolding unlink
remove_from_free_list bp h =
    if not (get_alloc h bp == 0) || ltb (get_size h bp) min_size then h else unlink bp h
