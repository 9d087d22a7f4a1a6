-- ===== src/Allocator/Blocks.antt =====
-- HW3-Dynamic-Memory-Allocator: blocks in memory, by include/sfmm.h and the first helpers of
-- src/sfhelperfunctions.c. An address is a number of bytes; memory maps it to the word that starts
-- there.
pub mod Headers
use system_fundamentals_ii_c.Prelude.{
  Bool, bit_and, bit_or, if◌then◌else◌, leb, ℕ, ◌*◌, ◌+◌, ◌-◌, ◌==◌,
}

-- sf_errno
pub data Errno : Type 0 where
  unset enomem einval : Errno

-- The memory, the two static pointers, and the library sfutil: where the heap starts and ends, and
-- whether it gives another page when the heap ends at an address. `heads` is the address of
-- sf_free_list_heads.
pub record Heap : Type 0 where
  pub words : ℕ → ℕ
  pub prologue : ℕ
  pub epilogue : ℕ
  pub mem_start : ℕ
  pub mem_end : ℕ
  pub heads : ℕ
  pub grows : ℕ → Bool
  pub sf_errno : Errno

abbrev pub update : (ℕ → ℕ) → ℕ → ℕ → ℕ → ℕ
update f a v x = if x == a then v else f x

-- ROW, M, NUM_FREE_LISTS and PAGE_SZ
abbrev pub row : ℕ
row = 8

abbrev pub min_size : ℕ
min_size = 64

abbrev pub list_count : ℕ
list_count = 10

abbrev pub page_size : ℕ
page_size = 4096

-- A size_t wraps.
abbrev pub word64 : ℕ
word64 = 18446744073709551616

-- PACK, and the parts of a header: BLOCK_SIZE_MASK, THIS_BLOCK_ALLOCATED, PREV_BLOCK_ALLOCATED.
unfoldable pub pack : (size palloc alloc : ℕ) → ℕ
pack size palloc alloc = bit_or (bit_or size palloc) alloc

unfoldable pub size_of : ℕ → ℕ
size_of w = bit_and w 0xfffffffc

unfoldable pub alloc_of : ℕ → ℕ
alloc_of w = bit_and w 1

unfoldable pub palloc_of : ℕ → ℕ
palloc_of w = bit_and w 2

-- The fields of a block: prev_footer, header, and the links of a free block.
abbrev pub prev_footer : Heap → ℕ → ℕ
prev_footer h bp = h.words bp

abbrev pub header : Heap → ℕ → ℕ
header h bp = h.words (bp + 8)

abbrev pub next : Heap → ℕ → ℕ
next h bp = h.words (bp + 16)

abbrev pub prev : Heap → ℕ → ℕ
prev h bp = h.words (bp + 24)

abbrev pub payload : ℕ → ℕ
payload bp = bp + 16

abbrev pub store : ℕ → ℕ → Heap → Heap
store a v h = record h { words = update h.words a v }

abbrev pub set_header : ℕ → ℕ → Heap → Heap
set_header bp v = store (bp + 8) v

abbrev pub set_next : ℕ → ℕ → Heap → Heap
set_next bp p = store (bp + 16) p

abbrev pub set_prev : ℕ → ℕ → Heap → Heap
set_prev bp p = store (bp + 24) p

abbrev pub get_size : Heap → ℕ → ℕ
get_size h bp = size_of (header h bp)

abbrev pub get_alloc : Heap → ℕ → ℕ
get_alloc h bp = alloc_of (header h bp)

abbrev pub get_palloc : Heap → ℕ → ℕ
get_palloc h bp = palloc_of (header h bp)

abbrev pub next_blkp : Heap → ℕ → ℕ
next_blkp h bp = bp + get_size h bp

abbrev pub prev_blkp : Heap → ℕ → ℕ
prev_blkp h bp = bp - size_of (prev_footer h bp)

-- The footer of a block is the field prev_footer of the next one.
abbrev pub set_footer : ℕ → ℕ → Heap → Heap
set_footer bp v h = store (next_blkp h bp) v h

-- A header is written and copied to the footer.
abbrev pub set_both : ℕ → ℕ → Heap → Heap
set_both bp v h = set_footer bp v (set_header bp v h)

unfoldable pub set_nextblkp_palloc : ℕ → ℕ → Heap → Heap
set_nextblkp_palloc bp palloc h =
    let nbp = next_blkp h bp in
    if leb h.epilogue nbp
    then h
    else let h' = set_header nbp (pack (get_size h nbp) palloc (get_alloc h nbp)) h in
      set_footer nbp (header h' nbp) h'

-- &sf_free_list_heads[i]
abbrev pub head : Heap → ℕ → ℕ
head h i = h.heads + i * 32
