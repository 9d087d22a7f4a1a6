-- ===== src/Allocator/Growth/Exhausted.antt =====
-- HW3-Dynamic-Memory-Allocator/src/sfmm.c: sf_malloc where there is no wilderness block.
use system_fundamentals_ii_c.Prelude.{
  Bool, Option, ap, arith, false, if◌then◌else◌, ltb, none, refl, some, subst, suc, sym, true, zero,
  ℕ, ◌*◌, ◌+◌, ◌-◌, ◌<◌, ◌==◌, ◌∙◌, ◌≡◌, ◌≤◌,
}
use system_fundamentals_ii_c.Allocator.Blocks.{
  Heap, enomem, get_size, head, list_count, next, page_size, payload,
}
use system_fundamentals_ii_c.Allocator.Growth.{GivesPages, HasBareHead, add_page-Grown}
use system_fundamentals_ii_c.Allocator.Lists.{get_class_size}
use system_fundamentals_ii_c.Allocator.Operations.{
  Outcome, aborts, add_page, adjust, grow_until, initialize_heap, malloc_found, malloc_in, place,
  returns, search_lists, sf_malloc, sf_mem_grow, unfinished,
}

-- The loop takes every page, and then fails.
record TakesAll (h : Heap) (fuel pages asize : ℕ) : Type 0 where
  after : Heap
  outcome : grow_until fuel (head h 9) asize h ≡ returns false after
  all_taken : after.mem_end ≡ h.mem_end + pages * 4096
  failed : after.sf_errno ≡ enomem

abbrev grow_by : (granted : Bool) → Heap → Bool × Heap
grow_by granted h =
    if granted
    then (true, record h { mem_end = h.mem_end + page_size })
    else (false, record h { sf_errno = enomem })

abbrev round : (f bp asize : ℕ) (small granted : Bool) → Heap → Outcome Bool
round f bp asize small granted h = elim small [
  | false ↦ returns true h
  | true ↦ elim granted [
    | false ↦ returns false (grow_by (h.grows h.mem_end) h).1
    | true ↦ grow_until f bp asize (add_page bp (grow_by (h.grows h.mem_end) h).1)
  ]
]

small_lem : (size asize : ℕ) → size ≡ 0 → 1 ≤ asize → ltb size asize ≡ true
small_lem size asize empty needed = ground arith

-- A round of the loop, by what the library says.
round_lem :
    (f bp asize : ℕ) (h : Heap) (granted : Bool)
    → get_size h bp ≡ 0
    → 1 ≤ asize
    → h.grows h.mem_end ≡ granted
    → grow_until (suc f) bp asize h ≡ round f bp asize true granted h
unfolding grow_until
round_lem f bp asize h granted no_size needed says =
    ap (λ b. round f bp asize b (h.grows h.mem_end) h)
      (small_lem (get_size h bp) asize no_size needed)
    ∙ ap (λ b. round f bp asize true b h) says

grow_until_takes :
    (fuel pages asize : ℕ) (h : Heap)
    → pages < fuel
    → 1 ≤ asize
    → HasBareHead h
    → GivesPages pages h.grows h.mem_end
    → TakesAll h fuel pages asize
grow_until_takes zero pages asize h enough needed bare gives = absurd (omega (arith, enough))
grow_until_takes (suc f) zero asize h enough needed bare gives = record {
  after = record h { sf_errno = enomem };
  outcome =
      round_lem f (head h 9) asize h false bare.no_size needed gives
      ∙ ap (λ b. returns false (grow_by b h).1) gives;
  all_taken = omega arith;
  failed = refl;
}
grow_until_takes (suc f) (suc k) asize h enough needed bare (page, gives) =
    let g = record h { mem_end = h.mem_end + page_size } in
    let grown =
      add_page-Grown g bare.no_size bare.above (omega (arith, bare.end_above)) bare.first in
    let g' = add_page (head h 9) g in
    let gives' =
      subst (λ e. GivesPages k g'.grows e) (sym grown.same_end)
        (subst (λ f. GivesPages k f (h.mem_end + 4096)) (sym grown.same_library) gives) in
    let later = grow_until_takes f k asize g' (omega (arith, enough)) needed grown.bare gives' in
    record {
      after = later.after;
      outcome =
          round_lem f (head h 9) asize h true bare.no_size needed page
          ∙ ap (λ b. grow_until f (head h 9) asize (add_page (head h 9) (grow_by b h).1)) page
          ∙ ap (λ x. grow_until f (x + 9 * 32) asize g') (sym grown.same_heads)
          ∙ later.outcome;
      all_taken = later.all_taken ∙ omega (arith, grown.same_end);
      failed = later.failed;
    }

-- sf_malloc returns NULL.
pub record Fails (h : Heap) (fuel size pages : ℕ) : Type 0 where
  pub after : Heap
  pub outcome : sf_malloc fuel size h ≡ returns none after
  pub all_taken : after.mem_end ≡ h.mem_end + pages * 4096
  pub failed : after.sf_errno ≡ enomem

-- The end of sf_malloc, by the outcome of the loop.
abbrev loop_result : (bp asize : ℕ) → Outcome Bool → Outcome (Option ℕ)
loop_result bp asize r = elim r [
  | unfinished ↦ unfinished
  | aborts ↦ aborts
  | returns false h ↦ returns none h
  | returns true h ↦ returns (some (payload bp)) (place bp asize h)
]

abbrev by_start : (fuel size : ℕ) (h : Heap) (empty : Bool) → Outcome (Option ℕ)
by_start fuel size h empty = elim empty [
  | false ↦ malloc_in fuel size h
  | true ↦ elim (h.grows h.mem_end) [
    | false ↦ returns none (sf_mem_grow h).1
    | true ↦ malloc_in fuel size (initialize_heap (sf_mem_grow h).1)
  ]
]

abbrev by_search : (fuel asize : ℕ) (h : Heap) (result : Option (Option ℕ)) → Outcome (Option ℕ)
by_search fuel asize h result = elim result [
  | none ↦ unfinished
  | some found ↦ malloc_found fuel asize found h
]

abbrev by_size : (fuel size : ℕ) (h : Heap) (no_bytes : Bool) → Outcome (Option ℕ)
by_size fuel size h no_bytes = elim no_bytes [
  | true ↦ returns none h
  | false ↦ by_search fuel (adjust size) h (
      search_lists fuel (adjust size) (list_count - get_class_size (adjust size))
        (get_class_size (adjust size)) h)
]

-- sf_malloc up to the loop.
malloc_to_loop :
    (fuel size : ℕ) (h : Heap)
    → (h.mem_start == h.mem_end) ≡ false
    → (size == 0) ≡ false
    → search_lists fuel
        (adjust size)
        (10 - get_class_size (adjust size))
        (get_class_size (adjust size))
        h
      ≡ some none
    → sf_malloc fuel size h
      ≡ loop_result
          (next h (head h 9))
          (adjust size)
          (grow_until fuel (next h (head h 9)) (adjust size) h)
unfolding sf_malloc malloc_in
malloc_to_loop fuel size h started needed nothing_fits =
    ap (by_start fuel size h) started
    ∙ ap (by_size fuel size h) needed
    ∙ ap (by_search fuel (adjust size) h) nothing_fits

-- Where the wilderness block is allocated, sf_malloc fails if the search through the free lists ends and
-- finds no block that is large enough, however many pages the library still gives: it takes all of
-- them, returns NULL and says that there is no memory. The fuel is any for which the search ends and
-- that is above the number of the pages. The size is at least 1 and the block size for it too; the heap
-- is initialised and lies above the heads of the lists, the last of which never got a header.
pub sf_malloc_exhausted :
    (fuel pages size : ℕ) (h : Heap)
    → pages < fuel
    → (h.mem_start == h.mem_end) ≡ false
    → (size == 0) ≡ false
    → 1 ≤ adjust size
    → search_lists fuel
        (adjust size)
        (10 - get_class_size (adjust size))
        (get_class_size (adjust size))
        h
      ≡ some none
    → next h (head h 9) ≡ head h 9
    → HasBareHead h
    → GivesPages pages h.grows h.mem_end
    → Fails h fuel size pages
sf_malloc_exhausted fuel pages size h enough started needed positive nothing_fits no_wilderness bare
      gives =
    let grown = grow_until_takes fuel pages (adjust size) h enough positive bare gives in
    record {
      after = grown.after;
      outcome =
          malloc_to_loop fuel size h started needed nothing_fits
          ∙ ap (λ x. loop_result x (adjust size) (grow_until fuel x (adjust size) h)) no_wilderness
          ∙ ap (loop_result (head h 9) (adjust size)) grown.outcome;
      all_taken = grown.all_taken;
      failed = grown.failed;
    }
