-- ===== src/Allocator/Rings/Remove.antt =====
-- HW3-Dynamic-Memory-Allocator/src/sfhelperfunctions.c: remove_from_free_list on a ring.
use system_fundamentals_ii_c.Prelude.{
  Distinct, Fresh, Fresh-last, Fresh-split, List, [], ap, arith, false, if◌then◌else◌, last, ltb,
  not, subst, sym, ℕ, ◌%◌, ◌++◌, ◌+◌, ◌==◌, ◌||◌, ◌∙◌, ◌∷◌, ◌≡◌, ◌≢◌, ◌≤◌,
}
use system_fundamentals_ii_c.Allocator.Blocks.{
  Heap, get_alloc, get_size, min_size, next, prev, update,
}
use system_fundamentals_ii_c.Allocator.Lists.{remove_from_free_list, unlink}
use system_fundamentals_ii_c.Allocator.Rings.{
  AreAligned, AreAligned-split, IsRing, Linked, Linked-store_next, Linked-store_prev, aligned_first,
  aligned_last, first, joined,
}

-- The first block is left out.
Linked-skip :
    (w : ℕ → ℕ) (b x : ℕ) (ys : List ℕ) (z : ℕ)
    → Linked w b ys z
    → Fresh x ys
    → Fresh z ys
    → Distinct ys
    → x % 16 ≡ 0
    → z % 16 ≡ 0
    → AreAligned ys
    → Linked (joined w x (first ys z)) x ys z
Linked-skip w b x [] z l fresh_x fresh_z distinct at_x at_z ats = (ground arith, ground arith)
Linked-skip w b x (y ∷ ys) z l fresh_x fresh_z distinct at_x at_z ats = (
  ground arith,
  ground arith,
  Linked-store_prev (update w (x + 16) y) y x y ys z (λ e. fresh_z.0 (sym e)) distinct.0 ats.0 ats.1
      ats.0 (Linked-store_next w x y y ys z fresh_x.0 fresh_x.1 at_x ats.1 at_z l.2),
)

first-apart : (x : ℕ) (ys : List ℕ) (z : ℕ) → Fresh x ys → x ≢ z → x ≢ first ys z
first-apart x [] z fresh apart = apart
first-apart x (y ∷ ys) z fresh apart = fresh.0

-- The first two links of a part where a block behind it is left out.
two_links :
    (w : ℕ → ℕ) (x y p n : ℕ)
    → w (x + 16) ≡ y
    → w (y + 24) ≡ x
    → x ≢ p
    → y ≢ n
    → x % 16 ≡ 0
    → y % 16 ≡ 0
    → p % 16 ≡ 0
    → n % 16 ≡ 0
    → (joined w p n (x + 16) ≡ y) × (joined w p n (y + 24) ≡ x)
two_links w x y p n forth back x_p y_n at_x at_y at_p at_n =
    (ground (arith, forth), ground (arith, back))

-- A block is left out anywhere.
Linked-unlink :
    (w : ℕ → ℕ) (b x : ℕ) (xs ys : List ℕ) (z : ℕ)
    → Linked w x (xs ++ b ∷ ys) z
    → Fresh x (xs ++ b ∷ ys)
    → Fresh z (xs ++ b ∷ ys)
    → Distinct (xs ++ b ∷ ys)
    → x % 16 ≡ 0
    → z % 16 ≡ 0
    → AreAligned (xs ++ b ∷ ys)
    → Linked (joined w (last x xs) (first ys z)) x (xs ++ ys) z
Linked-unlink w b x [] ys z l fresh_x fresh_z distinct at_x at_z ats =
    Linked-skip w b x ys z l.2 fresh_x.1 fresh_z.1 distinct.1 at_x at_z ats.1
Linked-unlink w b x (y ∷ xs) ys z l fresh_x fresh_z distinct at_x at_z ats =
    let apart =
      first-apart y ys z (Fresh-split y xs (b ∷ ys) distinct.0).1.1 (λ e. fresh_z.0 (sym e)) in
    let aligned = AreAligned-split xs (b ∷ ys) ats.1 in
    let two =
      two_links w x y (last y xs) (first ys z) l.0 l.1
        (Fresh-last x y xs (Fresh-split x (y ∷ xs) (b ∷ ys) fresh_x).0) apart at_x ats.0
        (aligned_last y xs ats.0 aligned.0) (aligned_first ys z aligned.1.1 at_z) in
    (two.0, two.1, Linked-unlink w b y xs ys z l.2 distinct.0 fresh_z.1 distinct.1 ats.0 at_z ats.1)

-- The links of a block in a ring.
pub Linked-links :
    (w : ℕ → ℕ) (b x : ℕ) (xs ys : List ℕ) (z : ℕ)
    → Linked w x (xs ++ b ∷ ys) z
    → (w (b + 24) ≡ last x xs) × (w (b + 16) ≡ first ys z)
Linked-links w b x [] [] z l = (l.1, l.2.0)
Linked-links w b x [] (y ∷ ys) z l = (l.1, l.2.0)
Linked-links w b x (y ∷ xs) ys z l = Linked-links w b y xs ys z l.2

-- What unlink does to the memory, where the block is not its own neighbour.
unlink-joined :
    (h : Heap) (b p n : ℕ)
    → prev h b ≡ p
    → next h b ≡ n
    → b ≢ p
    → p % 16 ≡ 0
    → b % 16 ≡ 0
    → joined h.words p n ≡ (unlink b h).words
unfolding unlink
unlink-joined h b p n before after other at_p at_b =
    let g = update h.words (p + 16) n in
    let after' : g (b + 16) ≡ n = ground (arith, after) in
    let before' : g (b + 24) ≡ p = ground (arith, before) in
    sym (
      ap
        (λ q.
          update (update h.words (q + 16) (next h b))
            (update h.words (q + 16) (next h b) (b + 16) + 24)
            (update h.words (q + 16) (next h b) (b + 24)))
        before
      ∙ ap
          (λ q.
            update (update h.words (p + 16) q) (update h.words (p + 16) q (b + 16) + 24)
              (update h.words (p + 16) q (b + 24)))
          after
      ∙ ap (λ q. update g (q + 24) (g (b + 24))) after'
      ∙ ap (update g (n + 24)) before')

pub Fresh-remove : (x b : ℕ) (xs ys : List ℕ) → Fresh x (xs ++ b ∷ ys) → Fresh x (xs ++ ys)
Fresh-remove x b [] ys fresh = fresh.1
Fresh-remove x b (y ∷ xs) ys fresh = (fresh.0, Fresh-remove x b xs ys fresh.1)

Distinct-remove : (b : ℕ) (xs ys : List ℕ) → Distinct (xs ++ b ∷ ys) → Distinct (xs ++ ys)
Distinct-remove b [] ys distinct = distinct.1
Distinct-remove b (x ∷ xs) ys distinct =
    (Fresh-remove x b xs ys distinct.0, Distinct-remove b xs ys distinct.1)

pub AreAligned-remove : (b : ℕ) (xs ys : List ℕ) → AreAligned (xs ++ b ∷ ys) → AreAligned (xs ++ ys)
AreAligned-remove b [] ys ats = ats.1
AreAligned-remove b (x ∷ xs) ys ats = (ats.0, AreAligned-remove b xs ys ats.1)

-- A block is apart from the one before it.
apart_last :
    (x b : ℕ) (xs ys : List ℕ) → Fresh x (xs ++ b ∷ ys) → Distinct (xs ++ b ∷ ys) → b ≢ last x xs
apart_last x b [] ys fresh distinct = λ e. fresh.0 (sym e)
apart_last x b (y ∷ xs) ys fresh distinct = apart_last y b xs ys distinct.0 distinct.1

removed_code :
    (h : Heap) (b : ℕ)
    → get_alloc h b ≡ 0
    → 64 ≤ get_size h b
    → remove_from_free_list b h ≡ unlink b h
unfolding remove_from_free_list
removed_code h b free large =
    ap (λ a. if not (a == 0) || ltb (get_size h b) min_size then h else unlink b h) free
    ∙ ap (λ t. if t then h else unlink b h) enough
  where
    enough : ltb (get_size h b) 64 ≡ false
    enough = ground (arith, large)

-- The words that it leaves, by the neighbours of the block.
pub removed-joined :
    (h : Heap) (hd b : ℕ) (xs ys : List ℕ)
    → IsRing h.words hd (xs ++ b ∷ ys)
    → get_alloc h b ≡ 0
    → 64 ≤ get_size h b
    → joined h.words (last hd xs) (first ys hd) ≡ (remove_from_free_list b h).words
removed-joined h hd b xs ys ring free large =
    let ats = AreAligned-split xs (b ∷ ys) ring.aligned.1 in
    let links = Linked-links h.words b hd xs ys hd ring.linked in
    unlink-joined h b (last hd xs) (first ys hd) links.0 links.1
      (apart_last hd b xs ys ring.distinct.0 ring.distinct.1)
      (aligned_last hd xs ring.aligned.0 ats.0) ats.1.0
    ∙ sym (ap (λ x. x.words) (removed_code h b free large))

-- remove_from_free_list takes a free block out of its list, wherever it stands in it: the list is then the
-- ring of the other blocks, in their order, linked both ways. The block has at least 64 bytes, and the
-- addresses are multiples of 16.
pub remove_from_free_list-IsRing :
    (h : Heap) (hd b : ℕ) (xs ys : List ℕ)
    → IsRing h.words hd (xs ++ b ∷ ys)
    → get_alloc h b ≡ 0
    → 64 ≤ get_size h b
    → IsRing (remove_from_free_list b h).words hd (xs ++ ys)
remove_from_free_list-IsRing h hd b xs ys ring free large = record {
  linked =
      subst (λ w. Linked w hd (xs ++ ys) hd) (removed-joined h hd b xs ys ring free large)
        (Linked-unlink h.words b hd xs ys hd ring.linked ring.distinct.0 ring.distinct.0
          ring.distinct.1 ring.aligned.0 ring.aligned.0 ring.aligned.1);
  distinct = (Fresh-remove hd b xs ys ring.distinct.0, Distinct-remove b xs ys ring.distinct.1);
  aligned = (ring.aligned.0, AreAligned-remove b xs ys ring.aligned.1);
}
