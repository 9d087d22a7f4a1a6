-- ===== src/Allocator/Rings/Table.antt =====
-- HW3-Dynamic-Memory-Allocator/src/sfhelperfunctions.c: the ten free lists.
use system_fundamentals_ii_c.Prelude.{
  Bool, Fresh, List, [], arith, false, if◌then◌else◌, last, refl, subst, sym, true, ℕ, ◌%◌, ◌*◌,
  ◌++◌, ◌+◌, ◌<◌, ◌==◌, ◌∙◌, ◌∷◌, ◌≡◌, ◌≢◌, ◌≤◌,
}
use system_fundamentals_ii_c.Allocator.Blocks.{Heap, get_alloc, get_size, list_count, update}
use system_fundamentals_ii_c.Allocator.Lists.{link_first, remove_from_free_list}
use system_fundamentals_ii_c.Allocator.Rings.{
  AreAligned-split, IsRing, Linked-store_next, Linked-store_prev, aligned_first, aligned_last,
  first, joined,
}
use system_fundamentals_ii_c.Allocator.Rings.Front.{
  fronted, link_first-IsRing, link_first-fronted, next_head,
}
use system_fundamentals_ii_c.Allocator.Rings.Remove.{
  Fresh-remove, remove_from_free_list-IsRing, removed-joined,
}

-- None of the nodes of a ring is one of the other one.
abbrev pub Apart : List ℕ → List ℕ → Type 0
Apart [] ys = Unit
Apart (x ∷ xs) ys = Fresh x ys × Apart xs ys

Apart-split : (xs ys zs : List ℕ) → Apart (xs ++ ys) zs → Apart xs zs × Apart ys zs
Apart-split [] ys zs h = (tt, h)
Apart-split (x ∷ xs) ys zs h = let rest = Apart-split xs ys zs h.1 in ((h.0, rest.0), rest.1)

Fresh-first :
    (ys : List ℕ) (z : ℕ) (others : List ℕ)
    → Apart ys others
    → Fresh z others
    → Fresh (first ys z) others
Fresh-first [] z others apart fresh = fresh
Fresh-first (y ∷ ys) z others apart fresh = apart.0

Fresh-last_of :
    (x : ℕ) (xs others : List ℕ) → Fresh x others → Apart xs others → Fresh (last x xs) others
Fresh-last_of x [] others fresh apart = fresh
Fresh-last_of x (y ∷ xs) others fresh apart = Fresh-last_of y xs others apart.0 apart.1

-- Writes to the links of other nodes.
IsRing-joined :
    (w : ℕ → ℕ) (p n hd : ℕ) (blocks : List ℕ)
    → IsRing w hd blocks
    → Fresh p (hd ∷ blocks)
    → Fresh n (hd ∷ blocks)
    → p % 16 ≡ 0
    → n % 16 ≡ 0
    → IsRing (joined w p n) hd blocks
IsRing-joined w p n hd blocks ring fresh_p fresh_n at_p at_n = record {
  linked =
      Linked-store_prev (update w (p + 16) n) n p hd blocks hd fresh_n.0 fresh_n.1 at_n
        ring.aligned.1 ring.aligned.0
        (Linked-store_next w p n hd blocks hd fresh_p.0 fresh_p.1 at_p ring.aligned.1 ring.aligned.0
          ring.linked);
  distinct = ring.distinct;
  aligned = ring.aligned;
}

abbrev pub head_at : (heads i : ℕ) → ℕ
head_at heads i = heads + i * 32

-- The ten lists are rings, and no two of them share a node.
pub record AreLists (w : ℕ → ℕ) (heads : ℕ) (lists : ℕ → List ℕ) : Type 0 where
  pub rings : (i : ℕ) → i < list_count → IsRing w (head_at heads i) (lists i)
  pub apart :
      (i j : ℕ)
      → i < list_count
      → j < list_count
      → i ≢ j
      → Apart (head_at heads i ∷ lists i) (head_at heads j ∷ lists j)

abbrev pub with_list : (ℕ → List ℕ) → ℕ → List ℕ → ℕ → List ℕ
with_list lists i blocks j = if j == i then blocks else lists j

same_number : (j i : ℕ) → (j == i) ≡ true → j ≡ i
same_number j i same = ground arith

-- One list changes, and the rest stay as they are.
pub changed_list :
    (w : ℕ → ℕ) (heads i : ℕ) (lists : ℕ → List ℕ) (blocks : List ℕ)
    → IsRing w (head_at heads i) blocks
    → ((j : ℕ) → j < list_count → j ≢ i → IsRing w (head_at heads j) (lists j))
    → ((j : ℕ)
        → j < list_count
        → j ≢ i
        → Apart (head_at heads i ∷ blocks) (head_at heads j ∷ lists j)
          × Apart (head_at heads j ∷ lists j) (head_at heads i ∷ blocks))
    → ((j k : ℕ)
        → j < list_count
        → k < list_count
        → j ≢ k
        → Apart (head_at heads j ∷ lists j) (head_at heads k ∷ lists k))
    → AreLists w heads (with_list lists i blocks)
changed_list w heads i lists blocks ring others apart old = record {
  rings = λ j inside. by_ring j inside (j == i) refl;
  apart = λ j k j_in k_in ne. by_apart j k j_in k_in ne (j == i) (k == i) refl refl;
}
  where
    by_ring :
        (j : ℕ)
        → j < list_count
        → (b : Bool) → (j == i) ≡ b
        → IsRing w (head_at heads j) (if b then blocks else lists j)
    by_ring j inside true same =
        subst (λ k. IsRing w (head_at heads k) blocks) (sym (same_number j i same)) ring
    by_ring j inside false other = others j inside (ground (arith, other))

    by_apart :
        (j k : ℕ)
        → j < list_count
        → k < list_count
        → j ≢ k
        → (b c : Bool) → (j == i) ≡ b
        → (k == i) ≡ c
        → Apart
            (head_at heads j ∷ (if b then blocks else lists j))
            (head_at heads k ∷ (if c then blocks else lists k))
    by_apart j k j_in k_in ne true true same_j same_k =
        absurd (ne (same_number j i same_j ∙ sym (same_number k i same_k)))
    by_apart j k j_in k_in ne true false same_j other_k =
        subst (λ m. Apart (head_at heads m ∷ blocks) (head_at heads k ∷ lists k))
          (sym (same_number j i same_j)) (apart k k_in (ground (arith, other_k))).0
    by_apart j k j_in k_in ne false true other_j same_k =
        subst (λ m. Apart (head_at heads j ∷ lists j) (head_at heads m ∷ blocks))
          (sym (same_number k i same_k)) (apart j j_in (ground (arith, other_j))).1
    by_apart j k j_in k_in ne false false other_j other_k = old j k j_in k_in ne

Apart-remove_left : (b : ℕ) (xs ys zs : List ℕ) → Apart (xs ++ b ∷ ys) zs → Apart (xs ++ ys) zs
Apart-remove_left b [] ys zs apart = apart.1
Apart-remove_left b (x ∷ xs) ys zs apart = (apart.0, Apart-remove_left b xs ys zs apart.1)

Apart-remove_right :
    (hd b : ℕ) (xs ys zs : List ℕ) → Apart zs (hd ∷ xs ++ b ∷ ys) → Apart zs (hd ∷ xs ++ ys)
Apart-remove_right hd b xs ys [] apart = tt
Apart-remove_right hd b xs ys (z ∷ zs) apart =
    (Fresh-remove z b (hd ∷ xs) ys apart.0, Apart-remove_right hd b xs ys zs apart.1)

Apart-insert_right :
    (hd bp : ℕ) (blocks zs : List ℕ)
    → Apart zs (hd ∷ blocks)
    → Fresh bp zs
    → Apart zs (hd ∷ bp ∷ blocks)
Apart-insert_right hd bp blocks [] apart fresh = tt
Apart-insert_right hd bp blocks (z ∷ zs) apart fresh = (
  (apart.0.0, ((λ e. fresh.0 (sym e)), apart.0.1)),
  Apart-insert_right hd bp blocks zs apart.1 fresh.1,
)

IsRing-fronted :
    (w : ℕ → ℕ) (hd' bp n hd : ℕ) (blocks : List ℕ)
    → IsRing w hd blocks
    → Fresh hd' (hd ∷ blocks)
    → Fresh bp (hd ∷ blocks)
    → Fresh n (hd ∷ blocks)
    → hd' % 16 ≡ 0
    → bp % 16 ≡ 0
    → n % 16 ≡ 0
    → IsRing (fronted w hd' bp n) hd blocks
IsRing-fronted w hd' bp n hd blocks ring fresh_hd fresh_bp fresh_n at_hd at_bp at_n =
    let w1 = update w (bp + 16) n in
    let w2 = update w1 (bp + 24) hd' in
    let ats = ring.aligned.1 in
    let at = ring.aligned.0 in
    record {
      linked =
          Linked-store_next (update w2 (n + 24) bp) hd' bp hd blocks hd fresh_hd.0 fresh_hd.1 at_hd
            ats at
            (Linked-store_prev w2 n bp hd blocks hd fresh_n.0 fresh_n.1 at_n ats at (
              Linked-store_prev w1 bp hd' hd blocks hd fresh_bp.0 fresh_bp.1 at_bp ats at (
                Linked-store_next w bp n hd blocks hd fresh_bp.0 fresh_bp.1 at_bp ats at
                  ring.linked)));
      distinct = ring.distinct;
      aligned = ring.aligned;
    }

-- remove_from_free_list takes a free block out of its list and leaves the ten lists as rings that share no
-- node: the list of the block has lost the block, and the other nine are as they were. The block has
-- at least 64 bytes, and the addresses are multiples of 16.
pub remove_from_free_list-AreLists :
    (h : Heap) (i b : ℕ) (lists : ℕ → List ℕ) (xs ys : List ℕ)
    → AreLists h.words h.heads lists
    → i < list_count
    → lists i ≡ xs ++ b ∷ ys
    → get_alloc h b ≡ 0
    → 64 ≤ get_size h b
    → AreLists (remove_from_free_list b h).words h.heads (with_list lists i (xs ++ ys))
remove_from_free_list-AreLists h i b lists xs ys all inside here free large =
    let hd = head_at h.heads i in
    let ring = subst (IsRing h.words hd) here (all.rings i inside) in
    let ats = AreAligned-split xs (b ∷ ys) ring.aligned.1 in
    let away : (j : ℕ)
        → j < list_count
        → j ≢ i
        → Apart (hd ∷ xs ++ b ∷ ys) (head_at h.heads j ∷ lists j) =
      λ j j_in ne.
        subst (λ l. Apart (hd ∷ l) (head_at h.heads j ∷ lists j)) here
          (all.apart i j inside j_in (λ e. ne (sym e))) in
    changed_list (remove_from_free_list b h).words h.heads i lists (xs ++ ys)
      (remove_from_free_list-IsRing h hd b xs ys ring free large)
      (λ j j_in ne.
        let two = Apart-split xs (b ∷ ys) (head_at h.heads j ∷ lists j) (away j j_in ne).1 in
        subst (λ w. IsRing w (head_at h.heads j) (lists j))
          (removed-joined h hd b xs ys ring free large)
          (IsRing-joined h.words (last hd xs) (first ys hd) (head_at h.heads j) (lists j)
            (all.rings j j_in)
            (Fresh-last_of hd xs (head_at h.heads j ∷ lists j) (away j j_in ne).0 two.0)
            (Fresh-first ys hd (head_at h.heads j ∷ lists j) two.1.1 (away j j_in ne).0)
            (aligned_last hd xs ring.aligned.0 ats.0) (aligned_first ys hd ats.1.1 ring.aligned.0)))
      (λ j j_in ne. (
        (
          (away j j_in ne).0,
          Apart-remove_left b xs ys (head_at h.heads j ∷ lists j) (away j j_in ne).1,
        ),
        Apart-remove_right hd b xs ys (head_at h.heads j ∷ lists j) (
            subst (λ l. Apart (head_at h.heads j ∷ lists j) (hd ∷ l)) here
              (all.apart j i j_in inside ne)),
      ))
      all.apart

-- link_first puts a block that is in none of the ten lists at the front of one of them, and leaves the
-- lists as rings that share no node. The addresses are multiples of 16.
pub link_first-AreLists :
    (h : Heap) (i bp : ℕ) (lists : ℕ → List ℕ)
    → AreLists h.words h.heads lists
    → i < list_count
    → ((j : ℕ) → j < list_count → Fresh bp (head_at h.heads j ∷ lists j))
    → bp % 16 ≡ 0
    → AreLists
        (link_first (head_at h.heads i) bp h).words
        h.heads
        (with_list lists i (bp ∷ lists i))
link_first-AreLists h i bp lists all inside fresh at =
    let hd = head_at h.heads i in
    let ring = all.rings i inside in
    let n = first (lists i) hd in
    changed_list (link_first hd bp h).words h.heads i lists (bp ∷ lists i)
      (link_first-IsRing h hd bp (lists i) ring (fresh i inside) at)
      (λ j j_in ne.
        let away = all.apart i j inside j_in (λ e. ne (sym e)) in
        subst (λ w. IsRing w (head_at h.heads j) (lists j))
          (link_first-fronted h hd bp n (next_head h.words hd (lists i) ring.linked)
            (fresh i inside).0 at ring.aligned.0)
          (IsRing-fronted h.words hd bp n (head_at h.heads j) (lists j) (all.rings j j_in) away.0
            (fresh j j_in) (Fresh-first (lists i) hd (head_at h.heads j ∷ lists j) away.1 away.0)
            ring.aligned.0 at (aligned_first (lists i) hd ring.aligned.1 ring.aligned.0)))
      (λ j j_in ne.
        let away = all.apart i j inside j_in (λ e. ne (sym e)) in
        (
          (away.0, (fresh j j_in, away.1)),
          Apart-insert_right hd bp (lists i) (head_at h.heads j ∷ lists j)
              (all.apart j i j_in inside ne) (fresh j j_in),
        ))
      all.apart
