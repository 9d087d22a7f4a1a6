-- ===== src/Allocator/Rings/Wild.antt =====
-- HW3-Dynamic-Memory-Allocator/src/sfhelperfunctions.c: the wilderness block is put into its list.
use system_fundamentals_ii_c.Prelude.{
  Fresh, List, [], arith, refl, subst, sym, ℕ, ◌%◌, ◌+◌, ◌<◌, ◌∙◌, ◌∷◌, ◌≡◌, ◌≢◌,
}
use system_fundamentals_ii_c.Allocator.Blocks.{Heap, list_count, update}
use system_fundamentals_ii_c.Allocator.Lists.{link_wilderness}
use system_fundamentals_ii_c.Allocator.Rings.{IsRing, Linked-store_next, Linked-store_prev}
use system_fundamentals_ii_c.Allocator.Rings.Table.{
  Apart, AreLists, changed_list, head_at, with_list,
}

-- A list whose head leads back to itself is empty.
pub empty_list :
    (w : ℕ → ℕ) (hd : ℕ) (blocks : List ℕ) → IsRing w hd blocks → w (hd + 16) ≡ hd → blocks ≡ []
empty_list w hd [] ring back = refl
empty_list w hd (x ∷ blocks) ring back = absurd (ring.distinct.0.0 (sym back ∙ ring.linked.0))

-- The four writes that put a block into an empty list.
abbrev circled : (ℕ → ℕ) → (hd bp : ℕ) → ℕ → ℕ
circled w hd bp =
    update (update (update (update w (bp + 16) hd) (bp + 24) hd) (hd + 16) bp) (hd + 24) bp

circled-IsRing :
    (w : ℕ → ℕ) (hd bp : ℕ)
    → bp ≢ hd
    → bp % 16 ≡ 0
    → hd % 16 ≡ 0
    → IsRing (circled w hd bp) hd (bp ∷ [])
circled-IsRing w hd bp apart at_bp at_hd = record {
  linked = (
    ground (arith, apart),
    ground (arith, apart),
    (ground (arith, apart), ground (arith, apart)),
  );
  distinct = (((λ e. apart (sym e)), tt), (tt, tt));
  aligned = (at_hd, (at_bp, tt));
}

-- The other lists.
IsRing-circled :
    (w : ℕ → ℕ) (hd' bp hd : ℕ) (blocks : List ℕ)
    → IsRing w hd blocks
    → Fresh hd' (hd ∷ blocks)
    → Fresh bp (hd ∷ blocks)
    → hd' % 16 ≡ 0
    → bp % 16 ≡ 0
    → IsRing (circled w hd' bp) hd blocks
IsRing-circled w hd' bp hd blocks ring fresh_hd fresh_bp at_hd at_bp =
    let w1 = update w (bp + 16) hd' in
    let w2 = update w1 (bp + 24) hd' in
    let ats = ring.aligned.1 in
    let at = ring.aligned.0 in
    record {
      linked =
          Linked-store_prev (update w2 (hd' + 16) bp) hd' bp hd blocks hd fresh_hd.0 fresh_hd.1
            at_hd ats at
            (Linked-store_next w2 hd' bp hd blocks hd fresh_hd.0 fresh_hd.1 at_hd ats at (
              Linked-store_prev w1 bp hd' hd blocks hd fresh_bp.0 fresh_bp.1 at_bp ats at (
                Linked-store_next w bp hd' hd blocks hd fresh_bp.0 fresh_bp.1 at_bp ats at
                  ring.linked)));
      distinct = ring.distinct;
      aligned = ring.aligned;
    }

Apart-one : (hd bp : ℕ) (zs : List ℕ) → Apart zs (hd ∷ []) → Fresh bp zs → Apart zs (hd ∷ bp ∷ [])
Apart-one hd bp [] apart fresh = tt
Apart-one hd bp (z ∷ zs) apart fresh =
    ((apart.0.0, ((λ e. fresh.0 (sym e)), tt)), Apart-one hd bp zs apart.1 fresh.1)

-- The assignments of insert_wilderness, where the wilderness list is empty: the block is then the only
-- one of that list, and the other nine are as they were.
pub link_wilderness-AreLists :
    (h : Heap) (bp : ℕ) (lists : ℕ → List ℕ)
    → AreLists h.words h.heads lists
    → lists 9 ≡ []
    → ((j : ℕ) → j < list_count → Fresh bp (head_at h.heads j ∷ lists j))
    → bp % 16 ≡ 0
    → AreLists (link_wilderness (bp, h)).words h.heads (with_list lists 9 (bp ∷ []))
link_wilderness-AreLists h bp lists all empty fresh at =
    let hd = head_at h.heads 9 in
    let ring = all.rings 9 (omega arith) in
    let away : (j : ℕ) → j < list_count → j ≢ 9 → Apart (hd ∷ []) (head_at h.heads j ∷ lists j) =
      λ j j_in ne.
        subst (λ l. Apart (hd ∷ l) (head_at h.heads j ∷ lists j)) empty
          (all.apart 9 j (omega arith) j_in (λ e. ne (sym e))) in
    changed_list (link_wilderness (bp, h)).words h.heads 9 lists (bp ∷ [])
      (circled-IsRing h.words hd bp (fresh 9 (omega arith)).0 at ring.aligned.0)
      (λ j j_in ne.
        IsRing-circled h.words hd bp (head_at h.heads j) (lists j) (all.rings j j_in)
          (away j j_in ne).0 (fresh j j_in) ring.aligned.0 at)
      (λ j j_in ne. (
        ((away j j_in ne).0, (fresh j j_in, tt)),
        Apart-one hd bp (head_at h.heads j ∷ lists j)
            (subst (λ l. Apart (head_at h.heads j ∷ lists j) (hd ∷ l)) empty
              (all.apart j 9 j_in (omega arith) ne))
            (fresh j j_in),
      ))
      all.apart
