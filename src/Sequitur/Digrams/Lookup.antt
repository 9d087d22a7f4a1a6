-- ===== src/Sequitur/Digrams/Lookup.antt =====
-- What digram_get of digram_hash.c finds after digram_put and digram_delete.
use native.Mathlib.Nat.{mod-mod}
use system_fundamentals_ii_c.Prelude.{
  Option-cases, ap, arith, false, inl, inr, none, refl, some, suc, true, zero, ℕ, ◌%◌, ◌+◌, ◌∙◌,
  ◌≡◌, ◌≢◌, ◌⊎◌,
}
use system_fundamentals_ii_c.Sequitur.Digrams.{
  Place, digram_get, digram_hash, digram_put, existing, free, free_from, full, get_from, inserted,
  lost, matches, put_at, taken,
}
use system_fundamentals_ii_c.Sequitur.Memory.{
  Memory, Slot, Symbol, entry, returns, tombstone, update, vacant,
}

module _ (size : ℕ) where
  -- A place that the loop of digram_put finds free is where the loop of digram_get, once the place
  -- is taken, finds the digram.
  get_from-free_from :
      (cells : ℕ → Symbol) (table : ℕ → Slot) (n index a i v1 v2 : ℕ)
      → free_from size cells table n index v1 v2 ≡ free i
      → matches cells a v1 v2 ≡ some true
      → get_from size cells (update table i (entry a)) n index v1 v2 ≡ some (some a)
  unfolding free_from get_from
  get_from-free_from cells table zero index a i v1 v2 h m = ground arith
  get_from-free_from cells table (suc n) index a i v1 v2 h m =
      ground (arith, get_from-free_from cells table n (index + 1) a i v1 v2)

  -- A match that digram_put finds is what digram_get finds.
  -- An entry of the table, as the loop of digram_put reads it.
  slot-cases :
      (cells : ℕ → Symbol) (slot : Slot) (v1 v2 : ℕ) {here : Slot}
      → here ≡ slot
      → ((c : ℕ) × (here ≡ entry c) × (matches cells c v1 v2 ≡ some false))
        ⊎ ((b : ℕ) × (here ≡ entry b) × (matches cells b v1 v2 ≡ some true))
        ⊎ ((here ≡ vacant)
            ⊎ (here ≡ tombstone)
            ⊎ ((c : ℕ) × (here ≡ entry c) × (matches cells c v1 v2 ≡ none)))
  slot-cases cells vacant v1 v2 e = inr (inr (inl e))
  slot-cases cells tombstone v1 v2 e = inr (inr (inr (inl e)))
  slot-cases cells (entry c) v1 v2 e = elim (Option-cases (matches cells c v1 v2)) [
    | inl none_found ↦ inr (inr (inr (inr (c, e, none_found))))
    | inr (true, m) ↦ inr (inl (c, e, m))
    | inr (false, m) ↦ inl (c, e, m)
  ]

  get_from-taken :
      (cells : ℕ → Symbol) (table : ℕ → Slot) (n index v1 v2 : ℕ)
      → free_from size cells table n index v1 v2 ≡ taken
      → (b : ℕ) × (get_from size cells table n index v1 v2 ≡ some (some b))
        × (matches cells b v1 v2 ≡ some true)
  unfolding free_from get_from
  get_from-taken cells table zero index v1 v2 h = ground arith
  get_from-taken cells table (suc n) index v1 v2 h =
      elim (slot-cases cells (table (index % size)) v1 v2 refl) [
        | inl passed ↦
            let (b, found, match) =
              get_from-taken cells table n (index + 1) v1 v2 (ground (arith, passed)) in
            (b, ground (arith, passed), match)
        | inr (inl (b, here, match)) ↦ (b, ground (arith, here, match), match)
        | inr (inr other) ↦ absurd (ground (arith, other))
      ]

  -- digram_put returned 0, by what its loop found.
  digram_get-put_at :
      (p : Place) (a b : ℕ) (s s' : Memory)
      → (s.storage a).next ≡ some b
      → free_from size s.storage s.digram_table size
          (digram_hash size (s.storage a).value (s.storage b).value)
          (s.storage a).value
          (s.storage b).value
        ≡ p
      → put_at size p a s ≡ returns inserted s'
      → digram_get size (s.storage a).value (s.storage b).value s' ≡ returns (some a) s'
  unfolding digram_get
  digram_get-put_at (free i) a b s s' h f e = ground (
    arith,
    get_from-free_from s.storage s.digram_table size
        (digram_hash size (s.storage a).value (s.storage b).value) a i (s.storage a).value
        (s.storage b).value f (ground arith),
  )
  digram_get-put_at taken a b s s' h f e = ground arith
  digram_get-put_at full a b s s' h f e = ground arith
  digram_get-put_at lost a b s s' h f e = ground arith

  -- digram_put, for a symbol that another one follows: if it returns 0 then digram_get of the two
  -- values returns the symbol, through all the entries and tombstones in front of it.
  pub digram_get-digram_put :
      (a b : ℕ) (s s' : Memory)
      → (s.storage a).next ≡ some b
      → digram_put size a s ≡ returns inserted s'
      → digram_get size (s.storage a).value (s.storage b).value s' ≡ returns (some a) s'
  unfolding digram_put
  digram_get-digram_put a b s s' h e = digram_get-put_at _ a b s s' h refl (ground (arith, h))

  -- The same for the result 1.
  existing-put_at :
      (p : Place) (a b : ℕ) (s s' : Memory)
      → free_from size s.storage s.digram_table size
          (digram_hash size (s.storage a).value (s.storage b).value)
          (s.storage a).value
          (s.storage b).value
        ≡ p
      → put_at size p a s ≡ returns existing s'
      → (c : ℕ) × (digram_get size (s.storage a).value (s.storage b).value s' ≡ returns (some c) s)
        × (matches s.storage c (s.storage a).value (s.storage b).value ≡ some true)
  unfolding digram_get
  existing-put_at (free i) a b s s' f e = absurd (ground arith)
  existing-put_at taken a b s s' f e =
      let (c, found, match) = get_from-taken s.storage s.digram_table size _ _ _ f in
      (c, ground (arith, found), match)
  existing-put_at full a b s s' f e = absurd (ground arith)
  existing-put_at lost a b s s' f e = absurd (ground arith)

  -- digram_put, for a symbol that another one follows: if it returns 1 then digram_get of the two
  -- values returns a symbol of the table with these values, and nothing has changed.
  digram_get-existing :
      (a b : ℕ) (s s' : Memory)
      → (s.storage a).next ≡ some b
      → digram_put size a s ≡ returns existing s'
      → (c : ℕ) × (digram_get size (s.storage a).value (s.storage b).value s' ≡ returns (some c) s)
        × (matches s.storage c (s.storage a).value (s.storage b).value ≡ some true)
  unfolding digram_put
  digram_get-existing a b s s' h e = existing-put_at _ a b s s' refl (ground (arith, h))

  free_from-tombstone :
      (cells : ℕ → Symbol) (table : ℕ → Slot) (n h v1 v2 : ℕ)
      → n ≢ 0
      → h % size ≡ h
      → table h ≡ tombstone
      → free_from size cells table n h v1 v2 ≡ free h
  unfolding free_from
  free_from-tombstone cells table zero h v1 v2 ne stays tomb = absurd (ne refl)
  free_from-tombstone cells table (suc n) h v1 v2 ne stays tomb =
      ground (arith, stays, tomb, ap table stays ∙ tomb)

  -- digram_put, for a symbol that another one follows: a tombstone at the place of its hash is taken
  -- at once, whatever stands behind it. A matching digram there is not looked for, and 0 is returned.
  digram_put-tombstone :
      (a b : ℕ) (s : Memory)
      → size ≢ 0
      → (s.storage a).next ≡ some b
      → s.digram_table (digram_hash size (s.storage a).value (s.storage b).value) ≡ tombstone
      → digram_put size a s
        ≡ returns inserted (record s {
          digram_table =
              update s.digram_table
                (digram_hash size (s.storage a).value (s.storage b).value)
                (entry a);
        })
  unfolding digram_put
  digram_put-tombstone a b s h next tomb = ground (
    arith,
    next,
    free_from-tombstone s.storage s.digram_table size
        (digram_hash size (s.storage a).value (s.storage b).value) (s.storage a).value
        (s.storage b).value h (mod-mod _ size) tomb,
  )
