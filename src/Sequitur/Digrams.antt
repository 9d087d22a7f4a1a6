-- ===== src/Sequitur/Digrams.antt =====
-- HW1-Compression-Decompression-Utility/src/digram_hash.c: the table of digrams, with open
-- addressing and linear probing. `size` is MAX_DIGRAMS.
pub mod Lookup
use system_fundamentals_ii_c.Prelude.{
  Bool, Option, false, if◌then◌else◌, ltb, none, some, suc, true, zero, ℕ, ◌%◌, ◌*◌, ◌+◌, ◌==◌,
}
use system_fundamentals_ii_c.Sequitur.Memory.{
  M, Slot, Symbol, entry, faults, returns, tombstone, update, vacant, word,
}

-- `dp->value == v1 && dp->next->value == v2`; `none` where it follows NULL.
abbrev pub matches : (ℕ → Symbol) → ℕ → ℕ → ℕ → Option Bool
matches cells a v1 v2 = elim ((cells a).value == v1) [
  | false ↦ some false
  | true ↦ elim ((cells a).next) [ none ↦ none | some b ↦ some ((cells b).value == v2) ]
]

-- What the loop of digram_put finds: a free place, a match, neither, or a fault.
pub data Place : Type 0 where
  free : ℕ → Place
  taken full lost : Place

-- The results 0, 1 and -1 of digram_put.
pub data Put : Type 0 where
  inserted existing refused : Put

module _ (size : ℕ) where
  unfoldable pub init_digram_hash : M (Unit {0})
  init_digram_hash s =
      returns tt (record s { digram_table = λ i. if ltb i size then vacant else s.digram_table i })

  -- DIGRAM_HASH
  abbrev pub digram_hash : ℕ → ℕ → ℕ
  digram_hash v1 v2 = ((v1 * 37 + v2) % word) % size

  -- The loop of digram_get. Its index is back at the start after `size` rounds.
  unfoldable pub get_from : (ℕ → Symbol) → (ℕ → Slot) → (rounds index v1 v2 : ℕ) → Option (Option ℕ)
  get_from cells table zero index v1 v2 = some none
  get_from cells table (suc n) index v1 v2 = elim (table (index % size)) [
    | vacant ↦ some none
    | tombstone ↦ get_from cells table n (index + 1) v1 v2
    | entry a ↦ elim (matches cells a v1 v2) [
      | none ↦ none
      | some true ↦ some (some a)
      | some false ↦ get_from cells table n (index + 1) v1 v2
    ]
  ]

  unfoldable pub digram_get : ℕ → ℕ → M (Option ℕ)
  unfolding get_from
  digram_get v1 v2 s = elim (get_from s.storage s.digram_table size (digram_hash v1 v2) v1 v2) [
    | none ↦ faults
    | some r ↦ returns r s
  ]

  -- The loop of digram_delete: the place of the pointer.
  unfoldable pub place_from : (ℕ → Slot) → (rounds index a : ℕ) → Option ℕ
  place_from table zero index a = none
  place_from table (suc n) index a = elim (table (index % size)) [
    | vacant ↦ place_from table n (index + 1) a
    | tombstone ↦ place_from table n (index + 1) a
    | entry b ↦ elim (b == a) [
      | true ↦ some (index % size)
      | false ↦ place_from table n (index + 1) a
    ]
  ]

  -- Whether the digram was found and deleted: the results 0 and -1.
  unfoldable pub digram_delete : ℕ → M Bool
  unfolding place_from
  digram_delete a s = elim ((s.storage a).next) [
    | none ↦ faults
    | some b ↦
        elim (place_from s.digram_table size (digram_hash (s.storage a).value (s.storage b).value)
          a) [
            | none ↦ returns false s
            | some i ↦ returns true (record s { digram_table = update s.digram_table i tombstone })
          ]
  ]

  -- The loop of digram_put.
  unfoldable pub free_from : (ℕ → Symbol) → (ℕ → Slot) → (rounds index v1 v2 : ℕ) → Place
  free_from cells table zero index v1 v2 = full
  free_from cells table (suc n) index v1 v2 = elim (table (index % size)) [
    | vacant ↦ free (index % size)
    | tombstone ↦ free (index % size)
    | entry a ↦ elim (matches cells a v1 v2) [
      | none ↦ lost
      | some true ↦ taken
      | some false ↦ free_from cells table n (index + 1) v1 v2
    ]
  ]

  abbrev pub put_at : Place → ℕ → M Put
  put_at (free i) a s =
      returns inserted (record s { digram_table = update s.digram_table i (entry a) })
  put_at taken a s = returns existing s
  put_at full a s = returns refused s
  put_at lost a s = faults

  unfoldable pub digram_put : ℕ → M Put
  unfolding free_from
  digram_put a s = elim ((s.storage a).next) [
    | none ↦ returns refused s
    | some b ↦
        let v1 = (s.storage a).value in
        let v2 = (s.storage b).value in
        put_at (free_from s.storage s.digram_table size (digram_hash v1 v2) v1 v2) a s
  ]
