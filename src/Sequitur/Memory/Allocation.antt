-- ===== src/Sequitur/Memory/Allocation.antt =====
-- What new_symbol and recycle_symbol of symbol.c do to the memory.
use system_fundamentals_ii_c.Prelude.{
  Option, arith, if◌then◌else◌, leb, none, some, ℕ, ◌%◌, ◌+◌, ◌↔◌, ◌≡◌, ◌≢◌,
}
use system_fundamentals_ii_c.Sequitur.Memory.{
  Memory, aborts, after, first_nonterminal, max_symbols, new_symbol, recycle_symbol, returns, word,
}

-- recycle_symbol, then new_symbol: the symbol that was recycled last comes back with the new value,
-- the stack of recycled symbols is what it was before, and every other symbol is unchanged.
new_symbol-recycle_symbol :
    (a v : ℕ) (r : Option ℕ) (s t : Memory)
    → recycle_symbol a s ≡ returns tt t
    → (u : Memory) × (new_symbol v r t ≡ returns a u)
      × (u.recycled_symbols ≡ s.recycled_symbols)
      × (u.num_symbols ≡ s.num_symbols)
      × ((u.storage a).value ≡ v)
      × ((b : ℕ) → b ≢ a → u.storage b ≡ s.storage b)
unfolding recycle_symbol new_symbol
new_symbol-recycle_symbol a v r s t e = (
  after t (new_symbol v r t),
  ground (arith, e),
  ground (arith, e),
  ground (arith, e),
  ground (arith, e),
  λ b ne. ground (arith, e, ne),
)

-- new_symbol with a rule does not touch the rule, so that the reference count of the rule does not
-- grow: the count that grows is that of the new symbol, where its value is a nonterminal.
new_symbol-refcnt :
    (a v r : ℕ) (s t : Memory)
    → r ≢ a
    → new_symbol v (some r) s ≡ returns a t
    → (t.storage r ≡ s.storage r)
      × ((t.storage a).refcnt ≡ (
          if leb first_nonterminal v
          then elim (s.recycled_symbols) [ none ↦ ((s.storage a).refcnt + 1) % word | some _ ↦ 1 ]
          else elim (s.recycled_symbols) [ none ↦ (s.storage a).refcnt | some _ ↦ 0 ]))
unfolding new_symbol
new_symbol-refcnt a v r s t ne e = ground arith

-- new_symbol calls abort() exactly if no symbol is recycled and all MAX_SYMBOLS are in use.
pub new_symbol_aborts :
    (v : ℕ) (r : Option ℕ) (s : Memory)
    → (new_symbol v r s ≡ aborts) ↔ ((s.recycled_symbols ≡ none) × (s.num_symbols ≡ max_symbols))
unfolding new_symbol
new_symbol_aborts v r s = ground arith
