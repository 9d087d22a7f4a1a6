-- ===== src/Sequitur/Rules.antt =====
-- HW1-Compression-Decompression-Utility/src/rules.c: the rules and the list of all rules.
pub mod Ring
use system_fundamentals_ii_c.Prelude.{
  Option, false, if◌then◌else◌, leb, ltb, none, some, true, ℕ, ◌%◌, ◌+◌, ◌-◌, ◌==◌,
}
use system_fundamentals_ii_c.Sequitur.Memory.{
  M, deref, first_nonterminal, load, max_symbols, new_symbol, pure, recycle_symbol, returns,
  set_next, set_nextr, set_prev, set_prevr, set_refcnt, set_rule, word, ◌>>=◌, ◌>>◌,
}

unfoldable pub init_rules : M (Unit {0})
init_rules s = returns tt (record s {
  main_rule = none;
  rule_map = λ i. if ltb i max_symbols then none else s.rule_map i;
})

-- new_rule: NULL for the value of a terminal.
unfoldable pub new_rule : ℕ → M (Option ℕ)
unfolding new_symbol
new_rule v = elim (leb first_nonterminal v) [
  | true ↦ do
    a ← new_symbol v none
    set_prev a (some a)
    set_next a (some a)
    set_rule a (some a)
    pure (some a)
  | false ↦ pure none
]

abbrev set_main_rule : ℕ → M (Unit {0})
set_main_rule a s = returns tt (record s { main_rule = some a })

-- The rule becomes the main rule, or the last of the list.
abbrev append_rule : Option ℕ → ℕ → M (Unit {0})
append_rule none a = do set_main_rule a; set_prevr a (some a); set_nextr a (some a)
append_rule (some m) a = do
  t ← load m
  set_prevr a t.prevr
  set_nextr a (some m)
  u ← load m
  p ← deref u.prevr
  set_nextr p (some a)
  set_prevr m (some a)

unfoldable pub add_rule : ℕ → M (Unit {0})
add_rule a s = append_rule s.main_rule a s

unfoldable pub delete_rule : ℕ → M (Unit {0})
unfolding recycle_symbol
delete_rule a = do
  t ← load a
  p ← deref t.prevr
  set_nextr p t.nextr
  u ← load a
  n ← deref u.nextr
  set_prevr n u.prevr
  w ← load a
  elim (w.refcnt == 0) [ true ↦ recycle_symbol a | false ↦ pure tt ]

pub ref_rule : ℕ → M ℕ
ref_rule a = do t ← load a; set_refcnt a ((t.refcnt + 1) % word); pure a

-- unref_rule. The count is an unsigned int, so that `refcnt - 1 < 0` never holds: at 0 it wraps.
unfoldable pub unref_rule : ℕ → M (Unit {0})
unref_rule a = do t ← load a; set_refcnt a ((t.refcnt + (word - 1)) % word)
