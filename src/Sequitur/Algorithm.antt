-- ===== src/Sequitur/Algorithm.antt =====
-- HW1-Compression-Decompression-Utility/src/sequitur.c: the core of the algorithm. `size` is
-- MAX_DIGRAMS; the fuel of check_digram bounds the depth of its recursion.
use system_fundamentals_ii_c.Prelude.{
  Bool, Option, false, leb, ltb, none, some, suc, true, zero, ℕ, ◌&&◌, ◌+◌, ◌==◌,
}
use system_fundamentals_ii_c.Pbx.Hangup.{left}
use system_fundamentals_ii_c.Sequitur.Digrams.{digram_delete, digram_get, digram_put}
use system_fundamentals_ii_c.Sequitur.Memory.{
  M, abort, deref, first_nonterminal, is_rule_head, load, new_symbol, out_of_fuel, points_to, pure,
  recycle_symbol, returns, set_next, set_prev, ◌>>=◌, ◌>>◌,
}
use system_fundamentals_ii_c.Sequitur.Rules.{add_rule, delete_rule, new_rule, unref_rule}

module _ (size : ℕ) where
  -- Whether a symbol and its two neighbours have one value: the conditions on triples of
  -- join_symbols.
  abbrev is_triple : ℕ → M Bool
  is_triple a s = elim ((s.storage a).prev) [
    | none ↦ returns false s
    | some p ↦ elim ((s.storage a).next) [
      | none ↦ returns false s
      | some n ↦
          let v = (s.storage a).value in
          returns (v == (s.storage p).value && v == (s.storage n).value) s
    ]
  ]

  abbrev put_triple : ℕ → M (Unit {0})
  put_triple a =
      is_triple a >>= λ b. elim b [ true ↦ digram_put size a >> pure tt | false ↦ pure tt ]

  -- What breaking the link from `a` does to the table.
  abbrev break_link : Option ℕ → ℕ → ℕ → M (Unit {0})
  break_link none a n = pure tt
  break_link (some _) a n = do digram_delete size a; put_triple n; put_triple a

  unfoldable pub join_symbols : ℕ → ℕ → M (Unit {0})
  unfolding digram_delete digram_put
  join_symbols a n = do t ← load a; break_link t.next a n; set_next a (some n); set_prev n (some a)

  unfoldable pub insert_after : ℕ → ℕ → M (Unit {0})
  unfolding join_symbols
  insert_after a n = do t ← load a; old ← deref t.next; join_symbols n old; join_symbols a n

  -- `if(IS_NONTERMINAL(this)) unref_rule(this->rule);`
  abbrev unref_symbol : ℕ → M (Unit {0})
  unref_symbol a = load a >>= λ t. elim (leb first_nonterminal t.value) [
    | true ↦ deref t.rule >>= λ r. unref_rule r
    | false ↦ pure tt
  ]

  unfoldable pub delete_symbol : ℕ → M (Unit {0})
  unfolding join_symbols unref_rule recycle_symbol
  delete_symbol a = is_rule_head a >>= λ head. elim head [
    | true ↦ abort
    | false ↦ do
      t ← load a
      p ← deref t.prev
      n ← deref t.next
      join_symbols p n
      digram_delete size a
      unref_symbol a
      recycle_symbol a
  ]

  unfoldable pub expand_instance : ℕ → M (Unit {0})
  unfolding join_symbols unref_rule recycle_symbol delete_rule
  expand_instance a = do
    t ← load a
    rule ← deref t.rule
    h ← load rule
    elim (h.refcnt == 1) [
      | false ↦ abort
      | true ↦ do
        left ← deref t.prev
        right ← deref t.next
        first ← deref h.next
        last ← deref h.prev
        digram_delete size a
        join_symbols left first
        join_symbols last right
        set_prev rule none
        set_next rule none
        recycle_symbol a
        unref_rule rule
        delete_rule rule
    ]

  -- `check` is check_digram.
  unfoldable pub replace_digram : (ℕ → M Bool) → ℕ → ℕ → M (Unit {0})
  unfolding delete_symbol insert_after new_symbol
  replace_digram check a rule = do
    t ← load a
    p ← deref t.prev
    u ← load p
    x ← deref u.next
    delete_symbol x
    w ← load p
    y ← deref w.next
    delete_symbol y
    h ← load rule
    new ← new_symbol h.value (some rule)
    insert_after p new
    replaced ← check p
    elim replaced [ true ↦ pure tt | false ↦ do v ← load p; n ← deref v.next; check n; pure tt ]

  -- Whether the digram at `m` is the whole body of a rule.
  abbrev is_body : ℕ → M Bool
  is_body m = do
    t ← load m
    p ← deref t.prev
    first ← is_rule_head p
    elim first [
      | false ↦ pure false
      | true ↦ do n ← deref t.next; u ← load n; e ← deref u.next; is_rule_head e
    ]

  -- `insert_after(rule->prev, new_symbol(s->value, s->rule))`
  abbrev append_copy : ℕ → ℕ → M (Unit {0})
  append_copy rule a = do
    t ← load a
    new ← new_symbol t.value t.rule
    h ← load rule
    last ← deref h.prev
    insert_after last new

  -- The rule that replaces the digram: the one that `m` is the body of, or a new one.
  abbrev matching_rule : (ℕ → M Bool) → Bool → ℕ → ℕ → M ℕ
  matching_rule check true a m = do
    t ← load m
    p ← deref t.prev
    u ← load p
    rule ← deref u.rule
    replace_digram check a rule
    pure rule
  matching_rule check false a m = do
    v ← λ s.
        returns s.next_nonterminal_value
          (record s { next_nonterminal_value = s.next_nonterminal_value + 1 })
    head ← new_rule v
    rule ← deref head
    add_rule rule
    append_copy rule a
    t ← load a
    n ← deref t.next
    append_copy rule n
    replace_digram check m rule
    replace_digram check a rule
    h ← load rule
    first ← deref h.next
    digram_put size first
    pure rule

  -- The check for a rule that is used once.
  abbrev check_utility : ℕ → M (Unit {0})
  check_utility rule = do
    h ← load rule
    first ← deref h.next
    t ← load first
    elim t.rule [
      | none ↦ pure tt
      | some r ↦ load r >>= λ u. elim (ltb u.refcnt 2) [
        | false ↦ pure tt
        | true ↦ elim (u.refcnt == 0) [ true ↦ abort | false ↦ expand_instance first ]
      ]
    ]

  unfoldable pub process_match : (ℕ → M Bool) → ℕ → ℕ → M (Unit {0})
  unfolding replace_digram new_rule add_rule expand_instance insert_after new_symbol digram_put
  process_match check a m = do
    whole ← is_body m
    rule ← matching_rule check whole a m
    check_utility rule

  -- check_digram from the lookup on; `n` is the second symbol.
  abbrev check_match : (ℕ → M Bool) → ℕ → Option ℕ → M Bool
  check_match check a none = digram_put size a >> pure false
  check_match check a (some m) = load m >>= λ t. elim (points_to t.next a) [
    | true ↦ pure false
    | false ↦ process_match check a m >> pure true
  ]

  unfoldable pub check_digram : (fuel : ℕ) → ℕ → M Bool
  unfolding process_match digram_get digram_put
  check_digram zero a = out_of_fuel
  check_digram (suc f) a = do
    head ← is_rule_head a
    elim head [
      | true ↦ pure false
      | false ↦ do
        t ← load a
        n ← deref t.next
        last ← is_rule_head n
        elim last [
          | true ↦ pure false
          | false ↦ do
            u ← load n
            m ← digram_get size t.value u.value
            check_match (check_digram f) a m
        ]
    ]
