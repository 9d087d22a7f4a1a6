-- ===== src/Sequitur/Decompress.antt =====
-- HW1-Compression-Decompression-Utility/src/comdec.c: expand and decompress. `fuel` bounds the work
-- of expand; every other loop reads, so that the length of the input bounds it.
pub mod Counts
use system_fundamentals_ii_c.Prelude.{
  Bool, List, Option, [], false, length, ltb, none, some, suc, true, zero, ℕ, ◌++◌, ◌+◌, ◌==◌, ◌||◌,
  ◌∷◌,
}
use system_fundamentals_ii_c.Sequitur.Compress.{
  end_of_block, end_of_transmission, rule_delimiter, start_of_block, start_of_transmission,
  then_write,
}
use system_fundamentals_ii_c.Sequitur.Memory.{
  M, Memory, deref, faults, init_symbols, load, max_symbols, new_symbol, out_of_fuel, pure, returns,
  set_next, set_prev, update, ◌>>=◌, ◌>>◌,
}
use system_fundamentals_ii_c.Sequitur.Rules.{add_rule, init_rules, new_rule}
use system_fundamentals_ii_c.Sequitur.Utf.{fputc, get_utf}

-- `*(rule_map + value)`: an index outside of the array is an access to other memory.
abbrev pub rule_at : ℕ → M (Option ℕ)
rule_at v s = elim (ltb v max_symbols) [ true ↦ returns (s.rule_map v) s | false ↦ faults ]

-- `expand(*(rule_map + value), out)`: what `walk` does from the first symbol of the rule on.
abbrev pub enter_rule : ℕ → (ℕ → ℕ → M (ℕ × List ℕ)) → M (ℕ × List ℕ)
enter_rule v walk = do found ← rule_at v; r ← deref found; h ← load r; q ← deref h.next; walk q r

-- One symbol: a terminal is written, a nonterminal is expanded.
abbrev pub expand_symbol : Option ℕ → ℕ → (ℕ → ℕ → M (ℕ × List ℕ)) → M (ℕ × List ℕ)
expand_symbol none v walk = pure (1, fputc v ∷ [])
expand_symbol (some _) v walk = enter_rule v walk

-- The loop of expand, at the symbol `p` of the rule `rule`.
unfoldable pub expand_from : (fuel p rule : ℕ) → M (ℕ × List ℕ)
expand_from zero p rule = out_of_fuel
expand_from (suc f) p rule = elim (p == rule) [
  | true ↦ pure (0, [])
  | false ↦ do
    t ← load p
    first ← expand_symbol t.rule t.value (expand_from f)
    n ← deref t.next
    rest ← expand_from f n rule
    pure (then_write first rest)
]

unfoldable pub expand : (fuel : ℕ) → Option ℕ → M (ℕ × List ℕ)
unfolding expand_from
expand fuel rule = do r ← deref rule; h ← load r; q ← deref h.next; expand_from fuel q r

-- The tests `b == ...`, where `b` may be EOF.
abbrev pub is_mark : Option ℕ → ℕ → Bool
is_mark none c = false
is_mark (some b) c = b == c

abbrev pub is_end : Option ℕ → Bool
is_end none = true
is_end (some b) = false

-- `b == EOF || b == eot || b == sot || b == sob`
abbrev pub is_foreign : Option ℕ → Bool
is_foreign b =
    is_end b
    || is_mark b end_of_transmission
    || is_mark b start_of_transmission
    || is_mark b start_of_block

abbrev set_map : ℕ → ℕ → M (Unit {0})
set_map v a s = elim (ltb v max_symbols) [
  | true ↦ returns tt (record s { rule_map = update s.rule_map v (some a) })
  | false ↦ faults
]

-- What a block counted and wrote, in front of what the later blocks did.
abbrev pub add_block : ℕ → List ℕ → Option (Option ℕ × ℕ × List ℕ) → Option (Option ℕ × ℕ × List ℕ)
add_block n out none = none
add_block n out (some (e, m, written)) = some (e, n + m, out ++ written)

-- Behind a block, the loop `walk` goes on with the next value.
abbrev pub next_block :
    (Option ℕ → List ℕ → M (Option (Option ℕ × ℕ × List ℕ)))
    → Option (ℕ × List ℕ × List ℕ)
    → M (Option (Option ℕ × ℕ × List ℕ))
next_block walk none = pure none
next_block walk (some (n, out, left)) =
    let (d, more) = get_utf left in walk d more >>= λ tail. pure (add_block n out tail)

-- The end of decompress: the value that the loop stopped at must be the end of the transmission.
abbrev pub end_blocks : Option (Option ℕ × ℕ × List ℕ) → M (Option (ℕ × List ℕ))
end_blocks none = pure none
end_blocks (some (d, n, out)) = elim (is_mark d end_of_transmission) [
  | true ↦ pure (some (n, out))
  | false ↦ pure none
]

-- `junk` is what the variable rb holds before it is set: new_symbol gets it as the rule.
module _ (junk : Memory → Option ℕ) where
  -- A symbol at the end of the body of the rule `nr`.
  abbrev append_symbol : Option ℕ → ℕ → M (Unit {0})
  append_symbol nr v = do
    garbage ← λ s. returns (junk s) s
    rb ← new_symbol v garbage
    set_next rb nr
    head ← deref nr
    h ← load head
    set_prev rb h.prev
    g ← load head
    last ← deref g.prev
    set_next last (some rb)
    set_prev head (some rb)

  -- The loop that reads the body of a rule. The result `none` is an error.
  unfoldable pub read_body :
      (fuel : ℕ) → Option ℕ → Option ℕ → List ℕ → M (Option (Option ℕ × List ℕ))
  unfolding new_symbol get_utf
  read_body zero nr b input = out_of_fuel
  read_body (suc f) nr none input = pure none
  read_body (suc f) nr (some v) input = elim (v == rule_delimiter) [
    | true ↦ pure (some (some v, input))
    | false ↦ elim (is_foreign (some v)) [
      | true ↦ pure none
      | false ↦ elim (v == end_of_block) [
        | true ↦ pure (some (some v, input))
        | false ↦ do append_symbol nr v; let (c, rest) = get_utf input in read_body f nr c rest
      ]
    ]
  ]

  -- What follows the body of a rule.
  abbrev pub end_rule : ℕ → M (Unit {0})
  end_rule a = do add_rule a; t ← load a; set_map t.value a

  -- The loop that reads the rules of a block, up to its end.
  unfoldable pub read_rules : (fuel : ℕ) → Option ℕ → List ℕ → M (Option (List ℕ))
  unfolding new_rule add_rule read_body get_utf
  read_rules zero b input = out_of_fuel
  read_rules (suc f) none input = pure none
  read_rules (suc f) (some v) input = elim (v == end_of_block) [
    | true ↦ pure (some input)
    | false ↦ elim (v == rule_delimiter || is_foreign (some v)) [
      | true ↦ pure none
      | false ↦ new_rule v >>= λ nr.
          let (c, rest) = get_utf input in
          elim (is_mark c rule_delimiter || is_foreign c || is_mark c end_of_block) [
            | true ↦ pure none
            | false ↦ read_body (suc f) nr c rest >>= λ body. elim body [
              | none ↦ pure none
              | some (d, left) ↦ deref nr >>= λ a. end_rule a >> elim (is_mark d end_of_block) [
                | true ↦ pure (some left)
                | false ↦ let (e, more) = get_utf left in read_rules f e more
              ]
            ]
          ]
    ]
  ]

  -- A block behind its start: nothing where the end follows at once.
  abbrev pub read_block_body :
      (fuel work : ℕ) → Option ℕ → List ℕ → M (Option (ℕ × List ℕ × List ℕ))
  read_block_body fuel work b input = elim (is_mark b end_of_block) [
    | true ↦ pure (some (0, [], input))
    | false ↦ read_rules fuel b input >>= λ r. elim r [
      | none ↦ pure none
      | some rest ↦ do
        m ← λ s. returns s.main_rule s
        expanded ← expand work m
        let (n, out) = expanded in pure (some (n, out, rest))
    ]
  ]

  -- The loop over the blocks, up to the end of the transmission or of the input.
  unfoldable pub read_blocks :
      (fuel work : ℕ) → Option ℕ → List ℕ → M (Option (Option ℕ × ℕ × List ℕ))
  unfolding read_rules expand init_symbols init_rules get_utf
  read_blocks zero work b input = out_of_fuel
  read_blocks (suc f) work none input = pure (some (none, 0, []))
  read_blocks (suc f) work (some v) input = elim (v == end_of_transmission) [
    | true ↦ pure (some (some v, 0, []))
    | false ↦ elim (v == start_of_block) [
      | false ↦ let (c, rest) = get_utf input in read_blocks f work c rest
      | true ↦
          let (c, rest) = get_utf input in
          init_symbols >> init_rules >> read_block_body (suc f) work c rest >>= λ r.
          next_block (read_blocks f work) r
    ]
  ]

  -- decompress: the count and what is written, or `none` for EOF.
  unfoldable pub decompress : (work : ℕ) → List ℕ → M (Option (ℕ × List ℕ))
  unfolding read_blocks get_utf
  decompress work input =
      let (b, rest) = get_utf input in
      elim (is_mark b start_of_transmission) [
        | false ↦ pure none
        | true ↦
            let (c, more) = get_utf rest in
            read_blocks (suc (length input)) work c more >>= end_blocks
      ]
