-- ===== src/Sequitur/Decompress/Counts.antt =====
-- expand and decompress of comdec.c return the number of the bytes that they write.
use system_fundamentals_ii_c.Prelude.{
  List, Option, [], arith, length, length-append, none, refl, some, subst, suc, zero, ℕ, ◌==◌, ◌≡◌,
}
use system_fundamentals_ii_c.Sequitur.Compress.{
  end_of_block, end_of_transmission, start_of_block, start_of_transmission,
}
use system_fundamentals_ii_c.Sequitur.Compress.Counts.{Counted, Counted-then_write}
use system_fundamentals_ii_c.Sequitur.Decompress.{
  add_block, decompress, end_blocks, enter_rule, expand, expand_from, expand_symbol, is_mark,
  next_block, read_block_body, read_blocks, read_rules, rule_at,
}
use system_fundamentals_ii_c.Sequitur.Memory.{
  M, Memory, deref, init_symbols, pure, returns, ◌>>=◌, ◌>>◌,
}
use system_fundamentals_ii_c.Sequitur.Memory.Yields.{Yields, Yields-bind, Yields-rest, Yields-split}
use system_fundamentals_ii_c.Sequitur.Rules.{init_rules}
use system_fundamentals_ii_c.Sequitur.Utf.{get_utf}

enter_rule-Counted :
    (v : ℕ) (walk : ℕ → ℕ → M (ℕ × List ℕ)) (s : Memory)
    → ((q r : ℕ) (t : Memory) → Yields Counted (walk q r t))
    → Yields Counted (enter_rule v walk s)
enter_rule-Counted v walk s h = Yields-rest Counted (rule_at v) _ s λ found t.
    Yields-rest Counted (deref found) _ t
      λ r u. Yields-rest Counted (deref (u.storage r).next) _ u λ q w. h q r w

-- What expand writes for one symbol.
symbol-Counted :
    (rule : Option ℕ) (v : ℕ) (walk : ℕ → ℕ → M (ℕ × List ℕ)) (s : Memory)
    → ((q r : ℕ) (t : Memory) → Yields Counted (walk q r t))
    → Yields Counted (expand_symbol rule v walk s)
symbol-Counted none v walk s h = refl
symbol-Counted (some r) v walk s h = enter_rule-Counted v walk s h

expand_from-Counted : (fuel p rule : ℕ) (s : Memory) → Yields Counted (expand_from fuel p rule s)
unfolding expand_from
expand_from-Counted zero p rule s = tt
expand_from-Counted (suc f) p rule s = Yields-split Counted (p == rule) (pure (0, [])) _ s refl (
    Yields-bind Counted Counted
      (expand_symbol (s.storage p).rule (s.storage p).value (expand_from f)) _ s
      (symbol-Counted (s.storage p).rule (s.storage p).value (expand_from f) s
        (λ q r t. expand_from-Counted f q r t))
      λ first t h. Yields-rest Counted (deref (s.storage p).next) _ t λ n u.
        Yields-bind Counted Counted (expand_from f n rule) _ u (expand_from-Counted f n rule u)
          λ rest v k. Counted-then_write first rest h k)

expand-Counted : (fuel : ℕ) (rule : Option ℕ) (s : Memory) → Yields Counted (expand fuel rule s)
unfolding expand
expand-Counted fuel rule s =
    Yields-rest Counted (deref rule) _ s λ r t.
      Yields-rest Counted (deref (t.storage r).next) _ t λ q u. expand_from-Counted fuel q r u

-- What is expanded in a block, and in all blocks; an error counts nothing.
abbrev Expanded : Option (ℕ × List ℕ × List ℕ) → Type 0
Expanded none = Unit
Expanded (some (n, out, rest)) = n ≡ length out

abbrev Blocks : Option (Option ℕ × ℕ × List ℕ) → Type 0
Blocks none = Unit
Blocks (some (b, n, out)) = n ≡ length out

abbrev Result : Option (ℕ × List ℕ) → Type 0
Result none = Unit
Result (some (n, out)) = n ≡ length out

add_block-Blocks :
    (n : ℕ) (out : List ℕ) (tail : Option (Option ℕ × ℕ × List ℕ))
    → n ≡ length out
    → Blocks tail
    → Blocks (add_block n out tail)
add_block-Blocks n out none h k = tt
add_block-Blocks n out (some (e, m, written)) h k = omega (arith, length-append out written)

next_block-Blocks :
    (walk : Option ℕ → List ℕ → M (Option (Option ℕ × ℕ × List ℕ)))
    (r : Option (ℕ × List ℕ × List ℕ)) (s : Memory)
    → ((b : Option ℕ) (input : List ℕ) (t : Memory) → Yields Blocks (walk b input t))
    → Expanded r
    → Yields Blocks (next_block walk r s)
next_block-Blocks walk none s h k = tt
next_block-Blocks walk (some (n, out, left)) s h k =
    Yields-bind Blocks Blocks (walk (get_utf left).0 (get_utf left).1) _ s
      (h (get_utf left).0 (get_utf left).1 s) λ tail t j. add_block-Blocks n out tail k j

end_blocks-Result :
    (r : Option (Option ℕ × ℕ × List ℕ)) (s : Memory) → Blocks r → Yields Result (end_blocks r s)
end_blocks-Result none s h = tt
end_blocks-Result (some (d, n, out)) s h =
    Yields-split Result (is_mark d end_of_transmission) (pure (some (n, out))) (pure none) s h tt

module _ (junk : Memory → Option ℕ) where
  read_block_body-Expanded :
      (fuel work : ℕ) (b : Option ℕ) (input : List ℕ) (s : Memory)
      → Yields Expanded (read_block_body junk fuel work b input s)
  read_block_body-Expanded fuel work b input s =
      Yields-split Expanded (is_mark b end_of_block) (pure (some (0, [], input))) _ s refl
        (Yields-rest Expanded (read_rules junk fuel b input) _ s rules_Block)
    where
      rules_Block :
          (r : Option (List ℕ)) (t : Memory)
          → Yields Expanded (
              (elim r as (λ _. M (Option (ℕ × List ℕ × List ℕ))) [
                | none ↦ pure none
                | some rest ↦ do
                  m ← λ u. returns u.main_rule u
                  expanded ← expand work m
                  let (n, out) = expanded in pure (some (n, out, rest))
              ])
                t)
      rules_Block none t = tt
      rules_Block (some rest) t =
          Yields-bind Counted Expanded (expand work t.main_rule) _ t
            (expand-Counted work t.main_rule t) λ expanded u h. h

  read_blocks-Blocks :
      (fuel work : ℕ) (b : Option ℕ) (input : List ℕ) (s : Memory)
      → Yields Blocks (read_blocks junk fuel work b input s)
  unfolding read_blocks
  read_blocks-Blocks zero work b input s = tt
  read_blocks-Blocks (suc f) work none input s = refl
  read_blocks-Blocks (suc f) work (some v) input s =
      Yields-split Blocks (v == end_of_transmission) (pure (some (some v, 0, []))) _ s refl (
        Yields-split Blocks (v == start_of_block) _
          (read_blocks junk f work (get_utf input).0 (get_utf input).1) s
          (Yields-bind Expanded Blocks
            (init_symbols
              >> init_rules
              >> (read_block_body junk (suc f) work (get_utf input).0 (get_utf input).1))
            (next_block (read_blocks junk f work)) s
            (Yields-rest Expanded (init_symbols >> init_rules)
              (λ _. read_block_body junk (suc f) work (get_utf input).0 (get_utf input).1) s
              λ _ t. read_block_body-Expanded (suc f) work (get_utf input).0 (get_utf input).1 t)
            λ r t h.
              next_block-Blocks (read_blocks junk f work) r t
                (λ b more u. read_blocks-Blocks f work b more u) h)
          (read_blocks-Blocks f work (get_utf input).0 (get_utf input).1 s))

  decompress-Result :
      (work : ℕ) (input : List ℕ) (s : Memory) → Yields Result (decompress junk work input s)
  unfolding decompress
  decompress-Result work input s =
      Yields-split Result (is_mark (get_utf input).0 start_of_transmission) _ (pure none) s
        (Yields-bind Blocks Result
          (read_blocks junk (suc (length input)) work (get_utf (get_utf input).1).0
            (get_utf (get_utf input).1).1)
          end_blocks s
          (read_blocks-Blocks (suc (length input)) work (get_utf (get_utf input).1).0
            (get_utf (get_utf input).1).1 s)
          end_blocks-Result)
        tt

  -- If decompress returns a number, and not EOF, then it is the number of the bytes that it has
  -- written, whatever the input is and whatever the uninitialised variable holds.
  pub decompress_count :
      (work n : ℕ) (input out : List ℕ) (s t : Memory)
      → decompress junk work input s ≡ returns (some (n, out)) t
      → n ≡ length out
  decompress_count work n input out s t e =
      subst (λ o. Yields Result o) e (decompress-Result work input s)
