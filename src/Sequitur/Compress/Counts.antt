-- ===== src/Sequitur/Compress/Counts.antt =====
-- compress and expand of comdec.c return the number of the bytes that they write.
use system_fundamentals_ii_c.Prelude.{
  List, [], arith, length, length-append, refl, subst, suc, zero, ℕ, ◌+◌, ◌==◌, ◌∷◌, ◌≡◌,
}
use system_fundamentals_ii_c.Sequitur.Compress.{
  compress, compress_block, compress_blocks, end_of_block, end_of_transmission, main, mark,
  read_block, rule_delimiter, start_of_block, then_write, write_rule, write_rules,
}
use system_fundamentals_ii_c.Sequitur.Digrams.{init_digram_hash}
use system_fundamentals_ii_c.Sequitur.Memory.{Memory, deref, init_symbols, points_to, pure, returns}
use system_fundamentals_ii_c.Sequitur.Memory.Yields.{Yields, Yields-bind, Yields-rest, Yields-split}
use system_fundamentals_ii_c.Sequitur.Rules.{add_rule, init_rules, new_rule}
use system_fundamentals_ii_c.Sequitur.Utf.{write_utf}
use system_fundamentals_ii_c.Sequitur.Utf.RoundTrip.{write_utf-length}

abbrev pub Counted : ℕ × List ℕ → Type 0
Counted (n, out) = n ≡ length out

pub Counted-then_write : (x y : ℕ × List ℕ) → Counted x → Counted y → Counted (then_write x y)
Counted-then_write (n, xs) (m, ys) h k = omega (arith, length-append xs ys)

write_rule-Counted : (steps rp mrp : ℕ) (s : Memory) → Yields Counted (write_rule steps rp mrp s)
unfolding write_rule
write_rule-Counted zero rp mrp s = tt
write_rule-Counted (suc f) rp mrp s =
    let symbol = write_utf (s.storage rp).value in
    let counted = write_utf-length (s.storage rp).value in
    Yields-rest Counted (deref (s.storage rp).next) _ s λ n t.
      Yields-split Counted (n == mrp) (pure symbol) _ t counted (
        Yields-bind Counted Counted (write_rule f n mrp) _ t (write_rule-Counted f n mrp t)
          λ rest u h. Counted-then_write symbol rest counted h)

write_rules-Counted :
    (steps rules mrp : ℕ) (s : Memory) → Yields Counted (write_rules steps rules mrp s)
unfolding write_rules
write_rules-Counted steps zero mrp s = tt
write_rules-Counted steps (suc f) mrp s =
    Yields-bind Counted Counted (write_rule steps mrp mrp) _ s (write_rule-Counted steps mrp mrp s)
      λ body t h. Yields-rest Counted (deref (t.storage mrp).nextr) _ t λ n u.
        Yields-split Counted (points_to u.main_rule n) (pure body) _ u h (
          Yields-bind Counted Counted (write_rules steps f n) _ u (write_rules-Counted steps f n u)
            λ rest v k.
              Counted-then_write body (then_write (mark rule_delimiter) rest) h
                (Counted-then_write (mark rule_delimiter) rest refl k))

abbrev Block : ℕ × List ℕ × List ℕ → Type 0
Block (n, out, rest) = n ≡ length out

module _ (size depth : ℕ) where
  compress_block-Block :
      (steps bsize : ℕ) (input : List ℕ) (s : Memory)
      → Yields Block (compress_block size depth steps bsize input s)
  compress_block-Block steps bsize input s = Yields-rest Block init_symbols _ s λ _ s1.
      Yields-rest Block init_rules _ s1 λ _ s2.
        Yields-rest Block (init_digram_hash size) _ s2 λ _ s3.
          Yields-rest Block (new_rule s3.next_nonterminal_value) _
            (record s3 { next_nonterminal_value = s3.next_nonterminal_value + 1 })
            λ mr s4. Yields-rest Block (deref mr) _ s4 λ a s5.
              Yields-rest Block (add_rule a) _ s5 λ _ s6.
                Yields-rest Block (read_block size depth bsize input) _ s6 λ rest s7.
                  Yields-rest Block main _ s7 λ m s8.
                    Yields-bind Counted Block (write_rules steps steps m) _ s8
                      (write_rules-Counted steps steps m s8)
                      λ rules s9 h.
                        Counted-then_write (mark start_of_block)
                          (then_write rules (mark end_of_block)) refl
                          (Counted-then_write rules (mark end_of_block) h refl)

  compress_blocks-Counted :
      (fuel steps bsize : ℕ) (input : List ℕ) (s : Memory)
      → Yields Counted (compress_blocks size depth fuel steps bsize input s)
  unfolding compress_blocks
  compress_blocks-Counted fuel steps bsize [] s = ground arith
  compress_blocks-Counted zero steps bsize (b ∷ input) s = tt
  compress_blocks-Counted (suc f) steps bsize (b ∷ input) s =
      Yields-bind Block Counted (compress_block size depth steps bsize (b ∷ input)) _ s
        (compress_block-Block steps bsize (b ∷ input) s)
        λ (n, out, rest) t h.
          Yields-bind Counted Counted (compress_blocks size depth f steps bsize rest) _ t
            (compress_blocks-Counted f steps bsize rest t)
            λ more u k. Counted-then_write (n, out) more h k

  compress-Counted :
      (steps bsize : ℕ) (input : List ℕ) (s : Memory)
      → Yields Counted (compress size depth steps bsize input s)
  unfolding compress
  compress-Counted steps bsize input s =
      Yields-bind Counted Counted (compress_blocks size depth (length input) steps bsize input) _ s
        (compress_blocks-Counted (length input) steps bsize input s)
        λ blocks t h. omega (arith, h, length-append blocks.1 (end_of_transmission ∷ []))

  -- What compress returns is the number of the bytes that it has written, whatever the input, the
  -- block size and the memory it starts in.
  pub compress_count :
      (steps bsize n : ℕ) (input out : List ℕ) (s t : Memory)
      → compress size depth steps bsize input s ≡ returns (n, out) t
      → n ≡ length out
  compress_count steps bsize n input out s t e =
      subst (λ o. Yields Counted o) e (compress-Counted steps bsize input s)
