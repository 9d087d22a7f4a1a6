-- ===== src/Sequitur/Compress.antt =====
-- HW1-Compression-Decompression-Utility/src/comdec.c: compress. `size` is MAX_DIGRAMS, `depth` bounds
-- the recursion of check_digram, `steps` the length of a list of symbols or rules.
pub mod Counts
use system_fundamentals_ii_c.Prelude.{
  List, [], false, length, none, suc, true, zero, ℕ, ◌++◌, ◌+◌, ◌==◌, ◌∷◌,
}
use system_fundamentals_ii_c.Sequitur.Algorithm.{check_digram, insert_after}
use system_fundamentals_ii_c.Sequitur.Digrams.{init_digram_hash}
use system_fundamentals_ii_c.Sequitur.Memory.{
  M, deref, init_symbols, load, new_symbol, out_of_fuel, points_to, pure, returns, ◌>>=◌, ◌>>◌,
}
use system_fundamentals_ii_c.Sequitur.Rules.{add_rule, init_rules, new_rule}
use system_fundamentals_ii_c.Sequitur.Utf.{write_utf}

-- The marks of a transmission.
abbrev pub start_of_transmission : ℕ
start_of_transmission = 0x81

abbrev pub end_of_transmission : ℕ
end_of_transmission = 0x82

abbrev pub start_of_block : ℕ
start_of_block = 0x83

abbrev pub end_of_block : ℕ
end_of_block = 0x84

abbrev pub rule_delimiter : ℕ
rule_delimiter = 0x85

-- What was counted and written, one part after the other.
abbrev pub then_write : ℕ × List ℕ → ℕ × List ℕ → ℕ × List ℕ
then_write (n, xs) (m, ys) = (n + m, xs ++ ys)

-- `fputc(mark, out); count++;`
abbrev pub mark : ℕ → ℕ × List ℕ
mark c = (1, c ∷ [])

-- The inner loop: the symbols from `rp` on, until the head `mrp` is reached.
unfoldable pub write_rule : (steps rp mrp : ℕ) → M (ℕ × List ℕ)
unfolding write_utf
write_rule zero rp mrp = out_of_fuel
write_rule (suc f) rp mrp = do
  t ← load rp
  n ← deref t.next
  elim (n == mrp) [
    | true ↦ pure (write_utf t.value)
    | false ↦ do rest ← write_rule f n mrp; pure (then_write (write_utf t.value) rest)
  ]

-- The outer loop: the rules from `mrp` on.
unfoldable pub write_rules : (steps rules mrp : ℕ) → M (ℕ × List ℕ)
unfolding write_rule
write_rules steps zero mrp = out_of_fuel
write_rules steps (suc f) mrp = do
  body ← write_rule steps mrp mrp
  t ← load mrp
  n ← deref t.nextr
  last ← λ s. returns (points_to s.main_rule n) s
  elim last [
    | true ↦ pure body
    | false ↦ do
      rest ← write_rules steps f n
      pure (then_write body (then_write (mark rule_delimiter) rest))
  ]

-- main_rule, which must not be NULL where it is followed
abbrev pub main : M ℕ
main s = deref s.main_rule s

module _ (size depth : ℕ) where
  -- The loop that reads a block of at most `rounds` bytes.
  unfoldable pub read_block : (rounds : ℕ) → List ℕ → M (List ℕ)
  unfolding new_symbol insert_after check_digram
  read_block zero input = pure input
  read_block (suc k) [] = pure []
  read_block (suc k) (b ∷ input) = do
    a ← new_symbol b none
    m ← main
    h ← load m
    last ← deref h.prev
    insert_after size last a
    w ← main
    g ← load w
    q ← deref g.prev
    t ← load q
    p ← deref t.prev
    check_digram size depth p
    read_block k input

  -- One block: the rules are built, then written.
  abbrev compress_block : (steps bsize : ℕ) → List ℕ → M (ℕ × List ℕ × List ℕ)
  compress_block steps bsize input = do
    init_symbols
    init_rules
    init_digram_hash size
    v ← λ s.
        returns s.next_nonterminal_value
          (record s { next_nonterminal_value = s.next_nonterminal_value + 1 })
    mr ← new_rule v
    a ← deref mr
    add_rule a
    rest ← read_block bsize input
    m ← main
    rules ← write_rules steps steps m
    let (n, out) = then_write (mark start_of_block) (then_write rules (mark end_of_block)) in
        pure (n, out, rest)

  -- The blocks: `fuel` bounds their number.
  unfoldable pub compress_blocks : (fuel steps bsize : ℕ) → List ℕ → M (ℕ × List ℕ)
  unfolding init_symbols init_rules init_digram_hash new_rule add_rule read_block write_rules
  compress_blocks fuel steps bsize [] = pure (0, [])
  compress_blocks zero steps bsize (b ∷ input) = out_of_fuel
  compress_blocks (suc f) steps bsize (b ∷ input) =
      compress_block steps bsize (b ∷ input) >>= λ (n, out, rest).
      compress_blocks f steps bsize rest >>= λ more. pure (then_write (n, out) more)

  -- compress: what it returns and what it writes. `count` starts at 2.
  unfoldable pub compress : (steps bsize : ℕ) → List ℕ → M (ℕ × List ℕ)
  unfolding compress_blocks
  compress steps bsize input = do
    blocks ← compress_blocks (length input) steps bsize input
    pure (
        then_write (2, start_of_transmission ∷ [])
          (then_write blocks (0, end_of_transmission ∷ [])))
