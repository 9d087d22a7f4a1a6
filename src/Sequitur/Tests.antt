-- ===== src/Sequitur/Tests.antt =====
-- Examples for the compression utility: each theorem at a concrete memory, and runs.
use system_fundamentals_ii_c.Prelude.{
  List, Option, [], arith, codes, none, refl, some, suc, zero, ℕ, ◌++◌, ◌+◌, ◌∷◌, ◌≡◌,
}
use system_fundamentals_ii_c.Sequitur.Compress.{compress}
use system_fundamentals_ii_c.Sequitur.Decompress.{decompress}
use system_fundamentals_ii_c.Sequitur.Digrams.{
  digram_get, digram_hash, digram_put, free_from, get_from,
}
use system_fundamentals_ii_c.Sequitur.Digrams.Lookup.{digram_get-digram_put}
use system_fundamentals_ii_c.Sequitur.Memory.{
  Memory, Outcome, Symbol, aborts, after, entry, faults, returns, tombstone, unfinished, update,
  vacant,
}
use system_fundamentals_ii_c.Sequitur.Rules.{add_rule}
use system_fundamentals_ii_c.Sequitur.Rules.Ring.{HasRules, add_rule-HasRules}
use system_fundamentals_ii_c.Sequitur.Utf.{get_utf, write_utf}
use system_fundamentals_ii_c.Sequitur.Utf.RoundTrip.{get_utf-write_utf}

abbrev blank : Symbol
blank = record {
  value = 0;
  refcnt = 0;
  rule = none;
  next = none;
  prev = none;
  nextr = none;
  prevr = none;
}

abbrev fresh : Memory
fresh = record {
  storage = λ i. blank;
  num_symbols = 0;
  recycled_symbols = none;
  next_nonterminal_value = 256;
  main_rule = none;
  rule_map = λ i. none;
  digram_table = λ i. vacant;
}

-- The result of a call, without the memory.
abbrev result {ℓ} : {A : Type ℓ} → Outcome A → Option A
result (returns x _) = some x
result faults = none
result aborts = none
result unfinished = none

-- Two symbols in a row, with the values 97 and 98, as the symbols 0 and 1; symbols 2 and 3 are the
-- same digram again.
abbrev of_value : ℕ → ℕ → Symbol
of_value v n = record blank { value = v; next = some n }

abbrev twice : Memory
twice = record fresh {
  storage = λ i. elim i [
    | zero ↦ of_value 97 1
    | suc zero ↦ of_value 98 2
    | suc (suc zero) ↦ of_value 97 3
    | _ ↦ of_value 98 0
  ];
  num_symbols = 4;
}

-- Its digram table when the first digram is in it, and with a tombstone in front of that.
abbrev known : Memory
known = record twice { digram_table = update (λ i. vacant) (digram_hash 31 97 98) (entry 0) }

abbrev behind_tombstone : Memory
behind_tombstone = record twice {
  digram_table =
      update (update (λ i. vacant) (digram_hash 31 97 98) tombstone) (digram_hash 31 97 98 + 1)
        (entry 0);
}

get_utf-write_utf_example : get_utf ((write_utf 0x4F60).1 ++ 65 ∷ []) ≡ (some 0x4F60, 65 ∷ [])
get_utf-write_utf_example = get_utf-write_utf 0x4F60 (65 ∷ []) (omega arith)

digram_get-digram_put_example :
    digram_get 31 97 98 (after twice (digram_put 31 0 twice))
    ≡ returns (some 0) (after twice (digram_put 31 0 twice))
unfolding digram_put free_from
digram_get-digram_put_example =
    digram_get-digram_put 31 0 1 twice (after twice (digram_put 31 0 twice)) refl refl

-- digram_get finds the digram behind the tombstone, so that it is in the table twice afterwards.
behind_tombstone_found : digram_get 31 97 98 behind_tombstone ≡ returns (some 0) behind_tombstone
unfolding digram_get get_from
behind_tombstone_found = refl

abbrev with_rule : Memory
with_rule = record fresh {
  storage = update (λ i. blank) 0 (record blank { value = 256; nextr = some 0; prevr = some 0 });
  main_rule = some 0;
}

add_rule-HasRules_example :
    (t : Memory) × (add_rule 5 with_rule ≡ returns tt t) × HasRules t (0 ∷ 5 ∷ [])
add_rule-HasRules_example =
    add_rule-HasRules 5 (0 ∷ []) with_rule (refl, (refl, refl), (tt, tt)) ((λ e. ground arith), tt)

-- The transmission of "abab": the main rule has two symbols, of the value 257.
abbrev abab : List ℕ
abab = 129 ∷ 131 ∷ 196 ∷ 128 ∷ 196 ∷ 129 ∷ 196 ∷ 129 ∷ 133 ∷ 196 ∷ 129 ∷ 97 ∷ 98 ∷ 132 ∷ 130 ∷ []

abbrev after_abab : Memory
after_abab = after fresh (compress 31 20 20 100 (codes "abab") fresh)

-- A byte 0x81 is written as it is, so that decompress takes it for the start of a transmission.
mark_lost :
    result (compress 31 20 20 100 (0x81 ∷ []) fresh)
    ≡ some (7, 129 ∷ 131 ∷ 196 ∷ 128 ∷ 129 ∷ 132 ∷ 130 ∷ [])
unfolding compress
mark_lost = refl

mark_lost_again :
    result (decompress (λ s. some 0) 50 (129 ∷ 131 ∷ 196 ∷ 128 ∷ 129 ∷ 132 ∷ 130 ∷ []) fresh)
    ≡ some none
unfolding decompress
mark_lost_again = refl

-- A rule that is used once remains: "abcabc" gives 256 -> 258 258, 257 -> a b, 258 -> 257 c.
rule_used_once :
    result (compress 31 20 20 100 (codes "abcabc") fresh)
    ≡ some (
      21,
      129 ∷ 131 ∷ 196 ∷ 128 ∷ 196 ∷ 130 ∷ 196 ∷ 130 ∷ 133 ∷ 196 ∷ 129 ∷ 97 ∷ 98 ∷ 133 ∷ 196 ∷ 130
          ∷ 196 ∷ 129 ∷ 99 ∷ 132 ∷ 130 ∷ [],
    )
unfolding compress
rule_used_once = refl

-- The block size 512, and what validargs makes of it.
abbrev some_size : ℕ
some_size = 512

abbrev some_options : ℕ
some_options = 0x2000002
