-- ===== src/Master/Options.antt =====
-- HW4-Multi-process-Problem-Solver/src/main.c: the options of the program.
use system_fundamentals_ii_c.Prelude.{
  Bool, Bool-cases, List, Option, [], ap, arith, bit_or, false, if◌then◌else◌, inl, inr, leb,
  negsuc, none, pos, refl, some, subst, suc, sym, true, zero, ℕ, ℤ, ◌*◌, ◌+◌, ◌<◌, ◌==◌, ◌^◌, ◌||◌,
  ◌∙◌, ◌∷◌, ◌≡◌, ◌≤◌,
}
use system_fundamentals_ii_c.Master.Problems.{Source, init_problems, type_count}

-- An option that getopt gives, with what atoi makes of its argument.
pub data ProgramOption : Type 0 where
  workers_option problems_option types_option : ℤ → ProgramOption
  unknown_option : ProgramOption

pub record Settings : Type 0 where
  pub nworkers : ℕ
  pub nprobs : ℕ
  pub mask : ℕ

abbrev pub default_settings : Settings
default_settings = record { nworkers = 1; nprobs = 0; mask = 0 }

-- One round of the loop on getopt; `none` is exit(EXIT_FAILURE).
unfoldable pub take_option : ProgramOption → Settings → Option Settings
take_option (workers_option (negsuc n)) settings = none
take_option (workers_option (pos n)) settings =
    if n == 0 || leb 32 n then none else some (record settings { nworkers = n })
take_option (problems_option (negsuc n)) settings = none
take_option (problems_option (pos n)) settings = some (record settings { nprobs = n })
take_option (types_option (negsuc n)) settings = none
take_option (types_option (pos n)) settings =
    if leb type_count n
    then none
    else some (record settings { mask = bit_or settings.mask (2 ^ n) })
take_option unknown_option settings = none

unfoldable pub parse_options : List ProgramOption → Settings → Option Settings
unfolding take_option
parse_options [] settings = some settings
parse_options (option ∷ options) settings = elim (take_option option settings) [
  | none ↦ none
  | some settings' ↦ parse_options options settings'
]

-- main, up to the call of master with the number of workers.
unfoldable pub main_source : List ProgramOption → (random : ℕ → ℕ) → Source → Option (ℕ × Source)
unfolding parse_options
main_source options random s = elim (parse_options options default_settings) [
  | none ↦ none
  | some settings ↦ some (settings.nworkers, init_problems settings.nprobs settings.mask random s)
]

-- Whether a type of problems is asked for.
unfoldable pub is_asked : List ProgramOption → (kind : ℕ) → Bool
is_asked [] kind = false
is_asked (types_option (pos n) ∷ options) kind =
    let rest = is_asked options kind in if n == kind then true else rest
is_asked (_ ∷ options) kind = is_asked options kind

abbrev digit : Bool → ℕ
digit b = if b then 1 else 0

-- What holds of the settings that are accepted: there are 1 to 31 workers, and the mask has the bits of
-- the types that are asked for.
pub record Parsed (options : List ProgramOption) (settings : Settings) : Type 0 where
  pub enough_workers : 1 ≤ settings.nworkers
  pub few_workers : settings.nworkers < 32
  pub mask_bits :
      settings.mask
      ≡ digit (is_asked options 0) + 2 * digit (is_asked options 1) + 4 * digit (is_asked options 2)

-- The same, behind settings that hold some types already.
record ParsedFrom (a b c : Bool) (options : List ProgramOption) (settings : Settings) : Type 0 where
  enough : 1 ≤ settings.nworkers
  few : settings.nworkers < 32
  bits :
      settings.mask
      ≡ digit (a || is_asked options 0)
        + 2 * digit (b || is_asked options 1)
        + 4 * digit (c || is_asked options 2)

abbrev three : (a b c : Bool) → ℕ
three a b c = digit a + 2 * digit b + 4 * digit c

-- By the eight cases of three tests.
by_cases :
    (P : Bool → Bool → Bool → Type 0)
    → P true true true
    → P true true false
    → P true false true
    → P true false false
    → P false true true
    → P false true false
    → P false false true
    → P false false false
    → (a b c : Bool) → P a b c
by_cases P x1 x2 x3 x4 x5 x6 x7 x8 true true true = x1
by_cases P x1 x2 x3 x4 x5 x6 x7 x8 true true false = x2
by_cases P x1 x2 x3 x4 x5 x6 x7 x8 true false true = x3
by_cases P x1 x2 x3 x4 x5 x6 x7 x8 true false false = x4
by_cases P x1 x2 x3 x4 x5 x6 x7 x8 false true true = x5
by_cases P x1 x2 x3 x4 x5 x6 x7 x8 false true false = x6
by_cases P x1 x2 x3 x4 x5 x6 x7 x8 false false true = x7
by_cases P x1 x2 x3 x4 x5 x6 x7 x8 false false false = x8

set_0 : (a b c : Bool) → bit_or (three a b c) 1 ≡ three true b c
set_0 =
    by_cases (λ a b c. bit_or (three a b c) 1 ≡ three true b c) refl refl refl refl refl refl refl
      refl

set_1 : (a b c : Bool) → bit_or (three a b c) 2 ≡ three a true c
set_1 =
    by_cases (λ a b c. bit_or (three a b c) 2 ≡ three a true c) refl refl refl refl refl refl refl
      refl

set_2 : (a b c : Bool) → bit_or (three a b c) 4 ≡ three a b true
set_2 =
    by_cases (λ a b c. bit_or (three a b c) 4 ≡ three a b true) refl refl refl refl refl refl refl
      refl

-- What is left of the options, when one is taken.
abbrev rest_of : List ProgramOption → Option Settings → Option Settings
unfolding parse_options
rest_of options taken = elim taken [ none ↦ none | some settings ↦ parse_options options settings ]

-- The number of workers, by whether it is out of range.
abbrev guarded : (n : ℕ) → Settings → Bool → Option Settings
guarded n settings bad = if bad then none else some (record settings { nworkers = n })

parse_options-ParsedFrom :
    (a b c : Bool) (options : List ProgramOption) (settings result : Settings)
    → 1 ≤ settings.nworkers
    → settings.nworkers < 32
    → settings.mask ≡ three a b c
    → parse_options options settings ≡ some result
    → ParsedFrom a b c options result
unfolding parse_options take_option is_asked rest_of
parse_options-ParsedFrom a b c [] settings result low high bits ends =
    subst (ParsedFrom a b c []) same
      (record { enough = low; few = high; bits = ground (arith, bits) })
  where
    same : settings ≡ result
    same = cc ends
parse_options-ParsedFrom a b c (workers_option (negsuc n) ∷ options) settings result low high bits
      ends =
    absurd (cc ends)
parse_options-ParsedFrom a b c (workers_option (pos n) ∷ options) settings result low high bits
      ends =
    elim (Bool-cases (n == 0 || leb 32 n)) [
      | inl bad ↦ absurd (cc (sym (ap (λ t. rest_of options (guarded n settings t)) bad) ∙ ends))
      | inr good ↦
          let p =
            parse_options-ParsedFrom a b c options (record settings { nworkers = n }) result
              (ground (arith, good)) (ground (arith, good)) bits
              (sym (ap (λ t. rest_of options (guarded n settings t)) good) ∙ ends) in
          record { enough = p.enough; few = p.few; bits = p.bits }
    ]
parse_options-ParsedFrom a b c (problems_option (negsuc n) ∷ options) settings result low high bits
      ends =
    absurd (cc ends)
parse_options-ParsedFrom a b c (problems_option (pos n) ∷ options) settings result low high bits
      ends =
    again (
      parse_options-ParsedFrom a b c options (record settings { nprobs = n }) result low high bits
        ends)
  where
    again :
        ParsedFrom a b c options result
        → ParsedFrom a b c (problems_option (pos n) ∷ options) result
    again p = record { enough = p.enough; few = p.few; bits = p.bits }
parse_options-ParsedFrom a b c (types_option (negsuc n) ∷ options) settings result low high bits
      ends =
    absurd (cc ends)
parse_options-ParsedFrom a b c (types_option (pos zero) ∷ options) settings result low high bits
      ends =
    let p =
      parse_options-ParsedFrom true b c options (record settings { mask = bit_or settings.mask 1 })
        result low high (ap (λ m. bit_or m 1) bits ∙ set_0 a b c) ends in
    record { enough = p.enough; few = p.few; bits = ground (arith, p.bits) }
parse_options-ParsedFrom a b c (types_option (pos (suc zero)) ∷ options) settings result low high
      bits ends =
    let p =
      parse_options-ParsedFrom a true c options (record settings { mask = bit_or settings.mask 2 })
        result low high (ap (λ m. bit_or m 2) bits ∙ set_1 a b c) ends in
    record { enough = p.enough; few = p.few; bits = ground (arith, p.bits) }
parse_options-ParsedFrom a b c (types_option (pos (suc (suc zero))) ∷ options) settings result low
      high bits ends =
    let p =
      parse_options-ParsedFrom a b true options (record settings { mask = bit_or settings.mask 4 })
        result low high (ap (λ m. bit_or m 4) bits ∙ set_2 a b c) ends in
    record { enough = p.enough; few = p.few; bits = ground (arith, p.bits) }
parse_options-ParsedFrom a b c (types_option (pos (suc (suc (suc n)))) ∷ options) settings result
      low high bits ends =
    absurd (
      cc (
        sym (
          ap
            (λ t. rest_of options (
              if t
              then none
              else some (record settings { mask = bit_or settings.mask (2 ^ suc (suc (suc n))) })))
            too_large)
        ∙ ends))
  where
    too_large : leb 3 (suc (suc (suc n))) ≡ true
    too_large = ground arith
parse_options-ParsedFrom a b c (unknown_option ∷ options) settings result low high bits ends =
    absurd (cc ends)

-- The settings that main accepts: it exits, or there are 1 to 31 workers and the mask enables exactly the
-- types of problems that are asked for.
pub parse_options-Parsed :
    (options : List ProgramOption) (settings : Settings)
    → parse_options options default_settings ≡ some settings
    → Parsed options settings
parse_options-Parsed options settings ends =
    let p =
      parse_options-ParsedFrom false false false options default_settings settings (omega arith)
        (omega arith) refl ends in
    record { enough_workers = p.enough; few_workers = p.few; mask_bits = p.bits }
