-- ===== src/Master/Problems.antt =====
-- HW4-Multi-process-Problem-Solver/src/problem.c: the source of the problems.
use system_fundamentals_ii_c.Prelude.{
  Bool, List, Option, [], ap, arith, false, if◌then◌else◌, leb, ltb, negsuc, none, not, pos, some,
  suc, true, zero, ℕ, ℤ, ◌%◌, ◌&&◌, ◌+◌, ◌/◌, ◌<◌, ◌==◌, ◌∙◌, ◌∷◌, ◌≡◌,
}
use system_fundamentals_ii_c.Master.{update}

-- struct problem and struct result, with what a solver puts behind the header as a list of bytes.
pub record Problem : Type 0 where
  pub kind : ℕ
  pub id : ℕ
  pub nvars : ℕ
  pub var : ℕ
  pub content : List ℕ

pub record Answer : Type 0 where
  pub is_failed : Bool
  pub content : List ℕ

-- struct solver_methods, of which the solvers fill what they have. `check` says whether its C result is 0.
pub record SolverMethods : Type 0 where
  pub construct : Option ((id nvars : ℕ) → (block : List ℕ) → Option Problem)
  pub vary : Option (Problem → ℕ → Problem)
  pub check : Answer → Problem → Bool

-- The static variables and the memory of the problems. A pointer is a number; `fresh` is what the next
-- malloc returns. random() returns the numbers of a sequence, of which `drawn` are used up.
-- problems_remaining is not negative: main checks it, and new_problem is called only above 0.
pub record Source : Type 0 where
  pub problem_at : ℕ → Option Problem
  pub fresh : ℕ
  pub current_problem : Option ℕ
  pub problems_remaining : ℕ
  pub num_problem_types : ℕ
  pub last_id : ℕ
  pub random : ℕ → ℕ
  pub drawn : ℕ

-- A call returns, reads memory that is freed, or is not done within the fuel.
pub data Reply (A : Type 0) : Type 0 where
  gives : A → Source → Reply A
  reads_freed still_running : Reply A

-- NUM_PROBLEM_TYPES
abbrev pub type_count : ℕ
type_count = 3

-- free
abbrev pub free_problem : ℕ → Source → Source
free_problem p s = record s { problem_at = update s.problem_at p none }

-- The methods of src/trivial.c, without `solve`, which the workers call. malloc leaves `var` as it is in
-- the memory that it gives. An id is a short, so that the program makes less than 2 ^ 15 problems.
abbrev pub trivial_construct : (garbage id nvars : ℕ) → Problem
trivial_construct garbage id nvars = record {
  kind = 1;
  id = id;
  nvars = nvars;
  var = garbage;
  content = [];
}

abbrev pub trivial_check : Answer → Problem → Bool
trivial_check answer prob = not answer.is_failed

abbrev pub trivial_solver : (garbage : ℕ) → SolverMethods
trivial_solver garbage = record {
  construct = some (λ id nvars block. some (trivial_construct garbage id nvars));
  vary = some (λ prob var. prob);
  check = trivial_check;
}

-- The types of problems that the mask enables, from `i` on: all types but NULL_PROBLEM_TYPE have a
-- solver.
unfoldable pub enabled_from : (rounds i mask : ℕ) → ℕ
enabled_from zero i mask = 0
enabled_from (suc n) i mask =
    let rest = enabled_from n (i + 1) (mask / 2) in
    if mask % 2 == 1 && ltb 0 i then suc rest else rest

-- init_problems; srandom() selects the sequence of random numbers.
unfoldable pub init_problems : (nprobs mask : ℕ) (random : ℕ → ℕ) → Source → Source
unfolding enabled_from
init_problems nprobs mask random s = record s {
  problems_remaining = nprobs;
  num_problem_types = s.num_problem_types + enabled_from type_count 0 mask;
  random = random;
  drawn = 0;
}

-- The random bytes of a block.
unfoldable pub block_from : (random : ℕ → ℕ) (count k : ℕ) → List ℕ
block_from random zero k = []
block_from random (suc n) k = random k % 256 ∷ block_from random n (k + 1)

abbrev pub drop_current : Option ℕ → Source → Source
drop_current none s = s
drop_current (some p) s = record (free_problem p s) { current_problem = none }

-- What the constructor returns is stored; NULL if there is no memory.
abbrev pub keep : Option Problem → Source → Source
keep none s = record s { current_problem = none }
keep (some prob) s = record s {
  problem_at = update s.problem_at s.fresh (some prob);
  current_problem = some s.fresh;
  fresh = s.fresh + 1;
}

abbrev pub construct_with :
    Option ((id nvars : ℕ) → (block : List ℕ) → Option Problem)
    → (nvars : ℕ) (block : List ℕ) → Source
    → Source
construct_with none nvars block s = s
construct_with (some construct) nvars block s = keep (construct s.last_id nvars block) s

valid_variant : (nvars var : ℕ) → var < nvars → (not (nvars == 0) && leb nvars var) ≡ false
valid_variant nvars var inside = ground arith

module _ (solvers : ℕ → SolverMethods) where
  -- The switch of new_problem: TRIVIAL_PROBLEM_TYPE, CRYPTO_MINER_PROBLEM_TYPE, and other types.
  unfoldable pub generate : (kind nvars : ℕ) → Source → Source
  unfolding block_from
  generate kind nvars s =
      if kind == 1
      then construct_with (solvers 1).construct nvars [] s
      else if kind == 2
      then construct_with (solvers 2).construct nvars (block_from s.random 32 s.drawn)
          (record s { drawn = s.drawn + 32 })
      else s

  abbrev pub take_problem : (remaining kind nvars : ℕ) → Source → Source
  unfolding generate
  take_problem zero kind nvars s = record s { current_problem = none }
  take_problem (suc remaining) kind nvars s =
      generate kind nvars (record s { problems_remaining = remaining; last_id = s.last_id + 1 })

  unfoldable pub new_problem : (kind nvars : ℕ) → Source → Source
  unfolding take_problem
  new_problem kind nvars s =
      take_problem s.problems_remaining kind nvars (drop_current s.current_problem s)

  abbrev pub try_kind :
      Option ((id nvars : ℕ) → (block : List ℕ) → Option Problem)
      → (kind nvars : ℕ) → Source
      → Source
  unfolding new_problem
  try_kind none kind nvars s = s
  try_kind (some _) kind nvars s = new_problem kind nvars s

  -- The loop of get_problem_variant that selects a type at random.
  unfoldable pub select : (fuel nvars : ℕ) → Source → Option Source
  unfolding try_kind
  select zero nvars s = none
  select (suc f) nvars s = elim (s.problems_remaining == 0) [
    | true ↦ some s
    | false ↦ elim s.current_problem [
      | some p ↦ some s
      | none ↦
          let kind = s.random s.drawn % type_count in
          select f nvars
            (try_kind (solvers kind).construct kind nvars (record s { drawn = s.drawn + 1 }))
    ]
  ]

  -- The variant of the problem `p` is made in place.
  abbrev pub vary_at : (p : ℕ) (nvars var : ℕ) → Problem → Source → Reply (Option ℕ)
  vary_at p nvars var prob s =
      if not (prob.nvars == 0) && leb prob.nvars var
      then gives none s
      else elim (solvers prob.kind).vary [
        | none ↦ gives none s
        | some vary ↦
            gives (some p) (record s { problem_at = update s.problem_at p (some (vary prob var)) })
      ]

  abbrev pub serve_variant : (nvars var : ℕ) → Source → Reply (Option ℕ)
  serve_variant nvars var s = elim s.current_problem [
    | none ↦ gives none s
    | some p ↦ elim (s.problem_at p) [ none ↦ reads_freed | some prob ↦ vary_at p nvars var prob s ]
  ]

  abbrev pub has_none : Option ℕ → Bool
  has_none none = true
  has_none (some _) = false

  -- get_problem_variant; the number of a worker, `var`, is not negative.
  unfoldable pub get_problem_variant : (fuel nvars var : ℕ) → Source → Reply (Option ℕ)
  unfolding select
  get_problem_variant fuel nvars var s =
      elim (has_none s.current_problem && ltb 0 s.num_problem_types) [
        | false ↦ serve_variant nvars var s
        | true ↦ elim (select fuel nvars s) [
          | none ↦ still_running
          | some s' ↦ serve_variant nvars var s'
        ]
      ]

  -- The end of post_result for a result that solves the problem `p`.
  abbrev pub solved : (p : ℕ) → Option ℕ → Source → Source
  solved p none s = s
  solved p (some q) s = if q == p then record (free_problem p s) { current_problem = none } else s

  abbrev pub judge : (p : ℕ) → Answer → Problem → Source → Reply ℤ
  judge p answer prob s =
      if answer.is_failed
      then gives (negsuc 0) s
      else if (solvers prob.kind).check answer prob
      then gives (pos 0) (solved p s.current_problem s)
      else gives (pos 1) s

  unfoldable pub post_result : Answer → (p : ℕ) → Source → Reply ℤ
  post_result answer p s = elim (s.problem_at p) [
    | none ↦ reads_freed
    | some prob ↦ judge p answer prob s
  ]

  abbrev if_none : (fuel nvars var : ℕ) → Source → Option ℕ → Reply (Option ℕ)
  if_none fuel nvars var s current = elim (has_none current && ltb 0 s.num_problem_types) [
    | false ↦ serve_variant nvars var s
    | true ↦ elim (select fuel nvars s) [
      | none ↦ still_running
      | some s' ↦ serve_variant nvars var s'
    ]
  ]

  abbrev read_problem : (p nvars var : ℕ) → Source → Option Problem → Reply (Option ℕ)
  read_problem p nvars var s found = elim found [
    | none ↦ reads_freed
    | some prob ↦ vary_at p nvars var prob s
  ]

  abbrev serve_current : (nvars var : ℕ) → Source → Option ℕ → Reply (Option ℕ)
  serve_current nvars var s current = elim current [
    | none ↦ gives none s
    | some p ↦ read_problem p nvars var s (s.problem_at p)
  ]

  abbrev vary_by :
      (p var : ℕ) → Problem → Source → Option (Problem → ℕ → Problem) → Reply (Option ℕ)
  vary_by p var prob s varier = elim varier [
    | none ↦ gives none s
    | some vary ↦
        gives (some p) (record s { problem_at = update s.problem_at p (some (vary prob var)) })
  ]

  -- While there is a current problem, get_problem_variant gives it to every worker, without another draw
  -- of a random number, as the same object: it is changed in place to the variant of the worker. The
  -- number of the worker is below the number of variants, and the solver can vary the problem.
  pub get_problem_variant-current :
      (fuel nvars var p : ℕ) (prob : Problem) (vary : Problem → ℕ → Problem) (s : Source)
      → s.current_problem ≡ some p
      → s.problem_at p ≡ some prob
      → var < prob.nvars
      → (solvers prob.kind).vary ≡ some vary
      → get_problem_variant fuel nvars var s
        ≡ gives (some p) (record s { problem_at = update s.problem_at p (some (vary prob var)) })
  unfolding get_problem_variant
  get_problem_variant-current fuel nvars var p prob vary s current there inside varies =
      ap (if_none fuel nvars var s) current
      ∙ ap (serve_current nvars var s) current
      ∙ ap (read_problem p nvars var s) there
      ∙ ap (λ b. if b then gives none s else vary_by p var prob s (solvers prob.kind).vary)
          (valid_variant prob.nvars var inside)
      ∙ ap (vary_by p var prob s) varies
