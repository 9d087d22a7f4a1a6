-- ===== src/Miner/Solutions.antt =====
-- HW4-Multi-process-Problem-Solver/src/crypto_miner.c: problems and their solutions.
use Prim.Native.Nat.{max}
use system_fundamentals_ii_c.Prelude.{
  Bool, List, Option, ap, arith, false, if◌then◌else◌, negsuc, none, not, pos, refl, replicate,
  some, subst, suc, sym, take, take_all, true, zero, ℕ, ℤ, ◌++◌, ◌+◌, ◌<◌, ◌∙◌, ◌≡◌, ◌≤◌,
}
use system_fundamentals_ii_c.Miner.{
  MinerProblem, MinerResult, Search, aborts, attempt_of, block_of, check_digest,
  crypto_miner_check_result, crypto_miner_solver, crypto_miner_vary_problem, ends, gives_result,
  satisfies, searching, solve, starting_nonce,
}
use system_fundamentals_ii_c.Miner.Found.{solve_IsNonce, solve_complete, solve_sound}
use system_fundamentals_ii_c.Miner.Nonces.{IsNonce, length-IsNonce, space, value}
use system_fundamentals_ii_c.Miner.Variants.{IsProblem, block_of-vary, diff-vary, vary-IsProblem}

-- What the constructor makes, if it gets the memory.
abbrev pub IsConstructed : (m bsize diff : ℕ) (block : List ℕ) → Option MinerProblem → Type 0
IsConstructed m bsize diff block none = ⊥
IsConstructed m bsize diff block (some prob) =
    IsProblem m prob
    × (block_of prob ≡ block)
    × (starting_nonce prob ≡ replicate (suc m) 0)
    × (20 ≤ prob.diff)
    × (prob.diff ≤ max 20 diff)

module _ (hash : List ℕ → List ℕ) where
  -- The checker, by the block and the difficulty.
  abbrev judged : (opens : Bool) → MinerResult → (block : List ℕ) (diff : ℕ) → ℤ
  judged opens result block diff =
      if result.is_failed
      then negsuc 0
      else if not opens
      then negsuc 0
      else if check_digest (hash (block ++ take result.nsize result.nonce)) diff
      then pos 0
      else pos 1

  -- The checks of a variant and of the problem agree: a solution of any variant solves the problem.
  pub crypto_miner_check_result-vary :
      (m : ℕ) (prob : MinerProblem) (var : ℕ) (opens : Bool) (result : MinerResult)
      → IsProblem m prob
      → var < prob.nvars
      → crypto_miner_check_result hash opens result (crypto_miner_vary_problem prob var)
        ≡ crypto_miner_check_result hash opens result prob
  unfolding crypto_miner_check_result
  crypto_miner_check_result-vary m prob var opens result is inside =
      ap (judged opens result (block_of (crypto_miner_vary_problem prob var)))
        (diff-vary m prob var is inside)
      ∙ ap (λ block. judged opens result block prob.diff) (block_of-vary m prob var is inside)

  abbrev result_of : MinerProblem → List ℕ → MinerResult
  result_of prob nonce = record {
    size = 24 + prob.nsize;
    id = prob.id;
    is_failed = false;
    nsize = prob.nsize;
    nonce = nonce;
  }

  accepted :
      (m : ℕ) (prob : MinerProblem) (nonce : List ℕ)
      → prob.nsize ≡ suc m
      → IsNonce (suc m) nonce
      → satisfies hash (block_of prob) prob.diff nonce ≡ true
      → crypto_miner_check_result hash true (result_of prob nonce) prob ≡ pos 0
  unfolding crypto_miner_check_result
  accepted m prob nonce sizes is right =
      ap (λ x. if check_digest (hash (block_of prob ++ x)) prob.diff then pos 0 else pos 1)
        (take_all prob.nsize nonce (length-IsNonce (suc m) nonce is ∙ sym sizes))
      ∙ ap (λ b. if b then pos 0 else pos 1) right

  -- A result is given only for a search that returns 0.
  given :
      (memory : Bool) (prob : MinerProblem) (s : Search) (result : MinerResult)
      → attempt_of memory prob s ≡ gives_result result
      → (nonce : List ℕ) × (is_open : Bool) × (s ≡ ends (pos 0) nonce is_open)
        × (result_of prob nonce ≡ result)
  given memory prob searching result gives = absurd (cc gives)
  given memory prob aborts result gives = absurd (cc gives)
  given memory prob (ends (negsuc zero) nonce is_open) result gives = absurd (cc gives)
  given memory prob (ends (negsuc (suc k)) nonce is_open) result gives = absurd (cc gives)
  given memory prob (ends (pos (suc zero)) nonce is_open) result gives = absurd (cc gives)
  given memory prob (ends (pos (suc (suc k))) nonce is_open) result gives = absurd (cc gives)
  given false prob (ends (pos zero) nonce is_open) result gives = absurd (cc gives)
  given true prob (ends (pos zero) nonce is_open) result gives = (nonce, is_open, refl, cc gives)

  -- What the solver gives is right: the checker accepts it. The handles of the hash open, and the size
  -- of the nonce is not 0.
  pub crypto_miner_solver_accepted :
      (fuel m : ℕ) (memory : Bool) (canceled : ℕ → Bool) (prob : MinerProblem)
      (result : MinerResult)
      → IsProblem m prob
      → crypto_miner_solver hash true fuel memory canceled prob ≡ gives_result result
      → crypto_miner_check_result hash true result prob ≡ pos 0
  unfolding crypto_miner_solver
  crypto_miner_solver_accepted fuel m memory canceled prob result is gives =
      let found =
        given memory prob
          (solve hash true fuel canceled (block_of prob) prob.diff (starting_nonce prob)) result
          gives in
      subst (λ r. crypto_miner_check_result hash true r prob ≡ pos 0) found.3
        (accepted m prob found.0 is.sizes
          (solve_IsNonce hash canceled (block_of prob) prob.diff (suc m) fuel (starting_nonce prob)
            found.0 found.1 is.nonce found.2)
          (solve_sound hash canceled (block_of prob) prob.diff (suc m) fuel (starting_nonce prob)
            found.0 found.1 is.nonce found.2))

  -- A worker that is not canceled finds a solution of its variant where there is one: when some nonce
  -- from the start of the variant on satisfies the difficulty, the solver gives a result for the
  -- problem, and the checker accepts it. malloc succeeds, and the handles of the hash open. The fuel is
  -- the number of all nonces.
  pub crypto_miner_solver_solves :
      (m : ℕ) (canceled : ℕ → Bool) (prob : MinerProblem) (var : ℕ) (x : List ℕ)
      → IsProblem m prob
      → var < prob.nvars
      → ((round : ℕ) → canceled round ≡ false)
      → IsNonce (suc m) x
      → value (starting_nonce (crypto_miner_vary_problem prob var)) ≤ value x
      → satisfies hash (block_of prob) prob.diff x ≡ true
      → (result : MinerResult) × (crypto_miner_solver hash true
            (space (suc m))
            true
            canceled
            (crypto_miner_vary_problem prob var)
          ≡ gives_result result)
        × (crypto_miner_check_result hash true result prob ≡ pos 0)
  unfolding crypto_miner_solver
  crypto_miner_solver_solves m canceled prob var x is inside free is_x from right =
      let prob' = crypto_miner_vary_problem prob var in
      let is' : IsProblem m prob' = vary-IsProblem m prob var is inside in
      let found =
        solve_complete hash canceled (block_of prob') prob'.diff (suc m) (space (suc m))
          (starting_nonce prob') x is'.nonce free (omega arith) is_x from
          (ap (λ block. satisfies hash block prob'.diff x) (block_of-vary m prob var is inside)
            ∙ ap (λ diff. satisfies hash (block_of prob) diff x) (diff-vary m prob var is inside)
            ∙ right) in
      let gives : crypto_miner_solver hash true (space (suc m)) true canceled prob'
          ≡ gives_result (result_of prob' found.0) =
        ap (attempt_of true prob') found.1 in
      (
        result_of prob' found.0,
        gives,
        sym (crypto_miner_check_result-vary m prob var true (result_of prob' found.0) is inside)
            ∙ crypto_miner_solver_accepted (space (suc m)) m true canceled prob'
                (result_of prob' found.0) is' gives,
      )
