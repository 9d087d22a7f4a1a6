-- ===== src/Miner/Tests.antt =====
-- Examples for the miner: each theorem at concrete nonces, digests and problems, and runs.
use system_fundamentals_ii_c.Prelude.{
  List, [], arith, drop, false, leb, map, negsuc, pos, refl, true, ℕ, ◌*◌, ◌+◌, ◌-◌, ◌/◌, ◌∷◌, ◌≡◌,
  ◌≢◌, ◌≤◌,
}
use system_fundamentals_ii_c.Miner.{
  MinerProblem, MinerResult, check_digest, crypto_miner_check_result, crypto_miner_solver,
  crypto_miner_vary_problem, ends, gives_result, satisfies, searching, solve, starting_nonce,
  update_nonce,
}
use system_fundamentals_ii_c.Miner.Digests.{
  asked, check_digest-leading_zeros, digest_bits, leading_zeros,
}
use system_fundamentals_ii_c.Miner.Found.{solve_finishes}
use system_fundamentals_ii_c.Miner.Nonces.{Updated, space, update_nonce-Updated, value}
use system_fundamentals_ii_c.Miner.Solutions.{
  crypto_miner_solver_accepted, crypto_miner_solver_solves,
}
use system_fundamentals_ii_c.Miner.Variants.{IsProblem, starting_nonce-spread}

-- A digest of one byte: the complement of the byte behind the block of one byte.
abbrev complement : List ℕ → List ℕ
complement bytes = map (λ b. 255 - b) (drop 1 bytes)

-- The digest of a nonce has five leading zero bits from the nonce 248 on.
abbrev small_problem : MinerProblem
small_problem = record {
  size = 34;
  id = 3;
  nvars = 2;
  var = 0;
  bsize = 1;
  nsize = 1;
  diff = 5;
  content = 5 ∷ 240 ∷ [];
}

abbrev small_result : MinerResult
small_result = record { size = 25; id = 3; is_failed = false; nsize = 1; nonce = 248 ∷ [] }

small_problem-IsProblem : IsProblem 0 small_problem
small_problem-IsProblem = record { sizes = refl; block_size = refl; nonce = (omega arith, tt) }

carried_twice : update_nonce (255 ∷ 255 ∷ 7 ∷ []) ≡ (true, 0 ∷ 0 ∷ 8 ∷ [])
unfolding update_nonce
carried_twice = refl

last_nonce : update_nonce (255 ∷ 255 ∷ []) ≡ (false, 0 ∷ 0 ∷ [])
unfolding update_nonce
last_nonce = refl

update_nonce-Updated_example : Updated 2 (255 ∷ 7 ∷ []) (update_nonce (255 ∷ 7 ∷ []))
update_nonce-Updated_example =
    update_nonce-Updated 2 (255 ∷ 7 ∷ []) (omega arith, (omega arith, tt))

check_digest-leading_zeros_example :
    check_digest (0 ∷ 31 ∷ []) 11 ≡ leb (asked 11) (leading_zeros (digest_bits (0 ∷ 31 ∷ [])))
check_digest-leading_zeros_example =
    check_digest-leading_zeros (0 ∷ 31 ∷ []) 11 (omega arith, (omega arith, tt)) (omega arith)

eleven_bits : check_digest (0 ∷ 31 ∷ []) 11 ≡ true
unfolding check_digest
eleven_bits = refl

twelve_bits : check_digest (0 ∷ 31 ∷ []) 12 ≡ false
unfolding check_digest
twelve_bits = refl

solve_finishes_example : solve complement true 16 (λ round. false) (5 ∷ []) 5 (240 ∷ []) ≢ searching
unfolding value space
solve_finishes_example =
    solve_finishes complement (λ round. false) (5 ∷ []) 5 1 16 (240 ∷ []) (omega arith, tt)
      (omega arith)

starting_nonce-spread_example :
    value (starting_nonce (crypto_miner_vary_problem small_problem 0)) + 256 / 2 * space 0
    ≤ value (starting_nonce (crypto_miner_vary_problem small_problem 1))
starting_nonce-spread_example =
    starting_nonce-spread 0 small_problem 0 1 small_problem-IsProblem (omega arith) (omega arith)

crypto_miner_solver_accepted_example :
    crypto_miner_check_result complement true small_result small_problem ≡ pos 0
unfolding crypto_miner_solver
crypto_miner_solver_accepted_example =
    crypto_miner_solver_accepted complement 16 0 true (λ round. false) small_problem small_result
      small_problem-IsProblem refl

crypto_miner_solver_solves_example :
    (result : MinerResult) × (crypto_miner_solver complement true
        (space 1)
        true
        (λ round. false)
        (crypto_miner_vary_problem small_problem 1)
      ≡ gives_result result)
    × (crypto_miner_check_result complement true result small_problem ≡ pos 0)
unfolding value crypto_miner_vary_problem satisfies
crypto_miner_solver_solves_example =
    crypto_miner_solver_solves complement 0 (λ round. false) small_problem 1 (250 ∷ [])
      small_problem-IsProblem (omega arith) (λ round. refl) (omega arith, tt) (omega arith) refl

-- The space of nonces is exhausted: the handle of the hash stays open.
exhausted :
    solve complement true 16 (λ round. false) (5 ∷ []) 9 (240 ∷ []) ≡ ends (pos 1) (0 ∷ []) true
unfolding solve
exhausted = refl

canceled_later :
    solve complement true 16 (λ round. leb 3 round) (5 ∷ []) 5 (240 ∷ [])
    ≡ ends (negsuc 0) (243 ∷ []) false
unfolding solve
canceled_later = refl
