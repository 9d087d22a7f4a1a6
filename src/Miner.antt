-- ===== src/Miner.antt =====
-- HW4-Multi-process-Problem-Solver/src/crypto_miner.c: the search for a nonce.
pub mod Digests
pub mod Nonces
pub mod Found
pub mod Variants
pub mod Solutions
mod Tests
use system_fundamentals_ii_c.Prelude.{
  Bool, List, Option, [], bit_and, drop, false, if◌then◌else◌, leb, length, negsuc, none, not, pos,
  replicate, set, some, suc, take, true, zero, ℕ, ℤ, ◌%◌, ◌&&◌, ◌*◌, ◌++◌, ◌+◌, ◌-◌, ◌/◌, ◌==◌, ◌∷◌,
}

-- struct crypto_miner_problem without its type. The shorts id, nvars, var and diff are below 2 ^ 15; a
-- byte of `content`, which is the block and the starting nonce, is below 256.
pub record MinerProblem : Type 0 where
  pub size : ℕ
  pub id : ℕ
  pub nvars : ℕ
  pub var : ℕ
  pub bsize : ℕ
  pub nsize : ℕ
  pub diff : ℕ
  pub content : List ℕ

-- struct crypto_miner_result
pub record MinerResult : Type 0 where
  pub size : ℕ
  pub id : ℕ
  pub is_failed : Bool
  pub nsize : ℕ
  pub nonce : List ℕ

-- The loop of update_nonce from the byte `i` on, where the carry is 1: the carry and the index after it,
-- and the bytes.
unfoldable pub carry_from : (i : ℕ) → List ℕ → Bool × ℕ × List ℕ
carry_from i [] = (true, i, [])
carry_from i (byte ∷ bytes) =
    let rest = carry_from (i + 1) bytes in
    let byte' = (byte + 1) % 256 in
    if byte' == 0 then (rest.0, rest.1, byte' ∷ rest.2) else (false, i + 1, byte' ∷ bytes)

-- update_nonce: whether it is not 0, and the nonce after it.
unfoldable pub update_nonce : List ℕ → Bool × List ℕ
unfolding carry_from
update_nonce nonce =
    let after = carry_from 0 nonce in (not (after.0 && after.1 == length nonce), after.2)

-- The loop over the masks returns, or goes on to the next byte.
pub data Verdict : Type 0 where
  decided : Bool → Verdict
  undecided : (diff : ℕ) → Verdict

-- `--diff`
abbrev pub decrement : ℕ → ℕ
decrement diff = (diff + 4294967295) % 4294967296

-- The loop over the masks 0x80, 0x40 to 0x01, after which the mask is 0.
unfoldable pub check_byte : (rounds mask byte diff : ℕ) → Verdict
check_byte zero mask byte diff = undecided diff
check_byte (suc n) mask byte diff =
    let diff' = decrement diff in
    let rest = check_byte n (mask / 2) byte diff' in
    if not (bit_and byte mask == 0)
    then decided false
    else if diff' == 0
    then decided true
    else rest

-- check_result
unfoldable pub check_digest : (digest : List ℕ) (diff : ℕ) → Bool
unfolding check_byte
check_digest [] diff = false
check_digest (byte ∷ digest) diff = elim (check_byte 8 128 byte diff) [
  | decided answer ↦ answer
  | undecided diff' ↦ check_digest digest diff'
]

-- What solve returns, with the nonce, and whether the handle of the hash is still open; that it calls
-- abort; or that it is not done within the fuel.
pub data Search : Type 0 where
  ends : (code : ℤ) (nonce : List ℕ) (is_open : Bool) → Search
  aborts searching : Search

-- crypto_miner_construct_problem. malloc fails where `memory` is false; `random` is what random() returns.
abbrev pub difficulty : (random diff : ℕ) → ℕ
difficulty random diff = if leb diff 20 then 20 else 20 + random % (diff - 20 + 1)

unfoldable pub crypto_miner_construct_problem :
    (memory : Bool) (random id nvars : ℕ) (block : List ℕ) (bsize nsize diff : ℕ)
    → Option MinerProblem
crypto_miner_construct_problem memory random id nvars block bsize nsize diff =
    if memory
    then some (record {
      size = 32 + bsize + nsize;
      id = id;
      nvars = nvars;
      var = 0;
      bsize = bsize;
      nsize = nsize;
      diff = difficulty random diff;
      content = take bsize block ++ replicate nsize 0;
    })
    else none

-- crypto_miner_vary_problem, where bsize + nsize is above 0.
abbrev pub cleared : MinerProblem → List ℕ
cleared prob =
    take prob.bsize prob.content
    ++ (replicate prob.nsize 0 ++ drop (prob.bsize + prob.nsize) prob.content)

unfoldable pub crypto_miner_vary_problem : MinerProblem → (var : ℕ) → MinerProblem
crypto_miner_vary_problem prob var =
    if prob.nvars == 0 then record prob { content = cleared prob } else record prob {
      content = set (cleared prob) (prob.bsize + prob.nsize - 1) (var * 256 / prob.nvars % 256);
      var = var;
    }

-- The block, and the nonce that the search starts from.
abbrev pub block_of : MinerProblem → List ℕ
block_of prob = take prob.bsize prob.content

abbrev pub starting_nonce : MinerProblem → List ℕ
starting_nonce prob = take prob.nsize (drop prob.bsize prob.content)

-- What crypto_miner_solver returns: a result or NULL; or that it aborts, or is not done within the fuel.
pub data Attempt : Type 0 where
  gives_result : MinerResult → Attempt
  gives_null gives_abort still_solving : Attempt

-- The switch on what solve returned. malloc fails where `memory` is false.
abbrev pub attempt_of : (memory : Bool) → MinerProblem → Search → Attempt
attempt_of memory prob searching = still_solving
attempt_of memory prob aborts = gives_abort
attempt_of memory prob (ends (negsuc zero) nonce is_open) = gives_null
attempt_of memory prob (ends (pos (suc zero)) nonce is_open) = gives_null
attempt_of memory prob (ends (pos zero) nonce is_open) =
    if memory
    then gives_result (record {
      size = 24 + prob.nsize;
      id = prob.id;
      is_failed = false;
      nsize = prob.nsize;
      nonce = nonce;
    })
    else gives_null
attempt_of memory prob (ends _ nonce is_open) = gives_abort

-- Whether a nonce has the digest that is asked for.
abbrev pub satisfies : (hash : List ℕ → List ℕ) (block : List ℕ) (diff : ℕ) (nonce : List ℕ) → Bool
unfolding check_digest
satisfies hash block diff nonce = check_digest (hash (block ++ nonce)) diff

-- SHA-256 of libgcrypt is the function `hash`; gcry_md_open succeeds where `opens` is true. The flag
-- is what the function `canceled` says at each round of the loop.
module _ (hash : List ℕ → List ℕ) (opens : Bool) where
  -- The loop of solve, from the round `round` on.
  unfoldable pub solve_from :
      (fuel round : ℕ) (canceled : ℕ → Bool) (block : List ℕ) (diff : ℕ) (nonce : List ℕ) → Search
  unfolding update_nonce satisfies
  solve_from zero round canceled block diff nonce = searching
  solve_from (suc f) round canceled block diff nonce =
      let after = update_nonce nonce in
      let rest = solve_from f (round + 1) canceled block diff after.1 in
      if canceled round
      then ends (negsuc 0) nonce false
      else if satisfies hash block diff nonce
      then ends (pos 0) nonce false
      else if after.0
      then rest
      else ends (pos 1) after.1 true

  unfoldable pub solve :
      (fuel : ℕ) (canceled : ℕ → Bool) (block : List ℕ) (diff : ℕ) (nonce : List ℕ) → Search
  unfolding solve_from
  solve fuel canceled block diff nonce =
      if opens then solve_from fuel 0 canceled block diff nonce else aborts

  unfoldable pub crypto_miner_solver :
      (fuel : ℕ) (memory : Bool) (canceled : ℕ → Bool) → MinerProblem → Attempt
  unfolding solve
  crypto_miner_solver fuel memory canceled prob =
      attempt_of memory prob (solve fuel canceled (block_of prob) prob.diff (starting_nonce prob))

  unfoldable pub crypto_miner_check_result : MinerResult → MinerProblem → ℤ
  unfolding check_digest
  crypto_miner_check_result result prob =
      if result.is_failed
      then negsuc 0
      else if not opens
      then negsuc 0
      else if check_digest (hash (take prob.bsize prob.content ++ take result.nsize result.nonce))
          prob.diff
      then pos 0
      else pos 1
