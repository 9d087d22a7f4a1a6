-- ===== src/Miner/Found.antt =====
-- HW4-Multi-process-Problem-Solver/src/crypto_miner.c: what the search finds.
use system_fundamentals_ii_c.Prelude.{
  Bool, Bool-cases, List, ap, arith, false, if◌then◌else◌, inl, inr, ltb, negsuc, pos, refl, subst,
  suc, true, zero, ℕ, ◌+◌, ◌<◌, ◌==◌, ◌∙◌, ◌≡◌, ◌≢◌, ◌≤◌,
}
use system_fundamentals_ii_c.Miner.{
  Search, aborts, ends, satisfies, searching, solve, solve_from, update_nonce,
}
use system_fundamentals_ii_c.Miner.Nonces.{
  IsNonce, Updated, space, update_nonce-Updated, value, value_below, value_injective,
}

module _ (hash : List ℕ → List ℕ) (canceled : ℕ → Bool) (block : List ℕ) (diff n : ℕ) where
  -- What holds of a search with so much fuel from the nonce `start` on.
  abbrev Outcome : (fuel : ℕ) (start : List ℕ) → Search → Type 0
  Outcome fuel start searching = value start + fuel < space n
  Outcome fuel start aborts = ⊥
  Outcome fuel start (ends (negsuc k) nonce is_open) =
      (is_open ≡ false) × ((round : ℕ) × (canceled round ≡ true))
  Outcome fuel start (ends (pos zero) nonce is_open) =
      (is_open ≡ false)
      × (satisfies hash block diff nonce ≡ true)
      × IsNonce n nonce
      × ((x : List ℕ)
          → IsNonce n x
          → value start ≤ value x
          → value x < value nonce
          → satisfies hash block diff x ≡ false)
  Outcome fuel start (ends (pos (suc k)) nonce is_open) =
      (is_open ≡ true)
      × ((x : List ℕ) → IsNonce n x → value start ≤ value x → satisfies hash block diff x ≡ false)

  -- The nonce fails, so that what holds of the ones behind it holds from it on.
  behind :
      (start next x : List ℕ)
      → IsNonce n start
      → IsNonce n x
      → satisfies hash block diff start ≡ false
      → value next ≡ value start + 1
      → value start ≤ value x
      → (value next ≤ value x → satisfies hash block diff x ≡ false)
      → satisfies hash block diff x ≡ false
  behind start next x is_start is_x fails after from rest =
      elim (Bool-cases (value x == value start)) [
        | inl here ↦
            ap (satisfies hash block diff)
              (value_injective n x start is_x is_start (ground (arith, here)))
            ∙ fails
        | inr other ↦ rest (ground (arith, other, after, from))
      ]

  extend :
      (fuel : ℕ) (start next : List ℕ) (s : Search)
      → IsNonce n start
      → satisfies hash block diff start ≡ false
      → value next ≡ value start + 1
      → Outcome fuel next s
      → Outcome (suc fuel) start s
  extend fuel start next searching is fails after h = omega (arith, h, after)
  extend fuel start next aborts is fails after h = h
  extend fuel start next (ends (negsuc k) nonce is_open) is fails after h = h
  extend fuel start next (ends (pos zero) nonce is_open) is fails after h = (
    h.0,
    h.1,
    h.2,
    λ x is_x from below.
        behind start next x is is_x fails after from (λ later. h.3 x is_x later below),
  )
  extend fuel start next (ends (pos (suc k)) nonce is_open) is fails after h =
      (h.0, λ x is_x from. behind start next x is is_x fails after from (λ later. h.1 x is_x later))

  -- One round, by its tests, with the search from the next nonce on.
  abbrev one_round :
      (is_canceled is_satisfied : Bool) (start : List ℕ) → Bool × List ℕ → Search → Search
  one_round is_canceled is_satisfied start after rest =
      if is_canceled
      then ends (negsuc 0) start false
      else if is_satisfied
      then ends (pos 0) start false
      else if after.0
      then rest
      else ends (pos 1) after.1 true

  one_round-Outcome :
      (fuel round : ℕ) (is_canceled is_satisfied : Bool) (start : List ℕ) (after : Bool × List ℕ)
      (rest : Search)
      → IsNonce n start
      → canceled round ≡ is_canceled
      → satisfies hash block diff start ≡ is_satisfied
      → Updated n start after
      → (IsNonce n after.1 → Outcome fuel after.1 rest)
      → Outcome (suc fuel) start (one_round is_canceled is_satisfied start after rest)
  one_round-Outcome fuel round true _ start after rest is stop test updated h =
      (refl, (round, stop))
  one_round-Outcome fuel round false true start after rest is stop test updated h =
      (refl, test, is, λ x is_x from below. absurd (omega (arith, from, below)))
  one_round-Outcome fuel round false false start (true, next) rest is stop test updated h =
      extend fuel start next rest is test updated.0 (h updated.1)
  one_round-Outcome fuel round false false start (false, next) rest is stop test updated h = (
    refl,
    λ x is_x from.
        ap (satisfies hash block diff)
          (value_injective n x start is_x is (omega (arith, updated.0, from, value_below n x is_x)))
        ∙ test,
  )

  solve_from-Outcome :
      (fuel round : ℕ) (start : List ℕ)
      → IsNonce n start
      → Outcome fuel start (solve_from hash true fuel round canceled block diff start)
  unfolding solve_from
  solve_from-Outcome zero round start is = omega (arith, value_below n start is)
  solve_from-Outcome (suc f) round start is =
      one_round-Outcome f round (canceled round) (satisfies hash block diff start) start
        (update_nonce start)
        (solve_from hash true f (round + 1) canceled block diff (update_nonce start).1) is refl refl
        (update_nonce-Updated n start is) (solve_from-Outcome f (round + 1) (update_nonce start).1)

  solve-Outcome :
      (fuel : ℕ) (start : List ℕ) (s : Search)
      → IsNonce n start
      → solve hash true fuel canceled block diff start ≡ s
      → Outcome fuel start s
  unfolding solve
  solve-Outcome fuel start s is result =
      subst (λ x. Outcome fuel start x) result (solve_from-Outcome fuel 0 start is)

  -- solve ends within as many rounds as there are nonces from the starting one on, whatever the hash and
  -- the flag are. The handle of the hash opens.
  pub solve_finishes :
      (fuel : ℕ) (start : List ℕ)
      → IsNonce n start
      → space n ≤ value start + fuel
      → solve hash true fuel canceled block diff start ≢ searching
  solve_finishes fuel start is enough runs =
      omega (arith, enough, solve-Outcome fuel start searching is runs)

  pub solve_sound :
      (fuel : ℕ) (start nonce : List ℕ) (is_open : Bool)
      → IsNonce n start
      → solve hash true fuel canceled block diff start ≡ ends (pos 0) nonce is_open
      → satisfies hash block diff nonce ≡ true
  solve_sound fuel start nonce is_open is result =
      (solve-Outcome fuel start (ends (pos 0) nonce is_open) is result).1

  pub solve_IsNonce :
      (fuel : ℕ) (start nonce : List ℕ) (is_open : Bool)
      → IsNonce n start
      → solve hash true fuel canceled block diff start ≡ ends (pos 0) nonce is_open
      → IsNonce n nonce
  solve_IsNonce fuel start nonce is_open is result =
      (solve-Outcome fuel start (ends (pos 0) nonce is_open) is result).2

  -- solve finds the first nonce: when it returns 0, each nonce from the starting one on, up to the one
  -- that it leaves, has a digest that does not satisfy the difficulty.
  pub solve_first :
      (fuel : ℕ) (start nonce x : List ℕ) (is_open : Bool)
      → IsNonce n start
      → solve hash true fuel canceled block diff start ≡ ends (pos 0) nonce is_open
      → IsNonce n x
      → value start ≤ value x
      → value x < value nonce
      → satisfies hash block diff x ≡ false
  solve_first fuel start nonce x is_open is result is_x from below =
      (solve-Outcome fuel start (ends (pos 0) nonce is_open) is result).3 x is_x from below

  -- What a search that is never canceled ends with, when a nonce from the starting one on satisfies.
  found_by :
      (fuel : ℕ) (start x : List ℕ) (s : Search)
      → ((round : ℕ) → canceled round ≡ false)
      → space n ≤ value start + fuel
      → IsNonce n x
      → value start ≤ value x
      → satisfies hash block diff x ≡ true
      → Outcome fuel start s
      → (nonce : List ℕ) × (s ≡ ends (pos 0) nonce false)
        × (satisfies hash block diff nonce ≡ true)
        × (value nonce ≤ value x)
  found_by fuel start x searching free enough is_x from right h = absurd (omega (arith, h, enough))
  found_by fuel start x aborts free enough is_x from right h = elim h [ ]
  found_by fuel start x (ends (negsuc k) nonce is_open) free enough is_x from right h =
      absurd (ground (arith, h.1.1, free h.1.0))
  found_by fuel start x (ends (pos (suc k)) nonce is_open) free enough is_x from right h =
      absurd (ground (arith, right, h.1 x is_x from))
  found_by fuel start x (ends (pos zero) nonce is_open) free enough is_x from right h = (
    nonce,
    ap (ends (pos 0) nonce) h.0,
    h.1,
    elim (Bool-cases (ltb (value x) (value nonce))) [
      | inl below ↦ absurd (ground (arith, right, h.3 x is_x from (ground (arith, below))))
      | inr not_below ↦ ground (arith, not_below)
    ],
  )

  -- solve is complete: if some nonce from the starting one on satisfies the difficulty, and the flag is
  -- never set, then solve returns 0, closes the handle, and leaves a nonce that satisfies the
  -- difficulty and is not above that one. The fuel covers the nonces from the starting one on.
  pub solve_complete :
      (fuel : ℕ) (start x : List ℕ)
      → IsNonce n start
      → ((round : ℕ) → canceled round ≡ false)
      → space n ≤ value start + fuel
      → IsNonce n x
      → value start ≤ value x
      → satisfies hash block diff x ≡ true
      → (nonce : List ℕ) × (solve hash true fuel canceled block diff start
          ≡ ends (pos 0) nonce false)
        × (satisfies hash block diff nonce ≡ true)
        × (value nonce ≤ value x)
  solve_complete fuel start x is free enough is_x from right =
      found_by fuel start x (solve hash true fuel canceled block diff start) free enough is_x from
        right (solve-Outcome fuel start (solve hash true fuel canceled block diff start) is refl)
