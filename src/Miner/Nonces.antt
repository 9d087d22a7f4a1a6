-- ===== src/Miner/Nonces.antt =====
-- HW4-Multi-process-Problem-Solver/src/crypto_miner.c: a nonce is a counter in base 256.
use system_fundamentals_ii_c.Prelude.{
  Bool, Bool-cases, List, [], ap, arith, false, if◌then◌else◌, inl, inr, length, not, refl, subst,
  suc, sym, true, zero, ℕ, ◌%◌, ◌&&◌, ◌*◌, ◌+◌, ◌<◌, ◌==◌, ◌∷◌, ◌≡◌,
}
use system_fundamentals_ii_c.Miner.{carry_from, update_nonce}

-- A nonce as a number: the least significant byte is the first.
unfoldable pub value : List ℕ → ℕ
value [] = 0
value (byte ∷ bytes) = byte + 256 * value bytes

-- The number of nonces of `n` bytes.
unfoldable pub space : (n : ℕ) → ℕ
space zero = 1
space (suc n) = 256 * space n

-- The bytes of a nonce of `n` bytes.
abbrev pub IsNonce : (n : ℕ) → List ℕ → Type 0
IsNonce zero [] = Unit
IsNonce zero (_ ∷ _) = ⊥
IsNonce (suc n) [] = ⊥
IsNonce (suc n) (byte ∷ bytes) = (byte < 256) × IsNonce n bytes

pub length-IsNonce : (n : ℕ) (nonce : List ℕ) → IsNonce n nonce → length nonce ≡ n
length-IsNonce zero [] is = refl
length-IsNonce zero (_ ∷ _) is = elim is [ ]
length-IsNonce (suc n) [] is = elim is [ ]
length-IsNonce (suc n) (byte ∷ bytes) is = ap suc (length-IsNonce n bytes is.1)

pub value_below : (n : ℕ) (nonce : List ℕ) → IsNonce n nonce → value nonce < space n
unfolding value space
value_below zero [] is = omega arith
value_below zero (_ ∷ _) is = elim is [ ]
value_below (suc n) [] is = elim is [ ]
value_below (suc n) (byte ∷ bytes) is = omega (arith, value_below n bytes is.1, is.0)

pub value_injective : (n : ℕ) (a b : List ℕ) → IsNonce n a → IsNonce n b → value a ≡ value b → a ≡ b
unfolding value
value_injective zero [] [] is_a is_b same = refl
value_injective zero (_ ∷ _) b is_a is_b same = elim is_a [ ]
value_injective zero [] (_ ∷ _) is_a is_b same = elim is_b [ ]
value_injective (suc n) [] b is_a is_b same = elim is_a [ ]
value_injective (suc n) (_ ∷ _) [] is_a is_b same = elim is_b [ ]
value_injective (suc n) (x ∷ a) (y ∷ b) is_a is_b same =
    let lowest : x ≡ y = omega (arith, is_a.0, is_b.0, same) in
    cc (lowest, value_injective n a b is_a.1 is_b.1 (omega (arith, is_a.0, is_b.0, same)))

-- What the loop leaves: the number after the nonce, or 0 with the carry, at the last byte.
abbrev Carried : (n i : ℕ) → List ℕ → Bool × ℕ × List ℕ → Type 0
Carried n i nonce (true, j, nonce') =
    (j ≡ i + n) × (value nonce + 1 ≡ space n) × (value nonce' ≡ 0) × IsNonce n nonce'
Carried n i nonce (false, j, nonce') = (value nonce' ≡ value nonce + 1) × IsNonce n nonce'

-- The lowest byte is 255, and 0 after the loop.
over :
    (n i byte : ℕ) (bytes : List ℕ) (rest : Bool × ℕ × List ℕ)
    → byte ≡ 255
    → Carried n (i + 1) bytes rest
    → Carried (suc n) i (byte ∷ bytes) (rest.0, rest.1, (byte + 1) % 256 ∷ rest.2)
unfolding value space
over n i byte bytes (true, j, bytes') last (index, full, clear, is) = (
  omega (arith, index),
  omega (arith, last, full),
  omega (arith, last, clear),
  (omega (arith, last), is),
)
over n i byte bytes (false, j, bytes') last (next, is) =
    (omega (arith, last, next), (omega (arith, last), is))

-- One round of the loop, by whether the byte is 0 after it.
abbrev step : Bool → (i byte : ℕ) → List ℕ → Bool × ℕ × List ℕ → Bool × ℕ × List ℕ
step b i byte bytes rest =
    if b then (rest.0, rest.1, byte ∷ rest.2) else (false, i + 1, byte ∷ bytes)

carry_from-Carried :
    (n i : ℕ) (nonce : List ℕ) → IsNonce n nonce → Carried n i nonce (carry_from i nonce)
unfolding carry_from value space
carry_from-Carried zero i [] is = (omega arith, refl, refl, tt)
carry_from-Carried zero i (_ ∷ _) is = elim is [ ]
carry_from-Carried (suc n) i [] is = elim is [ ]
carry_from-Carried (suc n) i (byte ∷ bytes) is = elim (Bool-cases ((byte + 1) % 256 == 0)) [
  | inl last ↦
      subst
        (λ b.
          Carried (suc n) i (byte ∷ bytes)
            (step b i ((byte + 1) % 256) bytes (carry_from (i + 1) bytes)))
        (sym last)
        (over n i byte bytes (carry_from (i + 1) bytes) (ground (arith, is.0))
          (carry_from-Carried n (i + 1) bytes is.1))
  | inr below ↦
      let small : byte < 255 = ground (arith, is.0) in
      let next : Carried (suc n) i (byte ∷ bytes) (false, i + 1, (byte + 1) % 256 ∷ bytes) =
        (omega arith, (omega arith, is.1)) in
      subst
        (λ b.
          Carried (suc n) i (byte ∷ bytes)
            (step b i ((byte + 1) % 256) bytes (carry_from (i + 1) bytes)))
        (sym below) next
]

-- What update_nonce does to a nonce of `n` bytes: it is the next number, or 0 after the last one.
abbrev pub Updated : (n : ℕ) → List ℕ → Bool × List ℕ → Type 0
Updated n nonce (true, nonce') = (value nonce' ≡ value nonce + 1) × IsNonce n nonce'
Updated n nonce (false, nonce') =
    (value nonce + 1 ≡ space n) × (value nonce' ≡ 0) × IsNonce n nonce'

update_from :
    (n : ℕ) (nonce : List ℕ) (after : Bool × ℕ × List ℕ)
    → length nonce ≡ n
    → Carried n 0 nonce after
    → Updated n nonce (not (after.0 && after.1 == length nonce), after.2)
update_from n nonce (true, j, nonce') long (index, full, clear, is) =
    let stop : (j == length nonce) ≡ true = ground (arith, index, long) in
    subst (λ b. Updated n nonce (not b, nonce')) (sym stop) (full, clear, is)
update_from n nonce (false, j, nonce') long carried = carried

-- update_nonce is the successor of a counter: the nonce after it is the next number, of as many bytes,
-- where it returns nonzero. It returns 0 at the last number only, and then the nonce is all zeros.
pub update_nonce-Updated :
    (n : ℕ) (nonce : List ℕ) → IsNonce n nonce → Updated n nonce (update_nonce nonce)
unfolding update_nonce
update_nonce-Updated n nonce is =
    update_from n nonce (carry_from 0 nonce) (length-IsNonce n nonce is)
      (carry_from-Carried n 0 nonce is)
