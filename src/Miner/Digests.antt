-- ===== src/Miner/Digests.antt =====
-- HW4-Multi-process-Problem-Solver/src/crypto_miner.c: the difficulty of a digest.
use system_fundamentals_ii_c.Prelude.{
  Bool, Bool-cases, List, [], all_below, all_below_lem, ap, arith, bit_and, false, if◌then◌else◌,
  inl, inr, leb, not, refl, suc, sym, true, ℕ, ◌%◌, ◌++◌, ◌-◌, ◌/◌, ◌<◌, ◌==◌, ◌^◌, ◌∙◌, ◌∷◌, ◌≡◌,
  ◌≤◌,
}
use system_fundamentals_ii_c.Miner.{
  Verdict, check_byte, check_digest, decided, decrement, undecided,
}

-- The bits of a byte, and of a digest, the most significant one first.
unfoldable pub bits_of : ℕ → List Bool
bits_of byte =
    (byte / 128 % 2 == 1)
    ∷ (byte / 64 % 2 == 1)
    ∷ (byte / 32 % 2 == 1)
    ∷ (byte / 16 % 2 == 1)
    ∷ (byte / 8 % 2 == 1)
    ∷ (byte / 4 % 2 == 1)
    ∷ (byte / 2 % 2 == 1)
    ∷ (byte / 1 % 2 == 1)
    ∷ []

unfoldable pub digest_bits : List ℕ → List Bool
unfolding bits_of
digest_bits [] = []
digest_bits (byte ∷ digest) = bits_of byte ++ digest_bits digest

-- The number of bits before the first one that is set.
unfoldable pub leading_zeros : List Bool → ℕ
leading_zeros [] = 0
leading_zeros (bit ∷ bits) = let rest = leading_zeros bits in if bit then 0 else suc rest

-- The loop over the masks, on bits.
unfoldable check_bits : List Bool → (diff : ℕ) → Verdict
check_bits [] diff = undecided diff
check_bits (bit ∷ bits) diff =
    let diff' = decrement diff in
    let rest = check_bits bits diff' in
    if bit then decided false else if diff' == 0 then decided true else rest

masked_bits : ℕ → List Bool
masked_bits b =
    not (bit_and b 128 == 0)
    ∷ not (bit_and b 64 == 0)
    ∷ not (bit_and b 32 == 0)
    ∷ not (bit_and b 16 == 0)
    ∷ not (bit_and b 8 == 0)
    ∷ not (bit_and b 4 == 0)
    ∷ not (bit_and b 2 == 0)
    ∷ not (bit_and b 1 == 0)
    ∷ []

check_byte-check_bits :
    (byte diff : ℕ) → check_byte 8 128 byte diff ≡ check_bits (masked_bits byte) diff
unfolding check_byte check_bits masked_bits
check_byte-check_bits byte diff = refl

same_bit : Bool → Bool → Bool
same_bit true b = b
same_bit false b = not b

same_bit_eq : (a b : Bool) → same_bit a b ≡ true → a ≡ b
unfolding same_bit
same_bit_eq true b h = sym h
same_bit_eq false true h = h
same_bit_eq false false h = refl

bit_at : (byte k : ℕ) → Bool
unfolding same_bit
bit_at byte k = same_bit (not (bit_and byte (2 ^ k) == 0)) (byte / 2 ^ k % 2 == 1)

all_bits : all_below 256 (λ byte. all_below 8 (bit_at byte)) ≡ true
unfolding all_below bit_at same_bit
all_bits = refl

bit_lem :
    (byte k : ℕ) → byte < 256 → k < 8 → not (bit_and byte (2 ^ k) == 0) ≡ (byte / 2 ^ k % 2 == 1)
unfolding bit_at
bit_lem byte k small inside =
    same_bit_eq (not (bit_and byte (2 ^ k) == 0)) (byte / 2 ^ k % 2 == 1) (
      all_below_lem 8 (bit_at byte) k
        (all_below_lem 256 (λ byte. all_below 8 (bit_at byte)) byte all_bits small) inside)

masked_bits-bits_of : (byte : ℕ) → byte < 256 → masked_bits byte ≡ bits_of byte
unfolding masked_bits bits_of
masked_bits-bits_of byte small = cc (
  bit_lem byte 7 small (omega arith),
  bit_lem byte 6 small (omega arith),
  bit_lem byte 5 small (omega arith),
  bit_lem byte 4 small (omega arith),
  bit_lem byte 3 small (omega arith),
  bit_lem byte 2 small (omega arith),
  bit_lem byte 1 small (omega arith),
  bit_lem byte 0 small (omega arith),
)

-- check_result, on bits.
unfoldable check_all : List Bool → (diff : ℕ) → Bool
check_all [] diff = false
check_all (bit ∷ bits) diff =
    let diff' = decrement diff in
    let rest = check_all bits diff' in if bit then false else if diff' == 0 then true else rest

-- The bits that follow, by what the loop over the first ones says.
abbrev settle : List Bool → Verdict → Bool
unfolding check_all
settle bits (decided answer) = answer
settle bits (undecided diff) = check_all bits diff

check_all-append :
    (xs ys : List Bool) (diff : ℕ) → check_all (xs ++ ys) diff ≡ settle ys (check_bits xs diff)
unfolding check_all check_bits
check_all-append [] ys diff = refl
check_all-append (true ∷ xs) ys diff = refl
check_all-append (false ∷ xs) ys diff = elim (Bool-cases (decrement diff == 0)) [
  | inl h ↦
      ap (λ b. if b then true else check_all (xs ++ ys) (decrement diff)) h
      ∙ sym (ap (λ b. settle ys (if b then decided true else check_bits xs (decrement diff))) h)
  | inr h ↦
      ap (λ b. if b then true else check_all (xs ++ ys) (decrement diff)) h
      ∙ check_all-append xs ys (decrement diff)
      ∙ sym (ap (λ b. settle ys (if b then decided true else check_bits xs (decrement diff))) h)
]

-- The bytes of a digest are below 256.
abbrev pub IsBytes : List ℕ → Type 0
IsBytes [] = Unit
IsBytes (byte ∷ bytes) = (byte < 256) × IsBytes bytes

-- The digest that follows, by what the loop over the masks says.
abbrev settle_digest : List ℕ → Verdict → Bool
unfolding check_digest
settle_digest digest (decided answer) = answer
settle_digest digest (undecided diff) = check_digest digest diff

settled :
    (digest : List ℕ) (v : Verdict)
    → ((d : ℕ) → check_digest digest d ≡ check_all (digest_bits digest) d)
    → settle_digest digest v ≡ settle (digest_bits digest) v
unfolding settle settle_digest
settled digest (decided answer) rest = refl
settled digest (undecided d) rest = rest d

check_digest-check_all :
    (digest : List ℕ) (diff : ℕ)
    → IsBytes digest
    → check_digest digest diff ≡ check_all (digest_bits digest) diff
unfolding check_digest digest_bits check_all
check_digest-check_all [] diff is = refl
check_digest-check_all (byte ∷ digest) diff is =
    ap (settle_digest digest) (
      check_byte-check_bits byte diff
      ∙ ap (λ bits. check_bits bits diff) (masked_bits-bits_of byte is.0))
    ∙ settled digest (check_bits (bits_of byte) diff) (λ d. check_digest-check_all digest d is.1)
    ∙ sym (check_all-append (bits_of byte) (digest_bits digest) diff)

-- The number of bits that is asked for: `--diff` makes 2 ^ 32 of 0.
abbrev pub asked : (diff : ℕ) → ℕ
asked diff = if diff == 0 then 4294967296 else diff

check_all_lem :
    (bits : List Bool) (d : ℕ)
    → 0 < d
    → d ≤ 4294967296
    → check_all bits (d % 4294967296) ≡ leb d (leading_zeros bits)
unfolding check_all leading_zeros
check_all_lem [] d above below = ground arith
check_all_lem (true ∷ bits) d above below = ground arith
check_all_lem (false ∷ bits) d above below =
    ap (λ x. if x == 0 then true else check_all bits x) lower ∙ elim (Bool-cases (d - 1 == 0)) [
      | inl h ↦ ground (arith, h)
      | inr h ↦ ground (arith, h, check_all_lem bits (d - 1))
    ]
  where
    lower : decrement (d % 4294967296) ≡ (d - 1) % 4294967296
    lower = omega arith

asked_mod : (diff : ℕ) → diff < 4294967296 → diff ≡ asked diff % 4294967296
asked_mod diff small = ground arith

-- check_result says whether the digest has so many leading zero bits as are asked for. A difficulty of 0
-- is one of 2 ^ 32. The bytes of the digest are below 256.
pub check_digest-leading_zeros :
    (digest : List ℕ) (diff : ℕ)
    → IsBytes digest
    → diff < 4294967296
    → check_digest digest diff ≡ leb (asked diff) (leading_zeros (digest_bits digest))
check_digest-leading_zeros digest diff is small =
    check_digest-check_all digest diff is
    ∙ ap (check_all (digest_bits digest)) (asked_mod diff small)
    ∙ check_all_lem (digest_bits digest) (asked diff) (ground arith) (ground arith)
