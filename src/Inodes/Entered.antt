-- ===== src/Inodes/Entered.antt =====
-- h_enter of hash.c knows the inodes that it has entered, and writes behind the keys of a bucket.
use system_fundamentals_ii_c.Prelude.{
  Bool-cases, Option-cases, ap, arith, false, inl, inr, some, suc, sym, true, zero, ℕ, ◌+◌, ◌<◌,
  ◌==◌, ◌∙◌, ◌≡◌, ◌≢◌, ◌≤◌, ◌⊎◌,
}
use system_fundamentals_ii_c.Inodes.{
  Bucket, Entry, append, enter_bucket, extended, faults, is_old, old, returns, search_from,
}

-- The key at 0 is not used, and the bucket is empty or has room for the keys that it holds.
abbrev pub IsSound : Bucket → Type 0
IsSound b = (b.keys 0 ≡ 0) × ((b.filled < b.length) ⊎ ((b.length ≡ 0) × (b.filled ≡ 0)))

-- A key that stands where the search would end is found there or before.
search_from_hits :
    (b : Bucket) (n i ino : ℕ)
    → b.keys (i + n) ≡ ino
    → (b.keys (search_from b n i ino) ≡ ino)
      × (i ≤ search_from b n i ino)
      × (search_from b n i ino ≤ i + n)
unfolding search_from
search_from_hits b zero i ino h = ground (arith, h)
search_from_hits b (suc n) i ino h =
    ground (arith, search_from_hits b n (i + 1) ino (ap b.keys (the_end i n) ∙ h))
  where
    the_end : (i n : ℕ) → i + 1 + n ≡ i + suc n
    the_end i n = omega arith

search_from_misses :
    (b : Bucket) (n i ino : ℕ)
    → ((j : ℕ) → i ≤ j → j < i + n → b.keys j ≢ ino)
    → search_from b n i ino ≡ i + n
unfolding search_from
search_from_misses b zero i ino h = omega arith
search_from_misses b (suc n) i ino h = ground (
  arith,
  h i (omega arith) (omega arith),
  search_from_misses b n (i + 1) ino (λ j low high. h j (omega arith) (omega arith)),
)

is_old-hit :
    (b : Bucket) (k ino : ℕ)
    → b.keys k ≡ ino
    → b.keys 0 ≢ ino
    → k < b.length
    → is_old b k ino ≡ some true
is_old-hit b zero ino e ne below = absurd (ne e)
is_old-hit b (suc k) ino e ne below = ground (arith, e, below)

-- A bucket whose last key is the inode has it.
enter_bucket-last :
    (fresh : ℕ → ℕ) (b : Bucket) (ino : ℕ)
    → b.keys b.filled ≡ ino
    → b.keys 0 ≢ ino
    → b.filled < b.length
    → enter_bucket fresh b ino ≡ returns (old, b)
unfolding enter_bucket
enter_bucket-last fresh b ino e ne below =
    let (hit, low, high) = search_from_hits b b.filled 0 ino (ap b.keys (omega arith) ∙ e) in
    ground
      (arith, is_old-hit b (search_from b b.filled 0 ino) ino hit ne (omega (arith, high, below)))

-- What is true of a bucket after a new key.
append-last :
    (b b' : Bucket) (ino : ℕ) (e : Entry)
    → b.keys 0 ≡ 0
    → append b ino ≡ returns (e, b')
    → (b'.keys 0 ≡ 0) × (b'.keys b'.filled ≡ ino) × (b'.filled < b'.length)
append-last b b' ino e zero_key h = ground (arith, zero_key, h)

-- A new key is written to the bucket, or to the larger one.
enter_bucket-new :
    (fresh : ℕ → ℕ) (b b' : Bucket) (ino : ℕ) (e : Entry)
    → IsSound b
    → is_old b (search_from b b.filled 0 ino) ino ≡ some false
    → enter_bucket fresh b ino ≡ returns (e, b')
    → (b'.keys 0 ≡ 0) × (b'.keys b'.filled ≡ ino) × (b'.filled < b'.length)
unfolding enter_bucket
enter_bucket-new fresh b b' ino e (zero_key, room) absent h =
    elim (Bool-cases (b.filled == b.length)) [
      | inl full ↦
          append-last (extended fresh b) b' ino e (ground (arith, zero_key, room, full))
            (ground (arith, absent, full, h))
      | inr free ↦ append-last b b' ino e zero_key (ground (arith, absent, free, h))
    ]

-- h_enter on one bucket that is sound, with an inode that is not 0: a second call with the same inode
-- finds it, and changes nothing.
pub enter_bucket-again :
    (fresh : ℕ → ℕ) (b b' : Bucket) (ino : ℕ) (e : Entry)
    → IsSound b
    → ino ≢ 0
    → enter_bucket fresh b ino ≡ returns (e, b')
    → IsSound b' × (enter_bucket fresh b' ino ≡ returns (old, b'))
unfolding enter_bucket
enter_bucket-again fresh b b' ino e sound ne h =
    elim (Option-cases (is_old b (search_from b b.filled 0 ino) ino)) [
      | inl lost ↦ absurd (ground (arith, lost, h))
      | inr (true, found) ↦ ground (arith, found, h, sound)
      | inr (false, absent) ↦
          let (first, last, room) = enter_bucket-new fresh b b' ino e sound absent h in
          ((first, inl room), enter_bucket-last fresh b' ino last (λ eq. ne (sym eq ∙ first)) room)
    ]

-- h_enter on one bucket that is sound: an inode that it does not hold is written behind its memory,
-- if one place of the memory is left.
pub enter_bucket_overflows :
    (fresh : ℕ → ℕ) (b : Bucket) (ino : ℕ)
    → ((j : ℕ) → j ≤ b.filled → b.keys j ≢ ino)
    → b.filled + 1 ≡ b.length
    → enter_bucket fresh b ino ≡ faults
unfolding enter_bucket
enter_bucket_overflows fresh b ino absent full = ground (
  arith,
  search_from_misses b b.filled 0 ino (λ j low high. absent j (omega arith)),
  absent b.filled (omega arith),
  full,
)
