-- ===== src/Inodes.antt =====
-- HW2-Debugging/src/hash.c: the tables of inodes. The counters for the statistics, which are printed
-- only where HSTATS is defined, are left out, and memory is always allocated.
pub mod Entered
mod Tests
use system_fundamentals_ii_c.Prelude.{
  Bool, Option, false, if◌then◌else◌, ltb, none, some, suc, true, zero, ℕ, ◌%◌, ◌+◌, ◌==◌,
}

-- struct hbucket: `keys` is memory for `length` inodes.
pub record Bucket : Type 0 where
  pub length : ℕ
  pub filled : ℕ
  pub keys : ℕ → ℕ

-- struct htable
pub record Table : Type 0 where
  pub device : ℕ
  pub buckets : ℕ → Bucket

-- The static variables: `tables`, and `tablep` as an index of it.
pub record Tables : Type 0 where
  pub tables : ℕ → Option Table
  pub tablep : Option ℕ

-- OLD and NEW
pub data Entry : Type 0 where
  old new : Entry

-- A call returns, or reads or writes outside of an array.
pub data Outcome (A : Type 0) : Type 0 where
  returns : A → Outcome A
  faults : Outcome A

abbrev pub update {ℓ} : {A : Type ℓ} → (ℕ → A) → ℕ → A → ℕ → A
update f a v x = if x == a then v else f x

-- BUCKETS, TABLES and EXTEND
abbrev pub bucket_count : ℕ
bucket_count = 257

abbrev pub table_count : ℕ
table_count = 50

abbrev pub extend : ℕ
extend = 100

-- The loop over the keys, at `i`: where it stops.
unfoldable pub search_from : Bucket → (rounds i ino : ℕ) → ℕ
search_from b zero i ino = i
search_from b (suc n) i ino =
    let rest = search_from b n (i + 1) ino in if b.keys i == ino then i else rest

-- `i && *keyp == ino`: `none` where it reads behind the keys.
abbrev pub is_old : Bucket → ℕ → ℕ → Option Bool
is_old b zero ino = some false
is_old b (suc i) ino = if ltb (suc i) b.length then some (b.keys (suc i) == ino) else none

-- More memory for the keys: calloc gives zeros, realloc keeps what is there. `fresh` is what the rest
-- of the memory that realloc gives holds.
abbrev pub extended : (fresh : ℕ → ℕ) → Bucket → Bucket
extended fresh b = if b.length == 0 then record b { keys = λ i. 0; length = extend } else record b {
  keys = λ i. if ltb i b.length then b.keys i else fresh i;
  length = b.length + extend;
}

-- `bucketp->keys[++(bucketp->filled)] = ino`
abbrev pub append : Bucket → ℕ → Outcome (Entry × Bucket)
append b ino =
    if ltb (b.filled + 1) b.length
    then returns (new, record b { filled = b.filled + 1; keys = update b.keys (b.filled + 1) ino })
    else faults

-- What h_enter does with the bucket.
unfoldable pub enter_bucket : (fresh : ℕ → ℕ) → Bucket → ℕ → Outcome (Entry × Bucket)
unfolding search_from
enter_bucket fresh b ino = elim (is_old b (search_from b b.filled 0 ino) ino) [
  | none ↦ faults
  | some true ↦ returns (old, b)
  | some false ↦ if b.filled == b.length then append (extended fresh b) ino else append b ino
]

abbrev empty_table : ℕ → Table
empty_table dev = record {
  device = dev;
  buckets = λ i. record { length = 0; filled = 0; keys = λ j. 0 };
}

-- `tablep->device != dev`, negated, and the same of an entry of `tables`
abbrev is_for : Option Table → ℕ → Bool
is_for none dev = false
is_for (some t) dev = t.device == dev

-- The loop that looks for the table of the device: it stops at an entry that is NULL or the table. The
-- array ends after `rounds` entries.
unfoldable pub table_from : (ℕ → Option Table) → (rounds i dev : ℕ) → Option ℕ
table_from tables zero i dev = none
table_from tables (suc n) i dev =
    let rest = table_from tables n (i + 1) dev in
    elim (tables i) [ none ↦ some i | some t ↦ if t.device == dev then some i else rest ]

-- The table at an index, which is made if there is none.
abbrev table_at : Option Table → ℕ → Table
table_at none dev = empty_table dev
table_at (some t) dev = t

abbrev put_bucket : Tables → ℕ → Table → ℕ → Entry × Bucket → Entry × Tables
put_bucket m i t ino (entry, b) = (
  entry,
  record m {
    tables =
        update m.tables i (some (record t { buckets = update t.buckets (ino % bucket_count) b }));
    tablep = some i;
  },
)

-- h_enter with the table at index `i`.
abbrev enter_table : (ℕ → ℕ) → Tables → ℕ → ℕ → ℕ → Outcome (Entry × Tables)
enter_table fresh m i dev ino =
    let t = table_at (m.tables i) dev in
    elim (enter_bucket fresh (t.buckets (ino % bucket_count)) ino) [
      | faults ↦ faults
      | returns r ↦ returns (put_bucket m i t ino r)
    ]

-- Whether tablep is the table of the device.
abbrev current : Tables → ℕ → Option ℕ
current m dev = elim m.tablep [
  | none ↦ none
  | some i ↦ if is_for (m.tables i) dev then some i else none
]

-- The table that h_enter looks up, where tablep is another one or NULL.
abbrev enter_found : (ℕ → ℕ) → Tables → Option ℕ → ℕ → ℕ → Outcome (Entry × Tables)
enter_found fresh m none dev ino = faults
enter_found fresh m (some i) dev ino = enter_table fresh m i dev ino

unfoldable pub h_enter : (fresh : ℕ → ℕ) → Tables → (dev ino : ℕ) → Outcome (Entry × Tables)
unfolding enter_bucket table_from
h_enter fresh m dev ino = elim (current m dev) [
  | some i ↦ enter_table fresh m i dev ino
  | none ↦ enter_found fresh m (table_from m.tables table_count 0 dev) dev ino
]
