-- ===== src/Inodes/Tests.antt =====
-- Examples for the tables of inodes: each theorem at a concrete bucket, and a run.
use system_fundamentals_ii_c.Prelude.{Option, arith, none, refl, some, ◌≡◌}
use system_fundamentals_ii_c.Inodes.{
  Bucket, Entry, Tables, enter_bucket, faults, h_enter, new, old, returns, update,
}
use system_fundamentals_ii_c.Inodes.Entered.{enter_bucket_overflows}

abbrev empty_bucket : Bucket
empty_bucket = record { length = 0; filled = 0; keys = λ i. 0 }

abbrev bucket_of_one : Bucket
bucket_of_one = record { length = 100; filled = 1; keys = update (λ i. 0) 1 7 }

-- The hundredth key of a bucket.
abbrev almost_full : Bucket
almost_full = record { length = 100; filled = 99; keys = λ i. i }

enter_bucket_overflows_example : enter_bucket (λ i. 5) almost_full 500 ≡ faults
enter_bucket_overflows_example =
    enter_bucket_overflows (λ i. 5) almost_full 500 (λ j below e. ground (arith, e)) refl

abbrev no_tables : Tables
no_tables = record { tables = λ i. none; tablep = none }

-- The same inode on a device, on another device, and on the first one again.
unfoldable three_calls : Option (Entry × Entry × Entry)
unfolding h_enter
three_calls = elim (h_enter (λ i. 5) no_tables 1 300) [
  | faults ↦ none
  | returns (e, one) ↦ elim (h_enter (λ i. 5) one 2 300) [
    | faults ↦ none
    | returns (f, two) ↦ elim (h_enter (λ i. 5) two 1 300) [
      | faults ↦ none
      | returns (g, three) ↦ some (e, f, g)
    ]
  ]
]

three_calls_lem : three_calls ≡ some (new, new, old)
unfolding three_calls
three_calls_lem = refl
