-- ===== src/Sequitur/Options.antt =====
-- HW1-Compression-Decompression-Utility/src/comdec.c: validargs, and the block size that
-- src/main.c takes from its result. A string is the list of its characters, without the NUL.
pub mod Sizes
use system_fundamentals_ii_c.Prelude.{
  Bool, List, Option, [], bit_and, bit_or, get_elem?, if◌then◌else◌, leb, length, ltb, none, not,
  some, ℕ, ◌%◌, ◌&&◌, ◌*◌, ◌+◌, ◌-◌, ◌/◌, ◌==◌, ◌^◌, ◌||◌, ◌∷◌,
}

-- `*(s + i)`: the character at `i`, or the NUL. Behind the NUL is other memory: `behind`.
abbrev pub char_at : List ℕ → ℕ → ℕ → ℕ
char_at s i behind = elim (get_elem? s i) [
  | some c ↦ c
  | none ↦ if i == length s then 0 else behind
]

-- The loop over the digits of the block size. A digit makes it `blocksize * 10 + num`, an int: past
-- its range the machine wraps.
unfoldable pub read_size : (blocksize : ℕ) → List ℕ → Option ℕ
read_size blocksize [] = some blocksize
read_size blocksize (c ∷ s) =
    let longer = read_size ((blocksize * 10 + (c - 48)) % 2 ^ 32) s in
    if ltb c 48 || ltb 57 c then none else longer

-- `*(flag) != '-' || *(flag + 2) != 0`, negated. `behind` is what follows the string in memory.
abbrev is_flag : List ℕ → ℕ → Bool
is_flag s behind = char_at s 0 behind == b'-' && char_at s 2 behind == 0

-- `blocksize <= 1024 && blocksize >= 1`, on the 32 bits of the int, and the options it gives.
abbrev size_option : Option ℕ → Option ℕ
size_option none = none
size_option (some n) =
    if leb n 1024 && leb 1 n then some (bit_or (bit_or 0 (n * 2 ^ 16)) 2) else none

-- The options behind the flag -c.
abbrev compress_options : List (List ℕ) → ℕ → Option ℕ
compress_options [] behind = some (bit_or (bit_or 0 0x04000000) 2)
compress_options (flag2 ∷ []) behind = none
compress_options (flag2 ∷ flag3 ∷ []) behind =
    if is_flag flag2 behind && char_at flag2 1 behind == b'b'
    then size_option (read_size 0 flag3)
    else none
compress_options (flag2 ∷ flag3 ∷ more ∷ rest) behind = none

abbrev decompress_options : List (List ℕ) → Option ℕ
decompress_options [] = some (bit_or 0 4)
decompress_options (more ∷ rest) = none

-- validargs: global_options, or `none` for -1. The arguments are those behind the program's name.
unfoldable pub validargs : List (List ℕ) → ℕ → Option ℕ
unfolding read_size
validargs [] behind = none
validargs (flag1 ∷ rest) behind =
    if not (is_flag flag1 behind)
    then none
    else if char_at flag1 1 behind == b'h'
    then some (bit_or 0 1)
    else if char_at flag1 1 behind == b'c'
    then compress_options rest behind
    else if char_at flag1 1 behind == b'd'
    then decompress_options rest
    else none

-- `(global_options & 0xFFFF0000) >> 16`
unfoldable pub block_size : ℕ → ℕ
block_size options = bit_and options 0xFFFF0000 / 2 ^ 16
