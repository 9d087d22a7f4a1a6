-- ===== src/Pipes/Streams.antt =====
-- HW4-Multi-process-Problem-Solver/src/master_helper.c: a FILE gives the bytes of a pipe in order.
use system_fundamentals_ii_c.Prelude.{
  List, [], arith, drop, length, refl, suc, take, take-append-drop, zero, ℕ, ◌++◌, ◌-◌, ◌∙◌, ◌∷◌,
  ◌≡◌, ◌≤◌,
}
use system_fundamentals_ii_c.Pipes.{File, chunk, fdopen, fgetc, next_byte, read_bytes}

-- What is still to come from a FILE.
abbrev pub stream : File → List ℕ
stream f = f.buffer ++ f.pipe

-- One byte that is there.
next_byte-stream :
    (buffer pipe : List ℕ) (byte : ℕ) (rest : List ℕ)
    → buffer ++ pipe ≡ byte ∷ rest
    → ((next_byte buffer pipe).0 ≡ byte) × (stream (next_byte buffer pipe).1 ≡ rest)
next_byte-stream [] [] byte rest comes = absurd (cc comes)
next_byte-stream [] (first ∷ pipe) byte rest comes =
    (cc comes, take-append-drop (chunk - 1) pipe ∙ cc comes)
next_byte-stream (first ∷ buffer) pipe byte rest comes = (cc comes, cc comes)

-- The loop reads the bytes that come first, and leaves those behind them.
pub read_bytes-stream :
    (n : ℕ) (f : File) (first rest : List ℕ)
    → length first ≡ n
    → stream f ≡ first ++ rest
    → ((read_bytes n f).0 ≡ first) × (stream (read_bytes n f).1 ≡ rest)
unfolding read_bytes fgetc
read_bytes-stream zero f [] rest long comes = (refl, comes)
read_bytes-stream zero f (byte ∷ first) rest long comes = absurd (omega (arith, long))
read_bytes-stream (suc n) f [] rest long comes = absurd (omega (arith, long))
read_bytes-stream (suc n) f (byte ∷ first) rest long comes =
    let one = next_byte-stream f.buffer f.pipe byte (first ++ rest) comes in
    let more = read_bytes-stream n (fgetc f).1 first rest (omega (arith, long)) one.1 in
    (cc (one.0, more.0), more.1)

-- A pipe that is empty stays empty.
pub read_bytes-empty : (n : ℕ) (f : File) → f.pipe ≡ [] → (read_bytes n f).1.pipe ≡ []
unfolding read_bytes fgetc
read_bytes-empty zero f empty = empty
read_bytes-empty (suc n) f empty = read_bytes-empty n (fgetc f).1 (after f.buffer f.pipe empty)
  where
    after : (buffer pipe : List ℕ) → pipe ≡ [] → (next_byte buffer pipe).1.pipe ≡ []
    after [] [] none_left = refl
    after [] (byte ∷ pipe) none_left = absurd (cc none_left)
    after (byte ∷ buffer) pipe none_left = none_left

drop_all : (n : ℕ) (xs : List ℕ) → length xs ≤ n → drop n xs ≡ []
drop_all zero [] short = refl
drop_all zero (x ∷ xs) short = absurd (omega (arith, short))
drop_all (suc n) [] short = refl
drop_all (suc n) (x ∷ xs) short = drop_all n xs (omega (arith, short))

-- The first byte that is read from a new FILE takes all the bytes of a pipe, up to a chunk, out of it.
pub read_bytes-fdopen :
    (n : ℕ) (pipe : List ℕ) → length pipe ≤ chunk → (read_bytes (suc n) (fdopen pipe)).1.pipe ≡ []
unfolding read_bytes fgetc
read_bytes-fdopen n [] short = read_bytes-empty n (record { buffer = []; pipe = [] }) refl
read_bytes-fdopen n (byte ∷ pipe) short =
    read_bytes-empty n (record { buffer = take (chunk - 1) pipe; pipe = drop (chunk - 1) pipe })
      (drop_all (chunk - 1) pipe (omega (arith, short)))
