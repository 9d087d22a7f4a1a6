-- ===== src/Pipes.antt =====
-- HW4-Multi-process-Problem-Solver/src/master_helper.c and src/worker.c: problems and results go through
-- pipes as their bytes.
pub mod Streams
pub mod Objects
pub mod Layout
pub mod Stale
mod Tests
use system_fundamentals_ii_c.Prelude.{
  Bool, List, [], drop, if◌then◌else◌, leb, not, suc, take, zero, ℕ, ◌%◌, ◌&&◌, ◌*◌, ◌++◌, ◌+◌, ◌-◌,
  ◌∷◌,
}

-- A problem or a result in memory is the list of its bytes. The first 8 bytes are the field size, the
-- header is 16 bytes long.
abbrev pub header_size : ℕ
header_size = 16

-- A number of 8 bytes, the least significant one first.
unfoldable pub little_endian : List ℕ → ℕ
little_endian [] = 0
little_endian (byte ∷ bytes) = byte + 256 * little_endian bytes

abbrev pub size_field : List ℕ → ℕ
unfolding little_endian
size_field object = little_endian (take 8 object)

-- write_problem: the bytes that go into the pipe. The pipe takes all of them.
unfoldable pub write_problem : List ℕ → List ℕ
unfolding size_field
write_problem problemo =
    take header_size problemo
    ++ take (size_field problemo - header_size) (drop header_size problemo)

-- write_result
unfoldable pub write_result : List ℕ → List ℕ
unfolding size_field
write_result r = take (size_field r) r

-- write_fail: malloc leaves the id and the padding as they are in the memory that it gives.
unfoldable pub write_fail : (id_low id_high : ℕ) (padding : List ℕ) → List ℕ
write_fail id_low id_high padding =
    16 ∷ 0 ∷ 0 ∷ 0 ∷ 0 ∷ 0 ∷ 0 ∷ 0 ∷ id_low ∷ id_high ∷ 1 ∷ take 5 padding

-- A FILE: the bytes that it has read ahead, and those that are still in the pipe.
pub record File : Type 0 where
  pub buffer : List ℕ
  pub pipe : List ℕ

-- fdopen
abbrev pub fdopen : (pipe : List ℕ) → File
fdopen pipe = record { buffer = []; pipe = pipe }

-- The number of bytes that a FILE reads at once.
abbrev pub chunk : ℕ
chunk = 4096

-- The byte that the cast to char makes of EOF.
abbrev pub eof_byte : ℕ
eof_byte = 255

abbrev pub refill : List ℕ → ℕ × File
refill [] = (eof_byte, record { buffer = []; pipe = [] })
refill (byte ∷ pipe) =
    (byte, record { buffer = take (chunk - 1) pipe; pipe = drop (chunk - 1) pipe })

abbrev pub next_byte : (buffer pipe : List ℕ) → ℕ × File
next_byte [] pipe = refill pipe
next_byte (byte ∷ buffer) pipe = (byte, record { buffer = buffer; pipe = pipe })

-- fgetc, which fills an empty buffer. At the end of the pipe it gives EOF, and the writer has closed it.
unfoldable pub fgetc : File → ℕ × File
fgetc f = next_byte f.buffer f.pipe

-- A loop that reads so many bytes.
unfoldable pub read_bytes : (count : ℕ) → File → List ℕ × File
unfolding fgetc
read_bytes zero f = ([], f)
read_bytes (suc n) f =
    let first = fgetc f in let rest = read_bytes n first.1 in (first.0 ∷ rest.0, rest.1)

-- A call returns an object, ends the process since there is no memory, or writes behind the memory.
pub data Reading : Type 0 where
  gives_object : (object : List ℕ) → File → Reading
  exits writes_behind : Reading

-- The size of the rest: `size -= sizeof` on 64 bits.
abbrev pub size_left : (size : ℕ) → ℕ
size_left size = (size + 18446744073709551616 - header_size) % 18446744073709551616

-- What malloc and realloc give is a parameter, by the size.
module _ (allocates : ℕ → Bool) where
  -- What is done when the header is read. The memory holds `size` bytes; the index is an int.
  abbrev pub read_rest : List ℕ × File → Reading
  unfolding size_field read_bytes
  read_rest (header, f) =
      if not (allocates (size_field header))
      then exits
      else if leb (header_size + size_left (size_field header)) (size_field header)
          && leb (size_left (size_field header)) 2147483648
      then gives_object (header ++ (read_bytes (size_left (size_field header)) f).0)
          (read_bytes (size_left (size_field header)) f).1
      else writes_behind

  abbrev pub read_object : File → Reading
  unfolding read_rest
  read_object f = if allocates header_size then read_rest (read_bytes header_size f) else exits

  -- read_problem, which reads stdin.
  unfoldable pub read_problem : File → Reading
  unfolding read_object
  read_problem stdin = read_object stdin

  -- read_result makes a FILE for the pipe; when it returns, nothing refers to the FILE any more.
  unfoldable pub read_result : (pipe : List ℕ) → Reading
  unfolding read_object
  read_result pipe = read_object (fdopen pipe)
