-- ===== src/Pipes/Objects.antt =====
-- HW4-Multi-process-Problem-Solver/src/master_helper.c and src/worker.c: what is written is read.
use system_fundamentals_ii_c.Prelude.{
  Bool, List, [], ap, arith, drop, if◌then◌else◌, inl, inr, leb, length, length-drop, length-take,
  not, refl, suc, sym, take, take-append-drop, take_all, true, zero, ℕ, ◌&&◌, ◌++◌, ◌+◌, ◌-◌, ◌<◌,
  ◌∙◌, ◌∷◌, ◌≡◌, ◌≤◌, ◌⊎◌,
}
use system_fundamentals_ii_c.Pipes.{
  File, Reading, exits, fdopen, gives_object, header_size, little_endian, read_bytes, read_object,
  read_problem, read_rest, read_result, size_field, size_left, write_problem, write_result,
  writes_behind,
}
use system_fundamentals_ii_c.Pipes.Streams.{
  read_bytes-empty, read_bytes-fdopen, read_bytes-stream, stream,
}

-- The bytes of a problem or a result: the field size is their number, and the size is an int.
pub record IsObject (object : List ℕ) : Type 0 where
  pub has_size : size_field object ≡ length object
  pub has_header : 16 ≤ length object
  pub fits : length object < 2147483648

-- malloc and realloc give the memory for the header and for the object.
pub record Allocates (allocates : ℕ → Bool) (object : List ℕ) : Type 0 where
  pub header_given : allocates 16 ≡ true
  pub object_given : allocates (size_field object) ≡ true

-- All bytes of an object are written.
pub write_problem-IsObject : (object : List ℕ) → IsObject object → write_problem object ≡ object
unfolding write_problem
write_problem-IsObject object is =
    ap (take 16 object ++◌) (
      take_all (size_field object - 16) (drop 16 object)
        (omega (arith, length-drop 16 object, is.has_size)))
    ∙ take-append-drop 16 object

pub write_result-IsObject : (object : List ℕ) → IsObject object → write_result object ≡ object
unfolding write_result
write_result-IsObject object is = take_all (size_field object) object (sym is.has_size)

take-take : (k n : ℕ) (xs : List ℕ) → k ≤ n → take k (take n xs) ≡ take k xs
take-take zero n xs below = refl
take-take (suc k) zero xs below = absurd (omega (arith, below))
take-take (suc k) (suc n) [] below = refl
take-take (suc k) (suc n) (x ∷ xs) below = rw (take-take k n xs (omega (arith, below)))

-- The size stands in the header.
size_field-take : (object : List ℕ) → size_field (take 16 object) ≡ size_field object
unfolding size_field
size_field-take object = ap little_endian (take-take 8 16 object (omega arith))

short_or_long : (n : ℕ) → (n ≤ 4096) ⊎ (4096 < n)
short_or_long n = ground arith

split : (n : ℕ) (xs ys : List ℕ) → xs ++ ys ≡ take n xs ++ (drop n xs ++ ys)
split zero xs ys = refl
split (suc n) [] ys = refl
split (suc n) (x ∷ xs) ys = ap (x ∷◌) (split n xs ys)

nothing_behind : (xs : List ℕ) → xs ≡ xs ++ []
nothing_behind [] = refl
nothing_behind (x ∷ xs) = ap (x ∷◌) (nothing_behind xs)

module _ (allocates : ℕ → Bool) where
  -- What is done when the header is read, by the size.
  abbrev by_size : (header : List ℕ) → File → (size : ℕ) → Reading
  by_size header f size =
      if not (allocates size)
      then exits
      else if leb (header_size + size_left size) size && leb (size_left size) 2147483648
      then gives_object (header ++ (read_bytes (size_left size) f).0)
          (read_bytes (size_left size) f).1
      else writes_behind

  body_size :
      (object : List ℕ) → IsObject object → size_left (size_field object) ≡ length (drop 16 object)
  body_size object is = omega (arith, length-drop 16 object, is.has_size, is.has_header, is.fits)

  in_bounds :
      (object : List ℕ)
      → IsObject object
      → (leb (header_size + size_left (size_field object)) (size_field object)
          && leb (size_left (size_field object)) 2147483648)
        ≡ true
  in_bounds object is =
      ground
        (arith, body_size object is, length-drop 16 object, is.has_size, is.has_header, is.fits)

  -- The rest of an object, behind its header.
  by_size-stream :
      (f : File) (object rest : List ℕ)
      → IsObject object
      → allocates (size_field object) ≡ true
      → stream f ≡ drop 16 object ++ rest
      → (f' : File) × (by_size (take 16 object) f (size_field object) ≡ gives_object object f')
        × (stream f' ≡ rest)
        × (f.pipe ≡ [] → f'.pipe ≡ [])
  by_size-stream f object rest is given comes =
      let body =
        read_bytes-stream (size_left (size_field object)) f (drop 16 object) rest
          (sym (body_size object is)) comes in
      let size = size_field object in
      (
        (read_bytes (size_left size) f).1,
        ap
              (λ b.
                if not b
                then exits
                else if leb (header_size + size_left size) size && leb (size_left size) 2147483648
                then gives_object (take 16 object ++ (read_bytes (size_left size) f).0)
                    (read_bytes (size_left size) f).1
                else writes_behind)
              given
            ∙ ap
                (λ b.
                  if b
                  then gives_object (take 16 object ++ (read_bytes (size_left size) f).0)
                      (read_bytes (size_left size) f).1
                  else writes_behind)
                (in_bounds object is)
            ∙ ap (λ x. gives_object x (read_bytes (size_left size) f).1)
                (ap (take 16 object ++◌) body.0 ∙ take-append-drop 16 object),
        body.1,
        read_bytes-empty (size_left size) f,
      )

  -- Where the stream starts with the bytes of an object, it is read, and the bytes behind it are left.
  read_object-stream :
      (f : File) (object rest : List ℕ)
      → IsObject object
      → Allocates allocates object
      → stream f ≡ object ++ rest
      → (f' : File) × (read_object allocates f ≡ gives_object object f')
        × (stream f' ≡ rest)
        × ((read_bytes 16 f).1.pipe ≡ [] → f'.pipe ≡ [])
  unfolding read_object read_rest
  read_object-stream f object rest is given comes =
      let front =
        read_bytes-stream 16 f (take 16 object) (drop 16 object ++ rest)
          (omega (arith, length-take 16 object, is.has_header)) (comes ∙ split 16 object rest) in
      let f1 = (read_bytes 16 f).1 in
      let back = by_size-stream f1 object rest is given.object_given front.1 in
      (
        back.0,
        ap (λ b. if b then read_rest allocates (read_bytes 16 f) else exits) given.header_given
            ∙ ap (λ header. by_size header f1 (size_field header)) front.0
            ∙ ap (by_size (take 16 object) f1) (size_field-take object)
            ∙ back.1,
        back.2,
        back.3,
      )

  -- Round trip, problems: when the master has written a problem, and possibly more behind it, the worker
  -- reads this problem from its stdin, and then what is behind it is left. The problem has its size in
  -- its header, and the memory is given.
  pub read_problem-write_problem :
      (stdin : File) (object rest : List ℕ)
      → IsObject object
      → Allocates allocates object
      → stream stdin ≡ write_problem object ++ rest
      → (stdin' : File) × (read_problem allocates stdin ≡ gives_object object stdin')
        × (stream stdin' ≡ rest)
  unfolding read_problem
  read_problem-write_problem stdin object rest is given comes =
      let read =
        read_object-stream stdin object rest is given
          (comes ∙ ap (λ x. x ++ rest) (write_problem-IsObject object is)) in
      (read.0, read.1, read.2)

  -- An object that the pipe holds, with nothing behind it.
  pub read_result-object :
      (object : List ℕ)
      → IsObject object
      → Allocates allocates object
      → (f : File) × (read_result allocates object ≡ gives_object object f)
  unfolding read_result
  read_result-object object is given =
      let read = read_object-stream (fdopen object) object [] is given (nothing_behind object) in
      (read.0, read.1)

  pub read_result-write_result :
      (object rest : List ℕ)
      → IsObject object
      → Allocates allocates object
      → (f : File) × (read_result allocates (write_result object ++ rest) ≡ gives_object object f)
        × (stream f ≡ rest)
        × ((f.pipe ≡ []) ⊎ (4096 < length (write_result object ++ rest)))
  unfolding read_result
  read_result-write_result object rest is given =
      let pipe = write_result object ++ rest in
      let read =
        read_object-stream (fdopen pipe) object rest is given
          (ap (λ x. x ++ rest) (write_result-IsObject object is)) in
      (
        read.0,
        read.1,
        read.2,
        elim (short_or_long (length pipe)) [
          | inl short ↦ inl (read.3 (read_bytes-fdopen 15 pipe short))
          | inr long ↦ inr long
        ],
      )
