-- ===== src/Pipes/Layout.antt =====
-- HW4-Multi-process-Problem-Solver/include/polya.h: the bytes of struct problem and struct result.
use system_fundamentals_ii_c.Prelude.{
  Bool, List, Option, [], ap, arith, drop, get_or, length, length-take, negsuc, none, not, refl,
  some, suc, take, zero, ℕ, ℤ, ◌%◌, ◌++◌, ◌+◌, ◌/◌, ◌<◌, ◌==◌, ◌∙◌, ◌∷◌, ◌≡◌,
}
use system_fundamentals_ii_c.Master.Problems.{
  Answer, Problem, Reply, SolverMethods, Source, gives, judge, post_result, reads_freed,
}
use system_fundamentals_ii_c.Pipes.{
  File, gives_object, little_endian, read_problem, read_result, size_field, write_fail,
  write_problem,
}
use system_fundamentals_ii_c.Pipes.Objects.{
  Allocates, IsObject, read_problem-write_problem, read_result-object,
}
use system_fundamentals_ii_c.Pipes.Streams.{stream}

-- A number in so many bytes, the least significant one first.
unfoldable pub encode : (count n : ℕ) → List ℕ
encode zero n = []
encode (suc k) n = n % 256 ∷ encode k (n / 256)

-- The bytes of a problem: size, type, id, nvars, var, and the data.
unfoldable pub problem_bytes : Problem → List ℕ
unfolding encode
problem_bytes prob =
    encode 8 (16 + length prob.content)
    ++ (encode 2 prob.kind
        ++ (encode 2 prob.id ++ (encode 2 prob.nvars ++ (encode 2 prob.var ++ prob.content))))

-- The fields of a problem in memory.
abbrev field : (from count : ℕ) → List ℕ → ℕ
unfolding little_endian
field from count object = little_endian (take count (drop from object))

unfoldable pub problem_of : List ℕ → Problem
unfolding field
problem_of object = record {
  kind = field 8 2 object;
  id = field 10 2 object;
  nvars = field 12 2 object;
  var = field 14 2 object;
  content = drop 16 object;
}

-- The field failed of a result is its byte 10.
unfoldable pub answer_of : List ℕ → Answer
answer_of object = record { is_failed = not (get_or object 10 0 == 0); content = drop 16 object }

-- The shorts of a problem are not negative, and its size is an int.
pub record HasFields (prob : Problem) : Type 0 where
  pub short_kind : prob.kind < 65536
  pub short_id : prob.id < 65536
  pub short_nvars : prob.nvars < 65536
  pub short_var : prob.var < 65536
  pub int_size : 16 + length prob.content < 2147483648

little_endian-encode_short : (n : ℕ) → n < 65536 → little_endian (encode 2 n) ≡ n
unfolding little_endian encode
little_endian-encode_short n small = omega (arith, small)

little_endian-encode_size : (n : ℕ) → n < 2147483648 → little_endian (encode 8 n) ≡ n
unfolding little_endian encode
little_endian-encode_size n small = omega (arith, small)

-- The fields that are read from the bytes of a problem are those of the problem.
pub problem_of-problem_bytes :
    (prob : Problem) → HasFields prob → problem_of (problem_bytes prob) ≡ prob
unfolding problem_of problem_bytes
problem_of-problem_bytes prob fields = λ i. record {
  kind = little_endian-encode_short prob.kind fields.short_kind i;
  id = little_endian-encode_short prob.id fields.short_id i;
  nvars = little_endian-encode_short prob.nvars fields.short_nvars i;
  var = little_endian-encode_short prob.var fields.short_var i;
  content = prob.content;
}

problem_bytes-IsObject : (prob : Problem) → HasFields prob → IsObject (problem_bytes prob)
unfolding problem_bytes size_field
problem_bytes-IsObject prob fields = record {
  has_size = little_endian-encode_size (16 + length prob.content) fields.int_size ∙ omega arith;
  has_header = omega arith;
  fits = omega (arith, fields.int_size);
}

module _ (allocates : ℕ → Bool) where
  -- A problem goes from the master to a worker: the worker reads an object from its stdin whose fields
  -- are those of the problem that the master has written, and leaves what is behind it.
  pub read_problem-problem_bytes :
      (stdin : File) (prob : Problem) (rest : List ℕ)
      → HasFields prob
      → Allocates allocates (problem_bytes prob)
      → stream stdin ≡ write_problem (problem_bytes prob) ++ rest
      → (object : List ℕ) × (stdin' : File) × (read_problem allocates stdin
          ≡ gives_object object stdin')
        × (problem_of object ≡ prob)
        × (stream stdin' ≡ rest)
  read_problem-problem_bytes stdin prob rest fields given comes =
      let read =
        read_problem-write_problem allocates stdin (problem_bytes prob) rest
          (problem_bytes-IsObject prob fields) given comes in
      (problem_bytes prob, read.0, read.1, problem_of-problem_bytes prob fields, read.2)

pub failure-IsObject :
    (id_low id_high : ℕ) (padding : List ℕ)
    → length padding ≡ 5
    → IsObject (write_fail id_low id_high padding)
unfolding write_fail size_field little_endian
failure-IsObject id_low id_high padding five =
    let long : length (take 5 padding) ≡ 5 = omega (arith, length-take 5 padding, five) in
    record {
      has_size = omega (arith, long);
      has_header = omega (arith, long);
      fits = omega (arith, long);
    }

-- A failed attempt, in the memory of the master.
abbrev pub judge_failed :
    (solvers : ℕ → SolverMethods) (p : ℕ) (answer : Answer) (s : Source) → Option Problem → Reply ℤ
judge_failed solvers p answer s found = elim found [
  | none ↦ reads_freed
  | some prob ↦ judge solvers p answer prob s
]

-- A failure goes from a worker to the master: the master reads what write_fail has written, whatever the
-- id and the padding are, and post_result then returns -1 and leaves the problems as they are. The
-- problem is still in the memory.
pub post_result-write_fail :
    (allocates : ℕ → Bool) (solvers : ℕ → SolverMethods) (id_low id_high p : ℕ) (padding : List ℕ)
    (prob : Problem) (s : Source)
    → length padding ≡ 5
    → Allocates allocates (write_fail id_low id_high padding)
    → s.problem_at p ≡ some prob
    → (object : List ℕ) × (f : File) × (read_result allocates (write_fail id_low id_high padding)
        ≡ gives_object object f)
      × (post_result solvers (answer_of object) p s ≡ gives (negsuc 0) s)
unfolding post_result write_fail answer_of
post_result-write_fail allocates solvers id_low id_high p padding prob s five given there =
    let object = write_fail id_low id_high padding in
    let read =
      read_result-object allocates object (failure-IsObject id_low id_high padding five) given in
    (object, read.0, read.1, ap (judge_failed solvers p (answer_of object) s) there ∙ fails)
  where
    fails :
        judge solvers p (answer_of (write_fail id_low id_high padding)) prob s ≡ gives (negsuc 0) s
    fails = refl
