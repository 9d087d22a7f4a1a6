-- ===== src/Sequitur/Memory.antt =====
-- HW1-Compression-Decompression-Utility/src/symbol.c and the variables of include/sequitur.h: the
-- memory of the program and the effects of its functions. A pointer to a SYMBOL is its index in
-- symbol_storage, NULL is `none`.
pub mod Allocation
pub mod Yields
use system_fundamentals_ii_c.Prelude.{
  Bool, Option, false, if◌then◌else◌, leb, none, some, true, ℕ, ◌%◌, ◌+◌, ◌==◌,
}

-- struct symbol
pub record Symbol : Type 0 where
  pub value : ℕ
  pub refcnt : ℕ
  pub rule : Option ℕ
  pub next : Option ℕ
  pub prev : Option ℕ
  pub nextr : Option ℕ
  pub prevr : Option ℕ

-- An entry of digram_table: NULL, TOMBSTONE or a pointer.
pub data Slot : Type 0 where
  vacant tombstone : Slot
  entry : ℕ → Slot

pub record Memory : Type 0 where
  pub storage : ℕ → Symbol
  pub num_symbols : ℕ
  pub recycled_symbols : Option ℕ
  pub next_nonterminal_value : ℕ
  pub main_rule : Option ℕ
  pub rule_map : ℕ → Option ℕ
  pub digram_table : ℕ → Slot

-- A call returns, follows NULL or leaves an array, calls abort(), or is not done within the fuel.
pub data Outcome {ℓ} (A : Type ℓ) : Type ℓ where
  returns : A → Memory → Outcome A
  faults aborts unfinished : Outcome A

-- The memory after a call that returns.
abbrev pub after {ℓ} : {A : Type ℓ} → Memory → Outcome A → Memory
after s (returns _ s') = s'
after s faults = s
after s aborts = s
after s unfinished = s

abbrev pub M {ℓ} : Type ℓ → Type ℓ
M A = Memory → Outcome A

infixl 5 ◌>>=◌ ◌>>◌
abbrev pub ◌>>=◌ {ℓ κ} : {A : Type ℓ} {B : Type κ} → M A → (A → M B) → M B
◌>>=◌ m f s = elim (m s) [
  | returns a s' ↦ f a s'
  | faults ↦ faults
  | aborts ↦ aborts
  | unfinished ↦ unfinished
]

abbrev pub ◌>>◌ {ℓ κ} : {A : Type ℓ} {B : Type κ} → M A → M B → M B
◌>>◌ m k = m >>= λ _. k

abbrev pub pure {ℓ} : {A : Type ℓ} → A → M A
pure a s = returns a s

abbrev pub abort {ℓ} : {A : Type ℓ} → M A
abort s = aborts

abbrev pub out_of_fuel {ℓ} : {A : Type ℓ} → M A
out_of_fuel s = unfinished

abbrev pub update {ℓ} : {A : Type ℓ} → (ℕ → A) → ℕ → A → ℕ → A
update f a v x = if x == a then v else f x

-- A pointer that is followed must not be NULL.
abbrev pub deref : Option ℕ → M ℕ
deref none s = faults
deref (some a) s = returns a s

abbrev pub load : ℕ → M Symbol
load a s = returns (s.storage a) s

abbrev pub store : ℕ → Symbol → M (Unit {0})
store a t s = returns tt (record s { storage = update s.storage a t })

-- Assignments to a field.
abbrev pub set_refcnt : ℕ → ℕ → M (Unit {0})
set_refcnt a n = load a >>= λ t. store a (record t { refcnt = n })

abbrev pub set_rule : ℕ → Option ℕ → M (Unit {0})
set_rule a p = load a >>= λ t. store a (record t { rule = p })

abbrev pub set_next : ℕ → Option ℕ → M (Unit {0})
set_next a p = load a >>= λ t. store a (record t { next = p })

abbrev pub set_prev : ℕ → Option ℕ → M (Unit {0})
set_prev a p = load a >>= λ t. store a (record t { prev = p })

abbrev pub set_nextr : ℕ → Option ℕ → M (Unit {0})
set_nextr a p = load a >>= λ t. store a (record t { nextr = p })

abbrev pub set_prevr : ℕ → Option ℕ → M (Unit {0})
set_prevr a p = load a >>= λ t. store a (record t { prevr = p })

-- p == q
abbrev pub points_to : Option ℕ → ℕ → Bool
points_to none a = false
points_to (some p) a = p == a

-- IS_RULE_HEAD(s)
abbrev pub is_rule_head : ℕ → M Bool
is_rule_head a = load a >>= λ t. pure (points_to t.rule a)

-- FIRST_NONTERMINAL, MAX_SYMBOLS and the modulus of an unsigned int
abbrev pub first_nonterminal : ℕ
first_nonterminal = 256

abbrev pub max_symbols : ℕ
max_symbols = 1000000

abbrev pub word : ℕ
word = 4294967296

unfoldable pub init_symbols : M (Unit {0})
init_symbols s = returns tt (record s {
  num_symbols = 0;
  recycled_symbols = none;
  next_nonterminal_value = first_nonterminal;
})

-- The cell of a new symbol: one that was recycled, or the next of the array. A cell of the array
-- keeps what an earlier block left in it.
abbrev pub allocate : M ℕ
allocate s = elim s.recycled_symbols [
  | some a ↦ returns a (record s {
    recycled_symbols = (s.storage a).next;
    storage = update s.storage a (record (s.storage a) { refcnt = 0 });
  })
  | none ↦ elim (s.num_symbols == max_symbols) [
    | true ↦ aborts
    | false ↦ returns s.num_symbols (record s { num_symbols = s.num_symbols + 1 })
  ]
]

-- What is written into it. The reference count that grows is the symbol's own.
abbrev pub label : ℕ → Option ℕ → ℕ → M (Unit {0})
label value rule a = load a >>= λ t. elim (leb first_nonterminal value) [
  | true ↦ store a (record t { value = value; rule = rule; refcnt = (t.refcnt + 1) % word })
  | false ↦ store a (record t { value = value; rule = none })
]

unfoldable pub new_symbol : ℕ → Option ℕ → M ℕ
new_symbol value rule = do a ← allocate; label value rule a; pure a

unfoldable pub recycle_symbol : ℕ → M (Unit {0})
recycle_symbol a s = returns tt (record s {
  storage = update s.storage a (record (s.storage a) { next = s.recycled_symbols });
  recycled_symbols = some a;
})
