-- ===== src/Pbx/Registry/Register.antt =====
-- pbx_register of pbx.c: a new unit gets a free extension.
use system_fundamentals_ii_c.Prelude.{
  Option, arith, if◌then◌else◌, inl, inr, none, refl, some, ℕ, ℕ_discrete, ◌%◌, ◌+◌, ◌-◌, ◌<◌, ◌==◌,
  ◌∙◌, ◌≡◌, ◌≢◌, ◌⊎◌,
}
use system_fundamentals_ii_c.Pbx.Pairing.{IsValid, Keeps, Paired, Same-IsValid}
use system_fundamentals_ii_c.Pbx.Registry.{free, get_next_available_extension, pbx_register}
use system_fundamentals_ii_c.Pbx.Registry.Search.{get_next_available_extension_lem}
use system_fundamentals_ii_c.Pbx.State.{
  Network, Outcome, Pbx, Returned, Tu, after, blocks, faults, max_extensions, on_hook, refuses,
  result, returns, shows_ext, write,
}

abbrev new_unit : ℕ → ℕ → Tu
new_unit fd n = record { fd = fd; ext = n; buddy = none; state = on_hook }

-- An exchange with one more unit, at `p` under the extension `n`.
record Added (s s' : Pbx) (p n fd : ℕ) : Type 0 where
  pointer : s'.tup ≡ (s.tup + 1) % max_extensions
  memory : (x : ℕ) → s'.heap x ≡ (if x == p then some (new_unit fd n) else s.heap x)
  table : (e : ℕ) → s'.tus e ≡ (if e == n then some p else s.tus e)
  exits : (e : ℕ) → s'.exit_sems e ≡ (if e == n then s.exit_sems n - 1 else s.exit_sems e)
  unit_locks : (x : ℕ) → s'.locks x ≡ (if x == p then 1 else s.locks x)
  same_mutex : s'.mutex ≡ s.mutex

Added-IsValid :
    (s s' : Pbx) (p n fd : ℕ)
    → IsValid s
    → Added s s' p n fd
    → s.heap p ≡ none
    → s.tus n ≡ none
    → n < max_extensions
    → IsValid s'
Added-IsValid s s' p n fd v d fresh empty range = record {
  pointer = let old = v.pointer in omega (arith, d.pointer);
  paired = paired';
  placed = λ x e h. ground (arith, d.memory x, d.table e, v.placed x e);
  entered = λ e x lt h. ground (arith, d.memory x, d.table e, v.entered e x lt);
  unlocked = λ x e h. ground (arith, d.memory x, d.unit_locks x, v.unlocked x e);
  entry_lock = d.same_mutex ∙ v.entry_lock;
  exit_free = λ e lt h. ground (arith, d.table e, d.exits e, v.exit_free e lt);
  exit_held = λ e x lt h.
      ground (arith, d.table e, d.exits e, v.exit_held e x lt, v.exit_free n range empty);
}
  where
    paired' : (x : ℕ) (t : Tu) → s'.heap x ≡ some t → Paired s'.heap x t
    paired' x t h = elim (ℕ_discrete x p) [
      | yes q ↦ inl (ground (arith, d.memory x))
      | no q ↦ elim (v.paired x t (ground (arith, d.memory x))) [
        | inl alone ↦ inl alone
        | inr (y, u, m) ↦ inr (y, u, ground (arith, d.memory y))
      ]
    ]

module _ (net : Network) (s : Pbx) (p fd n : ℕ) (v : IsValid s)
    (found : get_next_available_extension s ≡ some n) (range : n < max_extensions)
    (empty : s.tus n ≡ none) where
  registers : Returned (pbx_register net (some p) fd s)
  unfolding pbx_register get_next_available_extension
  registers = ground (arith, v.entry_lock, v.exit_free n range empty)

  adds : Added s (after s (pbx_register net (some p) fd s)) p n fd
  unfolding pbx_register get_next_available_extension
  adds = record {
    pointer = ground (arith, v.entry_lock, v.exit_free n range empty);
    memory = λ x. ground (arith, v.entry_lock, v.exit_free n range empty);
    table = λ e. ground (arith, v.entry_lock, v.exit_free n range empty);
    exits = λ e. ground (arith, v.entry_lock, v.exit_free n range empty);
    unit_locks = λ x. ground (arith, v.entry_lock, v.exit_free n range empty);
    same_mutex = ground (arith, v.entry_lock, v.exit_free n range empty);
  }

  -- The pointer comes back only if the write of the extension succeeded.
  replies :
      result (pbx_register net (some p) fd s)
      ≡ some (if net s.log fd (shows_ext on_hook n) then none else some p)
  unfolding pbx_register get_next_available_extension
  replies = ground (arith, v.entry_lock, v.exit_free n range empty)

-- Nothing is added if no extension is left or malloc fails.
module _ (net : Network) (s : Pbx) (alloc : Option ℕ) (fd : ℕ) (v : IsValid s)
    (refused : (get_next_available_extension s ≡ none) ⊎ (alloc ≡ none)) where
  refuses_returns : result (pbx_register net alloc fd s) ≡ some none
  unfolding pbx_register get_next_available_extension
  refuses_returns = ground (arith, v.entry_lock)

  refuses-Keeps : Keeps s (after s (pbx_register net alloc fd s))
  unfolding pbx_register get_next_available_extension
  refuses-Keeps = record {
    same_tup = ground (arith, v.entry_lock);
    same_tus = ground (arith, v.entry_lock);
    same_sems = ground (arith, v.entry_lock);
    same_mutex = ground (arith, v.entry_lock);
    same_locks = λ x. ground (arith, v.entry_lock);
    same_exts = λ x. ground (arith, v.entry_lock);
  }

  refuses_heap : (x : ℕ) → (after s (pbx_register net alloc fd s)).heap x ≡ s.heap x
  unfolding pbx_register get_next_available_extension
  refuses_heap x = ground (arith, v.entry_lock)

full_log :
    (net : Network) (s : Pbx) (alloc : Option ℕ) (fd : ℕ)
    → IsValid s
    → get_next_available_extension s ≡ none
    → (after s (pbx_register net alloc fd s)).log ≡ write net fd refuses s.log
unfolding pbx_register get_next_available_extension
full_log net s alloc fd v full = ground (arith, v.entry_lock)

Returned-of : {A : Type 0} (o : Outcome A) {x : A} → result o ≡ some x → Returned o
Returned-of (returns x s) h = tt
Returned-of faults h = cc
Returned-of blocks h = cc

-- In a valid exchange pbx_register returns, with no fault and no wait, and leaves the exchange valid,
-- if malloc returns NULL or memory that no unit is in.
pub register-IsValid :
    (net : Network) (s : Pbx) (alloc : Option ℕ) (fd : ℕ)
    → IsValid s
    → ((p : ℕ) → alloc ≡ some p → s.heap p ≡ none)
    → Returned (pbx_register net alloc fd s) × IsValid (after s (pbx_register net alloc fd s))
register-IsValid net s none fd v fresh =
    let quiet = inr refl in
    (
      Returned-of (pbx_register net none fd s) (refuses_returns net s none fd v quiet),
      Same-IsValid s _ v (refuses-Keeps net s none fd v quiet) (refuses_heap net s none fd v quiet),
    )
register-IsValid net s (some p) fd v fresh = elim (get_next_available_extension_lem s v.pointer) [
  | inl (n, found, empty, range) ↦ (
    registers net s p fd n v found range empty,
    Added-IsValid s _ p n fd v (adds net s p fd n v found range empty) (fresh p refl) empty range,
  )
  | inr (full, taken) ↦
      let quiet = inl full in
      (
        Returned-of (pbx_register net (some p) fd s) (refuses_returns net s (some p) fd v quiet),
        Same-IsValid s _ v (refuses-Keeps net s (some p) fd v quiet)
            (refuses_heap net s (some p) fd v quiet),
      )
]

-- In a valid exchange with an extension left, and with memory from malloc, pbx_register makes a unit
-- on the hook, at an extension that was free. It returns the unit's pointer if the extension could be
-- written to the client, and NULL if not; the unit is entered in the table either way.
pub register_effect :
    (net : Network) (s : Pbx) (p fd e : ℕ)
    → IsValid s
    → e < max_extensions
    → s.tus e ≡ none
    → (n : ℕ) × (s.tus n ≡ none)
      × (n < max_extensions)
      × ((after s (pbx_register net (some p) fd s)).tus n ≡ some p)
      × ((after s (pbx_register net (some p) fd s)).heap p
          ≡ some (record { fd = fd; ext = n; buddy = none; state = on_hook }))
      × (result (pbx_register net (some p) fd s)
          ≡ some (if net s.log fd (shows_ext on_hook n) then none else some p))
register_effect net s p fd e v lt free = elim (get_next_available_extension_lem s v.pointer) [
  | inl (n, found, empty, range) ↦
      let d = adds net s p fd n v found range empty in
      (
        n,
        empty,
        range,
        ground (arith, d.table n),
        ground (arith, d.memory p),
        replies net s p fd n v found range empty,
      )
  | inr (full, taken) ↦ absurd (taken e lt free)
]

-- When every extension is taken, pbx_register returns NULL, tells the client, and changes nothing.
pub register_full :
    (net : Network) (s : Pbx) (alloc : Option ℕ) (fd : ℕ)
    → IsValid s
    → ((e : ℕ) → e < max_extensions → s.tus e ≢ none)
    → (result (pbx_register net alloc fd s) ≡ some none)
      × ((after s (pbx_register net alloc fd s)).log ≡ write net fd refuses s.log)
      × ((x : ℕ) → (after s (pbx_register net alloc fd s)).heap x ≡ s.heap x)
register_full net s alloc fd v taken = elim (get_next_available_extension_lem s v.pointer) [
  | inl (n, found, empty, range) ↦ absurd (taken n range empty)
  | inr (full, _) ↦ (
    refuses_returns net s alloc fd v (inl full),
    full_log net s alloc fd v full,
    refuses_heap net s alloc fd v (inl full),
  )
]
