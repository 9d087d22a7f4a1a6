-- ===== src/Pbx/Registry/Init.antt =====
-- pbx_init of pbx.c makes an empty exchange.
use system_fundamentals_ii_c.Prelude.{
  arith, false, none, refl, some, suc, zero, ℕ, ℕ_discrete, ◌+◌, ◌<◌, ◌∙◌, ◌≡◌, ◌≤◌,
}
use system_fundamentals_ii_c.Pbx.Pairing.{IsValid}
use system_fundamentals_ii_c.Pbx.Registry.{clear_table, pbx_init}
use system_fundamentals_ii_c.Pbx.State.{Pbx, max_extensions, update}

clear_table_rest :
    (n i : ℕ) (s : Pbx)
    → ((clear_table n i s).tup ≡ s.tup)
      × ((clear_table n i s).exiting ≡ s.exiting)
      × ((clear_table n i s).mutex ≡ s.mutex)
      × ((clear_table n i s).heap ≡ s.heap)
unfolding clear_table
clear_table_rest zero i s = (refl, refl, refl, refl)
clear_table_rest (suc n) i s = clear_table_rest n (i + 1) _

clear_table_below :
    (n i e : ℕ) (s : Pbx)
    → e < i
    → ((clear_table n i s).tus e ≡ s.tus e) × ((clear_table n i s).exit_sems e ≡ s.exit_sems e)
unfolding clear_table
clear_table_below zero i e s lt = (refl, refl)
clear_table_below (suc n) i e s lt = ground (
  arith,
  clear_table_below n (i + 1) e
      (record s { tus = update s.tus i none; exit_sems = update s.exit_sems i 1 }) (omega arith),
)

clear_table_lem :
    (n i e : ℕ) (s : Pbx)
    → i ≤ e
    → e < i + n
    → ((clear_table n i s).tus e ≡ none) × ((clear_table n i s).exit_sems e ≡ 1)
unfolding clear_table
clear_table_lem zero i e s le lt = absurd (omega arith)
clear_table_lem (suc n) i e s le lt = elim (ℕ_discrete i e) [
  | yes q ↦ ground (
    arith,
    clear_table_below n (i + 1) e
        (record s { tus = update s.tus i none; exit_sems = update s.exit_sems i 1 }) (omega arith),
  )
  | no q ↦ clear_table_lem n (i + 1) e _ (omega arith) (omega arith)
]

-- Whatever the memory from malloc holds, pbx_init makes a valid exchange with no extension taken, if
-- no unit is in memory; and it returns NULL if malloc does.
pbx_init_lem :
    (raw : Pbx)
    → ((x : ℕ) → raw.heap x ≡ none)
    → (s : Pbx) × (pbx_init (some raw) ≡ some s)
      × IsValid s
      × ((e : ℕ) → e < max_extensions → s.tus e ≡ none)
      × (s.exiting ≡ false)
unfolding pbx_init
pbx_init_lem raw fresh = (
  clear_table max_extensions 0 (cleared),
  refl,
  record {
    pointer = ground (arith, rest.0);
    paired = λ x t h. absurd (ground (arith, empty x));
    placed = λ x e h. absurd (ground (arith, empty x));
    entered = λ e x lt h. absurd (ground (arith, at e lt));
    unlocked = λ x e h. absurd (ground (arith, empty x));
    entry_lock = rest.2;
    exit_free = λ e lt h. (at e lt).1;
    exit_held = λ e x lt h. absurd (ground (arith, at e lt));
  },
  λ e lt. (at e lt).0,
  rest.1,
)
  where
    cleared : Pbx
    cleared = record raw { tup = 0; exiting = false; mutex = 1 }

    rest :
        ((clear_table max_extensions 0 cleared).tup ≡ 0)
        × ((clear_table max_extensions 0 cleared).exiting ≡ false)
        × ((clear_table max_extensions 0 cleared).mutex ≡ 1)
        × ((clear_table max_extensions 0 cleared).heap ≡ raw.heap)
    rest = clear_table_rest max_extensions 0 cleared

    empty : (x : ℕ) → (clear_table max_extensions 0 cleared).heap x ≡ none
    empty x = (λ i. rest.3 i x) ∙ fresh x

    at :
        (e : ℕ)
        → e < max_extensions
        → ((clear_table max_extensions 0 cleared).tus e ≡ none)
          × ((clear_table max_extensions 0 cleared).exit_sems e ≡ 1)
    at e lt = clear_table_lem max_extensions 0 e cleared (omega arith) (omega arith)
