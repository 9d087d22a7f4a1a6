-- ===== src/Pbx/Registry/Search.antt =====
-- get_next_available_extension of pbx.c finds a free extension if there is one.
use system_fundamentals_ii_c.Prelude.{
  Option-cases, arith, inl, inr, none, some, suc, zero, ℕ, ℕ_discrete, ◌%◌, ◌+◌, ◌-◌, ◌<◌, ◌≡◌, ◌≢◌,
  ◌≤◌, ◌⊎◌,
}
use system_fundamentals_ii_c.Pbx.Registry.{get_next_available_extension, search_from}
use system_fundamentals_ii_c.Pbx.State.{Pbx, max_extensions}

search_from_sound :
    (n i e : ℕ) (s : Pbx)
    → i < max_extensions
    → search_from s.tus s.tup n i ≡ some e
    → (s.tus e ≡ none) × (e < max_extensions)
unfolding search_from
search_from_sound zero i e s lt h = cc
search_from_sound (suc n) i e s lt h =
    ground (arith, search_from_sound n ((i + 1) % max_extensions) e s)

-- The index after `j` rounds.
abbrev nth : Pbx → ℕ → ℕ
nth s j = (s.tup + j) % max_extensions

search_from_taken : (n i : ℕ) (s : Pbx) → search_from s.tus s.tup (suc n) i ≡ none → s.tus i ≢ none
unfolding search_from
search_from_taken n i s h empty = ground arith

search_from_rest :
    (n i next : ℕ) (s : Pbx)
    → (i + 1) % max_extensions ≡ next
    → next ≢ s.tup
    → search_from s.tus s.tup (suc n) i ≡ none
    → search_from s.tus s.tup n next ≡ none
unfolding search_from
search_from_rest n i next s e ne h = rw (← e) (ground arith)

search_from_complete :
    (n j k : ℕ) (s : Pbx)
    → s.tup < max_extensions
    → n + j ≡ max_extensions
    → search_from s.tus s.tup n (nth s j) ≡ none
    → j ≤ k
    → k < max_extensions
    → s.tus (nth s k) ≢ none
unfolding search_from
search_from_complete zero j k s lt e h le kt empty = omega arith
search_from_complete (suc n) j k s lt e h le kt empty = elim (ℕ_discrete j k) [
  | yes q ↦ search_from_taken n (nth s j) s h (rw q empty)
  | no q ↦
      search_from_complete n (j + 1) k s lt (omega arith)
        (search_from_rest n (nth s j) (nth s (j + 1)) s (omega arith) (omega arith) h) (omega arith)
        kt empty
]

-- The search ends with a free extension within the table, or finds every extension taken; the table
-- is walked once, from the pointer on and round its end.
pub get_next_available_extension_lem :
    (s : Pbx)
    → s.tup < max_extensions
    → ((e : ℕ) × (get_next_available_extension s ≡ some e)
        × (s.tus e ≡ none)
        × (e < max_extensions))
      ⊎ ((get_next_available_extension s ≡ none) × ((e : ℕ) → e < max_extensions → s.tus e ≢ none))
unfolding get_next_available_extension
get_next_available_extension_lem s lt =
    elim (Option-cases (search_from s.tus s.tup max_extensions s.tup)) [
      | inl none_left ↦ inr (
        none_left,
        λ e et empty.
            let k = (e + max_extensions - s.tup) % max_extensions in
            let at : nth s k ≡ e = omega arith in
            let start : nth s 0 ≡ s.tup = omega arith in
            search_from_complete max_extensions 0 k s lt (omega arith) (rw start none_left)
              (omega arith) (omega arith) (rw at empty),
      )
      | inr (e, found) ↦
          let sound = search_from_sound max_extensions s.tup e s lt found in
          inl (e, found, sound.0, sound.1)
    ]
