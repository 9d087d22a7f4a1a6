-- ===== src/Pbx/Registry.antt =====
-- The exchange of pbx.c: pbx_init, pbx_register, pbx_unregister, pbx_shutdown, and the search for an
-- extension.
pub mod Search
pub mod Register
pub mod Unregister
pub mod Shutdown
pub mod Init
use system_fundamentals_ii_c.Prelude.{
  Bool, Option, false, if◌then◌else◌, none, pos, some, suc, true, zero, ℕ, ◌%◌, ◌+◌, ◌-◌, ◌==◌, ◌∷◌,
}
use system_fundamentals_ii_c.Pbx.State.{
  Content, M, Network, Pbx, Status, Tu, TuState, blocks, connected, deref, dial_tone, extension_at,
  failure, faults, load, lock, lock_buddy, lock_pbx, max_extensions, notify, on_hook, pure, refuses,
  returns, ring_back, ringing, set_buddy, set_state, shows, shows_ext, success, unlock_buddy,
  unlock_pbx, update, ◌>>=◌, ◌>>◌,
}

-- The first loop of pbx_init, from index `i` on for `n` rounds.
pub clear_table : ℕ → ℕ → Pbx → Pbx
clear_table zero i s = s
clear_table (suc n) i s =
    clear_table n (i + 1)
      (record s { tus = update s.tus i none; exit_sems = update s.exit_sems i 1 })

-- pbx_init, on what malloc returned: NULL, or memory with any content.
pub pbx_init : Option Pbx → Option Pbx
pbx_init none = none
pbx_init (some raw) =
    some (clear_table max_extensions 0 (record raw { tup = 0; exiting = false; mutex = 1 }))

-- The loop of get_next_available_extension at index `i`, for at most `n` more rounds, over the table
-- and its pointer.
unfoldable pub search_from : (ℕ → Option ℕ) → ℕ → ℕ → ℕ → Option ℕ
search_from tus tup zero i = none
search_from tus tup (suc n) i =
    let next = (i + 1) % max_extensions in
    let rest = search_from tus tup n next in
    elim (tus i) [ none ↦ some i | some _ ↦ if next == tup then none else rest ]

unfoldable pub get_next_available_extension : Pbx → Option ℕ
get_next_available_extension s = search_from s.tus s.tup max_extensions s.tup

-- P and V on pbx->exit_sems[n]
abbrev pub wait_exit : ℕ → M (Unit {0})
wait_exit n s = elim (s.exit_sems n == 0) [
  | true ↦ blocks
  | false ↦ returns tt (record s { exit_sems = update s.exit_sems n (s.exit_sems n - 1) })
]

abbrev pub post_exit : ℕ → M (Unit {0})
post_exit n s = returns tt (record s { exit_sems = update s.exit_sems n (s.exit_sems n + 1) })

-- The new unit, and its entry in the table.
abbrev enter : ℕ → ℕ → ℕ → M (Unit {0})
enter fd n p s = returns tt (record s {
  heap = update s.heap p (some (record { fd = fd; ext = n; buddy = none; state = on_hook }));
  locks = update s.locks p 1;
  tus = update s.tus n (some p);
  tup = (s.tup + 1) % max_extensions;
})

-- `pbx->tus[n] = NULL`
abbrev leave_table : ℕ → M (Unit {0})
leave_table n s = returns tt (record s { tus = update s.tus n none })

-- free(tu)
abbrev free : ℕ → M (Unit {0})
free a s = elim (s.heap a) [
  | none ↦ faults
  | some t ↦ returns tt (record s { heap = update s.heap a none })
]

module _ (net : Network) where
  -- The end of pbx_register, by the result of the notification.
  abbrev register_end : Status → ℕ → M (Option ℕ)
  register_end failure p = unlock_pbx >> pure none
  register_end success p = unlock_pbx >> pure (some p)

  -- An extension is free; malloc returned NULL or a pointer.
  abbrev register_at : Option ℕ → ℕ → ℕ → M (Option ℕ)
  register_at none fd n = unlock_pbx >> pure none
  register_at (some p) fd n = do
    enter fd n p
    wait_exit n
    told ← notify net fd (shows_ext on_hook n)
    register_end told p

  abbrev register_found : Option ℕ → Option ℕ → ℕ → M (Option ℕ)
  register_found none alloc fd = do unlock_pbx; told ← notify net fd refuses; pure none
  register_found (some n) alloc fd = register_at alloc fd n

  -- `alloc` is what malloc returns.
  unfoldable pub pbx_register : Option ℕ → ℕ → M (Option ℕ)
  pbx_register alloc fd = do
    lock_pbx
    found ← λ s. returns (get_next_available_extension s) s
    register_found found alloc fd

  -- `if(pbx->exiting == 0 && ...)`: what the buddy is told of its new state
  abbrev tell_buddy : ℕ → Content → M (Unit {0})
  tell_buddy fd c s = elim s.exiting [
    | true ↦ returns tt s
    | false ↦ elim (notify net fd c s) [
      | returns told s' ↦ returns tt s'
      | faults ↦ faults
      | blocks ↦ blocks
    ]
  ]

  -- The call that the unit is in ends, by its state on entry.
  abbrev unregister_branch : TuState → ℕ → M (Unit {0})
  unregister_branch connected a = do
    t ← load a
    b ← deref t.buddy
    set_state b dial_tone
    u ← load b
    tell_buddy u.fd (shows dial_tone)
    set_buddy b none
  unregister_branch ringing a = do
    t ← load a
    b ← deref t.buddy
    set_state b dial_tone
    u ← load b
    tell_buddy u.fd (shows dial_tone)
    set_buddy b none
  unregister_branch ring_back a = do
    t ← load a
    b ← deref t.buddy
    set_state b on_hook
    u ← load b
    tell_buddy u.fd (shows_ext on_hook u.ext)
    set_buddy b none
  unregister_branch _ a = pure tt

  -- `pbx->tus[tu->ext] != tu`
  abbrev is_entry : Option ℕ → ℕ → Bool
  is_entry none a = false
  is_entry (some p) a = p == a

  abbrev unregister_end : Bool → ℕ → ℕ → M Status
  unregister_end false a n = do unlock_buddy a; free a; unlock_pbx; pure failure
  unregister_end true a n = do
    leave_table n
    unlock_buddy a
    unlock_pbx
    free a
    post_exit n
    pure success

  unfoldable pub pbx_unregister : Option ℕ → M Status
  pbx_unregister none = pure failure
  pbx_unregister (some a) = do
    lock_pbx
    lock a
    lock_buddy a
    t ← load a
    unregister_branch t.state a
    w ← load a
    entry ← extension_at (pos w.ext)
    unregister_end (is_entry entry a) a w.ext

-- `shutdown(tu->fd, SHUT_RDWR)` of an entry that is not NULL
abbrev close_entry : Option ℕ → M (Unit {0})
close_entry none s = returns tt s
close_entry (some a) s = elim (s.heap a) [
  | none ↦ faults
  | some t ↦ returns tt (record s { closed = t.fd ∷ s.closed })
]

-- The first loop of pbx_shutdown, from index `i` on for `n` rounds.
pub close_from : ℕ → ℕ → M (Unit {0})
close_from zero i = pure tt
close_from (suc n) i = do
  lock_pbx
  entry ← extension_at (pos i)
  unlock_pbx
  close_entry entry
  close_from n (i + 1)

-- Its second loop.
pub wait_from : ℕ → ℕ → M (Unit {0})
wait_from zero i = pure tt
wait_from (suc n) i = wait_exit i >> wait_from n (i + 1)

abbrev start_exit : M (Unit {0})
start_exit s = returns tt (record s { exiting = true })

-- The second loop waits for other threads: `blocks` is the answer while a unit is registered.
unfoldable pub pbx_shutdown : M (Unit {0})
pbx_shutdown = do
  lock_pbx
  start_exit
  unlock_pbx
  close_from max_extensions 0
  wait_from max_extensions 0

-- tu_fileno and tu_extension, of NULL or of a unit; `none` is -1.
pub tu_fileno : Option Tu → Option ℕ
tu_fileno none = none
tu_fileno (some t) = some t.fd

pub tu_extension : Option Tu → Option ℕ
tu_extension none = none
tu_extension (some t) = some t.ext
