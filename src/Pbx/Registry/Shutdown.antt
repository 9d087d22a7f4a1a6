-- ===== src/Pbx/Registry/Shutdown.antt =====
-- pbx_init and pbx_shutdown of pbx.c.
use system_fundamentals_ii_c.Prelude.{
  List, Option, Option-cases, arith, inl, inr, none, refl, some, suc, true, zero, ℕ, ℕ_discrete,
  ◌+◌, ◌-◌, ◌<◌, ◌∙◌, ◌∷◌, ◌≡◌, ◌≤◌, ◌⊎◌,
}
use system_fundamentals_ii_c.Pbx.Pairing.{IsValid, Memory, ext_at}
use system_fundamentals_ii_c.Pbx.Registry.{close_from, pbx_shutdown, wait_from}
use system_fundamentals_ii_c.Pbx.State.{Pbx, Returned, Tu, blocks, max_extensions, returns, update}

-- The descriptors that the first loop of pbx_shutdown shuts down, last first.
fd_of : Memory → Option ℕ → List ℕ → List ℕ
fd_of h none fds = fds
fd_of h (some a) fds = elim (h a) [ none ↦ fds | some t ↦ t.fd ∷ fds ]

closing : (ℕ → Option ℕ) → Memory → ℕ → ℕ → List ℕ → List ℕ
closing tus h zero i fds = fds
closing tus h (suc n) i fds = closing tus h n (i + 1) (fd_of h (tus i) fds)

abbrev closing_state : Pbx → ℕ → ℕ → Pbx
closing_state s n i = record s { mutex = 1; closed = closing s.tus s.heap n i s.closed }

-- One round.
close_round :
    (n i : ℕ) (s : Pbx)
    → s.mutex ≡ 1
    → i < max_extensions
    → (s.tus i ≡ none) ⊎ ((x : ℕ) × (t : Tu) × (s.tus i ≡ some x) × (s.heap x ≡ some t))
    → close_from (suc n) i s
      ≡ close_from n (i + 1) (record s { mutex = 1; closed = fd_of s.heap (s.tus i) s.closed })
unfolding close_from fd_of
close_round n i s m lt known = ground arith

close_from_lem :
    (n i : ℕ) (s : Pbx)
    → s.mutex ≡ 1
    → i + n ≤ max_extensions
    → ((e x : ℕ) → e < max_extensions → s.tus e ≡ some x → ext_at s.heap x ≡ some e)
    → close_from n i s ≡ returns tt (closing_state s n i)
unfolding closing
close_from_lem zero i s m le known =
    unfold close_from in (λ j. returns tt (record s { mutex = m j }))
close_from_lem (suc n) i s m le known =
    close_round n i s m (omega arith) (entry (s.tus i) refl)
    ∙ close_from_lem n (i + 1) (record s { mutex = 1; closed = fd_of s.heap (s.tus i) s.closed })
        refl (omega arith) known
  where
    entry :
        (o : Option ℕ)
        → s.tus i ≡ o
        → (s.tus i ≡ none) ⊎ ((x : ℕ) × (t : Tu) × (s.tus i ≡ some x) × (s.heap x ≡ some t))
    entry none e = inl e
    entry (some x) e = elim (Option-cases (s.heap x)) [
      | inl q ↦ absurd (ground (arith, known i x (omega arith) e))
      | inr (t, q) ↦ inr (x, t, e, q)
    ]

wait_from_returns :
    (n i : ℕ) (s : Pbx)
    → ((e : ℕ) → i ≤ e → e < i + n → s.exit_sems e ≡ 1)
    → Returned (wait_from n i s)
unfolding wait_from
wait_from_returns zero i s h = tt
wait_from_returns (suc n) i s h =
    let rest =
      wait_from_returns n (i + 1)
        (record s { exit_sems = update s.exit_sems i (s.exit_sems i - 1) })
        (λ e le lt. ground (arith, h e)) in
    ground (arith, h i, rest)

wait_from_blocks :
    (n i e : ℕ) (s : Pbx) → i ≤ e → e < i + n → s.exit_sems e ≡ 0 → wait_from n i s ≡ blocks
unfolding wait_from
wait_from_blocks zero i e s le lt h = absurd (omega arith)
wait_from_blocks (suc n) i e s le lt h = elim (ℕ_discrete i e) [
  | yes q ↦ ground (arith, let at : s.exit_sems i ≡ 0 = rw q h in at)
  | no q ↦
      let rest =
        wait_from_blocks n (i + 1) e
          (record s { exit_sems = update s.exit_sems i (s.exit_sems i - 1) }) (omega arith)
          (omega arith) (ground arith) in
      ground (arith, rest)
]

shutdown_waits :
    (s : Pbx)
    → IsValid s
    → pbx_shutdown s
      ≡ wait_from max_extensions 0
          (closing_state (record s { exiting = true; mutex = 1 }) max_extensions 0)
unfolding pbx_shutdown
shutdown_waits s v = ground (
  arith,
  v.entry_lock,
  close_from_lem max_extensions 0 (record s { exiting = true; mutex = 1 }) refl (omega arith)
      (λ e x lt h. v.entered e x lt h),
)

-- With no unit registered pbx_shutdown returns.
shutdown_returns :
    (s : Pbx)
    → IsValid s
    → ((e : ℕ) → e < max_extensions → s.tus e ≡ none)
    → Returned (pbx_shutdown s)
shutdown_returns s v empty = rw (shutdown_waits s v) (
    wait_from_returns max_extensions 0 _
      (λ e le lt. v.exit_free e (omega arith) (empty e (omega arith))))

-- With a unit registered pbx_shutdown waits for it to unregister, for ever if nobody does.
pub shutdown_blocks :
    (s : Pbx) (e a : ℕ)
    → IsValid s
    → e < max_extensions
    → s.tus e ≡ some a
    → pbx_shutdown s ≡ blocks
shutdown_blocks s e a v lt entry =
    shutdown_waits s v
    ∙ wait_from_blocks max_extensions 0 e _ (omega arith) (omega arith) (v.exit_held e a lt entry)
