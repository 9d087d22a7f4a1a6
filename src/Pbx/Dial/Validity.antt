-- ===== src/Pbx/Dial/Validity.antt =====
-- What tu_dial of pbx.c does to a valid exchange, on every branch.
use system_fundamentals_ii_c.Prelude.{
  Bool-cases, Option-cases, arith, false, inl, inr, negsuc, none, pos, refl, some, true, ℕ,
  ℕ_discrete, ℤ, ◌<◌, ◌≡◌, ◌≢◌, ◌≤◌, ◌⊎◌,
}
use system_fundamentals_ii_c.Pbx.Dial.{
  absent_heap, absent-Keeps, absent_returns, dial_change, idle_heap, idle-Keeps, idle_returns,
  present_heap, present-Keeps, present_returns, rings, self_heap, self-Keeps, self_returns,
  state_of,
}
use system_fundamentals_ii_c.Pbx.Pairing.{
  Confined-IsValid, IsValid, Keeps, Mated, Memory, Same-IsValid, Solitary-IsValid, Within, ext_at,
  mate,
}
use system_fundamentals_ii_c.Pbx.State.{
  Network, Pbx, Returned, Tu, TuState, after, dial_tone, error, faults, max_extensions, on_hook,
  ring_back, ringing,
}
use system_fundamentals_ii_c.Pbx.Units.{tu_dial}

-- The four ways through tu_dial, for an extension within the table.
data Case (s : Pbx) (a e : ℕ) (t : Tu) : Type 0 where
  idle : t.state ≡ on_hook → Case s a e t
  absent : t.state ≢ on_hook → s.tus e ≡ none → Case s a e t
  own : s.tus e ≡ some a → e ≡ t.ext → Case s a e t
  present :
      (b : ℕ) (u : Tu) → s.heap b ≡ some u → a ≢ b → e ≢ t.ext → s.tus e ≡ some b → Case s a e t

idle_or_not : (st : TuState) → (st ≡ on_hook) ⊎ (st ≢ on_hook)
idle_or_not on_hook = inl refl
idle_or_not _ = inr (λ h. cc)

unit_at : (h : Memory) (x e : ℕ) → ext_at h x ≡ some e → (u : Tu) × (h x ≡ some u) × (u.ext ≡ e)
unit_at h x e p = elim (Option-cases (h x)) [
  | inl q ↦ ground arith
  | inr (u, q) ↦ (u, q, ground arith)
]

entry-Case :
    (s : Pbx) (a e c : ℕ) (t : Tu)
    → IsValid s
    → s.heap a ≡ some t
    → e < max_extensions
    → s.tus e ≡ some c
    → Case s a e t
entry-Case s a e c t v at_a range entry = elim (ℕ_discrete a c) [
  | yes q ↦ own (ground arith) (ground (arith, (unit_at s.heap c e (v.entered e c range entry)).1))
  | no q ↦
      let (u, at_c, ext) = unit_at s.heap c e (v.entered e c range entry) in
      present c u at_c q (λ same. q (ground (arith, v.placed a t.ext (ground arith)))) entry
]

cases :
    (s : Pbx) (a e : ℕ) (t : Tu) → IsValid s → s.heap a ≡ some t → e < max_extensions → Case s a e t
cases s a e t v at_a range = elim (idle_or_not t.state) [
  | inl hook ↦ idle hook
  | inr off ↦ elim (Option-cases (s.tus e)) [
    | inl empty ↦ absent off empty
    | inr (c, entry) ↦ entry-Case s a e c t v at_a range entry
  ]
]

module _ (net : Network) (s : Pbx) (a e : ℕ) (t : Tu) (v : IsValid s) (at_a : s.heap a ≡ some t)
    (range : e < max_extensions) where
  abbrev after_dial : Pbx
  after_dial = after s (tu_dial net a (pos e) s)

  own_lock : s.locks a ≡ 1
  own_lock = v.unlocked a t.ext (ground arith)

  lock_of : (b : ℕ) (u : Tu) → s.heap b ≡ some u → s.locks b ≡ 1
  lock_of b u at_b = v.unlocked b u.ext (ground arith)

  returns_by : Case s a e t → Returned (tu_dial net a (pos e) s)
  returns_by (idle hook) = idle_returns net s a (pos e) t at_a own_lock v.entry_lock hook
  returns_by (absent off empty) =
      absent_returns net s a e t at_a own_lock v.entry_lock range empty off
  returns_by (own entry same) = self_returns net s a e t at_a own_lock v.entry_lock range entry same
  returns_by (present b u at_b apart other entry) =
      present_returns net s a b e t u at_a at_b apart other own_lock (lock_of b u at_b) v.entry_lock
        range entry

  Keeps-by : Case s a e t → Keeps s after_dial
  Keeps-by (idle hook) = idle-Keeps net s a (pos e) t at_a own_lock v.entry_lock hook
  Keeps-by (absent off empty) = absent-Keeps net s a e t at_a own_lock v.entry_lock range empty off
  Keeps-by (own entry same) = self-Keeps net s a e t at_a own_lock v.entry_lock range entry same
  Keeps-by (present b u at_b apart other entry) =
      present-Keeps net s a b e t u at_a at_b apart other own_lock (lock_of b u at_b) v.entry_lock
        range entry

  effect_by :
      Case s a e t
      → (x : ℕ) → after_dial.heap x ≡ dial_change s.heap a t (s.tus e) (state_of s.heap (s.tus e)) x
  effect_by (idle hook) x =
      ground (arith, idle_heap net s a (pos e) t at_a own_lock v.entry_lock hook x)
  effect_by (absent off empty) x =
      ground (arith, absent_heap net s a e t at_a own_lock v.entry_lock range empty off x)
  effect_by (own entry same) x =
      ground (arith, self_heap net s a e t at_a own_lock v.entry_lock range entry same x)
  effect_by (present b u at_b apart other entry) x = ground (
    arith,
    present_heap net s a b e t u at_a at_b apart other own_lock (lock_of b u at_b) v.entry_lock
        range entry x,
  )

  -- The call rings: two units that are in no call become mates.
  IsValid-rings :
      (b : ℕ) (u : Tu)
      → Case s a e t
      → s.heap b ≡ some u
      → a ≢ b
      → s.tus e ≡ some b
      → t.state ≡ dial_tone
      → u.state ≡ on_hook
      → IsValid after_dial
  IsValid-rings b u c at_b apart entry st su =
      Confined-IsValid s after_dial a b v (within a b t at_a (ground arith))
        (within b a u at_b (ground arith))
        (record {
          keeps = Keeps-by c;
          off = λ x na nb. ground (arith, effect_by c x);
          at_first = λ t' h. inr (
            b,
            record u { state = ringing; buddy = some a },
            ground (arith, effect_by c a, effect_by c b),
          );
          at_second = λ u' h. inr (
            a,
            record t { state = ring_back; buddy = some b },
            ground (arith, effect_by c a, effect_by c b),
          );
        })
    where
      within : (x y : ℕ) (w : Tu) → s.heap x ≡ some w → mate w.state ≡ none → Within s.heap x y
      within x y w at_x lone w' at_x' = elim (v.paired x w at_x) [
        | inl alone ↦ inl (ground arith)
        | inr (z, o, m) ↦ absurd (ground arith)
      ]

  -- The call does not ring, and the caller keeps its buddy.
  IsValid-silent :
      (c : Case s a e t)
      → rings t.state (state_of s.heap (s.tus e)) ≡ false
      → (mate t.state ≡ none) ⊎ (s.tus e ≢ none)
      → IsValid after_dial
  IsValid-silent c quiet safe = elim (v.paired a t at_a) [
    | inl alone ↦ Solitary-IsValid s after_dial a t v at_a alone (record {
      keeps = Keeps-by c;
      off = λ x na. ground (arith, effect_by c x);
      stays = λ t' h. ground (arith, effect_by c a);
    })
    | inr (b, u, m) ↦ Same-IsValid s after_dial v (Keeps-by c) (λ x. ground (arith, effect_by c x))
  ]

  IsValid-by : (mate t.state ≡ none) ⊎ (s.tus e ≢ none) → Case s a e t → IsValid after_dial
  IsValid-by safe c = elim (Bool-cases (rings t.state (state_of s.heap (s.tus e)))) [
    | inr quiet ↦ IsValid-silent c quiet safe
    | inl loud ↦ ring_case c loud c
  ]
    where
      ring_case :
          Case s a e t
          → rings t.state (state_of s.heap (s.tus e)) ≡ true
          → Case s a e t
          → IsValid after_dial
      ring_case c loud (idle hook) = absurd (ground arith)
      ring_case c loud (absent off empty) = absurd (ground arith)
      ring_case c loud (own entry same) = absurd (ground arith)
      ring_case c loud (present b u at_b apart other entry) =
          IsValid-rings b u c at_b apart entry (ground arith) (ground arith)

-- In a valid exchange tu_dial of an extension within the table returns, with no fault and no wait.
-- It leaves the exchange valid if the caller is in no call or the extension is registered.
pub dial-IsValid :
    (net : Network) (s : Pbx) (a e : ℕ) (t : Tu)
    → IsValid s
    → s.heap a ≡ some t
    → e < max_extensions
    → (mate t.state ≡ none) ⊎ (s.tus e ≢ none)
    → Returned (tu_dial net a (pos e) s) × IsValid (after s (tu_dial net a (pos e) s))
dial-IsValid net s a e t v at_a range safe =
    let c = cases s a e t v at_a range in
    (returns_by net s a e t v at_a range c, IsValid-by net s a e t v at_a range safe c)

pub dial-Keeps :
    (net : Network) (s : Pbx) (a e : ℕ) (t : Tu)
    → IsValid s
    → s.heap a ≡ some t
    → e < max_extensions
    → Keeps s (after s (tu_dial net a (pos e) s))
dial-Keeps net s a e t v at_a range = Keeps-by net s a e t v at_a range (cases s a e t v at_a range)

-- In a valid exchange tu_dial of an extension within the table leaves the caller in the state that
-- its own state and that of the dialled unit give: it stays on the hook; else it is in error if the
-- extension is not registered; else a dial tone becomes a ring back if the dialled unit is on the
-- hook, which then rings, and a busy signal if not; any other state stays. The caller and a unit that
-- rings become each other's buddy, and all else in memory stays as it was.
pub dial_effect :
    (net : Network) (s : Pbx) (a e : ℕ) (t : Tu)
    → IsValid s
    → s.heap a ≡ some t
    → e < max_extensions
    → (x : ℕ)
    → (after s (tu_dial net a (pos e) s)).heap x
      ≡ dial_change s.heap a t (s.tus e) (state_of s.heap (s.tus e)) x
dial_effect net s a e t v at_a range x =
    effect_by net s a e t v at_a range (cases s a e t v at_a range) x

-- A unit that is in a call and dials an extension that is not registered goes to the error state and
-- keeps its buddy, so that the exchange is no longer valid.
pub dial_breaks_call :
    (net : Network) (s : Pbx) (a e b : ℕ) (t u : Tu)
    → IsValid s
    → s.heap a ≡ some t
    → Mated s.heap a t b u
    → e < max_extensions
    → s.tus e ≡ none
    → ((after s (tu_dial net a (pos e) s)).heap a ≡ some (record t { state = error }))
      × ((after s (tu_dial net a (pos e) s)).heap b ≡ some u)
      × (¬ IsValid (after s (tu_dial net a (pos e) s)))
dial_breaks_call net s a e b t u v at_a m range empty =
    (own_error, ground (arith, dial_effect net s a e t v at_a range b), broken)
  where
    own_error : (after s (tu_dial net a (pos e) s)).heap a ≡ some (record t { state = error })
    own_error = ground (arith, dial_effect net s a e t v at_a range a)

    broken : ¬ IsValid (after s (tu_dial net a (pos e) s))
    broken w = elim (w.paired a (record t { state = error }) own_error) [
      | inl alone ↦ ground arith
      | inr (c, o, k) ↦ ground arith
    ]

-- An extension outside of the table is a read outside of the array, unless the caller is on the hook.
pub dial_out_of_range :
    (net : Network) (s : Pbx) (a : ℕ) (t : Tu) (ext : ℤ)
    → IsValid s
    → s.heap a ≡ some t
    → t.state ≢ on_hook
    → ((e : ℕ) → ext ≡ pos e → max_extensions ≤ e)
    → tu_dial net a ext s ≡ faults
unfolding tu_dial
dial_out_of_range net s a t (pos e) v at_a off out =
    ground (arith, v.unlocked a t.ext (ground arith), v.entry_lock, out e refl)
dial_out_of_range net s a t (negsuc n) v at_a off out =
    ground (arith, v.unlocked a t.ext (ground arith), v.entry_lock)
