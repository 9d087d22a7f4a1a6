-- ===== src/Pbx/Dial.antt =====
-- tu_dial of pbx.c: calling another unit.
pub mod Validity
use system_fundamentals_ii_c.Prelude.{
  Bool, Option, arith, false, if◌then◌else◌, none, pos, some, true, ℕ, ℤ, ◌&&◌, ◌<◌, ◌==◌, ◌≡◌, ◌≢◌,
}
use system_fundamentals_ii_c.Pbx.Pairing.{Keeps, Memory, is_buddy}
use system_fundamentals_ii_c.Pbx.State.{
  Network, Pbx, Returned, Tu, TuState, after, busy_signal, dial_tone, error, max_extensions,
  on_hook, ring_back, ringing,
}
use system_fundamentals_ii_c.Pbx.Units.{tu_dial}

-- The state of the caller after tu_dial, by its state on entry and that of the unit at the dialled
-- extension, if there is one. A caller that dials itself finds a unit that is not on the hook.
abbrev pub dialled : TuState → Option TuState → TuState
dialled on_hook _ = on_hook
dialled st none = error
dialled dial_tone (some on_hook) = ring_back
dialled dial_tone (some _) = busy_signal
dialled st (some _) = st

-- The call rings at the unit `b`.
abbrev pub rings : TuState → Option TuState → Bool
rings dial_tone (some on_hook) = true
rings _ _ = false

-- The units after tu_dial on `t` at `a`, where `c` is the entry of the dialled extension and
-- `target` the state of the unit there.
abbrev pub dial_change : Memory → ℕ → Tu → Option ℕ → Option TuState → Memory
dial_change h a t c target x =
    if x == a
    then some (record t {
      state = dialled t.state target;
      buddy = if rings t.state target then c else t.buddy;
    })
    else if rings t.state target && is_buddy c x
    then called (h x)
    else h x
  where
    called : Option Tu → Option Tu
    called none = none
    called (some u) = some (record u { state = ringing; buddy = some a })

-- The state of the unit that an entry of the table leads to.
abbrev pub state_of : Memory → Option ℕ → Option TuState
state_of h none = none
state_of h (some c) = elim (h c) [ none ↦ none | some u ↦ some u.state ]

-- The caller is on the hook.
module _ (net : Network) (s : Pbx) (a : ℕ) (ext : ℤ) (t : Tu) (at_a : s.heap a ≡ some t)
    (free_a : s.locks a ≡ 1) (free : s.mutex ≡ 1) (hook : t.state ≡ on_hook) where
  idle_returns : Returned (tu_dial net a ext s)
  unfolding tu_dial
  idle_returns = ground arith

  idle_heap : (x : ℕ) → (after s (tu_dial net a ext s)).heap x ≡ s.heap x
  unfolding tu_dial
  idle_heap x = ground arith

  idle-Keeps : Keeps s (after s (tu_dial net a ext s))
  unfolding tu_dial
  idle-Keeps = record {
    same_tup = ground arith;
    same_tus = ground arith;
    same_sems = ground arith;
    same_mutex = ground arith;
    same_locks = λ x. ground arith;
    same_exts = λ x. ground arith;
  }

-- Nothing is at the dialled extension.
module _ (net : Network) (s : Pbx) (a e : ℕ) (t : Tu) (at_a : s.heap a ≡ some t)
    (free_a : s.locks a ≡ 1) (free : s.mutex ≡ 1) (range : e < max_extensions)
    (empty : s.tus e ≡ none) (off : t.state ≢ on_hook) where
  absent_returns : Returned (tu_dial net a (pos e) s)
  unfolding tu_dial
  absent_returns = ground arith

  absent_heap :
      (x : ℕ)
      → (after s (tu_dial net a (pos e) s)).heap x
        ≡ (if x == a then some (record t { state = error }) else s.heap x)
  unfolding tu_dial
  absent_heap x = ground arith

  absent-Keeps : Keeps s (after s (tu_dial net a (pos e) s))
  unfolding tu_dial
  absent-Keeps = record {
    same_tup = ground arith;
    same_tus = ground arith;
    same_sems = ground arith;
    same_mutex = ground arith;
    same_locks = λ x. ground arith;
    same_exts = λ x. ground arith;
  }

-- The caller dials its own extension.
module _ (net : Network) (s : Pbx) (a e : ℕ) (t : Tu) (at_a : s.heap a ≡ some t)
    (free_a : s.locks a ≡ 1) (free : s.mutex ≡ 1) (range : e < max_extensions)
    (entry : s.tus e ≡ some a) (own : e ≡ t.ext) where
  self_returns : Returned (tu_dial net a (pos e) s)
  unfolding tu_dial
  self_returns = ground arith

  self_heap :
      (x : ℕ)
      → (after s (tu_dial net a (pos e) s)).heap x
        ≡ dial_change s.heap a t (some a) (some t.state) x
  unfolding tu_dial
  self_heap x = ground arith

  self-Keeps : Keeps s (after s (tu_dial net a (pos e) s))
  unfolding tu_dial
  self-Keeps = record {
    same_tup = ground arith;
    same_tus = ground arith;
    same_sems = ground arith;
    same_mutex = ground arith;
    same_locks = λ x. ground arith;
    same_exts = λ x. ground arith;
  }

-- Another unit is at the dialled extension.
module _ (net : Network) (s : Pbx) (a b e : ℕ) (t u : Tu) (at_a : s.heap a ≡ some t)
    (at_b : s.heap b ≡ some u) (apart : a ≢ b) (other : e ≢ t.ext) (free_a : s.locks a ≡ 1)
    (free_b : s.locks b ≡ 1) (free : s.mutex ≡ 1) (range : e < max_extensions)
    (entry : s.tus e ≡ some b) where
  present_returns : Returned (tu_dial net a (pos e) s)
  unfolding tu_dial
  present_returns = ground arith

  present_heap :
      (x : ℕ)
      → (after s (tu_dial net a (pos e) s)).heap x
        ≡ dial_change s.heap a t (some b) (some u.state) x
  unfolding tu_dial
  present_heap x = ground arith

  present-Keeps : Keeps s (after s (tu_dial net a (pos e) s))
  unfolding tu_dial
  present-Keeps = record {
    same_tup = ground arith;
    same_tus = ground arith;
    same_sems = ground arith;
    same_mutex = ground arith;
    same_locks = λ x. ground arith;
    same_exts = λ x. ground arith;
  }
