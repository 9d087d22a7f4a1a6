-- ===== src/Pbx/Hangup.antt =====
-- tu_hangup of pbx.c: it returns, keeps the invariant, and ends a call.
use system_fundamentals_ii_c.Prelude.{arith, if◌then◌else◌, inl, inr, none, some, ℕ, ◌==◌, ◌≡◌}
use system_fundamentals_ii_c.Pbx.Pairing.{
  Alone, Behaves, Behaves-IsValid, Confined, IsValid, Mated, Solitary, change,
}
use system_fundamentals_ii_c.Pbx.State.{
  Network, Pbx, Returned, Tu, TuState, after, connected, dial_tone, on_hook, ring_back, ringing,
}
use system_fundamentals_ii_c.Pbx.Units.{tu_hangup}

-- The state of the other unit of a call once one side hangs up, by the state of that side.
abbrev pub left : TuState → TuState → TuState
left connected peer = dial_tone
left ring_back peer = on_hook
left ringing peer = dial_tone
left _ peer = peer

-- The change of the unit and of its buddy.
abbrev pub replace : Tu → Tu
replace t = record t { state = on_hook; buddy = none }

abbrev pub leave : TuState → Tu → Tu
leave st u = record u { state = left st u.state; buddy = none }

module _ (net : Network) (s : Pbx) (a : ℕ) (t : Tu) (at_a : s.heap a ≡ some t)
    (free_a : s.locks a ≡ 1) (alone : Alone t) where
  alone_returns : Returned (tu_hangup net a s)
  unfolding tu_hangup
  alone_returns = ground arith

  alone_effect :
      (x : ℕ)
      → (after s (tu_hangup net a s)).heap x ≡ (if x == a then some (replace t) else s.heap x)
  unfolding tu_hangup
  alone_effect x = ground arith

  alone_confined : Solitary s (after s (tu_hangup net a s)) a
  unfolding tu_hangup
  alone_confined = record {
    keeps = record {
      same_tup = ground arith;
      same_tus = ground arith;
      same_sems = ground arith;
      same_mutex = ground arith;
      same_locks = λ x. ground arith;
      same_exts = λ x. ground arith;
    };
    off = λ x na. ground arith;
    stays = λ t' e. ground arith;
  }

module _ (net : Network) (s : Pbx) (a b : ℕ) (t u : Tu) (at_a : s.heap a ≡ some t)
    (free_a : s.locks a ≡ 1) (free_b : s.locks b ≡ 1) (m : Mated s.heap a t b u) where
  mated_returns : Returned (tu_hangup net a s)
  unfolding tu_hangup
  mated_returns = ground arith

  mated_effect :
      (x : ℕ)
      → (after s (tu_hangup net a s)).heap x
        ≡ (if x == a then some (replace t) else if x == b then some (leave t.state u) else s.heap x)
  unfolding tu_hangup
  mated_effect x = ground arith

  mated-Confined : Confined s (after s (tu_hangup net a s)) a b
  unfolding tu_hangup
  mated-Confined = record {
    keeps = record {
      same_tup = ground arith;
      same_tus = ground arith;
      same_sems = ground arith;
      same_mutex = ground arith;
      same_locks = λ x. ground arith;
      same_exts = λ x. ground arith;
    };
    off = λ x na nb. ground arith;
    at_first = λ t' e. inl (ground arith);
    at_second = λ u' e. inl (ground arith);
  }

hangup-Behaves : (net : Network) (a : ℕ) → Behaves (tu_hangup net a) a
hangup-Behaves net a = record {
  lone = λ s t e own alone.
      (alone_returns net s a t e own alone, alone_confined net s a t e own alone);
  joined = λ s b t u e own other m.
      (mated_returns net s a b t u e own other m, mated-Confined net s a b t u e own other m);
}

-- In a valid exchange tu_hangup returns, with no fault and no wait, and leaves the exchange valid.
pub hangup-IsValid :
    (net : Network) (s : Pbx) (a : ℕ) (t : Tu)
    → IsValid s
    → s.heap a ≡ some t
    → Returned (tu_hangup net a s) × IsValid (after s (tu_hangup net a s))
hangup-IsValid net s a = Behaves-IsValid (tu_hangup net a) a (hangup-Behaves net a) s

-- In a valid exchange tu_hangup puts its unit on the hook and ends its call, if it was in one: the
-- other unit is left with a dial tone, or on the hook if it was still ringing. All else in memory
-- stays as it was.
pub hangup_effect :
    (net : Network) (s : Pbx) (a : ℕ) (t : Tu)
    → IsValid s
    → s.heap a ≡ some t
    → (x : ℕ) → (after s (tu_hangup net a s)).heap x ≡ change s.heap a t replace (leave t.state) x
hangup_effect net s a t v e x = elim (v.paired a t e) [
  | inl alone ↦ ground (arith, alone_effect net s a t e (v.unlocked a t.ext (ground arith)) alone x)
  | inr (b, u, m) ↦ ground (
    arith,
    mated_effect net s a b t u e (v.unlocked a t.ext (ground arith))
        (v.unlocked b u.ext (ground arith)) m x,
  )
]
