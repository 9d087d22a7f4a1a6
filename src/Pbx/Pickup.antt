-- ===== src/Pbx/Pickup.antt =====
-- tu_pickup of pbx.c: it returns, keeps the invariant, and answers a call.
use system_fundamentals_ii_c.Prelude.{arith, if◌then◌else◌, inl, inr, some, ℕ, ◌==◌, ◌≡◌}
use system_fundamentals_ii_c.Pbx.Pairing.{
  Alone, Behaves, Behaves-IsValid, Confined, IsValid, Mated, Solitary, change,
}
use system_fundamentals_ii_c.Pbx.State.{
  Network, Pbx, Returned, Tu, TuState, after, connected, dial_tone, on_hook, ringing, shows_ext,
  write,
}
use system_fundamentals_ii_c.Pbx.Units.{tu_pickup}

-- The state that a receiver is in once it is lifted, and that of the other unit of its call.
abbrev pub lifted : TuState → TuState
lifted on_hook = dial_tone
lifted ringing = connected
lifted st = st

abbrev pub answered : TuState → TuState → TuState
answered ringing peer = connected
answered _ peer = peer

-- The change of the unit and of its buddy.
abbrev pub lift : Tu → Tu
lift t = record t { state = lifted t.state }

abbrev pub answer : TuState → Tu → Tu
answer st u = record u { state = answered st u.state }

module _ (net : Network) (s : Pbx) (a : ℕ) (t : Tu) (at_a : s.heap a ≡ some t)
    (free_a : s.locks a ≡ 1) (alone : Alone t) where
  alone_returns : Returned (tu_pickup net a s)
  unfolding tu_pickup
  alone_returns = ground arith

  alone_effect :
      (x : ℕ) → (after s (tu_pickup net a s)).heap x ≡ (if x == a then some (lift t) else s.heap x)
  unfolding tu_pickup
  alone_effect x = ground arith

  alone_confined : Solitary s (after s (tu_pickup net a s)) a
  unfolding tu_pickup
  alone_confined = record {
    keeps = record {
      same_tup = ground arith;
      same_tus = ground arith;
      same_sems = ground arith;
      same_mutex = ground arith;
      same_locks = λ x. ground arith;
      same_exts = λ x. ground arith;
    };
    off = λ x na. ground arith;
    stays = λ t' e. ground arith;
  }

module _ (net : Network) (s : Pbx) (a b : ℕ) (t u : Tu) (at_a : s.heap a ≡ some t)
    (free_a : s.locks a ≡ 1) (free_b : s.locks b ≡ 1) (m : Mated s.heap a t b u) where
  mated_returns : Returned (tu_pickup net a s)
  unfolding tu_pickup
  mated_returns = ground arith

  mated_effect :
      (x : ℕ)
      → (after s (tu_pickup net a s)).heap x
        ≡ (if x == a then some (lift t) else if x == b then some (answer t.state u) else s.heap x)
  unfolding tu_pickup
  mated_effect x = ground arith

  mated-Confined : Confined s (after s (tu_pickup net a s)) a b
  unfolding tu_pickup
  mated-Confined = record {
    keeps = record {
      same_tup = ground arith;
      same_tus = ground arith;
      same_sems = ground arith;
      same_mutex = ground arith;
      same_locks = λ x. ground arith;
      same_exts = λ x. ground arith;
    };
    off = λ x na nb. ground arith;
    at_first = λ t' e. inr (b, answer t.state u, ground arith);
    at_second = λ u' e. inr (a, lift t, ground arith);
  }

pickup-Behaves : (net : Network) (a : ℕ) → Behaves (tu_pickup net a) a
pickup-Behaves net a = record {
  lone = λ s t e own alone.
      (alone_returns net s a t e own alone, alone_confined net s a t e own alone);
  joined = λ s b t u e own other m.
      (mated_returns net s a b t u e own other m, mated-Confined net s a b t u e own other m);
}

-- In a valid exchange tu_pickup returns, with no fault and no wait, and leaves the exchange valid.
pub pickup-IsValid :
    (net : Network) (s : Pbx) (a : ℕ) (t : Tu)
    → IsValid s
    → s.heap a ≡ some t
    → Returned (tu_pickup net a s) × IsValid (after s (tu_pickup net a s))
pickup-IsValid net s a = Behaves-IsValid (tu_pickup net a) a (pickup-Behaves net a) s

-- In a valid exchange tu_pickup changes the state of its unit and, if that unit was ringing, the
-- state of the caller: both are connected. All else in memory stays as it was.
pub pickup_effect :
    (net : Network) (s : Pbx) (a : ℕ) (t : Tu)
    → IsValid s
    → s.heap a ≡ some t
    → (x : ℕ) → (after s (tu_pickup net a s)).heap x ≡ change s.heap a t lift (answer t.state) x
pickup_effect net s a t v e x = elim (v.paired a t e) [
  | inl alone ↦ ground (arith, alone_effect net s a t e (v.unlocked a t.ext (ground arith)) alone x)
  | inr (b, u, m) ↦ ground (
    arith,
    mated_effect net s a b t u e (v.unlocked a t.ext (ground arith))
        (v.unlocked b u.ext (ground arith)) m x,
  )
]

-- In a valid exchange a ringing unit that is picked up is told that it is connected to the caller's
-- extension, and then the caller that it is connected to the unit's; each write is tried once.
pickup_answer_log :
    (net : Network) (s : Pbx) (a b : ℕ) (t u : Tu)
    → IsValid s
    → s.heap a ≡ some t
    → s.heap b ≡ some u
    → t.buddy ≡ some b
    → t.state ≡ ringing
    → (after s (tu_pickup net a s)).log
      ≡ write net u.fd
          (shows_ext connected t.ext)
          (write net t.fd (shows_ext connected u.ext) s.log)
unfolding tu_pickup
pickup_answer_log net s a b t u v ea eb buddy st = elim (v.paired a t ea) [
  | inl alone ↦ ground arith
  | inr (c, w, m) ↦
      ground (arith, v.unlocked a t.ext (ground arith), v.unlocked b u.ext (ground arith))
]
