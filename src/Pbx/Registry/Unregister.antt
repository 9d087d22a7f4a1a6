-- ===== src/Pbx/Registry/Unregister.antt =====
-- pbx_unregister of pbx.c: a unit leaves, and its call ends.
use system_fundamentals_ii_c.Prelude.{
  arith, if◌then◌else◌, inl, inr, none, pos, refl, some, ℕ, ◌+◌, ◌<◌, ◌==◌, ◌∙◌, ◌≡◌, ◌≢◌,
}
use system_fundamentals_ii_c.Pbx.Dial.Validity.{dial-Keeps, dial_breaks_call}
use system_fundamentals_ii_c.Pbx.Pairing.{
  Alone, IsValid, Mated, Within, change, ext_at, patch-Paired,
}
use system_fundamentals_ii_c.Pbx.Registry.{free, pbx_unregister}
use system_fundamentals_ii_c.Pbx.State.{
  Network, Pbx, Tu, TuState, after, connected, dial_tone, error, max_extensions, on_hook, result,
  ring_back, ringing, success,
}
use system_fundamentals_ii_c.Pbx.Units.{tu_dial}

-- The state that the other unit of a call is left in.
abbrev pub orphaned : TuState → TuState → TuState
orphaned connected peer = dial_tone
orphaned ringing peer = dial_tone
orphaned ring_back peer = on_hook
orphaned _ peer = peer

abbrev pub orphan : TuState → Tu → Tu
orphan st u = record u { state = orphaned st u.state; buddy = none }

-- An exchange without the unit `t` at `a`, whose buddy is at `b`, or at `a` if it has none.
record Removed (s s' : Pbx) (a b : ℕ) (t : Tu) : Type 0 where
  same_tup : s'.tup ≡ s.tup
  memory : (x : ℕ) → x ≢ a → x ≢ b → s'.heap x ≡ s.heap x
  gone : s'.heap a ≡ none
  left : (u : Tu) → s'.heap b ≡ some u → Alone u
  extensions : (x : ℕ) → x ≢ a → ext_at s'.heap x ≡ ext_at s.heap x
  table : (e : ℕ) → s'.tus e ≡ (if e == t.ext then none else s.tus e)
  exits : (e : ℕ) → s'.exit_sems e ≡ (if e == t.ext then s.exit_sems e + 1 else s.exit_sems e)
  unit_locks : (x : ℕ) → x ≢ a → s'.locks x ≡ s.locks x
  same_mutex : s'.mutex ≡ s.mutex

Removed-IsValid :
    (s s' : Pbx) (a b : ℕ) (t : Tu)
    → IsValid s
    → s.heap a ≡ some t
    → Within s.heap a b
    → Within s.heap b a
    → Removed s s' a b t
    → IsValid s'
Removed-IsValid s s' a b t v at_a wa wb d = record {
  pointer = let old = v.pointer in ground (arith, d.same_tup);
  paired =
      patch-Paired s.heap s'.heap a b v.paired wa wb d.memory
        (λ t' h. absurd (ground (arith, d.gone))) (λ u h. inl (d.left u h));
  placed = λ x e h.
      ground (arith, others x e h, d.extensions x, d.table e, v.placed x e, v.placed a t.ext);
  entered = λ e x lt h. ground (arith, d.table e, d.extensions x, v.entered e x lt);
  unlocked = λ x e h. ground (arith, others x e h, d.extensions x, d.unit_locks x, v.unlocked x e);
  entry_lock = d.same_mutex ∙ v.entry_lock;
  exit_free = λ e lt h.
      ground (arith, d.table e, d.exits e, v.exit_free e lt, v.exit_held e a lt, v.placed a t.ext);
  exit_held = λ e x lt h. ground (arith, d.table e, d.exits e, v.exit_held e x lt);
}
  where
    others : (x e : ℕ) → ext_at s'.heap x ≡ some e → x ≢ a
    others x e h q = ground (arith, d.gone)

module _ (net : Network) (s : Pbx) (a : ℕ) (t : Tu) (at_a : s.heap a ≡ some t)
    (free_a : s.locks a ≡ 1) (free : s.mutex ≡ 1) (entry : s.tus t.ext ≡ some a)
    (range : t.ext < max_extensions) where
  module _ (alone : Alone t) where
    lone_returns : result (pbx_unregister net (some a) s) ≡ some success
    unfolding pbx_unregister
    lone_returns = ground arith

    lone_heap :
        (x : ℕ)
        → (after s (pbx_unregister net (some a) s)).heap x ≡ (if x == a then none else s.heap x)
    unfolding pbx_unregister
    lone_heap x = ground arith

    lone-Removed : Removed s (after s (pbx_unregister net (some a) s)) a a t
    unfolding pbx_unregister
    lone-Removed = record {
      same_tup = ground arith;
      memory = λ x na nb. ground arith;
      gone = ground arith;
      left = λ u h. ground arith;
      extensions = λ x na. ground arith;
      table = λ e. ground arith;
      exits = λ e. ground arith;
      unit_locks = λ x na. ground arith;
      same_mutex = ground arith;
    }

  module _ (b : ℕ) (u : Tu) (free_b : s.locks b ≡ 1) (m : Mated s.heap a t b u) where
    mated_returns : result (pbx_unregister net (some a) s) ≡ some success
    unfolding pbx_unregister
    mated_returns = ground arith

    mated_heap :
        (x : ℕ)
        → (after s (pbx_unregister net (some a) s)).heap x
          ≡ (if x == a then none else if x == b then some (orphan t.state u) else s.heap x)
    unfolding pbx_unregister
    mated_heap x = ground arith

    mated-Removed : Removed s (after s (pbx_unregister net (some a) s)) a b t
    unfolding pbx_unregister
    mated-Removed = record {
      same_tup = ground arith;
      memory = λ x na nb. ground arith;
      gone = ground arith;
      left = λ w h. ground arith;
      extensions = λ x na. ground arith;
      table = λ e. ground arith;
      exits = λ e. ground arith;
      unit_locks = λ x na. ground arith;
      same_mutex = ground arith;
    }

-- In a valid exchange pbx_unregister of a unit returns 0, with no fault and no wait, and leaves the
-- exchange valid.
pub unregister-IsValid :
    (net : Network) (s : Pbx) (a : ℕ) (t : Tu)
    → IsValid s
    → s.heap a ≡ some t
    → (result (pbx_unregister net (some a) s) ≡ some success)
      × IsValid (after s (pbx_unregister net (some a) s))
unregister-IsValid net s a t v at_a = elim (v.paired a t at_a) [
  | inl alone ↦ (
    lone_returns net s a t at_a own v.entry_lock place.0 place.1 alone,
    Removed-IsValid s _ a a t v at_a (λ t' h. inl (ground arith)) (λ t' h. inl (ground arith))
        (lone-Removed net s a t at_a own v.entry_lock place.0 place.1 alone),
  )
  | inr (b, u, m) ↦
      let other = v.unlocked b u.ext (ground arith) in
      (
        mated_returns net s a t at_a own v.entry_lock place.0 place.1 b u other m,
        Removed-IsValid s _ a b t v at_a (λ t' h. inr (ground arith)) (λ u' h. inr (ground arith))
            (mated-Removed net s a t at_a own v.entry_lock place.0 place.1 b u other m),
      )
]
  where
    own : s.locks a ≡ 1
    own = v.unlocked a t.ext (ground arith)

    place : (s.tus t.ext ≡ some a) × (t.ext < max_extensions)
    place = v.placed a t.ext (ground arith)

-- In a valid exchange pbx_unregister frees the unit and its extension, and ends its call, if it is in
-- one: the other unit is left with a dial tone, or on the hook if it was ringing, and no buddy. All
-- else in memory stays as it was.
pub unregister_effect :
    (net : Network) (s : Pbx) (a : ℕ) (t : Tu)
    → IsValid s
    → s.heap a ≡ some t
    → (x : ℕ)
    → ((after s (pbx_unregister net (some a) s)).heap x
        ≡ (if x == a then none else change s.heap a t (λ w. w) (orphan t.state) x))
      × ((after s (pbx_unregister net (some a) s)).tus t.ext ≡ none)
unregister_effect net s a t v at_a x = elim (v.paired a t at_a) [
  | inl alone ↦ (
    ground (arith, lone_heap net s a t at_a own v.entry_lock place.0 place.1 alone x),
    ground
        (arith, (lone-Removed net s a t at_a own v.entry_lock place.0 place.1 alone).table t.ext),
  )
  | inr (b, u, m) ↦
      let other = v.unlocked b u.ext (ground arith) in
      (
        ground (arith, mated_heap net s a t at_a own v.entry_lock place.0 place.1 b u other m x),
        ground (
          arith,
          (mated-Removed net s a t at_a own v.entry_lock place.0 place.1 b u other m).table t.ext,
        ),
      )
]
  where
    own : s.locks a ≡ 1
    own = v.unlocked a t.ext (ground arith)

    place : (s.tus t.ext ≡ some a) × (t.ext < max_extensions)
    place = v.placed a t.ext (ground arith)

-- A unit in the error state that still has a buddy: its buddy keeps the pointer to freed memory.
stale :
    (net : Network) (s : Pbx) (a b : ℕ) (t u : Tu)
    → s.heap a ≡ some t
    → s.heap b ≡ some u
    → a ≢ b
    → t.state ≡ error
    → t.buddy ≡ some b
    → s.locks a ≡ 1
    → s.locks b ≡ 1
    → s.mutex ≡ 1
    → s.tus t.ext ≡ some a
    → t.ext < max_extensions
    → ((after s (pbx_unregister net (some a) s)).heap a ≡ none)
      × ((after s (pbx_unregister net (some a) s)).heap b ≡ some u)
unfolding pbx_unregister
stale net s a b t u at_a at_b apart st buddy free_a free_b free entry range = ground arith

-- A unit that is in a call, dials an extension that is not registered, and then leaves, is freed
-- while the other unit of the call keeps its state and its pointer to the freed unit.
pub dial_unregister_dangles :
    (net : Network) (s : Pbx) (a e b : ℕ) (t u : Tu)
    → IsValid s
    → s.heap a ≡ some t
    → Mated s.heap a t b u
    → e < max_extensions
    → s.tus e ≡ none
    → let s' = after s (tu_dial net a (pos e) s) in
      ((after s' (pbx_unregister net (some a) s')).heap a ≡ none)
      × ((after s' (pbx_unregister net (some a) s')).heap b ≡ some u)
      × (u.buddy ≡ some a)
dial_unregister_dangles net s a e b t u v at_a m range empty =
    let broken = dial_breaks_call net s a e b t u v at_a m range empty in
    let k = dial-Keeps net s a e t v at_a range in
    let place = v.placed a t.ext (ground arith) in
    let done =
      stale net (after s (tu_dial net a (pos e) s)) a b (record t { state = error }) u broken.0
        broken.1 (ground arith) refl m.0 (k.same_locks a ∙ v.unlocked a t.ext (ground arith))
        (k.same_locks b ∙ v.unlocked b u.ext (ground arith)) (k.same_mutex ∙ v.entry_lock)
        ((λ i. k.same_tus i t.ext) ∙ place.0) place.1 in
    (done.0, done.1, m.2)
