-- ===== src/Pbx/Pairing.antt =====
-- The invariant of pbx.c between two calls: who is in a call with whom, which extensions are taken,
-- and that every semaphore is back at its initial value.
use native.Mathlib.Decide.{ℕ_discrete}
use system_fundamentals_ii_c.Prelude.{
  Bool, Option, arith, false, fun_ext, if◌then◌else◌, inl, inr, none, some, subst, sym, ℕ, ◌<◌,
  ◌==◌, ◌∙◌, ◌≡◌, ◌≢◌, ◌⊎◌,
}
use system_fundamentals_ii_c.Pbx.State.{
  M, Pbx, Returned, Status, Tu, TuState, after, connected, max_extensions, ring_back, ringing,
}

-- The state that the other unit of a call is in.
abbrev pub mate : TuState → Option TuState
mate connected = some connected
mate ringing = some ring_back
mate ring_back = some ringing
mate _ = none

abbrev pub Memory : Type 0
Memory = ℕ → Option Tu

-- A unit that is in no call, and a unit in a call with the one at `y`.
abbrev pub Alone : Tu → Type 0
Alone t = (t.buddy ≡ none) × (mate t.state ≡ none)

abbrev pub Mated : Memory → ℕ → Tu → ℕ → Tu → Type 0
Mated h x t y u =
    (t.buddy ≡ some y)
    × (h y ≡ some u)
    × (u.buddy ≡ some x)
    × (mate t.state ≡ some u.state)
    × (x ≢ y)

abbrev pub Paired : Memory → ℕ → Tu → Type 0
Paired h x t = Alone t ⊎ ((y : ℕ) × (u : Tu) × Mated h x t y u)

-- The extension of the unit at an address.
abbrev pub ext_at : Memory → ℕ → Option ℕ
ext_at h x = elim (h x) [ none ↦ none | some t ↦ some t.ext ]

-- A memory in which the unit `t` at `a` and the unit of its buddy, if it has one, are changed.
abbrev pub is_buddy : Option ℕ → ℕ → Bool
is_buddy none x = false
is_buddy (some b) x = x == b

abbrev pub change : Memory → ℕ → Tu → (Tu → Tu) → (Tu → Tu) → Memory
change h a t own peer x =
    if x == a then some (own t) else if is_buddy t.buddy x then on_some (h x) else h x
  where
    on_some : Option Tu → Option Tu
    on_some none = none
    on_some (some u) = some (peer u)

pub record IsValid (s : Pbx) : Type 0 where
  pub pointer : s.tup < max_extensions
  pub paired : (x : ℕ) (t : Tu) → s.heap x ≡ some t → Paired s.heap x t
  pub placed : (x e : ℕ) → ext_at s.heap x ≡ some e → (s.tus e ≡ some x) × (e < max_extensions)
  pub entered : (e x : ℕ) → e < max_extensions → s.tus e ≡ some x → ext_at s.heap x ≡ some e
  pub unlocked : (x e : ℕ) → ext_at s.heap x ≡ some e → s.locks x ≡ 1
  pub entry_lock : s.mutex ≡ 1
  pub exit_free : (e : ℕ) → e < max_extensions → s.tus e ≡ none → s.exit_sems e ≡ 1
  pub exit_held : (e x : ℕ) → e < max_extensions → s.tus e ≡ some x → s.exit_sems e ≡ 0

-- All that an operation on units leaves alone.
pub record Keeps (s s' : Pbx) : Type 0 where
  pub same_tup : s'.tup ≡ s.tup
  pub same_tus : s'.tus ≡ s.tus
  pub same_sems : s'.exit_sems ≡ s.exit_sems
  pub same_mutex : s'.mutex ≡ s.mutex
  pub same_locks : (x : ℕ) → s'.locks x ≡ s.locks x
  pub same_exts : (x : ℕ) → ext_at s'.heap x ≡ ext_at s.heap x

pub Keeps-IsValid :
    (s s' : Pbx)
    → IsValid s
    → Keeps s s'
    → ((x : ℕ) (t : Tu) → s'.heap x ≡ some t → Paired s'.heap x t)
    → IsValid s'
Keeps-IsValid s s' v k p = record {
  pointer = let old = v.pointer in ground (arith, k.same_tup);
  paired = p;
  placed = λ x e h. let old = v.placed x e (sym (k.same_exts x) ∙ h) in ground (arith, ap-tus e);
  entered = λ e x lt h. k.same_exts x ∙ v.entered e x lt (sym (ap-tus e) ∙ h);
  unlocked = λ x e h. k.same_locks x ∙ v.unlocked x e (sym (k.same_exts x) ∙ h);
  entry_lock = k.same_mutex ∙ v.entry_lock;
  exit_free = λ e lt h. ap-sems e ∙ v.exit_free e lt (sym (ap-tus e) ∙ h);
  exit_held = λ e x lt h. ap-sems e ∙ v.exit_held e x lt (sym (ap-tus e) ∙ h);
}
  where
    ap-tus : (e : ℕ) → s'.tus e ≡ s.tus e
    ap-tus e = λ i. k.same_tus i e

    ap-sems : (e : ℕ) → s'.exit_sems e ≡ s.exit_sems e
    ap-sems e = λ i. k.same_sems i e

-- What an address of the pair may point to: nothing, or the other one.
abbrev pub Within : Memory → ℕ → ℕ → Type 0
Within h a b = (t : Tu) → h a ≡ some t → (t.buddy ≡ none) ⊎ (t.buddy ≡ some b)

-- So no third unit is in a call with it.
not-Within : (h : Memory) (a b x y : ℕ) (t u : Tu) → Within h a b → Mated h x t y u → x ≢ b → y ≢ a
not-Within h a b x y t u w m x≢b q = elim (w u (rw q at m.1)) [
  | inl p ↦ ground arith
  | inr p ↦ ground arith
]

-- A change that is confined to two units keeps every other unit paired.
pub patch-Paired :
    (h h' : Memory) (a b : ℕ)
    → ((x : ℕ) (t : Tu) → h x ≡ some t → Paired h x t)
    → Within h a b
    → Within h b a
    → ((x : ℕ) → x ≢ a → x ≢ b → h' x ≡ h x)
    → ((t : Tu) → h' a ≡ some t → Paired h' a t)
    → ((t : Tu) → h' b ≡ some t → Paired h' b t)
    → (x : ℕ) (t : Tu) → h' x ≡ some t
    → Paired h' x t
patch-Paired h h' a b p wa wb same pa pb x t e = elim (ℕ_discrete x a) [
  | yes q ↦ rw q (pa t (rw q at e))
  | no na ↦ elim (ℕ_discrete x b) [
    | yes q ↦ rw q (pb t (rw q at e))
    | no nb ↦ elim (p x t (sym (same x na nb) ∙ e)) [
      | inl alone ↦ inl alone
      | inr (y, u, m) ↦ inr (
        y,
        u,
        (
          m.0,
          same y (not-Within h a b x y t u wa m nb) (not-Within h b a x y t u wb m na) ∙ m.1,
          m.2,
          m.3,
          m.4,
        ),
      )
    ]
  ]
]

-- A change of two units that keeps the invariant.
pub record Confined (s s' : Pbx) (a b : ℕ) : Type 0 where
  pub keeps : Keeps s s'
  pub off : (x : ℕ) → x ≢ a → x ≢ b → s'.heap x ≡ s.heap x
  pub at_first : (t : Tu) → s'.heap a ≡ some t → Paired s'.heap a t
  pub at_second : (t : Tu) → s'.heap b ≡ some t → Paired s'.heap b t

pub Confined-IsValid :
    (s s' : Pbx) (a b : ℕ)
    → IsValid s
    → Within s.heap a b
    → Within s.heap b a
    → Confined s s' a b
    → IsValid s'
Confined-IsValid s s' a b v wa wb c =
    Keeps-IsValid s s' v c.keeps
      (patch-Paired s.heap s'.heap a b v.paired wa wb c.off c.at_first c.at_second)

-- A change of one unit that is in no call, and stays in none.
pub record Solitary (s s' : Pbx) (a : ℕ) : Type 0 where
  pub keeps : Keeps s s'
  pub off : (x : ℕ) → x ≢ a → s'.heap x ≡ s.heap x
  pub stays : (t : Tu) → s'.heap a ≡ some t → Alone t

pub Solitary-IsValid :
    (s s' : Pbx) (a : ℕ) (t : Tu)
    → IsValid s
    → s.heap a ≡ some t
    → Alone t
    → Solitary s s' a
    → IsValid s'
Solitary-IsValid s s' a t v e alone c = Confined-IsValid s s' a a v within within (record {
  keeps = c.keeps;
  off = λ x na _. c.off x na;
  at_first = λ t' e'. inl (c.stays t' e');
  at_second = λ t' e'. inl (c.stays t' e');
})
  where
    within : Within s.heap a a
    within t' e' = ground arith

-- A change of the two units of a call.
pub Mated-IsValid :
    (s s' : Pbx) (a b : ℕ) (t u : Tu)
    → IsValid s
    → s.heap a ≡ some t
    → Mated s.heap a t b u
    → Confined s s' a b
    → IsValid s'
Mated-IsValid s s' a b t u v e m = Confined-IsValid s s' a b v first second
  where
    first : Within s.heap a b
    first t' e' = ground arith

    second : Within s.heap b a
    second t' e' = ground arith

-- A change of no unit.
pub Same-IsValid :
    (s s' : Pbx) → IsValid s → Keeps s s' → ((x : ℕ) → s'.heap x ≡ s.heap x) → IsValid s'
Same-IsValid s s' v k same =
    Keeps-IsValid s s' v k
      (subst (λ h. (x : ℕ) (t : Tu) → h x ≡ some t → Paired h x t) (sym (fun_ext same)) v.paired)

-- What an operation on the unit at `a` owes to the exchange, by whether the unit is in a call.
pub record Behaves (op : M Status) (a : ℕ) : Type 0 where
  pub lone :
      (s : Pbx) (t : Tu)
      → s.heap a ≡ some t
      → s.locks a ≡ 1
      → Alone t
      → Returned (op s) × Solitary s (after s (op s)) a
  pub joined :
      (s : Pbx) (b : ℕ) (t u : Tu)
      → s.heap a ≡ some t
      → s.locks a ≡ 1
      → s.locks b ≡ 1
      → Mated s.heap a t b u
      → Returned (op s) × Confined s (after s (op s)) a b

-- Then it returns, with no fault and no wait, and leaves the exchange valid.
pub Behaves-IsValid :
    (op : M Status) (a : ℕ)
    → Behaves op a
    → (s : Pbx) (t : Tu) → IsValid s
    → s.heap a ≡ some t
    → Returned (op s) × IsValid (after s (op s))
Behaves-IsValid op a good s t v e = elim (v.paired a t e) [
  | inl alone ↦
      let both = good.lone s t e own alone in (both.0, Solitary-IsValid s _ a t v e alone both.1)
  | inr (b, u, m) ↦
      let both = good.joined s b t u e own (v.unlocked b u.ext (ground arith)) m in
      (both.0, Mated-IsValid s _ a b t u v e m both.1)
]
  where
    own : s.locks a ≡ 1
    own = v.unlocked a t.ext (ground arith)
