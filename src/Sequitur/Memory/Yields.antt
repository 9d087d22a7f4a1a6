-- ===== src/Sequitur/Memory/Yields.antt =====
-- What holds of the result of each call that returns: the rules for calls in sequence.
use system_fundamentals_ii_c.Prelude.{Bool, false, true}
use system_fundamentals_ii_c.Sequitur.Memory.{
  M, Memory, Outcome, aborts, faults, returns, unfinished, ◌>>=◌,
}

-- What holds of the value of a call that returns.
abbrev pub Yields {ℓ} : {A : Type ℓ} → (A → Type 0) → Outcome A → Type 0
Yields P (returns x s) = P x
Yields P faults = Unit
Yields P aborts = Unit
Yields P unfinished = Unit

abbrev pub Anything {ℓ} : {A : Type ℓ} → A → Type 0
Anything x = Unit

Yields-Anything {ℓ} : {A : Type ℓ} (o : Outcome A) → Yields Anything o
Yields-Anything (returns x s) = tt
Yields-Anything faults = tt
Yields-Anything aborts = tt
Yields-Anything unfinished = tt

module _ {ℓ κ} {A : Type ℓ} {B : Type κ} (P : A → Type 0) (Q : B → Type 0) where
  Yields-step :
      (o : Outcome A) (f : A → M B)
      → Yields P o
      → ((a : A) (t : Memory) → P a → Yields Q (f a t))
      → Yields Q (elim o [
        | returns a t ↦ f a t
        | faults ↦ faults
        | aborts ↦ aborts
        | unfinished ↦ unfinished
      ])
  Yields-step (returns a t) f h k = k a t h
  Yields-step faults f h k = tt
  Yields-step aborts f h k = tt
  Yields-step unfinished f h k = tt

  pub Yields-bind :
      (m : M A) (f : A → M B) (s : Memory)
      → Yields P (m s)
      → ((a : A) (t : Memory) → P a → Yields Q (f a t))
      → Yields Q ((m >>= f) s)
  Yields-bind m f s h k = Yields-step (m s) f h k

-- The rest of a call, whatever its first part returns.
pub Yields-rest {ℓ κ} :
    {A : Type ℓ} {B : Type κ} (Q : B → Type 0) (m : M A) (f : A → M B) (s : Memory)
    → ((a : A) (t : Memory) → Yields Q (f a t))
    → Yields Q ((m >>= f) s)
Yields-rest Q m f s k = Yields-bind Anything Q m f s (Yields-Anything (m s)) (λ a t _. k a t)

pub Yields-split {ℓ} :
    {A : Type ℓ} (P : A → Type 0) (b : Bool) (x y : M A) (s : Memory)
    → Yields P (x s)
    → Yields P (y s)
    → Yields P ((elim b as (λ _. M A) [ true ↦ x | false ↦ y ]) s)
Yields-split P true x y s h k = h
Yields-split P false x y s h k = k
