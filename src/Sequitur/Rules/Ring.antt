-- ===== src/Sequitur/Rules/Ring.antt =====
-- The list of all rules that rules.c keeps: a circular list, linked both ways, from main_rule on.
use system_fundamentals_ii_c.Prelude.{
  Distinct, Fresh, Fresh-last, List, [], arith, fun_ext, if◌then◌else◌, last, none, some, subst,
  sym, ℕ, ◌++◌, ◌==◌, ◌∷◌, ◌≡◌, ◌≢◌,
}
use system_fundamentals_ii_c.Sequitur.Memory.{Memory, Symbol, after, returns}
use system_fundamentals_ii_c.Sequitur.Rules.{add_rule}

-- The pointers nextr lead from `x` through `ys` to `z`, and the pointers prevr lead back.
abbrev pub Linked : (ℕ → Symbol) → ℕ → List ℕ → ℕ → Type 0
Linked cells x [] z = ((cells x).nextr ≡ some z) × ((cells z).prevr ≡ some x)
Linked cells x (y ∷ ys) z =
    ((cells x).nextr ≡ some y) × ((cells y).prevr ≡ some x) × Linked cells y ys z

-- The rules of the memory, the main rule first.
abbrev pub HasRules : Memory → List ℕ → Type 0
HasRules s [] = s.main_rule ≡ none
HasRules s (m ∷ rules) = (s.main_rule ≡ some m) × Linked s.storage m rules m × Distinct (m ∷ rules)

Linked-last :
    (cells : ℕ → Symbol) (x z : ℕ) (ys : List ℕ)
    → Linked cells x ys z
    → (cells z).prevr ≡ some (last x ys)
Linked-last cells x z [] (h, k) = k
Linked-last cells x z (y ∷ ys) (h, k, l) = Linked-last cells y z ys l

-- The cells after the assignments of add_rule.
abbrev with_last : (ℕ → Symbol) → (l m a : ℕ) → ℕ → Symbol
with_last cells l m a x =
    if x == a
    then record (cells a) { prevr = some l; nextr = some m }
    else if x == m
    then record (cells m) { prevr = some a; nextr = if m == l then some a else (cells m).nextr }
    else if x == l
    then record (cells l) { nextr = some a }
    else cells x

Linked-with_last :
    (cells : ℕ → Symbol) (x m a : ℕ) (ys : List ℕ)
    → Linked cells x ys m
    → Fresh x ys
    → Distinct ys
    → Fresh m ys
    → Fresh a ys
    → a ≢ x
    → a ≢ m
    → Linked (with_last cells (last x ys) m a) x (ys ++ a ∷ []) m
Linked-with_last cells x m a [] (h, k) d1 d2 d3 d4 ax am = ground arith
Linked-with_last cells x m a (y ∷ ys) (h, k, l) (xy, xs) (d1, d2) (my, ms) (ay, fresh) ax am = (
  ground (arith, Fresh-last x y ys (xy, xs)),
  ground arith,
  Linked-with_last cells y m a ys l d1 d2 ms fresh ay am,
)

Fresh-append : (x a : ℕ) (ys : List ℕ) → Fresh x ys → x ≢ a → Fresh x (ys ++ a ∷ [])
Fresh-append x a [] h ne = (ne, tt)
Fresh-append x a (y ∷ ys) (h, k) ne = (h, Fresh-append x a ys k ne)

Distinct-append : (a : ℕ) (ys : List ℕ) → Distinct ys → Fresh a ys → Distinct (ys ++ a ∷ [])
Distinct-append a [] d f = (tt, tt)
Distinct-append a (y ∷ ys) (h, d) (ne, f) =
    (Fresh-append y a ys h (λ e. ne (sym e)), Distinct-append a ys d f)

add_rule-storage :
    (a m l : ℕ) (s : Memory)
    → s.main_rule ≡ some m
    → (s.storage m).prevr ≡ some l
    → a ≢ m
    → a ≢ l
    → with_last s.storage l m a ≡ (after s (add_rule a s)).storage
unfolding add_rule
add_rule-storage a m l s h back am al = fun_ext (λ x. ground (arith, h, back))

-- add_rule of a rule that is not in the list of all rules returns, and puts it at the end.
pub add_rule-HasRules :
    (a : ℕ) (rules : List ℕ) (s : Memory)
    → HasRules s rules
    → Fresh a rules
    → (t : Memory) × (add_rule a s ≡ returns tt t) × HasRules t (rules ++ a ∷ [])
unfolding add_rule
add_rule-HasRules a [] s h f = (
  after s (add_rule a s),
  ground (arith, h),
  (ground (arith, h), (ground (arith, h), ground (arith, h)), (tt, tt)),
)
add_rule-HasRules a (m ∷ rules) s (h, linked, (d, ds)) (am, f) =
    let back = Linked-last s.storage m m rules linked in
    (
      after s (add_rule a s),
      ground (arith, h, back),
      (
        ground (arith, h, back),
        subst (λ cells. Linked cells m (rules ++ a ∷ []) m)
            (add_rule-storage a m (last m rules) s h back am (Fresh-last a m rules (am, f)))
            (Linked-with_last s.storage m m a rules linked d ds d f am am),
        Distinct-append a (m ∷ rules) (d, ds) (am, f),
      ),
    )
