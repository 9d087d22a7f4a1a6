-- ===== src/Pbx/State.antt =====
-- HW5-Private-Branch-Exchange-Telephone-System/src/pbx.c: the two structures, and the effects of
-- its functions. A pointer to a TU is a number; `none` in the heap is memory that is not allocated.
use system_fundamentals_ii_c.Prelude.{
  Bool, List, Option, false, if◌then◌else◌, ltb, negsuc, none, pos, some, true, ℕ, ℤ, ◌+◌, ◌-◌,
  ◌==◌, ◌∷◌,
}

-- enum tu_state
pub data TuState : Type 0 where
  on_hook ringing dial_tone ring_back busy_signal connected error : TuState

-- struct tu; its semaphore is in `Pbx.locks`
pub record Tu : Type 0 where
  pub fd : ℕ
  pub ext : ℕ
  pub buddy : Option ℕ
  pub state : TuState

-- What is written to a client: the text of a state, a state with an extension, a chat, or the
-- refusal that is sent when no extension is left.
pub data Content : Type 0 where
  shows : TuState → Content
  shows_ext : TuState → ℕ → Content
  chats : List ℕ → Content
  refuses : Content

-- One call of send_notification or send_notifications: the descriptor, what was written, and
-- whether the write failed.
pub record Sent : Type 0 where
  pub fd : ℕ
  pub content : Content
  pub failed : Bool

-- struct pbx, with the memory that its pointers lead to: the TUs, the semaphore of each, and the
-- trace of what was written and shut down. A semaphore is its value.
pub record Pbx : Type 0 where
  pub tup : ℕ
  pub exiting : Bool
  pub mutex : ℕ
  pub exit_sems : ℕ → ℕ
  pub tus : ℕ → Option ℕ
  pub heap : ℕ → Option Tu
  pub locks : ℕ → ℕ
  pub log : List Sent
  pub closed : List ℕ

-- A call returns, reads or writes through a pointer that leads nowhere, or waits for a semaphore
-- that nobody else is there to post.
pub data Outcome {ℓ} (A : Type ℓ) : Type ℓ where
  returns : A → Pbx → Outcome A
  faults : Outcome A
  blocks : Outcome A

-- The memory after a call that returns, and that it returns.
abbrev pub after {ℓ} : {A : Type ℓ} → Pbx → Outcome A → Pbx
after s (returns _ s') = s'
after s faults = s
after s blocks = s

abbrev pub Returned {ℓ} : {A : Type ℓ} → Outcome A → Type 0
Returned (returns _ _) = Unit
Returned faults = ⊥
Returned blocks = ⊥

-- What the call returns, if it does.
abbrev pub result {ℓ} : {A : Type ℓ} → Outcome A → Option A
result (returns x _) = some x
result faults = none
result blocks = none

abbrev pub M {ℓ} : Type ℓ → Type ℓ
M A = Pbx → Outcome A

infixl 5 ◌>>=◌ ◌>>◌
abbrev pub ◌>>=◌ {ℓ κ} : {A : Type ℓ} {B : Type κ} → M A → (A → M B) → M B
◌>>=◌ m f s = elim (m s) [ returns a s' ↦ f a s' | faults ↦ faults | blocks ↦ blocks ]

abbrev pub ◌>>◌ {ℓ κ} : {A : Type ℓ} {B : Type κ} → M A → M B → M B
◌>>◌ m k = m >>= λ _. k

abbrev pub pure {ℓ} : {A : Type ℓ} → A → M A
pure a s = returns a s

-- The result of a call: 0 or -1.
pub data Status : Type 0 where
  success failure : Status

abbrev pub status : Bool → Status
status true = failure
status false = success

-- `if(... < 0) success = -1;`
abbrev pub worst : Status → Status → Status
worst failure _ = failure
worst success s = s

abbrev pub update {ℓ} : {A : Type ℓ} → (ℕ → A) → ℕ → A → ℕ → A
update f a v x = if x == a then v else f x

-- PBX_MAX_EXTENSIONS, which is FD_SETSIZE
abbrev pub max_extensions : ℕ
max_extensions = 1024

-- Following a pointer.
abbrev pub load : ℕ → M Tu
load a s = elim (s.heap a) [ none ↦ faults | some t ↦ returns t s ]

abbrev pub store : ℕ → Tu → M (Unit {0})
store a t s = returns tt (record s { heap = update s.heap a (some t) })

-- p->current_state = st
abbrev pub set_state : ℕ → TuState → M (Unit {0})
set_state a st = load a >>= λ t. store a (record t { state = st })

-- p->buddy = b
abbrev pub set_buddy : ℕ → Option ℕ → M (Unit {0})
set_buddy a b = load a >>= λ t. store a (record t { buddy = b })

-- A pointer that is followed must not be NULL.
abbrev pub deref : Option ℕ → M ℕ
deref none s = faults
deref (some a) s = returns a s

-- P and V on the semaphore of a TU
abbrev pub lock : ℕ → M (Unit {0})
lock a s = elim (s.heap a) [
  | none ↦ faults
  | some t ↦ elim (s.locks a == 0) [
    | true ↦ blocks
    | false ↦ returns tt (record s { locks = update s.locks a (s.locks a - 1) })
  ]
]

abbrev pub unlock : ℕ → M (Unit {0})
unlock a s = elim (s.heap a) [
  | none ↦ faults
  | some t ↦ returns tt (record s { locks = update s.locks a (s.locks a + 1) })
]

-- `if(tu->buddy != NULL) P(&tu->buddy->mutex);` and the same with V
abbrev pub lock_buddy : ℕ → M (Unit {0})
lock_buddy a = load a >>= λ t. elim t.buddy [ none ↦ pure tt | some b ↦ lock b ]

abbrev pub unlock_buddy : ℕ → M (Unit {0})
unlock_buddy a = load a >>= λ t. elim t.buddy [ none ↦ pure tt | some b ↦ unlock b ]

-- P and V on the semaphore of the PBX
abbrev pub lock_pbx : M (Unit {0})
lock_pbx s = elim (s.mutex == 0) [
  | true ↦ blocks
  | false ↦ returns tt (record s { mutex = s.mutex - 1 })
]

abbrev pub unlock_pbx : M (Unit {0})
unlock_pbx s = returns tt (record s { mutex = s.mutex + 1 })

-- Whether a write fails is the network's choice: it depends on all that was written before, on the
-- descriptor and on the content.
abbrev pub Network : Type 0
Network = List Sent → ℕ → Content → Bool

-- The trace with one more write.
abbrev pub write : Network → ℕ → Content → List Sent → List Sent
write net fd c log = record { fd = fd; content = c; failed = net log fd c } ∷ log

-- send_notification and send_notifications
abbrev pub notify : Network → ℕ → Content → M Status
notify net fd c s = returns (status (net s.log fd c)) (record s { log = write net fd c s.log })

-- pbx->tus[ext]. An index outside of the array is an access to other memory.
abbrev pub extension_at : ℤ → M (Option ℕ)
extension_at (pos e) s = elim (ltb e max_extensions) [ true ↦ returns (s.tus e) s | false ↦ faults ]
extension_at (negsuc n) s = faults

-- ext == tu->ext
abbrev pub is_ext : ℤ → ℕ → Bool
is_ext (pos e) n = e == n
is_ext (negsuc m) n = false
