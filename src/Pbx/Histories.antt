-- ===== src/Pbx/Histories.antt =====
-- Sequences of calls of pbx.c on an exchange, one after the other. Calls that interleave are not
-- modelled.
use system_fundamentals_ii_c.Prelude.{
  List, Option, arith, inl, inr, none, pos, some, ℕ, ◌<◌, ◌≡◌, ◌≢◌, ◌⊎◌,
}
use system_fundamentals_ii_c.Pbx.Chat.{chat-IsValid}
use system_fundamentals_ii_c.Pbx.Dial.Validity.{dial-IsValid}
use system_fundamentals_ii_c.Pbx.Hangup.{hangup-IsValid}
use system_fundamentals_ii_c.Pbx.Pairing.{IsValid, mate}
use system_fundamentals_ii_c.Pbx.Pickup.{pickup-IsValid}
use system_fundamentals_ii_c.Pbx.Registry.{pbx_register, pbx_unregister}
use system_fundamentals_ii_c.Pbx.Registry.Register.{register-IsValid}
use system_fundamentals_ii_c.Pbx.Registry.Unregister.{unregister-IsValid}
use system_fundamentals_ii_c.Pbx.State.{Network, Pbx, Tu, after, connected, max_extensions}
use system_fundamentals_ii_c.Pbx.Units.{tu_chat, tu_dial, tu_hangup, tu_pickup}

-- One call that returns. A TU that is passed is one that is registered; malloc gives fresh memory.
pub data Call (net : Network) (s : Pbx) : Pbx → Type 0 where
  pickup : (a : ℕ) (t : Tu) → s.heap a ≡ some t → Call net s (after s (tu_pickup net a s))
  hangup : (a : ℕ) (t : Tu) → s.heap a ≡ some t → Call net s (after s (tu_hangup net a s))
  dial :
      (a e : ℕ) (t : Tu)
      → s.heap a ≡ some t
      → e < max_extensions
      → (mate t.state ≡ none) ⊎ (s.tus e ≢ none)
      → Call net s (after s (tu_dial net a (pos e) s))
  chat :
      (a : ℕ) (t : Tu) (msg : List ℕ)
      → s.heap a ≡ some t
      → Call net s (after s (tu_chat net a msg s))
  register :
      (alloc : Option ℕ) (fd : ℕ)
      → ((p : ℕ) → alloc ≡ some p → s.heap p ≡ none)
      → Call net s (after s (pbx_register net alloc fd s))
  unregister :
      (a : ℕ) (t : Tu) → s.heap a ≡ some t → Call net s (after s (pbx_unregister net (some a) s))

pub data History (net : Network) (s : Pbx) : Pbx → Type 0 where
  start : History net s s
  followed : {u w : Pbx} → History net s u → Call net u w → History net s w

Call-IsValid : (net : Network) {s u : Pbx} → Call net s u → IsValid s → IsValid u
Call-IsValid net {s} (pickup a t e) v = (pickup-IsValid net s a t v e).1
Call-IsValid net {s} (hangup a t e) v = (hangup-IsValid net s a t v e).1
Call-IsValid net {s} (dial a e t at range safe) v = (dial-IsValid net s a e t v at range safe).1
Call-IsValid net {s} (chat a t msg e) v = (chat-IsValid net s a t msg v e).1
Call-IsValid net {s} (register alloc fd fresh) v = (register-IsValid net s alloc fd v fresh).1
Call-IsValid net {s} (unregister a t e) v = (unregister-IsValid net s a t v e).1

-- Every history of calls from a valid exchange, in which no unit that is in a call dials an extension
-- that is not registered, and none dials outside of the table, ends in a valid exchange.
pub History-IsValid : (net : Network) {s u : Pbx} → History net s u → IsValid s → IsValid u
History-IsValid net start v = v
History-IsValid net (followed h c) v = Call-IsValid net c (History-IsValid net h v)

-- So two units that are in a call are always in it with each other, in matching states: if one is
-- connected, it has a buddy, which is connected, and whose buddy it is.
pub connected_both :
    (net : Network) {s : Pbx} (u : Pbx) (a : ℕ) (t : Tu)
    → History net s u
    → IsValid s
    → u.heap a ≡ some t
    → t.state ≡ connected
    → (b : ℕ) × (w : Tu) × (t.buddy ≡ some b)
      × (u.heap b ≡ some w)
      × (w.state ≡ connected)
      × (w.buddy ≡ some a)
connected_both net u a t h v at_a st = elim ((History-IsValid net h v).paired a t at_a) [
  | inl alone ↦ absurd (ground arith)
  | inr (b, w, m) ↦ (b, w, m.0, m.1, ground arith, m.2)
]
