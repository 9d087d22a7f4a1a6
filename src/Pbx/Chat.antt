-- ===== src/Pbx/Chat.antt =====
-- tu_chat of pbx.c: it changes no unit, and carries a message to the other side of a call.
use system_fundamentals_ii_c.Prelude.{List, arith, false, inl, inr, some, ℕ, ◌≡◌, ◌≢◌}
use system_fundamentals_ii_c.Pbx.Pairing.{
  Alone, Behaves, Behaves-IsValid, Confined, IsValid, Mated, Solitary,
}
use system_fundamentals_ii_c.Pbx.State.{
  Network, Pbx, Returned, Tu, after, chats, connected, result, shows, shows_ext, success, write,
}
use system_fundamentals_ii_c.Pbx.Units.{tu_chat}

module _ (net : Network) (msg : List ℕ) (s : Pbx) (a : ℕ) (t : Tu) (at_a : s.heap a ≡ some t)
    (free_a : s.locks a ≡ 1) (alone : Alone t) where
  alone_returns : Returned (tu_chat net a msg s)
  unfolding tu_chat
  alone_returns = ground arith

  alone_confined : Solitary s (after s (tu_chat net a msg s)) a
  unfolding tu_chat
  alone_confined = record {
    keeps = record {
      same_tup = ground arith;
      same_tus = ground arith;
      same_sems = ground arith;
      same_mutex = ground arith;
      same_locks = λ x. ground arith;
      same_exts = λ x. ground arith;
    };
    off = λ x na. ground arith;
    stays = λ t' e. ground arith;
  }

module _ (net : Network) (msg : List ℕ) (s : Pbx) (a b : ℕ) (t u : Tu) (at_a : s.heap a ≡ some t)
    (free_a : s.locks a ≡ 1) (free_b : s.locks b ≡ 1) (m : Mated s.heap a t b u) where
  mated_returns : Returned (tu_chat net a msg s)
  unfolding tu_chat
  mated_returns = ground arith

  mated-Confined : Confined s (after s (tu_chat net a msg s)) a b
  unfolding tu_chat
  mated-Confined = record {
    keeps = record {
      same_tup = ground arith;
      same_tus = ground arith;
      same_sems = ground arith;
      same_mutex = ground arith;
      same_locks = λ x. ground arith;
      same_exts = λ x. ground arith;
    };
    off = λ x na nb. ground arith;
    at_first = λ t' e. inr (b, u, ground arith);
    at_second = λ u' e. inr (a, t, ground arith);
  }

chat-Behaves : (net : Network) (a : ℕ) (msg : List ℕ) → Behaves (tu_chat net a msg) a
chat-Behaves net a msg = record {
  lone = λ s t e own alone.
      (alone_returns net msg s a t e own alone, alone_confined net msg s a t e own alone);
  joined = λ s b t u e own other m. (
    mated_returns net msg s a b t u e own other m,
    mated-Confined net msg s a b t u e own other m,
  );
}

-- In a valid exchange tu_chat returns, with no fault and no wait, and leaves the exchange valid.
pub chat-IsValid :
    (net : Network) (s : Pbx) (a : ℕ) (t : Tu) (msg : List ℕ)
    → IsValid s
    → s.heap a ≡ some t
    → Returned (tu_chat net a msg s) × IsValid (after s (tu_chat net a msg s))
chat-IsValid net s a t msg = Behaves-IsValid (tu_chat net a msg) a (chat-Behaves net a msg) s t

-- In a valid exchange a connected unit's chat is written once, to the descriptor of the unit that
-- names it as its buddy, after the sender is told that it is connected to that unit's extension.
chat_delivers :
    (net : Network) (s : Pbx) (a b : ℕ) (t u : Tu) (msg : List ℕ)
    → IsValid s
    → s.heap a ≡ some t
    → s.heap b ≡ some u
    → t.state ≡ connected
    → u.buddy ≡ some a
    → (after s (tu_chat net a msg s)).log
      ≡ write net u.fd (chats msg) (write net t.fd (shows_ext connected u.ext) s.log)
unfolding tu_chat
chat_delivers net s a b t u msg v ea eb st buddy = elim (v.paired a t ea) [
  | inl alone ↦ ground arith
  | inr (c, w, m) ↦ elim (v.paired b u eb) [
    | inl alone ↦ ground arith
    | inr (d, w', m') ↦
        ground (arith, v.unlocked a t.ext (ground arith), v.unlocked b u.ext (ground arith))
  ]
]

-- A chat outside of a call sends the sender its state and nothing else, and reports success if that
-- write succeeds.
chat_unconnected :
    (net : Network) (s : Pbx) (a : ℕ) (t : Tu) (msg : List ℕ)
    → IsValid s
    → s.heap a ≡ some t
    → t.state ≢ connected
    → net s.log t.fd (shows t.state) ≡ false
    → (result (tu_chat net a msg s) ≡ some success)
      × ((after s (tu_chat net a msg s)).log ≡ write net t.fd (shows t.state) s.log)
unfolding tu_chat
chat_unconnected net s a t msg v e st ok = ground (arith, v.unlocked a t.ext (ground arith))
