-- ===== src/Pbx/Units.antt =====
-- The operations on a telephone unit: tu_pickup, tu_hangup, tu_dial and tu_chat of pbx.c. The
-- pointer `a` is the argument `tu`.
use system_fundamentals_ii_c.Prelude.{Bool, List, Option, false, none, some, true, ℕ, ℤ}
use system_fundamentals_ii_c.Pbx.State.{
  M, Network, Status, TuState, busy_signal, chats, connected, deref, dial_tone, error, extension_at,
  is_ext, load, lock, lock_buddy, lock_pbx, notify, on_hook, pure, ring_back, ringing, set_buddy,
  set_state, shows, shows_ext, unlock, unlock_buddy, unlock_pbx, worst, ◌>>=◌, ◌>>◌,
}

module _ (net : Network) where
  -- send_notifications(p->fd, 2, tu_state_names[st], int_to_string(ext))
  abbrev send_ext : ℕ → TuState → ℕ → M Status
  send_ext a st ext = load a >>= λ t. notify net t.fd (shows_ext st ext)

  -- send_notification(p->fd, tu_state_names[st])
  abbrev send : ℕ → TuState → M Status
  send a st = load a >>= λ t. notify net t.fd (shows st)

  -- The branches of tu_pickup, by the state on entry.
  abbrev pickup_branch : TuState → ℕ → M Status
  pickup_branch on_hook a = do set_state a dial_tone; send a dial_tone
  pickup_branch ringing a = do
    t ← load a
    b ← deref t.buddy
    set_state a connected
    set_state b connected
    u ← load b
    first ← send_ext a connected u.ext
    second ← send_ext b connected t.ext
    pure (worst first second)
  pickup_branch st a = send a st

  unfoldable pub tu_pickup : ℕ → M Status
  tu_pickup a = do
    lock a
    lock_buddy a
    t ← load a
    reply ← pickup_branch t.state a
    unlock_buddy a
    unlock a
    pure reply

  -- The end of the three branches of tu_hangup that part two units:
  -- `tu->buddy->buddy = NULL; V(&tu->buddy->mutex); tu->buddy = NULL;`
  abbrev part : ℕ → ℕ → M (Unit {0})
  part a b = do set_buddy b none; unlock b; set_buddy a none

  -- The branches of tu_hangup, by the state on entry.
  abbrev hangup_branch : TuState → ℕ → M Status
  hangup_branch connected a = do
    t ← load a
    b ← deref t.buddy
    set_state a on_hook
    set_state b dial_tone
    first ← send_ext a on_hook t.ext
    second ← send b dial_tone
    part a b
    pure (worst first second)
  hangup_branch ring_back a = do
    t ← load a
    b ← deref t.buddy
    set_state a on_hook
    set_state b on_hook
    first ← send_ext a on_hook t.ext
    u ← load b
    second ← send_ext b on_hook u.ext
    part a b
    pure (worst first second)
  hangup_branch ringing a = do
    t ← load a
    b ← deref t.buddy
    set_state a on_hook
    set_state b dial_tone
    first ← send_ext a on_hook t.ext
    second ← send b dial_tone
    part a b
    pure (worst first second)
  hangup_branch _ a = do set_state a on_hook; t ← load a; send_ext a on_hook t.ext

  unfoldable pub tu_hangup : ℕ → M Status
  tu_hangup a = do
    lock a
    lock_buddy a
    t ← load a
    reply ← hangup_branch t.state a
    unlock_buddy a
    unlock a
    pure reply

  -- The unit that is dialled is free, or not.
  abbrev ring : TuState → ℕ → ℕ → M Status
  ring on_hook a b = do
    set_state a ring_back
    set_state b ringing
    set_buddy a (some b)
    set_buddy b (some a)
    first ← send a ring_back
    second ← send b ringing
    pure (worst first second)
  ring _ a b = do set_state a busy_signal; send a busy_signal

  -- The unit at the dialled extension is another one than the caller.
  abbrev dial_other : ℕ → ℕ → M Status
  dial_other a b = do lock b; u ← load b; reply ← ring u.state a b; unlock b; pure reply

  -- Whether the unit dials its own extension.
  abbrev dial_known : Bool → ℕ → ℕ → M Status
  dial_known true a b = do set_state a busy_signal; send a busy_signal
  dial_known false a b = dial_other a b

  -- The entry of the table at the dialled extension.
  abbrev dial_entry : Option ℕ → TuState → ℕ → ℤ → M Status
  dial_entry none st a ext = do set_state a error; send a error
  dial_entry (some b) dial_tone a ext = do t ← load a; dial_known (is_ext ext t.ext) a b
  dial_entry (some b) st a ext = send a st

  -- The branches of tu_dial, by the state on entry.
  abbrev dial_branch : TuState → ℕ → ℤ → M Status
  dial_branch on_hook a ext = load a >>= λ t. send_ext a on_hook t.ext
  dial_branch st a ext = extension_at ext >>= λ entry. dial_entry entry st a ext

  unfoldable pub tu_dial : ℕ → ℤ → M Status
  tu_dial a ext = do
    lock a
    lock_pbx
    t ← load a
    reply ← dial_branch t.state a ext
    unlock_pbx
    unlock a
    pure reply

  -- The branches of tu_chat, by the state on entry.
  abbrev chat_branch : TuState → ℕ → List ℕ → M Status
  chat_branch connected a msg = do
    t ← load a
    b ← deref t.buddy
    lock b
    u ← load b
    first ← send_ext a connected u.ext
    second ← notify net u.fd (chats msg)
    unlock b
    pure (worst first second)
  chat_branch st a msg = send a st

  unfoldable pub tu_chat : ℕ → List ℕ → M Status
  tu_chat a msg = do lock a; t ← load a; reply ← chat_branch t.state a msg; unlock a; pure reply
