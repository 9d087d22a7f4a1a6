-- ===== src/Pbx/Notices.antt =====
-- The text of the notifications: int_to_string of pbx.c, the names of globals.c, and what
-- send_notification and send_notifications of pbx.c write.
use system_fundamentals_ii_c.Prelude.{
  List, [], codes, if◌then◌else◌, suc, zero, ℕ, ◌%◌, ◌++◌, ◌+◌, ◌/◌, ◌==◌, ◌∷◌,
}
use system_fundamentals_ii_c.Pbx.State.{
  Content, TuState, busy_signal, chats, connected, dial_tone, error, on_hook, refuses, ring_back,
  ringing, shows, shows_ext,
}

-- The first loop of int_to_string: `while(a != 0) { a /= 10; length++; }`, for at most `f` rounds.
unfoldable pub length_from : ℕ → ℕ → ℕ
length_from zero a = 0
length_from (suc f) a = let rest = length_from f (a / 10) in if a == 0 then 0 else suc rest

-- The second loop: the digit at `i` goes in front of those that are already there.
unfoldable pub fill : ℕ → ℕ → List ℕ → List ℕ
fill zero x out = out
fill (suc i) x out = fill i (x / 10) ((x % 10 + 48) ∷ out)

-- int_to_string of a number that is not negative.
unfoldable pub int_to_string : ℕ → List ℕ
unfolding length_from fill
int_to_string x = if x == 0 then 48 ∷ [] else fill (length_from (x + 1) x) x []

pub tu_state_names : TuState → List ℕ
tu_state_names on_hook = codes "ON HOOK"
tu_state_names ringing = codes "RINGING"
tu_state_names dial_tone = codes "DIAL TONE"
tu_state_names ring_back = codes "RING BACK"
tu_state_names busy_signal = codes "BUSY SIGNAL"
tu_state_names connected = codes "CONNECTED"
tu_state_names error = codes "ERROR"

-- send_notification: one string and the end of the line.
pub line_of : List ℕ → List ℕ
line_of msg = msg ++ 13 ∷ 10 ∷ []

-- send_notifications: each string with a space behind it, and the end of the line.
pub line_of_all : List (List ℕ) → List ℕ
line_of_all [] = 13 ∷ 10 ∷ []
line_of_all (msg ∷ msgs) = msg ++ 32 ∷ line_of_all msgs

-- The bytes of a notification.
unfoldable pub bytes_of : Content → List ℕ
unfolding tu_state_names line_of line_of_all int_to_string
bytes_of (shows st) = line_of (tu_state_names st)
bytes_of (shows_ext st ext) = line_of_all (tu_state_names st ∷ int_to_string ext ∷ [])
bytes_of (chats msg) = line_of_all (codes "CHAT" ∷ msg ∷ [])
bytes_of refuses = line_of (codes "No more available extensions. Please try again later.")
