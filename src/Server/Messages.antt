-- ===== src/Server/Messages.antt =====
-- read_message of server.c reads a line.
use system_fundamentals_ii_c.Prelude.{List, [], arith, false, refl, some, ℕ, ◌++◌, ◌∷◌, ◌≡◌}
use system_fundamentals_ii_c.Server.{read_message, read_message_from, reads}
use system_fundamentals_ii_c.Server.Lines.{All, IsPlain}

message_end : (rest : List ℕ) → read_message_from false (13 ∷ 10 ∷ rest) ≡ reads (some []) rest
unfolding read_message_from
message_end rest = refl

message_step :
    (c : ℕ) (input msg rest : List ℕ)
    → IsPlain c
    → read_message_from false input ≡ reads (some msg) rest
    → read_message_from false (c ∷ input) ≡ reads (some (c ∷ msg)) rest
unfolding read_message_from
message_step c input msg rest plain h = ground arith

-- A message with no carriage return and no byte 255, ended by a carriage return and a line feed, is
-- read as it was sent, and what follows it is left.
read_message_lem :
    (msg rest : List ℕ)
    → All IsPlain msg
    → read_message (msg ++ 13 ∷ 10 ∷ rest) ≡ reads (some msg) rest
unfolding read_message
read_message_lem [] rest all = message_end rest
read_message_lem (c ∷ msg) rest all =
    message_step c (msg ++ 13 ∷ 10 ∷ rest) msg rest all.0 (read_message_lem msg rest all.1)
