-- ===== src/Server/Commands.antt =====
-- read_command of server.c reads what a client sends.
use mathlib.Core.Path.{ap₂}
use system_fundamentals_ii_c.Prelude.{
  List, [], ap, arith, codes, negsuc, pos, refl, suc, sym, zero, ℕ, ℤ, ◌++◌, ◌∙◌, ◌∷◌, ◌≡◌, ◌≢◌,
}
use system_fundamentals_ii_c.Server.{
  Char, Command, Read, answer, byte, char, chat, dial, ended, eof, hangup, match_step, matched,
  matchtocommand, nothing, pickup, read_command, read_first, read_rest_of_line, reads,
}

-- A command as it is sent, as far as read_command reads it.
abbrev pub word : Command → List ℕ
word pickup = codes "pickup\r\n"
word hangup = codes "hangup\r\n"
word dial = codes "dial "
word chat = codes "chat"
word nothing = []
word ended = []

-- Each of the four commands is read as itself, and what follows it is left.
pub read_command-word :
    (c : Command) (rest : List ℕ)
    → c ≢ nothing
    → c ≢ ended
    → read_command (word c ++ rest) ≡ reads c rest
unfolding read_command matchtocommand match_step
read_command-word pickup rest p q = refl
read_command-word hangup rest p q = refl
read_command-word dial rest p q = refl
read_command-word chat rest p q = refl
read_command-word nothing rest p q = absurd (p refl)
read_command-word ended rest p q = absurd (q refl)

rest_of_line-ne-suc :
    (c : Char) (input : List ℕ) (n : ℕ) → (read_rest_of_line c input).value ≢ pos (suc n)
unfolding read_rest_of_line
rest_of_line-ne-suc eof input n h = cc
rest_of_line-ne-suc (byte c) [] n h = cc
rest_of_line-ne-suc (byte c) (d ∷ input) n h = rest_of_line-ne-suc (char d) input n (ground arith)

matched_word :
    (expected input : List ℕ) (n : ℕ)
    → (matchtocommand expected input).value ≡ pos (suc n)
    → (rest : List ℕ) × (input ≡ expected ++ rest)
      × (matchtocommand expected input ≡ reads (pos 1) rest)
unfolding matchtocommand match_step
matched_word [] input n h = (input, refl, refl)
matched_word (e ∷ expected) [] n h = cc
matched_word (e ∷ expected) (c ∷ input) n h =
    let same : c ≡ e = ground (arith, rest_of_line-ne-suc (byte c) input n) in
    let (rest, split, known) = matched_word expected input n (ground arith) in
    (rest, ground arith, ground arith)

matched_value :
    (command : Command) (v : ℤ)
    → command ≢ nothing
    → command ≢ ended
    → matched command v ≡ command
    → (n : ℕ) × (v ≡ pos (suc n))
matched_value command (pos zero) p q h = absurd (p (sym h))
matched_value command (pos (suc n)) p q h = (n, refl)
matched_value command (negsuc n) p q h = absurd (q (sym h))

-- Of the tail of a command that is reported, nothing but the command was read.
tail_read :
    (command : Command) (expected input : List ℕ)
    → command ≢ nothing
    → command ≢ ended
    → (answer command (matchtocommand expected input)).value ≡ command
    → (rest : List ℕ) × (input ≡ expected ++ rest)
      × (answer command (matchtocommand expected input) ≡ reads command rest)
tail_read command expected input p q h =
    let (n, v) = matched_value command (matchtocommand expected input).value p q h in
    let (rest, split, known) = matched_word expected input n v in
    (rest, split, ap (answer command) known)

-- The first letter of a command, and what it goes on with.
abbrev initial : Command → ℕ
initial pickup = b'p'
initial hangup = b'h'
initial dial = b'd'
initial _ = b'c'

abbrev tail : Command → List ℕ
tail pickup = codes "ickup\r\n"
tail hangup = codes "angup\r\n"
tail dial = codes "ial "
tail _ = codes "hat"

first_letter :
    (c : Command) (d : ℕ) (input : List ℕ)
    → (read_first (char d) input).value ≡ c
    → c ≢ nothing
    → c ≢ ended
    → (d ≡ initial c) × (read_first (char d) input ≡ answer c (matchtocommand (tail c) input))
unfolding read_first
first_letter pickup d input h p q = ground arith
first_letter hangup d input h p q = ground arith
first_letter dial d input h p q = ground arith
first_letter chat d input h p q = ground arith
first_letter nothing d input h p q = absurd (p refl)
first_letter ended d input h p q = absurd (q refl)

word-eq :
    (c : Command) (rest : List ℕ)
    → c ≢ nothing
    → c ≢ ended
    → word c ++ rest ≡ initial c ∷ (tail c ++ rest)
word-eq pickup rest p q = refl
word-eq hangup rest p q = refl
word-eq dial rest p q = refl
word-eq chat rest p q = refl
word-eq nothing rest p q = absurd (p refl)
word-eq ended rest p q = absurd (q refl)

-- A command is reported only if the input starts with it, and then only the command has been read.
pub read_command_sound :
    (c : Command) (input : List ℕ)
    → (read_command input).value ≡ c
    → c ≢ nothing
    → c ≢ ended
    → (rest : List ℕ) × (input ≡ word c ++ rest) × (read_command input ≡ reads c rest)
unfolding read_command
read_command_sound c [] h p q = absurd (q (sym h))
read_command_sound c (d ∷ input) h p q =
    let (letter, known) = first_letter c d input h p q in
    let (rest, split, read) =
      tail_read c (tail c) input p q (ap (λ (r : Read Command). r.value) (sym known) ∙ h) in
    (rest, ap₂ ◌∷◌ letter split ∙ sym (word-eq c rest p q), known ∙ read)
