-- ===== src/Server.antt =====
-- HW5-Private-Branch-Exchange-Telephone-System/src/server.c: reading the commands of a client. The
-- bytes that are still to come are a list; its end is the end of the connection.
pub mod Lines
pub mod Commands
pub mod Extensions
pub mod Messages
pub mod Service
mod Tests
use mathlib.Core.Option
use system_fundamentals_ii_c.Prelude.{
  Bool, List, Option, [], codes, false, if◌then◌else◌, leb, ltb, map, negsuc, none, pos, some, suc,
  true, zero, ℕ, ℤ, ◌%◌, ◌&&◌, ◌*◌, ◌+◌, ◌-◌, ◌==◌, ◌^◌, ◌∷◌,
}

-- What `char c = fgetc(fp)` holds. A byte 255 is the char -1, and compares equal to EOF.
pub data Char : Type 0 where
  eof : Char
  byte : ℕ → Char

abbrev pub char : ℕ → Char
char c = elim (c == 255) [ true ↦ eof | false ↦ byte c ]

-- The result of a reader: what it returns, the bytes that are left, and whether it set found_EOF.
pub record Read (A : Type 0) : Type 0 where
  pub value : A
  pub rest : List ℕ
  pub found_eof : Bool

abbrev pub reads : {A : Type 0} → A → List ℕ → Read A
reads a rest = record { value = a; rest = rest; found_eof = false }

-- `found_EOF = 1; return a;`
abbrev pub ends : {A : Type 0} → A → List ℕ → Read A
ends a rest = record { value = a; rest = rest; found_eof = true }

abbrev pub cr : ℕ
cr = 13

abbrev pub lf : ℕ
lf = 10

-- read_rest_of_line, from the character `c` on: 0 behind an end of line, -1 at the end of input.
pub read_rest_of_line : Char → List ℕ → Read ℤ
read_rest_of_line eof input = ends (negsuc 0) input
read_rest_of_line (byte c) [] = ends (negsuc 0) []
read_rest_of_line (byte c) (d ∷ input) =
    let rest = read_rest_of_line (char d) input in
    if c == cr && d == lf then reads (pos 0) input else rest

-- The comparison of matchtocommand: `expected` is what is left of the command.
pub match_step : ℕ → Char → List ℕ → Read ℤ → Read ℤ
match_step e eof input rest = ends (negsuc 0) input
match_step e (byte c) input rest = if c == e then rest else read_rest_of_line (byte c) input

-- matchtocommand: 1 if the input goes on with the command, else 0 or -1 behind the line.
pub matchtocommand : List ℕ → List ℕ → Read ℤ
matchtocommand [] input = reads (pos 1) input
matchtocommand (e ∷ expected) [] = ends (negsuc 0) []
matchtocommand (e ∷ expected) (c ∷ input) =
    match_step e (char c) input (matchtocommand expected input)

-- The commands, by the macros PCKUP, HNGUP, DIAL and CHAT; `nothing` is 0 and `ended` is -1.
pub data Command : Type 0 where
  pickup hangup dial chat nothing ended : Command

-- `if(x > 0) return command; else if(x < 0) return -1;` and `return 0` behind it
abbrev pub matched : Command → ℤ → Command
matched command (pos zero) = nothing
matched command (pos (suc n)) = command
matched command (negsuc n) = ended

abbrev pub answer : Command → Read ℤ → Read Command
answer command r = record {
  value = matched command r.value;
  rest = r.rest;
  found_eof = r.found_eof;
}

-- The first character of a command.
pub read_first : Char → List ℕ → Read Command
read_first eof input = ends ended input
read_first (byte c) input =
    if c == b'p'
    then answer pickup (matchtocommand (codes "ickup\r\n") input)
    else if c == b'h'
    then answer hangup (matchtocommand (codes "angup\r\n") input)
    else if c == b'd'
    then answer dial (matchtocommand (codes "ial ") input)
    else if c == b'c'
    then answer chat (matchtocommand (codes "hat") input)
    else reads nothing input

unfoldable pub read_command : List ℕ → Read Command
unfolding read_first
read_command [] = ends ended []
read_command (c ∷ input) = read_first (char c) input

-- An int from its 32 bits.
abbrev pub signed32 : ℕ → ℤ
signed32 w = elim (ltb w (2 ^ 31)) [ true ↦ pos w | false ↦ negsuc (2 ^ 32 - w - 1) ]

-- `(ext * 10) + (c - '0')` as an int, by its 32 bits
abbrev pub add_digit : ℕ → ℕ → ℕ
add_digit ext c = (ext * 10 + (c - 48)) % 2 ^ 32

abbrev pub is_digit : ℕ → Bool
is_digit c = leb 48 c && leb c 57

-- What follows a carriage return.
pub after_cr : ℕ → List ℕ → Read ℤ
after_cr ext [] = ends (negsuc 0) []
after_cr ext (c ∷ input) =
    if c == lf then reads (signed32 ext) input else read_rest_of_line (char c) input

-- The loop of read_extension, at the value `ext`.
pub read_extension_from : ℕ → List ℕ → Read ℤ
unfolding after_cr
read_extension_from ext [] = ends (negsuc 0) []
read_extension_from ext (c ∷ input) =
    let longer = read_extension_from (add_digit ext c) input in
    if c == 0
    then reads (signed32 ext) input
    else if c == 255
    then ends (negsuc 0) input
    else if c == cr
    then after_cr ext input
    else if is_digit c
    then longer
    else read_rest_of_line (byte c) input

unfoldable pub read_extension : List ℕ → Read ℤ
unfolding read_extension_from
read_extension input = read_extension_from 0 input

-- The loop of read_message: `foundr` says that the last character was a carriage return. The result
-- is `none` for NULL.
pub read_message_from : Bool → List ℕ → Read (Option (List ℕ))
read_message_from foundr [] = ends none []
read_message_from foundr (c ∷ input) =
    let kept = read_message_from false input in
    let returned = read_message_from true input in
    if c == 255
    then ends none input
    else if c == cr
    then returned
    else if foundr && c == lf
    then reads (some []) input
    else record kept { value = Option.map (λ msg. c ∷ msg) kept.value }

unfoldable pub read_message : List ℕ → Read (Option (List ℕ))
unfolding read_message_from
read_message input = read_message_from false input

-- The trimming of a message in pbx_client_service, and the C string that is passed on: it stops at
-- the first NUL.
pub trim : List ℕ → List ℕ
trim [] = []
trim (c ∷ msg) = let rest = trim msg in if c == 32 then rest else c ∷ msg

pub c_string : List ℕ → List ℕ
c_string [] = []
c_string (c ∷ msg) = if c == 0 then [] else c ∷ c_string msg
