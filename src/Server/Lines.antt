-- ===== src/Server/Lines.antt =====
-- read_rest_of_line of server.c skips to the next line.
use system_fundamentals_ii_c.Prelude.{List, [], arith, pos, refl, ℕ, ◌++◌, ◌∙◌, ◌∷◌, ◌≡◌, ◌≢◌}
use system_fundamentals_ii_c.Server.{byte, read_rest_of_line, reads}

-- A character that neither ends a line nor reads as the end of input.
abbrev pub IsPlain : ℕ → Type 0
IsPlain c = (c ≢ 13) × (c ≢ 255)

abbrev pub All {ℓ κ} : {A : Type ℓ} → (A → Type κ) → List A → Type κ
All P [] = Unit
All P (x ∷ xs) = P x × All P xs

line_end : (rest : List ℕ) → read_rest_of_line (byte 13) (10 ∷ rest) ≡ reads (pos 0) rest
unfolding read_rest_of_line
line_end rest = refl

plain_step :
    (c d : ℕ) (input : List ℕ)
    → c ≢ 13
    → d ≢ 255
    → read_rest_of_line (byte c) (d ∷ input) ≡ read_rest_of_line (byte d) input
unfolding read_rest_of_line
plain_step c d input p q = ground arith

-- From a character of a line on, read_rest_of_line skips the line and its end and returns 0, if the
-- line has no carriage return and no byte 255.
pub read_rest_of_line_lem :
    (c : ℕ) (line rest : List ℕ)
    → IsPlain c
    → All IsPlain line
    → read_rest_of_line (byte c) (line ++ 13 ∷ 10 ∷ rest) ≡ reads (pos 0) rest
read_rest_of_line_lem c [] rest p all =
    plain_step c 13 (10 ∷ rest) p.0 (omega arith) ∙ line_end rest
read_rest_of_line_lem c (d ∷ line) rest p all =
    plain_step c d _ p.0 all.0.1 ∙ read_rest_of_line_lem d line rest all.0 all.1
