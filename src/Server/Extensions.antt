-- ===== src/Server/Extensions.antt =====
-- read_extension of server.c against int_to_string of pbx.c.
use mathlib.Core.List.{append-nil}
use system_fundamentals_ii_c.Prelude.{
  Bool-cases, List, [], ap, arith, false, inl, inr, negsuc, pos, refl, suc, sym, zero, ℕ, ◌%◌, ◌*◌,
  ◌++◌, ◌+◌, ◌/◌, ◌<◌, ◌==◌, ◌^◌, ◌∙◌, ◌∷◌, ◌≡◌, ◌≢◌,
}
use system_fundamentals_ii_c.Pbx.Notices.{fill, int_to_string, length_from}
use system_fundamentals_ii_c.Server.{
  add_digit, ends, is_digit, read_extension, read_extension_from, reads,
}
use system_fundamentals_ii_c.Server.Lines.{All, IsPlain, read_rest_of_line_lem}

-- A decimal that the loop is given goes on from the value that it has.
digit_step :
    (ext d : ℕ) (input : List ℕ)
    → d < 10
    → ext * 10 + d < 2 ^ 31
    → read_extension_from ext ((d + 48) ∷ input) ≡ read_extension_from (ext * 10 + d) input
unfolding read_extension_from
digit_step ext d input lt small =
    let e : add_digit ext (d + 48) ≡ ext * 10 + d = omega arith in ground (arith, e)

-- The number at the end of the decimal.
number_end :
    (ext : ℕ) (rest : List ℕ)
    → ext < 2 ^ 31
    → read_extension_from ext (13 ∷ 10 ∷ rest) ≡ reads (pos ext) rest
unfolding read_extension_from
number_end ext rest small = ground arith

-- The decimal that int_to_string makes of the quotient and the digits that it has, read from 0.
fill_step :
    (f x : ℕ) (input : List ℕ)
    → x < f
    → x < 2 ^ 31
    → read_extension_from 0 (fill (length_from f x) x input) ≡ read_extension_from x input
unfolding fill length_from
fill_step zero x input lt small = absurd (omega arith)
fill_step (suc f) x input lt small = elim (Bool-cases (x == 0)) [
  | inl done ↦ ground arith
  | inr busy ↦
      let quotient = fill_step f (x / 10) ((x % 10 + 48) ∷ input) (ground arith) (omega arith) in
      let digit = digit_step (x / 10) (x % 10) input (omega arith) (omega arith) in
      let whole : x / 10 * 10 + x % 10 ≡ x = omega arith in ground (arith, quotient, digit, whole)
]

fill-append : (k x : ℕ) (out input : List ℕ) → fill k x out ++ input ≡ fill k x (out ++ input)
unfolding fill
fill-append zero x out input = refl
fill-append (suc k) x out input = fill-append k (x / 10) ((x % 10 + 48) ∷ out) input

-- What int_to_string makes, read by read_extension.
text_step :
    (x : ℕ) (input : List ℕ)
    → x < 2 ^ 31
    → read_extension_from 0 (int_to_string x ++ input) ≡ read_extension_from x input
unfolding int_to_string
text_step x input small = elim (Bool-cases (x == 0)) [
  | inl done ↦ ground (arith, digit_step 0 0 input)
  | inr busy ↦ ground (
    arith,
    fill-append (length_from (x + 1) x) x [] input,
    fill_step (x + 1) x input (omega arith) small,
  )
]

-- An extension that is written by int_to_string and ended by a carriage return and a line feed is
-- read back by read_extension, if it is an int.
pub read_extension-int_to_string :
    (x : ℕ) (rest : List ℕ)
    → x < 2 ^ 31
    → read_extension (int_to_string x ++ 13 ∷ 10 ∷ rest) ≡ reads (pos x) rest
unfolding read_extension
read_extension-int_to_string x rest small =
    text_step x (13 ∷ 10 ∷ rest) small ∙ number_end x rest small

-- A dialled text that starts with a character which is no digit, no carriage return, no NUL and no
-- byte 255 is read as the extension 0, behind its line.
pub read_extension_garbage :
    (c : ℕ) (line rest : List ℕ)
    → is_digit c ≡ false
    → c ≢ 0
    → IsPlain c
    → All IsPlain line
    → read_extension (c ∷ line ++ 13 ∷ 10 ∷ rest) ≡ reads (pos 0) rest
unfolding read_extension
read_extension_garbage c line rest bad nul plain all =
    ground (arith, read_rest_of_line_lem c line rest plain all)

input_end : (x : ℕ) → read_extension_from x [] ≡ ends (negsuc 0) []
unfolding read_extension_from
input_end x = refl

-- At the end of the input the extension is -1, and found_EOF is set.
pub read_extension_ended :
    (x : ℕ) → x < 2 ^ 31 → read_extension (int_to_string x) ≡ ends (negsuc 0) []
unfolding read_extension
read_extension_ended x small =
    ap (read_extension_from 0) (sym (append-nil (int_to_string x)))
    ∙ text_step x [] small
    ∙ input_end x
