-- ===== src/Server/Service/Rounds.antt =====
-- The loop of pbx_client_service in server.c ends: each round reads on, or finds the end of the input.
use system_fundamentals_ii_c.Prelude.{
  Bool, List, Option, [], arith, codes, false, inl, length, none, refl, some, suc, true, zero, ℕ,
  ◌+◌, ◌<◌, ◌||◌, ◌∷◌, ◌≡◌, ◌≢◌, ◌≤◌, ◌⊎◌,
}
use system_fundamentals_ii_c.Pbx.Registry.{pbx_register, pbx_unregister}
use system_fundamentals_ii_c.Pbx.State.{M, Network, Outcome, Pbx, blocks, faults, returns}
use system_fundamentals_ii_c.Pbx.Units.{tu_chat, tu_dial, tu_hangup, tu_pickup}
use system_fundamentals_ii_c.Server.{
  Char, Command, Read, add_digit, byte, c_string, char, chat, dial, ended, eof, hangup, match_step,
  matchtocommand, nothing, pickup, read_command, read_extension, read_extension_from, read_first,
  read_message, read_message_from, read_rest_of_line, trim,
}
use system_fundamentals_ii_c.Server.Service.{
  pbx_client_service, say, serve, serve_unit, service_loop,
}

rest_of_line-le :
    (c : Char) (input : List ℕ) → length (read_rest_of_line c input).rest ≤ length input
unfolding read_rest_of_line
rest_of_line-le eof input = omega arith
rest_of_line-le (byte c) [] = omega arith
rest_of_line-le (byte c) (d ∷ input) = ground (arith, rest_of_line-le (char d) input)

match-le : (expected input : List ℕ) → length (matchtocommand expected input).rest ≤ length input
unfolding matchtocommand match_step
match-le [] input = omega arith
match-le (e ∷ expected) [] = omega arith
match-le (e ∷ expected) (c ∷ input) =
    ground (arith, match-le expected input, rest_of_line-le (byte c) input)

command-lt :
    (input : List ℕ)
    → ((read_command input).found_eof ≡ true) ⊎ (length (read_command input).rest < length input)
unfolding read_command read_first
command-lt [] = inl refl
command-lt (c ∷ input) = ground (
  arith,
  match-le (codes "ickup\r\n") input,
  match-le (codes "angup\r\n") input,
  match-le (codes "ial ") input,
  match-le (codes "hat") input,
)

extension-le :
    (ext : ℕ) (input : List ℕ) → length (read_extension_from ext input).rest ≤ length input
unfolding read_extension_from
extension-le ext [] = omega arith
extension-le ext (c ∷ []) =
    ground (arith, extension-le (add_digit ext c) [], rest_of_line-le (byte c) [])
extension-le ext (c ∷ d ∷ input) = ground (
  arith,
  extension-le (add_digit ext c) (d ∷ input),
  rest_of_line-le (byte c) (d ∷ input),
  rest_of_line-le (char d) input,
)

message-le :
    (found : Bool) (input : List ℕ) → length (read_message_from found input).rest ≤ length input
unfolding read_message_from
message-le found [] = omega arith
message-le found (c ∷ input) = ground (arith, message-le false input, message-le true input)

abbrev Finishes {ℓ} : {A : Type ℓ} → Outcome (Option A) → Type ℓ
Finishes {A = A} o = (s : Pbx) → o ≢ returns none s

Finishes-each :
    {A B : Type 0} (o : Outcome A) (k : A → Pbx → Outcome (Option B))
    → ((a : A) (s : Pbx) → Finishes (k a s))
    → Finishes {A = B} (elim o [ returns a s ↦ k a s | faults ↦ faults | blocks ↦ blocks ])
Finishes-each (returns a s) k h s' = h a s s'
Finishes-each faults k h s' = λ e. cc
Finishes-each blocks k h s' = λ e. cc

Finishes-after :
    {A B : Type 0} (o : Outcome A) (k : Pbx → Outcome (Option B))
    → ((s : Pbx) → Finishes (k s))
    → Finishes {A = B} (elim o [ returns a s ↦ k s | faults ↦ faults | blocks ↦ blocks ])
Finishes-after o k h = Finishes-each o (λ _. k) (λ _. h)

Finishes-then :
    {A B : Type 0} (o : Outcome (Option A)) (k : Option A → Pbx → Outcome (Option B))
    → Finishes o
    → ((a : A) (s : Pbx) → Finishes (k (some a) s))
    → Finishes {A = B} (elim o [ returns a s ↦ k a s | faults ↦ faults | blocks ↦ blocks ])
Finishes-then (returns none s) k f h s' = absurd (f s refl)
Finishes-then (returns (some a) s) k f h s' = h a s s'
Finishes-then faults k f h s' = λ e. cc
Finishes-then blocks k f h s' = λ e. cc

module _ (net : Network) (a : ℕ) where
  say-Finishes :
      (k : Bool → List ℕ → M (Option (Unit {0}))) (found : Bool) (msg : Option (List ℕ))
      (input : List ℕ) (s : Pbx)
      → ((s' : Pbx) → Finishes (k found input s'))
      → Finishes (say net a k found msg input s)
  say-Finishes k found none input s h = λ s' e. cc
  say-Finishes k found (some msg) input s h =
      Finishes-after (tu_chat net a (c_string (trim msg)) s) (k found input) h

  serve-Finishes :
      (k : Bool → List ℕ → M (Option (Unit {0}))) (c : Command) (r : Read Command) (s : Pbx)
      → ((found : Bool) (input : List ℕ) (s' : Pbx)
          → (r.found_eof ≡ true → found ≡ true)
          → length input ≤ length r.rest
          → Finishes (k found input s'))
      → Finishes (serve net a k c r s)
  serve-Finishes k pickup r s h =
      Finishes-after (tu_pickup net a s) (k r.found_eof r.rest)
        (λ s'. h r.found_eof r.rest s' (λ e. e) (omega arith))
  serve-Finishes k hangup r s h =
      Finishes-after (tu_hangup net a s) (k r.found_eof r.rest)
        (λ s'. h r.found_eof r.rest s' (λ e. e) (omega arith))
  serve-Finishes k dial r s h =
      let e = read_extension r.rest in
      Finishes-after (tu_dial net a e.value s) (k (r.found_eof || e.found_eof) e.rest) (λ s'.
        h (r.found_eof || e.found_eof) e.rest s' (λ q. ground arith)
          (unfold read_extension in extension-le 0 r.rest))
  serve-Finishes k chat r s h =
      let m = read_message r.rest in
      say-Finishes k (r.found_eof || m.found_eof) m.value m.rest s (λ s'.
        h (r.found_eof || m.found_eof) m.rest s' (λ q. ground arith)
          (unfold read_message in message-le false r.rest))
  serve-Finishes k nothing r s h = h r.found_eof r.rest s (λ e. e) (omega arith)
  serve-Finishes k ended r s h = h r.found_eof r.rest s (λ e. e) (omega arith)

  abbrev rounds : Bool → List ℕ → ℕ
  rounds true input = 1
  rounds false input = length input + 2

  loop-Finishes :
      (fuel : ℕ) (found : Bool) (input : List ℕ) (s : Pbx)
      → rounds found input ≤ fuel
      → Finishes (service_loop net a fuel found input s)
  unfolding service_loop
  loop-Finishes zero true input s le = absurd (omega arith)
  loop-Finishes zero false input s le = absurd (omega arith)
  loop-Finishes (suc fuel) true input s le = λ s' e. cc
  loop-Finishes (suc fuel) false input s le =
      serve-Finishes (service_loop net a fuel) (read_command input).value (read_command input) s
        (λ found rest s' keeps shorter.
          loop-Finishes fuel found rest s' (enough found rest keeps shorter))
    where
      enough :
          (found : Bool) (rest : List ℕ)
          → ((read_command input).found_eof ≡ true → found ≡ true)
          → length rest ≤ length (read_command input).rest
          → rounds found rest ≤ fuel
      enough true rest keeps shorter = omega arith
      enough false rest keeps shorter = ground (arith, command-lt input)

serve_unit-Finishes :
    (net : Network) (unit : Option ℕ) (input : List ℕ) (s : Pbx)
    → Finishes (serve_unit net unit (length input + 2) input s)
unfolding serve_unit
serve_unit-Finishes net none input s = λ s' e. cc
serve_unit-Finishes net (some a) input s =
    loop-Finishes net a (length input + 2) false input s (omega arith)

-- The thread of a client never loops on: whatever bytes the client sends, the rounds of its loop are
-- at most two more than the bytes, so that the fuel of the model does not run out.
pub client_service_finishes :
    (net : Network) (alloc : Option ℕ) (fd : ℕ) (input : List ℕ) (s s' : Pbx)
    → pbx_client_service net alloc fd input s ≢ returns none s'
unfolding pbx_client_service
client_service_finishes net alloc fd input s =
    Finishes-each (pbx_register net alloc fd s) _ (λ unit s₁.
      Finishes-then (serve_unit net unit (length input + 2) input s₁) _
        (serve_unit-Finishes net unit input s₁)
        (λ _ s₂. Finishes-each (pbx_unregister net unit s₂) _ (λ status s₃ s' e. cc)))
