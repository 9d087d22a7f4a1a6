-- ===== src/Server/Service.antt =====
-- pbx_client_service of server.c: the life of a client's thread. found_EOF is the thread's own here;
-- in the source it is one variable of all threads.
pub mod Rounds
use mathlib.Core.Option
use system_fundamentals_ii_c.Prelude.{
  Bool, List, Option, false, length, map, none, some, suc, true, zero, ℕ, ◌+◌, ◌||◌,
}
use system_fundamentals_ii_c.Pbx.Registry.{pbx_register, pbx_unregister}
use system_fundamentals_ii_c.Pbx.State.{M, Network, Status, pure, status, ◌>>=◌, ◌>>◌}
use system_fundamentals_ii_c.Pbx.Units.{tu_chat, tu_dial, tu_hangup, tu_pickup}
use system_fundamentals_ii_c.Server.{
  Command, Read, c_string, chat, dial, ended, hangup, nothing, pickup, read_command, read_extension,
  read_message, trim,
}

module _ (net : Network) (a : ℕ) where
  -- The message of a chat, or the break where there is none.
  abbrev say :
      (Bool → List ℕ → M (Option (Unit {0})))
      → Bool
      → Option (List ℕ)
      → List ℕ
      → M (Option (Unit {0}))
  say k found none input = pure (some tt)
  say k found (some msg) input = tu_chat net a (c_string (trim msg)) >> k found input

  -- One round: what the command does to the unit `a`, and then the rest of the loop, `k`.
  abbrev serve :
      (Bool → List ℕ → M (Option (Unit {0}))) → Command → Read Command → M (Option (Unit {0}))
  serve k pickup r = tu_pickup net a >> k r.found_eof r.rest
  serve k hangup r = tu_hangup net a >> k r.found_eof r.rest
  serve k dial r =
      let e = read_extension r.rest in
      tu_dial net a e.value >> k (r.found_eof || e.found_eof) e.rest
  serve k chat r = let m = read_message r.rest in say k (r.found_eof || m.found_eof) m.value m.rest
  serve k nothing r = k r.found_eof r.rest
  serve k ended r = k r.found_eof r.rest

  -- `while(!found_EOF) { ... }`, for at most `fuel` rounds; `none` says that they were too few.
  unfoldable pub service_loop : ℕ → Bool → List ℕ → M (Option (Unit {0}))
  service_loop zero found input = pure none
  service_loop (suc fuel) true input = pure (some tt)
  service_loop (suc fuel) false input =
      let r = read_command input in serve (service_loop fuel) r.value r

-- The loop is entered only with a unit: without one, found_EOF is set first.
unfoldable pub serve_unit : Network → Option ℕ → ℕ → List ℕ → M (Option (Unit {0}))
serve_unit net none fuel input = pure (some tt)
serve_unit net (some a) fuel input = service_loop net a fuel false input

-- The thread from its registration on: `alloc` is what malloc returns. A round reads at least one
-- byte, or finds the end.
unfoldable pub pbx_client_service : Network → Option ℕ → ℕ → List ℕ → M (Option Status)
pbx_client_service net alloc fd input = do
  unit ← pbx_register net alloc fd
  served ← serve_unit net unit (length input + 2) input
  status ← pbx_unregister net unit
  pure (Option.map (λ _. status) served)
