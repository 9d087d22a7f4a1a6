-- ===== src/Server/Tests.antt =====
-- Runs of the readers of server.c.
use system_fundamentals_ii_c.Prelude.{
  [], arith, codes, false, none, pos, refl, some, ◌++◌, ◌∷◌, ◌≡◌, ◌≢◌,
}
use system_fundamentals_ii_c.Pbx.Notices.{int_to_string}
use system_fundamentals_ii_c.Pbx.Registry.{
  get_next_available_extension, pbx_register, pbx_unregister, search_from,
}
use system_fundamentals_ii_c.Pbx.State.{Network, Pbx, result, returns, success}
use system_fundamentals_ii_c.Pbx.Units.{tu_dial, tu_hangup, tu_pickup}
use system_fundamentals_ii_c.Server.{
  match_step, matchtocommand, nothing, pickup, read_command, read_extension, read_message,
  read_rest_of_line, reads,
}
use system_fundamentals_ii_c.Server.Extensions.{read_extension-int_to_string}
use system_fundamentals_ii_c.Server.Service.{pbx_client_service, serve_unit, service_loop}
use system_fundamentals_ii_c.Server.Service.Rounds.{client_service_finishes}

pickup_test : read_command (codes "pickup\r\nx") ≡ reads pickup (codes "x")
unfolding read_command matchtocommand match_step
pickup_test = refl

bad_test : read_command (codes "pickle\r\nx") ≡ reads nothing (codes "x")
unfolding read_command matchtocommand match_step read_rest_of_line
bad_test = refl

ext_test : read_extension (codes "42\r\nx") ≡ reads (pos 42) (codes "x")
unfolding read_extension
ext_test = refl

msg_test : read_message (codes " a\rb\r\nx") ≡ reads (some (codes " ab")) (codes "x")
unfolding read_message
msg_test = refl

read_extension-int_to_string_example :
    read_extension (int_to_string 1023 ++ 13 ∷ 10 ∷ []) ≡ reads (pos 1023) []
read_extension-int_to_string_example = read_extension-int_to_string 1023 [] (omega arith)

abbrev quiet : Network
quiet log fd c = false

abbrev vacant : Pbx
vacant = record {
  tup = 0;
  exiting = false;
  mutex = 1;
  exit_sems = λ e. 1;
  tus = λ e. none;
  heap = λ x. none;
  locks = λ x. 0;
  log = [];
  closed = [];
}

session_test :
    result (pbx_client_service quiet (some 1) 4 (codes "pickup\r\ndial 5\r\nhangup\r\n") vacant)
    ≡ some (some success)
unfolding pbx_client_service service_loop serve_unit read_command matchtocommand match_step
    read_extension pbx_register get_next_available_extension search_from pbx_unregister tu_pickup
    tu_dial tu_hangup
session_test = refl

client_service_finishes_example :
    pbx_client_service quiet (some 1) 4 (codes "pickup\r\nchat") vacant ≢ returns none vacant
client_service_finishes_example =
    client_service_finishes quiet (some 1) 4 (codes "pickup\r\nchat") vacant vacant
