-- ===== src/Tests/Runs.antt =====
-- Runs of the controller and of an exchange.
use openflow_controller.Prelude.{
  ◌<◌, length, ℕ, ◌≡◌, refl, List, [], ◌∷◌, ◌++◌, none, some, Bool, true, false, arith, set, length,
}
use openflow_controller.Memory.{fresh}
use openflow_controller.Memory.Words.{AreBytes}
use openflow_controller.Outcome.{Outcome, done}
use openflow_controller.Switch.{OfSwitch}
use openflow_controller.Transfer.{received, recv_failed, send_failed}
use openflow_controller.Packets.Requests.{write_openflow_hello}
use openflow_controller.Network.{blank_node}
use openflow_controller.Controller.{Controller, put_switch}
use openflow_controller.Controller.Setup.{
  create_new_connection, accepted, initialize_controller, blank_switch, new_switch,
}
use openflow_controller.Controller.Tracking.{initialize_controller-IsTracked}
use openflow_controller.Packets.Echo.{make_echo_reply}
use openflow_controller.Controller.Write.Sends.{sends}
use openflow_controller.Controller.Read.Receives.{receives, concat}
use openflow_controller.Controller.EchoExchange.Request.{IsServing, EchoRequest}
use openflow_controller.Controller.EchoExchange.{echo_answered}
use openflow_controller.Tests.Data.{zeros, junk, idle}
use openflow_controller.Controller.Running.Safety.{framed}
use openflow_controller.Controller.Running.{Event, IsEnabled}
use openflow_controller.Controller.Running.Loop.{select_loop-interrupt}
use openflow_controller.Controller.Select.{
  Answers, Selected, at_loop, selected, timed_out, polled, accept_waiting, handle_all_sockets,
  handle_from, handle_socket, remake_select_sets, select_round, select_loop,
}

pub zeros-AreBytes : AreBytes zeros
zeros-AreBytes j = omega arith

abbrev pub at_start : Controller
at_start = at_loop 3 false (4 ∷ [])

pub accept_enabled : IsEnabled (Event.accept none 5) at_start
unfolding initialize_controller
accept_enabled = (omega arith, (initialize_controller-IsTracked 3).1, omega arith, omega arith)

-- one switch, whose hello waits to be written
abbrev pub greeting : OfSwitch
greeting = write_openflow_hello (new_switch 5 1 blank_switch)

abbrev one_switch : Controller
one_switch = record (put_switch 0 greeting at_start) {
  num_connected_switches = 1;
  xid_generator = 2;
  largest_fd = 5;
  network_graph = record at_start.network_graph {
    devices = set at_start.network_graph.devices 0 (
        some (record { node = record blank_node { device_num = 5; is_switch = true }; next = [] }));
    num_conn_devices = 1;
  };
}

-- the controller in an answer
unfoldable pub result : Controller → Outcome Controller → Controller
result c (done c') = c'
result c _ = c

abbrev pub arriving : Answers
arriving = record {
  accept = accepted 5;
  new_entry = none;
  junk = junk;
  recv = λ _. recv_failed;
  send = λ _. send_failed;
}

abbrev pub arrival : Selected
arrival = selected (3 ∷ []) [] [] arriving

-- the controller behind the round in which the switch connects
abbrev pub connected : Controller
connected = polled (3 ∷ []) [] [] one_switch

pub connected_round : select_round arrival at_start ≡ done connected
unfolding select_round handle_all_sockets accept_waiting handle_from handle_socket
    create_new_connection initialize_controller remake_select_sets write_openflow_hello
connected_round = refl

-- the hello of the switch, and SIGINT in the same round
abbrev hello : List ℕ
hello = 4 ∷ 0 ∷ 0 ∷ 8 ∷ 0 ∷ 0 ∷ 0 ∷ 1 ∷ []

abbrev greeted : Answers
greeted = record arriving { recv = λ _. received hello }

abbrev pub hello_rounds : List (Selected × Bool)
hello_rounds = (selected (5 ∷ []) [] [] greeted, true) ∷ []

select_loop-interrupt_example :
    select_loop ((arrival, false) ∷ hello_rounds ++ (timed_out, false) ∷ []) at_start
    ≡ select_loop ((arrival, false) ∷ hello_rounds) at_start
select_loop-interrupt_example =
    select_loop-interrupt ((arrival, false) ∷ []) ((timed_out, false) ∷ [])
      (selected (5 ∷ []) [] [] greeted) at_start

-- a switch that is done with the handshake
abbrev served : OfSwitch
served = record idle {
  bytes_expected = 8;
  features_requested = true;
  config_set = true;
  ports_requested = true;
  default_flow_set = true;
}

served-IsServing : IsServing served
unfolding fresh
served-IsServing = record {
  reading = record {
    reads = refl;
    expects = refl;
    at_header = refl;
    none_read = refl;
    none_written = refl;
    read_safe = record { alive = refl; sound = refl; room = omega arith };
    write_safe = record { alive = refl; sound = refl; room = omega arith };
  };
  bytes = λ j. omega arith;
  read_size = refl;
  write_size = refl;
  features = refl;
  config = refl;
  ports = refl;
  rules = refl;
}

-- an echo request of twelve bytes, its header in three pieces and its payload in two
abbrev header_pieces : List (List ℕ)
header_pieces = (4 ∷ []) ∷ (2 ∷ 0 ∷ 12 ∷ []) ∷ (1 ∷ 2 ∷ 3 ∷ 4 ∷ []) ∷ []

abbrev payload_pieces : List (List ℕ)
payload_pieces = (50 ∷ 60 ∷ 70 ∷ []) ∷ (80 ∷ []) ∷ []

asked :
    EchoRequest header_pieces payload_pieces 4 0 12 (1 ∷ 2 ∷ 3 ∷ 4 ∷ []) (50 ∷ 60 ∷ 70 ∷ 80 ∷ [])
unfolding concat
asked = record {
  header = refl;
  payload_bytes = refl;
  announced = refl;
  room = omega arith;
  header_pieces = omega arith;
  body_pieces = omega arith;
  bytes = omega arith;
}

one_inside : 0 < length one_switch.switch_list
unfolding initialize_controller
one_inside = omega arith

echo_answered_example :
    (t u : OfSwitch) × (receives junk (header_pieces ++ payload_pieces) served ≡ done (t, true))
    × (framed 0 one_switch (t, true) ≡ done (put_switch 0 (make_echo_reply t) one_switch))
    × (sends junk (7 ∷ 5 ∷ []) (make_echo_reply t)
        ≡ done (u, 4 ∷ 3 ∷ 0 ∷ 12 ∷ 1 ∷ 2 ∷ 3 ∷ 4 ∷ 50 ∷ 60 ∷ 70 ∷ 80 ∷ []))
    × IsServing u
echo_answered_example =
    echo_answered served served-IsServing asked junk (7 ∷ 5 ∷ []) 0 one_switch one_inside
      (omega arith)
