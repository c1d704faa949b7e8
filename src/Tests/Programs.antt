-- ===== src/Tests/Programs.antt =====
-- The start and the end of the program, and the layout of a structure.
use openflow_controller.Prelude.{
  ℕ, ◌<◌, ◌≤◌, ◌≡◌, ◌≢◌, ◌⊎◌, refl, List, [], ◌∷◌, none, some, true, false, arith, get_elem?,
  length,
}
use openflow_controller.Wire.Layout.{sizeof, offset, ofp_flow_mod}
use openflow_controller.Wire.Declared.{host_sizeof, host_offset, assertions-IsLaidOut}
use openflow_controller.Outcome.{done, exited}
use openflow_controller.Switch.{OfSwitch, RwStatus}
use openflow_controller.Controller.{Controller}
use openflow_controller.Controller.Setup.{initialize_controller, blank_switch}
use openflow_controller.Controller.Read.{dispatch}
use openflow_controller.Program.{SockAddr, System}
use openflow_controller.Program.Arguments.{defaults, read_arguments, c_string}
use openflow_controller.Program.Arguments.Given.{read_arguments-given}
use openflow_controller.Program.Listening.{Candidate, Bound, create_listening_socket}
use openflow_controller.Program.Listening.First.{AllFail, IsFirst, create_listening_socket_lem}
use openflow_controller.Program.Shutdown.{free_controller_mem}
use openflow_controller.Program.Shutdown.Complete.{unknown-free_controller_mem}
use openflow_controller.Tests.Data.{idle}
use openflow_controller.Tests.Bounds.{rounds}

-- "192.168.100.100", of 15 characters, and "6633"
abbrev long_address : List ℕ
long_address = 49 ∷ 57 ∷ 50 ∷ 46 ∷ 49 ∷ 54 ∷ 56 ∷ 46 ∷ 49 ∷ 48 ∷ 48 ∷ 46 ∷ 49 ∷ 48 ∷ 48 ∷ []

abbrev port : List ℕ
port = 54 ∷ 54 ∷ 51 ∷ 51 ∷ []

read_arguments-given_example :
    (length long_address ≤ 14
      → c_string 15 0 (read_arguments ([] ∷ long_address ∷ port ∷ []) defaults).controller_addr.byte
        ≡ long_address)
    × (length port ≤ 14
        → c_string 15 0 (read_arguments ([] ∷ long_address ∷ port ∷ []) defaults).port.byte ≡ port)
    × ((read_arguments ([] ∷ long_address ∷ port ∷ []) defaults).controller_addr.fault ≡ true)
    × ((read_arguments ([] ∷ long_address ∷ port ∷ []) defaults).port.fault ≡ false)
read_arguments-given_example =
    read_arguments-given [] long_address port [] (omega arith) (omega arith)

-- no socket, a socket that does not bind, and one that does
abbrev candidates : List Candidate
candidates =
    record { socket = none; binds = false }
    ∷ record { socket = some 4; binds = false }
    ∷ record { socket = some 3; binds = true }
    ∷ record { socket = none; binds = false }
    ∷ []

create_listening_socket_lem_example :
    ((create_listening_socket candidates [] ≡ exited) × AllFail candidates)
    ⊎ ((l : Bound) × (create_listening_socket candidates [] ≡ done l) × IsFirst candidates [] l)
create_listening_socket_lem_example = create_listening_socket_lem candidates []

-- two connections, the first of which sends an error
abbrev failing : OfSwitch
failing = record idle { of_status = 1 }

abbrev two_switches : Controller
two_switches = record (initialize_controller 3) {
  num_connected_switches = 2;
  switch_list = failing ∷ idle ∷ blank_switch ∷ [];
}

unknown-free_controller_mem_example :
    (c₁ c₂ : Controller) × (dispatch 0 failing two_switches ≡ done c₁)
    × (free_controller_mem c₁ ≡ done c₂)
    × ((j : ℕ) (t : OfSwitch)
        → 0 < j
        → j < 2
        → get_elem? two_switches.switch_list j ≡ some t
        → t.rw ≢ RwStatus.disconnected
        → 0 < t.read_buffer.size
        → 0 < t.write_buffer.size
        → (u : OfSwitch) × (get_elem? c₂.switch_list j ≡ some u)
          × (u.read_buffer.fault ≡ true)
          × (u.write_buffer.fault ≡ true))
unknown-free_controller_mem_example =
    unknown-free_controller_mem 0 failing two_switches refl (omega arith) (omega arith)

-- a run in which one switch connects, sends its hello, and SIGINT comes
abbrev address : SockAddr
address = record { is_inet = true; sin_port = λ j. 25; sin6_port = λ j. 0 }

abbrev system : System
system = record {
  handler_set = true;
  getaddrinfo = λ node service. some candidates;
  listens = true;
  getsockname = some address;
  early_sigint = false;
  rounds = rounds;
}

abbrev bound : Bound
bound = record {
  listening_socket_fd = 3;
  closed = 4 ∷ [];
  server = record { socket = some 3; binds = true } ∷ record { socket = none; binds = false } ∷ [];
}

-- a flow modification, the structure at that place of those that are asserted to have a size
assertions-IsLaidOut_example :
    (sizeof ofp_flow_mod ≡ 56)
    × (host_sizeof ofp_flow_mod ≡ 56)
    × ((k : ℕ) → k < length ofp_flow_mod → host_offset 0 ofp_flow_mod k ≡ offset ofp_flow_mod k)
assertions-IsLaidOut_example = assertions-IsLaidOut 27 ofp_flow_mod 56 refl
