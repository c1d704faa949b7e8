-- ===== src/Program/Ends.antt =====
-- controller.c: the whole run of `main`.
use openflow_controller.Prelude.{ℕ, ◌≡◌, List, [], some, true}
use openflow_controller.Outcome.{Outcome, done}
use openflow_controller.Controller.{Controller}
use openflow_controller.Program.{SockAddr, System, matches}
use openflow_controller.Program.Arguments.{defaults, read_arguments, c_string}
use openflow_controller.Program.Listening.{Candidate, Bound, create_listening_socket}

-- The addresses that are found for the arguments.
unfoldable pub found : System → List (List ℕ) → List Candidate
found sys argv =
    let g = read_arguments argv defaults in
    matches (sys.getaddrinfo (c_string 15 0 g.controller_addr.byte) (c_string 15 0 g.port.byte))

-- The system lets the program start: the signal handler is set, an address is bound, and the socket
-- listens and has a name.
pub record Starts (sys : System) (argv : List (List ℕ)) (l : Bound) (address : SockAddr)
    : Type 0 where
  pub handler : sys.handler_set ≡ true
  pub binds : create_listening_socket (found sys argv) [] ≡ done l
  pub listens : sys.listens ≡ true
  pub name : sys.getsockname ≡ some address
