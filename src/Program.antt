-- ===== src/Program.antt =====
-- controller.c: `main`, from the arguments to the end of the program.
pub mod Arguments
pub mod Listening
pub mod Shutdown
pub mod Ends
use openflow_controller.Prelude.{
  ℕ, List, [], ◌∷◌, Option, none, some, Bool, true, false, ◌||◌, ◌==◌, if◌then◌else◌,
}
use openflow_controller.Memory.{Bytes, Buffer, peek_be}
use openflow_controller.Outcome.{Outcome, done, exited, ◌>>=◌}
use openflow_controller.Network.{Node}
use openflow_controller.Controller.{Controller}
use openflow_controller.Controller.Select.{Selected, at_loop, select_loop}
use openflow_controller.Program.Arguments.{Globals, defaults, read_arguments, c_string}
use openflow_controller.Program.Listening.{Candidate, Bound, create_listening_socket}
use openflow_controller.Program.Shutdown.{Freed, clean_up}

-- A socket address of either family, with its port as it stands in memory.
pub record SockAddr : Type 0 where
  pub is_inet : Bool
  pub sin_port : Bytes
  pub sin6_port : Bytes

pub get_port : SockAddr → ℕ
get_port server = peek_be 2 0 (if server.is_inet then server.sin_port else server.sin6_port)

-- What the system answers: to `sigaction`, `getaddrinfo`, `listen`, `getsockname` and in the rounds of the
-- loop; and whether SIGINT came before the loop. `getaddrinfo` takes its two strings, and gives no
-- list where it fails.
pub record System : Type 0 where
  pub handler_set : Bool
  pub getaddrinfo : List ℕ → List ℕ → Option (List Candidate)
  pub listens : Bool
  pub getsockname : Option SockAddr
  pub early_sigint : Bool
  pub rounds : List (Selected × Bool)

-- How far the program comes with these answers: it waits in `select`, or it reaches `exit(0)`. It has
-- printed the port it listens on.
pub data Stage : Type 0 where
  waiting : (port : ℕ) → Controller → Stage
  ended : (port : ℕ) → Freed → Stage

unfoldable pub matches : Option (List Candidate) → List Candidate
matches none = []
matches (some candidates) = candidates

-- Behind the loop.
pub finish : ℕ → Bound → Controller → Outcome Stage
unfolding clean_up
finish port l c =
    if c.interrupt
    then (clean_up l.server c >>= λ f. done (Stage.ended port f))
    else done (Stage.waiting port c)

pub main : System → (argv : List (List ℕ)) → Outcome Stage
unfolding finish get_port matches read_arguments create_listening_socket
main sys argv =
    let g = read_arguments argv defaults in
    if sys.handler_set
    then (do
      l ←
          create_listening_socket
            (matches
              (sys.getaddrinfo (c_string 15 0 g.controller_addr.byte) (c_string 15 0 g.port.byte)))
            []
      if sys.listens
          then (elim sys.getsockname [
            | none ↦ exited
            | some address ↦
                (select_loop sys.rounds (at_loop l.listening_socket_fd sys.early_sigint l.closed)
                  >>= finish (get_port address) l)
          ])
          else exited)
    else exited
