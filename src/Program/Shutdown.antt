-- ===== src/Program/Shutdown.antt =====
-- controller.c: what is freed at the end of the program.
pub mod Complete
use openflow_controller.Prelude.{ℕ, List, [], ◌∷◌, ◌++◌, Option, none, some, Bool, true, false}
use openflow_controller.Outcome.{Outcome, done, ◌>>=◌}
use openflow_controller.Switch.{OfSwitch}
use openflow_controller.Network.{Node, Device, Devices, Network}
use openflow_controller.Controller.{Controller, free_switch_buffers}
use openflow_controller.Program.Listening.{Candidate}

-- The nodes that are freed, in order: each device with the list behind it.
pub freed_nodes : Devices → List Node
freed_nodes [] = []
freed_nodes (none ∷ ds) = freed_nodes ds
freed_nodes (some d ∷ ds) = d.node ∷ d.next ++ freed_nodes ds

pub free_network_graph : Network → List Node
unfolding freed_nodes
free_network_graph graph = freed_nodes graph.devices

-- The buffers, then the list itself; the list is the one behind the calls.
pub free_controller_mem : Controller → Outcome Controller
free_controller_mem c = free_switch_buffers 0 c

-- What stands freed or closed before `exit(0)`: the nodes, the controller with its buffers, and the
-- addresses that `freeaddrinfo` gets.
pub record Freed : Type 0 where
  pub nodes : List Node
  pub controller : Controller
  pub addresses : List Candidate

unfoldable pub clean_up : List Candidate → Controller → Outcome Freed
unfolding free_network_graph free_controller_mem
clean_up server c = do
  c' ← free_controller_mem c
  done (record {
    nodes = free_network_graph c.network_graph;
    controller = record c' { closed = c'.listening_socket_fd ∷ c'.closed };
    addresses = server;
  })
