-- ===== src/Tests/Graphs.antt =====
-- Runs of the graph operations on a small network.
use openflow_controller.Prelude.{
  ℕ, ◌≡◌, refl, List, [], ◌∷◌, Option, none, some, true, false, ◌⊎◌, map, arith, ◌||◌, ◌&&◌, set,
  get_elem?, ◌+◌, ◌<◌, ◌==◌, if◌then◌else◌, length,
}
use openflow_controller.Memory.Words.{AreBytes}
use openflow_controller.Outcome.{done}
use openflow_controller.Switch.{OfSwitch, u8, u32}
use openflow_controller.Network.{Node, Device, Devices, Network, blank_node, connect}
use openflow_controller.Network.Search.{loop_exists}
use openflow_controller.Network.Marks.{known}
use openflow_controller.Network.Total.{WellFormed, loop_exists-total}
use openflow_controller.Network.Kept.{connect-WellFormed}
use openflow_controller.Network.Links.{linked, present, joins, linked-connect, connect-connect}
use openflow_controller.Packets.PortMod.{change_port_behavior}
use openflow_controller.Controller.{Controller, add_connection}
use openflow_controller.Controller.Tracking.{
  IsTracked, create_new_connection-IsTracked, add_connection-IsTracked,
  initialize_controller-IsTracked,
}
use openflow_controller.Controller.Setup.Filled.{has_hole}
use openflow_controller.Controller.Setup.{
  create_new_connection, accepted, initialize_controller, blank_switch,
}
use openflow_controller.Controller.Links.{has_socket, add_connection-total}

abbrev pub node : ℕ → Node
node n = record blank_node { device_num = n }

abbrev pub device : ℕ → List ℕ → Option Device
device n ns = some (record { node = node n; next = map node ns })

abbrev pub network : Devices → Network
network ds = record { devices = ds; num_conn_devices = 3; max_network_size = 4 }

-- Three switches in a row, and in a triangle.
abbrev line : Network
line = network (device 5 (6 ∷ []) ∷ device 6 (5 ∷ 7 ∷ []) ∷ device 7 (6 ∷ []) ∷ none ∷ [])

abbrev triangle : Network
triangle =
    network (device 5 (6 ∷ 7 ∷ []) ∷ device 6 (5 ∷ 7 ∷ []) ∷ device 7 (6 ∷ 5 ∷ []) ∷ none ∷ [])

line-WellFormed : WellFormed line
line-WellFormed = record { closed = refl; clear = refl; sized = omega arith }

triangle-WellFormed : WellFormed triangle
triangle-WellFormed = record { closed = refl; clear = refl; sized = omega arith }

line_has_no_loop : loop_exists line ≡ done (0, line)
unfolding loop_exists
line_has_no_loop = refl

triangle_has_loop : loop_exists triangle ≡ done (5, triangle)
unfolding loop_exists
triangle_has_loop = refl

-- The triangle with a switch linked to 7: the loop is found from 5, and forgotten when the search starts again at 8.
abbrev tailed : Network
tailed = network (
    device 5 (6 ∷ 7 ∷ [])
    ∷ device 6 (5 ∷ 7 ∷ [])
    ∷ device 7 (6 ∷ 5 ∷ 8 ∷ [])
    ∷ device 8 (7 ∷ [])
    ∷ [])

tailed_loses_loop : loop_exists tailed ≡ done (0, tailed)
unfolding loop_exists
tailed_loses_loop = refl

loop_exists-total_example :
    (loop : ℕ) × (loop_exists triangle ≡ done (loop, triangle))
    × ((loop ≡ 0) ⊎ (known loop triangle.devices ≡ true))
loop_exists-total_example = loop_exists-total triangle triangle-WellFormed

connect-WellFormed_example :
    WellFormed (connect 5 7 1 2 line)
    × ((n : ℕ) → known n (connect 5 7 1 2 line).devices ≡ known n line.devices)
connect-WellFormed_example = connect-WellFormed 5 7 1 2 line refl refl line-WellFormed

no_self : (a : ℕ) → linked a a line.devices ≡ false
no_self a = ground arith

linked-connect_example :
    ((a b : ℕ)
      → linked a b (connect 5 7 1 2 line).devices
        ≡ (linked a b line.devices || (present a line.devices && joins 5 7 a b)))
    × ((a : ℕ) → linked a a (connect 5 7 1 2 line).devices ≡ false)
linked-connect_example = linked-connect 5 7 1 2 line (λ e. absurd (omega arith)) no_self

connect-connect_example :
    (connect 5 7 3 4 (connect 5 7 1 2 line) ≡ connect 5 7 1 2 line)
    × (connect 7 5 3 4 (connect 5 7 1 2 line) ≡ connect 5 7 1 2 line)
connect-connect_example = connect-connect 5 7 1 2 3 4 line

abbrev pub three_switches : Controller
three_switches = record (initialize_controller 3) {
  switch_list =
      record blank_switch { socket_fd = 5 }
      ∷ record blank_switch { socket_fd = 6 }
      ∷ record blank_switch { socket_fd = 7 }
      ∷ [];
  num_connected_switches = 3;
  network_graph = line;
}

listed : (n : ℕ) → known n line.devices ≡ true → has_socket n 3 three_switches.switch_list ≡ true
listed n h = ground arith

add_connection-total_example :
    (c' : Controller) × (add_connection 5 7 0 2 three_switches ≡ done c')
    × (c'.network_graph ≡ connect (u8 5) (u8 7) (u32 0) (u32 2) line)
    × WellFormed c'.network_graph
    × (c'.num_connected_switches ≡ 3)
    × ((c'.switch_list ≡ three_switches.switch_list)
        ⊎ ((i : ℕ) × (s : OfSwitch) × (get_elem? three_switches.switch_list i ≡ some s)
            × (c'.switch_list ≡ set three_switches.switch_list i (change_port_behavior s 2 false))))
add_connection-total_example =
    add_connection-total 5 7 0 2 three_switches refl refl line-WellFormed listed

start : IsTracked (initialize_controller 3)
start = (initialize_controller-IsTracked 3).0

has_room : has_hole (initialize_controller 3).network_graph.devices ≡ true
has_room = (initialize_controller-IsTracked 3).1

create_new_connection-IsTracked_example :
    (c' : Controller) × (create_new_connection none (accepted 5) (initialize_controller 3)
      ≡ done c')
    × IsTracked c'
    × (c'.num_connected_switches ≡ (initialize_controller 3).num_connected_switches + 1)
    × ((n : ℕ)
        → known n c'.network_graph.devices
          ≡ (if 5 == n then true else known n (initialize_controller 3).network_graph.devices))
    × ((s : OfSwitch) × (c'.switch_list
          ≡ set
              (initialize_controller 3).switch_list
              (initialize_controller 3).num_connected_switches
              s)
        × (s.socket_fd ≡ 5)
        × AreBytes s.read_buffer.byte)
unfolding initialize_controller
create_new_connection-IsTracked_example =
    create_new_connection-IsTracked none 5 (initialize_controller 3) start (omega arith) has_room
      room inside
  where
    room :
        (initialize_controller 3).num_connected_switches
        < (initialize_controller 3).max_connected_switches
    room = omega arith

    inside :
        (initialize_controller 3).num_connected_switches
        < length (initialize_controller 3).switch_list
    inside = omega arith

three_switches-IsTracked : IsTracked three_switches
three_switches-IsTracked = record { graph = line-WellFormed; compact = refl; listed = listed }

add_connection-IsTracked_example :
    (c' : Controller) × (add_connection 5 7 0 2 three_switches ≡ done c') × IsTracked c'
add_connection-IsTracked_example =
    add_connection-IsTracked 5 7 0 2 three_switches three_switches-IsTracked refl refl
