-- ===== src/Controller/Setup.antt =====
-- controller.c: the start of the program and the arrival of a switch.
pub mod Filled
use openflow_controller.Prelude.{
  ℕ, ◌+◌, ◌-◌, ◌*◌, ◌^◌, [], ◌∷◌, ◌++◌, Option, none, some, true, false, ltb, leb, if◌then◌else◌,
  replicate,
}
use openflow_controller.Memory.{Buffer, fresh}
use openflow_controller.Wire.Enums.{OfpType, ofp_type}
use openflow_controller.Wire.Layout.{sizeof, ofp_header, ofp_port}
use openflow_controller.Switch.{OfSwitch, RwStatus, u8, u16, u32}
use openflow_controller.Outcome.{Outcome, done, crashed, ◌>>=◌}
use openflow_controller.Network.{Device, Devices, Network, blank_node, initialize_network_graph}
use openflow_controller.Packets.Requests.{write_openflow_hello}
use openflow_controller.Controller.{Controller, switch_at, put_switch}

-- A null pointer, as a buffer that nothing may touch.
abbrev null_buffer : Buffer
null_buffer = record { size = 0; live = false; byte = λ _. 0; fault = false }

-- An entry as `calloc` leaves it: `READ` and the descriptor 0.
abbrev pub blank_switch : OfSwitch
blank_switch = record {
  rw = RwStatus.read;
  of_status = 0;
  reading_header = false;
  xid = 0;
  socket_fd = 0;
  bytes_read = 0;
  bytes_written = 0;
  bytes_expected = 0;
  read_buffer = null_buffer;
  write_buffer = null_buffer;
  write_buffer_size = 0;
  read_buffer_size = 0;
  config_set = false;
  ports_requested = false;
  features_requested = false;
  default_flow_set = false;
  timeout = 0;
  connected_ports = fresh (50 * sizeof ofp_port);
  connected_hosts = fresh (50 * 6);
}

-- The globals and `initialize_network_graph`, `initialize_controller`, with the listening socket.
unfoldable pub initialize_controller : ℕ → Controller
unfolding initialize_network_graph
initialize_controller listening_socket_fd = record {
  num_connected_switches = 0;
  max_connected_switches = 50;
  switch_list = replicate 50 blank_switch;
  network_graph = initialize_network_graph;
  listening_socket_fd = listening_socket_fd;
  largest_fd = listening_socket_fd;
  interrupt = false;
  xid_generator = 1;
  read_sockets = [];
  write_sockets = [];
  error_sockets = [];
  closed = [];
}

-- `junk` is an entry as `realloc` leaves it; `none` is a failed call, behind which the null list is
-- dereferenced.
unfoldable resize_switch_list : Option OfSwitch → Controller → Outcome Controller
resize_switch_list none c = crashed
resize_switch_list (some junk) c = done (record c {
  max_connected_switches = u32 (c.max_connected_switches * 2);
  switch_list = c.switch_list ++ replicate c.max_connected_switches junk;
})

-- The answer of `accept`: a descriptor, or -1, which the code goes on with.
pub data Accepted : Type 0 where
  accepted : ℕ → Accepted
  accept_failed : Accepted

abbrev fd_word : Accepted → ℕ
fd_word (accepted fd) = u16 fd
fd_word accept_failed = 2 ^ 16 - 1

abbrev pub larger_fd : Accepted → ℕ → ℕ
larger_fd (accepted fd) largest = if ltb largest fd then fd else largest
larger_fd accept_failed largest = largest

-- The entry of a new connection; the ports and hosts stay as they are. Allocation does not fail.
unfoldable pub new_switch : ℕ → ℕ → OfSwitch → OfSwitch
new_switch fd xid s = record s {
  rw = RwStatus.write;
  of_status = ofp_type OfpType.hello;
  socket_fd = fd;
  bytes_read = 0;
  bytes_written = 0;
  bytes_expected = sizeof ofp_header;
  reading_header = true;
  read_buffer_size = 1500;
  write_buffer_size = 1500;
  xid = xid;
  read_buffer = fresh 1500;
  write_buffer = fresh 1500;
  ports_requested = false;
  config_set = false;
  features_requested = false;
  default_flow_set = false;
  timeout = 60;
}

-- The new device goes to the first empty entry; a full array is overrun.
pub add_device : ℕ → Devices → Outcome Devices
add_device fd [] = crashed
add_device fd (none ∷ ds) = done (some device ∷ ds)
  where
    device : Device
    device = record { node = record blank_node { device_num = u8 fd; is_switch = true }; next = [] }
add_device fd (some d ∷ ds) = add_device fd ds >>= λ ds'. done (some d ∷ ds')

unfoldable pub add_to_graph : ℕ → Network → Outcome Network
unfolding add_device
add_to_graph fd g = do
  ds ← add_device fd g.devices
  done (record g { devices = ds; num_conn_devices = u8 (g.num_conn_devices + 1) })

unfoldable setup_new_switch : Option OfSwitch → Accepted → Controller → Outcome Controller
unfolding resize_switch_list new_switch add_to_graph switch_at
setup_new_switch junk answer c = do
  c₁ ←
      if leb c.max_connected_switches c.num_connected_switches
      then resize_switch_list junk c
      else done c
  let k = c₁.num_connected_switches
  old ← switch_at k c₁.switch_list
  let s = write_openflow_hello (new_switch (fd_word answer) (u32 c₁.xid_generator) old)
  g ← add_to_graph (fd_word answer) c₁.network_graph
  done (record (put_switch k s c₁) {
    num_connected_switches = k + 1;
    xid_generator = c₁.xid_generator + 1;
    largest_fd = larger_fd answer c₁.largest_fd;
    network_graph = g;
  })

-- `create_new_connection` goes on with whatever `accept` returns.
unfoldable pub create_new_connection : Option OfSwitch → Accepted → Controller → Outcome Controller
unfolding setup_new_switch
create_new_connection junk answer c = setup_new_switch junk answer c
