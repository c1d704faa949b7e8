-- ===== src/Controller/Running.antt =====
-- controller.c: the controller as an environment of switches drives it, one event after the other: a
-- connection comes in, or a socket is ready to be read.
mod Put
mod Dispatch
pub mod Sound
pub mod Safety
pub mod Rounds
pub mod Loop
use openflow_controller.Prelude.{
  ℕ, zero, suc, ◌+◌, ◌<◌, ◌≤◌, ◌≡◌, ◌≢◌, ◌⊎◌, refl, List, Option, none, some, Bool, true, false,
  ◌==◌, get_elem?, length,
}
use openflow_controller.Memory.{Bytes, peek_be}
use openflow_controller.Memory.Words.{AreBytes}
use openflow_controller.Outcome.{Outcome, done, ◌>>=◌}
use openflow_controller.Switch.{OfSwitch, u8}
use openflow_controller.Transfer.{Sent, Received}
use openflow_controller.Network.{Devices}
use openflow_controller.Network.Marks.{known}
use openflow_controller.Packets.PacketIn.Learning.{neighbour}
use openflow_controller.Controller.{Controller, switch_at, put_switch}
use openflow_controller.Controller.Setup.{accepted, create_new_connection, initialize_controller}
use openflow_controller.Controller.Setup.Filled.{has_hole}
use openflow_controller.Controller.Read.{receive, handle_read_socket}
use openflow_controller.Controller.Read.Failure.{is_known}
use openflow_controller.Controller.Write.{handle_write_socket}
use openflow_controller.Controller.Tracking.{IsTracked}

-- `junk` is what a `realloc` leaves behind the old bytes, `new_entry` in a new entry of the list.
pub data Event : Type 0 where
  accept : (new_entry : Option OfSwitch) (fd : ℕ) → Event
  read : (junk : Bytes) (answer : Received) (k : ℕ) → Event

pub handle : Event → Controller → Outcome Controller
handle (Event.accept new_entry fd) c = create_new_connection new_entry (accepted fd) c
handle (Event.read junk answer k) c = handle_read_socket (some junk) answer k c

-- What the environment may send in a message that is whole in the read buffer of switch `k`: a probe that a
-- switch heard names a known device, and a message of an unknown type comes only while the list has,
-- from that switch on, as many entries as switches are connected.
pub record IsBenign (c : Controller) (k : ℕ) (s : OfSwitch) : Type 0 where
  pub heard :
      s.of_status ≡ 10
      → peek_be 1 14 s.read_buffer.byte ≡ 0
      → (neighbour s == 0) ≡ false
      → known (u8 (neighbour s)) c.network_graph.devices ≡ true
  pub understood :
      is_known s.of_status ≡ false → k + c.num_connected_switches ≤ length c.switch_list

-- A message that becomes whole with what `recv` answers is such a one.
abbrev pub IsUnderstood : Bytes → Received → ℕ → Controller → Type 0
IsUnderstood junk answer k c =
    (s s' : OfSwitch)
    → get_elem? c.switch_list k ≡ some s
    → receive (some junk) answer s ≡ done (s', true)
    → IsBenign c k s'

-- The events that the environment may cause: a descriptor is below 256 and comes only while list and
-- table have room, and only connected switches are served.
abbrev pub IsEnabled : Event → Controller → Type 0
IsEnabled (Event.accept new_entry fd) c =
    (fd < 256)
    × (has_hole c.network_graph.devices ≡ true)
    × (c.num_connected_switches < c.max_connected_switches)
    × (c.num_connected_switches < length c.switch_list)
IsEnabled (Event.read junk answer k) c =
    AreBytes junk × (k < c.num_connected_switches) × IsUnderstood junk answer k c

-- A connected switch is a known device on a descriptor below 256, and its read buffer holds bytes.
pub record IsConnected (ds : Devices) (s : OfSwitch) : Type 0 where
  pub device : known s.socket_fd ds ≡ true
  pub small : s.socket_fd < 256
  pub bytes : AreBytes s.read_buffer.byte

abbrev pub AllConnected : Devices → ℕ → List OfSwitch → Type 0
AllConnected ds n ss = (i : ℕ) (s : OfSwitch) → i < n → get_elem? ss i ≡ some s → IsConnected ds s

pub record IsRunning (c : Controller) : Type 0 where
  pub tracked : IsTracked c
  pub room : c.num_connected_switches ≤ length c.switch_list
  pub switches : AllConnected c.network_graph.devices c.num_connected_switches c.switch_list

-- A running controller, with as many switches.
pub record Runs (n : ℕ) (c : Controller) : Type 0 where
  pub running : IsRunning c
  pub count : c.num_connected_switches ≡ n
