-- ===== src/Controller/Read.antt =====
-- controller.c: `handle_read_socket`, the framing of messages and their dispatch.
pub mod Receives
pub mod Kept
pub mod Frames
pub mod Failure
use openflow_controller.Prelude.{
  ℕ, zero, suc, ◌+◌, ◌-◌, ◌^◌, List, [], ◌∷◌, Option, none, some, Bool, true, false, ◌==◌,
  if◌then◌else◌,
}
use openflow_controller.Memory.{Bytes, peek_be, zero_fill}
use openflow_controller.Wire.Enums.{OfpType, ofp_type}
use openflow_controller.Wire.Layout.{sizeof, offset, ofp_header}
use openflow_controller.Switch.{OfSwitch, RwStatus, u16}
use openflow_controller.Outcome.{Outcome, done, crashed, ◌>>=◌}
use openflow_controller.Transfer.{Received, read_from}
use openflow_controller.Network.{Device, Network}
use openflow_controller.Network.Search.{index_of}
use openflow_controller.Packets.Requests.{read_openflow_hello, read_features}
use openflow_controller.Packets.Echo.{make_echo_reply}
use openflow_controller.Packets.PacketOut.{send_probe_packet}
use openflow_controller.Packets.PacketIn.{read_packet_in}
use openflow_controller.Packets.Ports.{handle_multipart_reply}
use openflow_controller.Controller.{
  Controller, switch_at, put_switch, add_connection, free_switch_buffers,
}

-- The type and the number of bytes still to come, from the header.
unfoldable pub read_header : OfSwitch → OfSwitch
read_header s = record s {
  of_status = peek_be 1 (offset ofp_header 1) s.read_buffer.byte;
  bytes_expected =
      u16 (peek_be 2 (offset ofp_header 2) s.read_buffer.byte + 2 ^ 16 - sizeof ofp_header);
  reading_header = false;
}

-- Up to the dispatch: the switch, and whether a whole message stands in the read buffer.
unfoldable pub receive : Option Bytes → Received → OfSwitch → Outcome (OfSwitch × Bool)
unfolding read_header
receive junk answer s = do
  s' ← if s.bytes_expected == 0 then done s else read_from junk answer s
  if s'.bytes_expected == 0
      then (if s'.reading_header
          then done (read_header s', (read_header s').bytes_expected == 0)
          else done (s', true))
      else done (s', false)

-- A switch that is not to write waits for the next header.
unfoldable pub reset_read : OfSwitch → OfSwitch
reset_read s = elim s.rw [
  | RwStatus.write ↦ s
  | _ ↦ record s {
    bytes_expected = sizeof ofp_header;
    reading_header = true;
    bytes_read = 0;
    read_buffer = zero_fill s.read_buffer_size s.read_buffer;
  }
]

-- What is left of `read_port_change` without what it prints: the search for the switch in the graph.
unfoldable pub read_port_change : OfSwitch → Network → Outcome OfSwitch
read_port_change s g = index_of s.socket_fd g.devices >>= λ _. done s

module _ (k : ℕ) (s : OfSwitch) (c : Controller) where
  -- `add_connection` where a neighbour was found
  unfoldable pub link : OfSwitch × Option (ℕ × ℕ) → Outcome Controller
  link (s', none) = done (put_switch k s' c)
  link (s', some (nextdoor_fd, input_port)) =
      add_connection s'.socket_fd nextdoor_fd 0 input_port (put_switch k s' c)

  unfoldable pub close_fd : Option ℕ → Controller
  close_fd none = c
  close_fd (some fd) = record c { closed = fd ∷ c.closed }

  -- The `switch` over the type of the message in the read buffer of `s`, which is entry `k`.
  unfoldable pub dispatch : Outcome Controller
  unfolding link close_fd read_port_change
  dispatch =
      if s.of_status == ofp_type OfpType.echo_request
      then done (put_switch k (make_echo_reply s) c)
      else if s.of_status == ofp_type OfpType.hello
      then done (close_fd (read_openflow_hello s))
      else if s.of_status == ofp_type OfpType.features_reply
      then done (put_switch k (send_probe_packet (read_features s)) c)
      else if s.of_status == ofp_type OfpType.packet_in
      then (read_packet_in s >>= link)
      else if s.of_status == ofp_type OfpType.multipart_reply
      then done (put_switch k (handle_multipart_reply s) c)
      else if s.of_status == ofp_type OfpType.port_status
      then (read_port_change s c.network_graph >>= λ s'. done (put_switch k s' c))
      else if s.of_status == ofp_type OfpType.flow_removed
      then done c
      else free_switch_buffers k (put_switch k (record s { rw = RwStatus.disconnected }) c)

unfoldable pub handle_read_socket : Option Bytes → Received → ℕ → Controller → Outcome Controller
unfolding receive dispatch reset_read read_port_change
handle_read_socket junk answer k c = do
  s ← switch_at k c.switch_list
  (s₁, whole) ← receive junk answer s
  if whole
      then (do
        c' ← dispatch k s₁ (put_switch k s₁ c)
        s₂ ← switch_at k c'.switch_list
        done (put_switch k (reset_read s₂) c'))
      else done (put_switch k s₁ c)
