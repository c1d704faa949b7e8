-- ===== src/Packets/PacketIn/Ports.antt =====
-- What `get_input_port` and `is_switch_connection` find in a message.
use openflow_controller.Prelude.{ℕ, ◌/◌, ◌%◌, ◌^◌, ◌<◌, ◌≡◌, ap, arith, ltb, if◌then◌else◌}
use openflow_controller.Memory.{Bytes, peek_be, poke, poke_be}
use openflow_controller.Memory.Fields.{from, store_fields, poke_fields}
use openflow_controller.Memory.Words.{AreBytes, be16_lem}
use openflow_controller.Switch.{OfSwitch}
use openflow_controller.Outcome.{done}
use openflow_controller.Packets.PacketOut.{send_probe_packet}
use openflow_controller.Packets.PacketIn.{get_input_port, is_switch_connection}

-- One byte shifted by nine is 0, which is the type of the input port.
byte_type : (b : ℕ) → b < 256 → b / 2 ^ 9 % 2 ^ 23 ≡ 0
byte_type b h = omega arith

-- The loop ends in its first round: whatever the first field of a match is, the four bytes behind its
-- header are taken for the input port; an empty match gives 0.
pub get_input_port_lem :
    (m : Bytes)
    → AreBytes m
    → get_input_port m ≡ done (if ltb 0 (peek_be 2 2 m) then peek_be 4 8 m else 0)
unfolding get_input_port peek_be
get_input_port_lem m bytes = ground (arith, byte_type (m 4) (bytes 4))

-- A probe that a switch sends out is told by its neighbour's packet-in: the frame behind the actions
-- gives back the descriptor of the sender, if that is below 100, and 0 if not.
pub is_switch_connection-send_probe_packet :
    (s : OfSwitch)
    → s.socket_fd < 2 ^ 16
    → is_switch_connection (from 40 (send_probe_packet s).write_buffer.byte)
      ≡ (if ltb s.socket_fd 100 then s.socket_fd else 0)
unfolding is_switch_connection send_probe_packet store_fields poke_fields poke_be poke peek_be
is_switch_connection-send_probe_packet s small =
    ap (λ fd. if ltb fd 100 then fd else 0) (be16_lem s.socket_fd small)
