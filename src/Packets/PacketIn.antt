-- ===== src/Packets/PacketIn.antt =====
-- rw_packets.c: packet-in messages.
pub mod Ports
pub mod Learning
pub mod Kept
use openflow_controller.Prelude.{
  ℕ, zero, suc, ◌+◌, ◌-◌, ◌*◌, ◌%◌, Option, none, some, true, ltb, ◌==◌, if◌then◌else◌,
}
use openflow_controller.Memory.{Bytes, Buffer, peek_be, touch}
use openflow_controller.Memory.Fields.{from}
use openflow_controller.Wire.Enums.{OfpPacketInReason, ofp_packet_in_reason}
use openflow_controller.Wire.Oxm.{OxmOfbMatchFields, oxm_ofb_match_fields, oxm_type, oxm_length}
use openflow_controller.Wire.Layout.{offset, ofp_header, ofp_match, ofp_packet_in, enet_header}
use openflow_controller.Switch.{OfSwitch, u8}
use openflow_controller.Outcome.{Outcome, done, exited, out_of_fuel, ◌>>=◌}
use openflow_controller.Packets.FlowMod.{src_table, dst_table}
use openflow_controller.Packets.FlowMod.NewFlow.{Reason, write_flow_mod}

-- The loop over the match fields: `oxm` is `match->oxm_fields`, `i` a `uint8_t`. The macros are applied
-- to one byte. The four bytes are put together in little-endian order and swapped by `ntohl`.
unfoldable input_port_loop : ℕ → ℕ → ℕ → Bytes → Outcome ℕ
input_port_loop zero i length oxm = out_of_fuel
input_port_loop (suc fuel) i length oxm =
    let rest = input_port_loop fuel (u8 (i + oxm_length (oxm i))) length oxm in
    if ltb i length
    then (if oxm_type (oxm i) == oxm_ofb_match_fields OxmOfbMatchFields.in_port
        then done (peek_be 4 (u8 (i + 4)) oxm)
        else rest)
    else done 0

-- `match` stands at offset 0.
pub get_input_port : Bytes → Outcome ℕ
unfolding input_port_loop
get_input_port match =
    input_port_loop 256 0 (peek_be 2 (offset ofp_match 1) match) (from (offset ofp_match 2) match)

-- `data` is an Ethernet frame: the descriptor in its type field, 0 from 100 on.
unfoldable pub is_switch_connection : Bytes → ℕ
is_switch_connection frame =
    let type = peek_be 2 (offset enet_header 2) frame in if ltb type 100 then type else 0

-- Where `read_packet_in` looks for the frame: `length - total_len`.
unfoldable pub frame_offset : Bytes → ℕ
frame_offset m = peek_be 2 (offset ofp_header 2) m - peek_be 2 (offset ofp_packet_in 2) m

-- The read of the frame's type field. A negative offset is out of bounds too.
unfoldable pub touch_frame : Buffer → Buffer
unfolding frame_offset
touch_frame b =
    if ltb (peek_be 2 (offset ofp_header 2) b.byte) (peek_be 2 (offset ofp_packet_in 2) b.byte)
    then record b { fault = true }
    else touch (frame_offset b.byte + offset enet_header 2) 2 b

-- The switch afterwards, and the neighbour's descriptor and the input port where `add_connection` is
-- called, which is then the last thing that the source does.
unfoldable pub read_packet_in : OfSwitch → Outcome (OfSwitch × Option (ℕ × ℕ))
unfolding get_input_port frame_offset touch_frame is_switch_connection
read_packet_in s = do
  let m = s.read_buffer.byte
  input_port ← get_input_port (from (offset ofp_packet_in 6) m)
  if peek_be 1 (offset ofp_packet_in 3) m == ofp_packet_in_reason OfpPacketInReason.no_match
      then missed input_port (is_switch_connection (from (frame_offset m) m))
          (record s { read_buffer = touch_frame s.read_buffer })
      else done (s, none)
  where
    run : Option OfSwitch → Outcome OfSwitch
    run none = exited
    run (some s) = done s

    missed : ℕ → ℕ → OfSwitch → Outcome (OfSwitch × Option (ℕ × ℕ))
    missed input_port nextdoor_fd s =
        if nextdoor_fd == 0
        then (do
          s₁ ← run (write_flow_mod s Reason.new_flow src_table input_port)
          s₂ ← run (write_flow_mod s₁ Reason.new_flow dst_table input_port)
          done (s₂, none))
        else done (s, some (nextdoor_fd, input_port))
