-- ===== src/Tests/Packets.antt =====
-- Messages built and read.
use openflow_controller.Prelude.{
  ℕ, ◌+◌, ◌%◌, ◌≤◌, ◌<◌, ◌≡◌, refl, List, some, none, arith, ltb, if◌then◌else◌, ◌-◌, ◌⊎◌,
}
use openflow_controller.Memory.{fresh, deliver, poke, peek_be}
use openflow_controller.Memory.Fields.{from}
use openflow_controller.Memory.Safe.{IsSafe}
use openflow_controller.Memory.Words.{AreBytes, AreBytes-deliver}
use openflow_controller.Outcome.{done}
use openflow_controller.Switch.{OfSwitch, RwStatus}
use openflow_controller.Wire.Decode.{decode_flow_mod, source_mac, frame_at}
use openflow_controller.Packets.Echo.{make_echo_reply, received_length}
use openflow_controller.Packets.Echoed.{make_echo_reply_lem}
use openflow_controller.Packets.FlowMod.{round_up, src_table, dst_table}
use openflow_controller.Packets.FlowMod.NewFlow.{Reason, write_new_flow, write_flow_mod, in_data_at}
use openflow_controller.Packets.FlowMod.Rules.{src_rule, dst_rule, miss_rule, broadcast_rule}
use openflow_controller.Packets.FlowMod.Learned.{
  round_up_least, in_data_at_lem, write_new_flow-dst, write_new_flow-src, write_flow_mod-default,
}
use openflow_controller.Packets.Framing.{IsFramed, build, build-IsFramed, hello}
use openflow_controller.Packets.PacketIn.{
  get_input_port, is_switch_connection, frame_offset, read_packet_in,
}
use openflow_controller.Packets.PacketIn.Ports.{
  get_input_port_lem, is_switch_connection-send_probe_packet,
}
use openflow_controller.Packets.PacketIn.Learning.{
  Missed, read_packet_in-link, read_packet_in-rules, neighbour,
}
use openflow_controller.Packets.PacketOut.{send_probe_packet}
use openflow_controller.Tests.Data.{zeros, idle, holding, echo_request, packet_in}

zeros-AreBytes : AreBytes zeros
zeros-AreBytes j = omega arith

held-AreBytes : (message : List ℕ) → AreBytes (holding message).read_buffer.byte
held-AreBytes message = AreBytes-deliver message 0 zeros zeros-AreBytes

abbrev echoing : OfSwitch
echoing = holding echo_request

abbrev missing : OfSwitch
missing = holding (packet_in 8 6)

-- the frame of a probe from descriptor 6
abbrev probed : OfSwitch
probed = holding (packet_in 0 6)

write_new_flow-dst_example :
    decode_flow_mod (from 0 (write_new_flow missing dst_table 3).write_buffer.byte)
    ≡ some (dst_rule (source_mac missing.read_buffer.byte) 3 7)
write_new_flow-dst_example =
    write_new_flow-dst missing 3 (omega arith) (omega arith) (held-AreBytes (packet_in 8 6))

write_new_flow-src_example :
    decode_flow_mod (write_new_flow missing src_table 3).write_buffer.byte
    ≡ some
        (src_rule (source_mac missing.read_buffer.byte) (peek_be 4 8 missing.read_buffer.byte) 3 7)
write_new_flow-src_example =
    write_new_flow-src missing 3 (omega arith) (omega arith) (held-AreBytes (packet_in 8 6)) refl

source_address : source_mac missing.read_buffer.byte ≡ (20, 21, 22, 23, 24, 25)
unfolding source_mac deliver poke
source_address = refl

write_flow_mod-default_example :
    (t : OfSwitch) × (write_flow_mod idle Reason.default_flow 0 0 ≡ some t)
    × (decode_flow_mod t.write_buffer.byte ≡ some (miss_rule 7))
    × (decode_flow_mod (from 80 t.write_buffer.byte) ≡ some (broadcast_rule 8))
    × (t.bytes_expected ≡ 80 + 88)
write_flow_mod-default_example = write_flow_mod-default idle 0 0 (omega arith) refl

round_up_least_example :
    (round_up 14 % 8 ≡ 0) × (14 ≤ round_up 14) × ((k : ℕ) → 14 ≤ k → k % 8 ≡ 0 → round_up 14 ≤ k)
round_up_least_example = round_up_least 14

in_data_at_lem_example : in_data_at missing.read_buffer.byte ≡ frame_at missing.read_buffer.byte + 6
in_data_at_lem_example = in_data_at_lem missing.read_buffer.byte

build-IsFramed_example : IsFramed hello idle (build hello idle)
unfolding fresh
build-IsFramed_example =
    build-IsFramed idle (omega arith) (record { alive = refl; sound = refl; room = omega arith })
      hello

echoed_length : received_length echoing ≡ 8 + 4
unfolding received_length deliver poke peek_be
echoed_length = refl

make_echo_reply_lem_example :
    let t = make_echo_reply echoing in
    (t.write_buffer.byte 0 ≡ 4)
    × (t.write_buffer.byte 1 ≡ 3)
    × ((j : ℕ) → 2 ≤ j → j < 12 → t.write_buffer.byte j ≡ echoing.read_buffer.byte j)
    × (t.bytes_expected ≡ 12)
    × (t.rw ≡ RwStatus.write)
make_echo_reply_lem_example =
    make_echo_reply_lem echoing 4 (held-AreBytes echo_request) echoed_length

get_input_port_lem_example :
    get_input_port zeros ≡ done (if ltb 0 (peek_be 2 2 zeros) then peek_be 4 8 zeros else 0)
get_input_port_lem_example = get_input_port_lem zeros zeros-AreBytes

is_switch_connection-send_probe_packet_example :
    is_switch_connection (from 40 (send_probe_packet idle).write_buffer.byte) ≡ 5
is_switch_connection-send_probe_packet_example =
    is_switch_connection-send_probe_packet idle (omega arith)

missing-Missed : Missed missing
unfolding deliver poke peek_be
missing-Missed = record {
  bytes = held-AreBytes (packet_in 8 6);
  reason = refl;
  matched = omega arith;
}

no_neighbour : neighbour missing ≡ 0
unfolding deliver poke peek_be is_switch_connection frame_offset
no_neighbour = refl

probed-Missed : Missed probed
unfolding deliver poke peek_be
probed-Missed = record {
  bytes = held-AreBytes (packet_in 0 6);
  reason = refl;
  matched = omega arith;
}

probed-IsSafe : IsSafe 56 probed.read_buffer
unfolding deliver fresh
probed-IsSafe = record { alive = refl; sound = refl; room = omega arith }

probed-length :
    (peek_be 2 2 probed.read_buffer.byte ≡ 56) × (peek_be 2 12 probed.read_buffer.byte ≡ 14)
unfolding deliver poke peek_be
probed-length = (refl, refl)

read_packet_in-link_example :
    let type = peek_be 2 (56 - 14 + 12) probed.read_buffer.byte in
    ((0 < type)
      × (type < 100)
      × (read_packet_in probed ≡ done (probed, some (type, peek_be 4 32 probed.read_buffer.byte))))
    ⊎ (((type ≡ 0) ⊎ (100 ≤ type)) × (t : OfSwitch) × (read_packet_in probed ≡ done (t, none)))
read_packet_in-link_example =
    read_packet_in-link probed probed-Missed 56 14 probed-IsSafe probed-length.0 probed-length.1
      (omega arith) (omega arith)

read_packet_in-rules_example :
    (t : OfSwitch) × (read_packet_in missing ≡ done (t, none))
    × (decode_flow_mod t.write_buffer.byte
        ≡ some (
            src_rule
              (source_mac missing.read_buffer.byte)
              (peek_be 4 8 missing.read_buffer.byte)
              (peek_be 4 32 missing.read_buffer.byte)
              7))
    × (decode_flow_mod (from 80 t.write_buffer.byte)
        ≡ some (
            dst_rule
              (source_mac missing.read_buffer.byte)
              (peek_be 4 32 missing.read_buffer.byte)
              8))
    × (t.bytes_expected ≡ 168)
    × (t.rw ≡ RwStatus.write)
read_packet_in-rules_example =
    read_packet_in-rules missing missing-Missed no_neighbour (omega arith) refl
