-- ===== src/Packets/PacketOut.antt =====
-- rw_packets.c: packet-out messages, the flooding of a buffered packet and the probe that finds links
-- between switches.
use openflow_controller.Prelude.{ℕ, ◌+◌, ◌-◌, List, [], ◌∷◌, ◌++◌}
use openflow_controller.Memory.Fields.{Field, store_fields}
use openflow_controller.Wire.Enums.{
  OfpType, OfpPortNo, OfpControllerMaxLen, ofp_type, ofp_port_no, ofp_controller_max_len,
  ofpat_output, ofp_no_buffer,
}
use openflow_controller.Wire.Layout.{
  sizeof, offset, ofp_packet_out, ofp_action_output, probe_packet, enet_header,
}
use openflow_controller.Switch.{RwStatus, OfSwitch, u32}
use openflow_controller.Packets.Requests.{header_fields}

-- An output action at offset `at`.
abbrev output_fields : ℕ → ℕ → ℕ → List Field
output_fields at port max_len =
    (at + offset ofp_action_output 0, 2, ofpat_output)
    ∷ (at + offset ofp_action_output 1, 2, sizeof ofp_action_output)
    ∷ (at + offset ofp_action_output 3, 2, max_len)
    ∷ (at + offset ofp_action_output 2, 4, port)
    ∷ []

-- A packet-out message of a given length with one output action to the flood port.
abbrev packet_out_fields : ℕ → ℕ → ℕ → ℕ → List Field
packet_out_fields length xid buffer_id max_len =
    header_fields (ofp_type OfpType.packet_out) length xid
    ++ (offset ofp_packet_out 1, 4, buffer_id)
      ∷ (offset ofp_packet_out 2, 4, ofp_port_no OfpPortNo.controller)
      ∷ (offset ofp_packet_out 3, 2, sizeof ofp_action_output)
      ∷ output_fields (sizeof ofp_packet_out) (ofp_port_no OfpPortNo.flood) max_len

-- No caller.
unfoldable pub flood_packet : OfSwitch → ℕ → OfSwitch
flood_packet s buffer_id =
    let length = sizeof ofp_packet_out + sizeof ofp_action_output in
    record s {
      write_buffer = store_fields (packet_out_fields length s.xid buffer_id 64000) 0 s.write_buffer;
      xid = u32 (s.xid + 1);
      rw = RwStatus.write;
      of_status = ofp_type OfpType.packet_out;
      bytes_expected = length;
      bytes_read = 0;
    }

-- The global `probe`, its type field set to the descriptor, at offset `at`: an Ethernet frame from
-- 01:01:01:01:01:01 to the broadcast address.
abbrev probe_fields : ℕ → ℕ → List Field
probe_fields at fd =
    (at + offset enet_header 0, 6, 0xffffffffffff)
    ∷ (at + offset enet_header 1, 6, 0x010101010101)
    ∷ (at + offset enet_header 2, 2, fd)
    ∷ []

abbrev probe_length : ℕ
probe_length = sizeof ofp_packet_out + sizeof ofp_action_output + sizeof probe_packet

unfoldable pub send_probe_packet : OfSwitch → OfSwitch
send_probe_packet s = record s {
  write_buffer =
      store_fields
        (packet_out_fields probe_length s.xid ofp_no_buffer
            (ofp_controller_max_len OfpControllerMaxLen.no_buffer)
          ++ probe_fields (probe_length - sizeof probe_packet) s.socket_fd)
        0 s.write_buffer;
  xid = u32 (s.xid + 1);
  rw = RwStatus.write;
  of_status = ofp_type OfpType.packet_out;
  bytes_expected = probe_length;
}
