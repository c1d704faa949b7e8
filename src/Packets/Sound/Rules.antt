-- ===== src/Packets/Sound/Rules.antt =====
-- rw_packets.c: the buffers of a switch when a packet-in message is answered.
use openflow_controller.Prelude.{ℕ, ◌+◌, ◌≤◌, ◌≡◌, inl, inr, arith, ◌==◌, Bool-cases}
use openflow_controller.Memory.{Bytes}
use openflow_controller.Memory.Fields.{extent}
use openflow_controller.Memory.Safe.{store_fields-IsSafe, touch-IsSafe}
use openflow_controller.Switch.{OfSwitch}
use openflow_controller.Packets.FlowMod.{instructions_at}
use openflow_controller.Packets.FlowMod.NewFlow.{
  write_new_flow, dst_flow_fields, src_match_fields, goto_fields, src_closing_fields, in_data_at,
  dst_flow_length, src_flow_length,
}
use openflow_controller.Memory.Fields.{from}
use openflow_controller.Wire.Layout.{offset, ofp_packet_in}
use openflow_controller.Packets.Sound.{IsSound, busy}

dst_room :
    (xid port : ℕ) (mac : Bytes) (base : ℕ)
    → base ≤ 1000
    → base + extent (dst_flow_fields xid mac port) ≤ 1500
unfolding dst_flow_fields extent
dst_room xid port mac base room = omega (arith, room)

src_room :
    (xid port : ℕ) (mac buffer_id : Bytes) (base : ℕ)
    → base ≤ 1000
    → (base + extent (src_match_fields xid mac port) ≤ 1500)
      × (base + extent (src_closing_fields buffer_id) ≤ 1500)
unfolding src_match_fields src_closing_fields extent
src_room xid port mac buffer_id base room = (omega (arith, room), omega (arith, room))

-- The rule is counted as to be sent, and still fits in the buffer.
counted :
    (s : OfSwitch) (table port : ℕ)
    → s.bytes_expected ≤ 1000
    → s.bytes_written ≡ 0
    → (write_new_flow s table port).bytes_written + (write_new_flow s table port).bytes_expected
      ≤ 1500
unfolding write_new_flow dst_flow_length src_flow_length
counted s table port room rest = elim (Bool-cases (table == 1)) [
  | inl dst ↦ rw dst (omega (arith, room, rest))
  | inr src ↦ rw src (omega (arith, room, rest))
]

pub write_new_flow-IsSound :
    (s : OfSwitch) (table port : ℕ)
    → in_data_at s.read_buffer.byte + 6 ≤ 1500
    → s.bytes_expected ≤ 1000
    → s.bytes_written ≡ 0
    → IsSound s
    → IsSound (write_new_flow s table port)
unfolding write_new_flow extent instructions_at
write_new_flow-IsSound s table port read room rest p =
    let mac = from (in_data_at s.read_buffer.byte) s.read_buffer.byte in
    let buffer_id = from (offset ofp_packet_in 1) s.read_buffer.byte in
    record {
      read_safe = touch-IsSafe p.read_safe (in_data_at s.read_buffer.byte) 6 read;
      write_safe = elim (Bool-cases (table == 1)) [
        | inl dst ↦ rw dst (
            store_fields-IsSafe p.write_safe _ s.bytes_expected
              (dst_room s.xid port mac s.bytes_expected room))
        | inr src ↦ rw src (
            store_fields-IsSafe
              (store_fields-IsSafe
                (store_fields-IsSafe p.write_safe (src_match_fields s.xid mac port) s.bytes_expected
                  (src_room s.xid port mac buffer_id s.bytes_expected room).0)
                goto_fields (instructions_at 22) (omega arith))
              _ s.bytes_expected (src_room s.xid port mac buffer_id s.bytes_expected room).1)
      ];
      ports_safe = p.ports_safe;
      read_size = p.read_size;
      write_size = p.write_size;
      in_flight = λ _. counted s table port room rest;
      at_rest = λ e. absurd (busy e);
      awaited = λ e. absurd (busy e);
    }
