-- ===== src/Packets/FlowMod/Learned.antt =====
-- What a switch learns from the flow modifications that are put into its write buffer.
use mathlib.Core.Path.{ap₂}
use openflow_controller.Prelude.{
  ℕ, ◌+◌, ◌%◌, ◌^◌, ◌<◌, ◌≤◌, ◌≡◌, refl, ap, ◌∙◌, some, true, false, arith,
}
use openflow_controller.Memory.{Bytes, peek_be, touch}
use openflow_controller.Memory.Fields.{from, from-poke_fields, store_fields}
use openflow_controller.Memory.Words.{AreBytes, bytes_of, bytes_of_lem}
use openflow_controller.Wire.Decode.{decode_flow_mod, mac_at, frame_at, source_mac}
use openflow_controller.Switch.{OfSwitch, u32}
use openflow_controller.Packets.FlowMod.{
  src_table, dst_table, round_up, default_miss_length, write_default_miss, default_miss_fields,
}
use openflow_controller.Packets.FlowMod.NewFlow.{
  Reason, write_new_flow, write_flow_mod, packet_in_match_length, in_data_at, src_flow_length,
  dst_flow_length, dst_flow_fields,
}
use openflow_controller.Packets.FlowMod.Rules.{
  dst_rule, src_rule, miss_rule, broadcast_rule, dst-decodes, src-decodes, broadcast-decodes,
  both-decode, src-dst-decode,
}

-- `round_up` is the least multiple of 8 that is not below its argument.
pub round_up_least :
    (n : ℕ)
    → (round_up n % 8 ≡ 0) × (n ≤ round_up n) × ((k : ℕ) → n ≤ k → k % 8 ≡ 0 → round_up n ≤ k)
unfolding round_up
round_up_least n = (ground arith, ground arith, λ k h e. ground arith)

-- The address that the code takes from a packet-in message is the source address of the frame in it.
pub in_data_at_lem : (m : Bytes) → in_data_at m ≡ frame_at m + 6
unfolding in_data_at frame_at packet_in_match_length peek_be
in_data_at_lem m = ground arith

mac_at-from : (i : ℕ) (m : Bytes) → mac_at 0 (from i m) ≡ mac_at i m
unfolding mac_at
mac_at-from i m =
    ap (λ k. (m k, m (i + 1), m (i + 2), m (i + 3), m (i + 4), m (i + 5))) (omega arith)

learned_mac : {m : Bytes} → AreBytes m → mac_at 0 (bytes_of (from (in_data_at m) m)) ≡ source_mac m
unfolding source_mac
learned_mac {m} bytes =
    ap (mac_at 0) (bytes_of_lem (λ j. bytes (in_data_at m + j)))
    ∙ mac_at-from (in_data_at m) m
    ∙ ap (λ k. mac_at k m) (in_data_at_lem m)

peek_be-from : (m : Bytes) → peek_be 4 0 (from 8 m) ≡ peek_be 4 8 m
unfolding peek_be
peek_be-from m = refl

module _ (s : OfSwitch) (port : ℕ) (small : s.xid < 2 ^ 32) (small_port : port < 2 ^ 32)
    (bytes : AreBytes s.read_buffer.byte) where
  -- Wherever it is put, the rule for the destination table sends packets to the source address of the
  -- packet in the read buffer out of the given port. Transaction id and port have 32 bits, and the read
  -- buffer holds bytes.
  pub write_new_flow-dst :
      decode_flow_mod (from s.bytes_expected (write_new_flow s dst_table port).write_buffer.byte)
      ≡ some (dst_rule (source_mac s.read_buffer.byte) port s.xid)
  unfolding write_new_flow store_fields
  write_new_flow-dst =
      ap decode_flow_mod
        (from-poke_fields (dst_flow_fields s.xid mac port) s.bytes_expected s.write_buffer.byte)
      ∙ dst-decodes s.xid small _ mac port small_port
      ∙ ap (λ a. some (dst_rule a port s.xid)) (learned_mac bytes)
    where
      mac : Bytes
      mac = from (in_data_at s.read_buffer.byte) s.read_buffer.byte

  -- In an empty write buffer, the rule for the source table takes packets from that address on the given
  -- port to the destination table, and releases the packet that the switch holds. Transaction id and
  -- port have 32 bits, and the read buffer holds bytes.
  pub write_new_flow-src :
      s.bytes_expected ≡ 0
      → decode_flow_mod (write_new_flow s src_table port).write_buffer.byte
        ≡ some
            (src_rule (source_mac s.read_buffer.byte) (peek_be 4 8 s.read_buffer.byte) port s.xid)
  unfolding write_new_flow store_fields
  write_new_flow-src empty = rw empty (
      src-decodes s.xid small s.write_buffer.byte mac port small_port buffer
      ∙ ap₂ (λ a b. some (src_rule a b port s.xid)) (learned_mac bytes) held)
    where
      mac : Bytes
      mac = from (in_data_at s.read_buffer.byte) s.read_buffer.byte

      buffer : Bytes
      buffer = from 8 s.read_buffer.byte

      held : peek_be 4 0 (bytes_of buffer) ≡ peek_be 4 8 s.read_buffer.byte
      held =
          ap (peek_be 4 0) (bytes_of_lem {m = buffer} (λ j. bytes (8 + j)))
          ∙ peek_be-from s.read_buffer.byte

-- With nothing else to write and a transaction id of 32 bits, a request for the default flow writes two
-- rules one behind the other: table 0 sends what it misses to the controller, table 1 floods what goes
-- to the broadcast address.
pub write_flow_mod-default :
    (s : OfSwitch) (ip_match out_port : ℕ)
    → s.xid < 2 ^ 32
    → s.bytes_expected ≡ 0
    → (t : OfSwitch) × (write_flow_mod s Reason.default_flow ip_match out_port ≡ some t)
      × (decode_flow_mod t.write_buffer.byte ≡ some (miss_rule s.xid))
      × (decode_flow_mod (from 80 t.write_buffer.byte) ≡ some (broadcast_rule (u32 (s.xid + 1))))
      × (t.bytes_expected ≡ 80 + 88)
unfolding write_flow_mod write_default_miss store_fields default_miss_length
write_flow_mod-default s ip_match out_port small empty = (
  write_default_miss (write_default_miss s false) true,
  refl,
  rw empty (both-decode s.xid small s.write_buffer.byte (u32 (s.xid + 1))),
  rw empty (
      ap decode_flow_mod (from-poke_fields (default_miss_fields (u32 (s.xid + 1)) true) 80 _)
      ∙ broadcast-decodes (u32 (s.xid + 1)) (omega arith) _),
  rw empty,
)

-- Two learned rules one behind the other in an empty write buffer, both for the same packet.
pub write_new_flow-src-dst :
    (s : OfSwitch) (port : ℕ)
    → s.xid < 2 ^ 32
    → port < 2 ^ 32
    → AreBytes s.read_buffer.byte
    → s.bytes_expected ≡ 0
    → let t = write_new_flow (write_new_flow s src_table port) dst_table port in
      let mac = source_mac s.read_buffer.byte in
      (decode_flow_mod t.write_buffer.byte
        ≡ some (src_rule mac (peek_be 4 8 s.read_buffer.byte) port s.xid))
      × (decode_flow_mod (from 80 t.write_buffer.byte) ≡ some (dst_rule mac port (u32 (s.xid + 1))))
      × (t.bytes_expected ≡ 80 + 88)
unfolding write_new_flow store_fields src_flow_length dst_flow_length touch
write_new_flow-src-dst s port small small_port bytes empty = (
  rw empty (
      src-dst-decode s.xid small s.write_buffer.byte mac port small_port buffer (u32 (s.xid + 1))
      ∙ ap₂ (λ a b. some (src_rule a b port s.xid)) (learned_mac bytes)
          (ap (peek_be 4 0) (bytes_of_lem {m = buffer} (λ j. bytes (8 + j)))
            ∙ peek_be-from s.read_buffer.byte)),
  rw empty (
      ap decode_flow_mod (from-poke_fields (dst_flow_fields (u32 (s.xid + 1)) mac port) 80 _)
      ∙ dst-decodes (u32 (s.xid + 1)) (omega arith) _ mac port small_port
      ∙ ap (λ a. some (dst_rule a port (u32 (s.xid + 1)))) (learned_mac bytes)),
  rw empty,
)
  where
    mac : Bytes
    mac = from (in_data_at s.read_buffer.byte) s.read_buffer.byte

    buffer : Bytes
    buffer = from 8 s.read_buffer.byte
