-- ===== src/Packets/Framing.antt =====
-- Seven messages of fixed length, rw_packets.c: what each header says, and the counters that go with it.
use openflow_controller.Prelude.{ℕ, ◌+◌, ◌^◌, ◌<◌, ◌≡◌, refl, ap, arith}
use openflow_controller.Memory.{poke, poke_be, peek_be}
use openflow_controller.Memory.Fields.{poke_fields, store_fields, extent}
use openflow_controller.Memory.Safe.{IsSafe, store_fields-IsSafe}
use openflow_controller.Memory.Words.{be32_lem}
use openflow_controller.Wire.Decode.{Header, decode_header}
use openflow_controller.Switch.{OfSwitch, RwStatus, u32}
use openflow_controller.Packets.Requests.{
  write_openflow_hello, request_features, set_config, get_port_info, write_error,
}
use openflow_controller.Packets.PacketOut.{flood_packet, send_probe_packet}

-- Seven builders, each of which writes one message of fixed length from the start of the buffer.
pub data Message : Type 0 where
  hello features config port_info error probe : Message
  flood : ℕ → Message

abbrev pub build : Message → OfSwitch → OfSwitch
build hello s = write_openflow_hello s
build features s = request_features s
build config s = set_config s
build port_info s = get_port_info s
build error s = write_error s
build probe s = send_probe_packet s
build (flood buffer_id) s = flood_packet s buffer_id

-- The type and the length that OpenFlow 1.3 gives the message.
abbrev message_type : Message → ℕ
message_type hello = 0
message_type features = 5
message_type config = 9
message_type port_info = 18
message_type error = 1
message_type probe = 13
message_type (flood _) = 13

abbrev message_length : Message → ℕ
message_length hello = 16
message_length features = 8
message_length config = 12
message_length port_info = 16
message_length error = 8
message_length probe = 54
message_length (flood _) = 40

abbrev header_of : Message → ℕ → Header
header_of msg xid = record {
  version = 4;
  type = message_type msg;
  length = message_length msg;
  xid = xid;
}

-- A message of `s` stands in the write buffer of `t`, and all its bytes are to be sent.
pub record IsFramed (msg : Message) (s t : OfSwitch) : Type 0 where
  pub header : decode_header t.write_buffer.byte ≡ header_of msg s.xid
  pub counted : t.bytes_expected ≡ message_length msg
  pub writes : t.rw ≡ RwStatus.write
  pub next_xid : t.xid ≡ u32 (s.xid + 1)
  pub safe : IsSafe 54 t.write_buffer

module _ (s : OfSwitch) (small : s.xid < 2 ^ 32) (safe : IsSafe 54 s.write_buffer) where
  build-IsSafe : (msg : Message) → IsSafe 54 (build msg s).write_buffer
  unfolding write_openflow_hello request_features set_config get_port_info write_error
      send_probe_packet flood_packet extent
  build-IsSafe hello = store_fields-IsSafe safe _ 0 (omega arith)
  build-IsSafe _ = store_fields-IsSafe safe _ 0 (omega arith)

  -- For a transaction id of 32 bits and a write buffer of 54 bytes or more, each of the seven builders hello,
  -- features request, switch configuration, port description request, error, probe and flood writes a header
  -- of version 4 with the message's type, its length and the transaction id, sets the count of bytes
  -- to send to that length, advances the transaction id, asks to write, and stays inside the buffer.
  pub build-IsFramed : (msg : Message) → IsFramed msg s (build msg s)
  unfolding write_openflow_hello request_features set_config get_port_info write_error
      send_probe_packet flood_packet store_fields decode_header poke_fields poke_be poke peek_be
  build-IsFramed hello = record {
    header = ap (header_of hello) (be32_lem s.xid small);
    counted = refl;
    writes = refl;
    next_xid = refl;
    safe = build-IsSafe hello;
  }
  build-IsFramed msg = record {
    header = ap (header_of msg) (be32_lem s.xid small);
    counted = refl;
    writes = refl;
    next_xid = refl;
    safe = build-IsSafe msg;
  }
