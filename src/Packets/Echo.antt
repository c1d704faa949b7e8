-- ===== src/Packets/Echo.antt =====
-- rw_packets.c: the echo reply.
use openflow_controller.Prelude.{ℕ, ◌+◌, ◌-◌, ◌^◌, List, ◌∷◌, ◌++◌, ◌==◌, if◌then◌else◌}
use openflow_controller.Memory.{Bytes, Buffer, peek_be, blit, touch}
use openflow_controller.Memory.Fields.{Field, raw_fields, from, store_fields}
use openflow_controller.Wire.Enums.{OfpType, ofp_version, ofp_type}
use openflow_controller.Wire.Layout.{sizeof, offset, ofp_header}
use openflow_controller.Switch.{RwStatus, OfSwitch, u64}

-- `memcpy(dst + j, src + i, n)` between two buffers: the source and the target after it.
unfoldable pub copy_bytes : ℕ → ℕ → Buffer → ℕ → Buffer → Buffer × Buffer
copy_bytes n i src j dst =
    (touch i n src, record (touch j n dst) { byte = blit n src.byte i j dst.byte })

-- `ntohs(header->length)` of the message in the read buffer
unfoldable pub received_length : OfSwitch → ℕ
received_length s = peek_be 2 (offset ofp_header 2) s.read_buffer.byte

-- `length` and `xid` go over as they stand in the request.
unfoldable pub echo_fields : Bytes → List Field
unfolding raw_fields
echo_fields request =
    (offset ofp_header 0, 1, ofp_version)
    ∷ (offset ofp_header 1, 1, ofp_type OfpType.echo_reply)
    ∷ (raw_fields 2 (offset ofp_header 2) (from (offset ofp_header 2) request)
        ++ raw_fields 4 (offset ofp_header 3) (from (offset ofp_header 3) request))

-- The payload is what stands behind the header. `ntohs(length) - sizeof(struct ofp_header)` is a
-- `size_t`: below 8 it wraps. A length of 8 copies nothing.
unfoldable pub echo_buffers : ℕ → Buffer → Buffer → Buffer × Buffer
unfolding copy_bytes
echo_buffers len src dst =
    if len == 8
    then (src, dst)
    else copy_bytes (u64 (len + 2 ^ 64 - sizeof ofp_header)) (sizeof ofp_header) src
        (sizeof ofp_header) dst

unfoldable pub make_echo_reply : OfSwitch → OfSwitch
unfolding received_length echo_fields echo_buffers
make_echo_reply s =
    let len = received_length s in
    let (read', write') =
      echo_buffers len s.read_buffer
        (store_fields (echo_fields s.read_buffer.byte) 0 s.write_buffer) in
    record s {
      read_buffer = read';
      write_buffer = write';
      bytes_expected = len;
      bytes_read = 0;
      rw = RwStatus.write;
    }
