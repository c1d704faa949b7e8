-- ===== src/Packets/Ports.antt =====
-- rw_packets.c: multipart replies. Of the printing of port statistics the
-- model keeps the reads of the buffer.
pub mod Kept
pub mod Table
pub mod Closed
pub mod Stats
use openflow_controller.Prelude.{ℕ, zero, suc, ◌+◌, ◌-◌, ◌*◌, ◌/◌, ◌^◌, ltb, ◌==◌, if◌then◌else◌}
use openflow_controller.Memory.{Buffer, peek_be, touch}
use openflow_controller.Wire.Enums.{OfpPortNo, ofp_port_no, ofpmp_port_stats, ofpmp_port_desc}
use openflow_controller.Wire.Layout.{sizeof, offset, ofp_port, ofp_multipart_reply}
use openflow_controller.Wire.Multipart.{ofp_port_stats}
use openflow_controller.Switch.{OfSwitch, u16, u32, u64}
use openflow_controller.Packets.Echo.{copy_bytes, received_length}

-- `num_ports`: a `size_t` quotient assigned to an `int`. A negative one means no rounds.
unfoldable pub port_count : ℕ → ℕ
port_count length =
    let n = u32 (u64 (length + 2 ^ 64 - sizeof ofp_multipart_reply) / sizeof ofp_port) in
    if ltb n (2 ^ 31) then n else 0

-- One round: the port description at offset `at` of the reply goes to the entry of its number.
unfoldable pub save_port : ℕ → OfSwitch → OfSwitch
unfolding copy_bytes
save_port at s =
    let port_no = peek_be 4 (at + offset ofp_port 0) s.read_buffer.byte in
    let seen = touch at 4 s.read_buffer in
    if port_no == ofp_port_no OfpPortNo.local
    then record s { read_buffer = seen }
    else (let (reply, ports) =
          copy_bytes (sizeof ofp_port) at seen (sizeof ofp_port * port_no) s.connected_ports in
        record s { read_buffer = reply; connected_ports = ports })

-- `n` rounds from the description at offset `at` on.
unfoldable pub save_ports : ℕ → ℕ → OfSwitch → OfSwitch
save_ports zero at s = s
save_ports (suc n) at s = save_ports n (at + sizeof ofp_port) (save_port at s)

unfoldable pub save_connected_ports : OfSwitch → OfSwitch
unfolding port_count save_ports
save_connected_ports s = save_ports (port_count (received_length s)) (sizeof ofp_multipart_reply) s

-- The reads of `print_port_stats`: `n` rounds, each of the fields of the statistics at offset `at`, from
-- `port_no` to `duration_sec`.
unfoldable pub read_port_stats : ℕ → ℕ → Buffer → Buffer
read_port_stats zero at b = b
read_port_stats (suc n) at b = read_port_stats n (at + sizeof ofp_port_stats) (touch at 108 b)

-- `num_ports` of `print_port_stats`, whose `packet_length` is a `uint16_t`.
unfoldable pub stats_count : ℕ → ℕ
stats_count length = u16 (length + 2 ^ 16 - sizeof ofp_multipart_reply) / sizeof ofp_port_stats

unfoldable pub print_port_stats : OfSwitch → OfSwitch
unfolding read_port_stats stats_count
print_port_stats s = record s {
  read_buffer =
      read_port_stats (stats_count (received_length s)) (sizeof ofp_multipart_reply) s.read_buffer;
}

unfoldable pub handle_multipart_reply : OfSwitch → OfSwitch
unfolding save_connected_ports print_port_stats port_count save_ports save_port copy_bytes
handle_multipart_reply s =
    let type = peek_be 2 (offset ofp_multipart_reply 1) s.read_buffer.byte in
    if type == ofpmp_port_stats
    then print_port_stats s
    else if type == ofpmp_port_desc
    then save_connected_ports s
    else s
