-- ===== src/Packets/Ports/Stats.antt =====
-- The reads of `print_port_stats`, rw_packets.c.
use openflow_controller.Prelude.{
  ℕ, zero, suc, ◌+◌, ◌*◌, ◌<◌, ◌≤◌, ◌≡◌, true, false, inl, inr, Bool-cases, ltb, ltb→lt, arith,
  eq→==,
}
use openflow_controller.Memory.{Buffer, peek_be, touch}
use openflow_controller.Memory.Safe.{IsSafe}
use openflow_controller.Switch.{OfSwitch}
use openflow_controller.Packets.Echo.{received_length}
use openflow_controller.Packets.Ports.{
  handle_multipart_reply, read_port_stats, print_port_stats, stats_count,
}
use openflow_controller.Packets.Sound.Ports.{read_port_stats-IsSafe, stats_count_room}

past_end : (at : ℕ) (b : Buffer) → b.size < at + 108 → (touch at 108 b).fault ≡ true
unfolding touch
past_end at b past = ground (arith, past)

size-touch : (at : ℕ) (b : Buffer) → (touch at 108 b).size ≡ b.size
unfolding touch
size-touch at b = λ i. b.size

-- Statistics that end past the buffer.
read_port_stats-past :
    (n at : ℕ) (b : Buffer)
    → b.size < at + 112 * n + 108
    → (read_port_stats (suc n) at b).fault ≡ true
unfolding read_port_stats
read_port_stats-past zero at b past = past_end at b (omega (arith, past))
read_port_stats-past (suc n) at b past =
    read_port_stats-past n (at + 112) (touch at 108 b) (omega (arith, past, size-touch at b))

stats_count-wrapped : (length : ℕ) → 8 ≤ length → length < 16 → stats_count length ≡ 585
unfolding stats_count
stats_count-wrapped length low high = omega (arith, low, high)

-- A sound read buffer of 1500 bytes holds a reply of port statistics that announces 8 to 1500 bytes. Reading
-- the statistics goes out of the buffer exactly where fewer than 16 bytes are announced.
pub fault-handle_multipart_reply :
    (s : OfSwitch)
    → IsSafe 1500 s.read_buffer
    → s.read_buffer.size ≡ 1500
    → peek_be 2 8 s.read_buffer.byte ≡ 4
    → 8 ≤ received_length s
    → received_length s ≤ 1500
    → (handle_multipart_reply s).read_buffer.fault ≡ ltb (received_length s) 16
unfolding handle_multipart_reply print_port_stats
fault-handle_multipart_reply s safe size type low high =
    elim (Bool-cases (ltb (received_length s) 16)) [
      | inl short ↦
          let count =
            stats_count-wrapped (received_length s) low (ltb→lt (received_length s) 16 short) in
          rw (eq→== (peek_be 2 8 s.read_buffer.byte) 4 type, count, short)
            (read_port_stats-past 584 16 s.read_buffer (omega (arith, size)))
      | inr long ↦
          let count = stats_count_room (received_length s) (least (received_length s) long) high in
          rw (eq→== (peek_be 2 8 s.read_buffer.byte) 4 type, long)
            (read_port_stats-IsSafe (stats_count (received_length s)) 16 s.read_buffer count
              safe).sound
    ]
  where
    least : (n : ℕ) → ltb n 16 ≡ false → 16 ≤ n
    least n h = ground arith
