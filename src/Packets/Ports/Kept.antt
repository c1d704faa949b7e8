-- ===== src/Packets/Ports/Kept.antt =====
-- What a multipart reply keeps of a switch.
use openflow_controller.Prelude.{
  ℕ, zero, suc, ◌+◌, refl, ◌==◌, Bool-cases, inl, inr, ◌≡◌, subst, sym,
}
use openflow_controller.Memory.{Buffer, touch, peek_be}
use openflow_controller.Memory.Words.{AreBytes}
use openflow_controller.Switch.{OfSwitch}
use openflow_controller.Transfer.Kept.{Kept, same_fd-Kept}
use openflow_controller.Packets.Echo.{received_length}
use openflow_controller.Packets.Ports.{
  save_port, save_ports, save_connected_ports, handle_multipart_reply, port_count, read_port_stats,
  print_port_stats, stats_count,
}

save_port-Kept : (at : ℕ) (s : OfSwitch) → AreBytes s.read_buffer.byte → Kept s (save_port at s)
unfolding save_port touch
save_port-Kept at s h = elim (Bool-cases (peek_be 4 (at + 0) s.read_buffer.byte == 0xfffffffe)) [
  | inl local ↦ rw local (record { same_fd = refl; bytes = h })
  | inr other ↦ rw other (record { same_fd = refl; bytes = h })
]

save_ports-Kept :
    (n at : ℕ) (s : OfSwitch) → AreBytes s.read_buffer.byte → Kept s (save_ports n at s)
unfolding save_ports
save_ports-Kept zero at s h = record { same_fd = refl; bytes = h }
save_ports-Kept (suc n) at s h =
    let k = save_port-Kept at s h in
    same_fd-Kept (save_ports-Kept n (at + 64) (save_port at s) k.bytes) k.same_fd

all_ports-Kept : (s : OfSwitch) → AreBytes s.read_buffer.byte → Kept s (save_connected_ports s)
unfolding save_connected_ports
all_ports-Kept s h = save_ports-Kept (port_count (received_length s)) 16 s h

pub read_port_stats-byte : (n at : ℕ) (b : Buffer) → (read_port_stats n at b).byte ≡ b.byte
unfolding read_port_stats touch
read_port_stats-byte zero at b = refl
read_port_stats-byte (suc n) at b = read_port_stats-byte n (at + 112) (touch at 108 b)

stats-Kept : (s : OfSwitch) → AreBytes s.read_buffer.byte → Kept s (print_port_stats s)
unfolding print_port_stats
stats-Kept s h =
    let e = read_port_stats-byte (stats_count (received_length s)) 16 s.read_buffer in
    record { same_fd = refl; bytes = subst AreBytes (sym e) h }

pub handle_multipart_reply-Kept :
    (s : OfSwitch) → AreBytes s.read_buffer.byte → Kept s (handle_multipart_reply s)
unfolding handle_multipart_reply
handle_multipart_reply-Kept s h = elim (Bool-cases (peek_be 2 8 s.read_buffer.byte == 4)) [
  | inl stats ↦ rw stats (stats-Kept s h)
  | inr other ↦ elim (Bool-cases (peek_be 2 8 s.read_buffer.byte == 13)) [
    | inl desc ↦ rw (other, desc) (all_ports-Kept s h)
    | inr neither ↦ rw (other, neither) (record { same_fd = refl; bytes = h })
  ]
]
