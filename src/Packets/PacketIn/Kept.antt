-- ===== src/Packets/PacketIn/Kept.antt =====
-- What `read_packet_in` keeps of a switch, and the link that it reports.
use openflow_controller.Prelude.{
  ℕ, ◌+◌, ◌≡◌, refl, sym, subst, ◌∙◌, Option, none, some, ◌==◌, ==→eq, false, Bool-cases, inl, inr,
}
use openflow_controller.Memory.{peek_be, touch}
use openflow_controller.Memory.Fields.{from}
use openflow_controller.Memory.Words.{AreBytes}
use openflow_controller.Outcome.{Gives}
use openflow_controller.Switch.{OfSwitch}
use openflow_controller.Transfer.Kept.{Kept}
use openflow_controller.Packets.FlowMod.{src_table, dst_table}
use openflow_controller.Packets.FlowMod.NewFlow.{write_new_flow, write_flow_mod}
use openflow_controller.Packets.PacketIn.{read_packet_in, touch_frame}
use openflow_controller.Packets.PacketIn.Ports.{get_input_port_lem}
use openflow_controller.Packets.PacketIn.Learning.{neighbour, byte-touch_frame}

-- A link is reported only for a packet that the switch missed and whose frame shows a neighbour.
pub record IsLink (s : OfSwitch) (nextdoor_fd : ℕ) : Type 0 where
  pub missed : peek_be 1 14 s.read_buffer.byte ≡ 0
  pub found : nextdoor_fd ≡ neighbour s
  pub shown : (nextdoor_fd == 0) ≡ false

abbrev pub Links : OfSwitch → Option (ℕ × ℕ) → Type 0
Links s none = Unit {0}
Links s (some (nextdoor_fd, port)) = IsLink s nextdoor_fd

write_new_flow-Kept :
    (s : OfSwitch) (table port : ℕ)
    → AreBytes s.read_buffer.byte
    → Kept s (write_new_flow s table port)
unfolding write_new_flow touch
write_new_flow-Kept s table port h = record { same_fd = refl; bytes = h }

touched : OfSwitch → OfSwitch
touched s = record s { read_buffer = touch_frame s.read_buffer }

AreBytes-touched :
    (s : OfSwitch) → AreBytes s.read_buffer.byte → AreBytes (touched s).read_buffer.byte
unfolding touched
AreBytes-touched s h = subst AreBytes (sym (byte-touch_frame s.read_buffer)) h

twice-Kept :
    (s : OfSwitch) (a b port : ℕ)
    → AreBytes s.read_buffer.byte
    → Kept s (write_new_flow (write_new_flow (touched s) a port) b port)
unfolding touched
twice-Kept s a b port h =
    let one = write_new_flow-Kept (touched s) a port (AreBytes-touched s h) in
    let two = write_new_flow-Kept (write_new_flow (touched s) a port) b port one.bytes in
    record { same_fd = two.same_fd ∙ one.same_fd; bytes = two.bytes }

pub read_packet_in-Kept :
    (s : OfSwitch)
    → AreBytes s.read_buffer.byte
    → Gives (read_packet_in s) (λ r. Kept s r.0 × Links s r.1)
unfolding read_packet_in write_flow_mod touched
read_packet_in-Kept s h =
    rw (get_input_port_lem (from 24 s.read_buffer.byte) (λ j. h (24 + j)))
      (elim (Bool-cases (peek_be 1 14 s.read_buffer.byte == 0)) [
        | inr other ↦ rw other (record { same_fd = refl; bytes = h }, tt)
        | inl missed ↦ elim (Bool-cases (neighbour s == 0)) [
          | inl nobody ↦ rw (missed, nobody) (twice-Kept s src_table dst_table _ h, tt)
          | inr somebody ↦
              rw (missed, somebody)
                (
                  record { same_fd = refl; bytes = AreBytes-touched s h },
                  record { missed = ==→eq _ 0 missed; found = refl; shown = somebody },
                )
        ]
      ])
